-- ===== src/DuneIndex/Settle.antt =====
-- What `index_runes` (storage/runes/updater.rs) does with the dunes that no edict allocated.
pub mod Sums
use maestro_dogecoin_indexer.Prelude.{
  ℕ, ◌+◌, Bool, true, false, Option, none, some, List, [], ◌∷◌, ltb, ◌==◌, if◌then◌else◌, ◌>>=◌,
  or_else, length,
}
use maestro_dogecoin_indexer.DuneIndex.Edicts.{add_entry, add_output}

-- The first output that is no OP_RETURN, from the output number `i` on.
unfoldable pub first_destination : ℕ → List Bool → Option ℕ
first_destination i [] = none
first_destination i (is_op_return ∷ outputs) =
    let later = first_destination (i + 1) outputs in if is_op_return then later else some i

-- `default_output` if it is an output, or else the first destination.
unfoldable pub leftover_output : List Bool → Option ℕ → Option ℕ
unfolding first_destination
leftover_output outputs pointer =
    or_else (do vout ← pointer; if ltb vout (length outputs) then some vout else none)
      (first_destination 0 outputs)

unfoldable pub give_all : ℕ → List (ℕ × ℕ) → List (List (ℕ × ℕ)) → List (List (ℕ × ℕ))
unfolding add_output
give_all vout [] allocated = allocated
give_all vout ((id, balance) ∷ m) allocated =
    give_all vout m (if ltb 0 balance then add_output vout id balance allocated else allocated)

unfoldable pub burn_all : Bool → List (ℕ × ℕ) → List (ℕ × ℕ) → List (ℕ × ℕ)
unfolding add_entry
burn_all zeros [] burned = burned
burn_all zeros ((id, balance) ∷ m) burned =
    burn_all zeros m
      (if (if zeros then true else ltb 0 balance) then add_entry id balance burned else burned)

-- The outputs and the burned dunes at the end. A cenotaph burns all, with entries for balances of 0.
unfoldable pub settle :
    List Bool
    → Bool
    → Option ℕ
    → List (ℕ × ℕ)
    → List (List (ℕ × ℕ))
    → List (List (ℕ × ℕ)) × List (ℕ × ℕ)
unfolding leftover_output give_all burn_all
settle outputs cenotaph pointer unallocated allocated =
    if cenotaph
    then (allocated, burn_all true unallocated [])
    else (elim (leftover_output outputs pointer) [
      | some vout ↦ (give_all vout unallocated allocated, [])
      | none ↦ (allocated, burn_all false unallocated [])
    ])
