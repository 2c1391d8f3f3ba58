-- ===== src/DuneIndex/Settle/Sums.antt =====
-- The end of `index_runes` gives every dune that is left to one output, or burns it.
use maestro_dogecoin_indexer.Prelude.{
  ℕ, ◌+◌, ◌≤◌, ◌<◌, ◌≡◌, Bool, true, false, Option, some, List, [], ◌∷◌, arith, ltb, ◌==◌,
  if◌then◌else◌, length, Bool-cases, Option-cases, inl, inr, ==_iff,
}
use maestro_dogecoin_indexer.Prelude.Words.{u128_max}
use maestro_dogecoin_indexer.DuneIndex.Edicts.{add_entry, add_output}
use maestro_dogecoin_indexer.DuneIndex.Settle.{
  first_destination, leftover_output, give_all, burn_all, settle,
}
use maestro_dogecoin_indexer.DuneIndex.Amounts.{
  sum_of, sum_outputs, sum_of-add_entry_self, sum_of-add_entry_ne, sum_outputs-add_output_self,
  sum_outputs-add_output_ne, length-add_output,
}

-- One more entry, of any dune.
sum_outputs-add_output :
    (vout id k b : ℕ) (ms : List (List (ℕ × ℕ)))
    → vout < length ms
    → sum_outputs id ms + (if k == id then b else 0) ≤ u128_max
    → sum_outputs id (add_output vout k b ms) ≡ sum_outputs id ms + (if k == id then b else 0)
sum_outputs-add_output vout id k b ms lt fits = elim (Bool-cases (k == id)) [
  | inl same ↦
      let e : k ≡ id = (==_iff k id).0 same in
      rw (same, e) (sum_outputs-add_output_self vout id b ms lt (ground arith))
  | inr other ↦ rw other (omega (arith, sum_outputs-add_output_ne vout id k b ms other))
]

sum_of-add_entry :
    (id k b : ℕ) (m : List (ℕ × ℕ))
    → sum_of id m + (if k == id then b else 0) ≤ u128_max
    → sum_of id (add_entry k b m) ≡ sum_of id m + (if k == id then b else 0)
sum_of-add_entry id k b m fits = elim (Bool-cases (k == id)) [
  | inl same ↦
      let e : k ≡ id = (==_iff k id).0 same in
      rw (same, e) (sum_of-add_entry_self id b m (ground arith))
  | inr other ↦ rw other (omega (arith, sum_of-add_entry_ne id k b m other))
]

give_all_sum :
    (vout id : ℕ) (m : List (ℕ × ℕ)) (ms : List (List (ℕ × ℕ)))
    → vout < length ms
    → sum_outputs id ms + sum_of id m ≤ u128_max
    → sum_outputs id (give_all vout m ms) ≡ sum_outputs id ms + sum_of id m
unfolding give_all sum_of
give_all_sum vout id [] ms lt fits = omega arith
give_all_sum vout id ((k, b) ∷ m) ms lt fits = elim (Bool-cases (ltb 0 b)) [
  | inl some_left ↦
      let step = sum_outputs-add_output vout id k b ms lt (omega arith) in
      rw some_left (
        omega (
          arith,
          step,
          give_all_sum vout id m (add_output vout k b ms)
              (omega (arith, length-add_output vout k b ms)) (omega (arith, step)),
        ))
  | inr none_left ↦
      let zero_left : (if k == id then b else 0) ≡ 0 = ground arith in
      rw none_left (omega (arith, zero_left, give_all_sum vout id m ms lt (omega arith)))
]

burn_all_sum :
    (zeros : Bool) (id : ℕ) (m burned : List (ℕ × ℕ))
    → sum_of id burned + sum_of id m ≤ u128_max
    → sum_of id (burn_all zeros m burned) ≡ sum_of id burned + sum_of id m
unfolding burn_all sum_of
burn_all_sum zeros id [] burned fits = omega arith
burn_all_sum zeros id ((k, b) ∷ m) burned fits =
    elim (Bool-cases (if zeros then true else ltb 0 b)) [
      | inl burns ↦
          let step = sum_of-add_entry id k b burned (omega arith) in
          rw burns (
            omega
              (arith, step, burn_all_sum zeros id m (add_entry k b burned) (omega (arith, step))))
      | inr passes ↦
          let nothing : (if k == id then b else 0) ≡ 0 = ground arith in
          rw passes (omega (arith, nothing, burn_all_sum zeros id m burned (omega arith)))
    ]

first_destination-lt :
    (i : ℕ) (outputs : List Bool) (vout : ℕ)
    → first_destination i outputs ≡ some vout
    → vout < i + length outputs
unfolding first_destination
first_destination-lt i [] vout h = cc
first_destination-lt i (o ∷ outputs) vout h =
    ground (arith, first_destination-lt (i + 1) outputs vout)

leftover_output-lt :
    (outputs : List Bool) (pointer : Option ℕ) (vout : ℕ)
    → leftover_output outputs pointer ≡ some vout
    → vout < length outputs
unfolding leftover_output
leftover_output-lt outputs pointer vout h = ground (arith, first_destination-lt 0 outputs vout)

-- `settle` keeps the whole amount of a dune: what the outputs hold and what is burned afterwards is
-- what the outputs held and what was left over.
pub settle_sum :
    (outputs : List Bool) (cenotaph : Bool) (pointer : Option ℕ) (m : List (ℕ × ℕ))
    (allocated : List (List (ℕ × ℕ))) (id : ℕ)
    → length allocated ≡ length outputs
    → sum_outputs id allocated + sum_of id m ≤ u128_max
    → sum_outputs id (settle outputs cenotaph pointer m allocated).0
        + sum_of id (settle outputs cenotaph pointer m allocated).1
      ≡ sum_outputs id allocated + sum_of id m
unfolding settle sum_of
settle_sum outputs true pointer m allocated id len fits =
    omega (arith, burn_all_sum true id m [] (omega arith))
settle_sum outputs false pointer m allocated id len fits =
    elim (Option-cases (leftover_output outputs pointer)) [
      | inl nowhere ↦ rw nowhere (omega (arith, burn_all_sum false id m [] (omega arith)))
      | inr (vout, found) ↦ rw found (
          omega (
            arith,
            give_all_sum vout id m allocated
                (omega (arith, len, leftover_output-lt outputs pointer vout found)) fits,
          ))
    ]
