-- ===== src/DuneIndex/Accounts/Inputs.antt =====
-- The accounts of `index_runes` (storage/runes/updater.rs) from the outputs that a transaction spends to those it makes.
use mathlib.Core.Path.{subst}
use maestro_dogecoin_indexer.Prelude.{
  ℕ, ◌+◌, ◌≤◌, ◌≡◌, ◌∙◌, ap, sym, refl, false, Option, none, some, List, [], ◌∷◌, map, arith, ◌==◌,
  if◌then◌else◌, ==_iff, inl, inr, Bool-cases, Option-cases,
}
use maestro_dogecoin_indexer.Prelude.Words.{u128_max}
use maestro_dogecoin_indexer.Bitcoin.{BitcoinCrate, OutPoint, TxIn, Transaction}
use maestro_dogecoin_indexer.Dunes.Id.{to_u128}
use maestro_dogecoin_indexer.Dunes.Dunestone.{Dunestone, from_transaction}
use maestro_dogecoin_indexer.Storage.{StoredId, load_id, TxoRef, TxoBody}
use maestro_dogecoin_indexer.DuneIndex.Tables.{Tables, Db}
use maestro_dogecoin_indexer.DuneIndex.Mint.{claims_of}
use maestro_dogecoin_indexer.DuneIndex.Etch.{Network}
use maestro_dogecoin_indexer.DuneIndex.Edicts.{add_entry}
use maestro_dogecoin_indexer.DuneIndex.Amounts.{
  sum_of, sum_outputs, sum_of-add_entry_self, sum_of-add_entry_ne,
}
use maestro_dogecoin_indexer.DuneIndex.Accounts.Claims.{Absent}
use maestro_dogecoin_indexer.DuneIndex.Accounts.Whole.{index_dunestone-conserves}
use maestro_dogecoin_indexer.DuneIndex.{
  IndexRunesResult, Outcome, done, missing_txo, panicked, Resolver, add_dunes, unallocated_loop,
  unallocated, index_dunestone, index_runes,
}

-- How much of a dune is stored on an output.
unfoldable pub stored_amount : ℕ → List (StoredId × ℕ) → ℕ
stored_amount id [] = 0
stored_amount id ((stored, balance) ∷ dunes) =
    (if to_u128 (load_id stored) == id then balance else 0) + stored_amount id dunes

abbrev pub amount_on : ℕ → Option TxoBody → ℕ
amount_on id none = 0
amount_on id (some body) = stored_amount id body.dunes

module _ (crate : BitcoinCrate) where
  open crate use {Script, is_null}

  -- How much of a dune the spent outputs hold together.
  unfoldable pub held_by_inputs : ℕ → Resolver → List OutPoint → ℕ
  held_by_inputs id resolver [] = 0
  held_by_inputs id resolver (outpoint ∷ input) =
      (if is_null outpoint
        then 0
        else amount_on id (resolver (record { txid = outpoint.txid; vout = outpoint.vout })))
      + held_by_inputs id resolver input

  abbrev pub spent_amount : ℕ → Resolver → Transaction Script → ℕ
  spent_amount id resolver tx =
      held_by_inputs id resolver (map (λ (i : TxIn). i.previous_output) tx.input)

add_dunes_sum :
    (id : ℕ) (dunes : List (StoredId × ℕ)) (m : List (ℕ × ℕ))
    → sum_of id m + stored_amount id dunes ≤ u128_max
    → sum_of id (add_dunes dunes m) ≡ sum_of id m + stored_amount id dunes
unfolding add_dunes stored_amount
add_dunes_sum id [] m fits = omega arith
add_dunes_sum id ((stored, balance) ∷ dunes) m fits =
    let key = to_u128 (load_id stored) in
    elim (Bool-cases (key == id)) [
      | inl same ↦
          let grown : sum_of id (add_entry key balance m) ≡ sum_of id m + balance =
            subst (λ k. sum_of id (add_entry k balance m) ≡ sum_of id m + balance)
              (sym ((==_iff key id).0 same))
              (sum_of-add_entry_self id balance m (ground (arith, same, fits))) in
          add_dunes_sum id dunes _ (ground (arith, same, grown, fits)) ∙ ground (arith, same, grown)
      | inr other ↦
          let kept = sum_of-add_entry_ne id key balance m other in
          add_dunes_sum id dunes _ (ground (arith, kept, fits)) ∙ ground (arith, kept)
    ]

outcome_inj : {A : Type 0} {a b : A} → done a ≡ done b → a ≡ b
outcome_inj {a = a} e =
    ap (λ (o : Outcome _). elim o [ done x ↦ x | missing_txo _ ↦ a | panicked ↦ a ]) e

module _ (crate : BitcoinCrate) where
  unallocated_loop_sum :
      (id : ℕ) (resolver : Resolver) (input : List OutPoint) (m m' : List (ℕ × ℕ))
      → unallocated_loop crate resolver input m ≡ done m'
      → sum_of id m + held_by_inputs crate id resolver input ≤ u128_max
      → sum_of id m' ≡ sum_of id m + held_by_inputs crate id resolver input
  unfolding unallocated_loop held_by_inputs
  unallocated_loop_sum id resolver [] m m' e fits =
      ap (sum_of id) (sym (outcome_inj e)) ∙ omega arith
  unallocated_loop_sum id resolver (outpoint ∷ input) m m' e fits =
      let txo_ref : TxoRef = record { txid = outpoint.txid; vout = outpoint.vout } in
      let held = held_by_inputs crate id resolver in
      elim (Bool-cases (crate.is_null outpoint)) [
        | inl null ↦
            let nothing : held (outpoint ∷ input) ≡ 0 + held input =
              rw (held_by_inputs, null) refl in
            unallocated_loop_sum id resolver input m m' (rw (unallocated_loop, null) at e)
              (omega (arith, nothing, fits))
            ∙ omega (arith, nothing)
        | inr spent ↦ (elim (Option-cases (resolver txo_ref)) [
          | inl missing ↦ absurd (cc (rw (unallocated_loop, spent, missing) at e))
          | inr (body, found) ↦
              let here : held (outpoint ∷ input) ≡ stored_amount id body.dunes + held input =
                rw (held_by_inputs, spent, found) refl in
              let added = add_dunes_sum id body.dunes m (omega (arith, here, fits)) in
              unallocated_loop_sum id resolver input (add_dunes body.dunes m) m'
                (rw (unallocated_loop, spent, found) at e) (omega (arith, here, added, fits))
              ∙ omega (arith, here, added)
        ])
      ]

  -- What the outputs that a transaction spends hold of a dune goes to its outputs or is burned.
  abbrev pub Conserves :
      (tables : Tables)
      → ℕ
      → Resolver
      → Db tables
      → ℕ
      → Transaction crate.Script
      → ℕ
      → Network
      → ℕ
      → IndexRunesResult × Db tables
      → Type 0
  Conserves tables halving resolver db tx_index tx height network id answer =
      (m : List (ℕ × ℕ)) × (burned : List (ℕ × ℕ)) × (unallocated crate tx resolver ≡ done m)
      × (index_dunestone crate tables halving network tx_index tx height m db
          ≡ some (answer.0, burned, answer.1))
      × (sum_outputs id answer.0.output_dunes + sum_of id burned
          ≡ spent_amount crate id resolver tx)

  module _ (tables : Tables) (halving : ℕ) (resolver : Resolver) (db : Db tables) (tx_index : ℕ)
      (tx : Transaction crate.Script) (height : ℕ) (network : Network) (id : ℕ)
      (absent : (d : Dunestone)
        → from_transaction crate tx ≡ some d
        → Absent id (claims_of d.edicts))
      (other : (to_u128 (record { height = height; index = tx_index }) == id) ≡ false)
      (fits : spent_amount crate id resolver tx ≤ u128_max) where
    from_unallocated :
        (m : List (ℕ × ℕ)) (answer : IndexRunesResult × Db tables)
        (o : Option (IndexRunesResult × List (ℕ × ℕ) × Db tables))
        → unallocated crate tx resolver ≡ done m
        → index_dunestone crate tables halving network tx_index tx height m db ≡ o
        → (elim o [ none ↦ panicked | some (result, burned, db') ↦ done (result, db') ])
          ≡ done answer
        → Conserves tables halving resolver db tx_index tx height network id answer
    unfolding unallocated sum_of
    from_unallocated m answer none taken ran e = absurd (cc e)
    from_unallocated m answer (some (result, burned, db')) taken ran e =
        let summed : sum_of id m ≡ spent_amount crate id resolver tx =
          unallocated_loop_sum id resolver _ [] m taken (omega arith) ∙ omega arith in
        subst (Conserves tables halving resolver db tx_index tx height network id) (outcome_inj e) (
          m,
          burned,
          taken,
          ran,
          index_dunestone-conserves crate tables halving network tx_index tx height m db id
                (result, burned, db') ran absent other (omega (arith, summed, fits))
              ∙ summed,
        )

    from_outcome :
        (answer : IndexRunesResult × Db tables) (o : Outcome (List (ℕ × ℕ)))
        → unallocated crate tx resolver ≡ o
        → index_runes crate tables halving resolver db tx_index tx height network ≡ done answer
        → Conserves tables halving resolver db tx_index tx height network id answer
    unfolding index_runes
    from_outcome answer (missing_txo r) taken e = absurd (cc (rw (index_runes, taken) at e))
    from_outcome answer panicked taken e = absurd (cc (rw (index_runes, taken) at e))
    from_outcome answer (done m) taken e =
        from_unallocated m answer _ taken refl (rw (index_runes, taken) at e)

    -- Take a dune that no edict of the transaction's dunestone claims and that is not the one that this
    -- transaction could etch, and let the outputs that the transaction spends hold an amount of it that
    -- together fits a u128, on one of them or on several. If `index_runes` answers, then the outputs of
    -- the transaction and what it burns hold exactly that amount, whether there is a dunestone or none,
    -- and whether it is a cenotaph or not.
    pub index_runes-conserves :
        (answer : IndexRunesResult × Db tables)
        → index_runes crate tables halving resolver db tx_index tx height network ≡ done answer
        → Conserves tables halving resolver db tx_index tx height network id answer
    index_runes-conserves answer = from_outcome answer _ refl
