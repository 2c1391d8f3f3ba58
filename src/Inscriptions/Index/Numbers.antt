-- ===== src/Inscriptions/Index/Numbers.antt =====
-- The numbers of new inscriptions (services/compressor-xdg/src/storage/inscriptions/updater.rs).
use mathlib.Core.Path.{subst}
use maestro_dogecoin_indexer.Prelude.{
  ℕ, zero, suc, ◌≤◌, ◌≡◌, ◌∙◌, ap, sym, refl, false, Option, some, List, [], ◌∷◌, ◌++◌, get_elem?,
  map, All, arith, inl, inr, Bool-cases, unwrap_or,
}
use maestro_dogecoin_indexer.Bitcoin.{BitcoinCrate, TxIn, TxOut, Transaction}
use maestro_dogecoin_indexer.Storage.{TxoRef, TxoBody}
use maestro_dogecoin_indexer.Drc20.Ledger.{Brc20Tables}
use maestro_dogecoin_indexer.Inscriptions.Parser.{
  ParsedInscription, absent, partial, complete, from_transactions,
}
use maestro_dogecoin_indexer.Inscriptions.Placement.{
  SatPoint, Flotsam, sort_by_offset, place_outputs,
}
use maestro_dogecoin_indexer.Inscriptions.Placement.Located.{values, IsLocated, place_outputs-sort}
use maestro_dogecoin_indexer.Inscriptions.Updater.{
  Codec, Counters, NewInscriptionInfo, PartialTables, PartialDb, Gathered, done, none_at_start,
  scripts_of,
}
use maestro_dogecoin_indexer.Inscriptions.Reveal.{
  Revealed, load_transactions, reveal, by_parsed, inscribe, try_inscribe,
}
use maestro_dogecoin_indexer.Inscriptions.Moves.{update_locations}
use maestro_dogecoin_indexer.Inscriptions.Index.{
  Moved, IndexInscriptionsResult, BlockState, is_coinbase_input, move_others, index_inscriptions,
}
use maestro_dogecoin_indexer.Inscriptions.Index.Runs.{bind-done, done_inj, index_inscriptions-Run}
use maestro_dogecoin_indexer.Inscriptions.Index.Conserved.{other_moves}

abbrev Numbered : ℕ → List NewInscriptionInfo → Type 0
Numbered number = All (λ (n : NewInscriptionInfo). n.number ≡ number)

module _ {Script : Type 0} (codec : Codec Script) (partials : PartialTables) (txid : ℕ)
    (tx : Transaction Script) (counters : Counters) (db : PartialDb partials) where
  by_parsed-Numbered :
      (total : ℕ) (txids : List ℕ) (floating : List Flotsam) (p : ParsedInscription)
      → Numbered counters.next_sequence_num
          (by_parsed codec partials txid tx total counters txids db floating p).new_inscriptions
  unfolding by_parsed reveal
  by_parsed-Numbered total txids floating absent = tt
  by_parsed-Numbered total txids floating partial = tt
  by_parsed-Numbered total txids floating (complete inscription) = (refl, tt)

  inscribe-Numbered :
      (total : ℕ) (floating : List Flotsam) (input : List TxIn) (revealed : Revealed codec partials)
      → inscribe codec partials txid tx total counters db floating input ≡ done revealed
      → Numbered counters.next_sequence_num revealed.new_inscriptions
  unfolding inscribe
  inscribe-Numbered total floating [] revealed h = absurd (cc h)
  inscribe-Numbered total floating (first ∷ rest) revealed h =
      let txids = unwrap_or (partials.Txids.get_by_key db.txids first.previous_output.txid) [] in
      let (txs, e, f) = bind-done (load_transactions codec partials db tx txids) _ h in
      subst
        (λ (r : Revealed codec partials). Numbered counters.next_sequence_num r.new_inscriptions)
        (done_inj f)
        (by_parsed-Numbered total txids floating (from_transactions (map (scripts_of codec) txs)))

  try_inscribe-Numbered :
      (g : Gathered) (revealed : Revealed codec partials)
      → try_inscribe codec partials txid tx counters db g ≡ done revealed
      → Numbered counters.next_sequence_num revealed.new_inscriptions
  unfolding try_inscribe
  try_inscribe-Numbered g revealed h = elim (Bool-cases (none_at_start codec g.floating)) [
    | inl free ↦
        inscribe-Numbered g.total_input_value g.floating tx.input revealed
          (rw (free, try_inscribe) at h)
    | inr taken ↦
        subst
          (λ (r : Revealed codec partials). Numbered counters.next_sequence_num r.new_inscriptions)
          (done_inj (rw (taken, try_inscribe) at h)) tt
  ]

module _ {Script : Type 0} where
  value-le :
      (outputs : List (TxOut Script)) (i : ℕ) (o : TxOut Script)
      → get_elem? outputs i ≡ some o
      → o.value ≤ values outputs
  unfolding values
  value-le [] i o h = cc
  value-le (x ∷ outputs) zero o h = ground arith
  value-le (x ∷ outputs) (suc i) o h = omega (arith, value-le outputs i o h)

  nothing_placed :
      (txid : ℕ) (outputs : List (TxOut Script)) (placed : List (SatPoint × Flotsam))
      → values outputs ≡ 0
      → All (IsLocated txid 0 0 outputs) placed
      → placed ≡ []
  nothing_placed txid outputs [] e h = refl
  nothing_placed txid outputs (x ∷ placed) e (l, h) =
      absurd (omega (arith, value-le outputs l.i l.output l.exists, l.inside))

module _ (crate : BitcoinCrate) (codec : Codec crate.Script) (lowercase_bytes : List ℕ → List ℕ)
    (partials : PartialTables) (tables : Brc20Tables) (resolver : TxoRef → Option TxoBody)
    (tx : Transaction crate.Script) (txid height : ℕ)
    (state : BlockState crate codec lowercase_bytes partials tables) where
  -- Let the outputs of a transaction that is no coinbase have no value, and let `index_inscriptions` answer. Then
  -- the counters stay as they are, and an inscription that the transaction reveals is reported with a
  -- number that is still the next one: the next inscription of the block gets the same number.
  pub index_inscriptions_same_number :
      (state' : BlockState crate codec lowercase_bytes partials tables)
      (result : IndexInscriptionsResult)
      → index_inscriptions crate codec lowercase_bytes partials tables resolver tx txid height state
        ≡ done (state', result)
      → is_coinbase_input crate.is_null tx.input ≡ false
      → values tx.output ≡ 0
      → (state'.counters ≡ state.counters)
        × (fresh : List NewInscriptionInfo) × (state'.new_inscriptions
            ≡ state.new_inscriptions ++ fresh)
        × All (λ (n : NewInscriptionInfo). n.number ≡ state'.counters.next_sequence_num) fresh
  unfolding move_others update_locations
  index_inscriptions_same_number state' result h other empty =
      let run =
        index_inscriptions-Run crate codec lowercase_bytes partials tables resolver tx txid height
          state state' result h in
      let floating = run.revealed.floating in
      let (placed, left) = place_outputs txid 0 0 tx.output (sort_by_offset floating) in
      let (conserved, located, lost) =
        place_outputs-sort txid tx.output floating (omega (arith, empty)) in
      let kept : state'.counters ≡ state.counters =
        ap (λ (s : BlockState crate codec lowercase_bytes partials tables). s.counters)
          run.new_state
        ∙ ap (λ (x : Moved). x.counters)
            (run.moved
              ∙ other_moves crate codec lowercase_bytes partials tables resolver tx txid height
                  state run.g floating other)
        ∙ ap (λ (l : List (SatPoint × Flotsam)). (update_locations l state.counters).0)
            (nothing_placed txid tx.output placed empty located) in
      (
        kept,
        run.revealed.new_inscriptions,
        ap (λ (s : BlockState crate codec lowercase_bytes partials tables). s.new_inscriptions)
            run.new_state,
        subst
            (λ (c : Counters).
              All (λ (n : NewInscriptionInfo). n.number ≡ c.next_sequence_num)
                run.revealed.new_inscriptions)
            (sym kept)
            (try_inscribe-Numbered codec partials txid tx state.counters state.partial_db run.g
              run.revealed run.reveals),
      )
