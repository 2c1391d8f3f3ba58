-- ===== src/Inscriptions/Index/Conserved.antt =====
-- No inscription is dropped or doubled by `index_inscriptions`, and what the counters count
-- (services/compressor-xdg/src/storage/inscriptions/updater.rs).
use mathlib.Core.List.{Perm, perm_append_comm}
use mathlib.Core.List.Perm
use maestro_dogecoin_indexer.Prelude.{
  ℕ, ◌≤◌, ◌≡◌, ◌∙◌, ap, sym, refl, true, false, Option, List, [], ◌∷◌, ◌++◌, map, All, ◌==◌, arith,
  length, append-nil, append_assoc, inl, inr, Bool-cases,
}
use maestro_dogecoin_indexer.Prelude.Words.{u64_max}
use maestro_dogecoin_indexer.Bitcoin.{BitcoinCrate, TxOut, Transaction}
use maestro_dogecoin_indexer.Storage.{TxoRef, TxoBody, InscriptionId}
use maestro_dogecoin_indexer.Drc20.Ledger.{Brc20Tables}
use maestro_dogecoin_indexer.Inscriptions.Placement.{
  SatPoint, Flotsam, sort_by_offset, place_outputs, end_value,
}
use maestro_dogecoin_indexer.Inscriptions.Placement.Located.{
  moved, values, IsLocated, place_outputs-sort,
}
use maestro_dogecoin_indexer.Inscriptions.Updater.{
  Codec, Counters, NewInscriptionInfo, PartialTables, Gathered, done,
}
use maestro_dogecoin_indexer.Inscriptions.Moves.{
  update_locations, lose, pass_to_coinbase, output_inscriptions, not_contained,
}
use maestro_dogecoin_indexer.Inscriptions.Index.{
  null_outpoint, Moved, IndexInscriptionsResult, BlockState, is_coinbase_input, move_coinbase,
  move_others, move_inscriptions, index_inscriptions,
}
use maestro_dogecoin_indexer.Inscriptions.Index.Runs.{index_inscriptions-Run}
use maestro_dogecoin_indexer.Inscriptions.Index.Outputs.{
  outgoing_id, ids_in, InOutputs, Foreign, output_inscriptions-perm, output_inscriptions-Foreign,
  not_contained-Foreign,
}
use maestro_dogecoin_indexer.Inscriptions.Index.Inputs.{
  id_of, new_id, input_ids, map-id-append, gathered_ids, try_inscribe-Reveals,
}

outgoing_of : List (SatPoint × Flotsam) → List (SatPoint × InscriptionId)
outgoing_of [] = []
outgoing_of ((satpoint, f) ∷ placed) = (satpoint, f.inscription_id) ∷ outgoing_of placed

update_locations_outgoing :
    (placed : List (SatPoint × Flotsam)) (counters : Counters)
    → (update_locations placed counters).1 ≡ outgoing_of placed
unfolding update_locations outgoing_of
update_locations_outgoing [] counters = refl
update_locations_outgoing ((satpoint, f) ∷ placed) counters =
    ap (λ (l : List (SatPoint × InscriptionId)). (satpoint, f.inscription_id) ∷ l)
      (update_locations_outgoing placed _)

outgoing_ids :
    (placed : List (SatPoint × Flotsam))
    → map outgoing_id (outgoing_of placed) ≡ map id_of (map moved placed)
unfolding outgoing_of
outgoing_ids [] = refl
outgoing_ids ((satpoint, f) ∷ placed) =
    ap (λ (l : List InscriptionId). f.inscription_id ∷ l) (outgoing_ids placed)

pass_ids :
    (reward output_value : ℕ) (flotsam : List Flotsam)
    → map id_of (pass_to_coinbase reward output_value flotsam) ≡ map id_of flotsam
unfolding pass_to_coinbase
pass_ids reward output_value [] = refl
pass_ids reward output_value (f ∷ flotsam) =
    ap (λ (l : List InscriptionId). f.inscription_id ∷ l) (pass_ids reward output_value flotsam)

-- What a coinbase loses goes to the null outpoint.
lose_ids :
    (lost_sats output_value : ℕ) (flotsam : List Flotsam)
    → map outgoing_id (outgoing_of (lose null_outpoint lost_sats output_value flotsam))
      ≡ map id_of flotsam
unfolding lose outgoing_of
lose_ids lost_sats output_value [] = refl
lose_ids lost_sats output_value (f ∷ flotsam) =
    ap (λ (l : List InscriptionId). f.inscription_id ∷ l) (lose_ids lost_sats output_value flotsam)

lose-Foreign :
    (txid lost_sats output_value : ℕ) (flotsam : List Flotsam)
    → (txid == 0) ≡ false
    → All (Foreign txid) (outgoing_of (lose null_outpoint lost_sats output_value flotsam))
unfolding lose outgoing_of
lose-Foreign txid lost_sats output_value [] h = tt
lose-Foreign txid lost_sats output_value (f ∷ flotsam) h =
    (ground (arith, h), lose-Foreign txid lost_sats output_value flotsam h)

module _ {Script : Type 0} where
  located-InOutputs :
      (txid : ℕ) (outputs : List (TxOut Script)) (placed : List (SatPoint × Flotsam))
      → All (IsLocated txid 0 0 outputs) placed
      → All (InOutputs txid outputs) (outgoing_of placed)
  unfolding outgoing_of
  located-InOutputs txid outputs [] h = tt
  located-InOutputs txid outputs ((satpoint, f) ∷ placed) (l, h) =
      ((l.i, l.output, l.exists, l.outpoint), located-InOutputs txid outputs placed h)

  outputs_and_left :
      (txid : ℕ) (outputs : List (TxOut Script)) (flotsam : List Flotsam)
      → values outputs ≤ u64_max
      → let result = place_outputs txid 0 0 outputs (sort_by_offset flotsam) in
        All (InOutputs txid outputs) (outgoing_of result.0)
        × Perm
            (ids_in (output_inscriptions txid 0 outputs (outgoing_of result.0))
              ++ map id_of result.1)
            (map id_of flotsam)
  outputs_and_left txid outputs flotsam fits =
      let (placed, left) = place_outputs txid 0 0 outputs (sort_by_offset flotsam) in
      let (conserved, located, lost) = place_outputs-sort txid outputs flotsam fits in
      let inside = located-InOutputs txid outputs placed located in
      let grouped = output_inscriptions-perm txid outputs (outgoing_of placed) inside in
      (
        inside,
        Perm.trans (Perm.append_right (map id_of left) grouped) (
            rw (outgoing_ids placed, ← map-id-append (map moved placed) left)
              (Perm.map id_of conserved)),
      )

module _ (crate : BitcoinCrate) (codec : Codec crate.Script) (lowercase_bytes : List ℕ → List ℕ)
    (partials : PartialTables) (tables : Brc20Tables) (resolver : TxoRef → Option TxoBody)
    (tx : Transaction crate.Script) (txid height : ℕ)
    (state : BlockState crate codec lowercase_bytes partials tables) where
  pub other_moves :
      (g : Gathered) (floating : List Flotsam)
      → is_coinbase_input crate.is_null tx.input ≡ false
      → let result = place_outputs txid 0 0 tx.output (sort_by_offset floating) in
        move_inscriptions crate codec lowercase_bytes partials tables tx txid state g floating
        ≡ move_others g.unused state.counters state.reward state.cb_inscriptions g.total_input_value
            (end_value 0 tx.output)
            result.0
            result.1
  unfolding move_inscriptions
  other_moves g floating other = rw other refl

  coinbase_moves :
      (g : Gathered) (floating : List Flotsam)
      → is_coinbase_input crate.is_null tx.input ≡ true
      → let result =
          place_outputs txid 0 0 tx.output (sort_by_offset (floating ++ state.cb_inscriptions)) in
        move_inscriptions crate codec lowercase_bytes partials tables tx txid state g floating
        ≡ move_coinbase state.counters state.reward (end_value 0 tx.output) result.0 result.1
  unfolding move_inscriptions
  coinbase_moves g floating coinbase = rw coinbase refl

  -- What a transaction does with the inscriptions that float in it: they are in its outputs, lost, or passed on.
  Accounts : List Flotsam → Moved → Type 0
  Accounts floating moves =
      Perm
        (ids_in (output_inscriptions txid 0 tx.output moves.outgoing)
          ++ map outgoing_id (not_contained txid moves.outgoing)
          ++ map id_of moves.cb_inscriptions)
        (map id_of floating ++ map id_of state.cb_inscriptions)

  others-Accounts :
      (g : Gathered) (floating : List Flotsam)
      → is_coinbase_input crate.is_null tx.input ≡ false
      → values tx.output ≤ u64_max
      → Accounts floating
          (move_inscriptions crate codec lowercase_bytes partials tables tx txid state g floating)
  unfolding Accounts move_others
  others-Accounts g floating other fits =
      let (placed, left) = place_outputs txid 0 0 tx.output (sort_by_offset floating) in
      let (inside, perm) = outputs_and_left txid tx.output floating fits in
      let ids = ids_in (output_inscriptions txid 0 tx.output (outgoing_of placed)) in
      let cb = map id_of state.cb_inscriptions in
      let passed = pass_to_coinbase state.reward (end_value 0 tx.output) left in
      let own : not_contained txid (outgoing_of placed) ≡ [] =
        ap (not_contained txid) (sym (append-nil (outgoing_of placed)))
        ∙ not_contained-Foreign txid tx.output (outgoing_of placed) [] inside tt in
      let swapped : Perm (ids ++ (cb ++ map id_of left)) (ids ++ map id_of left ++ cb) =
        Perm.trans (Perm.append_left ids (perm_append_comm cb (map id_of left)))
          (rw (append_assoc ids (map id_of left) cb) (Perm.refl _)) in
      rw
        (
          other_moves g floating other,
          update_locations_outgoing placed state.counters,
          own,
          append-nil ids,
          map-id-append state.cb_inscriptions passed,
          pass_ids state.reward (end_value 0 tx.output) left,
        )
        (Perm.trans swapped (Perm.append_right cb perm))

  coinbase-Accounts :
      (g : Gathered) (floating : List Flotsam)
      → is_coinbase_input crate.is_null tx.input ≡ true
      → values tx.output ≤ u64_max
      → (txid == 0) ≡ false
      → Accounts floating
          (move_inscriptions crate codec lowercase_bytes partials tables tx txid state g floating)
  unfolding Accounts move_coinbase
  coinbase-Accounts g floating coinbase fits named =
      let flotsam = floating ++ state.cb_inscriptions in
      let ov = end_value 0 tx.output in
      let (placed, left) = place_outputs txid 0 0 tx.output (sort_by_offset flotsam) in
      let (inside, perm) = outputs_and_left txid tx.output flotsam fits in
      let (counters, outgoing) = update_locations placed state.counters in
      let lost = lose null_outpoint counters.lost_sats ov left in
      let away = lose-Foreign txid counters.lost_sats ov left named in
      rw
        (
          coinbase_moves g floating coinbase,
          update_locations_outgoing placed state.counters,
          update_locations_outgoing lost counters,
          output_inscriptions-Foreign txid 0 tx.output (outgoing_of placed) (outgoing_of lost) away,
          not_contained-Foreign txid tx.output (outgoing_of placed) (outgoing_of lost) inside away,
          lose_ids counters.lost_sats ov left,
          append-nil (
              ids_in (output_inscriptions txid 0 tx.output (outgoing_of placed)) ++ map id_of left),
        )
        (rw (← map-id-append floating state.cb_inscriptions) perm)

  -- What `index_inscriptions` does with the inscriptions that it takes and the one that it reveals.
  pub record KeepsInscriptions (state' : BlockState crate codec lowercase_bytes partials tables)
      (result : IndexInscriptionsResult) : Type 0 where
    pub fresh : List NewInscriptionInfo
    pub revealed : state'.new_inscriptions ≡ state.new_inscriptions ++ fresh
    pub at_most_one : length fresh ≤ 1
    pub conserved :
        Perm
          (ids_in result.output_inscriptions
            ++ map outgoing_id result.lost_or_unbound_inscriptions
            ++ map id_of state'.cb_inscriptions)
          (input_ids crate.is_null resolver tx.input
            ++ map new_id fresh
            ++ map id_of state.cb_inscriptions)

  -- Let the values of a transaction's outputs sum up to at most 2^64 - 1, let its txid not be 0, and let
  -- `index_inscriptions` answer. Then it reveals at most one new inscription. The inscriptions of the
  -- transaction's outputs, those that it loses, and those that are passed on to the coinbase behind it are,
  -- each as often and in some order, the ones on all outputs that it spends, the new one, and those that
  -- were passed on to the coinbase before it. This holds of the coinbase, too.
  pub index_inscriptions-KeepsInscriptions :
      (state' : BlockState crate codec lowercase_bytes partials tables)
      (result : IndexInscriptionsResult)
      → index_inscriptions crate codec lowercase_bytes partials tables resolver tx txid height state
        ≡ done (state', result)
      → values tx.output ≤ u64_max
      → (txid == 0) ≡ false
      → KeepsInscriptions state' result
  unfolding Accounts
  index_inscriptions-KeepsInscriptions state' result h fits named =
      let run =
        index_inscriptions-Run crate codec lowercase_bytes partials tables resolver tx txid height
          state state' result h in
      let floating = run.revealed.floating in
      let reveals =
        try_inscribe-Reveals codec partials txid tx state.counters state.partial_db run.g
          run.revealed run.reveals in
      let accounts : Accounts floating run.moves =
        rw run.moved (elim (Bool-cases (is_coinbase_input crate.is_null tx.input)) [
          | inl coinbase ↦ coinbase-Accounts run.g floating coinbase fits named
          | inr other ↦ others-Accounts run.g floating other fits
        ]) in
      let ids : map id_of floating
          ≡ input_ids crate.is_null resolver tx.input ++ map new_id run.revealed.new_inscriptions =
        reveals.ids
        ∙ ap (λ (l : List InscriptionId). l ++ map new_id run.revealed.new_inscriptions)
            (gathered_ids codec crate.is_null resolver height tx.input run.g run.gathered) in
      record {
        fresh = run.revealed.new_inscriptions;
        revealed =
            ap (λ (s : BlockState crate codec lowercase_bytes partials tables). s.new_inscriptions)
              run.new_state;
        at_most_one = reveals.at_most_one;
        conserved = rw (run.new_state, run.new_result, ← ids) accounts;
      }
