-- ===== src/Inscriptions/Index/Undo.antt =====
-- A rollback of what `index_inscriptions` did to the balances (services/compressor-xdg/src/storage/inscriptions/updater.rs
-- and storage/mod.rs).
use mathlib.Core.Path.{subst}
use maestro_dogecoin_indexer.Prelude.{
  ℕ, ◌≤◌, ◌≡◌, sym, Bool, Option, some, List, [], ◌∷◌, ◌++◌, All, All-append, inl, inr, Bool-cases,
  Option-cases, some_inj, if◌then◌else◌,
}
use maestro_dogecoin_indexer.Prelude.Words.{u128_max}
use maestro_dogecoin_indexer.Bitcoin.{BitcoinCrate, OutPoint, TxIn, Transaction}
use maestro_dogecoin_indexer.Storage.{TxoRef, TxoBody, InscriptionId, same_inscription}
use maestro_dogecoin_indexer.Drc20.Ledger.{Brc20Tables, UsedTransfer, Effects, undo_messages}
use maestro_dogecoin_indexer.Drc20.Ledger.Reads.{SameReads}
use maestro_dogecoin_indexer.Drc20.Ledger.Congruence.{AreWords, FitStored, Undone}
use maestro_dogecoin_indexer.Drc20.Ledger.Rollback.{index_brc20-Undone}
use maestro_dogecoin_indexer.Inscriptions.Placement.{SatPoint, Flotsam}
use maestro_dogecoin_indexer.Inscriptions.Updater.{
  Codec, PartialTables, UnusedTransfer, Gathered, done, or_panic, lookup_inscription,
  float_inscriptions, gather_input, gather,
}
use maestro_dogecoin_indexer.Inscriptions.Moves.{returned_transfers, moved_transfers, script_at}
use maestro_dogecoin_indexer.Inscriptions.Index.{
  Moved, IndexInscriptionsResult, BlockState, is_coinbase_input, move_coinbase, move_others,
  move_inscriptions, index_inscriptions,
}
use maestro_dogecoin_indexer.Inscriptions.Index.Runs.{bind-done, done_inj, index_inscriptions-Run}

-- The amounts are of 128 bits.
abbrev FitUnused : List (InscriptionId × UnusedTransfer) → Type 0
FitUnused = All (λ (t : InscriptionId × UnusedTransfer). t.1.amt ≤ u128_max)

abbrev FitUsed : List UsedTransfer → Type 0
FitUsed = All (λ (u : UsedTransfer). u.amt ≤ u128_max)

lookup_inscription-All :
    {V : Type 0} (P : V → Type 0) (id : InscriptionId) (m : List (InscriptionId × V)) (v : V)
    → All (λ (t : InscriptionId × V). P t.1) m
    → lookup_inscription id m ≡ some v
    → P v
unfolding lookup_inscription
lookup_inscription-All P id [] v h e = absurd (cc e)
lookup_inscription-All P id ((j, w) ∷ m) v (h, hs) e = elim (Bool-cases (same_inscription j id)) [
  | inl same ↦ subst P (some_inj (rw same at e)) h
  | inr other ↦ lookup_inscription-All P id m v hs (rw other at e)
]

module _ {Script : Type 0} (codec : Codec Script) where
  float_inscriptions-Fit :
      (txin : TxIn) (body : TxoBody) (sender : ℕ) (inscriptions : List (ℕ × InscriptionId))
      (g : Gathered)
      → FitStored body.unused_brc20_transfers
      → FitUnused g.unused
      → FitUnused (float_inscriptions codec txin body sender inscriptions g).unused
  unfolding float_inscriptions
  float_inscriptions-Fit txin body sender [] g fit h = h
  float_inscriptions-Fit txin body sender ((offset, id) ∷ inscriptions) g fit h =
      float_inscriptions-Fit txin body sender inscriptions _ fit
        (elim (Option-cases (lookup_inscription id body.unused_brc20_transfers)) [
          | inl missing ↦ rw missing h
          | inr (t, found) ↦ rw found (
            lookup_inscription-All (λ (v : List ℕ × ℕ). v.1 ≤ u128_max) id
                body.unused_brc20_transfers t fit found,
            h,
          )
        ])

  module _ (is_null : OutPoint → Bool) (resolver : TxoRef → Option TxoBody) (height : ℕ)
      (words : (r : TxoRef) (body : TxoBody)
        → resolver r ≡ some body
        → FitStored body.unused_brc20_transfers) where
    gather_input-Fit :
        (txin : TxIn) (g g' : Gathered)
        → gather_input codec is_null resolver height txin g ≡ done g'
        → FitUnused g.unused
        → FitUnused g'.unused
    unfolding gather_input
    gather_input-Fit txin g g' e h =
        let outpoint = txin.previous_output in
        let txo_ref : TxoRef = record { txid = outpoint.txid; vout = outpoint.vout } in
        elim (Bool-cases (is_null outpoint)) [
          | inl coinbase ↦
              subst (λ (x : Gathered). FitUnused x.unused)
                (done_inj (rw (coinbase, gather_input) at e)) h
          | inr other ↦ (elim (Option-cases (resolver txo_ref)) [
            | inl missing ↦ absurd (cc (rw (other, gather_input, missing) at e))
            | inr (body, found) ↦
                let (txout, e₁, f₁) =
                  bind-done (or_panic (codec.decode_txout body.raw)) _
                    (rw (other, gather_input, found) at e) in
                subst (λ (x : Gathered). FitUnused x.unused) (done_inj f₁)
                  (float_inscriptions-Fit txin body (codec.script_hash txout.script_pubkey)
                    body.inscriptions g (words txo_ref body found) h)
          ])
        ]

    gather-Fit :
        (input : List TxIn) (g g' : Gathered)
        → gather codec is_null resolver height input g ≡ done g'
        → FitUnused g.unused
        → FitUnused g'.unused
    unfolding gather
    gather-Fit [] g g' e h = subst (λ (x : Gathered). FitUnused x.unused) (done_inj e) h
    gather-Fit (txin ∷ input) g g' e h =
        let (next, e₁, f₁) = bind-done (gather_input codec is_null resolver height txin g) _ e in
        gather-Fit input next g' f₁ (gather_input-Fit txin g next e₁ h)

returned_transfers-Fit :
    (unused : List (InscriptionId × UnusedTransfer)) (flotsam : List Flotsam)
    → FitUnused unused
    → FitUsed (returned_transfers unused flotsam)
unfolding returned_transfers
returned_transfers-Fit unused [] h = tt
returned_transfers-Fit unused (f ∷ flotsam) h =
    elim (Option-cases (lookup_inscription f.inscription_id unused)) [
      | inl missing ↦ rw (missing, returned_transfers) (returned_transfers-Fit unused flotsam h)
      | inr (t, found) ↦
          rw (found, returned_transfers)
            (
              lookup_inscription-All (λ (u : UnusedTransfer). u.amt ≤ u128_max) f.inscription_id
                  unused t h found,
              returned_transfers-Fit unused flotsam h,
            )
    ]

moved_transfers-Fit :
    (is_null : OutPoint → Bool) (scripts : OutPoint → Option ℕ)
    (unused : List (InscriptionId × UnusedTransfer)) (outgoing : List (SatPoint × InscriptionId))
    (used : List UsedTransfer)
    → FitUnused unused
    → moved_transfers is_null scripts unused outgoing ≡ some used
    → FitUsed used
unfolding moved_transfers
moved_transfers-Fit is_null scripts unused [] used h e = subst FitUsed (some_inj e) tt
moved_transfers-Fit is_null scripts unused ((satpoint, id) ∷ outgoing) used h e =
    elim (Option-cases (lookup_inscription id unused)) [
      | inl missing ↦
          moved_transfers-Fit is_null scripts unused outgoing used h
            (rw (missing, moved_transfers) at e)
      | inr (t, found) ↦
          let receiver : Option ℕ =
            if is_null satpoint.outpoint then some t.sender else scripts satpoint.outpoint in
          elim (Option-cases receiver) [
            | inl nobody ↦ absurd (cc (rw (found, moved_transfers, nobody) at e))
            | inr (r, somebody) ↦
                (elim (Option-cases (moved_transfers is_null scripts unused outgoing)) [
                  | inl panic ↦ absurd (cc (rw (found, moved_transfers, somebody, panic) at e))
                  | inr (others, rest) ↦
                      subst FitUsed (some_inj (rw (found, moved_transfers, somebody, rest) at e)) (
                        lookup_inscription-All (λ (u : UnusedTransfer). u.amt ≤ u128_max) id unused
                            t h found,
                        moved_transfers-Fit is_null scripts unused outgoing others h rest,
                      )
                ])
          ]
    ]

module _ (crate : BitcoinCrate) (codec : Codec crate.Script) (lowercase_bytes : List ℕ → List ℕ)
    (partials : PartialTables) (tables : Brc20Tables) (resolver : TxoRef → Option TxoBody)
    (tx : Transaction crate.Script) (txid height : ℕ)
    (state : BlockState crate codec lowercase_bytes partials tables) where
  move_inscriptions-Fit :
      (g : Gathered) (floating : List Flotsam)
      → FitUnused g.unused
      → let moves =
          move_inscriptions crate codec lowercase_bytes partials tables tx txid state g floating in
        FitUsed moves.returned
  unfolding move_inscriptions move_coinbase move_others
  move_inscriptions-Fit g floating h =
      elim (Bool-cases (is_coinbase_input crate.is_null tx.input)) [
        | inl coinbase ↦ rw coinbase tt
        | inr other ↦ rw other (returned_transfers-Fit g.unused _ h)
      ]

  -- What a transaction does to the ledger, with what it records.
  abbrev pub ledger_effects :
      BlockState crate codec lowercase_bytes partials tables
      → IndexInscriptionsResult
      → Effects tables
  ledger_effects state' result = record {
    db = state'.ledger;
    valid_brc20s = result.brc20_resolver;
    new_unused_transfers = result.new_unused_brc20_transfers;
  }

  pub index_inscriptions-Undone :
      (state' : BlockState crate codec lowercase_bytes partials tables)
      (result : IndexInscriptionsResult)
      → index_inscriptions crate codec lowercase_bytes partials tables resolver tx txid height state
        ≡ done (state', result)
      → ((r : TxoRef) (body : TxoBody)
          → resolver r ≡ some body
          → FitStored body.unused_brc20_transfers)
      → AreWords tables state.ledger
      → Undone tables state.ledger (ledger_effects state' result)
  index_inscriptions-Undone state' result h words ledger =
      let run =
        index_inscriptions-Run crate codec lowercase_bytes partials tables resolver tx txid height
          state state' result h in
      let unused =
        gather-Fit codec crate.is_null resolver height words tx.input _ run.g run.gathered tt in
      let used =
        moved_transfers-Fit crate.is_null (script_at codec.script_hash txid 0 tx.output)
          run.g.unused run.moves.outgoing run.used unused run.uses in
      let returned : FitUsed run.moves.returned =
        subst (λ (m : Moved). FitUsed m.returned) (sym run.moved)
          (move_inscriptions-Fit run.g run.revealed.floating unused) in
      let undone =
        index_brc20-Undone tables lowercase_bytes (run.moves.returned ++ run.used)
          run.revealed.brc_20_inscriptions _ state.ledger run.effects run.indexed
          (All-append _ run.moves.returned run.used returned used) ledger in
      rw (run.new_state, run.new_result) undone

  -- Let the balances and supplies in the tables, and the amounts of the unused transfers on resolved outputs, be of
  -- 128 bits. If `index_inscriptions` answers, then a rollback that undoes the messages which it recorded, the
  -- last one first, leaves tables of balances, supplies and terms that answer as before the transaction, where a
  -- balance or a supply that is not there counts as 0.
  pub undo_messages-index_inscriptions :
      (state' : BlockState crate codec lowercase_bytes partials tables)
      (result : IndexInscriptionsResult)
      → index_inscriptions crate codec lowercase_bytes partials tables resolver tx txid height state
        ≡ done (state', result)
      → ((r : TxoRef) (body : TxoBody)
          → resolver r ≡ some body
          → FitStored body.unused_brc20_transfers)
      → AreWords tables state.ledger
      → SameReads tables state.ledger (undo_messages tables result.brc20_resolver state'.ledger)
  undo_messages-index_inscriptions state' result h words ledger =
      (index_inscriptions-Undone state' result h words ledger).restored
