-- ===== src/Txos/Undo.antt =====
-- A rollback of what a block (services/compressor-xdg/src/storage/txos/mod.rs, `resolve_and_process`) did to the balances.
use mathlib.Core.Path.{subst}
use maestro_dogecoin_indexer.Prelude.{
  ℕ, ◌+◌, ◌%◌, ◌^◌, ◌≡◌, Option, some, List, [], ◌∷◌, inl, inr, Bool-cases, Option-cases, ltb, map,
  drop,
}
use maestro_dogecoin_indexer.Bitcoin.{BitcoinCrate, TxIn, TxOut, Transaction}
use maestro_dogecoin_indexer.Storage.{TxoRef, TxoBody, InscriptionId}
use maestro_dogecoin_indexer.DuneIndex.{index_runes}
use maestro_dogecoin_indexer.DuneIndex.Tables
use maestro_dogecoin_indexer.Drc20.Ledger.{Brc20Tables, Brc20Db, Effects, undo_messages, undo_each}
use maestro_dogecoin_indexer.Drc20.Ledger.Reads.{SameReads, SameReads-refl}
use maestro_dogecoin_indexer.Drc20.Ledger.Congruence.{AreWords, FitStored, followed-Undone}
use maestro_dogecoin_indexer.Inscriptions.Updater.{
  Codec, PartialTables, Indexing, done, panicked, or_panic,
}
use maestro_dogecoin_indexer.Inscriptions.Index.{BlockState, index_inscriptions}
use maestro_dogecoin_indexer.Inscriptions.Index.Runs.{bind-done, done_inj}
use maestro_dogecoin_indexer.Inscriptions.Index.Undo.{ledger_effects, index_inscriptions-Undone}
use maestro_dogecoin_indexer.Txos.Memory.{UtxoResolver, ref_of, input_refs, not_in_block}
use maestro_dogecoin_indexer.Txos.Fetch.{InMemory, fetch-Entries, with_txo-Entries}
use maestro_dogecoin_indexer.Txos.{
  Setting, from_outcome, stored_dunes, holds, transfers_in, Running, block_dunes,
  block_inscriptions, spend, add_outputs, process_tx, process_txs, process_block, started,
  resolve_and_process,
}

abbrev pub FitBody : TxoRef → TxoBody → Type 0
FitBody r body = FitStored body.unused_brc20_transfers

transfers_in-Fit :
    (inscriptions : List (ℕ × InscriptionId)) (transfers : List (InscriptionId × (List ℕ × ℕ)))
    → FitStored transfers
    → FitStored (transfers_in inscriptions transfers)
unfolding transfers_in
transfers_in-Fit inscriptions [] h = h
transfers_in-Fit inscriptions ((id, t) ∷ transfers) (h, hs) =
    elim (Bool-cases (holds id inscriptions)) [
      | inl inside ↦ rw inside (h, transfers_in-Fit inscriptions transfers hs)
      | inr outside ↦ rw outside (transfers_in-Fit inscriptions transfers hs)
    ]

module _ (crate : BitcoinCrate) (codec : Codec crate.Script) (lowercase_bytes : List ℕ → List ℕ)
    (partials : PartialTables) (tables : Brc20Tables) (dune_tables : Tables.Tables)
    (setting : Setting crate.Script) where
  abbrev State : Type 0
  State = BlockState crate codec lowercase_bytes partials tables

  abbrev Run : Type 0
  Run = Running crate codec lowercase_bytes partials tables dune_tables

  -- The messages recorded so far restore the ledger from which the block started.
  record Restores (start : Brc20Db tables) (s : Run) : Type 0 where
    restored : SameReads tables start (undo_messages tables s.brc20_resolver s.state.ledger)
    words : AreWords tables s.state.ledger
    fits : (r : TxoRef) (body : TxoBody) → s.resolver r ≡ some body → FitBody r body

  module _ (start : Brc20Db tables) where
    block_dunes-Restores :
        (i : ℕ) (tx : Transaction crate.Script) (s s' : Run) (dunes : List (List (ℕ × ℕ)))
        → block_dunes crate codec lowercase_bytes partials tables dune_tables setting i tx s
          ≡ done (dunes, s')
        → Restores start s
        → Restores start s'
    unfolding block_dunes
    block_dunes-Restores i tx s s' dunes e h =
        let P = λ (p : List (List (ℕ × ℕ)) × Run). Restores start p.1 in
        elim (Bool-cases (ltb setting.height setting.first_rune_height)) [
          | inl before ↦ subst P (done_inj (rw (block_dunes, before) at e)) h
          | inr since ↦
              let (ran, e₁, f₁) =
                bind-done
                  (from_outcome (
                    index_runes crate dune_tables setting.halving s.resolver s.dunes (i % 2 ^ 32) tx
                      setting.height setting.network))
                  _ (rw (block_dunes, since) at e) in
              subst P (done_inj f₁)
                (record { restored = h.restored; words = h.words; fits = h.fits })
        ]

    block_inscriptions-Restores :
        (tx : Transaction crate.Script) (txid : ℕ) (s s' : Run)
        (inscriptions : List (List (ℕ × InscriptionId)))
        (transfers : List (InscriptionId × (List ℕ × ℕ)))
        → block_inscriptions crate codec lowercase_bytes partials tables dune_tables setting tx txid
            s
          ≡ done (inscriptions, transfers, s')
        → Restores start s
        → FitStored transfers × Restores start s'
    unfolding block_inscriptions
    block_inscriptions-Restores tx txid s s' inscriptions transfers e h =
        let P = λ (p : List (List (ℕ × InscriptionId)) × List (InscriptionId × (List ℕ × ℕ)) × Run).
          FitStored p.1 × Restores start p.2 in
        elim (Bool-cases (ltb setting.height setting.first_inscription_height)) [
          | inl before ↦ subst P (done_inj (rw (block_inscriptions, before) at e)) (tt, h)
          | inr since ↦
              let (ran, e₁, f₁) =
                bind-done
                  (index_inscriptions crate codec lowercase_bytes partials tables s.resolver tx txid
                    setting.height s.state)
                  _ (rw (block_inscriptions, since) at e) in
              let first : Effects tables = record {
                db = s.state.ledger;
                valid_brc20s = s.brc20_resolver;
                new_unused_transfers = [];
              } in
              let u =
                index_inscriptions-Undone crate codec lowercase_bytes partials tables s.resolver tx
                  txid setting.height s.state ran.0 ran.1 e₁ h.fits h.words in
              let both =
                followed-Undone tables start first
                  (ledger_effects crate codec lowercase_bytes partials tables s.resolver tx txid
                    setting.height s.state ran.0 ran.1)
                  (record { restored = h.restored; words = h.words; locked = tt }) u in
              subst P (done_inj f₁)
                (u.locked, record { restored = both.restored; words = both.words; fits = h.fits })
        ]

    spend-Restores :
        (input : List TxIn) (s s' : Run)
        → spend crate codec lowercase_bytes partials tables dune_tables setting input s ≡ done s'
        → Restores start s
        → Restores start s'
    unfolding spend
    spend-Restores [] s s' e h = subst (Restores start) (done_inj e) h
    spend-Restores (i ∷ input) s s' e h = elim (Option-cases (s.resolver (ref_of i))) [
      | inl missing ↦ absurd (cc (rw (spend, missing) at e))
      | inr (body, found) ↦
          spend-Restores input _ s' (rw (spend, found) at e)
            (record { restored = h.restored; words = h.words; fits = h.fits })
    ]

    add_outputs-Restores :
        (txid vout : ℕ) (outputs : List (TxOut crate.Script)) (dunes : List (List (ℕ × ℕ)))
        (inscriptions : List (List (ℕ × InscriptionId)))
        (transfers : List (InscriptionId × (List ℕ × ℕ))) (s s' : Run)
        → add_outputs crate codec lowercase_bytes partials tables dune_tables setting txid vout
            outputs dunes inscriptions transfers s
          ≡ done s'
        → FitStored transfers
        → Restores start s
        → Restores start s'
    unfolding add_outputs
    add_outputs-Restores txid vout [] dunes inscriptions transfers s s' e fit h =
        subst (Restores start) (done_inj e) h
    add_outputs-Restores txid vout (o ∷ outputs) [] inscriptions transfers s s' e fit h =
        subst (Restores start) (done_inj e) h
    add_outputs-Restores txid vout (o ∷ outputs) (d ∷ dunes) [] transfers s s' e fit h =
        subst (Restores start) (done_inj e) h
    add_outputs-Restores txid vout (o ∷ outputs) (d ∷ dunes) (i ∷ inscriptions) transfers s s' e fit
          h =
        let (stored, e₁, f₁) = bind-done (or_panic (stored_dunes d)) _ e in
        add_outputs-Restores txid (vout + 1) outputs dunes inscriptions transfers _ s' f₁ fit
          (record {
            restored = h.restored;
            words = h.words;
            fits =
                with_txo-Entries FitBody _ _ s.resolver (transfers_in-Fit i transfers fit) h.fits;
          })

    process_tx-Restores :
        (i : ℕ) (tx : Transaction crate.Script) (s s' : Run)
        → process_tx crate codec lowercase_bytes partials tables dune_tables setting i tx s
          ≡ done s'
        → Restores start s
        → Restores start s'
    unfolding process_tx
    process_tx-Restores i tx s s' e h =
        let ((dunes, s₁), e₁, f₁) = bind-done _ _ e in
        let ((inscriptions, transfers, s₂), e₂, f₂) = bind-done _ _ f₁ in
        let (s₃, e₃, f₃) = bind-done _ _ f₂ in
        let (fit, k) =
          block_inscriptions-Restores tx (setting.txid tx) s₁ s₂ inscriptions transfers e₂
            (block_dunes-Restores i tx s s₁ dunes e₁ h) in
        add_outputs-Restores (setting.txid tx) 0 tx.output dunes inscriptions transfers s₃ s' f₃ fit
          (spend-Restores tx.input s₂ s₃ e₃ k)

    process_txs-Restores :
        (i : ℕ) (txs : List (Transaction crate.Script)) (s s' : Run)
        → process_txs crate codec lowercase_bytes partials tables dune_tables setting i txs s
          ≡ done s'
        → Restores start s
        → Restores start s'
    unfolding process_txs
    process_txs-Restores i [] s s' e h = subst (Restores start) (done_inj e) h
    process_txs-Restores i (tx ∷ txs) s s' e h =
        let (next, e₁, f₁) = bind-done _ _ e in
        process_txs-Restores (i + 1) txs next s' f₁ (process_tx-Restores i tx s next e₁ h)

    process_block-Restores :
        (txs : List (Transaction crate.Script)) (coinbase : Transaction crate.Script) (txid : ℕ)
        (s s' : Run)
        → process_block crate codec lowercase_bytes partials tables dune_tables setting txs coinbase
            txid s
          ≡ done s'
        → Restores start s
        → Restores start s'
    unfolding process_block
    process_block-Restores txs coinbase txid s s' e h =
        let ((dunes, s₁), e₁, f₁) = bind-done _ _ e in
        let (s₂, e₂, f₂) = bind-done _ _ f₁ in
        let ((inscriptions, transfers, s₃), e₃, f₃) = bind-done _ _ f₂ in
        let (fit, k) = block_inscriptions-Restores coinbase txid s₂ s₃ inscriptions transfers e₃ (
          process_txs-Restores 1 (drop 1 txs) s₁ s₂ e₂
            (block_dunes-Restores 0 coinbase s s₁ dunes e₁ h)) in
        add_outputs-Restores txid 0 coinbase.output dunes inscriptions transfers s₃ s' f₃ fit k

  first_txid :
      (txs : List (Transaction crate.Script)) (run : ℕ → Indexing Run) {s' : Run}
      → (elim (map setting.txid txs) [ [] ↦ panicked | txid ∷ _ ↦ run txid ]) ≡ done s'
      → (txid : ℕ) × (run txid ≡ done s')
  first_txid [] run e = absurd (cc e)
  first_txid (tx ∷ txs) run e = (setting.txid tx, e)

  -- Let the balances and supplies in the tables, and the amounts of the unused transfers on outputs in memory and in
  -- the table of outputs, be of 128 bits. If `resolve_and_process` answers for a block, then a rollback that
  -- undoes the messages which it recorded over all transactions, the last one first, leaves tables of
  -- balances, supplies and terms that answer as before the block, where a balance or a supply that is not
  -- there counts as 0.
  pub undo_messages-resolve_and_process :
      (txos : TxoRef → Option TxoBody) (txs : List (Transaction crate.Script))
      (memory : Option UtxoResolver) (state : State) (dunes : Tables.Db dune_tables) (s' : Run)
      → resolve_and_process crate codec lowercase_bytes partials tables dune_tables setting txos txs
          memory state dunes
        ≡ done s'
      → ((r : TxoRef) (body : TxoBody) → txos r ≡ some body → FitBody r body)
      → InMemory FitBody memory
      → AreWords tables state.ledger
      → SameReads tables state.ledger (undo_messages tables s'.brc20_resolver s'.state.ledger)
  unfolding resolve_and_process started undo_messages undo_each
  undo_messages-resolve_and_process txos txs memory state dunes s' e stored held words =
      elim (Option-cases (setting.coinbase txs)) [
        | inl nowhere ↦ absurd (cc (rw (resolve_and_process, nowhere) at e))
        | inr (coinbase, there) ↦
            let (txid, e₁) = first_txid txs _ (rw (resolve_and_process, there) at e) in
            (process_block-Restores state.ledger txs coinbase txid _ s' e₁ (record {
              restored = SameReads-refl tables state.ledger;
              words = words;
              fits =
                  fetch-Entries FitBody txos stored
                    (not_in_block (map setting.txid txs) (input_refs txs)) memory held;
            })).restored
      ]
