-- ===== src/Inscriptions/Index/Runs.antt =====
-- The parts of a run of `index_inscriptions` (services/compressor-xdg/src/storage/inscriptions/updater.rs).
use maestro_dogecoin_indexer.Prelude.{ℕ, ◌≡◌, sym, ap, refl, Option, none, some, List, [], ◌++◌}
use maestro_dogecoin_indexer.Bitcoin.{BitcoinCrate, Transaction}
use maestro_dogecoin_indexer.Storage.{TxoRef, TxoBody, InscriptionId}
use maestro_dogecoin_indexer.Drc20.Ledger.{Brc20Tables, UsedTransfer, Effects, index_brc20}
use maestro_dogecoin_indexer.Inscriptions.Updater.{
  Codec, PartialTables, Gathered, Indexing, done, missing_txo, bitcoin_decode, no_coinbase,
  panicked, ◌>>=◌, or_panic, lookup_inscription, gather,
}
use maestro_dogecoin_indexer.Inscriptions.Reveal.{Revealed, try_inscribe}
use maestro_dogecoin_indexer.Inscriptions.Moves.{
  script_at, receiver_of, moved_transfers, output_inscriptions, not_contained,
}
use maestro_dogecoin_indexer.Inscriptions.Index.{
  Moved, IndexInscriptionsResult, BlockState, move_inscriptions, index_inscriptions,
}

pub bind-done :
    {A B : Type 0} (m : Indexing A) (f : A → Indexing B) {b : B}
    → (m >>= f) ≡ done b
    → (a : A) × (m ≡ done a) × (f a ≡ done b)
bind-done (done a) f h = (a, refl, h)
bind-done (missing_txo r) f h = cc
bind-done bitcoin_decode f h = cc
bind-done no_coinbase f h = cc
bind-done panicked f h = cc

pub done_inj : {A : Type 0} {a b : A} → done a ≡ done b → a ≡ b
done_inj {a = a} {b} e =
    ap
      (λ (o : Indexing _). elim o [
        | done x ↦ x
        | missing_txo _ ↦ a
        | bitcoin_decode ↦ a
        | no_coinbase ↦ a
        | panicked ↦ a
      ])
      e

or_panic-done : {A : Type 0} (o : Option A) {a : A} → or_panic o ≡ done a → o ≡ some a
or_panic-done none h = cc
or_panic-done (some a) h = ap some (done_inj h)

module _ (crate : BitcoinCrate) (codec : Codec crate.Script) (lowercase_bytes : List ℕ → List ℕ)
    (partials : PartialTables) (tables : Brc20Tables) (resolver : TxoRef → Option TxoBody)
    (tx : Transaction crate.Script) (txid height : ℕ)
    (state : BlockState crate codec lowercase_bytes partials tables) where
  -- What was gathered, revealed, moved and done to the ledger.
  pub record Run (state' : BlockState crate codec lowercase_bytes partials tables)
      (result : IndexInscriptionsResult) : Type 0 where
    pub g : Gathered
    pub gathered :
        gather codec crate.is_null resolver height tx.input
          (record { floating = []; unused = []; total_input_value = 0 })
        ≡ done g
    pub revealed : Revealed codec partials
    pub reveals :
        try_inscribe codec partials txid tx state.counters state.partial_db g ≡ done revealed
    pub moves : Moved
    pub moved :
        moves
        ≡ move_inscriptions crate codec lowercase_bytes partials tables tx txid state g
            revealed.floating
    pub used : List UsedTransfer
    pub uses :
        moved_transfers crate.is_null
          (script_at codec.script_hash txid 0 tx.output)
          g.unused
          moves.outgoing
        ≡ some used
    pub effects : Effects tables
    pub indexed :
        index_brc20 tables lowercase_bytes
          (moves.returned ++ used)
          revealed.brc_20_inscriptions
          (λ (id : InscriptionId).
            lookup_inscription id
              (receiver_of (script_at codec.script_hash txid 0 tx.output) moves.outgoing))
          state.ledger
        ≡ some effects
    pub new_state : state' ≡ record {
      partial_db = revealed.partials;
      ledger = effects.db;
      counters = moves.counters;
      reward = moves.reward;
      cb_inscriptions = moves.cb_inscriptions;
      new_inscriptions = state.new_inscriptions ++ revealed.new_inscriptions;
    }
    pub new_result : result ≡ record {
      output_inscriptions = output_inscriptions txid 0 tx.output moves.outgoing;
      lost_or_unbound_inscriptions = not_contained txid moves.outgoing;
      brc20_resolver = effects.valid_brc20s;
      new_unused_brc20_transfers = effects.new_unused_transfers;
    }

  pub index_inscriptions-Run :
      (state' : BlockState crate codec lowercase_bytes partials tables)
      (result : IndexInscriptionsResult)
      → index_inscriptions crate codec lowercase_bytes partials tables resolver tx txid height state
        ≡ done (state', result)
      → Run state' result
  unfolding index_inscriptions
  index_inscriptions-Run state' result h =
      let (g, e₁, f₁) =
        bind-done
          (gather codec crate.is_null resolver height tx.input
            (record { floating = []; unused = []; total_input_value = 0 }))
          _ h in
      let (revealed, e₂, f₂) =
        bind-done (try_inscribe codec partials txid tx state.counters state.partial_db g) _ f₁ in
      let moves =
        move_inscriptions crate codec lowercase_bytes partials tables tx txid state g
          revealed.floating in
      let scripts = script_at codec.script_hash txid 0 tx.output in
      let (used, e₃, f₃) =
        bind-done (or_panic (moved_transfers crate.is_null scripts g.unused moves.outgoing)) _ f₂ in
      let (effects, e₄, f₄) =
        bind-done
          (or_panic (
            index_brc20 tables lowercase_bytes (moves.returned ++ used) revealed.brc_20_inscriptions
              (λ (id : InscriptionId). lookup_inscription id (receiver_of scripts moves.outgoing))
              state.ledger))
          _ f₃ in
      record {
        g = g;
        gathered = e₁;
        revealed = revealed;
        reveals = e₂;
        moves = moves;
        moved = refl;
        used = used;
        uses = or_panic-done _ e₃;
        effects = effects;
        indexed = or_panic-done _ e₄;
        new_state =
            ap
              (λ (p : BlockState crate codec lowercase_bytes partials tables
                  × IndexInscriptionsResult).
                p.0)
              (sym (done_inj f₄));
        new_result =
            ap
              (λ (p : BlockState crate codec lowercase_bytes partials tables
                  × IndexInscriptionsResult).
                p.1)
              (sym (done_inj f₄));
      }
