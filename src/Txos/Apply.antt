-- ===== src/Txos/Apply.antt =====
-- What `ChainDB::apply_block_with_context` does to the table of outputs, and `ChainDB::rollback` undoes
-- (services/compressor-xdg/src/storage/mod.rs).
pub mod Reads
pub mod Undo
use maestro_dogecoin_indexer.Prelude.{
  ℕ, ◌+◌, Option, none, some, List, [], ◌∷◌, ◌==◌, if◌then◌else◌,
}
use maestro_dogecoin_indexer.Bitcoin.{TxIn, TxOut, Transaction}
use maestro_dogecoin_indexer.Storage.{Table, TxoRef, TxoBody}
use maestro_dogecoin_indexer.DuneIndex.{Resolver}
use maestro_dogecoin_indexer.Inscriptions.Updater.{Indexing, done, missing_txo, ◌>>=◌}
use maestro_dogecoin_indexer.Txos.Memory.{same_ref, ref_of, contains_ref}

abbrev pub output_ref : ℕ → ℕ → TxoRef
output_ref txid vout = record { txid = txid; vout = vout }

-- `resolver.retain`: only the inputs of the block are stored.
unfoldable pub retain_inputs : List TxoRef → Resolver → Resolver
unfolding contains_ref
retain_inputs input_refs resolver r = if contains_ref r input_refs then resolver r else none

-- `resolver.remove`
unfoldable pub without_txo : TxoRef → Resolver → Resolver
without_txo r resolver q = if same_ref r q then none else resolver q

module _ (txos : Table TxoRef TxoBody same_ref) {Script : Type 0} (txid : Transaction Script → ℕ)
    (encode_txout : TxOut Script → List ℕ) where
  -- The outputs of a transaction from number `vout` on are inserted, as the resolver has them.
  unfoldable pub produce :
      ℕ → ℕ → List (TxOut Script) → Resolver → txos.Contents → Indexing txos.Contents
  produce t vout [] resolver db = done db
  produce t vout (o ∷ outputs) resolver db = elim (resolver (output_ref t vout)) [
    | none ↦ missing_txo (output_ref t vout)
    | some entry ↦
        produce t (vout + 1) outputs resolver
          (txos.stage_upsert db (output_ref t vout) (record entry { raw = encode_txout o }))
  ]

  unfoldable pub consume : List TxIn → txos.Contents → txos.Contents
  consume [] db = db
  consume (i ∷ input) db = consume input (txos.stage_delete db (ref_of i))

  unfoldable pub apply_tx : Transaction Script → Resolver → txos.Contents → Indexing txos.Contents
  unfolding produce consume
  apply_tx tx resolver db = do
    produced ← produce (txid tx) 0 tx.output resolver db
    done (consume tx.input produced)

  unfoldable pub apply_txs :
      List (Transaction Script) → Resolver → txos.Contents → Indexing txos.Contents
  unfolding apply_tx
  apply_txs [] resolver db = done db
  apply_txs (tx ∷ txs) resolver db = do
    applied ← apply_tx tx resolver db
    apply_txs txs resolver applied

  -- The inputs come back from the resolver of the block, each once.
  unfoldable pub restore :
      List TxIn → Resolver → txos.Contents → Indexing (Resolver × txos.Contents)
  unfolding without_txo
  restore [] resolver db = done (resolver, db)
  restore (i ∷ input) resolver db = elim (resolver (ref_of i)) [
    | none ↦ missing_txo (ref_of i)
    | some body ↦
        restore input (without_txo (ref_of i) resolver) (txos.stage_upsert db (ref_of i) body)
  ]

  unfoldable pub unproduce : ℕ → ℕ → List (TxOut Script) → txos.Contents → txos.Contents
  unproduce t vout [] db = db
  unproduce t vout (o ∷ outputs) db =
      unproduce t (vout + 1) outputs (txos.stage_delete db (output_ref t vout))

  -- The inputs of a coinbase are not restored.
  unfoldable pub undo_tx :
      ℕ → Transaction Script → Resolver → txos.Contents → Indexing (Resolver × txos.Contents)
  unfolding restore unproduce
  undo_tx idx tx resolver db = do
    restored ← (if idx == 0 then done (resolver, db) else restore tx.input resolver db)
    done (restored.0, unproduce (txid tx) 0 tx.output restored.1)

  -- `enumerate().rev()`, from the transaction number `idx` on: the last transaction is undone first.
  unfoldable pub undo_txs :
      ℕ → List (Transaction Script) → Resolver → txos.Contents → Indexing (Resolver × txos.Contents)
  unfolding undo_tx
  undo_txs idx [] resolver db = done (resolver, db)
  undo_txs idx (tx ∷ txs) resolver db = do
    undone ← undo_txs (idx + 1) txs resolver db
    undo_tx idx tx undone.0 undone.1
