-- ===== src/Txos.antt =====
-- `TxoKV::resolve_and_process` (services/compressor-xdg/src/storage/txos/mod.rs), which runs both updaters over a
-- block and makes the outputs that its transactions leave.
pub mod Memory
pub mod Fetch
pub mod Undo
pub mod Erased
pub mod Apply
mod Examples
use maestro_dogecoin_indexer.Prelude.{
  ℕ, ◌+◌, ◌%◌, ◌^◌, Bool, false, ◌||◌, Option, none, some, List, [], ◌∷◌, ◌++◌, map, ltb,
  if◌then◌else◌, length, replicate, drop,
}
use maestro_dogecoin_indexer.Bitcoin.{BitcoinCrate, TxIn, TxOut, Transaction}
use maestro_dogecoin_indexer.Dunes.Id.{from_u128}
use maestro_dogecoin_indexer.Storage.{
  StoredId, store_id, TxoRef, TxoBody, InscriptionId, same_inscription,
}
use maestro_dogecoin_indexer.DuneIndex
use maestro_dogecoin_indexer.DuneIndex.{Resolver, IndexRunesResult, Outcome, index_runes}
use maestro_dogecoin_indexer.DuneIndex.Tables
use maestro_dogecoin_indexer.DuneIndex.Etch.{Network}
use maestro_dogecoin_indexer.Drc20.Ledger.{Brc20Message, Brc20Tables}
use maestro_dogecoin_indexer.Inscriptions.Updater.{
  Codec, PartialTables, Indexing, done, missing_txo, no_coinbase, panicked, ◌>>=◌, or_panic,
}
use maestro_dogecoin_indexer.Inscriptions.Index.{
  IndexInscriptionsResult, BlockState, index_inscriptions,
}
use Memory.{UtxoResolver, forget, remember, with_txo, ref_of, input_refs, not_in_block, fetch}

-- What the block is read with: functions of the bitcoin crate, and the heights of the network.
pub record Setting (Script : Type 0) : Type 0 where
  pub txid : Transaction Script → ℕ
  pub coinbase : List (Transaction Script) → Option (Transaction Script)
  pub encode_txout : TxOut Script → List ℕ
  pub halving : ℕ
  pub network : Network
  pub height : ℕ
  pub first_rune_height : ℕ
  pub first_inscription_height : ℕ

unfoldable pub from_outcome : {A : Type 0} → Outcome A → Indexing A
from_outcome (DuneIndex.done a) = done a
from_outcome (DuneIndex.missing_txo r) = missing_txo r
from_outcome DuneIndex.panicked = panicked

abbrev pub at_index : {A : Type 0} → ℕ → Option A → List (ℕ × A)
at_index i none = []
at_index i (some a) = (i, a) ∷ []

-- The dunes of an output as they are stored; `none` is the panic on an id that is none.
unfoldable pub stored_dunes : List (ℕ × ℕ) → Option (List (StoredId × ℕ))
unfolding from_u128
stored_dunes [] = some []
stored_dunes ((id, balance) ∷ dunes) = elim (from_u128 id) [
  | none ↦ none
  | some i ↦ (elim (stored_dunes dunes) [
    | none ↦ none
    | some rest ↦ some ((store_id i, balance) ∷ rest)
  ])
]

unfoldable pub holds : InscriptionId → List (ℕ × InscriptionId) → Bool
holds id [] = false
holds id ((_, j) ∷ inscriptions) = let rest = holds id inscriptions in same_inscription j id || rest

-- `retain`: the new transfers among the inscriptions of an output.
unfoldable pub transfers_in :
    List (ℕ × InscriptionId)
    → List (InscriptionId × (List ℕ × ℕ))
    → List (InscriptionId × (List ℕ × ℕ))
unfolding holds
transfers_in inscriptions [] = []
transfers_in inscriptions ((id, t) ∷ transfers) =
    let rest = transfers_in inscriptions transfers in
    if holds id inscriptions then (id, t) ∷ rest else rest

module _ (crate : BitcoinCrate) (codec : Codec crate.Script) (lowercase_bytes : List ℕ → List ℕ)
    (partials : PartialTables) (tables : Brc20Tables) (dune_tables : Tables.Tables) where
  -- What the loops over the transactions change; `db_txos` of the tables is only read.
  pub record Running : Type 0 where
    pub resolver : Resolver
    pub memory : Option UtxoResolver
    pub state : BlockState crate codec lowercase_bytes partials tables
    pub dunes : Tables.Db dune_tables
    pub successful_etches : List (ℕ × ℕ)
    pub successful_mints : List (ℕ × ℕ)
    pub brc20_resolver : List (InscriptionId × Brc20Message)

  module _ (setting : Setting crate.Script) where
    -- The dunes of a transaction's outputs.
    unfoldable pub block_dunes :
        ℕ → Transaction crate.Script → Running → Indexing (List (List (ℕ × ℕ)) × Running)
    unfolding from_outcome
    block_dunes i tx s =
        if ltb setting.height setting.first_rune_height
        then done (replicate (length tx.output) [], s)
        else do
          ran ← from_outcome (
              index_runes crate dune_tables setting.halving s.resolver s.dunes (i % 2 ^ 32) tx
                setting.height setting.network)
          let result = ran.0
          done (
            result.output_dunes,
            record s {
              dunes = ran.1;
              successful_etches =
                  s.successful_etches ++ at_index (i % 2 ^ 32) result.successful_etch;
              successful_mints =
                  s.successful_mints
                  ++ map (λ (mint : ℕ). (i % 2 ^ 32, mint)) result.successful_mints;
            },
          )

    -- The inscriptions of a transaction's outputs, and its new transfers.
    unfoldable pub block_inscriptions :
        Transaction crate.Script
        → ℕ
        → Running
        → Indexing (List (List (ℕ × InscriptionId)) × List (InscriptionId × (List ℕ × ℕ)) × Running)
    block_inscriptions tx txid s =
        if ltb setting.height setting.first_inscription_height
        then done (replicate (length tx.output) [], [], s)
        else do
          ran ←
              index_inscriptions crate codec lowercase_bytes partials tables s.resolver tx txid
                setting.height s.state
          let result = ran.1
          done (
            result.output_inscriptions,
            result.new_unused_brc20_transfers,
            record s { state = ran.0; brc20_resolver = s.brc20_resolver ++ result.brc20_resolver },
          )

    -- The inputs must be resolved, and leave the memory.
    unfoldable pub spend : List TxIn → Running → Indexing Running
    unfolding forget
    spend [] s = done s
    spend (i ∷ input) s = elim (s.resolver (ref_of i)) [
      | none ↦ missing_txo (ref_of i)
      | some body ↦ spend input (record s { memory = (forget (ref_of i) s.memory).1 })
    ]

    -- `izip!` over the outputs from number `vout` on: each goes to the resolver and the memory.
    unfoldable pub add_outputs :
        ℕ
        → ℕ
        → List (TxOut crate.Script)
        → List (List (ℕ × ℕ))
        → List (List (ℕ × InscriptionId))
        → List (InscriptionId × (List ℕ × ℕ))
        → Running
        → Indexing Running
    unfolding stored_dunes transfers_in remember with_txo
    add_outputs txid vout (o ∷ outputs) (d ∷ dunes) (i ∷ inscriptions) transfers s = do
      stored ← or_panic (stored_dunes d)
      let r : TxoRef = record { txid = txid; vout = vout }
      let body : TxoBody = record {
        raw = setting.encode_txout o;
        dunes = stored;
        inscriptions = i;
        unused_brc20_transfers = transfers_in i transfers;
      }
      add_outputs txid (vout + 1) outputs dunes inscriptions transfers
          (record s { resolver = with_txo r body s.resolver; memory = remember r body s.memory })
    add_outputs txid vout outputs dunes inscriptions transfers s = done s

    -- One round of the loop over the transactions behind the coinbase.
    unfoldable pub process_tx : ℕ → Transaction crate.Script → Running → Indexing Running
    unfolding block_dunes block_inscriptions spend add_outputs
    process_tx i tx s = do
      with_dunes ← block_dunes i tx s
      with_inscriptions ← block_inscriptions tx (setting.txid tx) with_dunes.1
      spent ← spend tx.input with_inscriptions.2
      add_outputs (setting.txid tx) 0 tx.output with_dunes.0 with_inscriptions.0 with_inscriptions.1
          spent

    unfoldable pub process_txs : ℕ → List (Transaction crate.Script) → Running → Indexing Running
    unfolding process_tx
    process_txs i [] s = done s
    process_txs i (tx ∷ txs) s = do s' ← process_tx i tx s; process_txs (i + 1) txs s'

    -- The block behind the fetch of its inputs: the dunes of the coinbase come first, its inscriptions last.
    unfoldable pub process_block :
        List (Transaction crate.Script) → Transaction crate.Script → ℕ → Running → Indexing Running
    unfolding block_dunes process_txs block_inscriptions add_outputs
    process_block txs coinbase txid s = do
      with_dunes ← block_dunes 0 coinbase s
      processed ← process_txs 1 (drop 1 txs) with_dunes.1
      with_inscriptions ← block_inscriptions coinbase txid processed
      add_outputs txid 0 coinbase.output with_dunes.0 with_inscriptions.0 with_inscriptions.1
          with_inscriptions.2

    -- Where the block starts, with what was fetched.
    unfoldable pub started :
        BlockState crate codec lowercase_bytes partials tables
        → Tables.Db dune_tables
        → Resolver × Option UtxoResolver
        → Running
    started state dunes inputs = record {
      resolver = inputs.0;
      memory = inputs.1;
      state = record state {
        reward = codec.subsidy (setting.height % 2 ^ 32);
        cb_inscriptions = [];
        new_inscriptions = [];
      };
      dunes = dunes;
      successful_etches = [];
      successful_mints = [];
      brc20_resolver = [];
    }

    -- `txos` is what TxoKV holds. The block has a coinbase, which is one of its transactions.
    unfoldable pub resolve_and_process :
        (TxoRef → Option TxoBody)
        → List (Transaction crate.Script)
        → Option UtxoResolver
        → BlockState crate codec lowercase_bytes partials tables
        → Tables.Db dune_tables
        → Indexing Running
    unfolding input_refs not_in_block fetch started process_block
    resolve_and_process txos txs memory state dunes =
        let txids = map setting.txid txs in
        let inputs = fetch txos (not_in_block txids (input_refs txs)) memory in
        elim (setting.coinbase txs) [
          | none ↦ no_coinbase
          | some coinbase ↦ (elim txids [
            | [] ↦ panicked
            | txid ∷ _ ↦ process_block txs coinbase txid (started state dunes inputs)
          ])
        ]
