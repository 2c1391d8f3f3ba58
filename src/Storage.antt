-- ===== src/Storage.antt =====
-- The key-value tables of compressor-xdg (storage/kvtable.rs) as an interface, and the keys and values
-- of storage/mod.rs that the updaters share.
pub mod MapTable
pub mod Intersect
use maestro_dogecoin_indexer.Prelude.{
  ℕ, ◌%◌, ◌^◌, ◌≡◌, ◌↔◌, Bool, true, ◌&&◌, Option, none, some, List, ◌==◌, if◌then◌else◌, arith,
}
use maestro_dogecoin_indexer.Dunes.Id.{DuneId}

-- One column family inside a RocksDB transaction, seen by `get_by_key`, `stage_upsert` and
-- `stage_delete`: a read sees the last write to its key. A failing database is not modelled: it aborts the whole transaction.
pub record Table (K V : Type 0) (same : K → K → Bool) : Type 1 where
  pub Contents : Type 0
  pub get_by_key : Contents → K → Option V
  pub stage_upsert : Contents → K → V → Contents
  pub get_by_key-stage_upsert :
      (t : Contents) (k j : K) (v : V)
      → get_by_key (stage_upsert t k v) j ≡ (if same k j then some v else get_by_key t j)
  pub stage_delete : Contents → K → Contents
  pub get_by_key-stage_delete :
      (t : Contents) (k j : K)
      → get_by_key (stage_delete t k) j ≡ (if same k j then none else get_by_key t j)

-- `storage::DuneId`
pub record StoredId : Type 0 where
  pub block : ℕ
  pub tx : ℕ

abbrev pub same_id : StoredId → StoredId → Bool
same_id a b = (a.block == b.block) && (a.tx == b.tx)

pub same_id_iff : (a b : StoredId) → (same_id a b ≡ true) ↔ (a ≡ b)
same_id_iff a b = ground arith

-- `From<dune_id::DuneId> for storage::DuneId` and back, where `as u32` cuts the index.
abbrev pub store_id : DuneId → StoredId
store_id id = record { block = id.height; tx = id.index }

abbrev pub load_id : StoredId → DuneId
load_id id = record { height = id.block; index = id.tx % 2 ^ 32 }

-- `TxoRef`
pub record TxoRef : Type 0 where
  pub txid : ℕ
  pub vout : ℕ

-- `InscriptionId`; a txid is the number of its 32 bytes.
pub record InscriptionId : Type 0 where
  pub txid : ℕ
  pub index : ℕ

abbrev pub same_inscription : InscriptionId → InscriptionId → Bool
same_inscription a b = (a.txid == b.txid) && (a.index == b.index)

-- `TxoBody` without its height and its ordinal ranges, which nothing that is modelled reads. The map of unused
-- transfers is an association list.
pub record TxoBody : Type 0 where
  pub raw : List ℕ
  pub dunes : List (StoredId × ℕ)
  pub inscriptions : List (ℕ × InscriptionId)
  pub unused_brc20_transfers : List (InscriptionId × (List ℕ × ℕ))
