-- ===== src/DuneIndex/Tables.antt =====
-- The tables that the dune updater reads and writes (storage/runes/mod.rs).
use maestro_dogecoin_indexer.Prelude.{ℕ, Option, ◌==◌}
use maestro_dogecoin_indexer.Storage.{Table, StoredId, same_id}

pub record DuneTerms : Type 0 where
  pub name : ℕ
  pub amount : Option ℕ
  pub cap : Option ℕ
  pub start_height : Option ℕ
  pub end_height : Option ℕ

-- DuneIdByNameKV, DuneTermsByIdKV, DuneMintsByIdKV and DunesReservedCountersKV.
pub record Tables : Type 1 where
  pub Ids : Table ℕ StoredId ◌==◌
  pub Terms : Table StoredId DuneTerms same_id
  pub Mints : Table StoredId ℕ same_id
  pub Counters : Table ℕ ℕ ◌==◌

-- `DUNES_RESERVED_COUNTERS_KEY`, whose one byte is 0x15.
abbrev pub reserved_counters_key : ℕ
reserved_counters_key = 0x15

-- The contents of the tables inside one database transaction.
pub record Db (tables : Tables) : Type 0 where
  pub ids : tables.Ids.Contents
  pub terms : tables.Terms.Contents
  pub mints : tables.Mints.Contents
  pub counters : tables.Counters.Contents
