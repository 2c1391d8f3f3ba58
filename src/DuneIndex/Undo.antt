-- ===== src/DuneIndex/Undo.antt =====
-- What `ChainDB::rollback` (services/compressor-xdg/src/storage/mod.rs) undoes of a dunestone.
pub mod Names
pub mod Etching
pub mod Unused
mod Examples
use maestro_dogecoin_indexer.Prelude.{
  ℕ, ◌+◌, ◌-◌, ◌%◌, ◌^◌, Bool, false, ◌&&◌, ◌||◌, Option, none, some, List, [], ◌∷◌, ◌==◌,
  if◌then◌else◌, ◌>>=◌,
}
use maestro_dogecoin_indexer.Dunes.Id.{DuneId, from_u128}
use maestro_dogecoin_indexer.Dunes.Dunestone.{Dunestone}
use maestro_dogecoin_indexer.Storage.{StoredId, store_id}
use maestro_dogecoin_indexer.DuneIndex.Tables.{DuneTerms, Tables, Db, reserved_counters_key}
use maestro_dogecoin_indexer.DuneIndex.Mint.{mints_of, sort, dedup, claims_of}
use maestro_dogecoin_indexer.DuneIndex.Etch.{reserved_counter}

-- `mints.contains(&(idx, claim_idx))`
unfoldable pub contains : ℕ × ℕ → List (ℕ × ℕ) → Bool
contains entry [] = false
contains entry (e ∷ mints) =
    let rest = contains entry mints in ((e.0 == entry.0) && (e.1 == entry.1)) || rest

module _ (tables : Tables) where
  -- An etching without a name gives its reserved name back; `none` is the panic of an underflow.
  unfoldable pub undo_counter : Option ℕ → Db tables → Option (Db tables)
  undo_counter (some dune) db = some db
  undo_counter none db =
      let old_reserved = reserved_counter tables db in
      if old_reserved == 0
      then none
      else some (record db {
        counters =
            tables.Counters.stage_upsert db.counters reserved_counters_key (old_reserved - 1);
      })

  unfoldable pub delete_entry : StoredId → DuneTerms → Db tables → Db tables
  delete_entry etch_id terms db = record db {
    ids = tables.Ids.stage_delete db.ids terms.name;
    terms = tables.Terms.stage_delete db.terms etch_id;
  }

  -- The block `undo etches`
  unfoldable pub undo_etching : Dunestone → StoredId → Db tables → Option (Db tables)
  unfolding undo_counter delete_entry
  undo_etching dunestone etch_id db = elim dunestone.etching [
    | none ↦ some db
    | some etching ↦ (elim (tables.Terms.get_by_key db.terms etch_id) [
      | none ↦ some db
      | some terms ↦ undo_counter etching.dune (delete_entry etch_id terms db)
    ])
  ]

  -- The mint of one id is taken back; `none` is the panic of an underflow.
  unfoldable pub undo_mint : StoredId → Db tables → Option (Db tables)
  undo_mint mint_id db =
      let old_mints = mints_of tables db mint_id in
      if old_mints == 0
      then none
      else some (record db { mints = tables.Mints.stage_upsert db.mints mint_id (old_mints - 1) })

  unfoldable pub undo_claim : List (ℕ × ℕ) → ℕ → ℕ → ℕ → Db tables → Option (Db tables)
  unfolding undo_mint contains
  undo_claim mints idx claim_idx id db = elim (from_u128 id) [
    | none ↦ some db
    | some key ↦
        if contains (idx % 2 ^ 32, claim_idx % 2 ^ 16) mints
        then undo_mint (store_id key) db
        else some db
  ]

  -- The block `undo mints`, from the claim number `claim_idx` on.
  unfoldable pub undo_claims : List (ℕ × ℕ) → ℕ → ℕ → List ℕ → Db tables → Option (Db tables)
  unfolding undo_claim
  undo_claims mints idx claim_idx [] db = some db
  undo_claims mints idx claim_idx (id ∷ claims) db = do
    db' ← undo_claim mints idx claim_idx id db
    undo_claims mints idx (claim_idx + 1) claims db'

  -- What is undone of the dunestone of the transaction `idx` in the block at `height`, over the mints
  -- that the block's resolver recorded.
  unfoldable pub undo_dunestone : List (ℕ × ℕ) → ℕ → ℕ → Dunestone → Db tables → Option (Db tables)
  unfolding undo_etching undo_claims
  undo_dunestone mints height idx dunestone db = do
    db' ← undo_etching dunestone (record { block = height; tx = idx }) db
    undo_claims mints idx 0 (dedup (sort (claims_of dunestone.edicts))) db'
