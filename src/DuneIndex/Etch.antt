-- ===== src/DuneIndex/Etch.antt =====
-- Etching (storage/runes/updater.rs): `etched` and `create_rune_entry`.
use maestro_dogecoin_indexer.Prelude.{
  ℕ, ◌+◌, ◌%◌, ◌^◌, min, max, ◌||◌, Option, none, some, ltb, if◌then◌else◌, ◌>>=◌, unwrap_or,
  is_some, or_else,
}
use maestro_dogecoin_indexer.Prelude.Words.{u64_max}
use maestro_dogecoin_indexer.Dunes.Constants.{Chain, testnet, mainnet}
use maestro_dogecoin_indexer.Dunes.Name.{minimum_at_height, is_reserved, reserved}
use maestro_dogecoin_indexer.Dunes.Id.{DuneId}
use maestro_dogecoin_indexer.Dunes.Dunestone.Fields.{Etching}
use maestro_dogecoin_indexer.Dunes.Dunestone.{Dunestone}
use maestro_dogecoin_indexer.Storage.{store_id}
use maestro_dogecoin_indexer.DuneIndex.Tables.{DuneTerms, Tables, Db, reserved_counters_key}

-- `BitcoinCompatibleNetwork` (sync/mod.rs)
pub data Network : Type 0 where
  bitcoin bitcoin_testnet dogecoin dogecoin_testnet : Network

unfoldable pub chain_of : Network → Chain
chain_of dogecoin_testnet = testnet
chain_of bitcoin_testnet = testnet
chain_of _ = mainnet

-- `height.saturating_add(offset)` on u64
unfoldable pub relative_height : ℕ → Option ℕ → Option ℕ
relative_height height offset = do o ← offset; some (min (height + o) u64_max)

-- The later of two starts, or the one that is there.
unfoldable pub latest : Option ℕ → Option ℕ → Option ℕ
latest relative absolute =
    or_else (or_else (do r ← relative; a ← absolute; some (max r a)) relative) absolute

-- The earlier of two ends, or the one that is there.
unfoldable pub earliest : Option ℕ → Option ℕ → Option ℕ
earliest relative absolute =
    or_else (or_else (do r ← relative; a ← absolute; some (min r a)) relative) absolute

abbrev pub no_terms : ℕ → DuneTerms
no_terms name = record {
  name = name;
  amount = none;
  cap = none;
  start_height = none;
  end_height = none;
}

-- The terms that `create_rune_entry` writes for a dune; `none` is the panic of an etching that is not
-- there.
unfoldable pub entry_terms : Dunestone → ℕ → ℕ → Option DuneTerms
unfolding relative_height latest earliest
entry_terms artifact dune height =
    if artifact.cenotaph then some (no_terms dune) else (elim artifact.etching [
      | none ↦ none
      | some etching ↦ elim etching.terms [
        | none ↦ some (no_terms dune)
        | some terms ↦ some (record {
          name = dune;
          amount = terms.limit;
          cap = terms.cap;
          start_height = latest (relative_height height terms.offset_start) terms.height_start;
          end_height = earliest (relative_height height terms.offset_end) terms.height_end;
        })
      ]
    ])

module _ (tables : Tables) where
  unfoldable pub create_rune_entry : Dunestone → DuneId → ℕ → ℕ → Db tables → Option (Db tables)
  create_rune_entry artifact id dune height db = do
    terms ← entry_terms artifact dune height
    some (record db {
      ids = tables.Ids.stage_upsert db.ids dune (store_id id);
      terms = tables.Terms.stage_upsert db.terms (store_id id) terms;
    })

  abbrev pub reserved_counter : Db tables → ℕ
  reserved_counter db = unwrap_or (tables.Counters.get_by_key db.counters reserved_counters_key) 0

  -- `etched` behind the minimum: the name that the etching asks for, or the next reserved one. The
  -- outer `none` is a panic.
  unfoldable pub etched_name : Option ℕ → ℕ → Db tables → Option (Option ℕ × Db tables)
  etched_name (some dune) minimum db =
      if ltb dune minimum || (is_reserved dune || is_some (tables.Ids.get_by_key db.ids dune))
      then some (none, db)
      else some (some dune, db)
  etched_name none minimum db = do
    dune ← reserved (reserved_counter db)
    let counter = (reserved_counter db + 1) % 2 ^ 64
    some (
      some dune,
      record db {
        counters = tables.Counters.stage_upsert db.counters reserved_counters_key counter;
      },
    )

  -- `etched`, over the halving interval of the bitcoin crate.
  unfoldable pub etched :
      ℕ → Network → ℕ → ℕ → Etching → Db tables → Option (Option (DuneId × ℕ) × Db tables)
  unfolding etched_name
  etched halving network tx_index height etching db = do
    minimum ← minimum_at_height halving (chain_of network) (height % 2 ^ 32)
    named ← etched_name etching.dune minimum db
    let (name, db') = named
    some ((do dune ← name; some (record { height = height; index = tx_index }, dune)), db')
