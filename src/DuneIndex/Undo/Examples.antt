-- ===== src/DuneIndex/Undo/Examples.antt =====
-- Undoing at concrete inputs.
use maestro_dogecoin_indexer.Prelude.{
  ℕ, ◌≡◌, refl, true, false, Option, none, some, [], ◌∷◌, arith, ◌==◌, if◌then◌else◌,
}
use maestro_dogecoin_indexer.Dunes.Id.{from_u128, claim, to_u128}
use maestro_dogecoin_indexer.Dunes.Constants.{reserved_start}
use maestro_dogecoin_indexer.Dunes.Name.{reserved, minimum_at_height}
use maestro_dogecoin_indexer.Dunes.Dunestone.{Dunestone}
use maestro_dogecoin_indexer.Dunes.Dunestone.Fields.{Edict}
use maestro_dogecoin_indexer.Storage.{same_id}
use maestro_dogecoin_indexer.DuneIndex.Tables.{DuneTerms, Db}
use maestro_dogecoin_indexer.DuneIndex.Mint.{mint, sort, dedup, claims_of}
use maestro_dogecoin_indexer.DuneIndex.Etch.{
  chain_of, dogecoin, etched, etched_name, create_rune_entry, entry_terms,
}
use maestro_dogecoin_indexer.DuneIndex.Edicts.{Issuance}
use maestro_dogecoin_indexer.DuneIndex.Examples.{tables, empty_tables}
use maestro_dogecoin_indexer.DuneIndex.{issuance_of, run_etching, run_edicts, enter_issuance, start}
use maestro_dogecoin_indexer.DuneIndex.Undo.{undo_etching, undo_claims}
use maestro_dogecoin_indexer.DuneIndex.Undo.Names.{SameReads}
use maestro_dogecoin_indexer.DuneIndex.Undo.Etching.{undo_etching-run_etching}
use maestro_dogecoin_indexer.DuneIndex.Undo.Unused.{unused_mint-undo_claims}

-- An etching with no name of its own.
abbrev nameless : Dunestone
nameless = record {
  edicts = [];
  etching = some (record {
    divisibility = none;
    terms = none;
    premine = none;
    dune = none;
    spacers = none;
    symbol = none;
    turbo = false;
  });
  pointer = none;
  cenotaph = false;
}

abbrev etch_outcome : Option ℕ × Option Issuance × Db tables
etch_outcome = (
  some reserved_start,
  some (issuance_of 5100000 3),
  record empty_tables { counters = λ j. if 0x15 == j then some 1 else none },
)

etched_nameless :
    run_etching tables 210000 dogecoin 3 5100000 nameless empty_tables ≡ some etch_outcome
unfolding run_etching etched etched_name minimum_at_height reserved chain_of
etched_nameless = refl

abbrev own_terms : DuneTerms
own_terms = record {
  name = reserved_start;
  amount = none;
  cap = none;
  start_height = none;
  end_height = none;
}

abbrev etched_tables : Db tables
etched_tables = record etch_outcome.2 {
  ids = λ j. if reserved_start == j then some (record { block = 5100000; tx = 3 }) else none;
  terms = λ j. if same_id (record { block = 5100000; tx = 3 }) j then some own_terms else none;
}

entered_nameless :
    enter_issuance tables nameless etch_outcome.1 etch_outcome.0 5100000 etch_outcome.2
    ≡ some etched_tables
unfolding enter_issuance issuance_of create_rune_entry entry_terms from_u128 to_u128
entered_nameless = refl

undo_etching-run_etching_example :
    (db₃ : Db tables) × (undo_etching tables nameless
        (record { block = 5100000; tx = 3 })
        etched_tables
      ≡ some db₃)
    × SameReads tables empty_tables db₃
undo_etching-run_etching_example =
    undo_etching-run_etching tables 210000 dogecoin 3 5100000 nameless empty_tables etched_tables
      etch_outcome etched_nameless entered_nameless (omega arith) (omega arith) refl (omega arith)
      (λ n _. refl)

-- An edict that claims the dune 5:1 and names the number behind the two outputs.
abbrev stray_edict : Edict
stray_edict = record { id = 281474977038337; amount = 0; output = 2 }

abbrev stray : Dunestone
stray = record { edicts = stray_edict ∷ []; etching = none; pointer = none; cenotaph = false }

abbrev mintable_tables : Db tables
mintable_tables = record empty_tables { terms = λ _. some (record own_terms { amount = some 7 }) }

stray_claims : claim stray_edict.id ≡ some 327681
unfolding claim
stray_claims = refl

stray_unpacks : from_u128 327681 ≡ some (record { height = 5; index = 1 })
unfolding from_u128
stray_unpacks = refl

stray_open : mint tables mintable_tables (record { height = 5; index = 1 }) 5100000 ≡ some 7
unfolding mint
stray_open = refl

unused_mint-undo_claims_example :
    (run_edicts tables (false ∷ true ∷ []) 5100000 stray (start 2 []) mintable_tables
      ≡ some (record (start 2 []) { mintable = (327681, 7) ∷ [] }, 0 ∷ [], mintable_tables))
    × (undo_claims tables ((3, 0) ∷ []) 3 0 (dedup (sort (claims_of stray.edicts))) mintable_tables
        ≡ none)
unused_mint-undo_claims_example =
    unused_mint-undo_claims tables (false ∷ true ∷ []) 5100000 stray stray_edict 327681
      (record { height = 5; index = 1 }) 7 mintable_tables refl stray_claims stray_unpacks
      stray_open (omega arith) (start 2 []) 3 refl
