-- ===== src/DuneIndex/MintCounts/Examples.antt =====
-- A mint at concrete inputs.
use maestro_dogecoin_indexer.Prelude.{
  ℕ, ◌≡◌, refl, Option, none, some, List, [], ◌∷◌, arith, if◌then◌else◌,
}
use maestro_dogecoin_indexer.Dunes.Id.{to_u128, from_u128, claim}
use maestro_dogecoin_indexer.Bitcoin.{Instruction, op, push_bytes, Transaction}
use maestro_dogecoin_indexer.Dunes.Dunestone.{
  from_transaction, add_premine, take_all, supply_overflows,
}
use maestro_dogecoin_indexer.Dunes.Dunestone.Fields.{edict_from_integers}
use maestro_dogecoin_indexer.Dunes.Dunestone.Message.{from_integers, body_edicts}
use maestro_dogecoin_indexer.Dunes.Dunestone.Payload.{payload, integers}
use maestro_dogecoin_indexer.Varint.{decode}
use maestro_dogecoin_indexer.Storage.{same_id}
use maestro_dogecoin_indexer.DuneIndex.Tables.{Db}
use maestro_dogecoin_indexer.DuneIndex.Mint.{
  claims_of, claim_amount, mint_claims, count_mints, sort, dedup,
}
use maestro_dogecoin_indexer.DuneIndex.Etch.{dogecoin}
use maestro_dogecoin_indexer.DuneIndex.Edicts.{
  apply_edict, apply_edicts, allocate, add_output, source_of, set_balance,
}
use maestro_dogecoin_indexer.DuneIndex.Settle.{settle}
use maestro_dogecoin_indexer.DuneIndex.{IndexRunesResult, index_dunestone}
use maestro_dogecoin_indexer.DuneIndex.Tables.{DuneTerms}
use maestro_dogecoin_indexer.DuneIndex.Examples.{tables, crate, starts_with_return}
use maestro_dogecoin_indexer.DuneIndex.MintCounts.{Counts}
use maestro_dogecoin_indexer.DuneIndex.MintCounts.Whole.{index_dunestone-Counts}

-- An edict that mints of the dune 5:1 and sends all of it to output 0.
abbrev mint_script : List (Option Instruction)
mint_script =
    some (op 0x6a)
    ∷ some (push_bytes (b'D' ∷ []))
    ∷ some (push_bytes (0 ∷ 190 ∷ 254 ∷ 254 ∷ 255 ∷ 146 ∷ 255 ∷ 1 ∷ 0 ∷ 0 ∷ []))
    ∷ []

abbrev mint_tx : Transaction (List (Option Instruction))
mint_tx = record {
  input = record { previous_output = record { txid = 7; vout = 0 }; script_sig = [] } ∷ [];
  output =
      record { value = 1; script_pubkey = [] }
      ∷ record { value = 0; script_pubkey = mint_script }
      ∷ [];
}

abbrev open_terms : DuneTerms
open_terms = record {
  name = 27;
  amount = some 7;
  cap = some 2;
  start_height = some 5000000;
  end_height = none;
}

abbrev minted_before : ℕ → Db tables
minted_before n = record {
  ids = λ _. none;
  terms = λ _. some open_terms;
  mints = λ _. some n;
  counters = λ _. none;
}

abbrev mint_outcome : IndexRunesResult × List (ℕ × ℕ) × Db tables
mint_outcome = (
  record {
    output_dunes = ((327681, 7) ∷ []) ∷ [] ∷ [];
    successful_etch = none;
    successful_mints = 0 ∷ [];
  },
  [],
  record (minted_before 1) {
    mints = λ j. if same_id (record { block = 5; tx = 1 }) j then some 2 else some 1;
  },
)

mint_indexed :
    index_dunestone crate tables 210000 dogecoin 3 mint_tx 5100000 [] (minted_before 1)
    ≡ some mint_outcome
unfolding index_dunestone from_transaction starts_with_return payload integers decode add_premine
    take_all from_integers body_edicts edict_from_integers from_u128 supply_overflows claim
    claims_of mint_claims claim_amount count_mints sort dedup apply_edicts apply_edict allocate
    add_output source_of set_balance settle to_u128
mint_indexed = refl

index_dunestone-Counts_example : (some open_terms ≡ some open_terms) × Counts open_terms 5100000 1 2
index_dunestone-Counts_example =
    index_dunestone-Counts crate tables 210000 dogecoin 3 mint_tx 5100000 [] (minted_before 1)
      mint_outcome (record { block = 5; tx = 1 }) open_terms mint_indexed (omega arith)
      (omega arith) refl refl
