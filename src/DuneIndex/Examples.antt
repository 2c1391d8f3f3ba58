-- ===== src/DuneIndex/Examples.antt =====
-- Runs of the dune updater, and its theorems at concrete inputs.
use maestro_dogecoin_indexer.Prelude.{
  ℕ, ◌+◌, ◌≤◌, ◌≡◌, ◌∙◌, sym, refl, Bool, true, false, ◌&&◌, Option, none, some, List, [], ◌∷◌,
  arith, ◌==◌, get_elem?, if◌then◌else◌,
}
use mathlib.Core.Path.{subst}
use maestro_dogecoin_indexer.Dunes.Id.{to_u128, from_u128, claim}
use maestro_dogecoin_indexer.Prelude.Words.{u32_max, u128_max}
use maestro_dogecoin_indexer.Bitcoin.{Instruction, op, push_bytes, BitcoinCrate, Transaction}
use maestro_dogecoin_indexer.Dunes.Dunestone.{
  Dunestone, from_transaction, add_premine, take_all, supply_overflows,
}
use maestro_dogecoin_indexer.Dunes.Dunestone.Fields.{Edict, edict_from_integers}
use maestro_dogecoin_indexer.Dunes.Dunestone.Message.{from_integers, body_edicts}
use maestro_dogecoin_indexer.Dunes.Dunestone.Payload.{payload, integers}
use maestro_dogecoin_indexer.Varint.{decode}
use maestro_dogecoin_indexer.Storage.{TxoBody}
use maestro_dogecoin_indexer.Storage.MapTable.{table}
use maestro_dogecoin_indexer.DuneIndex.Tables.{Tables, Db}
use maestro_dogecoin_indexer.DuneIndex.Mint.{claims_of, mint_claims, count_mints, sort, dedup}
use maestro_dogecoin_indexer.DuneIndex.Etch.{dogecoin}
use maestro_dogecoin_indexer.DuneIndex.Edicts.{
  Allocating, apply_edict, apply_edicts, allocate, add_output, source_of, set_balance,
}
use maestro_dogecoin_indexer.DuneIndex.Settle.{settle}
use maestro_dogecoin_indexer.DuneIndex.Settle.Sums.{settle_sum}
use maestro_dogecoin_indexer.DuneIndex.Amounts.{sum_of, sum_outputs}
use maestro_dogecoin_indexer.DuneIndex.Conservation.{Applies, apply_edicts-Applies}
use maestro_dogecoin_indexer.DuneIndex.Elsewhere.{apply_edicts_elsewhere}
use maestro_dogecoin_indexer.DuneIndex.Accounts.Claims.{Absent}
use maestro_dogecoin_indexer.DuneIndex.Accounts.Inputs.{
  stored_amount, held_by_inputs, spent_amount, Conserves, index_runes-conserves,
}
use maestro_dogecoin_indexer.DuneIndex.{
  IndexRunesResult, done, Resolver, start, add_dunes, index_runes,
}

-- Tables that are functions, and a crate whose scripts are lists of instructions.
abbrev pub tables : Tables
tables = record {
  Ids = table _ _ _;
  Terms = table _ _ _;
  Mints = table _ _ _;
  Counters = table _ _ _;
}

abbrev pub empty_tables : Db tables
empty_tables = record {
  ids = λ _. none;
  terms = λ _. none;
  mints = λ _. none;
  counters = λ _. none;
}

unfoldable pub starts_with_return : List (Option Instruction) → Bool
starts_with_return (some (op code) ∷ rest) = code == 0x6a
starts_with_return _ = false

abbrev pub crate : BitcoinCrate
crate = record {
  Script = List (Option Instruction);
  instructions = λ s. s;
  is_op_return = starts_with_return;
  op_return = 0x6a;
  is_null = λ o. (o.txid == 0) && (o.vout == u32_max);
}

-- An edict that sends 10 of the dune 5:1 to output 1, behind the protocol marker "D".
abbrev edict_script : List (Option Instruction)
edict_script =
    some (op 0x6a)
    ∷ some (push_bytes (b'D' ∷ []))
    ∷ some (push_bytes (0 ∷ 146 ∷ 255 ∷ 1 ∷ 10 ∷ 1 ∷ []))
    ∷ []

abbrev edict_tx : Transaction (List (Option Instruction))
edict_tx = record {
  input =
      record { previous_output = record { txid = 7; vout = 0 }; script_sig = [] }
      ∷ record { previous_output = record { txid = 7; vout = 1 }; script_sig = [] }
      ∷ [];
  output =
      record { value = 1; script_pubkey = [] }
      ∷ record { value = 1; script_pubkey = [] }
      ∷ record { value = 0; script_pubkey = edict_script }
      ∷ [];
}

abbrev held : List (ℕ × ℕ)
held = (327681, 25) ∷ []

-- The 25 are 15 on one of the spent outputs and 10 on the other.
abbrev holding : ℕ → TxoBody
holding balance = record {
  raw = [];
  dunes = (record { block = 5; tx = 1 }, balance) ∷ [];
  inscriptions = [];
  unused_brc20_transfers = [];
}

abbrev resolver : Resolver
resolver r = if r.vout == 0 then some (holding 15) else some (holding 10)

abbrev edict_answer : IndexRunesResult × Db tables
edict_answer = (
  record {
    output_dunes = ((327681, 15) ∷ []) ∷ ((327681, 10) ∷ []) ∷ [] ∷ [];
    successful_etch = none;
    successful_mints = [];
  },
  empty_tables,
)

edict_indexed :
    index_runes crate tables 210000 resolver empty_tables 3 edict_tx 5100000 dogecoin
    ≡ done edict_answer
unfolding index_runes from_transaction starts_with_return payload integers decode add_premine
    take_all from_integers body_edicts edict_from_integers from_u128 supply_overflows claim
    claims_of mint_claims count_mints sort dedup apply_edicts apply_edict allocate add_output
    source_of set_balance settle to_u128 add_dunes
edict_indexed = refl

abbrev edict_stone : Dunestone
edict_stone = record {
  edicts = record { id = 327681; amount = 10; output = 1 } ∷ [];
  etching = none;
  pointer = none;
  cenotaph = false;
}

edict_read : from_transaction crate edict_tx ≡ some edict_stone
unfolding from_transaction starts_with_return payload integers decode add_premine take_all
    from_integers body_edicts edict_from_integers from_u128 supply_overflows
edict_read = refl

nothing_claimed :
    (d : Dunestone) → from_transaction crate edict_tx ≡ some d → Absent 327681 (claims_of d.edicts)
unfolding claims_of claim
nothing_claimed d h =
    subst
      (λ (o : Option Dunestone). elim o [
        | none ↦ Unit
        | some d ↦ Absent 327681 (claims_of d.edicts)
      ])
      (sym edict_read ∙ h) tt

spent_fits : spent_amount crate 327681 resolver edict_tx ≤ u128_max
unfolding held_by_inputs stored_amount to_u128
spent_fits = omega arith

nothing_and_held_fit : sum_outputs 327681 ([] ∷ [] ∷ []) + sum_of 327681 held ≤ u128_max
unfolding sum_of sum_outputs
nothing_and_held_fit = omega arith

other_id : (to_u128 (record { height = 5100000; index = 3 }) == 327681) ≡ false
unfolding to_u128
other_id = refl

index_runes-conserves_example :
    Conserves crate tables 210000 resolver empty_tables 3 edict_tx 5100000 dogecoin 327681
      edict_answer
index_runes-conserves_example =
    index_runes-conserves crate tables 210000 resolver empty_tables 3 edict_tx 5100000 dogecoin
      327681 nothing_claimed other_id spent_fits edict_answer edict_indexed

apply_edicts-Applies_example :
    (s : Allocating) × (apply_edicts (false ∷ false ∷ true ∷ []) edict_stone.edicts (start 3 held)
      ≡ some s)
    × Applies (false ∷ false ∷ true ∷ []) (start 3 held) s
apply_edicts-Applies_example =
    apply_edicts-Applies (false ∷ false ∷ true ∷ []) edict_stone.edicts (start 3 held) refl

settle_sum_example :
    sum_outputs 327681 (settle (false ∷ true ∷ []) false (some 1) held ([] ∷ [] ∷ [])).0
      + sum_of 327681 (settle (false ∷ true ∷ []) false (some 1) held ([] ∷ [] ∷ [])).1
    ≡ sum_outputs 327681 ([] ∷ [] ∷ []) + sum_of 327681 held
settle_sum_example =
    settle_sum (false ∷ true ∷ []) false (some 1) held ([] ∷ [] ∷ []) 327681 refl
      nothing_and_held_fit

-- The first edict names the number of outputs, the second one output 1.
abbrev two_edicts : List Edict
two_edicts =
    record { id = 327681; amount = 4; output = 2 }
    ∷ record { id = 327681; amount = 3; output = 1 }
    ∷ []

apply_edicts_elsewhere_example :
    (s : Allocating) × (apply_edicts (false ∷ false ∷ []) two_edicts (start 2 held) ≡ some s)
    × (get_elem? s.allocated 0 ≡ some [])
apply_edicts_elsewhere_example =
    apply_edicts_elsewhere (false ∷ false ∷ []) two_edicts 0 (start 2 held) (refl, (refl, tt))
