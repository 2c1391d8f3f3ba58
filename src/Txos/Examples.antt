-- ===== src/Txos/Examples.antt =====
-- A block at concrete tables: its second transaction spends an output in memory that holds an unused transfer of 300.
use mathlib.Core.Path.{subst}
use maestro_dogecoin_indexer.Prelude.{
  ℕ, ◌≡◌, ◌∙◌, sym, ◌+◌, ◌≤◌, refl, false, Option, none, some, List, [], ◌∷◌, ◌==◌, All, arith,
  some_inj, if◌then◌else◌,
}
use maestro_dogecoin_indexer.Prelude.Words.{u32_max, u128_max}
use maestro_dogecoin_indexer.Bitcoin.{BitcoinCrate, Transaction}
use maestro_dogecoin_indexer.Dunes.Dunestone.{from_transaction}
use maestro_dogecoin_indexer.Storage.{Table, TxoRef, TxoBody, InscriptionId, StoredId, same_id}
use maestro_dogecoin_indexer.Storage.MapTable.{table}
use maestro_dogecoin_indexer.DuneIndex.Etch.{dogecoin}
use maestro_dogecoin_indexer.Dunes.Dunestone.Payload.{payload}
use maestro_dogecoin_indexer.DuneIndex.Settle.{settle}
use maestro_dogecoin_indexer.DuneIndex.Tables
use maestro_dogecoin_indexer.DuneIndex.{Resolver, index_runes}
use maestro_dogecoin_indexer.Drc20.Actions.{Brc20Terms, same_text}
use maestro_dogecoin_indexer.Drc20.Ledger.{
  ScriptAndBrc20Kind, same_account, transfer, Brc20Tables, undo_messages,
}
use maestro_dogecoin_indexer.Drc20.Ledger.Reads.{SameReads}
use maestro_dogecoin_indexer.Inscriptions.Parser.{from_transactions}
use maestro_dogecoin_indexer.Inscriptions.Updater.{Codec, PartialTables, done}
use maestro_dogecoin_indexer.Inscriptions.Moves.{count_origin}
use maestro_dogecoin_indexer.Inscriptions.Index.{BlockState, index_inscriptions}
use maestro_dogecoin_indexer.Txos.{Setting, Running, resolve_and_process}
use maestro_dogecoin_indexer.Txos.Memory.{
  UtxoResolver, with_txo, same_ref, input_refs, contains_ref, refs_of,
}
use maestro_dogecoin_indexer.Txos.Apply.{apply_tx, apply_txs, undo_txs, retain_inputs}
use maestro_dogecoin_indexer.Txos.Apply.Undo.{Spendable, undo_txs-apply_block}
use maestro_dogecoin_indexer.Inscriptions.Index.Runs.{done_inj}
use maestro_dogecoin_indexer.Txos.Undo.{undo_messages-resolve_and_process}
use maestro_dogecoin_indexer.Txos.Erased.{map_done, erased, resolve_and_process-erased}

abbrev crate : BitcoinCrate
crate = record {
  Script = ℕ;
  instructions = λ s. [];
  is_op_return = λ s. false;
  op_return = 0x6a;
  is_null = λ o. o.vout == u32_max;
}

abbrev codec : Codec ℕ
codec = record {
  script_hash = λ s. s;
  decode_txout = λ raw. some (record { value = 10; script_pubkey = 7 });
  decode_transaction = λ bytes. none;
  encode_transaction = λ tx. [];
  subsidy = λ height. 50;
  json_message = λ body. none;
}

abbrev same_bytes : List ℕ → List ℕ
same_bytes tick = tick

abbrev partials : PartialTables
partials = record { Txids = table ℕ (List ℕ) ◌==◌; Bytes = table ℕ (List ℕ) ◌==◌ }

abbrev tables : Brc20Tables
tables = record {
  Balances = table ScriptAndBrc20Kind ℕ same_account;
  Supplies = table (List ℕ) ℕ same_text;
  Terms = table (List ℕ) Brc20Terms same_text;
}

abbrev dune_tables : Tables.Tables
dune_tables = record {
  Ids = table ℕ StoredId ◌==◌;
  Terms = table StoredId Tables.DuneTerms same_id;
  Mints = table StoredId ℕ same_id;
  Counters = table ℕ ℕ ◌==◌;
}

-- The txid of a transaction is 100 more than that of its first input.
abbrev setting : Setting ℕ
setting = record {
  txid = λ tx. elim tx.input [ [] ↦ 0 | i ∷ _ ↦ i.previous_output.txid + 100 ];
  coinbase = λ txs. elim txs [ [] ↦ none | tx ∷ _ ↦ some tx ];
  encode_txout = λ o. o.value ∷ o.script_pubkey ∷ [];
  halving = 210000;
  network = dogecoin;
  height = 100;
  first_rune_height = 50;
  first_inscription_height = 60;
}

abbrev dogi : List ℕ
dogi = b'd' ∷ b'o' ∷ b'g' ∷ b'i' ∷ []

abbrev moving : InscriptionId
moving = record { txid = 2; index = 0 }

abbrev spent : TxoRef
spent = record { txid = 5; vout = 0 }

abbrev body : TxoBody
body = record {
  raw = 10 ∷ 7 ∷ [];
  dunes = [];
  inscriptions = (3, moving) ∷ [];
  unused_brc20_transfers = (moving, (dogi, 300)) ∷ [];
}

-- Every output holds the transfer.
abbrev txos : TxoRef → Option TxoBody
txos r = some body

abbrev memory : Option UtxoResolver
memory = some (record { entries = (spent, body) ∷ []; size = 2 })

abbrev block : List (Transaction ℕ)
block =
    record {
      input =
          record { previous_output = record { txid = 0; vout = u32_max }; script_sig = [] } ∷ [];
      output = record { value = 52; script_pubkey = 4 } ∷ [];
    }
    ∷ record {
      input = record { previous_output = record { txid = 5; vout = 0 }; script_sig = [] } ∷ [];
      output =
          record { value = 2; script_pubkey = 8 } ∷ record { value = 6; script_pubkey = 9 } ∷ [];
    }
    ∷ []

abbrev before : BlockState crate codec same_bytes partials tables
before = record {
  partial_db = record { txids = λ t. none; bytes = λ t. none };
  ledger = record { balances = λ key. none; supplies = λ tick. some 300; terms = λ tick. none };
  counters = record { blessed_count = 4; next_sequence_num = 4; lost_sats = 0 };
  reward = 0;
  cb_inscriptions = [];
  new_inscriptions = [];
}

abbrev dunes : Tables.Db dune_tables
dunes = record { ids = λ k. none; terms = λ k. none; mints = λ k. none; counters = λ k. none }

abbrev bare : ℕ → ℕ → TxoBody
bare value script = record {
  raw = value ∷ script ∷ [];
  dunes = [];
  inscriptions = [];
  unused_brc20_transfers = [];
}

abbrev received : TxoBody
received = record (bare 6 9) { inscriptions = (1, moving) ∷ [] }

abbrev output : ℕ → ℕ → TxoRef
output txid vout = record { txid = txid; vout = vout }

abbrev after : Running crate codec same_bytes partials tables dune_tables
after = record {
  resolver = with_txo (output 100 0) (bare 52 4) (
      with_txo (output 105 1) received
        (with_txo (output 105 0) (bare 2 8) (with_txo spent body (λ r. none))));
  memory = some (record {
    entries = (output 100 0, bare 52 4) ∷ (output 105 1, received) ∷ (output 105 0, bare 2 8) ∷ [];
    size = 6;
  });
  state = record before {
    ledger = record before.ledger {
      balances = λ key.
          if same_account (record { script = 9; brc20_ticker = dogi }) key then some 300 else none;
    };
    reward = 52;
  };
  dunes = dunes;
  successful_etches = [];
  successful_mints = [];
  brc20_resolver = (moving, transfer dogi 300 (record { txid = 5; vout = 0 }) 9) ∷ [];
}

indexed :
    resolve_and_process crate codec same_bytes partials tables dune_tables setting txos block memory
      before dunes
    ≡ done after
unfolding resolve_and_process index_inscriptions from_transactions count_origin same_account
    index_runes from_transaction payload settle
indexed = refl

undo_messages-resolve_and_process_example :
    SameReads tables before.ledger (undo_messages tables after.brc20_resolver after.state.ledger)
undo_messages-resolve_and_process_example =
    undo_messages-resolve_and_process crate codec same_bytes partials tables dune_tables setting
      txos block memory before dunes after indexed
      (λ r b found.
        subst
          (λ (x : TxoBody).
            All (λ (t : InscriptionId × (List ℕ × ℕ)). t.1.1 ≤ u128_max) x.unused_brc20_transfers)
          (some_inj found) (omega arith, tt))
      ((omega arith, tt), tt)
      (record { balances = λ key. omega arith; supplies = λ tick. omega arith })

resolve_and_process-erased_example :
    map_done (erased crate codec same_bytes partials tables dune_tables setting) (
      resolve_and_process crate codec same_bytes partials tables dune_tables setting txos block
        memory before dunes)
    ≡ resolve_and_process crate codec same_bytes partials tables dune_tables setting txos block none
        before dunes
resolve_and_process-erased_example =
    resolve_and_process-erased crate codec same_bytes partials tables dune_tables setting txos block
      memory before dunes (refl, tt)

abbrev txo_table : Table TxoRef TxoBody same_ref
txo_table = table TxoRef TxoBody same_ref

-- Only the spent output is in the table.
abbrev unspent : txo_table.Contents
unspent r = if same_ref spent r then some body else none

abbrev coinbase_tx : Transaction ℕ
coinbase_tx = record {
  input = record { previous_output = record { txid = 0; vout = u32_max }; script_sig = [] } ∷ [];
  output = record { value = 52; script_pubkey = 4 } ∷ [];
}

abbrev spending_tx : Transaction ℕ
spending_tx = record {
  input = record { previous_output = record { txid = 5; vout = 0 }; script_sig = [] } ∷ [];
  output = record { value = 2; script_pubkey = 8 } ∷ record { value = 6; script_pubkey = 9 } ∷ [];
}

abbrev with_coinbase : txo_table.Contents
with_coinbase =
    txo_table.stage_delete (txo_table.stage_upsert unspent (output 100 0) (bare 52 4))
      (output 0 u32_max)

abbrev applied_block : txo_table.Contents
applied_block =
    txo_table.stage_delete
      (txo_table.stage_upsert (txo_table.stage_upsert with_coinbase (output 105 0) (bare 2 8))
        (output 105 1) received)
      spent

coinbase_applied :
    apply_tx txo_table setting.txid setting.encode_txout coinbase_tx after.resolver unspent
    ≡ done with_coinbase
unfolding apply_tx with_txo
coinbase_applied = refl

block_applied :
    apply_txs txo_table setting.txid setting.encode_txout
      (coinbase_tx ∷ spending_tx ∷ [])
      after.resolver
      unspent
    ≡ done applied_block
unfolding apply_txs with_txo
block_applied = refl

undo_txs-apply_block_example :
    (out : Resolver × txo_table.Contents) × (undo_txs txo_table setting.txid setting.encode_txout 0
        (coinbase_tx ∷ spending_tx ∷ [])
        (retain_inputs (input_refs (coinbase_tx ∷ spending_tx ∷ [])) after.resolver)
        applied_block
      ≡ done out)
    × ((q : TxoRef) → txo_table.get_by_key out.1 q ≡ unspent q)
unfolding contains_ref refs_of with_txo
undo_txs-apply_block_example =
    undo_txs-apply_block txo_table setting.txid setting.encode_txout coinbase_tx (spending_tx ∷ [])
      after.resolver unspent applied_block block_applied (refl, tt) (refl, tt)
      (λ applied e.
        subst
          (λ (db : txo_table.Contents).
            Spendable txo_table setting.txid setting.encode_txout after.resolver db
              (spending_tx ∷ []))
          (done_inj (sym coinbase_applied ∙ e))
          ((refl, (refl, tt)), ((body, refl, refl), tt), λ db' ran. tt))
      (refl, tt)
