-- ===== src/Inscriptions/Index/Examples.antt =====
-- Two transactions: one moves an unused transfer of 300, one reveals an inscription and has no output value.
use maestro_dogecoin_indexer.Prelude.{
  ℕ, ◌≡◌, refl, false, Option, none, some, List, [], ◌∷◌, ◌++◌, ◌==◌, All, arith, if◌then◌else◌,
}
use maestro_dogecoin_indexer.Prelude.Words.{u32_max}
use maestro_dogecoin_indexer.Bitcoin.{BitcoinCrate, OutPoint, Transaction}
use maestro_dogecoin_indexer.Storage.{TxoRef, TxoBody, InscriptionId}
use maestro_dogecoin_indexer.Storage.MapTable.{table}
use maestro_dogecoin_indexer.Drc20.Actions.{Brc20Terms, same_text}
use maestro_dogecoin_indexer.Drc20.Ledger.{ScriptAndBrc20Kind, same_account, transfer, Brc20Tables}
use maestro_dogecoin_indexer.Inscriptions.Parser.{from_transactions}
use maestro_dogecoin_indexer.Inscriptions.Placement.{new}
use maestro_dogecoin_indexer.Inscriptions.Placement.Located.{values}
use maestro_dogecoin_indexer.Inscriptions.Updater.{Codec, NewInscriptionInfo, PartialTables, done}
use maestro_dogecoin_indexer.Inscriptions.Moves.{count_origin}
use maestro_dogecoin_indexer.Inscriptions.Index.{
  IndexInscriptionsResult, BlockState, is_coinbase_input, index_inscriptions,
}
use maestro_dogecoin_indexer.Inscriptions.Index.Conserved.{
  KeepsInscriptions, index_inscriptions-KeepsInscriptions,
}
use maestro_dogecoin_indexer.Inscriptions.Index.Numbers.{index_inscriptions_same_number}

abbrev crate : BitcoinCrate
crate = record {
  Script = ℕ;
  instructions = λ s. [];
  is_op_return = λ s. false;
  op_return = 0x6a;
  is_null = λ o. o.vout == u32_max;
}

abbrev codec : Codec ℕ
codec = record {
  script_hash = λ s. s;
  decode_txout = λ raw. some (record { value = 10; script_pubkey = 7 });
  decode_transaction = λ bytes. none;
  encode_transaction = λ tx. [];
  subsidy = λ height. 0;
  json_message = λ body. none;
}

abbrev same_bytes : List ℕ → List ℕ
same_bytes tick = tick

abbrev partials : PartialTables
partials = record { Txids = table ℕ (List ℕ) ◌==◌; Bytes = table ℕ (List ℕ) ◌==◌ }

abbrev tables : Brc20Tables
tables = record {
  Balances = table ScriptAndBrc20Kind ℕ same_account;
  Supplies = table (List ℕ) ℕ same_text;
  Terms = table (List ℕ) Brc20Terms same_text;
}

abbrev before : BlockState crate codec same_bytes partials tables
before = record {
  partial_db = record { txids = λ t. none; bytes = λ t. none };
  ledger = record { balances = λ key. none; supplies = λ tick. some 300; terms = λ tick. none };
  counters = record { blessed_count = 4; next_sequence_num = 4; lost_sats = 0 };
  reward = 50;
  cb_inscriptions = [];
  new_inscriptions = [];
}

abbrev dogi : List ℕ
dogi = b'd' ∷ b'o' ∷ b'g' ∷ b'i' ∷ []

abbrev moving : InscriptionId
moving = record { txid = 2; index = 0 }

abbrev spent : OutPoint
spent = record { txid = 5; vout = 0 }

-- Every output holds the unused transfer at offset 3.
abbrev resolver : TxoRef → Option TxoBody
resolver r = some (record {
  raw = [];
  dunes = [];
  inscriptions = (3, moving) ∷ [];
  unused_brc20_transfers = (moving, (dogi, 300)) ∷ [];
})

abbrev moving_tx : Transaction ℕ
moving_tx = record {
  input = record { previous_output = spent; script_sig = [] } ∷ [];
  output = record { value = 2; script_pubkey = 8 } ∷ record { value = 6; script_pubkey = 9 } ∷ [];
}

abbrev moved_state : BlockState crate codec same_bytes partials tables
moved_state = record before {
  ledger = record before.ledger {
    balances = λ key.
        if same_account (record { script = 9; brc20_ticker = dogi }) key then some 300 else none;
  };
  reward = 52;
}

abbrev moved_result : IndexInscriptionsResult
moved_result = record {
  output_inscriptions = [] ∷ ((1, moving) ∷ []) ∷ [];
  lost_or_unbound_inscriptions = [];
  brc20_resolver = (moving, transfer dogi 300 spent 9) ∷ [];
  new_unused_brc20_transfers = [];
}

moved_indexed :
    index_inscriptions crate codec same_bytes partials tables resolver moving_tx 6 100 before
    ≡ done (moved_state, moved_result)
unfolding index_inscriptions from_transactions count_origin same_account
moved_indexed = refl

index_inscriptions-KeepsInscriptions_example :
    KeepsInscriptions crate codec same_bytes partials tables resolver moving_tx 6 100 before
      moved_state moved_result
unfolding is_coinbase_input values
index_inscriptions-KeepsInscriptions_example =
    index_inscriptions-KeepsInscriptions crate codec same_bytes partials tables resolver moving_tx 6
      100 before moved_state moved_result moved_indexed (omega arith) refl

abbrev bare : TxoRef → Option TxoBody
bare r = some (record { raw = []; dunes = []; inscriptions = []; unused_brc20_transfers = [] })

abbrev revealing_tx : Transaction ℕ
revealing_tx = record {
  input =
      record {
        previous_output = spent;
        script_sig = 3 ∷ b'o' ∷ b'r' ∷ b'd' ∷ 0x51 ∷ 1 ∷ b'x' ∷ 0 ∷ 1 ∷ b'y' ∷ [];
      }
      ∷ [];
  output = record { value = 0; script_pubkey = 8 } ∷ [];
}

abbrev revealed_info : NewInscriptionInfo
revealed_info = record {
  tx_hash = 6;
  id = record { txid = 6; index = 0 };
  number = 4;
  body = b'y' ∷ [];
  body_type = b'x' ∷ [];
}

abbrev revealed_state : BlockState crate codec same_bytes partials tables
revealed_state = record before {
  reward = 60;
  cb_inscriptions =
      record { inscription_id = record { txid = 6; index = 0 }; offset = 50; origin = new 10 } ∷ [];
  new_inscriptions = revealed_info ∷ [];
}

abbrev revealed_result : IndexInscriptionsResult
revealed_result = record {
  output_inscriptions = [] ∷ [];
  lost_or_unbound_inscriptions = [];
  brc20_resolver = [];
  new_unused_brc20_transfers = [];
}

revealed_indexed :
    index_inscriptions crate codec same_bytes partials tables bare revealing_tx 6 100 before
    ≡ done (revealed_state, revealed_result)
unfolding index_inscriptions from_transactions
revealed_indexed = refl

index_inscriptions_same_number_example :
    (revealed_state.counters ≡ before.counters)
    × (fresh : List NewInscriptionInfo) × (revealed_state.new_inscriptions
        ≡ before.new_inscriptions ++ fresh)
    × All (λ (n : NewInscriptionInfo). n.number ≡ 4) fresh
unfolding is_coinbase_input values
index_inscriptions_same_number_example =
    index_inscriptions_same_number crate codec same_bytes partials tables bare revealing_tx 6 100
      before revealed_state revealed_result revealed_indexed refl refl
