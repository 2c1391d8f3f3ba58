-- ===== src/Bitcoin.antt =====
-- What the services take from the bitcoin crate: transactions, and the script functions as parameters.
use maestro_dogecoin_indexer.Prelude.{ℕ, Bool, Option, List}

-- `script::Instruction`
pub data Instruction : Type 0 where
  op : ℕ → Instruction
  push_bytes : List ℕ → Instruction

-- `OutPoint`; a txid is the number of its 32 bytes.
pub record OutPoint : Type 0 where
  pub txid : ℕ
  pub vout : ℕ

-- `instructions` lists what the iterator over a script yields; `none` is an item that is an error.
pub record BitcoinCrate : Type 1 where
  pub Script : Type 0
  pub instructions : Script → List (Option Instruction)
  pub is_op_return : Script → Bool
  pub op_return : ℕ
  pub is_null : OutPoint → Bool

pub record TxOut (Script : Type 0) : Type 0 where
  pub value : ℕ
  pub script_pubkey : Script

-- `TxIn`; the script is its bytes.
pub record TxIn : Type 0 where
  pub previous_output : OutPoint
  pub script_sig : List ℕ

pub record Transaction (Script : Type 0) : Type 0 where
  pub input : List TxIn
  pub output : List (TxOut Script)
