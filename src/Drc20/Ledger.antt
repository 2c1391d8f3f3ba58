-- ===== src/Drc20/Ledger.antt =====
-- What DRC-20 messages do to balances, supplies and terms: the ledger part of `index_inscriptions`
-- (services/compressor-xdg/src/storage/inscriptions/updater.rs) and its undo in `ChainDB::rollback`
-- (services/compressor-xdg/src/storage/mod.rs).
pub mod Reads
pub mod Cases
pub mod Supply
pub mod Sound
pub mod Books
pub mod Total
pub mod Congruence
pub mod Undone
pub mod Rollback
mod Examples
use mathlib.Core.List.{reverse}
use maestro_dogecoin_indexer.Prelude.{
  ℕ, ◌≡◌, ◌↔◌, Bool, ◌&&◌, Option, none, some, List, [], ◌∷◌, ◌++◌, ltb, ◌==◌, if◌then◌else◌,
  unwrap_or, min, ◌>>=◌,
}
use maestro_dogecoin_indexer.Prelude.Words.{add128, sub128}
use maestro_dogecoin_indexer.Bitcoin.{OutPoint}
use maestro_dogecoin_indexer.Storage.{InscriptionId, Table}
use maestro_dogecoin_indexer.Drc20.Decimal.{Parsed, rejected, panicked, parsed}
use maestro_dogecoin_indexer.Drc20.Actions.{
  RawProtocolMessage, Brc20Terms, DeployAction, AmountAction, same_text, parse_deploy, parse_mint,
  parse_transfer,
}

-- `ScriptAndBRC20Kind`; a script hash is the number of its bytes.
pub record ScriptAndBrc20Kind : Type 0 where
  pub script : ℕ
  pub brc20_ticker : List ℕ

unfoldable pub same_account : ScriptAndBrc20Kind → ScriptAndBrc20Kind → Bool
unfolding same_text
same_account a b = (a.script == b.script) && same_text a.brc20_ticker b.brc20_ticker

-- `BRC20Message`
pub data Brc20Message : Type 0 where
  deploy : List ℕ → Brc20Message
  mint : List ℕ → ℕ → ℕ → Brc20Message
  transfer : List ℕ → ℕ → OutPoint → ℕ → Brc20Message
  transfer_init : List ℕ → ℕ → ℕ → Brc20Message

-- BRC20Balances, SupplyByBRC20 and TermsByBRC20Ticker.
pub record Brc20Tables : Type 1 where
  pub Balances : Table ScriptAndBrc20Kind ℕ same_account
  pub Supplies : Table (List ℕ) ℕ same_text
  pub Terms : Table (List ℕ) Brc20Terms same_text

pub record Brc20Db (tables : Brc20Tables) : Type 0 where
  pub balances : tables.Balances.Contents
  pub supplies : tables.Supplies.Contents
  pub terms : tables.Terms.Contents

-- An inscription that was an unused transfer and has moved: its ticker, amount, first location, and who is
-- credited.
pub record UsedTransfer : Type 0 where
  pub inscription : InscriptionId
  pub tick : List ℕ
  pub amt : ℕ
  pub original_outpoint : OutPoint
  pub receiver : ℕ

module _ (tables : Brc20Tables) where
  -- The tables, the pushes to `valid_brc20s`, and the inserts into `new_unused_brc20_transfers`.
  pub record Effects : Type 0 where
    pub db : Brc20Db tables
    pub valid_brc20s : List (InscriptionId × Brc20Message)
    pub new_unused_transfers : List (InscriptionId × (List ℕ × ℕ))

  abbrev pub unchanged : Brc20Db tables → Effects
  unchanged db = record { db = db; valid_brc20s = []; new_unused_transfers = [] }

  -- Effects, and those that come behind them.
  abbrev pub followed : Effects → Effects → Effects
  followed first rest = record rest {
    valid_brc20s = first.valid_brc20s ++ rest.valid_brc20s;
    new_unused_transfers = first.new_unused_transfers ++ rest.new_unused_transfers;
  }

  abbrev pub balance_of : Brc20Db tables → ScriptAndBrc20Kind → ℕ
  balance_of db key = unwrap_or (tables.Balances.get_by_key db.balances key) 0

  abbrev pub supply_of : Brc20Db tables → List ℕ → ℕ
  supply_of db tick = unwrap_or (tables.Supplies.get_by_key db.supplies tick) 0

  abbrev pub terms_of : Brc20Db tables → List ℕ → Option Brc20Terms
  terms_of db tick = tables.Terms.get_by_key db.terms tick

  unfoldable pub set_balance : ScriptAndBrc20Kind → ℕ → Brc20Db tables → Brc20Db tables
  set_balance key balance db = record db {
    balances = tables.Balances.stage_upsert db.balances key balance;
  }

  unfoldable pub set_supply : List ℕ → ℕ → Brc20Db tables → Brc20Db tables
  set_supply tick supply db = record db {
    supplies = tables.Supplies.stage_upsert db.supplies tick supply;
  }

  abbrev pub account : ℕ → List ℕ → ScriptAndBrc20Kind
  account script tick = record { script = script; brc20_ticker = tick }

  -- `old_balance + amt` for the receiver
  unfoldable pub credit : ℕ → List ℕ → ℕ → Brc20Db tables → Brc20Db tables
  unfolding set_balance
  credit script tick amt db =
      let key = account script tick in set_balance key (add128 (balance_of db key) amt) db

  -- `old_balance - amt` for the receiver
  unfoldable pub debit : ℕ → List ℕ → ℕ → Brc20Db tables → Brc20Db tables
  unfolding set_balance
  debit script tick amt db =
      let key = account script tick in set_balance key (sub128 (balance_of db key) amt) db

  -- The loops over the unused transfers that moved, to an output or into the fee.
  unfoldable pub use_transfers : List UsedTransfer → Brc20Db tables → Effects
  unfolding credit
  use_transfers [] db = unchanged db
  use_transfers (u ∷ used) db =
      let rest = use_transfers used (credit u.receiver u.tick u.amt db) in
      record rest {
        valid_brc20s =
            (u.inscription, transfer u.tick u.amt u.original_outpoint u.receiver)
            ∷ rest.valid_brc20s;
      }

  -- A deploy of a ticker that has terms is refused.
  unfoldable pub deploy_message :
      InscriptionId → DeployAction → Option Brc20Terms → Brc20Db tables → Effects
  deploy_message id action (some terms) db = unchanged db
  deploy_message id action none db = record {
    db = record db {
      terms = tables.Terms.stage_upsert db.terms action.ticker (record {
        max = action.max;
        mint_amt_limit = action.limit;
        dec = action.dec;
        self_mint = action.self_mint;
        deploy_id = id;
      });
    };
    valid_brc20s = (id, deploy action.ticker) ∷ [];
    new_unused_transfers = [];
  }

  -- A mint takes what is left of the maximum; one to no output, or with nothing left, is refused.
  unfoldable pub mint_message :
      InscriptionId → AmountAction → Brc20Terms → Option ℕ → Brc20Db tables → Effects
  unfolding credit set_supply
  mint_message id action terms none db = unchanged db
  mint_message id action terms (some receiver) db =
      let supply = supply_of db action.ticker in
      let amt = min action.amt (sub128 terms.max supply) in
      if supply == terms.max then unchanged db else record {
        db = credit receiver action.ticker amt (set_supply action.ticker (add128 supply amt) db);
        valid_brc20s = (id, mint action.ticker amt receiver) ∷ [];
        new_unused_transfers = [];
      }

  -- The balance that a transfer inscription locks.
  unfoldable pub lock_balance :
      InscriptionId → AmountAction → ℕ → Option ℕ → Brc20Db tables → Effects
  unfolding set_balance
  lock_balance id action receiver none db = unchanged db
  lock_balance id action receiver (some old_balance) db =
      if ltb old_balance action.amt then unchanged db else record {
        db = set_balance (account receiver action.ticker) (sub128 old_balance action.amt) db;
        valid_brc20s = (id, transfer_init action.ticker action.amt receiver) ∷ [];
        new_unused_transfers = (id, (action.ticker, action.amt)) ∷ [];
      }

  unfoldable pub transfer_message :
      InscriptionId → AmountAction → Option ℕ → Brc20Db tables → Effects
  unfolding lock_balance
  transfer_message id action none db = unchanged db
  transfer_message id action (some receiver) db =
      lock_balance id action receiver
        (tables.Balances.get_by_key db.balances (account receiver action.ticker)) db

  module _ (lowercase_bytes : List ℕ → List ℕ) where
    -- A message for a ticker that has terms: a mint, or else a transfer.
    unfoldable pub amount_message :
        InscriptionId → RawProtocolMessage → Brc20Terms → Option ℕ → Brc20Db tables → Option Effects
    unfolding mint_message transfer_message
    amount_message id raw terms receiver db = elim (parse_mint lowercase_bytes raw terms) [
      | panicked ↦ none
      | parsed action ↦ some (mint_message id action terms receiver db)
      | rejected ↦ (elim (parse_transfer lowercase_bytes raw terms) [
        | panicked ↦ none
        | parsed action ↦ some (transfer_message id action receiver db)
        | rejected ↦ some (unchanged db)
      ])
    ]

    -- One round of the loop over the new messages; `receiver` is the script that the inscription went
    -- to, and `none` is a panic.
    unfoldable pub process_message :
        InscriptionId → RawProtocolMessage → Option ℕ → Brc20Db tables → Option Effects
    unfolding deploy_message amount_message
    process_message id raw receiver db =
        let terms = terms_of db (lowercase_bytes raw.tick) in
        elim (parse_deploy lowercase_bytes raw) [
          | panicked ↦ none
          | parsed action ↦ some (deploy_message id action terms db)
          | rejected ↦ (elim terms [
            | none ↦ some (unchanged db)
            | some t ↦ amount_message id raw t receiver db
          ])
        ]

    -- The loop over the new messages; `receivers` is `inscription_id_to_script`.
    unfoldable pub process_messages :
        List (InscriptionId × RawProtocolMessage)
        → (InscriptionId → Option ℕ)
        → Brc20Db tables
        → Option Effects
    unfolding process_message
    process_messages [] receivers db = some (unchanged db)
    process_messages ((id, raw) ∷ messages) receivers db = do
      first ← process_message id raw (receivers id) db
      rest ← process_messages messages receivers first.db
      some (followed first rest)

    -- What a transaction does to the ledger: the transfers that its inputs carried, then its messages.
    unfoldable pub index_brc20 :
        List UsedTransfer
        → List (InscriptionId × RawProtocolMessage)
        → (InscriptionId → Option ℕ)
        → Brc20Db tables
        → Option Effects
    unfolding use_transfers process_messages
    index_brc20 used messages receivers db = do
      let first = use_transfers used db
      rest ← process_messages messages receivers first.db
      some (followed first rest)

  -- A rolled-back message is undone.
  unfoldable pub undo_message : Brc20Message → Brc20Db tables → Brc20Db tables
  unfolding credit debit set_supply
  undo_message (deploy tick) db = record db { terms = tables.Terms.stage_delete db.terms tick }
  undo_message (mint tick amt receiver) db =
      debit receiver tick amt (set_supply tick (sub128 (supply_of db tick) amt) db)
  undo_message (transfer tick amt _ receiver) db = debit receiver tick amt db
  undo_message (transfer_init tick amt receiver) db = credit receiver tick amt db

  unfoldable pub undo_each : List (InscriptionId × Brc20Message) → Brc20Db tables → Brc20Db tables
  unfolding undo_message
  undo_each [] db = db
  undo_each ((_, message) ∷ messages) db = undo_each messages (undo_message message db)

  -- `for (_, action) in brc20_resolver.into_iter().rev()`
  unfoldable pub undo_messages :
      List (InscriptionId × Brc20Message) → Brc20Db tables → Brc20Db tables
  unfolding undo_each
  undo_messages messages db = undo_each (reverse messages) db
