-- ===== src/Drc20/Ledger/Undone.antt =====
-- Each message is undone by its record (services/compressor-xdg/src/storage/mod.rs, `rollback`).
use maestro_dogecoin_indexer.Prelude.{
  ℕ, ◌≤◌, ◌≡◌, ◌∙◌, ap, sym, refl, Option, none, some, List, [], ◌∷◌, ltb, ◌==◌, if◌then◌else◌, min,
  arith, inl, inr, Bool-cases, All, unwrap_or,
}
use maestro_dogecoin_indexer.Prelude.Words.{u128_max, add128, sub128}
use maestro_dogecoin_indexer.Storage.{InscriptionId}
use maestro_dogecoin_indexer.Drc20.Actions.{Brc20Terms, DeployAction, AmountAction, same_text}
use maestro_dogecoin_indexer.Drc20.Ledger.{
  same_account, mint, transfer, Brc20Tables, Brc20Db, UsedTransfer, Effects, balance_of, supply_of,
  terms_of, set_balance, set_supply, account, credit, debit, use_transfers, deploy_message,
  mint_message, lock_balance, transfer_message, undo_message, undo_each, undo_messages,
}
use maestro_dogecoin_indexer.Drc20.Ledger.Reads.{
  same_text_iff, same_account_iff, SameReads, SameReads-trans, balance_of-set_balance,
  supply_of-set_supply, balance_of-credit, balance_of-debit,
}
use maestro_dogecoin_indexer.Drc20.Ledger.Congruence.{
  AreWords, Undone, debit-SameReads, unchanged-Undone, followed-Undone,
}

module _ (tables : Brc20Tables) where
  credit-AreWords :
      (script : ℕ) (tick : List ℕ) (amt : ℕ) (db : Brc20Db tables)
      → AreWords tables db
      → AreWords tables (credit tables script tick amt db)
  unfolding set_balance
  credit-AreWords script tick amt db w = record {
    balances =
        λ key. ground (arith, balance_of-credit tables script tick amt key db, w.balances key);
    supplies = unfold credit in w.supplies;
  }

  debit-credit :
      (script : ℕ) (tick : List ℕ) (amt : ℕ) (db : Brc20Db tables)
      → amt ≤ u128_max
      → AreWords tables db
      → SameReads tables db (debit tables script tick amt (credit tables script tick amt db))
  unfolding set_balance
  debit-credit script tick amt db fits w = record {
    balances = λ key. ground (
      arith,
      balance_of-debit tables script tick amt key (credit tables script tick amt db),
      balance_of-credit tables script tick amt key db,
      w.balances key,
    );
    supplies = unfold credit debit in λ t. refl;
    terms = unfold credit debit in λ t. refl;
  }

  pub use_transfers-Undone :
      (used : List UsedTransfer) (db : Brc20Db tables)
      → All (λ (u : UsedTransfer). u.amt ≤ u128_max) used
      → AreWords tables db
      → Undone tables db (use_transfers tables used db)
  unfolding use_transfers undo_messages undo_each
  use_transfers-Undone [] db fit w = unchanged-Undone tables db w
  use_transfers-Undone (u ∷ used) db (fits, fit) w =
      let db' = credit tables u.receiver u.tick u.amt db in
      let first : Effects tables = record {
        db = db';
        valid_brc20s = (u.inscription, transfer u.tick u.amt u.original_outpoint u.receiver) ∷ [];
        new_unused_transfers = [];
      } in
      let words = credit-AreWords u.receiver u.tick u.amt db w in
      followed-Undone tables db first (use_transfers tables used db')
        (record {
          restored = debit-credit u.receiver u.tick u.amt db fits w;
          words = words;
          locked = tt;
        })
        (use_transfers-Undone used db' fit words)

  pub deploy_message-Undone :
      (id : InscriptionId) (action : DeployAction) (terms : Option Brc20Terms) (db : Brc20Db tables)
      → terms_of tables db action.ticker ≡ terms
      → AreWords tables db
      → Undone tables db (deploy_message tables id action terms db)
  unfolding deploy_message undo_messages undo_each
  deploy_message-Undone id action (some t) db h w = unchanged-Undone tables db w
  deploy_message-Undone id action none db h w = record {
    restored = record {
      balances = λ key. refl;
      supplies = λ tick. refl;
      terms = λ tick.
          tables.Terms.get_by_key-stage_delete _ action.ticker tick
          ∙ elim (Bool-cases (same_text action.ticker tick)) [
            | inl same ↦
                rw same
                  (sym h ∙ ap (terms_of tables db) ((same_text_iff action.ticker tick).0 same))
            | inr other ↦
                rw other (
                  tables.Terms.get_by_key-stage_upsert db.terms action.ticker tick _
                  ∙ rw other refl)
          ];
    };
    words = record { balances = w.balances; supplies = w.supplies };
    locked = tt;
  }

  raise_supply : List ℕ → ℕ → Brc20Db tables → Brc20Db tables
  raise_supply tick amt db = set_supply tables tick (add128 (supply_of tables db tick) amt) db

  raised_reads :
      (tick t : List ℕ) (amt : ℕ) (db : Brc20Db tables)
      → supply_of tables (raise_supply tick amt db) t
        ≡ (if same_text tick t then add128 (supply_of tables db t) amt else supply_of tables db t)
  unfolding raise_supply
  raised_reads tick t amt db =
      supply_of-set_supply tables tick t (add128 (supply_of tables db tick) amt) db
      ∙ elim (Bool-cases (same_text tick t)) [
        | inl same ↦ rw same (
            ap (λ (x : List ℕ). add128 (supply_of tables db x) amt) ((same_text_iff tick t).0 same))
        | inr other ↦ rw other refl
      ]

  raise_supply-AreWords :
      (tick : List ℕ) (amt : ℕ) (db : Brc20Db tables)
      → AreWords tables db
      → AreWords tables (raise_supply tick amt db)
  raise_supply-AreWords tick amt db w = record {
    balances = unfold raise_supply set_supply in w.balances;
    supplies = λ t. ground (arith, raised_reads tick t amt db, w.supplies t);
  }

  lower_supply : List ℕ → ℕ → Brc20Db tables → Brc20Db tables
  lower_supply tick amt db = set_supply tables tick (sub128 (supply_of tables db tick) amt) db

  lowered_reads :
      (tick t : List ℕ) (amt : ℕ) (db : Brc20Db tables)
      → supply_of tables (lower_supply tick amt db) t
        ≡ (if same_text tick t then sub128 (supply_of tables db t) amt else supply_of tables db t)
  unfolding lower_supply
  lowered_reads tick t amt db =
      supply_of-set_supply tables tick t (sub128 (supply_of tables db tick) amt) db
      ∙ elim (Bool-cases (same_text tick t)) [
        | inl same ↦ rw same (
            ap (λ (x : List ℕ). sub128 (supply_of tables db x) amt) ((same_text_iff tick t).0 same))
        | inr other ↦ rw other refl
      ]

  credit_supplies :
      (script : ℕ) (tick t : List ℕ) (amt : ℕ) (db : Brc20Db tables)
      → supply_of tables (credit tables script tick amt db) t ≡ supply_of tables db t
  unfolding credit set_balance
  credit_supplies script tick t amt db = refl

  lower-raise :
      (tick : List ℕ) (amt receiver : ℕ) (db : Brc20Db tables)
      → amt ≤ u128_max
      → AreWords tables db
      → SameReads tables
          (credit tables receiver tick amt db)
          (lower_supply tick amt (credit tables receiver tick amt (raise_supply tick amt db)))
  lower-raise tick amt receiver db fits w = record {
    balances = unfold lower_supply credit set_balance raise_supply set_supply in λ key. refl;
    supplies = λ t. ground (
      arith,
      lowered_reads tick t amt (credit tables receiver tick amt (raise_supply tick amt db)),
      credit_supplies receiver tick t amt (raise_supply tick amt db),
      credit_supplies receiver tick t amt db,
      raised_reads tick t amt db,
      w.supplies t,
    );
    terms = unfold lower_supply credit set_balance raise_supply set_supply in λ key. refl;
  }

  mint_undone :
      (tick : List ℕ) (amt receiver : ℕ) (db : Brc20Db tables)
      → amt ≤ u128_max
      → AreWords tables db
      → let minted = credit tables receiver tick amt (raise_supply tick amt db) in
        SameReads tables db (undo_message tables (mint tick amt receiver) minted)
        × AreWords tables minted
  unfolding undo_message lower_supply
  mint_undone tick amt receiver db fits w = (
    SameReads-trans tables _ _ _ (debit-credit receiver tick amt db fits w)
        (debit-SameReads tables receiver tick amt _ _ (lower-raise tick amt receiver db fits w)),
    credit-AreWords receiver tick amt _ (raise_supply-AreWords tick amt db w),
  )

  pub mint_message-Undone :
      (id : InscriptionId) (action : AmountAction) (terms : Brc20Terms) (receiver : Option ℕ)
      (db : Brc20Db tables)
      → AreWords tables db
      → Undone tables db (mint_message tables id action terms receiver db)
  unfolding mint_message undo_messages undo_each raise_supply
  mint_message-Undone id action terms none db w = unchanged-Undone tables db w
  mint_message-Undone id action terms (some receiver) db w =
      let supply = supply_of tables db action.ticker in
      let amt = min action.amt (sub128 terms.max supply) in
      elim (Bool-cases (supply == terms.max)) [
        | inl full ↦ rw full (unchanged-Undone tables db w)
        | inr open_supply ↦
            let (restored, words) = mint_undone action.ticker amt receiver db (omega arith) w in
            rw open_supply (record { restored = restored; words = words; locked = tt })
      ]

  lock_balance-Undone :
      (id : InscriptionId) (action : AmountAction) (receiver : ℕ) (old : Option ℕ)
      (db : Brc20Db tables)
      → tables.Balances.get_by_key db.balances (account tables receiver action.ticker) ≡ old
      → AreWords tables db
      → Undone tables db (lock_balance tables id action receiver old db)
  unfolding lock_balance undo_messages undo_each undo_message
  lock_balance-Undone id action receiver none db h w = unchanged-Undone tables db w
  lock_balance-Undone id action receiver (some old) db h w =
      elim (Bool-cases (ltb old action.amt)) [
        | inl short ↦ rw short (unchanged-Undone tables db w)
        | inr enough ↦
            let own = account tables receiver action.ticker in
            let held : balance_of tables db own ≡ old = ap (λ (o : Option ℕ). unwrap_or o 0) h in
            let locked = set_balance tables own (sub128 old action.amt) db in
            rw enough (record {
              restored = record {
                balances = λ key. elim (Bool-cases (same_account own key)) [
                  | inl same ↦
                      let there : balance_of tables db key ≡ old =
                        ap (balance_of tables db) (sym ((same_account_iff own key).0 same))
                        ∙ held in
                      ground (
                        arith,
                        balance_of-credit tables receiver action.ticker action.amt key locked,
                        balance_of-set_balance tables own key (sub128 old action.amt) db,
                        w.balances key,
                      )
                  | inr other ↦ ground (
                    arith,
                    balance_of-credit tables receiver action.ticker action.amt key locked,
                    balance_of-set_balance tables own key (sub128 old action.amt) db,
                  )
                ];
                supplies = unfold credit set_balance in λ t. refl;
                terms = unfold credit set_balance in λ t. refl;
              };
              words = record {
                balances = λ key. ground (
                  arith,
                  balance_of-set_balance tables own key (sub128 old action.amt) db,
                  w.balances key,
                );
                supplies = unfold set_balance in w.supplies;
              };
              locked = (ground (arith, held, w.balances own), tt);
            })
      ]

  pub transfer_message-Undone :
      (id : InscriptionId) (action : AmountAction) (receiver : Option ℕ) (db : Brc20Db tables)
      → AreWords tables db
      → Undone tables db (transfer_message tables id action receiver db)
  unfolding transfer_message
  transfer_message-Undone id action none db w = unchanged-Undone tables db w
  transfer_message-Undone id action (some receiver) db w =
      lock_balance-Undone id action receiver _ db refl w
