-- ===== src/Drc20/Ledger/Reads.antt =====
-- What the ledger's tables answer after each write.
use maestro_dogecoin_indexer.Prelude.{
  ℕ, ◌≡◌, ◌↔◌, ◌∙◌, ap, refl, true, Option, List, [], ◌∷◌, if◌then◌else◌, unwrap_or, arith, inl,
  inr, Bool-cases,
}
use maestro_dogecoin_indexer.Prelude.Words.{add128, sub128}
use maestro_dogecoin_indexer.Drc20.Actions.{same_text}
use maestro_dogecoin_indexer.Drc20.Ledger.{
  ScriptAndBrc20Kind, same_account, Brc20Tables, Brc20Db, balance_of, supply_of, terms_of,
  set_balance, set_supply, account, credit, debit,
}

pub same_text_iff : (s t : List ℕ) → (same_text s t ≡ true) ↔ (s ≡ t)
unfolding same_text
same_text_iff [] [] = (λ _. refl, λ _. refl)
same_text_iff [] (d ∷ t) = (λ h. cc, λ h. cc)
same_text_iff (c ∷ s) [] = (λ h. cc, λ h. cc)
same_text_iff (c ∷ s) (d ∷ t) = ground (arith, same_text_iff s t)

pub same_account_iff : (a b : ScriptAndBrc20Kind) → (same_account a b ≡ true) ↔ (a ≡ b)
unfolding same_account
same_account_iff a b = ground (arith, same_text_iff a.brc20_ticker b.brc20_ticker)

module _ (tables : Brc20Tables) where
  -- The tables answer the same, where a balance or a supply that is not there counts as 0.
  pub record SameReads (db db' : Brc20Db tables) : Type 0 where
    pub balances : (key : ScriptAndBrc20Kind) → balance_of tables db' key ≡ balance_of tables db key
    pub supplies : (tick : List ℕ) → supply_of tables db' tick ≡ supply_of tables db tick
    pub terms : (tick : List ℕ) → terms_of tables db' tick ≡ terms_of tables db tick

  pub SameReads-refl : (db : Brc20Db tables) → SameReads db db
  SameReads-refl db = record { balances = λ _. refl; supplies = λ _. refl; terms = λ _. refl }

  pub SameReads-trans : (a b c : Brc20Db tables) → SameReads a b → SameReads b c → SameReads a c
  SameReads-trans a b c h k = record {
    balances = λ key. k.balances key ∙ h.balances key;
    supplies = λ tick. k.supplies tick ∙ h.supplies tick;
    terms = λ tick. k.terms tick ∙ h.terms tick;
  }

  pub balance_of-set_balance :
      (key j : ScriptAndBrc20Kind) (n : ℕ) (db : Brc20Db tables)
      → balance_of tables (set_balance tables key n db) j
        ≡ (if same_account key j then n else balance_of tables db j)
  unfolding set_balance
  balance_of-set_balance key j n db =
      ap (λ (o : Option ℕ). unwrap_or o 0)
        (tables.Balances.get_by_key-stage_upsert db.balances key j n)
      ∙ ground arith

  pub supply_of-set_supply :
      (tick t : List ℕ) (n : ℕ) (db : Brc20Db tables)
      → supply_of tables (set_supply tables tick n db) t
        ≡ (if same_text tick t then n else supply_of tables db t)
  unfolding set_supply
  supply_of-set_supply tick t n db =
      ap (λ (o : Option ℕ). unwrap_or o 0)
        (tables.Supplies.get_by_key-stage_upsert db.supplies tick t n)
      ∙ ground arith

  pub balance_of-credit :
      (script : ℕ) (tick : List ℕ) (amt : ℕ) (key : ScriptAndBrc20Kind) (db : Brc20Db tables)
      → balance_of tables (credit tables script tick amt db) key ≡ (
          if same_account (account tables script tick) key
          then add128 (balance_of tables db key) amt
          else balance_of tables db key)
  unfolding credit
  balance_of-credit script tick amt key db =
      let own = account tables script tick in
      balance_of-set_balance own key (add128 (balance_of tables db own) amt) db
      ∙ elim (Bool-cases (same_account own key)) [
        | inl same ↦ rw same (
            ap (λ (k : ScriptAndBrc20Kind). add128 (balance_of tables db k) amt)
              ((same_account_iff own key).0 same))
        | inr other ↦ rw other refl
      ]

  pub balance_of-debit :
      (script : ℕ) (tick : List ℕ) (amt : ℕ) (key : ScriptAndBrc20Kind) (db : Brc20Db tables)
      → balance_of tables (debit tables script tick amt db) key ≡ (
          if same_account (account tables script tick) key
          then sub128 (balance_of tables db key) amt
          else balance_of tables db key)
  unfolding debit
  balance_of-debit script tick amt key db =
      let own = account tables script tick in
      balance_of-set_balance own key (sub128 (balance_of tables db own) amt) db
      ∙ elim (Bool-cases (same_account own key)) [
        | inl same ↦ rw same (
            ap (λ (k : ScriptAndBrc20Kind). sub128 (balance_of tables db k) amt)
              ((same_account_iff own key).0 same))
        | inr other ↦ rw other refl
      ]
