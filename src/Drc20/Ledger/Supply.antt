-- ===== src/Drc20/Ledger/Supply.antt =====
-- The supply of a ticker against its maximum and against what the accounts hold
-- (services/compressor-xdg/src/storage/inscriptions/updater.rs).
use maestro_dogecoin_indexer.Prelude.{
  ℕ, ◌+◌, ◌≤◌, ◌≡◌, ap, refl, false, Option, none, some, List, [], ◌∷◌, ◌==◌, if◌then◌else◌, arith,
  inl, inr, Bool-cases, unwrap_or,
}
use maestro_dogecoin_indexer.Storage.{InscriptionId}
use maestro_dogecoin_indexer.Drc20.Actions.{Brc20Terms, same_text}
use maestro_dogecoin_indexer.Drc20.Ledger.{
  same_account, Brc20Tables, Brc20Db, UsedTransfer, balance_of, set_balance, account,
}
use maestro_dogecoin_indexer.Drc20.Ledger.Reads.{same_text_iff, balance_of-set_balance}

-- How often a script stands in a list.
unfoldable pub count : ℕ → List ℕ → ℕ
count r [] = 0
count r (s ∷ scripts) = (if s == r then 1 else 0) + count r scripts

-- The largest supply that the terms allow: none without terms.
unfoldable pub maximum : Option Brc20Terms → ℕ
maximum none = 0
maximum (some terms) = terms.max

-- The sum of the amounts of one ticker.
unfoldable pub locked_amount : List ℕ → List (InscriptionId × (List ℕ × ℕ)) → ℕ
locked_amount tick [] = 0
locked_amount tick ((_, (t, amt)) ∷ transfers) =
    (if same_text t tick then amt else 0) + locked_amount tick transfers

unfoldable pub used_amount : List ℕ → List UsedTransfer → ℕ
used_amount tick [] = 0
used_amount tick (u ∷ used) = (if same_text u.tick tick then u.amt else 0) + used_amount tick used

module _ (tables : Brc20Tables) where
  -- What these scripts hold of a ticker.
  unfoldable pub held : List ℕ → List ℕ → Brc20Db tables → ℕ
  held [] tick db = 0
  held (s ∷ scripts) tick db = balance_of tables db (account tables s tick) + held scripts tick db

  own_account :
      (r s : ℕ) (tick : List ℕ)
      → same_account (account tables r tick) (account tables s tick) ≡ (r == s)
  unfolding same_account
  own_account r s tick = ground (arith, (same_text_iff tick tick).1 refl)

  other_account :
      (r s : ℕ) (tick t : List ℕ)
      → same_text tick t ≡ false
      → same_account (account tables r tick) (account tables s t) ≡ false
  unfolding same_account
  other_account r s tick t other = ground (arith, other)

  pub held_other :
      (scripts : List ℕ) (r n : ℕ) (tick t : List ℕ) (db : Brc20Db tables)
      → same_text tick t ≡ false
      → held scripts t (set_balance tables (account tables r tick) n db) ≡ held scripts t db
  unfolding held
  held_other [] r n tick t db other = refl
  held_other (s ∷ scripts) r n tick t db other = ground (
    arith,
    balance_of-set_balance tables (account tables r tick) (account tables s t) n db,
    other_account r s tick t other,
    held_other scripts r n tick t db other,
  )

  held_absent :
      (scripts : List ℕ) (r n : ℕ) (tick : List ℕ) (db : Brc20Db tables)
      → count r scripts ≡ 0
      → held scripts tick (set_balance tables (account tables r tick) n db) ≡ held scripts tick db
  unfolding held count
  held_absent [] r n tick db absent = refl
  held_absent (s ∷ scripts) r n tick db absent = ground (
    arith,
    balance_of-set_balance tables (account tables r tick) (account tables s tick) n db,
    own_account r s tick,
    held_absent scripts r n tick db,
  )

  -- A write to the account of a listed script changes the sum by the change of its balance.
  pub held-set_balance :
      (scripts : List ℕ) (r n : ℕ) (tick : List ℕ) (db : Brc20Db tables)
      → count r scripts ≡ 1
      → held scripts tick (set_balance tables (account tables r tick) n db)
          + balance_of tables db (account tables r tick)
        ≡ held scripts tick db + n
  unfolding held count
  held-set_balance [] r n tick db once = absurd (omega arith)
  held-set_balance (s ∷ scripts) r n tick db once = elim (Bool-cases (s == r)) [
    | inl here ↦
        let same : s ≡ r = ground arith in
        ground (
          arith,
          balance_of-set_balance tables (account tables r tick) (account tables s tick) n db,
          own_account r s tick,
          ap (λ (x : ℕ). balance_of tables db (account tables x tick)) same,
          held_absent scripts r n tick db,
        )
    | inr there ↦ ground (
      arith,
      balance_of-set_balance tables (account tables r tick) (account tables s tick) n db,
      own_account r s tick,
      held-set_balance scripts r n tick db,
    )
  ]

  pub balance-le-held :
      (scripts : List ℕ) (r : ℕ) (tick : List ℕ) (db : Brc20Db tables)
      → count r scripts ≡ 1
      → balance_of tables db (account tables r tick) ≤ held scripts tick db
  unfolding held count
  balance-le-held [] r tick db once = absurd (omega arith)
  balance-le-held (s ∷ scripts) r tick db once = elim (Bool-cases (s == r)) [
    | inl here ↦
        let same : s ≡ r = ground arith in
        omega (arith, ap (λ (x : ℕ). balance_of tables db (account tables x tick)) same)
    | inr there ↦ ground (arith, balance-le-held scripts r tick db)
  ]

  -- The sum reads nothing but the balances.
  pub held_same :
      (scripts tick : List ℕ) (db db' : Brc20Db tables)
      → db'.balances ≡ db.balances
      → held scripts tick db' ≡ held scripts tick db
  unfolding held
  held_same [] tick db db' e = refl
  held_same (s ∷ scripts) tick db db' e = omega (
    arith,
    ap
        (λ (b : tables.Balances.Contents).
          unwrap_or (tables.Balances.get_by_key b (account tables s tick)) 0)
        e,
    held_same scripts tick db db' e,
  )
