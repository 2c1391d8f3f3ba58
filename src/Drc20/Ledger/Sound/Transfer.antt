-- ===== src/Drc20/Ledger/Sound/Transfer.antt =====
-- The books of the ledger stay sound under a transfer message (services/compressor-xdg/src/storage/inscriptions/updater.rs).
use mathlib.Core.Path.{subst}
use maestro_dogecoin_indexer.Prelude.{
  ℕ, ◌+◌, ◌≤◌, ◌≡◌, ap, refl, Option, none, some, List, ltb, if◌then◌else◌, arith, inl, inr,
  Bool-cases, unwrap_or,
}
use maestro_dogecoin_indexer.Prelude.Words.{sub128}
use maestro_dogecoin_indexer.Storage.{InscriptionId}
use maestro_dogecoin_indexer.Drc20.Actions.{AmountAction, same_text}
use maestro_dogecoin_indexer.Drc20.Ledger.{
  Brc20Tables, Brc20Db, balance_of, supply_of, set_balance, account, lock_balance, transfer_message,
}
use maestro_dogecoin_indexer.Drc20.Ledger.Reads.{same_text_iff}
use maestro_dogecoin_indexer.Drc20.Ledger.Supply.{
  count, locked_amount, held, held_other, held-set_balance,
}
use maestro_dogecoin_indexer.Drc20.Ledger.Sound.{IsSound, balance-le}
use maestro_dogecoin_indexer.Drc20.Ledger.Sound.Deploy.{relocked, Keeps, unchanged-Keeps}

module _ (tables : Brc20Tables) (scripts : List ℕ) where
  locked-IsSound :
      (r old amt : ℕ) (tick : List ℕ) (db : Brc20Db tables) (locked : List ℕ → ℕ)
      → balance_of tables db (account tables r tick) ≡ old
      → amt ≤ old
      → count r scripts ≡ 1
      → IsSound tables scripts db locked
      → IsSound tables scripts
          (set_balance tables (account tables r tick) (sub128 old amt) db)
          (λ t. (if same_text tick t then amt else 0) + locked t)
  locked-IsSound r old amt tick db locked read enough once sound =
      let lower = sub128 old amt in
      let db' = set_balance tables (account tables r tick) lower db in
      let exact : lower + amt ≡ old =
        omega (arith, balance-le tables scripts r tick db locked sound once) in
      record {
        fits = unfold set_balance in sound.fits;
        capped = unfold set_balance in sound.capped;
        balanced = λ t.
            let kept : supply_of tables db' t ≡ supply_of tables db t =
              unfold set_balance in refl in
            elim (Bool-cases (same_text tick t)) [
              | inl same ↦
                  let moved = held-set_balance tables scripts r lower tick db once in
                  let there = (same_text_iff tick t).0 same in
                  let here : held tables scripts t db' + old ≡ held tables scripts t db + lower =
                    subst
                      (λ (x : List ℕ).
                        held tables scripts x db' + old ≡ held tables scripts x db + lower)
                      there (omega (arith, moved, read)) in
                  rw same (omega (arith, here, exact, kept, sound.balanced t))
              | inr other ↦ rw other (
                  omega (
                    arith,
                    held_other tables scripts r lower tick t db other,
                    kept,
                    sound.balanced t,
                  ))
            ];
      }

  lock_balance-Keeps :
      (id : InscriptionId) (action : AmountAction) (r : ℕ) (old : Option ℕ) (db : Brc20Db tables)
      (locked : List ℕ → ℕ)
      → tables.Balances.get_by_key db.balances (account tables r action.ticker) ≡ old
      → count r scripts ≡ 1
      → IsSound tables scripts db locked
      → Keeps tables scripts db locked (lock_balance tables id action r old db)
  unfolding lock_balance Keeps locked_amount
  lock_balance-Keeps id action r none db locked read once sound =
      unchanged-Keeps tables scripts db locked sound
  lock_balance-Keeps id action r (some old) db locked read once sound =
      elim (Bool-cases (ltb old action.amt)) [
        | inl short ↦ rw short (unchanged-Keeps tables scripts db locked sound)
        | inr enough ↦ rw enough (
            relocked tables scripts _ _ _ (λ t. omega arith)
              (locked-IsSound r old action.amt action.ticker db locked
                (ap (λ (o : Option ℕ). unwrap_or o 0) read) (ground arith) once sound))
      ]

  pub transfer_message-Keeps :
      (id : InscriptionId) (action : AmountAction) (receiver : Option ℕ) (db : Brc20Db tables)
      (locked : List ℕ → ℕ)
      → ((r : ℕ) → receiver ≡ some r → count r scripts ≡ 1)
      → IsSound tables scripts db locked
      → Keeps tables scripts db locked (transfer_message tables id action receiver db)
  unfolding transfer_message
  transfer_message-Keeps id action none db locked listed sound =
      unchanged-Keeps tables scripts db locked sound
  transfer_message-Keeps id action (some r) db locked listed sound =
      lock_balance-Keeps id action r _ db locked refl (listed r refl) sound
