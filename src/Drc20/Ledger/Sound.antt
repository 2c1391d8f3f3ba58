-- ===== src/Drc20/Ledger/Sound.antt =====
-- The books of the ledger balance, and no supply passes its maximum
-- (services/compressor-xdg/src/storage/inscriptions/updater.rs).
pub mod Deploy
pub mod Mint
pub mod Transfer
use mathlib.Core.Path.{subst}
use maestro_dogecoin_indexer.Prelude.{
  ℕ, ◌+◌, ◌≤◌, ◌≡◌, ◌∙◌, ap, sym, refl, Option, none, some, List, [], ◌∷◌, ltb, ◌==◌, if◌then◌else◌,
  min, arith, inl, inr, Bool-cases, All, unwrap_or,
}
use maestro_dogecoin_indexer.Prelude.Words.{u128_max, add128, sub128}
use maestro_dogecoin_indexer.Storage.{InscriptionId}
use maestro_dogecoin_indexer.Drc20.Actions.{Brc20Terms, DeployAction, AmountAction, same_text}
use maestro_dogecoin_indexer.Drc20.Ledger.{
  Brc20Tables, Brc20Db, UsedTransfer, Effects, balance_of, supply_of, terms_of, set_balance,
  set_supply, account, credit, unchanged, use_transfers, deploy_message, mint_message, lock_balance,
  transfer_message,
}
use maestro_dogecoin_indexer.Drc20.Ledger.Reads.{same_text_iff, supply_of-set_supply}
use maestro_dogecoin_indexer.Drc20.Ledger.Supply.{
  count, maximum, locked_amount, used_amount, held, held_other, held_same, held-set_balance,
  balance-le-held,
}

module _ (tables : Brc20Tables) (scripts : List ℕ) where
  -- What the scripts hold and what unused transfers lock is the supply, which is at most its maximum.
  pub record IsSound (db : Brc20Db tables) (locked : List ℕ → ℕ) : Type 0 where
    pub fits : (tick : List ℕ) → maximum (terms_of tables db tick) ≤ u128_max
    pub capped : (tick : List ℕ) → supply_of tables db tick ≤ maximum (terms_of tables db tick)
    pub balanced :
        (tick : List ℕ) → held tables scripts tick db + locked tick ≡ supply_of tables db tick

  pub balance-le :
      (r : ℕ) (tick : List ℕ) (db : Brc20Db tables) (locked : List ℕ → ℕ)
      → IsSound db locked
      → count r scripts ≡ 1
      → balance_of tables db (account tables r tick) + locked tick ≤ u128_max
  balance-le r tick db locked sound once = omega (
    arith,
    balance-le-held tables scripts r tick db once,
    sound.fits tick,
    sound.capped tick,
    sound.balanced tick,
  )

  -- A credit raises what is held by its amount.
  pub held-credit :
      (r amt : ℕ) (tick t : List ℕ) (db : Brc20Db tables)
      → count r scripts ≡ 1
      → balance_of tables db (account tables r tick) + amt ≤ u128_max
      → held tables scripts t (credit tables r tick amt db)
        ≡ held tables scripts t db + (if same_text tick t then amt else 0)
  unfolding credit
  held-credit r amt tick t db once fits = elim (Bool-cases (same_text tick t)) [
    | inl same ↦
        let there = (same_text_iff tick t).0 same in
        let n = add128 (balance_of tables db (account tables r tick)) amt in
        subst
          (λ (x : List ℕ).
            held tables scripts x (set_balance tables (account tables r tick) n db)
            ≡ held tables scripts x db + (if same_text tick x then amt else 0))
          there
          (rw ((same_text_iff tick tick).1 refl)
            (omega (arith, held-set_balance tables scripts r n tick db once)))
    | inr other ↦ rw other (omega (arith, held_other tables scripts r _ tick t db other))
  ]

  credit-IsSound :
      (r amt : ℕ) (tick : List ℕ) (db : Brc20Db tables) (before locked : List ℕ → ℕ)
      → count r scripts ≡ 1
      → ((t : List ℕ) → before t ≡ (if same_text tick t then amt else 0) + locked t)
      → IsSound db before
      → IsSound (credit tables r tick amt db) locked
  unfolding set_balance
  credit-IsSound r amt tick db before locked once spent sound =
      let room : balance_of tables db (account tables r tick) + amt ≤ u128_max = ground (
        arith,
        balance-le r tick db before sound once,
        spent tick,
        (same_text_iff tick tick).1 refl,
      ) in
      record {
        fits = unfold credit in sound.fits;
        capped = unfold credit in sound.capped;
        balanced = λ t.
            let kept : supply_of tables (credit tables r tick amt db) t ≡ supply_of tables db t =
              unfold credit in refl in
            omega (arith, held-credit r amt tick t db once room, sound.balanced t, spent t, kept);
      }

  pub use_transfers-IsSound :
      (used : List UsedTransfer) (db : Brc20Db tables) (before locked : List ℕ → ℕ)
      → All (λ (u : UsedTransfer). count u.receiver scripts ≡ 1) used
      → ((t : List ℕ) → before t ≡ used_amount t used + locked t)
      → IsSound db before
      → IsSound (use_transfers tables used db).db locked
  unfolding use_transfers used_amount
  use_transfers-IsSound [] db before locked listed spent sound = record {
    fits = sound.fits;
    capped = sound.capped;
    balanced = λ t. omega (arith, sound.balanced t, spent t);
  }
  use_transfers-IsSound (u ∷ used) db before locked (once, listed) spent sound =
      use_transfers-IsSound used (credit tables u.receiver u.tick u.amt db)
        (λ t. used_amount t used + locked t) locked listed (λ t. refl)
        (credit-IsSound u.receiver u.amt u.tick db before (λ t. used_amount t used + locked t) once
          (λ t. omega (arith, spent t)) sound)
