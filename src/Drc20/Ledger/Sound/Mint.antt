-- ===== src/Drc20/Ledger/Sound/Mint.antt =====
-- The books of the ledger stay sound under a mint (services/compressor-xdg/src/storage/inscriptions/updater.rs).
use mathlib.Core.Path.{subst}
use maestro_dogecoin_indexer.Prelude.{
  ℕ, ◌+◌, ◌≤◌, ◌≡◌, ◌∙◌, ap, refl, Option, none, some, List, ◌==◌, if◌then◌else◌, min, arith, inl,
  inr, Bool-cases, unwrap_or,
}
use maestro_dogecoin_indexer.Prelude.Words.{u128_max, add128, sub128}
use maestro_dogecoin_indexer.Storage.{InscriptionId}
use maestro_dogecoin_indexer.Drc20.Actions.{Brc20Terms, AmountAction, same_text}
use maestro_dogecoin_indexer.Drc20.Ledger.{
  Brc20Tables, Brc20Db, balance_of, supply_of, terms_of, set_balance, set_supply, account, credit,
  mint_message,
}
use maestro_dogecoin_indexer.Drc20.Ledger.Reads.{same_text_iff, supply_of-set_supply}
use maestro_dogecoin_indexer.Drc20.Ledger.Supply.{
  count, maximum, locked_amount, held_same, balance-le-held,
}
use maestro_dogecoin_indexer.Drc20.Ledger.Sound.{IsSound, held-credit}
use maestro_dogecoin_indexer.Drc20.Ledger.Sound.Deploy.{relocked, Keeps, unchanged-Keeps}

module _ (tables : Brc20Tables) (scripts : List ℕ) where
  -- What a mint leaves of the tables.
  minted_db : ℕ → List ℕ → ℕ → Brc20Db tables → Brc20Db tables
  minted_db r tick amt db =
      credit tables r tick amt (set_supply tables tick (add128 (supply_of tables db tick) amt) db)

  minted_supply :
      (r amt : ℕ) (tick t : List ℕ) (db : Brc20Db tables)
      → supply_of tables db tick + amt ≤ u128_max
      → supply_of tables (minted_db r tick amt db) t
        ≡ supply_of tables db t + (if same_text tick t then amt else 0)
  unfolding minted_db credit set_balance
  minted_supply r amt tick t db room =
      let n = add128 (supply_of tables db tick) amt in
      supply_of-set_supply tables tick t n db ∙ elim (Bool-cases (same_text tick t)) [
        | inl same ↦
            let there : supply_of tables db tick ≡ supply_of tables db t =
              ap (supply_of tables db) ((same_text_iff tick t).0 same) in
            rw same (omega arith)
        | inr other ↦ rw other (omega arith)
      ]

  minted-IsSound :
      (r amt : ℕ) (tick : List ℕ) (db : Brc20Db tables) (locked : List ℕ → ℕ)
      → count r scripts ≡ 1
      → supply_of tables db tick + amt ≤ maximum (terms_of tables db tick)
      → IsSound tables scripts db locked
      → IsSound tables scripts (minted_db r tick amt db) locked
  unfolding minted_db
  minted-IsSound r amt tick db locked once room sound =
      let raised = set_supply tables tick (add128 (supply_of tables db tick) amt) db in
      let same_balances : raised.balances ≡ db.balances = unfold set_supply in refl in
      let narrow : supply_of tables db tick + amt ≤ u128_max =
        omega (arith, sound.fits tick, room) in
      let space : balance_of tables raised (account tables r tick) + amt ≤ u128_max = omega (
        arith,
        ap
            (λ (b : tables.Balances.Contents).
              unwrap_or (tables.Balances.get_by_key b (account tables r tick)) 0)
            same_balances,
        balance-le-held tables scripts r tick db once,
        sound.balanced tick,
        narrow,
      ) in
      record {
        fits = unfold credit set_balance set_supply in sound.fits;
        capped = λ t.
            let terms_kept : terms_of tables (minted_db r tick amt db) t ≡ terms_of tables db t =
              unfold minted_db credit set_balance set_supply in refl in
            elim (Bool-cases (same_text tick t)) [
              | inl same ↦
                  let reached : supply_of tables db t + amt ≤ maximum (terms_of tables db t) =
                    subst
                      (λ (x : List ℕ). supply_of tables db x + amt ≤ maximum (terms_of tables db x))
                      ((same_text_iff tick t).0 same) room in
                  rw terms_kept
                    (ground (arith, minted_supply r amt tick t db narrow, same, reached))
              | inr other ↦
                  rw terms_kept
                    (ground (arith, minted_supply r amt tick t db narrow, other, sound.capped t))
            ];
        balanced = λ t. omega (
          arith,
          held-credit tables scripts r amt tick t raised once space,
          held_same tables scripts t db raised same_balances,
          minted_supply r amt tick t db narrow,
          sound.balanced t,
        );
      }

  pub mint_message-Keeps :
      (id : InscriptionId) (action : AmountAction) (terms : Brc20Terms) (receiver : Option ℕ)
      (db : Brc20Db tables) (locked : List ℕ → ℕ)
      → terms_of tables db action.ticker ≡ some terms
      → ((r : ℕ) → receiver ≡ some r → count r scripts ≡ 1)
      → IsSound tables scripts db locked
      → Keeps tables scripts db locked (mint_message tables id action terms receiver db)
  unfolding mint_message Keeps locked_amount minted_db
  mint_message-Keeps id action terms none db locked known listed sound =
      unchanged-Keeps tables scripts db locked sound
  mint_message-Keeps id action terms (some r) db locked known listed sound =
      let supply = supply_of tables db action.ticker in
      let amt = min action.amt (sub128 terms.max supply) in
      elim (Bool-cases (supply == terms.max)) [
        | inl full ↦ rw full (unchanged-Keeps tables scripts db locked sound)
        | inr open_supply ↦
            let most : maximum (terms_of tables db action.ticker) ≡ terms.max =
              ap maximum known ∙ unfold maximum in refl in
            let within : supply + amt ≤ maximum (terms_of tables db action.ticker) =
              omega (arith, most, sound.capped action.ticker, sound.fits action.ticker) in
            rw open_supply (
              relocked tables scripts _ locked _ (λ t. omega arith)
                (minted-IsSound r amt action.ticker db locked (listed r refl) within sound))
      ]
