-- ===== src/Drc20/Ledger/Sound/Deploy.antt =====
-- The books of the ledger stay sound under a deploy (services/compressor-xdg/src/storage/inscriptions/updater.rs).
use maestro_dogecoin_indexer.Prelude.{
  ℕ, ◌+◌, ◌≤◌, ◌≡◌, ◌∙◌, ap, sym, refl, Option, none, some, List, if◌then◌else◌, arith, inl, inr,
  Bool-cases,
}
use maestro_dogecoin_indexer.Prelude.Words.{u128_max}
use maestro_dogecoin_indexer.Storage.{InscriptionId}
use maestro_dogecoin_indexer.Drc20.Actions.{Brc20Terms, DeployAction, same_text}
use maestro_dogecoin_indexer.Drc20.Ledger.{
  Brc20Tables, Brc20Db, Effects, terms_of, unchanged, deploy_message,
}
use maestro_dogecoin_indexer.Drc20.Ledger.Reads.{same_text_iff}
use maestro_dogecoin_indexer.Drc20.Ledger.Supply.{maximum, locked_amount, held_same}
use maestro_dogecoin_indexer.Drc20.Ledger.Sound.{IsSound}

module _ (tables : Brc20Tables) (scripts : List ℕ) where
  pub relocked :
      (db : Brc20Db tables) (locked locked' : List ℕ → ℕ)
      → ((t : List ℕ) → locked' t ≡ locked t)
      → IsSound tables scripts db locked
      → IsSound tables scripts db locked'
  relocked db locked locked' same sound = record {
    fits = sound.fits;
    capped = sound.capped;
    balanced = λ t. omega (arith, same t, sound.balanced t);
  }

  -- A message leaves sound books, with what it locks.
  unfoldable pub Keeps : Brc20Db tables → (List ℕ → ℕ) → Effects tables → Type 0
  Keeps db locked e =
      IsSound tables scripts e.db (λ t. locked_amount t e.new_unused_transfers + locked t)

  pub unchanged-Keeps :
      (db : Brc20Db tables) (locked : List ℕ → ℕ)
      → IsSound tables scripts db locked
      → Keeps db locked (unchanged tables db)
  unfolding Keeps locked_amount
  unchanged-Keeps db locked sound = record {
    fits = sound.fits;
    capped = sound.capped;
    balanced = λ t. omega (arith, sound.balanced t);
  }

  pub deploy_message-Keeps :
      (id : InscriptionId) (action : DeployAction) (terms : Option Brc20Terms) (db : Brc20Db tables)
      (locked : List ℕ → ℕ)
      → terms_of tables db action.ticker ≡ terms
      → action.max ≤ u128_max
      → IsSound tables scripts db locked
      → Keeps db locked (deploy_message tables id action terms db)
  unfolding deploy_message Keeps locked_amount
  deploy_message-Keeps id action (some t) db locked known narrow sound =
      unchanged-Keeps db locked sound
  deploy_message-Keeps id action none db locked unknown narrow sound =
      let entry : Brc20Terms = record {
        max = action.max;
        mint_amt_limit = action.limit;
        dec = action.dec;
        self_mint = action.self_mint;
        deploy_id = id;
      } in
      let reads : (t : List ℕ)
          → tables.Terms.get_by_key (tables.Terms.stage_upsert db.terms action.ticker entry) t
            ≡ (if same_text action.ticker t then some entry else terms_of tables db t) =
        λ t. tables.Terms.get_by_key-stage_upsert db.terms action.ticker t entry in
      record {
        fits = λ t. elim (Bool-cases (same_text action.ticker t)) [
          | inl same ↦ rw (reads t, same) (unfold maximum in narrow)
          | inr other ↦ rw (reads t, other) (sound.fits t)
        ];
        capped = λ t. elim (Bool-cases (same_text action.ticker t)) [
          | inl same ↦
              let nothing : maximum (terms_of tables db t) ≡ 0 =
                ap (λ (x : List ℕ). maximum (terms_of tables db x))
                  (sym ((same_text_iff action.ticker t).0 same))
                ∙ ap maximum unknown
                ∙ unfold maximum in refl in
              omega (arith, sound.capped t, nothing)
          | inr other ↦ rw (reads t, other) (sound.capped t)
        ];
        balanced = λ t. omega (
          arith,
          sound.balanced t,
          held_same tables scripts t db
              (record db { terms = tables.Terms.stage_upsert db.terms action.ticker entry }) refl,
        );
      }
