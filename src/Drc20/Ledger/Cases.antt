-- ===== src/Drc20/Ledger/Cases.antt =====
-- The ways in which a DRC-20 message ends (services/compressor-xdg/src/storage/inscriptions/updater.rs).
use maestro_dogecoin_indexer.Prelude.{
  ℕ, ◌≡◌, ◌∙◌, ap, sym, refl, ◌⊎◌, inl, inr, Option, some, List, some_inj, Option-cases,
}
use mathlib.Core.Path.{subst}
use maestro_dogecoin_indexer.Storage.{InscriptionId}
use maestro_dogecoin_indexer.Drc20.Decimal.{Parsed, rejected, panicked, parsed}
use maestro_dogecoin_indexer.Drc20.Actions.{
  RawProtocolMessage, Brc20Terms, DeployAction, AmountAction, parse_deploy, parse_mint,
  parse_transfer, parse_dec, positive, required, parse_limit, within_limit,
}
use maestro_dogecoin_indexer.Drc20.ActionBounds.{bind-parsed, parsed_inj, tested}
use maestro_dogecoin_indexer.Drc20.Ledger.{
  Brc20Tables, Brc20Db, Effects, unchanged, terms_of, deploy_message, mint_message,
  transfer_message, amount_message, process_message,
}

Parsed-cases :
    {A : Type 0} (p : Parsed A) → (p ≡ rejected) ⊎ ((p ≡ panicked) ⊎ ((a : A) × (p ≡ parsed a)))
Parsed-cases rejected = inl refl
Parsed-cases panicked = inr (inl refl)
Parsed-cases (parsed a) = inr (inr (a, refl))

module _ (lowercase_bytes : List ℕ → List ℕ) (raw : RawProtocolMessage) where
  -- A parsed message has the ticker that the terms are looked up by.
  deploy_ticker :
      (action : DeployAction)
      → parse_deploy lowercase_bytes raw ≡ parsed action
      → lowercase_bytes raw.tick ≡ action.ticker
  unfolding parse_deploy
  deploy_ticker action h =
      let (named, e) = tested _ _ h in
      let (four, f) = tested _ _ e in
      let (dec, e₁, f₁) = bind-parsed (parse_dec raw.dec) _ f in
      let (max, e₂, f₂) = bind-parsed (positive (required raw.max dec)) _ f₁ in
      let (limit, e₃, f₃) = bind-parsed (parse_limit raw.lim max dec) _ f₂ in
      ap (λ (a : DeployAction). a.ticker) (parsed_inj f₃)

  mint_ticker :
      (terms : Brc20Terms) (action : AmountAction)
      → parse_mint lowercase_bytes raw terms ≡ parsed action
      → lowercase_bytes raw.tick ≡ action.ticker
  unfolding parse_mint
  mint_ticker terms action h =
      let (named, e) = tested _ _ h in
      let (amt, e₁, f₁) = bind-parsed (required raw.amt terms.dec) _ e in
      let (mintable, e₂, f₂) = bind-parsed (within_limit terms.mint_amt_limit amt) _ f₁ in
      ap (λ (a : AmountAction). a.ticker) (parsed_inj f₂)

  module _ (tables : Brc20Tables) (id : InscriptionId) (receiver : Option ℕ)
      (db : Brc20Db tables) where
    pub data Ends : Effects tables → Type 0 where
      refused : Ends (unchanged tables db)
      deployed :
          (action : DeployAction) (terms : Option Brc20Terms)
          → parse_deploy lowercase_bytes raw ≡ parsed action
          → terms_of tables db action.ticker ≡ terms
          → Ends (deploy_message tables id action terms db)
      minted :
          (action : AmountAction) (terms : Brc20Terms)
          → parse_mint lowercase_bytes raw terms ≡ parsed action
          → terms_of tables db action.ticker ≡ some terms
          → Ends (mint_message tables id action terms receiver db)
      reserved :
          (action : AmountAction) (terms : Brc20Terms)
          → parse_transfer lowercase_bytes raw terms ≡ parsed action
          → Ends (transfer_message tables id action receiver db)

    amount_message-Ends :
        (terms : Brc20Terms) (e : Effects tables)
        → terms_of tables db (lowercase_bytes raw.tick) ≡ some terms
        → amount_message tables lowercase_bytes id raw terms receiver db ≡ some e
        → Ends e
    unfolding amount_message
    amount_message-Ends terms e known h =
        elim (Parsed-cases (parse_mint lowercase_bytes raw terms)) [
          | inr (inl bad) ↦ cc (rw (bad, amount_message) at h)
          | inr (inr (action, mints)) ↦ subst Ends (some_inj (rw (mints, amount_message) at h)) (
              minted action terms mints
                (ap (terms_of tables db) (sym (mint_ticker terms action mints)) ∙ known))
          | inl other ↦ (elim (Parsed-cases (parse_transfer lowercase_bytes raw terms)) [
            | inl wrong ↦ subst Ends (some_inj (rw (other, amount_message, wrong) at h)) refused
            | inr (inl bad) ↦ cc (rw (other, amount_message, bad) at h)
            | inr (inr (action, moves)) ↦
                subst Ends (some_inj (rw (other, amount_message, moves) at h))
                  (reserved action terms moves)
          ])
        ]

    pub process_message-Ends :
        (e : Effects tables)
        → process_message tables lowercase_bytes id raw receiver db ≡ some e
        → Ends e
    unfolding process_message
    process_message-Ends e h = elim (Parsed-cases (parse_deploy lowercase_bytes raw)) [
      | inr (inl bad) ↦ cc (rw (bad, process_message) at h)
      | inr (inr (action, deploys)) ↦ subst Ends (some_inj (rw (deploys, process_message) at h)) (
          deployed action (terms_of tables db (lowercase_bytes raw.tick)) deploys
            (ap (terms_of tables db) (sym (deploy_ticker action deploys))))
      | inl other ↦ (elim (Option-cases (terms_of tables db (lowercase_bytes raw.tick))) [
        | inl unknown ↦ subst Ends (some_inj (rw (other, process_message, unknown) at h)) refused
        | inr (terms, known) ↦
            amount_message-Ends terms e known (rw (other, process_message, known) at h)
      ])
    ]
