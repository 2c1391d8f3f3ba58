-- ===== src/Drc20/Ledger/Total.antt =====
-- The ledger part of a transaction does not panic (services/compressor-xdg/src/storage/inscriptions/updater.rs).
use mathlib.Core.Path.{subst}
use maestro_dogecoin_indexer.Prelude.{
  ℕ, ◌==◌, ltb, ◌≤◌, ◌≡◌, ◌∙◌, ◌⊎◌, ap, sym, refl, Option, none, some, List, [], ◌∷◌, Option-cases,
  Bool-cases, inl, inr, some_inj, arith,
}
use maestro_dogecoin_indexer.Storage.{InscriptionId}
use maestro_dogecoin_indexer.Drc20.Decimal.{Parsed, rejected, parsed}
use maestro_dogecoin_indexer.Drc20.Actions.{
  RawProtocolMessage, Brc20Terms, DeployAction, AmountAction, same_text,
}
use maestro_dogecoin_indexer.Drc20.ActionBounds.{parse_deploy_bounds}
use maestro_dogecoin_indexer.Drc20.NoPanic.{
  NoPanic, refusal, answer, parse_deploy-NoPanic, parse_mint-NoPanic, parse_transfer-NoPanic,
}
use maestro_dogecoin_indexer.Drc20.Ledger.{
  Brc20Tables, Brc20Db, UsedTransfer, Effects, terms_of, supply_of, unchanged, set_balance,
  set_supply, credit, use_transfers, deploy_message, mint_message, lock_balance, transfer_message,
  amount_message, process_message, process_messages, index_brc20, followed,
}
use maestro_dogecoin_indexer.Drc20.Ledger.Cases.{
  Ends, refused, deployed, minted, reserved, process_message-Ends,
}

NoPanic-cases :
    {A : Type 0} (p : Parsed A) → NoPanic p → (p ≡ rejected) ⊎ ((a : A) × (p ≡ parsed a))
NoPanic-cases _ refusal = inl refl
NoPanic-cases _ (answer a) = inr (a, refl)

module _ (tables : Brc20Tables) where
  -- The terms of every ticker have at most 18 decimals.
  abbrev pub HasDecimals : tables.Terms.Contents → Type 0
  HasDecimals contents =
      (tick : List ℕ) (terms : Brc20Terms)
      → tables.Terms.get_by_key contents tick ≡ some terms
      → terms.dec ≤ 18

  use_transfers_terms :
      (used : List UsedTransfer) (db : Brc20Db tables)
      → (use_transfers tables used db).db.terms ≡ db.terms
  unfolding use_transfers credit set_balance
  use_transfers_terms [] db = refl
  use_transfers_terms (u ∷ used) db = use_transfers_terms used _

  mint_message_terms :
      (id : InscriptionId) (action : AmountAction) (terms : Brc20Terms) (receiver : Option ℕ)
      (db : Brc20Db tables)
      → (mint_message tables id action terms receiver db).db.terms ≡ db.terms
  unfolding mint_message credit set_balance set_supply
  mint_message_terms id action terms none db = refl
  mint_message_terms id action terms (some r) db =
      elim (Bool-cases (supply_of tables db action.ticker == terms.max)) [
        | inl full ↦ rw full refl
        | inr open_supply ↦ rw open_supply refl
      ]

  lock_balance_terms :
      (id : InscriptionId) (action : AmountAction) (r : ℕ) (old : Option ℕ) (db : Brc20Db tables)
      → (lock_balance tables id action r old db).db.terms ≡ db.terms
  unfolding lock_balance set_balance
  lock_balance_terms id action r none db = refl
  lock_balance_terms id action r (some old) db = elim (Bool-cases (ltb old action.amt)) [
    | inl short ↦ rw short refl
    | inr enough ↦ rw enough refl
  ]

  transfer_message_terms :
      (id : InscriptionId) (action : AmountAction) (receiver : Option ℕ) (db : Brc20Db tables)
      → (transfer_message tables id action receiver db).db.terms ≡ db.terms
  unfolding transfer_message
  transfer_message_terms id action none db = refl
  transfer_message_terms id action (some r) db = lock_balance_terms id action r _ db

  deploy_message-HasDecimals :
      (id : InscriptionId) (action : DeployAction) (terms : Option Brc20Terms) (db : Brc20Db tables)
      → action.dec ≤ 18
      → HasDecimals db.terms
      → HasDecimals (deploy_message tables id action terms db).db.terms
  unfolding deploy_message
  deploy_message-HasDecimals id action (some t) db small decimals = decimals
  deploy_message-HasDecimals id action none db small decimals = λ tick terms h.
      let entry : Brc20Terms = record {
        max = action.max;
        mint_amt_limit = action.limit;
        dec = action.dec;
        self_mint = action.self_mint;
        deploy_id = id;
      } in
      let reads =
        sym (tables.Terms.get_by_key-stage_upsert db.terms action.ticker tick entry) ∙ h in
      elim (Bool-cases (same_text action.ticker tick)) [
        | inl same ↦
            let found : entry ≡ terms = some_inj (rw same at reads) in
            omega (arith, ap (λ (t : Brc20Terms). t.dec) found, small)
        | inr other ↦ decimals tick terms (rw other at reads)
      ]

  module _ (lowercase_bytes : List ℕ → List ℕ) where
    amount_message_total :
        (id : InscriptionId) (raw : RawProtocolMessage) (terms : Brc20Terms) (receiver : Option ℕ)
        (db : Brc20Db tables)
        → terms.dec ≤ 18
        → (e : Effects tables) × (amount_message tables lowercase_bytes id raw terms receiver db
            ≡ some e)
    unfolding amount_message
    amount_message_total id raw terms receiver db small =
        elim (NoPanic-cases _ (parse_mint-NoPanic lowercase_bytes raw terms small)) [
          | inr (action, mints) ↦
              (mint_message tables id action terms receiver db, rw (mints, amount_message) refl)
          | inl other ↦
              (elim (NoPanic-cases _ (parse_transfer-NoPanic lowercase_bytes raw terms small)) [
                | inr (action, moves) ↦ (
                  transfer_message tables id action receiver db,
                  rw (other, amount_message, moves) refl,
                )
                | inl wrong ↦ (unchanged tables db, rw (other, amount_message, wrong) refl)
              ])
        ]

    process_message_total :
        (id : InscriptionId) (raw : RawProtocolMessage) (receiver : Option ℕ) (db : Brc20Db tables)
        → HasDecimals db.terms
        → (e : Effects tables) × (process_message tables lowercase_bytes id raw receiver db
            ≡ some e)
    unfolding process_message
    process_message_total id raw receiver db decimals =
        elim (NoPanic-cases _ (parse_deploy-NoPanic lowercase_bytes raw)) [
          | inr (action, deploys) ↦ (
            deploy_message tables id action (terms_of tables db (lowercase_bytes raw.tick)) db,
            rw (deploys, process_message) refl,
          )
          | inl other ↦ (elim (Option-cases (terms_of tables db (lowercase_bytes raw.tick))) [
            | inl unknown ↦ (unchanged tables db, rw (other, process_message, unknown) refl)
            | inr (terms, known) ↦
                let (e, h) =
                  amount_message_total id raw terms receiver db (decimals _ terms known) in
                (e, rw (other, process_message, known) h)
          ])
        ]

    -- A message keeps the terms of other tickers, and a deploy has at most 18 decimals.
    message-HasDecimals :
        (id : InscriptionId) (raw : RawProtocolMessage) (receiver : Option ℕ) (db : Brc20Db tables)
        (e : Effects tables)
        → Ends lowercase_bytes raw tables id receiver db e
        → HasDecimals db.terms
        → HasDecimals e.db.terms
    message-HasDecimals id raw receiver db _ refused decimals = decimals
    message-HasDecimals id raw receiver db _ (deployed action terms p known) decimals =
        deploy_message-HasDecimals id action terms db
          (parse_deploy_bounds lowercase_bytes raw action p).1 decimals
    message-HasDecimals id raw receiver db _ (minted action terms p known) decimals =
        subst HasDecimals (sym (mint_message_terms id action terms receiver db)) decimals
    message-HasDecimals id raw receiver db _ (reserved action terms p) decimals =
        subst HasDecimals (sym (transfer_message_terms id action receiver db)) decimals

    process_messages_total :
        (messages : List (InscriptionId × RawProtocolMessage))
        (receivers : InscriptionId → Option ℕ) (db : Brc20Db tables)
        → HasDecimals db.terms
        → (e : Effects tables) × (process_messages tables lowercase_bytes messages receivers db
            ≡ some e)
          × HasDecimals e.db.terms
    unfolding process_messages
    process_messages_total [] receivers db decimals = (unchanged tables db, refl, decimals)
    process_messages_total ((id, raw) ∷ messages) receivers db decimals =
        let (first, h) = process_message_total id raw (receivers id) db decimals in
        let ends = process_message-Ends lowercase_bytes raw tables id (receivers id) db first h in
        let (rest, h₁, kept) =
          process_messages_total messages receivers first.db
            (message-HasDecimals id raw (receivers id) db first ends decimals) in
        (followed tables first rest, rw (h, h₁) refl, kept)

    -- Let the terms in the table have at most 18 decimals. Then the ledger part of a transaction does not
    -- panic, whatever its messages say, and the terms in the table have at most 18 decimals behind it.
    pub index_brc20_total :
        (used : List UsedTransfer) (messages : List (InscriptionId × RawProtocolMessage))
        (receivers : InscriptionId → Option ℕ) (db : Brc20Db tables)
        → HasDecimals db.terms
        → (e : Effects tables) × (index_brc20 tables lowercase_bytes used messages receivers db
            ≡ some e)
          × HasDecimals e.db.terms
    unfolding index_brc20
    index_brc20_total used messages receivers db decimals =
        let first = use_transfers tables used db in
        let (rest, h, kept) =
          process_messages_total messages receivers first.db
            (subst HasDecimals (sym (use_transfers_terms used db)) decimals) in
        (followed tables first rest, rw h refl, kept)
