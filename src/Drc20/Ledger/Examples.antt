-- ===== src/Drc20/Ledger/Examples.antt =====
-- A transaction at concrete tables: a transfer of 300 is used, 1000 are minted, and 400 locked.
use maestro_dogecoin_indexer.Prelude.{
  ℕ, ◌≤◌, ◌≡◌, ◌+◌, refl, ap, some_inj, false, Option, none, some, List, [], ◌∷◌, arith, inl, inr,
  Bool-cases, if◌then◌else◌,
}
use maestro_dogecoin_indexer.Storage.MapTable.{table}
use maestro_dogecoin_indexer.Storage.{InscriptionId}
use maestro_dogecoin_indexer.Drc20.Decimal.{parse_decimal, push_char, unwrap}
use maestro_dogecoin_indexer.Drc20.Actions.{
  RawProtocolMessage, Brc20Terms, same_text, parse_deploy, parse_mint, parse_transfer, all_digits,
}
use maestro_dogecoin_indexer.Drc20.Ledger.{
  ScriptAndBrc20Kind, same_account, mint, transfer, transfer_init, Brc20Tables, Brc20Db,
  UsedTransfer, Effects, index_brc20, account,
}
use maestro_dogecoin_indexer.Drc20.Ledger.Congruence.{AreWords}
use maestro_dogecoin_indexer.Drc20.Ledger.Supply.{count, maximum, held, locked_amount, used_amount}
use maestro_dogecoin_indexer.Drc20.Ledger.Sound.{IsSound}
use maestro_dogecoin_indexer.Drc20.Ledger.Books.{index_brc20-IsSound}
use maestro_dogecoin_indexer.Drc20.Ledger.Total.{index_brc20_total}

abbrev tables : Brc20Tables
tables = record {
  Balances = table ScriptAndBrc20Kind ℕ same_account;
  Supplies = table (List ℕ) ℕ same_text;
  Terms = table (List ℕ) Brc20Terms same_text;
}

abbrev same_bytes : List ℕ → List ℕ
same_bytes tick = tick

abbrev dogi : List ℕ
dogi = b'd' ∷ b'o' ∷ b'g' ∷ b'i' ∷ []

abbrev inscription : ℕ → InscriptionId
inscription n = record { txid = n; index = 0 }

abbrev dogi_terms : Brc20Terms
dogi_terms = record {
  max = 2100;
  mint_amt_limit = 2100;
  dec = 2;
  self_mint = false;
  deploy_id = inscription 1;
}

abbrev before : Brc20Db tables
before = record {
  balances = λ key.
      if same_account (record { script = 7; brc20_ticker = dogi }) key then some 200 else none;
  supplies = λ tick. if same_text dogi tick then some 500 else none;
  terms = λ tick. if same_text dogi tick then some dogi_terms else none;
}

abbrev used : List UsedTransfer
used =
    (record {
      inscription = inscription 2;
      tick = dogi;
      amt = 300;
      original_outpoint = record { txid = 2; vout = 0 };
      receiver = 9;
    })
    ∷ []

abbrev mint_text : RawProtocolMessage
mint_text = record {
  op = b'm' ∷ b'i' ∷ b'n' ∷ b't' ∷ [];
  tick = dogi;
  max = none;
  lim = none;
  dec = none;
  amt = some (b'1' ∷ b'0' ∷ []);
}

abbrev transfer_text : RawProtocolMessage
transfer_text = record mint_text {
  op = b't' ∷ b'r' ∷ b'a' ∷ b'n' ∷ b's' ∷ b'f' ∷ b'e' ∷ b'r' ∷ [];
  amt = some (b'4' ∷ []);
}

abbrev messages : List (InscriptionId × RawProtocolMessage)
messages = (inscription 3, mint_text) ∷ (inscription 4, transfer_text) ∷ []

abbrev receivers : InscriptionId → Option ℕ
receivers id = some 7

abbrev outcome : Effects tables
outcome = record {
  db = record before {
    balances = λ key.
        if same_account (account tables 7 dogi) key
        then some 800
        else if same_account (account tables 7 dogi) key
        then some 1200
        else if same_account (account tables 9 dogi) key
        then some 300
        else before.balances key;
    supplies = λ tick. if same_text dogi tick then some 1500 else before.supplies tick;
  };
  valid_brc20s =
      (inscription 2, transfer dogi 300 (record { txid = 2; vout = 0 }) 9)
      ∷ (inscription 3, mint dogi 1000 7)
      ∷ (inscription 4, transfer_init dogi 400 7)
      ∷ [];
  new_unused_transfers = (inscription 4, (dogi, 400)) ∷ [];
}

indexed : index_brc20 tables same_bytes used messages receivers before ≡ some outcome
unfolding index_brc20 parse_deploy parse_mint parse_transfer parse_decimal push_char unwrap
    all_digits same_account
indexed = refl

before-AreWords : AreWords tables before
before-AreWords = record {
  balances = λ key. elim (Bool-cases (same_account (account tables 7 dogi) key)) [
    | inl same ↦ rw same (omega arith)
    | inr other ↦ rw other (omega arith)
  ];
  supplies = λ tick. elim (Bool-cases (same_text dogi tick)) [
    | inl same ↦ rw same (omega arith)
    | inr other ↦ rw other (omega arith)
  ];
}

before-IsSound : IsSound tables (7 ∷ 9 ∷ []) before (λ t. used_amount t used + 0)
unfolding held used_amount maximum same_account
before-IsSound = record {
  fits = λ tick. elim (Bool-cases (same_text dogi tick)) [
    | inl same ↦ rw same (omega arith)
    | inr other ↦ rw other (omega arith)
  ];
  capped = λ tick. elim (Bool-cases (same_text dogi tick)) [
    | inl same ↦ rw same (omega arith)
    | inr other ↦ rw other (omega arith)
  ];
  balanced = λ tick. elim (Bool-cases (same_text dogi tick)) [
    | inl same ↦ rw same (omega arith)
    | inr other ↦ rw other (omega arith)
  ];
}

index_brc20-IsSound_example :
    IsSound tables (7 ∷ 9 ∷ []) outcome.db (λ t. locked_amount t outcome.new_unused_transfers + 0)
unfolding count
index_brc20-IsSound_example =
    index_brc20-IsSound tables (7 ∷ 9 ∷ []) same_bytes used messages receivers before (λ t. 0)
      outcome indexed (refl, tt) (λ id r h. ground (arith, some_inj h)) before-IsSound

index_brc20_total_example :
    (e : Effects tables) × (index_brc20 tables same_bytes used messages receivers before ≡ some e)
    × ((tick : List ℕ) (terms : Brc20Terms) → e.db.terms tick ≡ some terms → terms.dec ≤ 18)
index_brc20_total_example =
    index_brc20_total tables same_bytes used messages receivers before (λ tick terms h.
      elim (Bool-cases (same_text dogi tick)) [
        | inl same ↦
            omega (arith, ap (λ (t : Brc20Terms). t.dec) (some_inj {a = dogi_terms} (rw same at h)))
        | inr other ↦ cc (rw other at h)
      ])
