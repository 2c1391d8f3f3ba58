-- ===== src/Drc20/Ledger/Congruence.antt =====
-- Undoing a message (services/compressor-xdg/src/storage/mod.rs, `rollback`) respects what the tables answer.
use mathlib.Core.List.{reverse, reverse-append}
use mathlib.Core.Path.{subst}
use maestro_dogecoin_indexer.Prelude.{
  ℕ, ◌≤◌, ◌≡◌, ◌∙◌, ap, sym, refl, List, [], ◌∷◌, ◌++◌, All, All-append,
}
use maestro_dogecoin_indexer.Prelude.Words.{u128_max, sub128}
use maestro_dogecoin_indexer.Storage.{InscriptionId}
use maestro_dogecoin_indexer.Drc20.Ledger.{
  ScriptAndBrc20Kind, Brc20Message, deploy, mint, transfer, transfer_init, Brc20Tables, Brc20Db,
  Effects, unchanged, balance_of, supply_of, set_balance, set_supply, credit, debit, followed,
  undo_message, undo_each, undo_messages,
}
use maestro_dogecoin_indexer.Drc20.Ledger.Reads.{
  SameReads, SameReads-refl, SameReads-trans, supply_of-set_supply, balance_of-credit,
  balance_of-debit,
}

-- The amounts of unused transfers are of 128 bits.
abbrev pub FitStored : List (InscriptionId × (List ℕ × ℕ)) → Type 0
FitStored = All (λ (t : InscriptionId × (List ℕ × ℕ)). t.1.1 ≤ u128_max)

module _ (tables : Brc20Tables) where
  -- The stored numbers are of 128 bits.
  pub record AreWords (db : Brc20Db tables) : Type 0 where
    pub balances : (key : ScriptAndBrc20Kind) → balance_of tables db key ≤ u128_max
    pub supplies : (tick : List ℕ) → supply_of tables db tick ≤ u128_max

  -- A write to a balance or a supply keeps the equality of what the tables answer.
  pub credit-SameReads :
      (script : ℕ) (tick : List ℕ) (amt : ℕ) (a b : Brc20Db tables)
      → SameReads tables a b
      → SameReads tables (credit tables script tick amt a) (credit tables script tick amt b)
  unfolding set_balance
  credit-SameReads script tick amt a b h = record {
    balances = λ key.
        balance_of-credit tables script tick amt key b
        ∙ rw (h.balances key) (sym (balance_of-credit tables script tick amt key a));
    supplies = unfold credit in h.supplies;
    terms = unfold credit in h.terms;
  }

  pub debit-SameReads :
      (script : ℕ) (tick : List ℕ) (amt : ℕ) (a b : Brc20Db tables)
      → SameReads tables a b
      → SameReads tables (debit tables script tick amt a) (debit tables script tick amt b)
  unfolding set_balance
  debit-SameReads script tick amt a b h = record {
    balances = λ key.
        balance_of-debit tables script tick amt key b
        ∙ rw (h.balances key) (sym (balance_of-debit tables script tick amt key a));
    supplies = unfold debit in h.supplies;
    terms = unfold debit in h.terms;
  }

  pub set_supply-SameReads :
      (tick : List ℕ) (n m : ℕ) (a b : Brc20Db tables)
      → m ≡ n
      → SameReads tables a b
      → SameReads tables (set_supply tables tick n a) (set_supply tables tick m b)
  set_supply-SameReads tick n m a b e h = record {
    balances = unfold set_supply in h.balances;
    supplies = λ t.
        supply_of-set_supply tables tick t m b
        ∙ rw (e, h.supplies t) (sym (supply_of-set_supply tables tick t n a));
    terms = unfold set_supply in h.terms;
  }

  undo_message-SameReads :
      (message : Brc20Message) (a b : Brc20Db tables)
      → SameReads tables a b
      → SameReads tables (undo_message tables message a) (undo_message tables message b)
  unfolding undo_message
  undo_message-SameReads (deploy tick) a b h = record {
    balances = h.balances;
    supplies = h.supplies;
    terms = λ t.
        tables.Terms.get_by_key-stage_delete b.terms tick t
        ∙ rw (h.terms t) (sym (tables.Terms.get_by_key-stage_delete a.terms tick t));
  }
  undo_message-SameReads (mint tick amt receiver) a b h =
      debit-SameReads receiver tick amt _ _
        (set_supply-SameReads tick _ _ a b (ap (λ (n : ℕ). sub128 n amt) (h.supplies tick)) h)
  undo_message-SameReads (transfer tick amt _ receiver) a b h =
      debit-SameReads receiver tick amt a b h
  undo_message-SameReads (transfer_init tick amt receiver) a b h =
      credit-SameReads receiver tick amt a b h

  undo_each-SameReads :
      (messages : List (InscriptionId × Brc20Message)) (a b : Brc20Db tables)
      → SameReads tables a b
      → SameReads tables (undo_each tables messages a) (undo_each tables messages b)
  unfolding undo_each
  undo_each-SameReads [] a b h = h
  undo_each-SameReads ((_, m) ∷ messages) a b h =
      undo_each-SameReads messages _ _ (undo_message-SameReads m a b h)

  undo_each-append :
      (xs ys : List (InscriptionId × Brc20Message)) (db : Brc20Db tables)
      → undo_each tables (xs ++ ys) db ≡ undo_each tables ys (undo_each tables xs db)
  unfolding undo_each
  undo_each-append [] ys db = refl
  undo_each-append ((_, m) ∷ xs) ys db = undo_each-append xs ys (undo_message tables m db)

  -- The later messages are undone first.
  undo_messages-append :
      (xs ys : List (InscriptionId × Brc20Message)) (db : Brc20Db tables)
      → undo_messages tables (xs ++ ys) db ≡ undo_messages tables xs (undo_messages tables ys db)
  unfolding undo_messages
  undo_messages-append xs ys db =
      ap (λ (l : List (InscriptionId × Brc20Message)). undo_each tables l db) (reverse-append xs ys)
      ∙ undo_each-append (reverse ys) (reverse xs) db

  -- The recorded messages undo the effects, which keep the numbers words; the new unused transfers are words too.
  pub record Undone (db : Brc20Db tables) (e : Effects tables) : Type 0 where
    pub restored : SameReads tables db (undo_messages tables e.valid_brc20s e.db)
    pub words : AreWords e.db
    pub locked : FitStored e.new_unused_transfers

  pub unchanged-Undone : (db : Brc20Db tables) → AreWords db → Undone db (unchanged tables db)
  unfolding undo_messages undo_each
  unchanged-Undone db w = record { restored = SameReads-refl tables db; words = w; locked = tt }

  pub followed-Undone :
      (db : Brc20Db tables) (first rest : Effects tables)
      → Undone db first
      → Undone first.db rest
      → Undone db (followed tables first rest)
  unfolding undo_messages
  followed-Undone db first rest h k = record {
    restored =
        subst (SameReads tables db)
          (sym (undo_messages-append first.valid_brc20s rest.valid_brc20s rest.db))
          (SameReads-trans tables _ _ _ h.restored
            (undo_each-SameReads (reverse first.valid_brc20s) _ _ k.restored));
    words = k.words;
    locked = All-append _ first.new_unused_transfers rest.new_unused_transfers h.locked k.locked;
  }
