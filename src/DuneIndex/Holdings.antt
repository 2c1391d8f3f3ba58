-- ===== src/DuneIndex/Holdings.antt =====
-- What the loop over the edicts (storage/runes/updater.rs, `index_runes`) holds of a dune, and where.
use maestro_dogecoin_indexer.Prelude.{
  ℕ, ◌+◌, ◌≤◌, ◌≡◌, refl, Option, none, some, List, arith, ◌==◌, if◌then◌else◌, bind-some,
  Bool-cases, Option-cases, inl, inr,
}
use maestro_dogecoin_indexer.Prelude.Maps.{lookup}
use mathlib.Core.Path.{subst}
use maestro_dogecoin_indexer.Dunes.Id.{claim}
use maestro_dogecoin_indexer.DuneIndex.Edicts.{
  Issuance, Allocating, Source, issued, minted, unallocated, source_of, set_balance,
}
use maestro_dogecoin_indexer.DuneIndex.Amounts.{
  sum_of, sum_outputs, lookup-le-sum_of, sum_of-insert,
}

abbrev pub issued_amount : ℕ → Option Issuance → ℕ
issued_amount id none = 0
issued_amount id (some i) = if i.id == id then i.balance else 0

-- What the transaction may still take beyond its inputs: of the open mints and of the new issuance.
unfoldable pub granted : ℕ → Allocating → ℕ
granted id s = sum_of id s.mintable + issued_amount id s.issuance

-- What no output has yet.
unfoldable pub pending : ℕ → Allocating → ℕ
unfolding granted
pending id s = sum_of id s.unallocated + granted id s

-- All of a dune that the loop holds.
unfoldable pub total : ℕ → Allocating → ℕ
total id s = pending id s + sum_outputs id s.allocated

-- The balance of an edict's source is part of what is pending, and a write to it changes that only.
pub record Holds (s : Allocating) (source : Source) (key balance : ℕ) : Type 0 where
  pub within : balance ≤ pending key s
  pub writes :
      (id b : ℕ)
      → pending id (set_balance source b s) + (if key == id then balance else 0)
        ≡ pending id s + (if key == id then b else 0)
  pub grants :
      (id b : ℕ) → (key ≡ id → b ≤ balance) → granted id (set_balance source b s) ≤ granted id s
  pub outputs : (b : ℕ) → (set_balance source b s).allocated ≡ s.allocated

issued-Holds : (s : Allocating) (i : Issuance) → s.issuance ≡ some i → Holds s issued i.id i.balance
unfolding pending set_balance
issued-Holds s i e = record {
  within = rw e (ground arith);
  writes = λ id b. rw e (ground arith);
  grants = λ id b less. rw e (ground (arith, less));
  outputs = λ b. refl;
}

minted-Holds :
    (s : Allocating) (c balance : ℕ)
    → lookup c s.mintable ≡ some balance
    → Holds s (minted c) c balance
unfolding pending set_balance
minted-Holds s c balance e = record {
  within = ground (arith, lookup-le-sum_of c s.mintable);
  writes = λ id b. ground (arith, sum_of-insert id c b s.mintable);
  grants = λ id b less. ground (arith, less, sum_of-insert id c b s.mintable);
  outputs = λ b. refl;
}

unallocated-Holds :
    (s : Allocating) (c balance : ℕ)
    → lookup c s.unallocated ≡ some balance
    → Holds s (unallocated c) c balance
unfolding pending set_balance
unallocated-Holds s c balance e = record {
  within = ground (arith, lookup-le-sum_of c s.unallocated);
  writes = λ id b. ground (arith, sum_of-insert id c b s.unallocated);
  grants = λ id b less. omega arith;
  outputs = λ b. refl;
}

pub total_outputs :
    (id : ℕ) (s : Allocating) (a : List (List (ℕ × ℕ)))
    → total id (record s { allocated = a }) ≡ pending id s + sum_outputs id a
unfolding total pending
total_outputs id s a = refl

unfoldable pub Held : Allocating → Source × ℕ × ℕ → Type 0
Held s (source, key, balance) = Holds s source key balance

pub source_of-Held :
    (s : Allocating) (id : ℕ) (found : Source × ℕ × ℕ) → source_of s id ≡ some found → Held s found
unfolding source_of Held
source_of-Held s id found h = elim (Bool-cases (id == 0)) [
  | inl new ↦
      let (i, e, f) = bind-some s.issuance (λ i. some (issued, i.id, i.balance)) (rw new at h) in
      subst (Held s) (cc f) (issued-Holds s i e)
  | inr old ↦ elim (Option-cases (claim id)) [
    | inr (c, mints) ↦
        let (b, e, f) =
          bind-some (lookup c s.mintable) (λ b. some (minted c, c, b)) (rw (old, mints) at h) in
        subst (Held s) (cc f) (minted-Holds s c b e)
    | inl moves ↦
        let (b, e, f) =
          bind-some (lookup id s.unallocated) (λ b. some (unallocated id, id, b))
            (rw (old, moves) at h) in
        subst (Held s) (cc f) (unallocated-Holds s id b e)
  ]
]
