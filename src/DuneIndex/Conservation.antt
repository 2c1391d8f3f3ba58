-- ===== src/DuneIndex/Conservation.antt =====
-- The edicts of a dunestone move dunes between the places that hold them, and create or destroy none.
use maestro_dogecoin_indexer.Prelude.{
  ℕ, ◌+◌, ◌-◌, ◌≤◌, ◌<◌, min, ◌≡◌, ◌∙◌, ap, refl, Bool, true, false, some, List, [], ◌∷◌, arith,
  ltb, leb, ◌==◌, if◌then◌else◌, length, Bool-cases, Option-cases, inl, inr, ==_iff,
}
use maestro_dogecoin_indexer.Prelude.Words.{u64_max, u128_max, sub128, sub128_exact}
use maestro_dogecoin_indexer.Prelude.Maps.{Distinct, insert-Distinct}
use mathlib.Core.Path.{subst}
use maestro_dogecoin_indexer.Dunes.Dunestone.Fields.{Edict}
use maestro_dogecoin_indexer.DuneIndex.Edicts.{
  Allocating, Source, issued, minted, unallocated, add_output, source_of, set_balance, allocate,
  apply_edict, apply_edicts,
}
use maestro_dogecoin_indexer.DuneIndex.Amounts.{
  sum_outputs, sum_outputs-add_output_self, sum_outputs-add_output_ne, length-add_output,
}
use maestro_dogecoin_indexer.DuneIndex.Holdings.{
  granted, pending, total, Holds, Held, total_outputs, source_of-Held,
}

-- One call of `allocate` with an amount that the balance covers.
module _ (s : Allocating) (source : Source) (key balance amount output : ℕ)
    (held : Holds s source key balance) (covered : amount ≤ balance)
    (inside : output < length s.allocated) where
  same_dune :
      (id : ℕ)
      → total id s ≤ u128_max
      → key ≡ id
      → pending id (set_balance source (sub128 balance amount) s)
          + sum_outputs id (add_output output key amount s.allocated)
        ≡ total id s
  unfolding total
  same_dune id fits e =
      let left = sub128 balance amount in
      let within : balance ≤ pending id s = subst (λ k. balance ≤ pending k s) e held.within in
      let exact : left ≡ balance - amount = sub128_exact balance amount covered (omega arith) in
      let moved : pending id (set_balance source left s) + amount ≡ pending id s =
        ground (arith, held.writes id left) in
      rw e (
        omega (
          arith,
          moved,
          sum_outputs-add_output_self output id amount s.allocated inside (omega arith),
        ))

  total-allocate :
      (id : ℕ)
      → total id s ≤ u128_max
      → total id (allocate source key balance amount output s).0 ≡ total id s
  unfolding total allocate
  total-allocate id fits = elim (Bool-cases (ltb 0 amount)) [
    | inr nothing ↦ rw nothing
    | inl something ↦
        let left = sub128 balance amount in
        let moved = set_balance source left s in
        rw something (
          total_outputs id moved (add_output output key amount moved.allocated)
          ∙ ap
              (λ (a : List (List (ℕ × ℕ))).
                pending id moved + sum_outputs id (add_output output key amount a))
              (held.outputs left)
          ∙ elim (Bool-cases (key == id)) [
            | inl same ↦ same_dune id fits ((==_iff key id).0 same)
            | inr other ↦
                let kept : pending id moved ≡ pending id s = ground (arith, held.writes id left) in
                omega
                  (arith, kept, sum_outputs-add_output_ne output id key amount s.allocated other)
          ])
  ]

  grants-allocate :
      (id : ℕ)
      → total id s ≤ u128_max
      → granted id (allocate source key balance amount output s).0 ≤ granted id s
  unfolding allocate
  grants-allocate id fits = elim (Bool-cases (ltb 0 amount)) [
    | inr nothing ↦ rw nothing (omega arith)
    | inl something ↦ rw something (
        unfold granted in
        held.grants id (sub128 balance amount) (λ e. omega (
          arith,
          sub128_exact balance amount covered (
              let within : balance ≤ pending id s =
                subst (λ k. balance ≤ pending k s) e held.within in
              unfold total in omega arith),
        )))
  ]

  length-allocate :
      length (allocate source key balance amount output s).0.allocated ≡ length s.allocated
  unfolding allocate
  length-allocate = elim (Bool-cases (ltb 0 amount)) [
    | inr nothing ↦ rw nothing
    | inl something ↦ rw (something, held.outputs) (length-add_output output key amount s.allocated)
  ]

set_balance-Distinct :
    (source : Source) (b : ℕ) (s : Allocating)
    → Distinct s.mintable
    → Distinct (set_balance source b s).mintable
unfolding set_balance
set_balance-Distinct issued b s d = d
set_balance-Distinct (minted c) b s d = insert-Distinct c b s.mintable d
set_balance-Distinct (unallocated id) b s d = d

allocate-Distinct :
    (source : Source) (key balance amount output : ℕ) (s : Allocating)
    → Distinct s.mintable
    → Distinct (allocate source key balance amount output s).0.mintable
unfolding allocate
allocate-Distinct source key balance amount output s d = elim (Bool-cases (ltb 0 amount)) [
  | inl something ↦ rw something (set_balance-Distinct source (sub128 balance amount) s d)
  | inr nothing ↦ rw nothing d
]

-- An edict is applied: the loop goes on with a state that has as many outputs and as much of a dune.
pub record Applies (outputs : List Bool) (s s' : Allocating) : Type 0 where
  pub same_length : length s'.allocated ≡ length outputs
  pub conserves : (id : ℕ) → total id s ≤ u128_max → total id s' ≡ total id s
  pub grants : (id : ℕ) → total id s ≤ u128_max → granted id s' ≤ granted id s
  pub one_mint_each : Distinct s.mintable → Distinct s'.mintable

Applies-refl :
    (outputs : List Bool) (s : Allocating)
    → length s.allocated ≡ length outputs
    → Applies outputs s s
Applies-refl outputs s h = record {
  same_length = h;
  conserves = λ id _. refl;
  grants = λ id _. omega arith;
  one_mint_each = λ d. d;
}

edict_amount-le :
    (amount balance : ℕ) → (if amount == 0 then balance else min amount balance) ≤ balance
edict_amount-le amount balance = ground arith

apply_edict-Applies :
    (outputs : List Bool) (edict : Edict) (s : Allocating)
    → length s.allocated ≡ length outputs
    → (s' : Allocating) × (apply_edict outputs edict s ≡ some s') × Applies outputs s s'
unfolding apply_edict
apply_edict-Applies outputs edict s h = elim (Bool-cases (ltb u64_max edict.output)) [
  | inl wide ↦ (s, rw wide, Applies-refl outputs s h)
  | inr fits ↦ elim (Bool-cases (leb (length outputs) edict.output)) [
    | inl out ↦ (s, rw (fits, out), Applies-refl outputs s h)
    | inr inside ↦ elim (Option-cases (source_of s edict.id)) [
      | inl nowhere ↦ (s, rw (fits, inside, nowhere), Applies-refl outputs s h)
      | inr ((source, key, balance), found) ↦
          let one : (edict.output == length outputs) ≡ false = ground arith in
          let amount = if edict.amount == 0 then balance else min edict.amount balance in
          let held = source_of-Held s edict.id (source, key, balance) found in
          let covered = edict_amount-le edict.amount balance in
          let lt : edict.output < length s.allocated = ground arith in
          (
            (allocate source key balance amount edict.output s).0,
            rw (fits, inside, found, one),
            record {
              same_length =
                  length-allocate s source key balance amount edict.output (unfold Held in held)
                    covered lt
                  ∙ h;
              grants =
                  grants-allocate s source key balance amount edict.output (unfold Held in held)
                    covered lt;
              one_mint_each = allocate-Distinct source key balance amount edict.output s;
              conserves =
                  total-allocate s source key balance amount edict.output (unfold Held in held)
                    covered lt;
            },
          )
    ]
  ]
]

-- The loop over the edicts never panics. It keeps the number of outputs, and for every dune whose
-- whole amount fits a u128 (what the inputs, the open mints, the new issuance and the outputs hold
-- together) that amount is the same behind the loop, and the mints and the issuance hold no more of it;
-- and no dune gets a second entry among the mints.
pub apply_edicts-Applies :
    (outputs : List Bool) (edicts : List Edict) (s : Allocating)
    → length s.allocated ≡ length outputs
    → (s' : Allocating) × (apply_edicts outputs edicts s ≡ some s') × Applies outputs s s'
unfolding apply_edicts
apply_edicts-Applies outputs [] s h = (s, refl, Applies-refl outputs s h)
apply_edicts-Applies outputs (edict ∷ edicts) s h =
    let (s₁, e₁, a₁) = apply_edict-Applies outputs edict s h in
    let (s₂, e₂, a₂) = apply_edicts-Applies outputs edicts s₁ a₁.same_length in
    (
      s₂,
      rw (e₁, e₂),
      record {
        same_length = a₂.same_length;
        one_mint_each = λ d. a₂.one_mint_each (a₁.one_mint_each d);
        grants = λ id fits.
            omega (arith, a₁.grants id fits, a₂.grants id (rw (a₁.conserves id fits) fits));
        conserves =
            λ id fits. a₂.conserves id (rw (a₁.conserves id fits) fits) ∙ a₁.conserves id fits;
      },
    )

-- An edict whose output number is not that of an output changes nothing, also the one that names the
-- number just behind the outputs, for which the source has a branch that divides among all outputs.
pub apply_edict_outside :
    (outputs : List Bool) (edict : Edict) (s : Allocating)
    → length outputs ≤ edict.output
    → apply_edict outputs edict s ≡ some s
unfolding apply_edict
apply_edict_outside outputs edict s h = elim (Bool-cases (ltb u64_max edict.output)) [
  | inl wide ↦ rw wide
  | inr fits ↦ let out : leb (length outputs) edict.output ≡ true = ground arith in rw (fits, out)
]
