-- ===== src/Prelude/Maps.antt =====
-- HashMap<u128, V> as an association list; `iter` goes through the list in order.
use Prim.Native.Nat.{ℕ}
use mathlib.Core.Path.{◌≡◌, refl, subst}
use mathlib.Core.Bool.{false}
use mathlib.Core.Option.{Option, none, some}
use mathlib.Core.List.{List, [], ◌∷◌, ◌++◌}
use native.Mathlib.Omega.{arith}
use maestro_dogecoin_indexer.Prelude.Tests.{◌==◌, if◌then◌else◌, or_else, Bool-cases, ==_iff}
use mathlib.Core.Logic.{inl, inr}
use maestro_dogecoin_indexer.Prelude.Lists.{All}

module _ {ℓ} {V : Type ℓ} where
  abbrev pub lookup : ℕ → List (ℕ × V) → Option V
  lookup k [] = none
  lookup k ((j, v) ∷ m) = if j == k then some v else lookup k m

  abbrev pub insert : ℕ → V → List (ℕ × V) → List (ℕ × V)
  insert k v [] = (k, v) ∷ []
  insert k v ((j, w) ∷ m) = if j == k then (k, v) ∷ m else (j, w) ∷ insert k v m

  abbrev pub remove : ℕ → List (ℕ × V) → List (ℕ × V)
  remove k [] = []
  remove k ((j, w) ∷ m) = let rest = remove k m in if j == k then rest else (j, w) ∷ rest

  pub lookup-insert :
      (k j : ℕ) (v : V) (m : List (ℕ × V))
      → lookup j (insert k v m) ≡ (if k == j then some v else lookup j m)
  lookup-insert k j v [] = refl
  lookup-insert k j v ((i, w) ∷ m) = ground (arith, lookup-insert k j v m)

  pub lookup-remove :
      (k j : ℕ) (m : List (ℕ × V)) → lookup j (remove k m) ≡ (if k == j then none else lookup j m)
  lookup-remove k j [] = ground arith
  lookup-remove k j ((i, w) ∷ m) = ground (arith, lookup-remove k j m)

  pub lookup-snoc :
      (k j : ℕ) (v : V) (m : List (ℕ × V))
      → lookup j (m ++ (k, v) ∷ []) ≡ or_else (lookup j m) (if k == j then some v else none)
  lookup-snoc k j v [] = refl
  lookup-snoc k j v ((i, w) ∷ m) = ground (arith, lookup-snoc k j v m)

  -- No entry has this key.
  abbrev pub Missing : ℕ → List (ℕ × V) → Type 0
  Missing k = All (λ (e : ℕ × V). (e.0 == k) ≡ false)

  -- No key has two entries.
  abbrev pub Distinct : List (ℕ × V) → Type 0
  Distinct [] = Unit
  Distinct ((k, v) ∷ m) = Missing k m × Distinct m

  insert-Missing :
      (k j : ℕ) (v : V) (m : List (ℕ × V))
      → (k == j) ≡ false
      → Missing j m
      → Missing j (insert k v m)
  insert-Missing k j v [] ne h = (ne, tt)
  insert-Missing k j v ((i, w) ∷ m) ne (h, hs) = elim (Bool-cases (i == k)) [
    | inl same ↦ rw same (ne, hs)
    | inr other ↦ rw other (h, insert-Missing k j v m ne hs)
  ]

  pub insert-Distinct : (k : ℕ) (v : V) (m : List (ℕ × V)) → Distinct m → Distinct (insert k v m)
  insert-Distinct k v [] h = (tt, tt)
  insert-Distinct k v ((i, w) ∷ m) (h, hs) = elim (Bool-cases (i == k)) [
    | inl same ↦ rw same (subst (λ (x : ℕ). Missing x m) ((==_iff i k).0 same) h, hs)
    | inr other ↦ rw other (insert-Missing k i v m (ground arith) h, insert-Distinct k v m hs)
  ]
