-- ===== src/Prelude/Lists.antt =====
-- Lists measured and indexed by native numbers, under the library's names.
use Prim.Native.Nat.{ℕ, zero, suc, ◌+◌, ◌-◌, ◌≤◌, min}
use mathlib.Core.Path.{◌≡◌, ◌∙◌, refl, ap}
use mathlib.Core.List.{List, [], ◌∷◌, ◌++◌}
use mathlib.Core.Option.{Option, none, some}
use native.Mathlib.Omega.{arith}

module _ {ℓ} {A : Type ℓ} where
  abbrev pub length : List A → ℕ
  length [] = 0
  length (x ∷ xs) = suc (length xs)

  abbrev pub get_elem? : List A → ℕ → Option A
  get_elem? [] i = none
  get_elem? (x ∷ xs) zero = some x
  get_elem? (x ∷ xs) (suc i) = get_elem? xs i

  abbrev pub take : ℕ → List A → List A
  take zero xs = []
  take (suc n) [] = []
  take (suc n) (x ∷ xs) = x ∷ take n xs

  abbrev pub drop : ℕ → List A → List A
  drop zero xs = xs
  drop (suc n) [] = []
  drop (suc n) (x ∷ xs) = drop n xs

  abbrev pub replicate : ℕ → A → List A
  replicate zero a = []
  replicate (suc n) a = a ∷ replicate n a

  pub length-append : (xs ys : List A) → length (xs ++ ys) ≡ length xs + length ys
  length-append [] ys = omega arith
  length-append (x ∷ xs) ys = omega (arith, length-append xs ys)

module _ {ℓ} {A : Type ℓ} where
  pub take_all : (n : ℕ) (xs : List A) → length xs ≤ n → take n xs ≡ xs
  take_all zero [] h = refl
  take_all zero (x ∷ xs) h = absurd (omega arith)
  take_all (suc n) [] h = refl
  take_all (suc n) (x ∷ xs) h = ap (λ (ys : List A). x ∷ ys) (take_all n xs (omega arith))

  pub take-take-suc : (n : ℕ) (xs : List A) → take n (take (suc n) xs) ≡ take n xs
  take-take-suc zero xs = refl
  take-take-suc (suc n) [] = refl
  take-take-suc (suc n) (x ∷ xs) = ap (λ (ys : List A). x ∷ ys) (take-take-suc n xs)

  pub take-take_append :
      (n : ℕ) (xs ys : List A) → length xs ≤ n → take (length xs) (take n (xs ++ ys)) ≡ xs
  take-take_append n [] ys h = refl
  take-take_append zero (x ∷ xs) ys h = absurd (omega arith)
  take-take_append (suc n) (x ∷ xs) ys h =
      ap (λ (zs : List A). x ∷ zs) (take-take_append n xs ys (omega arith))

  pub drop-take_append :
      (n : ℕ) (xs ys : List A)
      → length xs ≤ n
      → drop (length xs) (take n (xs ++ ys)) ≡ take (n - length xs) ys
  drop-take_append n [] ys h = ap (λ (k : ℕ). take k ys) (omega arith)
  drop-take_append zero (x ∷ xs) ys h = absurd (omega arith)
  drop-take_append (suc n) (x ∷ xs) ys h =
      drop-take_append n xs ys (omega arith) ∙ ap (λ (k : ℕ). take k ys) (omega arith)

  pub drop-append : (n : ℕ) (xs ys : List A) → n ≤ length xs → drop n (xs ++ ys) ≡ drop n xs ++ ys
  drop-append zero xs ys h = refl
  drop-append (suc n) [] ys h = absurd (omega arith)
  drop-append (suc n) (x ∷ xs) ys h = drop-append n xs ys (omega arith)

  pub take-append-drop : (n : ℕ) (xs : List A) → take n xs ++ drop n xs ≡ xs
  take-append-drop zero xs = refl
  take-append-drop (suc n) [] = refl
  take-append-drop (suc n) (x ∷ xs) = rw (take-append-drop n xs)

  pub length-take : (n : ℕ) (xs : List A) → length (take n xs) ≡ min n (length xs)
  length-take zero xs = omega arith
  length-take (suc n) [] = omega arith
  length-take (suc n) (x ∷ xs) = omega (arith, length-take n xs)

  pub length-drop : (n : ℕ) (xs : List A) → length (drop n xs) ≡ length xs - n
  length-drop zero xs = omega arith
  length-drop (suc n) [] = omega arith
  length-drop (suc n) (x ∷ xs) = omega (arith, length-drop n xs)

  pub length-replicate : (n : ℕ) (a : A) → length (replicate n a) ≡ n
  length-replicate zero a = refl
  length-replicate (suc n) a = ap suc (length-replicate n a)

  -- A slice of a list that starts with `xs` is cut behind `xs`.
  pub take_prefix : (n : ℕ) (xs ys : List A) → length xs ≡ n → take n (xs ++ ys) ≡ xs
  take_prefix zero [] ys h = refl
  take_prefix zero (x ∷ xs) ys h = absurd (omega arith)
  take_prefix (suc n) [] ys h = absurd (omega arith)
  take_prefix (suc n) (x ∷ xs) ys h = ap (λ l. x ∷ l) (take_prefix n xs ys (omega arith))

  pub drop_prefix : (n : ℕ) (xs ys : List A) → length xs ≡ n → drop n (xs ++ ys) ≡ ys
  drop_prefix zero [] ys h = refl
  drop_prefix zero (x ∷ xs) ys h = absurd (omega arith)
  drop_prefix (suc n) [] ys h = absurd (omega arith)
  drop_prefix (suc n) (x ∷ xs) ys h = drop_prefix n xs ys (omega arith)

  abbrev pub All {κ} : (A → Type κ) → List A → Type κ
  All P [] = Unit {κ}
  All P (x ∷ xs) = P x × All P xs

pub All-append {ℓ κ} :
    {A : Type ℓ} (P : A → Type κ) (xs ys : List A) → All P xs → All P ys → All P (xs ++ ys)
All-append P [] ys h k = k
All-append P (x ∷ xs) ys (h, hs) k = (h, All-append P xs ys hs k)
