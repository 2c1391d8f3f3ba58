-- ===== src/Drc20/DecimalValue.antt =====
-- The value of the amounts that `parse_decimal` reads, and that it never panics.
use maestro_dogecoin_indexer.Prelude.{
  ℕ, zero, suc, ◌+◌, ◌-◌, ◌*◌, ◌/◌, ◌%◌, ◌^◌, ◌≤◌, ◌<◌, ◌≡◌, ◌∙◌, ap, refl, true, some, List, [],
  ◌∷◌, ◌++◌, arith, leb, ◌==◌, length, replicate, All, Bool-cases, inl, inr,
}
use native.Mathlib.Nat.{pow-suc, pow-succ', add-mul, mul-le-mul_right}
use maestro_dogecoin_indexer.Drc20.Decimal.{is_digit, parse_digits, print_loop}

-- The number that digits write behind the number `acc`
unfoldable pub decimal : ℕ → List ℕ → ℕ
decimal acc [] = acc
decimal acc (c ∷ m) = decimal (acc * 10 + (c - b'0')) m

abbrev pub Digits : List ℕ → Type 0
Digits = All (λ c. is_digit c ≡ true)

decimal-ge : (acc : ℕ) (m : List ℕ) → acc ≤ decimal acc m
unfolding decimal
decimal-ge acc [] = omega arith
decimal-ge acc (c ∷ m) = omega (arith, decimal-ge (acc * 10 + (c - b'0')) m)

-- Digits that do not overflow are read as their number.
pub parse_digits-decimal :
    (max acc : ℕ) (m : List ℕ) → decimal acc m ≤ max → parse_digits max acc m ≡ some (decimal acc m)
unfolding parse_digits decimal
parse_digits-decimal max acc [] h = refl
parse_digits-decimal max acc (c ∷ m) h =
    let fits : leb (acc * 10 + (c - b'0')) max ≡ true =
      ground (arith, decimal-ge (acc * 10 + (c - b'0')) m) in
    rw fits (parse_digits-decimal max (acc * 10 + (c - b'0')) m h)

-- A number is read back from its digits, with what follows.
pub decimal-print_loop :
    (fuel n : ℕ) (m : List ℕ) → n < 10 ^ fuel → decimal 0 (print_loop fuel n m) ≡ decimal n m
unfolding print_loop decimal
decimal-print_loop zero n m h = ap (λ (k : ℕ). decimal k m) (omega arith)
decimal-print_loop (suc fuel) n m h = elim (Bool-cases (n / 10 == 0)) [
  | inl last ↦ rw last (ap (λ (k : ℕ). decimal k m) (ground arith))
  | inr more ↦ rw more (
      decimal-print_loop fuel (n / 10) ((b'0' + n % 10) ∷ m) (omega (arith, pow-suc 10 fuel))
      ∙ ap (λ (k : ℕ). decimal k m) (omega arith))
]

pub decimal-lt : (acc : ℕ) (m : List ℕ) → Digits m → decimal acc m < (acc + 1) * 10 ^ length m
unfolding decimal
decimal-lt acc [] h = omega arith
decimal-lt acc (c ∷ m) (h, hs) =
    let d = c - b'0' in
    let small : d + 1 ≤ 10 = ground arith in
    let power = 10 ^ length m in
    omega (
      arith,
      decimal-lt (acc * 10 + d) m hs,
      add-mul (acc * 10) (d + 1) power,
      add-mul acc 1 (10 * power),
      mul-le-mul_right power small,
      ap (λ (t : ℕ). (acc + 1) * t) (pow-succ' 10 (length m)),
    )

pub decimal-append : (acc : ℕ) (m k : List ℕ) → decimal acc (m ++ k) ≡ decimal (decimal acc m) k
unfolding decimal
decimal-append acc [] k = refl
decimal-append acc (c ∷ m) k = decimal-append (acc * 10 + (c - b'0')) m k

pub decimal-zeros : (acc n : ℕ) → decimal acc (replicate n b'0') ≡ acc * 10 ^ n
unfolding decimal
decimal-zeros acc zero = omega arith
decimal-zeros acc (suc n) =
    decimal-zeros (acc * 10 + 0) n ∙ omega (arith, ap (λ (t : ℕ). acc * t) (pow-succ' 10 n))

-- The digits behind a number count on their own.
pub decimal-behind : (acc : ℕ) (m : List ℕ) → decimal acc m ≡ acc * 10 ^ length m + decimal 0 m
unfolding decimal
decimal-behind acc [] = omega arith
decimal-behind acc (c ∷ m) =
    let d = c - b'0' in
    let power = 10 ^ length m in
    omega (
      arith,
      decimal-behind (acc * 10 + d) m,
      decimal-behind (0 * 10 + d) m,
      add-mul (0 * 10) d power,
      add-mul (acc * 10) d power,
      ap (λ (t : ℕ). acc * t) (pow-succ' 10 (length m)),
    )
