-- ===== src/Drc20/DecimalParts.antt =====
-- The tests and the split of `parse_decimal` on digits around one dot, and its answer there.
use maestro_dogecoin_indexer.Prelude.{
  ℕ, zero, suc, ◌+◌, ◌-◌, ◌*◌, ◌/◌, ◌%◌, ◌^◌, ◌≤◌, ◌≡◌, ◌∙◌, ap, sym, refl, true, false, some, List,
  [], ◌∷◌, ◌++◌, arith, ltb, ◌==◌, length, replicate, Bool-cases, inl, inr, length-append,
  length-replicate, All-append,
}
use native.Mathlib.Nat.{mul-le-mul, pow-le-pow_right}
use maestro_dogecoin_indexer.Prelude.Words.{u64_max, u128_max}
use maestro_dogecoin_indexer.Drc20.Decimal.{
  parsed, is_digit, dot, any_other, starts_with_dot, ends_with_dot, split_dots, parse, print_loop,
  with_decimal, parse_parts, parse_decimal,
}
use maestro_dogecoin_indexer.Drc20.DecimalValue.{
  decimal, Digits, decimal-lt, parse_digits-decimal, decimal-print_loop, decimal-append,
  decimal-zeros, decimal-behind,
}

-- The test for other characters, the two tests for dots, and the split, on digits around one dot.
other_behind : (m k : List ℕ) → Digits m → any_other (m ++ (dot ∷ k)) ≡ any_other k
unfolding any_other
other_behind [] k h = ground arith
other_behind (c ∷ m) k (h, hs) = rw h (other_behind m k hs)

no_other : (m : List ℕ) → Digits m → any_other m ≡ false
unfolding any_other
no_other [] h = refl
no_other (c ∷ m) (h, hs) = rw h (no_other m hs)

digit_no_dot : (c : ℕ) → is_digit c ≡ true → (c == dot) ≡ false
digit_no_dot c h = ground arith

split_none : (m : List ℕ) → Digits m → split_dots m ≡ m ∷ []
unfolding split_dots
split_none [] h = refl
split_none (c ∷ m) (h, hs) = rw (digit_no_dot c h, split_none m hs) refl

split_at_dot : (m k : List ℕ) → Digits m → Digits k → split_dots (m ++ (dot ∷ k)) ≡ m ∷ k ∷ []
unfolding split_dots
split_at_dot [] k h hk = rw (split_none k hk) refl
split_at_dot (c ∷ m) k (h, hs) hk = rw (digit_no_dot c h, split_at_dot m k hs hk) refl

ends_in_no_dot : (c : ℕ) (k : List ℕ) → Digits (c ∷ k) → ends_with_dot (c ∷ k) ≡ false
unfolding ends_with_dot
ends_in_no_dot c [] (h, hs) = digit_no_dot c h
ends_in_no_dot c (d ∷ k) (h, hs) = ends_in_no_dot d k hs

ends_behind_dot :
    (m : List ℕ) (c : ℕ) (k : List ℕ) → Digits (c ∷ k) → ends_with_dot (m ++ (dot ∷ c ∷ k)) ≡ false
unfolding ends_with_dot
ends_behind_dot [] c k h = ends_in_no_dot c k h
ends_behind_dot (x ∷ []) c k h = ends_in_no_dot c k h
ends_behind_dot (x ∷ y ∷ m) c k h = ends_behind_dot (y ∷ m) c k h

pub parse_one :
    (max c : ℕ) (m : List ℕ)
    → decimal 0 (c ∷ m) ≤ max
    → parse max (c ∷ m) ≡ some (decimal 0 (c ∷ m))
unfolding parse
parse_one max c m h = parse_digits-decimal max 0 (c ∷ m) h

-- Printed digits are a text that is not empty.
pub print_loop_first :
    (fuel n x : ℕ) (m : List ℕ) → (c : ℕ) × (k : List ℕ) × (print_loop fuel n (x ∷ m) ≡ c ∷ k)
unfolding print_loop
print_loop_first zero n x m = (x, m, refl)
print_loop_first (suc fuel) n x m = elim (Bool-cases (n / 10 == 0)) [
  | inl last ↦ (b'0' + n % 10, x ∷ m, rw last refl)
  | inr more ↦
      let (c, k, e) = print_loop_first fuel (n / 10) (b'0' + n % 10) (x ∷ m) in (c, k, rw more e)
]

parse_printed :
    (n x : ℕ) (m : List ℕ)
    → n ≤ u64_max
    → decimal n (x ∷ m) ≤ u128_max
    → parse u128_max (print_loop 20 n (x ∷ m)) ≡ some (decimal n (x ∷ m))
parse_printed n x m h fits =
    let (c, k, e) = print_loop_first 20 n x m in
    let value : decimal 0 (c ∷ k) ≡ decimal n (x ∷ m) =
      ap (decimal 0) (sym e) ∙ decimal-print_loop 20 n (x ∷ m) (omega arith) in
    ap (parse u128_max) e ∙ parse_one u128_max c k (omega (arith, value)) ∙ ap some value

pub zeros-Digits : (n : ℕ) → Digits (replicate n b'0')
zeros-Digits zero = tt
zeros-Digits (suc n) = (refl, zeros-Digits n)

-- The zeros that fill up a decimal part.
abbrev pub zeros : ℕ → List ℕ → List ℕ
zeros dec m = replicate (dec - length m) b'0'

filled_length : (dec : ℕ) (m : List ℕ) → length m ≤ dec → length (m ++ zeros dec m) ≡ dec
filled_length dec m h =
    let fill : length (zeros dec m) ≡ dec - length m = length-replicate (dec - length m) _ in
    omega (arith, length-append m (zeros dec m), fill)

filled :
    (dec n : ℕ) (m : List ℕ)
    → length m ≤ dec
    → decimal n (m ++ zeros dec m) ≡ n * 10 ^ dec + decimal 0 m * 10 ^ (dec - length m)
filled dec n m h =
    let power : n * 10 ^ length (m ++ zeros dec m) ≡ n * 10 ^ dec =
      ap (λ (t : ℕ). n * 10 ^ t) (filled_length dec m h) in
    omega (
      arith,
      power,
      decimal-behind n (m ++ zeros dec m),
      decimal-append 0 m (zeros dec m),
      decimal-zeros (decimal 0 m) (dec - length m),
    )

pub filled-le :
    (dec n : ℕ) (m : List ℕ)
    → Digits m
    → length m ≤ dec
    → dec ≤ 18
    → n ≤ u64_max
    → decimal n (m ++ zeros dec m) ≤ u128_max
filled-le dec n m digits h small fits =
    let text = m ++ zeros dec m in
    let short : length text ≤ 18 = omega (arith, filled_length dec m h) in
    let power : 10 ^ length text ≤ 10 ^ 18 =
      pow-le-pow_right {n = 10} (omega arith) {i = length text} {j = 18} short in
    let bound : n + 1 ≤ 2 ^ 64 = omega arith in
    let digit : ℕ → Type 0 = λ c. is_digit c ≡ true in
    omega (
      arith,
      decimal-lt n text (All-append digit m (zeros dec m) digits (zeros-Digits (dec - length m))),
      mul-le-mul bound power,
    )

parse_decimal_parts :
    (text : List ℕ) (dec : ℕ) (parts : List (List ℕ))
    → any_other text ≡ false
    → starts_with_dot text ≡ false
    → ends_with_dot text ≡ false
    → split_dots text ≡ parts
    → parse_decimal text dec ≡ parse_parts dec parts
unfolding parse_decimal
parse_decimal_parts text dec parts other first last split = rw (other, first, last, split) refl

two_parts :
    (dec n d : ℕ) (m k : List ℕ)
    → parse u64_max m ≡ some n
    → Digits (d ∷ k)
    → n ≤ u64_max
    → length (d ∷ k) ≤ dec
    → dec ≤ 18
    → parse_parts dec (m ∷ (d ∷ k) ∷ [])
      ≡ parsed (n * 10 ^ dec + decimal 0 (d ∷ k) * 10 ^ (dec - length (d ∷ k)))
unfolding parse_parts with_decimal
two_parts dec n d m k whole decimals fits short small =
    let long : ltb dec (length (d ∷ k)) ≡ false = ground arith in
    let printed =
      parse_printed n d (k ++ zeros dec (d ∷ k)) fits
        (filled-le dec n (d ∷ k) decimals short small fits) in
    rw (whole, parse_parts, long, printed) (ap parsed (filled dec n (d ∷ k) short))

-- Digits, at least one, then a dot and one to `dec` digits, with an integer part that fits a u64 and at most
-- 18 decimals, are read as the integer part times ten to the decimals, plus the decimal part filled up with
-- zeros to the decimals.
pub parse_decimal_lem :
    (dec c d : ℕ) (m k : List ℕ)
    → Digits (c ∷ m)
    → Digits (d ∷ k)
    → decimal 0 (c ∷ m) ≤ u64_max
    → length (d ∷ k) ≤ dec
    → dec ≤ 18
    → parse_decimal ((c ∷ m) ++ (dot ∷ d ∷ k)) dec
      ≡ parsed (decimal 0 (c ∷ m) * 10 ^ dec + decimal 0 (d ∷ k) * 10 ^ (dec - length (d ∷ k)))
unfolding starts_with_dot any_other
parse_decimal_lem dec c d m k digits decimals fits short small =
    parse_decimal_parts ((c ∷ m) ++ (dot ∷ d ∷ k)) dec ((c ∷ m) ∷ (d ∷ k) ∷ [])
      (other_behind (c ∷ m) (d ∷ k) digits ∙ no_other (d ∷ k) decimals) (digit_no_dot c digits.0)
      (ends_behind_dot (c ∷ m) d k decimals) (split_at_dot (c ∷ m) (d ∷ k) digits decimals)
    ∙ two_parts dec (decimal 0 (c ∷ m)) d (c ∷ m) k (parse_one u64_max c m fits) decimals fits short
        small
