-- ===== src/Drc20/Bounds.antt =====
-- `parse_decimal` and the parsers of actions (services/compressor-xdg/src/storage/inscriptions/brc20.rs) on
-- every text.
use maestro_dogecoin_indexer.Prelude.{
  ℕ, ◌+◌, ◌-◌, ◌*◌, ◌/◌, ◌%◌, ◌^◌, ◌≤◌, ◌≡◌, ◌∙◌, ap, sym, refl, true, false, ◌||◌, some, some_inj,
  List, [], ◌∷◌, ◌++◌, arith, ltb, leb, ◌==◌, length, All, Bool-cases, Option-cases, inl, inr,
}
use native.Mathlib.Nat.{mul-le-mul, pow-le-pow_right}
use maestro_dogecoin_indexer.Prelude.Words.{u64_max, u128_max, checked_mul}
use maestro_dogecoin_indexer.Drc20.Decimal.{
  Parsed, rejected, parsed, is_digit, dot, any_other, starts_with_dot, ends_with_dot, split_dots,
  parse_digits, parse, print_loop, with_decimal, parse_parts, parse_decimal, push_char, unwrap,
}
use maestro_dogecoin_indexer.Drc20.DecimalValue.{decimal, Digits, decimal-print_loop}
use maestro_dogecoin_indexer.Drc20.DecimalParts.{zeros, filled-le, parse_one, print_loop_first}

-- A text without other characters splits into digits.
push_digit :
    (c : ℕ) (parts : List (List ℕ))
    → is_digit c ≡ true
    → All Digits parts
    → All Digits (push_char c parts)
unfolding push_char
push_digit c [] h k = ((h, tt), tt)
push_digit c (part ∷ parts) h (k, ks) = ((h, k), ks)

split_dots-Digits : (m : List ℕ) → any_other m ≡ false → All Digits (split_dots m)
unfolding split_dots any_other
split_dots-Digits [] h = (tt, tt)
split_dots-Digits (c ∷ m) h =
    let rest = split_dots-Digits m (ground (arith, h)) in
    elim (Bool-cases (c == dot)) [
      | inl here ↦ rw here (tt, rest)
      | inr other ↦ rw other (push_digit c (split_dots m) (ground (arith, h)) rest)
    ]

parse_digits-le :
    (max acc n : ℕ) (m : List ℕ) → acc ≤ max → parse_digits max acc m ≡ some n → n ≤ max
unfolding parse_digits
parse_digits-le max acc n [] h e = omega (arith, some_inj e)
parse_digits-le max acc n (c ∷ m) h e = elim (Bool-cases (leb (acc * 10 + (c - b'0')) max)) [
  | inl fits ↦ parse_digits-le max (acc * 10 + (c - b'0')) n m (ground arith) (rw fits at e)
  | inr over ↦ absurd (cc (rw over at e))
]

parse-le : (max n : ℕ) (m : List ℕ) → parse max m ≡ some n → n ≤ max
unfolding parse
parse-le max n [] e = cc
parse-le max n (c ∷ m) e = parse_digits-le max 0 n (c ∷ m) (omega arith) e

-- An answer that is no panic, and fits a u128.
pub data Answers : Parsed ℕ → Type 0 where
  refuses : Answers rejected
  gives : (n : ℕ) → n ≤ u128_max → Answers (parsed n)

printed_first : (n : ℕ) (m : List ℕ) → (c : ℕ) × (k : List ℕ) × (print_loop 20 n m ≡ c ∷ k)
unfolding print_loop
printed_first n m = elim (Bool-cases (n / 10 == 0)) [
  | inl last ↦ (b'0' + n % 10, m, rw last refl)
  | inr more ↦ let (c, k, e) = print_loop_first 19 (n / 10) (b'0' + n % 10) m in (c, k, rw more e)
]

with_decimal-Answers :
    (dec n : ℕ) (m : List ℕ) → Digits m → dec ≤ 18 → n ≤ u64_max → Answers (with_decimal dec n m)
unfolding with_decimal
with_decimal-Answers dec n m digits small fits = elim (Bool-cases (ltb dec (length m))) [
  | inl long ↦ rw long refuses
  | inr short ↦
      let text = m ++ zeros dec m in
      let (c, k, e) = printed_first n text in
      let bound = filled-le dec n m digits (ground arith) small fits in
      let value : decimal 0 (c ∷ k) ≡ decimal n text =
        ap (decimal 0) (sym e) ∙ decimal-print_loop 20 n text (omega arith) in
      let read : parse u128_max (print_loop 20 n text) ≡ some (decimal 0 (c ∷ k)) =
        ap (parse u128_max) e ∙ parse_one u128_max c k (omega (arith, value, bound)) in
      rw (short, read) (gives (decimal 0 (c ∷ k)) (omega (arith, value, bound)))
]

whole-Answers :
    (dec n : ℕ) → dec ≤ 18 → n ≤ u64_max → Answers (unwrap (checked_mul n (10 ^ dec % 2 ^ 128)))
unfolding unwrap
whole-Answers dec n small fits =
    let power : 10 ^ dec ≤ 10 ^ 18 =
      pow-le-pow_right {n = 10} (omega arith) {i = dec} {j = 18} small in
    let product : n * 10 ^ dec ≤ u64_max * 10 ^ 18 = mul-le-mul fits power in
    let exact : 10 ^ dec % 2 ^ 128 ≡ 10 ^ dec = omega arith in
    let no_overflow : leb (n * 10 ^ dec) u128_max ≡ true = ground (arith, product) in
    rw (exact, no_overflow) (gives (n * 10 ^ dec) (omega (arith, product)))

parse_parts-Answers :
    (dec : ℕ) (parts : List (List ℕ))
    → All Digits parts
    → dec ≤ 18
    → Answers (parse_parts dec parts)
unfolding parse_parts
parse_parts-Answers dec [] h small = refuses
parse_parts-Answers dec (m ∷ []) h small = elim (Option-cases (parse u64_max m)) [
  | inl bad ↦ rw (bad, parse_parts) refuses
  | inr (n, e) ↦ rw (e, parse_parts) (whole-Answers dec n small (parse-le u64_max n m e))
]
parse_parts-Answers dec (m ∷ k ∷ []) (h, (hk, _)) small = elim (Option-cases (parse u64_max m)) [
  | inl bad ↦ rw (bad, parse_parts) refuses
  | inr (n, e) ↦
      rw (e, parse_parts) (with_decimal-Answers dec n k hk small (parse-le u64_max n m e))
]
parse_parts-Answers dec (m ∷ k ∷ l ∷ parts) h small = refuses

-- With at most 18 decimals, `parse_decimal` panics on no text: it refuses, or gives an amount that fits a
-- u128.
pub parse_decimal-Answers : (m : List ℕ) (dec : ℕ) → dec ≤ 18 → Answers (parse_decimal m dec)
unfolding parse_decimal
parse_decimal-Answers m dec small = elim (Bool-cases (any_other m)) [
  | inl other ↦ rw other refuses
  | inr clean ↦ elim (Bool-cases (starts_with_dot m || ends_with_dot m)) [
    | inl outer ↦ rw (clean, outer) refuses
    | inr inner ↦
        rw (clean, inner) (parse_parts-Answers dec (split_dots m) (split_dots-Digits m clean) small)
  ]
]
