-- ===== src/Drc20/Decimal.antt =====
-- `parse_decimal` of services/compressor-xdg/src/storage/inscriptions/brc20.rs. Texts are lists of code points.
use maestro_dogecoin_indexer.Prelude.{
  ℕ, zero, suc, ◌+◌, ◌-◌, ◌*◌, ◌/◌, ◌%◌, ◌^◌, Bool, false, not, ◌&&◌, ◌||◌, Option, none, some,
  List, [], ◌∷◌, ◌++◌, ltb, leb, ◌==◌, if◌then◌else◌, length, replicate,
}
use maestro_dogecoin_indexer.Prelude.Words.{u64_max, u128_max, checked_mul}

-- `Option`, with a panic as a third case.
pub data Parsed (A : Type 0) : Type 0 where
  rejected panicked : Parsed A
  parsed : A → Parsed A

abbrev pub is_digit : ℕ → Bool
is_digit c = leb b'0' c && leb c b'9'

abbrev pub dot : ℕ
dot = b'.'

-- `chars().any(|c| !NUMBERS_AND_DOT.contains(c))`
unfoldable pub any_other : List ℕ → Bool
any_other [] = false
any_other (c ∷ m) = let rest = any_other m in not (is_digit c || (c == dot)) || rest

unfoldable pub starts_with_dot : List ℕ → Bool
starts_with_dot [] = false
starts_with_dot (c ∷ m) = c == dot

unfoldable pub ends_with_dot : List ℕ → Bool
ends_with_dot [] = false
ends_with_dot (c ∷ []) = c == dot
ends_with_dot (c ∷ d ∷ m) = ends_with_dot (d ∷ m)

-- `split(".")`
unfoldable pub push_char : ℕ → List (List ℕ) → List (List ℕ)
push_char c [] = (c ∷ []) ∷ []
push_char c (part ∷ parts) = (c ∷ part) ∷ parts

unfoldable pub split_dots : List ℕ → List (List ℕ)
unfolding push_char
split_dots [] = [] ∷ []
split_dots (c ∷ m) = let parts = split_dots m in if c == dot then [] ∷ parts else push_char c parts

-- `parse` into an unsigned integer with this largest value, of a text of digits: no digit at all and an
-- overflow are errors.
unfoldable pub parse_digits : ℕ → ℕ → List ℕ → Option ℕ
parse_digits max acc [] = some acc
parse_digits max acc (c ∷ m) =
    let n = acc * 10 + (c - b'0') in
    let rest = parse_digits max n m in if leb n max then rest else none

unfoldable pub parse : ℕ → List ℕ → Option ℕ
unfolding parse_digits
parse max [] = none
parse max (c ∷ m) = parse_digits max 0 (c ∷ m)

-- `format!("{}", n)`, whose fuel is a bound of the number of digits, in front of other text.
unfoldable pub print_loop : ℕ → ℕ → List ℕ → List ℕ
print_loop zero n text = text
print_loop (suc fuel) n text =
    let longer = (b'0' + n % 10) ∷ text in
    let rest = print_loop fuel (n / 10) longer in if n / 10 == 0 then longer else rest

-- `unwrap`
unfoldable pub unwrap : Option ℕ → Parsed ℕ
unwrap none = panicked
unwrap (some n) = parsed n

-- The decimal part, filled up with zeros; a u64 has at most 20 digits.
unfoldable pub with_decimal : ℕ → ℕ → List ℕ → Parsed ℕ
unfolding parse print_loop unwrap
with_decimal dec integer decimal_part =
    if ltb dec (length decimal_part)
    then rejected
    else unwrap (
        parse u128_max
          (print_loop 20 integer (decimal_part ++ replicate (dec - length decimal_part) b'0')))

unfoldable pub parse_parts : ℕ → List (List ℕ) → Parsed ℕ
unfolding parse unwrap with_decimal
parse_parts dec (integer_part ∷ []) = elim (parse u64_max integer_part) [
  | none ↦ rejected
  | some integer ↦ unwrap (checked_mul integer (10 ^ dec % 2 ^ 128))
]
parse_parts dec (integer_part ∷ decimal_part ∷ []) = elim (parse u64_max integer_part) [
  | none ↦ rejected
  | some integer ↦ with_decimal dec integer decimal_part
]
parse_parts dec _ = rejected

unfoldable pub parse_decimal : List ℕ → ℕ → Parsed ℕ
unfolding any_other starts_with_dot ends_with_dot split_dots parse_parts
parse_decimal m dec =
    if any_other m
    then rejected
    else if starts_with_dot m || ends_with_dot m
    then rejected
    else parse_parts dec (split_dots m)
