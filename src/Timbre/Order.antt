-- ===== src/Timbre/Order.antt =====
-- The byte order of the encodings: a `VarUInt` of crates/timbre-xbt keeps the order of its numbers.
use maestro_dogecoin_indexer.Prelude.{
  ℕ, zero, suc, ◌+◌, ◌*◌, ◌/◌, ◌%◌, ◌^◌, ◌≤◌, ◌<◌, ◌≡◌, ap, Bool, true, false, ◌&&◌, ◌||◌, List, [],
  ◌∷◌, ◌++◌, arith, ltb, ◌==◌, ==_iff, Bool-cases, inl, inr,
}
use native.Mathlib.Nat.{add-mul, div-lt_iff_lt-mul, div-eq_of_lt, mod-eq_of_lt}
use maestro_dogecoin_indexer.Prelude.Words.{u128_max}
use maestro_dogecoin_indexer.Timbre.Bytes.{be_bytes, length-be_bytes, power_pos, first_byte}
use maestro_dogecoin_indexer.Timbre.Codec.{varuint, varuint_loop}

-- The order of byte strings
unfoldable pub lex_ltb : List ℕ → List ℕ → Bool
lex_ltb [] [] = false
lex_ltb [] (b ∷ ys) = true
lex_ltb (a ∷ xs) [] = false
lex_ltb (a ∷ xs) (b ∷ ys) = let rest = lex_ltb xs ys in ltb a b || ((a == b) && rest)

lex_less : (a b : ℕ) (xs ys : List ℕ) → a < b → lex_ltb (a ∷ xs) (b ∷ ys) ≡ true
unfolding lex_ltb
lex_less a b xs ys h = ground arith

lex_same :
    (a b : ℕ) (xs ys : List ℕ) → a ≡ b → lex_ltb xs ys ≡ true → lex_ltb (a ∷ xs) (b ∷ ys) ≡ true
unfolding lex_ltb
lex_same a b xs ys e h = ground arith

first_byte_le : (n x y : ℕ) → x < y → x / 256 ^ n < y / 256 ^ n + 1
first_byte_le n x y h =
    let (whole, low) = first_byte n y in
    (div-lt_iff_lt-mul {k = 256 ^ n} {x = x} {y = y / 256 ^ n + 1} (power_pos n)).1
      (omega (arith, whole, low, add-mul (y / 256 ^ n) 1 (256 ^ n)))

-- Big-endian bytes keep the order, whatever follows.
be_bytes_order :
    (n x y : ℕ) (r s : List ℕ)
    → x < y
    → y < 256 ^ n
    → lex_ltb (be_bytes n x ++ r) (be_bytes n y ++ s) ≡ true
unfolding be_bytes
be_bytes_order zero x y r s h bound = absurd (omega arith)
be_bytes_order (suc n) x y r s h bound =
    let (whole_x, low_x) = first_byte n x in
    let (whole_y, low_y) = first_byte n y in
    elim (Bool-cases (x / 256 ^ n == y / 256 ^ n)) [
      | inl same ↦
          let e : x / 256 ^ n ≡ y / 256 ^ n = (==_iff _ _).0 same in
          lex_same (x / 256 ^ n) (y / 256 ^ n) _ _ e (
            be_bytes_order n (x % 256 ^ n) (y % 256 ^ n) r s
              (omega (arith, whole_x, whole_y, h, ap (λ (q : ℕ). q * 256 ^ n) e)) low_y)
      | inr other ↦ lex_less (x / 256 ^ n) (y / 256 ^ n) _ _ (ground (arith, first_byte_le n x y h))
    ]

-- The first byte of a `VarUInt` is the number of its other bytes.
short_first :
    (n m x : ℕ) (r ys : List ℕ) → n < m → lex_ltb (varuint_loop (be_bytes n x) ++ r) (m ∷ ys) ≡ true
unfolding varuint_loop be_bytes
short_first zero m x r ys h = lex_less 0 m r ys h
short_first (suc n) m x r ys h = elim (Bool-cases (x / 256 ^ n == 0)) [
  | inl zero_byte ↦ rw zero_byte (short_first n m (x % 256 ^ n) r ys (omega arith))
  | inr some_byte ↦ rw some_byte (lex_less _ _ _ _ (omega (arith, length-be_bytes n (x % 256 ^ n))))
]

-- A number whose first byte is zero is the number of the others.
zero_first : (n x : ℕ) → (x / 256 ^ n == 0) ≡ true → x % 256 ^ n ≡ x
zero_first n x h =
    let (whole, low) = first_byte n x in
    omega (arith, whole, ap (λ (q : ℕ). q * 256 ^ n) ((==_iff (x / 256 ^ n) 0).0 h))

varuint_loop_order :
    (n x y : ℕ) (r s : List ℕ)
    → x < y
    → y < 256 ^ n
    → lex_ltb (varuint_loop (be_bytes n x) ++ r) (varuint_loop (be_bytes n y) ++ s) ≡ true
unfolding varuint_loop be_bytes
varuint_loop_order zero x y r s h bound = absurd (omega arith)
varuint_loop_order (suc n) x y r s h bound =
    let (whole_x, low_x) = first_byte n x in
    let (whole_y, low_y) = first_byte n y in
    elim (Bool-cases (y / 256 ^ n == 0)) [
      | inl y_zero ↦
          let y_short = zero_first n y y_zero in
          let x_short : x % 256 ^ n ≡ x = mod-eq_of_lt (omega (arith, low_y, y_short)) in
          let x_zero : (x / 256 ^ n == 0) ≡ true =
            (==_iff (x / 256 ^ n) 0).1 (div-eq_of_lt (omega (arith, low_y, y_short))) in
          rw (x_zero, y_zero)
            (varuint_loop_order n (x % 256 ^ n) (y % 256 ^ n) r s (omega (arith, x_short, y_short))
              low_y)
      | inr y_long ↦ elim (Bool-cases (x / 256 ^ n == 0)) [
        | inl x_zero ↦
            rw (x_zero, y_long)
              (short_first n _ (x % 256 ^ n) r _ (omega (arith, length-be_bytes n (y % 256 ^ n))))
        | inr x_long ↦
            rw (x_long, y_long)
              (lex_same _ _ _ _
                (omega (arith, length-be_bytes n (x % 256 ^ n), length-be_bytes n (y % 256 ^ n)))
                (be_bytes_order (suc n) x y r s h bound))
      ]
    ]

-- Rows whose keys go on with a `VarUInt` lie in the order of its numbers: the bytes of a smaller number come
-- first, whatever follows both of them.
pub varuint_order :
    (x y : ℕ) (r s : List ℕ)
    → x < y
    → y ≤ u128_max
    → lex_ltb (varuint.encode x ++ r) (varuint.encode y ++ s) ≡ true
unfolding varuint
varuint_order x y r s h bound = varuint_loop_order 16 x y r s h (omega arith)
