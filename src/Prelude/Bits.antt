-- ===== src/Prelude/Bits.antt =====
-- Bit operations at variables, by tables on a byte and by the recursion on binary digits.
use Prim.Native.Nat.{
  ℕ, zero, suc, ◌+◌, ◌*◌, ◌/◌, ◌%◌, ◌^◌, ◌≤◌, ◌<◌, min, max, bit_and, bit_or, digits,
  bit_and-bitwise, bit_or-bitwise,
}
use mathlib.Core.Path.{◌≡◌, refl, ap, ◌∙◌}
use mathlib.Core.Bool.{Bool, true, ◌&&◌}
use native.Mathlib.Nat.{pow-suc}
use native.Mathlib.Omega.{arith}
use maestro_dogecoin_indexer.Prelude.Tests.{◌==◌, ==_iff}

unfoldable pub all_below : ℕ → (ℕ → Bool) → Bool
all_below zero p = true
all_below (suc n) p = p n && all_below n p

pub all_below→true : (n : ℕ) (p : ℕ → Bool) (x : ℕ) → all_below n p ≡ true → x < n → p x ≡ true
unfolding all_below
all_below→true zero p x h lt = absurd (omega arith)
all_below→true (suc n) p x h lt = ground (arith, all_below→true n p x)

low_table : all_below 256 (λ b. bit_and b 0x7f == b % 128) ≡ true
unfolding all_below
low_table = refl

-- The mask of a varint's payload bits.
pub low_bits : (b : ℕ) → b < 256 → bit_and b 0x7f ≡ b % 128
low_bits b h = (==_iff _ _).0 (all_below→true 256 _ b low_table h)

high_table : all_below 128 (λ b. bit_or b 0x80 == b + 128) ≡ true
unfolding all_below
high_table = refl

-- The continuation bit of a varint.
pub set_high_bit : (b : ℕ) → b < 128 → bit_or b 0x80 ≡ b + 128
set_high_bit b h = (==_iff _ _).0 (all_below→true 128 _ b high_table h)

-- The recursion on binary digits gives the same for every fuel that is large enough.
module _ (z : ℕ → ℕ) (f : ℕ → ℕ → ℕ) where
  digits-fuel : (n m a b : ℕ) → a ≤ n → a ≤ m → digits z f n a b ≡ digits z f m a b
  digits-fuel zero zero a b p q = refl
  digits-fuel zero (suc m) zero b p q = refl
  digits-fuel zero (suc m) (suc a) b p q = absurd (omega arith)
  digits-fuel (suc n) zero zero b p q = refl
  digits-fuel (suc n) zero (suc a) b p q = absurd (omega arith)
  digits-fuel (suc n) (suc m) zero b p q = refl
  digits-fuel (suc n) (suc m) (suc a) b p q =
      ap (λ (t : ℕ). t * 2 + f (suc a % 2) (b % 2))
        (digits-fuel n m (suc a / 2) (b / 2) (omega arith) (omega arith))

  digits_step :
      (a b : ℕ)
      → digits z f (suc a) (suc a) b
        ≡ digits z f (suc a / 2) (suc a / 2) (b / 2) * 2 + f (suc a % 2) (b % 2)
  digits_step a b =
      ap (λ (t : ℕ). t * 2 + f (suc a % 2) (b % 2))
        (digits-fuel a (suc a / 2) (suc a / 2) (b / 2) (omega arith) (omega arith))

pub bit_and_step : (a b : ℕ) → bit_and a b ≡ bit_and (a / 2) (b / 2) * 2 + min (a % 2) (b % 2)
bit_and_step zero b =
    let at : (c : ℕ) → bit_and 0 c ≡ 0 = λ c i. bit_and-bitwise 0 c i in
    omega (arith, at b, at (b / 2))
bit_and_step (suc a) b =
    let e : bit_and (suc a) b ≡ digits (λ _. 0) min (suc a) (suc a) b =
      λ i. bit_and-bitwise (suc a) b i in
    let h : bit_and (suc a / 2) (b / 2) ≡ digits (λ _. 0) min (suc a / 2) (suc a / 2) (b / 2) =
      λ i. bit_and-bitwise (suc a / 2) (b / 2) i in
    omega (arith, e, h, digits_step (λ _. 0) min a b)

pub bit_or_step : (a b : ℕ) → bit_or a b ≡ bit_or (a / 2) (b / 2) * 2 + max (a % 2) (b % 2)
bit_or_step zero b =
    let at : (c : ℕ) → bit_or 0 c ≡ c = λ c i. bit_or-bitwise 0 c i in
    omega (arith, at b, at (b / 2))
bit_or_step (suc a) b =
    let e : bit_or (suc a) b ≡ digits (λ c. c) max (suc a) (suc a) b =
      λ i. bit_or-bitwise (suc a) b i in
    let h : bit_or (suc a / 2) (b / 2) ≡ digits (λ c. c) max (suc a / 2) (suc a / 2) (b / 2) =
      λ i. bit_or-bitwise (suc a / 2) (b / 2) i in
    omega (arith, e, h, digits_step (λ c. c) max a b)

bit_and_zero_le : (n a : ℕ) → a ≤ n → bit_and a 0 ≡ 0
bit_and_zero_le zero zero h = λ i. bit_and-bitwise 0 0 i
bit_and_zero_le zero (suc a) h = absurd (omega arith)
bit_and_zero_le (suc n) zero h = λ i. bit_and-bitwise 0 0 i
bit_and_zero_le (suc n) (suc a) h =
    omega (arith, bit_and_step (suc a) 0, bit_and_zero_le n (suc a / 2) (omega arith))

pub bit_and-zero : (a : ℕ) → bit_and a 0 ≡ 0
bit_and-zero a = bit_and_zero_le a a (omega arith)

halves : (a m c d : ℕ) → a ≡ c → m ≡ d → bit_and a m ≡ bit_and c d
halves a m c d p q i = bit_and (p i) (q i)

mask_two : (a m : ℕ) → bit_and a (m * 4 + 3) ≡ bit_and (a / 4) m * 4 + a % 4
mask_two a m = omega (
  arith,
  bit_and_step a (m * 4 + 3),
  halves (a / 2) ((m * 4 + 3) / 2) (a / 2) (m * 2 + 1) refl (omega arith),
  bit_and_step (a / 2) (m * 2 + 1),
  halves (a / 2 / 2) ((m * 2 + 1) / 2) (a / 4) m (omega arith) (omega arith),
)

mask_four : (a m : ℕ) → bit_and a (m * 16 + 15) ≡ bit_and (a / 16) m * 16 + a % 16
mask_four a m = omega (
  arith,
  halves a (m * 16 + 15) a ((m * 4 + 3) * 4 + 3) refl (omega arith),
  mask_two a (m * 4 + 3),
  mask_two (a / 4) m,
  halves (a / 4 / 4) m (a / 16) m (omega arith) refl,
)

-- `n & 0xFFFF`
pub bit_and_low16 : (n : ℕ) → bit_and n 0xffff ≡ n % 2 ^ 16
bit_and_low16 n = omega (
  arith,
  mask_four n 0xfff,
  mask_four (n / 16) 0xff,
  mask_four (n / 16 / 16) 0xf,
  mask_four (n / 16 / 16 / 16) 0,
  bit_and-zero (n / 16 / 16 / 16 / 16),
)

bit_or-zero_le : (n a : ℕ) → a ≤ n → bit_or a 0 ≡ a
bit_or-zero_le zero zero h = λ i. bit_or-bitwise 0 0 i
bit_or-zero_le zero (suc a) h = absurd (omega arith)
bit_or-zero_le (suc n) zero h = λ i. bit_or-bitwise 0 0 i
bit_or-zero_le (suc n) (suc a) h =
    omega (arith, bit_or_step (suc a) 0, bit_or-zero_le n (suc a / 2) (omega arith))

-- `(h << k) | i` for an `i` of `k` bits.
pub bit_or_shifted : (k h i : ℕ) → i < 2 ^ k → bit_or (h * 2 ^ k) i ≡ h * 2 ^ k + i
bit_or_shifted zero h i lt =
    let e : i ≡ 0 = omega arith in
    rw e (omega (arith, bit_or-zero_le (h * 2 ^ 0) (h * 2 ^ 0) (omega arith)))
bit_or_shifted (suc k) h i lt =
    let double : h * 2 ^ suc k ≡ 2 * (h * 2 ^ k) =
      ap (λ (t : ℕ). h * t) (pow-suc 2 k) ∙ omega arith in
    let half : h * 2 ^ suc k / 2 ≡ h * 2 ^ k = omega arith in
    let even : h * 2 ^ suc k % 2 ≡ 0 = omega arith in
    let step = bit_or_step (h * 2 ^ suc k) i in
    omega (arith, rw (half, even) at step, bit_or_shifted k h (i / 2) (omega arith))
