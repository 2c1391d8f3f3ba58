-- ===== src/Timbre/Bytes.antt =====
-- Bytes of the encodings: `to_be_bytes`, `from_be_bytes` and `split_at_checked` of the standard library.
use maestro_dogecoin_indexer.Prelude.{
  ℕ, zero, suc, ◌+◌, ◌*◌, ◌/◌, ◌%◌, ◌^◌, ◌≤◌, ◌<◌, ◌≡◌, ◌∙◌, ap, refl, Option, none, some, List, [],
  ◌∷◌, ◌++◌, arith, length, ◌>>=◌, replicate,
}
use native.Mathlib.Nat.{pow-suc, one-le-pow, mod-lt, div-add-mod', add-mul}

-- The big-endian bytes of a number below 256 ^ n
unfoldable pub be_bytes : ℕ → ℕ → List ℕ
be_bytes zero x = []
be_bytes (suc n) x = x / 256 ^ n ∷ be_bytes n (x % 256 ^ n)

-- `from_be_bytes`, behind the bytes that gave `acc`
unfoldable pub from_be_bytes : ℕ → List ℕ → ℕ
from_be_bytes acc [] = acc
from_be_bytes acc (b ∷ bytes) = from_be_bytes (acc * 256 + b) bytes

unfoldable pub split_at_checked : ℕ → List ℕ → Option (List ℕ × List ℕ)
split_at_checked zero bytes = some ([], bytes)
split_at_checked (suc n) [] = none
split_at_checked (suc n) (b ∷ bytes) = do
  parts ← split_at_checked n bytes
  some (b ∷ parts.0, parts.1)

pub length-be_bytes : (n x : ℕ) → length (be_bytes n x) ≡ n
unfolding be_bytes
length-be_bytes zero x = refl
length-be_bytes (suc n) x = omega (arith, length-be_bytes n (x % 256 ^ n))

pub power_pos : (n : ℕ) → 1 ≤ 256 ^ n
power_pos n = one-le-pow n 256 (omega arith)

-- The first byte and the rest.
pub first_byte : (n x : ℕ) → (x / 256 ^ n * 256 ^ n + x % 256 ^ n ≡ x) × (x % 256 ^ n < 256 ^ n)
first_byte n x = (div-add-mod' x (256 ^ n), mod-lt x (power_pos n))

-- The bytes of a number, read back behind others.
pub from_be_bytes-be_bytes :
    (n acc x : ℕ) → x < 256 ^ n → from_be_bytes acc (be_bytes n x) ≡ acc * 256 ^ n + x
unfolding be_bytes from_be_bytes
from_be_bytes-be_bytes zero acc x h = omega arith
from_be_bytes-be_bytes (suc n) acc x h =
    let (whole, low) = first_byte n x in
    from_be_bytes-be_bytes n (acc * 256 + x / 256 ^ n) (x % 256 ^ n) low
    ∙ omega (
      arith,
      whole,
      add-mul (acc * 256) (x / 256 ^ n) (256 ^ n),
      ap (λ (t : ℕ). acc * t) (pow-suc 256 n),
    )

pub from_be_bytes-replicate :
    (n : ℕ) (bytes : List ℕ) → from_be_bytes 0 (replicate n 0 ++ bytes) ≡ from_be_bytes 0 bytes
unfolding from_be_bytes
from_be_bytes-replicate zero bytes = refl
from_be_bytes-replicate (suc n) bytes = from_be_bytes-replicate n bytes

pub split_at_checked-append :
    (xs rest : List ℕ) → split_at_checked (length xs) (xs ++ rest) ≡ some (xs, rest)
unfolding split_at_checked
split_at_checked-append [] rest = refl
split_at_checked-append (x ∷ xs) rest = rw (split_at_checked-append xs rest)
