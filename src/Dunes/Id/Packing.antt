-- ===== src/Dunes/Id/Packing.antt =====
-- Packing a height and an index into one number.
use maestro_dogecoin_indexer.Prelude.{
  ℕ, ◌+◌, ◌*◌, ◌/◌, ◌%◌, ◌^◌, ◌≤◌, ◌<◌, bit_and, ◌≡◌, ◌∙◌, leb, true, Bool-cases, inl, inr, some,
  arith,
}
use maestro_dogecoin_indexer.Prelude.Words.{u64_max}
use maestro_dogecoin_indexer.Prelude.Bits.{bit_and_low16, bit_or_shifted}
use maestro_dogecoin_indexer.Dunes.Id.{DuneId, from_u128, to_u128}

-- A height of 64 bits and an index of 16 bits come back from the number that they are packed into.
pub from_u128-to_u128 :
    (id : DuneId) → id.height ≤ u64_max → id.index < 2 ^ 16 → from_u128 (to_u128 id) ≡ some id
unfolding from_u128 to_u128
from_u128-to_u128 id h i =
    let packed = bit_or_shifted 16 id.height id.index i in
    let high : (id.height * 2 ^ 16 + id.index) / 2 ^ 16 ≡ id.height = omega arith in
    let low : (id.height * 2 ^ 16 + id.index) % 2 ^ 16 ≡ id.index = omega arith in
    let fits : leb id.height u64_max ≡ true = ground arith in
    rw (packed, high, fits, bit_and_low16, low)

-- A number that is an id at all is the number of that id, and its index has 16 bits.
pub to_u128-from_u128 :
    (n : ℕ) (id : DuneId)
    → from_u128 n ≡ some id
    → (to_u128 id ≡ n) × (id.height ≤ u64_max) × (id.index < 2 ^ 16)
unfolding from_u128 to_u128
to_u128-from_u128 n id h = elim (Bool-cases (leb (n / 2 ^ 16) u64_max)) [
  | inl fits ↦
      let e : record { height = n / 2 ^ 16; index = bit_and n 0xffff } ≡ id = cc (rw fits at h) in
      rw (← e) (
        bit_or_shifted 16 (n / 2 ^ 16) (bit_and n 0xffff) (omega (arith, bit_and_low16 n))
            ∙ omega (arith, bit_and_low16 n),
        ground arith,
        omega (arith, bit_and_low16 n),
      )
  | inr wide ↦ absurd (cc (rw wide at h))
]
