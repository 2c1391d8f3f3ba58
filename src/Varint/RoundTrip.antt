-- ===== src/Varint/RoundTrip.antt =====
-- What `encode` writes, `decode` reads back.
use maestro_dogecoin_indexer.Prelude.{
  ℕ, zero, suc, ◌+◌, ◌-◌, ◌*◌, ◌/◌, ◌%◌, ◌^◌, ◌≤◌, ◌<◌, ◌≡◌, ap, ◌∙◌, Option, some, List, [], ◌∷◌,
  ◌++◌, ltb, arith, length, Bool-cases, Option-cases, inl, inr, ◌>>=◌,
}
use maestro_dogecoin_indexer.Prelude.Bits.{low_bits, set_high_bit}
use maestro_dogecoin_indexer.Prelude.Words.{u128_max, saturating_add, saturating_mul}
use maestro_dogecoin_indexer.Varint.{
  group_byte, encode_loop, encode_to_vec, encode, decode_loop, decode,
}

pub inner_byte : (i n : ℕ) → i < 18 → group_byte i n ≡ n % 128 + 128
unfolding group_byte
inner_byte i n h = ground (arith, low_bits (n % 256), set_high_bit (n % 128))

pub last_byte : (n : ℕ) → group_byte 18 n ≡ n % 128
unfolding group_byte
last_byte n = ground (arith, low_bits (n % 256))

-- A byte with the top bit set continues the number.
decode_continue :
    (g n i : ℕ) (rest : List ℕ)
    → n * 128 + g < u128_max
    → decode_loop ((g + 128) ∷ rest) n i ≡ decode_loop rest (n * 128 + g + 1) (i + 1)
unfolding decode_loop
decode_continue g n i rest h = ground arith

-- A byte without it ends the number.
decode_last :
    (b n i : ℕ) (rest : List ℕ)
    → b < 128
    → n * 128 + b ≤ u128_max
    → decode_loop (b ∷ rest) n i ≡ (n * 128 + b, i + 1)
unfolding decode_loop
decode_last b n i rest hb h = ground arith

last_group :
    (n k : ℕ) (rest : List ℕ)
    → 128 ≤ n
    → n ≤ u128_max
    → decode_loop (group_byte 18 n ∷ rest) (n / 128 - 1 + 1) k ≡ (n, k + 1)
last_group n k rest h hm = rw last_byte (
    decode_last (n % 128) (n / 128 - 1 + 1) k rest (omega arith) (omega arith)
    ∙ ap (λ (m : ℕ). (m, k + 1)) (omega arith))

-- The decoder, over what the loop of `encode_to_vec` still has to write in front of `out`, arrives at
-- `out` with the number `n` plus one.
encode_loop_reads :
    (i n : ℕ) (out rest : List ℕ)
    → i < 18
    → n < 128 ^ suc i
    → n < u128_max
    → (bytes : List ℕ) × (k : ℕ) × (encode_loop i n out ≡ some bytes)
      × (length bytes ≡ length out + k)
      × (k ≤ suc i)
      × (decode_loop (bytes ++ rest) 0 0 ≡ decode_loop (out ++ rest) (n + 1) k)
unfolding encode_loop
encode_loop_reads zero n out rest hi hn hm = (
  group_byte zero n ∷ out,
  1,
  ground arith,
  omega arith,
  omega arith,
  ground (arith, inner_byte 0 n, decode_continue n 0 0 (out ++ rest)),
)
encode_loop_reads (suc i) n out rest hi hn hm = elim (Bool-cases (ltb n 128)) [
  | inl small ↦ (
    group_byte (suc i) n ∷ out,
    1,
    rw small,
    omega arith,
    omega arith,
    ground (arith, inner_byte (suc i) n, decode_continue n 0 0 (out ++ rest)),
  )
  | inr large ↦
      let (bytes, k, e, len, bound, reads) =
        encode_loop_reads i (n / 128 - 1) (group_byte (suc i) n ∷ out) rest (omega arith)
          (omega arith) (omega arith) in
      (
        bytes,
        k + 1,
        rw large e,
        omega arith,
        omega arith,
        reads
            ∙ ground (
              arith,
              inner_byte (suc i) n,
              decode_continue (n % 128) (n / 128 - 1 + 1) k (out ++ rest),
            ),
      )
]

-- Every u128 has an encoding of 1 to 19 bytes, and `decode` reads the number back from it with the
-- length of the encoding, whatever bytes follow.
pub decode-encode :
    (n : ℕ) (rest : List ℕ)
    → n ≤ u128_max
    → (bytes : List ℕ) × (encode n ≡ some bytes)
      × (1 ≤ length bytes)
      × (length bytes ≤ 19)
      × (decode (bytes ++ rest) ≡ (n, length bytes))
unfolding encode encode_loop decode
decode-encode n rest h = elim (Bool-cases (ltb n 128)) [
  | inl small ↦ (
    group_byte 18 n ∷ [],
    rw small,
    omega arith,
    omega arith,
    rw last_byte (ground (arith, decode_last (n % 128) 0 0 rest)),
  )
  | inr large ↦
      let (bytes, k, e, len, bound, reads) =
        encode_loop_reads 17 (n / 128 - 1) (group_byte 18 n ∷ []) rest (omega arith) (omega arith)
          (omega arith) in
      (
        bytes,
        rw (large, e),
        omega arith,
        omega arith,
        reads ∙ last_group n k rest (ground arith) h ∙ ap (λ (m : ℕ). (n, m)) (omega arith),
      )
]

-- `encode_to_vec` keeps what the vector holds and appends the encoding.
pub encode_to_vec-append :
    (n : ℕ) (v bytes : List ℕ) → encode n ≡ some bytes → encode_to_vec n v ≡ some (v ++ bytes)
unfolding encode encode_to_vec
encode_to_vec-append n v bytes h = elim (Option-cases (encode_loop 18 n [])) [
  | inl e ↦ absurd (cc (h, ap (λ (o : Option (List ℕ)). o >>= λ out. some out) e))
  | inr (out, e) ↦ rw e (cc (h, ap (λ (o : Option (List ℕ)). o >>= λ out. some out) e))
]

-- `decode` takes a byte at least of a buffer that has one, and never more than the buffer has.
decode_loop_takes :
    (buffer : List ℕ) (n i : ℕ)
    → (i ≤ (decode_loop buffer n i).1) × ((decode_loop buffer n i).1 ≤ i + length buffer)
unfolding decode_loop
decode_loop_takes [] n i = omega arith
decode_loop_takes (b ∷ buffer) n i =
    ground
      (arith, decode_loop_takes buffer (saturating_add (saturating_mul n 128) (b - 127)) (i + 1))

pub decode_takes :
    (b : ℕ) (buffer : List ℕ)
    → (1 ≤ (decode (b ∷ buffer)).1) × ((decode (b ∷ buffer)).1 ≤ length (b ∷ buffer))
unfolding decode
decode_takes b buffer = elim (Bool-cases (ltb b 128)) [
  | inl last ↦ rw (last, decode_loop) (omega arith)
  | inr more ↦
      rw (more, decode_loop)
        (omega (
          arith,
          decode_loop_takes buffer (saturating_add (saturating_mul 0 128) (b - 127)) (0 + 1),
        ))
]
