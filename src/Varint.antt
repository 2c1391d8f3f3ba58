-- ===== src/Varint.antt =====
-- The variable-length integers of dunestones (storage/runes/dunes/varint.rs of compressor-xdg).
pub mod RoundTrip
mod Examples
use maestro_dogecoin_indexer.Prelude.{
  ℕ, zero, suc, ◌+◌, ◌-◌, ◌*◌, ◌/◌, ◌%◌, bit_and, bit_or, Option, none, some, List, [], ◌∷◌, ◌++◌,
  ltb, if◌then◌else◌, ◌>>=◌,
}
use maestro_dogecoin_indexer.Prelude.Words.{saturating_add, saturating_mul}

-- One byte of `encode_to_vec`: seven bits of `n`, with the top bit set on all but the last (`i` = 18).
unfoldable pub group_byte : ℕ → ℕ → ℕ
group_byte i n = let byte = bit_and (n % 256) 0x7f in if ltb i 18 then bit_or byte 0x80 else byte

-- The loop of `encode_to_vec`. The list is `out[i + 1..]`, and `none` is the panic of an index below
-- the start of the array.
unfoldable pub encode_loop : ℕ → ℕ → List ℕ → Option (List ℕ)
encode_loop zero n out = if ltb n 128 then some (group_byte zero n ∷ out) else none
encode_loop (suc i) n out =
    let out' = group_byte (suc i) n ∷ out in
    let rest = encode_loop i (n / 128 - 1) out' in if ltb n 128 then some out' else rest

unfoldable pub encode_to_vec : ℕ → List ℕ → Option (List ℕ)
encode_to_vec n v = do out ← encode_loop 18 n []; some (v ++ out)

unfoldable pub encode : ℕ → Option (List ℕ)
unfolding encode_to_vec
encode n = encode_to_vec n []

-- The loop of `decode`, with the bytes that are left in place of the index into the buffer.
unfoldable pub decode_loop : List ℕ → ℕ → ℕ → ℕ × ℕ
decode_loop [] n i = (n, i)
decode_loop (b ∷ buffer) n i =
    let shifted = saturating_mul n 128 in
    let rest = decode_loop buffer (saturating_add shifted (b - 127)) (i + 1) in
    if ltb b 128 then (saturating_add shifted b, i + 1) else rest

unfoldable pub decode : List ℕ → ℕ × ℕ
unfolding decode_loop
decode buffer = decode_loop buffer 0 0
