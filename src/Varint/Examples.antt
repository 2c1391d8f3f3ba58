-- ===== src/Varint/Examples.antt =====
-- Runs of the varint code, and its theorems at concrete inputs.
use maestro_dogecoin_indexer.Prelude.{ℕ, ◌≤◌, ◌≡◌, refl, some, List, [], ◌∷◌, ◌++◌, arith, length}
use maestro_dogecoin_indexer.Varint.{encode, encode_loop, group_byte, decode}
use maestro_dogecoin_indexer.Varint.RoundTrip.{decode-encode}

encode_300 : encode 300 ≡ some (0x81 ∷ 0x2c ∷ [])
unfolding encode encode_loop group_byte
encode_300 = refl

-- Bytes behind the number are left alone, and a continuation adds one.
decode_max : decode (0x80 ∷ 0x80 ∷ 7 ∷ []) ≡ (16519, 3)
unfolding decode
decode_max = refl

decode-encode_example :
    (bytes : List ℕ) × (encode 300 ≡ some bytes)
    × (1 ≤ length bytes)
    × (length bytes ≤ 19)
    × (decode (bytes ++ 9 ∷ []) ≡ (300, length bytes))
decode-encode_example = decode-encode 300 (9 ∷ []) (omega arith)
