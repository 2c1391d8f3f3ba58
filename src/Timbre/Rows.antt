-- ===== src/Timbre/Rows.antt =====
-- The codecs of maps, texts and the cursor (crates/timbre-xbt/src/encdec/encode.rs and decode.rs).
use maestro_dogecoin_indexer.Prelude.{
  ℕ, zero, suc, ◌%◌, ◌^◌, Bool, true, false, ◌&&◌, Option, none, some, List, [], ◌∷◌, ◌++◌, ltb,
  leb, ◌==◌, if◌then◌else◌, length,
}
use maestro_dogecoin_indexer.Timbre.Result.{
  malformed_input, invalid_utf8, Result, ok, failed, panicked, ◌>>=◌,
}
use maestro_dogecoin_indexer.Timbre.Bytes.{split_at_checked}
use maestro_dogecoin_indexer.Timbre.Codec.{Codec, uint, boolean, array, pair, option}

-- `CursorValue`
pub record CursorValue : Type 0 where
  pub height : ℕ
  pub hash : List ℕ
  pub was_mempool : Bool
  pub timestamp : ℕ
  pub mempool_info : Option ((ℕ × List ℕ) × ℕ)

abbrev pub mempool_codec : Codec (Option ((ℕ × List ℕ) × ℕ))
mempool_codec = option (pair (pair (uint 8) (array 32)) (uint 8))

unfoldable pub cursor_value : Codec CursorValue
cursor_value = record {
  encode = λ (c : CursorValue).
      (uint 8).encode c.height
      ++ ((array 32).encode c.hash
          ++ (boolean.encode c.was_mempool
              ++ ((uint 8).encode c.timestamp ++ mempool_codec.encode c.mempool_info)));
  decode = λ bytes. do
    height ← (uint 8).decode bytes
    hash ← (array 32).decode height.1
    was_mempool ← boolean.decode hash.1
    timestamp ← (uint 8).decode was_mempool.1
    mempool_info ← mempool_codec.decode timestamp.1
    ok (
      record {
        height = height.0;
        hash = hash.0;
        was_mempool = was_mempool.0;
        timestamp = timestamp.0;
        mempool_info = mempool_info.0;
      },
      mempool_info.1,
    );
}

-- `IndexMap<K, V>`: the entries in the order of their insertion.
module _ {K V : Type 0} (same : K → K → Bool) where
  unfoldable pub index_insert : K → V → List (K × V) → List (K × V)
  index_insert key value [] = (key, value) ∷ []
  index_insert key value ((key', value') ∷ entries) =
      let rest = index_insert key value entries in
      if same key' key then (key', value) ∷ entries else (key', value') ∷ rest

module _ {K V : Type 0} (same : K → K → Bool) (k : Codec K) (v : Codec V) where
  unfoldable pub encode_entries : List (K × V) → List ℕ
  encode_entries [] = []
  encode_entries ((key, value) ∷ entries) =
      (k.encode key ++ v.encode value) ++ encode_entries entries

  unfoldable pub decode_entries : ℕ → List (K × V) → List ℕ → Result (List (K × V) × List ℕ)
  unfolding index_insert
  decode_entries zero map bytes = ok (map, bytes)
  decode_entries (suc len) map bytes = do
    key ← k.decode bytes
    value ← v.decode key.1
    decode_entries len (index_insert same key.0 value.0 map) value.1

  unfoldable pub index_map : Codec (List (K × V))
  unfolding encode_entries decode_entries
  index_map = record {
    encode = λ entries. (uint 8).encode (length entries) ++ encode_entries entries;
    decode = λ bytes. do
      len ← (uint 8).decode bytes
      decode_entries len.0 [] len.1;
  }

-- What may follow a byte of a text in UTF-8: how many more bytes, and the bounds of the next one.
utf8_first : ℕ → Option (ℕ × ℕ × ℕ)
utf8_first b =
    if ltb b 0x80
    then some (0, 0, 0)
    else if ltb b 0xc2
    then none
    else if ltb b 0xe0
    then some (1, 0x80, 0xbf)
    else if b == 0xe0
    then some (2, 0xa0, 0xbf)
    else if b == 0xed
    then some (2, 0x80, 0x9f)
    else if ltb b 0xf0
    then some (2, 0x80, 0xbf)
    else if b == 0xf0
    then some (3, 0x90, 0xbf)
    else if ltb b 0xf4
    then some (3, 0x80, 0xbf)
    else if b == 0xf4
    then some (3, 0x80, 0x8f)
    else none

utf8_loop : ℕ → ℕ → ℕ → List ℕ → Bool
unfolding utf8_first
utf8_loop zero lo hi [] = true
utf8_loop (suc left) lo hi [] = false
utf8_loop zero lo hi (b ∷ bytes) = elim (utf8_first b) [
  | none ↦ false
  | some (left, lo', hi') ↦ utf8_loop left lo' hi' bytes
]
utf8_loop (suc left) lo hi (b ∷ bytes) =
    let rest = utf8_loop left 0x80 0xbf bytes in leb lo b && (leb b hi && rest)

-- `String::from_utf8`
unfoldable pub from_utf8 : List ℕ → Result (List ℕ)
unfolding utf8_loop
from_utf8 bytes = if utf8_loop 0 0 0 bytes then ok bytes else failed invalid_utf8

-- `split_at`, which panics behind the end.
unfoldable pub split_at : ℕ → List ℕ → Result (List ℕ × List ℕ)
split_at n bytes = elim (split_at_checked n bytes) [ none ↦ panicked | some parts ↦ ok parts ]

-- `String` by its bytes: the length is written in 8 bytes, and read from 4 bytes, of which the decoder goes
-- on with the empty rest of the slice.
unfoldable pub string : Codec (List ℕ)
unfolding from_utf8 split_at
string = record {
  encode = λ s. (uint 8).encode (length s) ++ s;
  decode = λ bytes. do
    head ← split_at 4 bytes
    len ← (uint 4).decode head.0
    parts ← split_at len.0 len.1
    s ← from_utf8 parts.0
    ok (s, parts.1);
}

char_decode : List ℕ → Result (ℕ × List ℕ)
char_decode [] = failed malformed_input
char_decode (b ∷ bytes) = ok (b, bytes)

-- `char` by its code point, which is cut to a byte.
unfoldable pub character : Codec ℕ
unfolding char_decode
character = record { encode = λ c. c % 2 ^ 8 ∷ []; decode = char_decode }
