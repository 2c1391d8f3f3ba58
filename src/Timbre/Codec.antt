-- ===== src/Timbre/Codec.antt =====
-- The traits `Encode` and `Decode` and their implementations (crates/timbre-xbt/src/encdec/encode.rs and
-- decode.rs). Signed integers and the base64 forms are left out.

use maestro_dogecoin_indexer.Prelude.{
  ℕ, zero, suc, ◌-◌, ◌%◌, ◌^◌, Bool, true, false, not, Option, none, some, List, [], ◌∷◌, ◌++◌, ltb,
  ◌==◌, if◌then◌else◌, length, replicate,
}
use maestro_dogecoin_indexer.Prelude.Words.{u64_max}
use maestro_dogecoin_indexer.Timbre.Result.{
  malformed_input, varuint_casting, Result, ok, failed, ◌>>=◌, ok_or,
}
use maestro_dogecoin_indexer.Timbre.Bytes.{be_bytes, from_be_bytes, split_at_checked}

-- A type with both traits. A decoder answers with the value and the bytes behind it.
pub record Codec (A : Type 0) : Type 0 where
  pub encode : A → List ℕ
  pub decode : List ℕ → Result (A × List ℕ)

-- `impl_encode!` and `impl_decode!` for the unsigned integer of `n` bytes
unfoldable pub uint : ℕ → Codec ℕ
unfolding be_bytes from_be_bytes split_at_checked
uint n = record {
  encode = be_bytes n;
  decode = λ bytes. do
    parts ← ok_or (split_at_checked n bytes) malformed_input
    ok (from_be_bytes 0 parts.0, parts.1);
}

bool_decode : List ℕ → Result (Bool × List ℕ)
bool_decode [] = failed malformed_input
bool_decode (b ∷ bytes) = ok (not (b == 0), bytes)

unfoldable pub boolean : Codec Bool
unfolding bool_decode
boolean = record { encode = λ b. (if b then 1 else 0) ∷ []; decode = bool_decode }

-- `[u8; N]`
unfoldable pub array : ℕ → Codec (List ℕ)
unfolding split_at_checked
array n = record {
  encode = λ bytes. bytes;
  decode = λ bytes. ok_or (split_at_checked n bytes) malformed_input;
}

short_decode : List ℕ → Result (List ℕ × List ℕ)
unfolding split_at_checked
short_decode [] = failed malformed_input
short_decode (len ∷ bytes) = ok_or (split_at_checked len bytes) malformed_input

-- `ShortByteString`, whose length is cut to a byte.
unfoldable pub short_byte_string : Codec (List ℕ)
unfolding short_decode
short_byte_string = record { encode = λ bytes. length bytes % 2 ^ 8 ∷ bytes; decode = short_decode }

-- The loop over the sixteen bytes of a `VarUInt`.
unfoldable pub varuint_loop : List ℕ → List ℕ
varuint_loop [] = 0 ∷ []
varuint_loop (b ∷ bytes) =
    let rest = varuint_loop bytes in if b == 0 then rest else length (b ∷ bytes) ∷ b ∷ bytes

unfoldable pub varuint_decode : List ℕ → Result (ℕ × List ℕ)
unfolding from_be_bytes split_at_checked
varuint_decode [] = failed malformed_input
varuint_decode (len ∷ bytes) = if ltb 16 len then failed malformed_input else (do
  parts ← ok_or (split_at_checked len bytes) malformed_input
  ok (from_be_bytes 0 (replicate (16 - len) 0 ++ parts.0), parts.1))

unfoldable pub varuint : Codec ℕ
unfolding varuint_loop varuint_decode be_bytes
varuint = record { encode = λ x. varuint_loop (be_bytes 16 x); decode = varuint_decode }

module _ {A B : Type 0} (a : Codec A) (b : Codec B) where
  unfoldable pub pair : Codec (A × B)
  pair = record {
    encode = λ (x : A × B). a.encode x.0 ++ b.encode x.1;
    decode = λ bytes. do
      first ← a.decode bytes
      second ← b.decode first.1
      ok ((first.0, second.0), second.1);
  }

module _ {A B C : Type 0} (a : Codec A) (b : Codec B) (c : Codec C) where
  unfoldable pub triple : Codec (A × B × C)
  triple = record {
    encode = λ (x : A × B × C). a.encode x.0 ++ (b.encode x.1 ++ c.encode x.2);
    decode = λ bytes. do
      first ← a.decode bytes
      second ← b.decode first.1
      third ← c.decode second.1
      ok ((first.0, second.0, third.0), third.1);
  }

module _ {A : Type 0} (a : Codec A) where
  option_encode : Option A → List ℕ
  unfolding boolean
  option_encode none = boolean.encode false
  option_encode (some x) = boolean.encode true ++ a.encode x

  unfoldable pub option : Codec (Option A)
  unfolding option_encode uint
  option = record {
    encode = option_encode;
    decode = λ bytes. do
      presence ← (uint 1).decode bytes
      if presence.0 == 0
          then ok (none, presence.1)
          else (do value ← a.decode presence.1; ok (some value.0, value.1));
  }

  unfoldable pub encode_items : List A → List ℕ
  encode_items [] = []
  encode_items (x ∷ xs) = a.encode x ++ encode_items xs

  -- `for _ in 0..len`
  unfoldable pub decode_items : ℕ → List ℕ → Result (List A × List ℕ)
  decode_items zero bytes = ok ([], bytes)
  decode_items (suc len) bytes = do
    item ← a.decode bytes
    items ← decode_items len item.1
    ok (item.0 ∷ items.0, items.1)

  -- `Vec<A>`, whose length is cut to 32 bits.
  unfoldable pub vec : Codec (List A)
  unfolding encode_items decode_items uint
  vec = record {
    encode = λ xs. (uint 4).encode (length xs % 2 ^ 32) ++ encode_items xs;
    decode = λ bytes. do
      len ← (uint 4).decode bytes
      decode_items len.0 len.1;
  }

  -- `TimbreVec<A>`
  unfoldable pub timbre_vec : Codec (List A)
  unfolding encode_items decode_items varuint
  timbre_vec = record {
    encode = λ xs. varuint.encode (length xs) ++ encode_items xs;
    decode = λ bytes. do
      len ← varuint.decode bytes
      if ltb u64_max len.0 then failed (varuint_casting len.0) else decode_items len.0 len.1;
  }
