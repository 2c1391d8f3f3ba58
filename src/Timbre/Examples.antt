-- ===== src/Timbre/Examples.antt =====
-- Runs of the encodings, and their theorems at concrete inputs.
use maestro_dogecoin_indexer.Prelude.{◌≡◌, refl, true, some, [], ◌∷◌, ◌++◌, arith, ◌==◌, replicate}
use maestro_dogecoin_indexer.Timbre.Result.{ok, panicked}
use maestro_dogecoin_indexer.Timbre.Bytes.{split_at_checked}
use maestro_dogecoin_indexer.Timbre.Codec.{uint, varuint, timbre_vec}
use maestro_dogecoin_indexer.Timbre.Rows.{CursorValue, cursor_value, index_map, string, split_at}
use maestro_dogecoin_indexer.Timbre.RoundTrip.{uint-Lawful, varuint-Lawful, timbre_vec-encode}
use maestro_dogecoin_indexer.Timbre.RowRoundTrip.{
  cursor_value-encode, index_map-encode, string_lost,
}
use maestro_dogecoin_indexer.Timbre.Order.{lex_ltb, varuint_order}
use maestro_dogecoin_indexer.Timbre.Range.{
  prefix_key_range, starts_with, in_range, end_loop, prefix_key_range_lem,
}

varuint_256 : varuint.encode 256 ≡ 2 ∷ 1 ∷ 0 ∷ []
unfolding varuint
varuint_256 = refl

range_255 : prefix_key_range (1 ∷ 255 ∷ []) ≡ (1 ∷ 255 ∷ [], 2 ∷ [])
unfolding prefix_key_range end_loop
range_255 = refl

-- A text behind which too few bytes stand makes its decoder panic.
string_panics : string.decode (1 ∷ 2 ∷ 3 ∷ []) ≡ panicked
unfolding string split_at split_at_checked
string_panics = refl

varuint_read : varuint.decode (varuint.encode 300 ++ 9 ∷ []) ≡ ok (300, 9 ∷ [])
varuint_read = varuint-Lawful.decode-encode 300 (9 ∷ []) (omega arith)

timbre_vec-encode_example :
    (timbre_vec (uint 2)).decode ((timbre_vec (uint 2)).encode (300 ∷ 7 ∷ []) ++ 9 ∷ [])
    ≡ ok (300 ∷ 7 ∷ [], 9 ∷ [])
timbre_vec-encode_example =
    timbre_vec-encode (uint 2) (uint-Lawful 2) (300 ∷ 7 ∷ []) (9 ∷ []) (omega arith) (omega arith)

index_map-encode_example :
    (index_map ◌==◌ (uint 1) varuint).decode
      ((index_map ◌==◌ (uint 1) varuint).encode ((1, 300) ∷ (2, 0) ∷ []) ++ [])
    ≡ ok ((1, 300) ∷ (2, 0) ∷ [], [])
index_map-encode_example =
    index_map-encode ◌==◌ (uint 1) varuint (uint-Lawful 1) varuint-Lawful ((1, 300) ∷ (2, 0) ∷ [])
      [] (omega arith) ((refl, tt), (tt, tt)) (omega arith)

abbrev cursor : CursorValue
cursor = record {
  height = 5100000;
  hash = replicate 32 171;
  was_mempool = true;
  timestamp = 1700000000;
  mempool_info = some ((5100001, replicate 32 205), 1700000001);
}

cursor_value-encode_example :
    cursor_value.decode (cursor_value.encode cursor ++ 9 ∷ []) ≡ ok (cursor, 9 ∷ [])
cursor_value-encode_example = cursor_value-encode cursor (9 ∷ []) (record {
  height = omega arith;
  hash = refl;
  timestamp = omega arith;
  info = ((omega arith, refl), omega arith);
})

string_lost_example : string.decode (string.encode (b'A' ∷ b'B' ∷ []) ++ 7 ∷ []) ≡ ok ([], [])
string_lost_example = string_lost (b'A' ∷ b'B' ∷ []) (7 ∷ []) (omega arith)

varuint_order_example : lex_ltb (varuint.encode 255 ++ 9 ∷ []) (varuint.encode 256 ++ []) ≡ true
varuint_order_example = varuint_order 255 256 (9 ∷ []) [] (omega arith) (omega arith)

prefix_key_range_lem_example :
    starts_with (1 ∷ 255 ∷ []) (1 ∷ 255 ∷ 3 ∷ [])
    ≡ in_range (prefix_key_range (1 ∷ 255 ∷ [])) (1 ∷ 255 ∷ 3 ∷ [])
prefix_key_range_lem_example = prefix_key_range_lem (1 ∷ 255 ∷ []) (1 ∷ 255 ∷ 3 ∷ []) (omega arith)
