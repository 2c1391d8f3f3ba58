-- ===== src/Inscriptions/Examples.antt =====
-- Inscriptions at concrete inputs.
use maestro_dogecoin_indexer.Prelude.{ℕ, ◌≡◌, refl, some, All, List, [], ◌∷◌, arith, replicate}
use mathlib.Core.List.{Perm}
use maestro_dogecoin_indexer.Bitcoin.{TxOut}
use maestro_dogecoin_indexer.Inscriptions.Placement.{
  Flotsam, new, satpoint_at, place_outputs, sort_by_offset,
}
use maestro_dogecoin_indexer.Inscriptions.Placement.Sorted.{AtLeast}
use maestro_dogecoin_indexer.Inscriptions.Placement.Located.{values, IsLocated, place_outputs-sort}
use maestro_dogecoin_indexer.Inscriptions.Parser.{
  decode_push_datas, complete, push_data_to_number, first_scripts, from_transactions,
}
use maestro_dogecoin_indexer.Inscriptions.Parser.Pushes.{
  Push, op_zero, op_number, direct, pushdata1, pushdata2, IsPush, write_pushes,
  decode_push_datas-write,
}
use maestro_dogecoin_indexer.Inscriptions.Parser.Chunks.{
  no_chunk, chunk, no_script, next_script, read_with, from_transactions-Scripts,
}

abbrev ord : List ℕ
ord = b'o' ∷ b'r' ∷ b'd' ∷ []

abbrev text_plain : List ℕ
text_plain = b't' ∷ b'x' ∷ b't' ∷ []

abbrev floating : ℕ → ℕ → Flotsam
floating n offset = record {
  inscription_id = record { txid = n; index = 0 };
  offset = offset;
  origin = new 0;
}

abbrev outputs : List (TxOut ℕ)
outputs = record { value = 2; script_pubkey = 8 } ∷ record { value = 6; script_pubkey = 9 } ∷ []

-- Of three inscriptions the one at offset 7 goes to output 1, the one at 0 to output 0, and one is left.
place_outputs-sort_example :
    Perm
      (floating 2 0 ∷ floating 1 7 ∷ floating 3 8 ∷ [])
      (floating 1 7 ∷ floating 2 0 ∷ floating 3 8 ∷ [])
    × All
        (IsLocated 6 0 0 outputs)
        ((satpoint_at 6 0 0, floating 2 0) ∷ (satpoint_at 6 1 5, floating 1 7) ∷ [])
    × AtLeast 8 (floating 3 8 ∷ [])
unfolding place_outputs sort_by_offset values
place_outputs-sort_example =
    place_outputs-sort 6 outputs (floating 1 7 ∷ floating 2 0 ∷ floating 3 8 ∷ []) (omega arith)

-- The last push is of 77 bytes, which OP_PUSHDATA2 takes where the byte behind it is 0.
abbrev pushes : List Push
pushes =
    direct ord
    ∷ op_zero
    ∷ op_number 16
    ∷ pushdata1 (13 ∷ 14 ∷ [])
    ∷ pushdata2 0 9 (replicate 77 5)
    ∷ []

decode_push_datas-write_example :
    decode_push_datas (write_pushes pushes)
    ≡ some (ord ∷ [] ∷ (16 ∷ []) ∷ (13 ∷ 14 ∷ []) ∷ replicate 77 5 ∷ [])
decode_push_datas-write_example =
    decode_push_datas-write pushes (omega arith, (tt, (omega arith, (omega arith, (refl, tt)))))

-- Three pieces, the last in the second transaction.
abbrev first_pushes : List Push
first_pushes =
    direct ord
    ∷ op_number 3
    ∷ direct text_plain
    ∷ op_number 2
    ∷ direct (10 ∷ 11 ∷ [])
    ∷ op_number 1
    ∷ pushdata1 (12 ∷ [])
    ∷ []

abbrev second_pushes : List Push
second_pushes = op_zero ∷ direct (13 ∷ 14 ∷ []) ∷ []

first_read : All IsPush first_pushes
first_read = (
  omega arith,
  (omega arith, (omega arith, (omega arith, (omega arith, (omega arith, (omega arith, tt)))))),
)

from_transactions-Scripts_example :
    from_transactions ((write_pushes first_pushes ∷ []) ∷ (write_pushes second_pushes ∷ []) ∷ [])
    ≡ complete (record { body = 10 ∷ 11 ∷ 12 ∷ 13 ∷ 14 ∷ []; content_type = text_plain })
unfolding first_scripts push_data_to_number read_with
from_transactions-Scripts_example =
    from_transactions-Scripts _ (write_pushes first_pushes) (3 ∷ []) text_plain refl
      (decode_push_datas-write first_pushes first_read) refl
      (chunk (2 ∷ []) (10 ∷ 11 ∷ []) refl (chunk (1 ∷ []) (12 ∷ []) refl no_chunk))
      (next_script (write_pushes second_pushes)
        (decode_push_datas-write second_pushes (tt, (omega arith, tt)))
        (chunk [] (13 ∷ 14 ∷ []) refl no_chunk) no_script)
