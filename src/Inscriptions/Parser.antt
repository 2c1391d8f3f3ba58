-- ===== src/Inscriptions/Parser.antt =====
-- `InscriptionParser` of services/compressor-xdg/src/storage/inscriptions/inscription.rs.
pub mod Pushes
pub mod Chunks
use maestro_dogecoin_indexer.Prelude.{
  ℕ, zero, suc, ◌+◌, ◌-◌, ◌*◌, ◌%◌, ◌^◌, Bool, true, false, ◌&&◌, Option, none, some, List, [], ◌∷◌,
  ◌++◌, ltb, leb, ◌==◌, if◌then◌else◌, length, take, drop, get_elem?, unwrap_or, ◌>>=◌,
}

pub record Inscription : Type 0 where
  pub body : List ℕ
  pub content_type : List ℕ

-- `ParsedInscription`; `absent` is its `None`.
pub data ParsedInscription : Type 0 where
  absent partial : ParsedInscription
  complete : Inscription → ParsedInscription

abbrev pub byte_at : List ℕ → ℕ → ℕ
byte_at bytes i = unwrap_or (get_elem? bytes i) 0

-- The data of a push behind its header of so many bytes, and how many bytes it takes in all.
unfoldable pub slice_push : ℕ → ℕ → List ℕ → Option (List ℕ × ℕ)
slice_push header len bytes =
    if ltb (length bytes) (header + len)
    then none
    else some (take len (drop header bytes), header + len)

-- One round of the loop: the opcode at the front. OP_PUSHDATA2 and 4 take the opcode for the low byte of
-- the length, as the reference parser does.
unfoldable pub next_push : List ℕ → Option (List ℕ × ℕ)
unfolding slice_push
next_push bytes =
    let op = byte_at bytes 0 in
    if op == 0
    then some ([], 1)
    else if leb 81 op && leb op 96
    then some ((op - 80) ∷ [], 1)
    else if leb 1 op && leb op 75
    then slice_push 1 op bytes
    else if op == 76
    then (if ltb (length bytes) 2 then none else slice_push 2 (byte_at bytes 1) bytes)
    else if op == 77
    then (if ltb (length bytes) 3 then none else slice_push 3 (byte_at bytes 1 * 2 ^ 8 + op) bytes)
    else if op == 78
    then (if ltb (length bytes) 5
        then none
        else slice_push 5
            (byte_at bytes 3 * 2 ^ 24 + byte_at bytes 2 * 2 ^ 16 + byte_at bytes 1 * 2 ^ 8 + op)
            bytes)
    else none

-- The loop takes at least one byte in each round, so the length of the script is fuel enough.
unfoldable pub decode_loop : ℕ → List ℕ → Option (List (List ℕ))
unfolding next_push
decode_loop fuel [] = some []
decode_loop zero (b ∷ bytes) = none
decode_loop (suc fuel) (b ∷ bytes) = do
  push ← next_push (b ∷ bytes)
  rest ← decode_loop fuel (drop push.1 (b ∷ bytes))
  some (push.0 ∷ rest)

unfoldable pub decode_push_datas : List ℕ → Option (List (List ℕ))
unfolding decode_loop
decode_push_datas script = decode_loop (length script) script

-- `n += (data[i] as u64) << m` from the byte that is shifted by `m` on.
unfoldable pub number_loop : ℕ → ℕ → List ℕ → ℕ
number_loop m n [] = n
number_loop m n (b ∷ bytes) = number_loop (m + 8) ((n + b * 2 ^ m) % 2 ^ 64) bytes

unfoldable pub push_data_to_number : List ℕ → Option ℕ
unfolding number_loop
push_data_to_number bytes = if ltb 8 (length bytes) then none else some (number_loop 0 0 bytes)

-- How the loop over chunks ends: all pieces were read, or it broke off with so many to go.
pub data ChunksRead : Type 0 where
  finished : List ℕ → ChunksRead
  broken : ℕ → List ℕ → ChunksRead

-- `Some(n)` with `n == npieces - 1`
unfoldable pub counts_down : ℕ → List ℕ → Bool
unfolding push_data_to_number
counts_down npieces bytes = elim (push_data_to_number bytes) [
  | none ↦ false
  | some next ↦ next == npieces - 1
]

-- The loop over the chunks of one script.
unfoldable pub read_chunks : ℕ → List ℕ → List (List ℕ) → ChunksRead
unfolding counts_down
read_chunks zero body push_datas = finished body
read_chunks (suc n) body [] = broken (suc n) body
read_chunks (suc n) body (number ∷ []) = broken (suc n) body
read_chunks (suc n) body (number ∷ piece ∷ push_datas) =
    let rest = read_chunks n (body ++ piece) push_datas in
    if counts_down (suc n) number then rest else broken (suc n) body

-- A script behind the first goes on only where it starts with the next chunk.
unfoldable pub next_chunks : ℕ → List (List ℕ) → Bool
unfolding counts_down
next_chunks npieces [] = false
next_chunks npieces (number ∷ []) = false
next_chunks npieces (number ∷ piece ∷ _) = counts_down npieces number

-- The loop over the scripts behind what the chunks of the last one left.
unfoldable pub read_scripts : List ℕ → ChunksRead → List (List ℕ) → ParsedInscription
unfolding decode_push_datas read_chunks next_chunks
read_scripts content_type (finished body) scripts =
    complete (record { body = body; content_type = content_type })
read_scripts content_type (broken npieces body) [] = partial
read_scripts content_type (broken npieces body) (script ∷ scripts) =
    elim (decode_push_datas script) [
      | none ↦ absent
      | some push_datas ↦
          if next_chunks npieces push_datas
          then read_scripts content_type (read_chunks npieces body push_datas) scripts
          else absent
    ]

unfoldable pub is_ord : List ℕ → Bool
is_ord (a ∷ b ∷ c ∷ []) = (a == b'o') && (b == b'r') && (c == b'd')
is_ord _ = false

-- The protocol, the number of pieces and the content type, and the chunks behind them.
unfoldable pub read_header : List (List ℕ) → List (List ℕ) → ParsedInscription
unfolding is_ord push_data_to_number read_chunks read_scripts
read_header (protocol ∷ pieces ∷ content_type ∷ push_datas) scripts =
    if is_ord protocol
    then (elim (push_data_to_number pieces) [
      | none ↦ absent
      | some npieces ↦
          if npieces == 0
          then absent
          else read_scripts content_type (read_chunks npieces [] push_datas) scripts
    ])
    else absent
read_header _ scripts = absent

-- `InscriptionParser::parse`; no script at all is not reached by `from_transactions` of a transaction.
unfoldable pub parse : List (List ℕ) → ParsedInscription
unfolding decode_push_datas read_header
parse [] = absent
parse (script ∷ scripts) = elim (decode_push_datas script) [
  | none ↦ absent
  | some push_datas ↦ read_header push_datas scripts
]

-- The script of the first input of each transaction, over the scripts of their inputs; `none` where a
-- transaction has no input.
unfoldable pub first_scripts : List (List (List ℕ)) → Option (List (List ℕ))
first_scripts [] = some []
first_scripts ([] ∷ txs) = none
first_scripts ((script ∷ inputs) ∷ txs) = do scripts ← first_scripts txs; some (script ∷ scripts)

-- `Inscription::from_transactions`
unfoldable pub from_transactions : List (List (List ℕ)) → ParsedInscription
unfolding first_scripts parse
from_transactions txs = elim (first_scripts txs) [ none ↦ absent | some scripts ↦ parse scripts ]
