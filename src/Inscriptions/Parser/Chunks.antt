-- ===== src/Inscriptions/Parser/Chunks.antt =====
-- An inscription in chunks over the scripts of several transactions
-- (services/compressor-xdg/src/storage/inscriptions/inscription.rs, `InscriptionParser::parse`).
use maestro_dogecoin_indexer.Prelude.{
  ℕ, zero, suc, ◌≡◌, ◌∙◌, ap, refl, true, false, some, List, [], ◌∷◌, ◌++◌, ◌==◌, length, arith,
  append-nil, append_assoc,
}
use maestro_dogecoin_indexer.Inscriptions.Parser.{
  ParsedInscription, partial, complete, decode_loop, decode_push_datas, push_data_to_number,
  ChunksRead, finished, broken, counts_down, read_chunks, next_chunks, read_scripts, is_ord,
  read_header, parse, first_scripts, from_transactions,
}

-- The data of chunks that count down from a number of pieces to `left`, with the body that they make up.
pub data Chunks (left : ℕ) : ℕ → List (List ℕ) → List ℕ → Type 0 where
  no_chunk : Chunks left left [] []
  chunk :
      {n : ℕ} {push_datas : List (List ℕ)} {body : List ℕ} (number piece : List ℕ)
      → push_data_to_number number ≡ some n
      → Chunks left n push_datas body
      → Chunks left (suc n) (number ∷ piece ∷ push_datas) (piece ++ body)

-- The scripts behind the first: each goes on where the one before it left off.
pub data Scripts (left : ℕ) : ℕ → List (List ℕ) → List ℕ → Type 0 where
  no_script : Scripts left left [] []
  next_script :
      {n k : ℕ} {number piece body rest : List ℕ} {push_datas scripts : List (List ℕ)}
      (script : List ℕ)
      → decode_push_datas script ≡ some (number ∷ piece ∷ push_datas)
      → Chunks k (suc n) (number ∷ piece ∷ push_datas) body
      → Scripts left k scripts rest
      → Scripts left (suc n) (script ∷ scripts) (body ++ rest)

suc_not_zero : (n : ℕ) → (suc n == 0) ≡ false
suc_not_zero n = ground arith

left_over : ℕ → List ℕ → ChunksRead
left_over zero body = finished body
left_over (suc n) body = broken (suc n) body

-- What is read with so many pieces left.
unfoldable pub read_with : ℕ → List ℕ → List ℕ → ParsedInscription
read_with zero content_type body = complete (record { body = body; content_type = content_type })
read_with (suc n) content_type body = partial

counts_down-suc :
    (n : ℕ) (number : List ℕ)
    → push_data_to_number number ≡ some n
    → counts_down (suc n) number ≡ true
unfolding counts_down
counts_down-suc n number h = rw (h, counts_down) (ground arith)

read_chunks-Chunks :
    {left n : ℕ} {push_datas : List (List ℕ)} {body : List ℕ} (acc : List ℕ)
    → Chunks left n push_datas body
    → read_chunks n acc push_datas ≡ left_over left (acc ++ body)
unfolding read_chunks left_over
read_chunks-Chunks {left = zero} acc no_chunk = rw (append-nil acc) refl
read_chunks-Chunks {left = suc n} acc no_chunk = rw (append-nil acc) refl
read_chunks-Chunks {left} acc (chunk {n} {push_datas} {body} number piece h chunks) =
    rw (counts_down-suc n number h)
      (read_chunks-Chunks (acc ++ piece) chunks ∙ ap (left_over left) (append_assoc acc piece body))

next_chunks-Chunks :
    {left n : ℕ} {number piece body : List ℕ} {push_datas : List (List ℕ)}
    → Chunks left (suc n) (number ∷ piece ∷ push_datas) body
    → next_chunks (suc n) (number ∷ piece ∷ push_datas) ≡ true
unfolding next_chunks
next_chunks-Chunks (chunk number piece h chunks) = counts_down-suc _ number h

resume :
    (content_type : List ℕ) (npieces : ℕ) (body script : List ℕ)
    (push_datas scripts : List (List ℕ))
    → decode_push_datas script ≡ some push_datas
    → next_chunks npieces push_datas ≡ true
    → read_scripts content_type (broken npieces body) (script ∷ scripts)
      ≡ read_scripts content_type (read_chunks npieces body push_datas) scripts
unfolding read_scripts
resume content_type npieces body script push_datas scripts decoded goes_on =
    let found : decode_loop (length script) script ≡ some push_datas =
      unfold decode_push_datas in decoded in
    rw (found, read_scripts, goes_on) refl

read_scripts-Scripts :
    {left n : ℕ} {scripts : List (List ℕ)} {body : List ℕ} (content_type acc : List ℕ)
    → Scripts left n scripts body
    → read_scripts content_type (left_over n acc) scripts
      ≡ read_with left content_type (acc ++ body)
unfolding read_scripts left_over read_with
read_scripts-Scripts {left = zero} content_type acc no_script = rw (append-nil acc) refl
read_scripts-Scripts {left = suc n} content_type acc no_script = refl
read_scripts-Scripts {left} content_type acc
      (next_script {n} {k} {number} {piece} {body} {rest} {push_datas} {scripts} script decoded
        chunks more) =
    resume content_type (suc n) acc script _ scripts decoded (next_chunks-Chunks chunks)
    ∙ ap (λ (r : ChunksRead). read_scripts content_type r scripts) (read_chunks-Chunks acc chunks)
    ∙ read_scripts-Scripts content_type (acc ++ body) more
    ∙ ap (read_with left content_type) (append_assoc acc body rest)

-- Let the script of the first input of the first transaction push "ord", a number of pieces that is not 0 and a
-- content type, and then the first chunks, each its number and its piece, counting down to `k`; let the
-- first scripts of the other transactions go on to count down to `left`. Then the transactions are read as
-- the inscription of this content type, whose body is all pieces in their order, if `left` is 0, and as
-- a partial one if it is not.
pub from_transactions-Scripts :
    {left n k : ℕ} {push_datas scripts : List (List ℕ)} {body rest : List ℕ}
    (txs : List (List (List ℕ))) (script pieces content_type : List ℕ)
    → first_scripts txs ≡ some (script ∷ scripts)
    → decode_push_datas script
      ≡ some ((b'o' ∷ b'r' ∷ b'd' ∷ []) ∷ pieces ∷ content_type ∷ push_datas)
    → push_data_to_number pieces ≡ some (suc n)
    → Chunks k (suc n) push_datas body
    → Scripts left k scripts rest
    → from_transactions txs ≡ read_with left content_type (body ++ rest)
unfolding from_transactions parse read_header is_ord
from_transactions-Scripts {n = n} {push_datas = push_datas} {scripts} txs script pieces content_type
      firsts decoded number chunks more =
    let found : decode_loop (length script) script
        ≡ some ((b'o' ∷ b'r' ∷ b'd' ∷ []) ∷ pieces ∷ content_type ∷ push_datas) =
      unfold decode_push_datas in decoded in
    rw (firsts, from_transactions, found, parse, number, read_header, suc_not_zero n)
      (ap (λ (r : ChunksRead). read_scripts content_type r scripts) (read_chunks-Chunks [] chunks)
        ∙ read_scripts-Scripts content_type _ more)
