-- ===== src/Inscriptions/Parser/Pushes.antt =====
-- The pushes of a script (services/compressor-xdg/src/storage/inscriptions/inscription.rs, `decode_push_datas`).
use maestro_dogecoin_indexer.Prelude.{
  ℕ, zero, suc, ◌+◌, ◌≤◌, ◌<◌, ◌≡◌, ap, refl, true, false, ◌&&◌, Option, some, List, [], ◌∷◌, ◌++◌,
  ltb, leb, ◌==◌, length, drop, map, All, arith, inl, inr, Option-cases, take_prefix, drop_prefix,
  length-append, ◌*◌, ◌^◌, ◌>>=◌, length-drop,
}
use maestro_dogecoin_indexer.Inscriptions.Parser.{
  slice_push, next_push, decode_loop, decode_push_datas,
}

-- The pushes of a script by their opcodes: OP_0 and OP_1 to OP_16, the opcodes that are a length, and OP_PUSHDATA1, 2
-- and 4. The bytes behind the opcode that do not count for the length are arguments too.
pub data Push : Type 0 where
  op_zero : Push
  op_number : ℕ → Push
  direct : List ℕ → Push
  pushdata1 : List ℕ → Push
  pushdata2 : ℕ → ℕ → List ℕ → Push
  pushdata4 : ℕ → ℕ → ℕ → ℕ → List ℕ → Push

unfoldable pub write_push : Push → List ℕ
write_push op_zero = 0 ∷ []
write_push (op_number n) = (80 + n) ∷ []
write_push (direct bytes) = length bytes ∷ bytes
write_push (pushdata1 bytes) = 76 ∷ length bytes ∷ bytes
write_push (pushdata2 high unread bytes) = 77 ∷ high ∷ unread ∷ bytes
write_push (pushdata4 low middle high unread bytes) = 78 ∷ low ∷ middle ∷ high ∷ unread ∷ bytes

unfoldable pub write_pushes : List Push → List ℕ
unfolding write_push
write_pushes [] = []
write_pushes (p ∷ pushes) = write_push p ++ write_pushes pushes

-- The data that a push puts on the stack.
abbrev pub pushed : Push → List ℕ
pushed op_zero = []
pushed (op_number n) = n ∷ []
pushed (direct bytes) = bytes
pushed (pushdata1 bytes) = bytes
pushed (pushdata2 high unread bytes) = bytes
pushed (pushdata4 low middle high unread bytes) = bytes

-- A push whose opcode has the length that the reference parser takes: for OP_PUSHDATA2 and 4 the opcode
-- stands for the low byte.
abbrev pub IsPush : Push → Type 0
IsPush op_zero = Unit
IsPush (op_number n) = (1 ≤ n) × (n ≤ 16)
IsPush (direct bytes) = (1 ≤ length bytes) × (length bytes ≤ 75)
IsPush (pushdata1 bytes) = length bytes ≤ 255
IsPush (pushdata2 high unread bytes) = length bytes ≡ high * 2 ^ 8 + 77
IsPush (pushdata4 low middle high unread bytes) =
    length bytes ≡ high * 2 ^ 24 + middle * 2 ^ 16 + low * 2 ^ 8 + 78

slice_push-prefix :
    (header len total : ℕ) (front bytes rest : List ℕ)
    → length front ≡ header
    → length bytes ≡ len
    → header + len ≡ total
    → slice_push header len (front ++ (bytes ++ rest)) ≡ some (bytes, total)
unfolding slice_push
slice_push-prefix header len total front bytes rest h k t =
    let enough : ltb (length (front ++ (bytes ++ rest))) (header + len) ≡ false =
      ground (arith, h, k, length-append front (bytes ++ rest), length-append bytes rest) in
    let cut : drop header (front ++ (bytes ++ rest)) ≡ bytes ++ rest =
      drop_prefix header front (bytes ++ rest) h in
    rw (enough, cut, t) (ap (λ (l : List ℕ). some (l, total)) (take_prefix len bytes rest k))

next_push-write :
    (p : Push) (rest : List ℕ)
    → IsPush p
    → next_push (write_push p ++ rest) ≡ some (pushed p, length (write_push p))
unfolding next_push write_push
next_push-write op_zero rest h = refl
next_push-write (op_number n) rest h =
    let not_zero : (80 + n == 0) ≡ false = ground arith in
    let numeral : (leb 81 (80 + n) && leb (80 + n) 96) ≡ true = ground (arith, h) in
    rw (not_zero, numeral) (ap (λ (k : ℕ). some (k ∷ [], 1)) (omega arith))
next_push-write (direct bytes) rest h =
    let n = length bytes in
    let not_zero : (n == 0) ≡ false = ground (arith, h) in
    let not_numeral : (leb 81 n && leb n 96) ≡ false = ground (arith, h) in
    let is_length : (leb 1 n && leb n 75) ≡ true = ground (arith, h) in
    rw (not_zero, not_numeral, is_length)
      (slice_push-prefix 1 n _ (n ∷ []) bytes rest refl refl (omega arith))
next_push-write (pushdata1 bytes) rest h =
    let enough : ltb (suc (suc (length (bytes ++ rest)))) 2 ≡ false = ground arith in
    rw enough (
      slice_push-prefix 2 (length bytes) _ (76 ∷ length bytes ∷ []) bytes rest refl refl
        (omega arith))
next_push-write (pushdata2 high unread bytes) rest h =
    let enough : ltb (suc (suc (suc (length (bytes ++ rest))))) 3 ≡ false = ground arith in
    rw enough (
      slice_push-prefix 3 (high * 2 ^ 8 + 77) _ (77 ∷ high ∷ unread ∷ []) bytes rest refl h
        (omega (arith, h)))
next_push-write (pushdata4 low middle high unread bytes) rest h =
    let enough : ltb (suc (suc (suc (suc (suc (length (bytes ++ rest))))))) 5 ≡ false =
      ground arith in
    rw enough (
      slice_push-prefix 5 (high * 2 ^ 24 + middle * 2 ^ 16 + low * 2 ^ 8 + 78) _
        (78 ∷ low ∷ middle ∷ high ∷ unread ∷ []) bytes rest refl h (omega (arith, h)))

write_push_lt : (p : Push) → 0 < length (write_push p)
unfolding write_push
write_push_lt op_zero = omega arith
write_push_lt (op_number n) = omega arith
write_push_lt (direct bytes) = omega arith
write_push_lt (pushdata1 bytes) = omega arith
write_push_lt (pushdata2 high unread bytes) = omega arith
write_push_lt (pushdata4 low middle high unread bytes) = omega arith

-- One round of the loop, over the bytes of one push.
decode_loop-round :
    (fuel : ℕ) (bytes rest data_pushed : List ℕ) (datas : List (List ℕ))
    → 0 < length bytes
    → next_push (bytes ++ rest) ≡ some (data_pushed, length bytes)
    → length (bytes ++ rest) ≤ fuel
    → ((f : ℕ) → length rest ≤ f → decode_loop f rest ≡ some datas)
    → decode_loop fuel (bytes ++ rest) ≡ some (data_pushed ∷ datas)
unfolding decode_loop
decode_loop-round fuel [] rest data_pushed datas lt found enough later = absurd (omega (arith, lt))
decode_loop-round zero (b ∷ bytes) rest data_pushed datas lt found enough later =
    absurd (omega (arith, enough))
decode_loop-round (suc fuel) (b ∷ bytes) rest data_pushed datas lt found enough later =
    let cut : drop (length (b ∷ bytes)) (b ∷ bytes ++ rest) ≡ rest =
      drop_prefix (length (b ∷ bytes)) (b ∷ bytes) rest refl in
    rw (found, decode_loop, cut)
      (rw (later fuel (omega (arith, enough, length-append bytes rest))) refl)

-- The loop takes the pushes one by one.
decode_loop-write :
    (fuel : ℕ) (pushes : List Push)
    → All IsPush pushes
    → length (write_pushes pushes) ≤ fuel
    → decode_loop fuel (write_pushes pushes) ≡ some (map pushed pushes)
unfolding decode_loop write_pushes
decode_loop-write fuel [] valid enough = refl
decode_loop-write fuel (p ∷ pushes) (v, valid) enough =
    decode_loop-round fuel (write_push p) (write_pushes pushes) (pushed p) (map pushed pushes)
      (write_push_lt p) (next_push-write p (write_pushes pushes) v) enough
      (λ f shorter. decode_loop-write f pushes valid shorter)

-- A script of pushes is decoded to the data that they push: of any length from 1 to 75 by an opcode that is the
-- length, and up to 255 by OP_PUSHDATA1; by OP_PUSHDATA2 and 4 of the lengths that the reference parser takes,
-- with the opcode for the low byte, whatever the last length byte is.
pub decode_push_datas-write :
    (pushes : List Push)
    → All IsPush pushes
    → decode_push_datas (write_pushes pushes) ≡ some (map pushed pushes)
unfolding decode_push_datas
decode_push_datas-write pushes valid = decode_loop-write _ pushes valid (omega arith)

-- A push takes at least one byte.
next_push_lt :
    (bytes data_pushed : List ℕ) (n : ℕ) → next_push bytes ≡ some (data_pushed, n) → 0 < n
unfolding next_push slice_push
next_push_lt bytes data_pushed n h = ground arith

-- More fuel than bytes changes nothing.
pub decode_loop_fuel :
    (fuel more : ℕ) (bytes : List ℕ)
    → length bytes ≤ fuel
    → length bytes ≤ more
    → decode_loop fuel bytes ≡ decode_loop more bytes
unfolding decode_loop
decode_loop_fuel fuel more [] h k = refl
decode_loop_fuel zero more (b ∷ bytes) h k = absurd (omega arith)
decode_loop_fuel (suc fuel) zero (b ∷ bytes) h k = absurd (omega arith)
decode_loop_fuel (suc fuel) (suc more) (b ∷ bytes) h k =
    elim (Option-cases (next_push (b ∷ bytes))) [
      | inl bad ↦ rw bad refl
      | inr ((pushed, n), found) ↦
          let positive = next_push_lt (b ∷ bytes) pushed n found in
          let shorter = length-drop n (b ∷ bytes) in
          rw found (
            ap (λ (o : Option (List (List ℕ))). o >>= λ rest. some (pushed ∷ rest))
              (decode_loop_fuel fuel more (drop n (b ∷ bytes)) (omega (arith, shorter))
                (omega (arith, shorter))))
    ]
