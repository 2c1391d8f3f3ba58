-- ===== src/Timbre/RoundTrip.antt =====
-- The decoders of crates/timbre-xbt/src/encdec read back what the encoders write.
use maestro_dogecoin_indexer.Prelude.{
  ℕ, ◌-◌, ◌%◌, ◌^◌, ◌≤◌, ◌<◌, ◌≡◌, ◌∙◌, ap, sym, refl, false, Option, none, some, List, [], ◌∷◌,
  ◌++◌, arith, ltb, ◌==◌, length, All, Bool-cases, inl, inr, append_assoc,
}
use mathlib.Core.Path.{subst}
use maestro_dogecoin_indexer.Prelude.Words.{u32_max, u64_max, u128_max}
use maestro_dogecoin_indexer.Timbre.Result.{ok, ◌>>=◌}
use maestro_dogecoin_indexer.Timbre.Bytes.{
  be_bytes, from_be_bytes, split_at_checked, length-be_bytes, from_be_bytes-be_bytes,
  from_be_bytes-replicate, split_at_checked-append,
}
use maestro_dogecoin_indexer.Timbre.Codec.{
  Codec, uint, boolean, array, short_byte_string, varuint, varuint_loop, varuint_decode, pair,
  option, encode_items, decode_items, vec, timbre_vec,
}

-- The valid values are read back, whatever bytes follow.
pub record Lawful {A : Type 0} (c : Codec A) (Valid : A → Type 0) : Type 0 where
  pub decode-encode :
      (x : A) (rest : List ℕ) → Valid x → c.decode (c.encode x ++ rest) ≡ ok (x, rest)

-- A value that is there is valid.
abbrev pub AllOf : {A : Type 0} → (A → Type 0) → Option A → Type 0
AllOf P none = Unit
AllOf P (some x) = P x

split_exact :
    (n : ℕ) (xs rest : List ℕ) → length xs ≡ n → split_at_checked n (xs ++ rest) ≡ some (xs, rest)
split_exact n xs rest e =
    subst (λ (k : ℕ). split_at_checked k (xs ++ rest) ≡ some (xs, rest)) e
      (split_at_checked-append xs rest)

pub uint-Lawful : (n : ℕ) → Lawful (uint n) (λ x. x < 256 ^ n)
unfolding uint
uint-Lawful n = record {
  decode-encode = λ x rest h.
      rw (split_exact n (be_bytes n x) rest (length-be_bytes n x), from_be_bytes-be_bytes n 0 x h)
        (ap (λ (k : ℕ). ok (k, rest)) (omega arith));
}

pub boolean-Lawful : Lawful boolean (λ _. Unit {0})
unfolding boolean
boolean-Lawful = record {
  decode-encode = λ b rest _. elim (Bool-cases b) [ inl t ↦ rw t | inr f ↦ rw f ];
}

pub array-Lawful : (n : ℕ) → Lawful (array n) (λ bytes. length bytes ≡ n)
unfolding array
array-Lawful n = record { decode-encode = λ bytes rest h. rw (split_exact n bytes rest h) refl }

pub short_byte_string-Lawful : Lawful short_byte_string (λ bytes. length bytes ≤ 255)
unfolding short_byte_string
short_byte_string-Lawful = record {
  decode-encode = λ bytes rest h.
      let e : length bytes % 2 ^ 8 ≡ length bytes = omega arith in
      rw (e, split_at_checked-append bytes rest) refl;
}

varuint_decode_exact :
    (xs rest : List ℕ)
    → length xs ≤ 16
    → varuint_decode (length xs ∷ (xs ++ rest)) ≡ ok (from_be_bytes 0 xs, rest)
unfolding varuint_decode
varuint_decode_exact xs rest h =
    let fits : ltb 16 (length xs) ≡ false = ground arith in
    rw (fits, split_at_checked-append xs rest, from_be_bytes-replicate (16 - length xs) xs) refl

varuint_loop_read :
    (bytes rest : List ℕ)
    → length bytes ≤ 16
    → varuint_decode (varuint_loop bytes ++ rest) ≡ ok (from_be_bytes 0 bytes, rest)
unfolding varuint_loop varuint_decode from_be_bytes
varuint_loop_read [] rest h = refl
varuint_loop_read (b ∷ bytes) rest h = elim (Bool-cases (b == 0)) [
  | inl zero_byte ↦ rw zero_byte (
      varuint_loop_read bytes rest (omega arith)
      ∙ ap (λ (k : ℕ). ok (from_be_bytes k bytes, rest)) (ground arith))
  | inr some_byte ↦ rw some_byte (varuint_decode_exact (b ∷ bytes) rest h)
]

pub varuint-Lawful : Lawful varuint (λ x. x ≤ u128_max)
unfolding varuint
varuint-Lawful = record {
  decode-encode = λ x rest h.
      varuint_loop_read (be_bytes 16 x) rest (omega (arith, length-be_bytes 16 x))
      ∙ ap (λ (k : ℕ). ok (k, rest)) (from_be_bytes-be_bytes 16 0 x (omega arith) ∙ omega arith);
}

module _ {A B : Type 0} (a : Codec A) (b : Codec B) {P : A → Type 0} {Q : B → Type 0}
    (lawful_a : Lawful a P) (lawful_b : Lawful b Q) where
  pub pair-Lawful : Lawful (pair a b) (λ (x : A × B). P x.0 × Q x.1)
  unfolding pair
  pair-Lawful = record {
    decode-encode = λ x rest h.
        rw
          (
            append_assoc (a.encode x.0) (b.encode x.1) rest,
            lawful_a.decode-encode x.0 (b.encode x.1 ++ rest) h.0,
            lawful_b.decode-encode x.1 rest h.1,
          )
          refl;
  }

module _ {A : Type 0} (a : Codec A) {P : A → Type 0} (lawful : Lawful a P) where
  items_lem :
      (xs : List A) (rest : List ℕ)
      → All P xs
      → decode_items a (length xs) (encode_items a xs ++ rest) ≡ ok (xs, rest)
  unfolding decode_items encode_items
  items_lem [] rest h = refl
  items_lem (x ∷ xs) rest (h, hs) =
      rw
        (
          append_assoc (a.encode x) (encode_items a xs) rest,
          lawful.decode-encode x (encode_items a xs ++ rest) h,
          items_lem xs rest hs,
        )
        refl

  -- A list behind its length in `n` bytes.
  counted_read :
      (n : ℕ) (xs : List A) (rest : List ℕ)
      → length xs < 256 ^ n
      → All P xs
      → ((uint n).decode (((uint n).encode (length xs) ++ encode_items a xs) ++ rest) >>= λ len.
          decode_items a len.0 len.1)
        ≡ ok (xs, rest)
  counted_read n xs rest h hs =
      rw
        (
          append_assoc ((uint n).encode (length xs)) (encode_items a xs) rest,
          (uint-Lawful n).decode-encode (length xs) (encode_items a xs ++ rest) h,
          items_lem xs rest hs,
        )
        refl

  pub vec-Lawful : Lawful (vec a) (λ xs. (length xs ≤ u32_max) × All P xs)
  unfolding vec
  vec-Lawful = record {
    decode-encode = λ xs rest h.
        let e : length xs % 2 ^ 32 ≡ length xs = omega (arith, h.0) in
        subst
          (λ (n : ℕ).
            ((uint 4).decode (((uint 4).encode n ++ encode_items a xs) ++ rest) >>= λ len.
            decode_items a len.0 len.1)
            ≡ ok (xs, rest))
          (sym e) (counted_read 4 xs rest (omega (arith, h.0)) h.1);
  }

  -- Take a codec of items that reads back what it writes. A list of fewer than 2 ^ 64 items that are valid
  -- for it is read back from a `VarUInt` of its length and its items, whatever bytes follow.
  pub timbre_vec-encode :
      (xs : List A) (rest : List ℕ)
      → length xs ≤ u64_max
      → All P xs
      → (timbre_vec a).decode ((timbre_vec a).encode xs ++ rest) ≡ ok (xs, rest)
  unfolding timbre_vec
  timbre_vec-encode xs rest few valid =
      let fits : ltb u64_max (length xs) ≡ false = ground arith in
      rw
        (
          append_assoc (varuint.encode (length xs)) (encode_items a xs) rest,
          varuint-Lawful.decode-encode (length xs) (encode_items a xs ++ rest) (omega arith),
          fits,
          items_lem xs rest valid,
        )
        refl

  option_read :
      (o : Option A) (rest : List ℕ)
      → AllOf P o
      → (option a).decode ((option a).encode o ++ rest) ≡ ok (o, rest)
  unfolding option
  option_read none rest h = refl
  option_read (some x) rest h = rw (lawful.decode-encode x rest h) refl

  pub option-Lawful : Lawful (option a) (AllOf P)
  option-Lawful = record { decode-encode = option_read }
