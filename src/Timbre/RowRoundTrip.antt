-- ===== src/Timbre/RowRoundTrip.antt =====
-- The codecs of the cursor and of maps read back what they write; those of texts and characters lose.
use maestro_dogecoin_indexer.Prelude.{
  ℕ, ◌/◌, ◌%◌, ◌^◌, ◌≤◌, ◌<◌, ◌≡◌, ◌∙◌, ap, sym, refl, Bool, false, List, [], ◌∷◌, ◌++◌, arith,
  length, All, append_assoc, append-nil,
}
use maestro_dogecoin_indexer.Prelude.{All-append}
use maestro_dogecoin_indexer.Prelude.Words.{u32_max}
use maestro_dogecoin_indexer.Timbre.Bytes.{be_bytes, from_be_bytes, split_at_checked}
use maestro_dogecoin_indexer.Timbre.Result.{ok}
use maestro_dogecoin_indexer.Timbre.Codec.{Codec, uint, boolean, array, pair}
use maestro_dogecoin_indexer.Timbre.RoundTrip.{
  Lawful, uint-Lawful, boolean-Lawful, array-Lawful, pair-Lawful, option-Lawful, AllOf,
}
use maestro_dogecoin_indexer.Timbre.Rows.{
  CursorValue, mempool_codec, cursor_value, index_insert, encode_entries, decode_entries, index_map,
  from_utf8, split_at, string,
}

-- A 64-bit number.
abbrev U64 : ℕ → Type 0
U64 x = x < 256 ^ 8

abbrev Hash : List ℕ → Type 0
Hash bytes = length bytes ≡ 32

abbrev ValidInfo : (ℕ × List ℕ) × ℕ → Type 0
ValidInfo x = (U64 x.0.0 × Hash x.0.1) × U64 x.1

-- The widths of the fields.
pub record ValidCursor (c : CursorValue) : Type 0 where
  pub height : c.height < 256 ^ 8
  pub hash : length c.hash ≡ 32
  pub timestamp : c.timestamp < 256 ^ 8
  pub info : AllOf ValidInfo c.mempool_info

mempool-Lawful : Lawful mempool_codec (AllOf ValidInfo)
mempool-Lawful = option-Lawful (pair (pair (uint 8) (array 32)) (uint 8)) (
    pair-Lawful (pair (uint 8) (array 32)) (uint 8)
      (pair-Lawful (uint 8) (array 32) (uint-Lawful 8) (array-Lawful 32)) (uint-Lawful 8))

-- A cursor whose fields have their widths is read back from its encoding, whatever bytes follow.
pub cursor_value-encode :
    (c : CursorValue) (rest : List ℕ)
    → ValidCursor c
    → cursor_value.decode (cursor_value.encode c ++ rest) ≡ ok (c, rest)
unfolding cursor_value
cursor_value-encode c rest h =
    let info = mempool_codec.encode c.mempool_info in
    let time = (uint 8).encode c.timestamp in
    let flag = boolean.encode c.was_mempool in
    let hash = (array 32).encode c.hash in
    rw
      (
        append_assoc ((uint 8).encode c.height) (hash ++ (flag ++ (time ++ info))) rest,
        append_assoc hash (flag ++ (time ++ info)) rest,
        append_assoc flag (time ++ info) rest,
        append_assoc time info rest,
        (uint-Lawful 8).decode-encode c.height (hash ++ (flag ++ (time ++ (info ++ rest))))
            h.height,
        (array-Lawful 32).decode-encode c.hash (flag ++ (time ++ (info ++ rest))) h.hash,
        boolean-Lawful.decode-encode c.was_mempool (time ++ (info ++ rest)) tt,
        (uint-Lawful 8).decode-encode c.timestamp (info ++ rest) h.timestamp,
        mempool-Lawful.decode-encode c.mempool_info rest h.info,
      )
      refl

module _ {K V : Type 0} (same : K → K → Bool) where
  -- The keys of two entries differ.
  abbrev Apart : K × V → K × V → Type 0
  Apart e f = same e.0 f.0 ≡ false

  abbrev pub DistinctKeys : List (K × V) → Type 0
  DistinctKeys [] = Unit
  DistinctKeys (e ∷ entries) = All (Apart e) entries × DistinctKeys entries

  index_insert_new :
      (e : K × V) (entries : List (K × V))
      → All (λ f. Apart f e) entries
      → index_insert same e.0 e.1 entries ≡ entries ++ (e ∷ [])
  unfolding index_insert
  index_insert_new e [] h = refl
  index_insert_new e (f ∷ entries) (h, hs) = rw (h, index_insert_new e entries hs) refl

  -- Every key of the first list differs from every key of the second.
  abbrev ApartFrom : List (K × V) → List (K × V) → Type 0
  ApartFrom entries [] = Unit
  ApartFrom entries (e ∷ more) = All (λ f. Apart f e) entries × ApartFrom entries more

  ApartFrom-snoc :
      (entries more : List (K × V)) (e : K × V)
      → ApartFrom entries more
      → All (Apart e) more
      → ApartFrom (entries ++ (e ∷ [])) more
  ApartFrom-snoc entries [] e h k = tt
  ApartFrom-snoc entries (f ∷ more) e (h, hs) (k, ks) =
      (All-append (λ g. Apart g f) entries (e ∷ []) h (k, tt), ApartFrom-snoc entries more e hs ks)

  ApartFrom-empty : (more : List (K × V)) → ApartFrom [] more
  ApartFrom-empty [] = tt
  ApartFrom-empty (e ∷ more) = (tt, ApartFrom-empty more)

module _ {K V : Type 0} (same : K → K → Bool) (k : Codec K) (v : Codec V) {P : K → Type 0}
    {Q : V → Type 0} (lawful_k : Lawful k P) (lawful_v : Lawful v Q) where
  entries_read :
      (entries more : List (K × V)) (rest : List ℕ)
      → ApartFrom same entries more
      → DistinctKeys same more
      → All (λ (e : K × V). P e.0 × Q e.1) more
      → decode_entries same k v (length more) entries (encode_entries same k v more ++ rest)
        ≡ ok (entries ++ more, rest)
  unfolding decode_entries encode_entries
  entries_read entries [] rest apart distinct valid =
      ap (λ (m : List (K × V)). ok (m, rest)) (sym (append-nil entries))
  entries_read entries (e ∷ more) rest (apart, aparts) (new, distinct) ((p, q), valid) =
      let later = encode_entries same k v more in
      rw
        (
          append_assoc (k.encode e.0 ++ v.encode e.1) later rest,
          append_assoc (k.encode e.0) (v.encode e.1) (later ++ rest),
          lawful_k.decode-encode e.0 (v.encode e.1 ++ (later ++ rest)) p,
          lawful_v.decode-encode e.1 (later ++ rest) q,
          index_insert_new same e entries apart,
        )
        (entries_read (entries ++ (e ∷ [])) more rest
            (ApartFrom-snoc same entries more e aparts new) distinct valid
          ∙ ap (λ (m : List (K × V)). ok (m, rest)) (append_assoc entries (e ∷ []) more))

  -- Take codecs of keys and values that read back what they write. A map of fewer than 2 ^ 64 entries with
  -- distinct keys, all valid for the two codecs, is read back in the order of its entries, whatever bytes
  -- follow.
  pub index_map-encode :
      (m : List (K × V)) (rest : List ℕ)
      → length m < 256 ^ 8
      → DistinctKeys same m
      → All (λ (e : K × V). P e.0 × Q e.1) m
      → (index_map same k v).decode ((index_map same k v).encode m ++ rest) ≡ ok (m, rest)
  unfolding index_map
  index_map-encode m rest few distinct valid =
      rw
        (
          append_assoc ((uint 8).encode (length m)) (encode_entries same k v m) rest,
          (uint-Lawful 8).decode-encode (length m) (encode_entries same k v m ++ rest) few,
          entries_read [] m rest (ApartFrom-empty same m) distinct valid,
        )
        refl

-- The first 4 of the 8 bytes of a small number are zeros.
high_bytes :
    (n : ℕ) (rest : List ℕ)
    → n ≤ u32_max
    → split_at 4 (be_bytes 8 n ++ rest) ≡ ok (0 ∷ 0 ∷ 0 ∷ 0 ∷ [], be_bytes 4 n ++ rest)
unfolding split_at split_at_checked be_bytes
high_bytes n rest h =
    let e7 : n / 256 ^ 7 ≡ 0 = omega arith in
    let m7 : n % 256 ^ 7 ≡ n = omega arith in
    let e6 : n / 256 ^ 6 ≡ 0 = omega arith in
    let m6 : n % 256 ^ 6 ≡ n = omega arith in
    let e5 : n / 256 ^ 5 ≡ 0 = omega arith in
    let m5 : n % 256 ^ 5 ≡ n = omega arith in
    let e4 : n / 256 ^ 4 ≡ 0 = omega arith in
    let m4 : n % 256 ^ 4 ≡ n = omega arith in rw (m7, m6, m5, m4, e7, e6, e5, e4) refl

no_length :
    (bytes more : List ℕ)
    → split_at 4 bytes ≡ ok (0 ∷ 0 ∷ 0 ∷ 0 ∷ [], more)
    → string.decode bytes ≡ ok ([], [])
unfolding string uint from_utf8 from_be_bytes split_at_checked
no_length bytes more h = rw (h, string) refl

-- A text shorter than 2 ^ 32 bytes is written behind its length in 8 bytes, of which the decoder reads the
-- first 4 as the length: it answers with the empty text, and with nothing of what follows.
pub string_lost :
    (s rest : List ℕ) → length s ≤ u32_max → string.decode (string.encode s ++ rest) ≡ ok ([], [])
unfolding string uint
string_lost s rest h = no_length (string.encode s ++ rest) (be_bytes 4 (length s) ++ (s ++ rest)) (
    ap (split_at 4) (append_assoc (be_bytes 8 (length s)) s rest)
    ∙ high_bytes (length s) (s ++ rest) h)
