-- ===== src/Dunes/Dunestone/Integers.antt =====
-- `integers` reads any payload to its end, and reads back what a list of varints encodes.
use maestro_dogecoin_indexer.Prelude.{
  ℕ, zero, suc, ◌≤◌, ◌≡◌, refl, ap, ◌∙◌, Option, some, List, [], ◌∷◌, ◌++◌, arith, ◌>>=◌, length,
  drop, length-drop, drop_prefix, All, length-append,
}
use maestro_dogecoin_indexer.Prelude.Words.{u128_max}
use maestro_dogecoin_indexer.Varint.{encode, decode}
use maestro_dogecoin_indexer.Varint.RoundTrip.{decode_takes, decode-encode}
use maestro_dogecoin_indexer.Dunes.Dunestone.Payload.{integers_loop, integers}

integers_loop_total :
    (fuel : ℕ) (bytes : List ℕ)
    → length bytes ≤ fuel
    → (ns : List ℕ) × (integers_loop fuel bytes ≡ some ns) × (length ns ≤ length bytes)
unfolding integers_loop
integers_loop_total fuel [] h = ([], refl, omega arith)
integers_loop_total zero (b ∷ bytes) h = absurd (omega arith)
integers_loop_total (suc fuel) (b ∷ bytes) h =
    let taken = (decode (b ∷ bytes)).1 in
    let (ns, e, shorter) =
      integers_loop_total fuel (drop taken (b ∷ bytes))
        (omega (arith, length-drop taken (b ∷ bytes), decode_takes b bytes)) in
    (
      (decode (b ∷ bytes)).0 ∷ ns,
      rw e,
      omega (arith, length-drop taken (b ∷ bytes), decode_takes b bytes),
    )

-- `integers` ends on every payload, with at most one integer for each byte.
pub integers_total :
    (bytes : List ℕ) → (ns : List ℕ) × (integers bytes ≡ some ns) × (length ns ≤ length bytes)
unfolding integers
integers_total bytes = integers_loop_total (length bytes) bytes (omega arith)

-- The encodings of a list of integers, one behind the other.
unfoldable pub encode_all : List ℕ → Option (List ℕ)
encode_all [] = some []
encode_all (n ∷ ns) = do bytes ← encode n; rest ← encode_all ns; some (bytes ++ rest)

-- One round of the loop at an encoding.
integers_loop_step :
    (fuel n b : ℕ) (bytes rest : List ℕ)
    → decode ((b ∷ bytes) ++ rest) ≡ (n, length (b ∷ bytes))
    → integers_loop (suc fuel) ((b ∷ bytes) ++ rest)
      ≡ (integers_loop fuel rest >>= λ more. some (n ∷ more))
unfolding integers_loop
integers_loop_step fuel n b bytes rest e =
    rw (e, drop_prefix (length (b ∷ bytes)) (b ∷ bytes) rest refl)

-- Bytes that read as a list of integers, one after the other.
data Reads : List ℕ → List ℕ → Type 0 where
  done : Reads [] []
  next :
      (n b : ℕ) (bytes rest ns all : List ℕ)
      → all ≡ (b ∷ bytes) ++ rest
      → decode ((b ∷ bytes) ++ rest) ≡ (n, length (b ∷ bytes))
      → Reads ns rest
      → Reads (n ∷ ns) all

encode_all-Reads :
    (ns : List ℕ)
    → All (λ n. n ≤ u128_max) ns
    → (bytes : List ℕ) × (encode_all ns ≡ some bytes) × Reads ns bytes
unfolding encode_all
encode_all-Reads [] h = ([], refl, done)
encode_all-Reads (n ∷ ns) (h, hs) =
    let (rest, e, reads) = encode_all-Reads ns hs in
    let (bytes, f, low, high, d) = decode-encode n rest h in
    (bytes ++ rest, rw (f, e), first bytes rest low d reads)
  where
    first :
        (bytes rest : List ℕ)
        → 1 ≤ length bytes
        → decode (bytes ++ rest) ≡ (n, length bytes)
        → Reads ns rest
        → Reads (n ∷ ns) (bytes ++ rest)
    first [] rest low d reads = absurd (omega arith)
    first (b ∷ bytes) rest low d reads = next n b bytes rest ns _ refl d reads

integers_loop-Reads :
    (fuel : ℕ) {ns bytes : List ℕ}
    → Reads ns bytes
    → length bytes ≤ fuel
    → integers_loop fuel bytes ≡ some ns
integers_loop-Reads fuel done h = unfold integers_loop in refl
integers_loop-Reads zero (next n b bytes rest ns all e d reads) h =
    absurd (omega (arith, ap length e))
integers_loop-Reads (suc fuel) (next n b bytes rest ns all e d reads) h = rw e (
    integers_loop_step fuel n b bytes rest d
    ∙ rw (integers_loop-Reads fuel reads (omega (arith, ap length e, length-append bytes rest))))

-- The encodings of any u128s, one behind the other, are read back by `integers`.
pub integers-encode_all :
    (ns : List ℕ)
    → All (λ n. n ≤ u128_max) ns
    → (bytes : List ℕ) × (encode_all ns ≡ some bytes) × (integers bytes ≡ some ns)
unfolding integers
integers-encode_all ns h =
    let (bytes, e, reads) = encode_all-Reads ns h in
    (bytes, e, integers_loop-Reads (length bytes) reads (omega arith))
