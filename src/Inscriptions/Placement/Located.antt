-- ===== src/Inscriptions/Placement/Located.antt =====
-- Each floating inscription goes to the output that holds its offset
-- (services/compressor-xdg/src/storage/inscriptions/updater.rs).
use mathlib.Core.List.{Perm}
use mathlib.Core.Path.{subst}
use maestro_dogecoin_indexer.Prelude.{
  ℕ, suc, ◌+◌, ◌-◌, ◌≤◌, ◌<◌, ◌≡◌, ◌∙◌, ap, sym, refl, some, List, [], ◌∷◌, ◌++◌, leb, get_elem?,
  take, map, All, All-append, append_assoc, arith, inl, inr, Bool-cases,
}
use maestro_dogecoin_indexer.Prelude.Words.{u64_max, add64, sub64}
use maestro_dogecoin_indexer.Bitcoin.{OutPoint, TxOut}
use maestro_dogecoin_indexer.Inscriptions.Placement.{
  SatPoint, Flotsam, sort_by_offset, satpoint_at, place_in, place_outputs,
}
use maestro_dogecoin_indexer.Inscriptions.Placement.Sorted.{
  AtLeast, IsSorted, AtLeast-le, sort-IsSorted, sort-perm,
}

abbrev pub moved : SatPoint × Flotsam → Flotsam
moved x = x.1

map-append :
    (xs ys : List (SatPoint × Flotsam)) → map moved (xs ++ ys) ≡ map moved xs ++ map moved ys
map-append [] ys = refl
map-append (x ∷ xs) ys = ap (λ (l : List Flotsam). x.1 ∷ l) (map-append xs ys)

All-map :
    {A : Type 0} (P Q : A → Type 0) (xs : List A) → ((a : A) → P a → Q a) → All P xs → All Q xs
All-map P Q [] f h = tt
All-map P Q (x ∷ xs) f (h, hs) = (f x h, All-map P Q xs f hs)

-- What one output takes: the inscriptions up to its end, each at its offset from the start of the output.
record Takes (txid vout start end : ℕ) (flotsam : List Flotsam)
    (result : List (SatPoint × Flotsam) × List Flotsam) : Type 0 where
  conserved : map moved result.0 ++ result.1 ≡ flotsam
  within :
      All
        (λ (x : SatPoint × Flotsam).
          (x.0 ≡ satpoint_at txid vout (x.1.offset - start))
          × (start ≤ x.1.offset)
          × (x.1.offset < end))
        result.0
  behind : AtLeast end result.1
  sorted : IsSorted result.1

place_in-Takes :
    (txid vout start end : ℕ) (flotsam : List Flotsam)
    → end ≤ u64_max
    → IsSorted flotsam
    → AtLeast start flotsam
    → Takes txid vout start end flotsam (place_in txid vout start end flotsam)
unfolding place_in
place_in-Takes txid vout start end [] fits s above = record {
  conserved = refl;
  within = tt;
  behind = tt;
  sorted = tt;
}
place_in-Takes txid vout start end (f ∷ flotsam) fits (first, s) (above, others) =
    elim (Bool-cases (leb end f.offset)) [
      | inl later ↦
          let le : end ≤ f.offset = ground arith in
          rw later (record {
            conserved = refl;
            within = tt;
            behind = (le, AtLeast-le end f.offset flotsam le first);
            sorted = (first, s);
          })
      | inr here ↦
          let lt : f.offset < end = ground arith in
          let rest = place_in-Takes txid vout start end flotsam fits s others in
          let exact : sub64 f.offset start ≡ f.offset - start = omega arith in
          rw here (record {
            conserved = ap (λ (l : List Flotsam). f ∷ l) rest.conserved;
            within = ((ap (satpoint_at txid vout) exact, above, lt), rest.within);
            behind = rest.behind;
            sorted = rest.sorted;
          })
    ]

all_positive : (flotsam : List Flotsam) → AtLeast 0 flotsam
all_positive [] = tt
all_positive (f ∷ flotsam) = (omega arith, all_positive flotsam)

module _ {Script : Type 0} where
  unfoldable pub values : List (TxOut Script) → ℕ
  values [] = 0
  values (o ∷ outputs) = o.value + values outputs

  -- The inscription stands in output number `vout + i`, at its offset from the values of the outputs before it.
  pub record IsLocated (txid vout start : ℕ) (outputs : List (TxOut Script))
      (x : SatPoint × Flotsam) : Type 0 where
    pub i : ℕ
    pub output : TxOut Script
    pub exists : get_elem? outputs i ≡ some output
    pub outpoint : x.0.outpoint ≡ record { txid = txid; vout = vout + i }
    pub offset : start + values (take i outputs) + x.0.offset ≡ x.1.offset
    pub inside : x.0.offset < output.value

  -- The result of the loop over the outputs.
  pub record ArePlaced (txid vout start : ℕ) (outputs : List (TxOut Script))
      (flotsam : List Flotsam) (result : List (SatPoint × Flotsam) × List Flotsam) : Type 0 where
    pub conserved : map moved result.0 ++ result.1 ≡ flotsam
    pub located : All (IsLocated txid vout start outputs) result.0
    pub lost : AtLeast (start + values outputs) result.1

  IsLocated-here :
      (txid vout start : ℕ) (o : TxOut Script) (outputs : List (TxOut Script))
      (x : SatPoint × Flotsam)
      → (x.0 ≡ satpoint_at txid vout (x.1.offset - start))
        × (start ≤ x.1.offset)
        × (x.1.offset < start + o.value)
      → IsLocated txid vout start (o ∷ outputs) x
  unfolding values
  IsLocated-here txid vout start o outputs x (e, le, lt) =
      let at : x.0.offset ≡ x.1.offset - start = ap (λ (s : SatPoint). s.offset) e in
      record {
        i = 0;
        output = o;
        exists = refl;
        outpoint =
            ap (λ (s : SatPoint). s.outpoint) e
            ∙ ap (λ (n : ℕ). let p : OutPoint = record { txid = txid; vout = n } in p)
                (omega arith);
        offset = omega arith;
        inside = omega arith;
      }

  IsLocated-later :
      (txid vout start : ℕ) (o : TxOut Script) (outputs : List (TxOut Script))
      (x : SatPoint × Flotsam)
      → IsLocated txid (vout + 1) (start + o.value) outputs x
      → IsLocated txid vout start (o ∷ outputs) x
  unfolding values
  IsLocated-later txid vout start o outputs x l = record {
    i = suc l.i;
    output = l.output;
    exists = l.exists;
    outpoint =
        l.outpoint
        ∙ ap (λ (n : ℕ). let p : OutPoint = record { txid = txid; vout = n } in p) (omega arith);
    offset = omega (arith, l.offset);
    inside = l.inside;
  }

  place_outputs-ArePlaced :
      (txid vout start : ℕ) (outputs : List (TxOut Script)) (flotsam : List Flotsam)
      → start + values outputs ≤ u64_max
      → IsSorted flotsam
      → AtLeast start flotsam
      → ArePlaced txid vout start outputs flotsam (place_outputs txid vout start outputs flotsam)
  unfolding place_outputs values
  place_outputs-ArePlaced txid vout start [] flotsam fits s above = record {
    conserved = refl;
    located = tt;
    lost = AtLeast-le (start + 0) start flotsam (omega arith) above;
  }
  place_outputs-ArePlaced txid vout start (o ∷ outputs) flotsam fits s above =
      let end : add64 start o.value ≡ start + o.value = omega arith in
      let stop = start + o.value in
      let (placed, left) = place_in txid vout start stop flotsam in
      let here = place_in-Takes txid vout start stop flotsam (omega arith) s above in
      let (placed', lost) = place_outputs txid (vout + 1) stop outputs left in
      let later =
        place_outputs-ArePlaced txid (vout + 1) stop outputs left (omega arith) here.sorted
          here.behind in
      rw end (record {
        conserved =
            ap (λ (l : List Flotsam). l ++ lost) (map-append placed placed')
            ∙ append_assoc (map moved placed) (map moved placed') lost
            ∙ ap (λ (l : List Flotsam). map moved placed ++ l) later.conserved
            ∙ here.conserved;
        located =
            All-append _ placed placed'
              (All-map _ _ placed (IsLocated-here txid vout start o outputs) here.within)
              (All-map _ _ placed' (IsLocated-later txid vout start o outputs) later.located);
        lost =
            AtLeast-le (start + values (o ∷ outputs)) (stop + values outputs) lost (omega arith)
              later.lost;
      })

  -- Let the values of the outputs sum up to at most 2^64 - 1. Of the floating inscriptions, sorted by
  -- their offsets, each whose offset is below the sum of the output values is put into the output that holds
  -- this offset, at its distance from the values of the outputs before; just the others are
  -- left, all with offsets of the sum or more; and none is dropped or doubled.
  pub place_outputs-sort :
      (txid : ℕ) (outputs : List (TxOut Script)) (flotsam : List Flotsam)
      → values outputs ≤ u64_max
      → let result = place_outputs txid 0 0 outputs (sort_by_offset flotsam) in
        Perm (map moved result.0 ++ result.1) flotsam
        × All (IsLocated txid 0 0 outputs) result.0
        × AtLeast (values outputs) result.1
  place_outputs-sort txid outputs flotsam fits =
      let sorted = sort_by_offset flotsam in
      let result = place_outputs txid 0 0 outputs sorted in
      let placed =
        place_outputs-ArePlaced txid 0 0 outputs sorted (omega arith) (sort-IsSorted flotsam)
          (all_positive sorted) in
      (
        subst (λ (l : List Flotsam). Perm l flotsam) (sym placed.conserved) (sort-perm flotsam),
        placed.located,
        AtLeast-le (values outputs) (0 + values outputs) result.1 (omega arith) placed.lost,
      )
