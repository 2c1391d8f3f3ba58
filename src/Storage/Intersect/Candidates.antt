-- ===== src/Storage/Intersect/Candidates.antt =====
-- Which blocks `intersect_options` (services/compressor-xdg/src/storage/mod.rs) offers.
use maestro_dogecoin_indexer.Prelude.{
  ℕ, zero, suc, ◌+◌, ◌-◌, ◌*◌, ◌%◌, ◌^◌, ◌≤◌, ◌<◌, ◌≡◌, ◌∙◌, ap, refl, true, false, Option, some,
  List, [], ◌∷◌, ◌++◌, map, map, leb, ◌==◌, if◌then◌else◌, inl, inr, Bool-cases, arith, All,
}
use maestro_dogecoin_indexer.Storage.Intersect.{
  candidates, indexes_loop, fetch_blocks, with_genesis, intersect_options,
}

-- The heights fall, from below this one, and are above 0.
abbrev pub Falls : ℕ → List ℕ → Type 0
Falls index [] = Unit
Falls index (i ∷ indexes) = (i < index) × (1 ≤ i) × Falls i indexes

abbrev next_step : ℕ → ℕ → ℕ
next_step count step = if leb 10 (count + 1) then step * 2 % 2 ^ 64 else step

-- The step does not overflow, and the next height is lower.
next_facts :
    (count step index : ℕ)
    → 1 ≤ step
    → index + step * 2 < 2 ^ 64
    → (index - next_step count step == 0) ≡ false
    → let step' = next_step count step in
      (1 ≤ step') × (index - step' < index) × (index - step' + step' * 2 < 2 ^ 64)
next_facts count step index one narrow on = elim (Bool-cases (leb 10 (count + 1))) [
  | inl doubles ↦ rw doubles (ground (arith, one, narrow, rw doubles at on))
  | inr keeps ↦ rw keeps (ground (arith, one, narrow, rw keeps at on))
]

indexes_loop-Falls :
    (fuel count step index bound : ℕ)
    → index < bound
    → 1 ≤ index
    → index ≤ fuel
    → 1 ≤ step
    → index + step * 2 < 2 ^ 64
    → (indexes : List ℕ) × Falls bound (index ∷ indexes)
      × ((more : ℕ) → indexes_loop (suc (fuel + more)) count step index ≡ (index ∷ indexes))
unfolding indexes_loop
indexes_loop-Falls zero count step index bound low high enough one narrow =
    let last : (index - next_step count step == 0) ≡ true = ground (arith, enough) in
    ([], (low, high, tt), λ more. rw (indexes_loop, last) refl)
indexes_loop-Falls (suc fuel) count step index bound low high enough one narrow =
    elim (Bool-cases (index - next_step count step == 0)) [
      | inl last ↦ ([], (low, high, tt), λ more. rw (indexes_loop, last) refl)
      | inr on ↦
          let step' = next_step count step in
          let shift : (more : ℕ) → suc fuel + more ≡ suc (fuel + more) = λ more. omega arith in
          let (one', lower, narrow') = next_facts count step index one narrow on in
          let (indexes, falls, same) =
            indexes_loop-Falls fuel (count + 1) step' (index - step') index lower
              (ground (arith, on)) (omega (arith, lower, enough)) one' narrow' in
          (
            (index - step') ∷ indexes,
            (low, high, falls),
            λ more. rw (shift more, indexes_loop, on) (ap (λ (l : List ℕ). index ∷ l) (same more)),
          )
    ]

fetch_blocks-Falls :
    (blocks : ℕ → Option ℕ) (tip bound : ℕ) (indexes : List ℕ)
    → bound ≤ tip + 1
    → Falls bound indexes
    → ((h : ℕ) → 1 ≤ h → h ≤ tip → (hash : ℕ) × (blocks h ≡ some hash))
    → (out : List (ℕ × ℕ)) × (fetch_blocks blocks indexes ≡ candidates out)
      × (map (λ (e : ℕ × ℕ). e.0) out ≡ indexes)
      × All (λ (e : ℕ × ℕ). blocks e.0 ≡ some e.1) out
unfolding fetch_blocks
fetch_blocks-Falls blocks tip bound [] within falls stored = ([], refl, refl, tt)
fetch_blocks-Falls blocks tip bound (i ∷ indexes) within (low, high, falls) stored =
    let (hash, there) = stored i high (omega (arith, low, within)) in
    let (out, ran, heights, found) =
      fetch_blocks-Falls blocks tip i indexes (omega (arith, low, within)) falls stored in
    (
      (i, hash) ∷ out,
      rw (fetch_blocks, there, ran) refl,
      ap (λ (l : List ℕ). i ∷ l) heights,
      (there, found),
    )

-- Let the blocks from height 1 up to the tip be stored, and let the tip be above 0 and below 2^64 - 2. Then
-- `intersect_options` fails on no missing block. It offers the tip first, then stored blocks at falling heights
-- above 0, and the genesis block last.
pub intersect_options-Falls :
    (blocks : ℕ → Option ℕ) (tip genesis_hash : ℕ)
    → 1 ≤ tip
    → tip + 2 < 2 ^ 64
    → ((h : ℕ) → 1 ≤ h → h ≤ tip → (hash : ℕ) × (blocks h ≡ some hash))
    → (out : List (ℕ × ℕ)) × (indexes : List ℕ) × (intersect_options blocks (some tip) genesis_hash
        ≡ candidates (out ++ (0, genesis_hash) ∷ []))
      × (map (λ (e : ℕ × ℕ). e.0) out ≡ tip ∷ indexes)
      × Falls tip indexes
      × All (λ (e : ℕ × ℕ). blocks e.0 ≡ some e.1) out
unfolding intersect_options with_genesis
intersect_options-Falls blocks tip genesis_hash high narrow stored =
    let (indexes, falls, ran) =
      indexes_loop-Falls tip 0 1 tip (tip + 1) (omega arith) high (omega arith) (omega arith)
        (omega (arith, narrow)) in
    let same : indexes_loop (suc tip) 0 1 tip ≡ (tip ∷ indexes) =
      ap (λ (n : ℕ). indexes_loop (suc n) 0 1 tip) (omega arith) ∙ ran 0 in
    let (out, fetched, heights, found) =
      fetch_blocks-Falls blocks tip (tip + 1) (tip ∷ indexes) (omega arith) falls stored in
    (out, indexes, rw (same, fetched) refl, heights, falls.2, found)
