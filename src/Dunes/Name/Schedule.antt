-- ===== src/Dunes/Name/Schedule.antt =====
-- The schedule of the shortest name that can be etched: total, and never rising with the height.
use maestro_dogecoin_indexer.Prelude.{
  ℕ, zero, suc, ◌+◌, ◌-◌, ◌*◌, ◌/◌, ◌%◌, ◌^◌, ◌≤◌, ◌<◌, min, ◌≡◌, refl, true, some, leb, ltb,
  if◌then◌else◌, arith, Bool-cases, inl, inr, get_elem?, unwrap_or, is_some,
}
use native.Mathlib.Decide.{dec_lt}
use maestro_dogecoin_indexer.Prelude.Bits.{all_below, all_below→true}
use maestro_dogecoin_indexer.Prelude.Words.{u32_max}
use maestro_dogecoin_indexer.Dunes.Constants.{Chain, mainnet, first_dune_height, steps}
use maestro_dogecoin_indexer.Dunes.Name.{minimum_at_height}

abbrev halving_interval : ℕ
halving_interval = 210000

-- A point of the line from `high` down to `low`, `r` blocks of `interval` after its start.
between : ℕ → ℕ → ℕ → ℕ
between low high r = high - (high - low) * r / 175000

between_bounds :
    (low high r : ℕ)
    → low ≤ high
    → r < 175000
    → (low ≤ between low high r) × (between low high r ≤ high)
unfolding between
between_bounds low high r h hr = (grind arith, omega arith)

between_falls : (low high r s : ℕ) → low ≤ high → r ≤ s → between low high s ≤ between low high r
unfolding between
between_falls low high r s h hr = grind arith

step_at : ℕ → ℕ
step_at k = unwrap_or (get_elem? steps k) 0

step_table : all_below 27 (λ k. leb (step_at k) (step_at (k + 1))) ≡ true
unfolding all_below step_at
step_table = refl

step_next : (k : ℕ) → k < 27 → step_at k ≤ step_at (k + 1)
step_next k h =
    ground (arith, all_below→true 27 (λ k. leb (step_at k) (step_at (k + 1))) k step_table)

step_mono : (j d : ℕ) → j + d < 28 → step_at j ≤ step_at (j + d)
step_mono j zero h = let e : j + zero ≡ j = omega arith in rw e (omega arith)
step_mono j (suc d) h =
    let e : j + suc d ≡ j + d + 1 = omega arith in
    rw e (omega (arith, step_mono j d (omega arith), step_next (j + d) (omega arith)))

gap_mono : (j k : ℕ) → j ≤ k → k < 28 → step_at j ≤ step_at k
gap_mono j k h hk =
    let e : j + (k - j) ≡ k = omega arith in rw e at (step_mono j (k - j) (omega arith))

step_table_some : all_below 13 (λ k. is_some (get_elem? steps k)) ≡ true
unfolding all_below
step_table_some = refl

step-get : (k : ℕ) → k < 13 → get_elem? steps k ≡ some (step_at k)
unfolding step_at
step-get k h =
    ground (arith, all_below→true 13 (λ k. is_some (get_elem? steps k)) k step_table_some)

-- The name unlocked `p` blocks into the schedule.
progress_minimum : ℕ → ℕ
progress_minimum p = between (step_at (11 - p / 175000)) (step_at (12 - p / 175000)) (p % 175000)

progress_minimum_falls : (p q : ℕ) → p ≤ q → q < 2100000 → progress_minimum q ≤ progress_minimum p
unfolding progress_minimum
progress_minimum_falls p q h hq = elim (dec_lt (p / 175000) (q / 175000)) [
  | yes later ↦ omega (
    arith,
    gap_mono (12 - q / 175000) (11 - p / 175000) (omega arith) (omega arith),
    between_bounds (step_at (11 - p / 175000)) (step_at (12 - p / 175000)) (p % 175000)
        (gap_mono _ _ (omega arith) (omega arith)) (omega arith),
    between_bounds (step_at (11 - q / 175000)) (step_at (12 - q / 175000)) (q % 175000)
        (gap_mono _ _ (omega arith) (omega arith)) (omega arith),
  )
  | no same ↦
      let e : q / 175000 ≡ p / 175000 = omega arith in
      rw e (
        between_falls _ _ (p % 175000) (q % 175000) (gap_mono _ _ (omega arith) (omega arith))
          (omega arith))
]

progress_minimum-le : (p : ℕ) → p < 2100000 → progress_minimum p ≤ step_at 12
unfolding progress_minimum
progress_minimum-le p h = omega (
  arith,
  gap_mono (12 - p / 175000) 12 (omega arith) (omega arith),
  between_bounds (step_at (11 - p / 175000)) (step_at (12 - p / 175000)) (p % 175000)
      (gap_mono _ _ (omega arith) (omega arith)) (omega arith),
)

-- The shortest name at a height, as a number, for a schedule that starts at `start`: names of 13
-- letters before it, every name after it, and between them a line for each length.
scheduled : ℕ → ℕ → ℕ
scheduled start height =
    if ltb (height + 1) start
    then step_at 12
    else if leb (start + 2100000) (height + 1)
    then 0
    else progress_minimum (height + 1 - start)

scheduled_falls : (start h k : ℕ) → h ≤ k → scheduled start k ≤ scheduled start h
unfolding scheduled
scheduled_falls start h k le = ground (
  arith,
  progress_minimum_falls (h + 1 - start) (k + 1 - start),
  progress_minimum-le (k + 1 - start),
)

scheduled-le : (start h : ℕ) → scheduled start h ≤ step_at 12
unfolding scheduled
scheduled-le start h = ground (arith, progress_minimum-le (h + 1 - start))

minimum_at_start :
    (chain : Chain) (start h : ℕ)
    → first_dune_height chain ≡ start
    → start ≤ 5084000
    → h < u32_max
    → minimum_at_height halving_interval chain h ≡ some (scheduled start h)
unfolding minimum_at_height scheduled progress_minimum between
minimum_at_start chain start h e small fits =
    let offset : min (h + 1) u32_max ≡ h + 1 = omega arith in
    let end : (start + halving_interval * 10) % 2 ^ 32 ≡ start + 2100000 = omega arith in
    rw (e, offset, end)
      (elim (Bool-cases (ltb (h + 1) start)) [
        | inl early ↦ rw early (step-get 12 (omega arith))
        | inr begun ↦ elim (Bool-cases (leb (start + 2100000) (h + 1))) [
          | inl over ↦ rw (begun, over)
          | inr running ↦
              let p : ℕ = h + 1 - start in
              let bound : p < 2100000 = ground arith in
              let index : (12 - p / 175000 + 2 ^ 32 - 1) % 2 ^ 32 ≡ 11 - p / 175000 = omega arith in
              rw (
                begun,
                running,
                index,
                step-get (11 - p / 175000) (omega arith),
                step-get (12 - p / 175000) (omega arith),
              )
        ]
      ])

minimum_scheduled :
    (chain : Chain) (h : ℕ)
    → h < u32_max
    → minimum_at_height halving_interval chain h ≡ some (scheduled (first_dune_height chain) h)
minimum_scheduled mainnet h fits = minimum_at_start mainnet _ h refl (omega arith) fits
minimum_scheduled _ h fits = minimum_at_start _ _ h refl (omega arith) fits

-- With the halving interval of 210000 blocks that the bitcoin crate defines, `minimum_at_height`
-- never indexes outside `STEPS`, its answer is at most the first name of 13 letters, and it never
-- rises from a height to a later one, on every chain.
pub minimum_at_height_falls :
    (halving : ℕ) (chain : Chain) (h k : ℕ)
    → halving ≡ 210000
    → h ≤ k
    → k < u32_max
    → (a b : ℕ) × (minimum_at_height halving chain h ≡ some a)
      × (minimum_at_height halving chain k ≡ some b)
      × (b ≤ a)
      × (a ≤ 99246114928149462)
unfolding step_at
minimum_at_height_falls halving chain h k e le fits =
    let start = first_dune_height chain in
    (
      scheduled start h,
      scheduled start k,
      rw e (minimum_scheduled chain h (omega arith)),
      rw e (minimum_scheduled chain k fits),
      scheduled_falls start h k le,
      scheduled-le start h,
    )
