-- ===== src/Storage/Intersect.antt =====
-- `ChainDB::intersect_options` (services/compressor-xdg/src/storage/mod.rs): the blocks that are offered to a peer to find
-- the last one in common.
pub mod Candidates
mod Examples
use maestro_dogecoin_indexer.Prelude.{
  ℕ, zero, suc, ◌+◌, ◌-◌, ◌*◌, ◌%◌, ◌^◌, Option, none, some, List, [], ◌∷◌, ◌++◌, leb, ◌==◌,
  if◌then◌else◌,
}

-- The answer, or `IntersectMissingBlock`
pub data Intersection : Type 0 where
  candidates : List (ℕ × ℕ) → Intersection
  missing_block : ℕ → Intersection

-- The loop over the heights, after `count` of them: from the tenth on the step doubles. Each round lowers the
-- height, so the height of the tip is fuel enough behind the first round.
unfoldable pub indexes_loop : ℕ → ℕ → ℕ → ℕ → List ℕ
indexes_loop zero count step index = []
indexes_loop (suc fuel) count step index =
    let step' = if leb 10 (count + 1) then step * 2 % 2 ^ 64 else step in
    let next = index - step' in
    let rest = indexes_loop fuel (count + 1) step' next in
    if next == 0 then index ∷ [] else index ∷ rest

-- `blocks` is the hash of the block at a height.
unfoldable pub fetch_blocks : (ℕ → Option ℕ) → List ℕ → Intersection
fetch_blocks blocks [] = candidates []
fetch_blocks blocks (height ∷ indexes) = elim (blocks height) [
  | none ↦ missing_block height
  | some hash ↦ (elim (fetch_blocks blocks indexes) [
    | missing_block h ↦ missing_block h
    | candidates rest ↦ candidates ((height, hash) ∷ rest)
  ])
]

unfoldable pub with_genesis : ℕ → Intersection → Intersection
with_genesis genesis_hash (missing_block height) = missing_block height
with_genesis genesis_hash (candidates out) = candidates (out ++ (0, genesis_hash) ∷ [])

unfoldable pub intersect_options : (ℕ → Option ℕ) → Option ℕ → ℕ → Intersection
unfolding indexes_loop fetch_blocks with_genesis
intersect_options blocks none genesis_hash = candidates ((0, genesis_hash) ∷ [])
intersect_options blocks (some tip_height) genesis_hash =
    with_genesis genesis_hash (fetch_blocks blocks (indexes_loop (suc tip_height) 0 1 tip_height))
