-- ===== src/Storage/Intersect/Examples.antt =====
-- A chain of twelve blocks whose hashes are 1000 above their heights.
use maestro_dogecoin_indexer.Prelude.{
  ℕ, ◌+◌, ◌≡◌, refl, Option, some, List, [], ◌∷◌, ◌++◌, map, All, arith,
}
use maestro_dogecoin_indexer.Storage.Intersect.{candidates, intersect_options}
use maestro_dogecoin_indexer.Storage.Intersect.Candidates.{Falls, intersect_options-Falls}

abbrev blocks : ℕ → Option ℕ
blocks h = some (h + 1000)

offered :
    intersect_options blocks (some 12) 77
    ≡ candidates (
        (12, 1012)
        ∷ (11, 1011)
        ∷ (10, 1010)
        ∷ (9, 1009)
        ∷ (8, 1008)
        ∷ (7, 1007)
        ∷ (6, 1006)
        ∷ (5, 1005)
        ∷ (4, 1004)
        ∷ (3, 1003)
        ∷ (1, 1001)
        ∷ (0, 77)
        ∷ [])
unfolding intersect_options
offered = refl

intersect_options-Falls_example :
    (out : List (ℕ × ℕ)) × (indexes : List ℕ) × (intersect_options blocks (some 12) 77
      ≡ candidates (out ++ (0, 77) ∷ []))
    × (map (λ (e : ℕ × ℕ). e.0) out ≡ 12 ∷ indexes)
    × Falls 12 indexes
    × All (λ (e : ℕ × ℕ). blocks e.0 ≡ some e.1) out
intersect_options-Falls_example =
    intersect_options-Falls blocks 12 77 (omega arith) (omega arith)
      (λ h high low. (h + 1000, refl))
