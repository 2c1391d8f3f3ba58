-- ===== src/Rollback/Examples.antt =====
-- Runs of the rollback buffer, and its theorems at concrete inputs.
use maestro_dogecoin_indexer.Prelude.{ℕ, ◌*◌, ◌≡◌, refl, [], ◌∷◌, arith}
use maestro_dogecoin_indexer.Rollback.{
  PointWithResult, RollbackBuffer, since, unknown, new, add_block, rollback_to_point, points_since,
  position,
}
use maestro_dogecoin_indexer.Rollback.History.{
  add_all, Reaches, started, grown, rolled_back, Recent, Reaches-Recent, rollback_to_point-add_all,
}

abbrev block : ℕ → PointWithResult ℕ
block h = record { point = record { height = h; hash = h * 7 }; result = h }

-- A buffer of three blocks.
abbrev buffer : RollbackBuffer ℕ
buffer = record { blocks = block 2 ∷ block 1 ∷ []; size = 3 }

abbrev rolled : RollbackBuffer ℕ
rolled = record { blocks = block 2 ∷ []; size = 3 }

unknown_point :
    rollback_to_point (record { height = 9; hash = 0 }) buffer
    ≡ (unknown (record { height = 9; hash = 0 }), buffer)
unfolding rollback_to_point
unknown_point = refl

rollback_to_point-add_all_example :
    (rollback_to_point (block 2).point (add_all (block 4 ∷ block 3 ∷ []) buffer)
      ≡ (since (block 4 ∷ block 3 ∷ []), rolled))
    × (points_since (block 2).point (add_all (block 4 ∷ block 3 ∷ []) buffer)
        ≡ since (block 4 ∷ block 3 ∷ []))
rollback_to_point-add_all_example =
    rollback_to_point-add_all buffer (block 2) (block 1 ∷ []) refl (omega arith) (block 2).point
      (block 4 ∷ block 3 ∷ []) refl (refl, (refl, tt)) (omega arith)

-- Two blocks, of which the second is rolled back.
forth_and_back :
    Reaches 3
      (rollback_to_point
        (block 1).point
        (add_block (block 2).point 2 (add_block (block 1).point 1 (new 3)))).1
      (block 1 ∷ [])
unfolding position add_block new
forth_and_back = rolled_back (block 1).point 1 refl (grown (block 2) (grown (block 1) started))

Reaches-Recent_example :
    Recent 3
      (rollback_to_point
        (block 1).point
        (add_block (block 2).point 2 (add_block (block 1).point 1 (new 3)))).1
      (block 1 ∷ [])
Reaches-Recent_example =
    Reaches-Recent 3
      (rollback_to_point (block 1).point
        (add_block (block 2).point 2 (add_block (block 1).point 1 (new 3)))).1
      (block 1 ∷ []) forth_and_back
