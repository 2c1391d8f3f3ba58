-- ===== src/Rollback.antt =====
-- The buffer of recent blocks of services/polyphony-xdg/src/rollback/buffer.rs.
pub mod History
mod Examples
use maestro_dogecoin_indexer.Prelude.{
  ℕ, zero, suc, ◌+◌, ◌≡◌, ◌↔◌, Bool, true, ◌&&◌, Option, none, some, List, [], ◌∷◌, ◌==◌,
  if◌then◌else◌, length, take, drop, arith, ◌>>=◌,
}

-- `MAX_BUFFER_LEN`
abbrev pub max_buffer_len : ℕ
max_buffer_len = 16

-- `Point`; a hash is the number of its 32 bytes.
pub record Point : Type 0 where
  pub height : ℕ
  pub hash : ℕ

abbrev pub same_point : Point → Point → Bool
same_point p q = (p.height == q.height) && (p.hash == q.hash)

pub same_point_iff : (p q : Point) → (same_point p q ≡ true) ↔ (p ≡ q)
same_point_iff p q = ground arith

module _ (T : Type 0) where
  pub record PointWithResult : Type 0 where
    pub point : Point
    pub result : T

  -- The deque from its front, the latest block, to its back.
  pub record RollbackBuffer : Type 0 where
    pub blocks : List PointWithResult
    pub size : ℕ

  -- `Result<Vec<PointWithResult<T>>, Point>`
  pub data Rollback : Type 0 where
    since : List PointWithResult → Rollback
    unknown : Point → Rollback

module _ {T : Type 0} where
  unfoldable pub new : ℕ → RollbackBuffer T
  new size = record { blocks = []; size = size }

  unfoldable pub position_of : Point → List (PointWithResult T) → Option ℕ
  position_of point [] = none
  position_of point (b ∷ blocks) =
      let rest = position_of point blocks in
      if same_point b.point point then some 0 else (do i ← rest; some (i + 1))

  unfoldable pub position : RollbackBuffer T → Point → Option ℕ
  unfolding position_of
  position buffer point = position_of point buffer.blocks

  abbrev pub len : RollbackBuffer T → ℕ
  len buffer = length buffer.blocks

  unfoldable pub is_empty : RollbackBuffer T → Bool
  is_empty buffer = len buffer == 0

  front : List (PointWithResult T) → Option (PointWithResult T)
  front [] = none
  front (b ∷ blocks) = some b

  back : List (PointWithResult T) → Option (PointWithResult T)
  back [] = none
  back (b ∷ []) = some b
  back (b ∷ c ∷ blocks) = back (c ∷ blocks)

  unfoldable pub latest : RollbackBuffer T → Option (PointWithResult T)
  unfolding front
  latest buffer = front buffer.blocks

  unfoldable pub oldest : RollbackBuffer T → Option (PointWithResult T)
  unfolding back
  oldest buffer = back buffer.blocks

  unfoldable pub add_block : Point → T → RollbackBuffer T → RollbackBuffer T
  add_block point result buffer = record buffer {
    blocks = take buffer.size (record { point = point; result = result } ∷ buffer.blocks);
  }

  -- The blocks in front of a position, and the buffer without them.
  unfoldable pub drain : Point → Option ℕ → RollbackBuffer T → Rollback T × RollbackBuffer T
  drain point none buffer = (unknown point, buffer)
  drain point (some p) buffer =
      (since (take p buffer.blocks), record buffer { blocks = drop p buffer.blocks })

  unfoldable pub rollback_to_point : Point → RollbackBuffer T → Rollback T × RollbackBuffer T
  unfolding position drain
  rollback_to_point point buffer = drain point (position buffer point) buffer

  since_position : Point → Option ℕ → RollbackBuffer T → Rollback T
  since_position point none buffer = unknown point
  since_position point (some p) buffer = since (take p buffer.blocks)

  unfoldable pub points_since : Point → RollbackBuffer T → Rollback T
  unfolding position since_position
  points_since point buffer = since_position point (position buffer point) buffer
