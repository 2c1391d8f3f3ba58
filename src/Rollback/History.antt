-- ===== src/Rollback/History.antt =====
-- The rollback buffer (services/polyphony-xdg/src/rollback/buffer.rs) against the whole history of blocks.
use maestro_dogecoin_indexer.Prelude.{
  ℕ, zero, suc, ◌-◌, ◌≤◌, ◌<◌, ◌≡◌, ◌∙◌, ap, sym, refl, false, some, some_inj, bind-some, if-some,
  List, [], ◌∷◌, ◌++◌, length, take, drop, arith, All, inl, inr, append_assoc, take_all,
  take-take-suc, take-take_append, drop-take_append, length-take, length-drop, drop-append,
  take-append-drop,
}
use maestro_dogecoin_indexer.Rollback.{
  Point, same_point, same_point_iff, PointWithResult, RollbackBuffer, since, new, position_of,
  position, add_block, drain, rollback_to_point, points_since,
}

module _ {T : Type 0} where
  -- Blocks added one by one, the first of the list last.
  unfoldable pub add_all : List (PointWithResult T) → RollbackBuffer T → RollbackBuffer T
  add_all [] buffer = buffer
  add_all (b ∷ blocks) buffer = add_block b.point b.result (add_all blocks buffer)

  -- None of the blocks is at the point.
  abbrev pub Elsewhere : Point → List (PointWithResult T) → Type 0
  Elsewhere point = All (λ (b : PointWithResult T). same_point b.point point ≡ false)

  take-take_cons :
      (n : ℕ) (b : PointWithResult T) (blocks : List (PointWithResult T))
      → take n (b ∷ take n blocks) ≡ take n (b ∷ blocks)
  take-take_cons zero b blocks = refl
  take-take_cons (suc n) b blocks =
      ap (λ (l : List (PointWithResult T)). b ∷ l) (take-take-suc n blocks)

  add_all_blocks :
      (blocks : List (PointWithResult T)) (buffer : RollbackBuffer T)
      → length buffer.blocks ≤ buffer.size
      → ((add_all blocks buffer).blocks ≡ take buffer.size (blocks ++ buffer.blocks))
        × ((add_all blocks buffer).size ≡ buffer.size)
  unfolding add_all add_block
  add_all_blocks [] buffer h = (sym (take_all buffer.size buffer.blocks h), refl)
  add_all_blocks (b ∷ blocks) buffer h =
      let (e, s) = add_all_blocks blocks buffer h in
      (rw (s, e) (take-take_cons buffer.size b (blocks ++ buffer.blocks)), s)

  position_of_behind :
      (n : ℕ) (point : Point) (blocks older : List (PointWithResult T)) (b : PointWithResult T)
      → Elsewhere point blocks
      → b.point ≡ point
      → length blocks < n
      → position_of point (take n (blocks ++ (b ∷ older))) ≡ some (length blocks)
  unfolding position_of
  position_of_behind zero point blocks older b h e lt = absurd (omega arith)
  position_of_behind (suc n) point [] older b h e lt = rw ((same_point_iff b.point point).1 e) refl
  position_of_behind (suc n) point (x ∷ blocks) older b (h, hs) e lt =
      rw (h, position_of_behind n point blocks older b hs e (omega arith)) (ap some (omega arith))

  module _ (buffer : RollbackBuffer T) (b : PointWithResult T) (older : List (PointWithResult T))
      (at_front : buffer.blocks ≡ b ∷ older) (fits : length buffer.blocks ≤ buffer.size) where
    -- Let `b` be the latest block of a buffer that is not overfull. Add fewer blocks than the buffer's
    -- size, none at the point of `b`, and roll back to that point: the answer is just the added blocks,
    -- the last one first, and the buffer holds the blocks it held before, less the oldest that gave way.
    -- `points_since` gives the same blocks.
    pub rollback_to_point-add_all :
        (point : Point) (added : List (PointWithResult T))
        → b.point ≡ point
        → Elsewhere point added
        → length added < buffer.size
        → (rollback_to_point point (add_all added buffer) ≡ (
          since added,
          record buffer { blocks = take (buffer.size - length added) buffer.blocks },
        ))
          × (points_since point (add_all added buffer) ≡ since added)
    unfolding rollback_to_point points_since drain
    rollback_to_point-add_all point added e elsewhere few =
        let (blocks, size) = add_all_blocks added buffer fits in
        let held : (add_all added buffer).blocks ≡ take buffer.size (added ++ (b ∷ older)) =
          blocks ∙ ap (λ (l : List (PointWithResult T)). take buffer.size (added ++ l)) at_front in
        let found : position_of point (add_all added buffer).blocks ≡ some (length added) =
          ap (position_of point) held
          ∙ position_of_behind buffer.size point added older b elsewhere e few in
        let taken : take (length added) (add_all added buffer).blocks ≡ added =
          ap (take (length added)) blocks
          ∙ take-take_append buffer.size added buffer.blocks (omega arith) in
        let rest : drop (length added) (add_all added buffer).blocks
            ≡ take (buffer.size - length added) buffer.blocks =
          ap (drop (length added)) blocks
          ∙ drop-take_append buffer.size added buffer.blocks (omega arith) in
        (rw (found, taken, rest, size) refl, rw (found, taken) refl)

  -- The buffers that a run of blocks and rollbacks reaches, with the whole history of blocks, the latest first,
  -- from which a rollback drops the blocks behind its point.
  pub data Reaches (size : ℕ) : RollbackBuffer T → List (PointWithResult T) → Type 0 where
    started : Reaches size (new size) []
    grown :
        {buffer : RollbackBuffer T} {history : List (PointWithResult T)} (b : PointWithResult T)
        → Reaches size buffer history
        → Reaches size (add_block b.point b.result buffer) (b ∷ history)
    rolled_back :
        {buffer : RollbackBuffer T} {history : List (PointWithResult T)} (point : Point) (i : ℕ)
        → position buffer point ≡ some i
        → Reaches size buffer history
        → Reaches size (rollback_to_point point buffer).1 (drop i history)

  position_of-lt :
      (point : Point) (blocks : List (PointWithResult T)) (i : ℕ)
      → position_of point blocks ≡ some i
      → i < length blocks
  unfolding position_of
  position_of-lt point [] i h = cc
  position_of-lt point (b ∷ blocks) i h = elim (if-some (same_point b.point point) (some 0) _ h) [
    | inl (here, e) ↦ omega (arith, some_inj e)
    | inr (later, e) ↦
        let (j, found, f) = bind-some (position_of point blocks) _ e in
        omega (arith, position_of-lt point blocks j found, some_inj f)
  ]

  -- A buffer of the history: not overfull, and its blocks are the latest of the history.
  pub record Recent (size : ℕ) (buffer : RollbackBuffer T) (history : List (PointWithResult T))
      : Type 0 where
    pub same_size : buffer.size ≡ size
    pub bounded : length buffer.blocks ≤ size
    pub older : List (PointWithResult T)
    pub whole : history ≡ buffer.blocks ++ older

  grown-Recent :
      (size : ℕ) (buffer : RollbackBuffer T) (history : List (PointWithResult T))
      (b : PointWithResult T)
      → Recent size buffer history
      → Recent size (add_block b.point b.result buffer) (b ∷ history)
  unfolding add_block
  grown-Recent size buffer history b r = record {
    same_size = r.same_size;
    bounded = omega (arith, length-take buffer.size (b ∷ buffer.blocks), r.same_size);
    older = drop buffer.size (b ∷ buffer.blocks) ++ r.older;
    whole =
        ap (λ (l : List (PointWithResult T)). b ∷ l) r.whole
        ∙ ap (λ (l : List (PointWithResult T)). l ++ r.older)
            (sym (take-append-drop buffer.size (b ∷ buffer.blocks)))
        ∙ append_assoc (take buffer.size (b ∷ buffer.blocks)) (drop buffer.size (b ∷ buffer.blocks))
            r.older;
  }

  rolled_back-Recent :
      (size : ℕ) (buffer : RollbackBuffer T) (history : List (PointWithResult T)) (point : Point)
      (i : ℕ)
      → position buffer point ≡ some i
      → Recent size buffer history
      → Recent size (rollback_to_point point buffer).1 (drop i history)
  unfolding rollback_to_point
  rolled_back-Recent size buffer history point i found r =
      let inside = position_of-lt point buffer.blocks i (unfold position in found) in
      rw (found, rollback_to_point)
        (record {
          same_size = r.same_size;
          bounded = omega (arith, length-drop i buffer.blocks, r.bounded);
          older = r.older;
          whole = ap (drop i) r.whole ∙ drop-append i buffer.blocks r.older (omega arith);
        })

  -- Whatever blocks were added and rolled back, the buffer has at most its size of blocks, and they are the
  -- latest blocks of the history in their order.
  pub Reaches-Recent :
      (size : ℕ) (buffer : RollbackBuffer T) (history : List (PointWithResult T))
      → Reaches size buffer history
      → Recent size buffer history
  unfolding new
  Reaches-Recent size _ _ started = record {
    same_size = refl;
    bounded = omega arith;
    older = [];
    whole = refl;
  }
  Reaches-Recent size _ _ (grown {buffer} {history} b r) =
      grown-Recent size buffer history b (Reaches-Recent size buffer history r)
  Reaches-Recent size _ _ (rolled_back {buffer} {history} point i found r) =
      rolled_back-Recent size buffer history point i found (Reaches-Recent size buffer history r)
