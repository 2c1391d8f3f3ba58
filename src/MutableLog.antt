-- ===== src/MutableLog.antt =====
-- The log of recent chain steps, services/compressor-xdg/src/storage/mutable/mod.rs.
pub mod Search
mod Examples
use maestro_dogecoin_indexer.Prelude.{
  ℕ, ◌≡◌, Bool, true, false, ◌&&◌, ◌||◌, Option, none, some, List, [], ◌∷◌, leb, ◌==◌,
  if◌then◌else◌,
}

-- What an apply carries behind its body is one value of the type `Data`; a hash is the number of its bytes.
pub data Log (Body Data : Type 0) : Type 0 where
  apply : ℕ → ℕ → Body → Data → Log Body Data
  undo mark : ℕ → ℕ → Body → Log Body Data

module _ {Body Data : Type 0} where
  unfoldable pub height : Log Body Data → ℕ
  height (apply h _ _ _) = h
  height (undo h _ _) = h
  height (mark h _ _) = h

  unfoldable pub hash : Log Body Data → ℕ
  hash (apply _ h _ _) = h
  hash (undo _ h _) = h
  hash (mark _ h _) = h

  unfoldable pub is_apply : Log Body Data → Bool
  is_apply (apply _ _ _ _) = true
  is_apply (undo _ _ _) = false
  is_apply (mark _ _ _) = false

  unfoldable pub is_mark : Log Body Data → Bool
  is_mark (apply _ _ _ _) = false
  is_mark (undo _ _ _) = false
  is_mark (mark _ _ _) = true

  -- The loop of `prune` over the entries of the table in the order of their numbers: the entries in front
  -- of the first one at `before_height` or above are deleted.
  unfoldable pub prune : ℕ → List (ℕ × Log Body Data) → List (ℕ × Log Body Data)
  prune before_height [] = []
  prune before_height ((seq, log) ∷ entries) =
      let rest = prune before_height entries in
      if leb before_height (height log) then (seq, log) ∷ entries else rest

  -- `scan_until_or` of storage/kvtable.rs over the entries of the table.
  unfoldable pub scan_until_or :
      (Log Body Data → Bool) → (Log Body Data → Bool) → List (ℕ × Log Body Data) → Option ℕ
  scan_until_or predicate bail_predicate [] = none
  scan_until_or predicate bail_predicate ((seq, log) ∷ entries) =
      let rest = scan_until_or predicate bail_predicate entries in
      if predicate log then some seq else if bail_predicate log then none else rest

  abbrev pub is_block : ℕ → ℕ → Log Body Data → Bool
  is_block h id log = (is_apply log || is_mark log) && (height log == h) && (hash log == id)

  unfoldable pub find_wal_seq : ℕ → ℕ → List (ℕ × Log Body Data) → Option ℕ
  unfolding scan_until_or
  find_wal_seq h id entries = scan_until_or (is_block h id) (λ log. leb h (height log)) entries
