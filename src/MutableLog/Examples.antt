-- ===== src/MutableLog/Examples.antt =====
-- Concrete runs of the theorems on the log: the block 7 at height 2 is replaced by the block 8.
use maestro_dogecoin_indexer.Prelude.{ℕ, ◌≡◌, refl, none, some, List, [], ◌∷◌}
use maestro_dogecoin_indexer.MutableLog.{
  Log, apply, undo, height, hash, is_apply, find_wal_seq, prune,
}
use maestro_dogecoin_indexer.MutableLog.Search.{find_wal_seq_first, prune-find_wal_seq}

abbrev first_block : ℕ × Log ℕ ℕ
first_block = (10, apply 1 6 0 0)

abbrev reorganised : List (ℕ × Log ℕ ℕ)
reorganised = (12, undo 2 7 0) ∷ (13, apply 2 8 0 0) ∷ (14, apply 3 9 0 0) ∷ []

-- The block 8 is in the log and is not found.
find_wal_seq_first_example :
    find_wal_seq 2 8 (first_block ∷ (11, apply 2 7 0 0) ∷ reorganised) ≡ none
unfolding height hash is_apply
find_wal_seq_first_example =
    find_wal_seq_first 2 8 11 (apply 2 7 0 0) (first_block ∷ []) reorganised (refl, tt) refl

prune-find_wal_seq_example :
    find_wal_seq 2 7 (prune 2 (first_block ∷ (11, apply 2 7 0 0) ∷ reorganised)) ≡ some 11
unfolding find_wal_seq height hash is_apply
prune-find_wal_seq_example =
    prune-find_wal_seq 2 2 7 (first_block ∷ (11, apply 2 7 0 0) ∷ reorganised) refl
