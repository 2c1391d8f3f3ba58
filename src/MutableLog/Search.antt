-- ===== src/MutableLog/Search.antt =====
-- The search of the log for a block, and what pruning leaves of it.
use maestro_dogecoin_indexer.Prelude.{
  ℕ, ◌≡◌, ◌∙◌, sym, refl, true, false, none, some, List, [], ◌∷◌, ◌++◌, leb, if◌then◌else◌, All,
  arith, inl, inr, Bool-cases,
}
use maestro_dogecoin_indexer.MutableLog.{Log, height, prune, scan_until_or, is_block, find_wal_seq}

module _ {Body Data : Type 0} where
  lower_no_block :
      (h id : ℕ) (log : Log Body Data) → leb h (height log) ≡ false → is_block h id log ≡ false
  lower_no_block h id log lower = ground arith

  -- An entry below the height is passed over.
  find_lower :
      (h id seq : ℕ) (log : Log Body Data) (entries : List (ℕ × Log Body Data))
      → leb h (height log) ≡ false
      → find_wal_seq h id ((seq, log) ∷ entries) ≡ find_wal_seq h id entries
  unfolding find_wal_seq scan_until_or
  find_lower h id seq log entries lower = rw (lower_no_block h id log lower, lower) refl

  -- The search for a block is decided by the first entry that is not below the height: the answer is its
  -- number where it is the apply or the mark of the block, and nothing otherwise, whatever follows.
  pub find_wal_seq_first :
      (h id seq : ℕ) (log : Log Body Data) (earlier entries : List (ℕ × Log Body Data))
      → All (λ e. leb h (height e.1) ≡ false) earlier
      → leb h (height log) ≡ true
      → find_wal_seq h id (earlier ++ (seq, log) ∷ entries)
        ≡ (if is_block h id log then some seq else none)
  unfolding find_wal_seq scan_until_or
  find_wal_seq_first h id seq log [] entries lower high = rw high refl
  find_wal_seq_first h id seq log ((s, l) ∷ earlier) entries (p, lower) high =
      find_lower h id s l (earlier ++ (seq, log) ∷ entries) p
      ∙ find_wal_seq_first h id seq log earlier entries lower high

  -- Pruning the log below a height changes no answer of the search for a block at that height or above.
  pub prune-find_wal_seq :
      (before_height h id : ℕ) (entries : List (ℕ × Log Body Data))
      → leb before_height h ≡ true
      → find_wal_seq h id (prune before_height entries) ≡ find_wal_seq h id entries
  unfolding prune
  prune-find_wal_seq before_height h id [] le = refl
  prune-find_wal_seq before_height h id ((seq, log) ∷ entries) le =
      elim (Bool-cases (leb before_height (height log))) [
        | inl e ↦ rw e refl
        | inr e ↦ rw e (
            prune-find_wal_seq before_height h id entries le
            ∙ sym (find_lower h id seq log entries (ground arith)))
      ]
