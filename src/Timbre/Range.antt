-- ===== src/Timbre/Range.antt =====
-- `prefix_key_range` (crates/timbre-xbt/src/lib.rs): the range of the keys with a prefix.
use maestro_dogecoin_indexer.Prelude.{
  ℕ, zero, suc, ◌+◌, ◌≤◌, ◌≡◌, ◌∙◌, ap, sym, refl, Bool, true, false, not, ◌&&◌, Option, none, some,
  List, [], ◌∷◌, arith, ◌==◌, if◌then◌else◌, length, take, get_elem?, All, Bool-cases, Option-cases,
  inl, inr,
}
use maestro_dogecoin_indexer.Timbre.Order.{lex_ltb}

-- `end[i] = value`
unfoldable pub set_at : ℕ → ℕ → List ℕ → List ℕ
set_at i value [] = []
set_at zero value (b ∷ bytes) = value ∷ bytes
set_at (suc i) value (b ∷ bytes) = b ∷ set_at i value bytes

-- One round of the loop: the byte at `i`, and the answer of the rounds behind it.
raise_or : ℕ → List ℕ → Option ℕ → List ℕ → List ℕ
unfolding set_at
raise_or i end none earlier = earlier
raise_or i end (some b) earlier = if b == 255 then earlier else take (suc i) (set_at i (b + 1) end)

-- The loop from the last byte to the first: the last byte that is not 255 is raised, and what lies behind
-- it is cut. No such byte leaves the range unbounded, written as an empty end.
unfoldable pub end_loop : ℕ → List ℕ → List ℕ
unfolding raise_or
end_loop zero end = []
end_loop (suc i) end = raise_or i end (get_elem? end i) (end_loop i end)

unfoldable pub prefix_key_range : List ℕ → List ℕ × List ℕ
unfolding end_loop
prefix_key_range prefix = (prefix, end_loop (length prefix) prefix)

unfoldable pub starts_with : List ℕ → List ℕ → Bool
starts_with [] key = true
starts_with (b ∷ prefix) [] = false
starts_with (b ∷ prefix) (k ∷ key) = let rest = starts_with prefix key in (k == b) && rest

-- A key lies in the range when it is not below the start, and below the end where there is one.
unfoldable pub before_end : List ℕ → List ℕ → Bool
before_end key [] = true
before_end key (e ∷ end) = lex_ltb key (e ∷ end)

unfoldable pub in_range : List ℕ × List ℕ → List ℕ → Bool
in_range (start, end) key = not (lex_ltb key start) && before_end key end

-- The end of a prefix by its first byte and the end of the others.
extend_end : ℕ → List ℕ → List ℕ
extend_end b [] = if b == 255 then [] else (b + 1) ∷ []
extend_end b (e ∷ end) = b ∷ e ∷ end

extend_raised :
    (b i c : ℕ) (p earlier : List ℕ)
    → get_elem? p i ≡ some c
    → (c == 255) ≡ false
    → b ∷ take (suc i) (set_at i (c + 1) p) ≡ extend_end b (take (suc i) (set_at i (c + 1) p))
unfolding set_at extend_end
extend_raised b i c [] earlier h ne = cc
extend_raised b zero c (x ∷ p) earlier h ne = refl
extend_raised b (suc i) c (x ∷ p) earlier h ne = refl

end_loop_cons : (i b : ℕ) (p : List ℕ) → end_loop (suc i) (b ∷ p) ≡ extend_end b (end_loop i p)
unfolding end_loop extend_end raise_or
end_loop_cons zero b p = refl
end_loop_cons (suc i) b p = elim (Option-cases (get_elem? p i)) [
  | inl out ↦ rw out (end_loop_cons i b p)
  | inr (c, found) ↦ elim (Bool-cases (c == 255)) [
    | inl full ↦ rw (found, full) (end_loop_cons i b p)
    | inr free ↦ rw (found, free) (extend_raised b i c p [] found free)
  ]
]

lex_ltb_empty : (key : List ℕ) → lex_ltb key [] ≡ false
unfolding lex_ltb
lex_ltb_empty [] = refl
lex_ltb_empty (k ∷ key) = refl

in_extended :
    (b k : ℕ) (p ks end : List ℕ)
    → k ≤ 255
    → starts_with p ks ≡ in_range (p, end) ks
    → starts_with (b ∷ p) (k ∷ ks) ≡ in_range (b ∷ p, extend_end b end) (k ∷ ks)
unfolding starts_with in_range before_end lex_ltb extend_end
in_extended b k p ks [] byte h = elim (Bool-cases (b == 255)) [
  | inl full ↦ rw full (ground arith)
  | inr free ↦ rw free (ground (arith, lex_ltb_empty ks))
]
in_extended b k p ks (e ∷ end) byte h = ground arith

-- A key of bytes lies in the range of a prefix exactly when it starts with the prefix, also where the prefix
-- ends in bytes 255 or consists of them.
pub prefix_key_range_lem :
    (prefix key : List ℕ)
    → All (λ k. k ≤ 255) key
    → starts_with prefix key ≡ in_range (prefix_key_range prefix) key
unfolding prefix_key_range starts_with in_range before_end lex_ltb
prefix_key_range_lem [] key bytes = rw (lex_ltb_empty key) refl
prefix_key_range_lem (b ∷ prefix) [] bytes = refl
prefix_key_range_lem (b ∷ prefix) (k ∷ key) (byte, bytes) =
    in_extended b k prefix key (end_loop (length prefix) prefix) byte
      (prefix_key_range_lem prefix key bytes)
    ∙ ap (λ (end : List ℕ). in_range (b ∷ prefix, end) (k ∷ key))
        (sym (end_loop_cons (length prefix) b prefix))
