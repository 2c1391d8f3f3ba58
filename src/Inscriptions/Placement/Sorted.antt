-- ===== src/Inscriptions/Placement/Sorted.antt =====
-- Sorting the floating inscriptions (services/compressor-xdg/src/storage/inscriptions/updater.rs).
use mathlib.Core.List.{Perm}
use mathlib.Core.List.Perm
use maestro_dogecoin_indexer.Prelude.{ℕ, ◌≤◌, List, [], ◌∷◌, leb, All, arith, inl, inr, Bool-cases}
use maestro_dogecoin_indexer.Inscriptions.Placement.{Flotsam, insert_flotsam, sort_by_offset}

abbrev pub AtLeast : ℕ → List Flotsam → Type 0
AtLeast n = All (λ (f : Flotsam). n ≤ f.offset)

abbrev pub IsSorted : List Flotsam → Type 0
IsSorted [] = Unit
IsSorted (f ∷ flotsam) = AtLeast f.offset flotsam × IsSorted flotsam

pub AtLeast-le : (n m : ℕ) (flotsam : List Flotsam) → n ≤ m → AtLeast m flotsam → AtLeast n flotsam
AtLeast-le n m [] le h = tt
AtLeast-le n m (f ∷ flotsam) le (h, hs) = (omega arith, AtLeast-le n m flotsam le hs)

insert-AtLeast :
    (n : ℕ) (f : Flotsam) (flotsam : List Flotsam)
    → n ≤ f.offset
    → AtLeast n flotsam
    → AtLeast n (insert_flotsam f flotsam)
unfolding insert_flotsam
insert-AtLeast n f [] h hs = (h, tt)
insert-AtLeast n f (g ∷ flotsam) h (k, hs) = elim (Bool-cases (leb f.offset g.offset)) [
  | inl first ↦ rw first (h, (k, hs))
  | inr behind ↦ rw behind (k, insert-AtLeast n f flotsam h hs)
]

insert-IsSorted :
    (f : Flotsam) (flotsam : List Flotsam) → IsSorted flotsam → IsSorted (insert_flotsam f flotsam)
unfolding insert_flotsam
insert-IsSorted f [] s = (tt, tt)
insert-IsSorted f (g ∷ flotsam) (h, s) = elim (Bool-cases (leb f.offset g.offset)) [
  | inl first ↦
      let le : f.offset ≤ g.offset = ground arith in
      rw first ((le, AtLeast-le f.offset g.offset flotsam le h), (h, s))
  | inr behind ↦
      rw behind (insert-AtLeast g.offset f flotsam (ground arith) h, insert-IsSorted f flotsam s)
]

pub sort-IsSorted : (flotsam : List Flotsam) → IsSorted (sort_by_offset flotsam)
unfolding sort_by_offset
sort-IsSorted [] = tt
sort-IsSorted (f ∷ flotsam) = insert-IsSorted f (sort_by_offset flotsam) (sort-IsSorted flotsam)

insert-perm : (f : Flotsam) (flotsam : List Flotsam) → Perm (insert_flotsam f flotsam) (f ∷ flotsam)
unfolding insert_flotsam
insert-perm f [] = Perm.refl _
insert-perm f (g ∷ flotsam) = elim (Bool-cases (leb f.offset g.offset)) [
  | inl first ↦ rw first (Perm.refl _)
  | inr behind ↦ rw behind (Perm.trans (Perm.cons g (insert-perm f flotsam)) (Perm.swap _ _ _))
]

pub sort-perm : (flotsam : List Flotsam) → Perm (sort_by_offset flotsam) flotsam
unfolding sort_by_offset
sort-perm [] = Perm.refl _
sort-perm (f ∷ flotsam) =
    Perm.trans (insert-perm f (sort_by_offset flotsam)) (Perm.cons f (sort-perm flotsam))
