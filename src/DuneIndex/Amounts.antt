-- ===== src/DuneIndex/Amounts.antt =====
-- How much of a dune the maps and the outputs of a transaction hold.
use maestro_dogecoin_indexer.Prelude.{
  ℕ, zero, suc, ◌+◌, ◌%◌, ◌^◌, ◌≤◌, ◌<◌, ◌≡◌, false, List, [], ◌∷◌, arith, ◌==◌, if◌then◌else◌,
  unwrap_or, length, refl,
}
use maestro_dogecoin_indexer.Prelude.Words.{u128_max}
use maestro_dogecoin_indexer.Prelude.Maps.{lookup, insert}
use maestro_dogecoin_indexer.DuneIndex.Edicts.{add_entry, add_output}

-- The entries of the map with the id, summed up.
unfoldable pub sum_of : ℕ → List (ℕ × ℕ) → ℕ
sum_of id [] = 0
sum_of id ((j, v) ∷ m) = (if j == id then v else 0) + sum_of id m

unfoldable pub sum_outputs : ℕ → List (List (ℕ × ℕ)) → ℕ
sum_outputs id [] = 0
sum_outputs id (m ∷ ms) = sum_of id m + sum_outputs id ms

pub lookup-le-sum_of : (k : ℕ) (m : List (ℕ × ℕ)) → unwrap_or (lookup k m) 0 ≤ sum_of k m
unfolding sum_of
lookup-le-sum_of k [] = omega arith
lookup-le-sum_of k ((j, v) ∷ m) = ground (arith, lookup-le-sum_of k m)

pub sum_of-insert :
    (id k v : ℕ) (m : List (ℕ × ℕ))
    → sum_of id (insert k v m) + (if k == id then unwrap_or (lookup k m) 0 else 0)
      ≡ sum_of id m + (if k == id then v else 0)
unfolding sum_of
sum_of-insert id k v [] = ground arith
sum_of-insert id k v ((j, w) ∷ m) = ground (arith, sum_of-insert id k v m)

pub sum_of-add_entry_self :
    (id a : ℕ) (m : List (ℕ × ℕ))
    → sum_of id m + a ≤ u128_max
    → sum_of id (add_entry id a m) ≡ sum_of id m + a
unfolding add_entry
sum_of-add_entry_self id a m fits = ground (
  arith,
  lookup-le-sum_of id m,
  sum_of-insert id id ((unwrap_or (lookup id m) 0 + a) % 2 ^ 128) m,
)

pub sum_of-add_entry_ne :
    (id k a : ℕ) (m : List (ℕ × ℕ)) → (k == id) ≡ false → sum_of id (add_entry k a m) ≡ sum_of id m
unfolding add_entry
sum_of-add_entry_ne id k a m ne =
    ground (arith, sum_of-insert id k ((unwrap_or (lookup k m) 0 + a) % 2 ^ 128) m)

pub sum_outputs-add_output_self :
    (output id a : ℕ) (ms : List (List (ℕ × ℕ)))
    → output < length ms
    → sum_outputs id ms + a ≤ u128_max
    → sum_outputs id (add_output output id a ms) ≡ sum_outputs id ms + a
unfolding sum_outputs add_output
sum_outputs-add_output_self output id a [] lt fits = absurd (omega arith)
sum_outputs-add_output_self zero id a (m ∷ ms) lt fits =
    omega (arith, sum_of-add_entry_self id a m (omega arith))
sum_outputs-add_output_self (suc output) id a (m ∷ ms) lt fits =
    omega (arith, sum_outputs-add_output_self output id a ms (omega arith) (omega arith))

pub sum_outputs-add_output_ne :
    (output id k a : ℕ) (ms : List (List (ℕ × ℕ)))
    → (k == id) ≡ false
    → sum_outputs id (add_output output k a ms) ≡ sum_outputs id ms
unfolding sum_outputs add_output
sum_outputs-add_output_ne output id k a [] ne = refl
sum_outputs-add_output_ne zero id k a (m ∷ ms) ne = omega (arith, sum_of-add_entry_ne id k a m ne)
sum_outputs-add_output_ne (suc output) id k a (m ∷ ms) ne =
    omega (arith, sum_outputs-add_output_ne output id k a ms ne)

pub length-add_output :
    (output id a : ℕ) (ms : List (List (ℕ × ℕ))) → length (add_output output id a ms) ≡ length ms
unfolding add_output
length-add_output output id a [] = refl
length-add_output zero id a (m ∷ ms) = refl
length-add_output (suc output) id a (m ∷ ms) = omega (arith, length-add_output output id a ms)
