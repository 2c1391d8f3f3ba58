-- ===== src/DuneIndex/Elsewhere.antt =====
-- The outputs that the edicts of a dunestone do not name (storage/runes/updater.rs, `index_runes`).
use maestro_dogecoin_indexer.Prelude.{
  ℕ, zero, suc, ◌≡◌, ◌∙◌, refl, Bool, false, some, List, [], ◌∷◌, All, get_elem?, arith, ltb, leb,
  ◌==◌, if◌then◌else◌, min, length, Bool-cases, Option-cases, inl, inr,
}
use maestro_dogecoin_indexer.Prelude.Words.{u64_max}
use maestro_dogecoin_indexer.Dunes.Dunestone.Fields.{Edict}
use maestro_dogecoin_indexer.DuneIndex.Edicts.{
  Allocating, Source, issued, minted, unallocated, add_output, source_of, set_balance, allocate,
  apply_edict, apply_edicts,
}

get_elem?-add_output :
    (output id a k : ℕ) (ms : List (List (ℕ × ℕ)))
    → (output == k) ≡ false
    → get_elem? (add_output output id a ms) k ≡ get_elem? ms k
unfolding add_output
get_elem?-add_output output id a k [] h = refl
get_elem?-add_output zero id a zero (m ∷ ms) h = absurd (cc h)
get_elem?-add_output zero id a (suc k) (m ∷ ms) h = refl
get_elem?-add_output (suc output) id a zero (m ∷ ms) h = refl
get_elem?-add_output (suc output) id a (suc k) (m ∷ ms) h =
    get_elem?-add_output output id a k ms (ground (arith, h))

set_balance-allocated :
    (source : Source) (b : ℕ) (s : Allocating) → (set_balance source b s).allocated ≡ s.allocated
unfolding set_balance
set_balance-allocated issued b s = refl
set_balance-allocated (minted c) b s = refl
set_balance-allocated (unallocated id) b s = refl

allocate_elsewhere :
    (source : Source) (id balance amount output k : ℕ) (s : Allocating)
    → (output == k) ≡ false
    → get_elem? (allocate source id balance amount output s).0.allocated k ≡ get_elem? s.allocated k
unfolding allocate
allocate_elsewhere source id balance amount output k s h = elim (Bool-cases (ltb 0 amount)) [
  | inl something ↦
      rw (something, set_balance-allocated) (get_elem?-add_output output id amount k s.allocated h)
  | inr nothing ↦ rw nothing refl
]

apply_edict_elsewhere :
    (outputs : List Bool) (edict : Edict) (k : ℕ) (s : Allocating)
    → (edict.output == k) ≡ false
    → (s' : Allocating) × (apply_edict outputs edict s ≡ some s')
      × (get_elem? s'.allocated k ≡ get_elem? s.allocated k)
unfolding apply_edict
apply_edict_elsewhere outputs edict k s h = elim (Bool-cases (ltb u64_max edict.output)) [
  | inl wide ↦ (s, rw wide, refl)
  | inr fits ↦ elim (Bool-cases (leb (length outputs) edict.output)) [
    | inl out ↦ (s, rw (fits, out), refl)
    | inr inside ↦ elim (Option-cases (source_of s edict.id)) [
      | inl nowhere ↦ (s, rw (fits, inside, nowhere), refl)
      | inr ((source, id, balance), found) ↦
          let one : (edict.output == length outputs) ≡ false = ground arith in
          let amount = if edict.amount == 0 then balance else min edict.amount balance in
          (
            (allocate source id balance amount edict.output s).0,
            rw (fits, inside, found, one),
            allocate_elsewhere source id balance amount edict.output k s h,
          )
    ]
  ]
]

-- The loop over the edicts never panics, and an output that no edict names by its number holds the same dunes behind
-- it as in front. So no edict is divided among the outputs, also not one that names the number just behind
-- them, for which the source has a branch that gives a share to every output that is no OP_RETURN.
pub apply_edicts_elsewhere :
    (outputs : List Bool) (edicts : List Edict) (k : ℕ) (s : Allocating)
    → All (λ (e : Edict). (e.output == k) ≡ false) edicts
    → (s' : Allocating) × (apply_edicts outputs edicts s ≡ some s')
      × (get_elem? s'.allocated k ≡ get_elem? s.allocated k)
unfolding apply_edicts
apply_edicts_elsewhere outputs [] k s unnamed = (s, refl, refl)
apply_edicts_elsewhere outputs (edict ∷ edicts) k s (h, unnamed) =
    let (s₁, e₁, same₁) = apply_edict_elsewhere outputs edict k s h in
    let (s₂, e₂, same₂) = apply_edicts_elsewhere outputs edicts k s₁ unnamed in
    (s₂, rw (e₁, e₂), same₂ ∙ same₁)
