-- ===== src/Dunes/Dunestone/FirstValue.antt =====
-- The fields of a message hold the first value of each tag.
use maestro_dogecoin_indexer.Prelude.{
  ℕ, ◌≡◌, ◌∙◌, ap, refl, Option, none, some, List, [], ◌∷◌, ◌==◌, if◌then◌else◌, or_else,
  Bool-cases, inl, inr, Option-cases, ==_iff,
}
use maestro_dogecoin_indexer.Prelude.Maps.{lookup, lookup-snoc}
use maestro_dogecoin_indexer.Dunes.Dunestone.Message.{or_insert, message_loop, from_integers}

-- The value of the first pair with the tag, before the body.
unfoldable pub first_value : ℕ → List ℕ → Option ℕ
first_value wanted (tag ∷ value ∷ rest) =
    let later = first_value wanted rest in
    if tag == 0 then none else or_else (if tag == wanted then some value else none) later
first_value wanted _ = none

or_else_assoc {ℓ} :
    {A : Type ℓ} (a b c : Option A) → or_else (or_else a b) c ≡ or_else a (or_else b c)
or_else_assoc none b c = refl
or_else_assoc (some a) b c = refl

or_else-none {ℓ} : {A : Type ℓ} (a : Option A) → or_else a none ≡ a
or_else-none none = refl
or_else-none (some a) = refl

lookup-or_insert :
    (wanted tag value : ℕ) (fields : List (ℕ × ℕ))
    → lookup wanted (or_insert tag value fields)
      ≡ or_else (lookup wanted fields) (if tag == wanted then some value else none)
unfolding or_insert
lookup-or_insert wanted tag value fields = elim (Option-cases (lookup tag fields)) [
  | inl new ↦ rw (new, or_insert) (lookup-snoc tag wanted value fields)
  | inr (v, old) ↦ elim (Bool-cases (tag == wanted)) [
    | inl same ↦
        let e : tag ≡ wanted = (==_iff tag wanted).0 same in
        let found : lookup wanted fields ≡ some v = rw e at old in rw (old, or_insert, same, found)
    | inr other ↦ rw (old, or_insert, other, or_else-none)
  ]
]

message_loop_fields :
    (outputs wanted : ℕ) (payload : List ℕ) (fields : List (ℕ × ℕ))
    → lookup wanted (message_loop outputs payload fields).fields
      ≡ or_else (lookup wanted fields) (first_value wanted payload)
unfolding message_loop first_value
message_loop_fields outputs wanted (tag ∷ value ∷ rest) fields = elim (Bool-cases (tag == 0)) [
  | inl body ↦ rw (body, or_else-none)
  | inr other ↦ rw other (
      message_loop_fields outputs wanted rest (or_insert tag value fields)
      ∙ ap (λ (o : Option ℕ). or_else o (first_value wanted rest))
          (lookup-or_insert wanted tag value fields)
      ∙ or_else_assoc (lookup wanted fields) _ _)
]
message_loop_fields outputs wanted _ fields = rw or_else-none

-- The fields of a message hold, for every tag, the value of the first pair with that tag that stands
-- before the body; a later pair with the tag changes nothing.
pub from_integers_fields :
    (outputs wanted : ℕ) (payload : List ℕ)
    → lookup wanted (from_integers outputs payload).fields ≡ first_value wanted payload
unfolding from_integers
from_integers_fields outputs wanted payload = message_loop_fields outputs wanted payload []
