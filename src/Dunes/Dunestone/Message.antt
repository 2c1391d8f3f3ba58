-- ===== src/Dunes/Dunestone/Message.antt =====
-- `Message::from_integers` of storage/runes/dunes/dunestone.rs.
use maestro_dogecoin_indexer.Prelude.{
  ℕ, Bool, true, false, Option, none, some, List, [], ◌∷◌, ◌==◌, if◌then◌else◌, ◌++◌,
}
use maestro_dogecoin_indexer.Prelude.Words.{saturating_add}
use maestro_dogecoin_indexer.Prelude.Maps.{lookup}
use maestro_dogecoin_indexer.Dunes.Dunestone.Fields.{Edict, edict_from_integers}

pub record Message : Type 0 where
  pub cenotaph : Bool
  pub fields : List (ℕ × ℕ)
  pub edicts : List Edict

add_edict : Option Edict → List Edict × Bool → List Edict × Bool
add_edict none (edicts, cenotaph) = (edicts, true)
add_edict (some edict) (edicts, cenotaph) = (edict ∷ edicts, cenotaph)

-- The loop over `chunks_exact(3)` behind the body tag: ids are deltas, a chunk that is no edict makes
-- a cenotaph, and what is left of fewer than three integers is ignored.
unfoldable pub body_edicts : ℕ → ℕ → List ℕ → List Edict × Bool
unfolding add_edict
body_edicts outputs id (delta ∷ amount ∷ output ∷ rest) =
    let id' = saturating_add id delta in
    add_edict (edict_from_integers outputs id' amount output) (body_edicts outputs id' rest)
body_edicts outputs id _ = ([], false)

-- `fields.entry(tag).or_insert(value)`
unfoldable pub or_insert : ℕ → ℕ → List (ℕ × ℕ) → List (ℕ × ℕ)
or_insert tag value fields = elim (lookup tag fields) [
  | none ↦ fields ++ ((tag, value) ∷ [])
  | some _ ↦ fields
]

body_message : ℕ → List (ℕ × ℕ) → List ℕ → Message
body_message outputs fields rest =
    let (edicts, cenotaph) = body_edicts outputs 0 rest in
    record { cenotaph = cenotaph; fields = fields; edicts = edicts }

-- The loop over the pairs of the payload. A tag with no value ends it.
unfoldable pub message_loop : ℕ → List ℕ → List (ℕ × ℕ) → Message
unfolding body_message or_insert
message_loop outputs (tag ∷ value ∷ rest) fields =
    let others = message_loop outputs rest (or_insert tag value fields) in
    if tag == 0 then body_message outputs fields (value ∷ rest) else others
message_loop outputs _ fields = record { cenotaph = false; fields = fields; edicts = [] }

unfoldable pub from_integers : ℕ → List ℕ → Message
unfolding message_loop
from_integers outputs payload = message_loop outputs payload []
