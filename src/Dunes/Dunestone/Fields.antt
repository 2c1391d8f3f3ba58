-- ===== src/Dunes/Dunestone/Fields.antt =====
-- Tags, flags and edicts (storage/runes/dunes/tag.rs, flag.rs, edict.rs, terms.rs, etching.rs).
use maestro_dogecoin_indexer.Prelude.{
  ℕ, ◌-◌, ◌%◌, ◌^◌, bit_and, Bool, false, not, ◌&&◌, ◌||◌, Option, none, some, List, [], ◌∷◌, ltb,
  ◌==◌, if◌then◌else◌, ◌>>=◌,
}
use maestro_dogecoin_indexer.Prelude.Words.{u128_max}
use maestro_dogecoin_indexer.Prelude.Maps.{lookup, remove}
use maestro_dogecoin_indexer.Dunes.Id.{from_u128}

pub data Tag : Type 0 where
  body flags dune limit offset_end deadline pointer height_start offset_start height_end cap
        premine :
      Tag
  cenotaph divisibility spacers symbol nop : Tag

abbrev pub tag_value : Tag → ℕ
tag_value body = 0
tag_value flags = 2
tag_value dune = 4
tag_value limit = 6
tag_value offset_end = 8
tag_value deadline = 10
tag_value pointer = 12
tag_value height_start = 14
tag_value offset_start = 16
tag_value height_end = 18
tag_value cap = 20
tag_value premine = 22
tag_value cenotaph = 254
tag_value divisibility = 1
tag_value spacers = 3
tag_value symbol = 5
tag_value nop = 255

-- `Tag::take` removes the field and returns its value.
unfoldable pub take : Tag → List (ℕ × ℕ) → Option ℕ × List (ℕ × ℕ)
take tag fields = (lookup (tag_value tag) fields, remove (tag_value tag) fields)

pub data Flag : Type 0 where
  etching terms turbo cenotaph : Flag

unfoldable pub flag_mask : Flag → ℕ
flag_mask etching = 2 ^ 0
flag_mask terms = 2 ^ 1
flag_mask turbo = 2 ^ 2
flag_mask cenotaph = 2 ^ 127

-- `Flag::take` returns whether the bit was set, and the flags with the bit cleared.
unfoldable pub take_flag : Flag → ℕ → Bool × ℕ
unfolding flag_mask
take_flag flag bits =
    let mask = flag_mask flag in (not (bit_and bits mask == 0), bit_and bits (u128_max - mask))

-- `fields.keys().any(|tag| tag % 2 == 0)`
unfoldable pub even_tag_left : List (ℕ × ℕ) → Bool
even_tag_left [] = false
even_tag_left ((tag, value) ∷ fields) = (tag % 2 == 0) || even_tag_left fields

pub record Terms : Type 0 where
  pub limit : Option ℕ
  pub cap : Option ℕ
  pub height_start : Option ℕ
  pub height_end : Option ℕ
  pub offset_start : Option ℕ
  pub offset_end : Option ℕ

pub record Etching : Type 0 where
  pub divisibility : Option ℕ
  pub terms : Option Terms
  pub premine : Option ℕ
  pub dune : Option ℕ
  pub spacers : Option ℕ
  pub symbol : Option ℕ
  pub turbo : Bool

pub record Edict : Type 0 where
  pub id : ℕ
  pub amount : ℕ
  pub output : ℕ

-- `Edict::from_integers`, over the number of outputs of the transaction.
unfoldable pub edict_from_integers : ℕ → ℕ → ℕ → ℕ → Option Edict
edict_from_integers outputs id amount output = do
  dune_id ← from_u128 id
  if (dune_id.height == 0) && ltb 0 dune_id.index
      then none
      else if ltb outputs output
      then none
      else some (record { id = id; amount = amount; output = output })
