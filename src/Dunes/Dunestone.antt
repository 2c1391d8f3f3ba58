-- ===== src/Dunes/Dunestone.antt =====
-- Deciphering a dunestone (storage/runes/dunes/dunestone.rs): `decipher` and `from_transaction`.
pub mod Fields
pub mod Message
pub mod Payload
pub mod Supply
pub mod Edicts
pub mod FirstValue
pub mod Integers
use maestro_dogecoin_indexer.Prelude.{
  ℕ, ◌^◌, ◌-◌, ◌+◌, min, Bool, true, false, not, ◌&&◌, ◌||◌, Option, none, some, List, [], ◌∷◌,
  ◌++◌, ltb, leb, ◌==◌, if◌then◌else◌, ◌>>=◌, unwrap_or, is_some, length,
}
use maestro_dogecoin_indexer.Prelude.Words.{
  u8_max, u32_max, u64_max, try_from, checked_add, checked_mul,
}
use maestro_dogecoin_indexer.Bitcoin.{BitcoinCrate, TxOut, Transaction}
use maestro_dogecoin_indexer.Dunes.Constants.{max_divisibility, max_limit}
use Fields.{Tag, take, take_flag, even_tag_left, Terms, Etching, Edict}
use Message.{from_integers}
use Payload.{payload, integers}

pub record Dunestone : Type 0 where
  pub edicts : List Edict
  pub etching : Option Etching
  pub pointer : Option ℕ
  pub cenotaph : Bool

abbrev pub max_spacers : ℕ
max_spacers = 2 ^ 27 - 1

-- `then_some` behind a test: a value that fails it is dropped.
abbrev keep_if : (ℕ → Bool) → Option ℕ → Option ℕ
keep_if test none = none
keep_if test (some n) = if test n then some n else none

-- `char::from_u32` refuses the surrogates and what lies above the last code point.
unfoldable pub char_from_u32 : ℕ → Option ℕ
char_from_u32 n = if ltb n 0xd800 || (leb 0xe000 n && leb n 0x10ffff) then some n else none

-- The closure `overflow`: the whole supply, premine and mints, does not fit a u128.
unfoldable pub supply_overflows : Option ℕ → Option ℕ → Option ℕ → Bool
supply_overflows premine cap limit =
    let total = do
      minted ← checked_mul (unwrap_or cap 0) (unwrap_or limit 0)
      checked_add (unwrap_or premine 0) minted
    in not (is_some total)

-- `premine.unwrap_or_default() > 0` adds an edict that sends the premine to output 1.
unfoldable pub add_premine : Option ℕ → List Edict → List Edict
add_premine premine edicts =
    let amount = unwrap_or premine 0 in
    if ltb 0 amount then edicts ++ (record { id = 0; amount = amount; output = 1 } ∷ []) else edicts

-- The values that `decipher` takes out of the fields and the flags, and what is left of both.
pub record Taken : Type 0 where
  pub pointer : Option ℕ
  pub divisibility : Option ℕ
  pub limit : Option ℕ
  pub dune : Option ℕ
  pub cap : Option ℕ
  pub premine : Option ℕ
  pub spacers : Option ℕ
  pub symbol : Option ℕ
  pub height_start : Option ℕ
  pub height_end : Option ℕ
  pub offset_start : Option ℕ
  pub offset_end : Option ℕ
  pub etch : Bool
  pub has_terms : Bool
  pub turbo : Bool
  pub flags_left : ℕ
  pub fields_left : List (ℕ × ℕ)

-- The fields are taken in the source's order; `limit` is clamped.
unfoldable pub take_all : List (ℕ × ℕ) → Taken
unfolding take take_flag
take_all fields =
    let (pointer, fields₁) = take Tag.pointer fields in
    let (divisibility, fields₂) = take Tag.divisibility fields₁ in
    let (limit, fields₃) = take Tag.limit fields₂ in
    let (dune, fields₄) = take Tag.dune fields₃ in
    let (cap, fields₅) = take Tag.cap fields₄ in
    let (premine, fields₆) = take Tag.premine fields₅ in
    let (spacers, fields₇) = take Tag.spacers fields₆ in
    let (symbol, fields₈) = take Tag.symbol fields₇ in
    let (height_start, fields₉) = take Tag.height_start fields₈ in
    let (height_end, fields₁₀) = take Tag.height_end fields₉ in
    let (offset_start, fields₁₁) = take Tag.offset_start fields₁₀ in
    let (offset_end, fields₁₂) = take Tag.offset_end fields₁₁ in
    let (flag_bits, fields₁₃) = take Tag.flags fields₁₂ in
    let (etch, flags₁) = take_flag Fields.Flag.etching (unwrap_or flag_bits 0) in
    let (has_terms, flags₂) = take_flag Fields.Flag.terms flags₁ in
    let (turbo, flags₃) = take_flag Fields.Flag.turbo flags₂ in
    record {
      pointer = pointer >>= try_from u32_max;
      divisibility = keep_if (λ d. leb d max_divisibility) (divisibility >>= try_from u8_max);
      limit = (do l ← limit; some (min l max_limit));
      dune = dune;
      cap = cap;
      premine = premine;
      spacers = keep_if (λ s. leb s max_spacers) (spacers >>= try_from u32_max);
      symbol = (symbol >>= try_from u32_max) >>= char_from_u32;
      height_start = height_start >>= try_from u64_max;
      height_end = height_end >>= try_from u64_max;
      offset_start = offset_start >>= try_from u64_max;
      offset_end = offset_end >>= try_from u64_max;
      etch = etch;
      has_terms = has_terms;
      turbo = turbo;
      flags_left = flags₃;
      fields_left = fields₁₃;
    }

-- The terms and the etching of a dunestone, when their flags are set.
unfoldable pub taken_terms : Taken → Option Terms
taken_terms t =
    if t.has_terms
    then some (record {
      limit = t.limit;
      cap = t.cap;
      height_start = t.height_start;
      height_end = t.height_end;
      offset_start = t.offset_start;
      offset_end = t.offset_end;
    })
    else none

unfoldable pub taken_etching : Taken → Option Etching
unfolding taken_terms
taken_etching t =
    if t.etch
    then some (record {
      divisibility = t.divisibility;
      terms = taken_terms t;
      premine = t.premine;
      dune = t.dune;
      spacers = t.spacers;
      symbol = t.symbol;
      turbo = t.turbo;
    })
    else none

-- `decipher` behind the payload and the message.
unfoldable pub decipher_message : Message.Message → Dunestone
unfolding taken_etching even_tag_left
decipher_message message =
    let t = take_all message.fields in
    record {
      edicts = add_premine t.premine message.edicts;
      etching = taken_etching t;
      pointer = t.pointer;
      cenotaph =
          message.cenotaph
          || supply_overflows t.premine t.cap t.limit
          || not (t.flags_left == 0)
          || even_tag_left t.fields_left;
    }

module _ (crate : BitcoinCrate) where
  -- `from_transaction`, which is `decipher` with an error of a script taken for no dunestone.
  unfoldable pub from_transaction : Transaction crate.Script → Option Dunestone
  unfolding decipher_message
  from_transaction tx = elim (payload crate tx.output) [
    | none ↦ none
    | some none ↦ none
    | some (some bytes) ↦ (do
      numbers ← integers bytes
      some (decipher_message (from_integers (length tx.output) numbers)))
  ]
