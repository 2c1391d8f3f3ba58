-- ===== src/Drc20/Actions.antt =====
-- Deploy, mint and transfer messages (services/compressor-xdg/src/storage/inscriptions/brc20.rs).
use maestro_dogecoin_indexer.Prelude.{
  ℕ, ◌+◌, Bool, true, false, ◌&&◌, Option, none, some, List, [], ◌∷◌, ltb, ◌==◌, if◌then◌else◌,
  unwrap_or,
}
use maestro_dogecoin_indexer.Prelude.Words.{u8_max}
use maestro_dogecoin_indexer.Storage.{InscriptionId}
use maestro_dogecoin_indexer.Drc20.Decimal.{
  Parsed, rejected, panicked, parsed, is_digit, parse, parse_decimal,
}

infixl 5 ◌>>=◌
abbrev pub ◌>>=◌ : {A B : Type 0} → Parsed A → (A → Parsed B) → Parsed B
rejected >>= f = rejected
panicked >>= f = panicked
parsed a >>= f = f a

-- `RawProtocolMessage`; `p` is checked by `unparsed_message`.
pub record RawProtocolMessage : Type 0 where
  pub op : List ℕ
  pub tick : List ℕ
  pub max : Option (List ℕ)
  pub lim : Option (List ℕ)
  pub dec : Option (List ℕ)
  pub amt : Option (List ℕ)

pub record Brc20Terms : Type 0 where
  pub max : ℕ
  pub mint_amt_limit : ℕ
  pub dec : ℕ
  pub self_mint : Bool
  pub deploy_id : InscriptionId

pub record DeployAction : Type 0 where
  pub ticker : List ℕ
  pub max : ℕ
  pub limit : ℕ
  pub dec : ℕ
  pub self_mint : Bool

-- `MintAction` and `TransferAction`, which have the same fields.
pub record AmountAction : Type 0 where
  pub ticker : List ℕ
  pub amt : ℕ

unfoldable pub same_text : List ℕ → List ℕ → Bool
same_text [] [] = true
same_text [] (d ∷ t) = false
same_text (c ∷ s) [] = false
same_text (c ∷ s) (d ∷ t) = let rest = same_text s t in (c == d) && rest

-- `as_bytes().len()`: the length of a text in UTF-8.
unfoldable pub byte_length : List ℕ → ℕ
byte_length [] = 0
byte_length (c ∷ s) =
    let rest = byte_length s in
    rest + (if ltb c 0x80 then 1 else if ltb c 0x800 then 2 else if ltb c 0x10000 then 3 else 4)

unfoldable pub all_digits : List ℕ → Bool
all_digits [] = true
all_digits (c ∷ s) = let rest = all_digits s in is_digit c && rest

-- The decimals: digits only, at least one, and at most 18.
unfoldable pub parse_dec : Option (List ℕ) → Parsed ℕ
unfolding all_digits parse
parse_dec raw =
    let dec_string = unwrap_or raw (b'1' ∷ b'8' ∷ []) in
    if all_digits dec_string
    then (elim (parse u8_max dec_string) [
      | none ↦ rejected
      | some dec ↦ if ltb 18 dec then rejected else parsed dec
    ])
    else rejected

-- An amount that must not be 0.
unfoldable pub positive : Parsed ℕ → Parsed ℕ
positive amount = do x ← amount; if x == 0 then rejected else parsed x

-- An amount to mint: at most the limit, and not 0.
unfoldable pub within_limit : ℕ → ℕ → Parsed ℕ
within_limit limit amt =
    if ltb limit amt then rejected else if amt == 0 then rejected else parsed amt

-- An amount that must be given.
unfoldable pub required : Option (List ℕ) → ℕ → Parsed ℕ
unfolding parse_decimal
required none dec = rejected
required (some m) dec = parse_decimal m dec

-- The limit is the maximum where none is given.
unfoldable pub parse_limit : Option (List ℕ) → ℕ → ℕ → Parsed ℕ
unfolding positive parse_decimal
parse_limit none max dec = parsed max
parse_limit (some m) max dec = positive (parse_decimal m dec)

-- The Unicode tables of `to_lowercase`, with the bytes of the text, are a parameter.
module _ (lowercase_bytes : List ℕ → List ℕ) where
  -- `DeployAction::parse`, where `self_mint` is always false.
  unfoldable pub parse_deploy : RawProtocolMessage → Parsed DeployAction
  unfolding same_text byte_length parse_dec required positive parse_limit
  parse_deploy raw =
      if same_text raw.op (b'd' ∷ b'e' ∷ b'p' ∷ b'l' ∷ b'o' ∷ b'y' ∷ [])
      then (if byte_length raw.tick == 4
          then (do
            dec ← parse_dec raw.dec
            max ← positive (required raw.max dec)
            limit ← parse_limit raw.lim max dec
            parsed (record {
              ticker = lowercase_bytes raw.tick;
              max = max;
              limit = limit;
              dec = dec;
              self_mint = false;
            }))
          else rejected)
      else rejected

  -- `MintAction::parse`
  unfoldable pub parse_mint : RawProtocolMessage → Brc20Terms → Parsed AmountAction
  unfolding same_text required within_limit
  parse_mint raw terms =
      if same_text raw.op (b'm' ∷ b'i' ∷ b'n' ∷ b't' ∷ [])
      then (do
        amt ← required raw.amt terms.dec
        mintable ← within_limit terms.mint_amt_limit amt
        parsed (record { ticker = lowercase_bytes raw.tick; amt = mintable }))
      else rejected

  -- `TransferAction::parse`
  unfoldable pub parse_transfer : RawProtocolMessage → Brc20Terms → Parsed AmountAction
  unfolding same_text required positive
  parse_transfer raw terms =
      if same_text raw.op (b't' ∷ b'r' ∷ b'a' ∷ b'n' ∷ b's' ∷ b'f' ∷ b'e' ∷ b'r' ∷ [])
      then (do
        amt ← positive (required raw.amt terms.dec)
        parsed (record { ticker = lowercase_bytes raw.tick; amt = amt }))
      else rejected
