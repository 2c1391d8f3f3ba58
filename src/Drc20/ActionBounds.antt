-- ===== src/Drc20/ActionBounds.antt =====
-- What the parsers of actions (services/compressor-xdg/src/storage/inscriptions/brc20.rs) let through.
use maestro_dogecoin_indexer.Prelude.{
  ℕ, ◌≤◌, ◌<◌, ◌≡◌, ap, refl, Bool, true, false, Option, none, some, List, [], ◌∷◌, arith, ltb,
  ◌==◌, ==_iff, if◌then◌else◌, Option-cases, inl, inr, ◌⊎◌, unwrap_or,
}
use mathlib.Core.Path.{subst}
use maestro_dogecoin_indexer.Prelude.Words.{u8_max, u128_max}
use maestro_dogecoin_indexer.Drc20.Decimal.{
  Parsed, rejected, panicked, parsed, parse, parse_decimal,
}
use maestro_dogecoin_indexer.Drc20.Bounds.{Answers, refuses, gives, parse_decimal-Answers}
use maestro_dogecoin_indexer.Drc20.Actions.{
  ◌>>=◌, RawProtocolMessage, Brc20Terms, DeployAction, AmountAction, byte_length, all_digits,
  parse_dec, positive, within_limit, required, parse_limit, parse_deploy, parse_mint,
}

pub bind-parsed :
    {A B : Type 0} (m : Parsed A) (f : A → Parsed B) {b : B}
    → (m >>= f) ≡ parsed b
    → (a : A) × (m ≡ parsed a) × (f a ≡ parsed b)
bind-parsed rejected f h = cc
bind-parsed panicked f h = cc
bind-parsed (parsed a) f h = (a, refl, h)

pub parsed_inj : {A : Type 0} {a b : A} → parsed a ≡ parsed b → a ≡ b
parsed_inj {a = a} {b} e =
    ap (λ (p : Parsed _). elim p [ rejected ↦ a | panicked ↦ a | parsed x ↦ x ]) e

if-parsed :
    {A : Type 0} (b : Bool) (m n : Parsed A) {a : A}
    → (if b then m else n) ≡ parsed a
    → ((b ≡ true) × (m ≡ parsed a)) ⊎ ((b ≡ false) × (n ≡ parsed a))
if-parsed true m n h = inl (refl, h)
if-parsed false m n h = inr (refl, h)

-- A message that passes a test, or is rejected.
pub tested :
    {A : Type 0} (b : Bool) (m : Parsed A) {a : A}
    → (if b then m else rejected) ≡ parsed a
    → (b ≡ true) × (m ≡ parsed a)
tested b m h = elim (if-parsed b m rejected h) [ inl both ↦ both | inr (fails, e) ↦ absurd (cc e) ]

positive_lt : (amount : Parsed ℕ) (n : ℕ) → positive amount ≡ parsed n → 0 < n
unfolding positive
positive_lt amount n h =
    let (x, e, f) = bind-parsed amount _ h in
    elim (if-parsed (x == 0) rejected (parsed x) f) [
      | inl (zero_amount, g) ↦ absurd (cc g)
      | inr (some_amount, g) ↦ ground (arith, parsed_inj g)
    ]

within_limit_bounds : (limit amt n : ℕ) → within_limit limit amt ≡ parsed n → (0 < n) × (n ≤ limit)
unfolding within_limit
within_limit_bounds limit amt n h = elim (if-parsed (ltb limit amt) rejected _ h) [
  | inl (over, e) ↦ absurd (cc e)
  | inr (within, e) ↦ elim (if-parsed (amt == 0) rejected (parsed amt) e) [
    | inl (zero_amount, g) ↦ absurd (cc g)
    | inr (some_amount, g) ↦ let same = parsed_inj g in (ground (arith, same), ground (arith, same))
  ]
]

pub parse_dec-le : (raw : Option (List ℕ)) (n : ℕ) → parse_dec raw ≡ parsed n → n ≤ 18
unfolding parse_dec
parse_dec-le raw n h =
    let dec_string = unwrap_or raw (b'1' ∷ b'8' ∷ []) in
    let (digits, e) = tested (all_digits dec_string) _ h in
    elim (Option-cases (parse u8_max dec_string)) [
      | inl bad ↦ absurd (cc (rw bad at e))
      | inr (dec, found) ↦ elim (if-parsed (ltb 18 dec) rejected (parsed dec) (rw found at e)) [
        | inl (large, g) ↦ absurd (cc g)
        | inr (small, g) ↦ ground (arith, parsed_inj g)
      ]
    ]

parse_limit_lt :
    (raw : Option (List ℕ)) (max dec n : ℕ) → 0 < max → parse_limit raw max dec ≡ parsed n → 0 < n
unfolding parse_limit
parse_limit_lt none max dec n h e = omega (arith, parsed_inj e)
parse_limit_lt (some m) max dec n h e = positive_lt (parse_decimal m dec) n e

module _ (lowercase_bytes : List ℕ → List ℕ) (raw : RawProtocolMessage) where
  -- A deploy that is parsed has a ticker of 4 bytes, at most 18 decimals, and a maximum and a limit that are
  -- not 0.
  pub parse_deploy_bounds :
      (action : DeployAction)
      → parse_deploy lowercase_bytes raw ≡ parsed action
      → (byte_length raw.tick ≡ 4) × (action.dec ≤ 18) × (0 < action.max) × (0 < action.limit)
  unfolding parse_deploy
  parse_deploy_bounds action h =
      let (named, e) = tested _ _ h in
      let (four, f) = tested (byte_length raw.tick == 4) _ e in
      let (dec, e₁, f₁) = bind-parsed (parse_dec raw.dec) _ f in
      let (max, e₂, f₂) = bind-parsed (positive (required raw.max dec)) _ f₁ in
      let (limit, e₃, f₃) = bind-parsed (parse_limit raw.lim max dec) _ f₂ in
      let positive_max = positive_lt (required raw.max dec) max e₂ in
      subst
        (λ (a : DeployAction).
          (byte_length raw.tick ≡ 4) × (a.dec ≤ 18) × (0 < a.max) × (0 < a.limit))
        (parsed_inj f₃)
        (
          (==_iff (byte_length raw.tick) 4).0 four,
          parse_dec-le raw.dec dec e₁,
          positive_max,
          parse_limit_lt raw.lim max dec limit positive_max e₃,
        )

  -- A mint that is parsed is of an amount that is not 0 and at most the limit of its terms.
  pub parse_mint_bounds :
      (terms : Brc20Terms) (action : AmountAction)
      → parse_mint lowercase_bytes raw terms ≡ parsed action
      → (0 < action.amt) × (action.amt ≤ terms.mint_amt_limit)
  unfolding parse_mint
  parse_mint_bounds terms action h =
      let (named, e) = tested _ _ h in
      let (amt, e₁, f₁) = bind-parsed (required raw.amt terms.dec) _ e in
      let (mintable, e₂, f₂) = bind-parsed (within_limit terms.mint_amt_limit amt) _ f₁ in
      subst (λ (a : AmountAction). (0 < a.amt) × (a.amt ≤ terms.mint_amt_limit)) (parsed_inj f₂)
        (within_limit_bounds terms.mint_amt_limit amt mintable e₂)

  parsed_le : (p : Parsed ℕ) (n : ℕ) → Answers p → p ≡ parsed n → n ≤ u128_max
  parsed_le _ n refuses h = absurd (cc h)
  parsed_le _ n (gives m le) h = omega (arith, le, parsed_inj h)

  positive_le :
      (amount : Parsed ℕ) (n : ℕ) → Answers amount → positive amount ≡ parsed n → n ≤ u128_max
  unfolding positive
  positive_le amount n answers h =
      let (x, e, f) = bind-parsed amount _ h in
      elim (if-parsed (x == 0) rejected (parsed x) f) [
        | inl (zero_amount, g) ↦ absurd (cc g)
        | inr (some_amount, g) ↦ omega (arith, parsed_le amount x answers e, parsed_inj g)
      ]

  required-Answers : (m : Option (List ℕ)) (dec : ℕ) → dec ≤ 18 → Answers (required m dec)
  unfolding required
  required-Answers none dec small = refuses
  required-Answers (some m) dec small = parse_decimal-Answers m dec small

  -- A parsed maximum is of 128 bits.
  pub parse_deploy_max :
      (action : DeployAction)
      → parse_deploy lowercase_bytes raw ≡ parsed action
      → action.max ≤ u128_max
  unfolding parse_deploy
  parse_deploy_max action h =
      let (named, e) = tested _ _ h in
      let (four, f) = tested (byte_length raw.tick == 4) _ e in
      let (dec, e₁, f₁) = bind-parsed (parse_dec raw.dec) _ f in
      let (max, e₂, f₂) = bind-parsed (positive (required raw.max dec)) _ f₁ in
      let (limit, e₃, f₃) = bind-parsed (parse_limit raw.lim max dec) _ f₂ in
      subst (λ (a : DeployAction). a.max ≤ u128_max) (parsed_inj f₃)
        (positive_le (required raw.max dec) max
          (required-Answers raw.max dec (parse_dec-le raw.dec dec e₁)) e₂)
