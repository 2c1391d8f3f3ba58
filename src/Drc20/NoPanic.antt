-- ===== src/Drc20/NoPanic.antt =====
-- The parsers of actions do not panic (services/compressor-xdg/src/storage/inscriptions/brc20.rs).
use maestro_dogecoin_indexer.Prelude.{
  ℕ, ◌≤◌, ◌≡◌, refl, Bool, true, false, Option, none, some, List, [], ◌∷◌, ltb, ◌==◌, if◌then◌else◌,
  Option-cases, inl, inr, unwrap_or,
}
use maestro_dogecoin_indexer.Prelude.Words.{u8_max}
use maestro_dogecoin_indexer.Drc20.Decimal.{Parsed, rejected, parsed, parse}
use maestro_dogecoin_indexer.Drc20.Bounds.{Answers, refuses, gives, parse_decimal-Answers}
use maestro_dogecoin_indexer.Drc20.ActionBounds.{parse_dec-le}
use maestro_dogecoin_indexer.Drc20.Actions.{
  ◌>>=◌, RawProtocolMessage, Brc20Terms, byte_length, all_digits, parse_dec, positive, within_limit,
  required, parse_limit, parse_deploy, parse_mint, parse_transfer,
}

pub data NoPanic {A : Type 0} : Parsed A → Type 0 where
  refusal : NoPanic rejected
  answer : (a : A) → NoPanic (parsed a)

Answers-NoPanic : (p : Parsed ℕ) → Answers p → NoPanic p
Answers-NoPanic _ refuses = refusal
Answers-NoPanic _ (gives n le) = answer n

bind-NoPanic :
    {A B : Type 0} (m : Parsed A) (f : A → Parsed B)
    → NoPanic m
    → ((a : A) → m ≡ parsed a → NoPanic (f a))
    → NoPanic (m >>= f)
bind-NoPanic _ f refusal k = refusal
bind-NoPanic _ f (answer a) k = k a refl

if-NoPanic :
    {A : Type 0} (b : Bool) (m n : Parsed A) → NoPanic m → NoPanic n → NoPanic (if b then m else n)
if-NoPanic true m n h k = h
if-NoPanic false m n h k = k

parse_dec-NoPanic : (raw : Option (List ℕ)) → NoPanic (parse_dec raw)
unfolding parse_dec
parse_dec-NoPanic raw =
    let dec_string = unwrap_or raw (b'1' ∷ b'8' ∷ []) in
    if-NoPanic (all_digits dec_string) _ rejected
      (elim (Option-cases (parse u8_max dec_string)) [
        | inl bad ↦ rw bad refusal
        | inr (dec, found) ↦
            rw found (if-NoPanic (ltb 18 dec) rejected (parsed dec) refusal (answer dec))
      ])
      refusal

positive-NoPanic : (amount : Parsed ℕ) → NoPanic amount → NoPanic (positive amount)
unfolding positive
positive-NoPanic amount h =
    bind-NoPanic amount _ h (λ x e. if-NoPanic (x == 0) rejected (parsed x) refusal (answer x))

required-NoPanic : (m : Option (List ℕ)) (dec : ℕ) → dec ≤ 18 → NoPanic (required m dec)
unfolding required
required-NoPanic none dec small = refusal
required-NoPanic (some m) dec small = Answers-NoPanic _ (parse_decimal-Answers m dec small)

parse_limit-NoPanic :
    (raw : Option (List ℕ)) (max dec : ℕ) → dec ≤ 18 → NoPanic (parse_limit raw max dec)
unfolding parse_limit
parse_limit-NoPanic none max dec small = answer max
parse_limit-NoPanic (some m) max dec small =
    positive-NoPanic _ (Answers-NoPanic _ (parse_decimal-Answers m dec small))

within_limit-NoPanic : (limit amt : ℕ) → NoPanic (within_limit limit amt)
unfolding within_limit
within_limit-NoPanic limit amt =
    if-NoPanic (ltb limit amt) rejected _ refusal
      (if-NoPanic (amt == 0) rejected (parsed amt) refusal (answer amt))

module _ (lowercase_bytes : List ℕ → List ℕ) (raw : RawProtocolMessage) where
  pub parse_deploy-NoPanic : NoPanic (parse_deploy lowercase_bytes raw)
  unfolding parse_deploy
  parse_deploy-NoPanic =
      if-NoPanic _ _ rejected
        (if-NoPanic (byte_length raw.tick == 4) _ rejected
          (bind-NoPanic (parse_dec raw.dec) _ (parse_dec-NoPanic raw.dec) (λ dec e.
            let small = parse_dec-le raw.dec dec e in
            bind-NoPanic (positive (required raw.max dec)) _
              (positive-NoPanic _ (required-NoPanic raw.max dec small))
              (λ max e₁.
                bind-NoPanic (parse_limit raw.lim max dec) _
                  (parse_limit-NoPanic raw.lim max dec small) (λ limit e₂. answer _))))
          refusal)
        refusal

  pub parse_mint-NoPanic :
      (terms : Brc20Terms) → terms.dec ≤ 18 → NoPanic (parse_mint lowercase_bytes raw terms)
  unfolding parse_mint
  parse_mint-NoPanic terms small =
      if-NoPanic _ _ rejected
        (bind-NoPanic (required raw.amt terms.dec) _ (required-NoPanic raw.amt terms.dec small)
          (λ amt e.
            bind-NoPanic (within_limit terms.mint_amt_limit amt) _
              (within_limit-NoPanic terms.mint_amt_limit amt) (λ mintable e₁. answer _)))
        refusal

  pub parse_transfer-NoPanic :
      (terms : Brc20Terms) → terms.dec ≤ 18 → NoPanic (parse_transfer lowercase_bytes raw terms)
  unfolding parse_transfer
  parse_transfer-NoPanic terms small =
      if-NoPanic _ _ rejected
        (bind-NoPanic (positive (required raw.amt terms.dec)) _
          (positive-NoPanic _ (required-NoPanic raw.amt terms.dec small)) (λ amt e. answer _))
        refusal
