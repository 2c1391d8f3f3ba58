-- ===== src/DuneIndex/MintCounts/Granted.antt =====
-- The mints that `index_runes` (storage/runes/updater.rs) grants are ones that `mint` allows.
use maestro_dogecoin_indexer.Prelude.{
  ℕ, ◌+◌, ◌≤◌, ◌<◌, ◌≡◌, refl, inl, inr, Option, none, some, List, [], ◌∷◌, arith, ◌==◌, ==_iff,
  unwrap_or, Bool-cases,
}
use mathlib.Core.Path.{subst}
use maestro_dogecoin_indexer.Prelude.Words.{u128_max}
use maestro_dogecoin_indexer.Prelude.Maps.{lookup, lookup-insert, Distinct, insert-Distinct}
use maestro_dogecoin_indexer.Dunes.Id.{DuneId, from_u128}
use maestro_dogecoin_indexer.Storage.{store_id}
use maestro_dogecoin_indexer.DuneIndex.Tables.{DuneTerms, Tables, Db}
use maestro_dogecoin_indexer.DuneIndex.Mint.{
  mintable_terms, grant, mints_of, mint, claim_amount, mint_claims,
}
use maestro_dogecoin_indexer.DuneIndex.Accounts.Claims.{mint_claims_first}

module _ (tables : Tables) where
  pub claim_amount-mint :
      (db : Db tables) (id : ℕ) (d : DuneId) (height y : ℕ)
      → from_u128 id ≡ some d
      → claim_amount tables db height id ≡ some y
      → mint tables db d height ≡ some y
  unfolding claim_amount
  claim_amount-mint db id d height y unpacks h = rw (unpacks, claim_amount) at h

  pub mint_allows :
      (db : Db tables) (d : DuneId) (height y : ℕ) (terms : DuneTerms)
      → tables.Terms.get_by_key db.terms (store_id d) ≡ some terms
      → mint tables db d height ≡ some y
      → mintable_terms terms height (mints_of tables db (store_id d)) ≡ some y
  unfolding mint
  mint_allows db d height y terms e h = rw (e, mint) at h

-- What `mintable_terms` checks.
pub mintable_terms_open :
    (terms : DuneTerms) (height n y : ℕ)
    → mintable_terms terms height n ≡ some y
    → (n < unwrap_or terms.cap u128_max)
      × (unwrap_or terms.start_height 0 ≤ height)
      × (height < unwrap_or terms.end_height (height + 1))
unfolding mintable_terms
mintable_terms_open terms height n y h = ground arith

module _ (tables : Tables) (db : Db tables) (height : ℕ) where
  -- Every mint that was granted is one that `mint` allows.
  abbrev pub Allowed : List (ℕ × ℕ) → Type 0
  Allowed m =
      (id x : ℕ) → lookup id m ≡ some x → (y : ℕ) × (claim_amount tables db height id ≡ some y)

  grant-Allowed :
      (c : ℕ) (amount : Option ℕ) (m : List (ℕ × ℕ))
      → claim_amount tables db height c ≡ amount
      → Allowed m
      → Allowed (grant amount c m)
  unfolding grant
  grant-Allowed c none m e h = h
  grant-Allowed c (some x) m e h = λ id y found. elim (Bool-cases (c == id)) [
    | inl same ↦
        (x, subst (λ (k : ℕ). claim_amount tables db height k ≡ some x) ((==_iff c id).0 same) e)
    | inr other ↦ h id y (rw (lookup-insert, other) at found)
  ]

  pub mint_claims-Allowed :
      (idx : ℕ) (claims : List ℕ) (m : List (ℕ × ℕ))
      → Allowed m
      → Allowed (mint_claims tables db height idx claims m).0
  mint_claims-Allowed idx [] m h = unfold mint_claims in h
  mint_claims-Allowed idx (c ∷ claims) m h =
      rw (mint_claims_first tables db height idx c claims m) (
        mint_claims-Allowed (idx + 1) claims (grant (claim_amount tables db height c) c m)
          (grant-Allowed c (claim_amount tables db height c) m refl h))

  grant-Distinct :
      (c : ℕ) (amount : Option ℕ) (m : List (ℕ × ℕ)) → Distinct m → Distinct (grant amount c m)
  unfolding grant
  grant-Distinct c none m d = d
  grant-Distinct c (some x) m d = insert-Distinct c x m d

  pub mint_claims-Distinct :
      (idx : ℕ) (claims : List ℕ) (m : List (ℕ × ℕ))
      → Distinct m
      → Distinct (mint_claims tables db height idx claims m).0
  mint_claims-Distinct idx [] m d = unfold mint_claims in d
  mint_claims-Distinct idx (c ∷ claims) m d =
      rw (mint_claims_first tables db height idx c claims m) (
        mint_claims-Distinct (idx + 1) claims (grant (claim_amount tables db height c) c m)
          (grant-Distinct c (claim_amount tables db height c) m d))
