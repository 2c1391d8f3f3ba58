-- ===== src/DuneIndex/MintCounts.antt =====
-- The mint counters behind the edicts of a transaction (storage/runes/updater.rs, `mint` and `index_runes`).
pub mod Granted
pub mod Rounds
pub mod Whole
mod Examples
use maestro_dogecoin_indexer.Prelude.{
  ℕ, ◌+◌, ◌^◌, ◌≤◌, ◌<◌, ◌≡◌, ◌∙◌, ap, sym, refl, Bool, true, false, ◌⊎◌, inl, inr, ◌↔◌, Option,
  none, some, List, [], ◌∷◌, arith, ltb, leb, ◌==◌, ==_iff, if◌then◌else◌, ◌>>=◌, bind-some,
  if-some, some_inj, unwrap_or, is_some, length, Bool-cases, Option-cases, All,
}
use mathlib.Core.Path.{subst}
use maestro_dogecoin_indexer.Prelude.Words.{u64_max, u128_max, add128, sub128}
use maestro_dogecoin_indexer.Prelude.Maps.{
  lookup, insert, lookup-insert, Missing, Distinct, insert-Distinct,
}
use maestro_dogecoin_indexer.Dunes.Id.{DuneId, from_u128, to_u128}
use maestro_dogecoin_indexer.Dunes.Id.Packing.{to_u128-from_u128}
use maestro_dogecoin_indexer.Dunes.Dunestone.{Dunestone}
use maestro_dogecoin_indexer.Storage.{StoredId, store_id, same_id, same_id_iff}
use maestro_dogecoin_indexer.DuneIndex.Tables.{DuneTerms, Tables, Db}
use maestro_dogecoin_indexer.DuneIndex.Mint.{
  mintable_terms, grant, mints_of, mint, claim_amount, mint_claims, count_mint, count_mints, sort,
  dedup, claims_of,
}
use maestro_dogecoin_indexer.DuneIndex.Etch.{Network, etched, etched_name, create_rune_entry}
use maestro_dogecoin_indexer.DuneIndex.Accounts.{Own}
use maestro_dogecoin_indexer.DuneIndex.Edicts.{Issuance, Allocating, apply_edicts}
use maestro_dogecoin_indexer.DuneIndex.Conservation.{Applies, apply_edicts-Applies}
use maestro_dogecoin_indexer.DuneIndex.Accounts.Claims.{mint_claims_first}
use maestro_dogecoin_indexer.DuneIndex.{run_edicts, run_etching, enter_issuance, issuance_of}
use Granted.{
  mint_claims-Allowed, mint_claims-Distinct, claim_amount-mint, mint_allows, mintable_terms_open,
}
use Rounds.{count_mints-Rounds}

-- What a transaction does to the counter of a dune with these terms: nothing, or it counts one mint, which
-- the terms allow at this height.
pub data Counts (terms : DuneTerms) (height before after : ℕ) : Type 0 where
  uncounted : after ≡ before → Counts terms height before after
  counted :
      before < unwrap_or terms.cap u128_max
      → unwrap_or terms.start_height 0 ≤ height
      → height < unwrap_or terms.end_height (height + 1)
      → after ≡ add128 before 1
      → Counts terms height before after

module _ (tables : Tables) (outputs : List Bool) (height : ℕ) where
  pub run_edicts-Counts :
      (dunestone : Dunestone) (s s' : Allocating) (successes : List ℕ) (db db' : Db tables)
      → length s.allocated ≡ length outputs
      → run_edicts tables outputs height dunestone s db ≡ some (s', successes, db')
      → (sid : StoredId) (terms : DuneTerms) → tables.Terms.get_by_key db.terms sid ≡ some terms
      → (db'.terms ≡ db.terms)
        × Counts terms height (mints_of tables db sid) (mints_of tables db' sid)
  unfolding run_edicts
  run_edicts-Counts dunestone s s' successes db db' len h sid terms e =
      let claims = dedup (sort (claims_of dunestone.edicts)) in
      let limits = (mint_claims tables db height 0 claims []).0 in
      let s₀ : Allocating = record s { mintable = limits } in
      let (s₁, applied, rest) = bind-some (apply_edicts outputs dunestone.edicts s₀) _ h in
      let (s₂, applied', applies) = apply_edicts-Applies outputs dunestone.edicts s₀ len in
      let (db₁, counted_db, last) = bind-some (count_mints tables limits s₁.mintable db) _ rest in
      let same : s₂ ≡ s₁ = some_inj (sym applied' ∙ applied) in
      let distinct : Distinct s₁.mintable =
        subst (λ (st : Allocating). Distinct st.mintable) same
          (applies.one_mint_each (mint_claims-Distinct tables db height 0 claims [] tt)) in
      let rounds = count_mints-Rounds tables sid limits s₁.mintable db db₁ distinct counted_db in
      let last_db : db₁ ≡ db' = ap (λ (r : Allocating × List ℕ × Db tables). r.2) (some_inj last) in
      let allowed = mint_claims-Allowed tables db height 0 claims [] (λ id x. cc) in
      let counts : Counts terms height (mints_of tables db sid) (mints_of tables db₁ sid) =
        elim rounds.counter [
          | inl stays ↦ uncounted stays
          | inr (id, d, x, unpacks, own, found, more) ↦
              let (y, amount) = allowed id x found in
              let granted = claim_amount-mint tables db id d height y unpacks amount in
              let here : tables.Terms.get_by_key db.terms (store_id d) ≡ some terms =
                subst (λ (k : StoredId). tables.Terms.get_by_key db.terms k ≡ some terms) (sym own)
                  e in
              let (below, started, ends) =
                mintable_terms_open terms height (mints_of tables db (store_id d)) y
                  (mint_allows tables db d height y terms here granted) in
              counted
                (subst (λ (k : StoredId). mints_of tables db k < unwrap_or terms.cap u128_max) own
                  below)
                started ends more
        ] in
      subst
        (λ (x : Db tables).
          (x.terms ≡ db.terms)
          × Counts terms height (mints_of tables db sid) (mints_of tables x sid))
        last_db (rounds.same_terms, counts)
