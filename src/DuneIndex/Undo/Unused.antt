-- ===== src/DuneIndex/Undo/Unused.antt =====
-- A mint that no edict takes from is recorded as a success and not counted.
use maestro_dogecoin_indexer.Prelude.{
  ℕ, ◌%◌, ◌^◌, ◌≤◌, ◌≡◌, ◌∙◌, ap, refl, Bool, true, none, some, List, [], ◌∷◌, arith, ◌==◌, length,
}
use maestro_dogecoin_indexer.Prelude.Words.{sub128}
use maestro_dogecoin_indexer.Dunes.Id.{DuneId, from_u128, claim}
use maestro_dogecoin_indexer.Dunes.Dunestone.{Dunestone}
use maestro_dogecoin_indexer.Dunes.Dunestone.Fields.{Edict}
use maestro_dogecoin_indexer.Storage.{store_id}
use maestro_dogecoin_indexer.DuneIndex.Tables.{Tables, Db}
use maestro_dogecoin_indexer.DuneIndex.Mint.{
  mints_of, mint, claim_amount, mint_claims, grant, record_success, count_mints, count_mint, sort,
  dedup, claims_of,
}
use maestro_dogecoin_indexer.DuneIndex.Edicts.{Allocating, apply_edicts}
use maestro_dogecoin_indexer.DuneIndex.Conservation.{apply_edict_outside}
use maestro_dogecoin_indexer.DuneIndex.{run_edicts}
use maestro_dogecoin_indexer.DuneIndex.Undo.{undo_claims, undo_claim, undo_mint, contains}

run_edicts_steps :
    (tables : Tables) (outputs : List Bool) (height : ℕ) (dunestone : Dunestone) (s s' : Allocating)
    (db db' : Db tables) (claims successes : List ℕ) (limits : List (ℕ × ℕ))
    → dedup (sort (claims_of dunestone.edicts)) ≡ claims
    → mint_claims tables db height 0 claims [] ≡ (limits, successes)
    → apply_edicts outputs dunestone.edicts (record s { mintable = limits }) ≡ some s'
    → count_mints tables limits s'.mintable db ≡ some db'
    → run_edicts tables outputs height dunestone s db ≡ some (s', successes, db')
unfolding run_edicts
run_edicts_steps tables outputs height dunestone s s' db db' claims successes limits cs ms applied
      counted =
    rw (cs, ms, applied, counted) refl

module _ (tables : Tables) (outputs : List Bool) (height : ℕ) (dunestone : Dunestone)
    (edict : Edict) (c : ℕ) (key : DuneId) (x : ℕ) (db : Db tables)
    (alone : dunestone.edicts ≡ edict ∷ []) (claims : claim edict.id ≡ some c)
    (unpacks : from_u128 c ≡ some key) (open_mint : mint tables db key height ≡ some x)
    (outside : length outputs ≤ edict.output) where
  granted_once : mint_claims tables db height 0 (c ∷ []) [] ≡ ((c, x) ∷ [], 0 ∷ [])
  unfolding mint_claims claim_amount grant record_success
  granted_once = rw (unpacks, open_mint) refl

  one_claim : claims_of (edict ∷ []) ≡ c ∷ []
  unfolding claims_of
  one_claim = rw (claims, claims_of) refl

  claimed_once : dedup (sort (claims_of dunestone.edicts)) ≡ c ∷ []
  unfolding sort dedup
  claimed_once =
      ap (λ (l : List Edict). dedup (sort (claims_of l))) alone
      ∙ ap (λ (l : List ℕ). dedup (sort l)) one_claim

  underflow :
      (idx : ℕ)
      → mints_of tables db (store_id key) ≡ 0
      → undo_claim tables ((idx % 2 ^ 32, 0) ∷ []) idx 0 c db ≡ none
  unfolding undo_claim undo_mint contains
  underflow idx never =
      let same : (idx % 2 ^ 32 == idx % 2 ^ 32) ≡ true = ground arith in
      rw (unpacks, undo_claim, same, never) refl

  applied_nothing : (s : Allocating) → apply_edicts outputs dunestone.edicts s ≡ some s
  unfolding apply_edicts
  applied_nothing s = rw (alone, apply_edict_outside outputs edict s outside) refl

  counted_nothing : count_mints tables ((c, x) ∷ []) ((c, x) ∷ []) db ≡ some db
  unfolding count_mints count_mint
  counted_nothing =
      let found : (c == c) ≡ true = ground arith in
      let none_left : (sub128 x x == 0) ≡ true = ground arith in rw (found, none_left) refl

  -- Take a dunestone of a single edict, which claims a dune that may be minted at this height and names no
  -- output of the transaction. The mint is recorded as a success and the counter of the dune is not
  -- raised; undoing the dunestone then panics if the dune had no mints.
  pub unused_mint-undo_claims :
      (s : Allocating) (idx : ℕ)
      → mints_of tables db (store_id key) ≡ 0
      → (run_edicts tables outputs height dunestone s db
          ≡ some (record s { mintable = (c, x) ∷ [] }, 0 ∷ [], db))
        × (undo_claims tables
              ((idx % 2 ^ 32, 0) ∷ [])
              idx
              0
              (dedup (sort (claims_of dunestone.edicts)))
              db
            ≡ none)
  unfolding undo_claims
  unused_mint-undo_claims s idx never = (
    run_edicts_steps tables outputs height dunestone s (record s { mintable = (c, x) ∷ [] }) db db
        (c ∷ []) (0 ∷ []) ((c, x) ∷ []) claimed_once granted_once
        (applied_nothing (record s { mintable = (c, x) ∷ [] })) counted_nothing,
    rw (claimed_once, underflow idx never) refl,
  )
