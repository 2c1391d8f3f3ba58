-- ===== src/DuneIndex/Mint.antt =====
-- Minting (storage/runes/updater.rs): `mint`, the loop over the claims and the mint counters.
use maestro_dogecoin_indexer.Prelude.{
  ℕ, ◌+◌, ◌%◌, ◌^◌, false, Option, none, some, List, [], ◌∷◌, ltb, leb, ◌==◌, if◌then◌else◌, ◌>>=◌,
  unwrap_or,
}
use maestro_dogecoin_indexer.Prelude.Words.{u128_max, add128, sub128}
use maestro_dogecoin_indexer.Prelude.Maps.{lookup, insert}
use maestro_dogecoin_indexer.Dunes.Id.{DuneId, from_u128, claim}
use maestro_dogecoin_indexer.Dunes.Dunestone.Fields.{Edict}
use maestro_dogecoin_indexer.Storage.{StoredId, store_id}
use maestro_dogecoin_indexer.DuneIndex.Tables.{DuneTerms, Tables, Db}

-- `height < start`, `height >= end` and `current_mints >= cap` refuse a mint; a limit that is not there
-- does not.
unfoldable pub mintable_terms : DuneTerms → ℕ → ℕ → Option ℕ
mintable_terms terms height current_mints =
    if (elim terms.start_height [ none ↦ false | some start ↦ ltb height start ])
    then none
    else if (elim terms.end_height [ none ↦ false | some end ↦ leb end height ])
    then none
    else if leb (unwrap_or terms.cap u128_max) current_mints
    then none
    else some (unwrap_or terms.amount 0)

-- `mintable.insert(id, x)` for an amount that was granted
unfoldable pub grant : Option ℕ → ℕ → List (ℕ × ℕ) → List (ℕ × ℕ)
grant none id mintable = mintable
grant (some x) id mintable = insert id x mintable

-- `successful_mints.push(idx as u16)` in front of the later successes
unfoldable pub record_success : Option ℕ → ℕ → List (ℕ × ℕ) × List ℕ → List (ℕ × ℕ) × List ℕ
record_success none idx (mintable, successes) = (mintable, successes)
record_success (some _) idx (mintable, successes) = (mintable, (idx % 2 ^ 16) ∷ successes)

module _ (tables : Tables) where
  abbrev pub mints_of : Db tables → StoredId → ℕ
  mints_of db id = unwrap_or (tables.Mints.get_by_key db.mints id) 0

  -- `mint`: the amount that one mint of the id may take at this height.
  unfoldable pub mint : Db tables → DuneId → ℕ → Option ℕ
  unfolding mintable_terms
  mint db id height = elim (tables.Terms.get_by_key db.terms (store_id id)) [
    | none ↦ none
    | some terms ↦ mintable_terms terms height (mints_of db (store_id id))
  ]

  -- What a claim may take; an id that does not unpack, or a mint that is refused, takes nothing.
  unfoldable pub claim_amount : Db tables → ℕ → ℕ → Option ℕ
  unfolding mint
  claim_amount db height id = do key ← from_u128 id; mint db key height

  -- The loop that fills `mintable` and `successful_mints`, from the index `idx` on.
  unfoldable pub mint_claims : Db tables → ℕ → ℕ → List ℕ → List (ℕ × ℕ) → List (ℕ × ℕ) × List ℕ
  unfolding grant record_success
  mint_claims db height idx [] mintable = (mintable, [])
  mint_claims db height idx (id ∷ claims) mintable =
      let amount = claim_amount db height id in
      record_success amount idx (mint_claims db height (idx + 1) claims (grant amount id mintable))

  -- One round of the loop over `mintable` behind the edicts: a claim that some edict took from counts
  -- as one mint. `none` is a panic, of an index into `limits` or of an id that does not unpack.
  unfoldable pub count_mint : List (ℕ × ℕ) → ℕ → ℕ → Db tables → Option (Db tables)
  count_mint limits id left db = do
    limit ← lookup id limits
    if sub128 limit left == 0 then some db else (do
      dune_id ← from_u128 id
      let key = store_id dune_id
      let new_mints = add128 (mints_of db key) 1
      some (record db { mints = tables.Mints.stage_upsert db.mints key new_mints }))

  unfoldable pub count_mints : List (ℕ × ℕ) → List (ℕ × ℕ) → Db tables → Option (Db tables)
  unfolding count_mint
  count_mints limits [] db = some db
  count_mints limits ((id, left) ∷ mintable) db = do
    db' ← count_mint limits id left db
    count_mints limits mintable db'

-- `claims.sort()`
unfoldable pub insert_sorted : ℕ → List ℕ → List ℕ
insert_sorted x [] = x ∷ []
insert_sorted x (y ∷ ys) = if leb x y then x ∷ y ∷ ys else y ∷ insert_sorted x ys

unfoldable pub sort : List ℕ → List ℕ
unfolding insert_sorted
sort [] = []
sort (x ∷ xs) = insert_sorted x (sort xs)

-- `claims.dedup()` drops an element that equals the one before it.
unfoldable pub dedup_after : ℕ → List ℕ → List ℕ
dedup_after last [] = []
dedup_after last (x ∷ xs) = let rest = dedup_after x xs in if x == last then rest else x ∷ rest

unfoldable pub dedup : List ℕ → List ℕ
unfolding dedup_after
dedup [] = []
dedup (x ∷ xs) = x ∷ dedup_after x xs

unfoldable pub claims_of : List Edict → List ℕ
claims_of [] = []
claims_of (e ∷ edicts) =
    let rest = claims_of edicts in elim (claim e.id) [ none ↦ rest | some id ↦ id ∷ rest ]
