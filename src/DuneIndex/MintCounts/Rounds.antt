-- ===== src/DuneIndex/MintCounts/Rounds.antt =====
-- The loop of `index_runes` (storage/runes/updater.rs) that counts the mints.
use maestro_dogecoin_indexer.Prelude.{
  ℕ, ◌≡◌, ◌∙◌, ap, sym, refl, ◌⊎◌, inl, inr, Option, some, List, [], ◌∷◌, arith, ◌==◌,
  if◌then◌else◌, bind-some, if-some, some_inj, unwrap_or, Bool-cases,
}
use mathlib.Core.Path.{subst}
use maestro_dogecoin_indexer.Prelude.Words.{add128, sub128}
use maestro_dogecoin_indexer.Prelude.Maps.{lookup, Missing, Distinct}
use maestro_dogecoin_indexer.Dunes.Id.{DuneId, from_u128, to_u128}
use maestro_dogecoin_indexer.Dunes.Id.Packing.{to_u128-from_u128}
use maestro_dogecoin_indexer.Storage.{StoredId, store_id, same_id, same_id_iff}
use maestro_dogecoin_indexer.DuneIndex.Tables.{Tables, Db}
use maestro_dogecoin_indexer.DuneIndex.Mint.{mints_of, count_mint, count_mints}

module _ (tables : Tables) where
  -- One round of the loop over the mints, seen from the id `sid`.
  record Round (sid : StoredId) (limits : List (ℕ × ℕ)) (id : ℕ) (db db' : Db tables) : Type 0 where
    same_terms : db'.terms ≡ db.terms
    counter :
        (mints_of tables db' sid ≡ mints_of tables db sid)
        ⊎ ((d : DuneId) × (x : ℕ) × (from_u128 id ≡ some d)
            × (store_id d ≡ sid)
            × (lookup id limits ≡ some x)
            × (mints_of tables db' sid ≡ add128 (mints_of tables db sid) 1))

  count_one :
      (sid : StoredId) (limits : List (ℕ × ℕ)) (id x : ℕ) (d : DuneId) (db : Db tables)
      → from_u128 id ≡ some d
      → lookup id limits ≡ some x
      → Round sid limits id db (record db {
        mints =
            tables.Mints.stage_upsert db.mints
              (store_id d)
              (add128 (mints_of tables db (store_id d)) 1);
      })
  count_one sid limits id x d db e found =
      let key = store_id d in
      let n = add128 (mints_of tables db key) 1 in
      let next : Db tables = record db { mints = tables.Mints.stage_upsert db.mints key n } in
      let reads : mints_of tables next sid
          ≡ unwrap_or (if same_id key sid then some n else tables.Mints.get_by_key db.mints sid) 0 =
        ap (λ (o : Option ℕ). unwrap_or o 0)
          (tables.Mints.get_by_key-stage_upsert db.mints key sid n) in
      record {
        same_terms = refl;
        counter = elim (Bool-cases (same_id key sid)) [
          | inl same ↦
              let own : key ≡ sid = (same_id_iff key sid).0 same in
              inr (
                d,
                x,
                e,
                own,
                found,
                (rw same at reads) ∙ ap (λ (k : StoredId). add128 (mints_of tables db k) 1) own,
              )
          | inr other ↦ inl (rw other at reads)
        ];
      }

  count_mint-Round :
      (sid : StoredId) (limits : List (ℕ × ℕ)) (id left : ℕ) (db db' : Db tables)
      → count_mint tables limits id left db ≡ some db'
      → Round sid limits id db db'
  unfolding count_mint
  count_mint-Round sid limits id left db db' h =
      let (limit, found, rest) = bind-some (lookup id limits) _ h in
      elim (if-some (sub128 limit left == 0) (some db) _ rest) [
        | inl (unused, e) ↦
            subst (Round sid limits id db) (some_inj e)
              (record { same_terms = refl; counter = inl refl })
        | inr (used, more) ↦
            let (d, unpacks, e) = bind-some (from_u128 id) _ more in
            subst (Round sid limits id db) (some_inj e)
              (count_one sid limits id limit d db unpacks found)
      ]

  -- An id with 64 and 16 bits is the id of one number only.
  one_number :
      (i j : ℕ) (d e : DuneId) (sid : StoredId)
      → from_u128 i ≡ some d
      → from_u128 j ≡ some e
      → store_id d ≡ sid
      → store_id e ≡ sid
      → i ≡ j
  one_number i j d e sid p q a b =
      let number = λ (k : StoredId). to_u128 (record { height = k.block; index = k.tx }) in
      sym (to_u128-from_u128 i d p).0 ∙ ap number (a ∙ sym b) ∙ (to_u128-from_u128 j e q).0

  -- The rounds behind the one that counted a mint of `sid` leave its counter.
  count_mints_others :
      (sid : StoredId) (limits : List (ℕ × ℕ)) (id : ℕ) (d : DuneId) (m : List (ℕ × ℕ))
      (db db' : Db tables)
      → from_u128 id ≡ some d
      → store_id d ≡ sid
      → Missing id m
      → count_mints tables limits m db ≡ some db'
      → (db'.terms ≡ db.terms) × (mints_of tables db' sid ≡ mints_of tables db sid)
  unfolding count_mints
  count_mints_others sid limits id d [] db db' unpacks own missing h = (
    ap (λ (x : Db tables). x.terms) (sym (some_inj h)),
    ap (λ (x : Db tables). mints_of tables x sid) (sym (some_inj h)),
  )
  count_mints_others sid limits id d ((j, left) ∷ m) db db' unpacks own (ne, missing) h =
      let (db₁, first, rest) = bind-some (count_mint tables limits j left db) _ h in
      let round = count_mint-Round sid limits j left db db₁ first in
      let (terms, keeps) = count_mints_others sid limits id d m db₁ db' unpacks own missing rest in
      elim round.counter [
        | inl kept ↦ (terms ∙ round.same_terms, keeps ∙ kept)
        | inr (e, x, unpacks', own', found, more) ↦
            absurd (ground (arith, one_number j id e d sid unpacks' unpacks own' own))
      ]

  -- All rounds, seen from the id `sid`: its counter stays, or one granted mint counts.
  pub record Rounds (sid : StoredId) (limits : List (ℕ × ℕ)) (db db' : Db tables) : Type 0 where
    pub same_terms : db'.terms ≡ db.terms
    pub counter :
        (mints_of tables db' sid ≡ mints_of tables db sid)
        ⊎ ((id : ℕ) × (d : DuneId) × (x : ℕ) × (from_u128 id ≡ some d)
            × (store_id d ≡ sid)
            × (lookup id limits ≡ some x)
            × (mints_of tables db' sid ≡ add128 (mints_of tables db sid) 1))

  pub count_mints-Rounds :
      (sid : StoredId) (limits : List (ℕ × ℕ)) (m : List (ℕ × ℕ)) (db db' : Db tables)
      → Distinct m
      → count_mints tables limits m db ≡ some db'
      → Rounds sid limits db db'
  unfolding count_mints
  count_mints-Rounds sid limits [] db db' distinct h =
      subst (Rounds sid limits db) (some_inj h) (record { same_terms = refl; counter = inl refl })
  count_mints-Rounds sid limits ((id, left) ∷ m) db db' (missing, distinct) h =
      let (db₁, first, rest) = bind-some (count_mint tables limits id left db) _ h in
      let round = count_mint-Round sid limits id left db db₁ first in
      elim round.counter [
        | inl kept ↦
            let later = count_mints-Rounds sid limits m db₁ db' distinct rest in
            record {
              same_terms = later.same_terms ∙ round.same_terms;
              counter = elim later.counter [
                | inl keeps ↦ inl (keeps ∙ kept)
                | inr (j, d, x, unpacks, own, found, more) ↦
                    inr (j, d, x, unpacks, own, found, more ∙ ap (λ n. add128 n 1) kept)
              ];
            }
        | inr (d, x, unpacks, own, found, more) ↦
            let (terms, keeps) =
              count_mints_others sid limits id d m db₁ db' unpacks own missing rest in
            record {
              same_terms = terms ∙ round.same_terms;
              counter = inr (id, d, x, unpacks, own, found, keeps ∙ more);
            }
      ]
