-- ===== src/DuneIndex/Undo/Names.antt =====
-- Undoing the name and the entry of an etching (services/compressor-xdg/src/storage/mod.rs, `rollback`).
use maestro_dogecoin_indexer.Prelude.{
  ℕ, ◌+◌, ◌-◌, ◌%◌, ◌^◌, ◌<◌, ◌≡◌, ◌∙◌, ap, sym, refl, false, ◌||◌, inl, inr, Option, none, some,
  arith, ltb, ◌==◌, ==_iff, bind-some, if-some, some_inj, unwrap_or, is_some, Bool-cases,
}
use mathlib.Core.Path.{subst}
use maestro_dogecoin_indexer.Prelude.Words.{u64_max}
use maestro_dogecoin_indexer.Dunes.Name.{reserved, is_reserved}
use maestro_dogecoin_indexer.Dunes.Dunestone.{Dunestone}
use maestro_dogecoin_indexer.Storage.{StoredId, same_id, same_id_iff}
use maestro_dogecoin_indexer.DuneIndex.Tables.{DuneTerms, Tables, Db, reserved_counters_key}
use maestro_dogecoin_indexer.DuneIndex.Mint.{mints_of}
use maestro_dogecoin_indexer.DuneIndex.Etch.{no_terms, entry_terms, reserved_counter, etched_name}
use maestro_dogecoin_indexer.DuneIndex.Undo.{undo_counter, delete_entry}

-- The entry of a dune has its name.
pub entry_terms_name :
    (dunestone : Dunestone) (dune height : ℕ) (terms : DuneTerms)
    → entry_terms dunestone dune height ≡ some terms
    → terms.name ≡ dune
unfolding entry_terms
entry_terms_name dunestone dune height terms h = ground arith

module _ (tables : Tables) where
  -- The tables answer the same to what the updater asks them.
  pub record SameReads (db db' : Db tables) : Type 0 where
    pub ids : (name : ℕ) → tables.Ids.get_by_key db'.ids name ≡ tables.Ids.get_by_key db.ids name
    pub terms :
        (id : StoredId) → tables.Terms.get_by_key db'.terms id ≡ tables.Terms.get_by_key db.terms id
    pub mints : (id : StoredId) → mints_of tables db' id ≡ mints_of tables db id
    pub counter : reserved_counter tables db' ≡ reserved_counter tables db

  pub SameReads-refl : (db : Db tables) → SameReads db db
  SameReads-refl db = record {
    ids = λ _. refl;
    terms = λ _. refl;
    mints = λ _. refl;
    counter = refl;
  }

  abbrev pub entered : StoredId → DuneTerms → ℕ → Db tables → Db tables
  entered id terms dune db = record db {
    ids = tables.Ids.stage_upsert db.ids dune id;
    terms = tables.Terms.stage_upsert db.terms id terms;
  }

  -- A new entry is deleted without a trace.
  delete_entered :
      (id : StoredId) (terms : DuneTerms) (db : Db tables)
      → tables.Ids.get_by_key db.ids terms.name ≡ none
      → tables.Terms.get_by_key db.terms id ≡ none
      → SameReads db (delete_entry tables id terms (entered id terms terms.name db))
  unfolding delete_entry
  delete_entered id terms db no_id no_terms = record {
    ids = λ name.
        tables.Ids.get_by_key-stage_delete _ terms.name name
        ∙ elim (Bool-cases (terms.name == name)) [
          | inl same ↦
              rw same
                (sym no_id ∙ ap (tables.Ids.get_by_key db.ids) ((==_iff terms.name name).0 same))
          | inr other ↦
              rw other
                (tables.Ids.get_by_key-stage_upsert db.ids terms.name name id ∙ rw other refl)
        ];
    terms = λ j. tables.Terms.get_by_key-stage_delete _ id j ∙ elim (Bool-cases (same_id id j)) [
      | inl same ↦
          rw same (sym no_terms ∙ ap (tables.Terms.get_by_key db.terms) ((same_id_iff id j).0 same))
      | inr other ↦
          rw other (tables.Terms.get_by_key-stage_upsert db.terms id j terms ∙ rw other refl)
    ];
    mints = λ j. refl;
    counter = refl;
  }

  -- The tables behind the next reserved name.
  abbrev counted : Db tables → Db tables
  counted db = record db {
    counters =
        tables.Counters.stage_upsert db.counters reserved_counters_key
          ((reserved_counter tables db + 1) % 2 ^ 64);
  }

  counted_reads :
      (db : Db tables)
      → reserved_counter tables db < u64_max
      → reserved_counter tables (counted db) ≡ reserved_counter tables db + 1
  counted_reads db h =
      let n = (reserved_counter tables db + 1) % 2 ^ 64 in
      let reads : reserved_counter tables (counted db) ≡ n =
        ap (λ (o : Option ℕ). unwrap_or o 0)
          (tables.Counters.get_by_key-stage_upsert db.counters reserved_counters_key
            reserved_counters_key n) in
      omega (arith, reads)

  -- The counter is given back.
  undo_counted :
      (db db' : Db tables)
      → reserved_counter tables db < u64_max
      → db'.counters ≡ (counted db).counters
      → (db₃ : Db tables) × (undo_counter tables none db' ≡ some db₃)
        × (db₃.ids ≡ db'.ids)
        × (db₃.terms ≡ db'.terms)
        × (db₃.mints ≡ db'.mints)
        × (reserved_counter tables db₃ ≡ reserved_counter tables db)
  unfolding undo_counter
  undo_counted db db' h same =
      let reads : reserved_counter tables db' ≡ reserved_counter tables db + 1 =
        ap
          (λ (t : tables.Counters.Contents).
            unwrap_or (tables.Counters.get_by_key t reserved_counters_key) 0)
          same
        ∙ counted_reads db h in
      let old = reserved_counter tables db' in
      let positive : (old == 0) ≡ false = ground (arith, reads) in
      let db₃ : Db tables = record db' {
        counters = tables.Counters.stage_upsert db'.counters reserved_counters_key (old - 1);
      } in
      (
        db₃,
        rw positive refl,
        refl,
        refl,
        refl,
        ap (λ (o : Option ℕ). unwrap_or o 0)
              (tables.Counters.get_by_key-stage_upsert db'.counters reserved_counters_key
                reserved_counters_key (old - 1))
            ∙ omega (arith, reads),
      )

  pub undo_entered :
      (dune : Option ℕ) (minimum : ℕ) (id : StoredId) (terms : DuneTerms) (db db₁ : Db tables)
      → etched_name tables dune minimum db ≡ some (some terms.name, db₁)
      → tables.Terms.get_by_key db.terms id ≡ none
      → reserved_counter tables db < u64_max
      → ((n : ℕ)
          → reserved (reserved_counter tables db) ≡ some n
          → tables.Ids.get_by_key db.ids n ≡ none)
      → (db₃ : Db tables) × (undo_counter tables dune
            (delete_entry tables id terms (entered id terms terms.name db₁))
          ≡ some db₃)
        × SameReads db db₃
  unfolding etched_name undo_counter
  undo_entered (some d) minimum id terms db db₁ h fresh few unused =
      let taken = ltb d minimum || (is_reserved d || is_some (tables.Ids.get_by_key db.ids d)) in
      elim (if-some taken (some (none, db)) (some (some d, db)) h) [
        | inl (refused, e) ↦
            absurd (ground (arith, ap (λ (x : Option ℕ × Db tables). is_some x.0) (some_inj e)))
        | inr (free, e) ↦
            let same : db ≡ db₁ = ap (λ (x : Option ℕ × Db tables). x.1) (some_inj e) in
            let name : d ≡ terms.name =
              some_inj (ap (λ (x : Option ℕ × Db tables). x.0) (some_inj e)) in
            let no_id : tables.Ids.get_by_key db.ids d ≡ none = ground arith in
            (
              delete_entry tables id terms (entered id terms terms.name db₁),
              refl,
              subst
                  (λ (x : Db tables).
                    SameReads db (delete_entry tables id terms (entered id terms terms.name x)))
                  same
                  (delete_entered id terms db (ap (tables.Ids.get_by_key db.ids) (sym name) ∙ no_id)
                    fresh),
            )
      ]
  undo_entered none minimum id terms db db₁ h fresh few unused =
      let (n, e, rest) = bind-some (reserved (reserved_counter tables db)) _ h in
      let same : counted db ≡ db₁ = ap (λ (x : Option ℕ × Db tables). x.1) (some_inj rest) in
      let name : n ≡ terms.name =
        some_inj (ap (λ (x : Option ℕ × Db tables). x.0) (some_inj rest)) in
      let no_id : tables.Ids.get_by_key db.ids terms.name ≡ none =
        ap (tables.Ids.get_by_key db.ids) (sym name) ∙ unused n e in
      let deleted = delete_entered id terms (counted db) no_id fresh in
      let left = delete_entry tables id terms (entered id terms terms.name (counted db)) in
      let (db₃, undone, ids, entries, mints, counter) =
        undo_counted db left few (unfold delete_entry in refl) in
      subst
        (λ (x : Db tables).
          (db₃ : Db tables) × (undo_counter tables none
              (delete_entry tables id terms (entered id terms terms.name x))
            ≡ some db₃)
          × SameReads db db₃)
        same
        (
          db₃,
          undone,
          record {
            ids = λ j.
                ap (λ (t : tables.Ids.Contents). tables.Ids.get_by_key t j) ids ∙ deleted.ids j;
            terms = λ j.
                ap (λ (t : tables.Terms.Contents). tables.Terms.get_by_key t j) entries
                ∙ deleted.terms j;
            mints = λ j.
                ap (λ (t : tables.Mints.Contents). unwrap_or (tables.Mints.get_by_key t j) 0) mints
                ∙ deleted.mints j;
            counter = counter;
          },
        )

  pub refused_name :
      (dune : Option ℕ) (minimum : ℕ) (db db₁ : Db tables)
      → etched_name tables dune minimum db ≡ some (none, db₁)
      → db ≡ db₁
  unfolding etched_name
  refused_name (some d) minimum db db₁ h =
      let taken = ltb d minimum || (is_reserved d || is_some (tables.Ids.get_by_key db.ids d)) in
      elim (if-some taken (some (none, db)) (some (some d, db)) h) [
        | inl (refused, e) ↦ ap (λ (x : Option ℕ × Db tables). x.1) (some_inj e)
        | inr (free, e) ↦ ap (λ (x : Option ℕ × Db tables). x.1) (some_inj e)
      ]
  refused_name none minimum db db₁ h =
      let (n, e, rest) = bind-some (reserved (reserved_counter tables db)) _ h in
      absurd (ground (arith, ap (λ (x : Option ℕ × Db tables). is_some x.0) (some_inj rest)))
