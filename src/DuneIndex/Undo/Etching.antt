-- ===== src/DuneIndex/Undo/Etching.antt =====
-- Undoing an etching gives back what the tables answered before it.
use maestro_dogecoin_indexer.Prelude.{
  ℕ, ◌%◌, ◌^◌, ◌≤◌, ◌<◌, ◌≡◌, ◌∙◌, ap, sym, refl, true, inl, inr, Option, none, some, arith, leb,
  ◌>>=◌, bind-some, some_inj, Option-cases,
}
use mathlib.Core.Path.{subst}
use maestro_dogecoin_indexer.Prelude.Words.{u16_max, u64_max}
use maestro_dogecoin_indexer.Dunes.Id.{DuneId}
use maestro_dogecoin_indexer.Dunes.Id.Packing.{from_u128-to_u128}
use maestro_dogecoin_indexer.Dunes.Name.{reserved, minimum_at_height}
use maestro_dogecoin_indexer.Dunes.Dunestone.{Dunestone}
use maestro_dogecoin_indexer.Dunes.Dunestone.Fields.{Etching}
use maestro_dogecoin_indexer.Storage.{StoredId, same_id, same_id_iff}
use maestro_dogecoin_indexer.DuneIndex.Tables.{DuneTerms, Tables, Db}
use maestro_dogecoin_indexer.DuneIndex.Etch.{
  Network, chain_of, entry_terms, create_rune_entry, reserved_counter, etched_name, etched,
}
use maestro_dogecoin_indexer.DuneIndex.Edicts.{Issuance}
use maestro_dogecoin_indexer.DuneIndex.{issuance_of, open_issuance, run_etching, enter_issuance}
use maestro_dogecoin_indexer.DuneIndex.Undo.{undo_counter, delete_entry, undo_etching}
use maestro_dogecoin_indexer.DuneIndex.Undo.Names.{
  entry_terms_name, SameReads, SameReads-refl, entered, undo_entered, refused_name,
}

module _ (tables : Tables) where
  undo_nothing :
      (dunestone : Dunestone) (id : StoredId) (db : Db tables)
      → dunestone.etching ≡ none
      → undo_etching tables dunestone id db ≡ some db
  unfolding undo_etching
  undo_nothing dunestone id db nothing = rw (nothing, undo_etching) refl

  undo_absent :
      (dunestone : Dunestone) (etching : Etching) (id : StoredId) (db : Db tables)
      → dunestone.etching ≡ some etching
      → tables.Terms.get_by_key db.terms id ≡ none
      → undo_etching tables dunestone id db ≡ some db
  unfolding undo_etching
  undo_absent dunestone etching id db present absent = rw (present, undo_etching, absent) refl

  undo_present :
      (dunestone : Dunestone) (etching : Etching) (id : StoredId) (terms : DuneTerms)
      (db : Db tables)
      → dunestone.etching ≡ some etching
      → tables.Terms.get_by_key db.terms id ≡ some terms
      → undo_etching tables dunestone id db
        ≡ undo_counter tables etching.dune (delete_entry tables id terms db)
  unfolding undo_etching
  undo_present dunestone etching id terms db present found = rw (present, undo_etching, found) refl

  enter_own :
      (dunestone : Dunestone) (height tx_index n : ℕ) (db : Db tables)
      → height ≤ u64_max
      → tx_index < 2 ^ 16
      → enter_issuance tables dunestone
          (open_issuance height tx_index (some (record { height = height; index = tx_index }, n))).1
          (open_issuance height tx_index (some (record { height = height; index = tx_index }, n))).0
          height
          db
        ≡ create_rune_entry tables dunestone
            (record { height = height; index = tx_index })
            n
            height
            db
  unfolding enter_issuance open_issuance issuance_of
  enter_own dunestone height tx_index n db fits narrow =
      let index_fits : leb tx_index u16_max ≡ true = ground arith in
      rw
        (
          index_fits,
          enter_issuance,
          from_u128-to_u128 (record { height = height; index = tx_index }) fits narrow,
        )
        refl

  -- What undoing leaves.
  Restores : Dunestone → StoredId → Db tables → Db tables → Type 0
  Restores dunestone id db db₂ =
      (db₃ : Db tables) × (undo_etching tables dunestone id db₂ ≡ some db₃)
      × SameReads tables db db₃

  module _ (height tx_index : ℕ) (fits : height ≤ u64_max) (narrow : tx_index < 2 ^ 16)
      (dunestone : Dunestone) (etching : Etching) (present : dunestone.etching ≡ some etching)
      (db : Db tables)
      (fresh : tables.Terms.get_by_key db.terms (record { block = height; tx = tx_index }) ≡ none)
      (few : reserved_counter tables db < u64_max)
      (unused : (n : ℕ)
        → reserved (reserved_counter tables db) ≡ some n
        → tables.Ids.get_by_key db.ids n ≡ none) where
    created-Restores :
        (minimum n : ℕ) (db₁ db₂ : Db tables)
        → etched_name tables etching.dune minimum db ≡ some (some n, db₁)
        → create_rune_entry tables dunestone
            (record { height = height; index = tx_index })
            n
            height
            db₁
          ≡ some db₂
        → Restores dunestone (record { block = height; tx = tx_index }) db db₂
    unfolding create_rune_entry undo_etching Restores
    created-Restores minimum n db₁ db₂ named h =
        let own : StoredId = record { block = height; tx = tx_index } in
        let (terms, e, f) = bind-some (entry_terms dunestone n height) _ h in
        let name = entry_terms_name dunestone n height terms e in
        let (db₃, undone, same) =
          undo_entered tables etching.dune minimum own terms db db₁
            (named ∙ ap (λ (k : ℕ). some (some k, db₁)) (sym name)) fresh few unused in
        let here : same_id own own ≡ true = (same_id_iff own own).1 refl in
        let found : tables.Terms.get_by_key (tables.Terms.stage_upsert db₁.terms own terms) own
            ≡ some terms =
          tables.Terms.get_by_key-stage_upsert db₁.terms own own terms ∙ rw here refl in
        let left : entered tables own terms terms.name db₁ ≡ db₂ =
          ap (λ (k : ℕ). entered tables own terms k db₁) name ∙ some_inj f in
        subst (λ (x : Db tables). Restores dunestone own db x) left
          (
            db₃,
            undo_present dunestone etching own terms (entered tables own terms terms.name db₁)
                  present found
                ∙ undone,
            same,
          )

    named-Restores :
        (minimum : ℕ) (name : Option ℕ) (db₁ db₂ : Db tables)
        → etched_name tables etching.dune minimum db ≡ some (name, db₁)
        → enter_issuance tables dunestone
            (open_issuance height tx_index
              (do n ← name; some (record { height = height; index = tx_index }, n))).1
            (open_issuance height tx_index
              (do n ← name; some (record { height = height; index = tx_index }, n))).0
            height
            db₁
          ≡ some db₂
        → Restores dunestone (record { block = height; tx = tx_index }) db db₂
    unfolding open_issuance enter_issuance issuance_of undo_etching Restores
    named-Restores minimum none db₁ db₂ named h =
        let same : db ≡ db₂ = refused_name tables etching.dune minimum db db₁ named ∙ some_inj h in
        subst
          (λ (x : Db tables). Restores dunestone (record { block = height; tx = tx_index }) db x)
          same (db, undo_absent dunestone etching _ db present fresh, SameReads-refl tables db)
    named-Restores minimum (some n) db₁ db₂ named h =
        created-Restores minimum n db₁ db₂ named
          (sym (enter_own dunestone height tx_index n db₁ fits narrow) ∙ h)

  -- Let the transaction be one of the first 65,536 of its block, with no entry under its id yet, let the
  -- counter of reserved names be below its largest value and the next reserved name not be taken. If
  -- the etching of a dunestone and its entry do not panic, then undoing the etching does not either, and
  -- the tables of ids, terms, mints and reserved names answer as they did before, whether the etching
  -- was refused, took its own name or a reserved one, and also for a cenotaph.
  pub undo_etching-run_etching :
      (halving : ℕ) (network : Network) (tx_index height : ℕ) (dunestone : Dunestone)
      (db db₂ : Db tables) (etch : Option ℕ × Option Issuance × Db tables)
      → run_etching tables halving network tx_index height dunestone db ≡ some etch
      → enter_issuance tables dunestone etch.1 etch.0 height etch.2 ≡ some db₂
      → height ≤ u64_max
      → tx_index < 2 ^ 16
      → tables.Terms.get_by_key db.terms (record { block = height; tx = tx_index }) ≡ none
      → reserved_counter tables db < u64_max
      → ((n : ℕ)
          → reserved (reserved_counter tables db) ≡ some n
          → tables.Ids.get_by_key db.ids n ≡ none)
      → (db₃ : Db tables) × (undo_etching tables dunestone
            (record { block = height; tx = tx_index })
            db₂
          ≡ some db₃)
        × SameReads tables db db₃
  unfolding run_etching etched Restores enter_issuance
  undo_etching-run_etching halving network tx_index height dunestone db db₂ etch h g fits narrow
        fresh few unused =
      let Enters = λ (t : Option ℕ × Option Issuance × Db tables).
        enter_issuance tables dunestone t.1 t.0 height t.2 ≡ some db₂ in
      elim (Option-cases dunestone.etching) [
        | inl nothing ↦
            let same = some_inj (rw (nothing, run_etching) at h) in
            let kept : db ≡ db₂ = some_inj (subst Enters (sym same) g) in
            subst
              (λ (x : Db tables).
                Restores dunestone (record { block = height; tx = tx_index }) db x)
              kept (db, undo_nothing dunestone _ db nothing, SameReads-refl tables db)
        | inr (etching, present) ↦
            let (result, e, f) =
              bind-some (etched tables halving network tx_index height etching db) _
                (rw (present, run_etching) at h) in
            let (minimum, e₁, rest) =
              bind-some (minimum_at_height halving (chain_of network) (height % 2 ^ 32)) _ e in
            let (named, e₂, last) = bind-some (etched_name tables etching.dune minimum db) _ rest in
            let same =
              ap
                (λ (r : Option (DuneId × ℕ) × Db tables). (
                  (open_issuance height tx_index r.0).0,
                  (open_issuance height tx_index r.0).1,
                  r.1,
                ))
                (some_inj last)
              ∙ some_inj f in
            named-Restores height tx_index fits narrow dunestone etching present db fresh few unused
              minimum named.0 named.1 db₂ e₂ (subst Enters (sym same) g)
      ]
