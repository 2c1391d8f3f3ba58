-- ===== src/DuneIndex/MintCounts/Whole.antt =====
-- The mint counters behind a whole transaction (storage/runes/updater.rs, `index_runes`).
use maestro_dogecoin_indexer.Prelude.{
  ℕ, ◌%◌, ◌||◌, ◌^◌, ◌≤◌, ◌<◌, ◌≡◌, ◌∙◌, ap, sym, refl, Bool, false, inl, inr, Option, none, some,
  List, [], ltb, if◌then◌else◌, bind-some, if-some, some_inj, unwrap_or, is_some, length,
  length-replicate, Option-cases,
}
use mathlib.Core.Path.{subst}
use maestro_dogecoin_indexer.Prelude.Words.{u64_max}
use maestro_dogecoin_indexer.Dunes.Id.{DuneId, from_u128}
use maestro_dogecoin_indexer.Dunes.Dunestone.{Dunestone, from_transaction}
use maestro_dogecoin_indexer.Dunes.Dunestone.Fields.{Etching}
use maestro_dogecoin_indexer.Bitcoin.{BitcoinCrate, Transaction}
use maestro_dogecoin_indexer.Storage.{StoredId, store_id, same_id}
use maestro_dogecoin_indexer.DuneIndex.Tables.{DuneTerms, Tables, Db}
use maestro_dogecoin_indexer.DuneIndex.Mint.{mints_of}
use maestro_dogecoin_indexer.DuneIndex.Etch.{
  Network, etched, etched_name, create_rune_entry, entry_terms,
}
use maestro_dogecoin_indexer.DuneIndex.Accounts.{Own, run_etching_issuance}
use maestro_dogecoin_indexer.DuneIndex.Edicts.{Issuance, Allocating}
use maestro_dogecoin_indexer.DuneIndex.{
  run_edicts, run_etching, enter_issuance, issuance_of, run_dunestone, start, op_returns,
  index_dunestone, IndexRunesResult,
}
use maestro_dogecoin_indexer.DuneIndex.Etch.{Network, chain_of, reserved_counter}
use maestro_dogecoin_indexer.Dunes.Name.{minimum_at_height, reserved, is_reserved}
use maestro_dogecoin_indexer.Dunes.Id.Packing.{from_u128-to_u128}
use maestro_dogecoin_indexer.DuneIndex.MintCounts.{Counts, uncounted, run_edicts-Counts}

-- The terms and the mint counters are the same.
abbrev Keeps : (tables : Tables) → Db tables → Db tables → Type 0
Keeps tables db db' = (db'.terms ≡ db.terms) × (db'.mints ≡ db.mints)

module _ (tables : Tables) where
  etched_name-Keeps :
      (dune : Option ℕ) (minimum : ℕ) (db : Db tables) (r : Option ℕ × Db tables)
      → etched_name tables dune minimum db ≡ some r
      → Keeps tables db r.1
  unfolding etched_name
  etched_name-Keeps (some dune) minimum db r h =
      let taken =
        ltb dune minimum || (is_reserved dune || is_some (tables.Ids.get_by_key db.ids dune)) in
      elim (if-some taken (some (none, db)) (some (some dune, db)) h) [
        | inl (refused, e) ↦
            subst (λ (x : Option ℕ × Db tables). Keeps tables db x.1) (some_inj e) (refl, refl)
        | inr (free, e) ↦
            subst (λ (x : Option ℕ × Db tables). Keeps tables db x.1) (some_inj e) (refl, refl)
      ]
  etched_name-Keeps none minimum db r h =
      let (name, e, rest) = bind-some (reserved (reserved_counter tables db)) _ h in
      subst (λ (x : Option ℕ × Db tables). Keeps tables db x.1) (some_inj rest) (refl, refl)

  etched-Keeps :
      (halving : ℕ) (network : Network) (tx_index height : ℕ) (etching : Etching) (db : Db tables)
      (r : Option (DuneId × ℕ) × Db tables)
      → etched tables halving network tx_index height etching db ≡ some r
      → Keeps tables db r.1
  unfolding etched
  etched-Keeps halving network tx_index height etching db r h =
      let (minimum, e, rest) =
        bind-some (minimum_at_height halving (chain_of network) (height % 2 ^ 32)) _ h in
      let (named, f, last) = bind-some (etched_name tables etching.dune minimum db) _ rest in
      subst (λ (x : Option (DuneId × ℕ) × Db tables). Keeps tables db x.1) (some_inj last)
        (etched_name-Keeps etching.dune minimum db named f)

  -- The etching of a transaction writes no terms and no mint counter.
  run_etching-Keeps :
      (halving : ℕ) (network : Network) (tx_index height : ℕ) (dunestone : Dunestone)
      (db : Db tables) (etch : Option ℕ × Option Issuance × Db tables)
      → run_etching tables halving network tx_index height dunestone db ≡ some etch
      → Keeps tables db etch.2
  unfolding run_etching
  run_etching-Keeps halving network tx_index height dunestone db etch h =
      elim (Option-cases dunestone.etching) [
        | inl nothing ↦
            subst (λ (x : Option ℕ × Option Issuance × Db tables). Keeps tables db x.2)
              (some_inj (rw (nothing, run_etching) at h)) (refl, refl)
        | inr (etching, present) ↦
            let (result, e, f) =
              bind-some (etched tables halving network tx_index height etching db) _
                (rw (present, run_etching) at h) in
            subst (λ (x : Option ℕ × Option Issuance × Db tables). Keeps tables db x.2) (some_inj f)
              (etched-Keeps halving network tx_index height etching db result e)
      ]

  -- The entry of an etching is written under the etching's own id.
  create_rune_entry_elsewhere :
      (dunestone : Dunestone) (id : DuneId) (dune height : ℕ) (db db' : Db tables) (sid : StoredId)
      → same_id (store_id id) sid ≡ false
      → create_rune_entry tables dunestone id dune height db ≡ some db'
      → (tables.Terms.get_by_key db'.terms sid ≡ tables.Terms.get_by_key db.terms sid)
        × (db'.mints ≡ db.mints)
  unfolding create_rune_entry
  create_rune_entry_elsewhere dunestone id dune height db db' sid other h =
      let (terms, e, rest) = bind-some (entry_terms dunestone dune height) _ h in
      subst
        (λ (x : Db tables).
          (tables.Terms.get_by_key x.terms sid ≡ tables.Terms.get_by_key db.terms sid)
          × (x.mints ≡ db.mints))
        (some_inj rest)
        (tables.Terms.get_by_key-stage_upsert db.terms (store_id id) sid terms ∙ rw other, refl)

  enter_issuance_elsewhere :
      (dunestone : Dunestone) (height tx_index : ℕ) (i : Option Issuance) (dune : Option ℕ)
      (db db' : Db tables) (sid : StoredId)
      → Own height tx_index i
      → height ≤ u64_max
      → tx_index < 2 ^ 16
      → same_id (record { block = height; tx = tx_index }) sid ≡ false
      → enter_issuance tables dunestone i dune height db ≡ some db'
      → (tables.Terms.get_by_key db'.terms sid ≡ tables.Terms.get_by_key db.terms sid)
        × (db'.mints ≡ db.mints)
  unfolding enter_issuance Own issuance_of
  enter_issuance_elsewhere dunestone height tx_index none dune db db' sid own h x other e =
      subst
        (λ (y : Db tables).
          (tables.Terms.get_by_key y.terms sid ≡ tables.Terms.get_by_key db.terms sid)
          × (y.mints ≡ db.mints))
        (some_inj e) (refl, refl)
  enter_issuance_elsewhere dunestone height tx_index (some i) none db db' sid own h x other e =
      subst
        (λ (y : Db tables).
          (tables.Terms.get_by_key y.terms sid ≡ tables.Terms.get_by_key db.terms sid)
          × (y.mints ≡ db.mints))
        (some_inj e) (refl, refl)
  enter_issuance_elsewhere dunestone height tx_index (some i) (some dune) db db' sid own h x other
        e =
      let (id, unpacks, rest) = bind-some (from_u128 i.id) _ e in
      let mine : DuneId = record { height = height; index = tx_index } in
      elim own [
        | inl missing ↦ absurd (cc missing)
        | inr opened ↦
            let unpacks_mine : from_u128 i.id ≡ some mine =
              ap (λ (k : Issuance). from_u128 k.id) (some_inj opened)
              ∙ from_u128-to_u128 mine h x in
            let same : mine ≡ id = some_inj (sym unpacks_mine ∙ unpacks) in
            create_rune_entry_elsewhere dunestone id dune height db db' sid
              (subst (λ (d : DuneId). same_id (store_id d) sid ≡ false) same other) rest
      ]

module _ (tables : Tables) (outputs : List Bool) (halving : ℕ) (network : Network)
    (tx_index height : ℕ) (fits : height ≤ u64_max) (narrow : tx_index < 2 ^ 16) (sid : StoredId)
    (other : same_id (record { block = height; tx = tx_index }) sid ≡ false)
    (terms : DuneTerms) where
  -- The terms stay, and the counter is as `Counts` says.
  Stays : Db tables → Db tables → Type 0
  Stays db db' =
      (tables.Terms.get_by_key db'.terms sid ≡ some terms)
      × Counts terms height (mints_of tables db sid) (mints_of tables db' sid)

  counter_of_mints :
      (db db' : Db tables) → db'.mints ≡ db.mints → mints_of tables db' sid ≡ mints_of tables db sid
  counter_of_mints db db' e =
      ap (λ (t : tables.Mints.Contents). unwrap_or (tables.Mints.get_by_key t sid) 0) e

  Stays-behind : (db db₁ db₂ : Db tables) → db₁.mints ≡ db.mints → Stays db₁ db₂ → Stays db db₂
  unfolding Stays
  Stays-behind db db₁ db₂ same (t, c) = (
    t,
    subst (λ (n : ℕ). Counts terms height n (mints_of tables db₂ sid))
        (counter_of_mints db db₁ same) c,
  )

  Stays-before :
      (db db₂ db₃ : Db tables)
      → Stays db db₂
      → (tables.Terms.get_by_key db₃.terms sid ≡ tables.Terms.get_by_key db₂.terms sid)
        × (db₃.mints ≡ db₂.mints)
      → Stays db db₃
  unfolding Stays
  Stays-before db db₂ db₃ (t, c) (u, same) = (
    u ∙ t,
    subst (Counts terms height (mints_of tables db sid)) (sym (counter_of_mints db₂ db₃ same)) c,
  )

  run_edicts-Stays :
      (dunestone : Dunestone) (s : Allocating) (db : Db tables)
      (block : Allocating × List ℕ × Db tables)
      → length s.allocated ≡ length outputs
      → tables.Terms.get_by_key db.terms sid ≡ some terms
      → (if dunestone.cenotaph
          then some (s, [], db)
          else run_edicts tables outputs height dunestone s db)
        ≡ some block
      → Stays db block.2
  unfolding Stays
  run_edicts-Stays dunestone s db block len e h =
      elim (if-some dunestone.cenotaph (some (s, [], db))
        (run_edicts tables outputs height dunestone s db) h) [
          | inl (c, burns) ↦
              subst (λ (b : Allocating × List ℕ × Db tables). Stays db b.2) (some_inj burns)
                (e, uncounted refl)
          | inr (c, runs) ↦
              let (same, counts) =
                run_edicts-Counts tables outputs height dunestone s block.0 block.1 db block.2 len
                  runs sid terms e in
              (ap (λ (t : tables.Terms.Contents). tables.Terms.get_by_key t sid) same ∙ e, counts)
        ]

  run_dunestone-Stays :
      (dunestone : Dunestone) (s : Allocating) (db : Db tables)
      (ran : Allocating × Option ℕ × List ℕ × Db tables)
      → length s.allocated ≡ length outputs
      → tables.Terms.get_by_key db.terms sid ≡ some terms
      → run_dunestone tables outputs halving network tx_index height dunestone s db ≡ some ran
      → Stays db ran.3
  unfolding run_dunestone Stays
  run_dunestone-Stays dunestone s db ran len e h =
      let (etch, first, rest) =
        bind-some (run_etching tables halving network tx_index height dunestone db) _ h in
      let s₁ : Allocating = record s { issuance = etch.1 } in
      let (same_terms, same_mints) =
        run_etching-Keeps tables halving network tx_index height dunestone db etch first in
      let own =
        run_etching_issuance tables halving network tx_index height dunestone db etch first in
      let (block, second, rest₂) =
        bind-some
          (if dunestone.cenotaph
            then some (s₁, [], etch.2)
            else run_edicts tables outputs height dunestone s₁ etch.2)
          _ rest in
      let (db₃, third, last) =
        bind-some (enter_issuance tables dunestone etch.1 etch.0 height block.2) _ rest₂ in
      let here : tables.Terms.get_by_key etch.2.terms sid ≡ some terms =
        ap (λ (t : tables.Terms.Contents). tables.Terms.get_by_key t sid) same_terms ∙ e in
      let ran_edicts = run_edicts-Stays dunestone s₁ etch.2 block len here second in
      let entered =
        enter_issuance_elsewhere tables dunestone height tx_index etch.1 etch.0 block.2 db₃ sid own
          fits narrow other third in
      subst (λ (r : Allocating × Option ℕ × List ℕ × Db tables). Stays db r.3) (some_inj last)
        (Stays-before db block.2 db₃ (Stays-behind db etch.2 block.2 same_mints ran_edicts) entered)

module _ (crate : BitcoinCrate) (tables : Tables) where
  open crate use {Script}

  -- Take a dune with terms in the tables, other than the one that this transaction could etch, and let
  -- the transaction be one of the first 65,536 of its block. If the updater does not panic, the terms are
  -- kept, and the dune's mint counter either is the same or went up by one, and then the terms allowed
  -- a mint: the counter was below the cap and the height was from the start height on and before the
  -- end height.
  pub index_dunestone-Counts :
      (halving : ℕ) (network : Network) (tx_index : ℕ) (tx : Transaction Script) (height : ℕ)
      (m : List (ℕ × ℕ)) (db : Db tables) (result : IndexRunesResult × List (ℕ × ℕ) × Db tables)
      (sid : StoredId) (terms : DuneTerms)
      → index_dunestone crate tables halving network tx_index tx height m db ≡ some result
      → height ≤ u64_max
      → tx_index < 2 ^ 16
      → same_id (record { block = height; tx = tx_index }) sid ≡ false
      → tables.Terms.get_by_key db.terms sid ≡ some terms
      → (tables.Terms.get_by_key result.2.terms sid ≡ some terms)
        × Counts terms height (mints_of tables db sid) (mints_of tables result.2 sid)
  unfolding index_dunestone Stays
  index_dunestone-Counts halving network tx_index tx height m db result sid terms h fits narrow
        other e =
      let outputs = op_returns crate tx in
      let s = start (length outputs) m in
      let last_db = λ (r : IndexRunesResult × List (ℕ × ℕ) × Db tables).
        Stays tables outputs halving network tx_index height fits narrow sid other terms db r.2 in
      elim (Option-cases (from_transaction crate tx)) [
        | inl nothing ↦
            subst last_db (some_inj (rw (nothing, index_dunestone) at h)) (e, uncounted refl)
        | inr (d, present) ↦
            let (ran, f, last) =
              bind-some (run_dunestone tables outputs halving network tx_index height d s db) _
                (rw (present, index_dunestone) at h) in
            subst last_db (some_inj last) (
              run_dunestone-Stays tables outputs halving network tx_index height fits narrow sid
                other terms d s db ran (length-replicate (length outputs) []) e f)
      ]
