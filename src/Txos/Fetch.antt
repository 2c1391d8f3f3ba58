-- ===== src/Txos/Fetch.antt =====
-- What `resolve_and_process` (services/compressor-xdg/src/storage/txos/mod.rs) fetches from memory and from the table.
use mathlib.Core.Path.{subst}
use maestro_dogecoin_indexer.Prelude.{
  ◌≡◌, ◌∙◌, ap, refl, true, ◌↔◌, Option, none, some, List, [], ◌∷◌, All, inl, inr, Bool-cases,
  Option-cases, some_inj, arith,
}
use maestro_dogecoin_indexer.Storage.{TxoRef, TxoBody}
use maestro_dogecoin_indexer.DuneIndex.{Resolver}
use maestro_dogecoin_indexer.Txos.Memory.{
  UtxoResolver, same_ref, find, without, remove, forget, with_txo, fetched, fetch,
}

same_ref_iff : (a b : TxoRef) → (same_ref a b ≡ true) ↔ (a ≡ b)
same_ref_iff a b = ground arith

module _ (P : TxoRef → TxoBody → Type 0) where
  abbrev pub Entries : UtxoResolver → Type 0
  Entries m = All (λ (e : TxoRef × TxoBody). P e.0 e.1) m.entries

  abbrev pub InMemory : Option UtxoResolver → Type 0
  InMemory none = Unit
  InMemory (some m) = Entries m

  find-All :
      (r : TxoRef) (body : TxoBody) (entries : List (TxoRef × TxoBody))
      → All (λ (e : TxoRef × TxoBody). P e.0 e.1) entries
      → find r entries ≡ some body
      → P r body
  unfolding find
  find-All r body [] h e = absurd (cc e)
  find-All r body ((q, b) ∷ entries) (h, hs) e = elim (Bool-cases (same_ref q r)) [
    | inl same ↦
        subst (λ x. P x body) ((same_ref_iff q r).0 same) (subst (P q) (some_inj (rw same at e)) h)
    | inr other ↦ find-All r body entries hs (rw other at e)
  ]

  without-All :
      (r : TxoRef) (entries : List (TxoRef × TxoBody))
      → All (λ (e : TxoRef × TxoBody). P e.0 e.1) entries
      → All (λ (e : TxoRef × TxoBody). P e.0 e.1) (without r entries)
  unfolding without
  without-All r [] h = h
  without-All r ((q, b) ∷ entries) (h, hs) = elim (Bool-cases (same_ref q r)) [
    | inl same ↦ rw same (without-All r entries hs)
    | inr other ↦ rw other (h, without-All r entries hs)
  ]

  pub forget-Entries :
      (r : TxoRef) (memory : Option UtxoResolver) → InMemory memory → InMemory (forget r memory).1
  unfolding forget remove
  forget-Entries r none h = h
  forget-Entries r (some m) h = elim (Option-cases (find r m.entries)) [
    | inl missing ↦ rw (remove, missing) h
    | inr (body, found) ↦ rw (remove, found) (without-All r m.entries h)
  ]

  pub forget-found :
      (r : TxoRef) (memory : Option UtxoResolver) (body : TxoBody)
      → InMemory memory
      → (forget r memory).0 ≡ some body
      → P r body
  unfolding forget remove
  forget-found r none body h e = absurd (cc e)
  forget-found r (some m) body h e = elim (Option-cases (find r m.entries)) [
    | inl missing ↦ absurd (cc (rw (remove, missing) at e))
    | inr (b, found) ↦ find-All r body m.entries h (found ∙ rw (remove, found) at e)
  ]

  pub with_txo-Entries :
      (r : TxoRef) (body : TxoBody) (resolver : Resolver)
      → P r body
      → ((q : TxoRef) (b : TxoBody) → resolver q ≡ some b → P q b)
      → (q : TxoRef) (b : TxoBody) → with_txo r body resolver q ≡ some b
      → P q b
  unfolding with_txo
  with_txo-Entries r body resolver h k q b e = elim (Bool-cases (same_ref r q)) [
    | inl same ↦
        subst (λ x. P x b) ((same_ref_iff r q).0 same) (subst (P r) (some_inj (rw same at e)) h)
    | inr other ↦ k q b (rw other at e)
  ]

  module _ (txos : TxoRef → Option TxoBody)
      (stored : (r : TxoRef) (body : TxoBody) → txos r ≡ some body → P r body) where
    -- Everything that was fetched was in memory or in the table.
    pub fetch-Entries :
        (refs : List TxoRef) (memory : Option UtxoResolver)
        → InMemory memory
        → (q : TxoRef) (b : TxoBody) → (fetch txos refs memory).0 q ≡ some b
        → P q b
    unfolding fetch fetched
    fetch-Entries [] memory h q b e = absurd (cc e)
    fetch-Entries (r ∷ refs) memory h q b e =
        let rest = fetch-Entries refs (forget r memory).1 (forget-Entries r memory h) in
        elim (Option-cases (forget r memory).0) [
          | inr (body, found) ↦
              with_txo-Entries r body _ (forget-found r memory body h found) rest q b
                (rw (fetch, found) at e)
          | inl missing ↦ (elim (Option-cases (txos r)) [
            | inl absent ↦ rest q b (rw (fetch, missing, absent) at e)
            | inr (body, there) ↦
                with_txo-Entries r body _ (stored r body there) rest q b
                  (rw (fetch, missing, there) at e)
          ])
        ]

-- Where the memory agrees with the table, the inputs are resolved as without it.
pub fetch_same :
    (txos : TxoRef → Option TxoBody) (refs : List TxoRef) (memory : Option UtxoResolver)
    → InMemory (λ (r : TxoRef) (body : TxoBody). txos r ≡ some body) memory
    → (fetch txos refs memory).0 ≡ (fetch txos refs none).0
unfolding fetch fetched
fetch_same txos [] memory h = refl
fetch_same txos (r ∷ refs) memory h =
    let Agrees = λ (r : TxoRef) (body : TxoBody). txos r ≡ some body in
    let rest = fetch_same txos refs (forget r memory).1 (forget-Entries Agrees r memory h) in
    elim (Option-cases (forget r memory).0) [
      | inr (body, found) ↦
          let there = forget-found Agrees r memory body h found in
          rw (found, there) (ap (with_txo r body) rest)
      | inl missing ↦ rw missing (ap (fetched r none (txos r)) rest)
    ]
