-- ===== src/Txos/Apply/Reads.antt =====
-- What the table of outputs answers after the steps of an apply and of a rollback
-- (services/compressor-xdg/src/storage/mod.rs).
use mathlib.Core.Path.{subst}
use maestro_dogecoin_indexer.Prelude.{
  ℕ, ◌+◌, ◌≡◌, ◌∙◌, ◌↔◌, ap, sym, refl, true, false, Option, none, some, List, [], ◌∷◌, ◌++◌, All,
  inl, inr, Bool-cases, Option-cases, map, arith, if◌then◌else◌, ◌||◌,
}
use maestro_dogecoin_indexer.Bitcoin.{TxIn, TxOut, Transaction}
use maestro_dogecoin_indexer.Storage.{Table, TxoRef, TxoBody}
use maestro_dogecoin_indexer.DuneIndex.{Resolver}
use maestro_dogecoin_indexer.Inscriptions.Updater.{done}
use maestro_dogecoin_indexer.Inscriptions.Index.Runs.{done_inj}
use maestro_dogecoin_indexer.Txos.Memory.{same_ref, ref_of, contains_ref}
use maestro_dogecoin_indexer.Txos.Apply.{
  output_ref, without_txo, produce, consume, restore, unproduce,
}

abbrev pub refs : List TxIn → List TxoRef
refs input = map ref_of input

-- No reference stands twice in the list.
abbrev pub Distinct : List TxoRef → Type 0
Distinct [] = Unit
Distinct (r ∷ rs) = (contains_ref r rs ≡ false) × Distinct rs

module _ {Script : Type 0} where
  -- The references of the outputs from number `vout` on.
  abbrev pub made : ℕ → ℕ → List (TxOut Script) → List TxoRef
  made t vout [] = []
  made t vout (o ∷ outputs) = output_ref t vout ∷ made t (vout + 1) outputs

pub same_ref_iff : (a b : TxoRef) → (same_ref a b ≡ true) ↔ (a ≡ b)
same_ref_iff a b = ground arith

pub contains_ref-All :
    (P : TxoRef → Type 0) (q : TxoRef) (rs : List TxoRef)
    → contains_ref q rs ≡ true
    → All P rs
    → P q
unfolding contains_ref
contains_ref-All P q [] h k = absurd (cc h)
contains_ref-All P q (r ∷ rs) h (k, ks) = elim (Bool-cases (same_ref r q)) [
  | inl same ↦ subst P ((same_ref_iff r q).0 same) k
  | inr other ↦ contains_ref-All P q rs (ground (arith, h)) ks
]

pub contains_ref-append :
    (q : TxoRef) (xs ys : List TxoRef)
    → contains_ref q (xs ++ ys) ≡ (contains_ref q xs || contains_ref q ys)
unfolding contains_ref
contains_ref-append q [] ys = refl
contains_ref-append q (x ∷ xs) ys = ground (arith, contains_ref-append q xs ys)

-- The parts of a list without repetitions have none, and share nothing.
pub Distinct-append :
    (xs ys : List TxoRef)
    → Distinct (xs ++ ys)
    → Distinct xs
      × Distinct ys
      × ((q : TxoRef) → contains_ref q xs ≡ true → contains_ref q ys ≡ false)
unfolding contains_ref
Distinct-append [] ys h = (tt, h, λ q e. absurd (cc e))
Distinct-append (x ∷ xs) ys (h, hs) =
    let (left, right, apart) = Distinct-append xs ys hs in
    (
      (ground (arith, h, contains_ref-append x xs ys), left),
      right,
      λ q e. elim (Bool-cases (same_ref x q)) [
        | inl same ↦
            subst (λ (z : TxoRef). contains_ref z ys ≡ false) ((same_ref_iff x q).0 same)
              (ground (arith, h, contains_ref-append x xs ys))
        | inr other ↦ apart q (ground (arith, e))
      ],
    )

module _ (txos : Table TxoRef TxoBody same_ref) {Script : Type 0} (txid : Transaction Script → ℕ)
    (encode_txout : TxOut Script → List ℕ) where
  abbrev pub read : txos.Contents → TxoRef → Option TxoBody
  read db r = txos.get_by_key db r

  pub consume_reads :
      (input : List TxIn) (db : txos.Contents) (r : TxoRef)
      → read (consume txos txid encode_txout input db) r
        ≡ (if contains_ref r (refs input) then none else read db r)
  unfolding consume contains_ref
  consume_reads [] db r = refl
  consume_reads (i ∷ input) db r =
      consume_reads input (txos.stage_delete db (ref_of i)) r
      ∙ rw (txos.get_by_key-stage_delete db (ref_of i) r)
          (elim (Bool-cases (same_ref (ref_of i) r)) [
            | inl same ↦ rw same (ground arith)
            | inr other ↦ rw other (ground arith)
          ])

  pub unproduce_reads :
      (t vout : ℕ) (outputs : List (TxOut Script)) (db : txos.Contents) (r : TxoRef)
      → read (unproduce txos txid encode_txout t vout outputs db) r
        ≡ (if contains_ref r (made t vout outputs) then none else read db r)
  unfolding unproduce contains_ref
  unproduce_reads t vout [] db r = refl
  unproduce_reads t vout (o ∷ outputs) db r =
      unproduce_reads t (vout + 1) outputs (txos.stage_delete db (output_ref t vout)) r
      ∙ rw (txos.get_by_key-stage_delete db (output_ref t vout) r)
          (elim (Bool-cases (same_ref (output_ref t vout) r)) [
            | inl same ↦ rw same (ground arith)
            | inr other ↦ rw other (ground arith)
          ])

  -- What is not produced stays as it is.
  pub produce_other :
      (t vout : ℕ) (outputs : List (TxOut Script)) (resolver : Resolver) (db db' : txos.Contents)
      (r : TxoRef)
      → produce txos txid encode_txout t vout outputs resolver db ≡ done db'
      → contains_ref r (made t vout outputs) ≡ false
      → read db' r ≡ read db r
  unfolding produce contains_ref
  produce_other t vout [] resolver db db' r e h = ap (λ d. read d r) (sym (done_inj e))
  produce_other t vout (o ∷ outputs) resolver db db' r e h =
      elim (Option-cases (resolver (output_ref t vout))) [
        | inl missing ↦ absurd (cc (rw (produce, missing) at e))
        | inr (entry, found) ↦
            let other : same_ref (output_ref t vout) r ≡ false = ground (arith, h) in
            produce_other t (vout + 1) outputs resolver _ db' r (rw (produce, found) at e)
              (ground (arith, h))
            ∙ (txos.get_by_key-stage_upsert db (output_ref t vout) r _ ∙ rw other refl)
      ]

  abbrev pub Held : Resolver → TxoRef → Type 0
  Held resolver r = (body : TxoBody) × (resolver r ≡ some body)

  without_txo-Held :
      (r : TxoRef) (rs : List TxoRef) (resolver : Resolver)
      → contains_ref r rs ≡ false
      → All (Held resolver) rs
      → All (Held (without_txo r resolver)) rs
  unfolding contains_ref without_txo
  without_txo-Held r [] resolver h k = tt
  without_txo-Held r (q ∷ rs) resolver h ((body, held), ks) =
      let other : same_ref r q ≡ false = ground (arith, h) in
      ((body, rw other held), without_txo-Held r rs resolver (ground (arith, h)) ks)

  -- The inputs are restored, and the resolver loses them.
  pub restore_runs :
      (input : List TxIn) (resolver : Resolver) (db : txos.Contents)
      → All (Held resolver) (refs input)
      → Distinct (refs input)
      → (out : Resolver × txos.Contents) × (restore txos txid encode_txout input resolver db
          ≡ done out)
        × ((q : TxoRef) → out.0 q ≡ (if contains_ref q (refs input) then none else resolver q))
        × ((q : TxoRef)
            → read out.1 q ≡ (if contains_ref q (refs input) then resolver q else read db q))
  unfolding restore contains_ref without_txo
  restore_runs [] resolver db held distinct = ((resolver, db), refl, λ q. refl, λ q. refl)
  restore_runs (i ∷ input) resolver db ((body, held), rest) (once, distinct) =
      let r = ref_of i in
      let (out, ran, left, reads) =
        restore_runs input (without_txo r resolver) (txos.stage_upsert db r body)
          (without_txo-Held r (refs input) resolver once rest) distinct in
      (
        out,
        rw (restore, held) ran,
        λ q. elim (Bool-cases (same_ref r q)) [
          | inl same ↦ rw (left q, same) (ground arith)
          | inr other ↦ rw (left q, other) (ground arith)
        ],
        λ q. elim (Bool-cases (same_ref r q)) [
          | inl same ↦
              let there = (same_ref_iff r q).0 same in
              let gone : contains_ref q (refs input) ≡ false =
                subst (λ (x : TxoRef). contains_ref x (refs input) ≡ false) there once in
              let back : resolver q ≡ some body =
                subst (λ (x : TxoRef). resolver x ≡ some body) there held in
              rw (reads q, gone, same, back)
                (txos.get_by_key-stage_upsert db r q body ∙ rw same refl)
          | inr other ↦ rw (reads q, txos.get_by_key-stage_upsert db r q body, other) (ground arith)
        ],
      )
