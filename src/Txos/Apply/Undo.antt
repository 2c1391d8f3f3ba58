-- ===== src/Txos/Apply/Undo.antt =====
-- A rollback of a block restores the table of outputs (services/compressor-xdg/src/storage/mod.rs).
use mathlib.Core.Path.{subst}
use maestro_dogecoin_indexer.Prelude.{
  ℕ, ◌+◌, ◌≡◌, ◌∙◌, ap, sym, refl, true, false, none, some, List, [], ◌∷◌, All, inl, inr,
  Bool-cases, arith, if◌then◌else◌, ◌==◌,
}
use maestro_dogecoin_indexer.Bitcoin.{TxOut, Transaction}
use maestro_dogecoin_indexer.Storage.{Table, TxoRef, TxoBody}
use maestro_dogecoin_indexer.DuneIndex.{Resolver}
use maestro_dogecoin_indexer.Inscriptions.Updater.{done}
use maestro_dogecoin_indexer.Inscriptions.Index.Runs.{bind-done, done_inj}
use maestro_dogecoin_indexer.Txos.Memory.{same_ref, contains_ref, ref_set, refs_of, input_refs}
use maestro_dogecoin_indexer.Txos.Apply.{
  retain_inputs, apply_tx, apply_txs, unproduce, undo_tx, undo_txs,
}
use maestro_dogecoin_indexer.Txos.Apply.Reads.{
  refs, Distinct, made, read, same_ref_iff, contains_ref-All, contains_ref-append, Distinct-append,
  consume_reads, unproduce_reads, produce_other, Held, restore_runs,
}

contains_ref-ref_set :
    (q : TxoRef) (rs : List TxoRef) → contains_ref q rs ≡ true → contains_ref q (ref_set rs) ≡ true
unfolding contains_ref ref_set
contains_ref-ref_set q [] h = h
contains_ref-ref_set q (r ∷ rs) h = elim (Bool-cases (contains_ref r (ref_set rs))) [
  | inl again ↦
      let kept : ref_set (r ∷ rs) ≡ ref_set rs = rw (ref_set, again) refl in
      ap (contains_ref q) kept ∙ elim (Bool-cases (same_ref r q)) [
        | inl same ↦
            subst (λ x. contains_ref x (ref_set rs) ≡ true) ((same_ref_iff r q).0 same) again
        | inr other ↦ contains_ref-ref_set q rs (ground (arith, h))
      ]
  | inr once ↦
      let added : ref_set (r ∷ rs) ≡ (r ∷ ref_set rs) = rw (ref_set, once) refl in
      ap (contains_ref q) added ∙ elim (Bool-cases (same_ref r q)) [
        | inl same ↦ rw (contains_ref, same) refl
        | inr other ↦ rw (contains_ref, other) (contains_ref-ref_set q rs (ground (arith, h)))
      ]
]

module _ (txos : Table TxoRef TxoBody same_ref) {Script : Type 0} (txid : Transaction Script → ℕ)
    (encode_txout : TxOut Script → List ℕ) where
  -- The outputs of the transaction are not in the table yet.
  abbrev pub Fresh : txos.Contents → Transaction Script → Type 0
  Fresh db tx = All (λ (r : TxoRef). txos.get_by_key db r ≡ none) (made (txid tx) 0 tx.output)

  -- Its inputs are in the table, as the resolver has them.
  abbrev pub Resolved : Resolver → txos.Contents → Transaction Script → Type 0
  Resolved resolver db tx =
      All
        (λ (r : TxoRef).
          (body : TxoBody) × (resolver r ≡ some body) × (txos.get_by_key db r ≡ some body))
        (refs tx.input)

  -- Each transaction creates new outputs and spends what is in the table then.
  abbrev pub Spendable : Resolver → txos.Contents → List (Transaction Script) → Type 0
  Spendable resolver db [] = Unit
  Spendable resolver db (tx ∷ txs) =
      Fresh db tx
      × Resolved resolver db tx
      × ((db' : txos.Contents)
          → apply_tx txos txid encode_txout tx resolver db ≡ done db'
          → Spendable resolver db' txs)

  applied_reads :
      (tx : Transaction Script) (resolver : Resolver) (db db' : txos.Contents) (q : TxoRef)
      → apply_tx txos txid encode_txout tx resolver db ≡ done db'
      → contains_ref q (made (txid tx) 0 tx.output) ≡ false
      → read txos txid encode_txout db' q
        ≡ (if contains_ref q (refs tx.input) then none else read txos txid encode_txout db q)
  unfolding apply_tx
  applied_reads tx resolver db db' q e h =
      let (produced, e₁, f₁) = bind-done _ _ e in
      ap (λ d. read txos txid encode_txout d q) (sym (done_inj f₁))
      ∙ consume_reads txos txid encode_txout tx.input produced q
      ∙ rw (produce_other txos txid encode_txout (txid tx) 0 tx.output resolver db produced q e₁ h)
          refl

  Resolved-Held :
      (resolver stored : Resolver) (db : txos.Contents) (rs : List TxoRef)
      → All
          (λ (r : TxoRef).
            (body : TxoBody) × (resolver r ≡ some body) × (txos.get_by_key db r ≡ some body))
          rs
      → ((q : TxoRef) → contains_ref q rs ≡ true → stored q ≡ resolver q)
      → All (Held txos txid encode_txout stored) rs
  unfolding contains_ref
  Resolved-Held resolver stored db [] h agree = tt
  Resolved-Held resolver stored db (r ∷ rs) ((body, held, there), hs) agree = (
    (body, agree r (ground (arith, (same_ref_iff r r).1 refl)) ∙ held),
    Resolved-Held resolver stored db rs hs (λ q e. agree q (ground (arith, e))),
  )

  -- Undoing a transaction behind the coinbase, in any table that answers as it left it.
  undo_tx-apply_tx :
      (idx : ℕ) (tx : Transaction Script) (resolver stored : Resolver)
      (db db' later : txos.Contents)
      → apply_tx txos txid encode_txout tx resolver db ≡ done db'
      → Fresh db tx
      → Resolved resolver db tx
      → Distinct (refs tx.input)
      → ((q : TxoRef) → contains_ref q (refs tx.input) ≡ true → stored q ≡ resolver q)
      → ((q : TxoRef) → txos.get_by_key later q ≡ txos.get_by_key db' q)
      → (out : Resolver × txos.Contents) × (undo_tx txos txid encode_txout (idx + 1) tx stored later
          ≡ done out)
        × ((q : TxoRef) → out.0 q ≡ (if contains_ref q (refs tx.input) then none else stored q))
        × ((q : TxoRef) → txos.get_by_key out.1 q ≡ txos.get_by_key db q)
  unfolding undo_tx
  undo_tx-apply_tx idx tx resolver stored db db' later e fresh resolved distinct agree same =
      let behind : (idx + 1 == 0) ≡ false = ground arith in
      let (out, ran, left, reads) =
        restore_runs txos txid encode_txout tx.input stored later
          (Resolved-Held resolver stored db (refs tx.input) resolved agree) distinct in
      (
        (out.0, unproduce txos txid encode_txout (txid tx) 0 tx.output out.1),
        rw (behind, ran) refl,
        left,
        λ q.
            unproduce_reads txos txid encode_txout (txid tx) 0 tx.output out.1 q
            ∙ elim (Bool-cases (contains_ref q (made (txid tx) 0 tx.output))) [
              | inl own ↦
                  rw own (sym (contains_ref-All (λ r. txos.get_by_key db r ≡ none) q _ own fresh))
              | inr foreign ↦
                  rw (foreign, reads q)
                    (elim (Bool-cases (contains_ref q (refs tx.input))) [
                      | inl spent ↦
                          let (body, held, there) =
                            contains_ref-All
                              (λ r.
                                (body : TxoBody) × (resolver r ≡ some body)
                                × (txos.get_by_key db r ≡ some body))
                              q _ spent resolved in
                          rw (spent, agree q spent, held) (sym there)
                      | inr kept ↦
                          rw kept
                            (same q ∙ applied_reads tx resolver db db' q e foreign ∙ rw kept refl)
                    ])
            ],
      )

  undo_txs-apply_txs :
      (idx : ℕ) (txs : List (Transaction Script)) (resolver stored : Resolver)
      (db db' : txos.Contents)
      → apply_txs txos txid encode_txout txs resolver db ≡ done db'
      → Spendable resolver db txs
      → Distinct (refs_of txs)
      → ((q : TxoRef) → contains_ref q (refs_of txs) ≡ true → stored q ≡ resolver q)
      → (out : Resolver × txos.Contents) × (undo_txs txos txid encode_txout (idx + 1) txs stored db'
          ≡ done out)
        × ((q : TxoRef) → contains_ref q (refs_of txs) ≡ false → out.0 q ≡ stored q)
        × ((q : TxoRef) → txos.get_by_key out.1 q ≡ txos.get_by_key db q)
  unfolding undo_txs apply_txs refs_of
  undo_txs-apply_txs idx [] resolver stored db db' e spendable distinct agree =
      ((stored, db'), refl, λ q h. refl, λ q. ap (λ d. txos.get_by_key d q) (sym (done_inj e)))
  undo_txs-apply_txs idx (tx ∷ txs) resolver stored db db' e (fresh, resolved, next) distinct
        agree =
      let (applied, e₁, f₁) = bind-done _ _ e in
      let (own, others, apart) = Distinct-append (refs tx.input) (refs_of txs) distinct in
      let (later, ran, left, reads) =
        undo_txs-apply_txs (idx + 1) txs resolver stored applied db' f₁ (next applied e₁) others
          (λ q h.
            agree q (ground (arith, h, contains_ref-append q (refs tx.input) (refs_of txs)))) in
      let (out, ran', left', reads') =
        undo_tx-apply_tx idx tx resolver later.0 db applied later.1 e₁ fresh resolved own
          (λ q h.
            left q (apart q h)
            ∙ agree q (ground (arith, h, contains_ref-append q (refs tx.input) (refs_of txs))))
          reads in
      (
        out,
        rw ran ran',
        λ q h.
            let foreign : contains_ref q (refs tx.input) ≡ false =
              ground (arith, h, contains_ref-append q (refs tx.input) (refs_of txs)) in
            left' q
            ∙ rw foreign
                (left q (ground (arith, h, contains_ref-append q (refs tx.input) (refs_of txs)))),
        reads',
      )

  -- Let `apply_block_with_context` insert and delete outputs for a block whose transactions create only outputs that are not in the
  -- table by then, where the inputs of each one behind the coinbase are in the table by then with the bodies of
  -- the resolver, none twice in the block, and those of the coinbase are not in it. If it answers, then the
  -- rollback, with the inputs that are stored for the block, answers too, and leaves a table that answers as
  -- before the block.
  pub undo_txs-apply_block :
      (coinbase : Transaction Script) (txs : List (Transaction Script)) (resolver : Resolver)
      (db db' : txos.Contents)
      → apply_txs txos txid encode_txout (coinbase ∷ txs) resolver db ≡ done db'
      → Fresh db coinbase
      → All (λ (r : TxoRef). txos.get_by_key db r ≡ none) (refs coinbase.input)
      → ((applied : txos.Contents)
          → apply_tx txos txid encode_txout coinbase resolver db ≡ done applied
          → Spendable resolver applied txs)
      → Distinct (refs_of txs)
      → (out : Resolver × txos.Contents) × (undo_txs txos txid encode_txout 0
            (coinbase ∷ txs)
            (retain_inputs (input_refs (coinbase ∷ txs)) resolver)
            db'
          ≡ done out)
        × ((q : TxoRef) → txos.get_by_key out.1 q ≡ txos.get_by_key db q)
  unfolding undo_txs apply_txs undo_tx input_refs retain_inputs
  undo_txs-apply_block coinbase txs resolver db db' e fresh absent next distinct =
      let stored = retain_inputs (input_refs (coinbase ∷ txs)) resolver in
      let (applied, e₁, f₁) = bind-done _ _ e in
      let (later, ran, left, reads) =
        undo_txs-apply_txs 0 txs resolver stored applied db' f₁ (next applied e₁) distinct
          (λ q h. rw (retain_inputs, contains_ref-ref_set q (refs_of txs) h) refl) in
      (
        (later.0, unproduce txos txid encode_txout (txid coinbase) 0 coinbase.output later.1),
        rw ran refl,
        λ q.
            unproduce_reads txos txid encode_txout (txid coinbase) 0 coinbase.output later.1 q
            ∙ elim (Bool-cases (contains_ref q (made (txid coinbase) 0 coinbase.output))) [
              | inl own ↦
                  rw own (sym (contains_ref-All (λ r. txos.get_by_key db r ≡ none) q _ own fresh))
              | inr foreign ↦ rw foreign (
                  reads q
                  ∙ applied_reads coinbase resolver db applied q e₁ foreign
                  ∙ elim (Bool-cases (contains_ref q (refs coinbase.input))) [
                    | inl null ↦
                        rw null (
                          sym (contains_ref-All (λ r. txos.get_by_key db r ≡ none) q _ null absent))
                    | inr other ↦ rw other refl
                  ])
            ],
      )
