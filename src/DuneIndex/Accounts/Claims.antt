-- ===== src/DuneIndex/Accounts/Claims.antt =====
-- A dune that no edict claims is not among the mints.
use maestro_dogecoin_indexer.Prelude.{
  ℕ, ◌+◌, ◌≡◌, ◌∙◌, ap, refl, false, Option, none, some, List, [], ◌∷◌, arith, ◌==◌, leb, All,
  Bool-cases, inl, inr,
}
use maestro_dogecoin_indexer.Prelude.Maps.{insert}
use maestro_dogecoin_indexer.DuneIndex.Tables.{Tables, Db}
use maestro_dogecoin_indexer.DuneIndex.Mint.{
  claim_amount, grant, record_success, mint_claims, insert_sorted, sort, dedup_after, dedup,
}
use maestro_dogecoin_indexer.DuneIndex.Amounts.{sum_of, sum_of-insert}

abbrev pub Absent : ℕ → List ℕ → Type 0
Absent id = All (λ x. (x == id) ≡ false)

insert_sorted-Absent :
    (id x : ℕ) (xs : List ℕ) → (x == id) ≡ false → Absent id xs → Absent id (insert_sorted x xs)
unfolding insert_sorted
insert_sorted-Absent id x [] h hs = (h, tt)
insert_sorted-Absent id x (y ∷ ys) h (k, ks) = elim (Bool-cases (leb x y)) [
  | inl first ↦ rw first (h, (k, ks))
  | inr later ↦ rw later (k, insert_sorted-Absent id x ys h ks)
]

sort-Absent : (id : ℕ) (xs : List ℕ) → Absent id xs → Absent id (sort xs)
unfolding sort
sort-Absent id [] h = tt
sort-Absent id (x ∷ xs) (h, hs) = insert_sorted-Absent id x (sort xs) h (sort-Absent id xs hs)

dedup_after-Absent : (id last : ℕ) (xs : List ℕ) → Absent id xs → Absent id (dedup_after last xs)
unfolding dedup_after
dedup_after-Absent id last [] h = tt
dedup_after-Absent id last (x ∷ xs) (h, hs) = elim (Bool-cases (x == last)) [
  | inl same ↦ rw same (dedup_after-Absent id x xs hs)
  | inr other ↦ rw other (h, dedup_after-Absent id x xs hs)
]

dedup-Absent : (id : ℕ) (xs : List ℕ) → Absent id xs → Absent id (dedup xs)
unfolding dedup
dedup-Absent id [] h = tt
dedup-Absent id (x ∷ xs) (h, hs) = (h, dedup_after-Absent id x xs hs)

-- Sorting and removing duplicates brings in no claim.
pub claims-Absent : (id : ℕ) (xs : List ℕ) → Absent id xs → Absent id (dedup (sort xs))
claims-Absent id xs h = dedup-Absent id (sort xs) (sort-Absent id xs h)

sum_of-insert_ne :
    (id k v : ℕ) (m : List (ℕ × ℕ)) → (k == id) ≡ false → sum_of id (insert k v m) ≡ sum_of id m
sum_of-insert_ne id k v m ne = ground (arith, sum_of-insert id k v m)

sum_of-grant :
    (id c : ℕ) (amount : Option ℕ) (m : List (ℕ × ℕ))
    → (c == id) ≡ false
    → sum_of id (grant amount c m) ≡ sum_of id m
unfolding grant
sum_of-grant id c none m ne = refl
sum_of-grant id c (some x) m ne = sum_of-insert_ne id c x m ne

record_success_first :
    (amount : Option ℕ) (idx : ℕ) (r : List (ℕ × ℕ) × List ℕ)
    → (record_success amount idx r).0 ≡ r.0
unfolding record_success
record_success_first none idx r = refl
record_success_first (some x) idx r = refl

module _ (tables : Tables) (db : Db tables) (height : ℕ) where
  pub mint_claims_first :
      (idx c : ℕ) (claims : List ℕ) (m : List (ℕ × ℕ))
      → (mint_claims tables db height idx (c ∷ claims) m).0
        ≡ (mint_claims tables db height
            (idx + 1)
            claims
            (grant (claim_amount tables db height c) c m)).0
  unfolding mint_claims
  mint_claims_first idx c claims m = record_success_first (claim_amount tables db height c) idx _

  pub mint_claims-Absent :
      (id idx : ℕ) (claims : List ℕ) (m : List (ℕ × ℕ))
      → Absent id claims
      → sum_of id (mint_claims tables db height idx claims m).0 ≡ sum_of id m
  mint_claims-Absent id idx [] m h = unfold mint_claims in refl
  mint_claims-Absent id idx (c ∷ claims) m (h, hs) =
      let amount = claim_amount tables db height c in
      ap (sum_of id) (mint_claims_first idx c claims m)
      ∙ mint_claims-Absent id (idx + 1) claims (grant amount c m) hs
      ∙ sum_of-grant id c amount m h
