-- ===== src/DuneIndex/Accounts/Whole.antt =====
-- The accounts of `index_runes` for a dune that the transaction neither mints nor etches.
use maestro_dogecoin_indexer.Prelude.{
  ℕ, ◌+◌, ◌≤◌, ◌≡◌, ◌∙◌, ap, sym, refl, Bool, false, Option, none, some, List, [], arith, ◌==◌,
  if◌then◌else◌, bind-some, if-some, length, length-replicate, Option-cases, inl, inr,
}
use mathlib.Core.Path.{subst}
use maestro_dogecoin_indexer.Prelude.Words.{u128_max}
use maestro_dogecoin_indexer.Bitcoin.{BitcoinCrate, Transaction}
use maestro_dogecoin_indexer.Dunes.Id.{to_u128}
use maestro_dogecoin_indexer.Dunes.Dunestone.{Dunestone, from_transaction}
use maestro_dogecoin_indexer.DuneIndex.Tables.{Tables, Db}
use maestro_dogecoin_indexer.DuneIndex.Mint.{claims_of}
use maestro_dogecoin_indexer.DuneIndex.Etch.{Network}
use maestro_dogecoin_indexer.DuneIndex.Edicts.{Issuance, Allocating}
use maestro_dogecoin_indexer.DuneIndex.Settle.{settle}
use maestro_dogecoin_indexer.DuneIndex.Settle.Sums.{settle_sum}
use maestro_dogecoin_indexer.DuneIndex.Amounts.{sum_of, sum_outputs}
use maestro_dogecoin_indexer.DuneIndex.Holdings.{granted, pending, total, issued_amount}
use maestro_dogecoin_indexer.DuneIndex.Accounts.Claims.{Absent}
use maestro_dogecoin_indexer.DuneIndex.Accounts.{
  Accounted, Own, sum_outputs-replicate, issuance_amount, run_etching_issuance,
  run_edicts-Accounted,
}
use maestro_dogecoin_indexer.DuneIndex.{
  IndexRunesResult, op_returns, run_etching, run_edicts, enter_issuance, run_dunestone, start,
  index_dunestone,
}

-- The state that the inputs give, with an issuance of another dune.
start-Accounted :
    (id n : ℕ) (m : List (ℕ × ℕ)) (i : Option Issuance)
    → issued_amount id i ≡ 0
    → Accounted id n m (record (start n m) { issuance = i })
unfolding total pending granted sum_of
start-Accounted id n m i other = record {
  same_length = length-replicate n [];
  balanced = omega (arith, other, sum_outputs-replicate id n);
  nothing_granted = omega (arith, other);
}

-- A value that two answers share.
first_some {ℓ κ} : {A : Type ℓ} {B : Type κ} (f : A → B) {a b : A} → some a ≡ some b → f a ≡ f b
first_some f {a} {b} e = ap (λ (o : Option _). elim o [ none ↦ f a | some x ↦ f x ]) e

module _ (tables : Tables) (outputs : List Bool) (halving : ℕ) (network : Network)
    (tx_index height : ℕ) (id : ℕ)
    (other : (to_u128 (record { height = height; index = tx_index }) == id) ≡ false)
    (m : List (ℕ × ℕ)) (fits : sum_of id m ≤ u128_max) where
  run_dunestone-Accounted :
      (dunestone : Dunestone) (db : Db tables) (ran : Allocating × Option ℕ × List ℕ × Db tables)
      → Absent id (claims_of dunestone.edicts)
      → run_dunestone tables outputs halving network tx_index height dunestone
          (start (length outputs) m)
          db
        ≡ some ran
      → Accounted id (length outputs) m ran.0
  unfolding run_dunestone
  run_dunestone-Accounted dunestone db ran absent h =
      let (etch, e, rest) =
        bind-some (run_etching tables halving network tx_index height dunestone db) _ h in
      let s₁ : Allocating = record (start (length outputs) m) { issuance = etch.1 } in
      let own = run_etching_issuance tables halving network tx_index height dunestone db etch e in
      let a₁ : Accounted id (length outputs) m s₁ =
        start-Accounted id (length outputs) m etch.1
          (issuance_amount id height tx_index etch.1 (unfold Own in own) other) in
      let cenotaph_block : Option (Allocating × List ℕ × Db tables) = some (s₁, [], etch.2) in
      let edicts_block = run_edicts tables outputs height dunestone s₁ etch.2 in
      let (block, e₂, rest₂) =
        bind-some (if dunestone.cenotaph then cenotaph_block else edicts_block) _ rest in
      let (db₃, e₃, last) =
        bind-some (enter_issuance tables dunestone etch.1 etch.0 height block.2) _ rest₂ in
      let keeps : Accounted id (length outputs) m block.0 =
        elim (if-some dunestone.cenotaph cenotaph_block edicts_block e₂) [
          | inl (c, burns) ↦
              subst (Accounted id (length outputs) m)
                (first_some (λ (b : Allocating × List ℕ × Db tables). b.0) burns) a₁
          | inr (c, runs) ↦
              run_edicts-Accounted tables outputs height id dunestone s₁ etch.2 m block runs absent
                fits refl a₁
        ] in
      subst (Accounted id (length outputs) m)
        (first_some (λ (r : Allocating × Option ℕ × List ℕ × Db tables). r.0) last) keeps

-- What settling gives, from a state that keeps the accounts.
settle_accounts :
    (outputs : List Bool) (cenotaph : Bool) (pointer : Option ℕ) (id : ℕ) (m : List (ℕ × ℕ))
    (s : Allocating)
    → Accounted id (length outputs) m s
    → sum_of id m ≤ u128_max
    → sum_outputs id (settle outputs cenotaph pointer s.unallocated s.allocated).0
        + sum_of id (settle outputs cenotaph pointer s.unallocated s.allocated).1
      ≡ sum_of id m
unfolding total pending
settle_accounts outputs cenotaph pointer id m s a fits = omega (
  arith,
  settle_sum outputs cenotaph pointer s.unallocated s.allocated id a.same_length
      (omega (arith, a.balanced, a.nothing_granted)),
  a.balanced,
  a.nothing_granted,
)

module _ (crate : BitcoinCrate) (tables : Tables) where
  open crate use {Script}

  -- Take a dune that no edict of the transaction's dunestone claims and that is not the one that this
  -- transaction could etch, and let the inputs hold an amount of it that fits a u128. If the updater
  -- does not panic, its outputs and what it burns hold exactly that amount, whether there is a
  -- dunestone or none, and whether it is a cenotaph or not.
  pub index_dunestone-conserves :
      (halving : ℕ) (network : Network) (tx_index : ℕ) (tx : Transaction Script) (height : ℕ)
      (m : List (ℕ × ℕ)) (db : Db tables) (id : ℕ)
      (result : IndexRunesResult × List (ℕ × ℕ) × Db tables)
      → index_dunestone crate tables halving network tx_index tx height m db ≡ some result
      → ((d : Dunestone) → from_transaction crate tx ≡ some d → Absent id (claims_of d.edicts))
      → (to_u128 (record { height = height; index = tx_index }) == id) ≡ false
      → sum_of id m ≤ u128_max
      → sum_outputs id result.0.output_dunes + sum_of id result.1 ≡ sum_of id m
  unfolding index_dunestone
  index_dunestone-conserves halving network tx_index tx height m db id result h absent other fits =
      let outputs = op_returns crate tx in
      let s = start (length outputs) m in
      let balance = λ (r : IndexRunesResult × List (ℕ × ℕ) × Db tables).
        sum_outputs id r.0.output_dunes + sum_of id r.1 in
      elim (Option-cases (from_transaction crate tx)) [
        | inl nothing ↦
            sym (first_some balance (rw (nothing, index_dunestone) at h))
            ∙ settle_accounts outputs false none id m s
                (start-Accounted id (length outputs) m none refl) fits
        | inr (d, present) ↦
            let (ran, e, last) =
              bind-some (run_dunestone tables outputs halving network tx_index height d s db) _
                (rw (present, index_dunestone) at h) in
            sym (first_some balance last)
            ∙ settle_accounts outputs d.cenotaph d.pointer id m ran.0
                (run_dunestone-Accounted tables outputs halving network tx_index height id other m
                  fits d db ran (absent d present) e)
                fits
      ]
