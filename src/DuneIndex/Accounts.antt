-- ===== src/DuneIndex/Accounts.antt =====
-- The accounts of a whole transaction: what `index_runes` gives to outputs or burns comes from the inputs.
pub mod Claims
pub mod Whole
pub mod Inputs
use maestro_dogecoin_indexer.Prelude.{
  ℕ, zero, suc, ◌+◌, ◌≤◌, ◌≡◌, ◌∙◌, ap, sym, refl, Bool, true, false, Option, none, some, List, [],
  ◌∷◌, map, arith, ◌==◌, leb, if◌then◌else◌, ◌>>=◌, bind-some, length, length-replicate, replicate,
  unwrap_or, All, Bool-cases, Option-cases, inl, inr, ◌⊎◌,
}
use mathlib.Core.Path.{subst}
use maestro_dogecoin_indexer.Prelude.Words.{u16_max, u128_max}
use maestro_dogecoin_indexer.Bitcoin.{BitcoinCrate, Transaction}
use maestro_dogecoin_indexer.Dunes.Id.{DuneId, to_u128}
use maestro_dogecoin_indexer.Dunes.Dunestone.{Dunestone, from_transaction}
use maestro_dogecoin_indexer.Dunes.Dunestone.Fields.{Edict}
use maestro_dogecoin_indexer.DuneIndex.Tables.{Tables, Db}
use maestro_dogecoin_indexer.DuneIndex.Mint.{mint_claims, count_mints, sort, dedup, claims_of}
use maestro_dogecoin_indexer.DuneIndex.Etch.{Network, etched}
use maestro_dogecoin_indexer.DuneIndex.Edicts.{Issuance, Allocating, apply_edicts}
use maestro_dogecoin_indexer.DuneIndex.Settle.{settle}
use maestro_dogecoin_indexer.DuneIndex.Settle.Sums.{settle_sum}
use maestro_dogecoin_indexer.DuneIndex.Amounts.{sum_of, sum_outputs}
use maestro_dogecoin_indexer.DuneIndex.Holdings.{granted, pending, total, issued_amount}
use maestro_dogecoin_indexer.DuneIndex.Conservation.{apply_edicts-Applies}
use maestro_dogecoin_indexer.DuneIndex.{
  IndexRunesResult, op_returns, issuance_of, open_issuance, run_etching, run_edicts, enter_issuance,
  run_dunestone, start, index_dunestone,
}
use Claims.{Absent, mint_claims-Absent, claims-Absent}

pub sum_outputs-replicate : (id n : ℕ) → sum_outputs id (replicate n []) ≡ 0
unfolding sum_outputs sum_of
sum_outputs-replicate id zero = refl
sum_outputs-replicate id (suc n) = omega (arith, sum_outputs-replicate id n)

-- The state behind the block of a dunestone, for one dune.
pub record Accounted (id : ℕ) (outputs : ℕ) (m : List (ℕ × ℕ)) (s : Allocating) : Type 0 where
  pub same_length : length s.allocated ≡ outputs
  pub balanced : total id s ≡ sum_of id m
  pub nothing_granted : granted id s ≡ 0

pub issuance_amount :
    (id height tx_index : ℕ) (i : Option Issuance)
    → (i ≡ none) ⊎ (i ≡ some (issuance_of height tx_index))
    → (to_u128 (record { height = height; index = tx_index }) == id) ≡ false
    → issued_amount id i ≡ 0
unfolding issuance_of
issuance_amount id height tx_index i h ne = ground arith

open_issuance_own :
    (height tx_index : ℕ) (dune : Option (DuneId × ℕ))
    → ((open_issuance height tx_index dune).1 ≡ none)
      ⊎ ((open_issuance height tx_index dune).1 ≡ some (issuance_of height tx_index))
unfolding open_issuance
open_issuance_own height tx_index none = inl refl
open_issuance_own height tx_index (some (id, name)) = elim (Bool-cases (leb tx_index u16_max)) [
  | inl fits ↦ inr (rw fits)
  | inr wide ↦ inl (rw wide)
]

unfoldable pub Own : ℕ → ℕ → Option Issuance → Type 0
Own height tx_index i = (i ≡ none) ⊎ (i ≡ some (issuance_of height tx_index))

-- Mints of other dunes do not touch the accounts.
Accounted-mints :
    (id outputs : ℕ) (m mintable : List (ℕ × ℕ)) (s : Allocating)
    → s.mintable ≡ []
    → sum_of id mintable ≡ 0
    → Accounted id outputs m s
    → Accounted id outputs m (record s { mintable = mintable })
unfolding total pending granted
Accounted-mints id outputs m mintable s empty none_granted a =
    let zero_before : sum_of id s.mintable ≡ 0 = rw empty (unfold sum_of in refl) in
    record {
      same_length = a.same_length;
      balanced = omega (arith, a.balanced);
      nothing_granted = omega (arith, a.nothing_granted);
    }

-- The loop over the edicts keeps the accounts.
apply_edicts-Accounted :
    (outputs : List Bool) (id : ℕ) (edicts : List Edict) (m : List (ℕ × ℕ)) (s s' : Allocating)
    → sum_of id m ≤ u128_max
    → apply_edicts outputs edicts s ≡ some s'
    → Accounted id (length outputs) m s
    → Accounted id (length outputs) m s'
apply_edicts-Accounted outputs id edicts m s s' fits e a =
    let (s₂, e₂, applies) = apply_edicts-Applies outputs edicts s a.same_length in
    let same : s₂ ≡ s' = cc (e, e₂) in
    let within : total id s ≤ u128_max = rw a.balanced fits in
    subst (Accounted id (length outputs) m) same (record {
      same_length = applies.same_length;
      balanced = applies.conserves id within ∙ a.balanced;
      nothing_granted = omega (arith, applies.grants id within, a.nothing_granted);
    })

module _ (tables : Tables) where
  -- An etching opens an issuance of its own id only.
  pub run_etching_issuance :
      (halving : ℕ) (network : Network) (tx_index height : ℕ) (dunestone : Dunestone)
      (db : Db tables) (etch : Option ℕ × Option Issuance × Db tables)
      → run_etching tables halving network tx_index height dunestone db ≡ some etch
      → Own height tx_index etch.1
  unfolding run_etching Own
  run_etching_issuance halving network tx_index height dunestone db etch h =
      elim (Option-cases dunestone.etching) [
        | inl nothing ↦
            let e : (none, none, db) ≡ etch = cc (rw nothing at h) in
            inl (ap (λ (t : Option ℕ × Option Issuance × Db tables). t.1) (sym e))
        | inr (etching, present) ↦
            let (result, e, f) =
              bind-some (etched tables halving network tx_index height etching db) _
                (rw present at h) in
            let opened = open_issuance height tx_index result.0 in
            let g : (opened.0, opened.1, result.1) ≡ etch = cc f in
            subst (λ (t : Option ℕ × Option Issuance × Db tables). Own height tx_index t.1) g
              (open_issuance_own height tx_index result.0)
      ]

  -- From the state that the inputs give, the block of a dunestone keeps the accounts of a dune that no
  -- edict claims and that is not the one etched here.
  pub run_edicts-Accounted :
      (outputs : List Bool) (height id : ℕ) (dunestone : Dunestone) (s : Allocating)
      (db : Db tables) (m : List (ℕ × ℕ)) (ran : Allocating × List ℕ × Db tables)
      → run_edicts tables outputs height dunestone s db ≡ some ran
      → Absent id (claims_of dunestone.edicts)
      → sum_of id m ≤ u128_max
      → s.mintable ≡ []
      → Accounted id (length outputs) m s
      → Accounted id (length outputs) m ran.0
  unfolding run_edicts
  run_edicts-Accounted outputs height id dunestone s db m ran h absent fits empty a =
      let claims = dedup (sort (claims_of dunestone.edicts)) in
      let mintable = (mint_claims tables db height 0 claims []).0 in
      let s₁ : Allocating = record s { mintable = mintable } in
      let none_granted : sum_of id mintable ≡ 0 =
        mint_claims-Absent tables db height id 0 claims [] (claims-Absent id _ absent)
        ∙ unfold sum_of in refl in
      let a₁ = Accounted-mints id (length outputs) m mintable s empty none_granted a in
      let (s₂, e, rest) = bind-some (apply_edicts outputs dunestone.edicts s₁) _ h in
      let (db', f, last) = bind-some (count_mints tables mintable s₂.mintable db) _ rest in
      let same : s₂ ≡ ran.0 =
        ap (λ (o : Option (Allocating × List ℕ × Db tables)). elim o [ none ↦ s₂ | some r ↦ r.0 ])
          last in
      subst (Accounted id (length outputs) m) same
        (apply_edicts-Accounted outputs id dunestone.edicts m s₁ s₂ fits e a₁)
