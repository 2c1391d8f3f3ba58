-- ===== src/Dunes/Dunestone/Edicts.antt =====
-- The edicts of a deciphered dunestone.
use maestro_dogecoin_indexer.Prelude.{
  ℕ, ◌≤◌, ◌<◌, ◌≡◌, Option, some, List, [], ◌∷◌, arith, ltb, ◌==◌, All, unwrap_or, Option-cases,
  inl, inr, refl, Bool-cases, ◌⊎◌,
}
use maestro_dogecoin_indexer.Prelude.{All-append}
use maestro_dogecoin_indexer.Prelude.Words.{saturating_add}
use maestro_dogecoin_indexer.Dunes.Id.{DuneId, from_u128}
use maestro_dogecoin_indexer.Dunes.Dunestone.Fields.{Edict, edict_from_integers}
use maestro_dogecoin_indexer.Dunes.Dunestone.Message.{
  body_edicts, or_insert, message_loop, from_integers,
}
use maestro_dogecoin_indexer.Dunes.Dunestone.{add_premine, decipher_message}

-- An edict that stands in a message: its output is at most the number of outputs, its id unpacks, and
-- block 0 has the index 0 only.
pub record IsEdict (outputs : ℕ) (e : Edict) : Type 0 where
  pub in_range : e.output ≤ outputs
  pub unpacks : (id : DuneId) × (from_u128 e.id ≡ some id) × (id.height ≡ 0 → id.index ≡ 0)

edict_from_integers-IsEdict :
    (outputs id amount output : ℕ) (e : Edict)
    → edict_from_integers outputs id amount output ≡ some e
    → IsEdict outputs e
unfolding edict_from_integers
edict_from_integers-IsEdict outputs id amount output e h = elim (Option-cases (from_u128 id)) [
  | inl bad ↦ absurd (cc (rw bad at h))
  | inr (dune_id, good) ↦ record {
    in_range = ground arith;
    unpacks = (dune_id, ground arith, λ z. ground arith);
  }
]

body_edicts-IsEdict :
    (outputs id : ℕ) (payload : List ℕ) → All (IsEdict outputs) (body_edicts outputs id payload).0
unfolding body_edicts
body_edicts-IsEdict outputs id (delta ∷ amount ∷ output ∷ rest) =
    let id' = saturating_add id delta in
    let later = body_edicts-IsEdict outputs id' rest in
    elim (Option-cases (edict_from_integers outputs id' amount output)) [
      | inl bad ↦ rw bad later
      | inr (e, good) ↦
          rw good (edict_from_integers-IsEdict outputs id' amount output e good, later)
    ]
body_edicts-IsEdict outputs id _ = tt

message_loop-IsEdict :
    (outputs : ℕ) (payload : List ℕ) (fields : List (ℕ × ℕ))
    → All (IsEdict outputs) (message_loop outputs payload fields).edicts
unfolding message_loop
message_loop-IsEdict outputs (tag ∷ value ∷ rest) fields = elim (Bool-cases (tag == 0)) [
  | inl body ↦ rw body (body_edicts-IsEdict outputs 0 (value ∷ rest))
  | inr other ↦ rw other (message_loop-IsEdict outputs rest (or_insert tag value fields))
]
message_loop-IsEdict outputs _ fields = tt

-- The edict that `decipher` itself adds for a premine.
pub record IsPremine (e : Edict) : Type 0 where
  pub of_etching : e.id ≡ 0
  pub to_first : e.output ≡ 1
  pub positive : 0 < e.amount

All-weaken {ℓ κ μ} :
    {A : Type ℓ} (P : A → Type κ) (Q : A → Type μ) (xs : List A)
    → All P xs
    → All (λ x. P x ⊎ Q x) xs
All-weaken P Q [] h = tt
All-weaken P Q (x ∷ xs) (h, hs) = (inl h, All-weaken P Q xs hs)

add_premine-IsEdict :
    (outputs : ℕ) (premine : Option ℕ) (edicts : List Edict)
    → All (IsEdict outputs) edicts
    → All (λ e. IsEdict outputs e ⊎ IsPremine e) (add_premine premine edicts)
unfolding add_premine
add_premine-IsEdict outputs premine edicts h = elim (Bool-cases (ltb 0 (unwrap_or premine 0))) [
  | inl some_premine ↦ rw some_premine (
      All-append _ edicts _ (All-weaken _ _ edicts h)
        (inr (record { of_etching = refl; to_first = refl; positive = ground arith }), tt))
  | inr no_premine ↦ rw no_premine (All-weaken _ _ edicts h)
]

-- Every edict of a deciphered payload has an output number within the transaction's outputs or just
-- behind them and an id that unpacks, whose index is 0 in block 0; or it is the premine's own edict,
-- which sends a positive amount of the etched dune to output 1.
pub decipher_message-edicts :
    (outputs : ℕ) (payload : List ℕ)
    → All
        (λ e. IsEdict outputs e ⊎ IsPremine e)
        (decipher_message (from_integers outputs payload)).edicts
unfolding decipher_message from_integers
decipher_message-edicts outputs payload =
    add_premine-IsEdict outputs _ _ (message_loop-IsEdict outputs payload [])
