-- ===== src/Inscriptions/Index/Outputs.antt =====
-- The inscriptions of all outputs together (services/compressor-xdg/src/storage/inscriptions/updater.rs).
use mathlib.Core.List.{Perm, perm_middle}
use mathlib.Core.List.Perm
use maestro_dogecoin_indexer.Prelude.{
  ℕ, zero, suc, ◌+◌, ◌<◌, ◌≡◌, ◌∙◌, ap, refl, true, false, some, List, [], ◌∷◌, ◌++◌, map,
  get_elem?, All, arith, ◌==◌, inl, inr, Bool-cases,
}
use maestro_dogecoin_indexer.Bitcoin.{OutPoint, TxOut}
use maestro_dogecoin_indexer.Storage.{InscriptionId}
use maestro_dogecoin_indexer.Inscriptions.Placement.{SatPoint}
use maestro_dogecoin_indexer.Inscriptions.Moves.{
  same_outpoint, in_output, output_inscriptions, not_contained,
}

abbrev pub at_outpoint : ℕ → ℕ → OutPoint
at_outpoint txid vout = record { txid = txid; vout = vout }

abbrev pub offset_id : ℕ × InscriptionId → InscriptionId
offset_id x = x.1

abbrev pub outgoing_id : SatPoint × InscriptionId → InscriptionId
outgoing_id x = x.1

-- The inscriptions of all outputs, without their offsets.
unfoldable pub ids_in : List (List (ℕ × InscriptionId)) → List InscriptionId
ids_in [] = []
ids_in (inscriptions ∷ outputs) = map offset_id inscriptions ++ ids_in outputs

other_outpoint :
    (txid v w : ℕ) (p : OutPoint)
    → p ≡ at_outpoint txid w
    → (v == w) ≡ false
    → same_outpoint (at_outpoint txid v) p ≡ false
other_outpoint txid v w p e ne = ground arith

-- An inscription that goes to no output of this transaction.
abbrev pub Foreign : ℕ → SatPoint × InscriptionId → Type 0
Foreign txid x = (x.0.outpoint.txid == txid) ≡ false

in_output-Foreign :
    (txid v : ℕ) (own others : List (SatPoint × InscriptionId))
    → All (Foreign txid) others
    → in_output txid v (own ++ others) ≡ in_output txid v own
unfolding in_output
in_output-Foreign txid v [] [] h = refl
in_output-Foreign txid v [] ((satpoint, id) ∷ others) (f, h) =
    let away : same_outpoint (at_outpoint txid v) satpoint.outpoint ≡ false = ground (arith, f) in
    rw (in_output, away) (in_output-Foreign txid v [] others h)
in_output-Foreign txid v ((satpoint, id) ∷ own) others h =
    let rest = in_output-Foreign txid v own others h in
    elim (Bool-cases (same_outpoint (at_outpoint txid v) satpoint.outpoint)) [
      | inl here ↦
          rw (in_output, here)
            (ap (λ (l : List (ℕ × InscriptionId)). (satpoint.offset, id) ∷ l) rest)
      | inr away ↦ rw (in_output, away) rest
    ]

not_contained-others :
    (txid : ℕ) (others : List (SatPoint × InscriptionId))
    → All (Foreign txid) others
    → not_contained txid others ≡ others
unfolding not_contained
not_contained-others txid [] h = refl
not_contained-others txid ((satpoint, id) ∷ others) (f, h) =
    rw (not_contained, f)
      (ap (λ (l : List (SatPoint × InscriptionId)). (satpoint, id) ∷ l)
        (not_contained-others txid others h))

module _ {Script : Type 0} where
  -- An inscription in front of the outputs from `v` on is in none of them.
  not_in_later :
      (txid v w : ℕ) (outputs : List (TxOut Script)) (satpoint : SatPoint) (id : InscriptionId)
      (outgoing : List (SatPoint × InscriptionId))
      → satpoint.outpoint ≡ at_outpoint txid w
      → w < v
      → output_inscriptions txid v outputs ((satpoint, id) ∷ outgoing)
        ≡ output_inscriptions txid v outputs outgoing
  unfolding output_inscriptions in_output
  not_in_later txid v w [] satpoint id outgoing e lt = refl
  not_in_later txid v w (o ∷ outputs) satpoint id outgoing e lt =
      rw (other_outpoint txid v w satpoint.outpoint e (ground arith)) (
        ap (λ (l : List (List (ℕ × InscriptionId))). in_output txid v outgoing ∷ l)
          (not_in_later txid (v + 1) w outputs satpoint id outgoing e (omega arith)))

  in_one :
      (txid v i : ℕ) (outputs : List (TxOut Script)) (output : TxOut Script) (satpoint : SatPoint)
      (id : InscriptionId) (outgoing : List (SatPoint × InscriptionId))
      → get_elem? outputs i ≡ some output
      → satpoint.outpoint ≡ at_outpoint txid (v + i)
      → Perm
          (ids_in (output_inscriptions txid v outputs ((satpoint, id) ∷ outgoing)))
          (id ∷ ids_in (output_inscriptions txid v outputs outgoing))
  unfolding output_inscriptions in_output ids_in
  in_one txid v i [] output satpoint id outgoing found e = absurd (cc found)
  in_one txid v zero (o ∷ outputs) output satpoint id outgoing found e =
      let at : satpoint.outpoint ≡ at_outpoint txid v = e ∙ ap (at_outpoint txid) (omega arith) in
      let here : same_outpoint (at_outpoint txid v) satpoint.outpoint ≡ true = ground arith in
      rw (here, not_in_later txid (v + 1) v outputs satpoint id outgoing at (omega arith))
        (Perm.refl _)
  in_one txid v (suc i) (o ∷ outputs) output satpoint id outgoing found e =
      let at : satpoint.outpoint ≡ at_outpoint txid (v + 1 + i) =
        e ∙ ap (at_outpoint txid) (omega arith) in
      let rest = in_one txid (v + 1) i outputs output satpoint id outgoing found at in
      rw (other_outpoint txid v (v + suc i) satpoint.outpoint e (ground arith))
        (Perm.trans (Perm.append_left _ rest) (perm_middle _ _))

  no_outgoing :
      (txid v : ℕ) (outputs : List (TxOut Script))
      → ids_in (output_inscriptions txid v outputs []) ≡ []
  unfolding output_inscriptions in_output ids_in
  no_outgoing txid v [] = refl
  no_outgoing txid v (o ∷ outputs) = no_outgoing txid (v + 1) outputs

  -- An outgoing inscription stands in an output of the transaction.
  abbrev pub InOutputs : ℕ → List (TxOut Script) → SatPoint × InscriptionId → Type 0
  InOutputs txid outputs x =
      (i : ℕ) × (o : TxOut Script) × (get_elem? outputs i ≡ some o)
      × (x.0.outpoint ≡ at_outpoint txid (0 + i))

  pub output_inscriptions-perm :
      (txid : ℕ) (outputs : List (TxOut Script)) (outgoing : List (SatPoint × InscriptionId))
      → All (InOutputs txid outputs) outgoing
      → Perm (ids_in (output_inscriptions txid 0 outputs outgoing)) (map outgoing_id outgoing)
  output_inscriptions-perm txid outputs [] h = rw (no_outgoing txid 0 outputs) (Perm.refl _)
  output_inscriptions-perm txid outputs ((satpoint, id) ∷ outgoing) ((i, o, found, e), h) =
      Perm.trans (in_one txid 0 i outputs o satpoint id outgoing found e)
        (Perm.cons id (output_inscriptions-perm txid outputs outgoing h))

  pub output_inscriptions-Foreign :
      (txid v : ℕ) (outputs : List (TxOut Script)) (own others : List (SatPoint × InscriptionId))
      → All (Foreign txid) others
      → output_inscriptions txid v outputs (own ++ others) ≡ output_inscriptions txid v outputs own
  unfolding output_inscriptions
  output_inscriptions-Foreign txid v [] own others h = refl
  output_inscriptions-Foreign txid v (o ∷ outputs) own others h =
      rw (in_output-Foreign txid v own others h) (
        ap (λ (l : List (List (ℕ × InscriptionId))). in_output txid v own ∷ l)
          (output_inscriptions-Foreign txid (v + 1) outputs own others h))

  -- What is in no output of the transaction is what goes elsewhere.
  pub not_contained-Foreign :
      (txid : ℕ) (outputs : List (TxOut Script)) (own others : List (SatPoint × InscriptionId))
      → All (InOutputs txid outputs) own
      → All (Foreign txid) others
      → not_contained txid (own ++ others) ≡ others
  unfolding not_contained
  not_contained-Foreign txid outputs [] others inside h = not_contained-others txid others h
  not_contained-Foreign txid outputs ((satpoint, id) ∷ own) others ((i, o, found, e), inside) h =
      let here : (satpoint.outpoint.txid == txid) ≡ true = ground (arith, e) in
      rw (not_contained, here) (not_contained-Foreign txid outputs own others inside h)
