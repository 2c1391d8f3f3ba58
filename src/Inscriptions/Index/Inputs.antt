-- ===== src/Inscriptions/Index/Inputs.antt =====
-- The inscriptions on the outputs that a transaction spends, and the one that it reveals, float in it
-- (services/compressor-xdg/src/storage/inscriptions/updater.rs).
use mathlib.Core.Path.{subst}
use maestro_dogecoin_indexer.Prelude.{
  ℕ, ◌≤◌, ◌≡◌, ◌∙◌, ap, sym, refl, Bool, Option, none, some, List, [], ◌∷◌, ◌++◌, map, append-nil,
  append_assoc, inl, inr, Bool-cases, Option-cases, if◌then◌else◌, arith, length, unwrap_or,
}
use maestro_dogecoin_indexer.Bitcoin.{OutPoint, TxIn, Transaction}
use maestro_dogecoin_indexer.Storage.{TxoRef, TxoBody, InscriptionId}
use maestro_dogecoin_indexer.Inscriptions.Parser.{
  ParsedInscription, absent, partial, complete, from_transactions,
}
use maestro_dogecoin_indexer.Inscriptions.Placement.{Flotsam}
use maestro_dogecoin_indexer.Inscriptions.Updater.{
  Codec, Counters, NewInscriptionInfo, PartialTables, PartialDb, Gathered, done, or_panic,
  none_at_start, scripts_of, float_inscriptions, gather_input, gather,
}
use maestro_dogecoin_indexer.Inscriptions.Reveal.{
  Revealed, load_transactions, reveal, by_parsed, inscribe, try_inscribe,
}
use maestro_dogecoin_indexer.Inscriptions.Index.Runs.{bind-done, done_inj}
use maestro_dogecoin_indexer.Inscriptions.Index.Outputs.{offset_id}

abbrev pub id_of : Flotsam → InscriptionId
id_of f = f.inscription_id

abbrev pub new_id : NewInscriptionInfo → InscriptionId
new_id n = n.id

abbrev ids_on : Option TxoBody → List InscriptionId
ids_on none = []
ids_on (some body) = map offset_id body.inscriptions

-- The inscriptions on the spent outputs, from the first input to the last.
unfoldable pub input_ids :
    (OutPoint → Bool) → (TxoRef → Option TxoBody) → List TxIn → List InscriptionId
input_ids is_null resolver [] = []
input_ids is_null resolver (txin ∷ input) =
    let outpoint = txin.previous_output in
    (if is_null outpoint
      then []
      else ids_on (resolver (record { txid = outpoint.txid; vout = outpoint.vout })))
    ++ input_ids is_null resolver input

pub map-id-append : (xs ys : List Flotsam) → map id_of (xs ++ ys) ≡ map id_of xs ++ map id_of ys
map-id-append [] ys = refl
map-id-append (x ∷ xs) ys =
    ap (λ (l : List InscriptionId). x.inscription_id ∷ l) (map-id-append xs ys)

module _ {Script : Type 0} (codec : Codec Script) where
  float_inscriptions_ids :
      (txin : TxIn) (body : TxoBody) (sender : ℕ) (inscriptions : List (ℕ × InscriptionId))
      (g : Gathered)
      → map id_of (float_inscriptions codec txin body sender inscriptions g).floating
        ≡ map id_of g.floating ++ map offset_id inscriptions
  unfolding float_inscriptions
  float_inscriptions_ids txin body sender [] g = sym (append-nil _)
  float_inscriptions_ids txin body sender ((offset, id) ∷ inscriptions) g =
      float_inscriptions_ids txin body sender inscriptions _
      ∙ ap (λ (l : List InscriptionId). l ++ map offset_id inscriptions)
          (map-id-append g.floating _)
      ∙ append_assoc (map id_of g.floating) (id ∷ []) (map offset_id inscriptions)

  module _ (is_null : OutPoint → Bool) (resolver : TxoRef → Option TxoBody) (height : ℕ) where
    gather_ids :
        (input : List TxIn) (g g' : Gathered)
        → gather codec is_null resolver height input g ≡ done g'
        → map id_of g'.floating ≡ map id_of g.floating ++ input_ids is_null resolver input
    unfolding gather gather_input input_ids
    gather_ids [] g g' e =
        ap (λ (x : Gathered). map id_of x.floating) (sym (done_inj e)) ∙ sym (append-nil _)
    gather_ids (txin ∷ input) g g' e =
        let outpoint = txin.previous_output in
        let txo_ref : TxoRef = record { txid = outpoint.txid; vout = outpoint.vout } in
        let ids = input_ids is_null resolver in
        let (next, e₁, f₁) = bind-done (gather_input codec is_null resolver height txin g) _ e in
        elim (Bool-cases (is_null outpoint)) [
          | inl coinbase ↦
              let nothing : ids (txin ∷ input) ≡ ids input = rw (input_ids, coinbase) refl in
              gather_ids input next g' f₁
              ∙ rw nothing (
                  ap (λ (x : Gathered). map id_of x.floating ++ ids input)
                    (sym (done_inj (rw (gather_input, coinbase) at e₁))))
          | inr other ↦ (elim (Option-cases (resolver txo_ref)) [
            | inl missing ↦ absurd (cc (rw (gather_input, other, missing) at e₁))
            | inr (body, found) ↦
                let here : ids (txin ∷ input) ≡ map offset_id body.inscriptions ++ ids input =
                  rw (input_ids, other, found) refl in
                let (txout, e₂, f₂) =
                  bind-done (or_panic (codec.decode_txout body.raw)) _
                    (rw (gather_input, other, found) at e₁) in
                let floats : map id_of next.floating
                    ≡ map id_of g.floating ++ map offset_id body.inscriptions =
                  ap (λ (x : Gathered). map id_of x.floating) (sym (done_inj f₂))
                  ∙ float_inscriptions_ids txin body (codec.script_hash txout.script_pubkey)
                      body.inscriptions g in
                gather_ids input next g' f₁
                ∙ rw (floats, here) (append_assoc (map id_of g.floating) _ (ids input))
          ])
        ]

    pub gathered_ids :
        (input : List TxIn) (g : Gathered)
        → gather codec is_null resolver height input
            (record { floating = []; unused = []; total_input_value = 0 })
          ≡ done g
        → map id_of g.floating ≡ input_ids is_null resolver input
    gathered_ids input g e = gather_ids input _ g e

module _ {Script : Type 0} (codec : Codec Script) (partials : PartialTables) (txid : ℕ)
    (tx : Transaction Script) (counters : Counters) (db : PartialDb partials) where
  -- What floats is what floated before, and the new inscription, if there is one.
  pub record Reveals (floating : List Flotsam) (revealed : Revealed codec partials) : Type 0 where
    pub ids :
        map id_of revealed.floating ≡ map id_of floating ++ map new_id revealed.new_inscriptions
    pub at_most_one : length revealed.new_inscriptions ≤ 1

  by_parsed-Reveals :
      (total : ℕ) (txids : List ℕ) (floating : List Flotsam) (p : ParsedInscription)
      → Reveals floating (by_parsed codec partials txid tx total counters txids db floating p)
  unfolding by_parsed reveal
  by_parsed-Reveals total txids floating absent = record {
    ids = sym (append-nil _);
    at_most_one = omega arith;
  }
  by_parsed-Reveals total txids floating partial = record {
    ids = sym (append-nil _);
    at_most_one = omega arith;
  }
  by_parsed-Reveals total txids floating (complete inscription) = record {
    ids = map-id-append floating _;
    at_most_one = omega arith;
  }

  inscribe-Reveals :
      (total : ℕ) (floating : List Flotsam) (input : List TxIn) (revealed : Revealed codec partials)
      → inscribe codec partials txid tx total counters db floating input ≡ done revealed
      → Reveals floating revealed
  unfolding inscribe
  inscribe-Reveals total floating [] revealed h = absurd (cc h)
  inscribe-Reveals total floating (first ∷ rest) revealed h =
      let txids = unwrap_or (partials.Txids.get_by_key db.txids first.previous_output.txid) [] in
      let (txs, e, f) = bind-done (load_transactions codec partials db tx txids) _ h in
      subst (Reveals floating) (done_inj f)
        (by_parsed-Reveals total txids floating (from_transactions (map (scripts_of codec) txs)))

  pub try_inscribe-Reveals :
      (g : Gathered) (revealed : Revealed codec partials)
      → try_inscribe codec partials txid tx counters db g ≡ done revealed
      → Reveals g.floating revealed
  unfolding try_inscribe
  try_inscribe-Reveals g revealed h = elim (Bool-cases (none_at_start codec g.floating)) [
    | inl free ↦
        inscribe-Reveals g.total_input_value g.floating tx.input revealed
          (rw (free, try_inscribe) at h)
    | inr taken ↦
        subst (Reveals g.floating) (done_inj (rw (taken, try_inscribe) at h))
          (record { ids = sym (append-nil _); at_most_one = omega arith })
  ]
