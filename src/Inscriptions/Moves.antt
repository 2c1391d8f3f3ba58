-- ===== src/Inscriptions/Moves.antt =====
-- What `index_inscriptions` (services/compressor-xdg/src/storage/inscriptions/updater.rs) does with the floating
-- inscriptions: new locations, the counters, and those that are left.
use maestro_dogecoin_indexer.Prelude.{
  ℕ, ◌+◌, Bool, ◌&&◌, Option, none, some, List, [], ◌∷◌, ◌++◌, ◌==◌, if◌then◌else◌,
}
use maestro_dogecoin_indexer.Prelude.Words.{add64, sub64}
use maestro_dogecoin_indexer.Bitcoin.{OutPoint, TxOut}
use maestro_dogecoin_indexer.Storage.{InscriptionId}
use maestro_dogecoin_indexer.Drc20.Ledger.{UsedTransfer}
use maestro_dogecoin_indexer.Inscriptions.Placement.{SatPoint, Origin, new, old, Flotsam}
use maestro_dogecoin_indexer.Inscriptions.Updater.{Counters, UnusedTransfer, lookup_inscription}

-- The counters after one inscription found its place.
unfoldable pub count_origin : Origin → Counters → Counters
count_origin (old _) counters = counters
count_origin (new _) counters = record counters {
  blessed_count = add64 counters.blessed_count 1;
  next_sequence_num = add64 counters.next_sequence_num 1;
}

-- `update_inscription_location` for each new location
unfoldable pub update_locations :
    List (SatPoint × Flotsam) → Counters → Counters × List (SatPoint × InscriptionId)
unfolding count_origin
update_locations [] counters = (counters, [])
update_locations ((satpoint, f) ∷ locations) counters =
    let rest = update_locations locations (count_origin f.origin counters) in
    (rest.0, (satpoint, f.inscription_id) ∷ rest.1)

-- What the inscriptions that no output of a coinbase takes are moved to: the null outpoint.
unfoldable pub lose : OutPoint → ℕ → ℕ → List Flotsam → List (SatPoint × Flotsam)
lose null lost_sats output_value [] = []
lose null lost_sats output_value (f ∷ flotsam) =
    (record { outpoint = null; offset = sub64 (add64 lost_sats f.offset) output_value }, f)
    ∷ lose null lost_sats output_value flotsam

-- Those that no output of another transaction takes go into its fee, behind the reward so far.
unfoldable pub pass_to_coinbase : ℕ → ℕ → List Flotsam → List Flotsam
pass_to_coinbase reward output_value [] = []
pass_to_coinbase reward output_value (f ∷ flotsam) =
    record f { offset = sub64 (add64 reward f.offset) output_value }
    ∷ pass_to_coinbase reward output_value flotsam

-- An unused transfer that went into the fee is given back to its sender.
unfoldable pub returned_transfers :
    List (InscriptionId × UnusedTransfer) → List Flotsam → List UsedTransfer
unfolding lookup_inscription
returned_transfers unused [] = []
returned_transfers unused (f ∷ flotsam) =
    let rest = returned_transfers unused flotsam in
    elim (lookup_inscription f.inscription_id unused) [
      | none ↦ rest
      | some t ↦
          record {
            inscription = f.inscription_id;
            tick = t.tick;
            amt = t.amt;
            original_outpoint = t.old_satpoint.outpoint;
            receiver = t.sender;
          }
          ∷ rest
    ]

abbrev pub same_outpoint : OutPoint → OutPoint → Bool
same_outpoint a b = (a.txid == b.txid) && (a.vout == b.vout)

module _ {Script : Type 0} (script_hash : Script → ℕ) where
  -- `outpoint_to_script`, from output number `vout` on
  unfoldable pub script_at : ℕ → ℕ → List (TxOut Script) → OutPoint → Option ℕ
  script_at txid vout [] outpoint = none
  script_at txid vout (o ∷ outputs) outpoint =
      let rest = script_at txid (vout + 1) outputs outpoint in
      if same_outpoint (record { txid = txid; vout = vout }) outpoint
      then some (script_hash o.script_pubkey)
      else rest

-- `inscription_id_to_script`: a later location of the same inscription takes over where it has a script.
unfoldable pub receiver_of :
    (OutPoint → Option ℕ) → List (SatPoint × InscriptionId) → List (InscriptionId × ℕ)
receiver_of scripts [] = []
receiver_of scripts ((satpoint, id) ∷ outgoing) =
    let rest = receiver_of scripts outgoing in
    elim (scripts satpoint.outpoint) [ none ↦ rest | some script ↦ rest ++ (id, script) ∷ [] ]

-- The unused transfers among the outgoing inscriptions; `none` is the panic of an output with no script.
unfoldable pub moved_transfers :
    (OutPoint → Bool)
    → (OutPoint → Option ℕ)
    → List (InscriptionId × UnusedTransfer)
    → List (SatPoint × InscriptionId)
    → Option (List UsedTransfer)
unfolding lookup_inscription
moved_transfers is_null scripts unused [] = some []
moved_transfers is_null scripts unused ((satpoint, id) ∷ outgoing) =
    let rest = moved_transfers is_null scripts unused outgoing in
    elim (lookup_inscription id unused) [
      | none ↦ rest
      | some t ↦
          let receiver : Option ℕ =
            if is_null satpoint.outpoint then some t.sender else scripts satpoint.outpoint in
          elim receiver [
            | none ↦ none
            | some r ↦ (elim rest [
              | none ↦ none
              | some used ↦ some (
                  record {
                    inscription = id;
                    tick = t.tick;
                    amt = t.amt;
                    original_outpoint = t.old_satpoint.outpoint;
                    receiver = r;
                  }
                  ∷ used)
            ])
          ]
    ]

-- `output_inscriptions`, and the outgoing inscriptions in no output of the transaction.
unfoldable pub in_output : ℕ → ℕ → List (SatPoint × InscriptionId) → List (ℕ × InscriptionId)
in_output txid vout [] = []
in_output txid vout ((satpoint, id) ∷ outgoing) =
    let rest = in_output txid vout outgoing in
    if same_outpoint (record { txid = txid; vout = vout }) satpoint.outpoint
    then (satpoint.offset, id) ∷ rest
    else rest

module _ {Script : Type 0} where
  unfoldable pub output_inscriptions :
      ℕ
      → ℕ
      → List (TxOut Script)
      → List (SatPoint × InscriptionId)
      → List (List (ℕ × InscriptionId))
  unfolding in_output
  output_inscriptions txid vout [] outgoing = []
  output_inscriptions txid vout (o ∷ outputs) outgoing =
      in_output txid vout outgoing ∷ output_inscriptions txid (vout + 1) outputs outgoing

unfoldable pub not_contained : ℕ → List (SatPoint × InscriptionId) → List (SatPoint × InscriptionId)
not_contained txid [] = []
not_contained txid ((satpoint, id) ∷ outgoing) =
    let rest = not_contained txid outgoing in
    if satpoint.outpoint.txid == txid then rest else (satpoint, id) ∷ rest
