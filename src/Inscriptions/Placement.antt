-- ===== src/Inscriptions/Placement.antt =====
-- Where `index_inscriptions` (services/compressor-xdg/src/storage/inscriptions/updater.rs) puts the floating inscriptions.
pub mod Located
pub mod Sorted
use maestro_dogecoin_indexer.Prelude.{ℕ, ◌+◌, List, [], ◌∷◌, ◌++◌, leb, if◌then◌else◌}
use maestro_dogecoin_indexer.Prelude.Words.{add64, sub64}
use maestro_dogecoin_indexer.Bitcoin.{OutPoint, TxOut}
use maestro_dogecoin_indexer.Storage.{InscriptionId}

-- `SatPoint` of the ordinals crate
pub record SatPoint : Type 0 where
  pub outpoint : OutPoint
  pub offset : ℕ

-- `Origin`; a new inscription has its fee.
pub data Origin : Type 0 where
  new : ℕ → Origin
  old : SatPoint → Origin

pub record Flotsam : Type 0 where
  pub inscription_id : InscriptionId
  pub offset : ℕ
  pub origin : Origin

-- `sort_by_key` on the offsets, which keeps the order of equal ones.
unfoldable pub insert_flotsam : Flotsam → List Flotsam → List Flotsam
insert_flotsam f [] = f ∷ []
insert_flotsam f (g ∷ flotsam) =
    if leb f.offset g.offset then f ∷ g ∷ flotsam else g ∷ insert_flotsam f flotsam

unfoldable pub sort_by_offset : List Flotsam → List Flotsam
unfolding insert_flotsam
sort_by_offset [] = []
sort_by_offset (f ∷ flotsam) = insert_flotsam f (sort_by_offset flotsam)

abbrev pub satpoint_at : ℕ → ℕ → ℕ → SatPoint
satpoint_at txid vout offset = record {
  outpoint = record { txid = txid; vout = vout };
  offset = offset;
}

-- The loop over the inscriptions that end up in one output, from the value of the outputs before it up to
-- `end`: those that go there, and the rest.
unfoldable pub place_in : ℕ → ℕ → ℕ → ℕ → List Flotsam → List (SatPoint × Flotsam) × List Flotsam
place_in txid vout output_value end [] = ([], [])
place_in txid vout output_value end (f ∷ flotsam) =
    let later = place_in txid vout output_value end flotsam in
    if leb end f.offset
    then ([], f ∷ flotsam)
    else ((satpoint_at txid vout (sub64 f.offset output_value), f) ∷ later.0, later.1)

module _ {Script : Type 0} where
  -- The loop over the outputs from number `vout` on. A transaction has fewer than 2^32 outputs.
  unfoldable pub place_outputs :
      ℕ → ℕ → ℕ → List (TxOut Script) → List Flotsam → List (SatPoint × Flotsam) × List Flotsam
  unfolding place_in
  place_outputs txid vout output_value [] flotsam = ([], flotsam)
  place_outputs txid vout output_value (o ∷ outputs) flotsam =
      let end = add64 output_value o.value in
      let here = place_in txid vout output_value end flotsam in
      let later = place_outputs txid (vout + 1) end outputs here.1 in (here.0 ++ later.0, later.1)

  -- `output_value` behind the loop
  unfoldable pub end_value : ℕ → List (TxOut Script) → ℕ
  end_value output_value [] = output_value
  end_value output_value (o ∷ outputs) = end_value (add64 output_value o.value) outputs
