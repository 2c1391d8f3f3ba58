-- ===== src/Inscriptions/Index.antt =====
-- `index_inscriptions` as a whole (services/compressor-xdg/src/storage/inscriptions/updater.rs).
pub mod Runs
pub mod Outputs
pub mod Inputs
pub mod Conserved
pub mod Numbers
pub mod Undo
mod Examples
use maestro_dogecoin_indexer.Prelude.{
  ℕ, ◌+◌, Bool, true, false, Option, none, some, List, [], ◌∷◌, ◌++◌, if◌then◌else◌,
}
use maestro_dogecoin_indexer.Prelude.Words.{u32_max, add64, sub64}
use maestro_dogecoin_indexer.Bitcoin.{BitcoinCrate, OutPoint, TxIn, Transaction}
use maestro_dogecoin_indexer.Storage.{TxoRef, TxoBody, InscriptionId}
use maestro_dogecoin_indexer.Drc20.Ledger.{
  Brc20Message, Brc20Tables, Brc20Db, UsedTransfer, index_brc20,
}
use maestro_dogecoin_indexer.Inscriptions.Placement.{
  SatPoint, Flotsam, sort_by_offset, place_outputs, end_value,
}
use maestro_dogecoin_indexer.Inscriptions.Updater.{
  Codec, Counters, NewInscriptionInfo, PartialTables, PartialDb, UnusedTransfer, Gathered, Indexing,
  done, panicked, ◌>>=◌, or_panic, lookup_inscription, gather,
}
use maestro_dogecoin_indexer.Inscriptions.Reveal.{Revealed, try_inscribe}
use maestro_dogecoin_indexer.Inscriptions.Moves.{
  update_locations, lose, pass_to_coinbase, returned_transfers, script_at, receiver_of,
  moved_transfers, output_inscriptions, not_contained,
}

-- `OutPoint::null()`
abbrev pub null_outpoint : OutPoint
null_outpoint = record { txid = 0; vout = u32_max }

-- `is_coinbase`, of the first input
unfoldable pub is_coinbase_input : (OutPoint → Bool) → List TxIn → Bool
is_coinbase_input is_null [] = false
is_coinbase_input is_null (first ∷ _) = is_null first.previous_output

-- What the inscriptions moved to, and what is passed on to the coinbase of the block.
pub record Moved : Type 0 where
  pub counters : Counters
  pub outgoing : List (SatPoint × InscriptionId)
  pub returned : List UsedTransfer
  pub reward : ℕ
  pub cb_inscriptions : List Flotsam

-- A coinbase loses what no output takes.
unfoldable pub move_coinbase : Counters → ℕ → ℕ → List (SatPoint × Flotsam) → List Flotsam → Moved
unfolding update_locations lose
move_coinbase counters reward output_value placed left =
    let (counters', outgoing) = update_locations placed counters in
    let (counters'', lost) =
      update_locations (lose null_outpoint counters'.lost_sats output_value left) counters' in
    record {
      counters = record counters'' {
        lost_sats = add64 counters''.lost_sats (sub64 reward output_value);
      };
      outgoing = outgoing ++ lost;
      returned = [];
      reward = reward;
      cb_inscriptions = [];
    }

-- Any other transaction passes it to the coinbase, and gives unused transfers back.
unfoldable pub move_others :
    List (InscriptionId × UnusedTransfer)
    → Counters
    → ℕ
    → List Flotsam
    → ℕ
    → ℕ
    → List (SatPoint × Flotsam)
    → List Flotsam
    → Moved
unfolding update_locations returned_transfers pass_to_coinbase
move_others unused counters reward cb_inscriptions total_input_value output_value placed left =
    let (counters', outgoing) = update_locations placed counters in
    record {
      counters = counters';
      outgoing = outgoing;
      returned = returned_transfers unused left;
      reward = add64 reward (sub64 total_input_value output_value);
      cb_inscriptions = cb_inscriptions ++ pass_to_coinbase reward output_value left;
    }

pub record IndexInscriptionsResult : Type 0 where
  pub output_inscriptions : List (List (ℕ × InscriptionId))
  pub lost_or_unbound_inscriptions : List (SatPoint × InscriptionId)
  pub brc20_resolver : List (InscriptionId × Brc20Message)
  pub new_unused_brc20_transfers : List (InscriptionId × (List ℕ × ℕ))

module _ (crate : BitcoinCrate) (codec : Codec crate.Script) (lowercase_bytes : List ℕ → List ℕ)
    (partials : PartialTables) (tables : Brc20Tables) where
  -- What `index_inscriptions` reads and writes: the tables, and its `&mut` arguments.
  pub record BlockState : Type 0 where
    pub partial_db : PartialDb partials
    pub ledger : Brc20Db tables
    pub counters : Counters
    pub reward : ℕ
    pub cb_inscriptions : List Flotsam
    pub new_inscriptions : List NewInscriptionInfo

  -- The new locations of the floating inscriptions.
  unfoldable pub move_inscriptions :
      Transaction crate.Script → ℕ → BlockState → Gathered → List Flotsam → Moved
  unfolding sort_by_offset place_outputs end_value is_coinbase_input move_coinbase move_others
  move_inscriptions tx txid state g floating =
      let output_value = end_value 0 tx.output in
      let at =
        λ (flotsam : List Flotsam). place_outputs txid 0 0 tx.output (sort_by_offset flotsam) in
      let own = at floating in
      let all = at (floating ++ state.cb_inscriptions) in
      if is_coinbase_input crate.is_null tx.input
      then move_coinbase state.counters state.reward output_value all.0 all.1
      else move_others g.unused state.counters state.reward state.cb_inscriptions
          g.total_input_value output_value own.0 own.1

  unfoldable pub index_inscriptions :
      (TxoRef → Option TxoBody)
      → Transaction crate.Script
      → ℕ
      → ℕ
      → BlockState
      → Indexing (BlockState × IndexInscriptionsResult)
  unfolding gather try_inscribe move_inscriptions script_at receiver_of moved_transfers index_brc20
      output_inscriptions not_contained lookup_inscription
  index_inscriptions resolver tx txid height state = do
    g ←
        gather codec crate.is_null resolver height tx.input
          (record { floating = []; unused = []; total_input_value = 0 })
    revealed ← try_inscribe codec partials txid tx state.counters state.partial_db g
    let moves = move_inscriptions tx txid state g revealed.floating
    let scripts = script_at codec.script_hash txid 0 tx.output
    used ← or_panic (moved_transfers crate.is_null scripts g.unused moves.outgoing)
    let receivers =
        λ (id : InscriptionId). lookup_inscription id (receiver_of scripts moves.outgoing)
    effects ← or_panic (
        index_brc20 tables lowercase_bytes (moves.returned ++ used) revealed.brc_20_inscriptions
          receivers state.ledger)
    done (
      record {
        partial_db = revealed.partials;
        ledger = effects.db;
        counters = moves.counters;
        reward = moves.reward;
        cb_inscriptions = moves.cb_inscriptions;
        new_inscriptions = state.new_inscriptions ++ revealed.new_inscriptions;
      },
      record {
        output_inscriptions = output_inscriptions txid 0 tx.output moves.outgoing;
        lost_or_unbound_inscriptions = not_contained txid moves.outgoing;
        brc20_resolver = effects.valid_brc20s;
        new_unused_brc20_transfers = effects.new_unused_transfers;
      },
    )
