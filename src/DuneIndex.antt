-- ===== src/DuneIndex.antt =====
-- The dune updater (storage/runes/updater.rs): `index_runes` and `unallocated`.
pub mod Tables
pub mod Mint
pub mod Etch
pub mod Edicts
pub mod Settle
pub mod Accounts
pub mod Amounts
pub mod Holdings
pub mod Conservation
pub mod Elsewhere
pub mod MintCounts
pub mod Undo
mod Examples
use maestro_dogecoin_indexer.Prelude.{
  ℕ, zero, suc, ◌+◌, ◌*◌, Bool, true, false, Option, none, some, List, [], ◌∷◌, map, ◌==◌, leb,
  if◌then◌else◌, ◌>>=◌, unwrap_or, length, replicate,
}
use maestro_dogecoin_indexer.Prelude.Words.{u16_max, u128_max}
use maestro_dogecoin_indexer.Bitcoin.{BitcoinCrate, OutPoint, TxOut, TxIn, Transaction}
use maestro_dogecoin_indexer.Dunes.Id.{DuneId, from_u128, to_u128}
use maestro_dogecoin_indexer.Dunes.Dunestone.{Dunestone, from_transaction}
use maestro_dogecoin_indexer.Storage.{StoredId, load_id, TxoRef, TxoBody}
use Mint.{mint_claims, count_mints, sort, dedup, claims_of}
use Etch.{Network, create_rune_entry, etched}
use Edicts.{Issuance, Allocating, add_entry, apply_edicts}
use Settle.{settle}

pub record IndexRunesResult : Type 0 where
  pub output_dunes : List (List (ℕ × ℕ))
  pub successful_etch : Option ℕ
  pub successful_mints : List ℕ

-- `Result` of `index_runes`, with a panic as a third case.
pub data Outcome (A : Type 0) : Type 0 where
  done : A → Outcome A
  missing_txo : TxoRef → Outcome A
  panicked : Outcome A

abbrev pub Resolver : Type 0
Resolver = TxoRef → Option TxoBody

-- The dunes of one spent output are added to the map.
unfoldable pub add_dunes : List (StoredId × ℕ) → List (ℕ × ℕ) → List (ℕ × ℕ)
unfolding add_entry
add_dunes [] m = m
add_dunes ((id, balance) ∷ dunes) m = add_dunes dunes (add_entry (to_u128 (load_id id)) balance m)

module _ (crate : BitcoinCrate) where
  open crate use {Script, is_op_return, is_null}

  -- The loop of `unallocated` over the inputs; the null outpoint of a coinbase is passed over.
  unfoldable pub unallocated_loop : Resolver → List OutPoint → List (ℕ × ℕ) → Outcome (List (ℕ × ℕ))
  unfolding add_dunes
  unallocated_loop resolver [] m = done m
  unallocated_loop resolver (outpoint ∷ input) m =
      let txo_ref : TxoRef = record { txid = outpoint.txid; vout = outpoint.vout } in
      let rest = unallocated_loop resolver input m in
      let found = λ (body : TxoBody). unallocated_loop resolver input (add_dunes body.dunes m) in
      if is_null outpoint
      then rest
      else (elim (resolver txo_ref) [ none ↦ missing_txo txo_ref | some body ↦ found body ])

  unfoldable pub unallocated : Transaction Script → Resolver → Outcome (List (ℕ × ℕ))
  unfolding unallocated_loop
  unallocated tx resolver =
      unallocated_loop resolver (map (λ (i : TxIn). i.previous_output) tx.input) []

  abbrev pub op_returns : Transaction Script → List Bool
  op_returns tx = map (λ (o : TxOut Script). is_op_return o.script_pubkey) tx.output

-- The etching of a dunestone: the dune that was etched, and the issuance that it opens, which is missing
-- when the index of the transaction has more than 16 bits.
unfoldable pub issuance_of : ℕ → ℕ → Issuance
issuance_of height tx_index = record {
  balance = u128_max;
  id = to_u128 (record { height = height; index = tx_index });
}

-- The name that was etched, and the issuance that it opens.
unfoldable pub open_issuance : ℕ → ℕ → Option (DuneId × ℕ) → Option ℕ × Option Issuance
open_issuance height tx_index none = (none, none)
open_issuance height tx_index (some (id, name)) =
    (some name, (if leb tx_index u16_max then some (issuance_of height tx_index) else none))

module _ (tables : Tables.Tables) where
  unfoldable pub run_etching :
      ℕ
      → Network
      → ℕ
      → ℕ
      → Dunestone
      → Tables.Db tables
      → Option (Option ℕ × Option Issuance × Tables.Db tables)
  unfolding open_issuance
  run_etching halving network tx_index height dunestone db = elim dunestone.etching [
    | none ↦ some (none, none, db)
    | some etching ↦ do
      result ← etched tables halving network tx_index height etching db
      let (dune, db') = result
      let (name, issuance) = open_issuance height tx_index dune
      some (name, issuance, db')
  ]

  -- The mints and the edicts of a dunestone that is no cenotaph, and the mint counters behind them.
  unfoldable pub run_edicts :
      List Bool
      → ℕ
      → Dunestone
      → Allocating
      → Tables.Db tables
      → Option (Allocating × List ℕ × Tables.Db tables)
  run_edicts outputs height dunestone s db = do
    let (mintable, successes) =
        mint_claims tables db height 0 (dedup (sort (claims_of dunestone.edicts))) []
    s' ← apply_edicts outputs dunestone.edicts (record s { mintable = mintable })
    db' ← count_mints tables mintable s'.mintable db
    some (s', successes, db')

  -- `create_rune_entry` for the issuance of an etching.
  unfoldable pub enter_issuance :
      Dunestone → Option Issuance → Option ℕ → ℕ → Tables.Db tables → Option (Tables.Db tables)
  enter_issuance dunestone (some issuance) (some dune) height db = do
    id ← from_u128 issuance.id
    create_rune_entry tables dunestone id dune height db
  enter_issuance dunestone _ _ height db = some db

  -- The block of `index_runes` under `if let Some(dunestone)`.
  unfoldable pub run_dunestone :
      List Bool
      → ℕ
      → Network
      → ℕ
      → ℕ
      → Dunestone
      → Allocating
      → Tables.Db tables
      → Option (Allocating × Option ℕ × List ℕ × Tables.Db tables)
  unfolding run_etching run_edicts enter_issuance
  run_dunestone outputs halving network tx_index height dunestone s db = do
    etch ← run_etching halving network tx_index height dunestone db
    let (dune, issuance, db₁) = etch
    let s₁ : Allocating = record s { issuance = issuance }
    ran ←
        (if dunestone.cenotaph
          then some (s₁, [], db₁)
          else run_edicts outputs height dunestone s₁ db₁)
    let (s₂, mints, db₂) = ran
    db₃ ← enter_issuance dunestone issuance dune height db₂
    some (s₂, dune, mints, db₃)

abbrev pub start : ℕ → List (ℕ × ℕ) → Allocating
start outputs m = record {
  issuance = none;
  mintable = [];
  unallocated = m;
  allocated = replicate outputs [];
}

module _ (crate : BitcoinCrate) (tables : Tables.Tables) where
  open crate use {Script}

  -- The outputs of a transaction, the burned dunes and the tables after it.
  unfoldable pub index_dunestone :
      ℕ
      → Network
      → ℕ
      → Transaction Script
      → ℕ
      → List (ℕ × ℕ)
      → Tables.Db tables
      → Option (IndexRunesResult × List (ℕ × ℕ) × Tables.Db tables)
  unfolding run_dunestone
  index_dunestone halving network tx_index tx height m db =
      let outputs = op_returns crate tx in
      let s = start (length outputs) m in
      elim (from_transaction crate tx) [
        | none ↦
            let (allocated, burned) = settle outputs false none m s.allocated in
            some (
              record { output_dunes = allocated; successful_etch = none; successful_mints = [] },
              burned,
              db,
            )
        | some dunestone ↦ do
          ran ← run_dunestone tables outputs halving network tx_index height dunestone s db
          let (s', etch, mints, db') = ran
          let (allocated, burned) =
              settle outputs dunestone.cenotaph dunestone.pointer s'.unallocated s'.allocated
          some (
            record { output_dunes = allocated; successful_etch = etch; successful_mints = mints },
            burned,
            db',
          )
      ]

  -- `index_runes`, which drops the burned dunes.
  unfoldable pub index_runes :
      ℕ
      → Resolver
      → Tables.Db tables
      → ℕ
      → Transaction Script
      → ℕ
      → Network
      → Outcome (IndexRunesResult × Tables.Db tables)
  unfolding unallocated index_dunestone
  index_runes halving resolver db tx_index tx height network =
      elim (unallocated crate tx resolver) [
        | missing_txo txo_ref ↦ missing_txo txo_ref
        | panicked ↦ panicked
        | done m ↦ (elim (index_dunestone halving network tx_index tx height m db) [
          | none ↦ panicked
          | some (result, burned, db') ↦ done (result, db')
        ])
      ]
