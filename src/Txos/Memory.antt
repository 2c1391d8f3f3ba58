-- ===== src/Txos/Memory.antt =====
-- `UtxoResolver` of services/compressor-xdg/src/sync/roll.rs, a map of recent outputs in memory, and how
-- `resolve_and_process` (services/compressor-xdg/src/storage/txos/mod.rs) fetches the inputs of a block.
use maestro_dogecoin_indexer.Prelude.{
  ℕ, Bool, false, ◌&&◌, ◌||◌, Option, none, some, List, [], ◌∷◌, map, ◌++◌, ◌==◌, if◌then◌else◌,
  length,
}
use maestro_dogecoin_indexer.Prelude.Words.{add64, sub64}
use maestro_dogecoin_indexer.Bitcoin.{TxIn, Transaction}
use maestro_dogecoin_indexer.Storage.{TxoRef, TxoBody}
use maestro_dogecoin_indexer.DuneIndex.{Resolver}

abbrev pub same_ref : TxoRef → TxoRef → Bool
same_ref a b = (a.txid == b.txid) && (a.vout == b.vout)

-- The map in any order, with one entry for a key, and the bytes of its outputs.
pub record UtxoResolver : Type 0 where
  pub entries : List (TxoRef × TxoBody)
  pub size : ℕ

unfoldable pub find : TxoRef → List (TxoRef × TxoBody) → Option TxoBody
find r [] = none
find r ((q, body) ∷ entries) = let rest = find r entries in if same_ref q r then some body else rest

unfoldable pub without : TxoRef → List (TxoRef × TxoBody) → List (TxoRef × TxoBody)
without r [] = []
without r ((q, body) ∷ entries) =
    let rest = without r entries in if same_ref q r then rest else (q, body) ∷ rest

-- `UtxoResolver::remove`
unfoldable pub remove : TxoRef → UtxoResolver → Option TxoBody × UtxoResolver
unfolding find without
remove r m = elim (find r m.entries) [
  | none ↦ (none, m)
  | some body ↦
      (some body, record { entries = without r m.entries; size = sub64 m.size (length body.raw) })
]

-- `UtxoResolver::insert`
unfoldable pub insert : TxoRef → TxoBody → UtxoResolver → UtxoResolver
unfolding without
insert r body m = record {
  entries = (r, body) ∷ without r m.entries;
  size = add64 m.size (length body.raw);
}

-- `if let Some(mem_resolver) = memory_resolver`
unfoldable pub forget : TxoRef → Option UtxoResolver → Option TxoBody × Option UtxoResolver
unfolding remove
forget r none = (none, none)
forget r (some m) = let removed = remove r m in (removed.0, some removed.1)

unfoldable pub remember : TxoRef → TxoBody → Option UtxoResolver → Option UtxoResolver
unfolding insert
remember r body none = none
remember r body (some m) = some (insert r body m)

-- `resolver.insert`
unfoldable pub with_txo : TxoRef → TxoBody → Resolver → Resolver
with_txo r body resolver q = if same_ref r q then some body else resolver q

abbrev pub ref_of : TxIn → TxoRef
ref_of i = record { txid = i.previous_output.txid; vout = i.previous_output.vout }

unfoldable pub contains_ref : TxoRef → List TxoRef → Bool
contains_ref r [] = false
contains_ref r (q ∷ refs) = let rest = contains_ref r refs in same_ref q r || rest

-- A hash set of references, built from a sequence of them.
unfoldable pub ref_set : List TxoRef → List TxoRef
unfolding contains_ref
ref_set [] = []
ref_set (r ∷ refs) = let rest = ref_set refs in if contains_ref r rest then rest else r ∷ rest

unfoldable pub contains_txid : ℕ → List ℕ → Bool
contains_txid t [] = false
contains_txid t (u ∷ txids) = let rest = contains_txid t txids in (u == t) || rest

-- `retain`: the outputs of the block itself are in no table yet.
unfoldable pub not_in_block : List ℕ → List TxoRef → List TxoRef
unfolding contains_txid
not_in_block txids [] = []
not_in_block txids (r ∷ refs) =
    let rest = not_in_block txids refs in if contains_txid r.txid txids then rest else r ∷ rest

module _ {Script : Type 0} where
  unfoldable pub refs_of : List (Transaction Script) → List TxoRef
  refs_of [] = []
  refs_of (tx ∷ txs) = map ref_of tx.input ++ refs_of txs

  -- The inputs of the transactions behind the coinbase.
  unfoldable pub input_refs : List (Transaction Script) → List TxoRef
  unfolding refs_of ref_set
  input_refs [] = []
  input_refs (coinbase ∷ txs) = ref_set (refs_of txs)

-- An input that is not in memory is looked up in the table; one that is in neither stays unresolved.
unfoldable pub fetched : TxoRef → Option TxoBody → Option TxoBody → Resolver → Resolver
unfolding with_txo
fetched r (some body) stored resolver = with_txo r body resolver
fetched r none (some body) resolver = with_txo r body resolver
fetched r none none resolver = resolver

unfoldable pub fetch :
    (TxoRef → Option TxoBody) → List TxoRef → Option UtxoResolver → Resolver × Option UtxoResolver
unfolding forget fetched
fetch txos [] memory = ((λ r. none), memory)
fetch txos (r ∷ refs) memory =
    let found = forget r memory in
    let rest = fetch txos refs found.1 in (fetched r found.0 (txos r) rest.0, rest.1)
