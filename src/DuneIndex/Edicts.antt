-- ===== src/DuneIndex/Edicts.antt =====
-- The loop over the edicts of a dunestone (storage/runes/updater.rs, `index_runes`).
use maestro_dogecoin_indexer.Prelude.{
  ℕ, zero, suc, ◌+◌, ◌/◌, ◌%◌, min, Bool, Option, none, some, List, [], ◌∷◌, ltb, leb, ◌==◌,
  if◌then◌else◌, ◌>>=◌, unwrap_or, length,
}
use maestro_dogecoin_indexer.Prelude.Words.{u64_max, add128, sub128}
use maestro_dogecoin_indexer.Prelude.Maps.{lookup, insert}
use maestro_dogecoin_indexer.Dunes.Id.{claim}
use maestro_dogecoin_indexer.Dunes.Dunestone.Fields.{Edict}

-- The fields of `Allocation` that the loop reads and writes: what is left of a new issuance, and its id.
pub record Issuance : Type 0 where
  pub balance : ℕ
  pub id : ℕ

-- The variables of the loop.
pub record Allocating : Type 0 where
  pub issuance : Option Issuance
  pub mintable : List (ℕ × ℕ)
  pub unallocated : List (ℕ × ℕ)
  pub allocated : List (List (ℕ × ℕ))

-- Where an edict takes its balance from: `&mut u128` into one of three places.
pub data Source : Type 0 where
  issued : Source
  minted : ℕ → Source
  unallocated : ℕ → Source

-- `*entry(id).or_default() += amount`
unfoldable pub add_entry : ℕ → ℕ → List (ℕ × ℕ) → List (ℕ × ℕ)
add_entry id amount m = insert id (add128 (unwrap_or (lookup id m) 0) amount) m

-- `*allocated[output].entry(id).or_default() += amount`. Every index in the source is below the length.
unfoldable pub add_output : ℕ → ℕ → ℕ → List (List (ℕ × ℕ)) → List (List (ℕ × ℕ))
unfolding add_entry
add_output output id amount [] = []
add_output zero id amount (m ∷ allocated) = add_entry id amount m ∷ allocated
add_output (suc output) id amount (m ∷ allocated) = m ∷ add_output output id amount allocated

-- The balance that an edict of this id draws on, with the id of the dune; `none` skips the edict.
unfoldable pub source_of : Allocating → ℕ → Option (Source × ℕ × ℕ)
source_of s id =
    if id == 0 then (do i ← s.issuance; some (issued, i.id, i.balance)) else (elim (claim id) [
      | some c ↦ do balance ← lookup c s.mintable; some (minted c, c, balance)
      | none ↦ do balance ← lookup id s.unallocated; some (unallocated id, id, balance)
    ])

unfoldable pub set_balance : Source → ℕ → Allocating → Allocating
set_balance issued b s = record s {
  issuance = elim s.issuance [ none ↦ none | some i ↦ some (record i { balance = b }) ];
}
set_balance (minted c) b s = record s { mintable = insert c b s.mintable }
set_balance (unallocated id) b s = record s { unallocated = insert id b s.unallocated }

-- The closure `allocate`, with the balance that is left.
unfoldable pub allocate : Source → ℕ → ℕ → ℕ → ℕ → Allocating → Allocating × ℕ
allocate source id balance amount output s =
    let left = sub128 balance amount in
    let moved = set_balance source left s in
    if ltb 0 amount
    then (record moved { allocated = add_output output id amount moved.allocated }, left)
    else (s, balance)

-- An amount split evenly over the destinations; the first `remainder` of them get one more.
unfoldable pub split_evenly : Source → ℕ → ℕ → ℕ → ℕ → ℕ → List ℕ → Allocating → Allocating
unfolding allocate
split_evenly source id balance amount remainder i [] s = s
split_evenly source id balance amount remainder i (output ∷ outputs) s =
    let (s', left) =
      allocate source id balance (if ltb i remainder then amount + 1 else amount) output s in
    split_evenly source id left amount remainder (i + 1) outputs s'

-- The same amount for each destination, while the balance lasts.
unfoldable pub spread : Source → ℕ → ℕ → ℕ → List ℕ → Allocating → Allocating
unfolding allocate
spread source id balance amount [] s = s
spread source id balance amount (output ∷ outputs) s =
    let (s', left) = allocate source id balance (min amount balance) output s in
    spread source id left amount outputs s'

-- The numbers of the outputs that are no OP_RETURN, from the output number `i` on.
unfoldable pub destinations : ℕ → List Bool → List ℕ
destinations i [] = []
destinations i (is_op_return ∷ outputs) =
    let rest = destinations (i + 1) outputs in if is_op_return then rest else i ∷ rest

-- The branch of an edict to all outputs; `none` is the division by no destination.
unfoldable pub distribute : List Bool → Source → ℕ → ℕ → ℕ → Allocating → Option Allocating
unfolding split_evenly spread destinations
distribute outputs source id balance amount s =
    let targets = destinations 0 outputs in
    let n = length targets in
    if amount == 0
    then (if n == 0
        then none
        else some (split_evenly source id balance (balance / n) (balance % n) 0 targets s))
    else some (spread source id balance amount targets s)

-- The body of the loop, over one Boolean for each output: whether it is an OP_RETURN. `premine_amount`
-- is summed up in the source and never read, so it is left out.
unfoldable pub apply_edict : List Bool → Edict → Allocating → Option Allocating
unfolding distribute
apply_edict outputs edict s =
    if ltb u64_max edict.output
    then some s
    else if leb (length outputs) edict.output
    then some s
    else (elim (source_of s edict.id) [
      | none ↦ some s
      | some (source, id, balance) ↦
          if edict.output == length outputs
          then distribute outputs source id balance edict.amount s
          else (let amount = if edict.amount == 0 then balance else min edict.amount balance in
              some (allocate source id balance amount edict.output s).0)
    ])

unfoldable pub apply_edicts : List Bool → List Edict → Allocating → Option Allocating
apply_edicts outputs [] s = some s
apply_edicts outputs (edict ∷ edicts) s = do
  s' ← apply_edict outputs edict s
  apply_edicts outputs edicts s'
