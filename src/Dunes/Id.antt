-- ===== src/Dunes/Id.antt =====
-- Dune ids (storage/runes/dunes/dune_id.rs) and the claim bit (storage/runes/dunes/mod.rs).
pub mod Packing
use maestro_dogecoin_indexer.Prelude.{
  ℕ, ◌+◌, ◌-◌, ◌*◌, ◌/◌, ◌^◌, bit_and, bit_or, bit_xor, Bool, Option, none, some, ◌==◌,
  if◌then◌else◌, ◌>>=◌,
}
use maestro_dogecoin_indexer.Prelude.Words.{u64_max, try_from}
use maestro_dogecoin_indexer.Dunes.Constants.{claim_bit}

pub record DuneId : Type 0 where
  pub height : ℕ
  pub index : ℕ

-- `TryFrom<u128> for DuneId`
unfoldable pub from_u128 : ℕ → Option DuneId
from_u128 n = do
  height ← try_from u64_max (n / 2 ^ 16)
  some (record { height = height; index = bit_and n 0xffff })

-- `From<DuneId> for u128`
unfoldable pub to_u128 : DuneId → ℕ
to_u128 id = bit_or (id.height * 2 ^ 16) id.index

-- `claim`: the id behind an edict that mints.
unfoldable pub claim : ℕ → Option ℕ
claim id = if bit_and id claim_bit == 0 then none else some (bit_xor id claim_bit)
