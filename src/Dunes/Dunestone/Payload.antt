-- ===== src/Dunes/Dunestone/Payload.antt =====
-- `Dunestone::payload` and `Dunestone::integers` of storage/runes/dunes/dunestone.rs.
use maestro_dogecoin_indexer.Prelude.{
  ℕ, zero, suc, Bool, false, Option, none, some, List, [], ◌∷◌, ◌++◌, ◌==◌, if◌then◌else◌, ◌>>=◌,
  length, drop,
}
use maestro_dogecoin_indexer.Varint.{decode}
use maestro_dogecoin_indexer.Bitcoin.{Instruction, op, push_bytes, BitcoinCrate, TxOut}

is_op : ℕ → Instruction → Bool
is_op code (op c) = c == code
is_op code (push_bytes bytes) = false

-- b"D"
is_marker : Instruction → Bool
is_marker (push_bytes (b ∷ [])) = b == b'D'
is_marker _ = false

pub data Scan : Type 0 where
  skip failed : Scan
  found : List ℕ → Scan

-- The pushes behind the marker; other opcodes are passed over, and an error item ends the scan.
unfoldable pub pushes : List (Option Instruction) → Option (List ℕ)
pushes [] = some []
pushes (none ∷ rest) = none
pushes (some (op c) ∷ rest) = pushes rest
pushes (some (push_bytes bytes) ∷ rest) = do more ← pushes rest; some (bytes ++ more)

scan_marker : List (Option Instruction) → Scan
unfolding is_marker pushes
scan_marker [] = skip
scan_marker (none ∷ rest) = failed
scan_marker (some i ∷ rest) =
    if is_marker i then (elim (pushes rest) [ none ↦ failed | some bytes ↦ found bytes ]) else skip

unfoldable pub scan_script : ℕ → List (Option Instruction) → Scan
unfolding is_op scan_marker
scan_script op_return [] = skip
scan_script op_return (none ∷ rest) = failed
scan_script op_return (some i ∷ rest) = if is_op op_return i then scan_marker rest else skip

module _ (crate : BitcoinCrate) where
  open crate use {Script, instructions, op_return}

  -- The outer `none` is an error of a script, which `from_transaction` turns into no dunestone.
  unfoldable pub payload : List (TxOut Script) → Option (Option (List ℕ))
  unfolding scan_script
  payload [] = some none
  payload (output ∷ outputs) =
      let rest = payload outputs in
      elim (scan_script op_return (instructions output.script_pubkey)) [
        | skip ↦ rest
        | failed ↦ none
        | found bytes ↦ some (some bytes)
      ]

-- The loop of `integers`, over the bytes that are left; `none`: the fuel ran out.
unfoldable pub integers_loop : ℕ → List ℕ → Option (List ℕ)
integers_loop fuel [] = some []
integers_loop zero (b ∷ bytes) = none
integers_loop (suc fuel) (b ∷ bytes) =
    let (integer, taken) = decode (b ∷ bytes) in
    (do more ← integers_loop fuel (drop taken (b ∷ bytes)); some (integer ∷ more))

-- Each round takes a byte at least, so as many rounds as there are bytes are enough.
unfoldable pub integers : List ℕ → Option (List ℕ)
unfolding integers_loop
integers bytes = integers_loop (length bytes) bytes
