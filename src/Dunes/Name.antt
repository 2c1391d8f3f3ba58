-- ===== src/Dunes/Name.antt =====
-- Dune names (storage/runes/dunes/dune.rs): the number behind a name, its text and the schedule that
-- unlocks shorter names. A text is the list of its code points.
pub mod Text
pub mod Schedule
use maestro_dogecoin_indexer.Prelude.{
  ℕ, zero, suc, ◌+◌, ◌-◌, ◌*◌, ◌/◌, ◌%◌, ◌^◌, Bool, true, false, Option, none, some, List, [], ◌∷◌,
  ◌&&◌, leb, ltb, ◌==◌, if◌then◌else◌, ◌>>=◌, get_elem?, min,
}
use maestro_dogecoin_indexer.Prelude.Words.{u32_max, u128_max, checked_mul, checked_add}
use maestro_dogecoin_indexer.Dunes.Constants.{Chain, first_dune_height, steps, reserved_start}

-- `minimum_at_height`, over the halving interval that the bitcoin crate defines. `none` is the panic
-- of an index outside `STEPS`; the arithmetic on heights is that of u32.
unfoldable pub minimum_at_height : ℕ → Chain → ℕ → Option ℕ
minimum_at_height halving chain height =
    let interval_10x = halving * 10 in
    let interval = interval_10x / 12 in
    let offset = min (height + 1) u32_max in
    let start = first_dune_height chain in
    let end = (start + interval_10x) % 2 ^ 32 in
    if ltb offset start then get_elem? steps 12 else if leb end offset then some 0 else (do
      let progress = offset - start
      let length = 12 - progress / interval
      low ← get_elem? steps ((length + 2 ^ 32 - 1) % 2 ^ 32)
      high ← get_elem? steps length
      let remainder = progress % interval
      some (high - (high - low) * remainder / interval))

unfoldable pub is_reserved : ℕ → Bool
is_reserved dune = leb reserved_start dune

-- `reserved`; `none` is the panic of `unwrap`.
unfoldable pub reserved : ℕ → Option ℕ
reserved n = checked_add reserved_start n

-- "BCGDENLQRQWDSLRUGSNLBTMFIJAV", the name of the largest number.
abbrev pub max_name : List ℕ
max_name =
    b'B' ∷ b'C' ∷ b'G' ∷ b'D' ∷ b'E' ∷ b'N' ∷ b'L' ∷ b'Q' ∷ b'R' ∷ b'Q' ∷ b'W' ∷ b'D' ∷ b'S' ∷ b'L'
    ∷ b'R' ∷ b'U' ∷ b'G' ∷ b'S' ∷ b'N' ∷ b'L' ∷ b'B' ∷ b'T' ∷ b'M' ∷ b'F' ∷ b'I' ∷ b'J' ∷ b'A'
    ∷ b'V' ∷ []

-- The loop of `fmt`. The list holds `symbol` back to front, which is the order it is written in.
-- `none`: the fuel ran out.
unfoldable pub symbol_loop : ℕ → ℕ → List ℕ → Option (List ℕ)
symbol_loop zero n symbol = none
symbol_loop (suc fuel) n symbol =
    let rest = symbol_loop fuel ((n - 1) / 26) ((b'A' + (n - 1) % 26) ∷ symbol) in
    if n == 0 then some symbol else rest

-- `Display for Dune`; 29 rounds write the 28 letters of the longest name and see the end.
unfoldable pub to_string : ℕ → Option (List ℕ)
unfolding symbol_loop
to_string dune = if dune == u128_max then some max_name else symbol_loop 29 (dune + 1) []

pub data ParseError : Type 0 where
  out_of_range invalid_character : ParseError

pub data Parsed : Type 0 where
  ok : ℕ → Parsed
  err : ParseError → Parsed

-- The loop of `from_str`; `first` says that `i` is 0.
unfoldable pub from_str_loop : Bool → ℕ → List ℕ → Parsed
from_str_loop first x [] = ok x
from_str_loop first x (c ∷ s) =
    let x' = if first then x else (x + 1) % 2 ^ 128 in
    let rest = from_str_loop false (x' * 26 + (c - b'A')) s in
    elim (checked_mul x' 26) [
      | none ↦ err out_of_range
      | some y ↦
          if leb b'A' c && leb c b'Z'
          then (elim (checked_add y (c - b'A')) [ none ↦ err out_of_range | some z ↦ rest ])
          else err invalid_character
    ]

unfoldable pub from_str : List ℕ → Parsed
unfolding from_str_loop
from_str s = from_str_loop true 0 s
