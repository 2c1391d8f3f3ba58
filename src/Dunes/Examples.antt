-- ===== src/Dunes/Examples.antt =====
-- Runs of the dune library, and its theorems at concrete inputs.
use maestro_dogecoin_indexer.Prelude.{
  ℕ, ◌+◌, ◌*◌, ◌≤◌, ◌≡◌, refl, false, none, some, List, [], ◌∷◌, arith, All, length, ◌⊎◌,
}
use maestro_dogecoin_indexer.Prelude.Words.{u128_max}
use maestro_dogecoin_indexer.Prelude.Maps.{lookup}
use maestro_dogecoin_indexer.Dunes.Constants.{mainnet}
use maestro_dogecoin_indexer.Dunes.Name.{minimum_at_height, to_string, from_str, ok}
use maestro_dogecoin_indexer.Dunes.Name.Text.{from_str-to_string}
use maestro_dogecoin_indexer.Dunes.Name.Schedule.{minimum_at_height_falls}
use maestro_dogecoin_indexer.Dunes.Id.{DuneId, from_u128}
use maestro_dogecoin_indexer.Dunes.Dunestone.Fields.{Terms, Etching, edict_from_integers}
use maestro_dogecoin_indexer.Dunes.Dunestone.Message.{from_integers, body_edicts}
use maestro_dogecoin_indexer.Dunes.Dunestone.Payload.{integers}
use maestro_dogecoin_indexer.Dunes.Dunestone.{take_all, decipher_message, supply_overflows}
use maestro_dogecoin_indexer.Dunes.Dunestone.Supply.{decipher_message-supply}
use maestro_dogecoin_indexer.Dunes.Dunestone.Edicts.{IsEdict, IsPremine, decipher_message-edicts}
use maestro_dogecoin_indexer.Dunes.Dunestone.FirstValue.{first_value, from_integers_fields}
use maestro_dogecoin_indexer.Dunes.Dunestone.Integers.{
  encode_all, integers_total, integers-encode_all,
}

-- "AB" is the number 27.
name_27 : to_string 27 ≡ some (b'A' ∷ b'B' ∷ [])
unfolding to_string
name_27 = refl

-- The empty text is read as the number 0, whose name is "A".
empty_name : from_str [] ≡ ok 0
unfolding from_str
empty_name = refl

from_str-to_string_example : (s : List ℕ) × (to_string 27 ≡ some s) × (from_str s ≡ ok 27)
from_str-to_string_example = from_str-to_string 27 (omega arith)

minimum_at_height_falls_example :
    (a b : ℕ) × (minimum_at_height 210000 mainnet 5084000 ≡ some a)
    × (minimum_at_height 210000 mainnet 5300000 ≡ some b)
    × (b ≤ a)
    × (a ≤ 99246114928149462)
minimum_at_height_falls_example =
    minimum_at_height_falls 210000 mainnet 5084000 5300000 refl (omega arith) (omega arith)

abbrev five_one : DuneId
five_one = record { height = 5; index = 1 }

unpack_327681 : from_u128 327681 ≡ some five_one
unfolding from_u128
unpack_327681 = refl

integers_total_example : (ns : List ℕ) × (integers (0x81 ∷ 0x2c ∷ []) ≡ some ns) × (length ns ≤ 2)
integers_total_example = integers_total (0x81 ∷ 0x2c ∷ [])

integers-encode_all_example :
    (bytes : List ℕ) × (encode_all (300 ∷ 0 ∷ []) ≡ some bytes)
    × (integers bytes ≡ some (300 ∷ 0 ∷ []))
integers-encode_all_example = integers-encode_all (300 ∷ 0 ∷ []) (omega arith)

-- Flags 3 (etching and terms), cap 10, limit 7, premine 5, and one edict for output 0.
abbrev etching_payload : List ℕ
etching_payload = 2 ∷ 3 ∷ 20 ∷ 10 ∷ 6 ∷ 7 ∷ 22 ∷ 5 ∷ 0 ∷ 327681 ∷ 40 ∷ 0 ∷ []

abbrev etched_terms : Terms
etched_terms = record {
  limit = some 7;
  cap = some 10;
  height_start = none;
  height_end = none;
  offset_start = none;
  offset_end = none;
}

abbrev etched_dune : Etching
etched_dune = record {
  divisibility = none;
  terms = some etched_terms;
  premine = some 5;
  dune = none;
  spacers = none;
  symbol = none;
  turbo = false;
}

etching_valid : (decipher_message (from_integers 1 etching_payload)).cenotaph ≡ false
unfolding decipher_message take_all from_integers supply_overflows from_u128 edict_from_integers
    body_edicts
etching_valid = refl

etching_read : (decipher_message (from_integers 1 etching_payload)).etching ≡ some etched_dune
unfolding decipher_message take_all from_integers
etching_read = refl

decipher_message-supply_example : 5 + 10 * 7 ≤ u128_max
decipher_message-supply_example =
    decipher_message-supply (from_integers 1 etching_payload) etched_dune etched_terms etching_valid
      etching_read refl

decipher_message-edicts_example :
    All (λ e. IsEdict 1 e ⊎ IsPremine e) (decipher_message (from_integers 1 etching_payload)).edicts
decipher_message-edicts_example = decipher_message-edicts 1 etching_payload

from_integers_fields_example :
    lookup 4 (from_integers 1 (4 ∷ 8 ∷ 4 ∷ 9 ∷ [])).fields ≡ first_value 4 (4 ∷ 8 ∷ 4 ∷ 9 ∷ [])
from_integers_fields_example = from_integers_fields 1 4 (4 ∷ 8 ∷ 4 ∷ 9 ∷ [])
