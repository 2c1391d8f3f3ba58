-- ===== src/Dunes/Dunestone/Supply.antt =====
-- A dunestone that is no cenotaph describes a supply that fits a u128.
use maestro_dogecoin_indexer.Prelude.{ℕ, ◌+◌, ◌*◌, ◌≤◌, ◌≡◌, false, Option, some, arith, unwrap_or}
use maestro_dogecoin_indexer.Prelude.Words.{u128_max}
use maestro_dogecoin_indexer.Dunes.Dunestone.Fields.{Terms, Etching}
use maestro_dogecoin_indexer.Dunes.Dunestone.Message
use maestro_dogecoin_indexer.Dunes.Dunestone.{
  Taken, take_all, taken_etching, supply_overflows, decipher_message,
}

-- The closure `overflow` is false exactly when premine and mints together fit a u128.
supply_fits :
    (premine cap limit : Option ℕ)
    → supply_overflows premine cap limit ≡ false
    → unwrap_or premine 0 + unwrap_or cap 0 * unwrap_or limit 0 ≤ u128_max
unfolding supply_overflows
supply_fits premine cap limit h = ground arith

taken_supply :
    (t : Taken) (etching : Etching) (terms : Terms)
    → supply_overflows t.premine t.cap t.limit ≡ false
    → taken_etching t ≡ some etching
    → etching.terms ≡ some terms
    → unwrap_or etching.premine 0 + unwrap_or terms.cap 0 * unwrap_or terms.limit 0 ≤ u128_max
unfolding taken_etching
taken_supply t etching terms valid etched has = ground (arith, supply_fits t.premine t.cap t.limit)

-- If a deciphered dunestone is no cenotaph and etches with terms, its premine and all of its mints
-- together fit a u128.
pub decipher_message-supply :
    (message : Message.Message) (etching : Etching) (terms : Terms)
    → (decipher_message message).cenotaph ≡ false
    → (decipher_message message).etching ≡ some etching
    → etching.terms ≡ some terms
    → unwrap_or etching.premine 0 + unwrap_or terms.cap 0 * unwrap_or terms.limit 0 ≤ u128_max
unfolding decipher_message
decipher_message-supply message etching terms valid etched has =
    taken_supply (take_all message.fields) etching terms (ground arith) etched has
