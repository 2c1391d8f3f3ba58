-- ===== src/Drc20/Examples.antt =====
-- Runs of the parsers of DRC-20 messages, and their theorems at concrete inputs.
use maestro_dogecoin_indexer.Prelude.{
  ℕ, ◌+◌, ◌*◌, ◌^◌, ◌≤◌, ◌<◌, ◌≡◌, refl, false, none, some, List, [], ◌∷◌, arith,
}
use maestro_dogecoin_indexer.Drc20.Decimal.{parsed, parse_decimal, push_char, unwrap}
use maestro_dogecoin_indexer.Drc20.Actions.{
  RawProtocolMessage, Brc20Terms, DeployAction, AmountAction, byte_length, parse_deploy, parse_mint,
  all_digits,
}
use maestro_dogecoin_indexer.Drc20.DecimalValue.{decimal}
use maestro_dogecoin_indexer.Drc20.DecimalParts.{parse_decimal_lem}
use maestro_dogecoin_indexer.Drc20.Bounds.{Answers, parse_decimal-Answers}
use maestro_dogecoin_indexer.Drc20.ActionBounds.{parse_deploy_bounds, parse_mint_bounds}

-- "1.5" with 3 decimals
parse_decimal_lem_example :
    parse_decimal (b'1' ∷ b'.' ∷ b'5' ∷ []) 3 ≡ parsed (1 * 10 ^ 3 + 5 * 10 ^ 2)
unfolding decimal
parse_decimal_lem_example =
    parse_decimal_lem 3 b'1' b'5' [] [] (refl, tt) (refl, tt) (omega arith) (omega arith)
      (omega arith)

parse_decimal-Answers_example : Answers (parse_decimal (b'7' ∷ b'.' ∷ b'.' ∷ b'1' ∷ []) 18)
parse_decimal-Answers_example =
    parse_decimal-Answers (b'7' ∷ b'.' ∷ b'.' ∷ b'1' ∷ []) 18 (omega arith)

abbrev same_bytes : List ℕ → List ℕ
same_bytes tick = tick

abbrev deploy_message : RawProtocolMessage
deploy_message = record {
  op = b'd' ∷ b'e' ∷ b'p' ∷ b'l' ∷ b'o' ∷ b'y' ∷ [];
  tick = b'd' ∷ b'o' ∷ b'g' ∷ b'i' ∷ [];
  max = some (b'2' ∷ b'1' ∷ []);
  lim = none;
  dec = some (b'2' ∷ []);
  amt = none;
}

abbrev deployed : DeployAction
deployed = record {
  ticker = b'd' ∷ b'o' ∷ b'g' ∷ b'i' ∷ [];
  max = 2100;
  limit = 2100;
  dec = 2;
  self_mint = false;
}

deploy_parsed : parse_deploy same_bytes deploy_message ≡ parsed deployed
unfolding parse_deploy parse_decimal push_char unwrap all_digits
deploy_parsed = refl

parse_deploy_bounds_example :
    (byte_length deploy_message.tick ≡ 4) × (2 ≤ 18) × (0 < 2100) × (0 < 2100)
parse_deploy_bounds_example = parse_deploy_bounds same_bytes deploy_message deployed deploy_parsed

abbrev terms : Brc20Terms
terms = record {
  max = 5000;
  mint_amt_limit = 2100;
  dec = 2;
  self_mint = false;
  deploy_id = record { txid = 1; index = 0 };
}

abbrev mint_message : RawProtocolMessage
mint_message = record deploy_message {
  op = b'm' ∷ b'i' ∷ b'n' ∷ b't' ∷ [];
  amt = some (b'1' ∷ b'0' ∷ []);
}

abbrev minted : AmountAction
minted = record { ticker = b'd' ∷ b'o' ∷ b'g' ∷ b'i' ∷ []; amt = 1000 }

mint_parsed : parse_mint same_bytes mint_message terms ≡ parsed minted
unfolding parse_mint parse_decimal push_char unwrap
mint_parsed = refl

parse_mint_bounds_example : (0 < 1000) × (1000 ≤ 2100)
parse_mint_bounds_example = parse_mint_bounds same_bytes mint_message terms minted mint_parsed
