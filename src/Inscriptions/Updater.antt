-- ===== src/Inscriptions/Updater.antt =====
-- `index_inscriptions` (services/compressor-xdg/src/storage/inscriptions/updater.rs): its inputs, the inscription that
-- a transaction may reveal, and where its inscriptions go.
use maestro_dogecoin_indexer.Prelude.{
  ℕ, ◌%◌, ◌^◌, Bool, true, not, ◌&&◌, ◌||◌, Option, none, some, List, [], ◌∷◌, ◌++◌, map, ◌==◌,
  if◌then◌else◌,
}
use maestro_dogecoin_indexer.Prelude.Words.{add64}
use maestro_dogecoin_indexer.Bitcoin.{OutPoint, TxIn, TxOut, Transaction}
use maestro_dogecoin_indexer.Storage.{Table, TxoRef, TxoBody, InscriptionId, same_inscription}
use maestro_dogecoin_indexer.Drc20.Actions.{RawProtocolMessage, same_text}
use maestro_dogecoin_indexer.Inscriptions.Parser.{Inscription}
use maestro_dogecoin_indexer.Inscriptions.Placement.{SatPoint, old, Flotsam}
use maestro_dogecoin_indexer.Timbre.Result.{ok}
use maestro_dogecoin_indexer.Timbre.Rows.{from_utf8}

-- What the updater takes from the bitcoin, ordinals and serde_json crates. A message is parsed into its `p`
-- and its other fields.
pub record Codec (Script : Type 0) : Type 0 where
  pub script_hash : Script → ℕ
  pub decode_txout : List ℕ → Option (TxOut Script)
  pub decode_transaction : List ℕ → Option (Transaction Script)
  pub encode_transaction : Transaction Script → List ℕ
  pub subsidy : ℕ → ℕ
  pub json_message : List ℕ → Option (List ℕ × RawProtocolMessage)

-- The part of `Counters` that is written.
pub record Counters : Type 0 where
  pub blessed_count : ℕ
  pub next_sequence_num : ℕ
  pub lost_sats : ℕ

-- `NewInscriptionInfo`
pub record NewInscriptionInfo : Type 0 where
  pub tx_hash : ℕ
  pub id : InscriptionId
  pub number : ℕ
  pub body : List ℕ
  pub body_type : List ℕ

-- PartialTxidToTxidsKV, whose bytes are a list of txids, and PartialTxidToBytesKV.
pub record PartialTables : Type 1 where
  pub Txids : Table ℕ (List ℕ) ◌==◌
  pub Bytes : Table ℕ (List ℕ) ◌==◌

pub record PartialDb (tables : PartialTables) : Type 0 where
  pub txids : tables.Txids.Contents
  pub bytes : tables.Bytes.Contents

-- A value of `unused_brc20_transfers`
pub record UnusedTransfer : Type 0 where
  pub tick : List ℕ
  pub amt : ℕ
  pub sender : ℕ
  pub old_satpoint : SatPoint

-- What the loop over the inputs gathers; the last insert of `unused` is in front.
pub record Gathered : Type 0 where
  pub floating : List Flotsam
  pub unused : List (InscriptionId × UnusedTransfer)
  pub total_input_value : ℕ

-- The `Result` of the updater, with a panic as one more case.
pub data Indexing (A : Type 0) : Type 0 where
  done : A → Indexing A
  missing_txo : TxoRef → Indexing A
  bitcoin_decode no_coinbase panicked : Indexing A

infixl 5 ◌>>=◌
abbrev pub ◌>>=◌ : {A B : Type 0} → Indexing A → (A → Indexing B) → Indexing B
done a >>= f = f a
missing_txo r >>= f = missing_txo r
bitcoin_decode >>= f = bitcoin_decode
no_coinbase >>= f = no_coinbase
panicked >>= f = panicked

abbrev pub or_panic : {A : Type 0} → Option A → Indexing A
or_panic none = panicked
or_panic (some a) = done a

module _ {V : Type 0} where
  unfoldable pub lookup_inscription : InscriptionId → List (InscriptionId × V) → Option V
  lookup_inscription id [] = none
  lookup_inscription id ((j, v) ∷ m) =
      let rest = lookup_inscription id m in if same_inscription j id then some v else rest

-- The part of a content type in front of the first semicolon.
unfoldable pub before_semicolon : List ℕ → List ℕ
before_semicolon [] = []
before_semicolon (c ∷ s) = let rest = before_semicolon s in if c == b';' then [] else c ∷ rest

abbrev pub text_plain : List ℕ
text_plain = b't' ∷ b'e' ∷ b'x' ∷ b't' ∷ b'/' ∷ b'p' ∷ b'l' ∷ b'a' ∷ b'i' ∷ b'n' ∷ []

abbrev pub application_json : List ℕ
application_json =
    b'a' ∷ b'p' ∷ b'p' ∷ b'l' ∷ b'i' ∷ b'c' ∷ b'a' ∷ b't' ∷ b'i' ∷ b'o' ∷ b'n' ∷ b'/' ∷ b'j' ∷ b's'
    ∷ b'o' ∷ b'n' ∷ []

abbrev pub drc20 : List ℕ
drc20 = b'd' ∷ b'r' ∷ b'c' ∷ b'-' ∷ b'2' ∷ b'0' ∷ []

-- `Inscription::content_type`
unfoldable pub content_type : Inscription → Option (List ℕ)
unfolding from_utf8
content_type inscription = elim (from_utf8 inscription.content_type) [ ok s ↦ some s | _ ↦ none ]

module _ {Script : Type 0} (codec : Codec Script) where
  -- A message of the protocol `drc-20`
  unfoldable pub protocol_message : List ℕ → Option RawProtocolMessage
  unfolding same_text
  protocol_message body = elim (codec.json_message body) [
    | none ↦ none
    | some (p, raw) ↦ if same_text p drc20 then some raw else none
  ]

  -- `brc20::unparsed_message`
  unfoldable pub unparsed_message : Inscription → Option RawProtocolMessage
  unfolding content_type before_semicolon protocol_message from_utf8 same_text
  unparsed_message inscription = elim (content_type inscription) [
    | none ↦ none
    | some ct ↦
        if same_text (before_semicolon ct) text_plain
          || same_text (before_semicolon ct) application_json
        then (elim (from_utf8 inscription.body) [ ok body ↦ protocol_message body | _ ↦ none ])
        else none
  ]

  -- The inscriptions of one spent output, whose start is `total` behind that of the inputs.
  unfoldable pub float_inscriptions :
      TxIn → TxoBody → ℕ → List (ℕ × InscriptionId) → Gathered → Gathered
  unfolding lookup_inscription
  float_inscriptions txin body sender [] g = g
  float_inscriptions txin body sender ((offset, id) ∷ inscriptions) g =
      let satpoint : SatPoint = record { outpoint = txin.previous_output; offset = offset } in
      let f : Flotsam = record {
        inscription_id = id;
        offset = add64 g.total_input_value offset;
        origin = old satpoint;
      } in
      let unused : List (InscriptionId × UnusedTransfer) =
        elim (lookup_inscription id body.unused_brc20_transfers) [
          | none ↦ g.unused
          | some (tick, amt) ↦
              (id, record { tick = tick; amt = amt; sender = sender; old_satpoint = satpoint })
              ∷ g.unused
        ] in
      float_inscriptions txin body sender inscriptions
        (record g { floating = g.floating ++ f ∷ []; unused = unused })

  module _ (is_null : OutPoint → Bool) (resolver : TxoRef → Option TxoBody) (height : ℕ) where
    -- One input; the null outpoint of a coinbase brings the subsidy.
    unfoldable pub gather_input : TxIn → Gathered → Indexing Gathered
    unfolding float_inscriptions
    gather_input txin g =
        let outpoint = txin.previous_output in
        let txo_ref : TxoRef = record { txid = outpoint.txid; vout = outpoint.vout } in
        if is_null outpoint
        then done (record g {
          total_input_value = add64 g.total_input_value (codec.subsidy (height % 2 ^ 32));
        })
        else (elim (resolver txo_ref) [
          | none ↦ missing_txo txo_ref
          | some body ↦ do
            txout ← or_panic (codec.decode_txout body.raw)
            let sender = codec.script_hash txout.script_pubkey
            let g' = float_inscriptions txin body sender body.inscriptions g
            done (record g' { total_input_value = add64 g'.total_input_value txout.value })
        ])

    unfoldable pub gather : List TxIn → Gathered → Indexing Gathered
    unfolding gather_input
    gather [] g = done g
    gather (txin ∷ input) g = do g' ← gather_input txin g; gather input g'

  unfoldable pub none_at_start : List Flotsam → Bool
  none_at_start [] = true
  none_at_start (f ∷ flotsam) = let rest = none_at_start flotsam in not (f.offset == 0) && rest

  unfoldable pub sum_values : List (TxOut Script) → ℕ
  sum_values [] = 0
  sum_values (o ∷ outputs) = add64 (sum_values outputs) o.value

  abbrev pub scripts_of : Transaction Script → List (List ℕ)
  scripts_of tx = map (λ (i : TxIn). i.script_sig) tx.input
