-- ===== src/Inscriptions/Reveal.antt =====
-- The inscription that a transaction reveals or goes on with, in `index_inscriptions`
-- (services/compressor-xdg/src/storage/inscriptions/updater.rs).
use maestro_dogecoin_indexer.Prelude.{
  ℕ, Option, none, some, List, [], ◌∷◌, ◌++◌, map, if◌then◌else◌, unwrap_or,
}
use maestro_dogecoin_indexer.Prelude.Words.{sub64}
use maestro_dogecoin_indexer.Bitcoin.{TxIn, Transaction}
use maestro_dogecoin_indexer.Storage.{InscriptionId}
use maestro_dogecoin_indexer.Drc20.Actions.{RawProtocolMessage}
use maestro_dogecoin_indexer.Inscriptions.Parser.{
  Inscription, ParsedInscription, absent, partial, complete, from_transactions,
}
use maestro_dogecoin_indexer.Inscriptions.Placement.{Flotsam, new}
use maestro_dogecoin_indexer.Inscriptions.Updater.{
  Codec, Counters, NewInscriptionInfo, PartialTables, PartialDb, Gathered, Indexing, done,
  bitcoin_decode, panicked, ◌>>=◌, or_panic, content_type, unparsed_message, none_at_start,
  sum_values, scripts_of,
}

module _ {Script : Type 0} (codec : Codec Script) (tables : PartialTables) where
  -- The floating inscriptions, the new message and the new inscription, and the tables of partial ones.
  pub record Revealed : Type 0 where
    pub partials : PartialDb tables
    pub floating : List Flotsam
    pub brc_20_inscriptions : List (InscriptionId × RawProtocolMessage)
    pub new_inscriptions : List NewInscriptionInfo

  -- The earlier transactions of a partial inscription, and this one behind them.
  unfoldable pub load_transactions :
      PartialDb tables → Transaction Script → List ℕ → Indexing (List (Transaction Script))
  load_transactions db tx [] = done (tx ∷ [])
  load_transactions db tx (txid ∷ txids) = do
    bytes ← or_panic (tables.Bytes.get_by_key db.bytes txid)
    first ← (elim (codec.decode_transaction bytes) [ none ↦ bitcoin_decode | some t ↦ done t ])
    rest ← load_transactions db tx txids
    done (first ∷ rest)

  abbrev pub first_of : List ℕ → ℕ → ℕ
  first_of [] txid = txid
  first_of (t ∷ txids) txid = t

  -- A partial inscription is stored under this transaction, behind the txids before it.
  unfoldable pub store_partial :
      ℕ → Transaction Script → List ℕ → PartialDb tables → PartialDb tables
  store_partial txid tx txids db = record {
    txids = tables.Txids.stage_upsert db.txids txid (txids ++ txid ∷ []);
    bytes = tables.Bytes.stage_upsert db.bytes txid (codec.encode_transaction tx);
  }

  unfoldable pub new_messages :
      InscriptionId → Option RawProtocolMessage → List (InscriptionId × RawProtocolMessage)
  new_messages id none = []
  new_messages id (some m) = (id, m) ∷ []

  -- A whole inscription floats at offset 0; its id is the txid of its first transaction.
  unfoldable pub reveal :
      ℕ
      → Transaction Script
      → ℕ
      → Counters
      → List ℕ
      → PartialDb tables
      → List Flotsam
      → Inscription
      → Revealed
  unfolding unparsed_message content_type sum_values new_messages
  reveal txid tx total_input_value counters txids db floating inscription =
      let id : InscriptionId = record { txid = first_of txids txid; index = 0 } in
      record {
        partials = db;
        floating =
            floating
            ++ record {
              inscription_id = id;
              offset = 0;
              origin = new (sub64 total_input_value (sum_values codec tx.output));
            }
              ∷ [];
        brc_20_inscriptions = new_messages id (unparsed_message codec inscription);
        new_inscriptions =
            record {
              tx_hash = txid;
              id = id;
              number = counters.next_sequence_num;
              body = inscription.body;
              body_type = unwrap_or (content_type inscription) [];
            }
            ∷ [];
      }

  abbrev pub nothing_revealed : PartialDb tables → List Flotsam → Revealed
  nothing_revealed db floating = record {
    partials = db;
    floating = floating;
    brc_20_inscriptions = [];
    new_inscriptions = [];
  }

  unfoldable pub by_parsed :
      ℕ
      → Transaction Script
      → ℕ
      → Counters
      → List ℕ
      → PartialDb tables
      → List Flotsam
      → ParsedInscription
      → Revealed
  unfolding store_partial reveal
  by_parsed txid tx total counters txids db floating absent = nothing_revealed db floating
  by_parsed txid tx total counters txids db floating partial =
      nothing_revealed (store_partial txid tx txids db) floating
  by_parsed txid tx total counters txids db floating (complete inscription) =
      reveal txid tx total counters txids db floating inscription

  -- The first input is where a partial inscription went on.
  unfoldable pub inscribe :
      ℕ
      → Transaction Script
      → ℕ
      → Counters
      → PartialDb tables
      → List Flotsam
      → List TxIn
      → Indexing Revealed
  unfolding load_transactions by_parsed
  inscribe txid tx total counters db floating [] = panicked
  inscribe txid tx total counters db floating (first ∷ _) = do
    let txids = unwrap_or (tables.Txids.get_by_key db.txids first.previous_output.txid) []
    txs ← load_transactions db tx txids
    done (
        by_parsed txid tx total counters txids db floating
          (from_transactions (map (scripts_of codec) txs)))

  -- A transaction with no inscription at offset 0 of its inputs may reveal one.
  unfoldable pub try_inscribe :
      ℕ → Transaction Script → Counters → PartialDb tables → Gathered → Indexing Revealed
  unfolding none_at_start inscribe
  try_inscribe txid tx counters db g =
      if none_at_start codec g.floating
      then inscribe txid tx g.total_input_value counters db g.floating tx.input
      else done (nothing_revealed db g.floating)
