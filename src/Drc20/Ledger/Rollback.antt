-- ===== src/Drc20/Ledger/Rollback.antt =====
-- Undoing the recorded messages (services/compressor-xdg/src/storage/mod.rs, `rollback`) restores the ledger.
use mathlib.Core.Path.{subst}
use maestro_dogecoin_indexer.Prelude.{
  ℕ, ◌≤◌, ◌≡◌, Option, some, List, [], ◌∷◌, All, bind-some, some_inj,
}
use maestro_dogecoin_indexer.Prelude.Words.{u128_max}
use maestro_dogecoin_indexer.Storage.{InscriptionId}
use maestro_dogecoin_indexer.Drc20.Actions.{RawProtocolMessage}
use maestro_dogecoin_indexer.Drc20.Ledger.{
  Brc20Tables, Brc20Db, UsedTransfer, Effects, use_transfers, process_message, process_messages,
  index_brc20,
}
use maestro_dogecoin_indexer.Drc20.Ledger.Cases.{
  Ends, refused, deployed, minted, reserved, process_message-Ends,
}
use maestro_dogecoin_indexer.Drc20.Ledger.Congruence.{
  AreWords, Undone, unchanged-Undone, followed-Undone,
}
use maestro_dogecoin_indexer.Drc20.Ledger.Undone.{
  use_transfers-Undone, deploy_message-Undone, mint_message-Undone, transfer_message-Undone,
}

module _ (tables : Brc20Tables) where
  module _ (lowercase_bytes : List ℕ → List ℕ) where
    message-Undone :
        (id : InscriptionId) (raw : RawProtocolMessage) (receiver : Option ℕ) (db : Brc20Db tables)
        (e : Effects tables)
        → Ends lowercase_bytes raw tables id receiver db e
        → AreWords tables db
        → Undone tables db e
    message-Undone id raw receiver db _ refused w = unchanged-Undone tables db w
    message-Undone id raw receiver db _ (deployed action terms p known) w =
        deploy_message-Undone tables id action terms db known w
    message-Undone id raw receiver db _ (minted action terms p known) w =
        mint_message-Undone tables id action terms receiver db w
    message-Undone id raw receiver db _ (reserved action terms p) w =
        transfer_message-Undone tables id action receiver db w

    process_messages-Undone :
        (messages : List (InscriptionId × RawProtocolMessage))
        (receivers : InscriptionId → Option ℕ) (db : Brc20Db tables) (e : Effects tables)
        → process_messages tables lowercase_bytes messages receivers db ≡ some e
        → AreWords tables db
        → Undone tables db e
    unfolding process_messages
    process_messages-Undone [] receivers db e h w =
        subst (Undone tables db) (some_inj h) (unchanged-Undone tables db w)
    process_messages-Undone ((id, raw) ∷ messages) receivers db e h w =
        let (first, e₁, f₁) =
          bind-some (process_message tables lowercase_bytes id raw (receivers id) db) _ h in
        let (rest, e₂, f₂) =
          bind-some (process_messages tables lowercase_bytes messages receivers first.db) _ f₁ in
        let k =
          message-Undone id raw (receivers id) db first
            (process_message-Ends lowercase_bytes raw tables id (receivers id) db first e₁) w in
        subst (Undone tables db) (some_inj f₂) (
          followed-Undone tables db first rest k
            (process_messages-Undone messages receivers first.db rest e₂ k.words))

    pub index_brc20-Undone :
        (used : List UsedTransfer) (messages : List (InscriptionId × RawProtocolMessage))
        (receivers : InscriptionId → Option ℕ) (db : Brc20Db tables) (e : Effects tables)
        → index_brc20 tables lowercase_bytes used messages receivers db ≡ some e
        → All (λ (u : UsedTransfer). u.amt ≤ u128_max) used
        → AreWords tables db
        → Undone tables db e
    unfolding index_brc20
    index_brc20-Undone used messages receivers db e h fit w =
        let first = use_transfers tables used db in
        let (rest, e₁, f₁) =
          bind-some (process_messages tables lowercase_bytes messages receivers first.db) _ h in
        let k = use_transfers-Undone tables used db fit w in
        let whole =
          followed-Undone tables db first rest k
            (process_messages-Undone messages receivers first.db rest e₁ k.words) in
        subst (Undone tables db) (some_inj f₁) whole
