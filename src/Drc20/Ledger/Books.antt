-- ===== src/Drc20/Ledger/Books.antt =====
-- The books over a whole transaction (services/compressor-xdg/src/storage/inscriptions/updater.rs).
use mathlib.Core.Path.{subst}
use maestro_dogecoin_indexer.Prelude.{
  ℕ, ◌+◌, ◌≡◌, ap, refl, some, List, [], ◌∷◌, ◌++◌, Option, arith, All, bind-some, some_inj,
}
use maestro_dogecoin_indexer.Storage.{InscriptionId}
use maestro_dogecoin_indexer.Drc20.Actions.{RawProtocolMessage}
use maestro_dogecoin_indexer.Drc20.ActionBounds.{parse_deploy_max}
use maestro_dogecoin_indexer.Drc20.Ledger.{
  Brc20Tables, Brc20Db, UsedTransfer, Effects, use_transfers, process_message, process_messages,
  index_brc20, followed,
}
use maestro_dogecoin_indexer.Drc20.Ledger.Cases.{
  Ends, refused, deployed, minted, reserved, process_message-Ends,
}
use maestro_dogecoin_indexer.Drc20.Ledger.Supply.{count, locked_amount, used_amount}
use maestro_dogecoin_indexer.Drc20.Ledger.Sound.{IsSound, use_transfers-IsSound}
use maestro_dogecoin_indexer.Drc20.Ledger.Sound.Deploy.{
  relocked, Keeps, unchanged-Keeps, deploy_message-Keeps,
}
use maestro_dogecoin_indexer.Drc20.Ledger.Sound.Mint.{mint_message-Keeps}
use maestro_dogecoin_indexer.Drc20.Ledger.Sound.Transfer.{transfer_message-Keeps}

locked_amount-append :
    (tick : List ℕ) (xs ys : List (InscriptionId × (List ℕ × ℕ)))
    → locked_amount tick (xs ++ ys) ≡ locked_amount tick xs + locked_amount tick ys
unfolding locked_amount
locked_amount-append tick [] ys = omega arith
locked_amount-append tick ((_, (t, amt)) ∷ xs) ys = omega (arith, locked_amount-append tick xs ys)

module _ (tables : Brc20Tables) (scripts : List ℕ) (lowercase_bytes : List ℕ → List ℕ) where
  message-Keeps :
      (id : InscriptionId) (raw : RawProtocolMessage) (receiver : Option ℕ) (db : Brc20Db tables)
      (locked : List ℕ → ℕ) (e : Effects tables)
      → Ends lowercase_bytes raw tables id receiver db e
      → ((r : ℕ) → receiver ≡ some r → count r scripts ≡ 1)
      → IsSound tables scripts db locked
      → Keeps tables scripts db locked e
  message-Keeps id raw receiver db locked _ refused listed sound =
      unchanged-Keeps tables scripts db locked sound
  message-Keeps id raw receiver db locked _ (deployed action terms p known) listed sound =
      deploy_message-Keeps tables scripts id action terms db locked known
        (parse_deploy_max lowercase_bytes raw action p) sound
  message-Keeps id raw receiver db locked _ (minted action terms p known) listed sound =
      mint_message-Keeps tables scripts id action terms receiver db locked known listed sound
  message-Keeps id raw receiver db locked _ (reserved action terms p) listed sound =
      transfer_message-Keeps tables scripts id action receiver db locked listed sound

  followed-Keeps :
      (db : Brc20Db tables) (locked : List ℕ → ℕ) (first rest : Effects tables)
      → Keeps tables scripts first.db
          (λ t. locked_amount t first.new_unused_transfers + locked t)
          rest
      → Keeps tables scripts db locked (followed tables first rest)
  unfolding Keeps
  followed-Keeps db locked first rest sound =
      relocked tables scripts rest.db _ _
        (λ t.
          omega
            (arith, locked_amount-append t first.new_unused_transfers rest.new_unused_transfers))
        sound

  process_messages-Keeps :
      (messages : List (InscriptionId × RawProtocolMessage)) (receivers : InscriptionId → Option ℕ)
      (db : Brc20Db tables) (locked : List ℕ → ℕ) (e : Effects tables)
      → process_messages tables lowercase_bytes messages receivers db ≡ some e
      → ((id : InscriptionId) (r : ℕ) → receivers id ≡ some r → count r scripts ≡ 1)
      → IsSound tables scripts db locked
      → Keeps tables scripts db locked e
  unfolding process_messages
  process_messages-Keeps [] receivers db locked e h listed sound =
      subst (Keeps tables scripts db locked) (some_inj h)
        (unchanged-Keeps tables scripts db locked sound)
  process_messages-Keeps ((id, raw) ∷ messages) receivers db locked e h listed sound =
      let (first, e₁, f₁) =
        bind-some (process_message tables lowercase_bytes id raw (receivers id) db) _ h in
      let (rest, e₂, f₂) =
        bind-some (process_messages tables lowercase_bytes messages receivers first.db) _ f₁ in
      let ends = process_message-Ends lowercase_bytes raw tables id (receivers id) db first e₁ in
      let k = message-Keeps id raw (receivers id) db locked first ends (listed id) sound in
      subst (Keeps tables scripts db locked) (some_inj f₂) (
        followed-Keeps db locked first rest
          (process_messages-Keeps messages receivers first.db _ rest e₂ listed (unfold Keeps in k)))

  use_transfers_lock_nothing :
      (used : List UsedTransfer) (db : Brc20Db tables)
      → (use_transfers tables used db).new_unused_transfers ≡ []
  unfolding use_transfers
  use_transfers_lock_nothing [] db = refl
  use_transfers_lock_nothing (u ∷ used) db = use_transfers_lock_nothing used _

  -- Let `scripts` list each script that a transaction credits once. Before it, let the supply of every ticker
  -- be at most the maximum in its terms, 0 without terms, of 128 bits, and equal to what the scripts
  -- hold and unused transfers lock, the transaction's used transfers among them. If the transaction does
  -- not panic, the same holds after it, where the used transfers lock nothing and its new ones do: no
  -- supply passes its maximum, and no token is lost or made but by a mint.
  pub index_brc20-IsSound :
      (used : List UsedTransfer) (messages : List (InscriptionId × RawProtocolMessage))
      (receivers : InscriptionId → Option ℕ) (db : Brc20Db tables) (others : List ℕ → ℕ)
      (e : Effects tables)
      → index_brc20 tables lowercase_bytes used messages receivers db ≡ some e
      → All (λ (u : UsedTransfer). count u.receiver scripts ≡ 1) used
      → ((id : InscriptionId) (r : ℕ) → receivers id ≡ some r → count r scripts ≡ 1)
      → IsSound tables scripts db (λ t. used_amount t used + others t)
      → IsSound tables scripts e.db (λ t. locked_amount t e.new_unused_transfers + others t)
  unfolding index_brc20 Keeps
  index_brc20-IsSound used messages receivers db others e h once listed sound =
      let first = use_transfers tables used db in
      let (rest, e₁, f₁) =
        bind-some (process_messages tables lowercase_bytes messages receivers first.db) _ h in
      let paid = use_transfers-IsSound tables scripts used db _ others once (λ t. refl) sound in
      let k = process_messages-Keeps messages receivers first.db others rest e₁ listed paid in
      subst
        (λ (x : Effects tables).
          IsSound tables scripts x.db (λ t. locked_amount t x.new_unused_transfers + others t))
        (some_inj f₁)
        (relocked tables scripts rest.db _ _
          (λ t.
            ap
              (λ (l : List (InscriptionId × (List ℕ × ℕ))).
                locked_amount t (l ++ rest.new_unused_transfers) + others t)
              (use_transfers_lock_nothing used db))
          k)
