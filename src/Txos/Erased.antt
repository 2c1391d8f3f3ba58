-- ===== src/Txos/Erased.antt =====
-- The memory of `resolve_and_process` (services/compressor-xdg/src/storage/txos/mod.rs) as a cache of the table.
use maestro_dogecoin_indexer.Prelude.{
  ℕ, ◌+◌, ◌%◌, ◌^◌, ◌≡◌, ◌∙◌, ap, sym, refl, Option, some, none, List, [], ◌∷◌, inl, inr,
  Bool-cases, Option-cases, ltb, map, drop,
}
use maestro_dogecoin_indexer.Bitcoin.{BitcoinCrate, TxIn, TxOut, Transaction}
use maestro_dogecoin_indexer.Storage.{TxoRef, TxoBody, InscriptionId}
use maestro_dogecoin_indexer.DuneIndex.{Resolver, index_runes}
use maestro_dogecoin_indexer.DuneIndex.Tables
use maestro_dogecoin_indexer.Drc20.Ledger.{Brc20Tables}
use maestro_dogecoin_indexer.Inscriptions.Updater.{
  Codec, PartialTables, Indexing, done, missing_txo, bitcoin_decode, no_coinbase, panicked, ◌>>=◌,
  or_panic,
}
use maestro_dogecoin_indexer.Inscriptions.Index.{BlockState, index_inscriptions}
use maestro_dogecoin_indexer.Txos.Memory.{
  UtxoResolver, forget, remember, ref_of, input_refs, not_in_block, fetch,
}
use maestro_dogecoin_indexer.Txos.Fetch.{InMemory, fetch_same}
use maestro_dogecoin_indexer.Txos.{
  Setting, from_outcome, stored_dunes, Running, block_dunes, block_inscriptions, spend, add_outputs,
  process_tx, process_txs, process_block, started, resolve_and_process,
}

unfoldable pub map_done : {A B : Type 0} → (A → B) → Indexing A → Indexing B
map_done f (done a) = done (f a)
map_done f (missing_txo r) = missing_txo r
map_done f bitcoin_decode = bitcoin_decode
map_done f no_coinbase = no_coinbase
map_done f panicked = panicked

map_done-bind :
    {A B C D : Type 0} (m : Indexing A) (n : Indexing B) (h : A → B) (f : A → Indexing C)
    (k : B → Indexing D) (g : C → D)
    → map_done h m ≡ n
    → ((a : A) → map_done g (f a) ≡ k (h a))
    → map_done g (m >>= f) ≡ (n >>= k)
unfolding map_done
map_done-bind (done a) n h f k g e same = same a ∙ ap (λ (x : Indexing _). x >>= k) e
map_done-bind (missing_txo r) n h f k g e same = ap (λ (x : Indexing _). x >>= k) e
map_done-bind bitcoin_decode n h f k g e same = ap (λ (x : Indexing _). x >>= k) e
map_done-bind no_coinbase n h f k g e same = ap (λ (x : Indexing _). x >>= k) e
map_done-bind panicked n h f k g e same = ap (λ (x : Indexing _). x >>= k) e

map_done-id : {A : Type 0} (m : Indexing A) → map_done (λ (a : A). a) m ≡ m
unfolding map_done
map_done-id (done a) = refl
map_done-id (missing_txo r) = refl
map_done-id bitcoin_decode = refl
map_done-id no_coinbase = refl
map_done-id panicked = refl

fetch_forgetful :
    (txos : TxoRef → Option TxoBody) (refs : List TxoRef) → (fetch txos refs none).1 ≡ none
unfolding fetch forget
fetch_forgetful txos [] = refl
fetch_forgetful txos (r ∷ refs) = fetch_forgetful txos refs

module _ (crate : BitcoinCrate) (codec : Codec crate.Script) (lowercase_bytes : List ℕ → List ℕ)
    (partials : PartialTables) (tables : Brc20Tables) (dune_tables : Tables.Tables)
    (setting : Setting crate.Script) where
  abbrev Run : Type 0
  Run = Running crate codec lowercase_bytes partials tables dune_tables

  -- Without its memory.
  unfoldable pub erased : Run → Run
  erased s = record s { memory = none }

  abbrev erased_dunes : List (List (ℕ × ℕ)) × Run → List (List (ℕ × ℕ)) × Run
  erased_dunes p = (p.0, erased p.1)

  abbrev erased_inscriptions :
      List (List (ℕ × InscriptionId)) × List (InscriptionId × (List ℕ × ℕ)) × Run
      → List (List (ℕ × InscriptionId)) × List (InscriptionId × (List ℕ × ℕ)) × Run
  erased_inscriptions p = (p.0, p.1, erased p.2)

  block_dunes-erased :
      (i : ℕ) (tx : Transaction crate.Script) (s : Run)
      → map_done erased_dunes
          (block_dunes crate codec lowercase_bytes partials tables dune_tables setting i tx s)
        ≡ block_dunes crate codec lowercase_bytes partials tables dune_tables setting i tx
            (erased s)
  unfolding block_dunes erased map_done
  block_dunes-erased i tx s = elim (Bool-cases (ltb setting.height setting.first_rune_height)) [
    | inl before ↦ rw before refl
    | inr since ↦ rw since (
        map_done-bind
          (from_outcome (
            index_runes crate dune_tables setting.halving s.resolver s.dunes (i % 2 ^ 32) tx
              setting.height setting.network))
          _ (λ r. r) _ _ erased_dunes (map_done-id _) (λ ran. refl))
  ]

  block_inscriptions-erased :
      (tx : Transaction crate.Script) (txid : ℕ) (s : Run)
      → map_done erased_inscriptions (
          block_inscriptions crate codec lowercase_bytes partials tables dune_tables setting tx txid
            s)
        ≡ block_inscriptions crate codec lowercase_bytes partials tables dune_tables setting tx txid
            (erased s)
  unfolding block_inscriptions erased map_done
  block_inscriptions-erased tx txid s =
      elim (Bool-cases (ltb setting.height setting.first_inscription_height)) [
        | inl before ↦ rw before refl
        | inr since ↦ rw since (
            map_done-bind
              (index_inscriptions crate codec lowercase_bytes partials tables s.resolver tx txid
                setting.height s.state)
              _ (λ r. r) _ _ erased_inscriptions (map_done-id _) (λ ran. refl))
      ]

  spend-erased :
      (input : List TxIn) (s : Run)
      → map_done erased
          (spend crate codec lowercase_bytes partials tables dune_tables setting input s)
        ≡ spend crate codec lowercase_bytes partials tables dune_tables setting input (erased s)
  unfolding spend erased map_done forget
  spend-erased [] s = refl
  spend-erased (i ∷ input) s = elim (Option-cases (s.resolver (ref_of i))) [
    | inl missing ↦ rw (map_done, spend, missing) refl
    | inr (body, found) ↦ rw (map_done, spend, found) (spend-erased input _)
  ]

  add_outputs-erased :
      (txid vout : ℕ) (outputs : List (TxOut crate.Script)) (dunes : List (List (ℕ × ℕ)))
      (inscriptions : List (List (ℕ × InscriptionId)))
      (transfers : List (InscriptionId × (List ℕ × ℕ))) (s : Run)
      → map_done erased (
          add_outputs crate codec lowercase_bytes partials tables dune_tables setting txid vout
            outputs dunes inscriptions transfers s)
        ≡ add_outputs crate codec lowercase_bytes partials tables dune_tables setting txid vout
            outputs dunes inscriptions transfers
            (erased s)
  unfolding add_outputs erased map_done remember
  add_outputs-erased txid vout [] dunes inscriptions transfers s = refl
  add_outputs-erased txid vout (o ∷ outputs) [] inscriptions transfers s = refl
  add_outputs-erased txid vout (o ∷ outputs) (d ∷ dunes) [] transfers s = refl
  add_outputs-erased txid vout (o ∷ outputs) (d ∷ dunes) (i ∷ inscriptions) transfers s =
      map_done-bind (or_panic (stored_dunes d)) _ (λ r. r) _ _ erased (map_done-id _)
        (λ stored. add_outputs-erased txid (vout + 1) outputs dunes inscriptions transfers _)

  process_tx-erased :
      (i : ℕ) (tx : Transaction crate.Script) (s : Run)
      → map_done erased
          (process_tx crate codec lowercase_bytes partials tables dune_tables setting i tx s)
        ≡ process_tx crate codec lowercase_bytes partials tables dune_tables setting i tx (erased s)
  unfolding process_tx
  process_tx-erased i tx s =
      map_done-bind _ _ erased_dunes _ _ erased (block_dunes-erased i tx s) (λ d.
        map_done-bind _ _ erased_inscriptions _ _ erased
          (block_inscriptions-erased tx (setting.txid tx) d.1)
          (λ n.
            map_done-bind _ _ erased _ _ erased (spend-erased tx.input n.2)
              (λ spent. add_outputs-erased (setting.txid tx) 0 tx.output d.0 n.0 n.1 spent)))

  process_txs-erased :
      (i : ℕ) (txs : List (Transaction crate.Script)) (s : Run)
      → map_done erased
          (process_txs crate codec lowercase_bytes partials tables dune_tables setting i txs s)
        ≡ process_txs crate codec lowercase_bytes partials tables dune_tables setting i txs
            (erased s)
  unfolding process_txs map_done
  process_txs-erased i [] s = refl
  process_txs-erased i (tx ∷ txs) s =
      map_done-bind _ _ erased _ _ erased (process_tx-erased i tx s)
        (λ next. process_txs-erased (i + 1) txs next)

  process_block-erased :
      (txs : List (Transaction crate.Script)) (coinbase : Transaction crate.Script) (txid : ℕ)
      (s : Run)
      → map_done erased (
          process_block crate codec lowercase_bytes partials tables dune_tables setting txs coinbase
            txid s)
        ≡ process_block crate codec lowercase_bytes partials tables dune_tables setting txs coinbase
            txid
            (erased s)
  unfolding process_block
  process_block-erased txs coinbase txid s =
      map_done-bind _ _ erased_dunes _ _ erased (block_dunes-erased 0 coinbase s) (λ d.
        map_done-bind _ _ erased _ _ erased (process_txs-erased 1 (drop 1 txs) d.1) (λ processed.
          map_done-bind _ _ erased_inscriptions _ _ erased
            (block_inscriptions-erased coinbase txid processed)
            (λ n. add_outputs-erased txid 0 coinbase.output d.0 n.0 n.1 n.2)))

  first-erased :
      (txs : List (Transaction crate.Script)) (f g : ℕ → Indexing Run)
      → ((txid : ℕ) → map_done erased (f txid) ≡ g txid)
      → map_done erased (elim (map setting.txid txs) [ [] ↦ panicked | txid ∷ _ ↦ f txid ])
        ≡ (elim (map setting.txid txs) [ [] ↦ panicked | txid ∷ _ ↦ g txid ])
  unfolding map_done
  first-erased [] f g same = refl
  first-erased (tx ∷ txs) f g same = same (setting.txid tx)

  -- Let every output in memory be in the table of outputs, with the same body. Then `resolve_and_process` answers for
  -- a block what it answers with no memory, on every error too, but for the memory itself.
  pub resolve_and_process-erased :
      (txos : TxoRef → Option TxoBody) (txs : List (Transaction crate.Script))
      (memory : Option UtxoResolver)
      (state : BlockState crate codec lowercase_bytes partials tables)
      (dunes : Tables.Db dune_tables)
      → InMemory (λ (r : TxoRef) (body : TxoBody). txos r ≡ some body) memory
      → map_done erased (
          resolve_and_process crate codec lowercase_bytes partials tables dune_tables setting txos
            txs memory state dunes)
        ≡ resolve_and_process crate codec lowercase_bytes partials tables dune_tables setting txos
            txs none state dunes
  unfolding resolve_and_process map_done erased started
  resolve_and_process-erased txos txs memory state dunes stored =
      let refs = not_in_block (map setting.txid txs) (input_refs txs) in
      elim (Option-cases (setting.coinbase txs)) [
        | inl nowhere ↦ rw (map_done, resolve_and_process, nowhere) refl
        | inr (coinbase, there) ↦
            let run = λ (txid : ℕ) (r : Resolver) (m : Option UtxoResolver).
              process_block crate codec lowercase_bytes partials tables dune_tables setting txs
                coinbase txid
                (started crate codec lowercase_bytes partials tables dune_tables setting state dunes
                  (r, m)) in
            rw (map_done, resolve_and_process, there)
              (first-erased txs _ _ (λ txid.
                process_block-erased txs coinbase txid _
                ∙ ap (λ (r : Resolver). run txid r none) (fetch_same txos refs memory stored)
                ∙ ap (run txid (fetch txos refs none).0) (sym (fetch_forgetful txos refs))))
      ]
