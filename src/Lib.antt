-- ===== src/Lib.antt =====
-- The Dogecoin indexer of Maestro: what its services compute about dunes, inscriptions and
-- DRC-20 tokens, in the model of a program without its database, network and threads.
--
-- `services/compressor-xdg` follows a node, keeps the chain's outputs with the dunes and inscriptions on
-- them, and serves blocks to `services/polyphony-xdg`, whose reducers write the rows that
-- `services/mapi-xdg` answers requests from. `services/tikv-gc` deletes old versions of those rows.
-- A dunestone is a message in an OP_RETURN output of a transaction. It is read with no other state, and the
-- updater then moves the dunes of the inputs to the outputs of the transaction as the dunestone says.
--
-- Files, and the code that each is about:
--   Varint         `encode`, `encode_to_vec` and `decode` of
--                  services/compressor-xdg/src/storage/runes/dunes/varint.rs
--   Bitcoin        the scripts and transactions of the bitcoin crate; its script functions are fields
--                  of the interface `BitcoinCrate`
--   Dunes          the rest of services/compressor-xdg/src/storage/runes/dunes: Dunes.Name is dune.rs,
--                  Dunes.Id is dune_id.rs and `claim`, Dunes.Dunestone with its children is dunestone.rs,
--                  tag.rs, flag.rs, edict.rs, etching.rs and terms.rs. The folder
--                  services/polyphony-xdg/src/dunes has the same code.
--   Storage        the key-value tables of services/compressor-xdg/src/storage/kvtable.rs as an
--                  interface, and the shared keys and values of storage/mod.rs; Storage.MapTable
--                  is a table that is a function, Storage.Intersect `intersect_options`
--   DuneIndex      services/compressor-xdg/src/storage/runes/updater.rs: Mint is `mint` and the claims, Etch
--                  is `etched` and `create_rune_entry`, Edicts the loop over the edicts, Settle what is
--                  left over, DuneIndex itself `unallocated` and `index_runes`;
--                  DuneIndex.Undo is what `ChainDB::rollback` of storage/mod.rs undoes of a dunestone
--   Drc20          services/compressor-xdg/src/storage/inscriptions/brc20.rs: Drc20.Decimal is
--                  `parse_decimal`, Drc20.Actions the parsers of deploys, mints and transfers;
--                  Drc20.Ledger is what messages do to balances, supplies and terms in
--                  `index_inscriptions`, and their undo in `ChainDB::rollback` of storage/mod.rs
--   Inscriptions   services/compressor-xdg/src/storage/inscriptions: Inscriptions.Parser is
--                  inscription.rs, the rest is `index_inscriptions` of updater.rs: Updater its inputs and
--                  `unparsed_message` of brc20.rs, Reveal the inscription that a transaction reveals or
--                  goes on with, Placement where inscriptions go, Moves their new locations and the
--                  counters, Index the whole function
--   Txos           services/compressor-xdg/src/storage/txos/mod.rs: `resolve_and_process`, which runs both updaters
--                  over a block; Txos.Memory is `UtxoResolver` of sync/roll.rs and the fetch of the inputs, Txos.Apply
--                  what `apply_block_with_context` and `rollback` of storage/mod.rs do to the table of outputs
--   MutableLog     services/compressor-xdg/src/storage/mutable/mod.rs: the log of recent steps, its pruning
--                  and the search for a block
--   Rollback       services/polyphony-xdg/src/rollback/buffer.rs
--   Timbre         crates/timbre-xbt/src: Timbre.Codec and Timbre.Rows are encdec/encode.rs and
--                  encdec/decode.rs, Timbre.Range is `prefix_key_range` of lib.rs
--
-- Machine integers are natural numbers with their wrap-around written out (Prelude.Words): the release
-- profile has no overflow checks, so `+=` on a u128 wraps. A hash map is an association list in the order
-- of its insertions, so the source's unspecified order of iteration is one fixed order here. A panic of the
-- source is `none` or `panicked`. The loops of the code
-- are recursion on lists, but for six that run on fuel: the encoder and the printer of a name, whose fuel
-- 18 and 28 is enough for a u128, the printer of a u64 in `parse_decimal`, whose fuel is the 20 digits
-- of the largest, the heights of `intersect_options`, whose fuel is one more than the tip,
-- and the loops over a payload and over a script, whose fuel is its length since each round
-- takes a byte.
--
-- Not modelled: RocksDB and TiKV, gRPC and HTTP, threads and channels, logging, metrics, and serde's
-- formats.
pub mod Prelude
pub mod Varint
pub mod Bitcoin
pub mod Dunes
pub mod Storage
pub mod DuneIndex
pub mod Timbre
pub mod Rollback
pub mod Drc20
pub mod MutableLog
pub mod Inscriptions
pub mod Txos
