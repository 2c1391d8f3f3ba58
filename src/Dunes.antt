-- ===== src/Dunes.antt =====
-- The dune library of compressor-xdg (services/compressor-xdg/src/storage/runes/dunes): names and the
-- etching schedule, ids, flags and tags, edicts and the deciphering of a dunestone.
mod Examples
pub mod Constants
pub mod Name
pub mod Id
pub mod Dunestone
