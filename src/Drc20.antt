-- ===== src/Drc20.antt =====
-- The messages of the DRC-20 tokens (services/compressor-xdg/src/storage/inscriptions/brc20.rs) and what
-- they do to the tables.
pub mod Decimal
pub mod Actions
pub mod DecimalValue
pub mod DecimalParts
pub mod Bounds
pub mod ActionBounds
pub mod NoPanic
pub mod Ledger
mod Examples
