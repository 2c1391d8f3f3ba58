-- ===== src/Timbre.antt =====
-- The key and value encodings of the stored rows (crates/timbre-xbt).
pub mod Result
pub mod Bytes
pub mod Codec
pub mod Rows
pub mod RoundTrip
pub mod RowRoundTrip
pub mod Order
pub mod Range
mod Examples
