-- ===== src/Inscriptions.antt =====
-- Inscriptions (services/compressor-xdg/src/storage/inscriptions): how one is read from the scripts of transactions, and
-- how the updater moves it.
pub mod Parser
pub mod Placement
pub mod Updater
pub mod Reveal
pub mod Moves
pub mod Index
mod Examples
