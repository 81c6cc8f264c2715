-- ===== src/Notes.antt =====
-- The encrypted notes of deposits: packages/crypto.
pub mod Encryption
mod Tests
pub mod Viewing
