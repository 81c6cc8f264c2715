-- ===== src/Wallet.antt =====
-- The recipient's side: the scan of the deposits and the withdrawal, in apps/web/src/lib.
pub mod Scan
mod Tests
