-- ===== src/Deposit.antt =====
-- How the web app makes a deposit: packages/types/src/index.ts and apps/web/src/lib/deposit.ts.
pub mod Tiers
pub mod Tests
pub mod Transaction
pub mod Execution
