-- ===== src/Gateway.antt =====
-- The gateway's own submission of withdrawals, apps/gateway/src/services/relay.ts, and its routes of
-- avatars and of balances, apps/gateway/src/routes/media.ts and analytics.ts.
pub mod Accounts
pub mod Balances
pub mod Media
pub mod Submission
mod Tests
