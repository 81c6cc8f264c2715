-- ===== src/Indexer.antt =====
-- The gateway's indexer of deposits: apps/gateway/src/services/indexer.ts.
pub mod Subscriber
pub mod Events
mod Tests
