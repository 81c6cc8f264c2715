-- ===== src/Names.antt =====
-- The names of users: packages/crypto/src/name-registry.ts, and the gateway's resolver, indexer and
-- routes of names, beside the checks of programs/name-registry.
pub mod Record
pub mod Validity
pub mod Hash
pub mod Resolver
pub mod Registration
pub mod Routes
pub mod Indexer
mod Tests
