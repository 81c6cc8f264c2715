-- ===== src/Profiles.antt =====
-- The profiles: packages/sdk/src/compression/types.ts and the gateway's services and routes of
-- profiles.
pub mod Codec
pub mod Store
pub mod Gated
pub mod Routes
pub mod Tests
