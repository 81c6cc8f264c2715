-- ===== src/Withdraw.antt =====
-- What a recipient computes for a withdrawal: packages/sdk/src/pool/proof.ts, as apps/web has it too.
pub mod Hex
pub mod Merkle
pub mod Flow
mod Tests
