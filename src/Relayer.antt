-- ===== src/Relayer.antt =====
-- packages/relayer: the HTTP service that queues withdrawal jobs and submits them to the chain.
pub mod Job
pub mod Queue
pub mod Poll
pub mod Routes
pub mod Instruction
pub mod Executor
mod Tests
