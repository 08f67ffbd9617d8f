-- ===== src/Queue.antt =====
-- src/transfer/transfer-queue.ts: the durable queue of file transfers.
pub mod Types
pub mod Timing
pub mod Batch
pub mod Store
pub mod Progress
pub mod Control
pub mod Claim
pub mod Recover
pub mod Moves
pub mod Invariant
pub mod Tracks
pub mod Offers
pub mod Calls
mod Tests
