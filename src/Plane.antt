-- ===== src/Plane.antt =====
-- The data plane of src/transfer/laptop-data-plane.ts and src/transfer/http-data-plane.ts: chunks of
-- files over signed HTTP requests. The file system, AES-GCM and SHA-256 are parameters.
pub mod Decimal
pub mod Cipher
pub mod Sessions
pub mod Disk
pub mod State
pub mod Keeping
pub mod Rules
pub mod Upload
pub mod Download
pub mod Checkpoint
pub mod Samples
mod Tests
pub mod Routes
