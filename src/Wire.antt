-- ===== src/Wire.antt =====
-- src/shared/wire.ts: the messages and the guards that check them.
pub mod Types
pub mod Unary
pub mod Number
pub mod Patterns
pub mod Json
pub mod Guards
pub mod Encode
pub mod Frames
pub mod Browse
pub mod Messages
pub mod Read
pub mod Requests
mod Tests
