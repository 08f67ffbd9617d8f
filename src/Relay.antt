-- ===== src/Relay.antt =====
-- src/relay: the payload pool, the clipboard pause and sync, the link gate, the origin checks.
pub mod Pool
pub mod Pause
pub mod Link
pub mod Origin
pub mod Clipboard
mod Tests
