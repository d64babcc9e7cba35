-- ===== src/Http.antt =====
-- httpidem/: the HTTP integration.
pub mod Errors
pub mod Key
pub mod Header
pub mod Stored
pub mod Recorder
pub mod Capture
pub mod Policy
pub mod Fingerprint
pub mod RequestBody
pub mod Exchange
pub mod Config
pub mod Replay
pub mod Middleware
mod Tests
