-- ===== src/Sessions.antt =====
-- The parts of sessions (src/sessions).
pub mod Streams
pub mod Values
pub mod Limits
pub mod Data
pub mod Server
