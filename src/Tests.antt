-- ===== src/Tests.antt =====
-- Runs of the model on small inputs.
pub mod Wire
pub mod Parts
mod Sessions
mod Handshakes
mod Media
