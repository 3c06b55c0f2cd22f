-- ===== src/Handshake.antt =====
-- The connection handshake (src/handshake).
pub mod Digest
pub mod Packets
pub mod Total
pub mod Pieces
pub mod Split
pub mod Safe
pub mod Recognised
pub mod Meeting
pub mod Rounds
