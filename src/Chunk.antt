-- ===== src/Chunk.antt =====
-- Chunk framing (src/chunk_io).
pub mod Types
pub mod Parser
pub mod Encoder
pub mod Decoder
pub mod Wire
pub mod Packet
pub mod RoundTrip
pub mod Link
