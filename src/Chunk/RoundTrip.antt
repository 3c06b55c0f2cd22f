-- ===== src/Chunk/RoundTrip.antt =====
-- What the encoder writes, read by the parser.
pub mod Headers
pub mod Begin
pub mod Fragment
pub mod Turns
pub mod Message
pub mod Whole
pub mod Sync
pub mod Kept
pub mod Decode
pub mod Sent
pub mod Delivery
pub mod Exchange
pub mod Partial
pub mod Resize
pub mod Connection
