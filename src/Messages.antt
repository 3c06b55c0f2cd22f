-- ===== src/Messages.antt =====
-- The bodies of RTMP messages and their interpretation (src/messages).
pub mod Raw
pub mod Message
pub mod Control
pub mod Convert
pub mod RoundTrip
pub mod Total
