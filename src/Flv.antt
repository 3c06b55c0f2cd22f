-- ===== src/Flv.antt =====
-- The parser of audio and video message bodies (src/flv.rs).
pub mod Cursor
pub mod Audio
pub mod Video
pub mod Same
pub mod Views
pub mod Whole
