-- ===== src/Flv/Video.antt =====
-- Video message bodies (`ParsedVideo::demux` of src/flv.rs).
pub mod Packets
pub mod Tracks
pub mod Demux
