-- ===== src/Flv/Same/Video.antt =====
-- A video body in segments parses like its bytes.
pub mod Packets
pub mod Tracks
pub mod Demux
