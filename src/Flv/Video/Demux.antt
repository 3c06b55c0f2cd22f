-- ===== src/Flv/Video/Demux.antt =====
-- `ParsedVideo::demux` (src/flv.rs).
use rtmpx.Prelude.{ℕ, suc, ◌/◌, ◌%◌, ◌==◌, if◌then◌else◌, Outcome, ok}
use rtmpx.Prelude.Bytes.{Byte}
use rtmpx.Prelude.Int.{ℤ}
use rtmpx.Flv.Cursor.{◌>>=◌, FlvError, CursorOps, read_u24, sign_extend_cts}
use rtmpx.Flv.Video.Packets.{validate_avc_decoder_config}
use rtmpx.Flv.Video.Tracks.{
  EnhancedVideoHeader, EnhancedVideoBody, enhanced_video_header, enhanced_video_body,
}

pub data LegacyAvcPacket : Type 0 where
  sequence_header : LegacyAvcPacket
  nalu : (composition_time_offset : ℤ) → LegacyAvcPacket
  end_of_sequence : LegacyAvcPacket
  unknown : (packet_type : Byte) → (composition_time_offset : ℕ) → LegacyAvcPacket

pub data LegacyVideoHeader : Type 0 where
  video_command : Byte → LegacyVideoHeader
  avc_packet : LegacyAvcPacket → LegacyVideoHeader
  other : (codec_id : Byte) → LegacyVideoHeader

pub data VideoTagHeaderData : Type 0 where
  legacy : LegacyVideoHeader → VideoTagHeaderData
  enhanced : EnhancedVideoHeader → VideoTagHeaderData

pub record VideoTagHeader : Type 0 where
  pub frame_type : Byte
  pub header_data : VideoTagHeaderData

pub data LegacyVideoBody (P : Type 0) : Type 0 where
  command : LegacyVideoBody P
  avc_sequence_header : P → LegacyVideoBody P
  other_body : P → LegacyVideoBody P

pub data VideoTagBody (P : Type 0) : Type 0 where
  legacy_body : LegacyVideoBody P → VideoTagBody P
  enhanced_body : EnhancedVideoBody P → VideoTagBody P

pub record ParsedVideo (P : Type 0) : Type 0 where
  pub header : VideoTagHeader
  pub body : VideoTagBody P

module _ {C P : Type 0} (ops : CursorOps C P) where
  unfoldable pub legacy_avc : C → Outcome FlvError ((LegacyVideoHeader × LegacyVideoBody P) × C)
  legacy_avc c = ops.read_u8 c >>= λ (packet_type, c1). read_u24 ops c1 >>= λ (time, c2).
      ops.take_rest c2 >>= λ (bytes, c3).
      if packet_type == 0
      then (validate_avc_decoder_config ops bytes >>= λ _.
          ok ((avc_packet sequence_header, avc_sequence_header bytes), c3))
      else if packet_type == 1
      then ok ((avc_packet (nalu (sign_extend_cts time)), other_body bytes), c3)
      else if packet_type == 2
      then ok ((avc_packet end_of_sequence, other_body bytes), c3)
      else ok ((avc_packet (unknown packet_type time), other_body bytes), c3)

  unfoldable pub legacy_video :
      ℕ → ℕ → C → Outcome FlvError ((LegacyVideoHeader × LegacyVideoBody P) × C)
  legacy_video frame_type codec_id c =
      if codec_id == 7
      then legacy_avc c
      else if frame_type == 5
      then (ops.read_u8 c >>= λ (b, c1). ok ((video_command b, command), c1))
      else (ops.take_rest c >>= λ (bytes, c1). ok ((other codec_id, other_body bytes), c1))

  -- `ParsedVideo::demux` on a new cursor.
  unfoldable pub demux_video : C → Outcome FlvError (ParsedVideo P × C)
  demux_video c = ops.read_u8 c >>= λ (first, c1).
      let frame_type = first / 16 % 8 in
      if first / 128 % 2 == 0
      then (legacy_video frame_type (first % 16) c1 >>= λ (parts, c2). ok (
        record {
          header = record { frame_type = frame_type; header_data = legacy parts.0 };
          body = legacy_body parts.1;
        },
        c2,
      ))
      else (enhanced_video_header ops (suc (ops.remaining c1)) c1 frame_type (first % 16)
          >>= λ (header, c2).
              enhanced_video_body ops (suc (ops.remaining c2)) header c2 >>= λ (body, c3). ok (
                record {
                  header = record { frame_type = frame_type; header_data = enhanced header };
                  body = enhanced_body body;
                },
                c3,
              ))
