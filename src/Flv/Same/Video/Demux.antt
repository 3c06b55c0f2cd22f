-- ===== src/Flv/Same/Video/Demux.antt =====
-- A whole video body in segments parses like its bytes.
use rtmpx.Prelude.{ℕ, suc, ◌%◌, ◌/◌, length, ◌==◌, arith}
use rtmpx.Flv.Cursor.{CursorOps}
use rtmpx.Flv.Video.Tracks.{enhanced_video_body}
use rtmpx.Flv.Video.Demux.{
  LegacyVideoHeader, avc_packet, sequence_header, LegacyVideoBody, command, avc_sequence_header,
  other_body, VideoTagBody, legacy_body, enhanced_body, ParsedVideo, legacy_avc, legacy_video,
  demux_video,
}
use rtmpx.Flv.Same.{list_ops, View, Same, Any, Refines, Same-then, Same-if, Same-ok}
use rtmpx.Flv.Same.Reads.{read_u24-Same}
use rtmpx.Flv.Same.Video.Packets.{validate_avc_same, validate_avc-Returns, checked-Same}
use rtmpx.Flv.Same.Video.Tracks.{map_enhanced, enhanced_video_header-Same, video_body_of-Same}

module _ {P B : Type 0} (f : P → B) where
  abbrev pub map_legacy : LegacyVideoBody P → LegacyVideoBody B
  map_legacy command = command
  map_legacy (avc_sequence_header p) = avc_sequence_header (f p)
  map_legacy (other_body p) = other_body (f p)

  abbrev pub map_body : VideoTagBody P → VideoTagBody B
  map_body (legacy_body b) = legacy_body (map_legacy b)
  map_body (enhanced_body b) = enhanced_body (map_enhanced f b)

  -- The parsed body with each piece of data replaced.
  abbrev pub map_video : ParsedVideo P → ParsedVideo B
  map_video a = record { header = a.header; body = map_body a.body }

  abbrev map_parts : LegacyVideoHeader × LegacyVideoBody P → LegacyVideoHeader × LegacyVideoBody B
  map_parts (header, body) = (header, map_legacy body)

module _ {C P : Type 0} (ops : CursorOps C P) (v : View C P) (sim : Refines ops v) where
  open sim use {remaining_lem, read_u8_lem, take_rest_lem}

  legacy_avc-Same :
      (c : C)
      → v.good c
      → Same v
          (map_parts v.bytes_of)
          Any
          (v.rest_of c)
          0
          (legacy_avc ops c)
          (legacy_avc list_ops (v.rest_of c))
  unfolding legacy_avc
  legacy_avc-Same c good = Same-then _ _ (read_u8_lem c good) (λ packet_type c1 good1 _ short1.
      Same-then _ _ (read_u24-Same ops v sim c1 good1) (λ time c2 good2 _ short2.
        Same-then _ _ (take_rest_lem c2 good2) (λ p c3 good3 is_view short3.
          Same-if (packet_type == 0)
            (checked-Same ops v sim (avc_packet sequence_header, avc_sequence_header p) c3 _ _
              (validate_avc_same ops v sim p is_view) (validate_avc-Returns (v.bytes_of p)) good3
              (omega arith))
            (Same-if (packet_type == 1) (Same-ok _ c3 good3 tt (omega arith)) (
              Same-if (packet_type == 2) (Same-ok _ c3 good3 tt (omega arith))
                (Same-ok _ c3 good3 tt (omega arith)))))))

  legacy_video-Same :
      (frame_type codec_id : ℕ) (c : C)
      → v.good c
      → Same v
          (map_parts v.bytes_of)
          Any
          (v.rest_of c)
          0
          (legacy_video ops frame_type codec_id c)
          (legacy_video list_ops frame_type codec_id (v.rest_of c))
  unfolding legacy_video
  legacy_video-Same frame_type codec_id c good = Same-if (codec_id == 7) (legacy_avc-Same c good) (
      Same-if (frame_type == 5)
        (Same-then _ _ (read_u8_lem c good)
          (λ b c1 good1 _ short1. Same-ok _ c1 good1 tt (omega arith)))
        (Same-then _ _ (take_rest_lem c good)
          (λ p c1 good1 _ short1. Same-ok _ c1 good1 tt (omega arith))))

  -- Whatever holds the body, `demux` of video ends within its fuel and does not panic, and gives the
  -- error, or the parse, that the plain bytes give.
  pub demux_video-Same :
      (c : C)
      → v.good c
      → Same v
          (map_video v.bytes_of)
          Any
          (v.rest_of c)
          1
          (demux_video ops c)
          (demux_video list_ops (v.rest_of c))
  unfolding demux_video enhanced_video_body
  demux_video-Same c good = Same-then _ _ (read_u8_lem c good) (λ first c1 good1 _ short1.
      Same-if (first / 128 % 2 == 0)
        (Same-then _ _ (legacy_video-Same (first / 16 % 8) (first % 16) c1 good1)
          (λ parts c2 good2 _ short2. Same-ok _ c2 good2 tt (omega arith)))
        (rw (remaining_lem c1 good1) (
          Same-then _ _
            (enhanced_video_header-Same ops v sim (suc (length (v.rest_of c1))) c1 (first / 16 % 8)
              (first % 16) good1 (omega arith))
            (λ header c2 good2 _ short2. rw (remaining_lem c2 good2) (
              Same-then _ _
                (video_body_of-Same ops v sim header.content (suc (length (v.rest_of c2))) header c2
                  good2 (omega arith))
                (λ body c3 good3 _ short3. Same-ok _ c3 good3 tt (omega arith)))))))
