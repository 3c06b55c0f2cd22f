-- ===== src/Flv/Same/Video/Tracks.antt =====
-- The enhanced video header and its tracks in segments parse like their bytes.
use mathlib.Core.List.{map, map-append}
use rtmpx.Prelude.{
  ℕ, zero, suc, ◌%◌, ◌/◌, ◌<◌, sym, Bool, false, not, ◌&&◌, ◌||◌, List, [], ◌∷◌, ◌++◌, length, ◌==◌,
  ok, arith,
}
use rtmpx.Flv.Cursor.{◌>>=◌, CursorOps}
use rtmpx.Flv.Video.Tracks.{
  VideoHeaderContent, video_command, no_multitrack, one_track, many_tracks, many_tracks_many_codecs,
  unknown_multitrack, EnhancedVideoHeader, VideoTrack, EnhancedVideoBody, command, single_packet,
  tracks, is_single, many_codecs, video_multitrack, enhanced_video_header, video_track,
  video_tracks, video_body_of,
}
use rtmpx.Flv.Same.{
  list_ops, View, Same, fails, Any, same_value, Refines, Same-then, Same-weaken, Same-if, Same-ok,
}
use rtmpx.Flv.Same.Reads.{given_or_read, read_or_shared, read_fourcc-Same, modex_loop-Same}
use rtmpx.Flv.Same.Video.Packets.{map_packet, video_packet-Same}

abbrev pub map_track : {P B : Type 0} (f : P → B) → VideoTrack P → VideoTrack B
map_track f t = record {
  four_cc = t.four_cc;
  track_id = t.track_id;
  packet = map_packet f t.packet;
}

abbrev pub map_enhanced : {P B : Type 0} (f : P → B) → EnhancedVideoBody P → EnhancedVideoBody B
map_enhanced f command = command
map_enhanced f (single_packet c p) = single_packet c (map_packet f p)
map_enhanced f (tracks ts) = tracks (map (map_track f) ts)

module _ {C P : Type 0} (ops : CursorOps C P) (v : View C P) (sim : Refines ops v) where
  open sim use {remaining_lem, read_u8_lem}

  video_multitrack-Same :
      (c : C) (flagged : Bool)
      → v.good c
      → Same v same_value Any
          (v.rest_of c)
          0
          (video_multitrack ops c flagged)
          (video_multitrack list_ops (v.rest_of c) flagged)
  unfolding video_multitrack
  video_multitrack-Same c flagged good =
      Same-then _ _ (read_u8_lem c good) (λ byte c1 good1 _ short1. Same-if (byte % 16 == 6) fails (
        Same-then _ _ (given_or_read ops v sim (byte / 16 == 2) _ c1 good1)
          (λ four_cc c2 good2 _ short2. Same-ok _ c2 good2 tt (omega arith))))

  pub enhanced_video_header-Same :
      (fuel : ℕ) (c : C) (frame_type initial : ℕ)
      → v.good c
      → length (v.rest_of c) < fuel
      → Same v same_value Any
          (v.rest_of c)
          0
          (enhanced_video_header ops fuel c frame_type initial)
          (enhanced_video_header list_ops fuel (v.rest_of c) frame_type initial)
  unfolding enhanced_video_header
  enhanced_video_header-Same fuel c frame_type initial good enough =
      Same-then _ _ (modex_loop-Same ops v sim fuel c initial false good enough)
        (λ step c1 good1 _ short1.
          Same-if (not (step.0 == 4) && (frame_type == 5))
            (Same-then _ _ (read_u8_lem c1 good1)
              (λ b c2 good2 _ short2. Same-ok _ c2 good2 tt (omega arith)))
            (Same-if (step.0 == 6)
              (Same-weaken (omega arith) (video_multitrack-Same c1 step.1 good1))
              (Same-then _ _ (read_fourcc-Same ops v sim c1 good1)
                (λ four_cc c2 good2 _ short2. Same-ok _ c2 good2 tt (omega arith)))))

  video_track-Same :
      (header : EnhancedVideoHeader) (c : C)
      → v.good c
      → Same v
          (map_track v.bytes_of)
          Any
          (v.rest_of c)
          1
          (video_track ops header c)
          (video_track list_ops header (v.rest_of c))
  unfolding video_track
  video_track-Same header c good =
      Same-then _ _ (read_or_shared ops v sim (many_codecs header.content) _ c good)
        (λ four_cc c1 good1 _ short1.
          Same-then _ _ (read_u8_lem c1 good1) (λ track_id c2 good2 _ short2.
            Same-then _ _
              (video_packet-Same ops v sim header.packet_type four_cc
                (not (is_single header.content)) c2 good2)
              (λ packet c3 good3 _ short3. Same-ok _ c3 good3 tt (omega arith))))

  video_tracks-Same :
      (fuel : ℕ) (header : EnhancedVideoHeader) (c : C) (found : List (VideoTrack P))
      → v.good c
      → length (v.rest_of c) < fuel
      → Same v
          (map (map_track v.bytes_of))
          Any
          (v.rest_of c)
          0
          (video_tracks ops fuel header c found)
          (video_tracks list_ops fuel header (v.rest_of c) (map (map_track v.bytes_of) found))
  unfolding video_tracks
  video_tracks-Same zero header c found good enough = elim enough [ ]
  video_tracks-Same (suc fuel) header c found good enough =
      Same-then _ _ (video_track-Same header c good) (λ track c1 good1 _ short1.
        rw (remaining_lem c1 good1, sym (map-append (map_track v.bytes_of) found (track ∷ [])))
          (Same-if (is_single header.content || (length (v.rest_of c1) == 0))
            (Same-ok _ c1 good1 tt (omega arith))
            (Same-weaken (omega arith)
              (video_tracks-Same fuel header c1 (found ++ track ∷ []) good1 (omega arith)))))

  many-Same :
      (fuel : ℕ) (header : EnhancedVideoHeader) (c : C)
      → v.good c
      → length (v.rest_of c) < fuel
      → Same v
          (map_enhanced v.bytes_of)
          Any
          (v.rest_of c)
          0
          (video_tracks ops fuel header c [] >>= λ (found, c1). ok (tracks found, c1))
          (video_tracks list_ops fuel header (v.rest_of c) [] >>= λ (found, c1).
            ok (tracks found, c1))
  many-Same fuel header c good enough =
      Same-then _ _ (video_tracks-Same fuel header c [] good enough)
        (λ found c1 good1 _ short1. Same-ok _ c1 good1 tt (omega arith))

  pub video_body_of-Same :
      (content : VideoHeaderContent) (fuel : ℕ) (header : EnhancedVideoHeader) (c : C)
      → v.good c
      → length (v.rest_of c) < fuel
      → Same v
          (map_enhanced v.bytes_of)
          Any
          (v.rest_of c)
          0
          (video_body_of ops content fuel header c)
          (video_body_of list_ops content fuel header (v.rest_of c))
  video_body_of-Same (video_command b) fuel header c good enough = Same-ok _ c good tt (omega arith)
  video_body_of-Same (no_multitrack four_cc) fuel header c good enough =
      Same-then _ _ (video_packet-Same ops v sim header.packet_type four_cc false c good)
        (λ packet c1 good1 _ short1. Same-ok _ c1 good1 tt (omega arith))
  video_body_of-Same (one_track _) fuel header c good enough = many-Same fuel header c good enough
  video_body_of-Same (many_tracks _) fuel header c good enough = many-Same fuel header c good enough
  video_body_of-Same many_tracks_many_codecs fuel header c good enough =
      many-Same fuel header c good enough
  video_body_of-Same (unknown_multitrack _ _) fuel header c good enough =
      many-Same fuel header c good enough
