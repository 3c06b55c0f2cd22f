-- ===== src/Flv/Video/Tracks.antt =====
-- The enhanced video header, and the packets behind it (src/flv.rs).
use rtmpx.Prelude.{
  ℕ, zero, suc, ◌/◌, ◌%◌, Bool, true, false, not, ◌&&◌, ◌||◌, List, [], ◌∷◌, ◌++◌, ◌==◌,
  if◌then◌else◌, Outcome, ok, err, stuck,
}
use rtmpx.Prelude.Bytes.{Byte}
use rtmpx.Flv.Cursor.{◌>>=◌, FlvError, nested_multitracks, CursorOps, read_fourcc, modex_loop}
use rtmpx.Flv.Video.Packets.{VideoFourCc, VideoPacket, video_packet}

pub data VideoHeaderContent : Type 0 where
  video_command : Byte → VideoHeaderContent
  no_multitrack : VideoFourCc → VideoHeaderContent
  one_track : VideoFourCc → VideoHeaderContent
  many_tracks : VideoFourCc → VideoHeaderContent
  many_tracks_many_codecs : VideoHeaderContent
  unknown_multitrack : (multitrack_type : Byte) → VideoFourCc → VideoHeaderContent

pub record EnhancedVideoHeader : Type 0 where
  pub packet_type : Byte
  pub has_unknown_modex : Bool
  pub content : VideoHeaderContent

pub record VideoTrack (P : Type 0) : Type 0 where
  pub four_cc : VideoFourCc
  pub track_id : Byte
  pub packet : VideoPacket P

pub data EnhancedVideoBody (P : Type 0) : Type 0 where
  command : EnhancedVideoBody P
  single_packet : VideoFourCc → VideoPacket P → EnhancedVideoBody P
  tracks : List (VideoTrack P) → EnhancedVideoBody P

abbrev no_four_cc : VideoFourCc
no_four_cc = 0 ∷ 0 ∷ 0 ∷ 0 ∷ []

abbrev pub video_content : ℕ → VideoFourCc → VideoHeaderContent
video_content multitrack_type four_cc =
    if multitrack_type == 0
    then one_track four_cc
    else if multitrack_type == 1
    then many_tracks four_cc
    else if multitrack_type == 2
    then many_tracks_many_codecs
    else unknown_multitrack multitrack_type four_cc

abbrev pub shared_four_cc : VideoHeaderContent → VideoFourCc
shared_four_cc (one_track f) = f
shared_four_cc (many_tracks f) = f
shared_four_cc (unknown_multitrack _ f) = f
shared_four_cc (video_command _) = no_four_cc
shared_four_cc (no_multitrack _) = no_four_cc
shared_four_cc many_tracks_many_codecs = no_four_cc

abbrev pub is_single : VideoHeaderContent → Bool
is_single (one_track f) = true
is_single _ = false

abbrev pub many_codecs : VideoHeaderContent → Bool
many_codecs many_tracks_many_codecs = true
many_codecs _ = false

module _ {C P : Type 0} (ops : CursorOps C P) where
  -- The multitrack byte and what follows it.
  unfoldable pub video_multitrack : C → Bool → Outcome FlvError (EnhancedVideoHeader × C)
  video_multitrack c flagged = ops.read_u8 c >>= λ (byte, c1).
      if byte % 16 == 6
      then err nested_multitracks
      else ((if byte / 16 == 2 then ok (no_four_cc, c1) else read_fourcc ops c1)
          >>= λ (four_cc, c2). ok (
            record {
              packet_type = byte % 16;
              has_unknown_modex = flagged;
              content = video_content (byte / 16) four_cc;
            },
            c2,
          ))

  -- `fuel` bounds the rounds of the loop over modifier extensions.
  unfoldable pub enhanced_video_header : ℕ → C → ℕ → ℕ → Outcome FlvError (EnhancedVideoHeader × C)
  enhanced_video_header fuel c frame_type initial =
      modex_loop ops fuel c initial false >>= λ ((packet_type, flagged), c1).
      if not (packet_type == 4) && (frame_type == 5)
      then (ops.read_u8 c1 >>= λ (b, c2). ok (
        record {
          packet_type = packet_type;
          has_unknown_modex = flagged;
          content = video_command b;
        },
        c2,
      ))
      else if packet_type == 6
      then video_multitrack c1 flagged
      else (read_fourcc ops c1 >>= λ (four_cc, c2). ok (
        record {
          packet_type = packet_type;
          has_unknown_modex = flagged;
          content = no_multitrack four_cc;
        },
        c2,
      ))

  -- One round of the loop over tracks.
  unfoldable pub video_track : EnhancedVideoHeader → C → Outcome FlvError (VideoTrack P × C)
  video_track header c =
      (if many_codecs header.content
        then read_fourcc ops c
        else ok (shared_four_cc header.content, c))
      >>= λ (four_cc, c1). ops.read_u8 c1 >>= λ (track_id, c2).
          video_packet ops header.packet_type four_cc (not (is_single header.content)) c2
          >>= λ (packet, c3).
              ok (record { four_cc = four_cc; track_id = track_id; packet = packet }, c3)

  unfoldable pub video_tracks :
      ℕ → EnhancedVideoHeader → C → List (VideoTrack P) → Outcome FlvError (List (VideoTrack P) × C)
  video_tracks zero header c found = stuck
  video_tracks (suc fuel) header c found = video_track header c >>= λ (track, c1).
      let rest = video_tracks fuel header c1 (found ++ track ∷ []) in
      if is_single header.content || (ops.remaining c1 == 0)
      then ok (found ++ track ∷ [], c1)
      else rest

  abbrev pub video_body_of :
      VideoHeaderContent → ℕ → EnhancedVideoHeader → C → Outcome FlvError (EnhancedVideoBody P × C)
  video_body_of (video_command _) fuel header c = ok (command, c)
  video_body_of (no_multitrack four_cc) fuel header c =
      video_packet ops header.packet_type four_cc false c >>= λ (packet, c1).
      ok (single_packet four_cc packet, c1)
  video_body_of _ fuel header c =
      video_tracks fuel header c [] >>= λ (found, c1). ok (tracks found, c1)

  unfoldable pub enhanced_video_body :
      ℕ → EnhancedVideoHeader → C → Outcome FlvError (EnhancedVideoBody P × C)
  enhanced_video_body fuel header c = video_body_of header.content fuel header c
