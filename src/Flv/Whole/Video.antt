-- ===== src/Flv/Whole/Video.antt =====
-- Video bodies in segments and at once.
use mathlib.Core.List.{map}
use rtmpx.Prelude.{◌≡◌, refl, sym, ap, ◌∙◌, List, [], ◌∷◌, Outcome, ok}
use rtmpx.Prelude.Bytes.{Byte}
use rtmpx.Payload.{Payload, segments, to_bytes}
use rtmpx.Payload.Segments.{IsValid}
use rtmpx.Payload.View.{PayloadView, view}
use rtmpx.Flv.Cursor.{◌>>=◌, FlvError, MediaData, bytes_data, cursor, cursor_ops}
use rtmpx.Flv.Video.Packets.{
  VideoPacket, sequence_start, mpeg2ts_sequence_start, coded_frames, coded_frames_x, metadata,
  sequence_end, unknown,
}
use rtmpx.Flv.Video.Tracks.{VideoTrack, EnhancedVideoBody, command, single_packet, tracks}
use rtmpx.Flv.Video.Demux
use rtmpx.Flv.Video.Demux.{
  avc_sequence_header, other_body, VideoTagBody, legacy_body, enhanced_body, ParsedVideo,
  demux_video,
}
use rtmpx.Flv.Same.Cursors.{IsLawful, cursor_view}
use rtmpx.Flv.Same.Takes.{cursor-Refines, at_start}
use rtmpx.Flv.Same.Video.Packets.{map_packet}
use rtmpx.Flv.Same.Video.Tracks.{map_track, map_enhanced}
use rtmpx.Flv.Same.Video.Demux.{map_body, map_video, demux_video-Same}
use rtmpx.Flv.Views.{view_data, IsView, view_bytes}
use rtmpx.Flv.Views.Sliced.{view_data-IsLawful}
use rtmpx.Flv.Views.New.{view_lem}
use rtmpx.Flv.Whole.{Whole, own_bytes, bytes_data-IsLawful, Agree, Agree-of}

-- `demux`, which drops its cursor.
unfoldable pub video_of : {P : Type 0} → MediaData P → P → Outcome FlvError (ParsedVideo P)
video_of m raw = demux_video (cursor_ops m) (cursor m raw) >>= λ (parsed, _). ok parsed

-- Replacing data by itself.
packet_same : (p : VideoPacket (List Byte)) → map_packet own_bytes p ≡ p
packet_same (sequence_start p) = refl
packet_same (mpeg2ts_sequence_start p) = refl
packet_same (coded_frames t p) = refl
packet_same (coded_frames_x p) = refl
packet_same (metadata p) = refl
packet_same sequence_end = refl
packet_same (unknown t p) = refl

tracks_same : (ts : List (VideoTrack (List Byte))) → map (map_track own_bytes) ts ≡ ts
tracks_same [] = refl
tracks_same (t ∷ ts) =
    ap (λ (q : VideoPacket (List Byte)). record t { packet = q } ∷ map (map_track own_bytes) ts)
      (packet_same t.packet)
    ∙ ap (λ l. t ∷ l) (tracks_same ts)

enhanced_same : (b : EnhancedVideoBody (List Byte)) → map_enhanced own_bytes b ≡ b
enhanced_same command = refl
enhanced_same (single_packet c p) = ap (λ q. single_packet c q) (packet_same p)
enhanced_same (tracks ts) = ap (λ l. tracks l) (tracks_same ts)

body_same : (b : VideoTagBody (List Byte)) → map_body own_bytes b ≡ b
body_same (legacy_body Demux.command) = refl
body_same (legacy_body (avc_sequence_header p)) = refl
body_same (legacy_body (other_body p)) = refl
body_same (enhanced_body b) = ap (λ c. enhanced_body c) (enhanced_same b)

video_same : (a : ParsedVideo (List Byte)) → map_video own_bytes a ≡ a
video_same a = ap (λ b. record a { body = b }) (body_same a.body)

-- Whatever lawful data holds a video body, `demux` does not panic, and gives the error that the
-- contiguous bytes give, or their parse with the data in the other form.
pub video-Agree :
    {P : Type 0} (m : MediaData P) (is_view : P → Type 0) (bytes_of : P → List Byte) (raw : P)
    → IsLawful m is_view bytes_of
    → is_view raw
    → Agree (map_video bytes_of) (video_of m raw) (video_of bytes_data (bytes_of raw))
unfolding video_of cursor
video-Agree m is_view bytes_of raw lawful good =
    Agree-of _ _ _ video_same
      (demux_video-Same (cursor_ops m) (cursor_view m is_view bytes_of lawful)
        (cursor-Refines m is_view bytes_of lawful) (record { raw = raw; pos = 0 })
        (at_start m is_view bytes_of lawful raw good))
      (demux_video-Same (cursor_ops bytes_data)
        (cursor_view bytes_data Whole own_bytes bytes_data-IsLawful)
        (cursor-Refines bytes_data Whole own_bytes bytes_data-IsLawful)
        (record { raw = bytes_of raw; pos = 0 })
        (at_start bytes_data Whole own_bytes bytes_data-IsLawful (bytes_of raw) tt))

-- The view of a valid payload can be taken, and its video parse does not panic: it is the parse of the
-- payload's contiguous bytes with views for data, or the same error.
pub video_of-view :
    (p : Payload)
    → IsValid p
    → (v : PayloadView) × (◌≡◌ {A = Outcome FlvError PayloadView} (view (segments p)) (ok v))
      × Agree (map_video view_bytes) (video_of view_data v) (video_of bytes_data (to_bytes p))
video_of-view p valid =
    let (v, made, is_view, bytes) = view_lem p valid in
    (v, made, rw (sym bytes) (video-Agree view_data IsView view_bytes v view_data-IsLawful is_view))
