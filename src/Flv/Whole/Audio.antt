-- ===== src/Flv/Whole/Audio.antt =====
-- Audio bodies in segments and at once.
use mathlib.Core.List.{map}
use rtmpx.Prelude.{◌≡◌, refl, sym, ap, ◌∙◌, List, [], ◌∷◌, Outcome, ok}
use rtmpx.Prelude.Bytes.{Byte}
use rtmpx.Payload.{Payload, segments, to_bytes}
use rtmpx.Payload.Segments.{IsValid}
use rtmpx.Payload.View.{PayloadView, view}
use rtmpx.Flv.Cursor.{◌>>=◌, FlvError, MediaData, bytes_data, cursor, cursor_ops}
use rtmpx.Flv.Audio.{
  AudioPacket, sequence_start, coded_frames, sequence_end, multichannel_config, unknown, AudioTrack,
  single_packet, tracks, aac_sequence_header, aac_raw, aac_unknown, other, AudioTagBody,
  legacy_body, enhanced_body, ParsedAudio, demux_audio,
}
use rtmpx.Flv.Same.Cursors.{IsLawful, cursor_view}
use rtmpx.Flv.Same.Takes.{cursor-Refines, at_start}
use rtmpx.Flv.Same.Audio as Parts
use rtmpx.Flv.Same.Audio.{map_audio, demux_audio-Same}
use rtmpx.Flv.Views.{view_data, IsView, view_bytes}
use rtmpx.Flv.Views.Sliced.{view_data-IsLawful}
use rtmpx.Flv.Views.New.{view_lem}
use rtmpx.Flv.Whole.{Whole, own_bytes, bytes_data-IsLawful, Agree, Agree-of}

-- `demux`, which drops its cursor.
unfoldable pub audio_of : {P : Type 0} → MediaData P → P → Outcome FlvError (ParsedAudio P)
audio_of m raw = demux_audio (cursor_ops m) (cursor m raw) >>= λ (parsed, _). ok parsed

-- Replacing data by itself.
packet_same : (p : AudioPacket (List Byte)) → Parts.map_packet own_bytes p ≡ p
packet_same (sequence_start p) = refl
packet_same (coded_frames p) = refl
packet_same sequence_end = refl
packet_same (multichannel_config n) = refl
packet_same (unknown t p) = refl

tracks_same : (ts : List (AudioTrack (List Byte))) → map (Parts.map_track own_bytes) ts ≡ ts
tracks_same [] = refl
tracks_same (t ∷ ts) =
    ap
      (λ (q : AudioPacket (List Byte)).
        record t { packet = q } ∷ map (Parts.map_track own_bytes) ts)
      (packet_same t.packet)
    ∙ ap (λ l. t ∷ l) (tracks_same ts)

body_same : (b : AudioTagBody (List Byte)) → Parts.map_body own_bytes b ≡ b
body_same (legacy_body (aac_sequence_header p)) = refl
body_same (legacy_body (aac_raw p)) = refl
body_same (legacy_body (aac_unknown t p)) = refl
body_same (legacy_body (other p)) = refl
body_same (enhanced_body (single_packet c p)) =
    ap (λ q. enhanced_body (single_packet c q)) (packet_same p)
body_same (enhanced_body (tracks ts)) = ap (λ l. enhanced_body (tracks l)) (tracks_same ts)

audio_same : (a : ParsedAudio (List Byte)) → map_audio own_bytes a ≡ a
audio_same a = ap (λ b. record a { body = b }) (body_same a.body)

-- Whatever lawful data holds an audio body, `demux` does not panic, and gives the error that the
-- contiguous bytes give, or their parse with the data in the other form.
pub audio-Agree :
    {P : Type 0} (m : MediaData P) (is_view : P → Type 0) (bytes_of : P → List Byte) (raw : P)
    → IsLawful m is_view bytes_of
    → is_view raw
    → Agree (map_audio bytes_of) (audio_of m raw) (audio_of bytes_data (bytes_of raw))
unfolding audio_of cursor
audio-Agree m is_view bytes_of raw lawful good =
    Agree-of _ _ _ audio_same
      (demux_audio-Same (cursor_ops m) (cursor_view m is_view bytes_of lawful)
        (cursor-Refines m is_view bytes_of lawful) (record { raw = raw; pos = 0 })
        (at_start m is_view bytes_of lawful raw good))
      (demux_audio-Same (cursor_ops bytes_data)
        (cursor_view bytes_data Whole own_bytes bytes_data-IsLawful)
        (cursor-Refines bytes_data Whole own_bytes bytes_data-IsLawful)
        (record { raw = bytes_of raw; pos = 0 })
        (at_start bytes_data Whole own_bytes bytes_data-IsLawful (bytes_of raw) tt))

-- The view of a valid payload can be taken, and its audio parse does not panic: it is the parse of the
-- payload's contiguous bytes with views for data, or the same error.
pub audio_of-view :
    (p : Payload)
    → IsValid p
    → (v : PayloadView) × (◌≡◌ {A = Outcome FlvError PayloadView} (view (segments p)) (ok v))
      × Agree (map_audio view_bytes) (audio_of view_data v) (audio_of bytes_data (to_bytes p))
audio_of-view p valid =
    let (v, made, is_view, bytes) = view_lem p valid in
    (v, made, rw (sym bytes) (audio-Agree view_data IsView view_bytes v view_data-IsLawful is_view))
