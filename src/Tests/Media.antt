-- ===== src/Tests/Media.antt =====
-- Small runs of the parser of media bodies.
use rtmpx.Prelude.{◌≡◌, refl, true, [], ◌∷◌, Outcome, ok}
use rtmpx.Prelude.Int.{negsuc}
use rtmpx.Payload.{segments, to_bytes}
use rtmpx.Payload.View.{PayloadView, view}
use rtmpx.Flv.Cursor.{
  ◌>>=◌, FlvError, bytes_data, bytes_slice, bytes_segment0, cursor, commit, cursor_remaining,
  cursor_read_u8, cursor_take, cursor_take_rest, read_u24, read_fourcc, read_size, sized_payload,
  modex_size, read_modex, modex_loop, sign_extend_cts,
}
use rtmpx.Flv.Audio.{
  enhanced, enhanced_body, no_multitrack, single_packet, coded_frames, demux_audio,
  enhanced_audio_header, enhanced_audio_body, audio_packet,
}
use rtmpx.Flv.Video.Demux.{
  nalu, legacy, legacy_body, avc_packet, other_body, demux_video, legacy_video, legacy_avc,
}
use rtmpx.Flv.Same.Audio.{map_audio}
use rtmpx.Flv.Same.Video.Demux.{map_video}
use rtmpx.Flv.Views.{view_data, view_bytes}
use rtmpx.Flv.Whole.{Agree}
use rtmpx.Flv.Whole.Audio.{audio_of, audio_of-view}
use rtmpx.Flv.Whole.Video.{video_of, video_of-view}
use rtmpx.Tests.Wire.{two_parts, two_parts-IsValid}

-- An unknown modifier extension before an Opus frame: `97 00 2a 11 "Opus" 05`.
opus_frame :
    audio_of bytes_data (0x97 ∷ 0x00 ∷ 0x2a ∷ 0x11 ∷ b'O' ∷ b'p' ∷ b'u' ∷ b's' ∷ 5 ∷ [])
    ≡ ok (record {
      header = enhanced (record {
        packet_type = 1;
        has_unknown_modex = true;
        content = no_multitrack (b'O' ∷ b'p' ∷ b'u' ∷ b's' ∷ []);
      });
      body = enhanced_body (single_packet (b'O' ∷ b'p' ∷ b'u' ∷ b's' ∷ []) (coded_frames (5 ∷ [])));
    })
unfolding audio_of ◌>>=◌ bytes_slice bytes_segment0 cursor commit cursor_remaining cursor_read_u8
    cursor_take cursor_take_rest read_fourcc read_size sized_payload modex_size read_modex
    modex_loop demux_audio enhanced_audio_header enhanced_audio_body audio_packet
opus_frame = refl

-- The composition time of a legacy frame is signed.
signed_time :
    video_of bytes_data (0x17 ∷ 0x01 ∷ 0xff ∷ 0xff ∷ 0xff ∷ 0x65 ∷ [])
    ≡ ok (record {
      header = record { frame_type = 1; header_data = legacy (avc_packet (nalu (negsuc 0))) };
      body = legacy_body (other_body (0x65 ∷ []));
    })
unfolding video_of ◌>>=◌ bytes_slice bytes_segment0 cursor commit cursor_remaining cursor_read_u8
    cursor_take_rest read_u24 sign_extend_cts demux_video legacy_video legacy_avc
signed_time = refl

audio_of-view_example :
    (v : PayloadView) × (◌≡◌ {A = Outcome FlvError PayloadView} (view (segments two_parts)) (ok v))
    × Agree (map_audio view_bytes) (audio_of view_data v) (audio_of bytes_data (to_bytes two_parts))
audio_of-view_example = audio_of-view two_parts two_parts-IsValid

video_of-view_example :
    (v : PayloadView) × (◌≡◌ {A = Outcome FlvError PayloadView} (view (segments two_parts)) (ok v))
    × Agree (map_video view_bytes) (video_of view_data v) (video_of bytes_data (to_bytes two_parts))
video_of-view_example = video_of-view two_parts two_parts-IsValid
