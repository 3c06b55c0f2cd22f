-- ===== src/Flv/Same/Audio.antt =====
-- An audio body in segments parses like its bytes.
use mathlib.Core.List.{map, map-append}
use rtmpx.Prelude.{
  ℕ, zero, suc, ◌%◌, ◌/◌, ◌<◌, ◌≤◌, ◌≡◌, refl, sym, Bool, false, not, ◌||◌, Option, List, [], ◌∷◌,
  ◌++◌, length, ◌==◌, ok, arith,
}
use rtmpx.Prelude.Bytes.{Byte}
use rtmpx.Flv.Cursor.{◌>>=◌, CursorOps, sized_payload}
use rtmpx.Flv.Audio.{
  AudioHeaderContent, no_multitrack, one_track, many_tracks, many_tracks_many_codecs,
  unknown_multitrack, EnhancedAudioHeader, LegacyAudioBody, aac_sequence_header, aac_raw,
  aac_unknown, other, AudioPacket, sequence_start, coded_frames, sequence_end, multichannel_config,
  unknown, AudioTrack, EnhancedAudioBody, single_packet, tracks, AudioTagBody, legacy_body,
  enhanced_body, ParsedAudio, is_single, many_codecs, audio_multitrack, enhanced_audio_header,
  skip_channels, audio_packet, audio_track, audio_tracks, audio_body_of, enhanced_audio_body,
  legacy_audio_body, demux_audio,
}
use rtmpx.Flv.Same.{
  list_ops, View, Same, gives, fails, Any, same_value, Refines, Same-then, Same-weaken, Same-if,
  Same-ok,
}
use rtmpx.Flv.Same.Reads.{
  given_or_read, read_or_shared, read_fourcc-Same, sized_payload-Same, read_size-Same,
  modex_loop-Same,
}

module _ {P B : Type 0} (f : P → B) where
  abbrev pub map_packet : AudioPacket P → AudioPacket B
  map_packet (sequence_start p) = sequence_start (f p)
  map_packet (coded_frames p) = coded_frames (f p)
  map_packet sequence_end = sequence_end
  map_packet (multichannel_config n) = multichannel_config n
  map_packet (unknown t p) = unknown t (f p)

  abbrev pub map_track : AudioTrack P → AudioTrack B
  map_track t = record { four_cc = t.four_cc; track_id = t.track_id; packet = map_packet t.packet }

  abbrev pub map_enhanced : EnhancedAudioBody P → EnhancedAudioBody B
  map_enhanced (single_packet c p) = single_packet c (map_packet p)
  map_enhanced (tracks ts) = tracks (map map_track ts)

  abbrev pub map_legacy : LegacyAudioBody P → LegacyAudioBody B
  map_legacy (aac_sequence_header p) = aac_sequence_header (f p)
  map_legacy (aac_raw p) = aac_raw (f p)
  map_legacy (aac_unknown t p) = aac_unknown t (f p)
  map_legacy (other p) = other (f p)

  abbrev pub map_body : AudioTagBody P → AudioTagBody B
  map_body (legacy_body b) = legacy_body (map_legacy b)
  map_body (enhanced_body b) = enhanced_body (map_enhanced b)

  -- The parsed body with each piece of data replaced.
  abbrev pub map_audio : ParsedAudio P → ParsedAudio B
  map_audio a = record { header = a.header; body = map_body a.body }

module _ {C P : Type 0} (ops : CursorOps C P) (v : View C P) (sim : Refines ops v) where
  open sim use {remaining_lem, read_u8_lem, take_lem, take_rest_lem}

  audio_multitrack-Same :
      (c : C) (flagged : Bool)
      → v.good c
      → Same v same_value Any
          (v.rest_of c)
          0
          (audio_multitrack ops c flagged)
          (audio_multitrack list_ops (v.rest_of c) flagged)
  unfolding audio_multitrack
  audio_multitrack-Same c flagged good =
      Same-then _ _ (read_u8_lem c good) (λ byte c1 good1 _ short1. Same-if (byte % 16 == 5) fails (
        Same-then _ _ (given_or_read ops v sim (byte / 16 == 2) _ c1 good1)
          (λ four_cc c2 good2 _ short2. Same-ok _ c2 good2 tt (omega arith))))

  enhanced_audio_header-Same :
      (fuel : ℕ) (c : C) (initial : ℕ)
      → v.good c
      → length (v.rest_of c) < fuel
      → Same v same_value Any
          (v.rest_of c)
          0
          (enhanced_audio_header ops fuel c initial)
          (enhanced_audio_header list_ops fuel (v.rest_of c) initial)
  unfolding enhanced_audio_header
  enhanced_audio_header-Same fuel c initial good enough =
      Same-then _ _ (modex_loop-Same ops v sim fuel c initial false good enough)
        (λ step c1 good1 _ short1.
          Same-if (step.0 == 5) (Same-weaken (omega arith) (audio_multitrack-Same c1 step.1 good1))
            (Same-then _ _ (read_fourcc-Same ops v sim c1 good1)
              (λ four_cc c2 good2 _ short2. Same-ok _ c2 good2 tt (omega arith))))

  skip_channels-Same :
      (c : C) (order channel_count : ℕ)
      → v.good c
      → Same v same_value Any
          (v.rest_of c)
          0
          (skip_channels ops c order channel_count)
          (skip_channels list_ops (v.rest_of c) order channel_count)
  unfolding skip_channels
  skip_channels-Same c order channel_count good =
      Same-if (order == 2)
        (Same-then _ _ (take_lem c channel_count good)
          (λ p c1 good1 _ short1. Same-ok _ c1 good1 tt (omega arith)))
        (Same-if (order == 1)
          (Same-then _ _ (take_lem c 4 good)
            (λ p c1 good1 _ short1. Same-ok _ c1 good1 tt (omega arith)))
          (Same-ok _ c good tt (omega arith)))

  payload-Same :
      (c : C) (size : Option ℕ) (start : List Byte) (wrap : P → AudioPacket P)
      (wrap' : List Byte → AudioPacket (List Byte))
      → ((p : P) → map_packet v.bytes_of (wrap p) ≡ wrap' (v.bytes_of p))
      → v.good c
      → length (v.rest_of c) ≤ length start
      → Same v
          (map_packet v.bytes_of)
          Any
          start
          0
          (sized_payload ops c size >>= λ (p, c1). ok (wrap p, c1))
          (sized_payload list_ops (v.rest_of c) size >>= λ (p, c1). ok (wrap' p, c1))
  payload-Same c size start wrap wrap' same good short =
      Same-then _ _ (sized_payload-Same ops v sim c size good)
        (λ p c1 good1 _ short1. gives good1 tt (sym (same p)) refl (omega arith))

  audio_packet-Same :
      (packet_type : ℕ) (sized : Bool) (c : C)
      → v.good c
      → Same v
          (map_packet v.bytes_of)
          Any
          (v.rest_of c)
          0
          (audio_packet ops packet_type sized c)
          (audio_packet list_ops packet_type sized (v.rest_of c))
  unfolding audio_packet
  audio_packet-Same packet_type sized c good =
      Same-then _ _ (read_size-Same ops v sim c sized good) (λ size c1 good1 _ short1.
        Same-if (packet_type == 4)
          (Same-then _ _ (read_u8_lem c1 good1) (λ order c2 good2 _ short2.
            Same-then _ _ (read_u8_lem c2 good2) (λ channel_count c3 good3 _ short3.
              Same-then _ _ (skip_channels-Same c3 order channel_count good3)
                (λ _ c4 good4 _ short4. Same-ok _ c4 good4 tt (omega arith)))))
          (Same-if (packet_type == 2) (Same-ok _ c1 good1 tt (omega arith)) (
            Same-if (packet_type == 0)
              (payload-Same c1 size (v.rest_of c) sequence_start sequence_start (λ p. refl) good1
                (omega arith))
              (Same-if (packet_type == 1)
                (payload-Same c1 size (v.rest_of c) coded_frames coded_frames (λ p. refl) good1
                  (omega arith))
                (payload-Same c1 size (v.rest_of c) (unknown packet_type) (unknown packet_type)
                  (λ p. refl) good1 (omega arith))))))

  audio_track-Same :
      (header : EnhancedAudioHeader) (c : C)
      → v.good c
      → Same v
          (map_track v.bytes_of)
          Any
          (v.rest_of c)
          1
          (audio_track ops header c)
          (audio_track list_ops header (v.rest_of c))
  unfolding audio_track
  audio_track-Same header c good =
      Same-then _ _ (read_or_shared ops v sim (many_codecs header.content) _ c good)
        (λ four_cc c1 good1 _ short1.
          Same-then _ _ (read_u8_lem c1 good1) (λ track_id c2 good2 _ short2.
            Same-then _ _
              (audio_packet-Same header.packet_type (not (is_single header.content)) c2 good2)
              (λ packet c3 good3 _ short3. Same-ok _ c3 good3 tt (omega arith))))

  audio_tracks-Same :
      (fuel : ℕ) (header : EnhancedAudioHeader) (c : C) (found : List (AudioTrack P))
      → v.good c
      → length (v.rest_of c) < fuel
      → Same v
          (map (map_track v.bytes_of))
          Any
          (v.rest_of c)
          0
          (audio_tracks ops fuel header c found)
          (audio_tracks list_ops fuel header (v.rest_of c) (map (map_track v.bytes_of) found))
  unfolding audio_tracks
  audio_tracks-Same zero header c found good enough = elim enough [ ]
  audio_tracks-Same (suc fuel) header c found good enough =
      Same-then _ _ (audio_track-Same header c good) (λ track c1 good1 _ short1.
        rw (remaining_lem c1 good1, sym (map-append (map_track v.bytes_of) found (track ∷ [])))
          (Same-if (is_single header.content || (length (v.rest_of c1) == 0))
            (Same-ok _ c1 good1 tt (omega arith))
            (Same-weaken (omega arith)
              (audio_tracks-Same fuel header c1 (found ++ track ∷ []) good1 (omega arith)))))

  many-Same :
      (fuel : ℕ) (header : EnhancedAudioHeader) (c : C)
      → v.good c
      → length (v.rest_of c) < fuel
      → Same v
          (map_enhanced v.bytes_of)
          Any
          (v.rest_of c)
          0
          (audio_tracks ops fuel header c [] >>= λ (found, c1). ok (tracks found, c1))
          (audio_tracks list_ops fuel header (v.rest_of c) [] >>= λ (found, c1).
            ok (tracks found, c1))
  many-Same fuel header c good enough =
      Same-then _ _ (audio_tracks-Same fuel header c [] good enough)
        (λ found c1 good1 _ short1. Same-ok _ c1 good1 tt (omega arith))

  audio_body_of-Same :
      (content : AudioHeaderContent) (fuel : ℕ) (header : EnhancedAudioHeader) (c : C)
      → v.good c
      → length (v.rest_of c) < fuel
      → Same v
          (map_enhanced v.bytes_of)
          Any
          (v.rest_of c)
          0
          (audio_body_of ops content fuel header c)
          (audio_body_of list_ops content fuel header (v.rest_of c))
  audio_body_of-Same (no_multitrack four_cc) fuel header c good enough =
      Same-then _ _ (audio_packet-Same header.packet_type false c good)
        (λ packet c1 good1 _ short1. Same-ok _ c1 good1 tt (omega arith))
  audio_body_of-Same (one_track _) fuel header c good enough = many-Same fuel header c good enough
  audio_body_of-Same (many_tracks _) fuel header c good enough = many-Same fuel header c good enough
  audio_body_of-Same many_tracks_many_codecs fuel header c good enough =
      many-Same fuel header c good enough
  audio_body_of-Same (unknown_multitrack _ _) fuel header c good enough =
      many-Same fuel header c good enough

  legacy_audio_body-Same :
      (sound_format : ℕ) (c : C)
      → v.good c
      → Same v
          (map_legacy v.bytes_of)
          Any
          (v.rest_of c)
          0
          (legacy_audio_body ops sound_format c)
          (legacy_audio_body list_ops sound_format (v.rest_of c))
  unfolding legacy_audio_body
  legacy_audio_body-Same sound_format c good =
      Same-if (sound_format == 10)
        (Same-then _ _ (read_u8_lem c good) (λ packet_type c1 good1 _ short1.
          Same-then _ _ (take_rest_lem c1 good1) (λ p c2 good2 _ short2.
            Same-if (packet_type == 0) (Same-ok _ c2 good2 tt (omega arith)) (
              Same-if (packet_type == 1) (Same-ok _ c2 good2 tt (omega arith))
                (Same-ok _ c2 good2 tt (omega arith))))))
        (Same-then _ _ (take_rest_lem c good)
          (λ p c1 good1 _ short1. Same-ok _ c1 good1 tt (omega arith)))

  -- Whatever holds the body, `demux` of audio ends within its fuel and does not panic, and gives the
  -- error, or the parse, that the plain bytes give.
  pub demux_audio-Same :
      (c : C)
      → v.good c
      → Same v
          (map_audio v.bytes_of)
          Any
          (v.rest_of c)
          1
          (demux_audio ops c)
          (demux_audio list_ops (v.rest_of c))
  unfolding demux_audio enhanced_audio_body
  demux_audio-Same c good = Same-then _ _ (read_u8_lem c good) (λ first c1 good1 _ short1.
      Same-if (first / 16 == 9)
        (rw (remaining_lem c1 good1) (
          Same-then _ _
            (enhanced_audio_header-Same (suc (length (v.rest_of c1))) c1 (first % 16) good1
              (omega arith))
            (λ header c2 good2 _ short2. rw (remaining_lem c2 good2) (
              Same-then _ _
                (audio_body_of-Same header.content (suc (length (v.rest_of c2))) header c2 good2
                  (omega arith))
                (λ body c3 good3 _ short3. Same-ok _ c3 good3 tt (omega arith))))))
        (Same-then _ _ (legacy_audio_body-Same (first / 16) c1 good1)
          (λ body c2 good2 _ short2. Same-ok _ c2 good2 tt (omega arith))))
