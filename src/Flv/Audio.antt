-- ===== src/Flv/Audio.antt =====
-- Audio message bodies (`ParsedAudio::demux` of src/flv.rs, and what it calls).
use rtmpx.Prelude.{
  ℕ, zero, suc, ◌/◌, ◌%◌, Bool, true, false, not, ◌||◌, List, [], ◌∷◌, ◌++◌, ◌==◌, if◌then◌else◌,
  Outcome, ok, err, stuck,
}
use rtmpx.Prelude.Bytes.{Byte}
use rtmpx.Flv.Cursor.{
  ◌>>=◌, FlvError, nested_multitracks, CursorOps, read_fourcc, read_size, sized_payload, modex_loop,
}

abbrev pub AudioFourCc : Type 0
AudioFourCc = List Byte

pub record LegacyAudioHeader : Type 0 where
  pub sound_format : Byte
  pub sound_rate : Byte
  pub sound_size : Byte
  pub sound_type : Byte

pub data AudioHeaderContent : Type 0 where
  no_multitrack : AudioFourCc → AudioHeaderContent
  one_track : AudioFourCc → AudioHeaderContent
  many_tracks : AudioFourCc → AudioHeaderContent
  many_tracks_many_codecs : AudioHeaderContent
  unknown_multitrack : (multitrack_type : Byte) → AudioFourCc → AudioHeaderContent

pub record EnhancedAudioHeader : Type 0 where
  pub packet_type : Byte
  pub has_unknown_modex : Bool
  pub content : AudioHeaderContent

pub data AudioTagHeader : Type 0 where
  legacy : LegacyAudioHeader → AudioTagHeader
  enhanced : EnhancedAudioHeader → AudioTagHeader

pub data LegacyAudioBody (P : Type 0) : Type 0 where
  aac_sequence_header : P → LegacyAudioBody P
  aac_raw : P → LegacyAudioBody P
  aac_unknown : (packet_type : Byte) → P → LegacyAudioBody P
  other : P → LegacyAudioBody P

pub data AudioPacket (P : Type 0) : Type 0 where
  sequence_start : P → AudioPacket P
  coded_frames : P → AudioPacket P
  sequence_end : AudioPacket P
  multichannel_config : (channel_count : Byte) → AudioPacket P
  unknown : (packet_type : Byte) → P → AudioPacket P

pub record AudioTrack (P : Type 0) : Type 0 where
  pub four_cc : AudioFourCc
  pub track_id : Byte
  pub packet : AudioPacket P

pub data EnhancedAudioBody (P : Type 0) : Type 0 where
  single_packet : AudioFourCc → AudioPacket P → EnhancedAudioBody P
  tracks : List (AudioTrack P) → EnhancedAudioBody P

pub data AudioTagBody (P : Type 0) : Type 0 where
  legacy_body : LegacyAudioBody P → AudioTagBody P
  enhanced_body : EnhancedAudioBody P → AudioTagBody P

pub record ParsedAudio (P : Type 0) : Type 0 where
  pub header : AudioTagHeader
  pub body : AudioTagBody P

abbrev no_four_cc : AudioFourCc
no_four_cc = 0 ∷ 0 ∷ 0 ∷ 0 ∷ []

abbrev pub audio_content : ℕ → AudioFourCc → AudioHeaderContent
audio_content multitrack_type four_cc =
    if multitrack_type == 0
    then one_track four_cc
    else if multitrack_type == 1
    then many_tracks four_cc
    else if multitrack_type == 2
    then many_tracks_many_codecs
    else unknown_multitrack multitrack_type four_cc

abbrev pub shared_four_cc : AudioHeaderContent → AudioFourCc
shared_four_cc (one_track f) = f
shared_four_cc (many_tracks f) = f
shared_four_cc (unknown_multitrack _ f) = f
shared_four_cc (no_multitrack _) = no_four_cc
shared_four_cc many_tracks_many_codecs = no_four_cc

abbrev pub is_single : AudioHeaderContent → Bool
is_single (one_track f) = true
is_single _ = false

abbrev pub many_codecs : AudioHeaderContent → Bool
many_codecs many_tracks_many_codecs = true
many_codecs _ = false

module _ {C P : Type 0} (ops : CursorOps C P) where
  -- The multitrack byte and what follows it.
  unfoldable pub audio_multitrack : C → Bool → Outcome FlvError (EnhancedAudioHeader × C)
  audio_multitrack c flagged = ops.read_u8 c >>= λ (byte, c1).
      if byte % 16 == 5
      then err nested_multitracks
      else ((if byte / 16 == 2 then ok (no_four_cc, c1) else read_fourcc ops c1)
          >>= λ (four_cc, c2). ok (
            record {
              packet_type = byte % 16;
              has_unknown_modex = flagged;
              content = audio_content (byte / 16) four_cc;
            },
            c2,
          ))

  -- `fuel` bounds the rounds of the loop over modifier extensions.
  unfoldable pub enhanced_audio_header : ℕ → C → ℕ → Outcome FlvError (EnhancedAudioHeader × C)
  enhanced_audio_header fuel c initial =
      modex_loop ops fuel c initial false >>= λ ((packet_type, flagged), c1).
      if packet_type == 5
      then audio_multitrack c1 flagged
      else (read_fourcc ops c1 >>= λ (four_cc, c2). ok (
        record {
          packet_type = packet_type;
          has_unknown_modex = flagged;
          content = no_multitrack four_cc;
        },
        c2,
      ))

  -- The channel map or mask, which is skipped.
  unfoldable pub skip_channels : C → ℕ → ℕ → Outcome FlvError (Unit {0} × C)
  skip_channels c order channel_count =
      if order == 2
      then (ops.take_bytes c channel_count >>= λ (_, c1). ok (tt, c1))
      else if order == 1
      then (ops.take_bytes c 4 >>= λ (_, c1). ok (tt, c1))
      else ok (tt, c)

  unfoldable pub audio_packet : ℕ → Bool → C → Outcome FlvError (AudioPacket P × C)
  audio_packet packet_type sized c = read_size ops c sized >>= λ (size, c1).
      if packet_type == 4
      then (ops.read_u8 c1 >>= λ (order, c2). ops.read_u8 c2 >>= λ (channel_count, c3).
          skip_channels c3 order channel_count >>= λ (_, c4).
          ok (multichannel_config channel_count, c4))
      else if packet_type == 2
      then ok (sequence_end, c1)
      else if packet_type == 0
      then (sized_payload ops c1 size >>= λ (bytes, c2). ok (sequence_start bytes, c2))
      else if packet_type == 1
      then (sized_payload ops c1 size >>= λ (bytes, c2). ok (coded_frames bytes, c2))
      else (sized_payload ops c1 size >>= λ (bytes, c2). ok (unknown packet_type bytes, c2))

  -- One round of the loop over tracks.
  unfoldable pub audio_track : EnhancedAudioHeader → C → Outcome FlvError (AudioTrack P × C)
  audio_track header c =
      (if many_codecs header.content
        then read_fourcc ops c
        else ok (shared_four_cc header.content, c))
      >>= λ (four_cc, c1). ops.read_u8 c1 >>= λ (track_id, c2).
          audio_packet header.packet_type (not (is_single header.content)) c2 >>= λ (packet, c3).
          ok (record { four_cc = four_cc; track_id = track_id; packet = packet }, c3)

  unfoldable pub audio_tracks :
      ℕ → EnhancedAudioHeader → C → List (AudioTrack P) → Outcome FlvError (List (AudioTrack P) × C)
  audio_tracks zero header c found = stuck
  audio_tracks (suc fuel) header c found = audio_track header c >>= λ (track, c1).
      let rest = audio_tracks fuel header c1 (found ++ track ∷ []) in
      if is_single header.content || (ops.remaining c1 == 0)
      then ok (found ++ track ∷ [], c1)
      else rest

  abbrev pub audio_body_of :
      AudioHeaderContent → ℕ → EnhancedAudioHeader → C → Outcome FlvError (EnhancedAudioBody P × C)
  audio_body_of (no_multitrack four_cc) fuel header c =
      audio_packet header.packet_type false c >>= λ (packet, c1).
      ok (single_packet four_cc packet, c1)
  audio_body_of _ fuel header c =
      audio_tracks fuel header c [] >>= λ (found, c1). ok (tracks found, c1)

  unfoldable pub enhanced_audio_body :
      ℕ → EnhancedAudioHeader → C → Outcome FlvError (EnhancedAudioBody P × C)
  enhanced_audio_body fuel header c = audio_body_of header.content fuel header c

  unfoldable pub legacy_audio_body : ℕ → C → Outcome FlvError (LegacyAudioBody P × C)
  legacy_audio_body sound_format c =
      if sound_format == 10
      then (ops.read_u8 c >>= λ (packet_type, c1). ops.take_rest c1 >>= λ (bytes, c2).
          if packet_type == 0
          then ok (aac_sequence_header bytes, c2)
          else if packet_type == 1
          then ok (aac_raw bytes, c2)
          else ok (aac_unknown packet_type bytes, c2))
      else (ops.take_rest c >>= λ (bytes, c1). ok (other bytes, c1))

  abbrev pub legacy_audio_header : Byte → LegacyAudioHeader
  legacy_audio_header first = record {
    sound_format = first / 16;
    sound_rate = first / 4 % 4;
    sound_size = first / 2 % 2;
    sound_type = first % 2;
  }

  -- `ParsedAudio::demux` on a new cursor.
  unfoldable pub demux_audio : C → Outcome FlvError (ParsedAudio P × C)
  demux_audio c = ops.read_u8 c >>= λ (first, c1).
      if first / 16 == 9
      then (enhanced_audio_header (suc (ops.remaining c1)) c1 (first % 16) >>= λ (header, c2).
          enhanced_audio_body (suc (ops.remaining c2)) header c2 >>= λ (body, c3).
          ok (record { header = enhanced header; body = enhanced_body body }, c3))
      else (legacy_audio_body (first / 16) c1 >>= λ (body, c2).
          ok (record { header = legacy (legacy_audio_header first); body = legacy_body body }, c2))
