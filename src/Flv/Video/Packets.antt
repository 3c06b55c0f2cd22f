-- ===== src/Flv/Video/Packets.antt =====
-- Video packets and their configuration records (src/flv.rs).
use rtmpx.Prelude.{
  ℕ, ◌-◌, ◌/◌, ◌%◌, Bool, true, false, ◌&&◌, ◌||◌, Option, none, some, List, [], ◌∷◌, ltb, ◌==◌,
  if◌then◌else◌, Outcome, ok, err,
}
use rtmpx.Prelude.Bytes.{Byte}
use rtmpx.Prelude.Int.{ℤ, pos}
use rtmpx.Flv.Cursor.{
  ◌>>=◌, FlvError, short_coded_frame, bad_avc_config, bad_hevc_config, bad_av1_config, CursorOps,
  read_i24, read_size, sized_payload,
}

abbrev pub VideoFourCc : Type 0
VideoFourCc = List Byte

pub data VideoPacket (P : Type 0) : Type 0 where
  sequence_start : P → VideoPacket P
  mpeg2ts_sequence_start : P → VideoPacket P
  coded_frames : (composition_time_offset : ℤ) → P → VideoPacket P
  coded_frames_x : P → VideoPacket P
  metadata : P → VideoPacket P
  sequence_end : VideoPacket P
  unknown : (packet_type : Byte) → P → VideoPacket P

-- `==` of a four-byte code with a literal.
unfoldable pub same_code : VideoFourCc → VideoFourCc → Bool
same_code [] [] = true
same_code [] (b ∷ bs) = false
same_code (a ∷ rest) [] = false
same_code (a ∷ rest) (b ∷ bs) = a == b && same_code rest bs

abbrev pub avc1 : VideoFourCc
avc1 = b'a' ∷ b'v' ∷ b'c' ∷ b'1' ∷ []

abbrev pub hvc1 : VideoFourCc
hvc1 = b'h' ∷ b'v' ∷ b'c' ∷ b'1' ∷ []

abbrev vvc1 : VideoFourCc
vvc1 = b'v' ∷ b'v' ∷ b'c' ∷ b'1' ∷ []

abbrev pub av01 : VideoFourCc
av01 = b'a' ∷ b'v' ∷ b'0' ∷ b'1' ∷ []

unfoldable pub has_offset : VideoFourCc → Bool
unfolding same_code
has_offset four_cc = same_code four_cc avc1 || same_code four_cc hvc1 || same_code four_cc vvc1

module _ {C P : Type 0} (ops : CursorOps C P) where
  -- A record of at least `size` bytes whose first byte passes the test.
  abbrev pub validated : ℕ → (Byte → Bool) → FlvError → P → Outcome FlvError (Unit {0})
  validated size good failure record' =
      if ltb (ops.data_len record') size
      then err failure
      else (ops.first_byte record' >>= λ b. if good b then ok tt else err failure)

  unfoldable pub validate_avc_decoder_config : P → Outcome FlvError (Unit {0})
  validate_avc_decoder_config = validated 7 (λ b. b == 1) bad_avc_config

  unfoldable pub validate_hevc_decoder_config : P → Outcome FlvError (Unit {0})
  validate_hevc_decoder_config = validated 23 (λ b. b == 1) bad_hevc_config

  unfoldable pub validate_av1_decoder_config : P → Outcome FlvError (Unit {0})
  validate_av1_decoder_config = validated 4 (λ b. b / 128 % 2 == 1) bad_av1_config

  -- The check of a sequence start's record, by its codec.
  unfoldable pub validate_start : VideoFourCc → P → Outcome FlvError (Unit {0})
  unfolding same_code
  validate_start four_cc bytes =
      if same_code four_cc avc1
      then validate_avc_decoder_config bytes
      else if same_code four_cc hvc1
      then validate_hevc_decoder_config bytes
      else if same_code four_cc av01
      then validate_av1_decoder_config bytes
      else ok tt

  -- The frame behind a composition time: the size prefix counts the time's three bytes.
  unfoldable pub frame_payload : C → Option ℕ → Outcome FlvError (P × C)
  frame_payload c none = ops.take_rest c
  frame_payload c (some len) =
      if ltb len 3 then err short_coded_frame else ops.take_bytes c (len - 3)

  unfoldable pub coded_frame : VideoFourCc → Option ℕ → C → Outcome FlvError (VideoPacket P × C)
  coded_frame four_cc size c =
      if has_offset four_cc
      then (read_i24 ops c >>= λ (time, c1).
          frame_payload c1 size >>= λ (bytes, c2). ok (coded_frames time bytes, c2))
      else (sized_payload ops c size >>= λ (bytes, c1). ok (coded_frames (pos 0) bytes, c1))

  unfoldable pub video_packet : ℕ → VideoFourCc → Bool → C → Outcome FlvError (VideoPacket P × C)
  video_packet packet_type four_cc sized c = read_size ops c sized >>= λ (size, c1).
      if packet_type == 4
      then (sized_payload ops c1 size >>= λ (bytes, c2). ok (metadata bytes, c2))
      else if packet_type == 2
      then ok (sequence_end, c1)
      else if packet_type == 0
      then (sized_payload ops c1 size >>= λ (bytes, c2).
          validate_start four_cc bytes >>= λ _. ok (sequence_start bytes, c2))
      else if packet_type == 5
      then (sized_payload ops c1 size >>= λ (bytes, c2). ok (mpeg2ts_sequence_start bytes, c2))
      else if packet_type == 1
      then coded_frame four_cc size c1
      else if packet_type == 3
      then (sized_payload ops c1 size >>= λ (bytes, c2). ok (coded_frames_x bytes, c2))
      else (sized_payload ops c1 size >>= λ (bytes, c2). ok (unknown packet_type bytes, c2))
