-- ===== src/Flv/Same/Video/Packets.antt =====
-- Video packets in segments parse like their bytes.
use rtmpx.Prelude.{
  ℕ, zero, suc, ◌-◌, ◌<◌, ◌≤◌, ◌≡◌, refl, sym, Bool, true, false, Option, none, some, List, [], ◌∷◌,
  length, ltb, ◌==◌, if◌then◌else◌, Outcome, ok, err, stuck, Ensures, arith,
}
use rtmpx.Prelude.Bytes.{Byte}
use rtmpx.Prelude.Int.{pos}
use rtmpx.Flv.Cursor.{
  ◌>>=◌, FlvError, bad_avc_config, bad_hevc_config, bad_av1_config, CursorOps, sized_payload,
}
use rtmpx.Flv.Video.Packets.{
  VideoFourCc, VideoPacket, sequence_start, mpeg2ts_sequence_start, coded_frames, coded_frames_x,
  metadata, sequence_end, unknown, same_code, avc1, hvc1, av01, has_offset, validated,
  validate_avc_decoder_config, validate_hevc_decoder_config, validate_av1_decoder_config,
  validate_start, frame_payload, coded_frame, video_packet,
}
use rtmpx.Flv.Same.{
  list_ops, View, Same, gives, fails, Any, Refines, Same-then, Same-weaken, Same-if, Same-ok,
}
use rtmpx.Flv.Same.Reads.{read_i24-Same, sized_payload-Same, read_size-Same}

abbrev pub map_packet : {P B : Type 0} (f : P → B) → VideoPacket P → VideoPacket B
map_packet f (sequence_start p) = sequence_start (f p)
map_packet f (mpeg2ts_sequence_start p) = mpeg2ts_sequence_start (f p)
map_packet f (coded_frames t p) = coded_frames t (f p)
map_packet f (coded_frames_x p) = coded_frames_x (f p)
map_packet f (metadata p) = metadata (f p)
map_packet f sequence_end = sequence_end
map_packet f (unknown t p) = unknown t (f p)

-- No outcome but a value or an error.
abbrev pub Returns : {A : Type 0} → Outcome FlvError A → Type 0
Returns m = Ensures m (λ _. Unit {0})

validated-Returns :
    (size : ℕ) (good : Byte → Bool) (failure : FlvError) (bytes : List Byte)
    → 0 < size
    → Returns (validated list_ops size good failure bytes)
unfolding ◌>>=◌
validated-Returns zero good failure [] large = elim large [ ]
validated-Returns (suc n) good failure [] large = ground arith
validated-Returns size good failure (b ∷ bytes) large = go (ltb (length (b ∷ bytes)) size) (good b)
  where
    go :
        (short passes : Bool)
        → Returns (if short then err failure else if passes then ok tt else err failure)
    go true passes = tt
    go false true = tt
    go false false = tt

pub validate_avc-Returns :
    (bytes : List Byte) → Returns (validate_avc_decoder_config list_ops bytes)
unfolding validate_avc_decoder_config
validate_avc-Returns bytes = validated-Returns 7 (λ b. b == 1) bad_avc_config bytes (omega arith)

Returns-if :
    {A : Type 0} (t : Bool) (x y : Outcome FlvError A)
    → Returns x
    → Returns y
    → Returns (if t then x else y)
Returns-if true x y p q = p
Returns-if false x y p q = q

validate_start-Returns :
    (four_cc : VideoFourCc) (bytes : List Byte) → Returns (validate_start list_ops four_cc bytes)
unfolding validate_start validate_hevc_decoder_config validate_av1_decoder_config
validate_start-Returns four_cc bytes =
    Returns-if (same_code four_cc avc1) _ _ (validate_avc-Returns bytes) (
      Returns-if (same_code four_cc hvc1) _ _
        (validated-Returns 23 (λ b. b == 1) bad_hevc_config bytes (omega arith))
        (Returns-if (same_code four_cc av01) _ _
          (validated-Returns 4 _ bad_av1_config bytes (omega arith)) tt))

module _ {C P : Type 0} (ops : CursorOps C P) (v : View C P) (sim : Refines ops v) where
  open sim use {read_u8_lem, take_lem, take_rest_lem, len_lem, first_lem}

  -- A check that returns, before a value.
  pub checked-Same :
      {A B : Type 0} {f : A → B} {start : List Byte} (a : A) (c : C)
      (m n : Outcome FlvError (Unit {0}))
      → m ≡ n
      → Returns n
      → v.good c
      → length (v.rest_of c) ≤ length start
      → Same v f Any start 0 (m >>= λ _. ok (a, c)) (n >>= λ _. ok (f a, v.rest_of c))
  unfolding ◌>>=◌
  checked-Same a c m (ok done) same returns good short = rw same (Same-ok a c good tt (omega arith))
  checked-Same a c m (err e) same returns good short = rw same fails
  checked-Same a c m stuck same returns good short = absurd returns

  pub validate_avc_same :
      (p : P)
      → v.is_view p
      → validate_avc_decoder_config ops p ≡ validate_avc_decoder_config list_ops (v.bytes_of p)
  unfolding validate_avc_decoder_config
  validate_avc_same p is_view = rw (len_lem p is_view, first_lem p is_view)

  validate_start_same :
      (four_cc : VideoFourCc) (p : P)
      → v.is_view p
      → validate_start ops four_cc p ≡ validate_start list_ops four_cc (v.bytes_of p)
  unfolding validate_start validate_avc_decoder_config validate_hevc_decoder_config
      validate_av1_decoder_config
  validate_start_same four_cc p is_view = rw (len_lem p is_view, first_lem p is_view)

  frame_payload-Same :
      (c : C) (size : Option ℕ)
      → v.good c
      → Same v v.bytes_of v.is_view
          (v.rest_of c)
          0
          (frame_payload ops c size)
          (frame_payload list_ops (v.rest_of c) size)
  unfolding frame_payload
  frame_payload-Same c none good = take_rest_lem c good
  frame_payload-Same c (some len) good =
      Same-if (ltb len 3) fails (Same-weaken (omega arith) (take_lem c (len - 3) good))

  payload-Same :
      (c : C) (size : Option ℕ) (start : List Byte) (wrap : P → VideoPacket P)
      (wrap' : List Byte → VideoPacket (List Byte))
      → ((p : P) → map_packet v.bytes_of (wrap p) ≡ wrap' (v.bytes_of p))
      → v.good c
      → length (v.rest_of c) ≤ length start
      → Same v
          (map_packet v.bytes_of)
          Any
          start
          0
          (sized_payload ops c size >>= λ (p, c1). ok (wrap p, c1))
          (sized_payload list_ops (v.rest_of c) size >>= λ (p, c1). ok (wrap' p, c1))
  payload-Same c size start wrap wrap' same good short =
      Same-then _ _ (sized_payload-Same ops v sim c size good)
        (λ p c1 good1 _ short1. gives good1 tt (sym (same p)) refl (omega arith))

  coded_frame-Same :
      (four_cc : VideoFourCc) (size : Option ℕ) (c : C) (start : List Byte)
      → v.good c
      → length (v.rest_of c) ≤ length start
      → Same v
          (map_packet v.bytes_of)
          Any
          start
          0
          (coded_frame ops four_cc size c)
          (coded_frame list_ops four_cc size (v.rest_of c))
  unfolding coded_frame
  coded_frame-Same four_cc size c start good short =
      Same-if (has_offset four_cc)
        (Same-then _ _ (read_i24-Same ops v sim c good) (λ time c1 good1 _ short1.
          Same-then _ _ (frame_payload-Same c1 size good1)
            (λ p c2 good2 _ short2. Same-ok _ c2 good2 tt (omega arith))))
        (payload-Same c size start (coded_frames (pos 0)) (coded_frames (pos 0)) (λ p. refl) good
          short)

  pub video_packet-Same :
      (packet_type : ℕ) (four_cc : VideoFourCc) (sized : Bool) (c : C)
      → v.good c
      → Same v
          (map_packet v.bytes_of)
          Any
          (v.rest_of c)
          0
          (video_packet ops packet_type four_cc sized c)
          (video_packet list_ops packet_type four_cc sized (v.rest_of c))
  unfolding video_packet
  video_packet-Same packet_type four_cc sized c good =
      Same-then _ _ (read_size-Same ops v sim c sized good) (λ size c1 good1 _ short1.
        Same-if (packet_type == 4)
          (payload-Same c1 size (v.rest_of c) metadata metadata (λ p. refl) good1 (omega arith))
          (Same-if (packet_type == 2) (Same-ok _ c1 good1 tt (omega arith)) (
            Same-if (packet_type == 0)
              (Same-then _ _ (sized_payload-Same ops v sim c1 size good1)
                (λ p c2 good2 is_view short2.
                  checked-Same (sequence_start p) c2 _ _ (validate_start_same four_cc p is_view)
                    (validate_start-Returns four_cc (v.bytes_of p)) good2 (omega arith)))
              (Same-if (packet_type == 5)
                (payload-Same c1 size (v.rest_of c) mpeg2ts_sequence_start mpeg2ts_sequence_start
                  (λ p. refl) good1 (omega arith))
                (Same-if (packet_type == 1)
                  (coded_frame-Same four_cc size c1 (v.rest_of c) good1 (omega arith))
                  (Same-if (packet_type == 3)
                    (payload-Same c1 size (v.rest_of c) coded_frames_x coded_frames_x (λ p. refl)
                      good1 (omega arith))
                    (payload-Same c1 size (v.rest_of c) (unknown packet_type) (unknown packet_type)
                      (λ p. refl) good1 (omega arith))))))))
