-- ===== src/Flv/Whole.antt =====
-- A segmented body and its contiguous bytes are parsed alike.
pub mod Audio
pub mod Video
use mathlib.Core.List.{map}
use rtmpx.Prelude.{
  ℕ, zero, suc, ◌+◌, ◌-◌, ◌<◌, ◌≤◌, ◌≡◌, refl, sym, ap, ◌∙◌, inl, inr, Bool, List, [], ◌∷◌, ◌++◌,
  append-nil, length, get_elem?, take, drop, take_all, ltb, leb, ◌==◌, Outcome, ok, err, stuck,
  arith,
}
use rtmpx.Prelude.Bytes.{Byte}
use rtmpx.Payload.{Payload, flatten, segments, to_bytes}
use rtmpx.Payload.Segments.{IsValid, AllFilled}
use rtmpx.Payload.View.{PayloadView, view, new_view}
use rtmpx.Payload.View.Places.{before, before-suc, source_segment_lem, filled_there}
use rtmpx.Flv.Cursor.{
  ◌>>=◌, FlvError, MediaData, Cursor, CursorOps, bytes_data, bytes_slice, bytes_segment0, cursor,
  cursor_ops,
}
use rtmpx.Flv.Audio.{
  AudioPacket, sequence_start, coded_frames, sequence_end, multichannel_config, unknown, AudioTrack,
  EnhancedAudioBody, single_packet, tracks, LegacyAudioBody, aac_sequence_header, aac_raw,
  aac_unknown, other, AudioTagBody, legacy_body, enhanced_body, ParsedAudio, demux_audio,
}
use rtmpx.Flv.Same.{list_ops, View, Same, gives, fails, Any}
use rtmpx.Flv.Same.Cursors.{IsLawful, cursor_view}
use rtmpx.Flv.Same.Takes.{cursor-Refines, at_start}
use rtmpx.Flv.Same.Audio.{map_audio, demux_audio-Same}
use rtmpx.Flv.Views.{view_data, IsView, Placed, view_bytes}
use rtmpx.Flv.Views.Sliced.{view_data-IsLawful}

abbrev pub Whole : List Byte → Type 0
Whole bytes = Unit {0}

abbrev pub own_bytes : List Byte → List Byte
own_bytes bytes = bytes

bytes_segment :
    (bytes : List Byte)
    → 0 < length bytes
    → (s : List Byte) × (more : List Byte) × (bytes_segment0 bytes ≡ ok s)
      × (0 < length s)
      × (s ++ more ≡ bytes)
unfolding bytes_segment0
bytes_segment [] some_left = elim some_left [ ]
bytes_segment (b ∷ bytes) some_left = (b ∷ bytes, [], refl, some_left, append-nil (b ∷ bytes))

no_segment : (bytes : List Byte) → length bytes ≡ 0 → bytes_segment0 bytes ≡ stuck
unfolding bytes_segment0
no_segment [] none_left = refl
no_segment (b ∷ bytes) none_left = absurd (omega arith)

slice_of_bytes :
    (bytes : List Byte) (start stop : ℕ)
    → start ≤ stop
    → stop ≤ length bytes
    → bytes_slice bytes start stop ≡ ok (take (stop - start) (drop start bytes))
unfolding bytes_slice
slice_of_bytes bytes start stop ordered within = ground arith

pub bytes_data-IsLawful : IsLawful bytes_data Whole own_bytes
bytes_data-IsLawful = record {
  len_lem = λ bytes _. refl;
  segment_lem = λ bytes _ some_left. bytes_segment bytes some_left;
  none_lem = λ bytes _ none_left. no_segment bytes none_left;
  slice_lem = λ bytes start stop _ ordered within. (
    take (stop - start) (drop start bytes),
    slice_of_bytes bytes start stop ordered within,
    tt,
    refl,
  );
}

-- The parse with its data replaced, or the same error; no panic.
abbrev pub Agree : {A B : Type 0} → (A → B) → Outcome FlvError A → Outcome FlvError B → Type 0
Agree f (ok a) other' = other' ≡ ok (f a)
Agree f (err e) other' = other' ≡ err e
Agree f stuck other' = ⊥

-- Two cursors that read like the same list.
pub Agree-of :
    {P C A B D : Type 0} {v : View C P} {w : View D (List Byte)} {f : A → B} {g : B → B}
    {start : List Byte} {j k : ℕ} (m : Outcome FlvError (A × C)) (n : Outcome FlvError (B × D))
    (plain : Outcome FlvError (B × List Byte))
    → ((b : B) → g b ≡ b)
    → Same v f Any start j m plain
    → Same w g Any start k n plain
    → Agree f (m >>= λ (a, _). ok a) (n >>= λ (b, _). ok b)
unfolding ◌>>=◌
Agree-of _ _ _ same_b (gives _ _ e1 _ _) (gives {a = b} _ _ e2 _ _) =
    ap (λ x. ok x) (sym (same_b b) ∙ sym e2 ∙ e1)
Agree-of _ _ _ same_b fails fails = refl
