-- ===== src/Chunk/Packet/Progress.antt =====
-- Each turn of a packet's cursor passes over the next wire bytes.
use rtmpx.Prelude.{
  ℕ, ◌+◌, ◌-◌, ◌*◌, ◌≤◌, ◌<◌, ◌≡◌, sym, ap, ◌∙◌, true, false, not, ◌&&◌, List, [], ◌∷◌, ◌++◌,
  append_assoc, length, take, drop, length-drop, take-append-drop, ltb, lt→ltb, ◌==◌, if◌then◌else◌,
  arith, Bool-cases, inl, inr, dec_lt,
}
use rtmpx.Prelude.Bytes.{Byte}
use rtmpx.Payload.{flatten, segments, segment, is_nil}
use rtmpx.Payload.Segments.{IsValid}
use rtmpx.Chunk.Encoder.{Packet, CursorState}
use rtmpx.Chunk.Packet.{header_at, current_bytes, span, advance_once, advance_body}
use rtmpx.Prelude.{take-nil, drop-nil, drop-drop, take-split, drop_all}
use rtmpx.Chunk.Wire.{joined, pieces, pieces-step, pieces-nil}

-- The payload bytes that the cursor has not passed.
abbrev pub unsent : Packet → CursorState → List Byte
unsent p s = drop s.offset (flatten (drop s.segment (segments p.payload)))

-- The wire bytes of the payload `d`, of which `room` bytes still go into the chunk.
abbrev pub tail_wire : Packet → ℕ → List Byte → List Byte
tail_wire p room d = take room d ++ joined p.continuation (pieces p.chunk_size (drop room d))

-- The wire bytes that are left, at a cursor with the unsent payload bytes `d`.
unfoldable pub left_over : Packet → CursorState → List Byte → List Byte
left_over p s d =
    if ltb s.header (length (header_at p s))
    then if is_nil d && not (s.chunk == 0)
      then []
      else drop s.header (header_at p s) ++ tail_wire p p.chunk_size d
    else tail_wire p (p.chunk_size - s.body) d

-- A packet that is well formed: a valid payload, a chunk size, and headers that are not empty.
pub record IsSound (p : Packet) : Type 0 where
  pub valid : IsValid p.payload
  pub sized : 0 < p.chunk_size
  pub first_there : 0 < length p.first
  pub continuation_there : 0 < length p.continuation

pub record Standing (p : Packet) (s : CursorState) : Type 0 where
  pub within_segment : 0 < length (unsent p s) → s.offset < length (segment p.payload s.segment)
  pub counted : p.payload.len ≡ s.chunk * p.chunk_size + s.body + length (unsent p s)
  pub within_chunk : s.body < p.chunk_size
  pub within_header : s.header ≤ length (header_at p s)
  pub header_first : s.header < length (header_at p s) → s.body ≡ 0

pub tail_wire-nil : (p : Packet) (k : ℕ) → tail_wire p k [] ≡ []
tail_wire-nil p k = rw (take-nil {A = Byte} k, drop-nil {A = Byte} k, pieces-nil p.chunk_size)

-- Passing over `n` bytes of what goes into the chunk.
pub tail_wire-split :
    (p : Packet) (n k : ℕ) (d : List Byte)
    → tail_wire p (n + k) d ≡ take n d ++ tail_wire p k (drop n d)
tail_wire-split p n k d =
    rw (take-split n k d, ← drop-drop n k d) (append_assoc (take n d) (take k (drop n d)) _)

-- At the end of a chunk with payload left, the next header comes.
pub tail_wire-zero :
    (p : Packet) (d : List Byte)
    → 0 < p.chunk_size
    → 0 < length d
    → tail_wire p 0 d ≡ p.continuation ++ tail_wire p p.chunk_size d
tail_wire-zero p d pos h = rw (pieces-step p.chunk_size d pos h)

-- In the header.
module _ (p : Packet) (s : CursorState) (in_header : s.header < length (header_at p s)) where
  pub header_current : current_bytes p s ≡ drop s.header (header_at p s)
  unfolding current_bytes
  header_current = ground arith

  pub header_moved : (n : ℕ) → advance_once p s n ≡ record s { header = s.header + n }
  unfolding advance_once
  header_moved n = ground arith

  pub left_false :
      (d : List Byte)
      → (is_nil d && not (s.chunk == 0)) ≡ false
      → left_over p s d ≡ drop s.header (header_at p s) ++ tail_wire p p.chunk_size d
  unfolding left_over
  left_false d e = rw (lt→ltb _ _ in_header, e)

  pub left_true : (d : List Byte) → (is_nil d && not (s.chunk == 0)) ≡ true → left_over p s d ≡ []
  unfolding left_over
  left_true d e = rw (lt→ltb _ _ in_header, e)

  -- While bytes are left, the chunk of the header is there.
  pub chunk_there :
      (d : List Byte) → 0 < length (left_over p s d) → (is_nil d && not (s.chunk == 0)) ≡ false
  chunk_there d h = elim (Bool-cases (is_nil d && not (s.chunk == 0))) [
    | inl e ↦ absurd (omega (arith, ap length (left_true d e), h))
    | inr e ↦ e
  ]

-- Behind the header.
module _ (p : Packet) (s : CursorState) (behind : length (header_at p s) ≤ s.header) where
  pub left_behind : (d : List Byte) → left_over p s d ≡ tail_wire p (p.chunk_size - s.body) d
  unfolding left_over
  left_behind d = ground arith

  pub body_current :
      current_bytes p s ≡ take (span p s) (drop s.offset (segment p.payload s.segment))
  unfolding current_bytes
  body_current = ground arith

  pub body_moved : (n : ℕ) → advance_once p s n ≡ advance_body p s n
  unfolding advance_once
  body_moved n = ground arith

-- A turn within the header.
pub header_turn :
    (p : Packet) (s : CursorState) (d : List Byte) (n : ℕ)
    → s.header < length (header_at p s)
    → s.body ≡ 0
    → 0 < length (left_over p s d)
    → s.header + n ≤ length (header_at p s)
    → left_over p s d
      ≡ take n (drop s.header (header_at p s)) ++ left_over p (record s { header = s.header + n }) d
header_turn p s d n in_header fresh some_left le =
    left_false p s in_header d there
    ∙ ap (λ x. x ++ tail_wire p p.chunk_size d) (sym (take-append-drop n (drop s.header h)))
    ∙ append_assoc (take n (drop s.header h)) (drop n (drop s.header h)) _
    ∙ ap (λ x. take n (drop s.header h) ++ x) rest
  where
    h : List Byte
    h = header_at p s

    there : (is_nil d && not (s.chunk == 0)) ≡ false
    there = chunk_there p s in_header d some_left

    rest :
        drop n (drop s.header (header_at p s)) ++ tail_wire p p.chunk_size d
        ≡ left_over p (record s { header = s.header + n }) d
    rest = elim (dec_lt (s.header + n) (length (header_at p s))) [
      | yes lt ↦
          ap (λ x. x ++ tail_wire p p.chunk_size d) (drop-drop s.header n (header_at p s))
          ∙ sym (left_false p (record s { header = s.header + n }) lt d there)
      | no ge ↦
          ap (λ x. x ++ tail_wire p p.chunk_size d)
            (drop_all n (drop s.header (header_at p s))
              (omega (arith, length-drop s.header (header_at p s))))
          ∙ ap (λ k. tail_wire p k d) (omega arith)
          ∙ sym (left_behind p (record s { header = s.header + n }) (omega arith) d)
    ]

-- At the start of a later chunk, its header comes first if there is payload for it.
pub left_fresh :
    (p : Packet) (s : CursorState) (d : List Byte)
    → IsSound p
    → s.header ≡ 0
    → (s.chunk == 0) ≡ false
    → left_over p s d ≡ tail_wire p 0 d
unfolding left_over
left_fresh p s [] sound h c =
    rw (c, h, lt→ltb _ _ sound.continuation_there) (sym (tail_wire-nil p 0))
left_fresh p s (x ∷ d) sound h c =
    rw (c, h, lt→ltb _ _ sound.continuation_there)
      (sym (tail_wire-zero p (x ∷ d) sound.sized (omega arith)))
