-- ===== src/Chunk/Packet/Turned.antt =====
-- Each turn of the cursor passes over the next wire bytes.
use rtmpx.Prelude.{
  ℕ, ◌+◌, ◌-◌, ◌≤◌, ◌<◌, ◌≡◌, ap, List, [], ◌∷◌, ◌++◌, length, take, length-drop, lt→ltb, arith,
  dec_lt,
}
use rtmpx.Prelude.Bytes.{Byte}
use rtmpx.Chunk.Encoder.{Packet, CursorState, start}
use rtmpx.Chunk.Packet.{header_at, current_bytes, advance_once}
use rtmpx.Chunk.Packet.Progress.{
  unsent, tail_wire, left_over, IsSound, Standing, tail_wire-nil, header_current, header_moved,
  left_behind, body_moved, header_turn,
}
use rtmpx.Chunk.Packet.Body.{body_turn, length-body_current, span_positive, body-Standing}

-- The wire bytes that are left.
abbrev pub rest_wire : Packet → CursorState → List Byte
rest_wire p s = left_over p s (unsent p s)

-- What a turn over `n` bytes of what is current does.
pub record Turned (p : Packet) (s : CursorState) (n : ℕ) : Type 0 where
  pub passed : rest_wire p s ≡ take n (current_bytes p s) ++ rest_wire p (advance_once p s n)
  pub stands : Standing p (advance_once p s n)

pub header-Turned :
    (p : Packet) (s : CursorState) (n : ℕ)
    → Standing p s
    → 0 < length (rest_wire p s)
    → s.header < length (header_at p s)
    → n ≤ length (current_bytes p s)
    → Turned p s n
header-Turned p s n standing pos lt le =
    let bound : s.header + n ≤ length (header_at p s) =
      omega (arith, ap length (header_current p s lt), length-drop s.header (header_at p s)) in
    let fresh = standing.header_first lt in
    record {
      passed =
          rw (header_moved p s lt n, header_current p s lt)
            (header_turn p s (unsent p s) n lt fresh pos bound);
      stands = rw (header_moved p s lt n) (record {
        within_segment = standing.within_segment;
        counted = standing.counted;
        within_chunk = standing.within_chunk;
        within_header = bound;
        header_first = λ _. fresh;
      });
    }

pub payload_left :
    (p : Packet) (s : CursorState)
    → 0 < length (rest_wire p s)
    → length (header_at p s) ≤ s.header
    → 0 < length (unsent p s)
payload_left p s pos behind = go (unsent p s) (rw (left_behind p s behind (unsent p s)) at pos)
  where
    go : (d : List Byte) → 0 < length (tail_wire p (p.chunk_size - s.body) d) → 0 < length d
    go [] h = absurd (omega (arith, ap length (tail_wire-nil p (p.chunk_size - s.body)), h))
    go (x ∷ d) h = omega arith

-- While wire bytes are left, a turn of the cursor passes over the next of them, and something is
-- current.
pub turned :
    (p : Packet) (s : CursorState) (n : ℕ)
    → IsSound p
    → Standing p s
    → 0 < length (rest_wire p s)
    → n ≤ length (current_bytes p s)
    → Turned p s n × (0 < length (current_bytes p s))
turned p s n sound standing pos le = elim (dec_lt s.header (length (header_at p s))) [
  | yes lt ↦ (
    header-Turned p s n standing pos lt le,
    omega (arith, ap length (header_current p s lt), length-drop s.header (header_at p s)),
  )
  | no ge ↦
      let behind : length (header_at p s) ≤ s.header = omega arith in
      let here = standing.within_segment (payload_left p s pos behind) in
      let same = body_moved p s behind n in
      let sized = length-body_current p s sound here standing behind in
      (
        record {
          passed = rw same (body_turn p s sound here standing behind n (omega (arith, sized)));
          stands = rw same (body-Standing p s sound here standing behind n (omega (arith, sized)));
        },
        omega (arith, sized, span_positive p s sound here standing behind),
      )
]

-- Before the first byte, the header of the first chunk and the whole payload are left.
pub left_over-start :
    (p : Packet) (d : List Byte)
    → IsSound p
    → left_over p start d ≡ p.first ++ tail_wire p p.chunk_size d
unfolding left_over
left_over-start p [] sound = rw (lt→ltb _ _ sound.first_there)
left_over-start p (x ∷ d) sound = rw (lt→ltb _ _ sound.first_there)
