-- ===== src/Chunk/RoundTrip/Partial.antt =====
-- A packet written in parts, of any sizes (`Packet::advance` of src/chunk_io/serializer.rs).
use rtmpx.Prelude.{
  ℕ, ◌+◌, ◌-◌, ◌≤◌, ◌<◌, ◌≡◌, refl, ap, ◌∙◌, Bool, true, false, ◌&&◌, Option, none, some, List, [],
  ◌∷◌, drop, drop-drop, ◌==◌, arith,
}
use mathlib.Core.Path.{subst}
use rtmpx.Prelude.Bytes.{Byte}
use rtmpx.Payload.{Payload}
use rtmpx.Payload.Segments.{IsValid}
use rtmpx.Chunk.Types.{ChunkHeader, ChunkHeaderFormat}
use rtmpx.Chunk.Encoder.{EncodeOptions, Packet, CursorState, start, packet_of, is_allowed}
use rtmpx.Chunk.Packet.{advance, to_vec, can_drop, wire_len}
use rtmpx.Chunk.Packet.{io_slices}
use rtmpx.Chunk.Packet.Slices.{Sliced, io_slices_lem}
use rtmpx.Chunk.Packet.Progress.{IsSound}
use rtmpx.Chunk.Packet.Copy.{HasLeft, placed, advance_lem, copy_loop_lem}
use rtmpx.Chunk.RoundTrip.Delivery.{packet, whole, packet-IsSound, packet-HasLeft}

-- The packet after the transport took so many bytes, time after time.
abbrev pub advance_all : Option Packet → List ℕ → Option Packet
advance_all none counts = none
advance_all (some p) [] = some p
advance_all (some p) (n ∷ counts) = advance_all (advance p n) counts

abbrev pub sum : List ℕ → ℕ
sum [] = 0
sum (n ∷ ns) = n + sum ns

module _ (p : Packet) (sound : IsSound p) where
  advance_all_lem :
      (counts : List ℕ) (s : CursorState) (r : ℕ) (w : List Byte)
      → HasLeft p s r w
      → sum counts ≤ r
      → (s' : CursorState) × (r' : ℕ) × (advance_all (some (placed p s r)) counts
          ≡ some (placed p s' r'))
        × HasLeft p s' r' (drop (sum counts) w)
        × (r ≡ sum counts + r')
  advance_all_lem [] s r w left le = (s, r, refl, left, omega arith)
  advance_all_lem (n ∷ ns) s r w left le =
      let (s₁, step, left₁) = advance_lem p sound s r n w left (omega (arith, le)) in
      let (s₂, r₂, steps, left₂, counted) =
        advance_all_lem ns s₁ (r - n) (drop n w) left₁ (omega (arith, le)) in
      (
        s₂,
        r₂,
        ap (λ q. advance_all q ns) step ∙ steps,
        subst (HasLeft p s₂ r₂) (drop-drop n (sum ns) w) left₂,
        omega (arith, counted, le),
      )

can_drop_unstarted :
    (p : Packet) (s : CursorState) (r : ℕ)
    → r ≡ wire_len p
    → can_drop (placed p s r) ≡ is_allowed p.drop_policy
unfolding can_drop wire_len
can_drop_unstarted p s r same = allowed (is_allowed p.drop_policy)
  where
    allowed : (b : Bool) → (b && r == wire_len p) ≡ b
    allowed true = ground (arith, same)
    allowed false = refl

can_drop_started :
    (p : Packet) (s : CursorState) (r : ℕ) → r < wire_len p → can_drop (placed p s r) ≡ false
unfolding can_drop wire_len
can_drop_started p s r less = allowed (is_allowed p.drop_policy)
  where
    allowed : (b : Bool) → (b && r == wire_len p) ≡ false
    allowed true = ground (arith, less)
    allowed false = refl

-- What is left of the packet after so much of it was written.
pub record Partly (p p' : Packet) (w : List Byte) (written : ℕ) : Type 0 where
  pub to_write : to_vec p' ≡ some (drop written w)
  pub counts : p.remaining ≡ written + p'.remaining
  pub unstarted : written ≡ 0 → can_drop p' ≡ is_allowed p.drop_policy
  pub started : 0 < written → can_drop p' ≡ false

module _ (size : ℕ) (payload : Payload) (options : EncodeOptions) (h : ChunkHeader)
    (format : ChunkHeaderFormat) (valid : IsValid payload) (pos : 0 < size) where
  abbrev here : Packet
  here = packet size payload options h format valid pos

  whole_len : here.remaining ≡ wire_len here
  unfolding packet_of wire_len
  whole_len = omega arith

  partly :
      (s : CursorState) (r written : ℕ)
      → HasLeft here s r (drop written (whole size payload options h format valid pos))
      → here.remaining ≡ written + r
      → Partly here (placed here s r) (whole size payload options h format valid pos) written
  unfolding to_vec
  partly s r written left counted = record {
    to_write =
        copy_loop_lem here (packet-IsSound size payload options h format valid pos) r s r _ [] left
          (omega arith);
    counts = counted;
    unstarted =
        λ none_yet. can_drop_unstarted here s r (omega (arith, counted, none_yet, whole_len));
    started = λ some_yet. can_drop_started here s r (omega (arith, counted, some_yet, whole_len));
  }

  -- In whatever parts a packet of a valid payload is written, of no more bytes than it has: no call of
  -- `advance` panics, what is left to write is the rest of its wire form, and it can be dropped, if at
  -- all, only before its first byte.
  pub advance_all-to_vec :
      (counts : List ℕ)
      → sum counts ≤ here.remaining
      → (p' : Packet) × (advance_all (some here) counts ≡ some p')
        × Partly here p' (whole size payload options h format valid pos) (sum counts)
  advance_all-to_vec counts le =
      let (s, r, moved, left, counted) =
        advance_all_lem here (packet-IsSound size payload options h format valid pos) counts start
          here.remaining (whole size payload options h format valid pos)
          (packet-HasLeft size payload options h format valid pos) le in
      (placed here s r, at_start ∙ moved, partly s r (sum counts) left counted)
    where
      at_start :
          advance_all (some here) counts
          ≡ advance_all (some (placed here start here.remaining)) counts
      at_start = unfold packet_of in refl

  -- What a vectored write is offered of a packet of which so much was written.
  pub record Offered (written slots : ℕ) (p' : Packet) : Type 0 where
    pub partly : Partly here p' (whole size payload options h format valid pos) written
    pub sliced :
        Sliced slots
          (drop written (whole size payload options h format valid pos))
          (io_slices p' slots)

  -- After a packet of a valid payload was written in whatever parts, of no more bytes than it has,
  -- `io_slices` does not panic, into any number of slots: they hold the front of what is left to
  -- write, with something of it where there is a slot and something is left.
  pub advance_all-io_slices :
      (counts : List ℕ) (slots : ℕ)
      → sum counts ≤ here.remaining
      → (p' : Packet) × (advance_all (some here) counts ≡ some p') × Offered (sum counts) slots p'
  advance_all-io_slices counts slots le =
      let sound = packet-IsSound size payload options h format valid pos in
      let (s, r, moved, left, counted) =
        advance_all_lem here sound counts start here.remaining
          (whole size payload options h format valid pos)
          (packet-HasLeft size payload options h format valid pos) le in
      (
        placed here s r,
        at_start ∙ moved,
        record {
          partly = partly s r (sum counts) left counted;
          sliced = io_slices_lem here sound slots s r _ left;
        },
      )
    where
      at_start :
          advance_all (some here) counts
          ≡ advance_all (some (placed here start here.remaining)) counts
      at_start = unfold packet_of in refl
