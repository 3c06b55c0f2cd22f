-- ===== src/Chunk/Packet/Slices.antt =====
-- The slices of a packet for a vectored write.
use rtmpx.Prelude.{
  ℕ, zero, suc, ◌+◌, ◌-◌, ◌≤◌, ◌<◌, ◌≡◌, refl, sym, ap, ◌∙◌, Option, some, List, [], ◌∷◌, ◌++◌,
  append_assoc, length, length-append, drop, arith,
}
use rtmpx.Prelude.Bytes.{Byte}
use rtmpx.Payload.{flatten}
use rtmpx.Chunk.Encoder.{Packet, CursorState}
use rtmpx.Chunk.Packet.{current_bytes, advance, fill_slot, io_slices}
use rtmpx.Chunk.Packet.Progress.{IsSound}
use rtmpx.Chunk.Packet.Copy.{HasLeft, placed, advance_lem, current_front, current-placed, pos→==}

-- The slots hold the front of what is left, something of it where there is a slot.
pub record Sliced (slots : ℕ) (w : List Byte) (result : Option (List (List Byte) × ℕ))
    : Type 0 where
  pub slices : List (List Byte)
  pub count : ℕ
  pub rest : List Byte
  pub gives : result ≡ some (slices, count)
  pub front : w ≡ flatten slices ++ rest
  pub sized : length slices ≡ slots
  pub counted : count ≤ slots
  pub progress : 0 < slots → 0 < length w → 0 < length (flatten slices)

module _ (p : Packet) (sound : IsSound p) where
  slices_step :
      (k : ℕ) (s s' : CursorState) (r : ℕ)
      → 0 < r
      → advance (placed p s r) (length (current_bytes p s))
        ≡ some (placed p s' (r - length (current_bytes p s)))
      → io_slices (placed p s r) (suc k)
        ≡ fill_slot
            (current_bytes p s)
            1
            (io_slices (placed p s' (r - length (current_bytes p s))) k)
  unfolding io_slices
  slices_step k s s' r pos e = rw (pos→== r pos, current-placed p s s r, e, current-placed p s s r)

  slices_end :
      (k : ℕ) (s : CursorState)
      → io_slices (placed p s 0) (suc k) ≡ fill_slot [] 0 (io_slices (placed p s 0) k)
  unfolding io_slices
  slices_end k s = refl

  pub io_slices_lem :
      (k : ℕ) (s : CursorState) (r : ℕ) (w : List Byte)
      → HasLeft p s r w
      → Sliced k w (io_slices (placed p s r) k)
  io_slices_lem zero s r w left =
      unfold io_slices in
      record {
        slices = [];
        count = 0;
        rest = w;
        gives = refl;
        front = refl;
        sized = refl;
        counted = omega arith;
        progress = λ lt. absurd (omega (arith, lt));
      }
  io_slices_lem (suc k) s zero w left =
      let later = io_slices_lem k s zero w left in
      record {
        slices = [] ∷ later.slices;
        count = 0 + later.count;
        rest = later.rest;
        gives = slices_end k s ∙ rw later.gives refl;
        front = later.front;
        sized = ap suc later.sized;
        counted = omega (arith, later.counted);
        progress = λ lt some_left. absurd (omega (arith, left.counts, some_left));
      }
  io_slices_lem (suc k) s (suc r) w left =
      let cur = current_bytes p s in
      let (split, there) = current_front p sound s (suc r) w left (omega arith) in
      let fits : length cur ≤ suc r =
        omega (arith, left.counts, ap length split, length-append cur (drop (length cur) w)) in
      let (s', e, left') = advance_lem p sound s (suc r) (length cur) w left fits in
      let later = io_slices_lem k s' (suc r - length cur) (drop (length cur) w) left' in
      record {
        slices = cur ∷ later.slices;
        count = 1 + later.count;
        rest = later.rest;
        gives = slices_step k s s' (suc r) (omega arith) e ∙ rw later.gives refl;
        front =
            split
            ∙ ap (λ x. cur ++ x) later.front
            ∙ sym (append_assoc cur (flatten later.slices) later.rest);
        sized = ap suc later.sized;
        counted = omega (arith, later.counted);
        progress = λ _ _. omega (arith, there, length-append cur (flatten later.slices));
      }
