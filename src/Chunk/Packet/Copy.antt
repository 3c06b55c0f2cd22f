-- ===== src/Chunk/Packet/Copy.antt =====
-- Advancing a packet and copying out what is left of it.
use rtmpx.Prelude.{
  ℕ, zero, suc, ◌+◌, ◌-◌, ◌≤◌, ◌<◌, ◌≡◌, refl, sym, ap, ◌∙◌, min, true, false, some, List, [], ◌∷◌,
  ◌++◌, append_assoc, append-nil, length, length-append, take, drop, length-take, length-drop, leb,
  ◌==◌, arith,
}
use native.Mathlib.Nat.{sub-zero}
use rtmpx.Prelude.Bytes.{Byte}
use rtmpx.Chunk.Encoder.{Packet, CursorState}
use rtmpx.Chunk.Packet.{current_bytes, advance_once, advance_loop, advance, copy_loop}
use rtmpx.Prelude.{drop-append_le, drop_all, drop-drop}
use rtmpx.Chunk.Packet.Progress.{IsSound, Standing}
use rtmpx.Chunk.Packet.Turned.{rest_wire, turned}

-- The packet with its cursor elsewhere.
abbrev pub placed : Packet → CursorState → ℕ → Packet
placed p s r = record p { state = s; remaining = r }

-- A packet with the wire bytes `w` left.
pub record HasLeft (p : Packet) (s : CursorState) (r : ℕ) (w : List Byte) : Type 0 where
  pub stands : Standing p s
  pub rest : rest_wire p s ≡ w
  pub counts : r ≡ length w

pub current-placed :
    (p : Packet) (s t : CursorState) (r : ℕ) → current_bytes (placed p s r) t ≡ current_bytes p t
unfolding current_bytes
current-placed p s t r = refl

advance_once-placed :
    (p : Packet) (s t : CursorState) (r n : ℕ)
    → advance_once (placed p s r) t n ≡ advance_once p t n
unfolding advance_once
advance_once-placed p s t r n = refl

drop-append_exact :
    (n k : ℕ) (xs ys : List Byte) → length xs ≡ n → drop (n + k) (xs ++ ys) ≡ drop k ys
drop-append_exact n k xs ys e =
    sym (drop-drop n k (xs ++ ys))
    ∙ ap (λ l. drop k l)
        (drop-append_le n xs ys (omega (arith, e))
          ∙ ap (λ l. l ++ ys) (drop_all n xs (omega (arith, e))))

le→leb : (a b : ℕ) → a ≤ b → leb a b ≡ true
le→leb a b h = ground arith

pub pos→== : (r : ℕ) → 0 < r → (r == 0) ≡ false
pos→== r h = ground arith

take_all : (xs : List Byte) → take (length xs) xs ≡ xs
take_all [] = refl
take_all (x ∷ xs) = ap (λ l. x ∷ l) (take_all xs)

module _ (p : Packet) (sound : IsSound p) where
  -- One turn, with what is left behind it.
  left_turn :
      (s : CursorState) (r n : ℕ) (w : List Byte)
      → HasLeft p s r w
      → 0 < length w
      → n ≤ length (current_bytes p s)
      → HasLeft p (advance_once p s n) (r - n) (drop n w)
        × (w ≡ take n (current_bytes p s) ++ drop n w)
        × (0 < length (current_bytes p s))
  left_turn s r n w left pos le =
      let (t, some_there) = turned p s n sound left.stands (rw left.rest pos) le in
      let split : w ≡ take n (current_bytes p s) ++ rest_wire p (advance_once p s n) =
        sym left.rest ∙ t.passed in
      let sized : length (take n (current_bytes p s)) ≡ n =
        omega (arith, length-take n (current_bytes p s)) in
      let dropped : drop n w ≡ rest_wire p (advance_once p s n) =
        ap (λ l. drop n l) split
        ∙ drop-append_le n (take n (current_bytes p s)) _ (omega (arith, sized))
        ∙ ap (λ l. l ++ rest_wire p (advance_once p s n))
            (drop_all n (take n (current_bytes p s)) (omega (arith, sized))) in
      (
        record {
          stands = t.stands;
          rest = sym dropped;
          counts = omega (arith, left.counts, length-drop n w);
        },
        split ∙ ap (λ l. take n (current_bytes p s) ++ l) (sym dropped),
        some_there,
      )

  loop_step :
      (fuel : ℕ) (s : CursorState) (r count n : ℕ)
      → n ≡ min count (length (current_bytes p s))
      → 0 < count
      → 0 < r
      → advance_loop (suc fuel) (placed p s r) count
        ≡ advance_loop fuel (placed p (advance_once p s n) (r - n)) (count - n)
  unfolding advance_loop
  loop_step fuel s r count n e pos some_left =
      rw (current-placed p s s r, ← e, advance_once-placed p s s r n) (ground arith)

  advance_loop_lem :
      (fuel : ℕ) (s : CursorState) (r count : ℕ) (w : List Byte)
      → HasLeft p s r w
      → count ≤ r
      → count ≤ fuel
      → (s' : CursorState) × (advance_loop fuel (placed p s r) count
          ≡ some (placed p s' (r - count)))
        × HasLeft p s' (r - count) (drop count w)
  advance_loop_lem zero s r zero w left le enough = (
    s,
    (unfold advance_loop in ap (λ k. some (placed p s k)) {x = r} {y = r - 0} (omega arith)),
    rw sub-zero left,
  )
  advance_loop_lem (suc fuel) s r zero w left le enough = (
    s,
    (unfold advance_loop in ap (λ k. some (placed p s k)) {x = r} {y = r - 0} (omega arith)),
    rw sub-zero left,
  )
  advance_loop_lem zero s r (suc count) w left le enough = absurd (omega arith)
  advance_loop_lem (suc fuel) s r (suc count) w left le enough =
      let n = min (suc count) (length (current_bytes p s)) in
      let (left', _, there) = left_turn s r n w left (omega (arith, left.counts)) (omega arith) in
      let (s', e, left_end) =
        advance_loop_lem fuel (advance_once p s n) (r - n) (suc count - n) (drop n w) left'
          (omega arith) (omega (arith, there)) in
      let total : r - n - (suc count - n) ≡ r - suc count = omega arith in
      let both : n + (suc count - n) ≡ suc count = omega arith in
      (
        s',
        loop_step fuel s r (suc count) n refl (omega arith) (omega arith)
            ∙ e
            ∙ ap (λ k. some (placed p s' k)) total,
        rw (total, drop-drop n (suc count - n) w, both) at left_end,
      )

  -- Advancing by no more than what is left succeeds, passes over exactly so many wire bytes, and
  -- leaves the others in order.
  pub advance_lem :
      (s : CursorState) (r count : ℕ) (w : List Byte)
      → HasLeft p s r w
      → count ≤ r
      → (s' : CursorState) × (advance (placed p s r) count ≡ some (placed p s' (r - count)))
        × HasLeft p s' (r - count) (drop count w)
  unfolding advance
  advance_lem s r count w left le =
      let (s', e, left') = advance_loop_lem count s r count w left le (omega arith) in
      (s', rw (le→leb count r le) e, left')

  -- What is current is the front of what is left.
  pub current_front :
      (s : CursorState) (r : ℕ) (w : List Byte)
      → HasLeft p s r w
      → 0 < r
      → (w ≡ current_bytes p s ++ drop (length (current_bytes p s)) w)
        × (0 < length (current_bytes p s))
  current_front s r w left pos =
      let cur = current_bytes p s in
      let (_, split, there) =
        left_turn s r (length cur) w left (omega (arith, left.counts)) (omega arith) in
      (split ∙ ap (λ l. l ++ drop (length cur) w) (take_all cur), there)

  copy_step :
      (fuel : ℕ) (s s' : CursorState) (r : ℕ) (out : List Byte)
      → 0 < r
      → advance (placed p s r) (length (current_bytes p s))
        ≡ some (placed p s' (r - length (current_bytes p s)))
      → copy_loop (suc fuel) (placed p s r) out
        ≡ copy_loop fuel (placed p s' (r - length (current_bytes p s))) (out ++ current_bytes p s)
  unfolding copy_loop
  copy_step fuel s s' r out pos e =
      rw (pos→== r pos, current-placed p s s r, e, current-placed p s s r)

  pub copy_loop_lem :
      (fuel : ℕ) (s : CursorState) (r : ℕ) (w out : List Byte)
      → HasLeft p s r w
      → r ≤ fuel
      → copy_loop fuel (placed p s r) out ≡ some (out ++ w)
  copy_loop_lem zero s zero [] out left enough = unfold copy_loop in ap some (sym (append-nil out))
  copy_loop_lem (suc fuel) s zero [] out left enough =
      unfold copy_loop in ap some (sym (append-nil out))
  copy_loop_lem zero s zero (x ∷ w) out left enough = absurd (omega (arith, left.counts))
  copy_loop_lem (suc fuel) s zero (x ∷ w) out left enough = absurd (omega (arith, left.counts))
  copy_loop_lem zero s (suc r) w out left enough = absurd (omega arith)
  copy_loop_lem (suc fuel) s (suc r) w out left enough =
      let cur = current_bytes p s in
      let (split, there) = current_front s (suc r) w left (omega arith) in
      let fits : length cur ≤ suc r =
        omega (arith, left.counts, ap length split, length-append cur (drop (length cur) w)) in
      let (s', e, left') = advance_lem s (suc r) (length cur) w left fits in
      copy_step fuel s s' (suc r) out (omega arith) e
      ∙ copy_loop_lem fuel s' (suc r - length cur) (drop (length cur) w) (out ++ cur) left'
          (omega (arith, there))
      ∙ ap some (append_assoc out cur (drop (length cur) w) ∙ ap (λ l. out ++ l) (sym split))
