-- ===== src/Chunk/Packet/Body.antt =====
-- The cursor in the payload of a chunk.
use rtmpx.Prelude.{
  ℕ, zero, suc, ◌+◌, ◌-◌, ◌*◌, ◌≤◌, ◌<◌, ◌≡◌, refl, sym, ap, ◌∙◌, min, true, List, [], ◌∷◌, ◌++◌,
  length, length-append, take, drop, get_or, length-take, length-drop, ◌==◌, arith, Bool-cases, inl,
  inr,
}
use rtmpx.Prelude.Bytes.{Byte}
use mathlib.Core.Path.{ap₂}
use rtmpx.Payload.{flatten, segments, segment}
use rtmpx.Chunk.Encoder.{Packet, CursorState}
use rtmpx.Chunk.Packet.{header_at, current_bytes, span, advance_body}
use rtmpx.Prelude.{drop-drop, take-append_le, drop-append_le, drop_all}
use rtmpx.Payload.Walk.{drop-get_or, segment-get_or, next_segment}
use rtmpx.Chunk.Packet.Progress.{
  unsent, tail_wire, left_over, IsSound, Standing, tail_wire-split, left_behind, body_current,
  left_fresh,
}

pub take-take {ℓ} : {A : Type ℓ} (n k : ℕ) (xs : List A) → n ≤ k → take n (take k xs) ≡ take n xs
take-take zero k xs h = refl
take-take (suc n) zero xs h = absurd (omega arith)
take-take (suc n) (suc k) [] h = refl
take-take (suc n) (suc k) (x ∷ xs) h = ap (λ l. x ∷ l) (take-take n k xs (omega arith))

pub ==→eq : (a b : ℕ) → (a == b) ≡ true → a ≡ b
==→eq a b h = ground arith

-- In the payload.
module _ (p : Packet) (s : CursorState) (sound : IsSound p)
    (here : s.offset < length (segment p.payload s.segment)) where
  abbrev pub piece : List Byte
  piece = segment p.payload s.segment

  abbrev pub following : List Byte
  following = flatten (drop (s.segment + 1) (segments p.payload))

  pub piece_is : piece ≡ get_or (segments p.payload) s.segment []
  piece_is = segment-get_or p.payload s.segment sound.valid

  pub unsent_split : unsent p s ≡ drop s.offset piece ++ following
  unsent_split =
      ap (λ x. drop s.offset x)
        (drop-get_or s.segment (segments p.payload) (omega (arith, ap length piece_is))
          ∙ ap (λ x. x ++ following) (sym piece_is))
      ∙ drop-append_le s.offset piece following (omega arith)

  pub unsent_moved :
      (n : ℕ) → n ≤ length piece - s.offset → unsent p (advance_body p s n) ≡ drop n (unsent p s)
  unfolding advance_body
  unsent_moved n le = elim (Bool-cases (s.offset + n == length piece)) [
    | inl done ↦ rw done (
        sym (
          ap (λ x. drop n x) unsent_split
          ∙ drop-append_le n (drop s.offset piece) following
              (omega (arith, length-drop s.offset piece))
          ∙ ap (λ x. x ++ following)
              (drop_all n (drop s.offset piece)
                (omega (arith, length-drop s.offset piece, ==→eq _ _ done)))))
    | inr more ↦
        rw more (sym (drop-drop s.offset n (flatten (drop s.segment (segments p.payload)))))
  ]

  module _ (standing : Standing p s) (behind : length (header_at p s) ≤ s.header) where
    pub length-unsent : length (unsent p s) ≡ length piece - s.offset + length following
    length-unsent = omega (
      arith,
      ap length unsent_split,
      length-append (drop s.offset piece) following,
      length-drop s.offset piece,
    )

    pub span_is : span p s ≡ min (length piece - s.offset) (p.chunk_size - s.body)
    span_is = omega (arith, standing, length-unsent)

    pub body_taken : (n : ℕ) → n ≤ span p s → take n (unsent p s) ≡ take n (current_bytes p s)
    body_taken n le =
        ap (λ x. take n x) unsent_split
        ∙ take-append_le n (drop s.offset piece) following
            (omega (arith, span_is, length-drop s.offset piece))
        ∙ sym (take-take n (span p s) (drop s.offset piece) le)
        ∙ ap (λ x. take n x) (sym (body_current p s behind))

    pub body_left :
        (n : ℕ) (d : List Byte)
        → n ≤ span p s
        → left_over p (advance_body p s n) d ≡ tail_wire p (p.chunk_size - s.body - n) d
    unfolding advance_body
    body_left n d le = elim (Bool-cases (s.body + n == p.chunk_size)) [
      | inl done ↦
          let none_left : 0 ≡ p.chunk_size - s.body - n = omega (arith, ==→eq _ _ done) in
          left_fresh p (advance_body p s n) d sound (rw done) (rw done (ground arith))
          ∙ ap (λ k. tail_wire p k d) none_left
      | inr more ↦
          let some_left : p.chunk_size - (advance_body p s n).body ≡ p.chunk_size - s.body - n =
            rw more (omega arith) in
          left_behind p (advance_body p s n) (rw more behind) d
          ∙ ap (λ k. tail_wire p k d) some_left
    ]

    -- A turn within the payload.
    pub body_turn :
        (n : ℕ)
        → n ≤ span p s
        → left_over p s (unsent p s)
          ≡ take n (current_bytes p s)
            ++ left_over p (advance_body p s n) (unsent p (advance_body p s n))
    body_turn n le =
        left_behind p s behind (unsent p s)
        ∙ ap (λ k. tail_wire p k (unsent p s)) {y = n + (p.chunk_size - s.body - n)}
            (omega (arith, span_is))
        ∙ tail_wire-split p n (p.chunk_size - s.body - n) (unsent p s)
        ∙ ap₂ (λ x y. x ++ y) (body_taken n le)
            (sym (
              body_left n (unsent p (advance_body p s n)) le
              ∙ ap (λ d. tail_wire p (p.chunk_size - s.body - n) d)
                  (unsent_moved n (omega (arith, span_is)))))

    pub length-moved :
        (n : ℕ) → n ≤ span p s → length (unsent p (advance_body p s n)) ≡ length (unsent p s) - n
    length-moved n le =
        ap length (unsent_moved n (omega (arith, span_is))) ∙ length-drop n (unsent p s)

    pub moved_counted :
        (n : ℕ)
        → n ≤ span p s
        → p.payload.len
          ≡ (advance_body p s n).chunk * p.chunk_size
            + (advance_body p s n).body
            + (length (unsent p s) - n)
    unfolding advance_body
    moved_counted n le = elim (Bool-cases (s.body + n == p.chunk_size)) [
      | inl done ↦ rw done (omega (arith, standing, span_is, length-unsent, ==→eq _ _ done))
      | inr more ↦ rw more (omega (arith, standing, span_is, length-unsent))
    ]

    pub moved_within_chunk : (n : ℕ) → n ≤ span p s → (advance_body p s n).body < p.chunk_size
    unfolding advance_body
    moved_within_chunk n le = ground (arith, sound, span_is, standing)

    pub moved_header :
        (n : ℕ)
        → ((advance_body p s n).header ≤ length (header_at p (advance_body p s n)))
          × ((advance_body p s n).header < length (header_at p (advance_body p s n))
              → (advance_body p s n).body ≡ 0)
    unfolding advance_body
    moved_header n = elim (Bool-cases (s.body + n == p.chunk_size)) [
      | inl done ↦ (rw done (omega arith), rw done (λ _. refl))
      | inr more ↦ (rw more standing.within_header, rw more (λ lt. absurd (omega arith)))
    ]

    pub moved_within_segment :
        (n : ℕ)
        → n ≤ span p s
        → 0 < length (unsent p (advance_body p s n))
        → (advance_body p s n).offset < length (segment p.payload (advance_body p s n).segment)
    unfolding advance_body
    moved_within_segment n le = elim (Bool-cases (s.offset + n == length piece)) [
      | inl done ↦ rw done (λ pos. next_segment p.payload (s.segment + 1) sound.valid pos)
      | inr more ↦ rw more (λ pos. ground (arith, span_is))
    ]

    pub length-body_current : length (current_bytes p s) ≡ span p s
    length-body_current =
        ap length (body_current p s behind)
        ∙ omega (
          arith,
          length-take (span p s) (drop s.offset piece),
          length-drop s.offset piece,
          span_is,
        )

    pub span_positive : 0 < span p s
    span_positive = omega (arith, span_is, standing)

    -- The cursor behind the turn stands well again.
    pub body-Standing : (n : ℕ) → n ≤ span p s → Standing p (advance_body p s n)
    body-Standing n le = record {
      within_segment = moved_within_segment n le;
      counted = omega (arith, moved_counted n le, length-moved n le);
      within_chunk = moved_within_chunk n le;
      within_header = (moved_header n).0;
      header_first = (moved_header n).1;
    }
