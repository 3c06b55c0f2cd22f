-- ===== src/Flv/Same/Takes.antt =====
-- Taking data off a cursor, and all that a cursor does.
use rtmpx.Prelude.{
  ℕ, ◌-◌, ◌≤◌, ◌≡◌, refl, sym, ap, ◌∙◌, inl, inr, true, false, Bool-cases, List, [], ◌∷◌, length,
  length-drop, take, drop, take_all, ltb, ok, arith,
}
use rtmpx.Prelude.Bytes.{Byte}
use rtmpx.Flv.Cursor.{
  ◌>>=◌, MediaData, Cursor, cursor_remaining, cursor_take, cursor_take_rest, cursor_ops,
}
use rtmpx.Flv.Same.{list_ops, Same, gives, fails, Refines}
use rtmpx.Flv.Same.Cursors
use rtmpx.Flv.Same.Cursors.{IsLawful, drop_cons}

take_from_start : (n : ℕ) (bytes : List Byte) → take (n - 0) bytes ≡ take n bytes
take_from_start n bytes = let same : n - 0 ≡ n = omega arith in ap (λ (k : ℕ). take k bytes) same

module _ {P : Type 0} (m : MediaData P) (is_view : P → Type 0) (bytes_of : P → List Byte)
    (lawful : IsLawful m is_view bytes_of) where
  open lawful use {len_lem, segment_lem, none_lem, slice_lem}

  abbrev IsGood : Cursor P → Type 0
  IsGood = Cursors.IsGood m is_view bytes_of lawful

  pub at_start : (q : P) → is_view q → IsGood (record { raw = q; pos = 0 })
  at_start q is_q = record {
    raw_view = is_q;
    pos_bound = omega arith;
    in_first = λ s same. omega arith;
  }

  take_good :
      (c : Cursor P) (n : ℕ)
      → IsGood c
      → n ≤ length (drop c.pos (bytes_of c.raw))
      → (p : P) × (q : P) × (cursor_take m c n ≡ ok (p, record { raw = q; pos = 0 }))
        × is_view p
        × is_view q
        × (bytes_of p ≡ take n (drop c.pos (bytes_of c.raw)))
        × (bytes_of q ≡ drop n (drop c.pos (bytes_of c.raw)))
  unfolding cursor_take ◌>>=◌
  take_good c n good within =
      let fits : ltb (cursor_remaining m c) n ≡ false =
        ground (arith, Cursors.remaining_view m is_view bytes_of lawful c good) in
      let (q, same, is_q, q_bytes) = Cursors.commit_lem m is_view bytes_of lawful c good in
      let size : m.len q ≡ length (drop c.pos (bytes_of c.raw)) =
        len_lem q is_q ∙ ap length q_bytes in
      let (p, taken, is_p, p_bytes) =
        slice_lem q 0 n is_q (omega arith) (omega (arith, ap length q_bytes)) in
      let (r, left, is_r, r_bytes) =
        slice_lem q n (m.len q) is_q (omega arith) (omega (arith, ap length q_bytes)) in
      (
        p,
        r,
        rw (fits, same, taken, left),
        is_p,
        is_r,
        p_bytes ∙ take_from_start n (bytes_of q) ∙ ap (λ l. take n l) q_bytes,
        r_bytes
            ∙ take_all (m.len q - n) (drop n (bytes_of q))
                (omega (arith, length-drop n (bytes_of q), ap length q_bytes))
            ∙ ap (λ l. drop n l) q_bytes,
      )

  take_view :
      (c : Cursor P) (n : ℕ)
      → IsGood c
      → Same
          (Cursors.cursor_view m is_view bytes_of lawful)
          bytes_of
          is_view
          (drop c.pos (bytes_of c.raw))
          n
          (cursor_take m c n)
          (list_ops.take_bytes (drop c.pos (bytes_of c.raw)) n)
  take_view c n good = elim (Bool-cases (ltb (length (drop c.pos (bytes_of c.raw))) n)) [
    | inl short ↦ too_short short
    | inr enough ↦
        let (p, q, taken, is_p, is_q, p_bytes, q_bytes) = take_good c n good (ground arith) in
        rw (enough, taken)
          (gives (at_start q is_q) is_p (sym p_bytes) (sym q_bytes) (
            omega (
              arith,
              length-drop n (drop c.pos (bytes_of c.raw)),
              ltb-false (length (drop c.pos (bytes_of c.raw))) n enough,
            )))
  ]
    where
      ltb-false : (a b : ℕ) → ltb a b ≡ false → b ≤ a
      ltb-false a b h = ground arith

      too_short :
          ltb (length (drop c.pos (bytes_of c.raw))) n ≡ true
          → Same
              (Cursors.cursor_view m is_view bytes_of lawful)
              bytes_of
              is_view
              (drop c.pos (bytes_of c.raw))
              n
              (cursor_take m c n)
              (list_ops.take_bytes (drop c.pos (bytes_of c.raw)) n)
      too_short short =
          unfold cursor_take in
          rw (Cursors.remaining_view m is_view bytes_of lawful c good, short) fails

  take_rest_view :
      (c : Cursor P)
      → IsGood c
      → Same
          (Cursors.cursor_view m is_view bytes_of lawful)
          bytes_of
          is_view
          (drop c.pos (bytes_of c.raw))
          0
          (cursor_take_rest m c)
          (list_ops.take_rest (drop c.pos (bytes_of c.raw)))
  unfolding cursor_take_rest ◌>>=◌
  take_rest_view c good =
      let (q, same, is_q, q_bytes) = Cursors.commit_lem m is_view bytes_of lawful c good in
      let size = len_lem q is_q in
      let (r, left, is_r, r_bytes) =
        slice_lem q (m.len q) (m.len q) is_q (omega arith) (omega (arith, size)) in
      rw (same, left)
        (gives (at_start r is_r) is_q (sym q_bytes)
          (sym (r_bytes ∙ nothing (m.len q) (drop (m.len q) (bytes_of q)))) (omega arith))
    where
      nothing : (n : ℕ) (bytes : List Byte) → take (n - n) bytes ≡ []
      nothing n bytes =
          let none_left : n - n ≡ 0 = omega arith in ap (λ (k : ℕ). take k bytes) none_left

  first_view : (p : P) → is_view p → (cursor_ops m).first_byte p ≡ list_ops.first_byte (bytes_of p)
  unfolding ◌>>=◌
  first_view p is_p = go (bytes_of p) refl
    where
      head : {x y : Byte} {xs ys : List Byte} → ◌≡◌ {A = List Byte} (x ∷ xs) (y ∷ ys) → x ≡ y
      head e = cc

      go :
          (bytes : List Byte)
          → bytes_of p ≡ bytes
          → (cursor_ops m).first_byte p ≡ list_ops.first_byte bytes
      go [] same = rw (none_lem p is_p (ap length same))
      go (b ∷ bytes) same =
          let (s, more, first, filled, split) = segment_lem p is_p (rw same (omega arith)) in
          let (b', found, left) = drop_cons s more 0 filled in
          rw (first, found) (ap (λ (x : Byte). ok x) (head (sym left ∙ split ∙ same)))

  pub cursor-Refines : Refines (cursor_ops m) (Cursors.cursor_view m is_view bytes_of lawful)
  cursor-Refines = record {
    remaining_lem = Cursors.remaining_view m is_view bytes_of lawful;
    read_u8_lem = Cursors.read_view m is_view bytes_of lawful;
    take_lem = take_view;
    take_rest_lem = take_rest_view;
    len_lem = len_lem;
    first_lem = first_view;
  }
