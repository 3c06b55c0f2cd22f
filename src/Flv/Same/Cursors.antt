-- ===== src/Flv/Same/Cursors.antt =====
-- A cursor over lawful data reads what a plain list of its bytes gives.
use rtmpx.Prelude.{
  ℕ, zero, suc, ◌+◌, ◌-◌, ◌<◌, ◌≤◌, ◌≡◌, refl, sym, ap, ◌∙◌, inl, inr, true, false, Bool-cases,
  some, List, [], ◌∷◌, ◌++◌, length, length-append, length-drop, get_elem?, take, drop, take_all,
  ◌==◌, ok, err, stuck, arith,
}
use rtmpx.Prelude.Bytes.{Byte}
use rtmpx.Flv.Cursor.{◌>>=◌, truncated, MediaData, Cursor, cursor_remaining, commit, cursor_read_u8}
use rtmpx.Flv.Same.{list_ops, View, Same, gives, fails, Any, same_value}

-- What the parser relies on: the length, a first segment that is not empty where there are bytes, and
-- slices of the bytes.
pub record IsLawful {P : Type 0} (m : MediaData P) (is_view : P → Type 0) (bytes_of : P → List Byte)
    : Type 0 where
  pub len_lem : (p : P) → is_view p → m.len p ≡ length (bytes_of p)
  pub segment_lem :
      (p : P)
      → is_view p
      → 0 < length (bytes_of p)
      → (s : List Byte) × (more : List Byte) × (m.segment0 p ≡ ok s)
        × (0 < length s)
        × (s ++ more ≡ bytes_of p)
  pub none_lem : (p : P) → is_view p → length (bytes_of p) ≡ 0 → m.segment0 p ≡ stuck
  pub slice_lem :
      (p : P) (start stop : ℕ)
      → is_view p
      → start ≤ stop
      → stop ≤ length (bytes_of p)
      → (q : P) × (m.media_slice p start stop ≡ ok q)
        × is_view q
        × (bytes_of q ≡ take (stop - start) (drop start (bytes_of p)))

pub drop_cons :
    (s more : List Byte) (i : ℕ)
    → i < length s
    → (b : Byte) × (get_elem? s i ≡ some b) × (drop i (s ++ more) ≡ b ∷ drop (suc i) (s ++ more))
drop_cons [] more i low = elim low [ ]
drop_cons (x ∷ s) more zero low = (x, refl, refl)
drop_cons (x ∷ s) more (suc i) low = drop_cons s more i (omega arith)

module _ {P : Type 0} (m : MediaData P) (is_view : P → Type 0) (bytes_of : P → List Byte)
    (lawful : IsLawful m is_view bytes_of) where
  open lawful use {len_lem, segment_lem, none_lem, slice_lem}

  -- The position is within the first segment.
  pub record IsGood (c : Cursor P) : Type 0 where
    pub raw_view : is_view c.raw
    pub pos_bound : c.pos ≤ length (bytes_of c.raw)
    pub in_first : (s : List Byte) → m.segment0 c.raw ≡ ok s → c.pos ≤ length s

  abbrev pub rest_bytes : Cursor P → List Byte
  rest_bytes c = drop c.pos (bytes_of c.raw)

  abbrev pub cursor_view : View (Cursor P) P
  cursor_view = record {
    good = IsGood;
    rest_of = rest_bytes;
    is_view = is_view;
    bytes_of = bytes_of;
  }

  pub remaining_view : (c : Cursor P) → IsGood c → cursor_remaining m c ≡ length (rest_bytes c)
  unfolding cursor_remaining
  remaining_view c good =
      omega (arith, len_lem c.raw good.raw_view, length-drop c.pos (bytes_of c.raw))

  -- A cursor at its data's start, with the same bytes left.
  pub commit_lem :
      (c : Cursor P)
      → IsGood c
      → (q : P) × (commit m c ≡ ok (record { raw = q; pos = 0 }))
        × is_view q
        × (bytes_of q ≡ rest_bytes c)
  unfolding commit ◌>>=◌
  commit_lem c good = elim (Bool-cases (c.pos == 0)) [
    | inl front ↦
        let at : c.pos ≡ 0 = ground arith in
        (
          c.raw,
          rw front (ap (λ (n : ℕ). ok (record { raw = c.raw; pos = n })) at),
          good.raw_view,
          ap (λ (n : ℕ). drop n (bytes_of c.raw)) (sym at),
        )
    | inr past ↦
        let size = len_lem c.raw good.raw_view in
        let (q, same, is_q, bytes) =
          slice_lem c.raw c.pos (m.len c.raw) good.raw_view (omega (arith, good.pos_bound, size))
            (omega (arith, size)) in
        (
          q,
          rw (past, same),
          is_q,
          bytes
              ∙ take_all (m.len c.raw - c.pos) (rest_bytes c)
                  (omega (arith, size, length-drop c.pos (bytes_of c.raw))),
        )
  ]

  -- A byte within the first segment.
  read_at :
      (c : Cursor P) (s more : List Byte)
      → is_view c.raw
      → m.segment0 c.raw ≡ ok s
      → s ++ more ≡ bytes_of c.raw
      → c.pos < length s
      → (b : Byte) × (get_elem? s c.pos ≡ some b)
        × IsGood (record c { pos = c.pos + 1 })
        × (rest_bytes c ≡ b ∷ rest_bytes (record c { pos = c.pos + 1 }))
  read_at c s more is_raw first bytes low =
      let (b, found, left) = drop_cons s more c.pos low in
      let next : c.pos + 1 ≡ suc c.pos = omega arith in
      (
        b,
        found,
        record {
          raw_view = is_raw;
          pos_bound = rw (sym bytes) (omega (arith, length-append s more));
          in_first = λ s' same. let e : s ≡ s' = cc in rw (sym e) (omega arith);
        },
        rw (sym bytes, next) left,
      )

  read-IsGood :
      (c : Cursor P)
      → IsGood c
      → 0 < length (rest_bytes c)
      → (b : Byte) × (c' : Cursor P) × (cursor_read_u8 m c ≡ ok (b, c'))
        × IsGood c'
        × (rest_bytes c ≡ b ∷ rest_bytes c')
  unfolding cursor_read_u8 ◌>>=◌
  read-IsGood c good more_left =
      let whole : length (rest_bytes c) + c.pos ≡ length (bytes_of c.raw) =
        omega (arith, good.pos_bound, length-drop c.pos (bytes_of c.raw)) in
      let (s, more, first, filled, bytes) = segment_lem c.raw good.raw_view (omega arith) in
      let open_left : (cursor_remaining m c == 0) ≡ false = ground (arith, remaining_view c good) in
      elim (Bool-cases (c.pos == length s)) [
        | inl at_end ↦
            let (q, same, is_q, q_bytes) = commit_lem c good in
            let (s', more', first', filled', bytes') = segment_lem q is_q (rw q_bytes more_left) in
            let (b, found, good', left) =
              read_at (record { raw = q; pos = 0 }) s' more' is_q first' bytes' filled' in
            (
              b,
              record { raw = q; pos = 0 + 1 },
              rw (open_left, first, at_end, same, first', found),
              good',
              sym q_bytes ∙ left,
            )
        | inr inside ↦
            let low : c.pos < length s = ground (arith, good.in_first s first) in
            let (b, found, good', left) = read_at c s more good.raw_view first bytes low in
            (
              b,
              record c { pos = c.pos + 1 },
              rw (open_left, first, inside, first, found),
              good',
              left,
            )
      ]

  pub read_view :
      (c : Cursor P)
      → IsGood c
      → Same cursor_view same_value Any
          (rest_bytes c)
          1
          (cursor_read_u8 m c)
          (list_ops.read_u8 (rest_bytes c))
  read_view c good = go (rest_bytes c) refl
    where
      none_left : length (rest_bytes c) ≡ 0 → cursor_read_u8 m c ≡ err truncated
      none_left e =
          let done : (cursor_remaining m c == 0) ≡ true = ground (arith, remaining_view c good) in
          unfold cursor_read_u8 in rw done

      go :
          (left : List Byte)
          → rest_bytes c ≡ left
          → Same cursor_view same_value Any left 1 (cursor_read_u8 m c) (list_ops.read_u8 left)
      go [] same = rw (none_left (ap length same)) fails
      go (b ∷ left) same =
          let (b', c', read, good', split) = read-IsGood c good (rw same (omega arith)) in
          rw read (gives good' tt (cc) (cc) (omega arith))
