-- ===== src/Payload/Reading.antt =====
-- What a reader gives of a payload (`PayloadReader` of src/payload.rs).
use rtmpx.Prelude.{
  ℕ, zero, suc, ◌+◌, ◌-◌, ◌≤◌, ◌<◌, ◌≡◌, refl, sym, ap, ◌∙◌, min, ◌||◌, List, [], ◌∷◌, ◌++◌,
  append_assoc, length, length-append, length-take, length-drop, take, drop, take-append-drop,
  drop-drop, drop-nil, take_all, get_or, ◌==◌, dec_lt, append-nil, Bool-cases, inl, inr, arith,
}
use rtmpx.Prelude.Bytes.{Byte}
use rtmpx.Payload.{Payload, PayloadReader, reader, read, segment, segments, flatten, to_bytes}
use rtmpx.Payload.Segments.{IsValid, to_bytes-segments}
use rtmpx.Payload.Walk.{segment-get_or, next_segment}
use native.Mathlib.Nat.{suc-add}

-- The bytes that the reader has not given.
abbrev pub unread : PayloadReader → List Byte
unread r =
    drop r.offset (segment r.payload r.segment_index)
    ++ flatten (drop (r.segment_index + 1) (segments r.payload))

-- The reader stands in a segment, or at the end.
pub record IsPlaced (r : PayloadReader) : Type 0 where
  pub valid : IsValid r.payload
  pub counted : r.remaining ≡ length (unread r)
  pub within : 0 < r.remaining → r.offset < length (segment r.payload r.segment_index)

-- What a call of `read` gives: the next bytes, some where some are wanted and left.
pub record Gave (r : PayloadReader) (size : ℕ) (bytes : List Byte) (after : PayloadReader)
    : Type 0 where
  pub passed : unread r ≡ bytes ++ unread after
  pub placed : IsPlaced after
  pub fits : length bytes ≤ size
  pub progress : 0 < size → 0 < r.remaining → 0 < length bytes

-- The segments from one on, which may be behind the last.
flatten-drop :
    (j : ℕ) (ss : List (List Byte))
    → flatten (drop j ss) ≡ get_or ss j [] ++ flatten (drop (j + 1) ss)
flatten-drop j [] = rw (drop-nil {A = List Byte} j, drop-nil {A = List Byte} (j + 1)) refl
flatten-drop zero (s ∷ ss) = refl
flatten-drop (suc j) (s ∷ ss) =
    flatten-drop j ss ∙ sym (ap (λ k. get_or ss j [] ++ flatten (drop k (s ∷ ss))) (suc-add j 1))

module _ (r : PayloadReader) (size : ℕ) (at : IsPlaced r) (left : 0 < r.remaining)
    (wanted : 0 < size) where
  abbrev here : List Byte
  here = segment r.payload r.segment_index

  abbrev behind : List Byte
  behind = flatten (drop (r.segment_index + 1) (segments r.payload))

  abbrev n : ℕ
  n = min size (length here - r.offset)

  within_lem : r.offset < length here
  within_lem = at.within left

  measured : r.remaining ≡ length here - r.offset + length behind
  measured =
      omega
        (arith, at.counted, length-append (drop r.offset here) behind, length-drop r.offset here)

  -- Where the segment goes on.
  inside :
      r.offset + n < length here
      → Gave r size
          (take n (drop r.offset here))
          (record r { offset = r.offset + n; remaining = r.remaining - n })
  inside more = record {
    passed =
        ap (λ x. x ++ behind)
          (sym (take-append-drop n (drop r.offset here))
            ∙ ap (λ y. take n (drop r.offset here) ++ y) (drop-drop r.offset n here))
        ∙ append_assoc (take n (drop r.offset here)) (drop (r.offset + n) here) behind;
    placed = record {
      valid = at.valid;
      counted = omega (
        arith,
        measured,
        length-append (drop (r.offset + n) here) behind,
        length-drop (r.offset + n) here,
        within_lem,
      );
      within = λ _. more;
    };
    fits = omega (arith, length-take n (drop r.offset here));
    progress = λ _ _.
        omega (
          arith,
          length-take n (drop r.offset here),
          length-drop r.offset here,
          within_lem,
          wanted,
        );
  }

  -- What is behind the segment, from the next one on.
  behind_is :
      behind
      ≡ segment r.payload (r.segment_index + 1)
        ++ flatten (drop (r.segment_index + 1 + 1) (segments r.payload))
  behind_is =
      flatten-drop (r.segment_index + 1) (segments r.payload)
      ∙ ap (λ x. x ++ flatten (drop (r.segment_index + 1 + 1) (segments r.payload)))
          (sym (segment-get_or r.payload (r.segment_index + 1) at.valid))

  -- Where the segment ends.
  outside :
      length here ≤ r.offset + n
      → Gave r size (take n (drop r.offset here)) (record r {
        segment_index = r.segment_index + 1;
        offset = 0;
        remaining = r.remaining - n;
      })
  outside all = record {
    passed =
        ap (λ x. x ++ behind) rest_taken ∙ ap (λ x. take n (drop r.offset here) ++ x) behind_is;
    placed = record {
      valid = at.valid;
      counted = omega (arith, measured, ap length behind_is, all, within_lem);
      within = λ more.
          next_segment r.payload (r.segment_index + 1) at.valid
            (omega (arith, more, measured, all, within_lem));
    };
    fits = omega (arith, length-take n (drop r.offset here));
    progress = λ _ _.
        omega (
          arith,
          length-take n (drop r.offset here),
          length-drop r.offset here,
          within_lem,
          wanted,
        );
  }
    where
      rest_taken : drop r.offset here ≡ take n (drop r.offset here)
      rest_taken = sym (
          take_all n (drop r.offset here)
            (omega (arith, length-drop r.offset here, all, within_lem)))

-- A call of `read` gives the next bytes.
read_lem :
    (r : PayloadReader) (size : ℕ)
    → IsPlaced r
    → let (bytes, after) = read r size in Gave r size bytes after
unfolding read
read_lem r size at = elim (Bool-cases (r.remaining == 0 || size == 0)) [
  | inl nothing ↦ rw nothing (record {
    passed = refl;
    placed = at;
    fits = omega arith;
    progress = λ wanted left. absurd (ground (arith, nothing, wanted, left));
  })
  | inr something ↦
      let left : 0 < r.remaining = ground (arith, something) in
      let wanted : 0 < size = ground (arith, something) in
      let s = segment r.payload r.segment_index in
      let n = min size (length s - r.offset) in
      elim (Bool-cases (r.offset + n == length s)) [
        | inl done ↦ rw (something, done) (outside r size at left wanted (ground (arith, done)))
        | inr more ↦
            rw (something, more)
              (inside r size at left wanted (ground (arith, more, at.within left)))
      ]
]

-- Reading with outputs of these sizes, one after the other.
unfoldable pub read_all : PayloadReader → List ℕ → List Byte × PayloadReader
read_all r [] = ([], r)
read_all r (size ∷ sizes) =
    let (bytes, after) = read r size in
    let (more, last) = read_all after sizes in (bytes ++ more, last)

unread-reader : (p : Payload) → IsValid p → unread (reader p) ≡ flatten (segments p)
unfolding reader
unread-reader p valid =
    ap (λ x. x ++ flatten (drop 1 (segments p))) (segment-get_or p 0 valid)
    ∙ sym (flatten-drop 0 (segments p))

reader-IsPlaced : (p : Payload) → IsValid p → IsPlaced (reader p)
unfolding reader
reader-IsPlaced p valid = record {
  valid = valid;
  counted = valid.measured ∙ sym (ap length (unread-reader p valid));
  within = λ left. next_segment p 0 valid (omega (arith, left, valid.measured));
}

read_all_lem :
    (sizes : List ℕ) (r : PayloadReader)
    → IsPlaced r
    → let (bytes, last) = read_all r sizes in (unread r ≡ bytes ++ unread last) × IsPlaced last
unfolding read_all
read_all_lem [] r at = (refl, at)
read_all_lem (size ∷ sizes) r at =
    let gave = read_lem r size at in
    let (bytes, after) = read r size in
    let (more, placed) = read_all_lem sizes after gave.placed in
    (
      gave.passed
          ∙ ap (λ x. bytes ++ x) more
          ∙ sym (append_assoc bytes (read_all after sizes).0 (unread (read_all after sizes).1)),
      placed,
    )

abbrev pub AllPositive : List ℕ → Type 0
AllPositive [] = Unit {0}
AllPositive (n ∷ ns) = (0 < n) × AllPositive ns

after_bound :
    (r after : PayloadReader) (size k : ℕ) (bytes : List Byte)
    → IsPlaced r
    → Gave r size bytes after
    → 0 < size
    → r.remaining ≤ suc k
    → after.remaining ≤ k
after_bound r after size k bytes at gave wanted le = elim (dec_lt 0 r.remaining) [
  | yes left ↦ omega (
    arith,
    gave.progress wanted left,
    at.counted,
    gave.placed.counted,
    ap length gave.passed,
    length-append bytes (unread after),
    le,
  )
  | no none_left ↦ omega (
    arith,
    none_left,
    at.counted,
    gave.placed.counted,
    ap length gave.passed,
    length-append bytes (unread after),
  )
]

read_to_end :
    (sizes : List ℕ) (r : PayloadReader)
    → IsPlaced r
    → AllPositive sizes
    → r.remaining ≤ length sizes
    → unread (read_all r sizes).1 ≡ []
unfolding read_all
read_to_end [] r at all le = nothing (unread r) (omega (arith, le, at.counted))
  where
    nothing : (xs : List Byte) → length xs ≡ 0 → xs ≡ []
    nothing [] e = refl
    nothing (x ∷ xs) e = absurd (omega (arith, e))
read_to_end (size ∷ sizes) r at (wanted, all) le =
    let gave = read_lem r size at in
    read_to_end sizes (read r size).1 gave.placed all
      (after_bound r (read r size).1 size (length sizes) (read r size).0 at gave wanted le)

-- A reader of a valid payload, read with as many outputs as the payload has bytes, none of them empty,
-- gives the payload's contiguous bytes and nothing else.
pub read_all-to_bytes :
    (p : Payload) (sizes : List ℕ)
    → IsValid p
    → AllPositive sizes
    → p.len ≤ length sizes
    → (read_all (reader p) sizes).0 ≡ to_bytes p
read_all-to_bytes p sizes valid all enough =
    let (split, placed) = read_all_lem sizes (reader p) (reader-IsPlaced p valid) in
    let ended =
      read_to_end sizes (reader p) (reader-IsPlaced p valid) all (unfold reader in enough) in
    sym (append-nil (read_all (reader p) sizes).0)
    ∙ ap (λ x. (read_all (reader p) sizes).0 ++ x) (sym ended)
    ∙ sym split
    ∙ unread-reader p valid
    ∙ sym (to_bytes-segments p)
