-- ===== src/Payload/Walk.antt =====
-- The segments of a payload, one after the other.
use rtmpx.Prelude.{
  ℕ, zero, suc, ◌+◌, ◌<◌, ◌≡◌, refl, sym, ap, ◌∙◌, List, [], ◌∷◌, ◌++◌, length, drop, get_or, arith,
}
use rtmpx.Prelude.Bytes.{Byte}
use native.Mathlib.Nat.{suc-add}
use rtmpx.Payload.{Payload, flatten, segments, segment}
use rtmpx.Payload.Segments.{IsValid, AllFilled}

-- The segments from one that is there on.
pub drop-get_or :
    (j : ℕ) (ss : List (List Byte))
    → 0 < length (get_or ss j [])
    → flatten (drop j ss) ≡ get_or ss j [] ++ flatten (drop (j + 1) ss)
drop-get_or j [] h = absurd (omega arith)
drop-get_or zero (s ∷ ss) h = refl
drop-get_or (suc j) (s ∷ ss) h =
    drop-get_or j ss h ∙ sym (ap (λ k. get_or ss j [] ++ flatten (drop k (s ∷ ss))) (suc-add j 1))

segment-get_or_with :
    (first : List Byte) (rest : List (List Byte)) (n j : ℕ)
    → (first ≡ [] → rest ≡ [])
    → segment (record { first = first; rest = rest; len = n }) j
      ≡ get_or (segments (record { first = first; rest = rest; len = n })) j []
unfolding segment segments
segment-get_or_with [] rest n zero h = rw (h refl)
segment-get_or_with [] rest n (suc j) h = rw (h refl) (ground arith)
segment-get_or_with (x ∷ first) rest n zero h = refl
segment-get_or_with (x ∷ first) rest n (suc j) h = ground arith

-- The trait's `segment` is the segment in the list.
pub segment-get_or : (p : Payload) (j : ℕ) → IsValid p → segment p j ≡ get_or (segments p) j []
segment-get_or p j v = segment-get_or_with p.first p.rest p.len j v.leading

segments-AllFilled_with :
    (first : List Byte) (rest : List (List Byte)) (n : ℕ)
    → AllFilled rest
    → AllFilled (segments (record { first = first; rest = rest; len = n }))
unfolding segments
segments-AllFilled_with [] rest n h = h
segments-AllFilled_with (x ∷ first) rest n h = (omega arith, h)

pub segments-AllFilled : (p : Payload) → IsValid p → AllFilled (segments p)
segments-AllFilled p v = segments-AllFilled_with p.first p.rest p.len v.filled

filled_at :
    (k : ℕ) (ss : List (List Byte))
    → AllFilled ss
    → 0 < length (flatten (drop k ss))
    → 0 < length (get_or ss k [])
filled_at zero [] h pos = absurd (omega arith)
filled_at (suc k) [] h pos = absurd (omega arith)
filled_at zero (s ∷ ss) h pos = h.0
filled_at (suc k) (s ∷ ss) h pos = filled_at k ss h.1 pos

-- While payload is left behind a segment, the next segment is there.
pub next_segment :
    (p : Payload) (k : ℕ)
    → IsValid p
    → 0 < length (flatten (drop k (segments p)))
    → 0 < length (segment p k)
next_segment p k v pos =
    rw (segment-get_or p k v) (filled_at k (segments p) (segments-AllFilled p v) pos)
