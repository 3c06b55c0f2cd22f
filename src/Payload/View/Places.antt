-- ===== src/Payload/View/Places.antt =====
-- Where a segment and an offset in it stand in the bytes of all segments.
use rtmpx.Prelude.{
  ℕ, zero, suc, ◌+◌, ◌-◌, ◌<◌, ◌≤◌, ◌≡◌, refl, sym, ap, ◌∙◌, Bool-cases, inl, inr, some, List, [],
  ◌∷◌, ◌++◌, length, length-append, get_elem?, drop, drop-append_le, drop-drop, drop_all, ltb, leb,
  ◌==◌, Outcome, ok, arith,
}
use rtmpx.Prelude.Bytes.{Byte}
use rtmpx.Payload.{flatten}
use rtmpx.Payload.Segments.{AllFilled}
use rtmpx.Payload.View.{source_segment, skip_loop, end_loop}

-- The bytes of the segments before the `i`-th.
abbrev pub before : List (List Byte) → ℕ → ℕ
before [] i = 0
before (s ∷ source) zero = 0
before (s ∷ source) (suc i) = length s + before source i

pub before-suc :
    (source : List (List Byte)) (i : ℕ) (s : List Byte)
    → get_elem? source i ≡ some s
    → before source (suc i) ≡ before source i + length s
before-suc [] i s found = absurd cc
before-suc (t ∷ []) zero s found = ground arith
before-suc (t ∷ u ∷ source) zero s found = ground arith
before-suc (t ∷ source) (suc i) s found = omega (arith, before-suc source i s found)

pub before_le : (source : List (List Byte)) (i : ℕ) → before source i ≤ length (flatten source)
before_le [] i = omega arith
before_le (s ∷ source) zero = omega arith
before_le (s ∷ source) (suc i) = omega (arith, before_le source i, length-append s (flatten source))

pub before_mono : (source : List (List Byte)) (i j : ℕ) → i ≤ j → before source i ≤ before source j
before_mono [] i j le = omega arith
before_mono (s ∷ source) zero j le = omega arith
before_mono (s ∷ source) (suc i) zero le = absurd (omega arith)
before_mono (s ∷ source) (suc i) (suc j) le = omega (arith, before_mono source i j (omega arith))

-- A place before the end of the bytes is in a segment that is there.
pub segment_there :
    (source : List (List Byte)) (i : ℕ)
    → before source i < length (flatten source)
    → (s : List Byte) × (get_elem? source i ≡ some s)
segment_there [] i low = absurd (omega arith)
segment_there (s ∷ source) zero low = (s, refl)
segment_there (s ∷ source) (suc i) low =
    segment_there source i (omega (arith, length-append s (flatten source)))

pub index_bound :
    (source : List (List Byte)) (i : ℕ) (s : List Byte)
    → get_elem? source i ≡ some s
    → i < length source
index_bound [] i s found = absurd cc
index_bound (t ∷ source) zero s found = omega arith
index_bound (t ∷ source) (suc i) s found = omega (arith, index_bound source i s found)

pub drop_place :
    (source : List (List Byte)) (i o : ℕ) (s : List Byte)
    → get_elem? source i ≡ some s
    → o ≤ length s
    → drop (before source i + o) (flatten source) ≡ drop o s ++ flatten (drop (suc i) source)
drop_place [] i o s found within = absurd cc
drop_place (t ∷ source) zero o s found within =
    let same : t ≡ s = cc in
    let none_before : 0 + o ≡ o = omega arith in
    ap (λ (n : ℕ). drop n (t ++ flatten source)) none_before
    ∙ rw same (drop-append_le o s (flatten source) within)
drop_place (t ∷ source) (suc i) o s found within =
    let regroup : length t + before source i + o ≡ length t + (before source i + o) = omega arith in
    ap (λ (n : ℕ). drop n (t ++ flatten source)) regroup
    ∙ sym (drop-drop (length t) (before source i + o) (t ++ flatten source))
    ∙ ap (λ l. drop (before source i + o) l)
        (drop-append_le (length t) t (flatten source) (omega arith)
          ∙ ap (λ l. l ++ flatten source) (drop_all (length t) t (omega arith)))
    ∙ drop_place source i o s found within

pub source_segment_lem :
    {E : Type 0} (source : List (List Byte)) (i : ℕ) (s : List Byte)
    → get_elem? source i ≡ some s
    → ◌≡◌ {A = Outcome E (List Byte)} (source_segment source i) (ok s)
unfolding source_segment
source_segment_lem source i s found = rw (found, source_segment)

pub filled_there :
    (source : List (List Byte)) (i : ℕ) (s : List Byte)
    → AllFilled source
    → get_elem? source i ≡ some s
    → 0 < length s
filled_there [] i s filled found = absurd cc
filled_there (t ∷ source) zero s filled found = let same : t ≡ s = cc in rw (sym same) filled.0
filled_there (t ∷ source) (suc i) s filled found = filled_there source i s filled.1 found

-- A place in a segment that is there.
pub record Place (source : List (List Byte)) (i o at : ℕ) : Type 0 where
  pub segment : List Byte
  pub found : get_elem? source i ≡ some segment
  pub within : o < length segment
  pub here : before source i + o ≡ at

-- The first loop finds the place that is `skip` bytes on, where there are more.
pub skip_loop_lem :
    {E : Type 0} (fuel : ℕ) (source : List (List Byte)) (i o skip at : ℕ)
    → AllFilled source
    → Place source i o at
    → at + skip < length (flatten source)
    → length source < fuel + i
    → (i' : ℕ) × (o' : ℕ) × (◌≡◌ {A = Outcome E (ℕ × ℕ)}
        (skip_loop fuel source i o skip)
        (ok (i', o')))
      × Place source i' o' (at + skip)
      × (i ≤ i')
unfolding skip_loop
skip_loop_lem zero source i o skip at filled p low enough =
    absurd (omega (arith, index_bound source i p.segment p.found))
skip_loop_lem {E} (suc fuel) source i o skip at filled p low enough =
    elim (Bool-cases (skip == 0)) [
      | inl none_left ↦
          let nothing : skip ≡ 0 = ground arith in
          (
            i,
            o,
            rw none_left,
            record {
              segment = p.segment;
              found = p.found;
              within = p.within;
              here = omega (arith, p.here);
            },
            omega arith,
          )
      | inr more ↦ elim (Bool-cases (ltb skip (length p.segment - o))) [
        | inl inside ↦
            let short : skip < length p.segment - o = ground arith in
            (
              i,
              o + skip,
              rw (more, source_segment_lem source i p.segment p.found, inside),
              record {
                segment = p.segment;
                found = p.found;
                within = omega (arith, p.within);
                here = omega (arith, p.here);
              },
              omega arith,
            )
        | inr past ↦
            let long : length p.segment - o ≤ skip = ground arith in
            let next = before-suc source i p.segment p.found in
            let index : suc i ≡ i + 1 = omega arith in
            let (s, found) = segment_there source (suc i) (omega (arith, p.here, p.within)) in
            let not_empty : 0 < length s = filled_there source (suc i) s filled found in
            let (i', o', same, place, later) =
              skip_loop_lem {E = E} fuel source (suc i) 0 (skip - (length p.segment - o))
                (at + (length p.segment - o)) filled
                (record {
                  segment = s;
                  found = found;
                  within = not_empty;
                  here = omega (arith, p.here, p.within);
                })
                (omega arith) (omega arith) in
            (
              i',
              o',
              rw (more, source_segment_lem source i p.segment p.found, past, sym index) same,
              record {
                segment = place.segment;
                found = place.found;
                within = place.within;
                here = omega (arith, place.here);
              },
              omega arith,
            )
      ]
    ]

-- An end in a segment that is there.
pub record End (source : List (List Byte)) (i e at : ℕ) : Type 0 where
  pub segment : List Byte
  pub found : get_elem? source i ≡ some segment
  pub within : e ≤ length segment
  pub here : before source i + e ≡ at

-- The second loop finds the end that is `remaining` bytes on, where there are as many.
pub end_loop_lem :
    {E : Type 0} (fuel : ℕ) (source : List (List Byte)) (i o remaining at : ℕ)
    → Place source i o at
    → AllFilled source
    → at + remaining ≤ length (flatten source)
    → length source < fuel + i
    → (i' : ℕ) × (e' : ℕ) × (◌≡◌ {A = Outcome E (ℕ × ℕ)}
        (end_loop fuel source i o remaining)
        (ok (i', e')))
      × End source i' e' (at + remaining)
      × (i ≤ i')
unfolding end_loop
end_loop_lem zero source i o remaining at p filled low enough =
    absurd (omega (arith, index_bound source i p.segment p.found))
end_loop_lem {E} (suc fuel) source i o remaining at p filled low enough =
    elim (Bool-cases (leb remaining (length p.segment - o))) [
      | inl inside ↦
          let short : remaining ≤ length p.segment - o = ground arith in
          (
            i,
            o + remaining,
            rw (source_segment_lem source i p.segment p.found, inside),
            record {
              segment = p.segment;
              found = p.found;
              within = omega (arith, p.within);
              here = omega (arith, p.here);
            },
            omega arith,
          )
      | inr past ↦
          let long : length p.segment - o < remaining = ground arith in
          let next = before-suc source i p.segment p.found in
          let index : suc i ≡ i + 1 = omega arith in
          let (s, found) = segment_there source (suc i) (omega (arith, p.here, p.within)) in
          let not_empty : 0 < length s = filled_there source (suc i) s filled found in
          let (i', e', same, stop, later) =
            end_loop_lem {E = E} fuel source (suc i) 0 (remaining - (length p.segment - o))
              (at + (length p.segment - o))
              (record {
                segment = s;
                found = found;
                within = not_empty;
                here = omega (arith, p.here, p.within);
              })
              filled (omega arith) (omega arith) in
          (
            i',
            e',
            rw (source_segment_lem source i p.segment p.found, past, sym index) same,
            record {
              segment = stop.segment;
              found = stop.found;
              within = stop.within;
              here = omega (arith, stop.here);
            },
            omega arith,
          )
    ]
