-- ===== src/Flv/Views/Sliced.antt =====
-- Slices of a view, and the laws together.
use rtmpx.Prelude.{
  ℕ, suc, ◌+◌, ◌-◌, ◌<◌, ◌≤◌, ◌≡◌, refl, sym, ap, ◌∙◌, inl, inr, true, false, Bool-cases, List,
  length, take, drop, drop-drop, ltb, ◌==◌, Outcome, ok, stuck, arith,
}
use rtmpx.Prelude.Bytes.{Byte}
use rtmpx.Payload.{flatten}
use rtmpx.Payload.Segments.{AllFilled}
use rtmpx.Payload.View.{PayloadView, slice, slice_end, view_segment0}
use rtmpx.Payload.View.Places.{
  before, before-suc, before_le, before_mono, Place, skip_loop_lem, End, end_loop_lem,
}
use rtmpx.Flv.Cursor.{FlvError}
use rtmpx.Flv.Same.Cursors.{IsLawful}
use rtmpx.Flv.Views.{
  view_data, Placed, IsView, view_bytes, length-view_bytes, drop-take, take-take_le, FirstSegment,
  last_segment, inner_segment,
}

abbrev start_of : PayloadView → ℕ
start_of v = before v.source v.first + v.offset

view_total : (v : PayloadView) → Placed v → start_of v + v.len ≤ length (flatten v.source)
view_total v placed = omega (
  arith,
  placed.stop.here,
  placed.stop.within,
  before-suc v.source v.last placed.stop.segment placed.stop.found,
  before_le v.source (suc v.last),
)

-- The bytes of a range are those of the whole between its ends.
range_bytes :
    (v : PayloadView) (start stop : ℕ)
    → stop ≤ v.len
    → take (stop - start) (drop start (view_bytes v))
      ≡ take (stop - start) (drop (start_of v + start) (flatten v.source))
range_bytes v start stop within =
    rw
      (
        drop-take start v.len (drop (start_of v) (flatten v.source)),
        drop-drop (start_of v) start (flatten v.source),
      )
      (take-take_le (stop - start) (v.len - start) (drop (start_of v + start) (flatten v.source))
        (omega arith))

abbrev SliceEnd : PayloadView → ℕ → ℕ → ℕ → ℕ → Type 0
SliceEnd v start stop i o =
    (j : ℕ) × (e : ℕ) × (◌≡◌ {A = Outcome FlvError (ℕ × ℕ)} (slice_end v start stop i o)
      (ok (j, e)))
    × End v.source j e (start_of v + stop)
    × (i ≤ j)

slice_end_lem :
    (v : PayloadView) (start stop i o : ℕ)
    → AllFilled v.source
    → Placed v
    → start < stop
    → stop ≤ v.len
    → Place v.source i o (start_of v + start)
    → SliceEnd v start stop i o
unfolding slice_end
slice_end_lem v start stop i o filled placed some_left within place =
    elim (Bool-cases (stop == v.len)) [
      | inl whole ↦
          let same : stop ≡ v.len = ground arith in
          (
            v.last,
            v.last_end,
            rw whole,
            record {
              segment = placed.stop.segment;
              found = placed.stop.found;
              within = placed.stop.within;
              here = omega (arith, placed.stop.here);
            },
            in_order same,
          )
      | inr part ↦
          let (j, e, found, stops, later) =
            end_loop_lem {E = FlvError} (suc (length v.source)) v.source i o (stop - start)
              (start_of v + start) place filled (omega (arith, view_total v placed))
              (omega arith) in
          (
            j,
            e,
            rw part found,
            record {
              segment = stops.segment;
              found = stops.found;
              within = stops.within;
              here = omega (arith, stops.here);
            },
            later,
          )
    ]
  where
    in_order : stop ≡ v.len → i ≤ v.last
    in_order same = elim (Bool-cases (ltb v.last i)) [
      | inl before_start ↦
          let after : suc v.last ≤ i = ground arith in
          absurd (
            omega (
              arith,
              before_mono v.source (suc v.last) i after,
              before-suc v.source v.last placed.stop.segment placed.stop.found,
              placed.stop.here,
              placed.stop.within,
              place.here,
            ))
      | inr fine ↦ ground arith
    ]

abbrev Sliced : PayloadView → ℕ → ℕ → Type 0
Sliced v start stop =
    (q : PayloadView) × (◌≡◌ {A = Outcome FlvError PayloadView} (slice v start stop) (ok q))
    × IsView q
    × (view_bytes q ≡ take (stop - start) (drop start (view_bytes v)))

not_lt : (m n : ℕ) → m ≤ n → ltb n m ≡ false
not_lt m n le = ground arith

empty_slice :
    (v : PayloadView) (start stop : ℕ)
    → IsView v
    → start ≡ stop
    → stop ≤ v.len
    → Sliced v start stop
unfolding slice
empty_slice v start stop is_view same within =
    let nothing : 0 ≡ stop - start = omega arith in
    (
      record v { len = 0 },
      rw (not_lt start stop (omega arith), not_lt stop v.len within, equal stop start same),
      record { filled = is_view.filled; ends = inl refl },
      ap (λ (k : ℕ). take k (drop start (view_bytes v))) nothing,
    )
  where
    equal : (m n : ℕ) → n ≡ m → (m == n) ≡ true
    equal m n e = ground arith

filled_slice :
    (v : PayloadView) (start stop : ℕ)
    → AllFilled v.source
    → Placed v
    → start < stop
    → stop ≤ v.len
    → Sliced v start stop
unfolding slice
filled_slice v start stop filled placed some_left within =
    let (i, o, found, place, after) =
      skip_loop_lem {E = FlvError} (suc (length v.source)) v.source v.first v.offset start
        (start_of v) filled placed.start (omega (arith, view_total v placed)) (omega arith) in
    let (j, e, ended, stops, later) =
      slice_end_lem v start stop i o filled placed some_left within place in
    (
      record v { first = i; offset = o; last = j; last_end = e; len = stop - start },
      rw (
        not_lt start stop (omega arith),
        not_lt stop v.len within,
        unequal stop start some_left,
        found,
        ended,
      ),
      record {
        filled = filled;
        ends = inr (record {
          start = record {
            segment = place.segment;
            found = place.found;
            within = place.within;
            here = refl;
          };
          stop = record {
            segment = stops.segment;
            found = stops.found;
            within = stops.within;
            here = omega (arith, stops.here, place.here);
          };
          ordered = later;
          some_left = omega arith;
        });
      },
      ap (λ (n : ℕ). take (stop - start) (drop n (flatten v.source))) place.here
          ∙ sym (range_bytes v start stop within),
    )
  where
    unequal : (m n : ℕ) → n < m → (m == n) ≡ false
    unequal m n lt = ground arith

slice_lem :
    (v : PayloadView) (start stop : ℕ)
    → IsView v
    → start ≤ stop
    → stop ≤ length (view_bytes v)
    → Sliced v start stop
slice_lem v start stop is_view ordered within =
    let bound : stop ≤ v.len = omega (arith, length-view_bytes v is_view) in
    elim (Bool-cases (ltb start stop)) [
      | inl some_left ↦
          let lt : start < stop = ground arith in
          elim is_view.ends [
            | inl none_left ↦ absurd (omega arith)
            | inr placed ↦ filled_slice v start stop is_view.filled placed lt bound
          ]
      | inr nothing ↦
          let same : start ≡ stop = ground arith in empty_slice v start stop is_view same bound
    ]

first_lem : (v : PayloadView) → IsView v → 0 < length (view_bytes v) → FirstSegment v
first_lem v is_view some_left = elim is_view.ends [
  | inl none_left ↦ absurd (omega (arith, length-view_bytes v is_view))
  | inr placed ↦ elim (Bool-cases (v.first == v.last)) [
    | inl one ↦ last_segment v placed one
    | inr more ↦ inner_segment v placed more
  ]
]

none_lem :
    (v : PayloadView)
    → IsView v
    → length (view_bytes v) ≡ 0
    → ◌≡◌ {A = Outcome FlvError (List Byte)} (view_segment0 v) stuck
unfolding view_segment0
none_lem v is_view nothing =
    let empty : (v.len == 0) ≡ true = ground (arith, length-view_bytes v is_view) in rw empty

-- A view keeps what the parser relies on: its slices and its first segment do not panic, and have the
-- bytes that they should.
pub view_data-IsLawful : IsLawful view_data IsView view_bytes
view_data-IsLawful = record {
  len_lem = length-view_bytes;
  segment_lem = first_lem;
  none_lem = none_lem;
  slice_lem = slice_lem;
}
