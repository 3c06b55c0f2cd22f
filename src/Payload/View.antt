-- ===== src/Payload/View.antt =====
-- A borrowed range of a segmented body (`PayloadView` of src/payload.rs).
pub mod Places
use rtmpx.Prelude.{
  ℕ, zero, suc, ◌+◌, ◌-◌, Option, none, some, List, [], ◌∷◌, length, get_elem?, take, drop, ltb,
  leb, ◌==◌, if◌then◌else◌, Outcome, ok, stuck, ◌>>=◌,
}
use rtmpx.Prelude.Bytes.{Byte}
use rtmpx.Payload.{flatten}

-- `source` is the list of segments of what the view borrows.
pub record PayloadView : Type 0 where
  pub source : List (List Byte)
  pub first : ℕ
  pub offset : ℕ
  pub last : ℕ
  pub last_end : ℕ
  pub len : ℕ

-- `source.segment(i)`, which panics out of range.
unfoldable pub source_segment : {E : Type 0} → List (List Byte) → ℕ → Outcome E (List Byte)
source_segment source i = elim (get_elem? source i) [ none ↦ stuck | some s ↦ ok s ]

-- `PayloadView::new`
abbrev pub new_view : {E : Type 0} → List (List Byte) → List Byte → Outcome E PayloadView
new_view source s = ok (record {
  source = source;
  first = 0;
  offset = 0;
  last = length source - 1;
  last_end = length s;
  len = length (flatten source);
})

unfoldable pub view : {E : Type 0} → List (List Byte) → Outcome E PayloadView
view source =
    if length (flatten source) == 0
    then new_view source []
    else (source_segment source (length source - 1) >>= new_view source)

-- The loop that finds the start: the segment, and the offset in it.
unfoldable pub skip_loop : {E : Type 0} → ℕ → List (List Byte) → ℕ → ℕ → ℕ → Outcome E (ℕ × ℕ)
skip_loop zero source first offset skip = stuck
skip_loop (suc fuel) source first offset skip =
    if skip == 0
    then ok (first, offset)
    else (source_segment source first >>= λ segment.
        let available = length segment - offset in
        let rest = skip_loop fuel source (first + 1) 0 (skip - available) in
        if ltb skip available then ok (first, offset + skip) else rest)

-- The loop that finds the end: the segment, and the end in it.
unfoldable pub end_loop : {E : Type 0} → ℕ → List (List Byte) → ℕ → ℕ → ℕ → Outcome E (ℕ × ℕ)
end_loop zero source last offset remaining = stuck
end_loop (suc fuel) source last offset remaining = source_segment source last >>= λ segment.
    let available = length segment - offset in
    let rest = end_loop fuel source (last + 1) 0 (remaining - available) in
    if leb remaining available then ok (last, offset + remaining) else rest

-- The end of a slice that starts at the given place; that of the whole view is known.
unfoldable pub slice_end : {E : Type 0} → PayloadView → ℕ → ℕ → ℕ → ℕ → Outcome E (ℕ × ℕ)
slice_end v start stop first offset =
    if stop == v.len
    then ok (v.last, v.last_end)
    else end_loop (suc (length v.source)) v.source first offset (stop - start)

unfoldable pub slice : {E : Type 0} → PayloadView → ℕ → ℕ → Outcome E PayloadView
slice v start stop =
    if ltb stop start
    then stuck
    else if ltb v.len stop
    then stuck
    else if stop == start
    then ok (record v { len = 0 })
    else (skip_loop (suc (length v.source)) v.source v.first v.offset start >>= λ (first, offset).
        slice_end v start stop first offset >>= λ (last, last_end). ok (record v {
          first = first;
          offset = offset;
          last = last;
          last_end = last_end;
          len = stop - start;
        }))

-- `segment(0)`: the part of its segment between the view's ends; it panics in an empty view.
abbrev cut : {E : Type 0} → ℕ → ℕ → List Byte → Outcome E (List Byte)
cut start stop bytes =
    if ltb stop start
    then stuck
    else if ltb (length bytes) stop
    then stuck
    else ok (take (stop - start) (drop start bytes))

unfoldable pub view_segment0 : {E : Type 0} → PayloadView → Outcome E (List Byte)
view_segment0 v =
    if v.len == 0
    then stuck
    else (source_segment v.source v.first >>= λ bytes.
        cut v.offset (if v.first == v.last then v.last_end else length bytes) bytes)
