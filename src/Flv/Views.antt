-- ===== src/Flv/Views.antt =====
-- A view of a segmented body is lawful data for the parser (`impl MediaData for PayloadView`).
pub mod Sliced
pub mod New
use rtmpx.Prelude.{
  ℕ, zero, suc, ◌+◌, ◌-◌, ◌<◌, ◌≤◌, ◌≡◌, refl, sym, ap, ◌∙◌, ◌⊎◌, inl, inr, Bool, true, false,
  Bool-cases, Option, some, List, [], ◌∷◌, ◌++◌, append-nil, length, length-append, length-take,
  length-drop, get_elem?, min, take, drop, take-split, take-append_le, take_all, drop-append_le,
  drop_all, drop-drop, drop-nil, take-nil, ltb, leb, ◌==◌, if◌then◌else◌, Outcome, ok, stuck, arith,
}
use rtmpx.Prelude.Bytes.{Byte}
use rtmpx.Payload.{flatten}
use rtmpx.Payload.Segments.{AllFilled}
use rtmpx.Payload.View.{PayloadView, source_segment, slice, slice_end, view_segment0}
use rtmpx.Payload.View.Places.{
  before, before-suc, before_le, before_mono, index_bound, drop_place, source_segment_lem, Place,
  skip_loop_lem, End, end_loop_lem,
}
use rtmpx.Flv.Cursor.{FlvError, MediaData}
use rtmpx.Flv.Same.Cursors.{IsLawful}

abbrev pub view_data : MediaData PayloadView
view_data = record { len = λ v. v.len; segment0 = view_segment0; media_slice = slice }

-- Both ends of a view that is not empty.
pub record Placed (v : PayloadView) : Type 0 where
  pub start : Place v.source v.first v.offset (before v.source v.first + v.offset)
  pub stop : End v.source v.last v.last_end (before v.source v.first + v.offset + v.len)
  pub ordered : v.first ≤ v.last
  pub some_left : 0 < v.len

pub record IsView (v : PayloadView) : Type 0 where
  pub filled : AllFilled v.source
  pub ends : (v.len ≡ 0) ⊎ Placed v

-- The bytes that a view stands for.
abbrev pub view_bytes : PayloadView → List Byte
view_bytes v = take v.len (drop (before v.source v.first + v.offset) (flatten v.source))

pub length-view_bytes : (v : PayloadView) → IsView v → v.len ≡ length (view_bytes v)
length-view_bytes v is_view = elim is_view.ends [
  | inl none_left ↦
      omega
        (arith, length-take v.len (drop (before v.source v.first + v.offset) (flatten v.source)))
  | inr placed ↦ omega (
    arith,
    length-take v.len (drop (before v.source v.first + v.offset) (flatten v.source)),
    length-drop (before v.source v.first + v.offset) (flatten v.source),
    placed.stop.here,
    placed.stop.within,
    before-suc v.source v.last placed.stop.segment placed.stop.found,
    before_le v.source (suc v.last),
  )
]

drop-take : {A : Type 0} (n m : ℕ) (xs : List A) → drop n (take m xs) ≡ take (m - n) (drop n xs)
drop-take zero m xs = let same : m ≡ m - 0 = omega arith in ap (λ (k : ℕ). take k xs) same
drop-take {A} (suc n) zero xs =
    let none_left : 0 ≡ 0 - suc n = omega arith in
    ap (λ (k : ℕ). take k (drop (suc n) xs)) none_left
drop-take (suc n) (suc m) [] = sym (take-nil (suc m - suc n))
drop-take (suc n) (suc m) (x ∷ xs) =
    let same : m - n ≡ suc m - suc n = omega arith in
    drop-take n m xs ∙ ap (λ (k : ℕ). take k (drop n xs)) same

take-take_le : {A : Type 0} (n m : ℕ) (xs : List A) → n ≤ m → take n (take m xs) ≡ take n xs
take-take_le zero m xs le = refl
take-take_le (suc n) zero xs le = absurd (omega arith)
take-take_le (suc n) (suc m) [] le = refl
take-take_le (suc n) (suc m) (x ∷ xs) le = ap (λ l. x ∷ l) (take-take_le n m xs (omega arith))

-- A part of the front of a list that is all of a front piece, or within it.
front_within :
    (n : ℕ) (piece more : List Byte)
    → n ≤ length piece
    → take n piece ++ [] ≡ take n (piece ++ more)
front_within n piece more within =
    append-nil (take n piece) ∙ sym (take-append_le n piece more within)

front_beyond :
    (n : ℕ) (piece more : List Byte)
    → length piece ≤ n
    → piece ++ take (n - length piece) more ≡ take n (piece ++ more)
front_beyond n piece more beyond =
    let parts : n ≡ length piece + (n - length piece) = omega arith in
    let front : take (length piece) (piece ++ more) ≡ piece =
      take-append_le (length piece) piece more (omega arith)
      ∙ take_all (length piece) piece (omega arith) in
    let back : drop (length piece) (piece ++ more) ≡ more =
      drop-append_le (length piece) piece more (omega arith)
      ∙ ap (λ l. l ++ more) (drop_all (length piece) piece (omega arith)) in
    sym (
      ap (λ (k : ℕ). take k (piece ++ more)) parts
      ∙ take-split (length piece) (n - length piece) (piece ++ more)
      ∙ rw (front, back))

abbrev FirstSegment : PayloadView → Type 0
FirstSegment v =
    (s : List Byte) × (more : List Byte) × (◌≡◌ {A = Outcome FlvError (List Byte)} (view_segment0 v)
      (ok s))
    × (0 < length s)
    × (s ++ more ≡ view_bytes v)

module _ (v : PayloadView) (placed : Placed v) where
  abbrev piece : List Byte
  piece = drop v.offset placed.start.segment

  abbrev behind : List Byte
  behind = flatten (drop (suc v.first) v.source)

  view_split : view_bytes v ≡ take v.len (piece ++ behind)
  view_split =
      ap (λ l. take v.len l)
        (drop_place v.source v.first v.offset placed.start.segment placed.start.found
          (omega (arith, placed.start.within)))

  last_segment : (v.first == v.last) ≡ true → FirstSegment v
  unfolding view_segment0
  last_segment one =
      let same : v.first ≡ v.last = ground arith in
      let twin : placed.start.segment ≡ placed.stop.segment =
        same_segment v.source v.first v.last placed.start.segment placed.stop.segment same
          placed.start.found placed.stop.found in
      let places : before v.source v.first ≡ before v.source v.last =
        ap (λ (i : ℕ). before v.source i) same in
      let size : length placed.start.segment ≡ length placed.stop.segment = ap length twin in
      let span : v.last_end - v.offset ≡ v.len = omega (arith, placed.stop.here) in
      let long : v.len ≤ length piece =
        omega (
          arith,
          length-drop v.offset placed.start.segment,
          placed.stop.within,
          placed.stop.here,
        ) in
      (
        take v.len piece,
        [],
        rw (
          not_nil v.len placed.some_left,
          source_segment_lem {E = FlvError} v.source v.first placed.start.segment
              placed.start.found,
          one,
          not_lt v.offset v.last_end (omega (arith, placed.stop.here, placed.some_left)),
          not_lt v.last_end (length placed.start.segment) (omega (arith, placed.stop.within)),
          span,
        ),
        omega (arith, length-take v.len piece, placed.some_left),
        front_within v.len piece behind long ∙ sym view_split,
      )
    where
      same_segment :
          (source : List (List Byte)) (i j : ℕ) (s t : List Byte)
          → i ≡ j
          → get_elem? source i ≡ some s
          → get_elem? source j ≡ some t
          → s ≡ t
      same_segment source i j s t e p q = cc

      not_nil : (n : ℕ) → 0 < n → (n == 0) ≡ false
      not_nil n lt = ground arith

      not_lt : (m n : ℕ) → m ≤ n → ltb n m ≡ false
      not_lt m n le = ground arith

  inner_segment : (v.first == v.last) ≡ false → FirstSegment v
  unfolding view_segment0
  inner_segment more =
      let later : v.first < v.last = ground (arith, placed.ordered) in
      let beyond : length piece ≤ v.len = omega (
        arith,
        length-drop v.offset placed.start.segment,
        placed.stop.here,
        before-suc v.source v.first placed.start.segment placed.start.found,
        before_mono v.source (suc v.first) v.last (omega arith),
        placed.start.within,
      ) in
      let all : take (length placed.start.segment - v.offset) piece ≡ piece =
        take_all (length placed.start.segment - v.offset) piece
          (omega (arith, length-drop v.offset placed.start.segment)) in
      (
        piece,
        take (v.len - length piece) behind,
        rw (
          not_nil v.len placed.some_left,
          source_segment_lem {E = FlvError} v.source v.first placed.start.segment
              placed.start.found,
          more,
          not_lt v.offset (length placed.start.segment) (omega (arith, placed.start.within)),
          not_lt (length placed.start.segment) (length placed.start.segment) (omega arith),
          all,
        ),
        omega (arith, length-drop v.offset placed.start.segment, placed.start.within),
        front_beyond v.len piece behind beyond ∙ sym view_split,
      )
    where
      not_nil : (n : ℕ) → 0 < n → (n == 0) ≡ false
      not_nil n lt = ground arith

      not_lt : (m n : ℕ) → m ≤ n → ltb n m ≡ false
      not_lt m n le = ground arith
