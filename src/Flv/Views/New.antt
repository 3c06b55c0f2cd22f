-- ===== src/Flv/Views/New.antt =====
-- A new view of a body stands for all its bytes.
use rtmpx.Prelude.{
  ◌+◌, ◌-◌, ◌≡◌, refl, sym, ◌∙◌, inl, inr, true, false, Bool-cases, some, List, [], ◌∷◌, length,
  length-append, get_elem?, take_all, ◌==◌, Outcome, ok, arith,
}
use rtmpx.Prelude.Bytes.{Byte}
use rtmpx.Payload.{Payload, flatten, segments, to_bytes}
use rtmpx.Payload.Segments.{IsValid, AllFilled, to_bytes-segments}
use rtmpx.Payload.Walk.{segments-AllFilled}
use rtmpx.Payload.View.{PayloadView, view}
use rtmpx.Payload.View.Places.{before, before-suc, source_segment_lem}
use rtmpx.Flv.Cursor.{FlvError}
use rtmpx.Flv.Views.{IsView, view_bytes}

last_there :
    (s : List Byte) (source : List (List Byte))
    → (t : List Byte) × (get_elem? (s ∷ source) (length source) ≡ some t)
last_there s [] = (s, refl)
last_there s (t ∷ source) = last_there t source

before_all : (source : List (List Byte)) → before source (length source) ≡ length (flatten source)
before_all [] = refl
before_all (s ∷ source) = omega (arith, before_all source, length-append s (flatten source))

abbrev AllOf : List (List Byte) → Type 0
AllOf source =
    (v : PayloadView) × (◌≡◌ {A = Outcome FlvError PayloadView} (view source) (ok v))
    × IsView v
    × (view_bytes v ≡ flatten source)

nothing_there : (bytes : List Byte) → length bytes ≡ 0 → [] ≡ bytes
nothing_there [] none_left = refl
nothing_there (b ∷ bytes) none_left = absurd (omega arith)

empty_view :
    (source : List (List Byte))
    → AllFilled source
    → (length (flatten source) == 0) ≡ true
    → AllOf source
unfolding view
empty_view source filled none_left =
    let len : length (flatten source) ≡ 0 = ground arith in
    (
      record {
        source = source;
        first = 0;
        offset = 0;
        last = length source - 1;
        last_end = 0;
        len = length (flatten source);
      },
      rw none_left,
      record { filled = filled; ends = inl len },
      rw len (nothing_there (flatten source) len),
    )

filled_view :
    (s : List Byte) (source : List (List Byte))
    → AllFilled (s ∷ source)
    → (length (flatten (s ∷ source)) == 0) ≡ false
    → AllOf (s ∷ source)
unfolding view
filled_view s source filled some_left =
    let all = s ∷ source in
    let (t, found) = last_there s source in
    let last : length all - 1 ≡ length source = omega arith in
    let at_last : get_elem? all (length all - 1) ≡ some t = rw last found in
    let whole : before all (length source) + length t ≡ length (flatten all) =
      omega (arith, before-suc all (length source) t found, before_all all) in
    (
      record {
        source = all;
        first = 0;
        offset = 0;
        last = length all - 1;
        last_end = length t;
        len = length (flatten all);
      },
      rw (some_left, source_segment_lem {E = FlvError} all (length all - 1) t at_last),
      record {
        filled = filled;
        ends = inr (record {
          start = record { segment = s; found = refl; within = filled.0; here = refl };
          stop = record {
            segment = t;
            found = at_last;
            within = omega arith;
            here = rw last (omega (arith, whole));
          };
          ordered = omega arith;
          some_left = omega (arith, filled.0, length-append s (flatten source));
        });
      },
      take_all (length (flatten all)) (flatten all) (omega arith),
    )

view_filled : (source : List (List Byte)) → AllFilled source → AllOf source
view_filled [] filled = empty_view [] filled refl
view_filled (s ∷ source) filled = elim (Bool-cases (length (flatten (s ∷ source)) == 0)) [
  | inl none_left ↦ empty_view (s ∷ source) filled none_left
  | inr some_left ↦ filled_view s source filled some_left
]

-- The view of a valid payload can be taken, and has the payload's bytes.
pub view_lem :
    (p : Payload)
    → IsValid p
    → (v : PayloadView) × (◌≡◌ {A = Outcome FlvError PayloadView} (view (segments p)) (ok v))
      × IsView v
      × (view_bytes v ≡ to_bytes p)
view_lem p valid =
    let (v, made, is_view, bytes) = view_filled (segments p) (segments-AllFilled p valid) in
    (v, made, is_view, bytes ∙ sym (to_bytes-segments p))
