-- ===== src/Payload/Segments.antt =====
-- What the operations on payloads do to the bytes, the length and the number of segments.
use rtmpx.Prelude.{
  ℕ, ◌+◌, ◌≤◌, ◌<◌, ◌≡◌, refl, ◌∙◌, List, [], ◌∷◌, ◌++◌, append-nil, append_assoc, length,
  length-append, arith,
}
use rtmpx.Prelude.Bytes.{Byte}
use rtmpx.Payload.{
  Payload, new, push, push_all, from_iter, segments, flatten, to_bytes, segment_count,
}

abbrev pub AllFilled : List (List Byte) → Type 0
AllFilled [] = Unit {0}
AllFilled (s ∷ ss) = (0 < length s) × AllFilled ss

-- No segment behind the first is empty, none stands behind an empty first one, and `len` is the sum.
pub record IsValid (p : Payload) : Type 0 where
  pub measured : p.len ≡ length (flatten (segments p))
  pub filled : AllFilled p.rest
  pub leading : p.first ≡ [] → p.rest ≡ []

flatten-append : (xs ys : List (List Byte)) → flatten (xs ++ ys) ≡ flatten xs ++ flatten ys
flatten-append [] ys = refl
flatten-append (x ∷ xs) ys = rw (flatten-append xs ys, append_assoc)

AllFilled-append :
    (xs : List (List Byte)) (b : List Byte)
    → AllFilled xs
    → 0 < length b
    → AllFilled (xs ++ (b ∷ []))
AllFilled-append [] b h pos = (pos, tt)
AllFilled-append (x ∷ xs) b h pos = (h.0, AllFilled-append xs b h.1 pos)

pub len-push : (p : Payload) (b : List Byte) → (push p b).len ≡ p.len + length b
unfolding push
len-push p [] = omega arith
len-push p (x ∷ b) = ground arith

pub segment_count-push :
    (p : Payload) (b : List Byte) → segment_count (push p b) ≤ segment_count p + 1
unfolding push segment_count
segment_count-push p [] = omega arith
segment_count-push p (x ∷ b) = ground (arith, length-append p.rest ((x ∷ b) ∷ []))

pub segment_count-push-new : (b : List Byte) → segment_count (push new b) ≤ 1
unfolding push segment_count
segment_count-push-new [] = omega arith
segment_count-push-new (x ∷ b) = omega arith

-- The segments of a valid payload, end to end, gain the pushed bytes.
flatten-push_with :
    (first : List Byte) (rest : List (List Byte)) (n : ℕ) (b : List Byte)
    → (first ≡ [] → rest ≡ [])
    → flatten (segments (push (record { first = first; rest = rest; len = n }) b))
      ≡ flatten (segments (record { first = first; rest = rest; len = n })) ++ b
unfolding push segments
flatten-push_with first rest n [] h = rw append-nil
flatten-push_with [] rest n (x ∷ b) h = rw (h refl, append-nil)
flatten-push_with (y ∷ first) rest n (x ∷ b) h =
    rw (flatten-append rest ((x ∷ b) ∷ []), append-nil, append_assoc)

pub flatten-push :
    (p : Payload) (b : List Byte)
    → IsValid p
    → flatten (segments (push p b)) ≡ flatten (segments p) ++ b
flatten-push p b v = flatten-push_with p.first p.rest p.len b v.leading

measured-push :
    (p : Payload) (b : List Byte)
    → IsValid p
    → (push p b).len ≡ length (flatten (segments (push p b)))
measured-push p b v = rw (flatten-push p b v, length-append, len-push) (omega (arith, v.measured))

filled-push : (p : Payload) (b : List Byte) → IsValid p → AllFilled (push p b).rest
unfolding push
filled-push p [] v = v.filled
filled-push p (x ∷ b) v = ground (arith, v, AllFilled-append p.rest (x ∷ b) v.filled (omega arith))

leading-push :
    (p : Payload) (b : List Byte) → IsValid p → (push p b).first ≡ [] → (push p b).rest ≡ []
unfolding push
leading-push p [] v = v.leading
leading-push p (x ∷ b) v = ground (arith, v)

pub push-IsValid : (p : Payload) (b : List Byte) → IsValid p → IsValid (push p b)
push-IsValid p b v = record {
  measured = measured-push p b v;
  filled = filled-push p b v;
  leading = leading-push p b v;
}

pub new-IsValid : IsValid new
unfolding segments
new-IsValid = record { measured = refl; filled = tt; leading = λ _. refl }

-- Pushing pieces one after the other keeps a payload valid, appends their bytes and adds their lengths.
pub push_all_lem :
    (p : Payload) (bs : List (List Byte))
    → IsValid p
    → IsValid (push_all p bs)
      × (flatten (segments (push_all p bs)) ≡ flatten (segments p) ++ flatten bs)
      × ((push_all p bs).len ≡ p.len + length (flatten bs))
unfolding push_all
push_all_lem p [] v = (v, rw append-nil, omega arith)
push_all_lem p (b ∷ bs) v =
    let (v', f, l) = push_all_lem (push p b) bs (push-IsValid p b v) in
    (
      v',
      f ∙ rw (flatten-push p b v, append_assoc),
      omega (arith, l, len-push p b, length-append b (flatten bs)),
    )

to_bytes-segments_with :
    (first : List Byte) (rest : List (List Byte)) (n : ℕ)
    → to_bytes (record { first = first; rest = rest; len = n })
      ≡ flatten (segments (record { first = first; rest = rest; len = n }))
unfolding to_bytes
to_bytes-segments_with [] [] n = refl
to_bytes-segments_with (x ∷ first) [] n = rw append-nil
to_bytes-segments_with first (s ∷ rest) n = refl

-- The contiguous bytes of a payload are its segments end to end.
pub to_bytes-segments : (p : Payload) → to_bytes p ≡ flatten (segments p)
to_bytes-segments p = to_bytes-segments_with p.first p.rest p.len

-- A payload collected from pieces is valid; its contiguous bytes are the pieces end to end, and its
-- length is theirs.
pub from_iter_lem :
    (bs : List (List Byte))
    → IsValid (from_iter bs)
      × (to_bytes (from_iter bs) ≡ flatten bs)
      × ((from_iter bs).len ≡ length (flatten bs))
unfolding from_iter
from_iter_lem bs =
    let (v, f, l) = push_all_lem new bs new-IsValid in
    (v, to_bytes-segments (push_all new bs) ∙ f ∙ (unfold segments in refl), l ∙ omega arith)
