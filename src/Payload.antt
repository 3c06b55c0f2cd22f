-- ===== src/Payload.antt =====
-- Segmented message bodies (`Segments`, `Payload` and `PayloadReader` of src/payload.rs).
pub mod Segments
pub mod Walk
pub mod Reading
pub mod View
use rtmpx.Prelude.{
  ℕ, zero, suc, ◌+◌, ◌-◌, min, Bool, true, false, ◌||◌, Option, none, some, List, [], ◌∷◌, ◌++◌,
  length, take, drop, get_or, ◌==◌, if◌then◌else◌,
}
use rtmpx.Prelude.Bytes.{Byte}

-- The descriptor pool of a payload only recycles storage; see `Payload.Pool`.
pub record Payload : Type 0 where
  pub first : List Byte
  pub rest : List (List Byte)
  pub len : ℕ

abbrev pub is_nil {ℓ} : {A : Type ℓ} → List A → Bool
is_nil [] = true
is_nil (x ∷ xs) = false

abbrev pub new : Payload
new = record { first = []; rest = []; len = 0 }

-- `len` is a usize and the source panics where the sum of lengths leaves it, which takes more
-- bytes than a machine has.
unfoldable pub push : Payload → List Byte → Payload
push p b =
    if is_nil b
    then p
    else if is_nil p.first
    then record p { first = b; len = p.len + length b }
    else record p { rest = p.rest ++ (b ∷ []); len = p.len + length b }

unfoldable pub segments : Payload → List (List Byte)
segments p = if is_nil p.first then p.rest else p.first ∷ p.rest

abbrev pub flatten : List (List Byte) → List Byte
flatten [] = []
flatten (s ∷ ss) = s ++ flatten ss

unfoldable pub as_contiguous : Payload → Option (List Byte)
as_contiguous p = if is_nil p.rest then some p.first else none

-- `into_bytes` and `to_bytes` differ in what they copy, not in the bytes.
unfoldable pub to_bytes : Payload → List Byte
unfolding as_contiguous segments
to_bytes p = elim (as_contiguous p) [ none ↦ flatten (segments p) | some b ↦ b ]

-- `impl From<Bytes> for Payload`
unfoldable pub from_bytes : List Byte → Payload
from_bytes b = record { first = b; rest = []; len = length b }

-- `impl FromIterator<Bytes> for Payload`
unfoldable pub push_all : Payload → List (List Byte) → Payload
push_all p [] = p
push_all p (b ∷ bs) = push_all (push p b) bs

unfoldable pub from_iter : List (List Byte) → Payload
unfolding push_all
from_iter bs = push_all new bs

-- `impl Segments for Payload`
unfoldable pub segment_count : Payload → ℕ
segment_count p = (if is_nil p.first then 0 else 1) + length p.rest

-- The source panics at an index out of range; a reader of a valid payload asks for none.
unfoldable pub segment : Payload → ℕ → List Byte
segment p i = if i == 0 then p.first else get_or p.rest (i - 1) []

pub record PayloadReader : Type 0 where
  pub payload : Payload
  pub segment_index : ℕ
  pub offset : ℕ
  pub remaining : ℕ

unfoldable pub reader : Payload → PayloadReader
reader p = record { payload = p; segment_index = 0; offset = 0; remaining = p.len }

-- `Read::read` into an output of `size` bytes: the bytes read, and the reader after it.
unfoldable pub read : PayloadReader → ℕ → List Byte × PayloadReader
read r size =
    let s = segment r.payload r.segment_index in
    let n = min size (length s - r.offset) in
    let done = r.offset + n == length s in
    if r.remaining == 0 || size == 0 then ([], r) else (
      take n (drop r.offset s),
      record r {
        segment_index = if done then r.segment_index + 1 else r.segment_index;
        offset = if done then 0 else r.offset + n;
        remaining = r.remaining - n;
      },
    )
