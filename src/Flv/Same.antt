-- ===== src/Flv/Same.antt =====
-- What a parse of a body in segments has to do with a parse of its bytes: the rules.
pub mod Reads
pub mod Cursors
pub mod Takes
pub mod Audio
pub mod Video
use rtmpx.Prelude.{
  ℕ, zero, suc, ◌+◌, ◌≤◌, ◌≡◌, refl, Bool, true, false, List, [], ◌∷◌, length, take, drop, ltb,
  if◌then◌else◌, Outcome, ok, err, stuck, arith,
}
use rtmpx.Prelude.Bytes.{Byte}
use rtmpx.Flv.Cursor.{◌>>=◌, FlvError, truncated, CursorOps}

abbrev list_read_u8 : List Byte → Outcome FlvError (Byte × List Byte)
list_read_u8 [] = err truncated
list_read_u8 (b ∷ rest) = ok (b, rest)

abbrev list_first : List Byte → Outcome FlvError Byte
list_first [] = stuck
list_first (b ∷ rest) = ok b

-- The plainest cursor: the bytes that are left.
abbrev pub list_ops : CursorOps (List Byte) (List Byte)
list_ops = record {
  remaining = length;
  read_u8 = list_read_u8;
  take_bytes =
      λ rest n. if ltb (length rest) n then err truncated else ok (take n rest, drop n rest);
  take_rest = λ rest. ok (rest, []);
  data_len = length;
  first_byte = list_first;
}

-- The bytes that a cursor has left, and those of the data that it gives.
pub record View (C P : Type 0) : Type 1 where
  pub good : C → Type 0
  pub rest_of : C → List Byte
  pub is_view : P → Type 0
  pub bytes_of : P → List Byte

-- Both parses fail alike, or both give: `f` of the value, which has `Q`, and the bytes left, at least
-- `k` fewer than `start`.
pub data Same {C P : Type 0} (v : View C P) {A B : Type 0} (f : A → B) (Q : A → Type 0)
    (start : List Byte) (k : ℕ)
    : Outcome FlvError (A × C) → Outcome FlvError (B × List Byte) → Type 0 where
  gives :
      {a : A} {c : C} {b : B} {rest : List Byte}
      → v.good c
      → Q a
      → b ≡ f a
      → rest ≡ v.rest_of c
      → length rest + k ≤ length start
      → Same v f Q start k (ok (a, c)) (ok (b, rest))
  fails : {e : FlvError} → Same v f Q start k (err e) (err e)

abbrev pub Any : {A : Type 0} → A → Type 0
Any a = Unit {0}

abbrev pub same_value : {A : Type 0} → A → A
same_value a = a

pub record Refines {C P : Type 0} (ops : CursorOps C P) (v : View C P) : Type 1 where
  pub remaining_lem : (c : C) → v.good c → ops.remaining c ≡ length (v.rest_of c)
  pub read_u8_lem :
      (c : C)
      → v.good c
      → Same v same_value Any (v.rest_of c) 1 (ops.read_u8 c) (list_ops.read_u8 (v.rest_of c))
  pub take_lem :
      (c : C) (n : ℕ)
      → v.good c
      → Same v v.bytes_of v.is_view
          (v.rest_of c)
          n
          (ops.take_bytes c n)
          (list_ops.take_bytes (v.rest_of c) n)
  pub take_rest_lem :
      (c : C)
      → v.good c
      → Same v v.bytes_of v.is_view
          (v.rest_of c)
          0
          (ops.take_rest c)
          (list_ops.take_rest (v.rest_of c))
  pub len_lem : (p : P) → v.is_view p → ops.data_len p ≡ length (v.bytes_of p)
  pub first_lem : (p : P) → v.is_view p → ops.first_byte p ≡ list_ops.first_byte (v.bytes_of p)

module _ {C P : Type 0} {v : View C P} {A B A' B' : Type 0} {f : A → B} {Q : A → Type 0}
    {g : A' → B'} {R : A' → Type 0} where
  pub Same-then :
      {from start : List Byte} {j k : ℕ} {m : Outcome FlvError (A × C)}
      {n : Outcome FlvError (B × List Byte)} (next : A × C → Outcome FlvError (A' × C))
      (next' : B × List Byte → Outcome FlvError (B' × List Byte))
      → Same v f Q from j m n
      → ((a : A) (c : C)
          → v.good c
          → Q a
          → length (v.rest_of c) + j ≤ length from
          → Same v g R start k (next (a, c)) (next' (f a, v.rest_of c)))
      → Same v g R start k (m >>= next) (n >>= next')
  unfolding ◌>>=◌
  Same-then next next' (gives {a} {c} good q same left short) later =
      rw (same, left) (later a c good q (rw left at short))
  Same-then next next' fails later = fails

module _ {C P : Type 0} {v : View C P} {A B : Type 0} {f : A → B} {Q : A → Type 0} where
  pub Same-weaken :
      {from start : List Byte} {j k : ℕ} {m : Outcome FlvError (A × C)}
      {n : Outcome FlvError (B × List Byte)}
      → length from + k ≤ j + length start
      → Same v f Q from j m n
      → Same v f Q start k m n
  Same-weaken le (gives good q same left short) = gives good q same left (omega arith)
  Same-weaken le fails = fails

  pub Same-if :
      (t : Bool) {start : List Byte} {k : ℕ} {x y : Outcome FlvError (A × C)}
      {x' y' : Outcome FlvError (B × List Byte)}
      → Same v f Q start k x x'
      → Same v f Q start k y y'
      → Same v f Q start k (if t then x else y) (if t then x' else y')
  Same-if true left right = left
  Same-if false left right = right

  pub Same-ok :
      {start : List Byte} {k : ℕ} (a : A) (c : C)
      → v.good c
      → Q a
      → length (v.rest_of c) + k ≤ length start
      → Same v f Q start k (ok (a, c)) (ok (f a, v.rest_of c))
  Same-ok a c good q short = gives good q refl refl short
