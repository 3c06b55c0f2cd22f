-- ===== src/Chunk/Wire.antt =====
-- The wire form of a message, described without the encoder's cursor: the first header, then the
-- payload in pieces of the chunk size with the continuation header between them.
use Prim.Native.Nat.{max}
use rtmpx.Prelude.{
  ℕ, zero, suc, ◌+◌, ◌-◌, ◌*◌, ◌/◌, ◌≤◌, ◌<◌, ◌≡◌, refl, sym, ap, ◌∙◌, dec_lt, min, List, [], ◌∷◌,
  ◌++◌, length, length-append, take, drop, length-take, length-drop, take-append-drop, arith,
}
use rtmpx.Prelude.Bytes.{Byte}
use rtmpx.Payload.{flatten}
use rtmpx.Chunk.Encoder.{chunk_count}
use native.Mathlib.Nat.{add-div_right, div-eq_of_lt}

-- The pieces of `size` bytes of the data, the last one shorter; fuel counts the data's bytes.
unfoldable pub pieces_on : ℕ → ℕ → List Byte → List (List Byte)
pieces_on fuel size [] = []
pieces_on zero size (x ∷ data') = []
pieces_on (suc fuel) size (x ∷ data') =
    take size (x ∷ data') ∷ pieces_on fuel size (drop size (x ∷ data'))

unfoldable pub pieces : ℕ → List Byte → List (List Byte)
pieces size bytes = pieces_on (length bytes) size bytes

-- The payload pieces of the chunks that carry the `left` last bytes of a message.
abbrev pub Chunks : ℕ → ℕ → List (List Byte) → Type 0
Chunks size left [] = left ≡ 0
Chunks size left (b ∷ bs) =
    (length b ≡ min left size) × (0 < length b) × Chunks size (left - length b) bs

-- Each piece behind the continuation header.
abbrev pub joined : List Byte → List (List Byte) → List Byte
joined cont [] = []
joined cont (b ∷ bs) = cont ++ (b ++ joined cont bs)

abbrev pub wire : List Byte → List Byte → ℕ → List Byte → List Byte
wire first cont size bytes =
    first ++ (take size bytes ++ joined cont (pieces size (drop size bytes)))

-- More fuel changes nothing.
pieces_on-fuel :
    (f g size : ℕ) (bytes : List Byte)
    → 0 < size
    → length bytes ≤ f
    → length bytes ≤ g
    → pieces_on f size bytes ≡ pieces_on g size bytes
unfolding pieces_on
pieces_on-fuel f g size [] pos hf hg = refl
pieces_on-fuel zero g size (x ∷ b) pos hf hg = absurd (omega arith)
pieces_on-fuel (suc f) zero size (x ∷ b) pos hf hg = absurd (omega arith)
pieces_on-fuel (suc f) (suc g) size (x ∷ b) pos hf hg =
    ap (λ r. take size (x ∷ b) ∷ r)
      (pieces_on-fuel f g size (drop size (x ∷ b)) pos (omega (arith, length-drop size (x ∷ b)))
        (omega (arith, length-drop size (x ∷ b))))

pub pieces-step :
    (size : ℕ) (bytes : List Byte)
    → 0 < size
    → 0 < length bytes
    → pieces size bytes ≡ take size bytes ∷ pieces size (drop size bytes)
unfolding pieces pieces_on
pieces-step size [] pos h = absurd (omega arith)
pieces-step size (x ∷ b) pos h =
    ap (λ r. take size (x ∷ b) ∷ r)
      (pieces_on-fuel (length b) (length (drop size (x ∷ b))) size (drop size (x ∷ b)) pos
        (omega (arith, length-drop size (x ∷ b))) (omega arith))

pub pieces-nil : (size : ℕ) → pieces size [] ≡ []
unfolding pieces pieces_on
pieces-nil size = refl

pieces_on_lem :
    (f size : ℕ) (bytes : List Byte)
    → 0 < size
    → length bytes ≤ f
    → (flatten (pieces_on f size bytes) ≡ bytes)
      × Chunks size (length bytes) (pieces_on f size bytes)
unfolding pieces_on
pieces_on_lem f size [] pos h = (refl, refl)
pieces_on_lem zero size (x ∷ b) pos h = absurd (omega arith)
pieces_on_lem (suc f) size (x ∷ b) pos h =
    let (joins, cut) =
      pieces_on_lem f size (drop size (x ∷ b)) pos (omega (arith, length-drop size (x ∷ b))) in
    let taken = length-take size (x ∷ b) in
    (
      rw joins (take-append-drop size (x ∷ b)),
      (omega (arith, taken), omega (arith, taken), rw (rest_length size (x ∷ b)) at cut),
    )
  where
    rest_length : (n : ℕ) (l : List Byte) → length (drop n l) ≡ length l - length (take n l)
    rest_length n l = omega (arith, length-drop n l, length-take n l)

-- The pieces are the data cut at each `size` bytes.
pub pieces_lem :
    (size : ℕ) (bytes : List Byte)
    → 0 < size
    → (flatten (pieces size bytes) ≡ bytes) × Chunks size (length bytes) (pieces size bytes)
unfolding pieces
pieces_lem size bytes pos = pieces_on_lem (length bytes) size bytes pos (omega arith)

pub length-joined :
    (cont : List Byte) (bs : List (List Byte))
    → length (joined cont bs) ≡ length bs * length cont + length (flatten bs)
length-joined cont [] = omega arith
length-joined cont (b ∷ bs) = omega (
  arith,
  length-joined cont bs,
  length-append cont (b ++ joined cont bs),
  length-append b (joined cont bs),
  length-append b (flatten bs),
)

-- `n.div_ceil(size)` of a number and of what is left of it behind a chunk.
div_ceil-step :
    (n size : ℕ) → 0 < size → 0 < n → (n + size - 1) / size ≡ (n - size + size - 1) / size + 1
div_ceil-step n size pos h =
    let shift : n + size - 1 ≡ n - 1 + size = omega arith in
    rw (shift, add-div_right (n - 1) pos)
      (ap (λ (q : ℕ). q + 1)
        (elim (dec_lt n size) [
          | yes lt ↦
              div-eq_of_lt {n = n - 1} {m = size} (omega arith)
              ∙ sym (div-eq_of_lt {n = n - size + size - 1} {m = size} (omega arith))
          | no ge ↦ ap (λ (q : ℕ). q / size) (omega arith)
        ]))

pub length-pieces_on :
    (f size : ℕ) (bytes : List Byte)
    → 0 < size
    → length bytes ≤ f
    → length (pieces_on f size bytes) ≡ (length bytes + size - 1) / size
unfolding pieces_on
length-pieces_on f size [] pos h = sym (div-eq_of_lt {n = 0 + size - 1} {m = size} (omega arith))
length-pieces_on zero size (x ∷ b) pos h = absurd (omega arith)
length-pieces_on (suc f) size (x ∷ b) pos h =
    let whole = x ∷ b in
    let shorter = length-drop size whole in
    let ih = length-pieces_on f size (drop size whole) pos (omega (arith, shorter)) in
    ap suc (rw shorter at ih) ∙ (omega (arith, div_ceil-step (length whole) size pos (omega arith)))

-- The chunks of a message are as many as `div_ceil` counts.
pub length-pieces :
    (size : ℕ) (bytes : List Byte)
    → 0 < size
    → length (pieces size (drop size bytes)) + 1 ≡ chunk_count (length bytes) size
unfolding pieces chunk_count
length-pieces size bytes pos =
    let rest = drop size bytes in
    rw (length-pieces_on (length rest) size rest pos (omega arith), length-drop size bytes)
      (ceil (length bytes))
  where
    ceil : (n : ℕ) → (n - size + size - 1) / size + 1 ≡ max ((n + size - 1) / size) 1
    ceil zero = omega (
      arith,
      div-eq_of_lt {n = 0 + size - 1} {m = size} (omega arith),
      div-eq_of_lt {n = 0 - size + size - 1} {m = size} (omega arith),
    )
    ceil (suc n) = omega (arith, div_ceil-step (suc n) size pos (omega arith))
