-- ===== src/Chunk/Parser/Reading.antt =====
-- How the loop of `consume` collects a header from the front of its input.
use rtmpx.Prelude.{
  ℕ, zero, suc, ◌+◌, ◌-◌, ◌/◌, ◌%◌, ◌≤◌, ◌<◌, ◌≡◌, refl, ap, ◌∙◌, min, none, some, List, [], ◌∷◌,
  ◌++◌, append-nil, length, length-append, take, drop, ok, arith,
}
use rtmpx.Prelude.Bytes.{Byte}
use rtmpx.Prelude.Map.{lookup}
use native.Mathlib.Nat.{add-zero}
use rtmpx.Chunk.Parser.{ChunkParser, header_needed, needed_extension, basic_len, body_len, csid_of}
use rtmpx.Chunk.Parser.Consume.{Cursor, fill, header_loop}
use rtmpx.Chunk.Parser.Begin.{begin_chunk}

pub take-append {ℓ} : {A : Type ℓ} (xs ys : List A) → take (length xs) (xs ++ ys) ≡ xs
take-append [] ys = refl
take-append (x ∷ xs) ys = rw (take-append xs ys)

pub drop-append {ℓ} : {A : Type ℓ} (xs ys : List A) → drop (length xs) (xs ++ ys) ≡ ys
drop-append [] ys = refl
drop-append (x ∷ xs) ys = drop-append xs ys

-- The cursor on a parser `p` whose header so far is `s`.
abbrev pub at_scratch : ChunkParser → List Byte → ℕ → List Byte → Cursor
at_scratch p s n input = record { parser = record p { scratch = s }; consumed = n; input = input }

fill-append :
    (p : ChunkParser) (s more rest : List Byte) (n needed : ℕ)
    → length s + length more ≡ needed
    → fill needed (at_scratch p s n (more ++ rest))
      ≡ at_scratch p (s ++ more) (n + length more) rest
unfolding fill
fill-append p s more rest n needed h =
    let e : min (needed - length s) (length (more ++ rest)) ≡ length more =
      omega (arith, length-append more rest) in
    rw (e, take-append more rest, drop-append more rest) refl

-- A round that reads the `more` bytes that are wanted.
pub round_fill :
    (p : ChunkParser) (s more rest : List Byte) (n needed f : ℕ)
    → p.current ≡ none
    → header_needed (record p { scratch = s }) ≡ ok needed
    → length s + length more ≡ needed
    → 0 < length more
    → header_loop (suc f) (at_scratch p s n (more ++ rest))
      ≡ header_loop f (at_scratch p (s ++ more) (n + length more) rest)
unfolding header_loop
round_fill p s more rest n needed f hc hn hl pos =
    ground (arith, fill-append p s more rest n needed hl, length-append s more)

-- The last round, at a whole header.
round_begin :
    (p p' : ChunkParser) (s rest : List Byte) (n c f : ℕ)
    → p.current ≡ none
    → header_needed (record p { scratch = s }) ≡ ok (length s)
    → begin_chunk (record p { scratch = s }) ≡ ok p'
    → p'.current ≡ some c
    → header_loop (suc (suc f)) (at_scratch p s n rest) ≡ ok (at_scratch p' [] n rest)
unfolding header_loop
round_begin p p' s rest n c f hc hn hb hp = ground arith

-- `g` rounds and any number more.
abbrev pub more : ℕ → ℕ → ℕ
more zero f = f
more (suc g) f = suc (more g f)

more-suc : (g f : ℕ) → more g (suc f) ≡ suc (more g f)
more-suc zero f = refl
more-suc (suc g) f = ap suc (more-suc g f)

-- With `g` rounds at least, the loop ends at the cursor `d`.
abbrev pub Settles : ℕ → Cursor → Cursor → Type 0
Settles g c d = (f : ℕ) → header_loop (more g f) c ≡ ok d

-- One piece of the header, which may be empty.
settle_piece :
    (p : ChunkParser) (s x rest : List Byte) (n g : ℕ) (d : Cursor)
    → p.current ≡ none
    → (0 < length x → header_needed (record p { scratch = s }) ≡ ok (length s + length x))
    → Settles g (at_scratch p (s ++ x) (n + length x) rest) d
    → Settles (suc g) (at_scratch p s n (x ++ rest)) d
settle_piece p s [] rest n g d hc hn h f =
    let h' = h (suc f) in rw (append-nil, add-zero, more-suc) at h'
settle_piece p s (y ∷ x) rest n g d hc hn h f =
    round_fill p s (y ∷ x) rest n (length s + length (y ∷ x)) (more g f) hc (hn (omega arith)) refl
      (omega arith)
    ∙ h f

-- A whole header, in its three pieces, is read off the input, and its chunk is begun.
module _ (p : ChunkParser) (b : Byte) (body ext : List Byte) (small_id : 2 ≤ b % 64)
    (whole : length body ≡ body_len (b / 64))
    (extended : needed_extension (b ∷ body) (lookup (b % 64) p.streams)
      ≡ ok (1 + length body + length ext))
    (settled : needed_extension (b ∷ (body ++ ext)) (lookup (b % 64) p.streams)
      ≡ ok (1 + length body + length ext))
    (free : p.current ≡ none) where
  needed_body :
      0 < length body → header_needed (record p { scratch = b ∷ [] }) ≡ ok (1 + length body)
  unfolding header_needed basic_len
  needed_body h = ground arith

  needed_extended :
      header_needed (record p { scratch = b ∷ body }) ≡ ok (length (b ∷ body) + length ext)
  unfolding header_needed basic_len csid_of
  needed_extended = ground arith

  needed_whole :
      header_needed (record p { scratch = b ∷ (body ++ ext) }) ≡ ok (length (b ∷ (body ++ ext)))
  unfolding header_needed basic_len csid_of
  needed_whole = ground (arith, length-append body ext)

  pub read_header :
      (p' : ChunkParser) (c n : ℕ) (rest : List Byte)
      → begin_chunk (record p { scratch = b ∷ (body ++ ext) }) ≡ ok p'
      → p'.current ≡ some c
      → Settles 5
          (at_scratch p [] n (b ∷ (body ++ (ext ++ rest))))
          (at_scratch p' [] (n + 1 + length body + length ext) rest)
  read_header p' c n rest begun taken =
      settle_piece p [] (b ∷ []) (body ++ (ext ++ rest)) n 4 _ free (λ _. needed_first)
        (settle_piece p (b ∷ []) body (ext ++ rest) (n + 1) 3 _ free needed_body (
          settle_piece p (b ∷ body) ext rest (n + 1 + length body) 2 _ free (λ _. needed_extended)
            (λ f. round_begin p p' (b ∷ (body ++ ext)) rest _ c f free needed_whole begun taken)))
    where
      needed_first : header_needed (record p { scratch = [] }) ≡ ok 1
      needed_first = unfold header_needed in refl
