-- ===== src/Chunk/Decoder/Total.antt =====
-- The decoder never panics, and its loop ends on any input.
use rtmpx.Prelude.{
  ℕ, ◌+◌, ◌-◌, ◌≤◌, ◌<◌, ◌≡◌, refl, ◌∙◌, Bool, true, false, not, ◌&&◌, Option, none, some, List,
  length, length-drop, take, drop, ◌==◌, Bool-cases, inl, inr, Ensures, ensures_then, arith,
}
use rtmpx.Prelude.Bytes.{Byte}
use rtmpx.Prelude.Map.{lookup}
use rtmpx.Chunk.Types.{MessageHeader, MessageFragment, ParseStep, is_end}
use rtmpx.Chunk.Parser.{ChunkParser, is_none}
use rtmpx.Chunk.Parser.Consume.{consume}
use rtmpx.Chunk.Parser.Total.{IsSound}
use rtmpx.Chunk.Parser.Steps.{IsCut, consume_lem}
use rtmpx.Chunk.Decoder.{
  MessageDecoder, Assembly, segmented, contiguous, Input, Turn, again, exceeds, saturating_add,
  open_partial, find_partial, extend, settle, join_partial, place_fragment, turn_with, turn,
}

-- A turn's result: the parser as it was, and another turn only behind an unfinished message.
record Placed (p : ChunkParser) (f : MessageFragment) (d : MessageDecoder) (t : Turn) : Type 0 where
  same : d.parser ≡ p
  more : t ≡ again → is_end f ≡ false

module _ (capacity_of : ℕ → ℕ) where
  found_lem :
      (d : MessageDecoder) (owned : Bool) (h : MessageHeader) (old : Option Assembly)
      → Ensures (find_partial capacity_of d owned h old) (λ r. r.0.parser ≡ d.parser)
  unfolding find_partial open_partial
  found_lem d owned h none = ground arith
  found_lem d owned h (some body) = refl

  extend_lem :
      (d : MessageDecoder) (body : Assembly) (bytes : List Byte)
      → Ensures (extend capacity_of d body bytes) (λ _. Unit {0})
  unfolding extend
  extend_lem d (segmented p) bytes = ground arith
  extend_lem d (contiguous b capacity) bytes = tt

  settle_lem :
      (d : MessageDecoder) (f : MessageFragment) (body : Assembly) (done : Bool)
      → is_end f ≡ done
      → let (d', t) = settle capacity_of d f.header body done in Placed d.parser f d' t
  unfolding settle
  settle_lem d f body true same = record { same = refl; more = λ e. absurd cc }
  settle_lem d f body false same = record { same = refl; more = λ e. same }

  join_partial_lem :
      (d : MessageDecoder) (owned : Bool) (f : MessageFragment) (bytes : List Byte) (attempted : ℕ)
      (old : Option Assembly)
      → Ensures
          (join_partial capacity_of d owned f bytes attempted old)
          (λ r. Placed d.parser f r.0 r.1)
  unfolding join_partial
  join_partial_lem d owned f bytes attempted old =
      ensures_then (λ r. Placed d.parser f r.0 r.1) (find_partial capacity_of d owned f.header old)
        _ (found_lem d owned f.header old)
        λ (d₁, body) same.
          ensures_then (λ r. Placed d.parser f r.0 r.1) (extend capacity_of d₁ body bytes) _
            (extend_lem d₁ body bytes)
            λ (body', more) _.
              let d₂ : MessageDecoder = record d₁ {
                buffered = attempted;
                reserved = d₁.reserved + more;
              } in
              let settled = settle_lem d₂ f body' (is_end f) refl in
              record { same = settled.same ∙ same; more = settled.more }

  abbrev Goal : MessageDecoder → MessageFragment → MessageDecoder × Turn → Type 0
  Goal d f (d', t) = Placed d.parser f d' t

  unfinished_positive :
      (f : MessageFragment)
      → is_end f ≡ false
      → (length f.bytes ≡ 0 → f.offset ≡ f.header.message_length)
      → 0 < length f.bytes
  unfinished_positive f unfinished whole = elim (Bool-cases (length f.bytes == 0)) [
    | inl empty ↦ absurd (ground (arith, unfinished, empty, whole (ground (arith, empty))))
    | inr filled ↦ ground (arith, filled)
  ]

  place_fragment_lem :
      (d : MessageDecoder) (owned : Bool) (f : MessageFragment) (bytes : List Byte)
      (old : Option Assembly)
      → Ensures (place_fragment capacity_of d owned f bytes old) (Goal d f)
  unfolding place_fragment
  place_fragment_lem d owned f bytes old =
      let n = length f.bytes in
      let attempted = saturating_add d.buffered n in
      let unwelcome =
        owned && (not (n == 0) && (d.limits.maximum_fragments_per_message == 0 && is_none old)) in
      elim (Bool-cases (exceeds attempted d)) [
        | inl over ↦ rw over tt
        | inr fits ↦ rw fits (elim (Bool-cases unwelcome) [
          | inl refused ↦ rw refused tt
          | inr welcome ↦ rw welcome (elim (Bool-cases (is_end f && is_none old)) [
            | inl whole ↦ rw whole (elim (Bool-cases (exceeds (saturating_add d.reserved n) d)) [
              | inl over ↦ rw over tt
              | inr room ↦ rw room (record { same = refl; more = λ e. absurd cc })
            ])
            | inr part ↦ rw part (join_partial_lem d owned f bytes attempted old)
          ])
        ])
      ]

  -- What a turn of the loop ends in.
  pub record Turned (input : Input) (d : MessageDecoder) (rest : Input) (t : Turn) : Type 0 where
    pub sound : IsSound d.parser
    pub shorter : length rest.bytes ≤ length input.bytes
    pub progress : t ≡ again → length rest.bytes < length input.bytes

  turn_with_lem :
      (d : MessageDecoder) (input : Input) (s : ParseStep) (o : Option MessageFragment)
      → IsSound d.parser
      → s.consumed ≤ length input.bytes
      → IsCut input.bytes s.consumed o
      → Ensures (turn_with capacity_of d input s o) (λ r. Turned input r.0 r.1 r.2)
  unfolding turn_with
  turn_with_lem d input s none sound bound cut = record {
    sound = sound;
    shorter = omega (arith, length-drop s.consumed input.bytes);
    progress = λ e. absurd cc;
  }
  turn_with_lem d input s (some f) sound bound (fits, slice, low, whole) =
      let n = length f.bytes in
      let rest = drop (s.consumed - n) input.bytes in
      let left : length (drop n rest) ≡ length input.bytes - s.consumed =
        omega (arith, length-drop n rest, length-drop (s.consumed - n) input.bytes, fits) in
      ensures_then (λ r. Turned input r.0 r.1 r.2)
        (place_fragment capacity_of d input.owned f (take n rest)
          (lookup f.header.chunk_stream_id d.partials))
        _
        (place_fragment_lem d input.owned f (take n rest)
          (lookup f.header.chunk_stream_id d.partials))
        λ (d', t) placed. record {
          sound = rw placed.same sound;
          shorter = omega (arith, left);
          progress = λ more.
              omega (arith, left, fits, bound, unfinished_positive f (placed.more more) whole);
        }

  pub turn_lem :
      (d : MessageDecoder) (input : Input)
      → IsSound d.parser
      → Ensures (turn capacity_of d input) (λ r. Turned input r.0 r.1 r.2)
  unfolding turn
  turn_lem d input sound =
      ensures_then (λ r. Turned input r.0 r.1 r.2) (consume d.parser input.bytes) _
        (consume_lem d.parser input.bytes sound)
        λ (p, s) stepped.
          turn_with_lem (record d { parser = p }) input s s.fragment stepped.sound stepped.bound
            stepped.cut
