-- ===== src/Chunk/Parser/Steps.antt =====
-- The parser never panics, and what it hands out lies within its input and its message.
use rtmpx.Prelude.{
  ℕ, ◌+◌, ◌-◌, ◌≤◌, ◌≡◌, refl, ap, ◌∙◌, min, Bool, true, false, ◌&&◌, ◌||◌, Option, none, some,
  List, length, length-take, length-drop, take, drop, ltb, ◌==◌, if◌then◌else◌, Bool-cases, inl,
  inr, ok, Ensures, ensures_then, ensures_ok, arith,
}
use rtmpx.Prelude.Bytes.{Byte}
use rtmpx.Prelude.Map.{Map, lookup, insert, lookup-insert_self, lookup-insert_ne}
use rtmpx.Chunk.Types.{DecoderLimits, MessageFragment, ParseStep}
use rtmpx.Chunk.Parser.{
  ChunkParser, Stream, with_limits, set_chunk_size, abort_stream, abort_chunk_stream, is_current,
}
use rtmpx.Chunk.Parser.Consume.{
  Cursor, header_loop, take_fragment, take_step, consume, header_rounds,
}
use rtmpx.Chunk.Parser.Total.{Held, IsSound, Within, insert_few, loop_held, header_loop_lem}

-- The fragment is the end of what was consumed of the input, lies within its message, and is empty
-- only at the message's end.
abbrev pub IsCut : List Byte → ℕ → Option MessageFragment → Type 0
IsCut input consumed none = Unit {0}
IsCut input consumed (some f) =
    (length f.bytes ≤ consumed)
    × (f.bytes ≡ take (length f.bytes) (drop (consumed - length f.bytes) input))
    × (f.offset + length f.bytes ≤ f.header.message_length)
    × (length f.bytes ≡ 0 → f.offset ≡ f.header.message_length)

-- What a call of `consume` ends in.
pub record Stepped (input : List Byte) (q : ChunkParser) (s : ParseStep) : Type 0 where
  pub sound : IsSound q
  pub bound : s.consumed ≤ length input
  pub cut : IsCut input s.consumed s.fragment

Held-if :
    (done : Bool) (streams : Map Stream) (left csid : ℕ)
    → (done ≡ false → Held streams left (some csid))
    → Held streams left (if done then none else some csid)
Held-if true streams left csid h = tt
Held-if false streams left csid h = h refl

take_fragment_lem :
    (input : List Byte) (c : Cursor) (csid : ℕ) (s : Stream)
    → Within input c
    → c.parser.current ≡ some csid
    → lookup csid c.parser.streams ≡ some s
    → s.received + c.parser.chunk_left ≤ s.header.message_length
    → (c.parser.chunk_left ≡ 0 → s.received ≡ s.header.message_length)
    → Ensures (take_fragment c csid (some s)) (λ r. Stepped input r.0 r.1)
unfolding take_fragment
take_fragment_lem input c csid s w current known low whole =
    let n = min c.parser.chunk_left (length c.input) in
    let len : length (take n c.input) ≡ n = omega (arith, length-take n c.input) in
    let back : c.consumed + n - n ≡ c.consumed = omega arith in
    elim (Bool-cases (n == 0 && ltb 0 c.parser.chunk_left)) [
      | inl starved ↦ rw starved (record { sound = w.sound; bound = w.bound; cut = tt })
      | inr moved ↦ rw moved (record {
        sound = record {
          short = w.sound.short;
          held = Held-if (c.parser.chunk_left - n == 0) _ _ csid λ some_left. (
            _,
            lookup-insert_self csid _ c.parser.streams,
            omega (arith, low),
            λ none_left. absurd (ground (arith, some_left, none_left)),
          );
          sized = w.sound.sized;
          few = insert_few c.parser.streams csid _ _ (some s) known w.sound.few refl;
        };
        bound = omega (arith, w.bound, ap length w.left, length-drop c.consumed input);
        cut = (
          omega (arith, len),
          rw (len, back) (ap (take n) w.left),
          omega (arith, low, len),
          λ empty. whole (ground (arith, moved, len, empty)),
        );
      })
    ]

take_step_lem :
    (input : List Byte) (c : Cursor)
    → Within input c
    → Ensures (take_step c c.parser.current) (λ r. Stepped input r.0 r.1)
take_step_lem input c w = go c.parser.current refl w.sound.held
  where
    go :
        (o : Option ℕ)
        → c.parser.current ≡ o
        → Held c.parser.streams c.parser.chunk_left o
        → Ensures (take_step c o) (λ r. Stepped input r.0 r.1)
    go none same h = unfold take_step in record { sound = w.sound; bound = w.bound; cut = tt }
    go (some csid) same (s, known, low, whole) =
        unfold take_step in rw known (take_fragment_lem input c csid s w same known low whole)

headers_lem :
    (p : ChunkParser) (input : List Byte)
    → IsSound p
    → Ensures
        (header_loop header_rounds (record { parser = p; consumed = 0; input = input }))
        (Within input)
headers_lem p input sound = go p.current refl
  where
    start : Within input (record { parser = p; consumed = 0; input = input })
    start = record { sound = sound; left = refl; bound = omega arith }

    go :
        (o : Option ℕ)
        → p.current ≡ o
        → Ensures
            (header_loop header_rounds (record { parser = p; consumed = 0; input = input }))
            (Within input)
    go none free =
        header_loop_lem input header_rounds (record { parser = p; consumed = 0; input = input })
          start free (omega arith)
    go (some csid) known =
        rw (loop_held 19 csid (record { parser = p; consumed = 0; input = input }) known) start

-- On a sound parser a call of `consume` ends in a step or a returned error, never in a panic.
pub consume_lem :
    (p : ChunkParser) (input : List Byte)
    → IsSound p
    → Ensures (consume p input) (λ r. Stepped input r.0 r.1)
unfolding consume
consume_lem p input sound =
    ensures_then (λ r. Stepped input r.0 r.1)
      (header_loop header_rounds (record { parser = p; consumed = 0; input = input })) _
      (headers_lem p input sound) (take_step_lem input)

Held-abort :
    (m : Map Stream) (left csid : ℕ) (t : Stream) (current : Option ℕ)
    → is_current current csid ≡ false
    → Held m left current
    → Held (insert csid t m) left current
Held-abort m left csid t none other held = tt
Held-abort m left csid t (some c) other (s, there, low, whole) =
    (s, lookup-insert_ne csid c t m (λ same. ground (arith, other, same)) ∙ there, low, whole)

abort_stream-Held :
    (p : ChunkParser) (csid : ℕ) (o : Option Stream)
    → is_current p.current csid ≡ false
    → IsSound p
    → Held (abort_stream p.streams csid o) p.chunk_left p.current
unfolding abort_stream
abort_stream-Held p csid none other sound = sound.held
abort_stream-Held p csid (some s) other sound =
    Held-abort p.streams p.chunk_left csid (record s { active = false; received = 0 }) p.current
      other sound.held

abort_stream_few :
    (p : ChunkParser) (csid : ℕ) (o : Option Stream)
    → lookup csid p.streams ≡ o
    → IsSound p
    → length (abort_stream p.streams csid o) ≤ p.limits.maximum_tracked_chunk_streams
unfolding abort_stream
abort_stream_few p csid none known sound = sound.few
abort_stream_few p csid (some s) known sound =
    insert_few p.streams csid _ _ (some s) known sound.few refl

-- The parsers that a client can come to, whatever it feeds them.
pub data Reached (l : DecoderLimits) : ChunkParser → Type 0 where
  reached_new : Reached l (with_limits l)
  reached_size :
      {p q : ChunkParser} (size : ℕ) → Reached l p → set_chunk_size p size ≡ ok q → Reached l q
  reached_abort : {p : ChunkParser} (csid : ℕ) → Reached l p → Reached l (abort_chunk_stream p csid)
  reached_consume :
      {p q : ChunkParser} {s : ParseStep} (input : List Byte)
      → Reached l p
      → consume p input ≡ ok (q, s)
      → Reached l q

pub abort_chunk_stream_lem :
    (p : ChunkParser) (csid : ℕ) → IsSound p → IsSound (abort_chunk_stream p csid)
unfolding abort_chunk_stream
abort_chunk_stream_lem p csid sound =
    let few = abort_stream_few p csid (lookup csid p.streams) refl sound in
    elim (Bool-cases (is_current p.current csid)) [
      | inl here ↦
          rw here (record { short = sound.short; held = tt; sized = sound.sized; few = few })
      | inr other ↦ rw other (record {
        short = sound.short;
        held = abort_stream-Held p csid (lookup csid p.streams) other sound;
        sized = sound.sized;
        few = few;
      })
    ]

pub set_chunk_size_lem :
    (p : ChunkParser) (size : ℕ) → IsSound p → Ensures (set_chunk_size p size) IsSound
unfolding set_chunk_size
set_chunk_size_lem p size sound =
    let bad = size == 0 || ltb 0x7fff_ffff size || ltb p.limits.maximum_chunk_size size in
    elim (Bool-cases bad) [
      | inl out_of_range ↦ rw out_of_range tt
      | inr in_range ↦ rw in_range (record {
        short = sound.short;
        held = sound.held;
        sized = ground (arith, in_range);
        few = sound.few;
      })
    ]

pub new-IsSound : (l : DecoderLimits) → IsSound (with_limits l)
unfolding with_limits
new-IsSound l = record { short = omega arith; held = tt; sized = omega arith; few = omega arith }

pub Reached-IsSound : (l : DecoderLimits) (p : ChunkParser) → Reached l p → IsSound p
Reached-IsSound l _ reached_new = new-IsSound l
Reached-IsSound l _ (reached_size {p} {q} size r done) =
    ensures_ok IsSound (set_chunk_size p size) (set_chunk_size_lem p size (Reached-IsSound l p r))
      done
Reached-IsSound l _ (reached_abort {p} csid r) =
    abort_chunk_stream_lem p csid (Reached-IsSound l p r)
Reached-IsSound l _ (reached_consume {p} {q} {s} input r done) =
    (ensures_ok (λ x. Stepped input x.0 x.1) (consume p input)
      (consume_lem p input (Reached-IsSound l p r)) done).sound

-- On any parser reached from a new one by chunk sizes, aborts and inputs, and on any input, `consume`
-- ends in a step or a returned error, no panic: it consumes no more than the input, a fragment is the
-- end of what was consumed and lies within its message, and the parser is sound again.
pub Reached-consume :
    (l : DecoderLimits) (p : ChunkParser) (input : List Byte)
    → Reached l p
    → Ensures (consume p input) (λ r. Stepped input r.0 r.1)
Reached-consume l p input r = consume_lem p input (Reached-IsSound l p r)
