-- ===== src/Chunk/Parser/Total.antt =====
-- Collecting a header never panics, nor does beginning a chunk, and both keep the parser sound.
use rtmpx.Prelude.{
  ℕ, ◌<◌, zero, suc, ◌+◌, ◌-◌, ◌≤◌, ◌≡◌, refl, ap, ◌∙◌, min, true, not, ◌&&◌, Option, none, some,
  List, length, length-append, length-take, length-drop, drop-drop, take, drop, ltb, leb, ◌==◌,
  Bool-cases, inl, inr, ok, ◌>>=◌, Ensures, ensures_then, ensures_require, arith,
}
use rtmpx.Prelude.Bytes.{Byte}
use rtmpx.Prelude.Map.{Map, lookup, insert, lookup-insert_self, length-insert}
use rtmpx.Chunk.Types.{MessageHeader}
use rtmpx.Chunk.Parser.{
  ChunkParser, Stream, is_none, limit, basic_len, fmt_of, csid_of, header_needed, needed_extension,
}
use rtmpx.Chunk.Parser.Consume.{Cursor, fill, header_loop, with_parser}
use rtmpx.Chunk.Parser.Begin.{
  chunk_header, chunk_time, start_message, continue_message, start_or_continue, begin_with,
  begin_chunk,
}

-- The current chunk's stream is known, the chunk lies within its message, and nothing is left of it
-- only at the message's end.
abbrev pub Held : Map Stream → ℕ → Option ℕ → Type 0
Held streams left none = Unit {0}
Held streams left (some csid) =
    (s : Stream) × (lookup csid streams ≡ some s)
    × (s.received + left ≤ s.header.message_length)
    × (left ≡ 0 → s.received ≡ s.header.message_length)

-- A parser between calls: its header buffer is within bounds and its streams within the limit.
pub record IsSound (p : ChunkParser) : Type 0 where
  pub short : length p.scratch ≤ 18
  pub held : Held p.streams p.chunk_left p.current
  pub sized : 0 < p.chunk_size
  pub few : length p.streams ≤ p.limits.maximum_tracked_chunk_streams

needed_bound : (p : ChunkParser) → Ensures (header_needed p) (λ n. n ≤ 18)
unfolding header_needed needed_extension basic_len
needed_bound p = ground arith

start_bound :
    (p : ChunkParser) (csid fmt : ℕ) (h : MessageHeader) (time : ℕ) (old : Option Stream)
    → Ensures (start_or_continue p csid fmt h time old) (λ r. r.1 ≤ r.0.message_length)
unfolding start_or_continue start_message continue_message
start_bound p csid fmt h time none = ground arith
start_bound p csid fmt h time (some s) = ground arith

pub insert_few :
    (m : Map Stream) (csid : ℕ) (s : Stream) (most : ℕ) (old : Option Stream)
    → lookup csid m ≡ old
    → length m ≤ most
    → not (is_none old && leb most (length m)) ≡ true
    → length (insert csid s m) ≤ most
insert_few m csid s most none known few room = ground (arith, length-insert csid s m)
insert_few m csid s most (some t) known few room = ground (arith, length-insert csid s m)

-- What `begin_chunk` makes of the parser.
record Began (p q : ChunkParser) : Type 0 where
  sized : 0 < q.chunk_size
  csid : ℕ
  current : q.current ≡ some csid
  held : Held q.streams q.chunk_left (some csid)
  few : length q.streams ≤ q.limits.maximum_tracked_chunk_streams

begin_with_lem :
    (p : ChunkParser) (csid fmt : ℕ) (old : Option Stream)
    → lookup csid p.streams ≡ old
    → length p.streams ≤ p.limits.maximum_tracked_chunk_streams
    → 0 < p.chunk_size
    → Ensures (begin_with p csid fmt old) (λ q. Began p q)
unfolding begin_with
begin_with_lem p csid fmt old known few sized =
    ensures_then (λ q. Began p q) (limit (not (fmt == 0) && is_none old) _) _ (ensures_require _ _)
      λ _ there.
        ensures_then (λ q. Began p q)
          (limit (is_none old && leb p.limits.maximum_tracked_chunk_streams (length p.streams)) _) _
          (ensures_require _ _)
          λ _ room.
            ensures_then (λ q. Began p q)
              (limit
                (ltb p.limits.maximum_message_size (chunk_header p.scratch csid old).message_length)
                _)
              _ (ensures_require _ _)
              λ _ short.
                ensures_then (λ q. Began p q)
                  (start_or_continue p csid fmt (chunk_header p.scratch csid old)
                    (chunk_time p.scratch old) old)
                  _
                  (start_bound p csid fmt (chunk_header p.scratch csid old)
                    (chunk_time p.scratch old) old)
                  λ r bound. record {
                    csid = csid;
                    current = refl;
                    sized = sized;
                    held = (
                      _,
                      lookup-insert_self csid _ p.streams,
                      omega (arith, bound),
                      λ done. omega (arith, bound, sized, done),
                    );
                    few = insert_few p.streams csid _ _ old known few room;
                  }

begin_chunk_lem : (p : ChunkParser) → IsSound p → Ensures (begin_chunk p) (λ q. Began p q)
unfolding begin_chunk
begin_chunk_lem p sound =
    begin_with_lem p (csid_of p.scratch) (fmt_of p.scratch) _ refl sound.few sound.sized

-- The bytes consumed and those left are the input.
pub record Within (input : List Byte) (c : Cursor) : Type 0 where
  pub sound : IsSound c.parser
  pub left : c.input ≡ drop c.consumed input
  pub bound : c.consumed ≤ length input

length-fill :
    (needed : ℕ) (c : Cursor)
    → length (fill needed c).parser.scratch
      ≡ length c.parser.scratch + min (needed - length c.parser.scratch) (length c.input)
unfolding fill
length-fill needed c = omega (
  arith,
  length-append c.parser.scratch
      (take (min (needed - length c.parser.scratch) (length c.input)) c.input),
  length-take (min (needed - length c.parser.scratch) (length c.input)) c.input,
)

fill-Within :
    (input : List Byte) (needed : ℕ) (c : Cursor)
    → needed ≤ 18
    → c.parser.current ≡ none
    → Within input c
    → Within input (fill needed c)
unfolding fill
fill-Within input needed c low free w = record {
  sound = record {
    short = omega (arith, length-fill needed c, w.sound.short, low);
    held = rw free tt;
    sized = w.sound.sized;
    few = w.sound.few;
  };
  left =
      ap (drop (min (needed - length c.parser.scratch) (length c.input))) w.left
      ∙ drop-drop c.consumed (min (needed - length c.parser.scratch) (length c.input)) input;
  bound = omega (arith, w.bound, ap length w.left, length-drop c.consumed input);
}

fill_free : (needed : ℕ) (c : Cursor) → (fill needed c).parser.current ≡ c.parser.current
unfolding fill
fill_free needed c = refl

pub loop_held :
    (fuel csid : ℕ) (c : Cursor) → c.parser.current ≡ some csid → header_loop (suc fuel) c ≡ ok c
unfolding header_loop
loop_held fuel csid c known = rw known refl

begun-Within :
    (input : List Byte) (fuel : ℕ) (c : Cursor)
    → Within input c
    → Ensures
        (begin_chunk c.parser >>= λ p. header_loop (suc fuel) (with_parser c p))
        (Within input)
begun-Within input fuel c w =
    ensures_then (Within input) (begin_chunk c.parser) _ (begin_chunk_lem c.parser w.sound)
      λ p began. rw (loop_held fuel began.csid (with_parser c p) began.current) (record {
        sound = record {
          short = omega arith;
          held = rw began.current began.held;
          sized = began.sized;
          few = began.few;
        };
        left = w.left;
        bound = w.bound;
      })

-- A round adds to the header buffer, ends the loop, or begins the chunk, so the fuel is enough.
pub header_loop_lem :
    (input : List Byte) (fuel : ℕ) (c : Cursor)
    → Within input c
    → c.parser.current ≡ none
    → 20 ≤ fuel + length c.parser.scratch
    → Ensures (header_loop fuel c) (Within input)
unfolding header_loop
header_loop_lem input zero c w free enough = absurd (omega (arith, w.sound.short))
header_loop_lem input (suc zero) c w free enough = absurd (omega (arith, w.sound.short))
header_loop_lem input (suc (suc fuel)) c w free enough =
    let unheld : is_none c.parser.current ≡ true = ap is_none free in
    rw unheld (
      ensures_then (Within input) (header_needed c.parser) _ (needed_bound c.parser) λ needed low.
        elim (Bool-cases (ltb (length c.parser.scratch) needed)) [
          | inl more ↦
              rw more (elim (Bool-cases (ltb (length (fill needed c).parser.scratch) needed)) [
                | inl starved ↦ rw starved (fill-Within input needed c low free w)
                | inr whole ↦ rw whole (
                    header_loop_lem input (suc fuel) (fill needed c)
                      (fill-Within input needed c low free w) (fill_free needed c ∙ free)
                      (ground (arith, enough, more, whole, length-fill needed c)))
              ])
          | inr whole ↦ rw whole (begun-Within input fuel c w)
        ])
