-- ===== src/Chunk/Parser/Consume.antt =====
-- The loop that collects headers, and the fragment behind one (`consume` of
-- src/chunk_io/streaming.rs).
use rtmpx.Prelude.{
  ℕ, zero, suc, ◌+◌, ◌-◌, min, false, not, ◌&&◌, Option, none, some, List, [], ◌++◌, length, take,
  drop, ltb, ◌==◌, if◌then◌else◌, Outcome, ok, stuck, ◌>>=◌,
}
use rtmpx.Prelude.Bytes.{Byte}
use rtmpx.Prelude.Map.{lookup, insert}
use rtmpx.Chunk.Types.{DecodeError, ParseStep}
use rtmpx.Chunk.Parser.{Stream, ChunkParser, is_none, header_needed}
use rtmpx.Chunk.Parser.Begin.{begin_chunk}

-- Where the `while` loop of `consume` stands: the parser, the bytes consumed, the bytes left.
pub record Cursor : Type 0 where
  pub parser : ChunkParser
  pub consumed : ℕ
  pub input : List Byte

-- `scratch[used..used + n].copy_from_slice(&input[consumed..consumed + n])`
unfoldable pub fill : ℕ → Cursor → Cursor
fill needed c =
    let s = c.parser.scratch in
    let n = min (needed - length s) (length c.input) in
    record {
      parser = record (c.parser) { scratch = s ++ take n c.input };
      consumed = c.consumed + n;
      input = drop n c.input;
    }

abbrev pub with_parser : Cursor → ChunkParser → Cursor
with_parser c p = record c { parser = record p { scratch = [] } }

-- `while self.current.is_none()`; it ends early, with `current` still none, for want of input.
unfoldable pub header_loop : ℕ → Cursor → Outcome DecodeError Cursor
header_loop zero c = stuck
header_loop (suc fuel) c =
    if not (is_none c.parser.current)
    then ok c
    else (header_needed c.parser >>= λ needed.
        if ltb (length c.parser.scratch) needed
        then (let c' = fill needed c in
            let more = header_loop fuel c' in
            if ltb (length c'.parser.scratch) needed then ok c' else more)
        else (begin_chunk c.parser >>= λ p. header_loop fuel (with_parser c p)))

-- The rest of `consume`: a fragment of the current chunk. The source unwraps `current` and its stream.
unfoldable pub take_fragment :
    Cursor → ℕ → Option Stream → Outcome DecodeError (ChunkParser × ParseStep)
take_fragment c csid none = stuck
take_fragment c csid (some s) =
    let p = c.parser in
    let n = min p.chunk_left (length c.input) in
    let received = s.received + n in
    if n == 0 && ltb 0 p.chunk_left
    then ok (p, record { consumed = c.consumed; fragment = none })
    else ok (
      record p {
        streams =
            insert csid
              (record s {
                received = received;
                active = if received == s.header.message_length then false else s.active;
              })
              p.streams;
        chunk_left = p.chunk_left - n;
        current = if p.chunk_left - n == 0 then none else some csid;
      },
      record {
        consumed = c.consumed + n;
        fragment = some (record { header = s.header; offset = s.received; bytes = take n c.input });
      },
    )

unfoldable pub take_step : Cursor → Option ℕ → Outcome DecodeError (ChunkParser × ParseStep)
unfolding take_fragment
take_step c none = ok (c.parser, record { consumed = c.consumed; fragment = none })
take_step c (some csid) = take_fragment c csid (lookup csid c.parser.streams)

-- A header has at most 18 bytes and each round adds one, so twenty rounds are enough.
abbrev pub header_rounds : ℕ
header_rounds = 20

-- On an error the source leaves the parser to be discarded, so no state is returned.
unfoldable pub consume : ChunkParser → List Byte → Outcome DecodeError (ChunkParser × ParseStep)
unfolding take_step
consume p input = do
  c ← header_loop header_rounds (record { parser = p; consumed = 0; input = input })
  take_step c c.parser.current
