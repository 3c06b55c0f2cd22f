-- ===== src/Chunk/RoundTrip/Fragment.antt =====
-- One call of `consume` on a whole encoded chunk.
use rtmpx.Prelude.{
  ℕ, ◌+◌, ◌-◌, ◌≡◌, refl, sym, ap, ◌∙◌, min, true, false, none, some, List, [], ◌∷◌, ◌++◌,
  append_assoc, length, length-append, ◌==◌, if◌then◌else◌, ok, arith,
}
use rtmpx.Prelude.Bytes.{Byte}
use rtmpx.Prelude.Map.{lookup, insert, lookup-insert_self, insert-insert}
use rtmpx.Chunk.Types.{ChunkHeaderFormat, ChunkHeader, ParseStep}
use rtmpx.Chunk.Encoder.{basic_header, header_fields, extended_timestamp, encode_header}
use rtmpx.Chunk.Parser.{ChunkParser, body_len}
use rtmpx.Chunk.Parser.Begin.{begin_chunk}
use rtmpx.Chunk.Parser.Consume.{header_loop, take_step, consume}
use rtmpx.Chunk.Parser.Reading.{take-append, at_scratch, Settles, read_header}
use rtmpx.Chunk.RoundTrip.Headers.{
  IsWire, basic_header_parts, length-header_fields, TimeKnown, parsed, extension_at,
}
use rtmpx.Chunk.RoundTrip.Begin.{stream_for, begun}
use mathlib.Core.List.{append-nil}

-- The parser after a chunk of `h` with `n` payload bytes, `received` bytes into the message.
abbrev pub after_chunk : ChunkParser → ChunkHeader → ℕ → ℕ → ChunkParser
after_chunk p h received n = record p {
  scratch = [];
  chunk_left = 0;
  current = none;
  streams =
      insert h.chunk_stream_id
        (stream_for h (received + n) (if received + n == h.message_length then false else true))
        p.streams;
}

abbrev pub step_of : ChunkHeader → ChunkHeaderFormat → ℕ → List Byte → ParseStep
step_of h format received chunk = record {
  consumed = length (encode_header h format) + length chunk;
  fragment = some (record { header = parsed h h.timestamp; offset = received; bytes = chunk });
}

module _ (p : ChunkParser) (h : ChunkHeader) (w : IsWire h) (format : ChunkHeaderFormat)
    (received : ℕ) where
  -- The header is read off the input.
  settles :
      TimeKnown h format (lookup h.chunk_stream_id p.streams)
      → p.current ≡ none
      → begin_chunk (record p { scratch = encode_header h format }) ≡ ok (begun p h format received)
      → (rest : List Byte)
      → Settles 5
          (at_scratch p [] 0 (encode_header h format ++ rest))
          (at_scratch (begun p h format received) [] (length (encode_header h format)) rest)
  unfolding encode_header
  settles k free e rest =
      let (e₁, e₂) = basic_header_parts h format w in
      let b = basic_header h format in
      let fields = header_fields h format in
      let ext = extended_timestamp h in
      let x = λ (tail : List Byte). extension_at h w b format _ tail e₁ e₂ k in
      let counted : 0 + 1 + length fields + length ext ≡ length (b ∷ (fields ++ ext)) =
        omega (arith, length-append fields ext) in
      let read =
        read_header p b fields ext (omega (arith, w, e₁))
          (length-header_fields h format ∙ ap body_len (sym e₂)) (rw e₁ (rw append-nil at (x [])))
          (rw e₁ (x ext)) free (begun p h format received) h.chunk_stream_id 0 rest e refl in
      rw (append_assoc, ← counted) read

  -- What `consume` takes from the input behind the header.
  takes :
      (chunk rest : List Byte) (n : ℕ)
      → length chunk ≡ min (h.message_length - received) p.chunk_size
      → take_step
          (at_scratch (begun p h format received) [] n (chunk ++ rest))
          (some h.chunk_stream_id)
        ≡ ok (
          after_chunk p h received (length chunk),
          record {
            consumed = n + length chunk;
            fragment =
                some (record { header = parsed h h.timestamp; offset = received; bytes = chunk });
          },
        )
  unfolding take_step
  takes chunk rest n e =
      let c = at_scratch (begun p h format received) [] n (chunk ++ rest) in
      let found = lookup-insert_self h.chunk_stream_id (stream_for h received true) p.streams in
      let all : min (min (h.message_length - received) p.chunk_size) (length (chunk ++ rest))
          ≡ length chunk =
        omega (arith, length-append chunk rest) in
      rw (found, all, ← e, take-append chunk rest, insert-insert) (ground arith)

  -- One call consumes the chunk, and passes its payload on under the message's header.
  pub consume_chunk :
      p.scratch ≡ []
      → p.current ≡ none
      → TimeKnown h format (lookup h.chunk_stream_id p.streams)
      → begin_chunk (record p { scratch = encode_header h format }) ≡ ok (begun p h format received)
      → (chunk rest : List Byte) → length chunk ≡ min (h.message_length - received) p.chunk_size
      → consume p (encode_header h format ++ (chunk ++ rest))
        ≡ ok (after_chunk p h received (length chunk), step_of h format received chunk)
  unfolding consume
  consume_chunk empty_scratch free k e chunk rest fits =
      let input = encode_header h format ++ (chunk ++ rest) in
      let same = ap (λ s. header_loop 20 (at_scratch p s 0 input)) empty_scratch in
      rw (same ∙ settles k free e (chunk ++ rest) 15)
        (takes chunk rest (length (encode_header h format)) fits)
