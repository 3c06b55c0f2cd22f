-- ===== src/Chunk/RoundTrip/Begin.antt =====
-- The parser begins the chunk whose header the encoder wrote.
use rtmpx.Prelude.{
  ℕ, ◌-◌, ◌≤◌, ◌<◌, ◌≡◌, refl, ◌∙◌, min, Bool, true, false, Option, none, some, length, ok, arith,
}
use rtmpx.Prelude.Map.{lookup, insert, count_if}
use rtmpx.Time.{new, add_ms}
use rtmpx.Chunk.Types.{
  ChunkHeaderFormat, full, time_delta_without_message_stream_id, time_delta_only, empty,
  ChunkHeader,
}
use rtmpx.Chunk.Encoder.{format_code, basic_header, extended_timestamp, encode_header}
use rtmpx.Chunk.Parser.{ChunkParser, Stream, is_active, is_none, csid_of, fmt_of}
use rtmpx.Chunk.Parser.Begin.{
  chunk_header, chunk_time, old_header, begin_chunk, begin_with, start_or_continue, start_message,
  continue_message,
}
use rtmpx.Chunk.RoundTrip.Headers.{
  IsWire, basic_header_parts, TimeKnown, Recalls, parsed, time_at, header_at,
}

-- No message is under way on the chunk stream.
abbrev pub Inactive : Option Stream → Type 0
Inactive none = Unit {0}
Inactive (some s) = s.active ≡ false

-- The time that the parser computes for a first chunk is the message's.
abbrev pub TimeAgrees : ChunkHeader → ChunkHeaderFormat → Option Stream → Type 0
TimeAgrees h full old = h.timestamp ≡ record { value = h.timestamp_field }
TimeAgrees h _ old =
    (s : Stream) × (old ≡ some s) × (add_ms s.header.timestamp h.timestamp_field ≡ h.timestamp)

-- The limits of the parser admit a message of this length on the chunk stream.
pub record Admits (p : ChunkParser) (csid len : ℕ) : Type 0 where
  pub size_fits : len ≤ p.limits.maximum_message_size
  pub stream_fits :
      is_none (lookup csid p.streams) ≡ true
      → length p.streams < p.limits.maximum_tracked_chunk_streams
  pub partial_fits :
      p.chunk_size < len → count_if is_active p.streams < p.limits.maximum_partial_messages

abbrev pub stream_for : ChunkHeader → ℕ → Bool → Stream
stream_for h received active = record {
  header = parsed h h.timestamp;
  time_field = h.timestamp_field;
  received = received;
  active = active;
}

-- The parser after the header of a chunk of `h`, `received` bytes into the message.
abbrev pub begun : ChunkParser → ChunkHeader → ChunkHeaderFormat → ℕ → ChunkParser
begun p h format received = record p {
  scratch = encode_header h format;
  chunk_left = min (h.message_length - received) p.chunk_size;
  current = some h.chunk_stream_id;
  streams = insert h.chunk_stream_id (stream_for h received true) p.streams;
}

module _ (p : ChunkParser) (h : ChunkHeader) (w : IsWire h) (format : ChunkHeaderFormat) where
  csid_at : csid_of (encode_header h format) ≡ h.chunk_stream_id
  unfolding csid_of encode_header
  csid_at = ground (arith, w, basic_header_parts h format w)

  -- `begin_chunk` on an encoded header, with what it reads off the header put in.
  begin_with_header :
      (old : Option Stream)
      → TimeKnown h format old
      → Recalls h format (old_header h.chunk_stream_id old)
      → (chunk_time (encode_header h format) old ≡ h.timestamp_field)
        × (chunk_header (encode_header h format) h.chunk_stream_id old
            ≡ parsed h (old_header h.chunk_stream_id old).timestamp)
        × (fmt_of (encode_header h format) ≡ format_code format)
  unfolding encode_header
  begin_with_header old k r =
      let (e₁, e₂) = basic_header_parts h format w in
      (
        time_at h w (basic_header h format) format old e₁ e₂ k,
        header_at h w (basic_header h format) format old (extended_timestamp h) h.chunk_stream_id e₁
            e₂ r,
        e₂,
      )

starts_at :
    (p : ChunkParser) (h : ChunkHeader) (format : ChunkHeaderFormat) (old : Option Stream)
    → TimeKnown h format old
    → Recalls h format (old_header h.chunk_stream_id old)
    → Inactive old
    → TimeAgrees h format old
    → (h.message_length ≤ p.limits.maximum_message_size)
    → (is_none old ≡ true → length p.streams < p.limits.maximum_tracked_chunk_streams)
    → (p.chunk_size < h.message_length
        → count_if is_active p.streams < p.limits.maximum_partial_messages)
    → chunk_time (encode_header h format) old ≡ h.timestamp_field
    → chunk_header (encode_header h format) h.chunk_stream_id old
      ≡ parsed h (old_header h.chunk_stream_id old).timestamp
    → begin_with
        (record p { scratch = encode_header h format })
        h.chunk_stream_id
        (format_code format)
        old
      ≡ ok (begun p h format 0)
unfolding begin_with start_or_continue start_message new
starts_at p h full none k r i t s₁ s₂ s₃ e₁ e₂ = ground arith
starts_at p h full (some s) k r i t s₁ s₂ s₃ e₁ e₂ = ground arith
starts_at p h time_delta_without_message_stream_id none k r i t s₁ s₂ s₃ e₁ e₂ = ground arith
starts_at p h time_delta_without_message_stream_id (some s) k r i t s₁ s₂ s₃ e₁ e₂ = ground arith
starts_at p h time_delta_only none k r i t s₁ s₂ s₃ e₁ e₂ = ground arith
starts_at p h time_delta_only (some s) k r i t s₁ s₂ s₃ e₁ e₂ = ground arith
starts_at p h empty none k r i t s₁ s₂ s₃ e₁ e₂ = ground arith
starts_at p h empty (some s) k r i t s₁ s₂ s₃ e₁ e₂ = ground arith

continues_at :
    (p : ChunkParser) (h : ChunkHeader) (format : ChunkHeaderFormat) (received : ℕ)
    → (format ≡ full → h.timestamp_field ≡ h.timestamp.value)
    → h.message_length ≤ p.limits.maximum_message_size
    → received ≤ h.message_length
    → chunk_time (encode_header h format) (some (stream_for h received true)) ≡ h.timestamp_field
    → chunk_header (encode_header h format) h.chunk_stream_id (some (stream_for h received true))
      ≡ parsed h h.timestamp
    → begin_with
        (record p { scratch = encode_header h format })
        h.chunk_stream_id
        (format_code format)
        (some (stream_for h received true))
      ≡ ok (begun p h format received)
unfolding begin_with start_or_continue continue_message
continues_at p h full r t s₁ hr e₁ e₂ = ground (arith, t refl)
continues_at p h time_delta_without_message_stream_id r t s₁ hr e₁ e₂ = ground arith
continues_at p h time_delta_only r t s₁ hr e₁ e₂ = ground arith
continues_at p h empty r t s₁ hr e₁ e₂ = ground arith

module _ (p : ChunkParser) (h : ChunkHeader) (w : IsWire h) (format : ChunkHeaderFormat) where
  begin_chunk-begin_with :
      begin_chunk (record p { scratch = encode_header h format })
      ≡ begin_with
          (record p { scratch = encode_header h format })
          h.chunk_stream_id
          (format_code format)
          (lookup h.chunk_stream_id p.streams)
  unfolding begin_chunk
  begin_chunk-begin_with = rw (csid_at p h w format, fmt_at)
    where
      fmt_at : fmt_of (encode_header h format) ≡ format_code format
      fmt_at = (unfold encode_header in (basic_header_parts h format w).1)

  -- The first chunk of a message, on a chunk stream where none is under way.
  pub begin_start :
      (old : Option Stream)
      → lookup h.chunk_stream_id p.streams ≡ old
      → TimeKnown h format old
      → Recalls h format (old_header h.chunk_stream_id old)
      → Inactive old
      → TimeAgrees h format old
      → Admits p h.chunk_stream_id h.message_length
      → begin_chunk (record p { scratch = encode_header h format }) ≡ ok (begun p h format 0)
  begin_start old e k r i t a =
      let (f₁, f₂, _) = begin_with_header p h w format old k r in
      begin_chunk-begin_with
      ∙ rw e (
          starts_at p h format old k r i t a.size_fits (λ n. a.stream_fits (rw e n)) a.partial_fits
            f₁ f₂)

  -- A later chunk, in the format that repeats the header or in the empty one.
  pub begin_continue :
      (received : ℕ)
      → lookup h.chunk_stream_id p.streams ≡ some (stream_for h received true)
      → (format ≡ full → h.timestamp_field ≡ h.timestamp.value)
      → h.message_length ≤ p.limits.maximum_message_size
      → received ≤ h.message_length
      → TimeKnown h format (some (stream_for h received true))
      → Recalls h format (parsed h h.timestamp)
      → begin_chunk (record p { scratch = encode_header h format }) ≡ ok (begun p h format received)
  begin_continue received e t s hr k r =
      let (f₁, f₂, _) = begin_with_header p h w format (some (stream_for h received true)) k r in
      begin_chunk-begin_with ∙ rw e (continues_at p h format received t s hr f₁ f₂)
