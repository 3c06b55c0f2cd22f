-- ===== src/Chunk/Parser/Begin.antt =====
-- The header of a chunk (`begin_chunk` of src/chunk_io/streaming.rs).
use rtmpx.Prelude.{
  ℕ, ◌+◌, ◌-◌, min, true, not, ◌&&◌, ◌||◌, Option, none, some, List, length, ltb, leb, ◌==◌,
  if◌then◌else◌, Outcome, ok, ◌>>=◌, ◌>>◌,
}
use rtmpx.Prelude.Bytes.{Byte, from_be32, from_le32}
use rtmpx.Prelude.Map.{lookup, insert, count_if}
use rtmpx.Time
use rtmpx.Time.{RtmpTimestamp}
use rtmpx.Chunk.Types.{
  DecodeError, invalid_continuation, no_previous_chunk_on_stream, resource_limit_exceeded,
  message_length_smaller_than_buffered_payload, MessageHeader,
}
use rtmpx.Chunk.Parser.{
  Stream, ChunkParser, is_none, is_active, at, basic_len, csid_of, fmt_of, body_len, u24, limit,
}

-- The header so far on the chunk stream, or an empty one.
abbrev pub old_header : ℕ → Option Stream → MessageHeader
old_header csid none = record {
  chunk_stream_id = csid;
  timestamp = record { value = 0 };
  type_id = 0;
  message_stream_id = 0;
  message_length = 0;
}
old_header csid (some s) = s.header

-- The fields that the chunk's format carries replace those of the header so far.
unfoldable pub chunk_header : List Byte → ℕ → Option Stream → MessageHeader
chunk_header s csid old =
    let i = basic_len s in
    let h = old_header csid old in
    let h₁ =
      if leb (fmt_of s) 1
      then record h { message_length = u24 s (i + 3); type_id = at s (i + 6) }
      else h in
    if fmt_of s == 0
    then record h₁ {
      message_stream_id = from_le32 (at s (i + 7)) (at s (i + 8)) (at s (i + 9)) (at s (i + 10));
    }
    else h₁

-- `old.unwrap().time_field` is read in format 3 only, where `old` is there.
abbrev pub old_time_field : Option Stream → ℕ
old_time_field none = 0
old_time_field (some s) = s.time_field

unfoldable pub chunk_time : List Byte → Option Stream → ℕ
chunk_time s old =
    let field = if fmt_of s == 3 then old_time_field old else u24 s (basic_len s) in
    let i = basic_len s + body_len (fmt_of s) in
    if leb 0xff_ffff field
    then from_be32 (at s i) (at s (i + 1)) (at s (i + 2)) (at s (i + 3))
    else field

-- The first chunk of a message: its timestamp, and the bound on partial messages.
unfoldable pub start_message :
    ChunkParser → ℕ → MessageHeader → ℕ → Outcome DecodeError MessageHeader
start_message p fmt h time = do
  let timestamp = if fmt == 0 then Time.new time else Time.add_ms h.timestamp time
  let active = count_if is_active p.streams
  limit (ltb p.chunk_size h.message_length && leb p.limits.maximum_partial_messages active)
      (resource_limit_exceeded "partial messages" (active + 1) p.limits.maximum_partial_messages)
  ok (record h { timestamp = timestamp })

-- A later chunk of a message must agree with the first one.
unfoldable pub continue_message :
    ℕ → ℕ → MessageHeader → ℕ → Stream → Outcome DecodeError MessageHeader
continue_message csid fmt h time previous = do
  limit (ltb h.message_length previous.received)
      (message_length_smaller_than_buffered_payload csid h.message_length previous.received)
  limit
      (not (h.message_length == previous.header.message_length)
        || not (h.type_id == previous.header.type_id)
        || not (h.message_stream_id == previous.header.message_stream_id)
        || (fmt == 0 && not (time == previous.header.timestamp.value)))
      (invalid_continuation csid)
  ok h

-- The two branches of `if !continuing`, with the bytes received so far.
unfoldable pub start_or_continue :
    ChunkParser
    → ℕ
    → ℕ
    → MessageHeader
    → ℕ
    → Option Stream
    → Outcome DecodeError (MessageHeader × ℕ)
unfolding start_message continue_message
start_or_continue p csid fmt h time none = do h' ← start_message p fmt h time; ok (h', 0)
start_or_continue p csid fmt h time (some s) =
    if s.active
    then (continue_message csid fmt h time s >>= λ h'. ok (h', s.received))
    else (start_message p fmt h time >>= λ h'. ok (h', 0))

unfoldable pub begin_with : ChunkParser → ℕ → ℕ → Option Stream → Outcome DecodeError ChunkParser
unfolding start_or_continue
begin_with p csid fmt old = do
  limit (not (fmt == 0) && is_none old) (no_previous_chunk_on_stream csid)
  limit (is_none old && leb p.limits.maximum_tracked_chunk_streams (length p.streams)) (
      resource_limit_exceeded "tracked chunk streams" (length p.streams + 1)
        p.limits.maximum_tracked_chunk_streams)
  let h = chunk_header p.scratch csid old
  limit (ltb p.limits.maximum_message_size h.message_length) (
      resource_limit_exceeded "message payload bytes" h.message_length
        p.limits.maximum_message_size)
  let time = chunk_time p.scratch old
  (h', received) ← start_or_continue p csid fmt h time old
  ok (record p {
    chunk_left = min (h'.message_length - received) p.chunk_size;
    current = some csid;
    streams =
        insert csid (record { header = h'; time_field = time; received = received; active = true })
          p.streams;
  })

unfoldable pub begin_chunk : ChunkParser → Outcome DecodeError ChunkParser
unfolding begin_with
begin_chunk p =
    let csid = csid_of p.scratch in begin_with p csid (fmt_of p.scratch) (lookup csid p.streams)
