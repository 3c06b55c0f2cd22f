-- ===== src/Chunk/RoundTrip/Headers.antt =====
-- The parser's reading of one encoded chunk header.
use Prim.Native.Nat.{bit_or}
use rtmpx.Prelude.{
  ℕ, zero, suc, ◌+◌, ◌*◌, ◌/◌, ◌%◌, ◌≤◌, ◌≡◌, refl, Option, some, List, ◌∷◌, ◌++◌, length, ok,
  arith,
}
use rtmpx.Prelude.Bytes.{Byte, IsU24, IsU32}
use rtmpx.Time.{RtmpTimestamp}
use rtmpx.Chunk.Types.{
  ChunkHeaderFormat, full, time_delta_without_message_stream_id, time_delta_only, empty,
  ChunkHeader, MessageHeader,
}
use rtmpx.Chunk.Encoder.{format_code, basic_header, header_fields, extended_timestamp}
use rtmpx.Chunk.Parser.{Stream, basic_len, body_len, needed_extension}
use rtmpx.Chunk.Parser.Begin.{chunk_header, chunk_time, old_header}

-- The fields of a header are machine words, and its chunk stream is one of the encoder's.
pub record IsWire (h : ChunkHeader) : Type 0 where
  pub id_low : 2 ≤ h.chunk_stream_id
  pub id_high : h.chunk_stream_id ≤ 6
  pub time_word : IsU32 h.timestamp_field
  pub length_word : IsU24 h.message_length
  pub stream_word : IsU32 h.message_stream_id

basic_parts :
    (c : ℕ) (format : ChunkHeaderFormat)
    → 2 ≤ c
    → c ≤ 6
    → (bit_or (format_code format * 64) (c % 256) % 64 ≡ c)
      × (bit_or (format_code format * 64) (c % 256) / 64 ≡ format_code format)
basic_parts zero format lo hi = absurd (omega arith)
basic_parts (suc zero) format lo hi = absurd (omega arith)
basic_parts (suc (suc zero)) full lo hi = (refl, refl)
basic_parts (suc (suc zero)) time_delta_without_message_stream_id lo hi = (refl, refl)
basic_parts (suc (suc zero)) time_delta_only lo hi = (refl, refl)
basic_parts (suc (suc zero)) empty lo hi = (refl, refl)
basic_parts (suc (suc (suc zero))) full lo hi = (refl, refl)
basic_parts (suc (suc (suc zero))) time_delta_without_message_stream_id lo hi = (refl, refl)
basic_parts (suc (suc (suc zero))) time_delta_only lo hi = (refl, refl)
basic_parts (suc (suc (suc zero))) empty lo hi = (refl, refl)
basic_parts (suc (suc (suc (suc zero)))) full lo hi = (refl, refl)
basic_parts (suc (suc (suc (suc zero)))) time_delta_without_message_stream_id lo hi = (refl, refl)
basic_parts (suc (suc (suc (suc zero)))) time_delta_only lo hi = (refl, refl)
basic_parts (suc (suc (suc (suc zero)))) empty lo hi = (refl, refl)
basic_parts (suc (suc (suc (suc (suc zero))))) full lo hi = (refl, refl)
basic_parts (suc (suc (suc (suc (suc zero))))) time_delta_without_message_stream_id lo hi =
    (refl, refl)
basic_parts (suc (suc (suc (suc (suc zero))))) time_delta_only lo hi = (refl, refl)
basic_parts (suc (suc (suc (suc (suc zero))))) empty lo hi = (refl, refl)
basic_parts (suc (suc (suc (suc (suc (suc zero)))))) full lo hi = (refl, refl)
basic_parts (suc (suc (suc (suc (suc (suc zero)))))) time_delta_without_message_stream_id lo hi =
    (refl, refl)
basic_parts (suc (suc (suc (suc (suc (suc zero)))))) time_delta_only lo hi = (refl, refl)
basic_parts (suc (suc (suc (suc (suc (suc zero)))))) empty lo hi = (refl, refl)
basic_parts (suc (suc (suc (suc (suc (suc (suc c))))))) format lo hi = absurd (omega arith)

-- The basic header names the chunk stream and the format.
pub basic_header_parts :
    (h : ChunkHeader) (format : ChunkHeaderFormat)
    → IsWire h
    → (basic_header h format % 64 ≡ h.chunk_stream_id)
      × (basic_header h format / 64 ≡ format_code format)
unfolding basic_header
basic_header_parts h format w = basic_parts h.chunk_stream_id format w.id_low w.id_high

pub length-header_fields :
    (h : ChunkHeader) (format : ChunkHeaderFormat)
    → length (header_fields h format) ≡ body_len (format_code format)
unfolding header_fields
length-header_fields h full = refl
length-header_fields h time_delta_without_message_stream_id = refl
length-header_fields h time_delta_only = refl
length-header_fields h empty = refl

-- In format 3 the parser finds the timestamp field with the chunk stream.
abbrev pub TimeKnown : ChunkHeader → ChunkHeaderFormat → Option Stream → Type 0
TimeKnown h empty old = (s : Stream) × (old ≡ some s) × (s.time_field ≡ h.timestamp_field)
TimeKnown h _ old = Unit {0}

-- The parts of the message's header that the format leaves out stand in the chunk stream's header.
abbrev pub Recalls : ChunkHeader → ChunkHeaderFormat → MessageHeader → Type 0
Recalls h full o = o.chunk_stream_id ≡ h.chunk_stream_id
Recalls h time_delta_without_message_stream_id o =
    (o.chunk_stream_id ≡ h.chunk_stream_id) × (o.message_stream_id ≡ h.message_stream_id)
Recalls h _ o =
    (o.chunk_stream_id ≡ h.chunk_stream_id)
    × (o.message_stream_id ≡ h.message_stream_id)
    × (o.type_id ≡ h.message_type_id)
    × (o.message_length ≡ h.message_length)

-- The header of `h` as the parser keeps it, at a time.
abbrev pub parsed : ChunkHeader → RtmpTimestamp → MessageHeader
parsed h t = record {
  chunk_stream_id = h.chunk_stream_id;
  timestamp = t;
  type_id = h.message_type_id;
  message_stream_id = h.message_stream_id;
  message_length = h.message_length;
}

module _ (h : ChunkHeader) (w : IsWire h) (b : Byte) where
  pub extension_at :
      (format : ChunkHeaderFormat) (old : Option Stream) (tail : List Byte)
      → b % 64 ≡ h.chunk_stream_id
      → b / 64 ≡ format_code format
      → TimeKnown h format old
      → needed_extension (b ∷ (header_fields h format ++ tail)) old
        ≡ ok (1 + length (header_fields h format) + length (extended_timestamp h))
  unfolding needed_extension header_fields extended_timestamp basic_len
  extension_at full old tail e₁ e₂ k = ground (arith, w)
  extension_at time_delta_without_message_stream_id old tail e₁ e₂ k = ground (arith, w)
  extension_at time_delta_only old tail e₁ e₂ k = ground (arith, w)
  extension_at empty old tail e₁ e₂ k = ground (arith, w)

  basic_one : (tail : List Byte) → b % 64 ≡ h.chunk_stream_id → basic_len (b ∷ tail) ≡ 1
  unfolding basic_len
  basic_one tail e = ground (arith, w)

  -- The timestamp field is read back, from the header, its extension or the chunk stream.
  pub time_at :
      (format : ChunkHeaderFormat) (old : Option Stream)
      → b % 64 ≡ h.chunk_stream_id
      → b / 64 ≡ format_code format
      → TimeKnown h format old
      → chunk_time (b ∷ (header_fields h format ++ extended_timestamp h)) old ≡ h.timestamp_field
  unfolding chunk_time header_fields extended_timestamp
  time_at full old e₁ e₂ k = rw (basic_one _ e₁, e₂) (ground (arith, w))
  time_at time_delta_without_message_stream_id old e₁ e₂ k =
      rw (basic_one _ e₁, e₂) (ground (arith, w))
  time_at time_delta_only old e₁ e₂ k = rw (basic_one _ e₁, e₂) (ground (arith, w))
  time_at empty old e₁ e₂ k = rw (basic_one _ e₁, e₂) (ground (arith, w))

  -- The message's header is put together from the chunk's and the chunk stream's.
  pub header_at :
      (format : ChunkHeaderFormat) (old : Option Stream) (tail : List Byte) (c : ℕ)
      → b % 64 ≡ h.chunk_stream_id
      → b / 64 ≡ format_code format
      → Recalls h format (old_header c old)
      → chunk_header (b ∷ (header_fields h format ++ tail)) c old
        ≡ parsed h (old_header c old).timestamp
  unfolding chunk_header header_fields
  header_at full old tail c e₁ e₂ k = rw (basic_one _ e₁, e₂) (ground (arith, w))
  header_at time_delta_without_message_stream_id old tail c e₁ e₂ k =
      rw (basic_one _ e₁, e₂) (ground (arith, w))
  header_at time_delta_only old tail c e₁ e₂ k = rw (basic_one _ e₁, e₂) (ground (arith, w))
  header_at empty old tail c e₁ e₂ k = rw (basic_one _ e₁, e₂) (ground (arith, w))
