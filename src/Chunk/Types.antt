-- ===== src/Chunk/Types.antt =====
-- The data of src/chunk_io: chunk headers (chunk_header.rs), decoding errors
-- (deserialization_errors.rs), decoder limits (deserializer.rs), message headers and fragments
-- (streaming.rs).
use Prim.Native.String.{String}
use rtmpx.Prelude.{ℕ, ◌+◌, Bool, Option, List, ◌==◌, length}
use rtmpx.Prelude.Bytes.{Byte}
use rtmpx.Time.{RtmpTimestamp}

pub data ChunkHeaderFormat : Type 0 where
  full time_delta_without_message_stream_id time_delta_only empty : ChunkHeaderFormat

-- What the encoder remembers of a message. Numbers are u32, `message_type_id` is a u8.
pub record ChunkHeader : Type 0 where
  pub chunk_stream_id : ℕ
  pub timestamp : RtmpTimestamp
  pub timestamp_field : ℕ
  pub message_length : ℕ
  pub message_type_id : ℕ
  pub message_stream_id : ℕ
  pub can_be_dropped : Bool

-- The variants that the parser and the decoders return; `Io` is never built by them.
pub data DecodeError : Type 0 where
  invalid_continuation : ℕ → DecodeError
  no_previous_chunk_on_stream : ℕ → DecodeError
  invalid_max_chunk_size : ℕ → DecodeError
  resource_limit_exceeded : String → ℕ → ℕ → DecodeError
  message_length_smaller_than_buffered_payload : ℕ → ℕ → ℕ → DecodeError

pub record DecoderLimits : Type 0 where
  pub maximum_chunk_size : ℕ
  pub maximum_message_size : ℕ
  pub maximum_tracked_chunk_streams : ℕ
  pub maximum_partial_messages : ℕ
  pub maximum_buffered_bytes : ℕ
  pub maximum_fragments_per_message : ℕ

-- `impl Default for DecoderLimits`
abbrev pub default_limits : DecoderLimits
default_limits = record {
  maximum_chunk_size = 65536;
  maximum_message_size = 10485760;
  maximum_tracked_chunk_streams = 100;
  maximum_partial_messages = 4;
  maximum_buffered_bytes = 16777216;
  maximum_fragments_per_message = 131072;
}

pub record MessageHeader : Type 0 where
  pub chunk_stream_id : ℕ
  pub timestamp : RtmpTimestamp
  pub type_id : ℕ
  pub message_stream_id : ℕ
  pub message_length : ℕ

-- The field `data` of the source is `bytes` here.
pub record MessageFragment : Type 0 where
  pub header : MessageHeader
  pub offset : ℕ
  pub bytes : List Byte

abbrev pub is_start : MessageFragment → Bool
is_start f = f.offset == 0

abbrev pub is_end : MessageFragment → Bool
is_end f = f.offset + length f.bytes == f.header.message_length

pub record ParseStep : Type 0 where
  pub consumed : ℕ
  pub fragment : Option MessageFragment
