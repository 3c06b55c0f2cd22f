-- ===== src/Chunk/Encoder.antt =====
-- Chunk headers on the wire and the stateful encoder (`InlineHeader` and `ChunkEncoder` of
-- src/chunk_io/serializer.rs).
pub mod Resize
use Prim.Native.Nat.{bit_or, max}
use rtmpx.Prelude.{
  ℕ, ◌+◌, ◌-◌, ◌*◌, ◌/◌, ◌%◌, ◌^◌, min, Bool, true, false, not, ◌&&◌, ◌||◌, Option, none, some,
  List, [], ◌∷◌, ◌++◌, length, get_or, set, ltb, leb, ◌==◌, if◌then◌else◌, Outcome, ok, err, ◌>>=◌,
  ◌>>◌, require,
}
use rtmpx.Prelude.Bytes.{Byte, be24, be32, le32}
use rtmpx.Time
use rtmpx.Time.{RtmpTimestamp}
use rtmpx.Payload.{Payload}
use rtmpx.Messages.Raw.{RawMessage}
use rtmpx.Messages.Message.{MessageSerializationError}
use rtmpx.Chunk.Types.{
  ChunkHeaderFormat, full, time_delta_without_message_stream_id, time_delta_only, empty,
  ChunkHeader,
}

abbrev pub max_initial_timestamp : ℕ
max_initial_timestamp = 0xff_ffff

pub data DropPolicy : Type 0 where
  never allowed : DropPolicy

pub data HeaderMode : Type 0 where
  compressed full_headers : HeaderMode

pub record EncodeOptions : Type 0 where
  pub drop_policy : DropPolicy
  pub headers : HeaderMode

-- `impl Default for EncodeOptions`
abbrev pub default_options : EncodeOptions
default_options = record { drop_policy = never; headers = compressed }

-- Writing to a Vec does not fail, so the variant for I/O is left out.
pub data EncodeError : Type 0 where
  message_too_long : ℕ → EncodeError
  invalid_max_chunk_size : ℕ → EncodeError
  set_chunk_size_message_creation_failure : MessageSerializationError → EncodeError

abbrev pub format_code : ChunkHeaderFormat → ℕ
format_code full = 0
format_code time_delta_without_message_stream_id = 1
format_code time_delta_only = 2
format_code empty = 3

-- The fields between the basic header and the extended timestamp.
unfoldable pub header_fields : ChunkHeader → ChunkHeaderFormat → List Byte
header_fields h empty = []
header_fields h time_delta_only = be24 (min h.timestamp_field max_initial_timestamp)
header_fields h time_delta_without_message_stream_id =
    be24 (min h.timestamp_field max_initial_timestamp)
    ++ (be24 h.message_length ++ (h.message_type_id ∷ []))
header_fields h full =
    be24 (min h.timestamp_field max_initial_timestamp)
    ++ (be24 h.message_length ++ (h.message_type_id ∷ le32 h.message_stream_id))

unfoldable pub extended_timestamp : ChunkHeader → List Byte
extended_timestamp h =
    if leb max_initial_timestamp h.timestamp_field then be32 h.timestamp_field else []

-- `(fmt << 6) | header.chunk_stream_id as u8`
unfoldable pub basic_header : ChunkHeader → ChunkHeaderFormat → Byte
basic_header h format = bit_or (format_code format * 64) (h.chunk_stream_id % 256)

-- `InlineHeader::encode`, the `len` first bytes of its array.
unfoldable pub encode_header : ChunkHeader → ChunkHeaderFormat → List Byte
encode_header h format = basic_header h format ∷ (header_fields h format ++ extended_timestamp h)

pub record CursorState : Type 0 where
  pub chunk : ℕ
  pub header : ℕ
  pub body : ℕ
  pub segment : ℕ
  pub offset : ℕ

abbrev pub start : CursorState
start = record { chunk = 0; header = 0; body = 0; segment = 0; offset = 0 }

pub record Packet : Type 0 where
  pub payload : Payload
  pub first : List Byte
  pub continuation : List Byte
  pub chunk_size : ℕ
  pub drop_policy : DropPolicy
  pub state : CursorState
  pub remaining : ℕ

-- `previous_headers` has a slot for each of the chunk streams 2 to 6.
pub record ChunkEncoder : Type 0 where
  pub previous_headers : List (Option ChunkHeader)
  pub max_chunk_size : ℕ

abbrev pub new : ChunkEncoder
new = record { previous_headers = none ∷ none ∷ none ∷ none ∷ none ∷ []; max_chunk_size = 128 }

-- `1..=6 => 2, 18 | 19 => 3, 9 => 4, 8 => 5, _ => 6`
unfoldable pub get_csid_for_message_type : ℕ → ℕ
get_csid_for_message_type t =
    if leb 1 t && leb t 6
    then 2
    else if t == 18 || t == 19
    then 3
    else if t == 9
    then 4
    else if t == 8
    then 5
    else 6

abbrev pub is_full : HeaderMode → Bool
is_full compressed = false
is_full full_headers = true

abbrev pub is_allowed : DropPolicy → Bool
is_allowed never = false
is_allowed allowed = true

-- The header that is sent, and its format, after the previous header of the chunk stream.
unfoldable pub choose_format :
    Option ChunkHeader → Bool → ChunkHeader → ChunkHeader × ChunkHeaderFormat
choose_format none force h = (h, full)
choose_format (some previous) force h =
    if not force
      && (not previous.can_be_dropped && previous.message_stream_id == h.message_stream_id)
    then (let h' = record h { timestamp_field = (Time.sub h.timestamp previous.timestamp).value } in
        (
          h',
          if not (previous.message_type_id == h.message_type_id)
                || not (previous.message_length == h.message_length)
              then time_delta_without_message_stream_id
              else if not (previous.timestamp_field == h'.timestamp_field)
              then time_delta_only
              else empty,
        ))
    else (h, full)

-- `len.div_ceil(size).max(1)`
unfoldable pub chunk_count : ℕ → ℕ → ℕ
chunk_count len size = max ((len + size - 1) / size) 1

-- The header of a message before the choice of its format.
abbrev pub plain_header : RawMessage Payload → DropPolicy → ChunkHeader
plain_header m policy = record {
  chunk_stream_id = get_csid_for_message_type m.type_id;
  timestamp = m.timestamp;
  timestamp_field = m.timestamp.value;
  message_length = m.body.len;
  message_type_id = m.type_id;
  message_stream_id = m.message_stream_id;
  can_be_dropped = is_allowed policy;
}

abbrev pub slot_of : RawMessage Payload → ℕ
slot_of m = get_csid_for_message_type m.type_id - 2

-- The header and format that `encode` settles on.
abbrev pub chosen :
    ChunkEncoder → RawMessage Payload → EncodeOptions → ChunkHeader × ChunkHeaderFormat
chosen e m options =
    choose_format (get_or e.previous_headers (slot_of m) none) (is_full options.headers)
      (plain_header m options.drop_policy)

unfoldable pub packet_of : ℕ → Payload → EncodeOptions → ChunkHeader × ChunkHeaderFormat → Packet
packet_of size payload options (h, format) =
    let first = encode_header h format in
    let continuation = encode_header h (if is_full options.headers then full else empty) in
    record {
      payload = payload;
      first = first;
      continuation = continuation;
      chunk_size = size;
      drop_policy = options.drop_policy;
      state = start;
      remaining =
          length first + (chunk_count payload.len size - 1) * length continuation + payload.len;
    }

unfoldable pub encode :
    ChunkEncoder → RawMessage Payload → EncodeOptions → Outcome EncodeError (ChunkEncoder × Packet)
encode e m options =
    if ltb 0xff_ffff m.body.len
    then err (message_too_long (min m.body.len (2 ^ 32 - 1)))
    else ok (
      record e {
        previous_headers = set e.previous_headers (slot_of m) (some (chosen e m options).0);
      },
      packet_of e.max_chunk_size m.body options (chosen e m options),
    )
