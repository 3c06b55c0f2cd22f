-- ===== src/Messages/Control.antt =====
-- The bodies of protocol control messages and of opaque ones (`serialize` and `deserialize` of
-- src/messages/types, less those of AMF bodies). Bytes behind those that are read are ignored.
use rtmpx.Prelude.{
  ℕ, ◌-◌, Option, none, some, List, [], ◌∷◌, ◌++◌, ltb, ◌==◌, if◌then◌else◌, Outcome, ok, err,
  ◌>>=◌,
}
use rtmpx.Prelude.Bytes.{Byte, be16, be32, from_be16, from_be32}
use rtmpx.Time.{RtmpTimestamp}
use rtmpx.Messages.Message
use rtmpx.Messages.Message.{
  PeerBandwidthLimitType, hard, soft, dynamic, UserControlEventType, stream_begin, stream_eof,
  stream_dry, set_buffer_length, stream_is_recorded, ping_request, ping_response, buffer_empty,
  buffer_ready, RtmpMessage, MessageSerializationError, invalid_chunk_size,
  MessageDeserializationError, invalid_message_format, io,
}

-- The three reads of `byteorder::ReadBytesExt`, each with the bytes behind it.
unfoldable pub read_u8 : List Byte → Outcome MessageDeserializationError (ℕ × List Byte)
read_u8 (a ∷ rest) = ok (a, rest)
read_u8 [] = err io

unfoldable pub read_u16 : List Byte → Outcome MessageDeserializationError (ℕ × List Byte)
read_u16 (a ∷ b ∷ rest) = ok (from_be16 a b, rest)
read_u16 _ = err io

unfoldable pub read_u32 : List Byte → Outcome MessageDeserializationError (ℕ × List Byte)
read_u32 (a ∷ b ∷ c ∷ d ∷ rest) = ok (from_be32 a b c d, rest)
read_u32 _ = err io

-- A body of one u32.
abbrev pub read_word : {A : Type 0} → (ℕ → A) → List Byte → Outcome MessageDeserializationError A
read_word f body = read_u32 body >>= λ r. ok (f r.0)

abbrev pub max_size : ℕ
max_size = 0x8000_0000 - 1

unfoldable pub serialize_set_chunk_size : ℕ → Outcome MessageSerializationError (List Byte)
serialize_set_chunk_size size = if ltb max_size size then err invalid_chunk_size else ok (be32 size)

module _ {V W : Type 0} where
  unfoldable pub deserialize_set_chunk_size :
      List Byte → Outcome MessageDeserializationError (RtmpMessage V W)
  unfolding read_u32
  deserialize_set_chunk_size body = read_u32 body >>= λ r.
      if ltb max_size r.0 then err invalid_message_format else ok (Message.set_chunk_size r.0)

  unfoldable pub deserialize_abort :
      List Byte → Outcome MessageDeserializationError (RtmpMessage V W)
  unfolding read_u32
  deserialize_abort body = read_word Message.abort body

  unfoldable pub deserialize_acknowledgement :
      List Byte → Outcome MessageDeserializationError (RtmpMessage V W)
  unfolding read_u32
  deserialize_acknowledgement body = read_word Message.acknowledgement body

  unfoldable pub deserialize_window_acknowledgement_size :
      List Byte → Outcome MessageDeserializationError (RtmpMessage V W)
  unfolding read_u32
  deserialize_window_acknowledgement_size body = read_word Message.window_acknowledgement body

-- The other bodies of one u32.
abbrev pub serialize_abort : ℕ → Outcome MessageSerializationError (List Byte)
serialize_abort stream_id = ok (be32 stream_id)

abbrev pub serialize_acknowledgement : ℕ → Outcome MessageSerializationError (List Byte)
serialize_acknowledgement sequence_number = ok (be32 sequence_number)

abbrev pub serialize_window_acknowledgement_size : ℕ → Outcome MessageSerializationError (List Byte)
serialize_window_acknowledgement_size size = ok (be32 size)

abbrev pub limit_code : PeerBandwidthLimitType → ℕ
limit_code hard = 0
limit_code soft = 1
limit_code dynamic = 2

abbrev pub limit_of : ℕ → Outcome MessageDeserializationError PeerBandwidthLimitType
limit_of code =
    if code == 0
    then ok hard
    else if code == 1
    then ok soft
    else if code == 2
    then ok dynamic
    else err invalid_message_format

unfoldable pub serialize_set_peer_bandwidth :
    PeerBandwidthLimitType → ℕ → Outcome MessageSerializationError (List Byte)
serialize_set_peer_bandwidth limit_type size = ok (be32 size ++ (limit_code limit_type ∷ []))

unfoldable pub deserialize_set_peer_bandwidth :
    {V W : Type 0} → List Byte → Outcome MessageDeserializationError (RtmpMessage V W)
unfolding read_u32 read_u8
deserialize_set_peer_bandwidth body = do
  size ← read_u32 body
  code ← read_u8 size.1
  limit_type ← limit_of code.0
  ok (Message.set_peer_bandwidth size.0 limit_type)

abbrev pub event_code : UserControlEventType → ℕ
event_code stream_begin = 0
event_code stream_eof = 1
event_code stream_dry = 2
event_code set_buffer_length = 3
event_code stream_is_recorded = 4
event_code ping_request = 6
event_code ping_response = 7
event_code buffer_empty = 31
event_code buffer_ready = 32

abbrev pub event_of : ℕ → Outcome MessageDeserializationError UserControlEventType
event_of code =
    if code == 0
    then ok stream_begin
    else if code == 1
    then ok stream_eof
    else if code == 2
    then ok stream_dry
    else if code == 3
    then ok set_buffer_length
    else if code == 4
    then ok stream_is_recorded
    else if code == 6
    then ok ping_request
    else if code == 7
    then ok ping_response
    else if code == 31
    then ok buffer_empty
    else if code == 32
    then ok buffer_ready
    else err invalid_message_format

-- What an absent field is written as, where `debug_assert!` is off.
abbrev pub or_zero : Option ℕ → ℕ
or_zero none = 0
or_zero (some v) = v

abbrev pub time_or_zero : Option RtmpTimestamp → ℕ
time_or_zero none = 0
time_or_zero (some t) = t.value

-- Which fields follow the event's code?
pub data Fields : Type 0 where
  of_stream of_length of_time : Fields

abbrev pub fields_of : UserControlEventType → Fields
fields_of stream_begin = of_stream
fields_of stream_eof = of_stream
fields_of stream_dry = of_stream
fields_of set_buffer_length = of_length
fields_of stream_is_recorded = of_stream
fields_of ping_request = of_time
fields_of ping_response = of_time
fields_of buffer_empty = of_stream
fields_of buffer_ready = of_stream

abbrev pub write_fields : Fields → Option ℕ → Option ℕ → Option RtmpTimestamp → List Byte
write_fields of_stream stream_id length timestamp = be32 (or_zero stream_id)
write_fields of_length stream_id length timestamp =
    be32 (or_zero stream_id) ++ be32 (or_zero length)
write_fields of_time stream_id length timestamp = be32 (time_or_zero timestamp)

unfoldable pub serialize_user_control :
    UserControlEventType
    → Option ℕ
    → Option ℕ
    → Option RtmpTimestamp
    → Outcome MessageSerializationError (List Byte)
serialize_user_control event stream_id length timestamp =
    ok (be16 (event_code event) ++ write_fields (fields_of event) stream_id length timestamp)

unfoldable pub read_fields :
    {V W : Type 0}
    → Fields
    → UserControlEventType
    → List Byte
    → Outcome MessageDeserializationError (RtmpMessage V W)
unfolding read_u32
read_fields of_stream event body =
    read_word (λ s. Message.user_control event (some s) none none) body
read_fields of_time event body =
    read_word (λ t. Message.user_control event none none (some (record { value = t }))) body
read_fields of_length event body = do
  stream_id ← read_u32 body
  length ← read_u32 stream_id.1
  ok (Message.user_control event (some stream_id.0) (some length.0) none)

unfoldable pub deserialize_user_control :
    {V W : Type 0} → List Byte → Outcome MessageDeserializationError (RtmpMessage V W)
unfolding read_u16 read_fields
deserialize_user_control body = do
  code ← read_u16 body
  event ← event_of code.0
  read_fields (fields_of event) event code.1
