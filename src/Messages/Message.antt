-- ===== src/Messages/Message.antt =====
-- Interpreted messages (`RtmpMessage` of src/messages/mod.rs).
use rtmpx.Prelude.{ℕ, Option, List}
use rtmpx.Prelude.Bytes.{Byte}
use rtmpx.Time.{RtmpTimestamp}

pub data PeerBandwidthLimitType : Type 0 where
  hard soft dynamic : PeerBandwidthLimitType

pub data UserControlEventType : Type 0 where
  stream_begin stream_eof stream_dry : UserControlEventType
  set_buffer_length stream_is_recorded : UserControlEventType
  ping_request ping_response : UserControlEventType
  buffer_empty buffer_ready : UserControlEventType

-- `AmfEncoding` of src/amf/mod.rs.
pub data AmfEncoding : Type 0 where
  in_amf0 in_amf3 : AmfEncoding

-- An f64 stands as its 64 bits, a String as its bytes. `V` and `W` are the types of AMF0 and AMF3
-- values.
pub data RtmpMessage (V W : Type 0) : Type 0 where
  unknown : ℕ → List Byte → RtmpMessage V W
  abort : ℕ → RtmpMessage V W
  acknowledgement : ℕ → RtmpMessage V W
  amf0_command : List Byte → ℕ → V → List V → RtmpMessage V W
  amf0_data : List V → RtmpMessage V W
  amf3_command : List Byte → ℕ → W → List W → AmfEncoding → RtmpMessage V W
  amf3_data : List W → AmfEncoding → RtmpMessage V W
  amf0_shared_object : List Byte → RtmpMessage V W
  amf3_shared_object : List Byte → RtmpMessage V W
  audio_data : List Byte → RtmpMessage V W
  set_chunk_size : ℕ → RtmpMessage V W
  set_peer_bandwidth : ℕ → PeerBandwidthLimitType → RtmpMessage V W
  user_control : UserControlEventType → Option ℕ → Option ℕ → Option RtmpTimestamp → RtmpMessage V W
  video_data : List Byte → RtmpMessage V W
  window_acknowledgement : ℕ → RtmpMessage V W

unfoldable pub get_message_type_id : {V W : Type 0} → RtmpMessage V W → ℕ
get_message_type_id (unknown type_id body) = type_id
get_message_type_id (abort stream_id) = 2
get_message_type_id (acknowledgement number) = 3
get_message_type_id (amf0_command name id object arguments) = 20
get_message_type_id (amf0_data values) = 18
get_message_type_id (amf3_command name id object arguments format) = 17
get_message_type_id (amf3_data values format) = 15
get_message_type_id (amf0_shared_object body) = 19
get_message_type_id (amf3_shared_object body) = 16
get_message_type_id (audio_data body) = 8
get_message_type_id (set_chunk_size size) = 1
get_message_type_id (set_peer_bandwidth size limit_type) = 6
get_message_type_id (user_control event stream_id buffer_length timestamp) = 4
get_message_type_id (video_data body) = 9
get_message_type_id (window_acknowledgement size) = 5

-- The errors of the AMF codecs stand as one. Writing to a Vec does not fail, so the I/O error is left
-- out.
pub data MessageSerializationError : Type 0 where
  invalid_chunk_size amf_not_serialized : MessageSerializationError

-- `io` is the one error that reading the bytes of a body can meet, its end.
pub data MessageDeserializationError : Type 0 where
  invalid_message_format amf_not_deserialized io : MessageDeserializationError
