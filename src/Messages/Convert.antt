-- ===== src/Messages/Convert.antt =====
-- Between raw and interpreted messages (`to_rtmp_message` and `from_rtmp_message` of
-- src/messages/raw_message.rs).
use rtmpx.Prelude.{ℕ, List, Outcome, ok, err, stuck, ◌>>=◌, ◌==◌, if◌then◌else◌}
use rtmpx.Prelude.Bytes.{Byte}
use rtmpx.Time.{RtmpTimestamp}
use rtmpx.Messages.Raw.{RawMessage}
use rtmpx.Messages.Message
use rtmpx.Messages.Message.{
  AmfEncoding, in_amf3, RtmpMessage, get_message_type_id, MessageSerializationError,
  MessageDeserializationError,
}
use rtmpx.Messages.Control.{
  serialize_set_chunk_size, deserialize_set_chunk_size, deserialize_abort,
  deserialize_acknowledgement, deserialize_window_acknowledgement_size, serialize_abort,
  serialize_acknowledgement, serialize_window_acknowledgement_size, serialize_set_peer_bandwidth,
  deserialize_set_peer_bandwidth, serialize_user_control, deserialize_user_control,
}

-- The bodies of AMF values, which are left to the AMF codec.
pub record AmfBodies (V W : Type 0) : Type 0 where
  pub write_amf0_command :
      List Byte → ℕ → V → List V → Outcome MessageSerializationError (List Byte)
  pub write_amf0_data : List V → Outcome MessageSerializationError (List Byte)
  pub write_amf3_command :
      List Byte → ℕ → W → List W → AmfEncoding → Outcome MessageSerializationError (List Byte)
  pub write_amf3_data : List W → AmfEncoding → Outcome MessageSerializationError (List Byte)
  pub read_amf0_command : List Byte → Outcome MessageDeserializationError (RtmpMessage V W)
  pub read_amf0_data : List Byte → Outcome MessageDeserializationError (RtmpMessage V W)
  pub read_amf3_command : List Byte → Outcome MessageDeserializationError (RtmpMessage V W)
  pub read_amf3_data : List Byte → Outcome MessageDeserializationError (RtmpMessage V W)
  pub read_amf3_values : List Byte → Outcome MessageDeserializationError (List W)

module _ {V W : Type 0} (amf : AmfBodies V W) where
  -- The second attempt, after the first one's error.
  abbrev pub read_as_amf3 :
      MessageDeserializationError
      → Outcome MessageDeserializationError (List W)
      → Outcome MessageDeserializationError (RtmpMessage V W)
  read_as_amf3 first (ok values) = ok (Message.amf3_data values in_amf3)
  read_as_amf3 first (err e) = err first
  read_as_amf3 first stuck = stuck

  abbrev pub tolerate :
      List Byte
      → Outcome MessageDeserializationError (RtmpMessage V W)
      → Outcome MessageDeserializationError (RtmpMessage V W)
  tolerate body (ok message) = ok message
  tolerate body (err first) = read_as_amf3 first (amf.read_amf3_values body)
  tolerate body stuck = stuck

  unfoldable pub deserialize_data_tolerant :
      List Byte → Outcome MessageDeserializationError (RtmpMessage V W)
  deserialize_data_tolerant body = tolerate body (amf.read_amf0_data body)

  unfoldable pub to_rtmp_message :
      RawMessage (List Byte) → Outcome MessageDeserializationError (RtmpMessage V W)
  unfolding deserialize_set_chunk_size deserialize_abort deserialize_acknowledgement
      deserialize_user_control deserialize_window_acknowledgement_size
      deserialize_set_peer_bandwidth deserialize_data_tolerant
  to_rtmp_message m =
      if m.type_id == 1
      then deserialize_set_chunk_size m.body
      else if m.type_id == 2
      then deserialize_abort m.body
      else if m.type_id == 3
      then deserialize_acknowledgement m.body
      else if m.type_id == 4
      then deserialize_user_control m.body
      else if m.type_id == 5
      then deserialize_window_acknowledgement_size m.body
      else if m.type_id == 6
      then deserialize_set_peer_bandwidth m.body
      else if m.type_id == 8
      then ok (Message.audio_data m.body)
      else if m.type_id == 9
      then ok (Message.video_data m.body)
      else if m.type_id == 15
      then amf.read_amf3_data m.body
      else if m.type_id == 16
      then ok (Message.amf3_shared_object m.body)
      else if m.type_id == 17
      then amf.read_amf3_command m.body
      else if m.type_id == 18
      then deserialize_data_tolerant m.body
      else if m.type_id == 19
      then ok (Message.amf0_shared_object m.body)
      else if m.type_id == 20
      then amf.read_amf0_command m.body
      else ok (Message.unknown m.type_id m.body)

  unfoldable pub body_bytes : RtmpMessage V W → Outcome MessageSerializationError (List Byte)
  unfolding serialize_set_chunk_size serialize_set_peer_bandwidth serialize_user_control
  body_bytes (Message.unknown type_id body) = ok body
  body_bytes (Message.abort stream_id) = serialize_abort stream_id
  body_bytes (Message.acknowledgement number) = serialize_acknowledgement number
  body_bytes (Message.amf0_command name id object arguments) =
      amf.write_amf0_command name id object arguments
  body_bytes (Message.amf0_data values) = amf.write_amf0_data values
  body_bytes (Message.amf3_command name id object arguments format) =
      amf.write_amf3_command name id object arguments format
  body_bytes (Message.amf3_data values format) = amf.write_amf3_data values format
  body_bytes (Message.amf0_shared_object body) = ok body
  body_bytes (Message.amf3_shared_object body) = ok body
  body_bytes (Message.audio_data body) = ok body
  body_bytes (Message.set_chunk_size size) = serialize_set_chunk_size size
  body_bytes (Message.set_peer_bandwidth size limit_type) =
      serialize_set_peer_bandwidth limit_type size
  body_bytes (Message.user_control event stream_id buffer_length timestamp) =
      serialize_user_control event stream_id buffer_length timestamp
  body_bytes (Message.video_data body) = ok body
  body_bytes (Message.window_acknowledgement size) = serialize_window_acknowledgement_size size

  unfoldable pub from_rtmp_message :
      RtmpMessage V W
      → RtmpTimestamp
      → ℕ
      → Outcome MessageSerializationError (RawMessage (List Byte))
  unfolding get_message_type_id body_bytes
  from_rtmp_message message timestamp message_stream_id = body_bytes message >>= λ bytes.
      ok (record {
        body = bytes;
        type_id = get_message_type_id message;
        message_stream_id = message_stream_id;
        timestamp = timestamp;
      })
