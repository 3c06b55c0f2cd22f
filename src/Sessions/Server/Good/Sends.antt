-- ===== src/Sessions/Server/Good/Sends.antt =====
-- Sending keeps what a session counts on (src/sessions/server/mod.rs).
use rtmpx.Prelude.{ℕ, Bool, false, Option, List, ensures_then, arith}
use rtmpx.Prelude.Bytes.{Byte}
use rtmpx.Time.{RtmpTimestamp}
use rtmpx.Messages.Raw.{RawMessage}
use rtmpx.Messages.Message
use rtmpx.Messages.Message.{RtmpMessage, UserControlEventType, MessageSerializationError}
use rtmpx.Messages.Control.{
  serialize_set_chunk_size, serialize_set_peer_bandwidth, serialize_user_control,
}
use rtmpx.Messages.Total.{Returns, IsTotal}
use rtmpx.Messages.Convert.{AmfBodies, body_bytes, from_rtmp_message}
use rtmpx.Chunk.Encoder.{ChunkEncoder, EncodeOptions, encode}
use rtmpx.Chunk.Encoder.Resize.{serialize}
use rtmpx.Payload.{Payload}
use rtmpx.Chunk.Types.{DecoderLimits}
use rtmpx.Sessions.Values.{Outside}
use rtmpx.Sessions.Server.Types.{ServerSession}
use rtmpx.Sessions.Server.Send.{get_epoch, to_payload, serialized, send}
use rtmpx.Sessions.Server.Good.{IsGood, Keeps, Ends-then, Ends-call}

chunk_size-Returns : (size : ℕ) → Returns (serialize_set_chunk_size size)
unfolding serialize_set_chunk_size
chunk_size-Returns size = ground arith

user_control-Returns :
    (event : UserControlEventType) (id length : Option ℕ) (time : Option RtmpTimestamp)
    → Returns (serialize_user_control event id length time)
unfolding serialize_user_control
user_control-Returns event id length time = tt

module _ {V W : Type 0} (bodies : AmfBodies V W) (total : IsTotal bodies) where
  body_bytes-Returns : (m : RtmpMessage V W) → Returns (body_bytes bodies m)
  unfolding body_bytes serialize_set_peer_bandwidth
  body_bytes-Returns (Message.unknown type_id body) = tt
  body_bytes-Returns (Message.abort stream_id) = tt
  body_bytes-Returns (Message.acknowledgement n) = tt
  body_bytes-Returns (Message.amf0_command name id command more) =
      total.writes_command name id command more
  body_bytes-Returns (Message.amf0_data values) = total.writes_data values
  body_bytes-Returns (Message.amf3_command name id command more format) =
      total.writes_command3 name id command more format
  body_bytes-Returns (Message.amf3_data values format) = total.writes_data3 values format
  body_bytes-Returns (Message.amf0_shared_object body) = tt
  body_bytes-Returns (Message.amf3_shared_object body) = tt
  body_bytes-Returns (Message.audio_data body) = tt
  body_bytes-Returns (Message.set_chunk_size size) = chunk_size-Returns size
  body_bytes-Returns (Message.set_peer_bandwidth size limit_type) = tt
  body_bytes-Returns (Message.user_control event id length time) =
      user_control-Returns event id length time
  body_bytes-Returns (Message.video_data body) = tt
  body_bytes-Returns (Message.window_acknowledgement size) = tt

  pub from_rtmp_message-Returns :
      (m : RtmpMessage V W) (time : RtmpTimestamp) (stream_id : ℕ)
      → Returns (from_rtmp_message bodies m time stream_id)
  unfolding from_rtmp_message
  from_rtmp_message-Returns m time stream_id =
      ensures_then (λ _. Unit {0}) (body_bytes bodies m) _ (body_bytes-Returns m) λ bytes _. tt

pub encode-Returns :
    (e : ChunkEncoder) (m : RawMessage Payload) (options : EncodeOptions)
    → Returns (encode e m options)
unfolding encode
encode-Returns e m options = ground arith

module _ {V W : Type 0} (outside : Outside V W) (total : IsTotal outside.bodies) (l : DecoderLimits)
    (Granted : ℕ → List Byte → Type 0) where
  abbrev Good : ServerSession V → Type 0
  Good = IsGood outside.capacity_of l Granted

  pub serialized-Keeps :
      (s : ServerSession V) (raw : RawMessage (List Byte)) (full droppable : Bool)
      → Good s
      → Keeps Good (serialized outside s raw full droppable)
  unfolding serialized serialize
  serialized-Keeps s raw full droppable good =
      Ends-then Good (λ s' _. Good s') (λ s' _. Good s') _ _
        (Ends-call Good (λ s' _. Good s') s _ _ (encode-Returns s.serializer _ _) good
          (λ _ _. good))
        λ s' _ kept. kept

  pub send-Keeps :
      (s : ServerSession V) (m : RtmpMessage V W) (id : ℕ) (full : Bool)
      → Good s
      → Keeps Good (send outside s m id full)
  unfolding send to_payload get_epoch
  send-Keeps s m id full good =
      Ends-then Good (λ s' _. Good s') (λ s' _. Good s') _ _
        (Ends-call Good (λ s' _. Good s') _ _ _
          (from_rtmp_message-Returns outside.bodies total _ _ id) good (λ _ _. good))
        λ s' raw kept. serialized-Keeps s' raw full false kept
