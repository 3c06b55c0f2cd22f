-- ===== src/Messages/RoundTrip.antt =====
-- Interpreting what `from_rtmp_message` builds.
use rtmpx.Prelude.{
  ℕ, ◌/◌, ◌%◌, ◌≤◌, ◌≡◌, Bool, false, ◌&&◌, ◌||◌, leb, [], ◌∷◌, ◌++◌, refl, sym, ◌∙◌, Option, none,
  some, List, ok, arith,
}
use mathlib.Core.Path.{subst}
use rtmpx.Prelude.Bytes.{Byte, IsU32, be32, be32_lem, be16, from_be16}
use rtmpx.Time.{RtmpTimestamp}
use rtmpx.Messages.Raw.{RawMessage}
use rtmpx.Messages.Message
use rtmpx.Messages.Message.{
  PeerBandwidthLimitType, hard, soft, dynamic, UserControlEventType, stream_begin, stream_eof,
  stream_dry, set_buffer_length, stream_is_recorded, ping_request, ping_response, buffer_empty,
  buffer_ready, RtmpMessage, get_message_type_id, MessageSerializationError, invalid_chunk_size,
}
use rtmpx.Messages.Control.{
  max_size, serialize_set_chunk_size, deserialize_set_chunk_size, deserialize_abort,
  deserialize_acknowledgement, deserialize_window_acknowledgement_size,
  serialize_set_peer_bandwidth, deserialize_set_peer_bandwidth, serialize_user_control,
  deserialize_user_control, read_u8, read_u16, read_u32, read_fields, Fields, of_stream, of_length,
  of_time, fields_of, limit_of, limit_code, event_of, event_code, write_fields,
}
use rtmpx.Messages.Convert.{AmfBodies, to_rtmp_message, from_rtmp_message, body_bytes}

-- The type ids that have a meaning of their own.
abbrev pub is_interpreted : ℕ → Bool
is_interpreted t = leb 1 t && leb t 6 || leb 8 t && leb t 9 || leb 15 t && leb t 20

-- The message has no AMF values, and the wire can carry it: its numbers are u32, a chunk size has 31
-- bits, a user control message has the fields of its event and no other, and an unknown message has
-- a type id without a meaning.
pub data IsCarried {V W : Type 0} : RtmpMessage V W → Type 0 where
  carried_unknown :
      {t : ℕ} {b : List Byte} → is_interpreted t ≡ false → IsCarried (Message.unknown t b)
  carried_abort : {s : ℕ} → IsU32 s → IsCarried (Message.abort s)
  carried_acknowledgement : {n : ℕ} → IsU32 n → IsCarried (Message.acknowledgement n)
  carried_amf0_object : {b : List Byte} → IsCarried (Message.amf0_shared_object b)
  carried_amf3_object : {b : List Byte} → IsCarried (Message.amf3_shared_object b)
  carried_audio : {b : List Byte} → IsCarried (Message.audio_data b)
  carried_video : {b : List Byte} → IsCarried (Message.video_data b)
  carried_chunk_size : {n : ℕ} → n ≤ max_size → IsCarried (Message.set_chunk_size n)
  carried_bandwidth :
      {n : ℕ} {l : PeerBandwidthLimitType} → IsU32 n → IsCarried (Message.set_peer_bandwidth n l)
  carried_stream_event :
      {e : UserControlEventType} {s : ℕ}
      → fields_of e ≡ of_stream
      → IsU32 s
      → IsCarried (Message.user_control e (some s) none none)
  carried_length_event :
      {e : UserControlEventType} {s l : ℕ}
      → fields_of e ≡ of_length
      → IsU32 s
      → IsU32 l
      → IsCarried (Message.user_control e (some s) (some l) none)
  carried_time_event :
      {e : UserControlEventType} {t : RtmpTimestamp}
      → fields_of e ≡ of_time
      → IsU32 (t.value)
      → IsCarried (Message.user_control e none none (some t))
  carried_window : {n : ℕ} → IsU32 n → IsCarried (Message.window_acknowledgement n)

event_read :
    (e : UserControlEventType)
    → (event_of (event_code e) ≡ ok e)
      × (from_be16 (event_code e / 256 % 256) (event_code e % 256) ≡ event_code e)
event_read stream_begin = (refl, refl)
event_read stream_eof = (refl, refl)
event_read stream_dry = (refl, refl)
event_read set_buffer_length = (refl, refl)
event_read stream_is_recorded = (refl, refl)
event_read ping_request = (refl, refl)
event_read ping_response = (refl, refl)
event_read buffer_empty = (refl, refl)
event_read buffer_ready = (refl, refl)

limit_read : (l : PeerBandwidthLimitType) → limit_of (limit_code l) ≡ ok l
limit_read hard = refl
limit_read soft = refl
limit_read dynamic = refl

module _ {V W : Type 0} where
  user_control_lem :
      (e : UserControlEventType) (body : List Byte)
      → deserialize_user_control {V = V} {W = W} (be16 (event_code e) ++ body)
        ≡ read_fields (fields_of e) e body
  unfolding deserialize_user_control read_u16
  user_control_lem e body = rw ((event_read e).1, (event_read e).0) refl

  bandwidth_lem :
      (n : ℕ) (l : PeerBandwidthLimitType)
      → IsU32 n
      → deserialize_set_peer_bandwidth {V = V} {W = W} (be32 n ++ (limit_code l ∷ []))
        ≡ ok (Message.set_peer_bandwidth n l)
  unfolding deserialize_set_peer_bandwidth read_u8 read_u32
  bandwidth_lem n l w = rw (be32_lem n w, limit_read l) refl

module _ {V W : Type 0} (amf : AmfBodies V W) (time : RtmpTimestamp) (id : ℕ) where
  -- Interpreting a raw message of these bytes gives the message back.
  abbrev Interprets : RtmpMessage V W → List Byte → Type 0
  Interprets message bytes =
      (body_bytes amf message ≡ ok bytes)
      × (to_rtmp_message amf (record {
        timestamp = time;
        type_id = get_message_type_id message;
        message_stream_id = id;
        body = bytes;
      })
          ≡ ok message)

  abbrev Rebuilds :
      UserControlEventType → Option ℕ → Option ℕ → Option RtmpTimestamp → Fields → Type 0
  Rebuilds e s l t fields =
      read_fields {V = V} {W = W} fields e (write_fields fields s l t)
      ≡ ok (Message.user_control e s l t)

  Interprets-event :
      (e : UserControlEventType) (s l : Option ℕ) (t : Option RtmpTimestamp) (fields : Fields)
      → fields_of e ≡ fields
      → Rebuilds e s l t fields
      → (bytes : List Byte) × Interprets (Message.user_control e s l t) bytes
  unfolding body_bytes serialize_user_control to_rtmp_message get_message_type_id
  Interprets-event e s l t fields same reads = (
    be16 (event_code e) ++ write_fields (fields_of e) s l t,
    (
      refl,
      user_control_lem e (write_fields (fields_of e) s l t)
          ∙ subst (Rebuilds e s l t) (sym same) reads,
    ),
  )

  interprets :
      (message : RtmpMessage V W)
      → IsCarried message
      → (bytes : List Byte) × Interprets message bytes
  unfolding body_bytes to_rtmp_message get_message_type_id serialize_set_chunk_size
      deserialize_set_chunk_size deserialize_abort deserialize_acknowledgement
      deserialize_window_acknowledgement_size serialize_set_peer_bandwidth read_u32 read_fields
  interprets _ (carried_unknown {t} {b} c) = (b, (refl, ground (arith, c)))
  interprets _ (carried_abort {s} w) = (be32 s, (refl, rw (be32_lem s w) refl))
  interprets _ (carried_acknowledgement {n} w) = (be32 n, (refl, rw (be32_lem n w) refl))
  interprets _ (carried_amf0_object {b}) = (b, (refl, refl))
  interprets _ (carried_amf3_object {b}) = (b, (refl, refl))
  interprets _ (carried_audio {b}) = (b, (refl, refl))
  interprets _ (carried_video {b}) = (b, (refl, refl))
  interprets _ (carried_chunk_size {n} le) =
      (be32 n, (ground (arith, le), rw (be32_lem n (omega (arith, le))) (ground (arith, le))))
  interprets _ (carried_bandwidth {n} {l} w) =
      (be32 n ++ (limit_code l ∷ []), (refl, bandwidth_lem n l w))
  interprets _ (carried_stream_event {e} {s} f w) =
      Interprets-event e (some s) none none of_stream f (rw (be32_lem s w) refl)
  interprets _ (carried_length_event {e} {s} {l} f w v) =
      Interprets-event e (some s) (some l) none of_length f (rw (be32_lem s w, be32_lem l v) refl)
  interprets _ (carried_time_event {e} {t} f w) =
      Interprets-event e none none (some t) of_time f (rw (be32_lem t.value w) refl)
  interprets _ (carried_window {n} w) = (be32 n, (refl, rw (be32_lem n w) refl))

  -- For a message without AMF values that the wire can carry, a raw message is built, with the
  -- message's type id and the given timestamp and stream id, and it is read back as the message.
  pub from_rtmp_message-to_rtmp_message :
      (message : RtmpMessage V W)
      → IsCarried message
      → (raw : RawMessage (List Byte)) × (from_rtmp_message amf message time id ≡ ok raw)
        × (to_rtmp_message amf raw ≡ ok message)
        × (raw.type_id ≡ get_message_type_id message)
        × (raw.timestamp ≡ time)
        × (raw.message_stream_id ≡ id)
  unfolding from_rtmp_message
  from_rtmp_message-to_rtmp_message message carried =
      let (bytes, (written, read)) = interprets message carried in
      (_, rw written refl, read, refl, refl, refl)
