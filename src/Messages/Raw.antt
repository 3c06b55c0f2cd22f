-- ===== src/Messages/Raw.antt =====
-- Raw messages (`RawMessage` of src/messages/raw_message.rs).
use rtmpx.Prelude.{ℕ, List, []}
use rtmpx.Prelude.Bytes.{Byte}
use rtmpx.Time.{RtmpTimestamp}

-- `type_id` is a u8, `message_stream_id` a u32; the field `data` of the source is `body` here.
pub record RawMessage (D : Type 0) : Type 0 where
  pub timestamp : RtmpTimestamp
  pub type_id : ℕ
  pub message_stream_id : ℕ
  pub body : D

abbrev pub map_data : {D E : Type 0} → (D → E) → RawMessage D → RawMessage E
map_data f m = record {
  timestamp = m.timestamp;
  type_id = m.type_id;
  message_stream_id = m.message_stream_id;
  body = f m.body;
}

-- `RawMessage::new`
abbrev pub new : RawMessage (List Byte)
new = record { timestamp = record { value = 0 }; type_id = 0; message_stream_id = 0; body = [] }
