-- ===== src/Sessions/Data.antt =====
-- Script data as it is relayed (src/sessions/data.rs) and how a stream is published
-- (src/sessions/publish_mode.rs).
use rtmpx.Prelude.{ℕ, Option, none, some, ◌==◌, if◌then◌else◌}
use rtmpx.Time.{RtmpTimestamp}

pub data DataMessageType : Type 0 where
  data_amf0 data_amf3 : DataMessageType

unfoldable pub type_id : DataMessageType → ℕ
type_id data_amf0 = 18
type_id data_amf3 = 15

unfoldable pub from_type_id : ℕ → Option DataMessageType
from_type_id id = if id == 18 then some data_amf0 else if id == 15 then some data_amf3 else none

pub record DataMessage (D : Type 0) : Type 0 where
  pub wire_type : DataMessageType
  pub timestamp : RtmpTimestamp
  pub payload : D

abbrev pub map_payload : {D E : Type 0} → (D → E) → DataMessage D → DataMessage E
map_payload f m = record { wire_type = m.wire_type; timestamp = m.timestamp; payload = f m.payload }

pub data PublishMode : Type 0 where
  live record_mode append : PublishMode
