-- ===== src/Tests/Parts.antt =====
-- Small runs of the other parts.
use rtmpx.Prelude.{ℕ, ◌≤◌, ◌≡◌, refl, false, none, some, List, [], ◌∷◌, ok, Ensures, arith}
use rtmpx.Prelude.Bytes.{Byte}
use rtmpx.Prelude.Map
use rtmpx.Time.{RtmpTimestamp, serial_cmp, wrapping_elapsed_since, sub, add_ms, sub_ms}
use rtmpx.Time.Serial.{by_distance, serial_cmp-elapsed, sub-add_ms}
use rtmpx.Payload.{from_iter, to_bytes, reader}
use rtmpx.Payload.Reading.{read_all, read_all-to_bytes}
use rtmpx.Sessions.Streams.Live.{insert-get_live}
use rtmpx.Payload.Segments.{IsValid, from_iter_lem}
use rtmpx.Messages.Raw.{RawMessage}
use rtmpx.Messages.Message
use rtmpx.Messages.Message.{RtmpMessage, ping_request, get_message_type_id}
use rtmpx.Messages.Convert.{to_rtmp_message, from_rtmp_message}
use rtmpx.Messages.RoundTrip.{carried_time_event, from_rtmp_message-to_rtmp_message}
use rtmpx.Chunk.Types.{ChunkHeader, full, default_limits}
use rtmpx.Chunk.Encoder
use rtmpx.Chunk.Encoder.{default_options, Packet, packet_of}
use rtmpx.Chunk.Parser.{with_limits, abort_chunk_stream}
use rtmpx.Chunk.Parser.Consume.{consume}
use rtmpx.Chunk.Parser.Steps.{reached_new, reached_abort, Stepped, Reached-consume}
use rtmpx.Chunk.RoundTrip.Delivery.{packet, whole}
use rtmpx.Chunk.RoundTrip.Partial.{
  advance_all, Partly, advance_all-to_vec, Offered, advance_all-io_slices,
}
use rtmpx.Sessions.Streams.{
  StreamHandle, Entry, Streams, new, insert, get, remove, position, put_slot, set_entry,
}
use rtmpx.Sessions.Streams.Stale.{insert-get}
use rtmpx.Sessions.Streams.Steps.{no_steps, then_step, step_insert}
use rtmpx.Sessions.Streams.Steps.{remove-get_stale}
use rtmpx.Tests.Wire.{no_amf, two_parts, two_parts-IsValid}

abbrev at_20 : RtmpTimestamp
at_20 = record { value = 20 }

-- A time shortly before the clock wraps.
abbrev before_wrap : RtmpTimestamp
before_wrap = record { value = 4294967290 }

serial_cmp-elapsed_example :
    serial_cmp at_20 before_wrap ≡ by_distance (wrapping_elapsed_since before_wrap at_20)
serial_cmp-elapsed_example = serial_cmp-elapsed at_20 before_wrap (omega arith) (omega arith)

sub-add_ms_example :
    (sub (add_ms before_wrap 26) before_wrap ≡ record { value = 26 })
    × (sub_ms (add_ms before_wrap 26) 26 ≡ before_wrap)
sub-add_ms_example = sub-add_ms before_wrap 26 (omega arith) (omega arith)

-- A ping whose raw message is read back.
from_rtmp_message-to_rtmp_message_example :
    (raw : RawMessage (List Byte)) × (from_rtmp_message no_amf
        (Message.user_control ping_request none none (some at_20))
        at_20
        0
      ≡ ok raw)
    × (to_rtmp_message no_amf raw ≡ ok (Message.user_control ping_request none none (some at_20)))
    × (raw.type_id ≡ 4)
    × (raw.timestamp ≡ at_20)
    × (raw.message_stream_id ≡ 0)
unfolding get_message_type_id
from_rtmp_message-to_rtmp_message_example =
    from_rtmp_message-to_rtmp_message no_amf at_20 0
      (Message.user_control ping_request none none (some at_20))
      (carried_time_event refl (omega arith))

-- A parser that aborted a stream takes a byte of a header.
Reached-consume_example :
    Ensures
      (consume (abort_chunk_stream (with_limits default_limits) 3) (3 ∷ []))
      (λ r. Stepped (3 ∷ []) r.0 r.1)
Reached-consume_example =
    Reached-consume default_limits (abort_chunk_stream (with_limits default_limits) 3) (3 ∷ [])
      (reached_abort 3 reached_new)

abbrev audio_header : ChunkHeader
audio_header = record {
  chunk_stream_id = 5;
  timestamp = at_20;
  timestamp_field = 20;
  message_length = 3;
  message_type_id = 8;
  message_stream_id = 1;
  can_be_dropped = false;
}

twelve_fit : 12 ≤ (packet_of 2 two_parts default_options (audio_header, full)).remaining
unfolding packet_of Encoder.encode_header Encoder.header_fields Encoder.extended_timestamp
    Encoder.chunk_count
twelve_fit = omega arith

-- Five bytes are written, then seven.
advance_all-to_vec_example :
    let p = packet 2 two_parts default_options audio_header full two_parts-IsValid (omega arith) in
    (p' : Packet) × (advance_all (some p) (5 ∷ 7 ∷ []) ≡ some p')
    × Partly p p'
        (whole 2 two_parts default_options audio_header full two_parts-IsValid (omega arith))
        12
advance_all-to_vec_example =
    advance_all-to_vec 2 two_parts default_options audio_header full two_parts-IsValid (omega arith)
      (5 ∷ 7 ∷ []) twelve_fit

-- Behind the first twelve bytes, three slots for a vectored write.
advance_all-io_slices_example :
    let p = packet 2 two_parts default_options audio_header full two_parts-IsValid (omega arith) in
    (p' : Packet) × (advance_all (some p) (5 ∷ 7 ∷ []) ≡ some p')
    × Offered 2 two_parts default_options audio_header full two_parts-IsValid (omega arith) 12 3 p'
advance_all-io_slices_example =
    advance_all-io_slices 2 two_parts default_options audio_header full two_parts-IsValid
      (omega arith) (5 ∷ 7 ∷ []) 3 twelve_fit

abbrev empty_registry : Streams ℕ
empty_registry = new 1

insert-get_example :
    Ensures
      (insert empty_registry 7 (some 3))
      (λ (s', h). get s' h ≡ some (record { wire_id = some 3; state = 7 }))
insert-get_example = insert-get empty_registry 7 (some 3) (omega arith)

abbrev first_handle : StreamHandle
first_handle = record { session = 1; slot = 0; generation = 1 }

abbrev first_entry : Entry ℕ
first_entry = record { wire_id = some 3; state = 7 }

abbrev registry_of : ℕ → Entry ℕ → Streams ℕ
registry_of g e = record {
  session = 1;
  slots = record { generation = g; entry = some e } ∷ [];
  by_wire = (3, record { session = 1; slot = 0; generation = g }) ∷ [];
}

first_live : get (registry_of 1 first_entry) first_handle ≡ some first_entry
unfolding get
first_live = refl

reinserted :
    insert (remove (registry_of 1 first_entry) first_handle).0 8 (some 3)
    ≡ ok (
      registry_of 2 (record { wire_id = some 3; state = 8 }),
      record { session = 1; slot = 0; generation = 2 },
    )
unfolding insert remove get position put_slot set_entry Map.insert Map.remove
reinserted = refl

-- The slot and the wire id are in use again, and the old handle finds nothing.
remove-get_stale_example :
    get (registry_of 2 (record { wire_id = some 3; state = 8 })) first_handle ≡ none
remove-get_stale_example =
    remove-get_stale (registry_of 1 first_entry)
      (registry_of 2 (record { wire_id = some 3; state = 8 })) first_handle first_entry first_live
      (then_step no_steps (step_insert 8 (some 3) reinserted))

from_iter_lem_example :
    IsValid (from_iter ((1 ∷ 2 ∷ []) ∷ [] ∷ (3 ∷ []) ∷ []))
    × (to_bytes (from_iter ((1 ∷ 2 ∷ []) ∷ [] ∷ (3 ∷ []) ∷ [])) ≡ 1 ∷ 2 ∷ 3 ∷ [])
    × ((from_iter ((1 ∷ 2 ∷ []) ∷ [] ∷ (3 ∷ []) ∷ [])).len ≡ 3)
from_iter_lem_example = from_iter_lem ((1 ∷ 2 ∷ []) ∷ [] ∷ (3 ∷ []) ∷ [])

read_all-to_bytes_example : (read_all (reader two_parts) (2 ∷ 4 ∷ 1 ∷ [])).0 ≡ to_bytes two_parts
read_all-to_bytes_example =
    read_all-to_bytes two_parts (2 ∷ 4 ∷ 1 ∷ []) two_parts-IsValid
      (omega arith, (omega arith, (omega arith, tt))) (omega arith)

second_inserted :
    insert (registry_of 1 first_entry) 9 none
    ≡ ok (
      record {
        session = 1;
        slots =
            record { generation = 1; entry = some first_entry }
            ∷ record { generation = 1; entry = some (record { wire_id = none; state = 9 }) }
            ∷ [];
        by_wire = (3, first_handle) ∷ [];
      },
      record { session = 1; slot = 1; generation = 1 },
    )
unfolding insert position put_slot
second_inserted = refl

insert-get_live_example :
    get
      (record {
        session = 1;
        slots =
            record { generation = 1; entry = some first_entry }
            ∷ record { generation = 1; entry = some (record { wire_id = none; state = 9 }) }
            ∷ [];
        by_wire = (3, first_handle) ∷ [];
      })
      first_handle
    ≡ some first_entry
insert-get_live_example =
    insert-get_live (registry_of 1 first_entry) _ 9 none
      record { session = 1; slot = 1; generation = 1 } first_handle first_entry second_inserted
      first_live
