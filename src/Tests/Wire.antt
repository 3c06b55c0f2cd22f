-- ===== src/Tests/Wire.antt =====
-- Small connections from encoder to decoder.
use rtmpx.Prelude.{ℕ, ◌≤◌, ◌≡◌, refl, true, false, List, [], ◌∷◌, err, arith}
use rtmpx.Time.{RtmpTimestamp}
use rtmpx.Payload.{Payload, from_bytes, segments}
use rtmpx.Payload.Segments.{IsValid}
use rtmpx.Messages.Raw.{RawMessage}
use rtmpx.Messages.Message
use rtmpx.Messages.Message.{RtmpMessage, io}
use rtmpx.Messages.Convert.{AmfBodies}
use rtmpx.Chunk.Types.{default_limits}
use rtmpx.Chunk.Encoder
use rtmpx.Chunk.Encoder.{
  ChunkEncoder, EncodeOptions, default_options, never, allowed, compressed, full_headers, chosen,
  packet_of, chunk_count,
}
use rtmpx.Chunk.Packet.{can_drop}
use rtmpx.Prelude.{Ensures}
use rtmpx.Chunk.Decoder
use rtmpx.Chunk.Decoder.Reached.{Returned, reached_new, reached_abort}
use rtmpx.Chunk.Decoder.Reserved.{IsWithin, Reached-decode_input}
use rtmpx.Chunk.Decoder.{Input, decode_input, MessageDecoder, with_limits}
use rtmpx.Chunk.Parser
use rtmpx.Chunk.Link.{Job}
use rtmpx.Chunk.RoundTrip.Sync.{Sync}
use rtmpx.Chunk.RoundTrip.Kept.{IsSendable, encoded}
use rtmpx.Chunk.RoundTrip.Decode.{Accepts}
use rtmpx.Chunk.RoundTrip.Exchange.{Delivered, encode-decode, encode-drop, encode-short}
use rtmpx.Chunk.RoundTrip.Connection.{Transferred, new-Sync, new_connection-receive}
use rtmpx.Chunk.RoundTrip.Resize.{Resized, resize_message, set_chunk_size-decode}

-- A capacity as large as the request.
abbrev exact : ℕ → ℕ
exact n = n

-- A body of two segments.
abbrev pub two_parts : Payload
two_parts = record { first = 1 ∷ 2 ∷ []; rest = (3 ∷ []) ∷ []; len = 3 }

pub two_parts-IsValid : IsValid two_parts
unfolding segments
two_parts-IsValid = record { measured = refl; filled = (omega arith, tt); leading = λ e. absurd cc }

abbrev audio : RawMessage Payload
audio = record {
  timestamp = record { value = 20 };
  type_id = 8;
  message_stream_id = 1;
  body = two_parts;
}

abbrev video : RawMessage Payload
video = record {
  timestamp = record { value = 40 };
  type_id = 9;
  message_stream_id = 1;
  body = two_parts;
}

audio-IsSendable : IsSendable audio
audio-IsSendable = record {
  time_word = omega arith;
  stream_word = omega arith;
  short = omega arith;
}

video-IsSendable : IsSendable video
video-IsSendable = record {
  time_word = omega arith;
  stream_word = omega arith;
  short = omega arith;
}

abbrev receiver : MessageDecoder
receiver = with_limits default_limits

audio-Accepts : Accepts receiver audio
unfolding with_limits Parser.with_limits chunk_count
audio-Accepts = record {
  quiet = refl;
  size_fits = omega arith;
  streams_fit = omega arith;
  partials_fit = omega arith;
  slots_fit = omega arith;
  buffer_fits = omega arith;
  reserve_fits = omega arith;
  usize_fits = omega arith;
  fragments_fit = omega arith;
}

video-Accepts : Accepts receiver video
unfolding with_limits Parser.with_limits chunk_count
video-Accepts = record {
  quiet = refl;
  size_fits = omega arith;
  streams_fit = omega arith;
  partials_fit = omega arith;
  slots_fit = omega arith;
  buffer_fits = omega arith;
  reserve_fits = omega arith;
  usize_fits = omega arith;
  fragments_fit = omega arith;
}

-- The video frame's packet is dropped.
abbrev droppable : EncodeOptions
droppable = record { drop_policy = allowed; headers = compressed }

abbrev three_jobs : List Job
three_jobs =
    record { message = audio; options = default_options; unwanted = false }
    ∷ record { message = video; options = droppable; unwanted = true }
    ∷ record { message = audio; options = default_options; unwanted = true }
    ∷ []

new_connection-receive_example :
    Transferred exact Encoder.new (with_limits default_limits) three_jobs
new_connection-receive_example = new_connection-receive exact default_limits three_jobs (
  (audio-IsSendable, two_parts-IsValid, audio-Accepts),
  (
    (video-IsSendable, two_parts-IsValid, video-Accepts),
    ((audio-IsSendable, two_parts-IsValid, audio-Accepts), tt),
  ),
)

encode-decode_example : Delivered exact Encoder.new receiver audio default_options
encode-decode_example =
    encode-decode exact Encoder.new receiver audio default_options (new-Sync default_limits)
      audio-IsSendable two_parts-IsValid audio-Accepts

video-can_drop :
    can_drop (packet_of 128 two_parts droppable (chosen Encoder.new video droppable)) ≡ true
unfolding can_drop packet_of Encoder.encode_header Encoder.header_fields Encoder.choose_format
    Encoder.get_csid_for_message_type Encoder.extended_timestamp chunk_count
video-can_drop = refl

encode-drop_example :
    Sync (encoded Encoder.new video (chosen Encoder.new video droppable).0) receiver.parser
encode-drop_example =
    encode-drop Encoder.new (encoded Encoder.new video (chosen Encoder.new video droppable).0)
      receiver video droppable
      (packet_of 128 two_parts droppable (chosen Encoder.new video droppable))
      (new-Sync default_limits) video-IsSendable
      (encode-short Encoder.new video droppable (omega arith)) video-can_drop

-- A codec of AMF bodies that refuses all of them.
abbrev pub no_amf : AmfBodies ℕ ℕ
no_amf = record {
  write_amf0_command = λ name id object arguments. err Message.amf_not_serialized;
  write_amf0_data = λ values. err Message.amf_not_serialized;
  write_amf3_command = λ name id object arguments format. err Message.amf_not_serialized;
  write_amf3_data = λ values format. err Message.amf_not_serialized;
  read_amf0_command = λ body. err Message.amf_not_deserialized;
  read_amf0_data = λ body. err Message.amf_not_deserialized;
  read_amf3_command = λ body. err Message.amf_not_deserialized;
  read_amf3_data = λ body. err Message.amf_not_deserialized;
  read_amf3_values = λ body. err Message.amf_not_deserialized;
}

abbrev zero_time : RtmpTimestamp
zero_time = record { value = 0 }

resize-Accepts : Accepts receiver (resize_message 4096 zero_time)
unfolding with_limits Parser.with_limits chunk_count from_bytes
resize-Accepts = record {
  quiet = refl;
  size_fits = omega arith;
  streams_fit = omega arith;
  partials_fit = omega arith;
  slots_fit = omega arith;
  buffer_fits = omega arith;
  reserve_fits = omega arith;
  usize_fits = omega arith;
  fragments_fit = omega arith;
}

set_chunk_size-decode_example : Resized no_amf exact Encoder.new receiver 4096 zero_time
set_chunk_size-decode_example =
    set_chunk_size-decode no_amf exact Encoder.new receiver 4096 zero_time (new-Sync default_limits)
      resize-Accepts (omega arith) (omega arith) (omega arith) within_limit
  where
    within_limit : 4096 ≤ receiver.parser.limits.maximum_chunk_size
    within_limit = unfold with_limits Parser.with_limits in omega arith

-- Two bytes of a header.
abbrev some_input : Input
some_input = record { owned = false; bytes = 3 ∷ 0 ∷ [] }

Reached-decode_input_example :
    Ensures
      (decode_input exact (Decoder.abort_chunk_stream (with_limits default_limits) 4) some_input)
      (λ r. Returned exact some_input r.0 r.1 × IsWithin default_limits 0 r.0)
Reached-decode_input_example =
    Reached-decode_input exact 0 default_limits
      (Decoder.abort_chunk_stream (with_limits default_limits) 4) some_input (λ n. omega arith)
      (omega arith) (reached_abort 4 reached_new)
