-- ===== src/Sessions/Server/Types.antt =====
-- What a server session keeps and gives out (src/sessions/server: active_stream.rs,
-- outstanding_requests.rs, session_state.rs, events.rs, errors.rs, result.rs, and the struct of mod.rs).
use rtmpx.Prelude.{ℕ, Bool, Option, List}
use rtmpx.Prelude.Bytes.{Byte}
use rtmpx.Prelude.Map.{Map}
use rtmpx.Time.{RtmpTimestamp}
use rtmpx.Payload.{Payload}
use rtmpx.Messages.Raw
use rtmpx.Messages.Raw.{RawMessage}
use rtmpx.Messages.Message.{AmfEncoding, MessageSerializationError, MessageDeserializationError}
use rtmpx.Chunk.Types.{DecodeError, DecoderLimits}
use rtmpx.Chunk.Encoder.{ChunkEncoder, EncodeError, Packet}
use rtmpx.Chunk.Decoder.{MessageDecoder}
use rtmpx.Sessions.Streams.{StreamHandle, Streams}
use rtmpx.Sessions.Limits.{SessionLimits, SessionLimitError}
use rtmpx.Sessions.Data
use rtmpx.Sessions.Data.{DataMessage, PublishMode}
use rtmpx.Sessions.Values.{Amf0Object}

-- A stream key is an `Arc<str>`.
pub data StreamState : Type 0 where
  created : StreamState
  publishing : List Byte → PublishMode → StreamState
  playing : List Byte → StreamState
  completed : StreamState

pub record ActiveStream : Type 0 where
  pub current_state : StreamState

-- `ServerStreamState` of streams.rs.
pub data ServerStreamState : Type 0 where
  in_created in_playing in_publishing in_completed : ServerStreamState

-- `ConnectionState` of streams.rs.
pub data ConnectionState : Type 0 where
  disconnected connecting is_connected has_failed : ConnectionState

-- The arguments stand in the order of the source's fields: app name, transaction id, encoding; stream
-- key, mode, stream id, encoding; stream key, stream id, encoding.
pub data OutstandingRequest : Type 0 where
  connection_request : List Byte → ℕ → AmfEncoding → OutstandingRequest
  publish_requested : List Byte → PublishMode → ℕ → AmfEncoding → OutstandingRequest
  play_requested : List Byte → ℕ → AmfEncoding → OutstandingRequest

pub data SessionState : Type 0 where
  started connected : SessionState

pub data PlayStartValue : Type 0 where
  live_or_recorded live_only : PlayStartValue
  start_time_in_seconds : ℕ → PlayStartValue

-- The arguments stand in the order of the source's fields.
pub data ServerEvent (V D : Type 0) : Type 0 where
  client_chunk_size_changed : ℕ → ServerEvent V D
  connection_requested : ℕ → List Byte → Amf0Object V → ServerEvent V D
  release_stream_requested : ℕ → List Byte → List Byte → ServerEvent V D
  publish_stream_requested :
      StreamHandle → ℕ → List Byte → List Byte → PublishMode → ℕ → ServerEvent V D
  publish_stream_finished : StreamHandle → ℕ → List Byte → List Byte → ServerEvent V D
  stream_data_received : StreamHandle → ℕ → List Byte → List Byte → DataMessage D → ServerEvent V D
  audio_data_received :
      StreamHandle → ℕ → List Byte → List Byte → D → RtmpTimestamp → ServerEvent V D
  video_data_received :
      StreamHandle → ℕ → List Byte → List Byte → D → RtmpTimestamp → ServerEvent V D
  unhandled_command : ℕ → List Byte → ℕ → V → List V → ServerEvent V D
  play_stream_requested :
      StreamHandle
      → ℕ
      → List Byte
      → List Byte
      → PlayStartValue
      → Option ℕ
      → Bool
      → ℕ
      → ServerEvent V D
  play_stream_finished : StreamHandle → ℕ → List Byte → List Byte → ServerEvent V D
  acknowledgement_received : ℕ → ServerEvent V D
  ping_response_received : RtmpTimestamp → ServerEvent V D

pub data ServerOutput (V D : Type 0) : Type 0 where
  packet_output : Packet → ServerOutput V D
  event_output : ServerEvent V D → ServerOutput V D
  unhandled_message : RawMessage D → ServerOutput V D

module _ {V D E : Type 0} (f : D → E) where
  unfoldable pub map_event : ServerEvent V D → ServerEvent V E
  map_event (client_chunk_size_changed size) = client_chunk_size_changed size
  map_event (connection_requested id app fields) = connection_requested id app fields
  map_event (release_stream_requested id app key) = release_stream_requested id app key
  map_event (publish_stream_requested h id app key mode stream_id) =
      publish_stream_requested h id app key mode stream_id
  map_event (publish_stream_finished h stream_id app key) =
      publish_stream_finished h stream_id app key
  map_event (stream_data_received h stream_id app key message) =
      stream_data_received h stream_id app key (Data.map_payload f message)
  map_event (audio_data_received h stream_id app key body time) =
      audio_data_received h stream_id app key (f body) time
  map_event (video_data_received h stream_id app key body time) =
      video_data_received h stream_id app key (f body) time
  map_event (unhandled_command stream_id name transaction command more) =
      unhandled_command stream_id name transaction command more
  map_event (play_stream_requested h id app key start_at duration reset stream_id) =
      play_stream_requested h id app key start_at duration reset stream_id
  map_event (play_stream_finished h stream_id app key) = play_stream_finished h stream_id app key
  map_event (acknowledgement_received bytes) = acknowledgement_received bytes
  map_event (ping_response_received time) = ping_response_received time

  unfoldable pub map_payload : ServerOutput V D → ServerOutput V E
  unfolding map_event
  map_payload (packet_output p) = packet_output p
  map_payload (event_output e) = event_output (map_event e)
  map_payload (unhandled_message m) = unhandled_message (Raw.map_data f m)

-- An action is named by its constructor.
pub data Action : Type 0 where
  to_complete to_publish to_play : Action

pub data ServerSessionError : Type 0 where
  limit_exceeded : SessionLimitError → ServerSessionError
  stream_in_invalid_state : StreamHandle → ServerStreamState → ServerSessionError
  stream_ids_exhausted invalid_stream_handle not_connected pending_output session_failed :
      ServerSessionError
  decode_error : DecodeError → ServerSessionError
  encode_error : EncodeError → ServerSessionError
  serialization_error : MessageSerializationError → ServerSessionError
  deserialization_error : MessageDeserializationError → ServerSessionError
  invalid_outstanding_request : ℕ → ServerSessionError
  no_app_name_for_connection_request invalid_request_id : ServerSessionError
  action_attempted_on_inactive_stream : Action → ℕ → ServerSessionError

-- The descriptor pool is left out.
pub record ServerSessionConfig : Type 0 where
  pub fms_version : List Byte
  pub chunk_size : ℕ
  pub peer_bandwidth : ℕ
  pub window_ack_size : ℕ
  pub send_on_bw_done_message_on_start : Bool
  pub max_object_encoding : AmfEncoding
  pub decoder_limits : DecoderLimits
  pub session_limits : SessionLimits

-- `ticks` counts the readings of the time, in place of `start_time`. `pending_connection_control`
-- holds packets only, and is the list of them.
pub record ServerSession (V : Type 0) : Type 0 where
  pub failed : Bool
  pub ticks : ℕ
  pub serializer : ChunkEncoder
  pub deserializer : MessageDecoder
  pub pending : List (ServerOutput V Payload)
  pub connected_app_name : Option (List Byte)
  pub outstanding_requests : Map OutstandingRequest
  pub next_request_number : ℕ
  pub current_state : SessionState
  pub fms_version : List Byte
  pub negotiated_encoding : AmfEncoding
  pub max_object_encoding : AmfEncoding
  pub peer_uses_amf3_framing : Bool
  pub response_encoding : AmfEncoding
  pub active_streams : Map ActiveStream
  pub stream_handles : Streams (Unit {0})
  pub next_stream_id : ℕ
  pub session_limits : SessionLimits
  pub peer_window_ack_size : Option ℕ
  pub self_window_ack_size : Option ℕ
  pub bytes_received : ℕ
  pub bytes_received_since_last_ack : ℕ
  pub pending_connection_control : List Packet
