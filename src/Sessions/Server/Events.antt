-- ===== src/Sessions/Server/Events.antt =====
-- Media and control messages, and the choice of a handler (src/sessions/server/mod.rs: audio_event,
-- video_event, the handlers of control messages, handle_amf0_command and handle_message).
use rtmpx.Prelude.{
  ℕ, ◌-◌, ◌^◌, true, false, not, Option, none, some, List, [], ◌∷◌, ◌==◌, if◌then◌else◌, ok, err,
}
use rtmpx.Prelude.Bytes.{Byte}
use rtmpx.Prelude.Text.{codes, equal_bytes}
use rtmpx.Prelude.Map.{lookup}
use rtmpx.Time.{RtmpTimestamp}
use rtmpx.Messages.Raw.{RawMessage}
use rtmpx.Messages.Message
use rtmpx.Messages.Message.{
  UserControlEventType, ping_request, ping_response, RtmpMessage, in_amf0, in_amf3,
}
use rtmpx.Messages.Convert.{to_rtmp_message}
use rtmpx.Chunk.Types.{resource_limit_exceeded}
use rtmpx.Chunk.Decoder
use rtmpx.Sessions.Streams.{StreamHandle, find}
use rtmpx.Sessions.Values.{Outside}
use rtmpx.Sessions.Server.Types.{
  created, publishing, playing, completed, ActiveStream, ServerEvent, audio_data_received,
  video_data_received, unhandled_command, acknowledgement_received, ping_response_received,
  packet_output, event_output, unhandled_message, ServerSession, decode_error,
  deserialization_error,
}
use rtmpx.Sessions.Server.Send.{Ran, ◌>>=◌, call, send}
use rtmpx.Sessions.Server.Commands.{
  is_connected_state, Outputs, known, handle_command_connect, handle_command_close_stream,
  handle_command_create_stream, handle_command_delete_stream,
}
use rtmpx.Sessions.Server.Requests.{handle_command_publish, handle_command_play}
use rtmpx.Sessions.Server.Decisions.{mirror}

-- The key under which the stream is published.
abbrev pub published_key : Option ActiveStream → Option (List Byte)
published_key none = none
published_key (some stream) = elim stream.current_state [
  | publishing key mode ↦ some key
  | created ↦ none
  | playing key ↦ none
  | completed ↦ none
]

abbrev pub time_or_zero : Option RtmpTimestamp → RtmpTimestamp
time_or_zero none = record { value = 0 }
time_or_zero (some time) = time

module _ {V : Type 0} where
  -- An event of a published stream, of what is made of its handle, the app name and the key.
  abbrev pub published_event :
      {D : Type 0}
      → ServerSession V
      → ℕ
      → Option (List Byte)
      → Option (List Byte)
      → (StreamHandle → List Byte → List Byte → ServerEvent V D)
      → Ran V (Option (ServerEvent V D))
  published_event s stream_id none key f = (s, ok none)
  published_event s stream_id (some app) none f = (s, ok none)
  published_event s stream_id (some app) (some key) f =
      known s (find s.stream_handles stream_id) (λ h. some (f h app key))

  unfoldable pub media_event :
      {D : Type 0}
      → ServerSession V
      → ℕ
      → (StreamHandle → List Byte → List Byte → ServerEvent V D)
      → Ran V (Option (ServerEvent V D))
  unfolding known find
  media_event s stream_id f =
      if not (is_connected_state s.current_state)
      then (s, ok none)
      else published_event s stream_id s.connected_app_name
          (published_key (lookup stream_id s.active_streams)) f

  unfoldable pub audio_event :
      {D : Type 0} → ServerSession V → D → ℕ → RtmpTimestamp → Ran V (Option (ServerEvent V D))
  unfolding media_event
  audio_event s body stream_id time =
      media_event s stream_id (λ h app key. audio_data_received h stream_id app key body time)

  unfoldable pub video_event :
      {D : Type 0} → ServerSession V → D → ℕ → RtmpTimestamp → Ran V (Option (ServerEvent V D))
  unfolding media_event
  video_event s body stream_id time =
      media_event s stream_id (λ h app key. video_data_received h stream_id app key body time)

  abbrev pub outputs_of : Option (ServerEvent V (List Byte)) → Outputs V
  outputs_of none = []
  outputs_of (some e) = event_output e ∷ []

  abbrev pub collect : Ran V (Option (ServerEvent V (List Byte))) → Ran V (Outputs V)
  collect r = r >>= λ (s, e). (s, ok (outputs_of e))

  unfoldable pub handle_abort_message : ServerSession V → ℕ → Ran V (Outputs V)
  handle_abort_message s csid =
      (record s { deserializer = Decoder.abort_chunk_stream s.deserializer csid }, ok [])

  unfoldable pub handle_set_chunk_size : ServerSession V → ℕ → Ran V (Outputs V)
  handle_set_chunk_size s size =
      call s decode_error (Decoder.set_chunk_size s.deserializer size) >>= λ (s', d).
      (record s' { deserializer = d }, ok [])

  unfoldable pub handle_window_acknowledgement : ServerSession V → ℕ → Ran V (Outputs V)
  handle_window_acknowledgement s size =
      if size == 0
      then (s, err (decode_error (resource_limit_exceeded "acknowledgement window" 0 (2 ^ 32 - 1))))
      else (record s { peer_window_ack_size = some size }, ok [])

  abbrev pub event_only : ServerSession V → ServerEvent V (List Byte) → Ran V (Outputs V)
  event_only s e = (s, ok (event_output e ∷ []))

module _ {V W : Type 0} (outside : Outside V W) where
  unfoldable pub handle_user_control :
      ServerSession V → UserControlEventType → Option RtmpTimestamp → Ran V (Outputs V)
  unfolding send
  handle_user_control s ping_request time =
      send outside s (Message.user_control ping_response none none time) 0 false >>= λ (s', packet).
      (s', ok (packet_output packet ∷ []))
  handle_user_control s ping_response time =
      event_only s (ping_response_received (time_or_zero time))
  handle_user_control s _ time = (s, ok [])

  unfoldable pub handle_amf0_command :
      ServerSession V → ℕ → List Byte → ℕ → V → List V → Ran V (Outputs V)
  unfolding equal_bytes handle_command_connect handle_command_close_stream
      handle_command_create_stream handle_command_delete_stream handle_command_play
      handle_command_publish
  handle_amf0_command s stream_id name transaction_id command arguments =
      if equal_bytes name (codes "connect")
      then handle_command_connect outside s transaction_id command
      else if equal_bytes name (codes "closeStream")
      then handle_command_close_stream outside s arguments
      else if equal_bytes name (codes "createStream")
      then handle_command_create_stream outside s transaction_id
      else if equal_bytes name (codes "deleteStream")
      then handle_command_delete_stream outside s arguments
      else if equal_bytes name (codes "play")
      then handle_command_play outside s stream_id transaction_id arguments
      else if equal_bytes name (codes "publish")
      then handle_command_publish outside s stream_id transaction_id arguments
      else event_only s (unhandled_command stream_id name transaction_id command arguments)

  abbrev pub map_to_amf0 : List W → List V
  map_to_amf0 [] = []
  map_to_amf0 (w ∷ values) = outside.to_amf0 w ∷ map_to_amf0 values

  unfoldable pub dispatch :
      ServerSession V → RawMessage (List Byte) → RtmpMessage V W → Ran V (Outputs V)
  unfolding handle_abort_message handle_amf0_command audio_event video_event handle_set_chunk_size
      handle_user_control handle_window_acknowledgement
  dispatch s m (Message.abort csid) = handle_abort_message s csid
  dispatch s m (Message.acknowledgement n) = event_only s (acknowledgement_received n)
  dispatch s m (Message.amf0_command name id command more) =
      handle_amf0_command (mirror s in_amf0) m.message_stream_id name id command more
  dispatch s m (Message.amf3_command name id command more format) =
      let s' = record (mirror s in_amf3) { peer_uses_amf3_framing = true } in
      handle_amf0_command s' m.message_stream_id name id (outside.to_amf0 command)
        (map_to_amf0 more)
  dispatch s m (Message.audio_data body) =
      collect (audio_event s body m.message_stream_id m.timestamp)
  dispatch s m (Message.video_data body) =
      collect (video_event s body m.message_stream_id m.timestamp)
  dispatch s m (Message.set_chunk_size size) = handle_set_chunk_size s size
  dispatch s m (Message.set_peer_bandwidth size limit_type) = (s, ok [])
  dispatch s m (Message.user_control event stream_id buffer_length time) =
      handle_user_control s event time
  dispatch s m (Message.window_acknowledgement size) = handle_window_acknowledgement s size
  dispatch s m _ = (s, ok (unhandled_message m ∷ []))

  unfoldable pub handle_message : ServerSession V → RawMessage (List Byte) → Ran V (Outputs V)
  unfolding dispatch
  handle_message s m =
      call s deserialization_error (to_rtmp_message outside.bodies m) >>= λ (s', message).
      dispatch s' m message
