-- ===== src/Sessions/Server/Output.antt =====
-- A new server session, what it tells of its streams, and what the application sends
-- (src/sessions/server/mod.rs: new, state, stream_id, stream_state, playback_id,
-- ensure_output_drained, send_audio, send_video, send_data, send_ping_request and complete_playback).
use rtmpx.Prelude.{
  ℕ, ◌^◌, Bool, true, false, not, ◌||◌, Option, none, some, List, [], ◌∷◌, ◌++◌, ◌==◌,
  if◌then◌else◌, ok, err, stuck, ◌-◌,
}
use rtmpx.Prelude.Bytes.{Byte}
use rtmpx.Prelude.Text.{codes}
use rtmpx.Prelude.Map
use rtmpx.Prelude.Map.{Map, lookup}
use rtmpx.Prelude.Float.{f64_zero, f64_8192}
use rtmpx.Time.{RtmpTimestamp}
use rtmpx.Payload.{Payload}
use rtmpx.Messages.Raw.{RawMessage}
use rtmpx.Messages.Message
use rtmpx.Messages.Message.{RtmpMessage, in_amf0, dynamic, stream_begin, ping_request}
use rtmpx.Messages.Convert.{from_rtmp_message}
use rtmpx.Chunk.Types.{resource_limit_exceeded}
use rtmpx.Chunk.Encoder
use rtmpx.Chunk.Encoder.{DropPolicy, EncodeOptions, compressed, default_options, Packet, encode}
use rtmpx.Chunk.Encoder.Resize.{set_chunk_size}
use rtmpx.Chunk.Decoder.{with_limits}
use rtmpx.Sessions.Streams
use rtmpx.Sessions.Streams.{StreamHandle, Entry, get}
use rtmpx.Sessions.Data.{DataMessage, type_id}
use rtmpx.Sessions.Values.{Outside}
use rtmpx.Sessions.Server.Types.{
  StreamState, created, publishing, playing, completed, ActiveStream, ServerStreamState, in_created,
  in_playing, in_publishing, in_completed, ConnectionState, disconnected, connecting, is_connected,
  has_failed, OutstandingRequest, connection_request, publish_requested, play_requested, started,
  ServerOutput, to_complete, stream_in_invalid_state, invalid_stream_handle, not_connected,
  pending_output, decode_error, encode_error, serialization_error,
  action_attempted_on_inactive_stream, ServerSessionConfig, ServerSession,
}
use rtmpx.Sessions.Server.Send.{
  Ran, ◌>>=◌, call, ensure_active, server_initiated_encoding, get_epoch, serialized, send,
  on_status, create_status_object,
}
use rtmpx.Sessions.Server.Commands.{is_connected_state}
use rtmpx.Sessions.Server.Decisions.{mirror, begin_message}

abbrev pub wire_of : Option (Entry (Unit {0})) → Option ℕ
wire_of none = none
wire_of (some e) = e.wire_id

abbrev pub told : StreamState → ServerStreamState
told created = in_created
told (publishing key mode) = in_publishing
told (playing key) = in_playing
told completed = in_completed

abbrev pub state_of : Option ActiveStream → Option ServerStreamState
state_of none = none
state_of (some stream) = some (told stream.current_state)

abbrev is_connection : OutstandingRequest → Bool
is_connection (connection_request app transaction encoding) = true
is_connection (publish_requested key mode id encoding) = false
is_connection (play_requested key id encoding) = false

unfoldable pub any_connection : Map OutstandingRequest → Bool
any_connection [] = false
any_connection ((n, request) ∷ requests) = is_connection request || any_connection requests

module _ {V : Type 0} where
  unfoldable pub state : ServerSession V → ConnectionState
  unfolding any_connection
  state s =
      if s.failed
      then has_failed
      else if is_connected_state s.current_state
      then is_connected
      else if any_connection s.outstanding_requests
      then connecting
      else disconnected

  unfoldable pub stream_id : ServerSession V → StreamHandle → Option ℕ
  unfolding get
  stream_id s h = wire_of (get s.stream_handles h)

  abbrev pub state_at : ServerSession V → Option ℕ → Option ServerStreamState
  state_at s none = none
  state_at s (some wire) = state_of (lookup wire s.active_streams)

  unfoldable pub stream_state : ServerSession V → StreamHandle → Option ServerStreamState
  unfolding stream_id
  stream_state s h = state_at s (stream_id s h)

  -- `expect("live playback stream")` of the id.
  abbrev pub expected_id : ServerSession V → Option ℕ → Ran V ℕ
  expected_id s none = (s, stuck)
  expected_id s (some id) = (s, ok id)

  abbrev pub playing_id : ServerSession V → StreamHandle → Option ServerStreamState → Ran V ℕ
  playing_id s h none = (s, err invalid_stream_handle)
  playing_id s h (some in_playing) = expected_id s (stream_id s h)
  playing_id s h (some other) = (s, err (stream_in_invalid_state h other))

  unfoldable pub playback_id : ServerSession V → StreamHandle → Ran V ℕ
  unfolding stream_state stream_id
  playback_id s h = playing_id s h (stream_state s h)

  abbrev pub is_drained : List (ServerOutput V Payload) → Bool
  is_drained [] = true
  is_drained (o ∷ outputs) = false

  unfoldable pub ensure_output_drained : ServerSession V → Ran V (Unit {0})
  unfolding ensure_active
  ensure_output_drained s = ensure_active s >>= λ (s', _).
      if not (is_drained s'.pending)
      then (s', err pending_output)
      else if not (is_connected_state s'.current_state)
      then (s', err not_connected)
      else (s', ok tt)

  -- The steps that sending audio, video and data share.
  unfoldable pub send_media :
      ServerSession V → StreamHandle → ℕ → Payload → RtmpTimestamp → EncodeOptions → Ran V Packet
  unfolding ensure_output_drained playback_id ensure_active
  send_media s h kind body time options = do
    (s₁, _) ← ensure_output_drained s
    (s₂, id) ← playback_id s₁ h
    (s₃, _) ← ensure_active s₂
    let m : RawMessage Payload = record {
      timestamp = time;
      type_id = kind;
      message_stream_id = id;
      body = body;
    }
    (s₄, (e, packet)) ← call s₃ encode_error (encode s₃.serializer m options)
    (record s₄ { serializer = e }, ok packet)

  unfoldable pub send_audio :
      ServerSession V → StreamHandle → Payload → RtmpTimestamp → DropPolicy → Ran V Packet
  unfolding send_media
  send_audio s h body time policy =
      send_media s h 8 body time (record { drop_policy = policy; headers = compressed })

  unfoldable pub send_video :
      ServerSession V → StreamHandle → Payload → RtmpTimestamp → DropPolicy → Ran V Packet
  unfolding send_media
  send_video s h body time policy =
      send_media s h 9 body time (record { drop_policy = policy; headers = compressed })

  unfoldable pub send_data : ServerSession V → StreamHandle → DataMessage Payload → Ran V Packet
  unfolding send_media type_id
  send_data s h message =
      send_media s h (type_id message.wire_type) message.payload message.timestamp default_options

  abbrev pub not_playing : ServerSession V → ℕ → Ran V (List Byte)
  not_playing s id = (s, err (action_attempted_on_inactive_stream to_complete id))

  abbrev pub complete_state : ServerSession V → ℕ → StreamState → Ran V (List Byte)
  complete_state s id (playing key) = (
    record s {
      active_streams = Map.insert id (record { current_state = completed }) s.active_streams;
    },
    ok key,
  )
  complete_state s id _ = not_playing s id

  unfoldable pub complete_stream : ServerSession V → ℕ → Option ActiveStream → Ran V (List Byte)
  complete_stream s id none = not_playing s id
  complete_stream s id (some stream) = complete_state s id stream.current_state

  abbrev pub valid_id : ServerSession V → Option ℕ → Ran V ℕ
  valid_id s none = (s, err invalid_stream_handle)
  valid_id s (some id) = (s, ok id)

module _ {V W : Type 0} (outside : Outside V W) where
  unfoldable pub send_ping_request : ServerSession V → Ran V (Packet × RtmpTimestamp)
  unfolding ensure_output_drained ensure_active get_epoch serialized
  send_ping_request s = do
    (s₁, _) ← ensure_output_drained s
    (s₂, _) ← ensure_active s₁
    let (s₃, epoch) = get_epoch outside s₂
    let message : RtmpMessage V W = Message.user_control ping_request none none (some epoch)
    (s₄, raw) ← call s₃ serialization_error (from_rtmp_message outside.bodies message epoch 0)
    (s₅, packet) ← serialized outside s₄ raw false false
    (s₅, ok (packet, epoch))

  unfoldable pub complete_playback : ServerSession V → StreamHandle → Ran V Packet
  unfolding ensure_output_drained ensure_active stream_id complete_stream create_status_object send
  complete_playback s h = do
    (s₁, _) ← ensure_output_drained s
    (s₂, id) ← valid_id s₁ (stream_id s₁ h)
    (s₃, _) ← ensure_active s₂
    let s₄ = mirror s₃ (server_initiated_encoding s₃)
    (s₅, key) ← complete_stream s₄ id (lookup id s₄.active_streams)
    let status =
        create_status_object outside (codes "status") (codes "NetStream.Play.Complete")
          (codes "Stream playback is completed for " ++ key)
    send outside s₅ (on_status outside (outside.of_object status ∷ [])) id false

  -- `number` is what the process-wide counter of sessions gives.
  abbrev pub blank : ServerSessionConfig → ℕ → ServerSession V
  blank config number = record {
    failed = false;
    ticks = 0;
    serializer = Encoder.new;
    deserializer = with_limits config.decoder_limits;
    pending = [];
    connected_app_name = none;
    outstanding_requests = [];
    next_request_number = 0;
    current_state = started;
    fms_version = config.fms_version;
    negotiated_encoding = in_amf0;
    max_object_encoding = config.max_object_encoding;
    peer_uses_amf3_framing = false;
    response_encoding = in_amf0;
    active_streams = [];
    stream_handles = Streams.new number;
    next_stream_id = 1;
    session_limits = config.session_limits;
    peer_window_ack_size = none;
    self_window_ack_size = some config.window_ack_size;
    bytes_received = 0;
    bytes_received_since_last_ack = 0;
    pending_connection_control = [];
  }

  abbrev pub on_bw_done : ServerSession V → Bool → Ran V (List Packet)
  on_bw_done s false = (s, ok [])
  on_bw_done s true =
      send outside s
        (Message.amf0_command (codes "onBWDone") f64_zero outside.null
          (outside.of_number f64_8192 ∷ []))
        0 true
      >>= λ (s', packet). (s', ok (packet ∷ []))

  -- The control messages are encoded, and wait until a connection request is decided.
  unfoldable pub new : ServerSessionConfig → ℕ → Ran V (Unit {0})
  unfolding send
  new config number = do
    let s = blank config number
    (s₀, _) ← (
      s,
      if config.window_ack_size == 0
          then err (decode_error (resource_limit_exceeded "acknowledgement window" 0 (2 ^ 32 - 1)))
          else ok tt,
    )
    (s₁, (e, size)) ←
        call s₀ encode_error
          (set_chunk_size outside.bodies s₀.serializer config.chunk_size (record { value = 0 }))
    let s₂ = record s₁ { serializer = e }
    (s₃, window) ← send outside s₂ (Message.window_acknowledgement config.window_ack_size) 0 true
    (s₄, begin) ← send outside s₃ (begin_message outside 0) 0 true
    (s₅, bandwidth) ←
        send outside s₄ (Message.set_peer_bandwidth config.peer_bandwidth dynamic) 0 true
    (s₆, done) ← on_bw_done s₅ config.send_on_bw_done_message_on_start
    (record s₆ { pending_connection_control = size ∷ window ∷ begin ∷ bandwidth ∷ done }, ok tt)
