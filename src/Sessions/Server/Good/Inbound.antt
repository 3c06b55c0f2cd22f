-- ===== src/Sessions/Server/Good/Inbound.antt =====
-- A message from the peer keeps what a session counts on (src/sessions/server/mod.rs:
-- handle_message and what it calls).
use rtmpx.Prelude.{
  ℕ, ◌^◌, ◌<◌, ◌-◌, ◌≡◌, refl, Bool, true, false, Option, none, some, List, ◌==◌, if◌then◌else◌,
  ensures_weaken, arith, Bool-cases, inl, inr,
}
use rtmpx.Prelude.Bytes.{Byte}
use rtmpx.Prelude.Text.{codes, equal_bytes}
use rtmpx.Prelude.Map.{lookup}
use rtmpx.Time.{RtmpTimestamp}
use rtmpx.Messages.Raw.{RawMessage}
use rtmpx.Messages.Message
use rtmpx.Messages.Message.{
  RtmpMessage, UserControlEventType, stream_begin, stream_eof, stream_dry, set_buffer_length,
  stream_is_recorded, ping_request, ping_response, buffer_empty, buffer_ready,
}
use rtmpx.Messages.Total.{IsTotal, to_rtmp_message-Returns}
use rtmpx.Chunk.Types.{DecoderLimits}
use rtmpx.Chunk.Decoder
use rtmpx.Chunk.Decoder.{MessageDecoder}
use rtmpx.Chunk.Decoder.Reached.{
  Reached, reached_size, reached_abort, IsFit, size-IsFit, Reached-IsFit,
}
use rtmpx.Sessions.Streams.{StreamHandle}
use rtmpx.Sessions.Values.{Outside}
use rtmpx.Sessions.Server.Types.{
  created, publishing, playing, completed, ActiveStream, ServerEvent, ServerSession,
}
use rtmpx.Sessions.Server.Send.{Ran}
use rtmpx.Sessions.Server.Commands.{is_connected_state}
use rtmpx.Sessions.Server.Events.{
  published_key, published_event, media_event, audio_event, video_event, collect,
  handle_abort_message, handle_set_chunk_size, handle_window_acknowledgement, handle_user_control,
  handle_amf0_command, dispatch, handle_message,
}
use rtmpx.Sessions.Server.Good.{IsGood, Keeps, Ends-then, Ends-call}
use rtmpx.Sessions.Server.Good.Sends.{send-Keeps}
use rtmpx.Sessions.Server.Good.Lives.{receiving-Facts}
use rtmpx.Sessions.Server.Good.Handlers.{connect-Keeps, close-Keeps, delete-Keeps, create-Keeps}
use rtmpx.Sessions.Server.Good.Requests.{found-Keeps, publish-Keeps, play-Keeps}

module _ {V W : Type 0} (outside : Outside V W) (total : IsTotal outside.bodies) (l : DecoderLimits)
    (usize : l.maximum_buffered_bytes < 2 ^ 64 - 1) (Granted : ℕ → List Byte → Type 0) where
  abbrev Good : ServerSession V → Type 0
  Good = IsGood outside.capacity_of l Granted

  abbrev Kept : {A : Type 0} → ServerSession V → A → Type 0
  Kept s a = Good s

  event-Keeps :
      {D : Type 0} (s : ServerSession V) (id : ℕ) (o : Option ActiveStream)
      (app : Option (List Byte)) (f : StreamHandle → List Byte → List Byte → ServerEvent V D)
      → lookup id s.active_streams ≡ o
      → Good s
      → Keeps Good (published_event s id app (published_key o) f)
  event-Keeps s id o none f there good = good
  event-Keeps s id none (some app) f there good = good
  event-Keeps s id (some stream) (some app) f there good =
      let (h, found) = good.known id stream there in
      elim stream.current_state
        as (λ state. Keeps Good (
          published_event s id (some app) (published_key (some (record { current_state = state })))
            f)) [
              | created ↦ good
              | publishing key mode ↦ found-Keeps outside total l Granted s _ h _ found good
              | playing key ↦ good
              | completed ↦ good
            ]

  pub published_event-Keeps :
      {D : Type 0} (s : ServerSession V) (id : ℕ) (app : Option (List Byte))
      (f : StreamHandle → List Byte → List Byte → ServerEvent V D)
      → Good s
      → Keeps Good (published_event s id app (published_key (lookup id s.active_streams)) f)
  published_event-Keeps s id app f good =
      event-Keeps s id (lookup id s.active_streams) app f refl good

  media_event-Keeps :
      {D : Type 0} (s : ServerSession V) (id : ℕ)
      (f : StreamHandle → List Byte → List Byte → ServerEvent V D)
      → Good s
      → Keeps Good (media_event s id f)
  unfolding media_event
  media_event-Keeps s id f good = elim (Bool-cases (is_connected_state s.current_state)) [
    | inl joined ↦ rw joined (published_event-Keeps s id s.connected_app_name f good)
    | inr apart ↦ rw apart good
  ]

  pub audio-Keeps :
      {D : Type 0} (s : ServerSession V) (body : D) (id : ℕ) (time : RtmpTimestamp)
      → Good s
      → Keeps Good (audio_event s body id time)
  unfolding audio_event
  audio-Keeps s body id time good = media_event-Keeps s id _ good

  pub video-Keeps :
      {D : Type 0} (s : ServerSession V) (body : D) (id : ℕ) (time : RtmpTimestamp)
      → Good s
      → Keeps Good (video_event s body id time)
  unfolding video_event
  video-Keeps s body id time good = media_event-Keeps s id _ good

  collect-Keeps :
      (r : Ran V (Option (ServerEvent V (List Byte)))) → Keeps Good r → Keeps Good (collect r)
  collect-Keeps r kept = Ends-then Good Kept Kept r _ kept λ s e good. good

  abort-Keeps : (s : ServerSession V) (csid : ℕ) → Good s → Keeps Good (handle_abort_message s csid)
  unfolding handle_abort_message
  abort-Keeps s csid good =
      receiving-Facts good good.peer_positive (reached_abort csid good.reached)

  size-Keeps : (s : ServerSession V) (size : ℕ) → Good s → Keeps Good (handle_set_chunk_size s size)
  unfolding handle_set_chunk_size
  size-Keeps s size good =
      let fit = Reached-IsFit outside.capacity_of l usize s.deserializer good.reached in
      Ends-then Good (λ s' d. Good s' × Reached outside.capacity_of l d) Kept _ _
        (Ends-call Good (λ s' d. Good s' × Reached outside.capacity_of l d) s _ _
          (ensures_weaken (IsFit outside.capacity_of) (λ _. Unit {0})
            (Decoder.set_chunk_size s.deserializer size) (λ _ _. tt)
            (size-IsFit outside.capacity_of s.deserializer size fit))
          good (λ d done. (good, reached_size size good.reached done)))
        λ s' d (kept, reached). receiving-Facts kept kept.peer_positive reached

  window-Keeps :
      (s : ServerSession V) (size : ℕ) → Good s → Keeps Good (handle_window_acknowledgement s size)
  unfolding handle_window_acknowledgement
  window-Keeps s size good = elim (Bool-cases (size == 0)) [
    | inl empty ↦ rw empty good
    | inr positive ↦
        rw positive (receiving-Facts good (λ e. absurd (ground (arith, e, positive))) good.reached)
  ]

  control-Keeps :
      (s : ServerSession V) (event : UserControlEventType) (time : Option RtmpTimestamp)
      → Good s
      → Keeps Good (handle_user_control outside s event time)
  unfolding handle_user_control
  control-Keeps s ping_request time good =
      Ends-then Good Kept Kept _ _ (send-Keeps outside total l Granted s _ 0 false good)
        λ s' packet kept. kept
  control-Keeps s ping_response time good = good
  control-Keeps s stream_begin time good = good
  control-Keeps s stream_eof time good = good
  control-Keeps s stream_dry time good = good
  control-Keeps s set_buffer_length time good = good
  control-Keeps s stream_is_recorded time good = good
  control-Keeps s buffer_empty time good = good
  control-Keeps s buffer_ready time good = good

  either :
      {A : Type 0} (b : Bool) (x y : Ran V A)
      → Keeps Good x
      → Keeps Good y
      → Keeps Good (if b then x else y)
  either true x y one two = one
  either false x y one two = two

  command-Keeps :
      (s : ServerSession V) (stream_id : ℕ) (name : List Byte) (id : ℕ) (command : V)
      (arguments : List V)
      → Good s
      → Keeps Good (handle_amf0_command outside s stream_id name id command arguments)
  unfolding handle_amf0_command
  command-Keeps s stream_id name id command arguments good =
      either (equal_bytes name (codes "connect")) _ _
        (connect-Keeps outside total l Granted s id command good)
        (either (equal_bytes name (codes "closeStream")) _ _
          (close-Keeps outside total l Granted s arguments good)
          (either (equal_bytes name (codes "createStream")) _ _
            (create-Keeps outside total l Granted s id good)
            (either (equal_bytes name (codes "deleteStream")) _ _
              (delete-Keeps outside total l Granted s arguments good)
              (either (equal_bytes name (codes "play")) _ _
                (play-Keeps outside total l Granted s stream_id id arguments good)
                (either (equal_bytes name (codes "publish")) _ _
                  (publish-Keeps outside total l Granted s stream_id id arguments good) good)))))

  dispatch-Keeps :
      (s : ServerSession V) (m : RawMessage (List Byte)) (message : RtmpMessage V W)
      → Good s
      → Keeps Good (dispatch outside s m message)
  unfolding dispatch
  dispatch-Keeps s m (Message.abort csid) good = abort-Keeps s csid good
  dispatch-Keeps s m (Message.acknowledgement n) good = good
  dispatch-Keeps s m (Message.amf0_command name id command more) good =
      command-Keeps _ m.message_stream_id name id command more good
  dispatch-Keeps s m (Message.amf3_command name id command more format) good =
      command-Keeps _ m.message_stream_id name id _ _ good
  dispatch-Keeps s m (Message.audio_data body) good =
      collect-Keeps _ (audio-Keeps s body m.message_stream_id m.timestamp good)
  dispatch-Keeps s m (Message.video_data body) good =
      collect-Keeps _ (video-Keeps s body m.message_stream_id m.timestamp good)
  dispatch-Keeps s m (Message.set_chunk_size size) good = size-Keeps s size good
  dispatch-Keeps s m (Message.set_peer_bandwidth size limit_type) good = good
  dispatch-Keeps s m (Message.user_control event id length time) good =
      control-Keeps s event time good
  dispatch-Keeps s m (Message.window_acknowledgement size) good = window-Keeps s size good
  dispatch-Keeps s m (Message.unknown type_id body) good = good
  dispatch-Keeps s m (Message.amf0_data values) good = good
  dispatch-Keeps s m (Message.amf3_data values format) good = good
  dispatch-Keeps s m (Message.amf0_shared_object body) good = good
  dispatch-Keeps s m (Message.amf3_shared_object body) good = good

  pub message-Keeps :
      (s : ServerSession V) (m : RawMessage (List Byte))
      → Good s
      → Keeps Good (handle_message outside s m)
  unfolding handle_message
  message-Keeps s m good =
      Ends-then Good Kept Kept _ _
        (Ends-call Good Kept s _ _ (to_rtmp_message-Returns outside.bodies total m) good
          (λ _ _. good))
        λ s' message kept. dispatch-Keeps s' m message kept
