-- ===== src/Sessions/Server/Decisions.antt =====
-- What the application decides of a request (src/sessions/server/mod.rs: accept_request,
-- accept_request_with_properties, reject_request and what they call).
use rtmpx.Prelude.{ℕ, false, Option, none, some, List, [], ◌∷◌, ◌++◌, ok, err}
use rtmpx.Prelude.Bytes.{Byte}
use rtmpx.Prelude.Text.{codes}
use rtmpx.Prelude.Map
use rtmpx.Prelude.Map.{lookup}
use rtmpx.Prelude.Float.{f64_31}
use rtmpx.Payload.{Payload, from_bytes}
use rtmpx.Messages.Message
use rtmpx.Messages.Message.{RtmpMessage, AmfEncoding, stream_begin}
use rtmpx.Chunk.Encoder.{Packet}
use rtmpx.Sessions.Data.{PublishMode}
use rtmpx.Sessions.Values.{Amf0Object, Outside, insert, extend, as_object_encoding}
use rtmpx.Sessions.Server.Types.{
  StreamState, publishing, playing, ActiveStream, OutstandingRequest, connection_request,
  publish_requested, play_requested, connected, ServerOutput, packet_output, map_payload, Action,
  to_publish, to_play, ServerSession, invalid_request_id, action_attempted_on_inactive_stream,
}
use rtmpx.Sessions.Server.Send.{
  Ran, ◌>>=◌, ensure_active, send, on_status, create_status_object, create_error_packet,
}
use rtmpx.Sessions.Server.Commands.{Outputs}

module _ {V : Type 0} where
  abbrev pub packets : List Packet → Outputs V
  packets [] = []
  packets (p ∷ rest) = packet_output p ∷ packets rest

  abbrev pub map_outputs : Outputs V → List (ServerOutput V Payload)
  map_outputs [] = []
  map_outputs (o ∷ outputs) = map_payload from_bytes o ∷ map_outputs outputs

  -- `self.pending.extend(…)`
  unfoldable pub queue : ServerSession V → Outputs V → ServerSession V
  unfolding map_payload
  queue s outputs = record s { pending = s.pending ++ map_outputs outputs }

  -- `active_stream.current_state = …`, or an error where no stream is there.
  unfoldable pub set_stream :
      ServerSession V → ℕ → StreamState → Action → Option ActiveStream → Ran V (Unit {0})
  set_stream s stream_id state action none =
      (s, err (action_attempted_on_inactive_stream action stream_id))
  set_stream s stream_id state action (some stream) = (
    record s {
      active_streams = Map.insert stream_id (record { current_state = state }) s.active_streams;
    },
    ok tt,
  )

  unfoldable pub take_request :
      ServerSession V → ℕ → Option OutstandingRequest → Ran V OutstandingRequest
  take_request s id none = (s, err invalid_request_id)
  take_request s id (some request) =
      (record s { outstanding_requests = Map.remove id s.outstanding_requests }, ok request)

  abbrev pub mirror : ServerSession V → AmfEncoding → ServerSession V
  mirror s encoding = record s { response_encoding = encoding }

module _ {V W : Type 0} (outside : Outside V W) where
  abbrev pub begin_message : ℕ → RtmpMessage V W
  begin_message stream_id = Message.user_control stream_begin (some stream_id) none none

  abbrev pub status : List Byte → List Byte → V
  status code description =
      outside.of_object (create_status_object outside (codes "status") code description)

  -- The body of the answer to `connect`.
  unfoldable pub connect_result : ServerSession V → List Byte → ℕ → Amf0Object V → RtmpMessage V W
  unfolding create_status_object insert extend
  connect_result s app transaction_id properties =
      let command =
        insert (codes "capabilities") (outside.of_number f64_31)
          (insert (codes "fmsVer") (outside.of_string s.fms_version) []) in
      let fields =
        insert (codes "objectEncoding")
          (outside.of_number (as_object_encoding s.negotiated_encoding))
          (create_status_object outside (codes "status") (codes "NetConnection.Connect.Success")
            (codes "Successfully connected on app: " ++ app)) in
      Message.amf0_command (codes "_result") transaction_id (outside.of_object command)
        (outside.of_object (extend fields properties) ∷ [])

  -- The control messages that waited go first.
  unfoldable pub accept_connection_request :
      ServerSession V → List Byte → ℕ → Amf0Object V → Ran V (Outputs V)
  unfolding send connect_result
  accept_connection_request s app transaction_id properties = do
    let s₁ = record s { connected_app_name = some app; current_state = connected }
    (s₂, packet) ← send outside s₁ (connect_result s₁ app transaction_id properties) 0 false
    (
      record s₂ { pending_connection_control = [] },
      ok (packets s₂.pending_connection_control ++ (packet_output packet ∷ [])),
    )

  unfoldable pub accept_publish_request :
      ServerSession V → ℕ → List Byte → PublishMode → Ran V (Outputs V)
  unfolding set_stream send create_status_object
  accept_publish_request s stream_id key mode = do
    (s₁, _) ←
        set_stream s stream_id (publishing key mode) to_publish (lookup stream_id s.active_streams)
    let description = codes "Successfully started publishing on stream key " ++ key
    (s₂, begin) ← send outside s₁ (begin_message stream_id) stream_id false
    let start = status (codes "NetStream.Publish.Start") description
    (s₃, published) ← send outside s₂ (on_status outside (start ∷ [])) stream_id false
    (s₃, ok (packet_output begin ∷ packet_output published ∷ []))

  -- The packets are encoded in another order than they are sent in.
  unfoldable pub accept_play_request : ServerSession V → ℕ → List Byte → Ran V (Outputs V)
  unfolding set_stream send create_status_object insert
  accept_play_request s stream_id key = do
    (s₁, _) ← set_stream s stream_id (playing key) to_play (lookup stream_id s.active_streams)
    let reset_status = status (codes "NetStream.Play.Reset") (codes "Reset stream")
    let description = codes "Successfully started playback on stream key " ++ key
    let start_status = status (codes "NetStream.Play.Start") description
    let access : RtmpMessage V W = Message.amf0_data (
        outside.of_string (codes "|RtmpSampleAccess")
        ∷ outside.of_boolean false
        ∷ outside.of_boolean false
        ∷ [])
    let data_start = insert (codes "code") (outside.of_string (codes "NetStream.Data.Start")) []
    let starts : RtmpMessage V W =
        Message.amf0_data (outside.of_string (codes "onStatus") ∷ outside.of_object data_start ∷ [])
    (s₂, begin) ← send outside s₁ (begin_message stream_id) stream_id false
    (s₃, start) ← send outside s₂ (on_status outside (start_status ∷ [])) stream_id false
    (s₄, data₁) ← send outside s₃ access stream_id false
    (s₅, data₂) ← send outside s₄ starts stream_id false
    (s₆, reset) ← send outside s₅ (on_status outside (reset_status ∷ [])) stream_id false
    (s₆, ok (packets (reset ∷ begin ∷ start ∷ data₁ ∷ data₂ ∷ [])))

  unfoldable pub accept : ServerSession V → Amf0Object V → OutstandingRequest → Ran V (Outputs V)
  unfolding accept_connection_request accept_publish_request accept_play_request
  accept s properties (connection_request app transaction_id encoding) =
      accept_connection_request (mirror s encoding) app transaction_id properties
  accept s properties (publish_requested key mode stream_id encoding) =
      accept_publish_request (mirror s encoding) stream_id key mode
  accept s properties (play_requested key stream_id encoding) =
      accept_play_request (mirror s encoding) stream_id key

  unfoldable pub accept_request_with_properties :
      ServerSession V → ℕ → Amf0Object V → Ran V (Unit {0})
  unfolding ensure_active take_request accept queue
  accept_request_with_properties s id properties = do
    (s₁, _) ← ensure_active s
    (s₂, request) ← take_request s₁ id (lookup id s₁.outstanding_requests)
    (s₃, outputs) ← accept s₂ properties request
    (queue s₃ outputs, ok tt)

  unfoldable pub accept_request : ServerSession V → ℕ → Ran V (Unit {0})
  unfolding ensure_active accept_request_with_properties
  accept_request s id = ensure_active s >>= λ (s', _). accept_request_with_properties s' id []

  unfoldable pub stream_error : ServerSession V → ℕ → List Byte → List Byte → Ran V (Outputs V)
  unfolding send create_status_object
  stream_error s stream_id code description = do
    let status = create_status_object outside (codes "error") code description
    (s', packet) ←
        send outside s (on_status outside (outside.of_object status ∷ [])) stream_id false
    (s', ok (packet_output packet ∷ []))

  unfoldable pub reject :
      ServerSession V → List Byte → List Byte → OutstandingRequest → Ran V (Outputs V)
  unfolding create_error_packet stream_error
  reject s code description (connection_request app transaction_id encoding) = do
    let s₁ = record (mirror s encoding) { pending_connection_control = [] }
    (s₂, packet) ← create_error_packet outside s₁ code description transaction_id 0
    (s₂, ok (packets s.pending_connection_control ++ (packet_output packet ∷ [])))
  reject s code description (publish_requested key mode stream_id encoding) =
      stream_error (mirror s encoding) stream_id code description
  reject s code description (play_requested key stream_id encoding) =
      stream_error (mirror s encoding) stream_id code description

  unfoldable pub reject_request : ServerSession V → ℕ → List Byte → List Byte → Ran V (Unit {0})
  unfolding ensure_active take_request reject queue
  reject_request s id code description = do
    (s₁, _) ← ensure_active s
    (s₂, request) ← take_request s₁ id (lookup id s₁.outstanding_requests)
    (s₃, outputs) ← reject s₂ code description request
    (queue s₃ outputs, ok tt)
