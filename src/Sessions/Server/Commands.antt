-- ===== src/Sessions/Server/Commands.antt =====
-- The commands of a client on its connection and on the streams' lives (src/sessions/server/mod.rs:
-- handle_command_connect, handle_command_create_stream, handle_command_close_stream and
-- handle_command_delete_stream).
use rtmpx.Prelude.{
  ℕ, ◌+◌, ◌-◌, ◌*◌, ◌%◌, ◌^◌, Bool, true, false, not, ◌||◌, Option, none, some, List, [], ◌∷◌,
  length, ltb, leb, ◌==◌, if◌then◌else◌, ok, err, stuck,
}
use rtmpx.Prelude.Bytes.{Byte}
use rtmpx.Prelude.Text.{codes}
use rtmpx.Prelude.Map
use rtmpx.Prelude.Map.{Map, lookup}
use rtmpx.Prelude.Float.{f64_of_u32, f64_as_u32}
use rtmpx.Messages.Message.{AmfEncoding, in_amf0}
use rtmpx.Sessions.Streams
use rtmpx.Sessions.Streams.{StreamHandle, find}
use rtmpx.Sessions.Limits.{check_streams, check_requests}
use rtmpx.Sessions.Values.{
  Amf0Object, View, number, utf8_string, object, Outside, shift_remove, get_number,
  from_object_encoding, negotiate,
}
use rtmpx.Sessions.Server.Types.{
  StreamState, created, publishing, playing, completed, ActiveStream, OutstandingRequest,
  connection_request, publish_requested, play_requested, SessionState, started, connected,
  connection_requested, publish_stream_finished, play_stream_finished, ServerOutput, packet_output,
  event_output, ServerSession, limit_exceeded, stream_ids_exhausted,
  no_app_name_for_connection_request,
}
use rtmpx.Sessions.Server.Send.{Ran, ◌>>=◌, call, create_success_response}

-- `app.ends_with("/")`, and `app.pop()` then.
unfoldable pub without_slash : List Byte → List Byte
without_slash [] = []
without_slash (c ∷ []) = if c == 47 then [] else c ∷ []
without_slash (c ∷ d ∷ rest) = c ∷ without_slash (d ∷ rest)

-- `parse::<u32>`: a plus sign may lead, digits follow, one at least, and the number is below 2³².
unfoldable pub parse_digits : ℕ → List Byte → Option ℕ
parse_digits value [] = some value
parse_digits value (c ∷ rest) =
    let value' = value * 10 + (c - 48) in
    let parsed = parse_digits value' rest in
    if (ltb c 48 || ltb 57 c) || leb (2 ^ 32) value' then none else parsed

unfoldable pub parse_u32 : List Byte → Option ℕ
unfolding parse_digits
parse_u32 [] = none
parse_u32 (c ∷ []) = parse_digits 0 (c ∷ [])
parse_u32 (c ∷ d ∷ rest) =
    if c == 43 then parse_digits 0 (d ∷ rest) else parse_digits 0 (c ∷ d ∷ rest)

abbrev pub is_connected_state : SessionState → Bool
is_connected_state started = false
is_connected_state connected = true

-- The outputs of a handler, whose payloads are contiguous.
abbrev pub Outputs : Type 0 → Type 0
Outputs V = List (ServerOutput V (List Byte))

abbrev encoding_of : Option ℕ → AmfEncoding
encoding_of none = in_amf0
encoding_of (some value) = from_object_encoding value

-- The ids of requests that a stream's deletion withdraws.
abbrev pub concerns : ℕ → OutstandingRequest → Bool
concerns stream_id (connection_request app transaction encoding) = false
concerns stream_id (publish_requested key mode id encoding) = id == stream_id
concerns stream_id (play_requested key id encoding) = id == stream_id

unfoldable pub withdraw : ℕ → Map OutstandingRequest → Map OutstandingRequest
withdraw stream_id [] = []
withdraw stream_id ((n, request) ∷ requests) =
    let rest = withdraw stream_id requests in
    if concerns stream_id request then rest else (n, request) ∷ rest

module _ {V : Type 0} where
  -- A request waits for the application under a new number.
  unfoldable pub file_request : ServerSession V → OutstandingRequest → Ran V ℕ
  file_request s request =
      let n = s.next_request_number in
      let s₁ = record s { next_request_number = (n + 1) % 2 ^ 32 } in
      call s₁ limit_exceeded (check_requests s₁.session_limits (length s₁.outstanding_requests))
      >>= λ (s₂, _).
          (record s₂ { outstanding_requests = Map.insert n request s₂.outstanding_requests }, ok n)

  abbrev pub app_of : View V → Option (List Byte)
  app_of (utf8_string app) = some (without_slash app)
  app_of _ = none

  abbrev pub string_of : (V → View V) → Option V → Option (List Byte)
  string_of view none = none
  string_of view (some v) = app_of (view v)

  abbrev pub requested_of : (V → View V) → Option V → AmfEncoding
  requested_of view none = in_amf0
  requested_of view (some v) = encoding_of (get_number (view v))

  unfoldable pub connect_app :
      (V → View V) → ServerSession V → ℕ → Option (List Byte) → Amf0Object V → Ran V (Outputs V)
  unfolding shift_remove get_number file_request
  connect_app view s transaction_id none fields = (s, err no_app_name_for_connection_request)
  connect_app view s transaction_id (some app) fields =
      let (asked, fields') = shift_remove (codes "objectEncoding") fields in
      let s₁ = record s {
        negotiated_encoding = negotiate (requested_of view asked) s.max_object_encoding;
      } in
      file_request s₁ (connection_request app transaction_id s₁.response_encoding) >>= λ (s₂, n).
      (s₂, ok (event_output (connection_requested n app fields') ∷ []))

  unfoldable pub connect_object : (V → View V) → ServerSession V → ℕ → View V → Ran V (Outputs V)
  unfolding shift_remove connect_app without_slash
  connect_object view s transaction_id (object fields) =
      let (app, fields') = shift_remove (codes "app") fields in
      connect_app view s transaction_id (string_of view app) fields'
  connect_object view s transaction_id _ = (s, err no_app_name_for_connection_request)

  -- `expect("known stream")` on the handle of a stream id.
  unfoldable pub known :
      {A : Type 0} → ServerSession V → Option StreamHandle → (StreamHandle → A) → Ran V A
  known s none f = (s, stuck)
  known s (some h) f = (s, ok (f h))

  -- The event of a stream that ends.
  unfoldable pub finished : ServerSession V → List Byte → ℕ → StreamState → Ran V (Outputs V)
  unfolding known find
  finished s app stream_id (publishing key mode) =
      known s (find s.stream_handles stream_id)
        (λ h. event_output (publish_stream_finished h stream_id app key) ∷ [])
  finished s app stream_id (playing key) =
      known s (find s.stream_handles stream_id)
        (λ h. event_output (play_stream_finished h stream_id app key) ∷ [])
  finished s app stream_id created = (s, ok [])
  finished s app stream_id completed = (s, ok [])

  unfoldable pub close_stream :
      ServerSession V → List Byte → ℕ → Option ActiveStream → Ran V (Outputs V)
  unfolding finished
  close_stream s app stream_id none = (s, ok [])
  close_stream s app stream_id (some stream) =
      finished s app stream_id stream.current_state >>= λ (s', outputs). (
        record s' {
          active_streams =
              Map.insert stream_id (record { current_state = created }) s'.active_streams;
        },
        ok outputs,
      )

  -- The guards that closing and deleting share: connected, with an app name and an argument.
  abbrev pub with_argument :
      ServerSession V
      → Option (List Byte)
      → List V
      → (List Byte → V → Ran V (Outputs V))
      → Ran V (Outputs V)
  with_argument s none arguments f = (s, ok [])
  with_argument s (some app) [] f = (s, ok [])
  with_argument s (some app) (v ∷ rest) f = f app v

  abbrev pub forget_handle : ServerSession V → Option StreamHandle → ServerSession V
  forget_handle s none = s
  forget_handle s (some h) = record s { stream_handles = (Streams.remove s.stream_handles h).0 }

  unfoldable pub delete_stream :
      ServerSession V → List Byte → ℕ → Option ActiveStream → Ran V (Outputs V)
  unfolding finished withdraw find
  delete_stream s app stream_id none = (s, ok [])
  delete_stream s app stream_id (some stream) =
      let s₁ = record s {
        active_streams = Map.remove stream_id s.active_streams;
        outstanding_requests = withdraw stream_id s.outstanding_requests;
      } in
      finished s₁ app stream_id stream.current_state >>= λ (s₂, outputs).
      (forget_handle s₂ (find s₂.stream_handles stream_id), ok outputs)

  abbrev pub closed_id : View V → Option ℕ
  closed_id (number x) = some (f64_as_u32 x)
  closed_id _ = none

  -- A decimal string is an id too.
  abbrev pub deleted_id : View V → Option ℕ
  deleted_id (number x) = some (f64_as_u32 x)
  deleted_id (utf8_string text) = parse_u32 text
  deleted_id _ = none

  abbrev pub close_id : ServerSession V → List Byte → Option ℕ → Ran V (Outputs V)
  close_id s app none = (s, ok [])
  close_id s app (some id) = close_stream s app id (lookup id s.active_streams)

  abbrev pub delete_id : ServerSession V → List Byte → Option ℕ → Ran V (Outputs V)
  delete_id s app none = (s, ok [])
  delete_id s app (some id) = delete_stream s app id (lookup id s.active_streams)

  -- The new stream's entry and its handle. Its panic is the registry's.
  unfoldable pub add_stream : ServerSession V → ℕ → Ran V (Unit {0})
  add_stream s id =
      let s' = record s {
        active_streams = Map.insert id (record { current_state = created }) s.active_streams;
      } in
      call s' (λ none_possible. absurd none_possible)
        (Streams.insert s'.stream_handles tt (some id))
      >>= λ (s'', (handles, h)). (record s'' { stream_handles = handles }, ok tt)

module _ {V W : Type 0} (outside : Outside V W) where
  unfoldable pub handle_command_connect : ServerSession V → ℕ → V → Ran V (Outputs V)
  unfolding connect_object
  handle_command_connect s transaction_id command =
      connect_object outside.view s transaction_id (outside.view command)

  unfoldable pub handle_command_close_stream : ServerSession V → List V → Ran V (Outputs V)
  unfolding close_stream
  handle_command_close_stream s arguments =
      if not (is_connected_state s.current_state)
      then (s, ok [])
      else with_argument s s.connected_app_name arguments
          (λ app v. close_id s app (closed_id (outside.view v)))

  unfoldable pub handle_command_delete_stream : ServerSession V → List V → Ran V (Outputs V)
  unfolding delete_stream
  handle_command_delete_stream s arguments =
      if not (is_connected_state s.current_state)
      then (s, ok [])
      else with_argument s s.connected_app_name arguments
          (λ app v. delete_id s app (deleted_id (outside.view v)))

  -- `checked_add` fails at the greatest u32.
  abbrev pub advance_id : ServerSession V → ℕ → Ran V ℕ
  advance_id s id =
      if leb (2 ^ 32 - 1) id
      then (s, err stream_ids_exhausted)
      else (record s { next_stream_id = id + 1 }, ok id)

  unfoldable pub handle_command_create_stream : ServerSession V → ℕ → Ran V (Outputs V)
  unfolding add_stream create_success_response
  handle_command_create_stream s transaction_id = do
    (s₁, _) ← call s limit_exceeded (check_streams s.session_limits (length s.active_streams))
    (s₂, id) ← advance_id s₁ s₁.next_stream_id
    (s₃, _) ← add_stream s₂ id
    (s₄, packet) ←
        create_success_response outside s₃ transaction_id outside.null
          (outside.of_number (f64_of_u32 id) ∷ []) 0
    (s₄, ok (packet_output packet ∷ []))
