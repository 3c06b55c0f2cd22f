-- ===== src/Sessions/Server/Requests.antt =====
-- The commands that ask the application: publish and play (src/sessions/server/mod.rs:
-- handle_command_publish and handle_command_play).
use rtmpx.Prelude.{
  ℕ, ◌+◌, Bool, true, false, not, ◌&&◌, Option, none, some, List, [], ◌∷◌, leb, ◌==◌, if◌then◌else◌,
  ok,
}
use rtmpx.Prelude.Bytes.{Byte}
use rtmpx.Prelude.Text.{codes, equal_bytes}
use rtmpx.Prelude.Float.{f64_as_u32, at_least_zero, f64_minus_one, f64_minus_two}
use rtmpx.Sessions.Streams.{StreamHandle, find}
use rtmpx.Sessions.Data.{PublishMode, live, record_mode, append}
use rtmpx.Sessions.Values.{View, number, boolean, utf8_string, Outside}
use rtmpx.Sessions.Server.Types.{
  publish_requested, play_requested, PlayStartValue, live_or_recorded, live_only,
  start_time_in_seconds, publish_stream_requested, play_stream_requested, packet_output,
  event_output, ServerSession,
}
use rtmpx.Sessions.Server.Send.{
  Ran, ◌>>=◌, create_status_object, create_error_response, create_error_packet,
}
use rtmpx.Sessions.Server.Commands.{is_connected_state, Outputs, file_request, known}

abbrev lower : Byte → Byte
lower c = if leb 65 c && leb c 90 then c + 32 else c

-- `to_ascii_lowercase`
unfoldable pub lowercase : List Byte → List Byte
lowercase [] = []
lowercase (c ∷ rest) = lower c ∷ lowercase rest

unfoldable pub mode_of : List Byte → Option PublishMode
unfolding equal_bytes lowercase
mode_of raw =
    if equal_bytes (lowercase raw) (codes "live")
    then some live
    else if equal_bytes (lowercase raw) (codes "append")
    then some append
    else if equal_bytes (lowercase raw) (codes "record")
    then some record_mode
    else none

abbrev pub is_known : Option StreamHandle → Bool
is_known none = false
is_known (some h) = true

unfoldable pub start_of : ℕ → PlayStartValue
unfolding f64_as_u32 at_least_zero
start_of x =
    if x == f64_minus_two
    then live_or_recorded
    else if x == f64_minus_one
    then live_only
    else if at_least_zero x
    then start_time_in_seconds (f64_as_u32 x)
    else live_or_recorded

module _ {V : Type 0} where
  abbrev start_view : View V → PlayStartValue
  start_view (number x) = start_of x
  start_view _ = live_or_recorded

  abbrev duration_view : View V → Option ℕ
  duration_view (number x) = if at_least_zero x then some (f64_as_u32 x) else none
  duration_view _ = none

  abbrev reset_view : View V → Bool
  reset_view (boolean b) = b
  reset_view _ = false

  -- The three optional arguments of `play`.
  abbrev start_at : (V → View V) → List V → PlayStartValue
  start_at view [] = live_or_recorded
  start_at view (v ∷ rest) = start_view (view v)

  abbrev duration : (V → View V) → List V → Option ℕ
  duration view (v ∷ w ∷ rest) = duration_view (view w)
  duration view _ = none

  abbrev reset : (V → View V) → List V → Bool
  reset view (v ∷ w ∷ x ∷ rest) = reset_view (view x)
  reset view _ = false

module _ {V W : Type 0} (outside : Outside V W) where
  -- An error packet is the one output.
  unfoldable pub refuse : ServerSession V → List Byte → List Byte → ℕ → ℕ → Ran V (Outputs V)
  unfolding create_error_packet
  refuse s code description transaction_id stream_id =
      create_error_packet outside s code description transaction_id stream_id >>= λ (s', packet).
      (s', ok (packet_output packet ∷ []))

  unfoldable pub refuse_mode : ServerSession V → ℕ → ℕ → Ran V (Outputs V)
  unfolding create_status_object create_error_response
  refuse_mode s transaction_id stream_id =
      let status =
        create_status_object outside (codes "error") (codes "NetStream.Publish.Start")
          (codes "Invalid publish mode given") in
      create_error_response outside s transaction_id outside.null (outside.of_object status ∷ [])
        stream_id
      >>= λ (s', packet). (s', ok (packet_output packet ∷ []))

  abbrev bad_publish : ServerSession V → ℕ → ℕ → Ran V (Outputs V)
  bad_publish s = refuse s (codes "NetStream.Publish.Start") (codes "Invalid publish arguments")

  abbrev early_publish : ServerSession V → ℕ → ℕ → Ran V (Outputs V)
  early_publish s =
      refuse s (codes "NetStream.Publish.Start") (codes "Can't publish before connecting")

  abbrev bad_play : ServerSession V → ℕ → ℕ → Ran V (Outputs V)
  bad_play s = refuse s (codes "NetStream.Play.Start") (codes "Invalid play arguments")

  abbrev early_play : ServerSession V → ℕ → ℕ → Ran V (Outputs V)
  early_play s = refuse s (codes "NetStream.Play.Start") (codes "Can't play before connecting")

  abbrev unknown_stream : ServerSession V → ℕ → ℕ → Ran V (Outputs V)
  unknown_stream s = refuse s (codes "NetStream.Failed") (codes "Unknown message stream")

  -- The request is filed, and the application asked.
  unfoldable pub ask_publish :
      ServerSession V → ℕ → List Byte → List Byte → PublishMode → Ran V (Outputs V)
  unfolding file_request known find
  ask_publish s stream_id app key mode =
      file_request s (publish_requested key mode stream_id s.response_encoding) >>= λ (s', n).
      known s' (find s'.stream_handles stream_id)
        (λ h. event_output (publish_stream_requested h n app key mode stream_id) ∷ [])

  unfoldable pub ask_play : ServerSession V → ℕ → List Byte → List Byte → List V → Ran V (Outputs V)
  unfolding file_request known find
  ask_play s stream_id app key rest =
      let begin = start_at outside.view rest in
      let lasts = duration outside.view rest in
      let resets = reset outside.view rest in
      file_request s (play_requested key stream_id s.response_encoding) >>= λ (s', n).
      known s' (find s'.stream_handles stream_id)
        (λ h. event_output (play_stream_requested h n app key begin lasts resets stream_id) ∷ [])

  abbrev pub publish_mode :
      ServerSession V → ℕ → ℕ → List Byte → List Byte → Option PublishMode → Ran V (Outputs V)
  publish_mode s stream_id transaction_id app key none = refuse_mode s transaction_id stream_id
  publish_mode s stream_id transaction_id app key (some mode) = ask_publish s stream_id app key mode

  abbrev pub publish_view :
      ServerSession V → ℕ → ℕ → List Byte → View V → View V → Ran V (Outputs V)
  publish_view s stream_id transaction_id app (utf8_string key) (utf8_string raw) =
      publish_mode s stream_id transaction_id app key (mode_of raw)
  publish_view s stream_id transaction_id app _ _ = bad_publish s transaction_id stream_id

  abbrev pub publish_app : ServerSession V → ℕ → ℕ → V → V → Option (List Byte) → Ran V (Outputs V)
  publish_app s stream_id transaction_id v w none = early_publish s transaction_id stream_id
  publish_app s stream_id transaction_id v w (some app) =
      publish_view s stream_id transaction_id app (outside.view v) (outside.view w)

  unfoldable pub publish_two : ServerSession V → ℕ → ℕ → V → V → Ran V (Outputs V)
  unfolding refuse refuse_mode ask_publish mode_of find
  publish_two s stream_id transaction_id v w =
      if not (is_connected_state s.current_state)
      then early_publish s transaction_id stream_id
      else if not (is_known (find s.stream_handles stream_id))
      then unknown_stream s transaction_id stream_id
      else publish_app s stream_id transaction_id v w s.connected_app_name

  unfoldable pub handle_command_publish : ServerSession V → ℕ → ℕ → List V → Ran V (Outputs V)
  unfolding refuse publish_two
  handle_command_publish s stream_id transaction_id (v ∷ w ∷ rest) =
      publish_two s stream_id transaction_id v w
  handle_command_publish s stream_id transaction_id _ = bad_publish s transaction_id stream_id

  abbrev pub play_view : ServerSession V → ℕ → ℕ → List Byte → View V → List V → Ran V (Outputs V)
  play_view s stream_id transaction_id app (utf8_string key) rest =
      ask_play s stream_id app key rest
  play_view s stream_id transaction_id app _ rest = bad_play s transaction_id stream_id

  abbrev pub play_app :
      ServerSession V → ℕ → ℕ → V → List V → Option (List Byte) → Ran V (Outputs V)
  play_app s stream_id transaction_id v rest none = early_play s transaction_id stream_id
  play_app s stream_id transaction_id v rest (some app) =
      play_view s stream_id transaction_id app (outside.view v) rest

  unfoldable pub play_one : ServerSession V → ℕ → ℕ → V → List V → Ran V (Outputs V)
  unfolding refuse ask_play find
  play_one s stream_id transaction_id v rest =
      if not (is_connected_state s.current_state)
      then early_play s transaction_id stream_id
      else if not (is_known (find s.stream_handles stream_id))
      then unknown_stream s transaction_id stream_id
      else play_app s stream_id transaction_id v rest s.connected_app_name

  unfoldable pub handle_command_play : ServerSession V → ℕ → ℕ → List V → Ran V (Outputs V)
  unfolding refuse play_one
  handle_command_play s stream_id transaction_id (v ∷ rest) =
      play_one s stream_id transaction_id v rest
  handle_command_play s stream_id transaction_id [] = bad_play s transaction_id stream_id
