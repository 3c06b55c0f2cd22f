-- ===== src/Sessions/Server/Good/Requests.antt =====
-- The handlers of publish and play keep what a session counts on (src/sessions/server/mod.rs).
use rtmpx.Prelude.{
  ℕ, ◌≡◌, ap, ◌∙◌, false, not, Option, none, some, List, [], ◌∷◌, if◌then◌else◌, Bool-cases,
  Option-cases, inl, inr,
}
use rtmpx.Prelude.Bytes.{Byte}
use rtmpx.Chunk.Types.{DecoderLimits}
use rtmpx.Messages.Total.{IsTotal}
use rtmpx.Sessions.Streams.{StreamHandle, find}
use rtmpx.Sessions.Data.{PublishMode}
use rtmpx.Sessions.Values.{View, number, boolean, utf8_string, object, other, Outside}
use rtmpx.Sessions.Server.Types.{ServerSession}
use rtmpx.Sessions.Server.Send.{Ran, create_error_response, create_error_packet}
use rtmpx.Sessions.Server.Commands.{Outputs, is_connected_state, known}
use rtmpx.Sessions.Server.Requests.{
  refuse, refuse_mode, ask_publish, ask_play, is_known, mode_of, publish_mode, publish_view,
  publish_app, publish_two, play_view, play_app, play_one, handle_command_publish,
  handle_command_play,
}
use rtmpx.Sessions.Server.Good.{IsGood, Keeps, Ends-then}
use rtmpx.Sessions.Server.Good.Sends.{send-Keeps}
use rtmpx.Sessions.Server.Good.Handlers.{file_request-Ends}

module _ {V W : Type 0} (outside : Outside V W) (total : IsTotal outside.bodies) (l : DecoderLimits)
    (Granted : ℕ → List Byte → Type 0) where
  abbrev Good : ServerSession V → Type 0
  Good = IsGood outside.capacity_of l Granted

  abbrev Kept : {A : Type 0} → ServerSession V → A → Type 0
  Kept s a = Good s

  pub error_packet-Keeps :
      (s : ServerSession V) (code description : List Byte) (id stream_id : ℕ)
      → Good s
      → Keeps Good (create_error_packet outside s code description id stream_id)
  unfolding create_error_packet create_error_response
  error_packet-Keeps s code description id stream_id good =
      send-Keeps outside total l Granted s _ stream_id false good

  refuse-Keeps :
      (s : ServerSession V) (code description : List Byte) (id stream_id : ℕ)
      → Good s
      → Keeps Good (refuse outside s code description id stream_id)
  unfolding refuse
  refuse-Keeps s code description id stream_id good =
      Ends-then Good Kept Kept _ _ (error_packet-Keeps s code description id stream_id good)
        λ s' packet kept. kept

  refuse_mode-Keeps :
      (s : ServerSession V) (id stream_id : ℕ)
      → Good s
      → Keeps Good (refuse_mode outside s id stream_id)
  unfolding refuse_mode create_error_response
  refuse_mode-Keeps s id stream_id good =
      Ends-then Good Kept Kept _ _ (send-Keeps outside total l Granted s _ stream_id false good)
        λ s' packet kept. kept

  -- The handle is known, so no `expect` panics.
  pub found-Keeps :
      {A : Type 0} (s : ServerSession V) (o : Option StreamHandle) (h : StreamHandle)
      (f : StreamHandle → A)
      → o ≡ some h
      → Good s
      → Keeps Good (known s o f)
  unfolding known
  found-Keeps s o h f found good = rw found good

  known-Keeps :
      {A : Type 0} (s s' : ServerSession V) (stream_id : ℕ) (h : StreamHandle)
      (f : StreamHandle → A)
      → find s.stream_handles stream_id ≡ some h
      → Good s' × (s'.stream_handles ≡ s.stream_handles)
      → Keeps Good (known s' (find s'.stream_handles stream_id) f)
  known-Keeps s s' stream_id h f found (good, same) =
      found-Keeps s' (find s'.stream_handles stream_id) h f
        (ap (λ handles. find handles stream_id) same ∙ found) good

  ask_publish-Keeps :
      (s : ServerSession V) (stream_id : ℕ) (app key : List Byte) (mode : PublishMode)
      (h : StreamHandle)
      → find s.stream_handles stream_id ≡ some h
      → Good s
      → Keeps Good (ask_publish outside s stream_id app key mode)
  unfolding ask_publish
  ask_publish-Keeps s stream_id app key mode h found good =
      Ends-then Good (λ s' _. Good s' × (s'.stream_handles ≡ s.stream_handles)) Kept _ _
        (file_request-Ends outside total l Granted s _ good)
        λ s' n kept. known-Keeps s s' stream_id h _ found kept

  ask_play-Keeps :
      (s : ServerSession V) (stream_id : ℕ) (app key : List Byte) (rest : List V) (h : StreamHandle)
      → find s.stream_handles stream_id ≡ some h
      → Good s
      → Keeps Good (ask_play outside s stream_id app key rest)
  unfolding ask_play
  ask_play-Keeps s stream_id app key rest h found good =
      Ends-then Good (λ s' _. Good s' × (s'.stream_handles ≡ s.stream_handles)) Kept _ _
        (file_request-Ends outside total l Granted s _ good)
        λ s' n kept. known-Keeps s s' stream_id h _ found kept

  publish_mode-Keeps :
      (s : ServerSession V) (stream_id id : ℕ) (app key : List Byte) (mode : Option PublishMode)
      (h : StreamHandle)
      → find s.stream_handles stream_id ≡ some h
      → Good s
      → Keeps Good (publish_mode outside s stream_id id app key mode)
  publish_mode-Keeps s stream_id id app key none h found good =
      refuse_mode-Keeps s id stream_id good
  publish_mode-Keeps s stream_id id app key (some mode) h found good =
      ask_publish-Keeps s stream_id app key mode h found good

  publish_view-Keeps :
      (s : ServerSession V) (stream_id id : ℕ) (app : List Byte) (v w : View V) (h : StreamHandle)
      → find s.stream_handles stream_id ≡ some h
      → Good s
      → Keeps Good (publish_view outside s stream_id id app v w)
  publish_view-Keeps s stream_id id app (utf8_string key) (utf8_string raw) h found good =
      publish_mode-Keeps s stream_id id app key (mode_of raw) h found good
  publish_view-Keeps s stream_id id app (utf8_string key) (number x) h found good =
      refuse-Keeps s _ _ id stream_id good
  publish_view-Keeps s stream_id id app (utf8_string key) (boolean b) h found good =
      refuse-Keeps s _ _ id stream_id good
  publish_view-Keeps s stream_id id app (utf8_string key) (object fields) h found good =
      refuse-Keeps s _ _ id stream_id good
  publish_view-Keeps s stream_id id app (utf8_string key) other h found good =
      refuse-Keeps s _ _ id stream_id good
  publish_view-Keeps s stream_id id app (number x) w h found good =
      refuse-Keeps s _ _ id stream_id good
  publish_view-Keeps s stream_id id app (boolean b) w h found good =
      refuse-Keeps s _ _ id stream_id good
  publish_view-Keeps s stream_id id app (object fields) w h found good =
      refuse-Keeps s _ _ id stream_id good
  publish_view-Keeps s stream_id id app other w h found good = refuse-Keeps s _ _ id stream_id good

  -- The guards that publishing and playing share: connected, the stream known, an app name.
  guarded-Keeps :
      (s : ServerSession V) (stream_id : ℕ) (early unknown : Ran V (Outputs V))
      (f : Option (List Byte) → Ran V (Outputs V))
      → Keeps Good early
      → Keeps Good unknown
      → ((h : StreamHandle)
          → find s.stream_handles stream_id ≡ some h
          → (app : Option (List Byte)) → Keeps Good (f app))
      → Keeps Good (
          if not (is_connected_state s.current_state)
          then early
          else if not (is_known (find s.stream_handles stream_id))
          then unknown
          else f s.connected_app_name)
  guarded-Keeps s stream_id early unknown f one two after =
      elim (Bool-cases (is_connected_state s.current_state)) [
        | inr apart ↦ rw apart one
        | inl joined ↦ rw joined (elim (Option-cases (find s.stream_handles stream_id)) [
          | inl absent ↦ rw absent two
          | inr (h, found) ↦ rw found (after h found s.connected_app_name)
        ])
      ]

  publish_app-Keeps :
      (s : ServerSession V) (stream_id id : ℕ) (v w : V) (app : Option (List Byte))
      (h : StreamHandle)
      → find s.stream_handles stream_id ≡ some h
      → Good s
      → Keeps Good (publish_app outside s stream_id id v w app)
  publish_app-Keeps s stream_id id v w none h found good = refuse-Keeps s _ _ id stream_id good
  publish_app-Keeps s stream_id id v w (some app) h found good =
      publish_view-Keeps s stream_id id app (outside.view v) (outside.view w) h found good

  publish_two-Keeps :
      (s : ServerSession V) (stream_id id : ℕ) (v w : V)
      → Good s
      → Keeps Good (publish_two outside s stream_id id v w)
  unfolding publish_two
  publish_two-Keeps s stream_id id v w good =
      guarded-Keeps s stream_id _ _ (publish_app outside s stream_id id v w)
        (refuse-Keeps s _ _ id stream_id good) (refuse-Keeps s _ _ id stream_id good)
        λ h found app. publish_app-Keeps s stream_id id v w app h found good

  pub publish-Keeps :
      (s : ServerSession V) (stream_id id : ℕ) (arguments : List V)
      → Good s
      → Keeps Good (handle_command_publish outside s stream_id id arguments)
  unfolding handle_command_publish
  publish-Keeps s stream_id id [] good = refuse-Keeps s _ _ id stream_id good
  publish-Keeps s stream_id id (v ∷ []) good = refuse-Keeps s _ _ id stream_id good
  publish-Keeps s stream_id id (v ∷ w ∷ rest) good = publish_two-Keeps s stream_id id v w good

  play_view-Keeps :
      (s : ServerSession V) (stream_id id : ℕ) (app : List Byte) (v : View V) (rest : List V)
      (h : StreamHandle)
      → find s.stream_handles stream_id ≡ some h
      → Good s
      → Keeps Good (play_view outside s stream_id id app v rest)
  play_view-Keeps s stream_id id app (utf8_string key) rest h found good =
      ask_play-Keeps s stream_id app key rest h found good
  play_view-Keeps s stream_id id app (number x) rest h found good =
      refuse-Keeps s _ _ id stream_id good
  play_view-Keeps s stream_id id app (boolean b) rest h found good =
      refuse-Keeps s _ _ id stream_id good
  play_view-Keeps s stream_id id app (object fields) rest h found good =
      refuse-Keeps s _ _ id stream_id good
  play_view-Keeps s stream_id id app other rest h found good = refuse-Keeps s _ _ id stream_id good

  play_app-Keeps :
      (s : ServerSession V) (stream_id id : ℕ) (v : V) (rest : List V) (app : Option (List Byte))
      (h : StreamHandle)
      → find s.stream_handles stream_id ≡ some h
      → Good s
      → Keeps Good (play_app outside s stream_id id v rest app)
  play_app-Keeps s stream_id id v rest none h found good = refuse-Keeps s _ _ id stream_id good
  play_app-Keeps s stream_id id v rest (some app) h found good =
      play_view-Keeps s stream_id id app (outside.view v) rest h found good

  play_one-Keeps :
      (s : ServerSession V) (stream_id id : ℕ) (v : V) (rest : List V)
      → Good s
      → Keeps Good (play_one outside s stream_id id v rest)
  unfolding play_one
  play_one-Keeps s stream_id id v rest good =
      guarded-Keeps s stream_id _ _ (play_app outside s stream_id id v rest)
        (refuse-Keeps s _ _ id stream_id good) (refuse-Keeps s _ _ id stream_id good)
        λ h found app. play_app-Keeps s stream_id id v rest app h found good

  pub play-Keeps :
      (s : ServerSession V) (stream_id id : ℕ) (arguments : List V)
      → Good s
      → Keeps Good (handle_command_play outside s stream_id id arguments)
  unfolding handle_command_play
  play-Keeps s stream_id id [] good = refuse-Keeps s _ _ id stream_id good
  play-Keeps s stream_id id (v ∷ rest) good = play_one-Keeps s stream_id id v rest good
