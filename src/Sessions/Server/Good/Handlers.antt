-- ===== src/Sessions/Server/Good/Handlers.antt =====
-- The handlers of commands keep what a session counts on (src/sessions/server/mod.rs).
use rtmpx.Prelude.{
  ℕ, ◌+◌, ◌-◌, ◌%◌, ◌^◌, ◌<◌, ◌≡◌, refl, Bool, true, false, not, Option, none, some, List, [], ◌∷◌,
  length, leb, ok, if◌then◌else◌, arith, Bool-cases, inl, inr,
}
use rtmpx.Prelude.Bytes.{Byte}
use rtmpx.Prelude.Map.{lookup}
use rtmpx.Chunk.Types.{DecoderLimits}
use rtmpx.Messages.Total.{Returns, IsTotal}
use rtmpx.Sessions.Limits.{SessionLimits, check_streams, check_requests}
use rtmpx.Sessions.Values.{Amf0Object, View, number, boolean, utf8_string, object, other, Outside}
use rtmpx.Sessions.Server.Types.{OutstandingRequest, ServerSession}
use rtmpx.Sessions.Server.Send.{Ran, create_success_response}
use rtmpx.Sessions.Server.Commands.{
  Outputs, is_connected_state, file_request, connect_app, connect_object, closed_id, deleted_id,
  close_id, delete_id, with_argument, advance_id, handle_command_connect,
  handle_command_close_stream, handle_command_delete_stream, handle_command_create_stream,
}
use rtmpx.Sessions.Server.Good.{IsGood, Ends, Keeps, Ends-then, Ends-call}
use rtmpx.Sessions.Server.Good.Sends.{send-Keeps}
use rtmpx.Sessions.Server.Good.Lives.{
  advance-Facts, close_stream-Keeps, delete_stream-Keeps, add_stream-Keeps,
}

requests-Returns : (l : SessionLimits) (n : ℕ) → Returns (check_requests l n)
unfolding check_requests
requests-Returns l n = ground arith

streams-Returns : (l : SessionLimits) (n : ℕ) → Returns (check_streams l n)
unfolding check_streams
streams-Returns l n = ground arith

module _ {V W : Type 0} (outside : Outside V W) (total : IsTotal outside.bodies) (l : DecoderLimits)
    (Granted : ℕ → List Byte → Type 0) where
  abbrev Good : ServerSession V → Type 0
  Good = IsGood outside.capacity_of l Granted

  abbrev Kept : {A : Type 0} → ServerSession V → A → Type 0
  Kept s a = Good s

  -- A filed request touches neither streams nor handles.
  pub file_request-Ends :
      (s : ServerSession V) (request : OutstandingRequest)
      → Good s
      → Ends Good
          (λ s' _. Good s' × (s'.stream_handles ≡ s.stream_handles))
          (file_request s request)
  unfolding file_request
  file_request-Ends s request good =
      let s₁ : ServerSession V = record s {
        next_request_number = (s.next_request_number + 1) % 2 ^ 32;
      } in
      Ends-then Good (λ s' _. Good s' × (s'.stream_handles ≡ s.stream_handles))
        (λ s' _. Good s' × (s'.stream_handles ≡ s.stream_handles)) _ _
        (Ends-call Good (λ s' _. Good s' × (s'.stream_handles ≡ s.stream_handles)) s₁ _ _
          (requests-Returns s.session_limits (length s.outstanding_requests)) good
          (λ _ _. (good, refl)))
        λ s' _ kept. kept

  file_request-Keeps :
      (s : ServerSession V) (request : OutstandingRequest)
      → Good s
      → Keeps Good (file_request s request)
  unfolding file_request
  file_request-Keeps s request good =
      Ends-then Good Kept Kept _ _
        (Ends-call Good Kept _ _ _
          (requests-Returns s.session_limits (length s.outstanding_requests)) good (λ _ _. good))
        λ s' _ kept. kept

  connect_app-Keeps :
      (s : ServerSession V) (id : ℕ) (app : Option (List Byte)) (fields : Amf0Object V)
      → Good s
      → Keeps Good (connect_app outside.view s id app fields)
  unfolding connect_app
  connect_app-Keeps s id none fields good = good
  connect_app-Keeps s id (some app) fields good =
      Ends-then Good Kept Kept _ _ (file_request-Keeps _ _ good) λ s' n kept. kept

  connect_object-Keeps :
      (s : ServerSession V) (id : ℕ) (v : View V)
      → Good s
      → Keeps Good (connect_object outside.view s id v)
  unfolding connect_object
  connect_object-Keeps s id (object fields) good = connect_app-Keeps s id _ _ good
  connect_object-Keeps s id (number x) good = good
  connect_object-Keeps s id (boolean b) good = good
  connect_object-Keeps s id (utf8_string text) good = good
  connect_object-Keeps s id other good = good

  pub connect-Keeps :
      (s : ServerSession V) (id : ℕ) (command : V)
      → Good s
      → Keeps Good (handle_command_connect outside s id command)
  unfolding handle_command_connect
  connect-Keeps s id command good = connect_object-Keeps s id (outside.view command) good

  close_id-Keeps :
      (s : ServerSession V) (app : List Byte) (id : Option ℕ)
      → Good s
      → Keeps Good (close_id s app id)
  close_id-Keeps s app none good = good
  close_id-Keeps s app (some id) good =
      close_stream-Keeps outside.capacity_of l Granted s app id (lookup id s.active_streams) refl
        good

  delete_id-Keeps :
      (s : ServerSession V) (app : List Byte) (id : Option ℕ)
      → Good s
      → Keeps Good (delete_id s app id)
  delete_id-Keeps s app none good = good
  delete_id-Keeps s app (some id) good =
      delete_stream-Keeps outside.capacity_of l Granted s app id (lookup id s.active_streams) refl
        good

  -- The guards that closing and deleting share.
  argument-Keeps :
      (s : ServerSession V) (b : Bool) (app : Option (List Byte)) (arguments : List V)
      (f : List Byte → V → Ran V (Outputs V))
      → Good s
      → ((name : List Byte) (v : V) → Keeps Good (f name v))
      → Keeps Good (if b then (s, ok []) else with_argument s app arguments f)
  argument-Keeps s true app arguments f good after = good
  argument-Keeps s false none arguments f good after = good
  argument-Keeps s false (some app) [] f good after = good
  argument-Keeps s false (some app) (v ∷ rest) f good after = after app v

  pub close-Keeps :
      (s : ServerSession V) (arguments : List V)
      → Good s
      → Keeps Good (handle_command_close_stream outside s arguments)
  unfolding handle_command_close_stream
  close-Keeps s arguments good =
      argument-Keeps s (not (is_connected_state s.current_state)) s.connected_app_name arguments _
        good (λ app v. close_id-Keeps s app (closed_id (outside.view v)) good)

  pub delete-Keeps :
      (s : ServerSession V) (arguments : List V)
      → Good s
      → Keeps Good (handle_command_delete_stream outside s arguments)
  unfolding handle_command_delete_stream
  delete-Keeps s arguments good =
      argument-Keeps s (not (is_connected_state s.current_state)) s.connected_app_name arguments _
        good (λ app v. delete_id-Keeps s app (deleted_id (outside.view v)) good)

  -- The id is new: fewer slots than it were ever taken.
  record Advanced (s : ServerSession V) (id : ℕ) : Type 0 where
    good : Good s
    few : length s.stream_handles.slots < id
    low : id < 2 ^ 32 - 1
    next : s.next_stream_id ≡ id + 1

  advance_id-Ends :
      (s : ServerSession V) → Good s → Ends Good Advanced (advance_id outside s s.next_stream_id)
  advance_id-Ends s good = elim (Bool-cases (leb (2 ^ 32 - 1) s.next_stream_id)) [
    | inl greatest ↦ rw greatest good
    | inr lower ↦ rw lower (record {
      good = advance-Facts good (omega (arith, good.few)) (ground (arith, lower));
      few = good.few;
      low = ground (arith, lower);
      next = refl;
    })
  ]

  pub create-Keeps :
      (s : ServerSession V) (id : ℕ)
      → Good s
      → Keeps Good (handle_command_create_stream outside s id)
  unfolding handle_command_create_stream create_success_response
  create-Keeps s id good =
      Ends-then Good Kept Kept _ _
        (Ends-call Good Kept s _ _ (streams-Returns s.session_limits (length s.active_streams)) good
          (λ _ _. good))
        λ s₁ _ good₁. Ends-then Good Advanced Kept _ _ (advance_id-Ends s₁ good₁) λ s₂ new a.
          Ends-then Good Kept Kept _ _
            (add_stream-Keeps outside.capacity_of l Granted s₂ new a.few a.low a.next a.good)
            λ s₃ _ good₃.
              Ends-then Good Kept Kept _ _ (send-Keeps outside total l Granted s₃ _ 0 false good₃)
                λ s₄ packet good₄. good₄
