-- ===== src/Sessions/Server/Good/Answers.antt =====
-- What the application decides of a request keeps what a session counts on
-- (src/sessions/server/mod.rs: accept_request_with_properties and reject_request).
use rtmpx.Prelude.{ℕ, ◌≡◌, refl, false, Option, none, some, List, Bool-cases, inl, inr}
use rtmpx.Prelude.Bytes.{Byte}
use rtmpx.Prelude.Map.{lookup}
use rtmpx.Chunk.Types.{DecoderLimits}
use rtmpx.Messages.Total.{IsTotal}
use rtmpx.Sessions.Data.{PublishMode}
use rtmpx.Sessions.Values.{Amf0Object, Outside}
use rtmpx.Sessions.Server.Types.{
  StreamState, publishing, playing, ActiveStream, OutstandingRequest, connection_request,
  publish_requested, play_requested, Action, ServerSession,
}
use rtmpx.Sessions.Server.Send.{ensure_active}
use rtmpx.Sessions.Server.Decisions.{
  queue, set_stream, take_request, mirror, accept_connection_request, accept_publish_request,
  accept_play_request, accept, accept_request_with_properties, stream_error, reject, reject_request,
}
use rtmpx.Sessions.Server.Good.{IsGood, Ends, Keeps, Ends-then}
use rtmpx.Sessions.Server.Good.Sends.{send-Keeps}
use rtmpx.Sessions.Server.Good.Lives.{Allows, not_publishing, set-Good}
use rtmpx.Sessions.Server.Good.Requests.{error_packet-Keeps}

-- An accepted request allows what it publishes.
abbrev pub Approves : (ℕ → List Byte → Type 0) → OutstandingRequest → Type 0
Approves Granted (connection_request app transaction encoding) = Unit {0}
Approves Granted (publish_requested key mode id encoding) = Granted id key
Approves Granted (play_requested key id encoding) = Unit {0}

playing_other :
    (key : List Byte) (other : List Byte) (mode : PublishMode)
    → playing key ≡ publishing other mode
    → ⊥
playing_other key other mode e = cc

publishing_eq :
    (key other : List Byte) (mode mode' : PublishMode)
    → publishing key mode ≡ publishing other mode'
    → key ≡ other
publishing_eq key other mode mode' e = cc

module _ {V W : Type 0} (outside : Outside V W) (total : IsTotal outside.bodies) (l : DecoderLimits)
    (Granted : ℕ → List Byte → Type 0) where
  abbrev Good : ServerSession V → Type 0
  Good = IsGood outside.capacity_of l Granted

  abbrev Kept : {A : Type 0} → ServerSession V → A → Type 0
  Kept s a = Good s

  -- Only whether the session failed is looked at.
  pub active-Ends : (s : ServerSession V) → Good s → Ends Good (λ s' _. s' ≡ s) (ensure_active s)
  unfolding ensure_active
  active-Ends s good = elim (Bool-cases s.failed) [
    | inl bad ↦ rw bad good
    | inr fine ↦ rw fine refl
  ]

  set_stream-Keeps :
      (s : ServerSession V) (id : ℕ) (state : StreamState) (action : Action)
      (o : Option ActiveStream)
      → lookup id s.active_streams ≡ o
      → Allows Granted id state
      → Good s
      → Keeps Good (set_stream s id state action o)
  unfolding set_stream
  set_stream-Keeps s id state action none there allows good = good
  set_stream-Keeps s id state action (some stream) there allows good =
      set-Good outside.capacity_of l Granted s id stream state good there allows

  accept_connection-Keeps :
      (s : ServerSession V) (app : List Byte) (id : ℕ) (properties : Amf0Object V)
      → Good s
      → Keeps Good (accept_connection_request outside s app id properties)
  unfolding accept_connection_request
  accept_connection-Keeps s app id properties good =
      Ends-then Good Kept Kept _ _ (send-Keeps outside total l Granted _ _ 0 false good)
        λ s' packet kept. kept

  accept_publish-Keeps :
      (s : ServerSession V) (id : ℕ) (key : List Byte) (mode : PublishMode)
      → Granted id key
      → Good s
      → Keeps Good (accept_publish_request outside s id key mode)
  unfolding accept_publish_request
  accept_publish-Keeps s id key mode allowed good =
      Ends-then Good Kept Kept _ _
        (set_stream-Keeps s id _ _ (lookup id s.active_streams) refl
          (λ other mode' same. rw (publishing_eq key other mode mode' same) at allowed) good)
        λ s₁ _ good₁.
          Ends-then Good Kept Kept _ _ (send-Keeps outside total l Granted s₁ _ id false good₁)
            λ s₂ _ good₂.
              Ends-then Good Kept Kept _ _ (send-Keeps outside total l Granted s₂ _ id false good₂)
                λ s₃ _ good₃. good₃

  accept_play-Keeps :
      (s : ServerSession V) (id : ℕ) (key : List Byte)
      → Good s
      → Keeps Good (accept_play_request outside s id key)
  unfolding accept_play_request
  accept_play-Keeps s id key good =
      let next = send-Keeps outside total l Granted in
      Ends-then Good Kept Kept _ _
        (set_stream-Keeps s id _ _ (lookup id s.active_streams) refl
          (not_publishing Granted id (playing key) (playing_other key)) good)
        λ s₁ _ good₁. Ends-then Good Kept Kept _ _ (next s₁ _ id false good₁) λ s₂ _ good₂.
          Ends-then Good Kept Kept _ _ (next s₂ _ id false good₂) λ s₃ _ good₃.
            Ends-then Good Kept Kept _ _ (next s₃ _ id false good₃) λ s₄ _ good₄.
              Ends-then Good Kept Kept _ _ (next s₄ _ id false good₄) λ s₅ _ good₅.
                Ends-then Good Kept Kept _ _ (next s₅ _ id false good₅) λ s₆ _ good₆. good₆

  accept-Keeps :
      (s : ServerSession V) (properties : Amf0Object V) (request : OutstandingRequest)
      → Approves Granted request
      → Good s
      → Keeps Good (accept outside s properties request)
  unfolding accept
  accept-Keeps s properties (connection_request app id encoding) approved good =
      accept_connection-Keeps (mirror s encoding) app id properties good
  accept-Keeps s properties (publish_requested key mode id encoding) approved good =
      accept_publish-Keeps (mirror s encoding) id key mode approved good
  accept-Keeps s properties (play_requested key id encoding) approved good =
      accept_play-Keeps (mirror s encoding) id key good

  -- The request that is taken is the one that was filed.
  take-Ends :
      (s : ServerSession V) (id : ℕ) (o : Option OutstandingRequest)
      → Good s
      → Ends Good (λ s' request. Good s' × (o ≡ some request)) (take_request s id o)
  unfolding take_request
  take-Ends s id none good = good
  take-Ends s id (some request) good = (good, refl)

  pub accept_request-Keeps :
      (s : ServerSession V) (id : ℕ) (properties : Amf0Object V)
      → ((request : OutstandingRequest)
          → lookup id s.outstanding_requests ≡ some request
          → Approves Granted request)
      → Good s
      → Keeps Good (accept_request_with_properties outside s id properties)
  unfolding accept_request_with_properties queue
  accept_request-Keeps s id properties approves good =
      Ends-then Good (λ s' _. s' ≡ s) Kept _ _ (active-Ends s good)
        λ s₁ _ same. rw same (
          Ends-then Good (λ s' request. Good s' × (lookup id s.outstanding_requests ≡ some request))
            Kept _ _ (take-Ends s id (lookup id s.outstanding_requests) good)
            λ s₂ request (good₂, found).
              Ends-then Good Kept Kept _ _
                (accept-Keeps s₂ properties request (approves request found) good₂)
                λ s₃ outputs good₃. good₃)

  stream_error-Keeps :
      (s : ServerSession V) (id : ℕ) (code description : List Byte)
      → Good s
      → Keeps Good (stream_error outside s id code description)
  unfolding stream_error
  stream_error-Keeps s id code description good =
      Ends-then Good Kept Kept _ _ (send-Keeps outside total l Granted s _ id false good)
        λ s' packet kept. kept

  reject-Keeps :
      (s : ServerSession V) (code description : List Byte) (request : OutstandingRequest)
      → Good s
      → Keeps Good (reject outside s code description request)
  unfolding reject
  reject-Keeps s code description (connection_request app id encoding) good =
      Ends-then Good Kept Kept _ _
        (error_packet-Keeps outside total l Granted _ code description id 0 good)
        λ s' packet kept. kept
  reject-Keeps s code description (publish_requested key mode id encoding) good =
      stream_error-Keeps (mirror s encoding) id code description good
  reject-Keeps s code description (play_requested key id encoding) good =
      stream_error-Keeps (mirror s encoding) id code description good

  pub reject_request-Keeps :
      (s : ServerSession V) (id : ℕ) (code description : List Byte)
      → Good s
      → Keeps Good (reject_request outside s id code description)
  unfolding reject_request queue
  reject_request-Keeps s id code description good =
      Ends-then Good (λ s' _. s' ≡ s) Kept _ _ (active-Ends s good)
        λ s₁ _ same. rw same (
          Ends-then Good (λ s' request. Good s' × (lookup id s.outstanding_requests ≡ some request))
            Kept _ _ (take-Ends s id (lookup id s.outstanding_requests) good)
            λ s₂ request (good₂, found).
              Ends-then Good Kept Kept _ _ (reject-Keeps s₂ code description request good₂)
                λ s₃ outputs good₃. good₃)
