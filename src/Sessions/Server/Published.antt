-- ===== src/Sessions/Server/Published.antt =====
-- Which streams are published (src/sessions/server/mod.rs).
use rtmpx.Prelude.{
  none-some, some_eq, ℕ, ◌-◌, ◌^◌, ◌<◌, ◌≡◌, ◌⊎◌, inl, inr, refl, ap, Option, none, some, List,
}
use rtmpx.Prelude.Bytes.{Byte}
use rtmpx.Prelude.Map.{lookup}
use rtmpx.Messages.Message.{AmfEncoding}
use rtmpx.Messages.Total.{IsTotal}
use rtmpx.Sessions.Data.{PublishMode}
use rtmpx.Sessions.Values.{Amf0Object, Outside}
use rtmpx.Sessions.Server.Types.{
  StreamState, created, publishing, playing, completed, ActiveStream, OutstandingRequest,
  connection_request, publish_requested, play_requested, ServerSessionConfig, ServerSession,
}
use rtmpx.Sessions.Server.Decisions.{accept_request_with_properties}
use rtmpx.Sessions.Server.Events.{published_key}
use rtmpx.Sessions.Server.Receive.{receive_round}
use rtmpx.Sessions.Server.Good.{IsGood}
use rtmpx.Sessions.Server.Good.Rounds.{round-Keeps}
use rtmpx.Sessions.Server.Good.Answers.{Approves, accept_request-Keeps}
use rtmpx.Sessions.Server.Safe.{Anyone, Keeps-state, Reachable, Reachable-IsGood}

state_key :
    (state : StreamState) (key : List Byte)
    → published_key (some (record { current_state = state })) ≡ some key
    → (mode : PublishMode) × (state ≡ publishing key mode)
state_key created key same = absurd (none-some key same)
state_key (publishing k mode) key same = (mode, ap (λ x. publishing x mode) (some_eq k key same))
state_key (playing k) key same = absurd (none-some key same)
state_key completed key same = absurd (none-some key same)

-- The stream of this wire id is published under the key.
abbrev pub Published : {V : Type 0} → ServerSession V → ℕ → List Byte → Type 0
Published s wire key = published_key (lookup wire s.active_streams) ≡ some key

-- A request to publish under the key on the stream of this wire id.
abbrev pub Requested : {V : Type 0} → ServerSession V → ℕ → ℕ → List Byte → Type 0
Requested s id wire key =
    (mode : PublishMode) × (encoding : AmfEncoding) × (lookup id s.outstanding_requests
      ≡ some (publish_requested key mode wire encoding))

module _ {V W : Type 0} (outside : Outside V W) (config : ServerSessionConfig)
    (total : IsTotal outside.bodies)
    (usize : config.decoder_limits.maximum_buffered_bytes < 2 ^ 64 - 1) where
  key_of :
      (s : ServerSession V) (wire : ℕ) (stream : ActiveStream) (key : List Byte)
      (mode : PublishMode)
      → lookup wire s.active_streams ≡ some stream
      → stream.current_state ≡ publishing key mode
      → Published s wire key
  key_of s wire stream key mode there state = rw (there, state) refl

  -- The facts again, with what is published now as what may be published.
  published-Good :
      (s : ServerSession V) (Granted : ℕ → List Byte → Type 0)
      → ((wire : ℕ) (key : List Byte) → Published s wire key → Granted wire key)
      → IsGood outside.capacity_of config.decoder_limits Anyone s
      → IsGood outside.capacity_of config.decoder_limits Granted s
  published-Good s Granted allowed good = record {
    known = good.known;
    granted = λ wire stream key mode there state.
        allowed wire key (key_of s wire stream key mode there state);
    distinct = good.distinct;
    filed = good.filed;
    few = good.few;
    u32 = good.u32;
    peer_positive = good.peer_positive;
    self_positive = good.self_positive;
    reached = good.reached;
  }

  granted_key :
      (Granted : ℕ → List Byte → Type 0) (s : ServerSession V) (wire : ℕ) (key : List Byte)
      (o : Option ActiveStream)
      → IsGood outside.capacity_of config.decoder_limits Granted s
      → lookup wire s.active_streams ≡ o
      → published_key o ≡ some key
      → Granted wire key
  granted_key Granted s wire key none good there same = absurd (none-some key same)
  granted_key Granted s wire key (some stream) good there same =
      let (mode, state) = state_key stream.current_state key same in
      good.granted wire stream key mode there state

  -- With an AMF codec that does not panic and the decoder's limit of buffered bytes below 2⁶⁴ - 1: on
  -- any session that a server can come to, a stream that is published after a round of the receive loop, whatever
  -- the input, was published under the same key before it.
  pub receive_round-Published :
      (s : ServerSession V) (input : List Byte) (wire : ℕ) (key : List Byte)
      → Reachable outside config s
      → Published (receive_round outside s input).0 wire key
      → Published s wire key
  receive_round-Published s input wire key r after =
      let s' = (receive_round outside s input).0 in
      granted_key (Published s) s' wire key (lookup wire s'.active_streams)
        (Keeps-state (IsGood outside.capacity_of config.decoder_limits (Published s))
          (receive_round outside s input)
          (round-Keeps outside total config.decoder_limits usize (Published s) s input (
            published-Good s (Published s) (λ _ _ same. same)
              (Reachable-IsGood outside config total usize s r))))
        refl after

  requested_lem :
      (s : ServerSession V) (id : ℕ) (request : OutstandingRequest)
      → lookup id s.outstanding_requests ≡ some request
      → Approves (λ wire key. Published s wire key ⊎ Requested s id wire key) request
  requested_lem s id (connection_request app transaction encoding) there = tt
  requested_lem s id (publish_requested key mode wire encoding) there = inr (mode, encoding, there)
  requested_lem s id (play_requested key wire encoding) there = tt

  -- With an AMF codec that does not panic and the decoder's limit of buffered bytes below 2⁶⁴ - 1: on
  -- any session that a server can come to, a stream that is published after a request was accepted
  -- was published under the same key before, or the request asked for it.
  pub accept_request-Published :
      (s : ServerSession V) (id : ℕ) (properties : Amf0Object V) (wire : ℕ) (key : List Byte)
      → Reachable outside config s
      → Published (accept_request_with_properties outside s id properties).0 wire key
      → Published s wire key ⊎ Requested s id wire key
  accept_request-Published s id properties wire key r after =
      let s' = (accept_request_with_properties outside s id properties).0 in
      let Granted : ℕ → List Byte → Type 0 =
        λ wire key. Published s wire key ⊎ Requested s id wire key in
      granted_key Granted s' wire key (lookup wire s'.active_streams)
        (Keeps-state (IsGood outside.capacity_of config.decoder_limits Granted)
          (accept_request_with_properties outside s id properties)
          (accept_request-Keeps outside total config.decoder_limits Granted s id properties
            (requested_lem s id)
            (published-Good s Granted (λ _ _ same. inl same)
              (Reachable-IsGood outside config total usize s r))))
        refl after
