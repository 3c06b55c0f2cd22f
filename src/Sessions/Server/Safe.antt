-- ===== src/Sessions/Server/Safe.antt =====
-- Server sessions that calls lead to (src/sessions/server/mod.rs).
use rtmpx.Prelude.{
  none-some, ℕ, ◌-◌, ◌^◌, ◌<◌, ◌≡◌, ◌≢◌, Bool, true, false, some, List, ◌==◌, ◌||◌, ltb, Outcome,
  ok, err, stuck, ensures_then, arith, Bool-cases, inl, inr,
}
use rtmpx.Prelude.Bytes.{Byte}
use rtmpx.Prelude.Map.{lookup}
use rtmpx.Time.{RtmpTimestamp}
use rtmpx.Payload.{Payload, from_bytes}
use rtmpx.Messages.Raw.{RawMessage, map_data}
use rtmpx.Messages.Message
use rtmpx.Messages.Message.{RtmpMessage, MessageSerializationError}
use rtmpx.Messages.Convert.{from_rtmp_message}
use rtmpx.Messages.Total.{Returns, IsTotal}
use rtmpx.Chunk.Encoder
use rtmpx.Chunk.Encoder.{ChunkEncoder, EncodeOptions, Packet, never, full_headers, encode}
use rtmpx.Chunk.Encoder.Resize.{created, set_chunk_size}
use rtmpx.Chunk.Decoder.{with_limits}
use rtmpx.Chunk.Decoder.Reached.{reached_new}
use rtmpx.Sessions.Streams.{StreamHandle, find}
use rtmpx.Sessions.Values.{Amf0Object, Outside}
use rtmpx.Sessions.Server.Types.{
  ActiveStream, OutstandingRequest, connection_request, publish_requested, play_requested,
  ServerSessionConfig, ServerSession,
}
use rtmpx.Sessions.Server.Send.{Ran, ◌>>=◌, send}
use rtmpx.Sessions.Server.Decisions.{accept_request_with_properties, reject_request}
use rtmpx.Sessions.Server.Receive.{pop, receive_round, settle_failure}
use rtmpx.Sessions.Server.Output.{
  stream_id, send_media, send_ping_request, complete_playback, on_bw_done, blank, new,
}
use rtmpx.Sessions.Server.Good.{IsGood, Ends, Keeps, Ends-then, Ends-call}
use rtmpx.Sessions.Server.Good.Sends.{from_rtmp_message-Returns, encode-Returns, send-Keeps}
use rtmpx.Sessions.Server.Good.Rounds.{pop-Keeps, round-Keeps}
use rtmpx.Sessions.Server.Good.Answers.{Approves, accept_request-Keeps, reject_request-Keeps}
use rtmpx.Sessions.Server.Good.Outbound.{send_media-Keeps, ping-Keeps, complete-Keeps}

-- Any stream may be published.
abbrev pub Anyone : ℕ → List Byte → Type 0
Anyone id key = Unit {0}

Approves-Anyone : (request : OutstandingRequest) → Approves Anyone request
Approves-Anyone (connection_request app transaction encoding) = tt
Approves-Anyone (publish_requested key mode id encoding) = tt
Approves-Anyone (play_requested key id encoding) = tt

module _ {V : Type 0} where
  pub Keeps-state : {A : Type 0} (I : ServerSession V → Type 0) (r : Ran V A) → Keeps I r → I r.0
  Keeps-state I (s, ok a) kept = kept
  Keeps-state I (s, err e) kept = kept
  Keeps-state I (s, stuck) kept = absurd kept

  Keeps-Returns :
      {A : Type 0} (I : ServerSession V → Type 0) (r : Ran V A) → Keeps I r → Returns r.1
  Keeps-Returns I (s, ok a) kept = tt
  Keeps-Returns I (s, err e) kept = tt
  Keeps-Returns I (s, stuck) kept = kept

module _ {V W : Type 0} (outside : Outside V W) (config : ServerSessionConfig) where
  -- The sessions that a server can come to, whatever its peer sends and its application calls. An
  -- error of a round ends the session.
  pub data Reachable : ServerSession V → Type 0 where
    reach_new :
        {s : ServerSession V} (number : ℕ) → new outside config number ≡ (s, ok tt) → Reachable s
    reach_pop : {s : ServerSession V} → Reachable s → Reachable (pop s).0
    reach_round :
        {s : ServerSession V} (input : List Byte)
        → Reachable s
        → Reachable (settle_failure outside (receive_round outside s input)).0
    reach_accept :
        {s : ServerSession V} (id : ℕ) (properties : Amf0Object V)
        → Reachable s
        → Reachable (accept_request_with_properties outside s id properties).0
    reach_reject :
        {s : ServerSession V} (id : ℕ) (code description : List Byte)
        → Reachable s
        → Reachable (reject_request outside s id code description).0
    reach_media :
        {s : ServerSession V} (h : StreamHandle) (kind : ℕ) (body : Payload) (time : RtmpTimestamp)
        (options : EncodeOptions)
        → Reachable s
        → Reachable (send_media s h kind body time options).0
    reach_ping : {s : ServerSession V} → Reachable s → Reachable (send_ping_request outside s).0
    reach_complete :
        {s : ServerSession V} (h : StreamHandle)
        → Reachable s
        → Reachable (complete_playback outside s h).0

module _ {V W : Type 0} (outside : Outside V W) (config : ServerSessionConfig)
    (total : IsTotal outside.bodies)
    (usize : config.decoder_limits.maximum_buffered_bytes < 2 ^ 64 - 1) where
  abbrev Good : ServerSession V → Type 0
  Good = IsGood outside.capacity_of config.decoder_limits Anyone

  abbrev Kept : {A : Type 0} → ServerSession V → A → Type 0
  Kept s a = Good s

  settled-Good : {A : Type 0} (r : Ran V A) → Keeps Good r → Good (settle_failure outside r).0
  unfolding settle_failure
  settled-Good (s, ok a) kept = kept
  settled-Good (s, err e) kept = kept
  settled-Good (s, stuck) kept = absurd kept

  created-Returns :
      (m : Outcome MessageSerializationError (RawMessage (List Byte)))
      → Returns m
      → Returns (created m)
  created-Returns (ok raw) returns = tt
  created-Returns (err e) returns = tt
  created-Returns stuck returns = returns

  set_chunk_size-Returns :
      (e : ChunkEncoder) (size : ℕ) (time : RtmpTimestamp)
      → Returns (set_chunk_size outside.bodies e size time)
  unfolding set_chunk_size
  set_chunk_size-Returns e size time = elim (Bool-cases (size == 0 || ltb 0x7fff_ffff size)) [
    | inl bad ↦ rw bad tt
    | inr fine ↦
        let message : RtmpMessage V W = Message.set_chunk_size size in
        let made = from_rtmp_message outside.bodies message time 0 in
        let options : EncodeOptions = record { drop_policy = never; headers = full_headers } in
        rw fine (
          ensures_then (λ _. Unit {0}) (created made) _
            (created-Returns made (from_rtmp_message-Returns outside.bodies total message time 0))
            λ raw _.
              ensures_then (λ _. Unit {0}) (encode e (map_data from_bytes raw) options) _
                (encode-Returns e (map_data from_bytes raw) options) λ r _. tt)
  ]

  -- An error of `new` leaves no session.
  abbrev Any : ServerSession V → Type 0
  Any s = Unit {0}

  Keeps-Ends : {A : Type 0} (r : Ran V A) → Keeps Good r → Ends Any Kept r
  Keeps-Ends (s, ok a) kept = kept
  Keeps-Ends (s, err e) kept = tt
  Keeps-Ends (s, stuck) kept = kept

  send-Ends :
      (s : ServerSession V) (m : RtmpMessage V W) (full : Bool)
      → Good s
      → Ends Any Kept (send outside s m 0 full)
  send-Ends s m full good =
      Keeps-Ends (send outside s m 0 full)
        (send-Keeps outside total config.decoder_limits Anyone s m 0 full good)

  bw_done-Ends : (s : ServerSession V) (b : Bool) → Good s → Ends Any Kept (on_bw_done outside s b)
  bw_done-Ends s false good = good
  bw_done-Ends s true good =
      Ends-then Any Kept Kept _ _ (send-Ends s _ true good) λ s' packet kept. kept

  blank-Good : (number : ℕ) → config.window_ack_size ≢ 0 → Good (blank outside config number)
  unfolding find lookup with_limits
  blank-Good number positive = record {
    known = λ id stream there. absurd (none-some stream there);
    granted = λ id stream key mode there state. tt;
    distinct = tt;
    filed = record { distinct = tt; filed = λ wire h found. absurd (none-some h found) };
    few = omega arith;
    u32 = omega arith;
    peer_positive = tt;
    self_positive = positive;
    reached = reached_new;
  }

  new-Ends : (number : ℕ) → Ends Any Kept (new outside config number)
  unfolding new ◌>>=◌
  new-Ends number = elim (Bool-cases (config.window_ack_size == 0)) [
    | inl empty ↦ rw empty tt
    | inr positive ↦
        let good = blank-Good number (λ e. absurd (ground (arith, e, positive))) in
        rw positive (
          Ends-then Any Kept Kept _ _
            (Ends-call Any Kept (blank outside config number) _ _
              (set_chunk_size-Returns Encoder.new config.chunk_size (record { value = 0 })) tt
              (λ _ _. good))
            λ s₁ r good₁. Ends-then Any Kept Kept _ _ (send-Ends _ _ true good₁) λ s₃ window good₃.
              Ends-then Any Kept Kept _ _ (send-Ends s₃ _ true good₃) λ s₄ begin good₄.
                Ends-then Any Kept Kept _ _ (send-Ends s₄ _ true good₄) λ s₅ bandwidth good₅.
                  Ends-then Any Kept Kept _ _
                    (bw_done-Ends s₅ config.send_on_bw_done_message_on_start good₅)
                    λ s₆ done good₆. good₆)
  ]

  pub Reachable-IsGood : (s : ServerSession V) → Reachable outside config s → Good s
  Reachable-IsGood _ (reach_new {s} number made) = rw made at (new-Ends number)
  Reachable-IsGood _ (reach_pop {s} r) =
      pop-Keeps outside total config.decoder_limits usize Anyone s (Reachable-IsGood s r)
  Reachable-IsGood _ (reach_round {s} input r) =
      settled-Good (receive_round outside s input) (
        round-Keeps outside total config.decoder_limits usize Anyone s input (Reachable-IsGood s r))
  Reachable-IsGood _ (reach_accept {s} id properties r) =
      Keeps-state Good (accept_request_with_properties outside s id properties) (
        accept_request-Keeps outside total config.decoder_limits Anyone s id properties
          (λ request _. Approves-Anyone request) (Reachable-IsGood s r))
  Reachable-IsGood _ (reach_reject {s} id code description r) =
      Keeps-state Good (reject_request outside s id code description) (
        reject_request-Keeps outside total config.decoder_limits Anyone s id code description
          (Reachable-IsGood s r))
  Reachable-IsGood _ (reach_media {s} h kind body time options r) =
      Keeps-state Good (send_media s h kind body time options) (
        send_media-Keeps outside total config.decoder_limits Anyone s h kind body time options
          (Reachable-IsGood s r))
  Reachable-IsGood _ (reach_ping {s} r) =
      Keeps-state Good (send_ping_request outside s)
        (ping-Keeps outside total config.decoder_limits Anyone s (Reachable-IsGood s r))
  Reachable-IsGood _ (reach_complete {s} h r) =
      Keeps-state Good (complete_playback outside s h)
        (complete-Keeps outside total config.decoder_limits Anyone s h (Reachable-IsGood s r))

  -- With an AMF codec that does not panic and the decoder's limit of buffered bytes below 2⁶⁴ - 1: on
  -- any session that a server can come to, a round of the receive loop on any input, accepting and
  -- rejecting any request, sending media or a ping and completing a playback do not panic.
  pub Reachable-Returns :
      (s : ServerSession V) (input : List Byte) (id : ℕ) (properties : Amf0Object V)
      (code description : List Byte) (h : StreamHandle) (kind : ℕ) (body : Payload)
      (time : RtmpTimestamp) (options : EncodeOptions)
      → Reachable outside config s
      → Returns (receive_round outside s input).1
        × Returns (accept_request_with_properties outside s id properties).1
        × Returns (reject_request outside s id code description).1
        × Returns (send_media s h kind body time options).1
        × Returns (send_ping_request outside s).1
        × Returns (complete_playback outside s h).1
  Reachable-Returns s input id properties code description h kind body time options r =
      let good = Reachable-IsGood s r in
      let limits = config.decoder_limits in
      (
        Keeps-Returns Good (receive_round outside s input)
            (round-Keeps outside total limits usize Anyone s input good),
        Keeps-Returns Good (accept_request_with_properties outside s id properties) (
            accept_request-Keeps outside total limits Anyone s id properties
              (λ request _. Approves-Anyone request) good),
        Keeps-Returns Good (reject_request outside s id code description)
            (reject_request-Keeps outside total limits Anyone s id code description good),
        Keeps-Returns Good (send_media s h kind body time options)
            (send_media-Keeps outside total limits Anyone s h kind body time options good),
        Keeps-Returns Good (send_ping_request outside s)
            (ping-Keeps outside total limits Anyone s good),
        Keeps-Returns Good (complete_playback outside s h)
            (complete-Keeps outside total limits Anyone s h good),
      )

  -- With an AMF codec that does not panic and the decoder's limit of buffered bytes below 2⁶⁴ - 1: on
  -- any session that a server can come to, the wire id of a stream that is there finds a handle, and
  -- the handle's id is this wire id.
  pub Reachable-stream_id :
      (s : ServerSession V) (wire : ℕ) (stream : ActiveStream)
      → Reachable outside config s
      → lookup wire s.active_streams ≡ some stream
      → (h : StreamHandle) × (find s.stream_handles wire ≡ some h) × (stream_id s h ≡ some wire)
  unfolding stream_id
  Reachable-stream_id s wire stream r there =
      let good = Reachable-IsGood s r in
      let (h, found) = good.known wire stream there in
      let n = good.filed.filed wire h found in (h, found, rw n.live n.named)
