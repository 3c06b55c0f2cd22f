-- ===== src/Sessions/Server/Good.antt =====
-- What every call on a server session keeps, and the rules for calls (src/sessions/server/mod.rs).
pub mod Sends
pub mod Lives
pub mod Handlers
pub mod Requests
pub mod Inbound
pub mod Rounds
pub mod Answers
pub mod Outbound
use rtmpx.Prelude.{
  ℕ, ◌^◌, ◌<◌, ◌≤◌, ◌≡◌, ◌≢◌, refl, Option, none, some, List, length, Outcome, ok, err, stuck,
  Ensures,
}
use rtmpx.Prelude.Bytes.{Byte}
use rtmpx.Prelude.Map.{Map, IsDistinct, lookup}
use rtmpx.Chunk.Types.{DecoderLimits}
use rtmpx.Chunk.Decoder.{MessageDecoder}
use rtmpx.Chunk.Decoder.Reached.{Reached}
use rtmpx.Messages.Message.{AmfEncoding}
use rtmpx.Messages.Total.{Returns}
use rtmpx.Sessions.Streams.{StreamHandle, Streams, find}
use rtmpx.Sessions.Streams.Wires.{IsFiled}
use rtmpx.Sessions.Data.{PublishMode}
use rtmpx.Sessions.Values.{Outside}
use rtmpx.Sessions.Server.Types.{
  StreamState, publishing, ActiveStream, ServerSession, ServerSessionError,
}
use rtmpx.Sessions.Server.Send.{Ran, ◌>>=◌, call}

-- No window of acknowledgement is 0.
abbrev pub IsWindow : Option ℕ → Type 0
IsWindow none = Unit {0}
IsWindow (some w) = w ≢ 0

-- What the code counts on between the streams, their handles, the ids, the windows and the decoder.
-- A stream is published only under a key that `Granted` allows.
pub record Facts (capacity_of : ℕ → ℕ) (l : DecoderLimits) (Granted : ℕ → List Byte → Type 0)
    (streams : Map ActiveStream) (handles : Streams (Unit {0})) (next : ℕ)
    (peer_window self_window : Option ℕ) (decoder : MessageDecoder) : Type 0 where
  pub known :
      (id : ℕ) (stream : ActiveStream)
      → lookup id streams ≡ some stream
      → (h : StreamHandle) × (find handles id ≡ some h)
  pub granted :
      (id : ℕ) (stream : ActiveStream) (key : List Byte) (mode : PublishMode)
      → lookup id streams ≡ some stream
      → stream.current_state ≡ publishing key mode
      → Granted id key
  pub distinct : IsDistinct streams
  pub filed : IsFiled handles
  pub few : length handles.slots < next
  pub u32 : next < 2 ^ 32
  pub peer_positive : IsWindow peer_window
  pub self_positive : IsWindow self_window
  pub reached : Reached capacity_of l decoder

module _ {V : Type 0} where
  abbrev pub IsGood : (ℕ → ℕ) → DecoderLimits → (ℕ → List Byte → Type 0) → ServerSession V → Type 0
  IsGood capacity_of l Granted s =
      Facts capacity_of l Granted s.active_streams s.stream_handles s.next_stream_id
        s.peer_window_ack_size s.self_window_ack_size s.deserializer

  -- The call returns, and leaves what `I` says, or with a value what `Q` says.
  abbrev pub Ends :
      {A : Type 0} → (ServerSession V → Type 0) → (ServerSession V → A → Type 0) → Ran V A → Type 0
  Ends I Q (s, ok a) = Q s a
  Ends I Q (s, err e) = I s
  Ends I Q (s, stuck) = ⊥

  abbrev pub Keeps : {A : Type 0} → (ServerSession V → Type 0) → Ran V A → Type 0
  Keeps I r = Ends I (λ s a. I s) r

  pub Ends-then :
      {A B : Type 0} (I : ServerSession V → Type 0) (Q : ServerSession V → A → Type 0)
      (R : ServerSession V → B → Type 0) (r : Ran V A) (next : ServerSession V × A → Ran V B)
      → Ends I Q r
      → ((s : ServerSession V) (a : A) → Q s a → Ends I R (next (s, a)))
      → Ends I R (r >>= next)
  unfolding ◌>>=◌
  Ends-then I Q R (s, ok a) next done then = then s a done
  Ends-then I Q R (s, err e) next done then = done
  Ends-then I Q R (s, stuck) next done then = absurd done

  pub Ends-call :
      {A E : Type 0} (I : ServerSession V → Type 0) (Q : ServerSession V → A → Type 0)
      (s : ServerSession V) (convert : E → ServerSessionError) (m : Outcome E A)
      → Returns m
      → I s
      → ((a : A) → m ≡ ok a → Q s a)
      → Ends I Q (call s convert m)
  unfolding call
  Ends-call I Q s convert (ok a) returns i done = done a refl
  Ends-call I Q s convert (err e) returns i done = i
  Ends-call I Q s convert stuck returns i done = returns
