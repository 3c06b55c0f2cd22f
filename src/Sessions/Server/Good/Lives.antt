-- ===== src/Sessions/Server/Good/Lives.antt =====
-- Opening, changing and deleting streams keeps what a session counts on (src/sessions/server/mod.rs).
use rtmpx.Prelude.{
  none-some, some_eq, ℕ, ◌+◌, ◌-◌, ◌^◌, ◌<◌, ◌≡◌, ◌≢◌, refl, sym, ap, ◌∙◌, Option, none, some, List,
  length, arith, ℕ_discrete,
}
use rtmpx.Prelude.Bytes.{Byte}
use rtmpx.Prelude.Map
use rtmpx.Prelude.Map.{
  Map, lookup, lookup-insert_self, lookup-insert_ne, lookup-remove_ne, lookup-remove_self,
  insert-IsDistinct, remove-IsDistinct,
}
use rtmpx.Chunk.Types.{DecoderLimits}
use rtmpx.Chunk.Decoder.{MessageDecoder}
use rtmpx.Chunk.Decoder.Reached.{Reached}
use rtmpx.Sessions.Streams as Registry
use rtmpx.Sessions.Streams.{StreamHandle, Streams, find}
use rtmpx.Sessions.Streams.Wires.{IsFiled, insert-Inserted, remove-Removed}
use rtmpx.Sessions.Data.{PublishMode}
use rtmpx.Sessions.Server.Types.{
  StreamState, created, publishing, playing, completed, ActiveStream, ServerSession,
}
use rtmpx.Sessions.Server.Send.{◌>>=◌, call}
use rtmpx.Sessions.Server.Commands.{
  known, finished, close_stream, delete_stream, withdraw, add_stream,
}
use rtmpx.Sessions.Server.Good.{Facts, IsWindow, IsGood, Ends, Keeps, Ends-then}

-- What the published streams of a state may be.
abbrev pub Allows : (ℕ → List Byte → Type 0) → ℕ → StreamState → Type 0
Allows Granted id state =
    (key : List Byte) (mode : PublishMode) → state ≡ publishing key mode → Granted id key

pub not_publishing :
    (Granted : ℕ → List Byte → Type 0) (id : ℕ) (state : StreamState)
    → ((key : List Byte) (mode : PublishMode) → state ≢ publishing key mode)
    → Allows Granted id state
not_publishing Granted id state other key mode same = absurd (other key mode same)

pub created_other : (key : List Byte) (mode : PublishMode) → created ≢ publishing key mode
created_other key mode = λ e. cc

module _ {capacity_of : ℕ → ℕ} {l : DecoderLimits} {Granted : ℕ → List Byte → Type 0}
    {streams : Map ActiveStream} {handles : Streams (Unit {0})} {next : ℕ}
    {peer_window self_window : Option ℕ} {decoder : MessageDecoder} where
  -- An entry for an id whose handle is known.
  pub put-Facts :
      (id : ℕ) (stream : ActiveStream) (handles' : Streams (Unit {0})) (next' : ℕ)
      → Facts capacity_of l Granted streams handles next peer_window self_window decoder
      → Allows Granted id stream.current_state
      → (h : StreamHandle) × (find handles' id ≡ some h)
      → ((other : ℕ) → id ≢ other → find handles' other ≡ find handles other)
      → IsFiled handles'
      → length handles'.slots < next'
      → next' < 2 ^ 32
      → Facts capacity_of l Granted
          (Map.insert id stream streams)
          handles'
          next'
          peer_window
          self_window
          decoder
  put-Facts id stream handles' next' f allows here elsewhere filed few u32 = record {
    known = λ other x there. elim (ℕ_discrete id other) [
      | yes same ↦ rw (sym same) here
      | no ne ↦
          rw (elsewhere other ne)
            (f.known other x (sym (lookup-insert_ne id other stream streams ne) ∙ there))
    ];
    granted = λ other x key mode there state. elim (ℕ_discrete id other) [
      | yes same ↦
          rw (sym same) (allows key mode (same_state id other x stream key mode same there state))
      | no ne ↦
          f.granted other x key mode (sym (lookup-insert_ne id other stream streams ne) ∙ there)
            state
    ];
    distinct = insert-IsDistinct id stream streams f.distinct;
    filed = filed;
    few = few;
    u32 = u32;
    peer_positive = f.peer_positive;
    self_positive = f.self_positive;
    reached = f.reached;
  }
    where
      same_state :
          (id other : ℕ) (x stream : ActiveStream) (key : List Byte) (mode : PublishMode)
          → id ≡ other
          → lookup other (Map.insert id stream streams) ≡ some x
          → x.current_state ≡ publishing key mode
          → stream.current_state ≡ publishing key mode
      same_state id other x stream key mode same there state =
          let found : some stream ≡ some x =
            sym (lookup-insert_self id stream streams)
            ∙ (ap (λ k. lookup k (Map.insert id stream streams)) same ∙ there) in
          rw (some_eq stream x found) state

  -- Another bound of the ids.
  pub advance-Facts :
      {next' : ℕ}
      → Facts capacity_of l Granted streams handles next peer_window self_window decoder
      → length handles.slots < next'
      → next' < 2 ^ 32
      → Facts capacity_of l Granted streams handles next' peer_window self_window decoder
  advance-Facts f few u32 = record {
    known = f.known;
    granted = f.granted;
    distinct = f.distinct;
    filed = f.filed;
    few = few;
    u32 = u32;
    peer_positive = f.peer_positive;
    self_positive = f.self_positive;
    reached = f.reached;
  }

  -- Another window of the peer, another state of the decoder.
  pub receiving-Facts :
      {peer_window' : Option ℕ} {decoder' : MessageDecoder}
      → Facts capacity_of l Granted streams handles next peer_window self_window decoder
      → IsWindow peer_window'
      → Reached capacity_of l decoder'
      → Facts capacity_of l Granted streams handles next peer_window' self_window decoder'
  receiving-Facts f positive reached = record {
    known = f.known;
    granted = f.granted;
    distinct = f.distinct;
    filed = f.filed;
    few = f.few;
    u32 = f.u32;
    peer_positive = positive;
    self_positive = f.self_positive;
    reached = reached;
  }

  -- A stream and its handle are gone.
  pub drop-Facts :
      (id : ℕ) (handles' : Streams (Unit {0}))
      → Facts capacity_of l Granted streams handles next peer_window self_window decoder
      → ((other : ℕ) → id ≢ other → find handles' other ≡ find handles other)
      → IsFiled handles'
      → length handles'.slots ≡ length handles.slots
      → Facts capacity_of l Granted
          (Map.remove id streams)
          handles'
          next
          peer_window
          self_window
          decoder
  drop-Facts id handles' f elsewhere filed slots = record {
    known = λ other x there. elim (ℕ_discrete id other) [
      | yes same ↦ absurd (gone other x same there)
      | no ne ↦
          rw (elsewhere other ne)
            (f.known other x (sym (lookup-remove_ne id other streams ne) ∙ there))
    ];
    granted = λ other x key mode there state. elim (ℕ_discrete id other) [
      | yes same ↦ absurd (gone other x same there)
      | no ne ↦
          f.granted other x key mode (sym (lookup-remove_ne id other streams ne) ∙ there) state
    ];
    distinct = remove-IsDistinct id streams f.distinct;
    filed = filed;
    few = rw slots f.few;
    u32 = f.u32;
    peer_positive = f.peer_positive;
    self_positive = f.self_positive;
    reached = f.reached;
  }
    where
      gone :
          (other : ℕ) (x : ActiveStream)
          → id ≡ other
          → lookup other (Map.remove id streams) ≡ some x
          → ⊥
      gone other x same there = none-some x (
          sym (lookup-remove_self id streams f.distinct)
          ∙ (ap (λ k. lookup k (Map.remove id streams)) same ∙ there))

module _ {V : Type 0} (capacity_of : ℕ → ℕ) (l : DecoderLimits)
    (Granted : ℕ → List Byte → Type 0) where
  abbrev Good : ServerSession V → Type 0
  Good = IsGood capacity_of l Granted

  -- A stream that is there gets another state.
  pub set-Good :
      (s : ServerSession V) (id : ℕ) (stream : ActiveStream) (state : StreamState)
      → Good s
      → lookup id s.active_streams ≡ some stream
      → Allows Granted id state
      → Good (record s {
        active_streams = Map.insert id (record { current_state = state }) s.active_streams;
      })
  set-Good s id stream state good there allows =
      put-Facts id (record { current_state = state }) s.stream_handles s.next_stream_id good allows
        (good.known id stream there) (λ _ _. refl) good.filed good.few good.u32

  -- The event of a stream that ends finds its handle.
  pub finished-Ends :
      (s : ServerSession V) (app : List Byte) (id : ℕ) (state : StreamState) (h : StreamHandle)
      → find s.stream_handles id ≡ some h
      → Ends Good (λ s' _. s' ≡ s) (finished s app id state)
  unfolding finished known
  finished-Ends s app id created h found = refl
  finished-Ends s app id (publishing key mode) h found = rw found refl
  finished-Ends s app id (playing key) h found = rw found refl
  finished-Ends s app id completed h found = refl

  pub close_stream-Keeps :
      (s : ServerSession V) (app : List Byte) (id : ℕ) (o : Option ActiveStream)
      → lookup id s.active_streams ≡ o
      → Good s
      → Keeps Good (close_stream s app id o)
  unfolding close_stream
  close_stream-Keeps s app id none there good = good
  close_stream-Keeps s app id (some stream) there good =
      let (h, found) = good.known id stream there in
      Ends-then Good (λ s' _. s' ≡ s) (λ s' _. Good s') (finished s app id stream.current_state) _
        (finished-Ends s app id stream.current_state h found)
        λ s' outputs same. rw same (
          set-Good s id stream created good there (not_publishing Granted id created created_other))

  pub delete_stream-Keeps :
      (s : ServerSession V) (app : List Byte) (id : ℕ) (o : Option ActiveStream)
      → lookup id s.active_streams ≡ o
      → Good s
      → Keeps Good (delete_stream s app id o)
  unfolding delete_stream
  delete_stream-Keeps s app id none there good = good
  delete_stream-Keeps s app id (some stream) there good =
      let (h, found) = good.known id stream there in
      let s₁ : ServerSession V = record s {
        active_streams = Map.remove id s.active_streams;
        outstanding_requests = withdraw id s.outstanding_requests;
      } in
      let r = remove-Removed s.stream_handles id h good.filed found in
      Ends-then Good (λ s' _. s' ≡ s₁) (λ s' _. Good s') (finished s₁ app id stream.current_state) _
        (finished-Ends s₁ app id stream.current_state h found)
        λ s' outputs same.
          rw (same, found)
            (drop-Facts id (Registry.remove s.stream_handles h).0 good r.elsewhere r.filed r.slots)

  pub add_stream-Keeps :
      (s : ServerSession V) (id : ℕ)
      → length s.stream_handles.slots < id
      → id < 2 ^ 32 - 1
      → s.next_stream_id ≡ id + 1
      → Good s
      → Keeps Good (add_stream s id)
  unfolding add_stream call ◌>>=◌
  add_stream-Keeps s id few low next good =
      let (r, done, i) = insert-Inserted s.stream_handles tt id (omega arith) good.filed in
      rw done (
        put-Facts id (record { current_state = created }) r.0 s.next_stream_id good
          (not_publishing Granted id created created_other) i.here i.elsewhere i.filed
          (omega (arith, i.slots)) good.u32)
