-- ===== src/Sessions/Server/Receive.antt =====
-- Input of a server session, and its outputs in order (src/sessions/server/mod.rs: process_payload,
-- receive_inner and receive).
use rtmpx.Prelude.{
  ℕ, zero, suc, ◌+◌, ◌-◌, ◌%◌, ◌^◌, Bool, true, false, not, ◌&&◌, ◌||◌, Option, none, some, List,
  [], ◌∷◌, length, leb, ◌==◌, if◌then◌else◌, ok, err, stuck,
}
use rtmpx.Prelude.Bytes.{Byte}
use rtmpx.Prelude.Map.{lookup}
use rtmpx.Payload
use rtmpx.Payload.{Payload}
use rtmpx.Messages.Raw.{RawMessage, map_data}
use rtmpx.Messages.Message
use rtmpx.Chunk.Decoder.{decode}
use rtmpx.Sessions.Data.{DataMessage, DataMessageType, data_amf0, data_amf3, from_type_id}
use rtmpx.Sessions.Values.{Outside}
use rtmpx.Sessions.Server.Types.{
  ServerEvent, stream_data_received, ServerOutput, packet_output, event_output, unhandled_message,
  ServerSession, decode_error,
}
use rtmpx.Sessions.Server.Send.{Ran, ◌>>=◌, call, ensure_active, send}
use rtmpx.Sessions.Server.Decisions.{queue}
use rtmpx.Sessions.Server.Events.{
  published_key, published_event, audio_event, video_event, handle_message,
}

abbrev pub is_handled : ℕ → Bool
is_handled t = leb 1 t && leb t 6 || (t == 17 || t == 20)

-- `or`
abbrev pub effective : Option ℕ → Option ℕ → Option ℕ
effective (some w) other = some w
effective none other = other

abbrev pub Out : Type 0 → Type 0
Out V = ServerOutput V Payload

module _ {V : Type 0} where
  -- `self.pending.pop_front()`
  unfoldable pub pop : ServerSession V → ServerSession V × Option (Out V)
  pop s = elim s.pending [ [] ↦ (s, none) | o ∷ rest ↦ (record s { pending = rest }, some o) ]

  abbrev pub note_framing : ServerSession V → DataMessageType → ServerSession V
  note_framing s data_amf0 = s
  note_framing s data_amf3 = record s { peer_uses_amf3_framing = true }

  abbrev pub event_out : Option (ServerEvent V Payload) → Option (Out V)
  event_out none = none
  event_out (some e) = some (event_output e)

  abbrev pub as_output : Ran V (Option (ServerEvent V Payload)) → Ran V (Option (Out V))
  as_output r = r >>= λ (s, e). (s, ok (event_out e))

  unfoldable pub data_output :
      ServerSession V → RawMessage Payload → DataMessageType → Ran V (Option (Out V))
  data_output s m wire_type =
      let s' = note_framing s wire_type in
      let message : DataMessage Payload = record {
        wire_type = wire_type;
        timestamp = m.timestamp;
        payload = m.body;
      } in
      as_output (
        published_event s' m.message_stream_id s'.connected_app_name
          (published_key (lookup m.message_stream_id s'.active_streams))
          (λ h app key. stream_data_received h m.message_stream_id app key message))

  -- The message that is not data: its output, and where it is first in the queue.
  abbrev pub front : ServerSession V → Ran V (Option (Out V))
  front s = let (s', o) = pop s in (s', ok o)

-- A round of the loop: another one, or the call's output.
pub data Received (V : Type 0) : Type 0 where
  again : Received V
  returned : Option (ServerOutput V Payload) → Received V

module _ {V W : Type 0} (outside : Outside V W) where
  unfoldable pub other_output : ServerSession V → RawMessage Payload → Ran V (Option (Out V))
  unfolding audio_event video_event handle_message pop
  other_output s m =
      if m.type_id == 8
      then as_output (audio_event s m.body m.message_stream_id m.timestamp)
      else if m.type_id == 9
      then as_output (video_event s m.body m.message_stream_id m.timestamp)
      else if not (is_handled m.type_id)
      then (s, ok (some (unhandled_message m)))
      else handle_message outside s (map_data Payload.to_bytes m) >>= λ (s', outputs).
          front (queue s' outputs)

  abbrev pub payload_output :
      ServerSession V → RawMessage Payload → Option DataMessageType → Ran V (Option (Out V))
  payload_output s m none = other_output s m
  payload_output s m (some wire_type) = data_output s m wire_type

  unfoldable pub process_payload : ServerSession V → RawMessage Payload → Ran V (Option (Out V))
  unfolding from_type_id data_output other_output
  process_payload s m = payload_output s m (from_type_id m.type_id)

  -- The acknowledgement of a full window. The remainder by 0 panics.
  unfoldable pub acknowledge : ServerSession V → ℕ → Ran V (Unit {0})
  unfolding send
  acknowledge s window =
      send outside s (Message.acknowledgement (s.bytes_received % 2 ^ 32)) 0 false
      >>= λ (s', packet). if window == 0 then (s', stuck) else (
        queue
            (record s' {
              bytes_received_since_last_ack = s'.bytes_received_since_last_ack % window;
            })
            (packet_output packet ∷ []),
        ok tt,
      )

  abbrev pub count_window : ServerSession V → ℕ → Option ℕ → Ran V (Unit {0})
  count_window s consumed none = (s, ok tt)
  count_window s consumed (some window) =
      let since = (s.bytes_received_since_last_ack + consumed % 2 ^ 32) % 2 ^ 32 in
      let s' = record s { bytes_received_since_last_ack = since } in
      if leb window since then acknowledge s' window else (s', ok tt)

  unfoldable pub count_bytes : ServerSession V → ℕ → Ran V (Unit {0})
  unfolding acknowledge
  count_bytes s consumed =
      let s' = record s { bytes_received = (s.bytes_received + consumed) % 2 ^ 64 } in
      count_window s' consumed (effective s'.peer_window_ack_size s'.self_window_ack_size)

  -- An acknowledgement goes out before the output of the message, which is queued in front.
  abbrev pub before_output : ServerSession V → Out V → Option (Out V) → Ran V (Received V)
  before_output s ack none = (s, ok (returned (some ack)))
  before_output s ack (some o) = (record s { pending = o ∷ s.pending }, ok (returned (some ack)))

  abbrev pub without_ack : ServerSession V → Option (Out V) → Ran V (Received V)
  without_ack s none = (s, ok again)
  without_ack s (some o) = (s, ok (returned (some o)))

  abbrev pub with_ack : ServerSession V → RawMessage Payload → Option (Out V) → Ran V (Received V)
  with_ack s m none = process_payload s m >>= λ (s', o). without_ack s' o
  with_ack s m (some ack) = process_payload s m >>= λ (s', o). before_output s' ack o

  unfoldable pub after_decode : ServerSession V → Option (RawMessage Payload) → Ran V (Received V)
  unfolding pop process_payload
  after_decode s none = let (s', o) = pop s in (s', ok (returned o))
  after_decode s (some m) = let (s', ack) = pop s in with_ack s' m ack

  -- A round of the loop of `receive_inner`: what is left of the input, and whether another follows.
  unfoldable pub receive_round : ServerSession V → List Byte → Ran V (List Byte × Received V)
  unfolding count_bytes after_decode
  receive_round s input = do
    (s₁, (d, rest, m)) ← call s decode_error (decode outside.capacity_of s.deserializer input)
    let consumed = length input - length rest.bytes
    (s₂, _) ← count_bytes (record s₁ { deserializer = d }) consumed
    (s₃, received) ← after_decode s₂ m
    (s₃, ok (rest.bytes, received))

  -- The loop on fuel.
  unfoldable pub receive_loop : ℕ → ServerSession V → List Byte → Ran V (List Byte × Option (Out V))
  unfolding receive_round
  receive_loop zero s input = (s, stuck)
  receive_loop (suc fuel) s input = receive_round s input >>= λ (s', (rest, received)).
      elim received [ again ↦ receive_loop fuel s' rest | returned o ↦ (s', ok (rest, o)) ]

  abbrev pub from_pending :
      ℕ → ServerSession V → List Byte → Option (Out V) → Ran V (List Byte × Option (Out V))
  from_pending fuel s input none = receive_loop fuel s input
  from_pending fuel s input (some o) = (s, ok (input, some o))

  unfoldable pub receive_inner :
      ℕ → ServerSession V → List Byte → Ran V (List Byte × Option (Out V))
  unfolding pop receive_loop
  receive_inner fuel s input = let (s', o) = pop s in from_pending fuel s' input o

  -- An error ends the session.
  unfoldable pub settle_failure : {A : Type 0} → Ran V A → Ran V A
  settle_failure (s, ok a) = (s, ok a)
  settle_failure (s, err e) = (record s { failed = true; pending = [] }, err e)
  settle_failure (s, stuck) = (s, stuck)

  unfoldable pub receive : ℕ → ServerSession V → List Byte → Ran V (List Byte × Option (Out V))
  unfolding ensure_active receive_inner settle_failure
  receive fuel s input = ensure_active s >>= λ (s', _). settle_failure (receive_inner fuel s' input)
