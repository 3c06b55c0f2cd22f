-- ===== src/Sessions/Server/Good/Rounds.antt =====
-- A round of the receive loop keeps what a session counts on (src/sessions/server/mod.rs:
-- receive_inner and process_payload).
use rtmpx.Prelude.{
  ℕ, ◌+◌, ◌-◌, ◌%◌, ◌^◌, ◌<◌, ◌≢◌, Bool, true, false, not, Option, none, some, List, [], ◌∷◌,
  length, leb, ◌==◌, if◌then◌else◌, ensures_weaken, arith, Bool-cases, inl, inr,
}
use rtmpx.Prelude.Bytes.{Byte}
use rtmpx.Payload.{Payload}
use rtmpx.Messages.Raw.{RawMessage}
use rtmpx.Messages.Total.{IsTotal}
use rtmpx.Chunk.Types.{DecoderLimits}
use rtmpx.Chunk.Decoder.{Input, decode}
use rtmpx.Chunk.Decoder.Reached.{reached_decode, Returned, Reached-Returned}
use rtmpx.Sessions.Data.{DataMessageType, data_amf0, data_amf3, from_type_id}
use rtmpx.Sessions.Values.{Outside}
use rtmpx.Sessions.Server.Types.{ServerEvent, ServerSession, decode_error}
use rtmpx.Sessions.Server.Send.{Ran, call}
use rtmpx.Sessions.Server.Commands.{Outputs}
use rtmpx.Sessions.Server.Decisions.{queue}
use rtmpx.Sessions.Server.Receive.{
  Out, pop, is_handled, as_output, data_output, front, other_output, payload_output,
  process_payload, acknowledge, effective, count_window, count_bytes, before_output, without_ack,
  with_ack, after_decode, receive_round,
}
use rtmpx.Sessions.Server.Good.{IsWindow, IsGood, Ends, Keeps, Ends-then, Ends-call}
use rtmpx.Sessions.Server.Good.Sends.{send-Keeps}
use rtmpx.Sessions.Server.Good.Lives.{receiving-Facts}
use rtmpx.Sessions.Server.Good.Inbound.{
  published_event-Keeps, audio-Keeps, video-Keeps, message-Keeps,
}

effective-IsWindow :
    (peer own : Option ℕ) → IsWindow peer → IsWindow own → IsWindow (effective peer own)
effective-IsWindow none own one two = two
effective-IsWindow (some w) own one two = one

module _ {V W : Type 0} (outside : Outside V W) (total : IsTotal outside.bodies) (l : DecoderLimits)
    (usize : l.maximum_buffered_bytes < 2 ^ 64 - 1) (Granted : ℕ → List Byte → Type 0) where
  abbrev Good : ServerSession V → Type 0
  Good = IsGood outside.capacity_of l Granted

  abbrev Kept : {A : Type 0} → ServerSession V → A → Type 0
  Kept s a = Good s

  output-Keeps :
      (r : Ran V (Option (ServerEvent V Payload))) → Keeps Good r → Keeps Good (as_output r)
  output-Keeps r kept = Ends-then Good Kept Kept r _ kept λ s e good. good

  data-Keeps :
      (s : ServerSession V) (m : RawMessage Payload) (wire_type : DataMessageType)
      → Good s
      → Keeps Good (data_output s m wire_type)
  unfolding data_output
  data-Keeps s m data_amf0 good = output-Keeps _ (
      published_event-Keeps outside total l usize Granted s m.message_stream_id s.connected_app_name
        _ good)
  data-Keeps s m data_amf3 good = output-Keeps _ (
      published_event-Keeps outside total l usize Granted
        (record s { peer_uses_amf3_framing = true }) m.message_stream_id s.connected_app_name _
        good)

  pub pop-Keeps : (s : ServerSession V) → Good s → Good (pop s).0
  unfolding pop
  pop-Keeps s good = go s.pending
    where
      go :
          (outputs : List (Out V))
          → Good
              (elim outputs as (λ _. ServerSession V × Option (Out V)) [
                | [] ↦ (s, none)
                | o ∷ rest ↦ (record s { pending = rest }, some o)
              ]).0
      go [] = good
      go (o ∷ rest) = good

  front-Keeps :
      (s : ServerSession V) (outputs : Outputs V) → Good s → Keeps Good (front (queue s outputs))
  unfolding queue
  front-Keeps s outputs good = pop-Keeps (queue s outputs) good

  either :
      {A : Type 0} (b : Bool) (x y : Ran V A)
      → Keeps Good x
      → Keeps Good y
      → Keeps Good (if b then x else y)
  either true x y one two = one
  either false x y one two = two

  other_output-Keeps :
      (s : ServerSession V) (m : RawMessage Payload)
      → Good s
      → Keeps Good (other_output outside s m)
  unfolding other_output
  other_output-Keeps s m good =
      either (m.type_id == 8) _ _
        (output-Keeps _
          (audio-Keeps outside total l usize Granted s m.body m.message_stream_id m.timestamp good))
        (either (m.type_id == 9) _ _
          (output-Keeps _ (
            video-Keeps outside total l usize Granted s m.body m.message_stream_id m.timestamp
              good))
          (either (not (is_handled m.type_id)) _ _ good (
            Ends-then Good Kept Kept _ _ (message-Keeps outside total l usize Granted s _ good)
              λ s' outputs kept. front-Keeps s' outputs kept)))

  payload_output-Keeps :
      (s : ServerSession V) (m : RawMessage Payload) (o : Option DataMessageType)
      → Good s
      → Keeps Good (payload_output outside s m o)
  payload_output-Keeps s m none good = other_output-Keeps s m good
  payload_output-Keeps s m (some wire_type) good = data-Keeps s m wire_type good

  process_payload-Keeps :
      (s : ServerSession V) (m : RawMessage Payload)
      → Good s
      → Keeps Good (process_payload outside s m)
  unfolding process_payload
  process_payload-Keeps s m good = payload_output-Keeps s m (from_type_id m.type_id) good

  acknowledge-Keeps :
      (s : ServerSession V) (window : ℕ)
      → window ≢ 0
      → Good s
      → Keeps Good (acknowledge outside s window)
  unfolding acknowledge queue
  acknowledge-Keeps s window positive good =
      Ends-then Good Kept Kept _ _ (send-Keeps outside total l Granted s _ 0 false good)
        λ s' packet kept. elim (Bool-cases (window == 0)) [
          | inl empty ↦ absurd (positive (ground (arith, empty)))
          | inr filled ↦ rw filled kept
        ]

  window-Keeps :
      (s : ServerSession V) (consumed : ℕ) (o : Option ℕ)
      → IsWindow o
      → Good s
      → Keeps Good (count_window outside s consumed o)
  window-Keeps s consumed none positive good = good
  window-Keeps s consumed (some window) positive good =
      either (leb window ((s.bytes_received_since_last_ack + consumed % 2 ^ 32) % 2 ^ 32)) _ _
        (acknowledge-Keeps _ window positive good) good

  count-Keeps :
      (s : ServerSession V) (consumed : ℕ) → Good s → Keeps Good (count_bytes outside s consumed)
  unfolding count_bytes
  count-Keeps s consumed good =
      window-Keeps _ consumed (effective s.peer_window_ack_size s.self_window_ack_size)
        (effective-IsWindow s.peer_window_ack_size s.self_window_ack_size good.peer_positive
          good.self_positive)
        good

  ack-Keeps :
      (s : ServerSession V) (m : RawMessage Payload) (ack : Option (Out V))
      → Good s
      → Keeps Good (with_ack outside s m ack)
  ack-Keeps s m none good =
      Ends-then Good Kept Kept _ _ (process_payload-Keeps s m good) λ s' o kept.
        elim o as (λ o. Keeps Good (without_ack outside s' o)) [ none ↦ kept | some e ↦ kept ]
  ack-Keeps s m (some ack) good =
      Ends-then Good Kept Kept _ _ (process_payload-Keeps s m good) λ s' o kept.
        elim o as (λ o. Keeps Good (before_output outside s' ack o)) [ none ↦ kept | some e ↦ kept ]

  after-Keeps :
      (s : ServerSession V) (m : Option (RawMessage Payload))
      → Good s
      → Keeps Good (after_decode outside s m)
  unfolding after_decode
  after-Keeps s none good = pop-Keeps s good
  after-Keeps s (some m) good = ack-Keeps (pop s).0 m (pop s).1 (pop-Keeps s good)

  -- Reading the input leaves a reached decoder.
  decode-Ends :
      (s : ServerSession V) (input : List Byte)
      → Good s
      → Ends Good
          (λ s' r. Good (record s' { deserializer = r.0 }))
          (call s decode_error (decode outside.capacity_of s.deserializer input))
  unfolding decode
  decode-Ends s input good =
      let whole : Input = record { owned = true; bytes = input } in
      Ends-call Good (λ s' r. Good (record s' { deserializer = r.0 })) s _ _
        (ensures_weaken (λ r. Returned outside.capacity_of whole r.0 r.1) (λ _. Unit {0}) _
          (λ _ _. tt)
          (Reached-Returned outside.capacity_of l s.deserializer whole usize good.reached))
        good
        λ r done. receiving-Facts good good.peer_positive (reached_decode whole good.reached done)

  pub round-Keeps :
      (s : ServerSession V) (input : List Byte)
      → Good s
      → Keeps Good (receive_round outside s input)
  unfolding receive_round
  round-Keeps s input good =
      Ends-then Good (λ s' r. Good (record s' { deserializer = r.0 })) Kept _ _
        (decode-Ends s input good)
        λ s₁ r good₁.
          Ends-then Good Kept Kept _ _ (count-Keeps _ (length input - length r.1.bytes) good₁)
            λ s₂ _ good₂.
              Ends-then Good Kept Kept _ _ (after-Keeps s₂ r.2 good₂) λ s₃ received good₃. good₃
