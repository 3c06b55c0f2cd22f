-- ===== src/Sessions/Server/Send.antt =====
-- What a server session encodes and sends (src/sessions/server/mod.rs: encode_response, to_payload,
-- get_epoch, create_success_response, create_error_response, create_error_packet and
-- create_status_object).
use rtmpx.Prelude.{
  ℕ, ◌+◌, ◌%◌, ◌^◌, Bool, false, not, ◌&&◌, List, [], ◌∷◌, if◌then◌else◌, Outcome, ok, err, stuck,
}
use rtmpx.Prelude.Bytes.{Byte}
use rtmpx.Prelude.Text.{codes}
use rtmpx.Prelude.Float.{f64_zero}
use rtmpx.Time.{RtmpTimestamp}
use rtmpx.Messages.Raw.{RawMessage}
use rtmpx.Messages.Message
use rtmpx.Messages.Message.{RtmpMessage, AmfEncoding, in_amf0, in_amf3}
use rtmpx.Messages.Convert.{from_rtmp_message}
use rtmpx.Chunk.Encoder.{Packet}
use rtmpx.Chunk.Encoder.Resize.{serialize}
use rtmpx.Sessions.Values.{Amf0Object, Outside, insert, is_amf3}
use rtmpx.Sessions.Server.Types.{
  ServerSession, ServerSessionError, serialization_error, encode_error, session_failed,
}

-- What a call leaves: the session, also where it ends in an error.
abbrev pub Ran : Type 0 → Type 0 → Type 0
Ran V A = ServerSession V × Outcome ServerSessionError A

-- `?`: what follows has the session and the value; shut, so that the rule for it is read off.
infixl 5 ◌>>=◌
unfoldable pub ◌>>=◌ : {V A B : Type 0} → Ran V A → (ServerSession V × A → Ran V B) → Ran V B
(s, ok a) >>= next = next (s, a)
(s, err e) >>= next = (s, err e)
(s, stuck) >>= next = (s, stuck)

-- A call that returns no session, with the conversion that `?` makes of its error.
unfoldable pub call :
    {V A E : Type 0} → ServerSession V → (E → ServerSessionError) → Outcome E A → Ran V A
call s convert (ok a) = (s, ok a)
call s convert (err e) = (s, err (convert e))
call s convert stuck = (s, stuck)

module _ {V : Type 0} where
  unfoldable pub ensure_active : ServerSession V → Ran V (Unit {0})
  ensure_active s = (s, if s.failed then err session_failed else ok tt)

  -- The encoding of what answers no request.
  abbrev pub server_initiated_encoding : ServerSession V → AmfEncoding
  server_initiated_encoding s =
      if is_amf3 s.negotiated_encoding && s.peer_uses_amf3_framing then in_amf3 else in_amf0

module _ {V W : Type 0} (outside : Outside V W) where
  abbrev map_to_amf3 : List V → List W
  map_to_amf3 [] = []
  map_to_amf3 (v ∷ values) = outside.to_amf3 v ∷ map_to_amf3 values

  abbrev reframe : RtmpMessage V W → RtmpMessage V W
  reframe (Message.amf0_command name id command more) =
      Message.amf3_command name id (outside.to_amf3 command) (map_to_amf3 more) in_amf0
  reframe (Message.amf0_data values) = Message.amf3_data (map_to_amf3 values) in_amf0
  reframe message = message

  unfoldable pub encode_response : ServerSession V → RtmpMessage V W → RtmpMessage V W
  encode_response s message =
      if not (is_amf3 s.negotiated_encoding && is_amf3 s.response_encoding)
      then message
      else reframe message

  -- The time is read, and `RtmpTimestamp::new` takes it as a u32.
  unfoldable pub get_epoch : ServerSession V → ServerSession V × RtmpTimestamp
  get_epoch s =
      (record s { ticks = s.ticks + 1 }, record { value = outside.clock s.ticks % 2 ^ 32 })

  unfoldable pub to_payload : ServerSession V → RtmpMessage V W → ℕ → Ran V (RawMessage (List Byte))
  unfolding encode_response get_epoch
  to_payload s message stream_id =
      let (s', epoch) = get_epoch s in
      call s' serialization_error
        (from_rtmp_message outside.bodies (encode_response s message) epoch stream_id)

  -- `self.serializer.serialize`
  unfoldable pub serialized : ServerSession V → RawMessage (List Byte) → Bool → Bool → Ran V Packet
  serialized s message full droppable =
      call s encode_error (serialize s.serializer message full droppable) >>= λ (s', (e, packet)).
      (record s' { serializer = e }, ok packet)

  -- `to_payload` and `serialize` in a row, as nearly all callers have them.
  unfoldable pub send : ServerSession V → RtmpMessage V W → ℕ → Bool → Ran V Packet
  unfolding to_payload serialized
  send s message stream_id full =
      to_payload s message stream_id >>= λ (s', raw). serialized s' raw full false

  unfoldable pub create_status_object : List Byte → List Byte → List Byte → Amf0Object V
  unfolding insert
  create_status_object level code description =
      insert (codes "description") (outside.of_string description) (
        insert (codes "code") (outside.of_string code)
          (insert (codes "level") (outside.of_string level) []))

  abbrev pub response : List Byte → ℕ → V → List V → RtmpMessage V W
  response = Message.amf0_command

  unfoldable pub create_success_response : ServerSession V → ℕ → V → List V → ℕ → Ran V Packet
  unfolding send
  create_success_response s transaction_id command more stream_id =
      send s (response (codes "_result") transaction_id command more) stream_id false

  unfoldable pub create_error_response : ServerSession V → ℕ → V → List V → ℕ → Ran V Packet
  unfolding send
  create_error_response s transaction_id command more stream_id =
      send s (response (codes "_error") transaction_id command more) stream_id false

  unfoldable pub create_error_packet :
      ServerSession V → List Byte → List Byte → ℕ → ℕ → Ran V Packet
  unfolding create_status_object create_error_response
  create_error_packet s code description transaction_id stream_id =
      let status = create_status_object (codes "_error") code description in
      create_error_response s transaction_id outside.null (outside.of_object status ∷ []) stream_id

  -- `onStatus` on a stream.
  abbrev pub on_status : List V → RtmpMessage V W
  on_status = response (codes "onStatus") f64_zero outside.null
