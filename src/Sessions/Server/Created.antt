-- ===== src/Sessions/Server/Created.antt =====
-- What createStream leaves and answers with (src/sessions/server/mod.rs:
-- handle_command_create_stream).
use rtmpx.Prelude.{
  ℕ, ◌+◌, ◌-◌, ◌^◌, ◌<◌, ◌≤◌, ◌≡◌, ◌≢◌, refl, sym, ap, ◌∙◌, false, none, some, err, stuck, List, [],
  ◌∷◌, length, leb, ok, arith, Bool-cases, inl, inr,
}
use rtmpx.Prelude.Bytes.{Byte}
use rtmpx.Prelude.Text.{codes}
use rtmpx.Prelude.Float.{f64_of_u32}
use rtmpx.Prelude.Map
use rtmpx.Prelude.Map.{
  Map, IsDistinct, lookup, lookup-insert_self, lookup-insert_ne, lookup-remove_self,
  insert-IsDistinct,
}
use rtmpx.Messages.Raw.{RawMessage}
use rtmpx.Messages.Message
use rtmpx.Messages.Message.{RtmpMessage}
use rtmpx.Messages.Total.{IsTotal}
use mathlib.Core.Path.{subst}
use rtmpx.Chunk.Encoder.{Packet}
use rtmpx.Chunk.Encoder.Resize.{serialize}
use rtmpx.Sessions.Streams.{StreamHandle, find}
use rtmpx.Sessions.Streams.Wires.{IsFiled, insert-Inserted}
use rtmpx.Sessions.Limits.{check_streams}
use rtmpx.Sessions.Values.{number, Outside}
use rtmpx.Sessions.Server.Types.{
  created, ActiveStream, connected, ServerSessionConfig, ServerSession, packet_output,
}
use rtmpx.Sessions.Server.Send.{Ran, ◌>>=◌, call, create_success_response}
use rtmpx.Sessions.Server.Commands.{
  Outputs, closed_id, deleted_id, add_stream, handle_command_create_stream,
  handle_command_delete_stream,
}
use rtmpx.Sessions.Server.Deleted.{delete_stream-lookup}
use rtmpx.Sessions.Server.Ids.{f64_as_u32-f64_of_u32}
use rtmpx.Sessions.Server.Good.{Ends, Ends-then}
use rtmpx.Sessions.Server.Answered.{written, Sent, Unsendable, unwritten, unencoded, send-Sent}
use rtmpx.Sessions.Server.Safe.{Reachable, Reachable-IsGood}

-- Another reason for an error.
Ends-because :
    {V A : Type 0} (I I' : Type 0) (Q : ServerSession V → A → Type 0) (r : Ran V A)
    → (I → I')
    → Ends (λ s. I) Q r
    → Ends (λ s. I') Q r
Ends-because I I' Q (s, ok a) weaker done = done
Ends-because I I' Q (s, err e) weaker failed = weaker failed
Ends-because I I' Q (s, stuck) weaker none_left = none_left

module _ {V W : Type 0} (outside : Outside V W) where
  -- The answer to createStream with an AMF number.
  abbrev pub answer : ℕ → ℕ → RtmpMessage V W
  answer transaction_id x =
      Message.amf0_command (codes "_result") transaction_id outside.null (outside.of_number x ∷ [])

  -- A stream was created, and the one packet of the outputs answers with its id: the number in it is
  -- what closeStream and deleteStream read as this id.
  pub record Created (s : ServerSession V) (transaction_id : ℕ) (s' : ServerSession V)
      (outputs : Outputs V) : Type 0 where
    pub id : ℕ
    pub there : lookup id s'.active_streams ≡ some (record { current_state = created })
    pub others :
        (other : ℕ) → id ≢ other → lookup other s'.active_streams ≡ lookup other s.active_streams
    pub handle : (h : StreamHandle) × (find s'.stream_handles id ≡ some h)
    pub answered : ℕ
    pub packet : Packet
    pub raw : RawMessage (List Byte)
    pub written_is : written outside s (answer transaction_id answered) ≡ ok raw
    pub encoded : serialize s.serializer raw false false ≡ ok (s'.serializer, packet)
    pub output : outputs ≡ packet_output packet ∷ []
    pub closes : closed_id (outside.view (outside.of_number answered)) ≡ some id
    pub deletes :
        lookup id
          (handle_command_delete_stream outside s'
            (outside.of_number answered ∷ [])).0.active_streams
        ≡ none

  -- Why createStream may not answer.
  pub data Refused (s : ServerSession V) (transaction_id : ℕ) : Type 0 where
    streams_full : s.session_limits.max_streams ≤ length s.active_streams → Refused s transaction_id
    ids_exhausted : 2 ^ 32 - 1 ≤ s.next_stream_id → Refused s transaction_id
    unanswered :
        (x : ℕ)
        → x ≡ f64_of_u32 s.next_stream_id
        → Unsendable outside s (answer transaction_id x)
        → Refused s transaction_id

  -- An answer that the session cannot send, also where a stream was added to it.
  Unsendable-Refused :
      (s s' : ServerSession V) (transaction_id x : ℕ)
      → x ≡ f64_of_u32 s.next_stream_id
      → s'.serializer ≡ s.serializer
      → written outside s' (answer transaction_id x) ≡ written outside s (answer transaction_id x)
      → Unsendable outside s' (answer transaction_id x)
      → Refused s transaction_id
  Unsendable-Refused s s' transaction_id x first same alike (unwritten e failed) =
      unanswered x first (unwritten e (sym alike ∙ failed))
  Unsendable-Refused s s' transaction_id x first same alike (unencoded raw e made failed) =
      unanswered x first (
        unencoded raw e (sym alike ∙ made)
          (ap (λ k. serialize k raw false false) (sym same) ∙ failed))

  module _ (total : IsTotal outside.bodies)
      (reads : (x : ℕ) → outside.view (outside.of_number x) ≡ number x) where
    read_back :
        (id : ℕ)
        → id < 2 ^ 32
        → (closed_id (outside.view (outside.of_number (f64_of_u32 id))) ≡ some id)
          × (deleted_id (outside.view (outside.of_number (f64_of_u32 id))) ≡ some id)
    read_back id u32 =
        let same = ap some (f64_as_u32-f64_of_u32 id u32) in rw (reads (f64_of_u32 id)) (same, same)

    -- The id is below the greatest, and no handle was ever filed for it.
    answer-Created :
        (s : ServerSession V) (transaction_id id : ℕ) (app : List Byte)
        → s.current_state ≡ connected
        → s.connected_app_name ≡ some app
        → id ≡ s.next_stream_id
        → id < 2 ^ 32 - 1
        → length s.stream_handles.slots < id
        → IsDistinct s.active_streams
        → IsFiled s.stream_handles
        → Ends
            (λ s'. Refused s transaction_id)
            (Created s transaction_id)
            (add_stream (record s { next_stream_id = id + 1 }) id >>= λ (s₃, _).
              create_success_response outside s₃ transaction_id outside.null
                (outside.of_number (f64_of_u32 id) ∷ [])
                0
              >>= λ (s₄, packet). (s₄, ok (packet_output packet ∷ [])))
    unfolding add_stream create_success_response call ◌>>=◌
    answer-Created s transaction_id id app active named first low few distinct filed =
        let (r, done, i) = insert-Inserted s.stream_handles tt id (omega (arith, few, low)) filed in
        let stream : ActiveStream = record { current_state = created } in
        let streams = Map.insert id stream s.active_streams in
        let s₃ : ServerSession V = record s {
          next_stream_id = id + 1;
          active_streams = streams;
          stream_handles = r.0;
        } in
        let x = f64_of_u32 id in
        let back = read_back id (omega (arith, low)) in
        rw done (
          Ends-then (λ s'. Refused s transaction_id) (Sent outside s₃ (answer transaction_id x))
            (Created s transaction_id) _ _
            (Ends-because (Unsendable outside s₃ (answer transaction_id x))
              (Refused s transaction_id) (Sent outside s₃ (answer transaction_id x)) _
              (Unsendable-Refused s s₃ transaction_id x (ap f64_of_u32 first) refl refl)
              (send-Sent outside total s₃ (answer transaction_id x)))
            λ s₄ packet sent.
              let streams_are : s₄.active_streams ≡ streams =
                ap (λ (z : ServerSession V). z.active_streams) sent.rest in
              let found : lookup id s₄.active_streams ≡ some stream =
                ap (λ m. lookup id m) streams_are ∙ lookup-insert_self id stream s.active_streams in
              record {
                id = id;
                there = found;
                others = λ other ne.
                    ap (λ m. lookup other m) streams_are
                    ∙ lookup-insert_ne id other stream s.active_streams ne;
                handle =
                    subst (λ z. (h : StreamHandle) × (find z id ≡ some h))
                      (sym (ap (λ (z : ServerSession V). z.stream_handles) sent.rest)) i.here;
                answered = x;
                packet = packet;
                raw = sent.raw;
                written_is = sent.written_is;
                encoded = sent.encoded;
                output = refl;
                closes = back.0;
                deletes =
                    delete_stream-lookup outside s₄ app (outside.of_number x) id
                      (ap (λ (z : ServerSession V). z.current_state) sent.rest ∙ active)
                      (ap (λ (z : ServerSession V). z.connected_app_name) sent.rest ∙ named) back.1
                      (subst (λ m. IsDistinct m) (sym streams_are)
                        (insert-IsDistinct id stream s.active_streams distinct))
                      found;
              })

    create_stream-Ends :
        (s : ServerSession V) (transaction_id : ℕ) (app : List Byte)
        → s.current_state ≡ connected
        → s.connected_app_name ≡ some app
        → length s.stream_handles.slots < s.next_stream_id
        → IsDistinct s.active_streams
        → IsFiled s.stream_handles
        → Ends
            (λ s'. Refused s transaction_id)
            (Created s transaction_id)
            (handle_command_create_stream outside s transaction_id)
    unfolding handle_command_create_stream check_streams call ◌>>=◌
    create_stream-Ends s transaction_id app active named few distinct filed =
        elim (Bool-cases (leb s.session_limits.max_streams (length s.active_streams))) [
          | inl full ↦ rw full (streams_full (ground (arith, full)))
          | inr room ↦ rw room (elim (Bool-cases (leb (2 ^ 32 - 1) s.next_stream_id)) [
            | inl greatest ↦ rw greatest (ids_exhausted (ground (arith, greatest)))
            | inr lower ↦ rw lower (
                answer-Created s transaction_id s.next_stream_id app active named refl
                  (ground (arith, lower)) few distinct filed)
          ])
        ]

-- With an AMF codec that does not panic, the decoder's limit of buffered bytes below 2⁶⁴ - 1, and the
-- value made of a number read as this number: on any connected session that a server can come to,
-- createStream does not panic. It fails only where the streams are at their limit, the ids are used up,
-- or the answer with the session's next id cannot be written or encoded. Otherwise there is an id with a
-- new stream and its handle, and no other stream's entry changed; the one output is the packet of a
-- `_result` for the transaction with a number that closeStream reads as this id, and a deleteStream with
-- this number removes the stream.
pub handle_command_create_stream-Created :
    {V W : Type 0} (outside : Outside V W) (config : ServerSessionConfig) (s : ServerSession V)
    (transaction_id : ℕ) (app : List Byte)
    → IsTotal outside.bodies
    → config.decoder_limits.maximum_buffered_bytes < 2 ^ 64 - 1
    → ((x : ℕ) → outside.view (outside.of_number x) ≡ number x)
    → Reachable outside config s
    → s.current_state ≡ connected
    → s.connected_app_name ≡ some app
    → Ends
        (λ s'. Refused outside s transaction_id)
        (Created outside s transaction_id)
        (handle_command_create_stream outside s transaction_id)
handle_command_create_stream-Created outside config s transaction_id app total usize reads r active
      named =
    let good = Reachable-IsGood outside config total usize s r in
    create_stream-Ends outside total reads s transaction_id app active named good.few good.distinct
      good.filed
