-- ===== src/Sessions/Server/Answered.antt =====
-- What a packet on stream 0 is made of, and why there may be none (src/sessions/server/mod.rs:
-- to_payload and the serializer's call behind it).
use rtmpx.Prelude.{◌+◌, ◌≡◌, refl, sym, ap, false, List, Outcome, err, stuck, ok}
use rtmpx.Prelude.Bytes.{Byte}
use rtmpx.Messages.Raw.{RawMessage}
use rtmpx.Messages.Message.{RtmpMessage, MessageSerializationError}
use rtmpx.Messages.Total.{Returns, IsTotal}
use rtmpx.Messages.Convert.{from_rtmp_message}
use mathlib.Core.Path.{subst}
use rtmpx.Chunk.Encoder.{ChunkEncoder, EncodeError, Packet}
use rtmpx.Chunk.Encoder.Resize.{serialize}
use rtmpx.Sessions.Values.{Outside}
use rtmpx.Sessions.Server.Types.{ServerSession, ServerSessionError}
use rtmpx.Sessions.Server.Send.{call, get_epoch, encode_response, to_payload, serialized, send}
use rtmpx.Sessions.Server.Good.{Ends, Ends-then}
use rtmpx.Sessions.Server.Good.Sends.{from_rtmp_message-Returns, encode-Returns}

module _ {V W : Type 0} (outside : Outside V W) where
  -- The raw message, in the session's encoding and with the time that the session reads.
  abbrev pub written :
      ServerSession V → RtmpMessage V W → Outcome MessageSerializationError (RawMessage (List Byte))
  written s m =
      from_rtmp_message outside.bodies (encode_response outside s m) (get_epoch outside s).1 0

  -- The packet is the message in the serializer's form.
  pub record Sent (s : ServerSession V) (m : RtmpMessage V W) (s' : ServerSession V)
      (packet : Packet) : Type 0 where
    pub raw : RawMessage (List Byte)
    pub written_is : written s m ≡ ok raw
    pub encoded : serialize s.serializer raw false false ≡ ok (s'.serializer, packet)
    pub rest : s' ≡ record s { ticks = s.ticks + 1; serializer = s'.serializer }

  -- The message cannot be written, or its raw form not be encoded.
  pub data Unsendable (s : ServerSession V) (m : RtmpMessage V W) : Type 0 where
    unwritten : (e : MessageSerializationError) → written s m ≡ err e → Unsendable s m
    unencoded :
        (raw : RawMessage (List Byte)) (e : EncodeError)
        → written s m ≡ ok raw
        → serialize s.serializer raw false false ≡ err e
        → Unsendable s m

  call-Ends :
      {A E : Type 0} (I : ServerSession V → Type 0) (Q : ServerSession V → A → Type 0)
      (s : ServerSession V) (convert : E → ServerSessionError) (m : Outcome E A)
      → Returns m
      → ((e : E) → m ≡ err e → I s)
      → ((a : A) → m ≡ ok a → Q s a)
      → Ends I Q (call s convert m)
  unfolding call
  call-Ends I Q s convert (ok a) returns failed done = done a refl
  call-Ends I Q s convert (err e) returns failed done = failed e refl
  call-Ends I Q s convert stuck returns failed done = returns

  module _ (total : IsTotal outside.bodies) where
    serialized-Sent :
        (s : ServerSession V) (m : RtmpMessage V W) (raw : RawMessage (List Byte))
        → written s m ≡ ok raw
        → Ends
            (λ s'. Unsendable s m)
            (Sent s m)
            (serialized outside (record s { ticks = s.ticks + 1 }) raw false false)
    unfolding serialized serialize
    serialized-Sent s m raw made =
        let s₁ : ServerSession V = record s { ticks = s.ticks + 1 } in
        let Serialized : ServerSession V → ChunkEncoder × Packet → Type 0 =
          λ s' r. (s' ≡ s₁) × (serialize s.serializer raw false false ≡ ok r) in
        Ends-then (λ s'. Unsendable s m) Serialized (Sent s m) _ _
          (call-Ends (λ s'. Unsendable s m) Serialized s₁ _ _ (encode-Returns s.serializer _ _)
            (λ e failed. unencoded raw e made failed) (λ r encoded. (refl, encoded)))
          λ s' (e, packet) (same, encoded). record {
            raw = raw;
            written_is = made;
            encoded = encoded;
            rest = ap (λ (z : ServerSession V). record z { serializer = e }) same;
          }

    pub send-Sent :
        (s : ServerSession V) (m : RtmpMessage V W)
        → Ends (λ s'. Unsendable s m) (Sent s m) (send outside s m 0 false)
    unfolding send to_payload get_epoch
    send-Sent s m =
        let s₁ : ServerSession V = record s { ticks = s.ticks + 1 } in
        let Written : ServerSession V → RawMessage (List Byte) → Type 0 =
          λ s' raw. (s' ≡ s₁) × (written s m ≡ ok raw) in
        Ends-then (λ s'. Unsendable s m) Written (Sent s m) _ _
          (call-Ends (λ s'. Unsendable s m) Written s₁ _ _
            (from_rtmp_message-Returns outside.bodies total (encode_response outside s m) _ 0)
            unwritten (λ raw made. (refl, made)))
          λ s' raw (same, made).
            subst
              (λ z. Ends (λ s'. Unsendable s m) (Sent s m) (serialized outside z raw false false))
              (sym same) (serialized-Sent s m raw made)
