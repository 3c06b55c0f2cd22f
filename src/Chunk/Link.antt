-- ===== src/Chunk/Link.antt =====
-- A connection's two ends: messages through `ChunkEncoder::encode` onto one byte stream, from which
-- packets that `Packet::can_drop` lets go may be missing, and through
-- `MessageDecoder::decode_input` off it, one call for each message.
use rtmpx.Prelude.{
  ℕ, zero, suc, Bool, ◌&&◌, Option, none, some, List, [], ◌∷◌, ◌++◌, if◌then◌else◌, Outcome, ok,
  stuck, ◌>>=◌,
}
use rtmpx.Prelude.Bytes.{Byte}
use rtmpx.Payload.{Payload, to_bytes}
use rtmpx.Messages.Raw.{RawMessage, map_data}
use rtmpx.Chunk.Types.{DecodeError}
use rtmpx.Chunk.Encoder.{ChunkEncoder, EncodeOptions, EncodeError, encode}
use rtmpx.Chunk.Packet.{to_vec, can_drop}
use rtmpx.Chunk.Decoder.{MessageDecoder, Input, decode_input}

-- A message to send; `unwanted` where the sender drops its packet if it can.
pub record Job : Type 0 where
  pub message : RawMessage Payload
  pub options : EncodeOptions
  pub unwanted : Bool

-- What was sent: the bytes on the stream, and the messages of the packets that were not dropped, with
-- their bytes.
pub record Sent : Type 0 where
  pub encoder : ChunkEncoder
  pub bytes : List Byte
  pub messages : List (RawMessage (List Byte))

abbrev pub plain : RawMessage Payload → RawMessage (List Byte)
plain m = map_data to_bytes m

abbrev pub put : Job → List Byte → Sent → Sent
put job bytes rest = record rest {
  bytes = bytes ++ rest.bytes;
  messages = plain job.message ∷ rest.messages;
}

abbrev pub put_whole : Job → Option (List Byte) → Sent → Outcome EncodeError Sent
put_whole job none rest = stuck
put_whole job (some bytes) rest = ok (put job bytes rest)

unfoldable pub send_all : ChunkEncoder → List Job → Outcome EncodeError Sent
send_all e [] = ok (record { encoder = e; bytes = []; messages = [] })
send_all e (job ∷ jobs) = encode e job.message job.options >>= λ prepared.
    send_all prepared.0 jobs >>= λ rest.
    if job.unwanted && can_drop prepared.1 then ok rest else put_whole job (to_vec prepared.1) rest

-- What was received.
pub record Received : Type 0 where
  pub decoder : MessageDecoder
  pub input : Input
  pub messages : List (RawMessage (List Byte))

-- At most `n` messages are read, fewer where the input holds no further whole one.
unfoldable pub receive : (ℕ → ℕ) → ℕ → MessageDecoder → Input → Outcome DecodeError Received
receive capacity_of zero d input = ok (record { decoder = d; input = input; messages = [] })
receive capacity_of (suc n) d input = decode_input capacity_of d input >>= λ (d', input', message).
    elim message [
      | none ↦ ok (record { decoder = d'; input = input'; messages = [] })
      | some m ↦
          receive capacity_of n d' input' >>= λ r. ok (record r { messages = plain m ∷ r.messages })
    ]
