-- ===== src/Chunk/RoundTrip/Connection.antt =====
-- Many messages through the two ends of a connection.
use rtmpx.Prelude.{
  ℕ, zero, suc, ◌≡◌, refl, ap, ◌∙◌, true, false, none, some, List, [], ◌∷◌, ◌++◌, length,
  append_assoc, get_or, ◌-◌, ok, ◌&&◌, Bool-cases, inl, inr, arith,
}
use rtmpx.Prelude.Bytes.{Byte}
use rtmpx.Payload.{Payload}
use rtmpx.Payload.Segments.{IsValid}
use rtmpx.Messages.Raw.{RawMessage, map_data}
use rtmpx.Prelude.Map.{lookup, count_if}
use rtmpx.Chunk.Types.{DecoderLimits}
use rtmpx.Chunk.Encoder
use rtmpx.Chunk.Parser
use rtmpx.Chunk.Decoder
use rtmpx.Chunk.Encoder.{ChunkEncoder, Packet, encode}
use rtmpx.Chunk.Packet.{to_vec, can_drop}
use rtmpx.Chunk.Decoder.{MessageDecoder, Input, decode_input}
use rtmpx.Chunk.Link.{Job, Sent, plain, put, send_all, Received, receive}
use rtmpx.Chunk.RoundTrip.Turns.{owned}
use rtmpx.Chunk.RoundTrip.Sync.{Sync}
use rtmpx.Chunk.RoundTrip.Kept.{IsSendable}
use rtmpx.Chunk.RoundTrip.Decode.{Accepts}
use rtmpx.Chunk.RoundTrip.Exchange.{Delivered, encode-decode, encode-drop}

-- Every message can be sent, and is within the receiver's limits.
abbrev pub AllSendable : MessageDecoder → List Job → Type 0
AllSendable d [] = Unit {0}
AllSendable d (job ∷ jobs) =
    (IsSendable job.message × IsValid job.message.body × Accepts d job.message) × AllSendable d jobs

-- What the two ends end in.
pub record Transferred (capacity_of : ℕ → ℕ) (e : ChunkEncoder) (d : MessageDecoder)
    (jobs : List Job) : Type 0 where
  pub sent : Sent
  pub decoder : MessageDecoder
  pub sends : send_all e jobs ≡ ok sent
  pub receives :
      (rest : List Byte)
      → receive capacity_of (length sent.messages) d (owned (sent.bytes ++ rest))
        ≡ ok (record { decoder = decoder; input = owned rest; messages = sent.messages })
  pub in_sync : Sync sent.encoder decoder.parser

Accepts-kept :
    (d d' : MessageDecoder) (m : RawMessage Payload)
    → d' ≡ record d { parser = d'.parser }
    → d'.parser.limits ≡ d.parser.limits
    → d'.parser.chunk_size ≡ d.parser.chunk_size
    → Accepts d m
    → Accepts d' m
Accepts-kept d d' m same limits size a = record {
  quiet = ap (λ x. x.partials) same ∙ a.quiet;
  size_fits = rw limits a.size_fits;
  streams_fit = rw limits a.streams_fit;
  partials_fit = rw limits a.partials_fit;
  slots_fit = rw same (a.slots_fit);
  buffer_fits = rw same (a.buffer_fits);
  reserve_fits = rw same (a.reserve_fits);
  usize_fits = rw same (a.usize_fits);
  fragments_fit = rw (size, ap (λ x. x.limits) same) (a.fragments_fit);
}

AllSendable-kept :
    (d d' : MessageDecoder) (jobs : List Job)
    → d' ≡ record d { parser = d'.parser }
    → d'.parser.limits ≡ d.parser.limits
    → d'.parser.chunk_size ≡ d.parser.chunk_size
    → AllSendable d jobs
    → AllSendable d' jobs
AllSendable-kept d d' [] same limits size all = tt
AllSendable-kept d d' (job ∷ jobs) same limits size ((s, v, a), all) = (
  (s, v, Accepts-kept d d' job.message same limits size a),
  AllSendable-kept d d' jobs same limits size all,
)

send_all-drop :
    (e e' : ChunkEncoder) (job : Job) (jobs : List Job) (packet : Packet) (rest : Sent)
    → encode e job.message job.options ≡ ok (e', packet)
    → (job.unwanted && can_drop packet) ≡ true
    → send_all e' jobs ≡ ok rest
    → send_all e (job ∷ jobs) ≡ ok rest
unfolding send_all
send_all-drop e e' job jobs packet rest encodes dropped sends = rw (encodes, sends, dropped) refl

send_all-put :
    (e e' : ChunkEncoder) (job : Job) (jobs : List Job) (packet : Packet) (bytes : List Byte)
    (rest : Sent)
    → encode e job.message job.options ≡ ok (e', packet)
    → (job.unwanted && can_drop packet) ≡ false
    → to_vec packet ≡ some bytes
    → send_all e' jobs ≡ ok rest
    → send_all e (job ∷ jobs) ≡ ok (put job bytes rest)
unfolding send_all
send_all-put e e' job jobs packet bytes rest encodes kept written sends =
    rw (encodes, sends, kept, written) refl

receive-next :
    (capacity_of : ℕ → ℕ) (n : ℕ) (d d' : MessageDecoder) (input input' : Input)
    (m : RawMessage Payload) (r : Received)
    → decode_input capacity_of d input ≡ ok (d', input', some m)
    → receive capacity_of n d' input' ≡ ok r
    → receive capacity_of (suc n) d input ≡ ok (record r { messages = plain m ∷ r.messages })
unfolding receive
receive-next capacity_of n d d' input input' m r decodes receives = rw (decodes, receives) refl

-- The bytes of two messages are read one after the other.
module _ (capacity_of : ℕ → ℕ) (e : ChunkEncoder) (d : MessageDecoder) (job : Job) (jobs : List Job)
    (first : Delivered capacity_of e d job.message job.options)
    (later : Transferred capacity_of first.sender first.receiver jobs) where
  transfer_dropped :
      (job.unwanted && can_drop first.packet) ≡ true
      → Transferred capacity_of first.sender d jobs
      → Transferred capacity_of e d (job ∷ jobs)
  transfer_dropped dropped unread = record {
    sent = unread.sent;
    decoder = unread.decoder;
    sends =
        send_all-drop e first.sender job jobs first.packet unread.sent first.encodes dropped
          unread.sends;
    receives = unread.receives;
    in_sync = unread.in_sync;
  }

  same_message : plain (record (job.message) { body = first.body }) ≡ plain job.message
  same_message = ap (λ b. map_data (λ _. b) job.message) first.same_bytes

  transfer_put :
      (job.unwanted && can_drop first.packet) ≡ false → Transferred capacity_of e d (job ∷ jobs)
  transfer_put kept = record {
    sent = put job first.bytes later.sent;
    decoder = later.decoder;
    sends =
        send_all-put e first.sender job jobs first.packet first.bytes later.sent first.encodes kept
          first.written later.sends;
    receives = λ rest.
        ap (λ b. receive capacity_of (suc (length later.sent.messages)) d (owned b))
          (append_assoc first.bytes later.sent.bytes rest)
        ∙ receive-next capacity_of (length later.sent.messages) d first.receiver _ _ _ _
            (first.decodes (later.sent.bytes ++ rest)) (later.receives rest)
        ∙ ap
            (λ m. ok (record {
              decoder = later.decoder;
              input = owned rest;
              messages = m ∷ later.sent.messages;
            }))
            same_message;
    in_sync = later.in_sync;
  }

-- Messages go through in order and byte for byte, in spite of dropped packets.
pub send_all-receive :
    (capacity_of : ℕ → ℕ) (e : ChunkEncoder) (d : MessageDecoder) (jobs : List Job)
    → Sync e d.parser
    → AllSendable d jobs
    → Transferred capacity_of e d jobs
unfolding send_all receive
send_all-receive capacity_of e d [] sync all = record {
  sent = record { encoder = e; bytes = []; messages = [] };
  decoder = d;
  sends = refl;
  receives = λ rest. refl;
  in_sync = sync;
}
send_all-receive capacity_of e d (job ∷ jobs) sync ((sendable, valid, accepts), all) =
    let first = encode-decode capacity_of e d job.message job.options sync sendable valid accepts in
    let later =
      send_all-receive capacity_of first.sender first.receiver jobs first.in_sync
        (AllSendable-kept d first.receiver jobs first.kept first.kept_limits first.kept_size all) in
    elim (Bool-cases (job.unwanted && can_drop first.packet)) [
      | inl dropped ↦ transfer_dropped capacity_of e d job jobs first later dropped (
          send_all-receive capacity_of first.sender d jobs
            (encode-drop e first.sender d job.message job.options first.packet sync sendable
              first.encodes (ground (arith, dropped)))
            all)
      | inr kept ↦ transfer_put capacity_of e d job jobs first later kept
    ]

nothing_sent : (i : ℕ) → get_or Encoder.new.previous_headers i none ≡ none
nothing_sent zero = refl
nothing_sent (suc zero) = refl
nothing_sent (suc (suc zero)) = refl
nothing_sent (suc (suc (suc zero))) = refl
nothing_sent (suc (suc (suc (suc zero)))) = refl
nothing_sent (suc (suc (suc (suc (suc i))))) = refl

-- A new encoder and a new decoder agree.
pub new-Sync : (l : DecoderLimits) → Sync Encoder.new (Decoder.with_limits l).parser
unfolding Decoder.with_limits Parser.with_limits lookup count_if
new-Sync l = record {
  sizes = refl;
  positive = omega arith;
  free = refl;
  clear = refl;
  idle = refl;
  five = refl;
  tracked = omega arith;
  agrees = λ c lo hi. rw (nothing_sent (c - 2)) tt;
}

-- From a new encoder to a new decoder, where every message is sendable and within the decoder's
-- limits: all of them are encoded, those whose packets were not dropped are received, in their order
-- and byte for byte, whatever bytes follow them, and encoder and decoder agree again. A packet is
-- dropped where its sender does not want it and `can_drop` holds.
pub new_connection-receive :
    (capacity_of : ℕ → ℕ) (l : DecoderLimits) (jobs : List Job)
    → AllSendable (Decoder.with_limits l) jobs
    → Transferred capacity_of Encoder.new (Decoder.with_limits l) jobs
new_connection-receive capacity_of l jobs all =
    send_all-receive capacity_of Encoder.new (Decoder.with_limits l) jobs (new-Sync l) all
