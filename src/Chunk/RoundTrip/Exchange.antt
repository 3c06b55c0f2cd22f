-- ===== src/Chunk/RoundTrip/Exchange.antt =====
-- One message from `ChunkEncoder::encode` over `Packet::to_vec` to `MessageDecoder::decode_input`.
use rtmpx.Prelude.{
  ℕ, ◌≤◌, ◌<◌, ◌≡◌, refl, sym, ap, ◌∙◌, true, some, List, ◌++◌, if◌then◌else◌, ok, arith,
}
use rtmpx.Prelude.Bytes.{Byte}
use rtmpx.Payload.{Payload, flatten, segments, to_bytes}
use rtmpx.Payload.Segments.{IsValid, to_bytes-segments}
use rtmpx.Messages.Raw.{RawMessage}
use rtmpx.Chunk.Encoder.{
  ChunkEncoder, EncodeOptions, Packet, encode, encode_header, is_full, chosen, packet_of,
  is_allowed,
}
use rtmpx.Chunk.Types.{full, empty}
use rtmpx.Chunk.Packet.{to_vec, can_drop}
use rtmpx.Chunk.Wire.{wire}
use rtmpx.Chunk.Decoder.{MessageDecoder, decode_input}
use rtmpx.Chunk.RoundTrip.Turns.{owned}
use rtmpx.Chunk.RoundTrip.Whole.{body_of}
use rtmpx.Chunk.RoundTrip.Sync.{Sync}
use rtmpx.Chunk.RoundTrip.Kept.{IsSendable, encoded, dropped-Sync}
use rtmpx.Chunk.RoundTrip.Delivery.{to_vec-wire}
use rtmpx.Chunk.RoundTrip.Decode.{Accepts}
use rtmpx.Chunk.RoundTrip.Sent.{
  sent, after, first_piece, other_pieces, decodes_sent, decoded_bytes, after-Sync,
}

-- A short message is encoded.
pub encode-short :
    (e : ChunkEncoder) (m : RawMessage Payload) (options : EncodeOptions)
    → m.body.len ≤ 0xff_ffff
    → encode e m options
      ≡ ok (
        encoded e m (chosen e m options).0,
        packet_of e.max_chunk_size m.body options (chosen e m options),
      )
unfolding encode
encode-short e m options short = ground (arith, short)

-- What the sender and the receiver of a message end in.
pub record Delivered (capacity_of : ℕ → ℕ) (e : ChunkEncoder) (d : MessageDecoder)
    (m : RawMessage Payload) (options : EncodeOptions) : Type 0 where
  pub sender : ChunkEncoder
  pub packet : Packet
  pub bytes : List Byte
  pub receiver : MessageDecoder
  pub body : Payload
  pub encodes : encode e m options ≡ ok (sender, packet)
  pub written : to_vec packet ≡ some bytes
  pub decodes :
      (rest : List Byte)
      → decode_input capacity_of d (owned (bytes ++ rest))
        ≡ ok (receiver, owned rest, some (record m { body = body }))
  pub same_bytes : to_bytes body ≡ to_bytes m.body
  pub in_sync : Sync sender receiver.parser
  pub kept : receiver ≡ record d { parser = receiver.parser }
  pub kept_limits : receiver.parser.limits ≡ d.parser.limits
  pub kept_size : receiver.parser.chunk_size ≡ d.parser.chunk_size

-- Where encoder and decoder agree, and the message is sendable, its payload valid and within the
-- decoder's limits: it is encoded, all bytes of its packet are decoded to a message with its fields
-- and its bytes, whatever bytes follow, and then encoder and decoder agree again.
pub encode-decode :
    (capacity_of : ℕ → ℕ) (e : ChunkEncoder) (d : MessageDecoder) (m : RawMessage Payload)
    (options : EncodeOptions)
    → Sync e d.parser
    → IsSendable m
    → IsValid m.body
    → Accepts d m
    → Delivered capacity_of e d m options
encode-decode capacity_of e d m options sync sendable valid accepts = record {
  sender = encoded e m (chosen e m options).0;
  packet = packet_of e.max_chunk_size m.body options (chosen e m options);
  bytes = sent e d m options sync sendable valid accepts;
  receiver = after e d m options sync sendable valid accepts;
  body =
      body_of (first_piece e d m options sync sendable valid accepts)
        (other_pieces e d m options sync sendable valid accepts);
  encodes = encode-short e m options sendable.short;
  written =
      to_vec-wire e.max_chunk_size m.body options (chosen e m options).0 (chosen e m options).1
        valid positive
      ∙ ap some same_wire;
  decodes = λ rest. decodes_sent e d m options sync sendable valid accepts capacity_of rest;
  same_bytes = decoded_bytes e d m options sync sendable valid accepts;
  in_sync = after-Sync e d m options sync sendable valid accepts;
  kept = refl;
  kept_limits = refl;
  kept_size = refl;
}
  where
    positive : 0 < e.max_chunk_size
    positive = omega (arith, sync.sizes, sync.positive)

    wire_sent : ℕ → List Byte → List Byte
    wire_sent size content =
        wire (encode_header (chosen e m options).0 (chosen e m options).1)
          (encode_header (chosen e m options).0 (if is_full options.headers then full else empty))
          size content

    same_wire :
        wire_sent e.max_chunk_size (flatten (segments m.body))
        ≡ wire_sent d.parser.chunk_size (to_bytes m.body)
    same_wire = rw (sync.sizes, to_bytes-segments m.body) refl

can_drop-is_allowed :
    (e : ChunkEncoder) (m : RawMessage Payload) (options : EncodeOptions)
    → can_drop (packet_of e.max_chunk_size m.body options (chosen e m options)) ≡ true
    → is_allowed options.drop_policy ≡ true
unfolding can_drop packet_of
can_drop-is_allowed e m options may = ground (arith, may)

-- Where encoder and decoder agree and a sendable message was encoded, the encoder still agrees with
-- the decoder if the packet is left out, provided that `can_drop` holds of it.
pub encode-drop :
    (e e' : ChunkEncoder) (d : MessageDecoder) (m : RawMessage Payload) (options : EncodeOptions)
    (packet : Packet)
    → Sync e d.parser
    → IsSendable m
    → encode e m options ≡ ok (e', packet)
    → can_drop packet ≡ true
    → Sync e' d.parser
encode-drop e e' d m options packet sync sendable encodes may =
    let same = sym (encode-short e m options sendable.short) ∙ encodes in
    let (same_encoder, same_packet) : (encoded e m (chosen e m options).0 ≡ e')
        × (packet_of e.max_chunk_size m.body options (chosen e m options) ≡ packet) =
      (cc, cc) in
    rw (sym same_encoder) (
      dropped-Sync e d.parser m options sync sendable
        (can_drop-is_allowed e m options (ap can_drop same_packet ∙ may)))
