-- ===== src/Chunk/RoundTrip/Resize.antt =====
-- A new chunk size from `ChunkEncoder::set_chunk_size` to `MessageDecoder::set_chunk_size`.
use rtmpx.Prelude.{
  ℕ, ◌≤◌, ◌<◌, ◌≡◌, refl, ap, ◌∙◌, some, List, ◌++◌, ok, ◌||◌, ltb, ◌==◌, false, arith,
}
use rtmpx.Prelude.Bytes.{Byte, be32, be32_lem, IsU32}
use rtmpx.Time.{RtmpTimestamp}
use rtmpx.Payload
use rtmpx.Payload.{Payload, from_bytes, to_bytes, push}
use rtmpx.Payload.Segments.{IsValid, new-IsValid, push-IsValid}
use rtmpx.Messages.Raw.{RawMessage, map_data}
use rtmpx.Messages.Message
use rtmpx.Messages.Message.{RtmpMessage, get_message_type_id}
use rtmpx.Messages.Control.{serialize_set_chunk_size, deserialize_set_chunk_size, read_u32}
use rtmpx.Messages.Convert.{AmfBodies, from_rtmp_message, body_bytes, to_rtmp_message}
use rtmpx.Chunk.Encoder.{ChunkEncoder, Packet, EncodeOptions, never, full_headers, encode}
use rtmpx.Chunk.Encoder.Resize
use rtmpx.Chunk.Packet.{to_vec}
use rtmpx.Chunk.Parser
use rtmpx.Chunk.Decoder
use rtmpx.Chunk.Decoder.{MessageDecoder, decode_input}
use rtmpx.Chunk.RoundTrip.Turns.{owned}
use rtmpx.Chunk.RoundTrip.Sync.{Sync}
use rtmpx.Chunk.RoundTrip.Decode.{Accepts}
use rtmpx.Chunk.RoundTrip.Exchange.{encode-decode}

-- The raw message of a new chunk size.
abbrev pub resize_message : ℕ → RtmpTimestamp → RawMessage Payload
resize_message size time = record {
  timestamp = time;
  type_id = 1;
  message_stream_id = 0;
  body = from_bytes (be32 size);
}

-- What the two ends end in.
pub record Resized {V W : Type 0} (amf : AmfBodies V W) (capacity_of : ℕ → ℕ) (e : ChunkEncoder)
    (d : MessageDecoder) (size : ℕ) (time : RtmpTimestamp) : Type 0 where
  pub sender : ChunkEncoder
  pub packet : Packet
  pub bytes : List Byte
  pub message : RawMessage Payload
  pub notified : MessageDecoder
  pub receiver : MessageDecoder
  pub encodes : Resize.set_chunk_size amf e size time ≡ ok (sender, packet)
  pub written : to_vec packet ≡ some bytes
  pub decodes :
      (rest : List Byte)
      → decode_input capacity_of d (owned (bytes ++ rest)) ≡ ok (notified, owned rest, some message)
  pub means : to_rtmp_message amf (map_data to_bytes message) ≡ ok (Message.set_chunk_size size)
  pub applies : Decoder.set_chunk_size notified size ≡ ok receiver
  pub in_sync : Sync sender receiver.parser
  pub new_size : sender.max_chunk_size ≡ size

resize_message-IsValid : (size : ℕ) (time : RtmpTimestamp) → IsValid (resize_message size time).body
unfolding from_bytes push
resize_message-IsValid size time = push-IsValid Payload.new (be32 size) new-IsValid

module _ {V W : Type 0} (amf : AmfBodies V W) (e : ChunkEncoder) (size : ℕ) (time : RtmpTimestamp)
    (pos : 0 < size) (word : size ≤ 0x7fff_ffff) where
  resize-encode :
      (sender : ChunkEncoder) (packet : Packet)
      → encode e (resize_message size time) (record { drop_policy = never; headers = full_headers })
        ≡ ok (sender, packet)
      → Resize.set_chunk_size amf e size time ≡ ok (record sender { max_chunk_size = size }, packet)
  unfolding Resize.set_chunk_size from_rtmp_message body_bytes get_message_type_id
      serialize_set_chunk_size
  resize-encode sender packet encodes =
      let in_range : (size == 0 || ltb 0x7fff_ffff size) ≡ false = ground (arith, pos, word) in
      let short : ltb 0x7fff_ffff size ≡ false = ground (arith, word) in
      rw (in_range, short, encodes) refl

  resize_means :
      to_rtmp_message amf (map_data to_bytes (resize_message size time))
      ≡ ok (Message.set_chunk_size size)
  unfolding to_rtmp_message deserialize_set_chunk_size read_u32 to_bytes from_bytes push
  resize_means = rw (be32_lem size (omega (arith, word))) (ground (arith, word))

apply_size :
    (d : MessageDecoder) (size : ℕ)
    → 0 < size
    → size ≤ 0x7fff_ffff
    → size ≤ d.parser.limits.maximum_chunk_size
    → Decoder.set_chunk_size d size
      ≡ ok (record d { parser = record (d.parser) { chunk_size = size } })
unfolding Decoder.set_chunk_size Parser.set_chunk_size
apply_size d size pos low fits =
    let in_range : (size == 0
          || ltb 0x7fff_ffff size
          || ltb d.parser.limits.maximum_chunk_size size)
        ≡ false =
      ground (arith, pos, low, fits) in
    rw in_range refl

-- Where encoder and decoder agree, a new chunk size from 1 to 2³¹ - 1 within the decoder's limits is
-- encoded; the decoder, still at the old size, decodes the packet to a message that means the new
-- size, accepts that size, and then agrees with the encoder, which has it too.
pub set_chunk_size-decode :
    {V W : Type 0} (amf : AmfBodies V W) (capacity_of : ℕ → ℕ) (e : ChunkEncoder)
    (d : MessageDecoder) (size : ℕ) (time : RtmpTimestamp)
    → Sync e d.parser
    → Accepts d (resize_message size time)
    → IsU32 time.value
    → 0 < size
    → size ≤ 0x7fff_ffff
    → size ≤ d.parser.limits.maximum_chunk_size
    → Resized amf capacity_of e d size time
unfolding from_bytes
set_chunk_size-decode amf capacity_of e d size time sync accepts word pos low fits =
    let options : EncodeOptions = record { drop_policy = never; headers = full_headers } in
    let first =
      encode-decode capacity_of e d (resize_message size time) options sync
        (record { time_word = word; stream_word = omega arith; short = omega arith })
        (resize_message-IsValid size time) accepts in
    let synced = first.in_sync in
    let limits_kept = first.kept_limits in
    record {
      sender = record (first.sender) { max_chunk_size = size };
      packet = first.packet;
      bytes = first.bytes;
      message = record (resize_message size time) { body = first.body };
      notified = first.receiver;
      receiver = record (first.receiver) {
        parser = record (first.receiver.parser) { chunk_size = size };
      };
      encodes = resize-encode amf e size time pos low first.sender first.packet first.encodes;
      written = first.written;
      decodes = first.decodes;
      means =
          ap (λ b. to_rtmp_message amf (map_data (λ _. b) (resize_message size time)))
            first.same_bytes
          ∙ resize_means amf e size time pos low;
      applies = apply_size first.receiver size pos low (rw limits_kept fits);
      in_sync = record {
        sizes = refl;
        positive = pos;
        free = synced.free;
        clear = synced.clear;
        idle = synced.idle;
        five = synced.five;
        tracked = synced.tracked;
        agrees = synced.agrees;
      };
      new_size = refl;
    }
