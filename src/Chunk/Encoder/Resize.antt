-- ===== src/Chunk/Encoder/Resize.antt =====
-- Messages that the encoder builds or takes whole (`set_chunk_size` and `serialize` of
-- src/chunk_io/serializer.rs).
use rtmpx.Prelude.{ℕ, Bool, ◌||◌, ltb, ◌==◌, List, if◌then◌else◌, Outcome, ok, err, stuck, ◌>>=◌}
use rtmpx.Prelude.Bytes.{Byte}
use rtmpx.Time.{RtmpTimestamp}
use rtmpx.Payload.{from_bytes}
use rtmpx.Messages.Raw.{RawMessage, map_data}
use rtmpx.Messages.Message
use rtmpx.Messages.Message.{RtmpMessage, MessageSerializationError}
use rtmpx.Messages.Convert.{AmfBodies, from_rtmp_message}
use rtmpx.Chunk.Encoder.{
  ChunkEncoder, Packet, EncodeError, invalid_max_chunk_size,
  set_chunk_size_message_creation_failure, never, allowed, compressed, full_headers, encode,
}

-- The conversion that `?` makes of the error.
abbrev pub created :
    Outcome MessageSerializationError (RawMessage (List Byte))
    → Outcome EncodeError (RawMessage (List Byte))
created (ok raw) = ok raw
created (err e) = err (set_chunk_size_message_creation_failure e)
created stuck = stuck

-- The message is encoded with the old chunk size, and the encoder then has the new one.
unfoldable pub set_chunk_size :
    {V W : Type 0}
    → AmfBodies V W
    → ChunkEncoder
    → ℕ
    → RtmpTimestamp
    → Outcome EncodeError (ChunkEncoder × Packet)
set_chunk_size {V = V} {W = W} amf e size time =
    let message : RtmpMessage V W = Message.set_chunk_size size in
    if size == 0 || ltb 0x7fff_ffff size
    then err (invalid_max_chunk_size size)
    else created (from_rtmp_message amf message time 0) >>= λ raw.
        encode e (map_data from_bytes raw) (record { drop_policy = never; headers = full_headers })
        >>= λ (e', packet). ok (record e' { max_chunk_size = size }, packet)

unfoldable pub serialize :
    ChunkEncoder
    → RawMessage (List Byte)
    → Bool
    → Bool
    → Outcome EncodeError (ChunkEncoder × Packet)
serialize e message full droppable = encode e (map_data from_bytes message) (record {
  headers = if full then full_headers else compressed;
  drop_policy = if droppable then allowed else never;
})
