-- ===== src/Chunk/RoundTrip/Turns.antt =====
-- One turn of the decoder's loop on a whole encoded chunk.
use rtmpx.Prelude.{
  ℕ, ◌+◌, ◌-◌, ◌^◌, ◌≤◌, ◌<◌, ◌≡◌, refl, Bool, true, none, some, List, [], ◌++◌, length, ok, ◌>>=◌,
  arith,
}
use rtmpx.Prelude.Bytes.{Byte}
use rtmpx.Prelude.Map.{lookup, insert, remove, insert-insert}
use rtmpx.Payload
use rtmpx.Payload.{Payload, push, from_bytes, segment_count}
use rtmpx.Chunk.Types.{ChunkHeaderFormat, ChunkHeader, MessageFragment}
use rtmpx.Chunk.Encoder.{encode_header}
use rtmpx.Chunk.Parser.{ChunkParser}
use rtmpx.Chunk.Parser.Consume.{consume}
use rtmpx.Chunk.Parser.Reading.{take-append, drop-append}
use rtmpx.Chunk.RoundTrip.Headers.{parsed}
use rtmpx.Chunk.RoundTrip.Begin.{stream_for}
use rtmpx.Chunk.RoundTrip.Fragment.{step_of}
use rtmpx.Chunk.Decoder.{
  MessageDecoder, Input, again, complete, segmented, message_of, turn, turn_with, place_fragment,
}

-- The parser within a message of `h` and behind it.
abbrev pub within : ChunkParser → ChunkHeader → ℕ → Bool → ChunkParser
within p h received active = record p {
  scratch = [];
  chunk_left = 0;
  current = none;
  streams = insert h.chunk_stream_id (stream_for h received active) p.streams;
}

-- The decoder that holds `body` of the message of `h`.
abbrev pub holding : MessageDecoder → ChunkParser → ChunkHeader → Payload → MessageDecoder
holding d p h body = record d {
  parser = within p h body.len true;
  partials = insert h.chunk_stream_id (segmented body) d.partials;
  buffered = d.buffered + body.len;
  reserved = d.reserved + body.len;
}

abbrev pub owned : List Byte → Input
owned b = record { owned = true; bytes = b }

-- The decoder has room for a message of this length in so many chunks.
pub record HasRoom (d : MessageDecoder) (csid len chunks : ℕ) : Type 0 where
  pub fresh : lookup csid d.partials ≡ none
  pub buffer_fits : d.buffered + len ≤ d.limits.maximum_buffered_bytes
  pub reserve_fits : d.reserved + len ≤ d.limits.maximum_buffered_bytes
  pub usize_fits : d.limits.maximum_buffered_bytes < 2 ^ 64 - 1
  pub slot_fits : length d.partials < d.limits.maximum_partial_messages
  pub fragments_fit : chunks ≤ d.limits.maximum_fragments_per_message

abbrev fragment_of : ChunkHeader → ℕ → List Byte → MessageFragment
fragment_of h received chunk = record {
  header = parsed h h.timestamp;
  offset = received;
  bytes = chunk;
}

module _ (capacity_of : ℕ → ℕ) where
  -- A turn hands the chunk's payload to `place_fragment`.
  pub turn-consume :
      (d : MessageDecoder) (p' : ChunkParser) (h : ChunkHeader) (format : ChunkHeaderFormat)
      (received : ℕ) (chunk rest : List Byte)
      → consume d.parser (encode_header h format ++ (chunk ++ rest))
        ≡ ok (p', step_of h format received chunk)
      → turn capacity_of d (owned (encode_header h format ++ (chunk ++ rest))) ≡ (
          place_fragment capacity_of
            (record d { parser = p' })
            true
            (fragment_of h received chunk)
            chunk
            (lookup h.chunk_stream_id d.partials)
          >>= λ (d', t). ok (d', owned rest, t))
  unfolding turn turn_with
  turn-consume d p' h format received chunk rest e =
      let header = encode_header h format in
      let skip : length header + length chunk - length chunk ≡ length header = omega arith in
      rw
        (
          e,
          skip,
          drop-append header (chunk ++ rest),
          take-append chunk rest,
          drop-append chunk rest,
        )
        refl

  -- A message of one chunk is complete at once.
  pub place_whole :
      (d : MessageDecoder) (h : ChunkHeader) (chunk : List Byte)
      → length chunk ≡ h.message_length
      → HasRoom d h.chunk_stream_id h.message_length 1
      → place_fragment capacity_of d true (fragment_of h 0 chunk) chunk none
        ≡ ok (d, complete (message_of (parsed h h.timestamp) (from_bytes chunk)))
  unfolding place_fragment
  place_whole d h chunk e room = ground arith

  -- The first chunk of several opens a partial message.
  pub place_first :
      (d : MessageDecoder) (h : ChunkHeader) (chunk : List Byte) (chunks : ℕ)
      → length chunk < h.message_length
      → 0 < length chunk
      → 0 < chunks
      → HasRoom d h.chunk_stream_id h.message_length chunks
      → place_fragment capacity_of d true (fragment_of h 0 chunk) chunk none
        ≡ ok (
          record d {
            partials = insert h.chunk_stream_id (segmented (push Payload.new chunk)) d.partials;
            buffered = d.buffered + length chunk;
            reserved = d.reserved + length chunk;
          },
          again,
        )
  unfolding place_fragment segment_count
  place_first d h chunk chunks lt pos many room = ground (
    arith,
    insert-insert h.chunk_stream_id (segmented (push Payload.new chunk)) (segmented Payload.new)
        d.partials,
  )

  -- A fragment that does not complete the message joins its partial message.
  pub place_middle :
      (d : MessageDecoder) (h : ChunkHeader) (body : Payload) (chunk : List Byte)
      → body.len + length chunk < h.message_length
      → segment_count body < d.limits.maximum_fragments_per_message
      → d.buffered + length chunk ≤ d.limits.maximum_buffered_bytes
      → d.reserved + length chunk ≤ d.limits.maximum_buffered_bytes
      → d.limits.maximum_buffered_bytes < 2 ^ 64 - 1
      → place_fragment capacity_of d true
          (fragment_of h body.len chunk)
          chunk
          (some (segmented body))
        ≡ ok (
          record d {
            partials = insert h.chunk_stream_id (segmented (push body chunk)) d.partials;
            buffered = d.buffered + length chunk;
            reserved = d.reserved + length chunk;
          },
          again,
        )
  unfolding place_fragment
  place_middle d h body chunk lt few b r u = ground arith

  -- The last fragment completes it, and gives back all that the partial message held.
  pub place_last :
      (d : MessageDecoder) (h : ChunkHeader) (body : Payload) (chunk : List Byte)
      → body.len + length chunk ≡ h.message_length
      → segment_count body < d.limits.maximum_fragments_per_message
      → d.buffered + length chunk ≤ d.limits.maximum_buffered_bytes
      → d.reserved + length chunk ≤ d.limits.maximum_buffered_bytes
      → d.limits.maximum_buffered_bytes < 2 ^ 64 - 1
      → place_fragment capacity_of d true
          (fragment_of h body.len chunk)
          chunk
          (some (segmented body))
        ≡ ok (
          record d {
            partials = remove h.chunk_stream_id d.partials;
            buffered = d.buffered + length chunk - (push body chunk).len;
            reserved = d.reserved + length chunk - (push body chunk).len;
          },
          complete (message_of (parsed h h.timestamp) (push body chunk)),
        )
  unfolding place_fragment
  place_last d h body chunk lt few b r u = ground arith
