-- ===== src/Chunk/RoundTrip/Sent.antt =====
-- The bytes of a sent message, decoded.
use rtmpx.Prelude.{
  ℕ, ◌+◌, ◌-◌, ◌≤◌, ◌≡◌, refl, sym, ap, ◌∙◌, min, true, false, none, some, List, ◌∷◌, ◌++◌,
  append_assoc, length, take, drop, get_or, length-take, length-drop, take-append-drop,
  if◌then◌else◌, ok, arith,
}
use rtmpx.Prelude.Bytes.{Byte}
use rtmpx.Prelude.Map.{lookup}
use rtmpx.Payload.{Payload, to_bytes}
use rtmpx.Payload.Segments.{IsValid, to_bytes-segments}
use rtmpx.Messages.Raw.{RawMessage}
use rtmpx.Chunk.Types.{ChunkHeaderFormat, full, empty, ChunkHeader}
use rtmpx.Chunk.Encoder.{
  ChunkEncoder, EncodeOptions, encode_header, chosen, is_full, plain_header, slot_of,
}
use rtmpx.Chunk.Parser.{is_none}
use rtmpx.Chunk.Parser.Begin.{begin_chunk}
use rtmpx.Chunk.Decoder.{MessageDecoder, message_of, decode_loop, decode_input}
use rtmpx.Chunk.Wire.{Chunks, joined, pieces, wire, pieces_lem, length-pieces}
use rtmpx.Chunk.RoundTrip.Headers.{IsWire, parsed}
use rtmpx.Chunk.RoundTrip.Begin.{Admits, begun, begin_start}
use rtmpx.Chunk.RoundTrip.Turns.{within, owned, HasRoom}
use rtmpx.Chunk.RoundTrip.Whole.{body_of}
use rtmpx.Chunk.RoundTrip.Whole.{message_decodes}
use rtmpx.Chunk.RoundTrip.Sync.{Sync, missing, Inactive-of_count, Follows}
use rtmpx.Chunk.RoundTrip.Kept.{
  IsSendable, encoded, header-IsWire, header-Follows, id_is, length_is, stream_is, type_is,
  timestamp_is, within-Sync, forced_repeats,
}
use rtmpx.Chunk.RoundTrip.Decode.{missing-le, length-later, length-within, body_of-bytes, Accepts}

module _ (e : ChunkEncoder) (d : MessageDecoder) (m : RawMessage Payload) (options : EncodeOptions)
    (sync : Sync e d.parser) (sendable : IsSendable m) (valid : IsValid m.body)
    (accepts : Accepts d m) where
  abbrev pub header : ChunkHeader
  header = (chosen e m options).0

  abbrev pub format : ChunkHeaderFormat
  format = (chosen e m options).1

  abbrev pub repeat_format : ChunkHeaderFormat
  repeat_format = if is_full options.headers then full else empty

  abbrev pub content : List Byte
  content = to_bytes m.body

  abbrev pub size : ℕ
  size = d.parser.chunk_size

  pub content-length : length content ≡ m.body.len
  content-length = ap length (to_bytes-segments m.body) ∙ sym valid.measured

  pub repeats : repeat_format ≡ full → header.timestamp_field ≡ header.timestamp.value
  repeats =
      forced_repeats (get_or e.previous_headers (slot_of m) none) (is_full options.headers)
        (plain_header m options.drop_policy) refl

  pub admits : Admits d.parser header.chunk_stream_id header.message_length
  admits = record {
    size_fits = rw (length_is e d.parser m options sync sendable) accepts.size_fits;
    stream_fits = λ none_there. omega (
      arith,
      sync.tracked,
      missing_here none_there,
      missing-le d.parser.streams header.chunk_stream_id wire_header.id_low wire_header.id_high,
      accepts,
    );
    partial_fits = λ _. omega (arith, sync.idle, accepts);
  }
    where
      wire_header : IsWire header
      wire_header = header-IsWire e d.parser m options sync sendable

      missing_here :
          is_none (lookup header.chunk_stream_id d.parser.streams) ≡ true
          → missing d.parser.streams header.chunk_stream_id ≡ 1
      missing_here n = ground arith

  pub follows : Follows header format (lookup header.chunk_stream_id d.parser.streams)
  follows =
      rw (id_is e d.parser m options sync sendable)
        (header-Follows e d.parser m options sync sendable)

  pub starts :
      begin_chunk (record (d.parser) { scratch = encode_header header format })
      ≡ ok (begun d.parser header format 0)
  starts =
      let old = lookup header.chunk_stream_id d.parser.streams in
      begin_start d.parser header (header-IsWire e d.parser m options sync sendable) format old refl
        follows.known follows.recalls
        (Inactive-of_count d.parser.streams header.chunk_stream_id sync.idle) follows.timed admits

  pub room :
      (chunks : ℕ)
      → chunks ≤ d.limits.maximum_fragments_per_message
      → HasRoom d header.chunk_stream_id header.message_length chunks
  room chunks few = record {
    fresh = rw accepts.quiet (unfold lookup in refl);
    buffer_fits = rw (length_is e d.parser m options sync sendable) accepts.buffer_fits;
    reserve_fits = rw (length_is e d.parser m options sync sendable) accepts.reserve_fits;
    usize_fits = accepts.usize_fits;
    slot_fits = rw accepts.quiet accepts.slots_fit;
    fragments_fit = few;
  }

  -- The wire bytes that `encode` prepares.
  abbrev pub sent : List Byte
  sent = wire (encode_header header format) (encode_header header repeat_format) size content

  -- The first piece of the content, and the others.
  abbrev pub first_piece : List Byte
  first_piece = take size content

  abbrev pub other_pieces : List (List Byte)
  other_pieces = pieces size (drop size content)

  abbrev pub after : MessageDecoder
  after = record d { parser = within d.parser header header.message_length false }

  pub few_pieces : length other_pieces + 1 ≤ d.limits.maximum_fragments_per_message
  few_pieces = rw (length-pieces size content sync.positive, content-length) (accepts.fragments_fit)

  pub first_length : length first_piece ≡ min header.message_length d.parser.chunk_size
  first_length = omega (
    arith,
    length-take size content,
    content-length,
    length_is e d.parser m options sync sendable,
  )

  pub others_cut : Chunks size (header.message_length - length first_piece) other_pieces
  others_cut = rw left (pieces_lem size (drop size content) sync.positive).1
    where
      left : header.message_length - length first_piece ≡ length (drop size content)
      left = omega (
        arith,
        length-take size content,
        length-drop size content,
        content-length,
        length_is e d.parser m options sync sendable,
      )

  pub later_bytes : List Byte
  later_bytes = joined (encode_header header repeat_format) other_pieces

  pub sent_split :
      (rest : List Byte)
      → sent ++ rest ≡ encode_header header format ++ (first_piece ++ (later_bytes ++ rest))
  unfolding later_bytes
  sent_split rest =
      append_assoc (encode_header header format) (first_piece ++ later_bytes) rest
      ∙ ap (λ x. encode_header header format ++ x) (append_assoc first_piece later_bytes rest)

  pub enough : (rest : List Byte) → length (first_piece ∷ other_pieces) ≤ length (sent ++ rest) + 1
  enough rest = omega (
    arith,
    length-later header repeat_format other_pieces,
    length-within (encode_header header format) first_piece
        (joined (encode_header header repeat_format) other_pieces) rest,
  )

  pub message_is :
      (body : Payload) → message_of (parsed header header.timestamp) body ≡ record m { body = body }
  message_is body = λ i. record {
    timestamp = timestamp_is e d.parser m options sync sendable i;
    type_id = type_is e d.parser m options sync sendable i;
    message_stream_id = stream_is e d.parser m options sync sendable i;
    body = body;
  }

  pub decodes_sent :
      (capacity_of : ℕ → ℕ) (rest : List Byte)
      → decode_input capacity_of d (owned (sent ++ rest))
        ≡ ok (after, owned rest, some (record m { body = body_of first_piece other_pieces }))
  unfolding decode_input later_bytes
  decodes_sent capacity_of rest =
      let fuel = length (sent ++ rest) + 1 in
      ap (λ x. decode_loop capacity_of fuel d (owned x)) (sent_split rest)
      ∙ message_decodes capacity_of d d.parser header
          (header-IsWire e d.parser m options sync sendable) repeat_format (length other_pieces + 1)
          repeats admits.size_fits (room (length other_pieces + 1) few_pieces) format sync.free
          sync.clear follows.known starts first_piece other_pieces rest fuel first_length others_cut
          sync.positive (omega arith) (enough rest)
      ∙ ap (λ x. ok (after, owned rest, some x)) (message_is (body_of first_piece other_pieces))

  -- The decoded body has the message's bytes.
  pub decoded_bytes : to_bytes (body_of first_piece other_pieces) ≡ content
  decoded_bytes =
      body_of-bytes first_piece other_pieces
      ∙ ap (λ x. first_piece ++ x) (pieces_lem size (drop size content) sync.positive).0
      ∙ take-append-drop size content

  pub after-Sync : Sync (encoded e m header) after.parser
  after-Sync = within-Sync e d.parser m options sync sendable
