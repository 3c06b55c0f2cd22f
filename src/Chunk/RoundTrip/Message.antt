-- ===== src/Chunk/RoundTrip/Message.antt =====
-- The later chunks of a message.
use rtmpx.Prelude.{
  ℕ, ◌+◌, ◌-◌, ◌≤◌, ◌<◌, ◌≡◌, refl, ◌∙◌, min, true, false, some, List, ◌++◌, length, ◌==◌,
  if◌then◌else◌, ok, arith,
}
use rtmpx.Prelude.Bytes.{Byte}
use rtmpx.Prelude.Map.{insert-insert, lookup-insert_self}
use rtmpx.Payload.{Payload, push}
use rtmpx.Payload.Segments.{len-push}
use rtmpx.Chunk.Types.{
  ChunkHeaderFormat, full, time_delta_without_message_stream_id, time_delta_only, empty,
  ChunkHeader,
}
use rtmpx.Chunk.Encoder.{encode_header}
use rtmpx.Chunk.Wire.{joined}
use rtmpx.Chunk.Parser.{ChunkParser}
use rtmpx.Chunk.Parser.Consume.{consume}
use rtmpx.Chunk.RoundTrip.Headers.{IsWire, TimeKnown, Recalls, parsed}
use rtmpx.Chunk.RoundTrip.Begin.{stream_for, begin_continue}
use rtmpx.Chunk.RoundTrip.Fragment.{step_of, consume_chunk}
use rtmpx.Chunk.RoundTrip.Turns.{within, HasRoom}
use rtmpx.Chunk.Decoder.{MessageDecoder}

-- The wire bytes of the chunks behind the first one.
abbrev pub later : ChunkHeader → ChunkHeaderFormat → List (List Byte) → List Byte
later h cf bs = joined (encode_header h cf) bs

pub known_again :
    (h : ChunkHeader) (cf : ChunkHeaderFormat) (received : ℕ)
    → TimeKnown h cf (some (stream_for h received true)) × Recalls h cf (parsed h h.timestamp)
known_again h full received = (tt, refl)
known_again h time_delta_without_message_stream_id received = (tt, (refl, refl))
known_again h time_delta_only received = (tt, (refl, refl, refl, refl))
known_again h empty received = ((stream_for h received true, refl, refl), (refl, refl, refl, refl))

-- A continuation chunk, read by the parser in the middle of the message.
pub consume_later :
    (p : ChunkParser) (h : ChunkHeader) (w : IsWire h) (cf : ChunkHeaderFormat) (received : ℕ)
    (chunk rest : List Byte)
    → (cf ≡ full → h.timestamp_field ≡ h.timestamp.value)
    → h.message_length ≤ p.limits.maximum_message_size
    → received ≤ h.message_length
    → length chunk ≡ min (h.message_length - received) p.chunk_size
    → consume (within p h received true) (encode_header h cf ++ (chunk ++ rest))
      ≡ ok (
        within p h
            (received + length chunk)
            (if received + length chunk == h.message_length then false else true),
        step_of h cf received chunk,
      )
consume_later p h w cf received chunk rest t s r fits =
    let found = lookup-insert_self h.chunk_stream_id (stream_for h received true) p.streams in
    let (k, rec) = known_again h cf received in
    let q = within p h received true in
    consume_chunk q h w cf received refl refl (rw found k)
      (begin_continue q h w cf received found t s r k rec) chunk rest fits
    ∙ rw (
        insert-insert h.chunk_stream_id
          (stream_for h (received + length chunk)
            (if received + length chunk == h.message_length then false else true))
          (stream_for h received true) p.streams)

pub ne→== : (a b : ℕ) → a < b → (a == b) ≡ false
ne→== a b h = ground arith

pub eq→== : (a : ℕ) → (a == a) ≡ true
eq→== a = ground arith

-- The last fragment gives back what the partial message had taken.
pub returned :
    (n : ℕ) (body : Payload) (b : List Byte) → n + body.len + length b - (push body b).len ≡ n
returned n body b = omega (arith, len-push body b)

pub same_room :
    {d : MessageDecoder} {p : ChunkParser} {csid len n : ℕ}
    → HasRoom d csid len n
    → HasRoom (record d { parser = p }) csid len n
same_room r = record {
  fresh = r.fresh;
  buffer_fits = r.buffer_fits;
  reserve_fits = r.reserve_fits;
  usize_fits = r.usize_fits;
  slot_fits = r.slot_fits;
  fragments_fit = r.fragments_fit;
}

pub fewer_room :
    {d : MessageDecoder} {csid len m n : ℕ} → HasRoom d csid len n → m ≤ n → HasRoom d csid len m
fewer_room r le = record {
  fresh = r.fresh;
  buffer_fits = r.buffer_fits;
  reserve_fits = r.reserve_fits;
  usize_fits = r.usize_fits;
  slot_fits = r.slot_fits;
  fragments_fit = omega (arith, r);
}

-- The body of a message that came in these pieces.
