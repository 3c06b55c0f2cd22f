-- ===== src/Chunk/RoundTrip/Delivery.antt =====
-- From `encode` over the packet's bytes to `decode_input`.
use rtmpx.Prelude.{
  ℕ, ◌-◌, ◌<◌, ◌≡◌, refl, ap, ◌∙◌, some, List, [], ◌++◌, length, length-append, take, drop,
  take-append-drop, if◌then◌else◌, arith,
}
use rtmpx.Prelude.Bytes.{Byte}
use rtmpx.Payload.{Payload, flatten, segments}
use rtmpx.Payload.Segments.{IsValid}
use rtmpx.Chunk.Types.{ChunkHeaderFormat, full, empty, ChunkHeader}
use rtmpx.Chunk.Encoder.{
  EncodeOptions, Packet, start, encode_header, packet_of, is_full, chunk_count,
}
use rtmpx.Chunk.Packet.{copy_loop, to_vec}
use rtmpx.Payload.Walk.{next_segment}
use rtmpx.Chunk.Packet.Progress.{IsSound, Standing}
use rtmpx.Chunk.Packet.Turned.{rest_wire, left_over-start}
use rtmpx.Chunk.Packet.Copy.{HasLeft, placed, copy_loop_lem}
use rtmpx.Chunk.Wire.{joined, pieces, wire, pieces_lem, length-pieces, length-joined}

-- The packet before its first byte is written.
module _ (size : ℕ) (payload : Payload) (options : EncodeOptions) (h : ChunkHeader)
    (format : ChunkHeaderFormat) (valid : IsValid payload) (pos : 0 < size) where
  abbrev pub packet : Packet
  packet = packet_of size payload options (h, format)

  abbrev content : List Byte
  content = flatten (segments payload)

  abbrev pub whole : List Byte
  whole =
      wire (encode_header h format)
        (encode_header h (if is_full options.headers then full else empty)) size content

  pub packet-IsSound : IsSound packet
  unfolding packet_of encode_header
  packet-IsSound = record {
    valid = valid;
    sized = pos;
    first_there = omega arith;
    continuation_there = omega arith;
  }

  start-Standing : Standing packet start
  unfolding packet_of encode_header
  start-Standing = record {
    within_segment = λ some_left. next_segment payload 0 valid some_left;
    counted = omega (arith, valid.measured);
    within_chunk = pos;
    within_header = omega arith;
    header_first = λ _. refl;
  }

  start_rest : rest_wire packet start ≡ whole
  unfolding packet_of
  start_rest = left_over-start packet content packet-IsSound

  wire_counted : packet.remaining ≡ length whole
  unfolding packet_of
  wire_counted =
      let cont = encode_header h (if is_full options.headers then full else empty) in
      let others = pieces size (drop size content) in
      let count : chunk_count payload.len size - 1 ≡ length others =
        omega
          (arith, length-pieces size content pos, ap (λ k. chunk_count k size) valid.measured) in
      rw count (
        omega (
          arith,
          valid.measured,
          length-append (encode_header h format) (take size content ++ joined cont others),
          length-append (take size content) (joined cont others),
          length-joined cont others,
          ap length (pieces_lem size (drop size content) pos).0,
          ap length (take-append-drop size content),
          length-append (take size content) (drop size content),
        ))

  -- The whole wire form is left.
  pub packet-HasLeft : HasLeft packet start packet.remaining whole
  packet-HasLeft = record { stands = start-Standing; rest = start_rest; counts = wire_counted }

  -- All that is written of the packet is its wire form.
  pub to_vec-wire : to_vec packet ≡ some whole
  unfolding to_vec
  to_vec-wire =
      ap (λ q. copy_loop packet.remaining q []) packet_placed
      ∙ copy_loop_lem packet packet-IsSound packet.remaining start packet.remaining whole []
          packet-HasLeft (omega arith)
    where
      packet_placed : packet ≡ placed packet start packet.remaining
      packet_placed = unfold packet_of in refl
