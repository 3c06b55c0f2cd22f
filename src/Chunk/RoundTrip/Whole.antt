-- ===== src/Chunk/RoundTrip/Whole.antt =====
-- All chunks of one message, decoded in one call.
use rtmpx.Prelude.{
  ℕ, zero, suc, ◌+◌, ◌-◌, ◌≤◌, ◌<◌, ◌≡◌, ◌∙◌, min, true, false, none, some, List, [], ◌∷◌, ◌++◌,
  append-nil, append_assoc, length, ◌==◌, if◌then◌else◌, ok, ◌>>=◌, arith,
}
use rtmpx.Prelude.Bytes.{Byte}
use rtmpx.Prelude.Map.{lookup, remove-insert, insert-insert, lookup-insert_self}
use rtmpx.Payload
use rtmpx.Payload.{Payload, push, push_all, from_bytes, segment_count}
use rtmpx.Payload.Segments.{len-push, segment_count-push, segment_count-push-new}
use native.Mathlib.Nat.{add_assoc, zero-add}
use rtmpx.Messages.Raw.{RawMessage}
use rtmpx.Chunk.Types.{ChunkHeaderFormat, full, ChunkHeader}
use rtmpx.Chunk.Encoder.{encode_header}
use rtmpx.Chunk.Wire.{Chunks}
use rtmpx.Chunk.Parser.{ChunkParser}
use rtmpx.Chunk.Parser.Begin.{begin_chunk}
use rtmpx.Chunk.RoundTrip.Headers.{IsWire, TimeKnown, parsed}
use rtmpx.Chunk.RoundTrip.Begin.{begun}
use rtmpx.Chunk.RoundTrip.Fragment.{consume_chunk}
use rtmpx.Chunk.RoundTrip.Turns.{
  within, holding, owned, HasRoom, turn-consume, place_whole, place_first, place_middle, place_last,
}
use rtmpx.Chunk.Decoder.{
  MessageDecoder, Input, again, complete, segmented, message_of, turn, place_fragment, decode_loop,
}
use rtmpx.Chunk.RoundTrip.Message.{
  later, consume_later, ne→==, eq→==, returned, same_room, fewer_room,
}

abbrev pub body_of : List Byte → List (List Byte) → Payload
body_of b [] = from_bytes b
body_of b (b₁ ∷ bs) = push_all (push Payload.new b) (b₁ ∷ bs)

module _ (capacity_of : ℕ → ℕ) where
  pub loop-again :
      (f : ℕ) (d : MessageDecoder) (i : Input) {d' : MessageDecoder} {i' : Input}
      → turn capacity_of d i ≡ ok (d', i', again)
      → decode_loop capacity_of (suc f) d i ≡ decode_loop capacity_of f d' i'
  unfolding decode_loop
  loop-again f d i e = rw e

  pub loop-complete :
      (f : ℕ) (d : MessageDecoder) (i : Input) {d' : MessageDecoder} {i' : Input}
      {m : RawMessage Payload}
      → turn capacity_of d i ≡ ok (d', i', complete m)
      → decode_loop capacity_of (suc f) d i ≡ ok (d', i', some m)
  unfolding decode_loop
  loop-complete f d i e = rw e

  module _ (d : MessageDecoder) (p : ChunkParser) (h : ChunkHeader) (w : IsWire h)
      (cf : ChunkHeaderFormat) (chunks : ℕ)
      (repeats : cf ≡ full → h.timestamp_field ≡ h.timestamp.value)
      (size_fits : h.message_length ≤ p.limits.maximum_message_size)
      (room : HasRoom d h.chunk_stream_id h.message_length chunks) where
    turn_middle :
        (body : Payload) (b rest : List Byte)
        → length b ≡ min (h.message_length - body.len) p.chunk_size
        → body.len + length b < h.message_length
        → segment_count body < chunks
        → turn capacity_of (holding d p h body) (owned (encode_header h cf ++ (b ++ rest)))
          ≡ ok (holding d p h (push body b), owned rest, again)
    turn_middle body b rest e lt few =
        turn-consume capacity_of (holding d p h body) _ h cf body.len b rest
          (consume_later p h w cf body.len b rest repeats size_fits (omega arith) e)
        ∙ rw
            (
              ne→== _ _ lt,
              lookup-insert_self h.chunk_stream_id (segmented body) d.partials,
              place_middle capacity_of
                  (record (holding d p h body) { parser = within p h (body.len + length b) true }) h
                  body b lt (omega (arith, room)) (omega (arith, room)) (omega (arith, room))
                  (room.usize_fits),
              insert-insert h.chunk_stream_id (segmented (push body b)) (segmented body) d.partials,
              len-push body b,
            )
            (rw
              (add_assoc d.buffered body.len (length b), add_assoc d.reserved body.len (length b)))

    turn_last :
        (body : Payload) (b rest : List Byte)
        → length b ≡ min (h.message_length - body.len) p.chunk_size
        → body.len + length b ≡ h.message_length
        → segment_count body < chunks
        → turn capacity_of (holding d p h body) (owned (encode_header h cf ++ (b ++ rest)))
          ≡ ok (
            record d { parser = within p h h.message_length false },
            owned rest,
            complete (message_of (parsed h h.timestamp) (push body b)),
          )
    turn_last body b rest e all few =
        turn-consume capacity_of (holding d p h body) _ h cf body.len b rest
          (consume_later p h w cf body.len b rest repeats size_fits (omega arith) e)
        ∙ rw (
          all,
          eq→== h.message_length,
          lookup-insert_self h.chunk_stream_id (segmented body) d.partials,
          place_last capacity_of
              (record (holding d p h body) { parser = within p h h.message_length false }) h body b
              all (omega (arith, room)) (omega (arith, room)) (omega (arith, room))
              (room.usize_fits),
          remove-insert h.chunk_stream_id (segmented body) d.partials room.fresh,
          returned d.buffered body b,
          returned d.reserved body b,
        )

    left_over :
        (body : Payload) (b : List Byte)
        → h.message_length - (push body b).len ≡ h.message_length - body.len - length b
    left_over body b = omega (arith, len-push body b)

    -- The chunks behind the first one complete the message.
    message_rest :
        (b : List Byte) (bs : List (List Byte)) (body : Payload) (rest : List Byte) (f : ℕ)
        → Chunks p.chunk_size (h.message_length - body.len) (b ∷ bs)
        → body.len ≤ h.message_length
        → segment_count body + length (b ∷ bs) ≤ chunks
        → length (b ∷ bs) ≤ f
        → decode_loop capacity_of f (holding d p h body) (owned (later h cf (b ∷ bs) ++ rest))
          ≡ ok (
            record d { parser = within p h h.message_length false },
            owned rest,
            some (message_of (parsed h h.timestamp) (push_all body (b ∷ bs))),
          )
    unfolding push_all
    message_rest b bs body rest zero cs le few fuel = absurd (omega arith)
    message_rest b [] body rest (suc f) cs le few fuel =
        rw (append-nil, append_assoc)
          (loop-complete f _ _ (turn_last body b rest cs.0 (omega (arith, cs)) (omega arith)))
    message_rest b (b₁ ∷ bs) body rest (suc f) cs le few fuel =
        rw
          (
            append_assoc (encode_header h cf) (b ++ later h cf (b₁ ∷ bs)) rest,
            append_assoc b (later h cf (b₁ ∷ bs)) rest,
          )
          (loop-again f _ _ (turn_middle body b _ cs.0 (omega (arith, cs)) (omega arith)))
        ∙ message_rest b₁ bs (push body b) rest f (rw (left_over body b) cs.2)
            (omega (arith, cs, len-push body b)) (omega (arith, segment_count-push body b))
            (omega arith)

    len-push-new : (b : List Byte) → (push Payload.new b).len ≡ length b
    len-push-new b = omega (arith, len-push Payload.new b)

    -- A whole message: its first chunk in any format that the parser can follow, then the others.
    module _ (format : ChunkHeaderFormat) (free : p.current ≡ none) (clear : p.scratch ≡ [])
        (known : TimeKnown h format (lookup h.chunk_stream_id p.streams))
        (starts : begin_chunk (record p { scratch = encode_header h format })
          ≡ ok (begun p h format 0)) where
      first_turn :
          (b rest : List Byte)
          → length b ≡ min h.message_length p.chunk_size
          → turn capacity_of
              (record d { parser = p })
              (owned (encode_header h format ++ (b ++ rest)))
            ≡ (place_fragment capacity_of
                  (record d {
                    parser =
                        within p h
                          (length b)
                          (if length b == h.message_length then false else true);
                  })
                  true
                  (record { header = parsed h h.timestamp; offset = 0; bytes = b })
                  b
                  (lookup h.chunk_stream_id d.partials)
                >>= λ (d', t). ok (d', owned rest, t))
      first_turn b rest e = rw zero-add at (
          turn-consume capacity_of (record d { parser = p }) _ h format 0 b rest
            (consume_chunk p h w format 0 clear free known starts b rest (omega arith)))

      whole_turn :
          (b rest : List Byte)
          → length b ≡ h.message_length
          → h.message_length ≤ p.chunk_size
          → HasRoom d h.chunk_stream_id h.message_length 1
          → turn capacity_of
              (record d { parser = p })
              (owned (encode_header h format ++ (b ++ rest)))
            ≡ ok (
              record d { parser = within p h h.message_length false },
              owned rest,
              complete (message_of (parsed h h.timestamp) (from_bytes b)),
            )
      whole_turn b rest e small one =
          first_turn b rest (omega arith)
          ∙ rw (
            e,
            eq→== h.message_length,
            room.fresh,
            place_whole capacity_of (record d { parser = within p h h.message_length false }) h b e
                (same_room one),
          )

      opening_turn :
          (b rest : List Byte)
          → length b ≡ min h.message_length p.chunk_size
          → length b < h.message_length
          → 0 < length b
          → 0 < chunks
          → turn capacity_of
              (record d { parser = p })
              (owned (encode_header h format ++ (b ++ rest)))
            ≡ ok (holding d p h (push Payload.new b), owned rest, again)
      opening_turn b rest e lt pos many =
          first_turn b rest e
          ∙ rw (
            ne→== _ _ lt,
            room.fresh,
            place_first capacity_of (record d { parser = within p h (length b) true }) h b chunks lt
                pos many (same_room room),
            len-push-new b,
          )

      -- The whole message comes back from one call, which leaves the input behind it, and the
      -- decoder holds what it held before.
      pub message_decodes :
          (b : List Byte) (bs : List (List Byte)) (rest : List Byte) (f : ℕ)
          → length b ≡ min h.message_length p.chunk_size
          → Chunks p.chunk_size (h.message_length - length b) bs
          → 0 < p.chunk_size
          → length (b ∷ bs) ≤ chunks
          → length (b ∷ bs) ≤ f
          → decode_loop capacity_of f
              (record d { parser = p })
              (owned (encode_header h format ++ (b ++ (later h cf bs ++ rest))))
            ≡ ok (
              record d { parser = within p h h.message_length false },
              owned rest,
              some (message_of (parsed h h.timestamp) (body_of b bs)),
            )
      message_decodes b bs rest zero e cs pos few fuel = absurd (omega arith)
      message_decodes b [] rest (suc f) e cs pos few fuel =
          loop-complete f _ _
            (whole_turn b rest (omega arith) (omega arith) (fewer_room room (omega arith)))
      message_decodes b (b₁ ∷ bs) rest (suc f) e cs pos few fuel =
          loop-again f _ _
            (opening_turn b _ e (omega (arith, cs)) (omega (arith, cs)) (omega arith))
          ∙ message_rest b₁ bs (push Payload.new b) rest f (rw (len-push-new b) cs)
              (omega (arith, len-push-new b)) (omega (arith, segment_count-push-new b))
              (omega arith)
