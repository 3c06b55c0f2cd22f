-- ===== src/Chunk/Decoder.antt =====
-- Owned message assembly (`MessageDecoder` of src/chunk_io/streaming.rs).
pub mod Total
pub mod Accounts
pub mod Reached
pub mod Reserved
use rtmpx.Prelude.{
  ℕ, zero, suc, ◌+◌, ◌-◌, ◌^◌, min, Bool, true, false, not, ◌&&◌, Option, none, some, List, [],
  ◌++◌, length, take, drop, ltb, leb, ◌==◌, if◌then◌else◌, Outcome, ok, stuck, ◌>>=◌, ◌>>◌,
}
use rtmpx.Prelude.Bytes.{Byte}
use rtmpx.Prelude.Map.{Map, lookup, insert, remove}
use rtmpx.Payload
use rtmpx.Payload.{Payload, push, from_bytes, segment_count}
use rtmpx.Messages.Raw.{RawMessage}
use rtmpx.Chunk.Types.{
  DecodeError, resource_limit_exceeded, DecoderLimits, MessageHeader, MessageFragment, is_end,
  ParseStep,
}
use rtmpx.Chunk.Parser
use rtmpx.Chunk.Parser.{ChunkParser, limit, is_none}
use rtmpx.Chunk.Parser.Consume.{consume}

-- A partial message: its segments, or one buffer with the capacity of its allocation.
pub data Assembly : Type 0 where
  segmented : Payload → Assembly
  contiguous : List Byte → ℕ → Assembly

abbrev pub assembled : Assembly → ℕ
assembled (segmented p) = p.len
assembled (contiguous b capacity) = length b

abbrev pub reserved_by : Assembly → ℕ
reserved_by (segmented p) = p.len
reserved_by (contiguous b capacity) = capacity

abbrev pub finish : Assembly → Payload
finish (segmented p) = p
finish (contiguous b capacity) = from_bytes b

-- The descriptor pool is left out: a payload that it hands out is empty like a new one.
pub record MessageDecoder : Type 0 where
  pub parser : ChunkParser
  pub partials : Map Assembly
  pub buffered : ℕ
  pub reserved : ℕ
  pub limits : DecoderLimits

unfoldable pub with_limits : DecoderLimits → MessageDecoder
with_limits l = record {
  parser = Parser.with_limits l;
  partials = [];
  buffered = 0;
  reserved = 0;
  limits = l;
}

unfoldable pub set_chunk_size : MessageDecoder → ℕ → Outcome DecodeError MessageDecoder
set_chunk_size d size = do p ← Parser.set_chunk_size d.parser size; ok (record d { parser = p })

unfoldable pub drop_partial : MessageDecoder → ℕ → Option Assembly → MessageDecoder
drop_partial d csid none = d
drop_partial d csid (some body) = record d {
  partials = remove csid d.partials;
  buffered = d.buffered - assembled body;
  reserved = d.reserved - reserved_by body;
}

unfoldable pub abort_chunk_stream : MessageDecoder → ℕ → MessageDecoder
unfolding drop_partial
abort_chunk_stream d csid =
    let d' = record d { parser = Parser.abort_chunk_stream d.parser csid } in
    drop_partial d' csid (lookup csid d'.partials)

-- `usize::saturating_add`
abbrev pub saturating_add : ℕ → ℕ → ℕ
saturating_add a b = min (a + b) (2 ^ 64 - 1)

-- `Input::Owned` and `Input::Borrowed` hold the same bytes; only what is copied differs.
pub record Input : Type 0 where
  pub owned : Bool
  pub bytes : List Byte

-- What a turn of the loop of `decode_input` ends in.
pub data Turn : Type 0 where
  again : Turn
  starved : Turn
  complete : RawMessage Payload → Turn

abbrev pub message_of : MessageHeader → Payload → RawMessage Payload
message_of h body = record {
  timestamp = h.timestamp;
  type_id = h.type_id;
  message_stream_id = h.message_stream_id;
  body = body;
}

unfoldable pub exceeds : ℕ → MessageDecoder → Bool
exceeds bytes d = ltb d.limits.maximum_buffered_bytes bytes

unfoldable pub reserved_error : ℕ → MessageDecoder → DecodeError
reserved_error attempted d =
    resource_limit_exceeded "reserved bytes" attempted d.limits.maximum_buffered_bytes

-- The capacity that `BytesMut::with_capacity` gives for a request belongs to the library bytes.
module _ (capacity_of : ℕ → ℕ) where
  -- A new partial message.
  unfoldable pub open_partial :
      MessageDecoder → Bool → MessageHeader → Outcome DecodeError (MessageDecoder × Assembly)
  unfolding exceeds reserved_error
  open_partial d owned h = do
    limit (leb d.limits.maximum_partial_messages (length d.partials)) (
        resource_limit_exceeded "partial messages" (length d.partials + 1)
          d.limits.maximum_partial_messages)
    let attempted = saturating_add d.reserved h.message_length
    limit (not owned && exceeds attempted d) (reserved_error attempted d)
    let body = if owned then segmented Payload.new else contiguous [] (capacity_of h.message_length)
    ok (
      record d {
        partials = insert h.chunk_stream_id body d.partials;
        reserved = d.reserved + reserved_by body;
      },
      body,
    )

  unfoldable pub find_partial :
      MessageDecoder
      → Bool
      → MessageHeader
      → Option Assembly
      → Outcome DecodeError (MessageDecoder × Assembly)
  unfolding open_partial
  find_partial d owned h none = open_partial d owned h
  find_partial d owned h (some body) = ok (d, body)

  -- The fragment joins the partial message: its new body, and the bytes newly reserved.
  unfoldable pub extend : MessageDecoder → Assembly → List Byte → Outcome DecodeError (Assembly × ℕ)
  unfolding exceeds reserved_error
  extend d (segmented p) bytes = do
    let n = length bytes
    limit (not (n == 0) && leb d.limits.maximum_fragments_per_message (segment_count p)) (
        resource_limit_exceeded "payload fragments" (segment_count p + 1)
          d.limits.maximum_fragments_per_message)
    let attempted = saturating_add d.reserved n
    limit (exceeds attempted d) (reserved_error attempted d)
    ok (segmented (push p bytes), n)
  extend d (contiguous b capacity) bytes = ok (contiguous (b ++ bytes) capacity, 0)

  -- The end of a turn, once the fragment has joined the partial message.
  unfoldable pub settle : MessageDecoder → MessageHeader → Assembly → Bool → MessageDecoder × Turn
  settle d h body done =
      if done
      then (
        record d {
          partials = remove h.chunk_stream_id d.partials;
          buffered = d.buffered - assembled body;
          reserved = d.reserved - reserved_by body;
        },
        complete (message_of h (finish body)),
      )
      else (record d { partials = insert h.chunk_stream_id body d.partials }, again)

  unfoldable pub join_partial :
      MessageDecoder
      → Bool
      → MessageFragment
      → List Byte
      → ℕ
      → Option Assembly
      → Outcome DecodeError (MessageDecoder × Turn)
  unfolding find_partial extend settle
  join_partial d owned f bytes attempted old = do
    (d₁, body) ← find_partial d owned f.header old
    (body', more) ← extend d₁ body bytes
    ok (
        settle (record d₁ { buffered = attempted; reserved = d₁.reserved + more }) f.header body'
          (is_end f))

  -- A turn of the loop, from the fragment on; `bytes` is the fragment's part of the input.
  unfoldable pub place_fragment :
      MessageDecoder
      → Bool
      → MessageFragment
      → List Byte
      → Option Assembly
      → Outcome DecodeError (MessageDecoder × Turn)
  unfolding exceeds reserved_error join_partial
  place_fragment d owned f bytes old = do
    let n = length f.bytes
    let attempted = saturating_add d.buffered n
    limit (exceeds attempted d)
        (resource_limit_exceeded "buffered bytes" attempted d.limits.maximum_buffered_bytes)
    limit (owned && (not (n == 0) && (d.limits.maximum_fragments_per_message == 0 && is_none old)))
        (resource_limit_exceeded "payload fragments" 1 0)
    let fresh = saturating_add d.reserved n
    if is_end f && is_none old
        then (limit (exceeds fresh d) (reserved_error fresh d)
            >> ok (d, complete (message_of f.header (from_bytes bytes))))
        else join_partial d owned f bytes attempted old

  unfoldable pub turn_with :
      MessageDecoder
      → Input
      → ParseStep
      → Option MessageFragment
      → Outcome DecodeError (MessageDecoder × Input × Turn)
  unfolding place_fragment
  turn_with d input s none = ok (d, record input { bytes = drop s.consumed input.bytes }, starved)
  turn_with d input s (some f) = do
    let n = length f.bytes
    let rest = drop (s.consumed - n) input.bytes
    (d', t) ←
        place_fragment d input.owned f (take n rest) (lookup f.header.chunk_stream_id d.partials)
    ok (d', record input { bytes = drop n rest }, t)

  unfoldable pub turn : MessageDecoder → Input → Outcome DecodeError (MessageDecoder × Input × Turn)
  unfolding turn_with
  turn d input = do
    (p, s) ← consume d.parser input.bytes
    turn_with (record d { parser = p }) input s s.fragment

  abbrev pub Decoded : Type 0
  Decoded = MessageDecoder × Input × Option (RawMessage Payload)

  -- The loop of `decode_input` on fuel.
  unfoldable pub decode_loop : ℕ → MessageDecoder → Input → Outcome DecodeError Decoded
  decode_loop zero d input = stuck
  decode_loop (suc fuel) d input = turn d input >>= λ (d', input', t). elim t [
    | again ↦ decode_loop fuel d' input'
    | starved ↦ ok (d', input', none)
    | complete m ↦ ok (d', input', some m)
  ]

  -- A turn that asks for another one takes a byte of the input at least, so this fuel is enough.
  unfoldable pub decode_input : MessageDecoder → Input → Outcome DecodeError Decoded
  decode_input d input = decode_loop (length input.bytes + 1) d input

  -- The public entries: the input is taken over, or copied. Both advance it in place.
  unfoldable pub decode : MessageDecoder → List Byte → Outcome DecodeError Decoded
  unfolding decode_input
  decode d bytes = decode_input d (record { owned = true; bytes = bytes })

  unfoldable pub decode_slice : MessageDecoder → List Byte → Outcome DecodeError Decoded
  unfolding decode_input
  decode_slice d bytes = decode_input d (record { owned = false; bytes = bytes })
