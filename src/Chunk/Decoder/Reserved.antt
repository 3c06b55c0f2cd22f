-- ===== src/Chunk/Decoder/Reserved.antt =====
-- What the decoder reserves stays within its limit (the checks of "reserved bytes" in
-- src/chunk_io/streaming.rs).
use rtmpx.Prelude.{
  ℕ, ◌+◌, ◌-◌, ◌^◌, ◌≤◌, ◌<◌, ◌≡◌, refl, ap, Bool, true, false, not, ◌&&◌, Option, none, some, List,
  [], length, take, drop, ◌==◌, leb, if◌then◌else◌, Bool-cases, inl, inr, ok, Ensures, ensures_then,
  ensures_ok, ◌>>◌, arith,
}
use rtmpx.Prelude.Bytes.{Byte}
use rtmpx.Prelude.Map.{lookup, insert}
use rtmpx.Payload
use rtmpx.Payload.{Payload, segment_count}
use rtmpx.Chunk.Types.{DecoderLimits, MessageHeader, MessageFragment, ParseStep, is_end}
use rtmpx.Chunk.Parser
use rtmpx.Chunk.Parser.{is_none, limit}
use rtmpx.Chunk.Parser.Consume.{consume}
use rtmpx.Chunk.Parser.Total.{IsSound}
use rtmpx.Chunk.Parser.Steps.{consume_lem, set_chunk_size_lem}
use rtmpx.Chunk.Decoder.{
  MessageDecoder, Assembly, segmented, contiguous, reserved_by, reserved_error, Input, with_limits,
  drop_partial, set_chunk_size, abort_chunk_stream, saturating_add, exceeds, find_partial, extend,
  settle, join_partial, place_fragment, turn_with, turn, decode_input,
}
use rtmpx.Chunk.Decoder.Reached.{
  Reached, reached_new, reached_size, reached_abort, reached_decode, Returned, Reached-IsFit,
  decode_input_inv,
}

-- Under the limits `l`, no more is reserved than they allow and `extra` bytes.
abbrev pub IsWithin : DecoderLimits → ℕ → MessageDecoder → Type 0
IsWithin l extra d = (d.limits ≡ l) × (d.reserved ≤ l.maximum_buffered_bytes + extra)

module _ (l : DecoderLimits) (usize : l.maximum_buffered_bytes < 2 ^ 64 - 1) (extra : ℕ) where
  checked :
      (d : MessageDecoder) (n : ℕ)
      → IsWithin l extra d
      → exceeds (saturating_add d.reserved n) d ≡ false
      → d.reserved + n ≤ l.maximum_buffered_bytes
  unfolding exceeds
  checked d n (limits, within) fits =
      let same : d.limits.maximum_buffered_bytes ≡ l.maximum_buffered_bytes =
        ap (λ x. x.maximum_buffered_bytes) limits in
      ground (arith, usize, same, fits)

  settle-IsWithin :
      (capacity_of : ℕ → ℕ) (d : MessageDecoder) (h : MessageHeader) (body : Assembly) (done : Bool)
      → IsWithin l extra d
      → IsWithin l extra (settle capacity_of d h body done).0
  unfolding settle
  settle-IsWithin capacity_of d h body true (limits, within) = (limits, omega (arith, within))
  settle-IsWithin capacity_of d h body false within = within

  drop_partial-IsWithin :
      (d : MessageDecoder) (csid : ℕ) (o : Option Assembly)
      → IsWithin l extra d
      → IsWithin l extra (drop_partial d csid o)
  unfolding drop_partial
  drop_partial-IsWithin d csid none within = within
  drop_partial-IsWithin d csid (some body) (limits, within) = (limits, omega (arith, within))

  extend-IsWithin :
      (capacity_of : ℕ → ℕ) (d : MessageDecoder) (body : Assembly) (bytes : List Byte)
      → IsWithin l extra d
      → Ensures
          (extend capacity_of d body bytes)
          (λ r. d.reserved + r.1 ≤ l.maximum_buffered_bytes + extra)
  unfolding extend
  extend-IsWithin capacity_of d (segmented p) bytes within =
      let n = length bytes in
      elim (Bool-cases
        (not (n == 0) && leb d.limits.maximum_fragments_per_message (segment_count p))) [
          | inl crowded ↦ rw crowded tt
          | inr room ↦ rw room (elim (Bool-cases (exceeds (saturating_add d.reserved n) d)) [
            | inl over ↦ rw over tt
            | inr fits ↦ rw fits (omega (arith, checked d n within fits))
          ])
        ]
  extend-IsWithin capacity_of d (contiguous b capacity) bytes within = omega (arith, within.1)

  sized :
      (d : MessageDecoder) (size : ℕ)
      → IsSound d.parser
      → IsWithin l extra d
      → Ensures (set_chunk_size d size) (IsWithin l extra)
  unfolding set_chunk_size
  sized d size sound within =
      ensures_then (IsWithin l extra) (Parser.set_chunk_size d.parser size) _
        (set_chunk_size_lem d.parser size sound) λ p _. within

  module _ (capacity_of : ℕ → ℕ) (allocated : (n : ℕ) → capacity_of n ≤ n + extra) where
    find_partial-IsWithin :
        (d : MessageDecoder) (owned : Bool) (h : MessageHeader) (old : Option Assembly)
        → IsWithin l extra d
        → Ensures (find_partial capacity_of d owned h old) (λ r. IsWithin l extra r.0)
    unfolding find_partial
    find_partial-IsWithin d owned h (some body) within = within
    find_partial-IsWithin d owned h none within =
        elim (Bool-cases (leb d.limits.maximum_partial_messages (length d.partials))) [
          | inl crowded ↦ rw crowded tt
          | inr room ↦ rw room (opened owned)
        ]
      where
        opened :
            (owned : Bool)
            → Ensures {A = MessageDecoder × Assembly}
                (do
                  let attempted = saturating_add d.reserved h.message_length
                  limit (not owned && exceeds attempted d) (reserved_error attempted d)
                  let body =
                      if owned
                      then segmented Payload.new
                      else contiguous [] (capacity_of h.message_length)
                  ok (
                    record d {
                      partials = insert h.chunk_stream_id body d.partials;
                      reserved = d.reserved + reserved_by body;
                    },
                    body,
                  ))
                (λ r. IsWithin l extra r.0)
        opened true = (within.0, omega (arith, within.1))
        opened false = elim (Bool-cases (exceeds (saturating_add d.reserved h.message_length) d)) [
          | inl over ↦ rw over tt
          | inr fits ↦ rw fits (
            within.0,
            omega (arith, checked d h.message_length within fits, allocated h.message_length),
          )
        ]

    join_partial-IsWithin :
        (d : MessageDecoder) (owned : Bool) (f : MessageFragment) (bytes : List Byte)
        (attempted : ℕ) (old : Option Assembly)
        → IsWithin l extra d
        → Ensures
            (join_partial capacity_of d owned f bytes attempted old)
            (λ r. IsWithin l extra r.0)
    unfolding join_partial
    join_partial-IsWithin d owned f bytes attempted old within =
        ensures_then (λ r. IsWithin l extra r.0) (find_partial capacity_of d owned f.header old) _
          (find_partial-IsWithin d owned f.header old within)
          λ (d₁, body) there.
            ensures_then (λ r. IsWithin l extra r.0) (extend capacity_of d₁ body bytes) _
              (extend-IsWithin capacity_of d₁ body bytes there)
              λ (body', more) fits.
                settle-IsWithin capacity_of
                  (record d₁ { buffered = attempted; reserved = d₁.reserved + more }) f.header body'
                  (is_end f) (there.0, fits)

    place_fragment-IsWithin :
        (d : MessageDecoder) (owned : Bool) (f : MessageFragment) (bytes : List Byte)
        (old : Option Assembly)
        → IsWithin l extra d
        → Ensures (place_fragment capacity_of d owned f bytes old) (λ r. IsWithin l extra r.0)
    unfolding place_fragment
    place_fragment-IsWithin d owned f bytes old within =
        let n = length f.bytes in
        let unwelcome =
          owned && (not (n == 0) && (d.limits.maximum_fragments_per_message == 0 && is_none old)) in
        elim (Bool-cases (exceeds (saturating_add d.buffered n) d)) [
          | inl over ↦ rw over tt
          | inr fits ↦ rw fits (elim (Bool-cases unwelcome) [
            | inl refused ↦ rw refused tt
            | inr welcome ↦ rw welcome (elim (Bool-cases (is_end f && is_none old)) [
              | inl whole ↦ rw whole (elim (Bool-cases (exceeds (saturating_add d.reserved n) d)) [
                | inl over ↦ rw over tt
                | inr room ↦ rw room within
              ])
              | inr part ↦
                  rw part
                    (join_partial-IsWithin d owned f bytes (saturating_add d.buffered n) old within)
            ])
          ])
        ]

    turn_with-IsWithin :
        (d : MessageDecoder) (input : Input) (s : ParseStep) (o : Option MessageFragment)
        → IsWithin l extra d
        → Ensures (turn_with capacity_of d input s o) (λ r. IsWithin l extra r.0)
    unfolding turn_with
    turn_with-IsWithin d input s none within = within
    turn_with-IsWithin d input s (some f) within =
        let bytes = take (length f.bytes) (drop (s.consumed - length f.bytes) input.bytes) in
        let old = lookup f.header.chunk_stream_id d.partials in
        ensures_then (λ r. IsWithin l extra r.0)
          (place_fragment capacity_of d input.owned f bytes old) _
          (place_fragment-IsWithin d input.owned f bytes old within) λ r after. after

    turn-IsWithin :
        (d : MessageDecoder) (input : Input)
        → IsSound d.parser
        → IsWithin l extra d
        → Ensures (turn capacity_of d input) (λ r. IsWithin l extra r.0)
    unfolding turn
    turn-IsWithin d input sound within =
        ensures_then (λ r. IsWithin l extra r.0) (consume d.parser input.bytes) _
          (consume_lem d.parser input.bytes sound)
          λ (p, s) stepped. turn_with-IsWithin (record d { parser = p }) input s s.fragment within

    Reached-IsWithin : (d : MessageDecoder) → Reached capacity_of l d → IsWithin l extra d
    unfolding with_limits set_chunk_size abort_chunk_stream
    Reached-IsWithin _ reached_new = (refl, omega arith)
    Reached-IsWithin _ (reached_size {d} {d'} size r done) =
        ensures_ok (IsWithin l extra) (set_chunk_size d size)
          (sized d size (Reached-IsFit capacity_of l usize d r).sound (Reached-IsWithin d r)) done
    Reached-IsWithin _ (reached_abort {d} csid r) =
        let d' : MessageDecoder = record d { parser = Parser.abort_chunk_stream d.parser csid } in
        drop_partial-IsWithin d' csid (lookup csid d.partials) (Reached-IsWithin d r)
    Reached-IsWithin _ (reached_decode {d} {d'} input r done) =
        let fit = Reached-IsFit capacity_of l usize d r in
        (ensures_ok (λ x. Returned capacity_of input x.0 x.1 × IsWithin l extra x.0)
          (decode_input capacity_of d input)
          (decode_input_inv capacity_of turn-IsWithin d input fit.sound fit.accounted
            (Reached-IsWithin d r))
          done).1

-- Where the limit `l` of buffered bytes is below 2⁶⁴ - 1, and the allocator gives a request at most
-- `extra` bytes of capacity beyond its size: on any decoder reached from a new one by chunk sizes,
-- aborts and inputs, and on any input, `decode_input` ends within its fuel, with a message, for want
-- of input or with a returned error, and without a panic; the input gets no longer, the counts of
-- buffered and reserved bytes are those of the partial messages, the buffered bytes are within the
-- limit, and the reserved bytes within the limit and `extra`.
pub Reached-decode_input :
    (capacity_of : ℕ → ℕ) (extra : ℕ) (l : DecoderLimits) (d : MessageDecoder) (input : Input)
    → ((n : ℕ) → capacity_of n ≤ n + extra)
    → l.maximum_buffered_bytes < 2 ^ 64 - 1
    → Reached capacity_of l d
    → Ensures
        (decode_input capacity_of d input)
        (λ r. Returned capacity_of input r.0 r.1 × IsWithin l extra r.0)
Reached-decode_input capacity_of extra l d input allocated usize r =
    let fit = Reached-IsFit capacity_of l usize d r in
    decode_input_inv capacity_of (turn-IsWithin l usize extra capacity_of allocated) d input
      fit.sound fit.accounted (Reached-IsWithin l usize extra capacity_of allocated d r)
