-- ===== src/Chunk/RoundTrip/Decode.antt =====
-- Encoding and decoding one message.
use rtmpx.Prelude.{
  ℕ, zero, suc, ◌+◌, ◌-◌, ◌^◌, ◌≤◌, ◌<◌, ◌≡◌, sym, ◌∙◌, List, [], ◌∷◌, ◌++◌, append-nil, length,
  length-append, arith,
}
use rtmpx.Prelude.Bytes.{Byte}
use rtmpx.Prelude.Map.{Map}
use rtmpx.Payload
use rtmpx.Payload.{Payload, flatten, segments, to_bytes, from_bytes, push, push_all}
use rtmpx.Payload.Segments.{to_bytes-segments, push_all_lem, new-IsValid}
use rtmpx.Messages.Raw.{RawMessage}
use rtmpx.Chunk.Types.{ChunkHeaderFormat, ChunkHeader}
use rtmpx.Chunk.Encoder.{encode_header, chunk_count}
use rtmpx.Chunk.Parser.{Stream}
use rtmpx.Chunk.Decoder.{MessageDecoder}
use rtmpx.Chunk.Wire.{joined}
use rtmpx.Chunk.RoundTrip.Whole.{body_of}
use rtmpx.Chunk.RoundTrip.Sync.{missing, all_missing}

pub missing-le : (m : Map Stream) (c : ℕ) → 2 ≤ c → c ≤ 6 → missing m c ≤ all_missing m
missing-le m zero lo hi = absurd (omega arith)
missing-le m (suc zero) lo hi = absurd (omega arith)
missing-le m (suc (suc zero)) lo hi = omega arith
missing-le m (suc (suc (suc zero))) lo hi = omega arith
missing-le m (suc (suc (suc (suc zero)))) lo hi = omega arith
missing-le m (suc (suc (suc (suc (suc zero))))) lo hi = omega arith
missing-le m (suc (suc (suc (suc (suc (suc zero)))))) lo hi = omega arith
missing-le m (suc (suc (suc (suc (suc (suc (suc c))))))) lo hi = absurd (omega arith)

pub length-joined_ge :
    (x : Byte) (cont : List Byte) (bs : List (List Byte))
    → length bs ≤ length (joined (x ∷ cont) bs)
length-joined_ge x cont [] = omega arith
length-joined_ge x cont (b ∷ bs) = omega (
  arith,
  length-joined_ge x cont bs,
  length-append cont (b ++ joined (x ∷ cont) bs),
  length-append b (joined (x ∷ cont) bs),
)

pub length-later :
    (h : ChunkHeader) (cf : ChunkHeaderFormat) (bs : List (List Byte))
    → length bs ≤ length (joined (encode_header h cf) bs)
unfolding encode_header
length-later h cf bs = length-joined_ge _ _ bs

pub length-within : (a b c rest : List Byte) → length c ≤ length ((a ++ (b ++ c)) ++ rest)
length-within a b c rest =
    omega (arith, length-append (a ++ (b ++ c)) rest, length-append a (b ++ c), length-append b c)

-- The bytes of the pieces of a message are the message's bytes.
pub body_of-bytes :
    (b : List Byte) (bs : List (List Byte)) → to_bytes (body_of b bs) ≡ b ++ flatten bs
unfolding to_bytes from_bytes push_all
body_of-bytes b [] = sym (append-nil b)
body_of-bytes b (b₁ ∷ bs) =
    to_bytes-segments (push_all (push Payload.new b) (b₁ ∷ bs))
    ∙ (push_all_lem Payload.new (b ∷ b₁ ∷ bs) new-IsValid).1

-- The decoder's limits leave room for the message, and no message is under way.
pub record Accepts (d : MessageDecoder) (m : RawMessage Payload) : Type 0 where
  pub quiet : d.partials ≡ []
  pub size_fits : m.body.len ≤ d.parser.limits.maximum_message_size
  pub streams_fit : 5 ≤ d.parser.limits.maximum_tracked_chunk_streams
  pub partials_fit : 1 ≤ d.parser.limits.maximum_partial_messages
  pub slots_fit : 1 ≤ d.limits.maximum_partial_messages
  pub buffer_fits : d.buffered + m.body.len ≤ d.limits.maximum_buffered_bytes
  pub reserve_fits : d.reserved + m.body.len ≤ d.limits.maximum_buffered_bytes
  pub usize_fits : d.limits.maximum_buffered_bytes < 2 ^ 64 - 1
  pub fragments_fit :
      chunk_count m.body.len d.parser.chunk_size ≤ d.limits.maximum_fragments_per_message
