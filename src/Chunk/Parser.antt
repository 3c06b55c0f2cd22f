-- ===== src/Chunk/Parser.antt =====
-- The streaming parser (`ChunkParser` of src/chunk_io/streaming.rs).
pub mod Begin
pub mod Consume
pub mod Reading
pub mod Total
pub mod Steps
use rtmpx.Prelude.{
  ℕ, zero, suc, ◌+◌, ◌-◌, ◌*◌, ◌/◌, ◌%◌, ◌^◌, min, Bool, true, false, not, ◌&&◌, ◌||◌, Option, none,
  some, List, [], ◌∷◌, ◌++◌, length, take, drop, get_or, ltb, leb, ◌==◌, if◌then◌else◌, Outcome, ok,
  err, stuck, ◌>>=◌, ◌>>◌, require,
}
use rtmpx.Prelude.Bytes.{Byte, from_be24, from_be32, from_le32}
use rtmpx.Prelude.Map.{Map, lookup, insert, count_if}
use rtmpx.Time
use rtmpx.Time.{RtmpTimestamp}
use rtmpx.Chunk.Types.{
  DecodeError, invalid_continuation, no_previous_chunk_on_stream, invalid_max_chunk_size,
  resource_limit_exceeded, message_length_smaller_than_buffered_payload, DecoderLimits,
  MessageHeader, MessageFragment, ParseStep,
}

pub record Stream : Type 0 where
  pub header : MessageHeader
  pub time_field : ℕ
  pub received : ℕ
  pub active : Bool

-- `scratch` holds the first `used` bytes of the source's array; the bytes behind them are never
-- read, so `used` is the length of this list.
pub record ChunkParser : Type 0 where
  pub streams : Map Stream
  pub scratch : List Byte
  pub current : Option ℕ
  pub chunk_left : ℕ
  pub chunk_size : ℕ
  pub limits : DecoderLimits

unfoldable pub with_limits : DecoderLimits → ChunkParser
with_limits l = record {
  streams = [];
  scratch = [];
  current = none;
  chunk_left = 0;
  chunk_size = 128;
  limits = l;
}

unfoldable pub set_chunk_size : ChunkParser → ℕ → Outcome DecodeError ChunkParser
set_chunk_size p size =
    if size == 0 || ltb 0x7fff_ffff size || ltb p.limits.maximum_chunk_size size
    then err (invalid_max_chunk_size size)
    else ok (record p { chunk_size = size })

abbrev pub is_current : Option ℕ → ℕ → Bool
is_current none csid = false
is_current (some c) csid = c == csid

abbrev pub is_none {ℓ} : {A : Type ℓ} → Option A → Bool
is_none none = true
is_none (some _) = false

unfoldable pub abort_stream : Map Stream → ℕ → Option Stream → Map Stream
abort_stream m csid none = m
abort_stream m csid (some s) = insert csid (record s { active = false; received = 0 }) m

unfoldable pub abort_chunk_stream : ChunkParser → ℕ → ChunkParser
unfolding abort_stream
abort_chunk_stream p csid =
    let q = record p { streams = abort_stream p.streams csid (lookup csid p.streams) } in
    if is_current q.current csid then record q { current = none; chunk_left = 0 } else q

abbrev pub is_active : Stream → Bool
is_active s = s.active

unfoldable pub is_idle : ChunkParser → Bool
is_idle p = length p.scratch == 0 && is_none p.current && count_if is_active p.streams == 0

-- `self.scratch[i]`
abbrev pub at : List Byte → ℕ → Byte
at s i = get_or s i 0

-- `& 63` is `% 64`, and `>> 6` is `/ 64`.
unfoldable pub basic_len : List Byte → ℕ
basic_len s = if at s 0 % 64 == 0 then 2 else if at s 0 % 64 == 1 then 3 else 1

unfoldable pub csid_of : List Byte → ℕ
csid_of s =
    if at s 0 % 64 == 0
    then 64 + at s 1
    else if at s 0 % 64 == 1
    then 64 + at s 1 + 256 * at s 2
    else at s 0 % 64

abbrev pub fmt_of : List Byte → ℕ
fmt_of s = at s 0 / 64

-- `[11, 7, 3, 0][fmt as usize]`
abbrev pub body_len : ℕ → ℕ
body_len fmt = get_or (11 ∷ 7 ∷ 3 ∷ 0 ∷ []) fmt 0

-- `u24(&self.scratch[i..])`
abbrev pub u24 : List Byte → ℕ → ℕ
u24 s i = from_be24 (at s i) (at s (i + 1)) (at s (i + 2))

abbrev pub extended_len : ℕ → ℕ
extended_len field = if leb 0xff_ffff field then 4 else 0

-- The last part of `header_needed`: is there an extended timestamp?
unfoldable pub needed_extension : List Byte → Option Stream → Outcome DecodeError ℕ
needed_extension s old =
    if fmt_of s == 3
    then elim old [
      | none ↦ err (no_previous_chunk_on_stream (csid_of s))
      | some t ↦ ok (basic_len s + body_len (fmt_of s) + extended_len t.time_field)
    ]
    else ok
        (basic_len s + body_len (fmt_of s) + (if u24 s (basic_len s) == 0xff_ffff then 4 else 0))

unfoldable pub header_needed : ChunkParser → Outcome DecodeError ℕ
unfolding needed_extension
header_needed p =
    let s = p.scratch in
    if length s == 0
    then ok 1
    else if ltb (length s) (basic_len s)
    then ok (basic_len s)
    else if ltb (length s) (basic_len s + body_len (fmt_of s))
    then ok (basic_len s + body_len (fmt_of s))
    else needed_extension s (lookup (csid_of s) p.streams)

abbrev pub limit : Bool → DecodeError → Outcome DecodeError (Unit {0})
limit over e = require (not over) e
