-- ===== src/Chunk/Packet.antt =====
-- Resumable packets (`Packet` and `PacketCursor` of src/chunk_io/serializer.rs).
pub mod Progress
pub mod Turned
pub mod Body
pub mod Copy
pub mod Slices
use rtmpx.Prelude.{
  ℕ, zero, suc, ◌+◌, ◌-◌, ◌*◌, min, Bool, true, false, ◌&&◌, Option, none, some, List, [], ◌∷◌,
  ◌++◌, length, take, drop, ltb, leb, ◌==◌, if◌then◌else◌,
}
use rtmpx.Prelude.Bytes.{Byte}
use rtmpx.Payload.{Payload, segment}
use rtmpx.Chunk.Encoder.{Packet, CursorState, is_allowed, chunk_count}

-- Number of wire bytes, including every chunk header.
unfoldable pub wire_len : Packet → ℕ
wire_len p =
    p.payload.len
    + length p.first
    + (chunk_count p.payload.len p.chunk_size - 1) * length p.continuation

abbrev pub is_complete : Packet → Bool
is_complete p = p.remaining == 0

unfoldable pub can_drop : Packet → Bool
unfolding wire_len
can_drop p = is_allowed p.drop_policy && p.remaining == wire_len p

-- The header of the chunk that the cursor is in.
abbrev pub header_at : Packet → CursorState → List Byte
header_at p s = if s.chunk == 0 then p.first else p.continuation

-- How much of the segment lies in the chunk.
abbrev pub span : Packet → CursorState → ℕ
span p s =
    min (min (length (segment p.payload s.segment) - s.offset) (p.chunk_size - s.body))
      (p.payload.len - (s.chunk * p.chunk_size + s.body))

-- What `current` returns, while bytes remain.
unfoldable pub current_bytes : Packet → CursorState → List Byte
current_bytes p s =
    if ltb s.header (length (header_at p s))
    then drop s.header (header_at p s)
    else take (span p s) (drop s.offset (segment p.payload s.segment))

unfoldable pub current : Packet → Option (List Byte)
current p = if p.remaining == 0 then none else some (current_bytes p p.state)

-- The cursor behind `n` payload bytes.
unfoldable pub advance_body : Packet → CursorState → ℕ → CursorState
advance_body p s n =
    let body = s.body + n in
    let offset = s.offset + n in
    let segment_done = offset == length (segment p.payload s.segment) in
    let chunk_done = body == p.chunk_size in
    record {
      chunk = if chunk_done then s.chunk + 1 else s.chunk;
      header = if chunk_done then 0 else s.header;
      body = if chunk_done then 0 else body;
      segment = if segment_done then s.segment + 1 else s.segment;
      offset = if segment_done then 0 else offset;
    }

-- A turn of the loop of `advance`, over `n` bytes of what is current.
unfoldable pub advance_once : Packet → CursorState → ℕ → CursorState
unfolding advance_body
advance_once p s n =
    if ltb s.header (length (header_at p s))
    then record s { header = s.header + n }
    else advance_body p s n

abbrev pub moved : Packet → CursorState → ℕ → Packet
moved p s n = record p { state = s; remaining = p.remaining - n }

-- The loop of `advance` on fuel; `none` is a panic or the end of the fuel.
unfoldable pub advance_loop : ℕ → Packet → ℕ → Option Packet
advance_loop zero p count = if count == 0 then some p else none
advance_loop (suc fuel) p count =
    let n = min count (length (current_bytes p p.state)) in
    let more = advance_loop fuel (moved p (advance_once p p.state n) n) (count - n) in
    if count == 0 then some p else if p.remaining == 0 then none else more

-- The source asserts that no more than the remaining bytes are skipped.
unfoldable pub advance : Packet → ℕ → Option Packet
advance p count = if leb count p.remaining then advance_loop count p count else none

-- The loop of `copy_to` on fuel.
unfoldable pub copy_loop : ℕ → Packet → List Byte → Option (List Byte)
copy_loop zero p out = if p.remaining == 0 then some out else none
copy_loop (suc fuel) p out =
    let bytes = current_bytes p p.state in
    let more : Option (List Byte) = elim (advance p (length bytes)) [
      | none ↦ none
      | some p' ↦ copy_loop fuel p' (out ++ bytes)
    ] in
    if p.remaining == 0 then some out else more

unfoldable pub to_vec : Packet → Option (List Byte)
to_vec p = copy_loop p.remaining p []

-- A filled slot, or a cleared one, before the others; `filled` counts the filled ones.
abbrev pub fill_slot : List Byte → ℕ → Option (List (List Byte) × ℕ) → Option (List (List Byte) × ℕ)
fill_slot bytes filled none = none
fill_slot bytes filled (some (slots, count)) = some (bytes ∷ slots, filled + count)

-- `io_slices` of the packet into so many slots: the slots, and how many of them are filled.
unfoldable pub io_slices : Packet → ℕ → Option (List (List Byte) × ℕ)
io_slices p zero = some ([], 0)
io_slices p (suc slots) =
    let bytes = current_bytes p p.state in
    let cleared = fill_slot [] 0 (io_slices p slots) in
    let filled : Option (List (List Byte) × ℕ) = elim (advance p (length bytes)) [
      | none ↦ none
      | some p' ↦ fill_slot bytes 1 (io_slices p' slots)
    ] in
    if p.remaining == 0 then cleared else filled
