-- ===== src/Flv/Cursor.antt =====
-- Reading a message body that may lie in segments (`MediaData` and `Cursor` of src/flv.rs).
use rtmpx.Prelude.{
  ℕ, zero, suc, ◌+◌, ◌-◌, ◌%◌, ◌/◌, ◌^◌, Bool, true, false, ◌||◌, Option, none, some, List, [], ◌∷◌,
  length, get_elem?, take, drop, ltb, leb, ◌==◌, if◌then◌else◌, Outcome, ok, err, stuck,
}
use rtmpx.Prelude.Bytes.{Byte, from_be16, from_be24}
use rtmpx.Prelude.Int.{ℤ, as_i32}

-- A `FlvError` holds a message; here is one constructor for each.
pub data FlvError : Type 0 where
  truncated short_modex nested_multitracks short_coded_frame : FlvError
  bad_avc_config bad_hevc_config bad_av1_config : FlvError

-- `?`; shut, so that the rules for it are read off.
infixl 5 ◌>>=◌
unfoldable pub ◌>>=◌ :
    {A B : Type 0} → Outcome FlvError A → (A → Outcome FlvError B) → Outcome FlvError B
ok value >>= next = next value
err failure >>= next = err failure
stuck >>= next = stuck

-- `trait MediaData`: the length, the first segment, which panics where there is none, and a slice,
-- which panics where the range is reversed or too long.
pub record MediaData (P : Type 0) : Type 0 where
  pub len : P → ℕ
  pub segment0 : P → Outcome FlvError (List Byte)
  pub media_slice : P → ℕ → ℕ → Outcome FlvError P

-- `impl MediaData for Bytes`
unfoldable pub bytes_slice : List Byte → ℕ → ℕ → Outcome FlvError (List Byte)
bytes_slice bytes start end =
    if ltb end start
    then stuck
    else if leb end (length bytes)
    then ok (take (end - start) (drop start bytes))
    else stuck

unfoldable pub bytes_segment0 : List Byte → Outcome FlvError (List Byte)
bytes_segment0 [] = stuck
bytes_segment0 (b ∷ bytes) = ok (b ∷ bytes)

abbrev pub bytes_data : MediaData (List Byte)
bytes_data = record { len = length; segment0 = bytes_segment0; media_slice = bytes_slice }

pub record Cursor (P : Type 0) : Type 0 where
  pub raw : P
  pub pos : ℕ

-- What the parser calls on a cursor, and on the data that it takes.
pub record CursorOps (C P : Type 0) : Type 0 where
  pub remaining : C → ℕ
  pub read_u8 : C → Outcome FlvError (Byte × C)
  pub take_bytes : C → ℕ → Outcome FlvError (P × C)
  pub take_rest : C → Outcome FlvError (P × C)
  pub data_len : P → ℕ
  pub first_byte : P → Outcome FlvError Byte

-- `segment[i]`, which panics out of range.
abbrev pub byte_at : Option Byte → Outcome FlvError Byte
byte_at none = stuck
byte_at (some b) = ok b

module _ {P : Type 0} (m : MediaData P) where
  unfoldable pub cursor : P → Cursor P
  cursor raw = record { raw = raw; pos = 0 }

  unfoldable pub cursor_remaining : Cursor P → ℕ
  cursor_remaining c = m.len c.raw - c.pos

  unfoldable pub commit : Cursor P → Outcome FlvError (Cursor P)
  commit c =
      if c.pos == 0
      then ok c
      else m.media_slice c.raw c.pos (m.len c.raw) >>= λ rest. ok (record { raw = rest; pos = 0 })

  unfoldable pub cursor_read_u8 : Cursor P → Outcome FlvError (Byte × Cursor P)
  cursor_read_u8 c =
      if cursor_remaining c == 0
      then err truncated
      else m.segment0 c.raw >>= λ segment.
          (if c.pos == length segment then commit c else ok c) >>= λ c'.
          m.segment0 c'.raw >>= λ segment'.
          byte_at (get_elem? segment' c'.pos) >>= λ byte. ok (byte, record c' { pos = c'.pos + 1 })

  unfoldable pub cursor_take : Cursor P → ℕ → Outcome FlvError (P × Cursor P)
  cursor_take c len =
      if ltb (cursor_remaining c) len
      then err truncated
      else commit c >>= λ c'. m.media_slice c'.raw 0 len >>= λ bytes.
          m.media_slice c'.raw len (m.len c'.raw) >>= λ rest. ok (bytes, record c' { raw = rest })

  unfoldable pub cursor_take_rest : Cursor P → Outcome FlvError (P × Cursor P)
  cursor_take_rest c = commit c >>= λ c'.
      m.media_slice c'.raw (m.len c'.raw) (m.len c'.raw) >>= λ rest.
      ok (c'.raw, record c' { raw = rest })

  abbrev pub cursor_ops : CursorOps (Cursor P) P
  cursor_ops = record {
    remaining = cursor_remaining;
    read_u8 = cursor_read_u8;
    take_bytes = cursor_take;
    take_rest = cursor_take_rest;
    data_len = m.len;
    first_byte = λ data'. m.segment0 data' >>= λ segment. byte_at (get_elem? segment 0);
  }

-- `sign_extend_cts`: where bit 23 is set, the upper byte is filled.
unfoldable pub sign_extend_cts : ℕ → ℤ
sign_extend_cts v =
    let value = v % 2 ^ 24 in
    if value / 2 ^ 23 % 2 == 0 then as_i32 value else as_i32 (value + 0xff000000)

module _ {C P : Type 0} (ops : CursorOps C P) where
  unfoldable pub read_u16 : C → Outcome FlvError (ℕ × C)
  read_u16 c = ops.read_u8 c >>= λ (a, c1). ops.read_u8 c1 >>= λ (b, c2). ok (from_be16 a b, c2)

  unfoldable pub read_u24 : C → Outcome FlvError (ℕ × C)
  read_u24 c = ops.read_u8 c >>= λ (a, c1).
      ops.read_u8 c1 >>= λ (b, c2). ops.read_u8 c2 >>= λ (d, c3). ok (from_be24 a b d, c3)

  unfoldable pub read_i24 : C → Outcome FlvError (ℤ × C)
  read_i24 c = read_u24 c >>= λ (v, c1). ok (sign_extend_cts v, c1)

  unfoldable pub read_fourcc : C → Outcome FlvError (List Byte × C)
  read_fourcc c = ops.read_u8 c >>= λ (a, c1). ops.read_u8 c1 >>= λ (b, c2).
      ops.read_u8 c2 >>= λ (d, c3). ops.read_u8 c3 >>= λ (e, c4). ok (a ∷ b ∷ d ∷ e ∷ [], c4)

  -- `sized_payload`
  unfoldable pub sized_payload : C → Option ℕ → Outcome FlvError (P × C)
  sized_payload c none = ops.take_rest c
  sized_payload c (some len) = ops.take_bytes c len

  -- The size prefix of a track's packet.
  unfoldable pub read_size : C → Bool → Outcome FlvError (Option ℕ × C)
  read_size c sized =
      if sized then (read_u24 c >>= λ (size, c1). ok (some size, c1)) else ok (none, c)

  -- `read_audio_modex` and `read_video_modex`, which are the same: the next packet type, and whether
  -- the extension was unknown.
  unfoldable pub modex_size : C → Outcome FlvError (ℕ × C)
  modex_size c = ops.read_u8 c >>= λ (b, c1).
      if b + 1 == 256 then (read_u16 c1 >>= λ (w, c2). ok (w + 1, c2)) else ok (b + 1, c1)

  unfoldable pub read_modex : C → Outcome FlvError ((Bool × ℕ) × C)
  read_modex c = modex_size c >>= λ (size, c1). ops.take_bytes c1 size >>= λ (bytes, c2).
      ops.read_u8 c2 >>= λ (next, c3).
      if next / 16 == 0
      then if ltb (ops.data_len bytes) 3 then err short_modex else ok ((false, next % 16), c3)
      else ok ((true, next % 16), c3)

  -- The loop over modifier extensions, from the packet type that was read: the packet type behind
  -- them, and whether one was unknown.
  unfoldable pub modex_loop : ℕ → C → ℕ → Bool → Outcome FlvError ((ℕ × Bool) × C)
  modex_loop zero c packet_type unknown = stuck
  modex_loop (suc fuel) c packet_type unknown =
      let more = read_modex c >>= λ (step, c1). modex_loop fuel c1 step.1 (unknown || step.0) in
      if packet_type == 7 then more else ok ((packet_type, unknown), c)
