-- ===== src/Chunk/RoundTrip/Sync.antt =====
-- The agreement between what the encoder remembers and what the parser knows.
use rtmpx.Prelude.{
  ℕ, ◌+◌, ◌-◌, ◌≤◌, ◌<◌, ◌≡◌, refl, Bool, true, false, not, ◌&&◌, ◌||◌, Option, none, some, [], ◌∷◌,
  length, get_or, ◌==◌, if◌then◌else◌, arith,
}
use rtmpx.Prelude.Bytes.{IsU32}
use rtmpx.Prelude.Map.{Map, lookup, count_if}
use rtmpx.Time.{sub, add_ms}
use rtmpx.Time.Serial.{add_ms-sub}
use rtmpx.Chunk.Types.{
  ChunkHeaderFormat, full, time_delta_without_message_stream_id, time_delta_only, empty,
  ChunkHeader,
}
use rtmpx.Chunk.Encoder.{ChunkEncoder, choose_format, get_csid_for_message_type}
use rtmpx.Chunk.Parser.{ChunkParser, Stream, is_active, is_none}
use rtmpx.Chunk.Parser.Begin.{old_header}
use rtmpx.Chunk.RoundTrip.Headers.{TimeKnown, Recalls}
use rtmpx.Chunk.RoundTrip.Begin.{stream_for, Inactive, TimeAgrees}

-- A known stream is filed under its own id.
abbrev pub IsFiled : ℕ → Option Stream → Type 0
IsFiled c none = Unit {0}
IsFiled c (some s) = s.header.chunk_stream_id ≡ c

-- Where a message that must arrive was the last on the chunk stream, the parser knows it; where none
-- was, or one that may have been dropped, nothing is asked.
abbrev pub SlotAgrees : ℕ → Option ChunkHeader → Option Stream → Type 0
SlotAgrees c none o = IsFiled c o
SlotAgrees c (some h) o =
    IsFiled c o
    × (h.can_be_dropped ≡ false
        → (o ≡ some (stream_for h h.message_length false)) × IsU32 h.timestamp.value)

-- One for each of the encoder's chunk streams that the parser has not seen.
abbrev pub missing : Map Stream → ℕ → ℕ
missing m c = if is_none (lookup c m) then 1 else 0

abbrev pub all_missing : Map Stream → ℕ
all_missing m = missing m 2 + missing m 3 + missing m 4 + missing m 5 + missing m 6

pub record Sync (e : ChunkEncoder) (p : ChunkParser) : Type 0 where
  pub sizes : p.chunk_size ≡ e.max_chunk_size
  pub positive : 0 < p.chunk_size
  pub free : p.current ≡ none
  pub clear : p.scratch ≡ []
  pub idle : count_if is_active p.streams ≡ 0
  pub five : length e.previous_headers ≡ 5
  pub tracked : length p.streams + all_missing p.streams ≤ 5
  pub agrees :
      (c : ℕ)
      → 2 ≤ c
      → c ≤ 6
      → SlotAgrees c (get_or e.previous_headers (c - 2) none) (lookup c p.streams)

pub csid_bounds : (t : ℕ) → (2 ≤ get_csid_for_message_type t) × (get_csid_for_message_type t ≤ 6)
unfolding get_csid_for_message_type
csid_bounds t = ground arith

pub Inactive-of_count : (m : Map Stream) (c : ℕ) → count_if is_active m ≡ 0 → Inactive (lookup c m)
unfolding lookup count_if
Inactive-of_count [] c h = tt
Inactive-of_count ((j, s) ∷ m) c h = ground (arith, Inactive-of_count m c)

-- What the parser needs to follow the format that `choose_format` settles on.
pub record Follows (h : ChunkHeader) (format : ChunkHeaderFormat) (old : Option Stream)
    : Type 0 where
  pub known : TimeKnown h format old
  pub recalls : Recalls h format (old_header h.chunk_stream_id old)
  pub timed : TimeAgrees h format old

-- A header before the choice of its format.
pub record IsPlain (h : ChunkHeader) : Type 0 where
  pub field : h.timestamp_field ≡ h.timestamp.value
  pub word : IsU32 h.timestamp.value

Follows-full :
    (h : ChunkHeader) (old : Option Stream)
    → IsPlain h
    → IsFiled h.chunk_stream_id old
    → Follows h full old
Follows-full h none w f = record { known = tt; recalls = refl; timed = ground (arith, w) }
Follows-full h (some s) w f = record { known = tt; recalls = f; timed = ground (arith, w) }

-- The header with the time since the previous message in its timestamp field.
abbrev delta_header : ChunkHeader → ChunkHeader → ChunkHeader
delta_header q h = record h { timestamp_field = (sub h.timestamp q.timestamp).value }

abbrev delta_format : ChunkHeader → ChunkHeader → ChunkHeaderFormat
delta_format q h =
    if not (q.message_type_id == h.message_type_id) || not (q.message_length == h.message_length)
    then time_delta_without_message_stream_id
    else if not (q.timestamp_field == (sub h.timestamp q.timestamp).value)
    then time_delta_only
    else empty

module _ (q h : ChunkHeader) (plain : IsPlain h) (same_id : q.chunk_stream_id ≡ h.chunk_stream_id)
    (same_stream : q.message_stream_id ≡ h.message_stream_id) (word : IsU32 q.timestamp.value) where
  advances : add_ms q.timestamp (delta_header q h).timestamp_field ≡ h.timestamp
  advances = add_ms-sub h.timestamp q.timestamp plain.word word

  -- The delta formats are followed where the parser knows the previous message.
  Follows-delta :
      (format : ChunkHeaderFormat)
      → delta_format q h ≡ format
      → Follows (delta_header q h) format (some (stream_for q q.message_length false))
  Follows-delta full e = absurd (ground arith)
  Follows-delta time_delta_without_message_stream_id e = record {
    known = tt;
    recalls = (same_id, same_stream);
    timed = (stream_for q q.message_length false, refl, advances);
  }
  Follows-delta time_delta_only e = record {
    known = tt;
    recalls = (same_id, same_stream, ground arith, ground arith);
    timed = (stream_for q q.message_length false, refl, advances);
  }
  Follows-delta empty e = record {
    known = (stream_for q q.message_length false, refl, ground arith);
    recalls = (same_id, same_stream, ground arith, ground arith);
    timed = (stream_for q q.message_length false, refl, advances);
  }

-- May the header be compressed after this one?
abbrev compresses : ChunkHeader → Bool → ChunkHeader → Bool
compresses q force h =
    not force && (not q.can_be_dropped && q.message_stream_id == h.message_stream_id)

choose_format-Follows_with :
    (q h : ChunkHeader) (force b : Bool) (old : Option Stream)
    → compresses q force h ≡ b
    → SlotAgrees h.chunk_stream_id (some q) old
    → IsPlain h
    → let (h', format) = choose_format (some q) force h in Follows h' format old
unfolding choose_format
choose_format-Follows_with q h force false old e agrees plain =
    rw e (Follows-full h old plain agrees.0)
choose_format-Follows_with q h force true old e agrees plain =
    let (known, word) = agrees.1 (ground arith) in
    let filed : IsFiled h.chunk_stream_id (some (stream_for q q.message_length false)) =
      rw known at (agrees.0) in
    rw (e, known) (Follows-delta q h plain filed (ground arith) word (delta_format q h) refl)

-- Whatever format the encoder settles on, the parser can follow it.
pub choose_format-Follows :
    (previous : Option ChunkHeader) (h : ChunkHeader) (force : Bool) (old : Option Stream)
    → SlotAgrees h.chunk_stream_id previous old
    → IsPlain h
    → let (h', format) = choose_format previous force h in Follows h' format old
choose_format-Follows none h force old agrees plain =
    unfold choose_format in Follows-full h old plain agrees
choose_format-Follows (some q) h force old agrees plain =
    choose_format-Follows_with q h force (compresses q force h) old refl agrees plain
