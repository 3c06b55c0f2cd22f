-- ===== src/Chunk/RoundTrip/Kept.antt =====
-- Encoding a message and decoding or dropping it keeps encoder and parser in agreement.
use rtmpx.Prelude.{
  ℕ, ◌+◌, ◌-◌, ◌≤◌, ◌<◌, ◌≡◌, ◌≢◌, refl, sym, ap, ◌∙◌, Bool, true, false, Option, none, some,
  length, get_or, set, length-set, get_or-set_self, get_or-set_ne, if◌then◌else◌, arith, ℕ_discrete,
}
use rtmpx.Prelude.Bytes.{IsU32}
use rtmpx.Prelude.Map.{
  Map, lookup, insert, count_if, lookup-insert, lookup-insert_self, lookup-insert_ne, length-insert,
  count_if-insert,
}
use rtmpx.Time.{sub}
use rtmpx.Payload.{Payload}
use rtmpx.Messages.Raw.{RawMessage}
use rtmpx.Chunk.Types.{full, empty, ChunkHeader}
use rtmpx.Chunk.Encoder.{
  ChunkEncoder, EncodeOptions, choose_format, get_csid_for_message_type, plain_header, chosen,
  slot_of, is_full, is_allowed,
}
use rtmpx.Chunk.Parser.{ChunkParser, Stream, is_active}
use rtmpx.Chunk.RoundTrip.Headers.{IsWire}
use rtmpx.Chunk.RoundTrip.Begin.{stream_for}
use rtmpx.Chunk.RoundTrip.Turns.{within}
use rtmpx.Chunk.RoundTrip.Sync.{
  Sync, SlotAgrees, IsFiled, all_missing, csid_bounds, Follows, choose_format-Follows,
}

-- `choose_format` sets the timestamp field alone, and to a u32.
choose_format_fields :
    (previous : Option ChunkHeader) (force : Bool) (h : ChunkHeader)
    → let h' = (choose_format previous force h).0 in
      (h' ≡ record h { timestamp_field = h'.timestamp_field })
      × (IsU32 h.timestamp_field → IsU32 h'.timestamp_field)
unfolding choose_format sub
choose_format_fields none force h = (refl, λ w. w)
choose_format_fields (some q) force h = (ground arith, λ w. ground arith)

choose_format_forced :
    (previous : Option ChunkHeader) (h : ChunkHeader) → choose_format previous true h ≡ (h, full)
unfolding choose_format
choose_format_forced none h = refl
choose_format_forced (some q) h = refl

-- The headers of later chunks are repeated only where they carry the timestamp itself.
pub forced_repeats :
    (previous : Option ChunkHeader) (force : Bool) (h : ChunkHeader)
    → h.timestamp_field ≡ h.timestamp.value
    → (if force then full else empty) ≡ full
    → let h' = (choose_format previous force h).0 in h'.timestamp_field ≡ h'.timestamp.value
forced_repeats previous true h plain q = rw (choose_format_forced previous h) plain
forced_repeats previous false h plain q = cc

-- The encoder's slot and the parser's stream of the message's chunk stream are replaced.
abbrev pub encoded : ChunkEncoder → RawMessage Payload → ChunkHeader → ChunkEncoder
encoded e m h = record e { previous_headers = set e.previous_headers (slot_of m) (some h) }

tracked-insert :
    (m : Map Stream) (c : ℕ) (s : Stream)
    → 2 ≤ c
    → c ≤ 6
    → length (insert c s m) + all_missing (insert c s m) ≡ length m + all_missing m
tracked-insert m c s lo hi = ground (
  arith,
  length-insert c s m,
  lookup-insert c 2 s m,
  lookup-insert c 3 s m,
  lookup-insert c 4 s m,
  lookup-insert c 5 s m,
  lookup-insert c 6 s m,
)

SlotAgrees→IsFiled :
    (c : ℕ) (previous : Option ChunkHeader) (o : Option Stream)
    → SlotAgrees c previous o
    → IsFiled c o
SlotAgrees→IsFiled c none o a = a
SlotAgrees→IsFiled c (some h) o a = a.0

-- The message may be sent: its numbers are machine words.
pub record IsSendable (m : RawMessage Payload) : Type 0 where
  pub time_word : IsU32 m.timestamp.value
  pub stream_word : IsU32 m.message_stream_id
  pub short : m.body.len ≤ 0xff_ffff

module _ (e : ChunkEncoder) (p : ChunkParser) (m : RawMessage Payload) (options : EncodeOptions)
    (sync : Sync e p) (sendable : IsSendable m) where
  abbrev header : ChunkHeader
  header = (chosen e m options).0

  abbrev csid : ℕ
  csid = get_csid_for_message_type m.type_id

  pub header_fields_lem :
      header
      ≡ record (plain_header m options.drop_policy) { timestamp_field = header.timestamp_field }
  header_fields_lem =
      (choose_format_fields (get_or e.previous_headers (slot_of m) none) (is_full options.headers)
        (plain_header m options.drop_policy)).0

  pub id_is : header.chunk_stream_id ≡ csid
  id_is = ap (λ h. h.chunk_stream_id) header_fields_lem

  pub length_is : header.message_length ≡ m.body.len
  length_is = ap (λ h. h.message_length) header_fields_lem

  pub stream_is : header.message_stream_id ≡ m.message_stream_id
  stream_is = ap (λ h. h.message_stream_id) header_fields_lem

  pub type_is : header.message_type_id ≡ m.type_id
  type_is = ap (λ h. h.message_type_id) header_fields_lem

  pub timestamp_is : header.timestamp ≡ m.timestamp
  timestamp_is = ap (λ h. h.timestamp) header_fields_lem

  pub droppable_is : header.can_be_dropped ≡ is_allowed options.drop_policy
  droppable_is = ap (λ h. h.can_be_dropped) header_fields_lem

  field_word : IsU32 header.timestamp_field
  field_word =
      (choose_format_fields (get_or e.previous_headers (slot_of m) none) (is_full options.headers)
          (plain_header m options.drop_policy)).1
        sendable.time_word

  pub header-IsWire : IsWire header
  header-IsWire = record {
    id_low = rw id_is (csid_bounds m.type_id).0;
    id_high = rw id_is (csid_bounds m.type_id).1;
    time_word = field_word;
    length_word = omega (arith, length_is, sendable);
    stream_word = rw stream_is (sendable.stream_word);
  }

  agrees_here : SlotAgrees csid (get_or e.previous_headers (slot_of m) none) (lookup csid p.streams)
  agrees_here = sync.agrees csid (csid_bounds m.type_id).0 (csid_bounds m.type_id).1

  pub header-Follows : Follows header (chosen e m options).1 (lookup csid p.streams)
  header-Follows =
      choose_format-Follows (get_or e.previous_headers (slot_of m) none)
        (plain_header m options.drop_policy) (is_full options.headers) (lookup csid p.streams)
        agrees_here (record { field = refl; word = sendable.time_word })

  slot_in_range : slot_of m < length e.previous_headers
  slot_in_range = omega (arith, csid_bounds m.type_id, sync.five)

  slot_self : get_or (encoded e m header).previous_headers (slot_of m) none ≡ some header
  slot_self = get_or-set_self e.previous_headers (slot_of m) (some header) none slot_in_range

  slot_other :
      (c : ℕ)
      → 2 ≤ c
      → c ≢ csid
      → get_or (encoded e m header).previous_headers (c - 2) none
        ≡ get_or e.previous_headers (c - 2) none
  slot_other c lo ne =
      get_or-set_ne e.previous_headers (slot_of m) (c - 2) (some header) none
        (λ eq. ne (omega (arith, csid_bounds m.type_id)))

  lookup-within :
      lookup csid (within p header header.message_length false).streams
      ≡ some (stream_for header header.message_length false)
  lookup-within =
      ap (λ c. lookup c (within p header header.message_length false).streams) (sym id_is)
      ∙ lookup-insert_self header.chunk_stream_id (stream_for header header.message_length false)
          p.streams

  agrees_self :
      SlotAgrees csid
        (get_or (encoded e m header).previous_headers (slot_of m) none)
        (lookup csid (within p header header.message_length false).streams)
  agrees_self =
      rw (slot_self, lookup-within) (id_is, λ _. (refl, rw timestamp_is sendable.time_word))

  -- The slot and the stream of another message that was decoded.
  agrees_within :
      (c : ℕ)
      → 2 ≤ c
      → c ≤ 6
      → SlotAgrees c
          (get_or (encoded e m header).previous_headers (c - 2) none)
          (lookup c (within p header header.message_length false).streams)
  agrees_within c lo hi = elim (ℕ_discrete c csid) [
    | yes same ↦ rw same agrees_self
    | no ne ↦
        rw
          (
            slot_other c lo ne,
            lookup-insert_ne header.chunk_stream_id c
                (stream_for header header.message_length false) p.streams
                (λ eq. ne (sym eq ∙ id_is)),
          )
          (sync.agrees c lo hi)
  ]

  idle_within : count_if is_active (within p header header.message_length false).streams ≡ 0
  idle_within = omega (
    arith,
    sync.idle,
    count_if-insert is_active header.chunk_stream_id (stream_for header header.message_length false)
        p.streams,
  )

  -- After the message was decoded.
  pub within-Sync : Sync (encoded e m header) (within p header header.message_length false)
  within-Sync = record {
    sizes = sync.sizes;
    positive = sync.positive;
    free = refl;
    clear = refl;
    idle = idle_within;
    five = length-set e.previous_headers (slot_of m) (some header) ∙ sync.five;
    tracked = omega (
      arith,
      sync.tracked,
      tracked-insert p.streams header.chunk_stream_id
          (stream_for header header.message_length false) (header-IsWire.id_low)
          (header-IsWire.id_high),
    );
    agrees = agrees_within;
  }

  IsFiled-here : IsFiled csid (lookup csid p.streams)
  IsFiled-here = SlotAgrees→IsFiled csid _ _ agrees_here

  agrees_dropped :
      is_allowed options.drop_policy ≡ true
      → (c : ℕ) → 2 ≤ c
      → c ≤ 6
      → SlotAgrees c
          (get_or (encoded e m header).previous_headers (c - 2) none)
          (lookup c p.streams)
  agrees_dropped may c lo hi = elim (ℕ_discrete c csid) [
    | yes same ↦ rw (same, slot_self) (IsFiled-here, λ kept. cc (droppable_is, may, kept))
    | no ne ↦ rw (slot_other c lo ne) (sync.agrees c lo hi)
  ]

  -- After the message was dropped, which its sender allowed.
  pub dropped-Sync : is_allowed options.drop_policy ≡ true → Sync (encoded e m header) p
  dropped-Sync may = record {
    sizes = sync.sizes;
    positive = sync.positive;
    free = sync.free;
    clear = sync.clear;
    idle = sync.idle;
    five = length-set e.previous_headers (slot_of m) (some header) ∙ sync.five;
    tracked = sync.tracked;
    agrees = agrees_dropped may;
  }
