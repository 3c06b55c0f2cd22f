-- ===== src/Chunk/Decoder/Accounts.antt =====
-- The decoder's counts of buffered and reserved bytes are those of its partial messages.
use rtmpx.Prelude.{
  ℕ, ◌+◌, ◌-◌, ◌^◌, ◌≤◌, ◌<◌, ◌≡◌, refl, sym, ap, ◌∙◌, Bool, true, false, not, ◌&&◌, Option, none,
  some, List, [], ◌∷◌, length, length-append, ◌==◌, leb, if◌then◌else◌, Bool-cases, inl, inr,
  Ensures, ensures_then, arith,
}
use mathlib.Core.Path.{subst}
use rtmpx.Prelude.Bytes.{Byte}
use rtmpx.Prelude.Map.{Map, lookup, insert, remove, lookup-insert_self}
use rtmpx.Payload
use rtmpx.Payload.{Payload, push, from_bytes, segment_count}
use rtmpx.Payload.Segments.{len-push}
use rtmpx.Chunk.Types.{MessageHeader, MessageFragment, is_end}
use rtmpx.Chunk.Parser.{is_none}
use rtmpx.Chunk.Decoder.{
  MessageDecoder, Assembly, segmented, contiguous, assembled, reserved_by, exceeds, saturating_add,
  open_partial, find_partial, extend, settle, join_partial, place_fragment,
}

-- The sum over all partial messages.
unfoldable pub total : (Assembly → ℕ) → Map Assembly → ℕ
total w [] = 0
total w ((key, body) ∷ rest) = w body + total w rest

abbrev pub weigh : (Assembly → ℕ) → Option Assembly → ℕ
weigh w none = 0
weigh w (some body) = w body

total-insert :
    (w : Assembly → ℕ) (key : ℕ) (body : Assembly) (m : Map Assembly)
    → total w (insert key body m) + weigh w (lookup key m) ≡ total w m + w body
unfolding total insert lookup
total-insert w key body [] = omega arith
total-insert w key body ((other, b) ∷ m) = ground (arith, total-insert w key body m)

pub total-remove :
    (w : Assembly → ℕ) (key : ℕ) (m : Map Assembly)
    → total w (remove key m) + weigh w (lookup key m) ≡ total w m
unfolding total remove lookup
total-remove w key [] = omega arith
total-remove w key ((other, b) ∷ m) = ground (arith, total-remove w key m)

-- Both counts are right, and what is buffered is within its limit.
pub record Accounted (d : MessageDecoder) : Type 0 where
  pub buffered_is : d.buffered ≡ total assembled d.partials
  pub reserved_is : d.reserved ≡ total reserved_by d.partials
  pub bounded : d.buffered ≤ d.limits.maximum_buffered_bytes
  pub usize : d.limits.maximum_buffered_bytes < 2 ^ 64 - 1

-- A partial message that was found or opened, before its fragment joins it.
record Found (d d₁ : MessageDecoder) (csid : ℕ) (body : Assembly) : Type 0 where
  there : lookup csid d₁.partials ≡ some body
  accounted : Accounted d₁
  same_buffered : d₁.buffered ≡ d.buffered
  same_limits : d₁.limits ≡ d.limits

module _ (capacity_of : ℕ → ℕ) where
  abbrev fresh_body : Bool → MessageHeader → Assembly
  fresh_body owned h =
      if owned then segmented Payload.new else contiguous [] (capacity_of h.message_length)

  fresh_empty : (owned : Bool) (h : MessageHeader) → assembled (fresh_body owned h) ≡ 0
  fresh_empty true h = refl
  fresh_empty false h = refl

  opened :
      (d : MessageDecoder) (csid : ℕ) (body : Assembly)
      → Accounted d
      → lookup csid d.partials ≡ none
      → assembled body ≡ 0
      → Found d
          (record d {
            partials = insert csid body d.partials;
            reserved = d.reserved + reserved_by body;
          })
          csid
          body
  opened d csid body a none_there empty = record {
    there = lookup-insert_self csid body d.partials;
    accounted = record {
      buffered_is = omega (
        arith,
        a.buffered_is,
        total-insert assembled csid body d.partials,
        ap (weigh assembled) none_there,
        empty,
      );
      reserved_is = omega (
        arith,
        a.reserved_is,
        total-insert reserved_by csid body d.partials,
        ap (weigh reserved_by) none_there,
      );
      bounded = a.bounded;
      usize = a.usize;
    };
    same_buffered = refl;
    same_limits = refl;
  }

  found :
      (d : MessageDecoder) (owned : Bool) (h : MessageHeader) (old : Option Assembly)
      → Accounted d
      → lookup h.chunk_stream_id d.partials ≡ old
      → Ensures (find_partial capacity_of d owned h old) (λ r. Found d r.0 h.chunk_stream_id r.1)
  unfolding find_partial open_partial
  found d owned h none a known =
      let result = opened d h.chunk_stream_id (fresh_body owned h) a known (fresh_empty owned h) in
      elim (Bool-cases (leb d.limits.maximum_partial_messages (length d.partials))) [
        | inl crowded ↦ rw crowded tt
        | inr room ↦
            rw room
              (elim (Bool-cases
                (not owned && exceeds (saturating_add d.reserved h.message_length) d)) [
                  | inl over ↦ rw over tt
                  | inr fits ↦ rw fits result
                ])
      ]
  found d owned h (some body) a known = record {
    there = known;
    accounted = a;
    same_buffered = refl;
    same_limits = refl;
  }

  -- What a fragment of `n` bytes adds.
  record Extended (body body' : Assembly) (more n : ℕ) : Type 0 where
    longer : assembled body' ≡ assembled body + n
    larger : reserved_by body' ≡ reserved_by body + more

  extended :
      (d : MessageDecoder) (body : Assembly) (bytes : List Byte)
      → Ensures (extend capacity_of d body bytes) (λ r. Extended body r.0 r.1 (length bytes))
  unfolding extend
  extended d (segmented p) bytes =
      let n = length bytes in
      elim (Bool-cases
        (not (n == 0) && leb d.limits.maximum_fragments_per_message (segment_count p))) [
          | inl crowded ↦ rw crowded tt
          | inr room ↦ rw room (elim (Bool-cases (exceeds (saturating_add d.reserved n) d)) [
            | inl over ↦ rw over tt
            | inr fits ↦ rw fits (record { longer = len-push p bytes; larger = len-push p bytes })
          ])
        ]
  extended d (contiguous b capacity) bytes = record {
    longer = length-append b bytes;
    larger = omega arith;
  }

  settled :
      (d : MessageDecoder) (csid : ℕ) (h : MessageHeader) (body body' : Assembly) (more n : ℕ)
      (done : Bool)
      → h.chunk_stream_id ≡ csid
      → lookup csid d.partials ≡ some body
      → Accounted d
      → Extended body body' more n
      → d.buffered + n ≤ d.limits.maximum_buffered_bytes
      → Accounted
          (settle capacity_of
            (record d { buffered = d.buffered + n; reserved = d.reserved + more })
            h
            body'
            done).0
  unfolding settle
  settled d csid h body body' more n true same there a e fits = record {
    buffered_is = omega (
      arith,
      a.buffered_is,
      e.longer,
      total-remove assembled h.chunk_stream_id d.partials,
      ap (weigh assembled) (ap (λ c. lookup c d.partials) same ∙ there),
    );
    reserved_is = omega (
      arith,
      a.reserved_is,
      e.larger,
      total-remove reserved_by h.chunk_stream_id d.partials,
      ap (weigh reserved_by) (ap (λ c. lookup c d.partials) same ∙ there),
    );
    bounded = omega (arith, fits);
    usize = a.usize;
  }
  settled d csid h body body' more n false same there a e fits = record {
    buffered_is = omega (
      arith,
      a.buffered_is,
      e.longer,
      total-insert assembled h.chunk_stream_id body' d.partials,
      ap (weigh assembled) (ap (λ c. lookup c d.partials) same ∙ there),
    );
    reserved_is = omega (
      arith,
      a.reserved_is,
      e.larger,
      total-insert reserved_by h.chunk_stream_id body' d.partials,
      ap (weigh reserved_by) (ap (λ c. lookup c d.partials) same ∙ there),
    );
    bounded = fits;
    usize = a.usize;
  }

  joined :
      (d : MessageDecoder) (owned : Bool) (f : MessageFragment) (bytes : List Byte)
      (old : Option Assembly)
      → Accounted d
      → lookup f.header.chunk_stream_id d.partials ≡ old
      → d.buffered + length bytes ≤ d.limits.maximum_buffered_bytes
      → Ensures
          (join_partial capacity_of d owned f bytes (d.buffered + length bytes) old)
          (λ r. Accounted r.0)
  unfolding join_partial
  joined d owned f bytes old a known fits =
      ensures_then (λ r. Accounted r.0) (find_partial capacity_of d owned f.header old) _
        (found d owned f.header old a known)
        λ (d₁, body) at.
          ensures_then (λ r. Accounted r.0) (extend capacity_of d₁ body bytes) _
            (extended d₁ body bytes)
            λ (body', more) e.
              let fits₁ : d₁.buffered + length bytes ≤ d₁.limits.maximum_buffered_bytes =
                rw (at.same_buffered, at.same_limits) fits in
              let buffered : d₁.buffered + length bytes ≡ d.buffered + length bytes =
                ap (λ k. k + length bytes) at.same_buffered in
              subst
                (λ k.
                  Accounted
                    (settle capacity_of (record d₁ { buffered = k; reserved = d₁.reserved + more })
                      f.header body' (is_end f)).0)
                buffered
                (settled d₁ f.header.chunk_stream_id f.header body body' more (length bytes)
                  (is_end f) refl at.there at.accounted e fits₁)

  not_exceeding :
      (d : MessageDecoder) (n : ℕ)
      → Accounted d
      → exceeds (saturating_add d.buffered n) d ≡ false
      → (saturating_add d.buffered n ≡ d.buffered + n)
        × (d.buffered + n ≤ d.limits.maximum_buffered_bytes)
  unfolding exceeds
  not_exceeding d n a fits = (ground (arith, a.usize, fits), ground (arith, a.usize, fits))

  pub placed :
      (d : MessageDecoder) (owned : Bool) (f : MessageFragment) (bytes : List Byte)
      (old : Option Assembly)
      → Accounted d
      → lookup f.header.chunk_stream_id d.partials ≡ old
      → length bytes ≡ length f.bytes
      → Ensures (place_fragment capacity_of d owned f bytes old) (λ r. Accounted r.0)
  unfolding place_fragment
  placed d owned f bytes old a known same =
      let n = length f.bytes in
      let unwelcome =
        owned && (not (n == 0) && (d.limits.maximum_fragments_per_message == 0 && is_none old)) in
      elim (Bool-cases (exceeds (saturating_add d.buffered n) d)) [
        | inl over ↦ rw over tt
        | inr fits ↦ rw fits (elim (Bool-cases unwelcome) [
          | inl refused ↦ rw refused tt
          | inr welcome ↦ rw welcome (elim (Bool-cases (is_end f && is_none old)) [
            | inl whole ↦ rw whole (elim (Bool-cases (exceeds (saturating_add d.reserved n) d)) [
              | inl over ↦ rw over tt
              | inr room ↦ rw room a
            ])
            | inr part ↦ rw part (
                subst
                  (λ k.
                    Ensures (join_partial capacity_of d owned f bytes k old) (λ r. Accounted r.0))
                  (ap (λ k. d.buffered + k) same ∙ sym (not_exceeding d n a fits).0)
                  (joined d owned f bytes old a known
                    (omega (arith, same, (not_exceeding d n a fits).1))))
          ])
        ])
      ]
