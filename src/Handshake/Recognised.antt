-- ===== src/Handshake/Recognised.antt =====
-- The digest in a packet 1 is found by the peer.
use rtmpx.Prelude.{
  ℕ, zero, suc, ◌+◌, ◌<◌, ◌≤◌, ◌≡◌, refl, sym, ap, ◌∙◌, true, Bool-cases, inl, inr, List, [], ◌∷◌,
  ◌++◌, length, length-take, get_or, take, drop, take-append_le, take_all, drop-append_le, drop_all,
  drop-drop, ok, arith,
}
use rtmpx.Prelude.Bytes.{Byte}
use rtmpx.Handshake.Digest.{
  rtmp_packet_size, equal_bytes, get_client_digest_offset, get_server_digest_offset,
  get_digest_for_received_packet,
}
use rtmpx.Handshake.Packets.{
  HandshakeRole, server, client, Handshake, write_at, offset_for, key_of, undigested_p1,
  generate_outbound_p0_and_p1,
}
use rtmpx.Handshake.Total.{
  length-undigested_p1, offset_for_bounds, undigested, has_digest, get_digest_lem, digested_p1_lem,
  length-digested,
}

equal_bytes_self : (bytes : List Byte) → equal_bytes bytes bytes ≡ true
unfolding equal_bytes
equal_bytes_self [] = refl
equal_bytes_self (b ∷ bytes) = ground (arith, equal_bytes_self bytes)

get_or-append_lt :
    (xs ys : List Byte) (i : ℕ) → i < length xs → get_or (xs ++ ys) i 0 ≡ get_or xs i 0
get_or-append_lt [] ys i low = elim low [ ]
get_or-append_lt (x ∷ xs) ys zero low = refl
get_or-append_lt (x ∷ xs) ys (suc i) low = get_or-append_lt xs ys i (omega arith)

get_or-take : (n : ℕ) (xs : List Byte) (i : ℕ) → i < n → get_or (take n xs) i 0 ≡ get_or xs i 0
get_or-take zero xs i low = elim low [ ]
get_or-take (suc n) [] i low = refl
get_or-take (suc n) (x ∷ xs) zero low = refl
get_or-take (suc n) (x ∷ xs) (suc i) low = get_or-take n xs i (omega arith)

module _ (array : List Byte) (start : ℕ) (bytes : List Byte) (within : start ≤ length array) where
  front : length (take start array) ≡ start
  front = omega (arith, length-take start array)

  take-write_at : take start (write_at array start bytes) ≡ take start array
  unfolding write_at
  take-write_at =
      take-append_le start (take start array) _ (omega (arith, front))
      ∙ take_all start (take start array) (omega (arith, front))

  drop-write_at :
      drop start (write_at array start bytes) ≡ bytes ++ drop (start + length bytes) array
  unfolding write_at
  drop-write_at =
      drop-append_le start (take start array) _ (omega (arith, front))
      ∙ ap (λ l. l ++ (bytes ++ drop (start + length bytes) array))
          (drop_all start (take start array) (omega (arith, front)))

  get_or-write_at : (i : ℕ) → i < start → get_or (write_at array start bytes) i 0 ≡ get_or array i 0
  unfolding write_at
  get_or-write_at i low =
      get_or-append_lt (take start array) _ i (omega (arith, front)) ∙ get_or-take start array i low

  take_written : take (length bytes) (drop start (write_at array start bytes)) ≡ bytes
  take_written = rw drop-write_at (
      take-append_le (length bytes) bytes _ (omega arith)
      ∙ take_all (length bytes) bytes (omega arith))

  drop_written :
      drop (start + length bytes) (write_at array start bytes) ≡ drop (start + length bytes) array
  drop_written =
      sym (drop-drop start (length bytes) (write_at array start bytes))
      ∙ rw drop-write_at (
          drop-append_le (length bytes) bytes _ (omega arith)
          ∙ ap (λ l. l ++ drop (start + length bytes) array)
              (drop_all (length bytes) bytes (omega arith)))

-- A digest that is written in does not move its own place.
offset_for-write_at :
    (role : HandshakeRole) (packet bytes : List Byte)
    → length packet ≡ rtmp_packet_size
    → offset_for role (write_at packet (offset_for role packet) bytes) ≡ offset_for role packet
unfolding get_client_digest_offset get_server_digest_offset
offset_for-write_at client packet bytes size =
    let o = get_client_digest_offset packet in
    rw (
      get_or-write_at packet o bytes (omega arith) 8 (omega arith),
      get_or-write_at packet o bytes (omega arith) 9 (omega arith),
      get_or-write_at packet o bytes (omega arith) 10 (omega arith),
      get_or-write_at packet o bytes (omega arith) 11 (omega arith),
    )
offset_for-write_at server packet bytes size =
    let o = get_server_digest_offset packet in
    rw (
      get_or-write_at packet o bytes (omega arith) 772 (omega arith),
      get_or-write_at packet o bytes (omega arith) 773 (omega arith),
      get_or-write_at packet o bytes (omega arith) 774 (omega arith),
      get_or-write_at packet o bytes (omega arith) 775 (omega arith),
    )

module _ (hmac : List Byte → List Byte → List Byte)
    (hmac_length : (key input : List Byte) → length (hmac key input) ≡ 32) where
  written_digest :
      (role : HandshakeRole) (packet : List Byte)
      → length packet ≡ rtmp_packet_size
      → (let o = offset_for role packet in
          let p = write_at packet o (hmac (key_of role) (undigested packet o)) in
          has_digest hmac hmac_length p (key_of role) (offset_for role p) ≡ true)
  written_digest role packet size =
      let o = offset_for role packet in
      let d = hmac (key_of role) (undigested packet o) in
      let p = write_at packet o d in
      let (_, bound) = offset_for_bounds role packet in
      let whole : length d ≡ 32 = hmac_length (key_of role) (undigested packet o) in
      rw
        (
          offset_for-write_at role packet d size,
          take-write_at packet o d (omega arith),
          ap (λ (n : ℕ). drop (o + n) p) (sym whole)
              ∙ drop_written packet o d (omega arith)
              ∙ ap (λ (n : ℕ). drop (o + n) packet) whole,
          ap (λ (n : ℕ). take n (drop o p)) (sym whole) ∙ take_written packet o d (omega arith),
        )
        (equal_bytes_self d)

  -- A digest at the role's own place is found, be it as the first of both or as the second.
  found_digest :
      (role : HandshakeRole) (p key : List Byte)
      → length p ≡ rtmp_packet_size
      → has_digest hmac hmac_length p key (offset_for role p) ≡ true
      → (d : List Byte) × (get_digest_for_received_packet hmac p key ≡ ok d)
  found_digest client p key size has = (
    take 32 (drop (get_client_digest_offset p) p),
    get_digest_lem hmac hmac_length p key size ∙ rw has,
  )
  found_digest server p key size has =
      elim (Bool-cases (has_digest hmac hmac_length p key (get_client_digest_offset p))) [
        | inl first ↦ (
          take 32 (drop (get_client_digest_offset p) p),
          get_digest_lem hmac hmac_length p key size ∙ rw first,
        )
        | inr second ↦ (
          take 32 (drop (get_server_digest_offset p) p),
          get_digest_lem hmac hmac_length p key size ∙ rw (second, has),
        )
      ]

  -- With a hash of 32 bytes: a handshake with a packet 1 of the packet's size sends a byte of 3 and a
  -- packet 1, in which whoever reads it with the sender's key finds a digest.
  pub generate-get_digest :
      (h : Handshake)
      → length h.sent_p1 ≡ rtmp_packet_size
      → (p : List Byte) × (digest : List Byte) × ((generate_outbound_p0_and_p1 hmac h).1
          ≡ ok (3 ∷ p))
        × (get_digest_for_received_packet hmac p (key_of h.peer_type) ≡ ok digest)
  unfolding generate_outbound_p0_and_p1
  generate-get_digest h size =
      let role = h.peer_type in
      let packet = undigested_p1 h.sent_p1 h.rng in
      let packet_size = length-undigested_p1 h.sent_p1 h.rng size in
      let o = offset_for role packet in
      let p = write_at packet o (hmac (key_of role) (undigested packet o)) in
      let (d, found) =
        found_digest role p (key_of role) (length-digested hmac hmac_length role packet packet_size)
          (written_digest role packet packet_size) in
      (p, d, rw (digested_p1_lem hmac hmac_length role packet), found)
