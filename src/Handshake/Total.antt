-- ===== src/Handshake/Total.antt =====
-- No call of the handshake panics, and its loop ends within its fuel.
use rtmpx.Prelude.{
  ℕ, zero, suc, ◌+◌, ◌<◌, ◌≤◌, ◌≡◌, refl, ap, ◌∙◌, Bool, true, false, List, ◌∷◌, ◌++◌, length,
  length-append, length-take, length-drop, length-replicate, take, drop, drop-drop, ltb,
  if◌then◌else◌, ok, err, arith,
}
use rtmpx.Prelude.Bytes.{Byte}
use rtmpx.Handshake.Digest.{
  unknown_packet1_format, split_at, get_server_digest_offset, get_client_digest_offset,
  get_message_parts, calc_hmac, calc_hmac_from_parts, parts_hmac, get_digest_for_received_packet,
  rtmp_packet_size, equal_bytes,
}
use rtmpx.Handshake.Packets.{
  HandshakeProgress, in_progress, HandshakeRole, server, client, waiting_for_packet0,
  waiting_for_packet2, Handshake, Turn, Rng, draw, drawn, new, write_at, undigested_p1, digested_p1,
  offset_for, key_of, other_role, random_crud, signed_p2, generate_outbound_p0_and_p1, parse_p1,
  answer_p1,
}

pub length-draw : (n : ℕ) (rng : Rng) → length (draw n rng) ≡ n
unfolding draw
length-draw zero rng = refl
length-draw (suc n) rng = ap suc (length-draw n (λ k. rng (suc k)))

-- A new handshake has a packet 1 of the packet's size.
pub length-new :
    (role : HandshakeRole) (rng : Rng) → length ((new role rng).sent_p1) ≡ rtmp_packet_size
unfolding new
length-new role rng = let none_yet : Byte = 0 in length-replicate rtmp_packet_size none_yet

pub length-write_at :
    (array : List Byte) (start : ℕ) (bytes : List Byte)
    → start + length bytes ≤ length array
    → length (write_at array start bytes) ≡ length array
unfolding write_at
length-write_at array start bytes within = omega (
  arith,
  length-append (take start array) (bytes ++ drop (start + length bytes) array),
  length-append bytes (drop (start + length bytes) array),
  length-take start array,
  length-drop (start + length bytes) array,
)

pub offset_for_bounds :
    (role : HandshakeRole) (packet : List Byte)
    → (12 ≤ offset_for role packet) × (offset_for role packet < 1504)
unfolding get_server_digest_offset get_client_digest_offset
offset_for_bounds server packet = omega arith
offset_for_bounds client packet = omega arith

pub length-undigested_p1 :
    (packet : List Byte) (rng : Rng)
    → length packet ≡ rtmp_packet_size
    → length (undigested_p1 packet rng) ≡ rtmp_packet_size
unfolding undigested_p1
length-undigested_p1 packet rng size =
    let random : length (write_at packet 8 (draw 1524 rng)) ≡ length packet =
      length-write_at packet 8 (draw 1524 rng) (omega (arith, length-draw 1524 rng)) in
    length-write_at (write_at packet 8 (draw 1524 rng)) 4 _ (omega arith) ∙ random ∙ size

split_at_lem :
    (n : ℕ) (bytes : List Byte)
    → n ≤ length bytes
    → split_at n bytes ≡ ok (take n bytes, drop n bytes)
unfolding split_at
split_at_lem n bytes within = ground arith

-- Where the digest is left out.
abbrev pub undigested : List Byte → ℕ → List Byte
undigested packet offset = take offset packet ++ drop (offset + 32) packet

module _ (hmac : List Byte → List Byte → List Byte)
    (hmac_length : (key input : List Byte) → length (hmac key input) ≡ 32) where
  pub calc_hmac_lem : (input key : List Byte) → calc_hmac hmac input key ≡ ok (hmac key input)
  unfolding calc_hmac
  calc_hmac_lem input key = rw (hmac_length key input)

  pub parts_hmac_lem :
      (packet key : List Byte) (offset : ℕ)
      → offset + 32 ≤ length packet
      → parts_hmac hmac packet key offset
        ≡ ok (hmac key (undigested packet offset), take 32 (drop offset packet))
  unfolding parts_hmac get_message_parts calc_hmac_from_parts
  parts_hmac_lem packet key offset within = rw (
    split_at_lem offset packet (omega arith),
    split_at_lem 32 (drop offset packet) (omega (arith, length-drop offset packet)),
    drop-drop offset 32 packet,
    calc_hmac_lem (undigested packet offset) key,
  )

  -- Is there a digest at the offset that fits the key?
  abbrev pub has_digest : List Byte → List Byte → ℕ → Bool
  has_digest packet key offset =
      equal_bytes (hmac key (undigested packet offset)) (take 32 (drop offset packet))

  pub get_digest_lem :
      (packet key : List Byte)
      → length packet ≡ rtmp_packet_size
      → get_digest_for_received_packet hmac packet key ≡ (
          if has_digest packet key (get_client_digest_offset packet)
          then ok (take 32 (drop (get_client_digest_offset packet) packet))
          else if has_digest packet key (get_server_digest_offset packet)
          then ok (take 32 (drop (get_server_digest_offset packet) packet))
          else err unknown_packet1_format)
  unfolding get_digest_for_received_packet
  get_digest_lem packet key size =
      let (_, low) = offset_for_bounds client packet in
      let (_, high) = offset_for_bounds server packet in
      rw (
        parts_hmac_lem packet key (get_client_digest_offset packet) (omega arith),
        parts_hmac_lem packet key (get_server_digest_offset packet) (omega arith),
      )

  pub digested_p1_lem :
      (role : HandshakeRole) (packet : List Byte)
      → digested_p1 hmac role packet
        ≡ ok (
            write_at packet
              (offset_for role packet)
              (hmac (key_of role) (undigested packet (offset_for role packet))))
  unfolding digested_p1 calc_hmac_from_parts
  digested_p1_lem role packet =
      rw (calc_hmac_lem (undigested packet (offset_for role packet)) (key_of role))

  pub length-digested :
      (role : HandshakeRole) (packet : List Byte)
      → length packet ≡ rtmp_packet_size
      → length (
          write_at packet
            (offset_for role packet)
            (hmac (key_of role) (undigested packet (offset_for role packet))))
        ≡ rtmp_packet_size
  length-digested role packet size =
      let (_, bound) = offset_for_bounds role packet in
      length-write_at packet (offset_for role packet) _
        (omega (arith, hmac_length (key_of role) (undigested packet (offset_for role packet))))
      ∙ size

  -- Packets 0 and 1 are always made: a byte of 3, and a packet of the packet's size.
  pub generate_lem :
      (h : Handshake)
      → length h.sent_p1 ≡ rtmp_packet_size
      → (p : List Byte) × (generate_outbound_p0_and_p1 hmac h ≡ (
        record h { sent_p1 = p; rng = drawn 1524 h.rng; current_stage = waiting_for_packet0 },
        ok (3 ∷ p),
      ))
        × (length p ≡ rtmp_packet_size)
  unfolding generate_outbound_p0_and_p1
  generate_lem h size =
      let packet = undigested_p1 h.sent_p1 h.rng in
      let role = h.peer_type in
      (
        write_at packet (offset_for role packet)
            (hmac (key_of role) (undigested packet (offset_for role packet))),
        rw (digested_p1_lem role packet),
        length-digested role packet (length-undigested_p1 h.sent_p1 h.rng size),
      )

  signed_p2_lem :
      (role : HandshakeRole) (digest : List Byte) (rng : Rng)
      → (p : List Byte) × (signed_p2 hmac role digest (draw rtmp_packet_size rng) ≡ ok p)
        × (length p ≡ rtmp_packet_size)
  unfolding signed_p2
  signed_p2_lem role digest rng =
      let first = hmac (key_of role ++ random_crud) digest in
      let output = draw rtmp_packet_size rng in
      let second = hmac first (take 1504 output) in
      (
        write_at output 1504 second,
        rw (
          calc_hmac_lem digest (key_of role ++ random_crud),
          calc_hmac_lem (take 1504 output) first,
        ),
        length-write_at output 1504 second
              (omega (arith, length-draw 1536 rng, hmac_length first (take 1504 output)))
            ∙ length-draw 1536 rng,
      )

  abbrev Answer : Handshake → Turn HandshakeProgress → Type 0
  Answer h t =
      (p : List Byte) × (r : Rng) × (t
        ≡ (record h { rng = r; current_stage = waiting_for_packet2 }, ok (in_progress p)))
      × (length p ≡ rtmp_packet_size)

  Answer-digest :
      (h : Handshake) (packet digest : List Byte) → Answer h (answer_p1 hmac h packet (ok digest))
  unfolding answer_p1
  Answer-digest h packet digest =
      let (p, signed, size) = signed_p2_lem h.peer_type digest h.rng in
      (p, drawn rtmp_packet_size h.rng, rw signed, size)

  Answer-found :
      (h : Handshake) (packet digest other : List Byte) (first second : Bool)
      → length packet ≡ rtmp_packet_size
      → Answer h (
          answer_p1 hmac h packet
            (if first then ok digest else if second then ok other else err unknown_packet1_format))
  unfolding answer_p1
  Answer-found h packet digest other true second size = Answer-digest h packet digest
  Answer-found h packet digest other false true size = Answer-digest h packet other
  Answer-found h packet digest other false false size = (packet, h.rng, refl, size)

  -- A whole packet 1 is always answered with a packet of the same size.
  pub parse_p1_lem :
      (h : Handshake)
      → rtmp_packet_size ≤ length h.input_buffer
      → Answer (record h { input_buffer = drop rtmp_packet_size h.input_buffer }) (parse_p1 hmac h)
  unfolding parse_p1
  parse_p1_lem h whole =
      let packet = take rtmp_packet_size h.input_buffer in
      let key = key_of (other_role h.peer_type) in
      let size : length packet ≡ rtmp_packet_size =
        omega (arith, length-take rtmp_packet_size h.input_buffer) in
      rw (enough (length h.input_buffer) whole, get_digest_lem packet key size)
        (Answer-found (record h { input_buffer = drop rtmp_packet_size h.input_buffer }) packet _ _
          (has_digest packet key (get_client_digest_offset packet))
          (has_digest packet key (get_server_digest_offset packet)) size)
    where
      enough : (n : ℕ) → rtmp_packet_size ≤ n → ltb n rtmp_packet_size ≡ false
      enough n le = ground arith
