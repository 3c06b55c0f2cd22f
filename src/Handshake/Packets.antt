-- ===== src/Handshake/Packets.antt =====
-- The handshake's state, and what it does at each packet (src/handshake/mod.rs).
use rtmpx.Prelude.{
  ℕ, zero, suc, ◌+◌, Bool, true, false, ◌||◌, List, [], ◌∷◌, ◌++◌, length, take, drop, replicate,
  ltb, ◌==◌, if◌then◌else◌, Outcome, ok, err, stuck, ◌>>=◌,
}
use rtmpx.Prelude.Bytes.{Byte}
use rtmpx.Handshake.Digest.{
  HandshakeError, bad_version_id, handshake_already_completed, unknown_packet1_format,
  rtmp_packet_size, sha256_digest_length, genuine_fms_const, genuine_fp_const,
  get_server_digest_offset, get_client_digest_offset, calc_hmac, calc_hmac_from_parts,
  get_digest_for_received_packet, equal_bytes,
}

pub data HandshakeProgress : Type 0 where
  in_progress : (response_bytes : List Byte) → HandshakeProgress
  completed : (response_bytes : List Byte) → (remaining_bytes : List Byte) → HandshakeProgress

pub data HandshakeRole : Type 0 where
  server client : HandshakeRole

pub data Stage : Type 0 where
  need_to_send_p0_and_p1 waiting_for_packet0 waiting_for_packet1 waiting_for_packet2 : Stage
  complete : Stage

-- The bytes that the thread's random generator (crate rand) is going to give.
abbrev pub Rng : Type 0
Rng = ℕ → Byte

-- `rng` is the generator of the thread, which the calls draw from.
pub record Handshake : Type 0 where
  pub current_stage : Stage
  pub peer_type : HandshakeRole
  pub command_byte : Byte
  pub input_buffer : List Byte
  pub sent_p1 : List Byte
  pub rng : Rng

-- What a call leaves behind, also where it returns an error, and what it returns.
abbrev pub Turn : Type 0 → Type 0
Turn A = Handshake × Outcome HandshakeError A

unfoldable pub new : HandshakeRole → Rng → Handshake
new role rng = record {
  current_stage = need_to_send_p0_and_p1;
  peer_type = role;
  command_byte = 0;
  input_buffer = [];
  sent_p1 = replicate rtmp_packet_size 0;
  rng = rng;
}

-- `fill_with_random_data` on `n` bytes, and the generator after it.
unfoldable pub draw : ℕ → Rng → List Byte
draw zero rng = []
draw (suc n) rng = rng 0 ∷ draw n (λ k. rng (suc k))

abbrev pub drawn : ℕ → Rng → Rng
drawn n rng k = rng (n + k)

-- Writes over a part of an array, in range.
unfoldable pub write_at : List Byte → ℕ → List Byte → List Byte
write_at array start bytes = take start array ++ (bytes ++ drop (start + length bytes) array)

abbrev adobe_version : List Byte
adobe_version = 128 ∷ 0 ∷ 7 ∷ 2 ∷ []

abbrev pub offset_for : HandshakeRole → List Byte → ℕ
offset_for server packet = get_server_digest_offset packet
offset_for client packet = get_client_digest_offset packet

-- The key for the packets that the role sends.
abbrev pub key_of : HandshakeRole → List Byte
key_of server = genuine_fms_const
key_of client = genuine_fp_const

abbrev pub other_role : HandshakeRole → HandshakeRole
other_role server = client
other_role client = server

abbrev pub random_crud : List Byte
random_crud =
    0xf0 ∷ 0xee ∷ 0xc2 ∷ 0x4a ∷ 0x80 ∷ 0x68 ∷ 0xbe ∷ 0xe8 ∷ 0x2e ∷ 0x00 ∷ 0xd0 ∷ 0xd1 ∷ 0x02 ∷ 0x9e
    ∷ 0x7e ∷ 0x57 ∷ 0x6e ∷ 0xec ∷ 0x5d ∷ 0x2d ∷ 0x29 ∷ 0x80 ∷ 0x6f ∷ 0xab ∷ 0x93 ∷ 0xb8 ∷ 0xe6
    ∷ 0x36 ∷ 0xcf ∷ 0xeb ∷ 0x31 ∷ 0xae ∷ []

-- Packet 1 before its digest.
unfoldable pub undigested_p1 : List Byte → Rng → List Byte
undigested_p1 packet rng = write_at (write_at packet 8 (draw 1524 rng)) 4 adobe_version

abbrev pub p2_sig_start_index : ℕ
p2_sig_start_index = 1504

abbrev pub send_p1 : Handshake → Outcome HandshakeError (List Byte) → Turn (List Byte)
send_p1 h (ok packet) =
    (record h { sent_p1 = packet; current_stage = waiting_for_packet0 }, ok (3 ∷ packet))
send_p1 h (err e) = (h, err e)
send_p1 h stuck = (h, stuck)

-- The rest of `parse_p0`, on the buffered bytes.
unfoldable pub read_p0 : Handshake → List Byte → Turn HandshakeProgress
read_p0 h [] = (h, ok (in_progress []))
read_p0 h (b ∷ rest) =
    let h' = record h { command_byte = b; input_buffer = rest } in
    if b == 3
    then (record h' { current_stage = waiting_for_packet1 }, ok (in_progress []))
    else (h', err bad_version_id)

unfoldable pub parse_p0 : Handshake → Turn HandshakeProgress
parse_p0 h = read_p0 h h.input_buffer

abbrev pub send_p2 : Handshake → Outcome HandshakeError (List Byte) → Turn HandshakeProgress
send_p2 h (ok packet) = (record h { current_stage = waiting_for_packet2 }, ok (in_progress packet))
send_p2 h (err e) = (h, err e)
send_p2 h stuck = (h, stuck)

-- A packet 2 that differs from the sent packet 1 is accepted like an exact copy.
unfoldable pub parse_p2 : Handshake → Turn HandshakeProgress
parse_p2 h =
    if ltb (length h.input_buffer) rtmp_packet_size
    then (h, ok (in_progress []))
    else let received_packet_2 = take rtmp_packet_size h.input_buffer in
      let left = drop rtmp_packet_size h.input_buffer in
      let finished = record h { current_stage = complete; input_buffer = [] } in
      if equal_bytes h.sent_p1 received_packet_2
      then (finished, ok (completed [] left))
      else (finished, ok (completed [] left))

abbrev pub as_progress : Turn (List Byte) → Turn HandshakeProgress
as_progress (h, sent) = (h, sent >>= λ bytes. ok (in_progress bytes))

abbrev pub is_complete : Stage → Bool
is_complete complete = true
is_complete _ = false

abbrev pub stage_number : Stage → ℕ
stage_number need_to_send_p0_and_p1 = 0
stage_number waiting_for_packet0 = 1
stage_number waiting_for_packet1 = 2
stage_number waiting_for_packet2 = 3
stage_number complete = 4

abbrev pub gather : HandshakeProgress → List Byte → List Byte → List Byte × List Byte
gather (in_progress bytes) response left = (response ++ bytes, left)
gather (completed _ bytes) response left = (response, left ++ bytes)

abbrev pub report : Stage → List Byte → List Byte → HandshakeProgress
report complete response left = completed response left
report _ response left = in_progress response

-- The end of a round: an error is returned, and the loop ends where the stage is final or the same.
abbrev pub after_round :
    (Handshake → List Byte → List Byte → Turn HandshakeProgress)
    → Stage
    → List Byte
    → List Byte
    → Turn HandshakeProgress
    → Turn HandshakeProgress
after_round again started response left (h, err e) = (h, err e)
after_round again started response left (h, stuck) = (h, stuck)
after_round again started response left (h, ok progress) =
    let gathered = gather progress response left in
    if is_complete h.current_stage || stage_number started == stage_number h.current_stage
    then (h, ok (report h.current_stage gathered.0 gathered.1))
    else again h gathered.0 gathered.1

module _ (hmac : List Byte → List Byte → List Byte) where
  unfoldable pub digested_p1 : HandshakeRole → List Byte → Outcome HandshakeError (List Byte)
  digested_p1 role packet =
      let digest_offset = offset_for role packet in
      calc_hmac_from_parts hmac (take digest_offset packet)
        (drop (digest_offset + sha256_digest_length) packet) (key_of role)
      >>= λ sent_digest. ok (write_at packet digest_offset sent_digest)

  unfoldable pub generate_outbound_p0_and_p1 : Handshake → Turn (List Byte)
  generate_outbound_p0_and_p1 h =
      let packet = undigested_p1 h.sent_p1 h.rng in
      send_p1 (record h { sent_p1 = packet; rng = drawn 1524 h.rng })
        (digested_p1 h.peer_type packet)

  -- Packet 2 with its signature, of random bytes.
  unfoldable pub signed_p2 :
      HandshakeRole → List Byte → List Byte → Outcome HandshakeError (List Byte)
  signed_p2 role received_digest output_packet =
      calc_hmac hmac received_digest (key_of role ++ random_crud) >>= λ hmac1.
      calc_hmac hmac (take p2_sig_start_index output_packet) hmac1 >>= λ hmac2.
      ok (write_at output_packet p2_sig_start_index hmac2)

  -- The rest of `parse_p1`, by what the search for a digest gave: where there is none, the original
  -- handshake is spoken, and packet 1 is sent back.
  unfoldable pub answer_p1 :
      Handshake → List Byte → Outcome HandshakeError (List Byte) → Turn HandshakeProgress
  answer_p1 h packet (err unknown_packet1_format) =
      (record h { current_stage = waiting_for_packet2 }, ok (in_progress packet))
  answer_p1 h packet (err e) = (h, err e)
  answer_p1 h packet stuck = (h, stuck)
  answer_p1 h packet (ok received_digest) =
      send_p2 (record h { rng = drawn rtmp_packet_size h.rng })
        (signed_p2 h.peer_type received_digest (draw rtmp_packet_size h.rng))

  unfoldable pub parse_p1 : Handshake → Turn HandshakeProgress
  parse_p1 h =
      if ltb (length h.input_buffer) rtmp_packet_size
      then (h, ok (in_progress []))
      else let received_packet_1 = take rtmp_packet_size h.input_buffer in
        answer_p1 (record h { input_buffer = drop rtmp_packet_size h.input_buffer })
          received_packet_1
          (get_digest_for_received_packet hmac received_packet_1 (key_of (other_role h.peer_type)))

  -- One round of the loop of `process_bytes`.
  unfoldable pub round_of : Stage → Handshake → Turn HandshakeProgress
  round_of need_to_send_p0_and_p1 h = as_progress (generate_outbound_p0_and_p1 h)
  round_of waiting_for_packet0 h = parse_p0 h
  round_of waiting_for_packet1 h = parse_p1 h
  round_of waiting_for_packet2 h = parse_p2 h
  round_of complete h = (h, err handshake_already_completed)

  unfoldable pub process_loop : ℕ → Handshake → List Byte → List Byte → Turn HandshakeProgress
  process_loop zero h response left = (h, stuck)
  process_loop (suc fuel) h response left =
      after_round (process_loop fuel) h.current_stage response left (round_of h.current_stage h)

  -- Five stages: each round but the last leads to a later one.
  unfoldable pub process_bytes : Handshake → List Byte → Turn HandshakeProgress
  process_bytes h bytes = process_loop 5 (record h { input_buffer = h.input_buffer ++ bytes }) [] []
