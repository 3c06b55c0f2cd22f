-- ===== src/Handshake/Rounds.antt =====
-- What one round of the handshake can do, and what more input changes about it.
use rtmpx.Prelude.{
  ◌<◌, ◌≡◌, refl, inl, inr, Bool, true, false, List, [], ◌∷◌, ◌++◌, length, take, drop, ltb, ◌==◌,
  if◌then◌else◌, Bool-cases, Outcome, ok, err, stuck, arith,
}
use rtmpx.Prelude.Bytes.{Byte}
use rtmpx.Handshake.Digest.{
  HandshakeError, bad_version_id, non_zeroed_time_in_packet1, incorrect_peer_time,
  incorrect_random_data, handshake_already_completed, unknown_packet1_format, invalid_p2_packet, io,
  rtmp_packet_size, get_digest_for_received_packet, equal_bytes,
}
use rtmpx.Handshake.Packets.{
  HandshakeProgress, in_progress, completed, Stage, need_to_send_p0_and_p1, waiting_for_packet0,
  waiting_for_packet1, waiting_for_packet2, complete, Handshake, Turn, stage_number, is_complete,
  digested_p1, generate_outbound_p0_and_p1, read_p0, parse_p0, signed_p2, answer_p1, parse_p1,
  parse_p2, round_of, draw, drawn, undigested_p1, send_p1, send_p2, key_of, other_role, as_progress,
}

-- A round waits for input, moves to a later stage, or ends the handshake or the call.
pub data Round (h : Handshake) : Turn HandshakeProgress → Type 0 where
  waits : is_complete h.current_stage ≡ false → Round h (h, ok (in_progress []))
  moves :
      {h' : Handshake} {response : List Byte}
      → stage_number h.current_stage < stage_number h'.current_stage
      → is_complete h'.current_stage ≡ false
      → Round h (h', ok (in_progress response))
  finishes :
      {h' : Handshake} {response left : List Byte}
      → h'.current_stage ≡ complete
      → Round h (h', ok (completed response left))
  fails : {h' : Handshake} {e : HandshakeError} → Round h (h', err e)
  breaks : {h' : Handshake} → Round h (h', stuck)

-- More input behind that which is there.
abbrev pub feed : Handshake → List Byte → Handshake
feed h more = record h { input_buffer = h.input_buffer ++ more }

abbrev pub feed_turn : List Byte → Turn HandshakeProgress → Turn HandshakeProgress
feed_turn more (h, ok (in_progress response)) = (feed h more, ok (in_progress response))
feed_turn more (h, ok (completed response left)) = (h, ok (completed response (left ++ more)))
feed_turn more (h, err e) = (feed h more, err e)
feed_turn more (h, stuck) = (feed h more, stuck)

module _ (hmac : List Byte → List Byte → List Byte) where
  send_p1-Round :
      (h h' : Handshake) (sent : Outcome HandshakeError (List Byte))
      → h.current_stage ≡ need_to_send_p0_and_p1
      → Round h (as_progress (send_p1 h' sent))
  send_p1-Round h h' (ok p) at = moves (rw at (omega arith)) refl
  send_p1-Round h h' (err e) at = fails
  send_p1-Round h h' stuck at = breaks

  read_p0-Round :
      (h : Handshake) (bytes : List Byte)
      → h.current_stage ≡ waiting_for_packet0
      → Round h (read_p0 h bytes)
  unfolding read_p0
  read_p0-Round h [] at = waits (rw at)
  read_p0-Round h (b ∷ rest) at = elim (Bool-cases (b == 3)) [
    | inl good ↦ rw good (moves (rw at (omega arith)) refl)
    | inr bad ↦ rw bad fails
  ]

  send_p2-Round :
      (h h' : Handshake) (sent : Outcome HandshakeError (List Byte))
      → h.current_stage ≡ waiting_for_packet1
      → Round h (send_p2 h' sent)
  send_p2-Round h h' (ok p) at = moves (rw at (omega arith)) refl
  send_p2-Round h h' (err e) at = fails
  send_p2-Round h h' stuck at = breaks

  answer_p1-Round :
      (h h' : Handshake) (packet : List Byte) (found : Outcome HandshakeError (List Byte))
      → h.current_stage ≡ waiting_for_packet1
      → Round h (answer_p1 hmac h' packet found)
  unfolding answer_p1
  answer_p1-Round h h' packet (ok digest) at =
      send_p2-Round h (record h' { rng = drawn rtmp_packet_size h'.rng })
        (signed_p2 hmac h'.peer_type digest (draw rtmp_packet_size h'.rng)) at
  answer_p1-Round h h' packet (err unknown_packet1_format) at = moves (rw at (omega arith)) refl
  answer_p1-Round h h' packet (err bad_version_id) at = fails
  answer_p1-Round h h' packet (err non_zeroed_time_in_packet1) at = fails
  answer_p1-Round h h' packet (err incorrect_peer_time) at = fails
  answer_p1-Round h h' packet (err incorrect_random_data) at = fails
  answer_p1-Round h h' packet (err handshake_already_completed) at = fails
  answer_p1-Round h h' packet (err invalid_p2_packet) at = fails
  answer_p1-Round h h' packet (err io) at = fails
  answer_p1-Round h h' packet stuck at = breaks

  parse_p1-Round :
      (h : Handshake) → h.current_stage ≡ waiting_for_packet1 → Round h (parse_p1 hmac h)
  unfolding parse_p1
  parse_p1-Round h at = elim (Bool-cases (ltb (length h.input_buffer) rtmp_packet_size)) [
    | inl short ↦ rw short (waits (rw at))
    | inr enough ↦ rw enough (
        answer_p1-Round h (record h { input_buffer = drop rtmp_packet_size h.input_buffer })
          (take rtmp_packet_size h.input_buffer)
          (get_digest_for_received_packet hmac (take rtmp_packet_size h.input_buffer)
            (key_of (other_role h.peer_type)))
          at)
  ]

  finished-Round :
      (same : Bool) (h h' : Handshake) (left : List Byte)
      → h'.current_stage ≡ complete
      → Round h (if same then (h', ok (completed [] left)) else (h', ok (completed [] left)))
  finished-Round true h h' left at = finishes at
  finished-Round false h h' left at = finishes at

  parse_p2-Round : (h : Handshake) → h.current_stage ≡ waiting_for_packet2 → Round h (parse_p2 h)
  unfolding parse_p2
  parse_p2-Round h at = elim (Bool-cases (ltb (length h.input_buffer) rtmp_packet_size)) [
    | inl short ↦ rw short (waits (rw at))
    | inr enough ↦ rw enough (
        finished-Round (equal_bytes h.sent_p1 (take rtmp_packet_size h.input_buffer)) h
          (record h { current_stage = complete; input_buffer = [] })
          (drop rtmp_packet_size h.input_buffer) refl)
  ]

  pub round_of-Round :
      (stage : Stage) (h : Handshake) → h.current_stage ≡ stage → Round h (round_of hmac stage h)
  unfolding round_of generate_outbound_p0_and_p1 parse_p0
  round_of-Round need_to_send_p0_and_p1 h at =
      let packet = undigested_p1 h.sent_p1 h.rng in
      send_p1-Round h (record h { sent_p1 = packet; rng = drawn 1524 h.rng })
        (digested_p1 hmac h.peer_type packet) at
  round_of-Round waiting_for_packet0 h at = read_p0-Round h h.input_buffer at
  round_of-Round waiting_for_packet1 h at = parse_p1-Round h at
  round_of-Round waiting_for_packet2 h at = parse_p2-Round h at
  round_of-Round complete h at = fails
