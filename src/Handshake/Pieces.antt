-- ===== src/Handshake/Pieces.antt =====
-- Input in pieces: what a round does is not changed by input that it does not read.
use rtmpx.Prelude.{
  ◌≤◌, ◌≡◌, refl, ◌⊎◌, inl, inr, Bool, true, false, List, [], ◌∷◌, ◌++◌, length, take, drop,
  take-append_le, drop-append_le, length-append, ltb, ◌==◌, if◌then◌else◌, Bool-cases, Outcome, ok,
  err, stuck, arith,
}
use rtmpx.Prelude.Bytes.{Byte}
use rtmpx.Handshake.Digest.{
  HandshakeError, bad_version_id, non_zeroed_time_in_packet1, incorrect_peer_time,
  incorrect_random_data, handshake_already_completed, unknown_packet1_format, invalid_p2_packet, io,
  rtmp_packet_size, get_digest_for_received_packet, equal_bytes,
}
use rtmpx.Handshake.Packets.{
  HandshakeProgress, in_progress, completed, Stage, need_to_send_p0_and_p1, waiting_for_packet0,
  waiting_for_packet1, waiting_for_packet2, complete, Handshake, Turn, digested_p1,
  generate_outbound_p0_and_p1, read_p0, parse_p0, signed_p2, answer_p1, parse_p1, parse_p2,
  round_of, draw, drawn, undigested_p1, send_p1, send_p2, key_of, other_role, as_progress,
}
use rtmpx.Handshake.Rounds.{feed, feed_turn}

feed-send_p1 :
    (h : Handshake) (more : List Byte) (sent : Outcome HandshakeError (List Byte))
    → as_progress (send_p1 (feed h more) sent) ≡ feed_turn more (as_progress (send_p1 h sent))
feed-send_p1 h more (ok p) = refl
feed-send_p1 h more (err e) = refl
feed-send_p1 h more stuck = refl

send_p2-feed :
    (h : Handshake) (more : List Byte) (sent : Outcome HandshakeError (List Byte))
    → send_p2 (feed h more) sent ≡ feed_turn more (send_p2 h sent)
send_p2-feed h more (ok p) = refl
send_p2-feed h more (err e) = refl
send_p2-feed h more stuck = refl

read_p0-feed :
    (h : Handshake) (b : Byte) (rest more : List Byte)
    → read_p0 (feed h more) ((b ∷ rest) ++ more) ≡ feed_turn more (read_p0 h (b ∷ rest))
unfolding read_p0
read_p0-feed h b rest more = elim (Bool-cases (b == 3)) [ inl good ↦ rw good | inr bad ↦ rw bad ]

-- The round has read all that it reads, or it waits.
abbrev pub Fed : Handshake → List Byte → Turn HandshakeProgress → Turn HandshakeProgress → Type 0
Fed h more before after = (after ≡ feed_turn more before) ⊎ (before ≡ (h, ok (in_progress [])))

feed_parse_p0 :
    (h : Handshake) (more bytes : List Byte)
    → Fed h more (read_p0 h bytes) (read_p0 (feed h more) (bytes ++ more))
unfolding read_p0
feed_parse_p0 h more [] = inr refl
feed_parse_p0 h more (b ∷ rest) = inl (read_p0-feed h b rest more)

enough_fed :
    (bytes more : List Byte)
    → ltb (length bytes) rtmp_packet_size ≡ false
    → (ltb (length (bytes ++ more)) rtmp_packet_size ≡ false) × (rtmp_packet_size ≤ length bytes)
enough_fed bytes more enough = ground (arith, length-append bytes more)

feed-parse_p2 :
    (h : Handshake) (more : List Byte) → Fed h more (parse_p2 h) (parse_p2 (feed h more))
unfolding parse_p2
feed-parse_p2 h more = elim (Bool-cases (ltb (length h.input_buffer) rtmp_packet_size)) [
  | inl short ↦ inr (rw short)
  | inr enough ↦
      let (still, long) = enough_fed h.input_buffer more enough in
      inl (
        rw
          (
            enough,
            still,
            take-append_le rtmp_packet_size h.input_buffer more long,
            drop-append_le rtmp_packet_size h.input_buffer more long,
          )
          (finish (equal_bytes h.sent_p1 (take rtmp_packet_size h.input_buffer))))
]
  where
    finish :
        (same : Bool)
        → (let left = drop rtmp_packet_size h.input_buffer in
            let finished = record h { current_stage = complete; input_buffer = [] } in
            (if same
              then (finished, ok (completed [] (left ++ more)))
              else (finished, ok (completed [] (left ++ more))))
            ≡ feed_turn more (
                if same
                then (finished, ok (completed [] left))
                else (finished, ok (completed [] left))))
    finish true = refl
    finish false = refl

module _ (hmac : List Byte → List Byte → List Byte) where
  answer_p1-feed :
      (h : Handshake) (more packet : List Byte) (found : Outcome HandshakeError (List Byte))
      → answer_p1 hmac (feed h more) packet found ≡ feed_turn more (answer_p1 hmac h packet found)
  unfolding answer_p1
  answer_p1-feed h more packet (ok digest) =
      send_p2-feed (record h { rng = drawn rtmp_packet_size h.rng }) more
        (signed_p2 hmac h.peer_type digest (draw rtmp_packet_size h.rng))
  answer_p1-feed h more packet (err unknown_packet1_format) = refl
  answer_p1-feed h more packet (err bad_version_id) = refl
  answer_p1-feed h more packet (err non_zeroed_time_in_packet1) = refl
  answer_p1-feed h more packet (err incorrect_peer_time) = refl
  answer_p1-feed h more packet (err incorrect_random_data) = refl
  answer_p1-feed h more packet (err handshake_already_completed) = refl
  answer_p1-feed h more packet (err invalid_p2_packet) = refl
  answer_p1-feed h more packet (err io) = refl
  answer_p1-feed h more packet stuck = refl

  feed-parse_p1 :
      (h : Handshake) (more : List Byte)
      → Fed h more (parse_p1 hmac h) (parse_p1 hmac (feed h more))
  unfolding parse_p1
  feed-parse_p1 h more = elim (Bool-cases (ltb (length h.input_buffer) rtmp_packet_size)) [
    | inl short ↦ inr (rw short)
    | inr enough ↦
        let (still, long) = enough_fed h.input_buffer more enough in
        inl (
          rw
            (
              enough,
              still,
              take-append_le rtmp_packet_size h.input_buffer more long,
              drop-append_le rtmp_packet_size h.input_buffer more long,
            )
            (answer_p1-feed (record h { input_buffer = drop rtmp_packet_size h.input_buffer }) more
              (take rtmp_packet_size h.input_buffer)
              (get_digest_for_received_packet hmac (take rtmp_packet_size h.input_buffer)
                (key_of (other_role h.peer_type)))))
  ]

  pub feed_round :
      (stage : Stage) (h : Handshake) (more : List Byte)
      → Fed h more (round_of hmac stage h) (round_of hmac stage (feed h more))
  unfolding round_of generate_outbound_p0_and_p1 parse_p0
  feed_round need_to_send_p0_and_p1 h more =
      let packet = undigested_p1 h.sent_p1 h.rng in
      inl (
        feed-send_p1 (record h { sent_p1 = packet; rng = drawn 1524 h.rng }) more
          (digested_p1 hmac h.peer_type packet))
  feed_round waiting_for_packet0 h more = feed_parse_p0 h more h.input_buffer
  feed_round waiting_for_packet1 h more = feed-parse_p1 h more
  feed_round waiting_for_packet2 h more = feed-parse_p2 h more
  feed_round complete h more = inl refl
