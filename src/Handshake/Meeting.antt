-- ===== src/Handshake/Meeting.antt =====
-- A client and a server of this code shake hands.
use rtmpx.Prelude.{
  ℕ, suc, ◌<◌, ◌≤◌, ◌≡◌, refl, sym, ap, ◌∙◌, Bool, true, false, List, [], ◌∷◌, ◌++◌, append-nil,
  append_assoc, length, length-append, take, drop, drop-append_le, drop_all, ltb, if◌then◌else◌, ok,
  arith,
}
use rtmpx.Prelude.Bytes.{Byte}
use rtmpx.Handshake.Digest.{rtmp_packet_size, equal_bytes}
use rtmpx.Handshake.Packets.{
  in_progress, completed, server, client, need_to_send_p0_and_p1, waiting_for_packet0,
  waiting_for_packet1, waiting_for_packet2, complete, Handshake, Rng, new, drawn,
  generate_outbound_p0_and_p1, round_of, process_loop, process_bytes, read_p0, parse_p0, parse_p2,
}
use rtmpx.Handshake.Total.{length-new, generate_lem, parse_p1_lem}

abbrev at_p0 : Handshake → List Byte → Handshake
at_p0 h bytes = record h { current_stage = waiting_for_packet0; input_buffer = bytes }

abbrev at_p2 : Handshake → List Byte → Handshake
at_p2 h bytes = record h { current_stage = waiting_for_packet2; input_buffer = bytes }

drop_packet :
    (p more : List Byte) → length p ≡ rtmp_packet_size → drop rtmp_packet_size (p ++ more) ≡ more
drop_packet p more size =
    drop-append_le rtmp_packet_size p more (omega arith)
    ∙ ap (λ l. l ++ more) (drop_all rtmp_packet_size p (omega arith))

last_branch : {A : Type 0} (same : Bool) (a : A) → (if same then a else a) ≡ a
last_branch true a = refl
last_branch false a = refl

module _ (hmac : List Byte → List Byte → List Byte)
    (hmac_length : (key input : List Byte) → length (hmac key input) ≡ 32) where
  -- Packets 0 and 1 are read, and packet 2 is answered.
  read_both :
      (fuel : ℕ) (h : Handshake) (p more response : List Byte)
      → length p ≡ rtmp_packet_size
      → (answer : List Byte) × (rng : Rng) × (process_loop hmac
            (suc (suc fuel))
            (at_p0 h (3 ∷ (p ++ more)))
            response
            []
          ≡ process_loop hmac fuel
              (at_p2 (record h { rng = rng; command_byte = 3 }) more)
              (response ++ answer)
              [])
        × (length answer ≡ rtmp_packet_size)
  unfolding process_loop round_of parse_p0 read_p0
  read_both fuel h p more response size =
      let read = record h {
        current_stage = waiting_for_packet1;
        command_byte = 3;
        input_buffer = p ++ more;
      } in
      let (answer, rng, same, sized) =
        parse_p1_lem hmac hmac_length read (omega (arith, length-append p more)) in
      (answer, rng, rw (same, append-nil response, drop_packet p more size), sized)

  -- Less than a packet is waited for.
  wait_p2 :
      (fuel : ℕ) (h : Handshake) (bytes response : List Byte)
      → length bytes < rtmp_packet_size
      → process_loop hmac (suc fuel) (at_p2 h bytes) response []
        ≡ (at_p2 h bytes, ok (in_progress response))
  unfolding process_loop round_of parse_p2
  wait_p2 fuel h bytes response short = rw (below (length bytes) short, append-nil response)
    where
      below : (n : ℕ) → n < rtmp_packet_size → ltb n rtmp_packet_size ≡ true
      below n lt = ground arith

  finish_p2 :
      (fuel : ℕ) (h : Handshake) (q left response : List Byte)
      → length q ≡ rtmp_packet_size
      → process_loop hmac (suc fuel) (at_p2 h (q ++ left)) response []
        ≡ (record h { current_stage = complete; input_buffer = [] }, ok (completed response left))
  unfolding process_loop round_of parse_p2
  finish_p2 fuel h q left response size = rw (
    whole (length (q ++ left)) (omega (arith, length-append q left)),
    last_branch (equal_bytes h.sent_p1 (take rtmp_packet_size (q ++ left))),
    drop_packet q left size,
  )
    where
      whole : (n : ℕ) → rtmp_packet_size ≤ n → ltb n rtmp_packet_size ≡ false
      whole n le = ground arith

  -- The turns of a client and a server that read what the other wrote; `x` and `y` follow their last
  -- packets.
  pub record Meeting (client_rng server_rng : Rng) (x y : List Byte) : Type 0 where
    pub sent : List Byte
    pub answer : List Byte
    pub reply : List Byte
    pub client_started : Handshake
    pub client_done : Handshake
    pub server_answered : Handshake
    pub server_done : Handshake
    pub client_sends :
        generate_outbound_p0_and_p1 hmac (new client client_rng) ≡ (client_started, ok sent)
    pub server_answers :
        process_bytes hmac (new server server_rng) sent ≡ (server_answered, ok (in_progress answer))
    pub client_replies :
        process_bytes hmac client_started (answer ++ x) ≡ (client_done, ok (completed reply x))
    pub server_ends :
        process_bytes hmac server_answered (reply ++ y) ≡ (server_done, ok (completed [] y))

  first_round :
      (fuel : ℕ) (h : Handshake)
      → length h.sent_p1 ≡ rtmp_packet_size
      → (q : List Byte) × (process_loop hmac
            (suc fuel)
            (record h { current_stage = need_to_send_p0_and_p1 })
            []
            []
          ≡ process_loop hmac fuel
              (at_p0 (record h { sent_p1 = q; rng = drawn 1524 h.rng }) h.input_buffer)
              (3 ∷ q)
              [])
        × (length q ≡ rtmp_packet_size)
  unfolding process_loop round_of
  first_round fuel h size =
      let (q, same, sized) =
        generate_lem hmac hmac_length (record h { current_stage = need_to_send_p0_and_p1 }) size in
      (q, rw same, sized)

  server_answer :
      (rng : Rng) (p : List Byte)
      → length p ≡ rtmp_packet_size
      → (q : List Byte) × (a : List Byte) × (h : Handshake) × (process_bytes hmac
            (new server rng)
            (3 ∷ p)
          ≡ (at_p2 h [], ok (in_progress ((3 ∷ q) ++ a))))
        × (length q ≡ rtmp_packet_size)
        × (length a ≡ rtmp_packet_size)
  unfolding process_bytes new
  server_answer rng p size =
      let h = record (new server rng) { input_buffer = 3 ∷ p } in
      let (q, first, q_size) = first_round 4 h (length-new server rng) in
      let g = record h { sent_p1 = q; rng = drawn 1524 rng } in
      let (a, later, next, a_size) = read_both 2 g p [] (3 ∷ q) size in
      (
        q,
        a,
        record g { rng = later; command_byte = 3 },
        first
            ∙ ap (λ l. process_loop hmac 4 (at_p0 g (3 ∷ l)) (3 ∷ q) []) (sym (append-nil p))
            ∙ next
            ∙ wait_p2 1 (record g { rng = later; command_byte = 3 }) [] ((3 ∷ q) ++ a)
                (omega arith),
        q_size,
        a_size,
      )

  client_reply :
      (h : Handshake) (q a x : List Byte)
      → length q ≡ rtmp_packet_size
      → length a ≡ rtmp_packet_size
      → (c : List Byte) × (h' : Handshake) × (process_bytes hmac (at_p0 h []) (((3 ∷ q) ++ a) ++ x)
          ≡ (h', ok (completed c x)))
        × (length c ≡ rtmp_packet_size)
  unfolding process_bytes
  client_reply h q a x q_size a_size =
      let (c, later, next, c_size) = read_both 3 h q (a ++ x) [] q_size in
      (
        c,
        _,
        ap (λ l. process_loop hmac 5 (at_p0 h (3 ∷ l)) [] []) (append_assoc q a x)
            ∙ next
            ∙ finish_p2 2 (record h { rng = later; command_byte = 3 }) a x c a_size,
        c_size,
      )

  -- With a hash of 32 bytes, whatever both random generators give: the server answers what the client
  -- sends first, the client completes on that answer, and the server on its reply, and each has left
  -- what followed the other's last packet, byte for byte.
  pub meeting : (client_rng server_rng : Rng) (x y : List Byte) → Meeting client_rng server_rng x y
  unfolding new
  meeting client_rng server_rng x y =
      let (p, sends, p_size) =
        generate_lem hmac hmac_length (new client client_rng) (length-new client client_rng) in
      let (q, a, s, answers, q_size, a_size) = server_answer server_rng p p_size in
      let started = record (new client client_rng) {
        sent_p1 = p;
        rng = drawn 1524 client_rng;
        current_stage = waiting_for_packet0;
      } in
      let (c, done, replies, c_size) = client_reply started q a x q_size a_size in
      record {
        sent = 3 ∷ p;
        answer = (3 ∷ q) ++ a;
        reply = c;
        client_started = started;
        client_done = done;
        server_answered = at_p2 s [];
        server_done = record s { current_stage = complete; input_buffer = [] };
        client_sends = sends;
        server_answers = answers;
        client_replies = replies;
        server_ends = unfold process_bytes in finish_p2 4 s c y [] c_size;
      }
