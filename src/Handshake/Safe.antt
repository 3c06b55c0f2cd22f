-- ===== src/Handshake/Safe.antt =====
-- Which errors the handshake returns, and that it always returns.
use rtmpx.Prelude.{
  ℕ, zero, suc, ◌+◌, ◌<◌, ◌≤◌, ◌≡◌, refl, inl, inr, Bool, true, false, List, [], ◌∷◌, ◌++◌, length,
  drop, ltb, ◌==◌, if◌then◌else◌, Bool-cases, Outcome, ok, err, stuck, arith,
}
use rtmpx.Prelude.Bytes.{Byte}
use rtmpx.Handshake.Digest.{
  HandshakeError, bad_version_id, handshake_already_completed, non_zeroed_time_in_packet1,
  incorrect_peer_time, incorrect_random_data, unknown_packet1_format, invalid_p2_packet, io,
  rtmp_packet_size, equal_bytes,
}
use rtmpx.Handshake.Packets.{
  HandshakeProgress, in_progress, completed, Stage, need_to_send_p0_and_p1, waiting_for_packet0,
  waiting_for_packet1, waiting_for_packet2, complete, Handshake, Turn, stage_number, is_complete,
  after_round, round_of, process_loop, process_bytes, read_p0, parse_p0, parse_p1, parse_p2,
}
use rtmpx.Handshake.Rounds.{Round, waits, moves, finishes, fails, breaks, round_of-Round, feed}
use rtmpx.Handshake.Split.{stage_bound, after_waits, after_moves, after_finishes}
use rtmpx.Handshake.Total.{generate_lem, parse_p1_lem}

-- What a call returns that starts in the given stage: no error but a wrong version id, where packet 0
-- was not read before, or that the handshake was complete before.
abbrev pub Expected : Stage → Outcome HandshakeError HandshakeProgress → Type 0
Expected started (ok progress) = Unit {0}
Expected started (err bad_version_id) = stage_number started < 2
Expected started (err handshake_already_completed) = started ≡ complete
Expected started (err _) = ⊥
Expected started stuck = ⊥

-- The sent packet 1 is an array of the packet's size.
abbrev pub IsSized : Handshake → Type 0
IsSized h = length h.sent_p1 ≡ rtmp_packet_size

abbrev pub IsSafe : Stage → Turn HandshakeProgress → Type 0
IsSafe started (h, out) = IsSized h × Expected started out

IsSafe-read_p0 :
    (h : Handshake) (bytes : List Byte) → IsSized h → IsSafe waiting_for_packet0 (read_p0 h bytes)
unfolding read_p0
IsSafe-read_p0 h [] size = (size, tt)
IsSafe-read_p0 h (b ∷ rest) size = elim (Bool-cases (b == 3)) [
  | inl good ↦ rw good (size, tt)
  | inr bad ↦ rw bad (size, omega arith)
]

IsSafe-p2 : (h : Handshake) → IsSized h → IsSafe waiting_for_packet2 (parse_p2 h)
unfolding parse_p2
IsSafe-p2 h size = go (ltb (length h.input_buffer) rtmp_packet_size) (equal_bytes h.sent_p1 _)
  where
    go :
        (short same : Bool)
        → IsSafe waiting_for_packet2 (
            let left = drop rtmp_packet_size h.input_buffer in
            let finished = record h { current_stage = complete; input_buffer = [] } in
            if short
            then (h, ok (in_progress []))
            else if same
            then (finished, ok (completed [] left))
            else (finished, ok (completed [] left)))
    go true same = (size, tt)
    go false true = (size, tt)
    go false false = (size, tt)

module _ (hmac : List Byte → List Byte → List Byte)
    (hmac_length : (key input : List Byte) → length (hmac key input) ≡ 32) where
  IsSafe-p1 : (h : Handshake) → IsSized h → IsSafe waiting_for_packet1 (parse_p1 hmac h)
  IsSafe-p1 h size = elim (Bool-cases (ltb (length h.input_buffer) rtmp_packet_size)) [
    | inl short ↦ waiting short
    | inr whole ↦
        let (p, r, same, _) =
          parse_p1_lem hmac hmac_length h (enough (length h.input_buffer) whole) in
        rw same (size, tt)
  ]
    where
      enough : (n : ℕ) → ltb n rtmp_packet_size ≡ false → rtmp_packet_size ≤ n
      enough n long = ground arith

      waiting :
          ltb (length h.input_buffer) rtmp_packet_size ≡ true
          → IsSafe waiting_for_packet1 (parse_p1 hmac h)
      waiting short = unfold parse_p1 in rw short (size, tt)

  IsSafe-round : (stage : Stage) (h : Handshake) → IsSized h → IsSafe stage (round_of hmac stage h)
  unfolding round_of parse_p0
  IsSafe-round need_to_send_p0_and_p1 h size =
      let (p, same, sized) = generate_lem hmac hmac_length h size in rw same (sized, tt)
  IsSafe-round waiting_for_packet0 h size = IsSafe-read_p0 h h.input_buffer size
  IsSafe-round waiting_for_packet1 h size = IsSafe-p1 h size
  IsSafe-round waiting_for_packet2 h size = IsSafe-p2 h size
  IsSafe-round complete h size = (size, refl)

  weaken-Expected :
      (later started : Stage) (out : Outcome HandshakeError HandshakeProgress)
      → stage_number started < stage_number later
      → is_complete later ≡ false
      → Expected later out
      → Expected started out
  weaken-Expected later started (ok progress) up on e = tt
  weaken-Expected later started (err bad_version_id) up on e = omega arith
  weaken-Expected later started (err handshake_already_completed) up on e = absurd cc
  weaken-Expected later started (err non_zeroed_time_in_packet1) up on e = e
  weaken-Expected later started (err incorrect_peer_time) up on e = e
  weaken-Expected later started (err incorrect_random_data) up on e = e
  weaken-Expected later started (err unknown_packet1_format) up on e = e
  weaken-Expected later started (err invalid_p2_packet) up on e = e
  weaken-Expected later started (err io) up on e = e
  weaken-Expected later started stuck up on e = e

  IsSafe-step :
      (again : Handshake → List Byte → List Byte → Turn HandshakeProgress) (h : Handshake)
      (response : List Byte)
      → ((h' : Handshake) (r : List Byte)
          → stage_number h.current_stage < stage_number h'.current_stage
          → IsSized h'
          → IsSafe h'.current_stage (again h' r []))
      → (t : Turn HandshakeProgress) → Round h t
      → IsSafe h.current_stage t
      → IsSafe h.current_stage (after_round again h.current_stage response [] t)
  IsSafe-step again h response later _ (waits on) safe = rw (after_waits again h response on) safe
  IsSafe-step again h response later _ (moves {h'} {response = more} up on) safe =
      rw (after_moves again h.current_stage h' response more up on) (
        let (size, e) = later h' (response ++ more) up safe.0 in
        (size, weaken-Expected h'.current_stage h.current_stage _ up on e))
  IsSafe-step again h response later _ (finishes {h'} {response = more} {left} done) safe =
      rw (after_finishes again h.current_stage h' response more left done) safe
  IsSafe-step again h response later _ fails safe = safe
  IsSafe-step again h response later _ breaks safe = safe

  IsSafe-loop :
      (fuel : ℕ) (h : Handshake) (response : List Byte)
      → 4 < fuel + stage_number h.current_stage
      → IsSized h
      → IsSafe h.current_stage (process_loop hmac fuel h response [])
  unfolding process_loop
  IsSafe-loop zero h response enough size = absurd (omega (arith, stage_bound h.current_stage))
  IsSafe-loop (suc fuel) h response enough size =
      IsSafe-step (process_loop hmac fuel) h response
        (λ h' r up sized. IsSafe-loop fuel h' r (omega arith) sized)
        (round_of hmac h.current_stage h) (round_of-Round hmac h.current_stage h refl)
        (IsSafe-round h.current_stage h size)

  -- With a hash of 32 bytes, and a sent packet 1 of 1536 bytes, which `new` has and every call keeps:
  -- `process_bytes` ends within its five rounds and does not panic, and it returns no error but a wrong
  -- version id, where packet 0 was not read before, or that the handshake was already complete.
  pub process_bytes-IsSafe :
      (h : Handshake) (bytes : List Byte)
      → IsSized h
      → IsSafe h.current_stage (process_bytes hmac h bytes)
  unfolding process_bytes
  process_bytes-IsSafe h bytes size = IsSafe-loop 5 (feed h bytes) [] (omega arith) size
