-- ===== src/Handshake/Split.antt =====
-- `process_bytes` on input in pieces and at once.
use rtmpx.Prelude.{
  ℕ, zero, suc, ◌+◌, ◌<◌, ◌≡◌, refl, sym, ap, ◌∙◌, inl, inr, true, false, List, [], ◌++◌,
  append-nil, append_assoc, ◌==◌, ok, err, stuck, arith,
}
use rtmpx.Prelude.Bytes.{Byte}
use rtmpx.Handshake.Packets.{
  HandshakeProgress, in_progress, completed, Stage, need_to_send_p0_and_p1, waiting_for_packet0,
  waiting_for_packet1, waiting_for_packet2, complete, Handshake, Turn, stage_number, is_complete,
  report, after_round, round_of, process_loop, process_bytes,
}
use rtmpx.Handshake.Rounds.{Round, waits, moves, finishes, fails, breaks, round_of-Round, feed}
use rtmpx.Handshake.Pieces.{Fed, feed_round}

report_on :
    (stage : Stage) (response : List Byte)
    → is_complete stage ≡ false
    → report stage response [] ≡ in_progress response
report_on need_to_send_p0_and_p1 response on = refl
report_on waiting_for_packet0 response on = refl
report_on waiting_for_packet1 response on = refl
report_on waiting_for_packet2 response on = refl
report_on complete response on = absurd cc

module _ (again : Handshake → List Byte → List Byte → Turn HandshakeProgress) where
  pub after_waits :
      (h : Handshake) (response : List Byte)
      → is_complete h.current_stage ≡ false
      → after_round again h.current_stage response [] (h, ok (in_progress []))
        ≡ (h, ok (in_progress response))
  after_waits h response on = rw (
    on,
    same (stage_number h.current_stage),
    append-nil response,
    report_on h.current_stage response on,
  )
    where
      same : (n : ℕ) → (n == n) ≡ true
      same n = ground arith

  pub after_moves :
      (started : Stage) (h : Handshake) (response more : List Byte)
      → stage_number started < stage_number h.current_stage
      → is_complete h.current_stage ≡ false
      → after_round again started response [] (h, ok (in_progress more))
        ≡ again h (response ++ more) []
  after_moves started h response more later on =
      rw (on, other (stage_number started) (stage_number h.current_stage) later)
    where
      other : (m n : ℕ) → m < n → (m == n) ≡ false
      other m n lt = ground arith

  pub after_finishes :
      (started : Stage) (h : Handshake) (response more left : List Byte)
      → h.current_stage ≡ complete
      → after_round again started response [] (h, ok (completed more left))
        ≡ (h, ok (completed response left))
  after_finishes started h response more left done = rw done

-- The response of a turn after what was already to be sent.
abbrev pub prefixed : List Byte → Turn HandshakeProgress → Turn HandshakeProgress
prefixed response (h, ok (in_progress more)) = (h, ok (in_progress (response ++ more)))
prefixed response (h, ok (completed more left)) = (h, ok (completed (response ++ more) left))
prefixed response (h, err e) = (h, err e)
prefixed response (h, stuck) = (h, stuck)

abbrev Continue : Type 0
Continue = Handshake → List Byte → List Byte → Turn HandshakeProgress

prefixed_step :
    (again : Continue)
    → ((h : Handshake) (before response : List Byte)
        → again h (before ++ response) [] ≡ prefixed before (again h response []))
    → (h : Handshake) (before response : List Byte) (t : Turn HandshakeProgress) → Round h t
    → after_round again h.current_stage (before ++ response) [] t
      ≡ prefixed before (after_round again h.current_stage response [] t)
prefixed_step again later h before response _ (waits on) =
    rw (after_waits again h (before ++ response) on, after_waits again h response on)
prefixed_step again later h before response _ (moves {h'} {response = more} up on) =
    rw
      (
        after_moves again h.current_stage h' (before ++ response) more up on,
        after_moves again h.current_stage h' response more up on,
        append_assoc before response more,
      )
      (later h' before (response ++ more))
prefixed_step again later h before response _ (finishes {h'} {response = more} {left} done) = rw (
  after_finishes again h.current_stage h' (before ++ response) more left done,
  after_finishes again h.current_stage h' response more left done,
)
prefixed_step again later h before response _ fails = refl
prefixed_step again later h before response _ breaks = refl

fuel_step :
    (again same : Continue) (h : Handshake)
    → ((h' : Handshake) (response : List Byte)
        → stage_number h.current_stage < stage_number h'.current_stage
        → again h' response [] ≡ same h' response [])
    → (response : List Byte) (t : Turn HandshakeProgress) → Round h t
    → after_round again h.current_stage response [] t
      ≡ after_round same h.current_stage response [] t
fuel_step again same h later response _ (waits on) =
    after_waits again h response on ∙ sym (after_waits same h response on)
fuel_step again same h later response _ (moves {h'} {response = more} up on) =
    rw
      (
        after_moves again h.current_stage h' response more up on,
        after_moves same h.current_stage h' response more up on,
      )
      (later h' (response ++ more) up)
fuel_step again same h later response _ (finishes {h'} {response = more} {left} done) =
    after_finishes again h.current_stage h' response more left done
    ∙ sym (after_finishes same h.current_stage h' response more left done)
fuel_step again same h later response _ fails = refl
fuel_step again same h later response _ breaks = refl

pub stage_bound : (stage : Stage) → stage_number stage < 5
stage_bound need_to_send_p0_and_p1 = omega arith
stage_bound waiting_for_packet0 = omega arith
stage_bound waiting_for_packet1 = omega arith
stage_bound waiting_for_packet2 = omega arith
stage_bound complete = omega arith

module _ (hmac : List Byte → List Byte → List Byte) where
  loop_prefixed :
      (fuel : ℕ) (h : Handshake) (before response : List Byte)
      → process_loop hmac fuel h (before ++ response) []
        ≡ prefixed before (process_loop hmac fuel h response [])
  unfolding process_loop
  loop_prefixed zero h before response = refl
  loop_prefixed (suc fuel) h before response =
      prefixed_step (process_loop hmac fuel) (loop_prefixed fuel) h before response
        (round_of hmac h.current_stage h) (round_of-Round hmac h.current_stage h refl)

  -- More fuel than stages that are left changes nothing.
  loop_fuel :
      (f g : ℕ) (h : Handshake) (response : List Byte)
      → 4 < f + stage_number h.current_stage
      → 4 < g + stage_number h.current_stage
      → process_loop hmac f h response [] ≡ process_loop hmac g h response []
  unfolding process_loop
  loop_fuel zero g h response enough more = absurd (omega (arith, stage_bound h.current_stage))
  loop_fuel (suc f) zero h response enough more =
      absurd (omega (arith, stage_bound h.current_stage))
  loop_fuel (suc f) (suc g) h response enough more =
      fuel_step (process_loop hmac f) (process_loop hmac g) h
        (λ h' r up. loop_fuel f g h' r (omega arith) (omega arith)) response
        (round_of hmac h.current_stage h) (round_of-Round hmac h.current_stage h refl)

  -- What more input does to a call that has returned.
  abbrev then_feed : List Byte → Turn HandshakeProgress → Turn HandshakeProgress
  then_feed more (h, ok (in_progress response)) =
      prefixed response (process_loop hmac 5 (feed h more) [] [])
  then_feed more (h, ok (completed response left)) = (h, ok (completed response (left ++ more)))
  then_feed more (h, err e) = (feed h more, err e)
  then_feed more (h, stuck) = (feed h more, stuck)

  fed_waits :
      (fuel : ℕ) (h : Handshake) (more response : List Byte)
      → 4 < fuel + stage_number h.current_stage
      → is_complete h.current_stage ≡ false
      → (again : Continue)
      → process_loop hmac fuel (feed h more) response []
        ≡ then_feed more (after_round again h.current_stage response [] (h, ok (in_progress [])))
  fed_waits fuel h more response enough on again =
      rw
        (
          after_waits again h response on,
          loop_fuel fuel 5 (feed h more) response enough (omega arith),
        )
        (ap (λ r. process_loop hmac 5 (feed h more) r []) (sym (append-nil response))
          ∙ loop_prefixed 5 (feed h more) response [])

  feed_step :
      (fuel : ℕ) (h : Handshake) (more response : List Byte)
      → 4 < suc fuel + stage_number h.current_stage
      → ((h' : Handshake) (r : List Byte)
          → stage_number h.current_stage < stage_number h'.current_stage
          → process_loop hmac fuel (feed h' more) r []
            ≡ then_feed more (process_loop hmac fuel h' r []))
      → (t u : Turn HandshakeProgress) → Round h t
      → Fed h more t u
      → process_loop hmac (suc fuel) (feed h more) response []
        ≡ after_round (process_loop hmac fuel) h.current_stage response [] u
      → process_loop hmac (suc fuel) (feed h more) response []
        ≡ then_feed more (after_round (process_loop hmac fuel) h.current_stage response [] t)
  feed_step fuel h more response enough later _ u (waits on) fed now =
      fed_waits (suc fuel) h more response enough on (process_loop hmac fuel)
  feed_step fuel h more response enough later _ u (moves {h'} {response = r} up on) (inl same) now =
      now
      ∙ rw
          (
            same,
            after_moves (process_loop hmac fuel) h.current_stage h' response r up on,
            after_moves (process_loop hmac fuel) h.current_stage (feed h' more) response r up on,
          )
          (later h' (response ++ r) up)
  feed_step fuel h more response enough later _ u (moves {h'} up on) (inr same) now =
      absurd
        (no_move (ap (λ (t : Turn HandshakeProgress). stage_number (t.0.current_stage)) same) up)
    where
      no_move : {m n : ℕ} → n ≡ m → m < n → ⊥
      no_move e lt = omega arith
  feed_step fuel h more response enough later _ u (finishes {h'} {response = r} {left} done)
        (inl same) now =
      now
      ∙ rw (
        same,
        after_finishes (process_loop hmac fuel) h.current_stage h' response r left done,
        after_finishes (process_loop hmac fuel) h.current_stage h' response r (left ++ more) done,
      )
  feed_step fuel h more response enough later _ u (finishes done) (inr same) now = absurd cc
  feed_step fuel h more response enough later _ u fails (inl same) now = now ∙ rw same
  feed_step fuel h more response enough later _ u fails (inr same) now = absurd cc
  feed_step fuel h more response enough later _ u breaks (inl same) now = now ∙ rw same
  feed_step fuel h more response enough later _ u breaks (inr same) now = absurd cc

  loop_feed :
      (fuel : ℕ) (h : Handshake) (more response : List Byte)
      → 4 < fuel + stage_number h.current_stage
      → process_loop hmac fuel (feed h more) response []
        ≡ then_feed more (process_loop hmac fuel h response [])
  unfolding process_loop
  loop_feed zero h more response enough = absurd (omega (arith, stage_bound h.current_stage))
  loop_feed (suc fuel) h more response enough =
      feed_step fuel h more response enough (λ h' r up. loop_feed fuel h' more r (omega arith))
        (round_of hmac h.current_stage h) (round_of hmac h.current_stage (feed h more))
        (round_of-Round hmac h.current_stage h refl) (feed_round hmac h.current_stage h more) refl

  -- What the second call adds to what the first returned.
  abbrev pub then_process : List Byte → Turn HandshakeProgress → Turn HandshakeProgress
  then_process more (h, ok (in_progress response)) = prefixed response (process_bytes hmac h more)
  then_process more (h, ok (completed response left)) = (h, ok (completed response (left ++ more)))
  then_process more (h, err e) = (feed h more, err e)
  then_process more (h, stuck) = (feed h more, stuck)

  as_calls :
      (more : List Byte) (t : Turn HandshakeProgress) → then_feed more t ≡ then_process more t
  unfolding process_bytes
  as_calls more (h, ok (in_progress response)) = refl
  as_calls more (h, ok (completed response left)) = refl
  as_calls more (h, err e) = refl
  as_calls more (h, stuck) = refl

  -- Input at once gives what its two pieces give: where the first leaves the handshake in progress, the
  -- second call's turn with the responses in order; where it completes it, the second piece after the
  -- remaining bytes; where it fails, the same error with the second piece left in the buffer.
  pub process_bytes-append :
      (h : Handshake) (bytes more : List Byte)
      → process_bytes hmac h (bytes ++ more) ≡ then_process more (process_bytes hmac h bytes)
  unfolding process_bytes
  process_bytes-append h bytes more = rw (sym (append_assoc h.input_buffer bytes more)) (
      loop_feed 5 (feed h bytes) more [] (omega arith) ∙ as_calls more (process_bytes hmac h bytes))
