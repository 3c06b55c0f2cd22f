-- ===== src/Chunk/Decoder/Reached.antt =====
-- Every call on a decoder that a client can come to ends, and keeps its counts right.
use rtmpx.Prelude.{
  ℕ, zero, suc, ◌+◌, ◌-◌, ◌^◌, ◌≤◌, ◌<◌, ◌≡◌, refl, ap, Option, none, some, length, length-take,
  length-drop, take, drop, ok, Ensures, ensures_then, ensures_ok, ensures_weaken, ensures_both,
  arith,
}
use rtmpx.Prelude.Map.{lookup}
use rtmpx.Messages.Raw.{RawMessage}
use rtmpx.Payload.{Payload}
use rtmpx.Chunk.Types.{DecoderLimits, MessageFragment, ParseStep}
use rtmpx.Chunk.Parser
use rtmpx.Chunk.Parser.Consume.{consume}
use rtmpx.Chunk.Parser.Total.{IsSound}
use rtmpx.Chunk.Parser.Steps.{
  IsCut, consume_lem, abort_chunk_stream_lem, set_chunk_size_lem, new-IsSound,
}
use rtmpx.Chunk.Decoder.{
  MessageDecoder, Assembly, assembled, reserved_by, Input, Turn, again, starved, complete,
  turn_with, turn, place_fragment, decode_loop, decode_input, with_limits, set_chunk_size,
  abort_chunk_stream, drop_partial,
}
use rtmpx.Chunk.Decoder.Total.{Turned, turn_lem}
use rtmpx.Chunk.Decoder.Accounts.{total, weigh, total-remove, Accounted, placed}

module _ (capacity_of : ℕ → ℕ) where
  turn_with-Accounted :
      (d : MessageDecoder) (input : Input) (s : ParseStep) (o : Option MessageFragment)
      → Accounted d
      → s.consumed ≤ length input.bytes
      → IsCut input.bytes s.consumed o
      → Ensures (turn_with capacity_of d input s o) (λ r. Accounted r.0)
  unfolding turn_with
  turn_with-Accounted d input s none a bound cut = a
  turn_with-Accounted d input s (some f) a bound (fits, slice, low, whole) =
      let n = length f.bytes in
      let rest = drop (s.consumed - n) input.bytes in
      ensures_then (λ r. Accounted r.0)
        (place_fragment capacity_of d input.owned f (take n rest)
          (lookup f.header.chunk_stream_id d.partials))
        _
        (placed capacity_of d input.owned f (take n rest)
          (lookup f.header.chunk_stream_id d.partials) a refl
          (omega
            (arith, length-take n rest, length-drop (s.consumed - n) input.bytes, fits, bound)))
        λ r after. after

  turn-Accounted :
      (d : MessageDecoder) (input : Input)
      → IsSound d.parser
      → Accounted d
      → Ensures (turn capacity_of d input) (λ r. Accounted r.0)
  unfolding turn
  turn-Accounted d input sound a =
      ensures_then (λ r. Accounted r.0) (consume d.parser input.bytes) _
        (consume_lem d.parser input.bytes sound)
        λ (p, s) stepped.
          turn_with-Accounted (record d { parser = p }) input s s.fragment
            (record {
              buffered_is = a.buffered_is;
              reserved_is = a.reserved_is;
              bounded = a.bounded;
              usize = a.usize;
            })
            stepped.bound stepped.cut

  -- What a call ends in.
  pub record Returned (input : Input) (d : MessageDecoder) (rest : Input) : Type 0 where
    pub sound : IsSound d.parser
    pub accounted : Accounted d
    pub shorter : length rest.bytes ≤ length input.bytes

  -- An invariant of the turns, beside the counts, is one of the loop.
  module _ {P : MessageDecoder → Type 0}
      (keeps : (d : MessageDecoder) (input : Input)
        → IsSound d.parser
        → P d
        → Ensures (turn capacity_of d input) (λ r. P r.0)) where
    turn_both :
        (d : MessageDecoder) (input : Input)
        → IsSound d.parser
        → Accounted d
        → P d
        → Ensures
            (turn capacity_of d input)
            (λ r. Turned capacity_of input r.0 r.1 r.2 × (Accounted r.0 × P r.0))
    turn_both d input sound a p =
        ensures_both (λ r. Turned capacity_of input r.0 r.1 r.2) (λ r. Accounted r.0 × P r.0)
          (turn capacity_of d input) (turn_lem capacity_of d input sound)
          (ensures_both (λ r. Accounted r.0) (λ r. P r.0) (turn capacity_of d input)
            (turn-Accounted d input sound a) (keeps d input sound p))

    decode_loop_inv :
        (fuel : ℕ) (d : MessageDecoder) (input : Input)
        → IsSound d.parser
        → Accounted d
        → P d
        → length input.bytes < fuel
        → Ensures (decode_loop capacity_of fuel d input) (λ r. Returned input r.0 r.1 × P r.0)
    unfolding decode_loop
    decode_loop_inv zero d input sound a p enough = absurd (omega (arith, enough))
    decode_loop_inv (suc fuel) d input sound a p enough =
        ensures_then (λ r. Returned input r.0 r.1 × P r.0) (turn capacity_of d input) _
          (turn_both d input sound a p)
          λ (d', rest, t) (turned, (accounted, p')).
            by_turn d' rest t turned accounted p' (λ shorter.
              decode_loop_inv fuel d' rest turned.sound accounted p'
                (omega (arith, shorter, enough)))
      where
        by_turn :
            (d' : MessageDecoder) (rest : Input) (t : Turn)
            → Turned capacity_of input d' rest t
            → Accounted d'
            → P d'
            → (length rest.bytes < length input.bytes
                → Ensures
                    (decode_loop capacity_of fuel d' rest)
                    (λ r. Returned rest r.0 r.1 × P r.0))
            → Ensures
                (elim t [
                  | again ↦ decode_loop capacity_of fuel d' rest
                  | starved ↦ ok (d', rest, none)
                  | complete m ↦ ok (d', rest, some m)
                ])
                (λ r. Returned input r.0 r.1 × P r.0)
        by_turn d' rest again turned accounted p' later =
            ensures_weaken (λ r. Returned rest r.0 r.1 × P r.0)
              (λ r. Returned input r.0 r.1 × P r.0) (decode_loop capacity_of fuel d' rest)
              (λ r (back, after). (
                record {
                  sound = back.sound;
                  accounted = back.accounted;
                  shorter = omega (arith, back.shorter, turned.shorter);
                },
                after,
              ))
              (later (turned.progress refl))
        by_turn d' rest starved turned accounted p' later =
            (record { sound = turned.sound; accounted = accounted; shorter = turned.shorter }, p')
        by_turn d' rest (complete m) turned accounted p' later =
            (record { sound = turned.sound; accounted = accounted; shorter = turned.shorter }, p')

    pub decode_input_inv :
        (d : MessageDecoder) (input : Input)
        → IsSound d.parser
        → Accounted d
        → P d
        → Ensures (decode_input capacity_of d input) (λ r. Returned input r.0 r.1 × P r.0)
    unfolding decode_input
    decode_input_inv d input sound a p =
        decode_loop_inv (length input.bytes + 1) d input sound a p (omega arith)

  decode_input_lem :
      (d : MessageDecoder) (input : Input)
      → IsSound d.parser
      → Accounted d
      → Ensures (decode_input capacity_of d input) (λ r. Returned input r.0 r.1)
  decode_input_lem d input sound a =
      ensures_weaken (λ r. Returned input r.0 r.1 × Accounted r.0) (λ r. Returned input r.0 r.1)
        (decode_input capacity_of d input) (λ r back. back.0)
        (decode_input_inv turn-Accounted d input sound a a)

  -- The decoders that a client can come to, whatever it feeds them.
  pub data Reached (l : DecoderLimits) : MessageDecoder → Type 0 where
    reached_new : Reached l (with_limits l)
    reached_size :
        {d d' : MessageDecoder} (size : ℕ)
        → Reached l d
        → set_chunk_size d size ≡ ok d'
        → Reached l d'
    reached_abort :
        {d : MessageDecoder} (csid : ℕ) → Reached l d → Reached l (abort_chunk_stream d csid)
    reached_decode :
        {d d' : MessageDecoder} {rest : Input} {m : Option (RawMessage Payload)} (input : Input)
        → Reached l d
        → decode_input capacity_of d input ≡ ok (d', rest, m)
        → Reached l d'

  -- A sound parser and right counts.
  pub record IsFit (d : MessageDecoder) : Type 0 where
    pub sound : IsSound d.parser
    pub accounted : Accounted d

  drop_partial-Accounted :
      (d : MessageDecoder) (csid : ℕ) (o : Option Assembly)
      → Accounted d
      → lookup csid d.partials ≡ o
      → Accounted (drop_partial d csid o)
  unfolding drop_partial
  drop_partial-Accounted d csid none a known = a
  drop_partial-Accounted d csid (some body) a known = record {
    buffered_is =
        omega (
          arith,
          a.buffered_is,
          total-remove assembled csid d.partials,
          ap (weigh assembled) known,
        );
    reserved_is = omega (
      arith,
      a.reserved_is,
      total-remove reserved_by csid d.partials,
      ap (weigh reserved_by) known,
    );
    bounded = omega (arith, a.bounded);
    usize = a.usize;
  }

  drop_partial-parser :
      (d : MessageDecoder) (csid : ℕ) (o : Option Assembly)
      → (drop_partial d csid o).parser ≡ d.parser
  unfolding drop_partial
  drop_partial-parser d csid none = refl
  drop_partial-parser d csid (some body) = refl

  abort-IsFit : (d : MessageDecoder) (csid : ℕ) → IsFit d → IsFit (abort_chunk_stream d csid)
  unfolding abort_chunk_stream
  abort-IsFit d csid fit =
      let d' : MessageDecoder = record d { parser = Parser.abort_chunk_stream d.parser csid } in
      let a = fit.accounted in
      record {
        sound =
            rw (drop_partial-parser d' csid (lookup csid d.partials))
              (abort_chunk_stream_lem d.parser csid fit.sound);
        accounted =
            drop_partial-Accounted d' csid (lookup csid d.partials)
              (record {
                buffered_is = a.buffered_is;
                reserved_is = a.reserved_is;
                bounded = a.bounded;
                usize = a.usize;
              })
              refl;
      }

  pub size-IsFit : (d : MessageDecoder) (size : ℕ) → IsFit d → Ensures (set_chunk_size d size) IsFit
  unfolding set_chunk_size
  size-IsFit d size fit =
      let a = fit.accounted in
      ensures_then IsFit (Parser.set_chunk_size d.parser size) _
        (set_chunk_size_lem d.parser size fit.sound)
        λ p sound. record {
          sound = sound;
          accounted = record {
            buffered_is = a.buffered_is;
            reserved_is = a.reserved_is;
            bounded = a.bounded;
            usize = a.usize;
          };
        }

  pub Reached-IsFit :
      (l : DecoderLimits)
      → l.maximum_buffered_bytes < 2 ^ 64 - 1
      → (d : MessageDecoder) → Reached l d
      → IsFit d
  unfolding with_limits total
  Reached-IsFit l usize _ reached_new = record {
    sound = new-IsSound l;
    accounted = record {
      buffered_is = refl;
      reserved_is = refl;
      bounded = omega arith;
      usize = usize;
    };
  }
  Reached-IsFit l usize _ (reached_size {d} {d'} size r done) =
      ensures_ok IsFit (set_chunk_size d size) (size-IsFit d size (Reached-IsFit l usize d r)) done
  Reached-IsFit l usize _ (reached_abort {d} csid r) =
      abort-IsFit d csid (Reached-IsFit l usize d r)
  Reached-IsFit l usize _ (reached_decode {d} {d'} input r done) =
      let fit = Reached-IsFit l usize d r in
      let back =
        ensures_ok (λ x. Returned input x.0 x.1) (decode_input capacity_of d input)
          (decode_input_lem d input fit.sound fit.accounted) done in
      record { sound = back.sound; accounted = back.accounted }

  pub Reached-Returned :
      (l : DecoderLimits) (d : MessageDecoder) (input : Input)
      → l.maximum_buffered_bytes < 2 ^ 64 - 1
      → Reached l d
      → Ensures (decode_input capacity_of d input) (λ r. Returned input r.0 r.1)
  Reached-Returned l d input usize r =
      let fit = Reached-IsFit l usize d r in decode_input_lem d input fit.sound fit.accounted
