-- ===== src/Sessions/Streams/Live.antt =====
-- Live handles, when others are made.
use rtmpx.Prelude.{
  ℕ, ◌+◌, ◌^◌, ◌≡◌, sym, ap, true, false, Option, none, some, get_elem?, ltb, ◌==◌, ok, arith,
  ℕ_discrete, Bool-cases, inl, inr,
}
use rtmpx.Sessions.Streams.{
  StreamHandle, Entry, Slot, Streams, is_vacant, position, generation_of, insert, entry_of, get,
}
use rtmpx.Sessions.Streams.Handles.{may_take, position_free, if_ok, position_bound, put_slot_ne}
use rtmpx.Sessions.Streams.Stale.{entry_with, inserted}
use rtmpx.Sessions.Streams.Steps.{get_entry}

module _ {T : Type 0} where
  pub live_taken :
      (k : ℕ) (o : Option (Slot T)) (e : Entry T) → entry_of k o ≡ some e → may_take o ≡ true → ⊥
  live_taken k none e live free = cc
  live_taken k (some t) e live free = elim (Bool-cases (t.generation == k)) [
    | inl current ↦
        let full : is_vacant t.entry ≡ false = ap is_vacant (rw current at live) in
        ground (arith, free, full)
    | inr other ↦ absurd (ground (arith, live, other))
  ]

  -- `insert` leaves what every live handle finds.
  pub insert-get_live :
      (s s' : Streams T) (state : T) (wire_id : Option ℕ) (g h : StreamHandle) (e : Entry T)
      → insert s state wire_id ≡ ok (s', g)
      → get s h ≡ some e
      → get s' h ≡ some e
  unfolding insert get
  insert-get_live s s' state wire_id g h e done live =
      let same = if_ok (ltb (position s.slots) (2 ^ 32)) (inserted s state wire_id) (s', g) done in
      elim (ℕ_discrete (position s.slots) h.slot) [
        | yes here ↦ absurd (
            live_taken h.generation (get_elem? s.slots h.slot) e (get_entry s h e live)
              (rw here at (position_free s.slots)))
        | no ne ↦
            rw
              (
                sym (ap (λ x. x.0.session) same),
                sym (ap (λ x. x.0.slots) same),
                put_slot_ne s.slots (position s.slots) h.slot
                    (record {
                      generation = generation_of (get_elem? s.slots (position s.slots)) + 1;
                      entry = some (entry_with state wire_id);
                    })
                    (position_bound s.slots) ne,
              )
              live
      ]
