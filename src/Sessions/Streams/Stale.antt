-- ===== src/Sessions/Streams/Stale.antt =====
-- New handles, and those whose entry was removed.
use rtmpx.Prelude.{
  ℕ, ◌+◌, ◌^◌, ◌<◌, ◌≡◌, refl, sym, ap, Bool, true, false, ◌&&◌, ◌||◌, Option, none, some, List,
  length, get_elem?, ltb, lt→ltb, ◌==◌, ok, Ensures, arith, ℕ_discrete, Bool-cases, inl, inr,
}
use rtmpx.Sessions.Streams.{
  StreamHandle, Entry, Slot, Streams, is_vacant, position, generation_of, put_slot, insert,
  entry_of, get, set_entry, file_wire,
}
use rtmpx.Sessions.Streams.Handles.{
  same_number, position_bound, put_slot_self, put_slot_ne, with_entry, set_entry_self, set_entry_ne,
}

module _ {T : Type 0} where
  -- The slot is past the generation: no entry of it will be there again.
  abbrev pub is_past : ℕ → Option (Slot T) → Bool
  is_past g none = false
  is_past g (some t) = ltb g t.generation || (t.generation == g && is_vacant t.entry)

  -- The handle's entry was removed.
  abbrev pub IsStale : Streams T → StreamHandle → Type 0
  IsStale s h = is_past h.generation (get_elem? s.slots h.slot) ≡ true

  pub entry_of_past : (g : ℕ) (o : Option (Slot T)) → is_past g o ≡ true → entry_of g o ≡ none
  entry_of_past g none past = cc
  entry_of_past g (some t) past = go t.entry refl
    where
      go : (e : Option (Entry T)) → t.entry ≡ e → entry_of g (some t) ≡ none
      go none same = ground (arith, same)
      go (some e) same =
          let full : is_vacant t.entry ≡ false = ap is_vacant same in ground (arith, past, full)

  pub get_stale : (s : Streams T) (h : StreamHandle) → IsStale s h → get s h ≡ none
  unfolding get
  get_stale s h stale = ground (arith, entry_of_past h.generation (get_elem? s.slots h.slot) stale)

  abbrev pub entry_with : T → Option ℕ → Entry T
  entry_with state wire_id = record { wire_id = wire_id; state = state }

  -- The registry behind `insert`.
  abbrev pub inserted : Streams T → T → Option ℕ → Streams T × StreamHandle
  inserted s state wire_id =
      let i = position s.slots in
      let g = generation_of (get_elem? s.slots i) + 1 in
      let h : StreamHandle = record { session = s.session; slot = i; generation = g } in
      (
        record s {
          slots =
              put_slot s.slots i
                (record { generation = g; entry = some (entry_with state wire_id) });
          by_wire = file_wire wire_id h s.by_wire;
        },
        h,
      )

  pub insert_room :
      (s : Streams T) (state : T) (wire_id : Option ℕ)
      → position s.slots < 2 ^ 32
      → insert s state wire_id ≡ ok (inserted s state wire_id)
  unfolding insert
  insert_room s state wire_id room = rw (lt→ltb (position s.slots) (2 ^ 32) room) refl

  -- Where fewer than 2³² slots are there, `insert` does not panic, and its handle finds the entry that
  -- was put in.
  pub insert-get :
      (s : Streams T) (state : T) (wire_id : Option ℕ)
      → length s.slots < 2 ^ 32
      → Ensures
          (insert s state wire_id)
          (λ (s', h). get s' h ≡ some (record { wire_id = wire_id; state = state }))
  unfolding get
  insert-get s state wire_id room =
      rw
        (
          insert_room s state wire_id (omega (arith, room, position_bound s.slots)),
          same_number s.session,
          put_slot_self s.slots (position s.slots)
              (record {
                generation = generation_of (get_elem? s.slots (position s.slots)) + 1;
                entry = some (entry_with state wire_id);
              })
              (position_bound s.slots),
          same_number (generation_of (get_elem? s.slots (position s.slots)) + 1),
        )
        refl

  pub bump_past :
      (g : ℕ) (o : Option (Slot T)) (e : Option (Entry T))
      → is_past g o ≡ true
      → is_past g (some (record { generation = generation_of o + 1; entry = e })) ≡ true
  bump_past g none e past = cc
  bump_past g (some t) e past = ground (arith, past)

  pub empty_past :
      (g : ℕ) (o : Option (Slot T)) → is_past g o ≡ true → is_past g (with_entry none o) ≡ true
  empty_past g none past = past
  empty_past g (some t) past = ground (arith, past)

  pub put_past :
      (slots : List (Slot T)) (g j : ℕ) (e : Option (Entry T))
      → is_past g (get_elem? slots j) ≡ true
      → let i = position slots in
        is_past g (
          get_elem?
            (put_slot slots i
              (record { generation = generation_of (get_elem? slots i) + 1; entry = e }))
            j)
        ≡ true
  put_past slots g j e past = elim (ℕ_discrete (position slots) j) [
    | yes same ↦
        rw (sym same, put_slot_self slots (position slots) _ (position_bound slots))
          (bump_past g (get_elem? slots (position slots)) e (rw same past))
    | no ne ↦ rw (put_slot_ne slots (position slots) j _ (position_bound slots) ne) past
  ]

  pub vacate_past :
      (slots : List (Slot T)) (g i j : ℕ)
      → is_past g (get_elem? slots j) ≡ true
      → is_past g (get_elem? (set_entry slots i none) j) ≡ true
  vacate_past slots g i j past = elim (ℕ_discrete i j) [
    | yes same ↦
        rw (sym same, set_entry_self slots i none) (empty_past g (get_elem? slots i) (rw same past))
    | no ne ↦ rw (set_entry_ne slots i j none ne) past
  ]

  pub live_past :
      (g k : ℕ) (o : Option (Slot T)) (e f : Entry T)
      → entry_of k o ≡ some e
      → is_past g o ≡ true
      → is_past g (with_entry (some f) o) ≡ true
  live_past g k none e f live past = cc
  live_past g k (some t) e f live past = elim (Bool-cases (t.generation == k)) [
    | inl current ↦
        let full : is_vacant t.entry ≡ false = ap is_vacant (rw current at live) in
        ground (arith, past, full)
    | inr other ↦ absurd (ground (arith, live, other))
  ]

  -- Writing a live entry leaves what is past so.
  pub rewrite_past :
      (s : Streams T) (h g : StreamHandle) (e f : Entry T)
      → get s g ≡ some e
      → IsStale s h
      → is_past h.generation (get_elem? (set_entry s.slots g.slot (some f)) h.slot) ≡ true
  unfolding get
  rewrite_past s h g e f live stale = elim (ℕ_discrete g.slot h.slot) [
    | yes same ↦
        rw (sym same, set_entry_self s.slots g.slot (some f))
          (live_past h.generation g.generation (get_elem? s.slots g.slot) e f (ground (arith, live))
            (rw same stale))
    | no ne ↦ rw (set_entry_ne s.slots g.slot h.slot (some f) ne) stale
  ]
