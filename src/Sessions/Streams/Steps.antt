-- ===== src/Sessions/Streams/Steps.antt =====
-- Handles that were removed, through all calls on the registry.
use rtmpx.Prelude.{ℕ, ◌^◌, ◌≡◌, refl, sym, ap, true, Option, none, some, get_elem?, ltb, ok, arith}
use rtmpx.Sessions.Streams.{
  StreamHandle, Entry, Slot, Streams, position, insert, entry_of, get, set_entry, remove_entry,
  remove, set_state_of, set_state, bind_entry, bind,
}
use rtmpx.Sessions.Streams.Handles.{if_ok, with_entry, set_entry_self}
use rtmpx.Sessions.Streams.Stale.{
  is_past, IsStale, get_stale, entry_with, inserted, put_past, vacate_past, rewrite_past,
}

module _ {T : Type 0} where
  -- One call on the registry.
  pub data Step : Streams T → Streams T → Type 0 where
    step_insert :
        {s s' : Streams T} {h : StreamHandle} (state : T) (wire_id : Option ℕ)
        → insert s state wire_id ≡ ok (s', h)
        → Step s s'
    step_remove : {s : Streams T} (h : StreamHandle) → Step s (remove s h).0
    step_state : {s : Streams T} (h : StreamHandle) (state : T) → Step s (set_state s h state)
    step_bind : {s s' : Streams T} (h : StreamHandle) (wire : ℕ) → bind s h wire ≡ ok s' → Step s s'

  pub data Steps (s : Streams T) : Streams T → Type 0 where
    no_steps : Steps s s
    then_step : {u v : Streams T} → Steps s u → Step u v → Steps s v

  pub insert-IsStale :
      (s s' : Streams T) (h g : StreamHandle) (state : T) (wire_id : Option ℕ)
      → insert s state wire_id ≡ ok (s', g)
      → IsStale s h
      → IsStale s' h
  unfolding insert
  insert-IsStale s s' h g state wire_id done stale =
      let same = if_ok (ltb (position s.slots) (2 ^ 32)) (inserted s state wire_id) (s', g) done in
      rw (sym (ap (λ x. x.0.slots) same))
        (put_past s.slots h.generation h.slot (some (entry_with state wire_id)) stale)

  pub remove-IsStale : (s : Streams T) (h g : StreamHandle) → IsStale s h → IsStale (remove s g).0 h
  unfolding remove
  remove-IsStale s h g stale = go (get s g)
    where
      go : (o : Option (Entry T)) → IsStale (remove_entry s g o).0 h
      go none = stale
      go (some e) = vacate_past s.slots h.generation g.slot h.slot stale

  pub state-IsStale :
      (s : Streams T) (h g : StreamHandle) (state : T)
      → IsStale s h
      → IsStale (set_state s g state) h
  unfolding set_state
  state-IsStale s h g state stale = go (get s g) refl
    where
      go : (o : Option (Entry T)) → get s g ≡ o → IsStale (set_state_of s g state o) h
      go none same = stale
      go (some e) same = rewrite_past s h g e (record e { state = state }) same stale

  pub bind-IsStale :
      (s s' : Streams T) (h g : StreamHandle) (wire : ℕ)
      → bind s g wire ≡ ok s'
      → IsStale s h
      → IsStale s' h
  unfolding bind
  bind-IsStale s s' h g wire done stale = go (get s g) refl done
    where
      go : (o : Option (Entry T)) → get s g ≡ o → bind_entry s g wire o ≡ ok s' → IsStale s' h
      go none same done = absurd cc
      go (some e) same done =
          let slots : set_entry s.slots g.slot (some (record e { wire_id = some wire }))
              ≡ s'.slots =
            cc in
          rw (sym slots) (rewrite_past s h g e (record e { wire_id = some wire }) same stale)

  pub Steps-IsStale :
      (s s' : Streams T) (h : StreamHandle) → Steps s s' → IsStale s h → IsStale s' h
  Steps-IsStale s _ h no_steps stale = stale
  Steps-IsStale s _ h (then_step {u} {v} before step) stale =
      go u v step (Steps-IsStale s u h before stale)
    where
      go : (u v : Streams T) → Step u v → IsStale u h → IsStale v h
      go u v (step_insert {h = g} state wire_id done) past =
          insert-IsStale u v h g state wire_id done past
      go u _ (step_remove g) past = remove-IsStale u h g past
      go u _ (step_state g state) past = state-IsStale u h g state past
      go u v (step_bind g wire done) past = bind-IsStale u v h g wire done past

  pub vacated_past :
      (k : ℕ) (o : Option (Slot T)) (e : Entry T)
      → entry_of k o ≡ some e
      → is_past k (with_entry none o) ≡ true
  vacated_past k none e live = cc
  vacated_past k (some t) e live = ground (arith, live)

  pub get_entry :
      (s : Streams T) (h : StreamHandle) (e : Entry T)
      → get s h ≡ some e
      → entry_of h.generation (get_elem? s.slots h.slot) ≡ some e
  unfolding get
  get_entry s h e live = ground (arith, live)

  pub removed-IsStale :
      (s : Streams T) (h : StreamHandle) (e : Entry T) → get s h ≡ some e → IsStale (remove s h).0 h
  unfolding remove
  removed-IsStale s h e live =
      rw (live, set_entry_self s.slots h.slot none)
        (vacated_past h.generation (get_elem? s.slots h.slot) e (get_entry s h e live))

  -- Once a live handle was removed, it finds nothing, whatever calls follow, also where the slot and
  -- the wire id are taken again.
  pub remove-get_stale :
      (s s' : Streams T) (h : StreamHandle) (e : Entry T)
      → get s h ≡ some e
      → Steps (remove s h).0 s'
      → get s' h ≡ none
  remove-get_stale s s' h e live steps =
      get_stale s' h (Steps-IsStale (remove s h).0 s' h steps (removed-IsStale s h e live))
