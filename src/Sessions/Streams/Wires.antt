-- ===== src/Sessions/Streams/Wires.antt =====
-- Wire ids in the registry: each names the handle of a live entry that has it.
use rtmpx.Prelude.{
  none-some, some_eq, ℕ, zero, suc, ◌+◌, ◌^◌, ◌≤◌, ◌<◌, ◌≡◌, ◌≢◌, refl, sym, ap, ◌∙◌, Option, none,
  some, List, [], ◌∷◌, length, get_elem?, ok, arith, ℕ_discrete,
}
use rtmpx.Prelude.Map
use rtmpx.Prelude.Map.{
  lookup, IsDistinct, lookup-insert_self, lookup-insert_ne, lookup-remove_ne, lookup-remove_self,
  remove-IsDistinct, insert-IsDistinct,
}
use rtmpx.Sessions.Streams.{
  StreamHandle, Entry, Slot, Streams, position, put_slot, insert, entry_of, get, set_entry, remove,
  find,
}
use rtmpx.Sessions.Streams.Handles.{position_bound, set_entry_ne}
use rtmpx.Sessions.Streams.Stale.{entry_with, inserted, insert_room, insert-get}
use rtmpx.Sessions.Streams.Steps.{get_entry}
use rtmpx.Sessions.Streams.Live.{insert-get_live}

module _ {T : Type 0} where
  -- A live entry of the handle with this wire id.
  pub record Named (s : Streams T) (wire : ℕ) (h : StreamHandle) : Type 0 where
    pub entry : Entry T
    pub live : get s h ≡ some entry
    pub named : entry.wire_id ≡ some wire

  pub record IsFiled (s : Streams T) : Type 0 where
    pub distinct : IsDistinct s.by_wire
    pub filed : (wire : ℕ) (h : StreamHandle) → find s wire ≡ some h → Named s wire h

  at_same :
      (s : Streams T) (wire other : ℕ) (h : StreamHandle)
      → wire ≡ other
      → (find s wire ≡ some h → Named s wire h)
      → find s other ≡ some h
      → Named s other h
  at_same s wire other h same f = rw (sym same) f

  length-put_slot :
      (slots : List (Slot T)) (i : ℕ) (t : Slot T) → length (put_slot slots i t) ≤ length slots + 1
  unfolding put_slot
  length-put_slot [] i t = omega arith
  length-put_slot (u ∷ slots) zero t = omega arith
  length-put_slot (u ∷ slots) (suc i) t = omega (arith, length-put_slot slots i t)

  length-set_entry :
      (slots : List (Slot T)) (i : ℕ) (e : Option (Entry T))
      → length (set_entry slots i e) ≡ length slots
  unfolding set_entry
  length-set_entry [] i e = refl
  length-set_entry (u ∷ slots) zero e = refl
  length-set_entry (u ∷ slots) (suc i) e = ap suc (length-set_entry slots i e)

  -- What `insert` with a wire id does.
  pub record Inserted (s : Streams T) (wire : ℕ) (s' : Streams T) : Type 0 where
    pub filed : IsFiled s'
    pub here : (h : StreamHandle) × (find s' wire ≡ some h)
    pub elsewhere : (other : ℕ) → wire ≢ other → find s' other ≡ find s other
    pub slots : length s'.slots ≤ length s.slots + 1

  pub insert-Inserted :
      (s : Streams T) (state : T) (wire : ℕ)
      → length s.slots < 2 ^ 32
      → IsFiled s
      → (r : Streams T × StreamHandle) × (insert s state (some wire) ≡ ok r) × Inserted s wire r.0
  unfolding find
  insert-Inserted s state wire room f =
      let made = inserted s state (some wire) in
      let done = insert_room s state (some wire) (omega (arith, position_bound s.slots)) in
      let elsewhere : (other : ℕ) → wire ≢ other → find made.0 other ≡ find s other =
        λ other ne. lookup-insert_ne wire other made.1 s.by_wire ne in
      let here : find made.0 wire ≡ some made.1 = lookup-insert_self wire made.1 s.by_wire in
      let name : (h : StreamHandle) → find made.0 wire ≡ some h → Named made.0 wire h = λ h found.
        let same : made.1 ≡ h = some_eq made.1 h (sym here ∙ found) in
        rw (sym same) (record {
          entry = entry_with state (some wire);
          live = rw done at (insert-get s state (some wire) room);
          named = refl;
        }) in
      (
        made,
        done,
        record {
          filed = record {
            distinct = insert-IsDistinct wire made.1 s.by_wire f.distinct;
            filed = λ other h found. elim (ℕ_discrete wire other) [
              | yes same ↦ at_same made.0 wire other h same (name h) found
              | no ne ↦
                  let old = f.filed other h (sym (elsewhere other ne) ∙ found) in
                  record {
                    entry = old.entry;
                    live =
                        insert-get_live s made.0 state (some wire) made.1 h old.entry done old.live;
                    named = old.named;
                  }
            ];
          };
          here = (made.1, here);
          elsewhere = elsewhere;
          slots = length-put_slot s.slots (position s.slots) _;
        },
      )

  -- What removing the handle of a wire id does.
  pub record Removed (s : Streams T) (wire : ℕ) (s' : Streams T) : Type 0 where
    pub filed : IsFiled s'
    pub elsewhere : (other : ℕ) → wire ≢ other → find s' other ≡ find s other
    pub slots : length s'.slots ≡ length s.slots

  entry_unique :
      (o : Option (Slot T)) (g k : ℕ) (e f : Entry T)
      → entry_of g o ≡ some e
      → entry_of k o ≡ some f
      → e ≡ f
  entry_unique none g k e f one two = absurd cc
  entry_unique (some t) g k e f one two = ground (arith, one, two)

  -- Another wire id's handle stands in another slot.
  apart :
      (s : Streams T) (wire other : ℕ) (h g : StreamHandle)
      → wire ≢ other
      → Named s wire h
      → Named s other g
      → h.slot ≢ g.slot
  apart s wire other h g ne n m same =
      let one : entry_of h.generation (get_elem? s.slots h.slot) ≡ some n.entry =
        get_entry s h n.entry n.live in
      let two : entry_of g.generation (get_elem? s.slots h.slot) ≡ some m.entry =
        rw same (get_entry s g m.entry m.live) in
      let e =
        entry_unique (get_elem? s.slots h.slot) h.generation g.generation n.entry m.entry one two in
      ne (some_eq wire other (sym n.named ∙ ap (λ x. x.wire_id) e ∙ m.named))

  get-set_entry_ne :
      (s s' : Streams T) (h g : StreamHandle) (e : Option (Entry T)) (f : Entry T)
      → s'.session ≡ s.session
      → s'.slots ≡ set_entry s.slots h.slot e
      → h.slot ≢ g.slot
      → get s g ≡ some f
      → get s' g ≡ some f
  unfolding get
  get-set_entry_ne s s' h g e f session slots ne live =
      rw (session, slots, set_entry_ne s.slots h.slot g.slot e ne) live

  pub remove-Removed :
      (s : Streams T) (wire : ℕ) (h : StreamHandle)
      → IsFiled s
      → find s wire ≡ some h
      → Removed s wire (remove s h).0
  unfolding find remove
  remove-Removed s wire h f found =
      let n = f.filed wire h found in
      rw (n.live, n.named)
        (let s' : Streams T = record s {
          slots = set_entry s.slots h.slot none;
          by_wire = Map.remove wire s.by_wire;
        } in
          let elsewhere : (other : ℕ) → wire ≢ other → find s' other ≡ find s other =
            λ other ne. lookup-remove_ne wire other s.by_wire ne in
          let gone : find s' wire ≡ none = lookup-remove_self wire s.by_wire f.distinct in
          record {
            filed = record {
              distinct = remove-IsDistinct wire s.by_wire f.distinct;
              filed = λ other g kept. elim (ℕ_discrete wire other) [
                | yes same ↦
                    at_same s' wire other g same (λ kept. absurd (none-some g (sym gone ∙ kept)))
                      kept
                | no ne ↦
                    let old = f.filed other g (sym (elsewhere other ne) ∙ kept) in
                    record {
                      entry = old.entry;
                      live =
                          get-set_entry_ne s s' h g none old.entry refl refl
                            (apart s wire other h g ne n old) old.live;
                      named = old.named;
                    }
              ];
            };
            elsewhere = elsewhere;
            slots = length-set_entry s.slots h.slot none;
          })
