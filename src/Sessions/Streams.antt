-- ===== src/Sessions/Streams.antt =====
-- The registry of message streams behind opaque handles (src/sessions/streams.rs).
pub mod Handles
pub mod Stale
pub mod Live
pub mod Steps
pub mod Wires
use rtmpx.Prelude.{
  ℕ, zero, suc, ◌+◌, ◌-◌, ◌^◌, Bool, true, false, not, ◌&&◌, Option, none, some, List, [], ◌∷◌,
  ◌++◌, length, get_elem?, set, ltb, ◌==◌, if◌then◌else◌, Outcome, ok, stuck, ◌>>=◌,
}
use rtmpx.Prelude.Map
use rtmpx.Prelude.Map.{Map, lookup}

pub record StreamHandle : Type 0 where
  pub session : ℕ
  pub slot : ℕ
  pub generation : ℕ

pub record Entry (T : Type 0) : Type 0 where
  pub wire_id : Option ℕ
  pub state : T

pub record Slot (T : Type 0) : Type 0 where
  pub generation : ℕ
  pub entry : Option (Entry T)

-- A `StreamId` stands as its number.
pub record Streams (T : Type 0) : Type 0 where
  pub session : ℕ
  pub slots : List (Slot T)
  pub by_wire : Map StreamHandle

abbrev pub file_wire : Option ℕ → StreamHandle → Map StreamHandle → Map StreamHandle
file_wire none h m = m
file_wire (some wire) h m = Map.insert wire h m

abbrev pub forget_wire : Option ℕ → Map StreamHandle → Map StreamHandle
forget_wire none m = m
forget_wire (some wire) m = Map.remove wire m

module _ {T : Type 0} where
  -- `session` is what the process-wide counter gives.
  abbrev pub new : ℕ → Streams T
  new session = record { session = session; slots = []; by_wire = [] }

  abbrev pub is_vacant : Option (Entry T) → Bool
  is_vacant none = true
  is_vacant (some e) = false

  -- May the slot be taken?
  abbrev pub is_free : Slot T → Bool
  is_free s = is_vacant s.entry && ltb s.generation (2 ^ 32 - 1)

  -- `iter().position(…)`, or the length where no slot is free.
  unfoldable pub position : List (Slot T) → ℕ
  position [] = 0
  position (s ∷ slots) = if is_free s then 0 else suc (position slots)

  abbrev pub generation_of : Option (Slot T) → ℕ
  generation_of none = 0
  generation_of (some s) = s.generation

  -- The slot is written, or pushed where it is the one behind the last.
  unfoldable pub put_slot : List (Slot T) → ℕ → Slot T → List (Slot T)
  put_slot [] i s = s ∷ []
  put_slot (t ∷ slots) zero s = s ∷ slots
  put_slot (t ∷ slots) (suc i) s = t ∷ put_slot slots i s

  -- The capacity of the slots' index, a u32, is a panic.
  unfoldable pub insert : Streams T → T → Option ℕ → Outcome ⊥ (Streams T × StreamHandle)
  insert s state wire_id =
      let slot = position s.slots in
      let generation = generation_of (get_elem? s.slots slot) + 1 in
      let handle : StreamHandle = record {
        session = s.session;
        slot = slot;
        generation = generation;
      } in
      if ltb slot (2 ^ 32)
      then ok (
        record s {
          slots = put_slot s.slots slot (record {
            generation = generation;
            entry = some (record { wire_id = wire_id; state = state });
          });
          by_wire = file_wire wire_id handle s.by_wire;
        },
        handle,
      )
      else stuck

  -- The entry of the slot where it is of the handle's generation.
  abbrev pub entry_of : ℕ → Option (Slot T) → Option (Entry T)
  entry_of generation none = none
  entry_of generation (some s) = if s.generation == generation then s.entry else none

  unfoldable pub get : Streams T → StreamHandle → Option (Entry T)
  get s h =
      if s.session == h.session then entry_of h.generation (get_elem? s.slots h.slot) else none

  -- Another entry in the slot.
  unfoldable pub set_entry : List (Slot T) → ℕ → Option (Entry T) → List (Slot T)
  set_entry [] i e = []
  set_entry (t ∷ slots) zero e = record t { entry = e } ∷ slots
  set_entry (t ∷ slots) (suc i) e = t ∷ set_entry slots i e

  abbrev pub remove_entry :
      Streams T → StreamHandle → Option (Entry T) → Streams T × Option (Entry T)
  remove_entry s h none = (s, none)
  remove_entry s h (some e) = (
    record s { slots = set_entry s.slots h.slot none; by_wire = forget_wire e.wire_id s.by_wire },
    some e,
  )

  unfoldable pub remove : Streams T → StreamHandle → Streams T × Option (Entry T)
  remove s h = remove_entry s h (get s h)

  -- What `get_mut` is used for: the state of a live handle's entry.
  abbrev pub set_state_of : Streams T → StreamHandle → T → Option (Entry T) → Streams T
  set_state_of s h state none = s
  set_state_of s h state (some e) = record s {
    slots = set_entry s.slots h.slot (some (record e { state = state }));
  }

  unfoldable pub set_state : Streams T → StreamHandle → T → Streams T
  set_state s h state = set_state_of s h state (get s h)

  abbrev pub bind_entry : Streams T → StreamHandle → ℕ → Option (Entry T) → Outcome ⊥ (Streams T)
  bind_entry s h wire none = stuck
  bind_entry s h wire (some e) = ok (record s {
    slots = set_entry s.slots h.slot (some (record e { wire_id = some wire }));
    by_wire = Map.insert wire h s.by_wire;
  })

  -- The handle is live, or the call panics.
  unfoldable pub bind : Streams T → StreamHandle → ℕ → Outcome ⊥ (Streams T)
  bind s h wire = bind_entry s h wire (get s h)

  unfoldable pub find : Streams T → ℕ → Option StreamHandle
  find s wire = lookup wire s.by_wire
