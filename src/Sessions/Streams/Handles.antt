-- ===== src/Sessions/Streams/Handles.antt =====
-- What handles stand for, through all operations of the registry.
use rtmpx.Prelude.{
  ℕ, zero, suc, ◌≤◌, ◌≡◌, ◌≢◌, refl, ap, Bool, true, false, Option, none, some, List, [], ◌∷◌,
  length, get_elem?, ◌==◌, if◌then◌else◌, Outcome, ok, stuck, arith, Bool-cases, inl, inr,
}
use rtmpx.Sessions.Streams.{Entry, Slot, is_free, position, put_slot, set_entry}

pub same_number : (n : ℕ) → (n == n) ≡ true
same_number n = ground arith

pub if_ok :
    {A : Type 0} (b : Bool) (x y : A)
    → ◌≡◌ {A = Outcome ⊥ A} (if b then ok x else stuck) (ok y)
    → x ≡ y
if_ok true x y e = cc
if_ok false x y e = absurd cc

module _ {T : Type 0} where
  pub position_bound : (slots : List (Slot T)) → position slots ≤ length slots
  unfolding position
  position_bound [] = omega arith
  position_bound (s ∷ slots) = ground (arith, position_bound slots)

  -- The slot that `insert` takes.
  abbrev pub may_take : Option (Slot T) → Bool
  may_take none = true
  may_take (some s) = is_free s

  pub position_free : (slots : List (Slot T)) → may_take (get_elem? slots (position slots)) ≡ true
  unfolding position
  position_free [] = refl
  position_free (s ∷ slots) = elim (Bool-cases (is_free s)) [
    | inl free ↦ rw free free
    | inr taken ↦ rw taken (position_free slots)
  ]

  pub put_slot_self :
      (slots : List (Slot T)) (i : ℕ) (s : Slot T)
      → i ≤ length slots
      → get_elem? (put_slot slots i s) i ≡ some s
  unfolding put_slot
  put_slot_self [] zero s low = refl
  put_slot_self [] (suc i) s low = absurd (omega arith)
  put_slot_self (t ∷ slots) zero s low = refl
  put_slot_self (t ∷ slots) (suc i) s low = put_slot_self slots i s (omega arith)

  pub put_slot_ne :
      (slots : List (Slot T)) (i j : ℕ) (s : Slot T)
      → i ≤ length slots
      → i ≢ j
      → get_elem? (put_slot slots i s) j ≡ get_elem? slots j
  unfolding put_slot
  put_slot_ne [] zero zero s low ne = absurd (ne refl)
  put_slot_ne [] zero (suc j) s low ne = refl
  put_slot_ne [] (suc i) j s low ne = absurd (omega arith)
  put_slot_ne (t ∷ slots) zero zero s low ne = absurd (ne refl)
  put_slot_ne (t ∷ slots) zero (suc j) s low ne = refl
  put_slot_ne (t ∷ slots) (suc i) zero s low ne = refl
  put_slot_ne (t ∷ slots) (suc i) (suc j) s low ne =
      put_slot_ne slots i j s (omega arith) (λ e. ne (ap suc e))

  abbrev pub with_entry : Option (Entry T) → Option (Slot T) → Option (Slot T)
  with_entry e none = none
  with_entry e (some t) = some (record t { entry = e })

  pub set_entry_self :
      (slots : List (Slot T)) (i : ℕ) (e : Option (Entry T))
      → get_elem? (set_entry slots i e) i ≡ with_entry e (get_elem? slots i)
  unfolding set_entry
  set_entry_self [] i e = refl
  set_entry_self (t ∷ slots) zero e = refl
  set_entry_self (t ∷ slots) (suc i) e = set_entry_self slots i e

  pub set_entry_ne :
      (slots : List (Slot T)) (i j : ℕ) (e : Option (Entry T))
      → i ≢ j
      → get_elem? (set_entry slots i e) j ≡ get_elem? slots j
  unfolding set_entry
  set_entry_ne [] i j e ne = refl
  set_entry_ne (t ∷ slots) zero zero e ne = absurd (ne refl)
  set_entry_ne (t ∷ slots) zero (suc j) e ne = refl
  set_entry_ne (t ∷ slots) (suc i) zero e ne = refl
  set_entry_ne (t ∷ slots) (suc i) (suc j) e ne = set_entry_ne slots i j e (λ q. ne (ap suc q))
