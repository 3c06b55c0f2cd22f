-- ===== src/Prelude/Map.antt =====
-- A hash map with numbers for keys, as an association list: at most one pair for each key.
use mathlib.Core.Path.{◌≡◌, refl}
use mathlib.Core.Bool.{Bool}
use mathlib.Core.Logic.{◌≢◌, inl, inr}
use mathlib.Core.Option.{Option, none, some}
use mathlib.Core.List.{List, [], ◌∷◌}
use Prim.Native.Nat.{ℕ, ◌+◌}
use native.Mathlib.Omega.{arith}
use rtmpx.Prelude.Tests.{◌==◌, if◌then◌else◌, Bool-cases}
use rtmpx.Prelude.Lists.{length}

abbrev pub Map {ℓ} : Type ℓ → Type ℓ
Map V = List (ℕ × V)

module _ {ℓ} {V : Type ℓ} where
  unfoldable pub lookup : ℕ → Map V → Option V
  lookup key [] = none
  lookup key ((other, v) ∷ pairs) = if other == key then some v else lookup key pairs

  unfoldable pub insert : ℕ → V → Map V → Map V
  insert key v [] = (key, v) ∷ []
  insert key v ((other, old) ∷ pairs) =
      if other == key then (key, v) ∷ pairs else (other, old) ∷ insert key v pairs

  unfoldable pub remove : ℕ → Map V → Map V
  remove key [] = []
  remove key ((other, old) ∷ pairs) =
      if other == key then pairs else (other, old) ∷ remove key pairs

  unfoldable pub count_if : (V → Bool) → Map V → ℕ
  count_if p [] = 0
  count_if p ((other, old) ∷ pairs) = (if p old then 1 else 0) + count_if p pairs

module _ {ℓ} {V : Type ℓ} where
  pub lookup-insert :
      (key other : ℕ) (v : V) (pairs : Map V)
      → lookup other (insert key v pairs) ≡ (if key == other then some v else lookup other pairs)
  unfolding lookup insert
  lookup-insert key other v [] = refl
  lookup-insert key other v ((i, old) ∷ pairs) = ground (arith, lookup-insert key other v pairs)

  pub lookup-insert_self :
      (key : ℕ) (v : V) (pairs : Map V) → lookup key (insert key v pairs) ≡ some v
  lookup-insert_self key v pairs = ground (arith, lookup-insert key key v pairs)

  pub lookup-insert_ne :
      (key other : ℕ) (v : V) (pairs : Map V)
      → key ≢ other
      → lookup other (insert key v pairs) ≡ lookup other pairs
  lookup-insert_ne key other v pairs h = ground (arith, lookup-insert key other v pairs)

  -- A replaced value leaves the size, a new key adds one.
  pub length-insert :
      (key : ℕ) (v : V) (pairs : Map V)
      → length (insert key v pairs)
        ≡ (elim (lookup key pairs) [ none ↦ length pairs + 1 | some _ ↦ length pairs ])
  unfolding lookup insert
  length-insert key v [] = omega arith
  length-insert key v ((other, old) ∷ pairs) = ground (arith, length-insert key v pairs)

  -- What a value counts for.
  abbrev pub weight : (V → Bool) → Option V → ℕ
  weight p none = 0
  weight p (some v) = if p v then 1 else 0

  -- The count gains the new value and loses the old one.
  pub count_if-insert :
      (p : V → Bool) (key : ℕ) (v : V) (pairs : Map V)
      → count_if p (insert key v pairs) + weight p (lookup key pairs)
        ≡ count_if p pairs + weight p (some v)
  unfolding lookup insert count_if
  count_if-insert p key v [] = ground arith
  count_if-insert p key v ((other, old) ∷ pairs) = ground (arith, count_if-insert p key v pairs)

  -- The later of two values for one key stands.
  pub insert-insert :
      (key : ℕ) (v old : V) (pairs : Map V)
      → insert key v (insert key old pairs) ≡ insert key v pairs
  unfolding insert
  insert-insert key v old [] = ground arith
  insert-insert key v old ((other, u) ∷ pairs) = ground (arith, insert-insert key v old pairs)

  pub remove-insert :
      (key : ℕ) (v : V) (pairs : Map V)
      → lookup key pairs ≡ none
      → remove key (insert key v pairs) ≡ pairs
  unfolding lookup insert remove
  remove-insert key v [] h = ground arith
  remove-insert key v ((other, u) ∷ pairs) h = ground (arith, remove-insert key v pairs)

module _ {V : Type 0} where
  -- Each key has one pair.
  abbrev pub IsDistinct : Map V → Type 0
  IsDistinct [] = Unit {0}
  IsDistinct ((key, v) ∷ pairs) = (lookup key pairs ≡ none) × IsDistinct pairs

  pub lookup-remove_ne :
      (key other : ℕ) (pairs : Map V)
      → key ≢ other
      → lookup other (remove key pairs) ≡ lookup other pairs
  unfolding lookup remove
  lookup-remove_ne key other [] ne = refl
  lookup-remove_ne key other ((i, v) ∷ pairs) ne =
      ground (arith, lookup-remove_ne key other pairs ne)

  lookup-remove-none :
      (key other : ℕ) (pairs : Map V)
      → lookup other pairs ≡ none
      → lookup other (remove key pairs) ≡ none
  unfolding lookup remove
  lookup-remove-none key other [] absent = refl
  lookup-remove-none key other ((i, v) ∷ pairs) absent =
      ground (arith, lookup-remove-none key other pairs)

  pub lookup-remove_self :
      (key : ℕ) (pairs : Map V) → IsDistinct pairs → lookup key (remove key pairs) ≡ none
  unfolding lookup remove
  lookup-remove_self key [] distinct = refl
  lookup-remove_self key ((i, v) ∷ pairs) (one, distinct) =
      ground (arith, lookup-remove_self key pairs distinct)

  pub remove-IsDistinct :
      (key : ℕ) (pairs : Map V) → IsDistinct pairs → IsDistinct (remove key pairs)
  unfolding remove
  remove-IsDistinct key [] distinct = tt
  remove-IsDistinct key ((i, v) ∷ pairs) (one, distinct) = elim (Bool-cases (i == key)) [
    | inl same ↦ rw same distinct
    | inr other ↦
        rw other (lookup-remove-none key i pairs one, remove-IsDistinct key pairs distinct)
  ]

  pub insert-IsDistinct :
      (key : ℕ) (v : V) (pairs : Map V) → IsDistinct pairs → IsDistinct (insert key v pairs)
  unfolding insert lookup
  insert-IsDistinct key v [] distinct = (refl, tt)
  insert-IsDistinct key v ((i, old) ∷ pairs) (one, distinct) = elim (Bool-cases (i == key)) [
    | inl same ↦ rw same (ground (arith, one, same), distinct)
    | inr other ↦ rw other (
      ground (arith, one, other, lookup-insert key i v pairs),
      insert-IsDistinct key v pairs distinct,
    )
  ]
