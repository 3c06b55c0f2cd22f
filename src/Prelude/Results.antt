-- ===== src/Prelude/Results.antt =====
-- What a Rust call ends in: a value, a returned error, or nothing.
use mathlib.Core.Path.{◌≡◌, refl}
use mathlib.Core.Bool.{Bool, true, false}

-- `stuck` is no Rust value: the call panicked, or the fuel of a loop's model ran out.
pub data Outcome {ℓ} (E : Type 0) (A : Type ℓ) : Type ℓ where
  ok : A → Outcome E A
  err : E → Outcome E A
  stuck : Outcome E A

infixl 5 ◌>>=◌ ◌>>◌
abbrev pub ◌>>=◌ {ℓ κ} :
    {E : Type 0} {A : Type ℓ} {B : Type κ} → Outcome E A → (A → Outcome E B) → Outcome E B
ok value >>= next = next value
err failure >>= next = err failure
stuck >>= next = stuck

abbrev pub ◌>>◌ {ℓ} : {E : Type 0} {B : Type ℓ} → Outcome E (Unit {0}) → Outcome E B → Outcome E B
first >> second = first >>= λ _. second

-- An early return of the error `e` where the test fails.
abbrev pub require : {E : Type 0} → Bool → E → Outcome E (Unit {0})
require true failure = ok tt
require false failure = err failure

-- The outcome is no `stuck`, and its value has the property.
abbrev pub Ensures {ℓ} : {E : Type 0} {A : Type ℓ} → Outcome E A → (A → Type 0) → Type 0
Ensures (ok a) P = P a
Ensures (err e) P = Unit {0}
Ensures stuck P = ⊥

pub ensures_then {ℓ κ} :
    {E : Type 0} {A : Type ℓ} {B : Type κ} {P : A → Type 0} (Q : B → Type 0) (m : Outcome E A)
    (f : A → Outcome E B)
    → Ensures m P
    → ((a : A) → P a → Ensures (f a) Q)
    → Ensures (m >>= f) Q
ensures_then Q (ok a) f p k = k a p
ensures_then Q (err e) f p k = tt
ensures_then Q stuck f p k = absurd p

pub ensures_require :
    {E : Type 0} (test : Bool) (e : E) → Ensures (require test e) (λ _. test ≡ true)
ensures_require true e = refl
ensures_require false e = tt

pub ensures_ok {ℓ} :
    {E : Type 0} {A : Type ℓ} (P : A → Type 0) (m : Outcome E A) {a : A}
    → Ensures m P
    → m ≡ ok a
    → P a
ensures_ok P m p e = rw e at p

pub ensures_weaken {ℓ} :
    {E : Type 0} {A : Type ℓ} (P Q : A → Type 0) (m : Outcome E A)
    → ((a : A) → P a → Q a)
    → Ensures m P
    → Ensures m Q
ensures_weaken P Q (ok a) weaker p = weaker a p
ensures_weaken P Q (err failure) weaker p = tt
ensures_weaken P Q stuck weaker p = p

pub ensures_both {ℓ} :
    {E : Type 0} {A : Type ℓ} (P Q : A → Type 0) (m : Outcome E A)
    → Ensures m P
    → Ensures m Q
    → Ensures m (λ a. P a × Q a)
ensures_both P Q (ok a) p q = (p, q)
ensures_both P Q (err failure) p q = tt
ensures_both P Q stuck p q = p
