-- ===== src/Sessions/Server/Ids.antt =====
-- Stream ids as the numbers of AMF: the casts `as f64` and `as u32` of src/sessions/server/mod.rs, in
-- the answer to createStream and in the arguments of closeStream and deleteStream.
use native.Mathlib.Nat
use rtmpx.Prelude.{
  ℕ, zero, suc, ◌+◌, ◌-◌, ◌*◌, ◌/◌, ◌%◌, ◌^◌, ◌<◌, ◌≤◌, ◌≡◌, refl, sym, ap, ◌∙◌, false, leb, ltb,
  ◌==◌, Bool-cases, inl, inr, arith,
}
use rtmpx.Prelude.Bytes.{IsU32}
use rtmpx.Prelude.Float.{highest_bit, f64_of_u32, f64_as_u32}

positive_power : (n : ℕ) → 0 < 2 ^ n
positive_power zero = omega arith
positive_power (suc n) = omega (arith, positive_power n, Nat.pow-suc 2 n)

sum_power : (a b : ℕ) → 2 ^ a * 2 ^ b ≡ 2 ^ (a + b)
sum_power zero b =
    let same : b ≡ 0 + b = omega arith in
    let one : 1 * 2 ^ b ≡ 2 ^ b = omega arith in one ∙ ap (λ x. 2 ^ x) same
sum_power (suc a) b =
    ap (λ x. x * 2 ^ b) (Nat.pow-suc 2 a)
    ∙ Nat.mul_assoc (2 ^ a) 2 (2 ^ b)
    ∙ ap (λ x. 2 ^ a * x) (sym (Nat.pow-succ' 2 b))
    ∙ sum_power a (suc b)
    ∙ (let same : a + suc b ≡ suc a + b = omega arith in ap (λ x. 2 ^ x) same)

split_power : (k : ℕ) → k ≤ 52 → 2 ^ k * 2 ^ (52 - k) ≡ 2 ^ 52
split_power k low =
    let same : k + (52 - k) ≡ 52 = omega (arith, low) in sum_power k (52 - k) ∙ ap (λ x. 2 ^ x) same

-- The highest bit of a positive number.
record Highest (n v k : ℕ) : Type 0 where
  low : k ≤ n
  reached : 2 ^ k ≤ v
  top : v < 2 * 2 ^ k

highest_bit-Highest : (n v : ℕ) → 0 < v → v < 2 * 2 ^ n → Highest n v (highest_bit n v)
unfolding highest_bit
highest_bit-Highest zero v positive bound = record {
  low = omega arith;
  reached = omega (arith, positive);
  top = bound;
}
highest_bit-Highest (suc k) v positive bound = elim (Bool-cases (leb (2 ^ suc k) v)) [
  | inl reached ↦
      rw reached (record { low = omega arith; reached = ground (arith, reached); top = bound })
  | inr below ↦
      let rest = highest_bit-Highest k v positive (ground (arith, below, Nat.pow-suc 2 k)) in
      rw below (record { low = omega (arith, rest.low); reached = rest.reached; top = rest.top })
]

-- Reading the parts of a number that was put together.
assembled :
    (e f : ℕ)
    → e < 1055
    → f < 2 ^ 52
    → ((e * 2 ^ 52 + f) / 2 ^ 52 % 2048 ≡ e)
      × ((e * 2 ^ 52 + f) % 2 ^ 52 ≡ f)
      × (leb (2 ^ 63) (e * 2 ^ 52 + f) ≡ false)
assembled e f low small = (omega arith, omega arith, ground arith)

-- A number below 2^53 over its highest bit: the fraction has 52 bits, and gives the number back.
shifted :
    (v p q : ℕ)
    → 0 < p
    → q * p ≡ 2 ^ 52
    → q ≤ v
    → v < 2 * q
    → ((v * p - 2 ^ 52) + 2 ^ 52 ≡ v * p) × (v * p - 2 ^ 52 < 2 ^ 52)
shifted v p q positive whole low top =
    let least : q * p ≤ v * p = Nat.mul-le-mul_right p low in
    let most : v * p < 2 * q * p = Nat.mul-lt-mul_of_pos_right top positive in
    let double : 2 * q * p ≡ 2 * (q * p) = Nat.mul_assoc 2 q p in
    (omega (arith, least, whole), omega (arith, least, whole, most, double))

decoded :
    (x v k : ℕ)
    → x / 2 ^ 52 % 2048 ≡ k + 1023
    → k ≤ 31
    → leb (2 ^ 63) x ≡ false
    → 2 ^ 52 + x % 2 ^ 52 ≡ v * 2 ^ (52 - k)
    → f64_as_u32 x ≡ v
unfolding f64_as_u32
decoded x v k e low sign value =
    let finite : (x / 2 ^ 52 % 2048 == 2047) ≡ false = ground (arith, e, low) in
    let whole : ltb (x / 2 ^ 52 % 2048) 1023 ≡ false = ground (arith, e, low) in
    let small : ltb 1054 (x / 2 ^ 52 % 2048) ≡ false = ground (arith, e, low) in
    let shift : 1075 - x / 2 ^ 52 % 2048 ≡ 52 - k = omega (arith, e, low) in
    rw (finite, sign, whole, small, value, shift) (Nat.mul-div_left v (positive_power (52 - k)))

zero_lem : f64_as_u32 (f64_of_u32 0) ≡ 0
unfolding f64_as_u32 f64_of_u32
zero_lem = refl

of_positive :
    (n : ℕ)
    → let k = highest_bit 31 (suc n) in
      f64_of_u32 (suc n) ≡ (k + 1023) * 2 ^ 52 + (suc n * 2 ^ (52 - k) - 2 ^ 52)
unfolding f64_of_u32 highest_bit
of_positive n = let some_of : (suc n == 0) ≡ false = ground arith in rw some_of refl

pub f64_as_u32-f64_of_u32 : (v : ℕ) → IsU32 v → f64_as_u32 (f64_of_u32 v) ≡ v
f64_as_u32-f64_of_u32 zero u32 = zero_lem
f64_as_u32-f64_of_u32 (suc n) u32 =
    let v = suc n in
    let k = highest_bit 31 v in
    let h = highest_bit-Highest 31 v (omega arith) (omega (arith, u32)) in
    let parts =
      shifted v (2 ^ (52 - k)) (2 ^ k) (positive_power (52 - k))
        (split_power k (omega (arith, h.low))) h.reached h.top in
    let f = v * 2 ^ (52 - k) - 2 ^ 52 in
    let read = assembled (k + 1023) f (omega (arith, h.low)) parts.1 in
    rw (of_positive n) (
      decoded ((k + 1023) * 2 ^ 52 + f) v k read.0 h.low read.2
        (ap (λ x. 2 ^ 52 + x) read.1 ∙ (omega (arith, parts.0))))
