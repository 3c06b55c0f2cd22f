-- ===== src/Prelude/Float.antt =====
-- The f64 numbers that sessions use, as their 64 bits.
use rtmpx.Prelude.{ℕ, zero, suc, ◌+◌, ◌-◌, ◌*◌, ◌/◌, ◌%◌, ◌^◌, Bool, not, ◌&&◌, ◌||◌}
use rtmpx.Prelude.{ltb, leb, ◌==◌, if◌then◌else◌}

-- The greatest `k ≤ n` with 2^k ≤ v, or 0.
unfoldable pub highest_bit : ℕ → ℕ → ℕ
highest_bit zero v = zero
highest_bit (suc k) v = if leb (2 ^ suc k) v then suc k else highest_bit k v

-- `v as f64` of a u32, which is exact.
unfoldable pub f64_of_u32 : ℕ → ℕ
unfolding highest_bit
f64_of_u32 v =
    let k = highest_bit 31 v in
    if v == 0 then 0 else (k + 1023) * 2 ^ 52 + (v * 2 ^ (52 - k) - 2 ^ 52)

unfoldable pub exponent : ℕ → ℕ
exponent x = x / 2 ^ 52 % 2048

unfoldable pub fraction : ℕ → ℕ
fraction x = x % 2 ^ 52

unfoldable pub is_negative : ℕ → Bool
is_negative x = leb (2 ^ 63) x

unfoldable pub is_nan : ℕ → Bool
unfolding exponent fraction
is_nan x = exponent x == 2047 && not (fraction x == 0)

-- `x as u32`: towards zero, within the range, and 0 of what is not a number.
unfoldable pub f64_as_u32 : ℕ → ℕ
unfolding exponent fraction is_negative is_nan
f64_as_u32 x =
    if is_nan x || is_negative x
    then 0
    else if ltb (exponent x) 1023
    then 0
    else if ltb 1054 (exponent x)
    then 2 ^ 32 - 1
    else (2 ^ 52 + fraction x) / 2 ^ (1075 - exponent x)

-- `x >= 0.0`, of -0.0 too.
unfoldable pub at_least_zero : ℕ → Bool
unfolding is_negative is_nan
at_least_zero x = not (is_nan x) && (not (is_negative x) || x == 2 ^ 63)

-- The literals.
abbrev pub f64_zero : ℕ
f64_zero = 0

abbrev pub f64_three : ℕ
f64_three = 0x4008_0000_0000_0000

abbrev pub f64_31 : ℕ
f64_31 = 0x403f_0000_0000_0000

abbrev pub f64_8192 : ℕ
f64_8192 = 0x40c0_0000_0000_0000

abbrev pub f64_minus_one : ℕ
f64_minus_one = 0xbff0_0000_0000_0000

abbrev pub f64_minus_two : ℕ
f64_minus_two = 0xc000_0000_0000_0000
