-- ===== src/Time.antt =====
-- RTMP timestamps (src/time.rs): 32-bit millisecond counters that wrap.
pub mod Serial
use Prim.Native.Nat.{max, compare, Ordering}
use rtmpx.Prelude.{ℕ, ◌+◌, ◌-◌, ◌%◌, ◌^◌, Bool, Option, none, some, ◌==◌, leb, min, if◌then◌else◌}

-- `value` is a u32.
pub record RtmpTimestamp : Type 0 where
  pub value : ℕ

unfoldable pub new : ℕ → RtmpTimestamp
new v = record { value = v }

abbrev pub set : RtmpTimestamp → ℕ → RtmpTimestamp
set t v = record t { value = v }

-- `Wrapping(a) + Wrapping(b)` and `Wrapping(a) - Wrapping(b)` on u32.
unfoldable pub add_values : ℕ → ℕ → ℕ
add_values a b = (a + b) % 2 ^ 32

unfoldable pub sub_values : ℕ → ℕ → ℕ
sub_values a b = (a + 2 ^ 32 - b) % 2 ^ 32

-- `impl Add<u32>` and `impl Add`.
unfoldable pub add_ms : RtmpTimestamp → ℕ → RtmpTimestamp
unfolding add_values
add_ms t d = record { value = add_values t.value d }

unfoldable pub add : RtmpTimestamp → RtmpTimestamp → RtmpTimestamp
unfolding add_values
add t u = record { value = add_values t.value u.value }

-- `impl Sub<u32>` and `impl Sub`.
unfoldable pub sub_ms : RtmpTimestamp → ℕ → RtmpTimestamp
unfolding sub_values
sub_ms t d = record { value = sub_values t.value d }

unfoldable pub sub : RtmpTimestamp → RtmpTimestamp → RtmpTimestamp
unfolding sub_values
sub t u = record { value = sub_values t.value u.value }

abbrev max_adjacent_value : ℕ
max_adjacent_value = 2147483647

-- The private `compare`: the plain order of near values, the reverse of it for far ones.
compare_values : ℕ → ℕ → Ordering
compare_values a b =
    let difference = max a b - min a b in
    if leb difference max_adjacent_value then compare a b else compare b a

pub serial_cmp : RtmpTimestamp → RtmpTimestamp → Option Ordering
unfolding compare_values sub_values
serial_cmp t u =
    if sub_values t.value u.value == 2 ^ 31 then none else some (compare_values t.value u.value)

pub wrapping_elapsed_since : RtmpTimestamp → RtmpTimestamp → ℕ
unfolding sub_values
wrapping_elapsed_since t earlier = sub_values t.value earlier.value
