-- ===== src/Time/Serial.antt =====
-- Arithmetic and serial comparison of timestamps across the wrap of the clock.
use Prim.Native.Nat.{Ordering}
use rtmpx.Prelude.{ℕ, ◌^◌, ◌≡◌, Option, none, some, ◌==◌, ltb, if◌then◌else◌, arith}
use rtmpx.Prelude.Bytes.{IsU32}
use rtmpx.Time.{RtmpTimestamp, add_ms, sub, sub_ms, serial_cmp, wrapping_elapsed_since}

-- The order of two moments on the circular clock, by the milliseconds from the first to the second.
abbrev pub by_distance : ℕ → Option Ordering
by_distance d =
    if d == 0
    then some Ordering.eq
    else if ltb d (2 ^ 31)
    then some Ordering.lt
    else if d == 2 ^ 31
    then none
    else some Ordering.gt

-- `serial_cmp` of two u32 timestamps is decided by the elapsed time from the first to the second:
-- equal at 0, earlier below half a cycle, undecided at exactly half a cycle, later above it.
pub serial_cmp-elapsed :
    (t u : RtmpTimestamp)
    → IsU32 t.value
    → IsU32 u.value
    → serial_cmp t u ≡ by_distance (wrapping_elapsed_since u t)
unfolding serial_cmp wrapping_elapsed_since
serial_cmp-elapsed t u ht hu = ground arith

-- Adding a u32 delta to a u32 timestamp and taking the difference gives the delta back, also across
-- the wrap; and subtracting the delta again gives the timestamp.
pub sub-add_ms :
    (t : RtmpTimestamp) (d : ℕ)
    → IsU32 t.value
    → IsU32 d
    → (sub (add_ms t d) t ≡ record { value = d }) × (sub_ms (add_ms t d) d ≡ t)
unfolding sub add_ms sub_ms
sub-add_ms t d ht hd = (ground arith, ground arith)

-- The difference of two u32 timestamps, added to the earlier one, gives the later one.
pub add_ms-sub :
    (t u : RtmpTimestamp) → IsU32 t.value → IsU32 u.value → add_ms u (sub t u).value ≡ t
unfolding sub add_ms
add_ms-sub t u ht hu = ground arith
