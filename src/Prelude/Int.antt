-- ===== src/Prelude/Int.antt =====
-- Signed integers, and the 32-bit ones among them by their bit patterns.
use Prim.Native.Nat.{ℕ, ◌+◌, ◌-◌, ◌^◌}
use rtmpx.Prelude.Tests.{ltb, if◌then◌else◌}

-- `negsuc n` is -(n + 1).
pub data ℤ : Type 0 where
  pos : ℕ → ℤ
  negsuc : ℕ → ℤ

-- `v as i32` of a u32.
abbrev pub as_i32 : ℕ → ℤ
as_i32 v = if ltb v (2 ^ 31) then pos v else negsuc (2 ^ 32 - (v + 1))
