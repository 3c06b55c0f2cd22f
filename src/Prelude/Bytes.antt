-- ===== src/Prelude/Bytes.antt =====
-- Big-endian and little-endian bytes of machine words (`to_be_bytes`, `from_be_bytes` and the like).
use mathlib.Core.Path.{◌≡◌}
use mathlib.Core.List.{List, [], ◌∷◌}
use Prim.Native.Nat.{ℕ, ◌+◌, ◌*◌, ◌/◌, ◌%◌, ◌^◌, ◌<◌}
use native.Mathlib.Omega.{arith}

abbrev pub Byte : Type 0
Byte = ℕ

abbrev pub IsU32 : ℕ → Type 0
IsU32 v = v < 2 ^ 32

abbrev pub IsU24 : ℕ → Type 0
IsU24 v = v < 2 ^ 24

-- `value.to_be_bytes()` of a u16, of a u32, and the last three bytes of a u32.
abbrev pub be16 : ℕ → List Byte
be16 v = (v / 256 % 256) ∷ (v % 256) ∷ []

abbrev pub be24 : ℕ → List Byte
be24 v = (v / 65536 % 256) ∷ (v / 256 % 256) ∷ (v % 256) ∷ []

abbrev pub be32 : ℕ → List Byte
be32 v = (v / 16777216 % 256) ∷ (v / 65536 % 256) ∷ (v / 256 % 256) ∷ (v % 256) ∷ []

abbrev pub le32 : ℕ → List Byte
le32 v = (v % 256) ∷ (v / 256 % 256) ∷ (v / 65536 % 256) ∷ (v / 16777216 % 256) ∷ []

-- The shifted bytes share no bit, so their disjunction is a sum.
abbrev pub from_be16 : Byte → Byte → ℕ
from_be16 a b = a * 256 + b

abbrev pub from_be24 : Byte → Byte → Byte → ℕ
from_be24 a b c = a * 65536 + b * 256 + c

abbrev pub from_be32 : Byte → Byte → Byte → Byte → ℕ
from_be32 a b c d = a * 16777216 + b * 65536 + c * 256 + d

abbrev pub from_le32 : Byte → Byte → Byte → Byte → ℕ
from_le32 a b c d = a + b * 256 + c * 65536 + d * 16777216

pub be24_lem : (v : ℕ) → IsU24 v → from_be24 (v / 65536 % 256) (v / 256 % 256) (v % 256) ≡ v
be24_lem v h = omega arith

pub be32_lem :
    (v : ℕ)
    → IsU32 v
    → from_be32 (v / 16777216 % 256) (v / 65536 % 256) (v / 256 % 256) (v % 256) ≡ v
be32_lem v h = omega arith

pub le32_lem :
    (v : ℕ)
    → IsU32 v
    → from_le32 (v % 256) (v / 256 % 256) (v / 65536 % 256) (v / 16777216 % 256) ≡ v
le32_lem v h = omega arith
