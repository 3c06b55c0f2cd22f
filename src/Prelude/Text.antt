-- ===== src/Prelude/Text.antt =====
-- Strings and byte slices, as lists of bytes.
use Prim.Native.Char.{code}
use Prim.Native.String.{String}
use rtmpx.Prelude.Bytes.{Byte}
use mathlib.Core.Bool.{Bool, true, false, ◌&&◌}
use mathlib.Core.List.{List, [], ◌∷◌}
use rtmpx.Prelude.Tests.{◌==◌}

-- The bytes of a literal of ASCII characters.
abbrev pub codes : String → List Byte
codes String.[] = []
codes (String.◌∷◌ c s) = code c ∷ codes s

-- `==` of two byte slices.
unfoldable pub equal_bytes : List Byte → List Byte → Bool
equal_bytes [] [] = true
equal_bytes [] (b ∷ bs) = false
equal_bytes (a ∷ as') [] = false
equal_bytes (a ∷ as') (b ∷ bs) = a == b && equal_bytes as' bs
