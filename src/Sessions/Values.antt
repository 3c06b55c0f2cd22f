-- ===== src/Sessions/Values.antt =====
-- What sessions do with AMF values, which belong to the AMF codecs, and with the maps of AMF objects;
-- `AmfEncoding` of src/amf/mod.rs.
use rtmpx.Prelude.{ℕ, Bool, true, false, Option, none, some, List, [], ◌∷◌, ◌==◌, if◌then◌else◌}
use rtmpx.Prelude.Bytes.{Byte}
use rtmpx.Prelude.Text.{equal_bytes}
use rtmpx.Prelude.Float.{f64_zero, f64_three}
use rtmpx.Messages.Message.{AmfEncoding, in_amf0, in_amf3}
use rtmpx.Messages.Convert.{AmfBodies}

-- `IndexMap<String, V>`: an entry for each key, in the order of insertion.
abbrev pub Amf0Object : Type 0 → Type 0
Amf0Object V = List (List Byte × V)

-- What a session asks of an AMF0 value.
pub data View (V : Type 0) : Type 0 where
  number : ℕ → View V
  boolean : Bool → View V
  utf8_string : List Byte → View V
  object : Amf0Object V → View V
  other : View V

-- `V` and `W` are the types of AMF0 and AMF3 values. `clock` is what each reading of the time gives,
-- in milliseconds since the start, and `capacity_of` what the library bytes allocates.
pub record Outside (V W : Type 0) : Type 0 where
  pub bodies : AmfBodies V W
  pub view : V → View V
  pub of_number : ℕ → V
  pub of_boolean : Bool → V
  pub of_string : List Byte → V
  pub of_object : Amf0Object V → V
  pub null : V
  pub to_amf3 : V → W
  pub to_amf0 : W → V
  pub clock : ℕ → ℕ
  pub capacity_of : ℕ → ℕ

module _ {V : Type 0} where
  -- `shift_remove`: the value of the key, and the object without it.
  unfoldable pub shift_remove : List Byte → Amf0Object V → Option V × Amf0Object V
  unfolding equal_bytes
  shift_remove key [] = (none, [])
  shift_remove key ((k, v) ∷ fields) =
      let (found, rest) = shift_remove key fields in
      if equal_bytes k key then (some v, fields) else (found, (k, v) ∷ rest)

  -- `insert`: in place of the key's old value, or at the end.
  unfoldable pub insert : List Byte → V → Amf0Object V → Amf0Object V
  unfolding equal_bytes
  insert key v [] = (key, v) ∷ []
  insert key v ((k, old) ∷ fields) =
      let rest = insert key v fields in
      if equal_bytes k key then (k, v) ∷ fields else (k, old) ∷ rest

  unfoldable pub extend : Amf0Object V → Amf0Object V → Amf0Object V
  unfolding insert
  extend fields [] = fields
  extend fields ((k, v) ∷ more) = extend (insert k v fields) more

  -- `get_number`
  unfoldable pub get_number : View V → Option ℕ
  get_number (number x) = some x
  get_number _ = none

abbrev pub from_object_encoding : ℕ → AmfEncoding
from_object_encoding value = if value == f64_three then in_amf3 else in_amf0

abbrev pub as_object_encoding : AmfEncoding → ℕ
as_object_encoding in_amf0 = f64_zero
as_object_encoding in_amf3 = f64_three

abbrev pub negotiate : AmfEncoding → AmfEncoding → AmfEncoding
negotiate in_amf3 in_amf3 = in_amf3
negotiate _ _ = in_amf0

abbrev pub is_amf3 : AmfEncoding → Bool
is_amf3 in_amf0 = false
is_amf3 in_amf3 = true
