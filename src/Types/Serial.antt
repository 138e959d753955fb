-- ===== src/Types/Serial.antt =====
-- `SerializeTo`, `DeserializeFrom` and `GetSerializedSize`: src/type/value.cpp. What stands in
-- memory is the payload: neither the type nor the mark of NULL is written.
use zlchen_dsaa2031_project.Prelude.{
  ℕ, ◌+◌, ◌%◌, ◌<◌, ◌≡◌, Option, none, some, false, not, ◌==◌, length, take,
}
use zlchen_dsaa2031_project.Storage.Bytes.{Bytes, get32, set8, set32, write_bytes, read_bytes}
use zlchen_dsaa2031_project.Types.{
  TypeId, Value, integer_value, float_value, boolean_value, varchar_value, truth, bool_word,
  same_type,
}

-- `static_cast<uint32_t>(varchar_.size())`
abbrev text_length : Value → ℕ
text_length v = length v.text % 4294967296

abbrev put : Bytes → ℕ → TypeId → Value → Option Bytes
put m a TypeId.boolean v = some (set8 m a (bool_word (truth v)))
put m a TypeId.integer v = some (set32 m a v.word)
put m a TypeId.float v = some (set32 m a v.word)
put m a TypeId.varchar v =
    some (write_bytes (set32 m a (text_length v)) (a + 4) (take (text_length v) v.text))
put m a TypeId.invalid v = none

unfoldable pub serialize_to : Bytes → ℕ → Value → Option Bytes
serialize_to m a v = put m a v.type_id v

unfoldable pub deserialize_from : Bytes → ℕ → TypeId → Option Value
deserialize_from m a TypeId.boolean = some (boolean_value TypeId.boolean (not (m a == 0)))
deserialize_from m a TypeId.integer = some (integer_value TypeId.integer (get32 m a))
deserialize_from m a TypeId.float = some (float_value TypeId.float (get32 m a))
deserialize_from m a TypeId.varchar =
    some (varchar_value TypeId.varchar (read_bytes m (a + 4) (get32 m a)))
deserialize_from m a TypeId.invalid = none

abbrev size_of : TypeId → Value → Option ℕ
size_of TypeId.boolean v = some 1
size_of TypeId.integer v = some 4
size_of TypeId.float v = some 4
size_of TypeId.varchar v = some ((4 + text_length v) % 4294967296)
size_of TypeId.invalid v = none

unfoldable pub get_serialized_size : Value → Option ℕ
get_serialized_size v = size_of v.type_id v

-- What a value says once it is written and read again: a payload of its type, and no NULL.
unfoldable pub stored : Value → Value
stored v = elim (v.type_id) [
  | TypeId.boolean ↦ boolean_value TypeId.boolean (truth v)
  | TypeId.integer ↦ integer_value TypeId.integer v.word
  | TypeId.float ↦ float_value TypeId.float v.word
  | TypeId.varchar ↦ varchar_value TypeId.varchar v.text
  | TypeId.invalid ↦ v
]

-- A union of 32 bits, a text whose length `uint32_t` holds, and a type.
unfoldable pub IsStorable : Value → Type 0
IsStorable v =
    (v.word < 4294967296)
    × (length v.text < 4294967292)
    × (same_type v.type_id TypeId.invalid ≡ false)
