-- ===== src/Types/Tests.antt =====
-- Values at concrete inputs.
use zlchen_dsaa2031_project.Prelude.{
  ◌+◌, ◌≡◌, refl, some, [], ◌∷◌, ◌==◌, leb, ltb, ◌>>=◌, arith, decimal,
}
use zlchen_dsaa2031_project.Storage.Bytes.{Bytes, set32, write_bytes}
use zlchen_dsaa2031_project.Types.{TypeId, Value, Floats, integer_value, varchar_value}
use zlchen_dsaa2031_project.Types.Serial.{
  serialize_to, deserialize_from, get_serialized_size, stored, IsStorable,
}
use zlchen_dsaa2031_project.Types.Stored.{deserialize_from-serialize_to, serialize_to_apart}

-- A stand-in for the `float` operations.
abbrev pub some_floats : Floats
some_floats = record {
  float_less = ltb;
  float_at_most = leb;
  float_equal = ◌==◌;
  float_add = ◌+◌;
  float_subtract = λ a b. a;
  float_multiply = λ a b. b;
  float_divide = λ a b. a;
  float_text = decimal;
}

-- "ab", -5 and 3.
abbrev pub short_text : Value
short_text = varchar_value TypeId.varchar (97 ∷ 98 ∷ [])

abbrev three : Value
three = integer_value TypeId.integer 3

abbrev memory : Bytes
memory address = 0

pub short_text-IsStorable : IsStorable short_text
unfolding IsStorable
short_text-IsStorable = (omega arith, omega arith, refl)

deserialize_from-serialize_to_example :
    (serialize_to memory 8 short_text >>= λ m'. deserialize_from m' 8 TypeId.varchar)
    ≡ some (stored short_text)
deserialize_from-serialize_to_example =
    deserialize_from-serialize_to memory 8 short_text short_text-IsStorable

serialize_to_apart_example : write_bytes (set32 memory 8 2) 12 (97 ∷ 98 ∷ []) 14 ≡ memory 14
unfolding serialize_to get_serialized_size
serialize_to_apart_example =
    serialize_to_apart memory (write_bytes (set32 memory 8 2) 12 (97 ∷ 98 ∷ [])) 8 6 14 short_text
      short_text-IsStorable refl refl refl
