-- ===== src/Rows/Tests.antt =====
-- Tuples and expressions at concrete inputs.
use zlchen_dsaa2031_project.Prelude.{ℕ, ◌≡◌, refl, some, [], ◌∷◌, arith}
use zlchen_dsaa2031_project.Storage.Bytes.{set32, write_bytes}
use zlchen_dsaa2031_project.Types.{TypeId, Value, integer_value, varchar_value}
use zlchen_dsaa2031_project.Types.Serial.{serialize_to, get_serialized_size, stored, IsStorable}
use zlchen_dsaa2031_project.Types.Tests.{some_floats, short_text, short_text-IsStorable}
use zlchen_dsaa2031_project.Rows.{
  Column, Tuple, new_column, new_schema, append_values, new_tuple, get_value, read_row, no_rid,
  blank,
}
use zlchen_dsaa2031_project.Rows.Expressions.{
  Expression, column_value, constant_value, comparison, arithmetic, less_than, plus, evaluate,
}
use zlchen_dsaa2031_project.Rows.Typing.{check, divides, type_of, evaluate-check}
use zlchen_dsaa2031_project.Rows.Layout.{AllPacked, HasTypes, reloaded, read_row-new_tuple}
use zlchen_dsaa2031_project.Rows.Misread.{text_and_number, get_value_misread}

abbrev seven : Value
seven = integer_value TypeId.integer 7

abbrev pub number_column : Column
number_column = new_column [] TypeId.integer 0

abbrev text_column : Column
text_column = new_column [] TypeId.varchar 0

-- A number and a text behind it.
abbrev seven_ab : Tuple
seven_ab = record {
  rid = no_rid;
  bytes = write_bytes (set32 (set32 blank 0 7) 4 2) 8 (97 ∷ 98 ∷ []);
  bytes_length = 10;
  values = seven ∷ short_text ∷ [];
}

seven_ab-new_tuple : new_tuple (seven ∷ short_text ∷ []) ≡ some seven_ab
unfolding new_tuple append_values serialize_to get_serialized_size
seven_ab-new_tuple = refl

packed : AllPacked (number_column ∷ text_column ∷ [])
unfolding AllPacked
packed = (refl, tt)

typed : HasTypes (number_column ∷ text_column ∷ []) (seven ∷ short_text ∷ [])
unfolding HasTypes
typed = (refl, (refl, tt))

seven-IsStorable : IsStorable seven
unfolding IsStorable
seven-IsStorable = (omega arith, omega arith, refl)

read_row-new_tuple_example :
    read_row (reloaded seven_ab blank 100) (new_schema (number_column ∷ text_column ∷ []))
    ≡ some (stored seven ∷ stored short_text ∷ [])
read_row-new_tuple_example =
    read_row-new_tuple (number_column ∷ text_column ∷ []) (seven ∷ short_text ∷ []) seven_ab blank
      100 packed typed (seven-IsStorable, (short_text-IsStorable, tt)) seven_ab-new_tuple
      (omega arith)

-- The text "abcd" and the number 7.
abbrev abcd_seven : Tuple
abcd_seven = record {
  rid = no_rid;
  bytes = set32 (write_bytes (set32 blank 0 4) 4 (97 ∷ 98 ∷ 99 ∷ 100 ∷ [])) 8 7;
  bytes_length = 12;
  values = varchar_value TypeId.varchar (97 ∷ 98 ∷ 99 ∷ 100 ∷ []) ∷ seven ∷ [];
}

abcd_seven-new_tuple :
    new_tuple (varchar_value TypeId.varchar (97 ∷ 98 ∷ 99 ∷ 100 ∷ []) ∷ seven ∷ [])
    ≡ some abcd_seven
unfolding new_tuple append_values serialize_to get_serialized_size
abcd_seven-new_tuple = refl

-- The number is read as 1684234849, the word of "abcd".
get_value_misread_example :
    get_value (reloaded abcd_seven blank 100) (text_and_number [] []) 1
    ≡ some (integer_value TypeId.integer 1684234849)
get_value_misread_example =
    get_value_misread [] [] 97 98 99 100 7 [] abcd_seven blank 100 (omega arith)
      abcd_seven-new_tuple

-- The first column less than 1 + 2.
abbrev below_three : Expression
below_three =
    comparison (column_value 0 0 TypeId.integer)
      (arithmetic (constant_value (integer_value TypeId.integer 1))
        (constant_value (integer_value TypeId.integer 2)) plus)
      less_than

evaluate-check_example :
    type_of (evaluate some_floats below_three seven_ab (new_schema []))
    ≡ check (TypeId.integer ∷ TypeId.varchar ∷ []) below_three
unfolding check divides
evaluate-check_example = evaluate-check some_floats below_three seven_ab (new_schema []) refl refl

abbrev pub number_row : ℕ → Tuple
number_row i = record {
  rid = no_rid;
  bytes = set32 blank 0 i;
  bytes_length = 4;
  values = integer_value TypeId.integer i ∷ [];
}
