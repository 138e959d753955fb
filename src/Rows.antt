-- ===== src/Rows.antt =====
-- Columns, schemas and tuples: src/include/onebase/catalog/column.h, schema.h and
-- src/include/onebase/storage/table/tuple.h with src/storage/table/tuple.cpp. The bytes of a tuple
-- are a memory and a length. A `uint32_t` offset wraps. What C++ leaves undefined, a column past
-- the last, has no result.
pub mod Expressions
pub mod Rebase
pub mod Typing
pub mod Layout
pub mod Misread
pub mod Tests
use zlchen_dsaa2031_project.Prelude.{
  ℕ, zero, suc, ◌+◌, ◌%◌, ◌≡◌, Option, none, some, Bool, true, false, not, List, [], ◌∷◌, ◌++◌,
  ◌==◌, ltb, length, get_elem?, get_or, if◌then◌else◌, ◌>>=◌,
}
use zlchen_dsaa2031_project.Storage.Bytes.{Bytes, write_bytes, read_bytes}
use zlchen_dsaa2031_project.Types.{TypeId, Value, Floats, same_type, no_value, to_string}
use zlchen_dsaa2031_project.Types.Compare.{text_equal}
use zlchen_dsaa2031_project.Types.Serial.{serialize_to, deserialize_from, get_serialized_size}

pub record Column : Type 0 where
  pub name : List ℕ
  pub type_id : TypeId
  pub length : ℕ
  pub fixed_length : ℕ
  pub variable_length : ℕ
  pub offset : ℕ

abbrev pub get_fixed_length_for : TypeId → ℕ
get_fixed_length_for TypeId.boolean = 1
get_fixed_length_for TypeId.integer = 4
get_fixed_length_for TypeId.float = 8
get_fixed_length_for _ = 0

-- The constructor: a VARCHAR has 256 for its length where none is given.
abbrev pub new_column : List ℕ → TypeId → ℕ → Column
new_column name type_id length =
    let text_length = if length == 0 then 256 else length in
    if same_type type_id TypeId.varchar
    then record {
      name = name;
      type_id = type_id;
      length = text_length;
      fixed_length = 4;
      variable_length = text_length;
      offset = 0;
    }
    else record {
      name = name;
      type_id = type_id;
      length = length;
      fixed_length = get_fixed_length_for type_id;
      variable_length = 0;
      offset = 0;
    }

abbrev pub is_inlined : Column → Bool
is_inlined column = not (same_type column.type_id TypeId.varchar)

pub record Schema : Type 0 where
  pub columns : List Column
  pub tuple_length : ℕ

-- What a column adds to the offset of the next.
abbrev pub width : Column → ℕ
width column = if is_inlined column then column.fixed_length else 4

-- The loop of the constructor of `Schema`.
unfoldable pub place : ℕ → List Column → List Column
place offset [] = []
place offset (column ∷ columns) =
    record column { offset = offset } ∷ place ((offset + width column) % 4294967296) columns

unfoldable pub end_of : ℕ → List Column → ℕ
end_of offset [] = offset
end_of offset (column ∷ columns) = end_of ((offset + width column) % 4294967296) columns

abbrev pub new_schema : List Column → Schema
new_schema columns = record { columns = place 0 columns; tuple_length = end_of 0 columns }

-- `GetColumnIdx`: the first column of the name, or UINT32_MAX.
unfoldable pub column_idx_from : ℕ → List ℕ → List Column → ℕ
column_idx_from i name [] = 4294967295
column_idx_from i name (column ∷ columns) =
    let later = column_idx_from (i + 1) name columns in
    if text_equal column.name name then i else later

abbrev pub get_column_idx : Schema → List ℕ → ℕ
get_column_idx schema name = column_idx_from 0 name schema.columns

pub record Tuple : Type 0 where
  pub rid : ℕ
  pub bytes : Bytes
  pub bytes_length : ℕ
  pub values : List Value

-- The default `RID`: page -1, slot 0.
abbrev pub no_rid : ℕ
no_rid = 281474976645120

-- `resize` fills with zeros.
abbrev pub blank : Bytes
blank address = 0

-- The loop of the constructor, which appends each value to the bytes.
unfoldable pub append_values : Bytes → ℕ → List Value → Option (Bytes × ℕ)
append_values m size [] = some (m, size)
append_values m size (v ∷ vs) = do
  n ← get_serialized_size v
  m' ← serialize_to m size v
  append_values m' (size + n) vs

unfoldable pub new_tuple : List Value → Option Tuple
new_tuple values = do
  written ← append_values blank 0 values
  some (record { rid = no_rid; bytes = written.0; bytes_length = written.1; values = values })

-- `GetValue(column_idx)`
abbrev pub value_or_invalid : Tuple → ℕ → Value
value_or_invalid t column_idx = get_or t.values column_idx no_value

-- `GetValue(schema, column_idx)`
abbrev read_column : Tuple → Option Column → Option Value
read_column t none = none
read_column t (some column) = deserialize_from t.bytes column.offset column.type_id

unfoldable pub get_value : Tuple → Schema → ℕ → Option Value
get_value t schema column_idx =
    if ltb column_idx (length t.values)
    then get_elem? t.values column_idx
    else read_column t (get_elem? schema.columns column_idx)

-- The loop of the executors that reads a row of the table through its schema.
unfoldable pub read_from : Tuple → Schema → ℕ → ℕ → Option (List Value)
read_from t schema i zero = some []
read_from t schema i (suc n) = do
  v ← get_value t schema i
  vs ← read_from t schema (i + 1) n
  some (v ∷ vs)

abbrev pub read_row : Tuple → Schema → Option (List Value)
read_row t schema = read_from t schema 0 (length schema.columns)

-- `SerializeTo` and `DeserializeFrom`
abbrev pub tuple_serialize_to : Tuple → Bytes → ℕ → Bytes
tuple_serialize_to t dest a = write_bytes dest a (read_bytes t.bytes 0 t.bytes_length)

abbrev pub tuple_deserialize_from : Tuple → Bytes → ℕ → ℕ → Tuple
tuple_deserialize_from t src a size = record t { bytes = λ j. src (a + j); bytes_length = size }

-- `ToString`: the texts in parentheses, ", " between them.
abbrev texts : Floats → List Value → List ℕ
texts floats [] = []
texts floats (v ∷ vs) = 44 ∷ 32 ∷ to_string floats v ++ texts floats vs

abbrev row_text : Floats → List Value → List ℕ
row_text floats [] = []
row_text floats (v ∷ vs) = to_string floats v ++ texts floats vs

abbrev pub tuple_to_string : Floats → Tuple → List ℕ
tuple_to_string floats t = 40 ∷ row_text floats t.values ++ 41 ∷ []
