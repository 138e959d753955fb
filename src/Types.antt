-- ===== src/Types.antt =====
-- `Value` and its types: src/include/onebase/type/value.h, type_id.h and src/type/value.cpp,
-- type.cpp. A value is its type, the word that the union of `integer_`, `float_` and `boolean_`
-- is, its text as bytes, and the mark of NULL. An `int32_t` is its 32-bit pattern in two's
-- complement, and a sum that overflows wraps. An operation that throws has no result.
pub mod Compare
pub mod Arithmetic
pub mod Serial
pub mod Stored
pub mod Order
pub mod TextMaps
pub mod Orders
pub mod Division
pub mod Tests
use zlchen_dsaa2031_project.Prelude.{
  ℕ, ◌+◌, ◌*◌, ◌%◌, ◌≡◌, Option, none, some, Bool, true, false, not, List, [], ◌∷◌, ◌==◌, decimal,
  if◌then◌else◌,
}

pub data TypeId : Type 0 where
  invalid boolean integer float varchar : TypeId

pub record Value : Type 0 where
  pub type_id : TypeId
  pub word : ℕ
  pub text : List ℕ
  pub is_null : Bool

-- The operations of the machine on `float`, by the 32-bit patterns of the numbers, and what
-- `fmt::format` prints with "{:.2f}".
pub record Floats : Type 0 where
  pub float_less : ℕ → ℕ → Bool
  pub float_at_most : ℕ → ℕ → Bool
  pub float_equal : ℕ → ℕ → Bool
  pub float_add : ℕ → ℕ → ℕ
  pub float_subtract : ℕ → ℕ → ℕ
  pub float_multiply : ℕ → ℕ → ℕ
  pub float_divide : ℕ → ℕ → ℕ
  pub float_text : ℕ → List ℕ

-- `type_id_ == o.type_id_`
abbrev pub same_type : TypeId → TypeId → Bool
same_type invalid invalid = true
same_type boolean boolean = true
same_type integer integer = true
same_type float float = true
same_type varchar varchar = true
same_type _ _ = false

abbrev pub no_value : Value
no_value = record { type_id = invalid; word = 0; text = []; is_null = true }

abbrev pub null_value : TypeId → Value
null_value type = record { type_id = type; word = 0; text = []; is_null = true }

abbrev pub integer_value : TypeId → ℕ → Value
integer_value type i = record { type_id = type; word = i; text = []; is_null = false }

abbrev pub float_value : TypeId → ℕ → Value
float_value type f = record { type_id = type; word = f; text = []; is_null = false }

-- The low byte of the union is 1 or 0.
abbrev pub bool_word : Bool → ℕ
bool_word b = if b then 1 else 0

abbrev pub boolean_value : TypeId → Bool → Value
boolean_value type b = record { type_id = type; word = bool_word b; text = []; is_null = false }

abbrev pub varchar_value : TypeId → List ℕ → Value
varchar_value type s = record { type_id = type; word = 0; text = s; is_null = false }

-- `boolean_`, the low byte of the union.
abbrev pub truth : Value → Bool
truth v = not (v.word % 256 == 0)

abbrev pub get_as_integer : Value → Option ℕ
get_as_integer v = if same_type v.type_id integer then some v.word else none

abbrev pub get_as_float : Value → Option ℕ
get_as_float v = if same_type v.type_id float then some v.word else none

abbrev pub get_as_boolean : Value → Option Bool
get_as_boolean v = if same_type v.type_id boolean then some (truth v) else none

abbrev pub get_as_string : Value → Option (List ℕ)
get_as_string v = if same_type v.type_id varchar then some v.text else none

-- The bytes of "true", "false", "NULL" and "<INVALID>".
abbrev true_text : List ℕ
true_text = 116 ∷ 114 ∷ 117 ∷ 101 ∷ []

abbrev false_text : List ℕ
false_text = 102 ∷ 97 ∷ 108 ∷ 115 ∷ 101 ∷ []

abbrev pub null_text : List ℕ
null_text = 78 ∷ 85 ∷ 76 ∷ 76 ∷ []

abbrev invalid_text : List ℕ
invalid_text = 60 ∷ 73 ∷ 78 ∷ 86 ∷ 65 ∷ 76 ∷ 73 ∷ 68 ∷ 62 ∷ []

abbrev payload_text : Floats → TypeId → Value → List ℕ
payload_text floats boolean v = if truth v then true_text else false_text
payload_text floats integer v = decimal v.word
payload_text floats float v = floats.float_text v.word
payload_text floats varchar v = v.text
payload_text floats invalid v = invalid_text

abbrev pub to_string : Floats → Value → List ℕ
to_string floats v = if v.is_null then null_text else payload_text floats v.type_id v

-- `Type::GetTypeSize` and `Type::IsCoercableTo`
abbrev pub get_type_size : TypeId → Option ℕ
get_type_size boolean = some 1
get_type_size integer = some 4
get_type_size float = some 4
get_type_size varchar = some 0
get_type_size invalid = none

abbrev pub is_coercable_to : TypeId → TypeId → Bool
is_coercable_to from target =
    if same_type from target
    then true
    else if same_type from integer
    then same_type target float
    else false
