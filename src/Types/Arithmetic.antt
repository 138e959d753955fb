-- ===== src/Types/Arithmetic.antt =====
-- The arithmetic and the logic of `Value`: src/type/value.cpp. Division of `int32_t` goes towards
-- 0, and the quotient of the least number by -1 stops the program, as a division by 0 does.
use zlchen_dsaa2031_project.Prelude.{
  ℕ, ◌+◌, ◌-◌, ◌*◌, ◌/◌, ◌%◌, Option, none, some, Bool, not, ◌&&◌, ◌||◌, ◌==◌, is_negative, negate,
  magnitude, if◌then◌else◌,
}
use zlchen_dsaa2031_project.Types.{
  TypeId, Value, Floats, same_type, boolean_value, integer_value, float_value, truth,
}

abbrev number : ℕ → Option Value
number i = some (integer_value TypeId.integer i)

abbrev real : ℕ → Option Value
real f = some (float_value TypeId.float f)

-- `/` on `int32_t`
unfoldable pub int_divide : ℕ → ℕ → Option ℕ
int_divide i j =
    let quotient = magnitude i / magnitude j in
    if j == 0
    then none
    else if (i == 2147483648) && (j == 4294967295)
    then none
    else if is_negative i
    then some (if is_negative j then quotient else negate quotient)
    else some (if is_negative j then negate quotient else quotient)

-- `%` on `int32_t`: the sign is that of the dividend.
unfoldable pub int_modulo : ℕ → ℕ → Option ℕ
int_modulo i j =
    let remainder = magnitude i % magnitude j in
    if j == 0
    then none
    else if (i == 2147483648) && (j == 4294967295)
    then none
    else some (if is_negative i then negate remainder else remainder)

abbrev plus : Floats → TypeId → Value → Value → Option Value
plus floats TypeId.integer v o = number ((v.word + o.word) % 4294967296)
plus floats TypeId.float v o = real (floats.float_add v.word o.word)
plus floats _ v o = none

unfoldable pub add : Floats → Value → Value → Option Value
add floats v o = if same_type v.type_id o.type_id then plus floats v.type_id v o else none

abbrev minus : Floats → TypeId → Value → Value → Option Value
minus floats TypeId.integer v o = number ((v.word + 4294967296 - o.word) % 4294967296)
minus floats TypeId.float v o = real (floats.float_subtract v.word o.word)
minus floats _ v o = none

unfoldable pub subtract : Floats → Value → Value → Option Value
subtract floats v o = if same_type v.type_id o.type_id then minus floats v.type_id v o else none

abbrev times : Floats → TypeId → Value → Value → Option Value
times floats TypeId.integer v o = number (v.word * o.word % 4294967296)
times floats TypeId.float v o = real (floats.float_multiply v.word o.word)
times floats _ v o = none

unfoldable pub multiply : Floats → Value → Value → Option Value
multiply floats v o = if same_type v.type_id o.type_id then times floats v.type_id v o else none

abbrev to_number : Option ℕ → Option Value
to_number none = none
to_number (some i) = number i

-- The pattern 0 is 0.0f.
abbrev over : Floats → TypeId → Value → Value → Option Value
over floats TypeId.integer v o = to_number (int_divide v.word o.word)
over floats TypeId.float v o =
    if floats.float_equal o.word 0 then none else real (floats.float_divide v.word o.word)
over floats _ v o = none

unfoldable pub divide : Floats → Value → Value → Option Value
divide floats v o = if same_type v.type_id o.type_id then over floats v.type_id v o else none

abbrev rest_of : TypeId → Value → Value → Option Value
rest_of TypeId.integer v o = to_number (int_modulo v.word o.word)
rest_of _ v o = none

unfoldable pub modulo : Value → Value → Option Value
modulo v o = if same_type v.type_id o.type_id then rest_of v.type_id v o else none

abbrev both_boolean : Value → Value → Bool
both_boolean v o = same_type v.type_id TypeId.boolean && same_type o.type_id TypeId.boolean

-- `And`, `Or` and `Not`, and their names in `LogicExpression`.
unfoldable pub logical_and : Value → Value → Option Value
logical_and v o =
    if both_boolean v o then some (boolean_value TypeId.boolean (truth v && truth o)) else none

unfoldable pub logical_or : Value → Value → Option Value
logical_or v o =
    if both_boolean v o then some (boolean_value TypeId.boolean (truth v || truth o)) else none

unfoldable pub logical_not : Value → Option Value
logical_not v =
    if same_type v.type_id TypeId.boolean
    then some (boolean_value TypeId.boolean (not (truth v)))
    else none
