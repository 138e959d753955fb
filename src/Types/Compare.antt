-- ===== src/Types/Compare.antt =====
-- The six comparisons of `Value`: src/type/value.cpp. `std::string` compares its bytes in turn.
-- No comparison looks at the mark of NULL.
use zlchen_dsaa2031_project.Prelude.{
  ℕ, ◌+◌, ◌%◌, Option, none, some, Bool, true, false, not, ◌&&◌, ◌||◌, List, [], ◌∷◌, ◌==◌, ltb,
  if◌then◌else◌, ◌>>=◌,
}
use zlchen_dsaa2031_project.Types.{
  TypeId, Value, Floats, same_type, boolean_value, truth, get_as_boolean,
}

-- `<` on `int32_t`: the pattern moved by 2 ^ 31 is the distance from the least number.
abbrev pub rank : ℕ → ℕ
rank i = (i + 2147483648) % 4294967296

abbrev pub int_less : ℕ → ℕ → Bool
int_less i j = ltb (rank i) (rank j)

-- `==` and `<` on `std::string`
unfoldable pub text_equal : List ℕ → List ℕ → Bool
text_equal [] [] = true
text_equal [] (y ∷ ys) = false
text_equal (x ∷ xs) [] = false
text_equal (x ∷ xs) (y ∷ ys) = (x == y) && text_equal xs ys

unfoldable pub text_less : List ℕ → List ℕ → Bool
text_less [] [] = false
text_less [] (y ∷ ys) = true
text_less (x ∷ xs) [] = false
text_less (x ∷ xs) (y ∷ ys) = ltb x y || ((x == y) && text_less xs ys)

abbrev same_bool : Bool → Bool → Bool
same_bool a b = if a then b else not b

-- `Value(TypeId::BOOLEAN, b)`
abbrev pub verdict : Bool → Option Value
verdict b = some (boolean_value TypeId.boolean b)

abbrev less_than : Floats → TypeId → Value → Value → Option Value
less_than floats TypeId.integer v o = verdict (int_less v.word o.word)
less_than floats TypeId.float v o = verdict (floats.float_less v.word o.word)
less_than floats TypeId.varchar v o = verdict (text_less v.text o.text)
less_than floats _ v o = none

unfoldable pub compare_less_than : Floats → Value → Value → Option Value
compare_less_than floats v o =
    if same_type v.type_id o.type_id then less_than floats v.type_id v o else none

abbrev greater_than : Floats → TypeId → Value → Value → Option Value
greater_than floats TypeId.integer v o = verdict (int_less o.word v.word)
greater_than floats TypeId.float v o = verdict (floats.float_less o.word v.word)
greater_than floats TypeId.varchar v o = verdict (text_less o.text v.text)
greater_than floats _ v o = none

unfoldable pub compare_greater_than : Floats → Value → Value → Option Value
compare_greater_than floats v o =
    if same_type v.type_id o.type_id then greater_than floats v.type_id v o else none

abbrev at_most : Floats → TypeId → Value → Value → Option Value
at_most floats TypeId.integer v o = verdict (not (int_less o.word v.word))
at_most floats TypeId.float v o = verdict (floats.float_at_most v.word o.word)
at_most floats TypeId.varchar v o = verdict (not (text_less o.text v.text))
at_most floats _ v o = none

unfoldable pub compare_less_than_or_equal : Floats → Value → Value → Option Value
compare_less_than_or_equal floats v o =
    if same_type v.type_id o.type_id then at_most floats v.type_id v o else none

abbrev at_least : Floats → TypeId → Value → Value → Option Value
at_least floats TypeId.integer v o = verdict (not (int_less v.word o.word))
at_least floats TypeId.float v o = verdict (floats.float_at_most o.word v.word)
at_least floats TypeId.varchar v o = verdict (not (text_less v.text o.text))
at_least floats _ v o = none

unfoldable pub compare_greater_than_or_equal : Floats → Value → Value → Option Value
compare_greater_than_or_equal floats v o =
    if same_type v.type_id o.type_id then at_least floats v.type_id v o else none

abbrev equals : Floats → TypeId → Value → Value → Option Value
equals floats TypeId.integer v o = verdict (v.word == o.word)
equals floats TypeId.float v o = verdict (floats.float_equal v.word o.word)
equals floats TypeId.boolean v o = verdict (same_bool (truth v) (truth o))
equals floats TypeId.varchar v o = verdict (text_equal v.text o.text)
equals floats TypeId.invalid v o = none

unfoldable pub compare_equals : Floats → Value → Value → Option Value
compare_equals floats v o =
    if same_type v.type_id o.type_id then equals floats v.type_id v o else none

abbrev differs : Floats → TypeId → Value → Value → Option Value
differs floats TypeId.integer v o = verdict (not (v.word == o.word))
differs floats TypeId.float v o = verdict (not (floats.float_equal v.word o.word))
differs floats TypeId.boolean v o = verdict (not (same_bool (truth v) (truth o)))
differs floats TypeId.varchar v o = verdict (not (text_equal v.text o.text))
differs floats TypeId.invalid v o = none

unfoldable pub compare_not_equals : Floats → Value → Value → Option Value
compare_not_equals floats v o =
    if same_type v.type_id o.type_id then differs floats v.type_id v o else none

-- `!cmp.IsNull() && cmp.GetAsBoolean()`: how the executors read a verdict.
abbrev pub holds : Option Value → Option Bool
holds result = result >>= λ v. if v.is_null then some false else get_as_boolean v
