-- ===== src/Rows/Expressions.antt =====
-- The expressions: src/include/onebase/execution/expressions/. A child is evaluated in whichever
-- order, since neither changes a state; both are, also under AND and OR. The type that an
-- expression returns is not kept: no evaluation reads it.
use zlchen_dsaa2031_project.Prelude.{ℕ, Option, some, ◌==◌, if◌then◌else◌, ◌>>=◌}
use zlchen_dsaa2031_project.Types.{TypeId, Value, Floats}
use zlchen_dsaa2031_project.Types.Compare.{
  compare_less_than, compare_greater_than, compare_less_than_or_equal,
  compare_greater_than_or_equal, compare_equals, compare_not_equals,
}
use zlchen_dsaa2031_project.Types.Arithmetic.{
  add, subtract, multiply, divide, modulo, logical_and, logical_or,
}
use zlchen_dsaa2031_project.Rows.{Tuple, Schema, get_value}

pub data ComparisonType : Type 0 where
  equal not_equal less_than less_than_or_equal greater_than greater_than_or_equal : ComparisonType

pub data ArithmeticType : Type 0 where
  plus minus times over rest : ArithmeticType

pub data LogicType : Type 0 where
  conjunction disjunction : LogicType

pub data Expression : Type 0 where
  column_value : (tuple_idx col_idx : ℕ) (ret_type : TypeId) → Expression
  constant_value : (val : Value) → Expression
  comparison : (left right : Expression) (comp_type : ComparisonType) → Expression
  arithmetic : (left right : Expression) (arith_type : ArithmeticType) → Expression
  logic : (left right : Expression) (logic_type : LogicType) → Expression

abbrev pub perform_comparison : Floats → ComparisonType → Value → Value → Option Value
perform_comparison floats equal left right = compare_equals floats left right
perform_comparison floats not_equal left right = compare_not_equals floats left right
perform_comparison floats less_than left right = compare_less_than floats left right
perform_comparison floats less_than_or_equal left right =
    compare_less_than_or_equal floats left right
perform_comparison floats greater_than left right = compare_greater_than floats left right
perform_comparison floats greater_than_or_equal left right =
    compare_greater_than_or_equal floats left right

abbrev pub perform_computation : Floats → ArithmeticType → Value → Value → Option Value
perform_computation floats plus left right = add floats left right
perform_computation floats minus left right = subtract floats left right
perform_computation floats times left right = multiply floats left right
perform_computation floats over left right = divide floats left right
perform_computation floats rest left right = modulo left right

abbrev pub perform_logic : LogicType → Value → Value → Option Value
perform_logic conjunction left right = logical_and left right
perform_logic disjunction left right = logical_or left right

unfoldable pub evaluate : Floats → Expression → Tuple → Schema → Option Value
evaluate floats (column_value tuple_idx col_idx ret_type) tuple schema =
    get_value tuple schema col_idx
evaluate floats (constant_value val) tuple schema = some val
evaluate floats (comparison left right comp_type) tuple schema = do
  l ← evaluate floats left tuple schema
  r ← evaluate floats right tuple schema
  perform_comparison floats comp_type l r
evaluate floats (arithmetic left right arith_type) tuple schema = do
  l ← evaluate floats left tuple schema
  r ← evaluate floats right tuple schema
  perform_computation floats arith_type l r
evaluate floats (logic left right logic_type) tuple schema = do
  l ← evaluate floats left tuple schema
  r ← evaluate floats right tuple schema
  perform_logic logic_type l r

unfoldable pub evaluate_join : Floats → Expression → Tuple → Schema → Tuple → Schema → Option Value
evaluate_join floats (column_value tuple_idx col_idx ret_type) lt ls rt rs =
    if tuple_idx == 0 then get_value lt ls col_idx else get_value rt rs col_idx
evaluate_join floats (constant_value val) lt ls rt rs = some val
evaluate_join floats (comparison left right comp_type) lt ls rt rs = do
  l ← evaluate_join floats left lt ls rt rs
  r ← evaluate_join floats right lt ls rt rs
  perform_comparison floats comp_type l r
evaluate_join floats (arithmetic left right arith_type) lt ls rt rs = do
  l ← evaluate_join floats left lt ls rt rs
  r ← evaluate_join floats right lt ls rt rs
  perform_computation floats arith_type l r
evaluate_join floats (logic left right logic_type) lt ls rt rs = do
  l ← evaluate_join floats left lt ls rt rs
  r ← evaluate_join floats right lt ls rt rs
  perform_logic logic_type l r
