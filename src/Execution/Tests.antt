-- ===== src/Execution/Tests.antt =====
-- Joins of two left rows and two right ones, a limit, and the comparison of a sort.
use zlchen_dsaa2031_project.Prelude.{
  ℕ, ◌⊎◌, Bool, true, false, refl, ◌≡◌, some, List, [], ◌∷◌, ◌>>=◌, arith,
}
use zlchen_dsaa2031_project.Types.{TypeId, integer_value}
use zlchen_dsaa2031_project.Types.Tests.{some_floats}
use zlchen_dsaa2031_project.Rows.{Schema, new_schema, get_value}
use zlchen_dsaa2031_project.Rows.Expressions.{
  Expression, evaluate, column_value, comparison, less_than,
}
use zlchen_dsaa2031_project.Rows.Tests.{number_row, number_column}
use zlchen_dsaa2031_project.Execution.{Row}
use zlchen_dsaa2031_project.Execution.Sort.{goes_first}
use zlchen_dsaa2031_project.Execution.Sort.Order.{HasIntegers, goes_first_weak_order}
use zlchen_dsaa2031_project.Types.Compare.{compare_less_than}
use zlchen_dsaa2031_project.Execution.NestedLoop.{JoinPlan}
use zlchen_dsaa2031_project.Execution.NestedLoop as NestedLoop
use zlchen_dsaa2031_project.Execution.NestedLoop.Output.{nested_loop, rounds, drain-nested_loop}
use zlchen_dsaa2031_project.Execution.HashJoin.{HashPlan}
use zlchen_dsaa2031_project.Execution.HashJoin as HashJoin
use zlchen_dsaa2031_project.Execution.HashJoin.Output.{hash_join, hash_rounds, drain-hash_join}

abbrev pub numbers : Schema
numbers = new_schema (number_column ∷ [])

abbrev pub left_rows : List Row
left_rows = (number_row 1, 1) ∷ (number_row 2, 2) ∷ []

abbrev pub right_rows : List Row
right_rows = (number_row 2, 3) ∷ (number_row 3, 4) ∷ []

abbrev less_plan : JoinPlan
less_plan = record {
  predicate =
      some
        (comparison (column_value 0 0 TypeId.integer) (column_value 1 0 TypeId.integer) less_than);
  left_schema = numbers;
  right_schema = numbers;
  right_rows = right_rows;
}

drain-nested_loop_example :
    NestedLoop.drain some_floats less_plan 7 7 (NestedLoop.init less_plan left_rows)
    ≡ nested_loop some_floats less_plan left_rows
unfolding rounds
drain-nested_loop_example =
    drain-nested_loop some_floats less_plan left_rows 7 7 (omega arith) (omega arith)

abbrev key_plan : HashPlan
key_plan = record {
  left_key_expr = column_value 0 0 TypeId.integer;
  right_key_expr = column_value 0 0 TypeId.integer;
  left_schema = numbers;
  right_schema = numbers;
}

drain-hash_join_example :
    (HashJoin.init some_floats key_plan left_rows right_rows >>= λ s.
    HashJoin.drain some_floats key_plan 7 7 s)
    ≡ hash_join some_floats key_plan left_rows right_rows
unfolding hash_rounds
drain-hash_join_example =
    drain-hash_join some_floats key_plan left_rows right_rows 7 7 (omega arith) (omega arith)

abbrev descending : List (Bool × Expression)
descending = (false, column_value 0 0 TypeId.integer) ∷ []

number_row-HasIntegers :
    (i : ℕ) → HasIntegers some_floats numbers descending (number_row i) (i ∷ [])
unfolding evaluate get_value
number_row-HasIntegers i = ((integer_value TypeId.integer i, (refl, refl, refl)), tt)

goes_first_weak_order_example :
    (goes_first some_floats numbers descending (number_row 1) (number_row 3) ≡ some false)
    × ((goes_first some_floats numbers descending (number_row 3) (number_row 2) ≡ some true)
        ⊎ (goes_first some_floats numbers descending (number_row 2) (number_row 1) ≡ some true))
unfolding goes_first evaluate get_value compare_less_than
goes_first_weak_order_example =
    goes_first_weak_order some_floats numbers descending (number_row 3) (number_row 1)
      (number_row 2) (3 ∷ []) (1 ∷ []) (2 ∷ []) (number_row-HasIntegers 3)
      (number_row-HasIntegers 1) (number_row-HasIntegers 2) refl
