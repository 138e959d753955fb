-- ===== src/Optimizer/Tests.antt =====
-- The join of two tables on their first columns, with the column of the right table written first.
use zlchen_dsaa2031_project.Prelude.{◌≡◌, refl, true, some, arith}
use zlchen_dsaa2031_project.Types.{TypeId}
use zlchen_dsaa2031_project.Types.Tests.{some_floats}
use zlchen_dsaa2031_project.Rows.Expressions.{column_value}
use zlchen_dsaa2031_project.Execution.NestedLoop.Output.{nested_loop}
use zlchen_dsaa2031_project.Execution.HashJoin.Output.{hash_join}
use zlchen_dsaa2031_project.Execution.Joins.{SameRows}
use zlchen_dsaa2031_project.Execution.Tests.{numbers, left_rows, right_rows}
use zlchen_dsaa2031_project.Optimizer.{Plan, seq_scan, nested_loop_join, optimize_nested_loop_join}
use zlchen_dsaa2031_project.Optimizer.{hash_join as hash_join_plan}
use zlchen_dsaa2031_project.Optimizer.Joins.{
  key_predicate, nested_plan, hash_plan, optimize_nested_loop_join-SameRows,
}
use zlchen_dsaa2031_project.Prelude.{none}

abbrev scan : Plan
scan = seq_scan numbers 1 none

optimize_nested_loop_join-SameRows_example :
    (optimize_nested_loop_join (
        nested_loop_join numbers scan scan
          (some (key_predicate true 0 TypeId.integer 0 TypeId.integer)))
      ≡ hash_join_plan numbers scan scan
          (column_value 0 0 TypeId.integer)
          (column_value 0 0 TypeId.integer))
    × SameRows
        (nested_loop some_floats
          (nested_plan true 0 TypeId.integer 0 TypeId.integer numbers numbers right_rows)
          left_rows)
        (hash_join some_floats
          (hash_plan 0 TypeId.integer 0 TypeId.integer numbers numbers)
          left_rows
          right_rows)
optimize_nested_loop_join-SameRows_example =
    optimize_nested_loop_join-SameRows some_floats true 0 TypeId.integer 0 TypeId.integer numbers
      numbers numbers scan scan left_rows right_rows
      ((refl, refl, refl, omega arith), ((refl, refl, refl, omega arith), tt))
      ((refl, refl, refl, omega arith), ((refl, refl, refl, omega arith), tt))
