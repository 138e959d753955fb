-- ===== src/Execution/Aggregation/Counting.antt =====
-- COUNT(*) of a query without groups: src/execution/executors/aggregation_executor.cpp.
use zlchen_dsaa2031_project.Prelude.{
  ℕ, ◌+◌, ◌%◌, ◌<◌, ◌≡◌, refl, ◌∙◌, ap, some, List, [], ◌∷◌, length, ◌>>=◌, arith,
}
use zlchen_dsaa2031_project.Types.{TypeId, Floats, integer_value}
use zlchen_dsaa2031_project.Types.Compare.{text_equal}
use zlchen_dsaa2031_project.Types.TextMaps.{find_text, put_text}
use zlchen_dsaa2031_project.Rows.{Schema, new_tuple}
use zlchen_dsaa2031_project.Rows.Expressions.{Expression}
use zlchen_dsaa2031_project.Execution.{Row}
use zlchen_dsaa2031_project.Execution.Aggregation.{
  AggregationPlan, Groups, new_state, no_group, evaluate_keys, group_key, step_states, step_group,
  absorb, aggregate_values, group_values, group_rows, init,
}
use zlchen_dsaa2031_project.Optimizer.{count_star}

abbrev pub count_plan : Schema → List Expression → AggregationPlan
count_plan schema aggregates = record {
  group_bys = [];
  aggregates = aggregates;
  agg_types = count_star ∷ [];
  child_schema = schema;
}

abbrev counted_rows : ℕ → Groups
counted_rows n = (no_group, record new_state { counted = n } ∷ []) ∷ []

module _ (floats : Floats) (schema : Schema) (es : List Expression) where
  absorb-counted_rows :
      (rows : List Row) (n : ℕ)
      → n < 4294967296
      → absorb floats (count_plan schema es) (counted_rows n) rows
        ≡ some (counted_rows ((n + length rows) % 4294967296))
  unfolding absorb group_key evaluate_keys step_group step_states find_text put_text text_equal
  absorb-counted_rows [] n low = ap (λ k. some (counted_rows k)) (omega arith)
  absorb-counted_rows (row ∷ rows) n low =
      absorb-counted_rows rows ((n + 1) % 4294967296) (omega arith)
      ∙ ap (λ k. some (counted_rows k)) (omega arith)

  absorb-count :
      (row : Row) (rows : List Row)
      → absorb floats (count_plan schema es) [] (row ∷ rows)
        ≡ some (counted_rows (length (row ∷ rows) % 4294967296))
  unfolding absorb group_key evaluate_keys step_group step_states find_text put_text text_equal
  absorb-count row rows =
      absorb-counted_rows rows 1 (omega arith) ∙ ap (λ k. some (counted_rows k)) (omega arith)

-- COUNT(*) without groups gives one row with the number of the rows of the child, modulo 2 ^ 32, also
-- where there is none.
pub init-count :
    (floats : Floats) (schema : Schema) (es : List Expression) (rows : List Row)
    → init floats (count_plan schema es) rows ≡ (
        new_tuple (integer_value TypeId.integer (length rows % 4294967296) ∷ []) >>= λ t.
        some (t ∷ []))
unfolding init absorb aggregate_values group_rows group_values
init-count floats schema es [] = refl
init-count floats schema es (row ∷ rows) =
    ap (λ groups. groups >>= group_rows (count_plan schema es))
      (absorb-count floats schema es row rows)
