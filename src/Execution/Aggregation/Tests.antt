-- ===== src/Execution/Aggregation/Tests.antt =====
-- Aggregations over two rows.
use zlchen_dsaa2031_project.Prelude.{
  decimal, ◌≡◌, refl, Option, none, some, List, [], ◌∷◌, map, arith,
}
use zlchen_dsaa2031_project.Types.{TypeId, Value, integer_value}
use zlchen_dsaa2031_project.Types.Tests.{some_floats}
use zlchen_dsaa2031_project.Types.TextMaps.{find_text, put_text}
use zlchen_dsaa2031_project.Types.Compare.{text_equal}
use zlchen_dsaa2031_project.Rows.{get_value}
use zlchen_dsaa2031_project.Rows.Expressions.{Expression, column_value, evaluate}
use zlchen_dsaa2031_project.Execution.Tests.{numbers, left_rows}
use zlchen_dsaa2031_project.Execution.Aggregation.{
  Groups, absorb, evaluate_keys, group_key, step_group, step_states, group_values, key_of_values,
}
use zlchen_dsaa2031_project.Execution.Aggregation.Summary.{
  five_aggregates, tally, HaveValues, IsEntry, absorb-IsEntry,
}
use zlchen_dsaa2031_project.Execution.Aggregation.Keys.{
  integer_key, text_key, group_values-key_of_values,
}

-- The aggregates of the first column by itself.
abbrev first_column : Expression
first_column = column_value 0 0 TypeId.integer

abbrev or_empty : Option Groups → Groups
or_empty none = []
or_empty (some groups) = groups

abbrev own_groups : Groups
unfolding absorb
own_groups =
    or_empty (absorb some_floats (five_aggregates numbers first_column first_column) [] left_rows)

abbrev own_values : List (Value × Value)
own_values =
    (integer_value TypeId.integer 1, integer_value TypeId.integer 1)
    ∷ (integer_value TypeId.integer 2, integer_value TypeId.integer 2)
    ∷ []

-- "1|"
absorb-IsEntry_example :
    IsEntry
      (tally some_floats (49 ∷ 124 ∷ []) own_values 0 []).0
      (tally some_floats (49 ∷ 124 ∷ []) own_values 0 []).1
      (find_text (49 ∷ 124 ∷ []) own_groups)
unfolding HaveValues absorb evaluate_keys group_key step_group step_states key_of_values find_text
    put_text text_equal evaluate get_value decimal
absorb-IsEntry_example =
    absorb-IsEntry some_floats numbers first_column first_column (49 ∷ 124 ∷ []) left_rows
      own_values own_groups ((refl, refl, refl, omega arith), ((refl, refl, refl, omega arith), tt))
      refl

group_values-key_of_values_example :
    (group_values 2
        (key_of_values some_floats (map integer_key (some 7 ∷ none ∷ [])))
        (key_of_values some_floats (map integer_key (some 7 ∷ none ∷ [])))
      ≡ map integer_key (some 7 ∷ none ∷ []))
    × (key_of_values some_floats (map text_key (some 7 ∷ none ∷ []))
        ≡ key_of_values some_floats (map integer_key (some 7 ∷ none ∷ [])))
group_values-key_of_values_example =
    group_values-key_of_values some_floats (some 7 ∷ none ∷ []) (omega arith, (tt, tt))
