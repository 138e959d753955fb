-- ===== src/Execution.antt =====
-- The executors: src/execution/executors/. A child executor is the list of the rows that its `Next`
-- has still to give, and its `Init` puts the whole list back; a row is a tuple and its `RID`. An
-- exception ends a query: it is no result. `Next` is a function of the executor's state to the
-- tuple that it gives, if any, and the next state.
pub mod NestedLoop
pub mod HashJoin
pub mod Joins
pub mod Pipes
pub mod Aggregation
pub mod Sort
pub mod Changes
pub mod Tests
use zlchen_dsaa2031_project.Prelude.{
  ℕ, Option, none, some, Bool, true, false, List, [], ◌∷◌, ◌++◌, ◌>>=◌,
}
use zlchen_dsaa2031_project.Types.{Floats, Value}
use zlchen_dsaa2031_project.Types.Compare.{holds}
use zlchen_dsaa2031_project.Rows.{Tuple, Schema, new_tuple, read_row, no_rid}
use zlchen_dsaa2031_project.Rows.Expressions.{Expression, evaluate, evaluate_join}

abbrev pub Row : Type 0
Row = Tuple × ℕ

-- The default tuple, which an executor holds before its first.
abbrev pub no_tuple : Tuple
no_tuple = record { rid = no_rid; bytes = λ j. 0; bytes_length = 0; values = [] }

-- A predicate that is absent, or evaluates to true and not to NULL.
unfoldable pub passes : Floats → Option Expression → Tuple → Schema → Option Bool
passes floats none t schema = some true
passes floats (some predicate) t schema = holds (evaluate floats predicate t schema)

unfoldable pub passes_join :
    Floats → Option Expression → Tuple → Schema → Tuple → Schema → Option Bool
passes_join floats none left left_schema right right_schema = some true
passes_join floats (some predicate) left left_schema right right_schema =
    holds (evaluate_join floats predicate left left_schema right right_schema)

-- The columns of the left tuple, then those of the right.
unfoldable pub joined : Schema → Schema → Tuple → Tuple → Option Tuple
joined left_schema right_schema left right = do
  lefts ← read_row left left_schema
  rights ← read_row right right_schema
  new_tuple (lefts ++ rights)

-- A tuple before the tuples that follow it.
abbrev pub follow : Option Tuple → Option (List Tuple) → Option (List Tuple)
follow first later = do t ← first; ts ← later; some (t ∷ ts)
