-- ===== src/Execution/NestedLoop.antt =====
-- `NestedLoopJoinExecutor`: src/execution/executors/nested_loop_join_executor.cpp.
pub mod Output
use zlchen_dsaa2031_project.Prelude.{
  ℕ, zero, suc, Option, none, some, Bool, true, false, List, [], ◌∷◌, if◌then◌else◌, ◌>>=◌,
}
use zlchen_dsaa2031_project.Types.{Floats}
use zlchen_dsaa2031_project.Rows.{Tuple, Schema}
use zlchen_dsaa2031_project.Rows.Expressions.{Expression}
use zlchen_dsaa2031_project.Execution.{Row, no_tuple, passes_join, joined}

-- The plan's predicate, the children's schemas, and the rows of the right child, which is started
-- again for every row of the left one.
pub record JoinPlan : Type 0 where
  pub predicate : Option Expression
  pub left_schema : Schema
  pub right_schema : Schema
  pub right_rows : List Row

pub record NestedLoop : Type 0 where
  pub left_executor : List Row
  pub right_executor : List Row
  pub left_tuple : Tuple
  pub has_left_tuple : Bool

abbrev pub init : JoinPlan → List Row → NestedLoop
init plan left_rows = record {
  left_executor = left_rows;
  right_executor = plan.right_rows;
  left_tuple = no_tuple;
  has_left_tuple = false;
}

-- The start of a round: the next left row, if one is missing. No state: there is none.
abbrev pub next_left : JoinPlan → NestedLoop → List Row → Option NestedLoop
next_left plan s [] = none
next_left plan s (row ∷ rows) = some (record {
  left_executor = rows;
  right_executor = plan.right_rows;
  left_tuple = row.0;
  has_left_tuple = true;
})

abbrev pub with_left : JoinPlan → NestedLoop → Option NestedLoop
with_left plan s = if s.has_left_tuple then some s else next_left plan s s.left_executor

-- What a round does: it gives a tuple, or the loop goes on from a state.
pub data Round : Type 0 where
  gives : (tuple : Tuple) (after : NestedLoop) → Round
  goes_on : (after : NestedLoop) → Round

-- The tuple of a pair that the predicate selects.
abbrev pub give : JoinPlan → NestedLoop → Tuple → List Row → Bool → Option Round
give plan s right rows false = some (goes_on (record s { right_executor = rows }))
give plan s right rows true = do
  t ← joined plan.left_schema plan.right_schema s.left_tuple right
  some (gives t (record s { right_executor = rows }))

abbrev pub try_right : Floats → JoinPlan → NestedLoop → List Row → Option Round
try_right floats plan s [] = some (goes_on (record s { has_left_tuple = false }))
try_right floats plan s (row ∷ rows) = do
  selected ← passes_join floats plan.predicate s.left_tuple plan.left_schema row.0 plan.right_schema
  give plan s row.0 rows selected

-- `while (true)`, by rounds. Without fuel there is no result; `next_lem` bounds the rounds.
unfoldable pub next : Floats → JoinPlan → ℕ → NestedLoop → Option (Option Tuple × NestedLoop)
next floats plan zero s = none
next floats plan (suc fuel) s = elim (with_left plan s) [
  | none ↦ some (none, s)
  | some s1 ↦ elim (try_right floats plan s1 s1.right_executor) [
    | none ↦ none
    | some (gives t s2) ↦ some (some t, s2)
    | some (goes_on s2) ↦ next floats plan fuel s2
  ]
]

-- `Next` until it returns false, at most so many times.
unfoldable pub drain : Floats → JoinPlan → ℕ → ℕ → NestedLoop → Option (List Tuple)
drain floats plan fuel zero s = none
drain floats plan fuel (suc calls) s = elim (next floats plan fuel s) [
  | none ↦ none
  | some (none, s1) ↦ some []
  | some (some t, s1) ↦ (do ts ← drain floats plan fuel calls s1; some (t ∷ ts))
]
