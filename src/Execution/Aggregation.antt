-- ===== src/Execution/Aggregation.antt =====
-- `AggregationExecutor`: src/execution/executors/aggregation_executor.cpp. The order in which the
-- hash table is iterated is that of its association list; a group is found by the text of its key.
pub mod Groups
pub mod States
pub mod Summary
pub mod Keys
pub mod Counting
pub mod Tests
use zlchen_dsaa2031_project.Prelude.{
  ℕ, zero, suc, ◌+◌, ◌%◌, Option, none, some, Bool, true, false, List, [], ◌∷◌, ◌++◌, ◌==◌, get_or,
  get_elem?, map, length, ◌&&◌, if◌then◌else◌, ◌>>=◌, stoi,
}
use zlchen_dsaa2031_project.Types.{
  TypeId, Value, Floats, no_value, null_text, null_value, integer_value, varchar_value, to_string,
}
use zlchen_dsaa2031_project.Types.Compare.{
  compare_less_than, compare_greater_than, holds, text_equal,
}
use zlchen_dsaa2031_project.Types.Arithmetic.{add}
use zlchen_dsaa2031_project.Types.TextMaps.{find_text, put_text}
use zlchen_dsaa2031_project.Rows.{Tuple, Schema, new_tuple, no_rid}
use zlchen_dsaa2031_project.Rows.Expressions.{Expression, evaluate}
use zlchen_dsaa2031_project.Execution.{Row}
use zlchen_dsaa2031_project.Optimizer.{AggregationType, count_star, count, sum, min, max}

pub record AggregateState : Type 0 where
  pub counted : ℕ
  pub total : Value
  pub least : Value
  pub greatest : Value
  pub has_value : Bool

abbrev pub new_state : AggregateState
new_state = record {
  counted = 0;
  total = no_value;
  least = no_value;
  greatest = no_value;
  has_value = false;
}

pub record AggregationPlan : Type 0 where
  pub group_bys : List Expression
  pub aggregates : List Expression
  pub agg_types : List AggregationType
  pub child_schema : Schema

-- `count++` on an `int32_t`, as a 32-bit pattern.
abbrev pub count_one : AggregateState → AggregateState
count_one state = record state { counted = (state.counted + 1) % 4294967296 }

-- What a value that is not NULL does to the state, by the aggregate.
abbrev first_value : AggregationType → AggregateState → Value → AggregateState
first_value sum state v = record state { total = v; has_value = true }
first_value min state v = record state { least = v; has_value = true }
first_value max state v = record state { greatest = v; has_value = true }
first_value _ state v = state

abbrev next_value : Floats → AggregationType → AggregateState → Value → Option AggregateState
next_value floats sum state v = add floats state.total v >>= λ t. some (record state { total = t })
next_value floats min state v = holds (compare_less_than floats v state.least) >>= λ less.
    some (if less then record state { least = v } else state)
next_value floats max state v = holds (compare_greater_than floats v state.greatest) >>= λ greater.
    some (if greater then record state { greatest = v } else state)
next_value floats _ state v = some state

abbrev take_value : Floats → AggregationType → AggregateState → Value → Option AggregateState
take_value floats count state v = some (count_one state)
take_value floats type state v =
    if state.has_value then next_value floats type state v else some (first_value type state v)

-- One aggregate of one row. COUNT(*) does not look at its expression.
abbrev pub step_state :
    Floats
    → Schema
    → Tuple
    → AggregationType
    → Option Expression
    → AggregateState
    → Option AggregateState
step_state floats schema t count_star e state = some (count_one state)
step_state floats schema t type none state = none
step_state floats schema t type (some e) state = evaluate floats e t schema >>= λ v.
    if v.is_null then some state else take_value floats type state v

abbrev head : List Expression → Option Expression
head [] = none
head (e ∷ es) = some e

abbrev tail : List Expression → List Expression
tail [] = []
tail (e ∷ es) = es

-- The loop over the aggregates of a group.
unfoldable pub step_states :
    Floats
    → Schema
    → Tuple
    → List AggregationType
    → List Expression
    → List AggregateState
    → Option (List AggregateState)
step_states floats schema t [] es states = some states
step_states floats schema t (type ∷ types) es [] = none
step_states floats schema t (type ∷ types) es (state ∷ states) = do
  state' ← step_state floats schema t type (head es) state
  states' ← step_states floats schema t types (tail es) states
  some (state' ∷ states')

-- The text of the key: each value and a bar behind it.
unfoldable pub key_of_values : Floats → List Value → List ℕ
key_of_values floats [] = []
key_of_values floats (v ∷ vs) = to_string floats v ++ 124 ∷ key_of_values floats vs

unfoldable pub evaluate_keys : Floats → Schema → Tuple → List Expression → Option (List Value)
evaluate_keys floats schema t [] = some []
evaluate_keys floats schema t (e ∷ es) = do
  v ← evaluate floats e t schema
  vs ← evaluate_keys floats schema t es
  some (v ∷ vs)

-- "__no_group__"
abbrev pub no_group : List ℕ
no_group = 95 ∷ 95 ∷ 110 ∷ 111 ∷ 95 ∷ 103 ∷ 114 ∷ 111 ∷ 117 ∷ 112 ∷ 95 ∷ 95 ∷ []

abbrev key_or_none : Floats → List Value → List ℕ
key_or_none floats [] = no_group
key_or_none floats (v ∷ vs) = key_of_values floats (v ∷ vs)

unfoldable pub group_key : Floats → AggregationPlan → Tuple → Option (List ℕ)
group_key floats plan t =
    evaluate_keys floats plan.child_schema t plan.group_bys >>= λ vs. some (key_or_none floats vs)

abbrev pub Groups : Type 0
Groups = List (List ℕ × List AggregateState)

abbrev pub states_or_new : AggregationPlan → Option (List AggregateState) → List AggregateState
states_or_new plan none = map (λ type. new_state) plan.agg_types
states_or_new plan (some states) = states

-- A row, and the loop over the rows of the child.
unfoldable pub step_group :
    Floats → AggregationPlan → Tuple → Option (List AggregateState) → Option (List AggregateState)
step_group floats plan t found =
    step_states floats plan.child_schema t plan.agg_types plan.aggregates (states_or_new plan found)

unfoldable pub absorb : Floats → AggregationPlan → Groups → List Row → Option Groups
absorb floats plan groups [] = some groups
absorb floats plan groups (row ∷ rows) = do
  key ← group_key floats plan row.0
  states ← step_group floats plan row.0 (find_text key groups)
  absorb floats plan (put_text key states groups) rows

abbrev is_empty : {A : Type 0} → List A → Bool
is_empty [] = true
is_empty (x ∷ xs) = false

-- The text up to a bar, and what is behind the bar.
unfoldable pub cut_bar : List ℕ → List ℕ × Option (List ℕ)
cut_bar [] = ([], none)
cut_bar (c ∷ cs) =
    let (text, rest) = cut_bar cs in if c == 124 then ([], some cs) else (c ∷ text, rest)

-- The value that is made of a part of the key.
unfoldable pub group_value : List ℕ → Value
group_value text =
    if text_equal text null_text then null_value TypeId.integer else elim (stoi text) [
      | some i ↦ integer_value TypeId.integer i
      | none ↦ varchar_value TypeId.varchar text
    ]

-- Without a bar the position is `npos`, and the next search starts at 0.
abbrev pub behind : List ℕ → Option (List ℕ) → List ℕ
behind whole none = whole
behind whole (some rest) = rest

unfoldable pub group_values : ℕ → List ℕ → List ℕ → List Value
group_values zero whole key = []
group_values (suc n) whole key =
    let (text, rest) = cut_bar key in group_value text ∷ group_values n whole (behind whole rest)

abbrev if_seen : AggregateState → Value → Value
if_seen state v = if state.has_value then v else null_value TypeId.integer

abbrev pub aggregate_value : AggregationType → AggregateState → Value
aggregate_value count_star state = integer_value TypeId.integer state.counted
aggregate_value count state = integer_value TypeId.integer state.counted
aggregate_value sum state = if_seen state state.total
aggregate_value min state = if_seen state state.least
aggregate_value max state = if_seen state state.greatest

unfoldable pub aggregate_values : List AggregationType → List AggregateState → List Value
aggregate_values (type ∷ types) (state ∷ states) =
    aggregate_value type state ∷ aggregate_values types states
aggregate_values _ _ = []

abbrev pub group_row : AggregationPlan → List ℕ × List AggregateState → Option Tuple
group_row plan group = new_tuple (
    group_values (length plan.group_bys) group.0 group.0 ++ aggregate_values plan.agg_types group.1)

unfoldable pub group_rows : AggregationPlan → Groups → Option (List Tuple)
group_rows plan [] = some []
group_rows plan (group ∷ groups) = do
  t ← group_row plan group
  ts ← group_rows plan groups
  some (t ∷ ts)

-- Without input and groups there is one row: the counts are 0, all else NULL.
abbrev pub result_tuples : AggregationPlan → List Row → Groups → Option (List Tuple)
result_tuples plan rows groups =
    if is_empty rows && is_empty plan.group_bys
    then new_tuple (aggregate_values plan.agg_types (states_or_new plan none))
      >>= (λ t. some (t ∷ []))
    else group_rows plan groups

unfoldable pub init : Floats → AggregationPlan → List Row → Option (List Tuple)
init floats plan rows = absorb floats plan [] rows >>= λ groups. result_tuples plan rows groups

-- What is left behind the cursor.
unfoldable pub next : List Tuple → Option Row × List Tuple
next [] = (none, [])
next (t ∷ ts) = (some (t, no_rid), ts)
