-- ===== src/Execution/HashJoin.antt =====
-- `HashJoinExecutor`: src/execution/executors/hash_join_executor.cpp. The pointer to the current
-- bucket is the bucket: the table does not change after `Init`.
pub mod Table
pub mod Output
use zlchen_dsaa2031_project.Prelude.{
  ℕ, zero, suc, ◌+◌, Option, none, some, Bool, true, false, List, [], ◌∷◌, get_elem?, if◌then◌else◌,
  ◌>>=◌,
}
use zlchen_dsaa2031_project.Types.{Floats, to_string}
use zlchen_dsaa2031_project.Types.TextMaps.{find_text, push_text}
use zlchen_dsaa2031_project.Rows.{Tuple, Schema}
use zlchen_dsaa2031_project.Rows.Expressions.{Expression, evaluate}
use zlchen_dsaa2031_project.Execution.{Row, no_tuple, joined}

pub record HashPlan : Type 0 where
  pub left_key_expr : Expression
  pub right_key_expr : Expression
  pub left_schema : Schema
  pub right_schema : Schema

pub record HashJoin : Type 0 where
  pub hash_table : List (List ℕ × List Tuple)
  pub right_executor : List Row
  pub current_bucket : Option (List Tuple)
  pub bucket_cursor : ℕ
  pub right_tuple : Tuple

-- The text of a key.
abbrev pub key_text : Floats → Expression → Tuple → Schema → Option (List ℕ)
key_text floats expr t schema = do v ← evaluate floats expr t schema; some (to_string floats v)

-- The loop of `Init` over the left rows.
unfoldable pub build :
    Floats → HashPlan → List Row → List (List ℕ × List Tuple) → Option (List (List ℕ × List Tuple))
build floats plan [] table = some table
build floats plan (row ∷ rows) table = do
  key ← key_text floats plan.left_key_expr row.0 plan.left_schema
  build floats plan rows (push_text key row.0 table)

unfoldable pub init : Floats → HashPlan → List Row → List Row → Option HashJoin
init floats plan left_rows right_rows = do
  table ← build floats plan left_rows []
  some (record {
    hash_table = table;
    right_executor = right_rows;
    current_bucket = none;
    bucket_cursor = 0;
    right_tuple = no_tuple;
  })

-- The left tuple under the cursor, while the bucket lasts.
abbrev pub under_cursor : Option (List Tuple) → ℕ → Option Tuple
under_cursor none cursor = none
under_cursor (some bucket) cursor = get_elem? bucket cursor

-- The next right row, and its bucket; the cursor stays where there is none.
abbrev pub with_bucket : HashJoin → Row → List Row → Option (List Tuple) → HashJoin
with_bucket s row rows none = record s {
  right_executor = rows;
  right_tuple = row.0;
  current_bucket = none;
}
with_bucket s row rows (some bucket) = record s {
  right_executor = rows;
  right_tuple = row.0;
  current_bucket = some bucket;
  bucket_cursor = 0;
}

unfoldable pub next : Floats → HashPlan → ℕ → HashJoin → Option (Option Tuple × HashJoin)
next floats plan zero s = none
next floats plan (suc fuel) s = elim (under_cursor s.current_bucket s.bucket_cursor) [
  | some left ↦ (do
    t ← joined plan.left_schema plan.right_schema left s.right_tuple
    some (some t, record s { bucket_cursor = s.bucket_cursor + 1 }))
  | none ↦ elim (s.right_executor) [
    | [] ↦ some (none, s)
    | row ∷ rows ↦ elim (key_text floats plan.right_key_expr row.0 plan.right_schema) [
      | none ↦ none
      | some key ↦ next floats plan fuel (with_bucket s row rows (find_text key s.hash_table))
    ]
  ]
]

unfoldable pub drain : Floats → HashPlan → ℕ → ℕ → HashJoin → Option (List Tuple)
drain floats plan fuel zero s = none
drain floats plan fuel (suc calls) s = elim (next floats plan fuel s) [
  | none ↦ none
  | some (none, s1) ↦ some []
  | some (some t, s1) ↦ (do ts ← drain floats plan fuel calls s1; some (t ∷ ts))
]
