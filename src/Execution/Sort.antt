-- ===== src/Execution/Sort.antt =====
-- `SortExecutor`: src/execution/executors/sort_executor.cpp. `std::sort` is a parameter: the standard
-- leaves the order of tuples open of which none goes first.
pub mod Order
use zlchen_dsaa2031_project.Prelude.{
  Option, none, some, Bool, true, false, not, List, [], ◌∷◌, map, if◌then◌else◌, ◌>>=◌,
}
use zlchen_dsaa2031_project.Types.{Floats, Value}
use zlchen_dsaa2031_project.Types.Compare.{compare_less_than, holds}
use zlchen_dsaa2031_project.Rows.{Tuple, Schema, no_rid}
use zlchen_dsaa2031_project.Execution.{Row}
use zlchen_dsaa2031_project.Rows.Expressions.{Expression, evaluate}

-- One key of the comparison: `later` is what the keys behind it say.
abbrev pub by_key : Floats → Bool → Value → Value → Option Bool → Option Bool
by_key floats is_ascending v o later = holds (compare_less_than floats v o) >>= λ less.
    if less
    then some is_ascending
    else (holds (compare_less_than floats o v)
        >>= (λ greater. if greater then some (not is_ascending) else later))

-- The comparison that `std::sort` is given.
unfoldable pub goes_first : Floats → Schema → List (Bool × Expression) → Tuple → Tuple → Option Bool
goes_first floats schema [] a b = some false
goes_first floats schema ((is_ascending, e) ∷ order_bys) a b =
    let later = goes_first floats schema order_bys a b in
    evaluate floats e a schema >>= λ v.
    evaluate floats e b schema >>= λ o. by_key floats is_ascending v o later

-- `Init`: the tuples of the child, sorted.
abbrev pub init :
    ((Tuple → Tuple → Option Bool) → List Tuple → Option (List Tuple))
    → Floats
    → Schema
    → List (Bool × Expression)
    → List Row
    → Option (List Tuple)
init sort floats schema order_bys rows =
    sort (goes_first floats schema order_bys) (map (λ row. row.0) rows)

-- What is left behind the cursor.
unfoldable pub next : List Tuple → Option Row × List Tuple
next [] = (none, [])
next (t ∷ ts) = (some (t, no_rid), ts)
