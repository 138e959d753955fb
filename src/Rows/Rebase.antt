-- ===== src/Rows/Rebase.antt =====
-- The expressions of a join and the row that the join puts out:
-- src/include/onebase/execution/expressions/.
use zlchen_dsaa2031_project.Prelude.{
  ℕ, zero, suc, ◌+◌, ◌≡◌, refl, Bool, true, ◌&&◌, List, [], ◌∷◌, ◌++◌, ◌==◌, ltb, length, get_elem?,
  length-append, if◌then◌else◌, arith,
}
use zlchen_dsaa2031_project.Types.{Floats}
use zlchen_dsaa2031_project.Rows.{Tuple, Schema, get_value}
use zlchen_dsaa2031_project.Rows.Expressions.{
  Expression, column_value, constant_value, comparison, arithmetic, logic, evaluate, evaluate_join,
}

-- The expression over the joined row, whose first `width` columns are those of the left tuple.
unfoldable pub rebase : ℕ → Expression → Expression
rebase width (column_value tuple_idx col_idx ret_type) =
    column_value 0 (if tuple_idx == 0 then col_idx else width + col_idx) ret_type
rebase width (constant_value val) = constant_value val
rebase width (comparison left right comp_type) =
    comparison (rebase width left) (rebase width right) comp_type
rebase width (arithmetic left right arith_type) =
    arithmetic (rebase width left) (rebase width right) arith_type
rebase width (logic left right logic_type) =
    logic (rebase width left) (rebase width right) logic_type

-- Each column of the expression is one of its tuple's.
unfoldable pub in_range : ℕ → ℕ → Expression → Bool
in_range left_width right_width (column_value tuple_idx col_idx ret_type) =
    ltb col_idx (if tuple_idx == 0 then left_width else right_width)
in_range left_width right_width (constant_value val) = true
in_range left_width right_width (comparison left right comp_type) =
    in_range left_width right_width left && in_range left_width right_width right
in_range left_width right_width (arithmetic left right arith_type) =
    in_range left_width right_width left && in_range left_width right_width right
in_range left_width right_width (logic left right logic_type) =
    in_range left_width right_width left && in_range left_width right_width right

module _ {ℓ} {A : Type ℓ} where
  pub get_elem?-left :
      (xs ys : List A) (i : ℕ) → ltb i (length xs) ≡ true → get_elem? (xs ++ ys) i ≡ get_elem? xs i
  get_elem?-left [] ys i h = ground arith
  get_elem?-left (x ∷ xs) ys zero h = refl
  get_elem?-left (x ∷ xs) ys (suc i) h = get_elem?-left xs ys i (ground arith)

  pub get_elem?-right :
      (xs ys : List A) (i : ℕ) → get_elem? (xs ++ ys) (length xs + i) ≡ get_elem? ys i
  get_elem?-right [] ys i = ground arith
  get_elem?-right (x ∷ xs) ys i = ground (arith, get_elem?-right xs ys i)

-- The predicate of a join holds of two tuples as it holds, over the columns side by side, of the
-- row that has the values of both: for an expression whose columns are in range, and tuples that
-- hold their values, the two evaluations have one result, an exception included.
pub evaluate-rebase :
    (floats : Floats) (e : Expression) (lt rt both : Tuple) (ls rs bs : Schema)
    → in_range (length lt.values) (length rt.values) e ≡ true
    → both.values ≡ lt.values ++ rt.values
    → evaluate floats (rebase (length lt.values) e) both bs ≡ evaluate_join floats e lt ls rt rs
unfolding evaluate evaluate_join rebase in_range get_value
evaluate-rebase floats (column_value tuple_idx col_idx ret_type) lt rt both ls rs bs h joined =
    ground (
      arith,
      length-append lt.values rt.values,
      get_elem?-left lt.values rt.values col_idx,
      get_elem?-right lt.values rt.values col_idx,
    )
evaluate-rebase floats (constant_value val) lt rt both ls rs bs h joined = refl
evaluate-rebase floats (comparison left right comp_type) lt rt both ls rs bs h joined = rw (
  evaluate-rebase floats left lt rt both ls rs bs (ground arith) joined,
  evaluate-rebase floats right lt rt both ls rs bs (ground arith) joined,
)
evaluate-rebase floats (arithmetic left right arith_type) lt rt both ls rs bs h joined = rw (
  evaluate-rebase floats left lt rt both ls rs bs (ground arith) joined,
  evaluate-rebase floats right lt rt both ls rs bs (ground arith) joined,
)
evaluate-rebase floats (logic left right logic_type) lt rt both ls rs bs h joined = rw (
  evaluate-rebase floats left lt rt both ls rs bs (ground arith) joined,
  evaluate-rebase floats right lt rt both ls rs bs (ground arith) joined,
)
