-- ===== src/Execution/NestedLoop/Output.antt =====
-- The whole output of a nested loop join: src/execution/executors/nested_loop_join_executor.cpp.
use zlchen_dsaa2031_project.Prelude.{
  ℕ, zero, suc, ◌+◌, ◌<◌, ◌≤◌, ◌≡◌, refl, ◌∙◌, ◌⊎◌, inl, inr, Option, none, some, Bool, true, false,
  List, [], ◌∷◌, length, if◌then◌else◌, ◌>>=◌, Option-cases, arith,
}
use zlchen_dsaa2031_project.Types.{Floats}
use zlchen_dsaa2031_project.Rows.{Tuple}
use zlchen_dsaa2031_project.Execution.{Row, passes_join, joined, follow}
use zlchen_dsaa2031_project.Execution.NestedLoop.{JoinPlan, NestedLoop, init, next, drain}

-- The definition of the join: for each left tuple, in order, the tuples that it makes with the
-- right ones, in order, that the predicate selects; then what follows.
abbrev pub if_selected :
    Option Bool → Option (List Tuple) → Option (List Tuple) → Option (List Tuple)
if_selected none chosen skipped = none
if_selected (some true) chosen skipped = chosen
if_selected (some false) chosen skipped = skipped

unfoldable pub emit :
    Floats → JoinPlan → Tuple → List Row → Option (List Tuple) → Option (List Tuple)
emit floats plan left [] following = following
emit floats plan left (row ∷ rows) following =
    let later = emit floats plan left rows following in
    if_selected (passes_join floats plan.predicate left plan.left_schema row.0 plan.right_schema)
      (follow (joined plan.left_schema plan.right_schema left row.0) later) later

unfoldable pub nested_loop : Floats → JoinPlan → List Row → Option (List Tuple)
nested_loop floats plan [] = some []
nested_loop floats plan (row ∷ rows) =
    emit floats plan row.0 plan.right_rows (nested_loop floats plan rows)

-- What a state has still to give, and the rounds that it has still to make.
output : Floats → JoinPlan → NestedLoop → Option (List Tuple)
output floats plan s =
    if s.has_left_tuple
    then emit floats plan s.left_tuple s.right_executor (nested_loop floats plan s.left_executor)
    else nested_loop floats plan s.left_executor

unfoldable pub rounds : JoinPlan → List Row → ℕ
rounds plan [] = 1
rounds plan (row ∷ rows) = suc (length plan.right_rows + rounds plan rows)

measure : JoinPlan → NestedLoop → ℕ
measure plan s =
    rounds plan s.left_executor + (if s.has_left_tuple then suc (length s.right_executor) else 0)

-- What a call of `Next` may do.
Served : Floats → JoinPlan → ℕ → NestedLoop → Type 0
Served floats plan fuel s =
    ((next floats plan fuel s ≡ none) × (output floats plan s ≡ none))
    ⊎ ((s' : NestedLoop) × ((next floats plan fuel s ≡ some (none, s'))
          × (output floats plan s ≡ some [])))
    ⊎ ((t : Tuple) × (s' : NestedLoop) × ((next floats plan fuel s ≡ some (some t, s'))
          × (measure plan s' < measure plan s)
          × (output floats plan s ≡ (output floats plan s' >>= λ ts. some (t ∷ ts)))))

module _ (floats : Floats) (plan : JoinPlan) where
  -- The state of a round, by its left row and its right rows.
  abbrev at : Tuple → List Row → List Row → NestedLoop
  at left rights lefts = record {
    left_executor = lefts;
    right_executor = rights;
    left_tuple = left;
    has_left_tuple = true;
  }

  abbrev between : Tuple → List Row → List Row → NestedLoop
  between left rights lefts = record {
    left_executor = lefts;
    right_executor = rights;
    left_tuple = left;
    has_left_tuple = false;
  }

  transfer :
      (fuel fuel' : ℕ) (s s' : NestedLoop)
      → next floats plan fuel s ≡ next floats plan fuel' s'
      → output floats plan s ≡ output floats plan s'
      → measure plan s' ≤ measure plan s
      → Served floats plan fuel' s'
      → Served floats plan fuel s
  unfolding Served
  transfer fuel fuel' s s' same_next same_output less (inl (h, k)) =
      inl (same_next ∙ h, same_output ∙ k)
  transfer fuel fuel' s s' same_next same_output less (inr (inl (r, (h, k)))) =
      inr (inl (r, (same_next ∙ h, same_output ∙ k)))
  transfer fuel fuel' s s' same_next same_output less (inr (inr (t, r, (h, m, k)))) =
      inr (inr (t, r, (same_next ∙ h, omega arith, same_output ∙ k)))

  next_end :
      (fuel : ℕ) (left : Tuple) (lefts : List Row)
      → next floats plan (suc fuel) (at left [] lefts)
        ≡ next floats plan fuel (between left [] lefts)
  unfolding next
  next_end fuel left lefts = refl

  output_end :
      (left : Tuple) (lefts : List Row)
      → output floats plan (at left [] lefts) ≡ output floats plan (between left [] lefts)
  unfolding output emit
  output_end left lefts = refl

  round_at :
      (fuel : ℕ) (left : Tuple) (rights lefts : List Row)
      → ((s : NestedLoop) → measure plan s ≤ fuel → Served floats plan fuel s)
      → measure plan (at left rights lefts) ≤ suc fuel
      → Served floats plan (suc fuel) (at left rights lefts)
  unfolding measure next output emit Served
  round_at fuel left [] lefts again low =
      transfer (suc fuel) fuel (at left [] lefts) (between left [] lefts) (next_end fuel left lefts)
        (output_end left lefts) (omega arith) (again (between left [] lefts) (omega arith))
  round_at fuel left (row ∷ rights) lefts again low =
      elim (Option-cases
        (passes_join floats plan.predicate left plan.left_schema row.0 plan.right_schema)) [
          | inl throws ↦ inl (ground arith, ground arith)
          | inr (true, selected) ↦
              elim (Option-cases (joined plan.left_schema plan.right_schema left row.0)) [
                | inl throws ↦ inl (ground arith, ground arith)
                | inr (t, made) ↦
                    inr (inr (t, at left rights lefts, (ground arith, omega arith, ground arith)))
              ]
          | inr (false, skipped) ↦
              transfer (suc fuel) fuel (at left (row ∷ rights) lefts) (at left rights lefts)
                (ground arith) (ground arith) (omega arith)
                (again (at left rights lefts) (omega arith))
        ]

  rounds_positive : (lefts : List Row) → 0 < rounds plan lefts
  unfolding rounds
  rounds_positive [] = omega arith
  rounds_positive (row ∷ rows) = omega arith

  served : (fuel : ℕ) (s : NestedLoop) → measure plan s ≤ fuel → Served floats plan fuel s
  unfolding measure next output Served rounds nested_loop
  served zero s low = ground (arith, rounds_positive s.left_executor)
  served (suc fuel) s low =
      by_state s.has_left_tuple s.left_tuple s.right_executor s.left_executor (served fuel) low
    where
      by_state :
          (has : Bool) (left : Tuple) (rights lefts : List Row)
          → ((s : NestedLoop) → measure plan s ≤ fuel → Served floats plan fuel s)
          → measure plan (record {
            left_executor = lefts;
            right_executor = rights;
            left_tuple = left;
            has_left_tuple = has;
          })
            ≤ suc fuel
          → Served floats plan (suc fuel) (record {
            left_executor = lefts;
            right_executor = rights;
            left_tuple = left;
            has_left_tuple = has;
          })
      by_state true left rights lefts again low = round_at fuel left rights lefts again low
      by_state false left rights [] again low = inr (inl (between left rights [], (refl, refl)))
      by_state false left rights (row ∷ rows) again low =
          transfer (suc fuel) (suc fuel) (between left rights (row ∷ rows))
            (at row.0 plan.right_rows rows) refl refl (omega arith)
            (round_at fuel row.0 plan.right_rows rows again (omega arith))

  drain-output :
      (fuel calls : ℕ) (s : NestedLoop)
      → measure plan s ≤ fuel
      → measure plan s ≤ calls
      → drain floats plan fuel calls s ≡ output floats plan s
  unfolding drain Served measure
  drain-output fuel zero s low short = ground (arith, rounds_positive s.left_executor)
  drain-output fuel (suc calls) s low short = elim (served fuel s low) [
    | inl (throws, nothing) ↦ ground arith
    | inr (inl (s', (ends, nothing))) ↦ ground arith
    | inr (inr (t, s', (given, less, more))) ↦
        ground (arith, drain-output fuel calls s' (omega arith) (omega arith))
  ]

-- A nested loop join, started by `Init` and asked by `Next` until it returns false, gives for each
-- left row, in order, the right rows that the predicate selects with it, in order, an exception
-- included. No call of `Next` makes more rounds than `rounds` of the left rows, and the join ends
-- within as many calls.
pub drain-nested_loop :
    (floats : Floats) (plan : JoinPlan) (left_rows : List Row) (fuel calls : ℕ)
    → rounds plan left_rows ≤ fuel
    → rounds plan left_rows ≤ calls
    → drain floats plan fuel calls (init plan left_rows) ≡ nested_loop floats plan left_rows
unfolding measure output
drain-nested_loop floats plan left_rows fuel calls low short =
    drain-output floats plan fuel calls (init plan left_rows) (omega arith) (omega arith)
