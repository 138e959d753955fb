-- ===== src/Execution/Aggregation/Groups.antt =====
-- The groups of an aggregation: src/execution/executors/aggregation_executor.cpp.
use zlchen_dsaa2031_project.Prelude.{
  ◌≡◌, ap, Option, some, List, [], ◌∷◌, if◌then◌else◌, ◌>>=◌, Option-cases, Bool-cases, inl, inr,
  arith, ℕ,
}
use zlchen_dsaa2031_project.Types.{Floats}
use zlchen_dsaa2031_project.Types.Compare.{text_equal}
use zlchen_dsaa2031_project.Types.Order.{text_equal-eq}
use zlchen_dsaa2031_project.Types.TextMaps.{find_text, put_text, find_text-put_text}
use zlchen_dsaa2031_project.Execution.{Row}
use zlchen_dsaa2031_project.Execution.Aggregation.{
  AggregateState, AggregationPlan, Groups, group_key, step_group, absorb,
}

-- The definition of a group: the rows with its key, one after the other, each taken into the states.
unfoldable pub fold_group :
    Floats
    → AggregationPlan
    → List ℕ
    → Option (List AggregateState)
    → List Row
    → Option (Option (List AggregateState))
fold_group floats plan key found [] = some found
fold_group floats plan key found (row ∷ rows) =
    let others = fold_group floats plan key found rows in
    group_key floats plan row.0 >>= λ k.
    if text_equal k key
    then (step_group floats plan row.0 found
        >>= (λ states. fold_group floats plan key (some states) rows))
    else others

-- The states that the hash table has under a key are those of the rows with this key, in the order
-- of the input, whatever the other rows are; a key has no entry where no row has it. The loop over
-- the rows did not throw.
pub absorb-fold_group :
    (floats : Floats) (plan : AggregationPlan) (key : List ℕ) (rows : List Row)
    (groups groups' : Groups)
    → absorb floats plan groups rows ≡ some groups'
    → fold_group floats plan key (find_text key groups) rows ≡ some (find_text key groups')
unfolding absorb fold_group
absorb-fold_group floats plan key [] groups groups' done = ground arith
absorb-fold_group floats plan key (row ∷ rows) groups groups' done =
    elim (Option-cases (group_key floats plan row.0)) [
      | inl throws ↦ ground arith
      | inr (k, h) ↦ elim (Option-cases (step_group floats plan row.0 (find_text k groups))) [
        | inl throws ↦ ground arith
        | inr (states, stepped) ↦ elim (Bool-cases (text_equal k key)) [
          | inl same ↦ ground (
            arith,
            ap (λ k. find_text k groups) (text_equal-eq k key same),
            find_text-put_text k key states groups,
            absorb-fold_group floats plan key rows (put_text k states groups) groups'
                (ground arith),
          )
          | inr other ↦ ground (
            arith,
            find_text-put_text k key states groups,
            absorb-fold_group floats plan key rows (put_text k states groups) groups'
                (ground arith),
          )
        ]
      ]
    ]
