-- ===== src/Execution/Aggregation/Summary.antt =====
-- The five aggregates of an INTEGER expression in a group:
-- src/execution/executors/aggregation_executor.cpp.
use zlchen_dsaa2031_project.Prelude.{
  ℕ, ◌+◌, ◌%◌, ◌<◌, ◌≡◌, refl, subst, Option, none, some, true, List, [], ◌∷◌, ◌++◌, if◌then◌else◌,
  Bool-cases, inl, inr, arith,
}
use zlchen_dsaa2031_project.Types.{TypeId, Floats, Value, same_type, to_string}
use zlchen_dsaa2031_project.Types.Compare.{text_equal}
use zlchen_dsaa2031_project.Types.TextMaps.{find_text}
use zlchen_dsaa2031_project.Rows.{Schema, Tuple}
use zlchen_dsaa2031_project.Rows.Expressions.{Expression, evaluate}
use zlchen_dsaa2031_project.Execution.{Row}
use zlchen_dsaa2031_project.Optimizer.{count_star, count, sum, min, max}
use zlchen_dsaa2031_project.Execution.Aggregation.{
  AggregateState, AggregationPlan, Groups, states_or_new, step_states, step_group, group_key,
  evaluate_keys, key_of_values, absorb,
}
use zlchen_dsaa2031_project.Execution.Aggregation.Groups.{fold_group, absorb-fold_group}
use zlchen_dsaa2031_project.Execution.Aggregation.States.{
  IsSum, IsLeast, IsGreatest, IsSummary, step-IsSum, step-IsLeast, step-IsGreatest,
}

-- COUNT(*), COUNT, SUM, MIN and MAX of one expression, by another.
abbrev pub five_aggregates : Schema → Expression → Expression → AggregationPlan
five_aggregates schema group_by e = record {
  group_bys = group_by ∷ [];
  aggregates = e ∷ e ∷ e ∷ e ∷ e ∷ [];
  agg_types = count_star ∷ count ∷ sum ∷ min ∷ max ∷ [];
  child_schema = schema;
}

-- The values that are not NULL, the newest first.
abbrev pub onto : Value → List ℕ → List ℕ
onto v ws = if v.is_null then ws else v.word ∷ ws

-- The number of the rows with a key, and their values that are not NULL, by the values of the rows: the
-- one that they are grouped by, and the one that is aggregated.
unfoldable pub tally : Floats → List ℕ → List (Value × Value) → ℕ → List ℕ → ℕ × List ℕ
tally floats key [] n ws = (n, ws)
tally floats key ((g, v) ∷ values) n ws =
    if text_equal (to_string floats g ++ 124 ∷ []) key
    then tally floats key values (n + 1) (onto v ws)
    else tally floats key values n ws

-- The values that the rows have; the one that is aggregated is an INTEGER or a NULL of this type.
unfoldable pub HaveValues :
    Floats → Schema → Expression → Expression → List Row → List (Value × Value) → Type 0
HaveValues floats schema group_by e [] [] = Unit
HaveValues floats schema group_by e (row ∷ rows) ((g, v) ∷ values) =
    ((evaluate floats group_by row.0 schema ≡ some g)
      × (evaluate floats e row.0 schema ≡ some v)
      × (same_type v.type_id TypeId.integer ≡ true)
      × (v.word < 4294967296))
    × HaveValues floats schema group_by e rows values
HaveValues floats schema group_by e _ _ = ⊥

-- A group has an entry if it has rows.
unfoldable pub IsEntry : ℕ → List ℕ → Option (List AggregateState) → Type 0
IsEntry n ws none = (n ≡ 0) × (ws ≡ [])
IsEntry n ws (some states) = (0 < n) × IsSummary n ws states

some-IsEntry :
    (n : ℕ) (ws : List ℕ) (states : List AggregateState)
    → 0 < n
    → IsSummary n ws states
    → IsEntry n ws (some states)
unfolding IsEntry
some-IsEntry n ws states some_rows summary = (some_rows, summary)

nothing : IsEntry 0 [] none
unfolding IsEntry
nothing = (refl, refl)

module _ (floats : Floats) (schema : Schema) (group_by e : Expression) where
  start-IsSummary :
      (n : ℕ) (ws : List ℕ) (found : Option (List AggregateState))
      → IsEntry n ws found
      → IsSummary n ws (states_or_new (five_aggregates schema group_by e) found)
  unfolding IsEntry IsSummary IsSum IsLeast IsGreatest
  start-IsSummary n ws none (no_rows, no_values) =
      rw (no_rows, no_values) (refl, refl, refl, refl, refl)
  start-IsSummary n ws (some states) (some_rows, summary) = summary

  step-IsSummary :
      (t : Tuple) (v : Value) (n : ℕ) (ws : List ℕ) (states : List AggregateState)
      → evaluate floats e t schema ≡ some v
      → same_type v.type_id TypeId.integer ≡ true
      → v.word < 4294967296
      → IsSummary n ws states
      → (states' : List AggregateState) × (step_states floats schema t
            (count_star ∷ count ∷ sum ∷ min ∷ max ∷ [])
            (e ∷ e ∷ e ∷ e ∷ e ∷ [])
            states
          ≡ some states')
        × IsSummary (n + 1) (onto v ws) states'
  unfolding step_states IsSummary
  step-IsSummary t v n ws (s0 ∷ s1 ∷ s2 ∷ s3 ∷ s4 ∷ []) read typed low
        (rows, values, total, least, greatest) =
      elim (Bool-cases v.is_null) [
        | inl null ↦ (
          record s0 { counted = (s0.counted + 1) % 4294967296 } ∷ s1 ∷ s2 ∷ s3 ∷ s4 ∷ [],
          ground (arith, read, null),
          rw null (omega (arith, rows), values, total, least, greatest),
        )
        | inr full ↦
            let (s2', summed, total') =
              step-IsSum floats schema t e v read full typed low ws s2 total in
            let (s3', lessened, least') =
              step-IsLeast floats schema t e v read full typed low ws s3 least in
            let (s4', raised, greatest') =
              step-IsGreatest floats schema t e v read full typed low ws s4 greatest in
            (
              record s0 { counted = (s0.counted + 1) % 4294967296 }
                  ∷ record s1 { counted = (s1.counted + 1) % 4294967296 }
                  ∷ s2'
                  ∷ s3'
                  ∷ s4'
                  ∷ [],
              ground (arith, read, full, summed, lessened, raised),
              rw full (omega (arith, rows), omega (arith, values), total', least', greatest'),
            )
      ]
  step-IsSummary t v n ws [] read typed low x = elim x [ ]
  step-IsSummary t v n ws (s0 ∷ []) read typed low x = elim x [ ]
  step-IsSummary t v n ws (s0 ∷ s1 ∷ []) read typed low x = elim x [ ]
  step-IsSummary t v n ws (s0 ∷ s1 ∷ s2 ∷ []) read typed low x = elim x [ ]
  step-IsSummary t v n ws (s0 ∷ s1 ∷ s2 ∷ s3 ∷ []) read typed low x = elim x [ ]
  step-IsSummary t v n ws (s0 ∷ s1 ∷ s2 ∷ s3 ∷ s4 ∷ s5 ∷ more) read typed low x = elim x [ ]

  fold-IsEntry :
      (key : List ℕ) (rows : List Row) (values : List (Value × Value)) (n : ℕ) (ws : List ℕ)
      (found : Option (List AggregateState))
      → HaveValues floats schema group_by e rows values
      → IsEntry n ws found
      → (found' : Option (List AggregateState)) × (fold_group floats
            (five_aggregates schema group_by e)
            key
            found
            rows
          ≡ some found')
        × IsEntry (tally floats key values n ws).0 (tally floats key values n ws).1 found'
  unfolding HaveValues fold_group tally group_key evaluate_keys key_of_values step_group
  fold-IsEntry key [] [] n ws found have entry = (found, refl, entry)
  fold-IsEntry key [] (pair ∷ values) n ws found have entry = elim have [ ]
  fold-IsEntry key (row ∷ rows) [] n ws found have entry = elim have [ ]
  fold-IsEntry key (row ∷ rows) ((g, v) ∷ values) n ws found ((grouped, read, typed, low), have)
        entry =
      elim (Bool-cases (text_equal (to_string floats g ++ 124 ∷ []) key)) [
        | inl same ↦
            let (states, stepped, summary) =
              step-IsSummary row.0 v n ws (states_or_new (five_aggregates schema group_by e) found)
                read typed low (start-IsSummary n ws found entry) in
            let (found', folded, entry') =
              fold-IsEntry key rows values (n + 1) (onto v ws) (some states) have
                (some-IsEntry (n + 1) (onto v ws) states (omega arith) summary) in
            (found', ground (arith, grouped, same, stepped, folded), rw same entry')
        | inr other ↦
            let (found', folded, entry') = fold-IsEntry key rows values n ws found have entry in
            (found', ground (arith, grouped, other, folded), rw other entry')
      ]

-- A group has an entry exactly if some row has its key, and then COUNT(*) is the number of its rows,
-- COUNT that of its values which are not NULL, both modulo 2 ^ 32, SUM their sum modulo 2 ^ 32, MIN
-- one of them that is not above any, and MAX one that is not below any; without such a value the
-- last three have none. The rows have their groups by one expression, whose text with a bar behind
-- it is the key, and the aggregates are of an expression that is an INTEGER, or a NULL, in each row.
-- The loop over the rows did not throw.
pub absorb-IsEntry :
    (floats : Floats) (schema : Schema) (group_by e : Expression) (key : List ℕ) (rows : List Row)
    (values : List (Value × Value)) (groups : Groups)
    → HaveValues floats schema group_by e rows values
    → absorb floats (five_aggregates schema group_by e) [] rows ≡ some groups
    → IsEntry
        (tally floats key values 0 []).0
        (tally floats key values 0 []).1
        (find_text key groups)
unfolding find_text
absorb-IsEntry floats schema group_by e key rows values groups have done =
    let (found, folded, entry) =
      fold-IsEntry floats schema group_by e key rows values 0 [] none have nothing in
    let same =
      absorb-fold_group floats (five_aggregates schema group_by e) key rows [] groups done in
    subst (IsEntry (tally floats key values 0 []).0 (tally floats key values 0 []).1)
      (ground (arith, folded, same)) entry
