-- ===== src/Execution/Aggregation/States.antt =====
-- The states of SUM, MIN and MAX over INTEGERs: src/execution/executors/aggregation_executor.cpp.
use zlchen_dsaa2031_project.Prelude.{
  ℕ, ◌+◌, ◌%◌, ◌<◌, ◌≡◌, refl, some, true, false, List, [], ◌∷◌, length, contains, All, Bool-cases,
  inl, inr, arith,
}
use zlchen_dsaa2031_project.Types.{TypeId, Floats, Value, same_type, integer_value}
use zlchen_dsaa2031_project.Types.Compare.{int_less, holds, compare_greater_than}
use zlchen_dsaa2031_project.Types.Arithmetic.{add}
use zlchen_dsaa2031_project.Rows.{Schema, Tuple}
use zlchen_dsaa2031_project.Rows.Expressions.{Expression, evaluate}
use zlchen_dsaa2031_project.Execution.Sort.Order.{integers_less}
use zlchen_dsaa2031_project.Optimizer.{sum, min, max}
use zlchen_dsaa2031_project.Execution.Aggregation.{AggregateState, step_state}

unfoldable pub sum_of : List ℕ → ℕ
sum_of [] = 0
sum_of (w ∷ ws) = w + sum_of ws

-- What the aggregates are, of the values that are not NULL; without one, SUM, MIN and MAX have none.
unfoldable pub IsSum : List ℕ → AggregateState → Type 0
IsSum [] state = state.has_value ≡ false
IsSum (w ∷ ws) state =
    (state.has_value ≡ true)
    × (same_type state.total.type_id TypeId.integer ≡ true)
    × (state.total.word ≡ sum_of (w ∷ ws) % 4294967296)

unfoldable pub IsLeast : List ℕ → AggregateState → Type 0
IsLeast [] state = state.has_value ≡ false
IsLeast (w ∷ ws) state =
    (state.has_value ≡ true)
    × (same_type state.least.type_id TypeId.integer ≡ true)
    × (contains state.least.word (w ∷ ws) ≡ true)
    × All (λ x. int_less x state.least.word ≡ false) (w ∷ ws)

unfoldable pub IsGreatest : List ℕ → AggregateState → Type 0
IsGreatest [] state = state.has_value ≡ false
IsGreatest (w ∷ ws) state =
    (state.has_value ≡ true)
    × (same_type state.greatest.type_id TypeId.integer ≡ true)
    × (contains state.greatest.word (w ∷ ws) ≡ true)
    × All (λ x. int_less state.greatest.word x ≡ false) (w ∷ ws)

unfoldable pub IsSummary : ℕ → List ℕ → List AggregateState → Type 0
IsSummary n ws (s0 ∷ s1 ∷ s2 ∷ s3 ∷ s4 ∷ []) =
    (s0.counted ≡ n % 4294967296)
    × (s1.counted ≡ length ws % 4294967296)
    × IsSum ws s2
    × IsLeast ws s3
    × IsGreatest ws s4
IsSummary n ws _ = ⊥

integers_greater :
    (floats : Floats) (v o : Value)
    → same_type v.type_id TypeId.integer ≡ true
    → same_type o.type_id TypeId.integer ≡ true
    → holds (compare_greater_than floats v o) ≡ some (int_less o.word v.word)
unfolding compare_greater_than
integers_greater floats v o h k = elim (Bool-cases (int_less o.word v.word)) [
  | inl before ↦ ground arith
  | inr behind ↦ ground arith
]

integers_add :
    (floats : Floats) (v o : Value)
    → same_type v.type_id TypeId.integer ≡ true
    → same_type o.type_id TypeId.integer ≡ true
    → (r : Value) × (add floats v o ≡ some r)
      × (same_type r.type_id TypeId.integer ≡ true)
      × (r.word ≡ (v.word + o.word) % 4294967296)
unfolding add
integers_add floats v o h k =
    (integer_value TypeId.integer ((v.word + o.word) % 4294967296), ground arith, refl, refl)

below-All :
    (w m : ℕ) (ws : List ℕ)
    → int_less w m ≡ true
    → All (λ x. int_less x m ≡ false) ws
    → All (λ x. int_less x w ≡ false) ws
below-All w m [] less all = tt
below-All w m (x ∷ ws) less (here, all) = (ground arith, below-All w m ws less all)

above-All :
    (w m : ℕ) (ws : List ℕ)
    → int_less m w ≡ true
    → All (λ x. int_less m x ≡ false) ws
    → All (λ x. int_less w x ≡ false) ws
above-All w m [] less all = tt
above-All w m (x ∷ ws) less (here, all) = (ground arith, above-All w m ws less all)

module _ (floats : Floats) (schema : Schema) (t : Tuple) (e : Expression) (v : Value)
    (read : evaluate floats e t schema ≡ some v) (full : v.is_null ≡ false)
    (typed : same_type v.type_id TypeId.integer ≡ true) (low : v.word < 4294967296) where
  pub step-IsSum :
      (ws : List ℕ) (state : AggregateState)
      → IsSum ws state
      → (state' : AggregateState) × (step_state floats schema t sum (some e) state ≡ some state')
        × IsSum (v.word ∷ ws) state'
  unfolding IsSum sum_of
  step-IsSum [] state fresh = (
    record state { total = v; has_value = true },
    ground (arith, read, full, fresh),
    (refl, typed, omega (arith, low)),
  )
  step-IsSum (w ∷ ws) state (seen, its_type, its_word) =
      let (r, added, r_typed, r_word) = integers_add floats state.total v its_type typed in
      (
        record state { total = r },
        ground (arith, read, full, seen, added),
        (seen, r_typed, omega (arith, r_word, its_word, low)),
      )

  pub step-IsLeast :
      (ws : List ℕ) (state : AggregateState)
      → IsLeast ws state
      → (state' : AggregateState) × (step_state floats schema t min (some e) state ≡ some state')
        × IsLeast (v.word ∷ ws) state'
  unfolding IsLeast
  step-IsLeast [] state fresh = (
    record state { least = v; has_value = true },
    ground (arith, read, full, fresh),
    (refl, typed, ground arith, (ground arith, tt)),
  )
  step-IsLeast (w ∷ ws) state (seen, its_type, inside, all) =
      let compared = integers_less floats v state.least typed its_type in
      elim (Bool-cases (int_less v.word state.least.word)) [
        | inl less ↦ (
          record state { least = v },
          ground (arith, read, full, seen, compared, less),
          (
            seen,
            typed,
            ground arith,
            (ground arith, below-All v.word state.least.word (w ∷ ws) less all),
          ),
        )
        | inr more ↦ (
          state,
          ground (arith, read, full, seen, compared, more),
          (seen, its_type, ground (arith, inside), (more, all)),
        )
      ]

  pub step-IsGreatest :
      (ws : List ℕ) (state : AggregateState)
      → IsGreatest ws state
      → (state' : AggregateState) × (step_state floats schema t max (some e) state ≡ some state')
        × IsGreatest (v.word ∷ ws) state'
  unfolding IsGreatest
  step-IsGreatest [] state fresh = (
    record state { greatest = v; has_value = true },
    ground (arith, read, full, fresh),
    (refl, typed, ground arith, (ground arith, tt)),
  )
  step-IsGreatest (w ∷ ws) state (seen, its_type, inside, all) =
      let compared = integers_greater floats v state.greatest typed its_type in
      elim (Bool-cases (int_less state.greatest.word v.word)) [
        | inl more ↦ (
          record state { greatest = v },
          ground (arith, read, full, seen, compared, more),
          (
            seen,
            typed,
            ground arith,
            (ground arith, above-All v.word state.greatest.word (w ∷ ws) more all),
          ),
        )
        | inr less ↦ (
          state,
          ground (arith, read, full, seen, compared, less),
          (seen, its_type, ground (arith, inside), (less, all)),
        )
      ]
