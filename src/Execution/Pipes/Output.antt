-- ===== src/Execution/Pipes/Output.antt =====
-- The whole output of the scans and of a limit: src/execution/executors/seq_scan_executor.cpp,
-- index_scan_executor.cpp, limit_executor.cpp.
use zlchen_dsaa2031_project.Prelude.{
  ℕ, zero, suc, ◌+◌, ◌<◌, ◌≡◌, refl, Option, some, Bool, true, false, List, [], ◌∷◌, take, length,
  if◌then◌else◌, ◌>>=◌, Option-cases, inl, inr, arith,
}
use zlchen_dsaa2031_project.Rows.{Tuple}
use zlchen_dsaa2031_project.Execution.{Row}
use zlchen_dsaa2031_project.Execution.Pipes.{scan_next, drain_rows, limit_next, limit_drain}

module _ {ℓ} {A : Type ℓ} (load : A → Option Row) (pass : Tuple → Option Bool) where
  -- The definition of a scan: the rows that pass, in order.
  unfoldable pub passing : List A → Option (List Row)
  passing [] = some []
  passing (x ∷ xs) =
      let later = passing xs in
      load x >>= λ row.
      pass row.0 >>= λ passed. if passed then (later >>= (λ rows. some (row ∷ rows))) else later

  pub drain_rows-scan_next :
      (xs : List A) (calls : ℕ)
      → length xs < calls
      → drain_rows (scan_next load pass) calls xs ≡ passing xs
  unfolding drain_rows scan_next passing
  drain_rows-scan_next xs zero enough = ground arith
  drain_rows-scan_next [] (suc calls) enough = refl
  drain_rows-scan_next (x ∷ xs) (suc calls) enough = elim (Option-cases (load x)) [
    | inl throws ↦ ground arith
    | inr (row, loaded) ↦ elim (Option-cases (pass row.0)) [
      | inl throws ↦ ground arith
      | inr (true, passed) ↦ ground (arith, drain_rows-scan_next xs calls (omega arith))
      | inr (false, failed) ↦ ground (arith, drain_rows-scan_next xs (suc calls) (omega arith))
    ]
  ]

-- A limit that has given a number of rows, asked by `Next` until it returns false, gives the rows
-- that its child has next, up to the limit in all. It has not given more than the limit, and it is
-- asked more often than the child has rows.
pub limit_drain-take :
    (limit calls count wanted : ℕ) (rows : List Row)
    → length rows < calls
    → count + wanted ≡ limit
    → limit_drain limit calls count rows ≡ take wanted rows
unfolding limit_drain limit_next
limit_drain-take limit zero count wanted rows enough low = ground arith
limit_drain-take limit (suc calls) count zero [] enough low = refl
limit_drain-take limit (suc calls) count (suc wanted) [] enough low = refl
limit_drain-take limit (suc calls) count zero (row ∷ rows) enough low = ground arith
limit_drain-take limit (suc calls) count (suc wanted) (row ∷ rows) enough low =
    ground (arith, limit_drain-take limit calls (count + 1) wanted rows (omega arith) (omega arith))
