-- ===== src/Concurrency/TransactionManager/Tests.antt =====
-- A commit of a transaction that holds a lock.
use zlchen_dsaa2031_project.Prelude.{ℕ, ◌≡◌, refl, false, ◌&&◌, arith, lookup, insert, is_some}
use zlchen_dsaa2031_project.Concurrency.Transaction.{
  IsolationLevel, repeatable_read, is_aborted, new_transaction,
}
use zlchen_dsaa2031_project.Concurrency.Requests.{granted_to_other, grant}
use zlchen_dsaa2031_project.Concurrency.LockManager.{System, lock_exclusive, resume_exclusive}
use zlchen_dsaa2031_project.Concurrency.LockManager.Steps.{Steps, stay, next, locks_exclusive, init}
use zlchen_dsaa2031_project.Concurrency.TransactionManager.{commit, abort}
use zlchen_dsaa2031_project.Concurrency.TransactionManager.Ends.{commit_defined, is_empty}

abbrev levels : ℕ → IsolationLevel
levels t = repeatable_read

abbrev s1 : System
s1 = (lock_exclusive (init levels) 1 5).0

s1-Steps : Steps (init levels) s1
unfolding init new_transaction
s1-Steps = next (init levels) s1 stay (locks_exclusive 1 5 refl (λ e. ground (arith, e)))

alive : is_aborted (s1.txns 1).state ≡ false
unfolding lock_exclusive resume_exclusive init new_transaction lookup insert granted_to_other grant
alive = refl

commit_defined_example :
    (is_some (commit s1 1)
      ≡ (is_empty (s1.txns 1).shared_lock_set && is_empty (s1.txns 1).exclusive_lock_set))
    × (is_some (abort s1 1)
        ≡ (is_empty (s1.txns 1).shared_lock_set && is_empty (s1.txns 1).exclusive_lock_set))
commit_defined_example = commit_defined levels s1 1 s1-Steps alive
