-- ===== src/Concurrency/LockManager/Tests.antt =====
-- The lock manager run by two transactions.
use zlchen_dsaa2031_project.Prelude.{
  ℕ, ◌≡◌, refl, inl, true, false, arith, contains, lookup, insert, All,
}
use zlchen_dsaa2031_project.Concurrency.Transaction.{
  IsolationLevel, repeatable_read, is_aborted, is_growing, new_transaction,
}
use zlchen_dsaa2031_project.Concurrency.Requests.{
  exclusive_granted, granted_to_other, grant, has_request, erase_first,
}
use zlchen_dsaa2031_project.Concurrency.LockManager.{
  System, answer, running, lock_shared, lock_exclusive, unlock, resume_shared, resume_exclusive,
  release,
}
use zlchen_dsaa2031_project.Concurrency.LockManager.Steps.{
  Steps, stay, next, locks_shared, locks_exclusive, init, exclusive_excludes,
}
use zlchen_dsaa2031_project.Concurrency.LockManager.TwoPhase.{unlock-two_phase}

abbrev levels : ℕ → IsolationLevel
levels t = repeatable_read

-- Transaction 1 locks row 5, and transaction 2 asks for it.
abbrev s1 : System
s1 = (lock_exclusive (init levels) 1 5).0

abbrev s2 : System
s2 = (lock_shared s1 2 5).0

granted : (lock_exclusive (init levels) 1 5).1 ≡ answer true
unfolding lock_exclusive resume_exclusive init new_transaction lookup insert granted_to_other grant
granted = refl

s1-Steps : Steps (init levels) s1
unfolding init new_transaction
s1-Steps = next (init levels) s1 stay (locks_exclusive 1 5 refl (λ e. ground (arith, e)))

s2-Steps : Steps (init levels) s2
unfolding lock_exclusive resume_exclusive init new_transaction lookup insert granted_to_other grant
s2-Steps = next s1 s2 s1-Steps (locks_shared 2 5 refl (λ e. ground (arith, e)))

alive_1 : is_aborted (s2.txns 1).state ≡ false
unfolding lock_exclusive resume_exclusive init new_transaction lookup insert granted_to_other grant
    lock_shared resume_shared exclusive_granted
alive_1 = refl

alive_2 : is_aborted (s2.txns 2).state ≡ false
unfolding lock_exclusive resume_exclusive init new_transaction lookup insert granted_to_other grant
    lock_shared resume_shared exclusive_granted
alive_2 = refl

held_1 : contains 5 (s2.txns 1).exclusive_lock_set ≡ true
unfolding lock_exclusive resume_exclusive init new_transaction lookup insert granted_to_other grant
    lock_shared resume_shared exclusive_granted
held_1 = refl

exclusive_excludes_example :
    (contains 5 (s2.txns 2).exclusive_lock_set ≡ false)
    × (contains 5 (s2.txns 2).shared_lock_set ≡ false)
exclusive_excludes_example =
    exclusive_excludes levels s2 1 2 5 s2-Steps (λ e. omega (arith, e)) alive_1 alive_2 held_1

-- Transaction 1 unlocks its row, and asks for another.
abbrev s3 : System
s3 = (unlock s1 1 5).0

abbrev s4 : System
s4 = (lock_shared s3 1 6).0

s3-Steps : Steps s3 s4
unfolding lock_exclusive resume_exclusive init new_transaction lookup insert granted_to_other grant
    unlock release has_request erase_first
s3-Steps = next s3 s4 stay (locks_shared 1 6 refl (λ e. ground (arith, e)))

idle_1 : s1.waits 1 ≡ running
unfolding lock_exclusive resume_exclusive init new_transaction lookup insert granted_to_other grant
idle_1 = refl

unlocked : (unlock s1 1 5).1 ≡ true
unfolding lock_exclusive resume_exclusive init new_transaction lookup insert granted_to_other grant
    unlock release has_request erase_first
unlocked = refl

unlock-two_phase_example :
    (is_growing (s4.txns 1).state ≡ false)
    × All (λ r. contains r (s3.txns 1).shared_lock_set ≡ true) (s4.txns 1).shared_lock_set
    × All (λ r. contains r (s3.txns 1).exclusive_lock_set ≡ true) (s4.txns 1).exclusive_lock_set
unlock-two_phase_example = unlock-two_phase levels s1 s4 1 5 s1-Steps (inl idle_1) unlocked s3-Steps
