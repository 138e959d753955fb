-- ===== src/Concurrency/LockManager/TwoPhase.antt =====
-- Two-phase locking: a transaction that has left the growing phase is granted no lock.
use zlchen_dsaa2031_project.Prelude.{
  ◌⊎◌, ℕ, ◌≡◌, refl, subst, List, [], ◌∷◌, All, true, false, arith, contains,
}
use native.Mathlib.Decide.{ℕ_discrete}
use zlchen_dsaa2031_project.Concurrency.Transaction.{
  IsolationLevel, committed, aborted, is_aborted, is_growing,
}
use zlchen_dsaa2031_project.Concurrency.LockManager.{
  System, running, set_state, lock_shared, lock_exclusive, lock_upgrade, release, wake, unlock,
}
use zlchen_dsaa2031_project.Concurrency.LockManager.Steps.{
  Step, locks_shared, locks_exclusive, locks_upgrade, wakes, unlocks, aborts, commits, clears,
  clear_sets, Steps, stay, next, init,
}
use zlchen_dsaa2031_project.Concurrency.LockManager.Settles.{
  IsDone, Settles, same-Settles, wake-Settles, lock_shared-Settles, lock_exclusive-Settles,
  lock_upgrade-Settles, unlock-Settles, set_state-Settles, clear_sets-Settles,
  lock_shared-elsewhere, lock_exclusive-elsewhere, lock_upgrade-elsewhere, unlock-elsewhere,
  wake-elsewhere, set_state-elsewhere,
}

Step-Settles : (s s' : System) (u : ℕ) → Step s s' → Settles s s' u
Step-Settles s _ u (locks_shared t r idle open_) = elim (ℕ_discrete t u) [
  | yes e ↦ subst (λ k. Settles s (lock_shared s t r).0 k) e (lock_shared-Settles s t r idle open_)
  | no other ↦ lock_shared-elsewhere s t u r other
]
Step-Settles s _ u (locks_exclusive t r idle open_) = elim (ℕ_discrete t u) [
  | yes e ↦
      subst (λ k. Settles s (lock_exclusive s t r).0 k) e (lock_exclusive-Settles s t r idle open_)
  | no other ↦ lock_exclusive-elsewhere s t u r other
]
Step-Settles s _ u (locks_upgrade t r idle open_) = elim (ℕ_discrete t u) [
  | yes e ↦
      subst (λ k. Settles s (lock_upgrade s t r).0 k) e (lock_upgrade-Settles s t r idle open_)
  | no other ↦ lock_upgrade-elsewhere s t u r other
]
Step-Settles s _ u (wakes t) = elim (ℕ_discrete t u) [
  | yes e ↦ subst (λ k. Settles s (wake s t).0 k) e (wake-Settles s t (s.waits t) refl)
  | no other ↦ wake-elsewhere s t u other
]
Step-Settles s _ u (unlocks t r may) = elim (ℕ_discrete t u) [
  | yes e ↦ subst (λ k. Settles s (unlock s t r).0 k) e (unlock-Settles s t r may)
  | no other ↦ unlock-elsewhere s t u r other
]
Step-Settles s _ u (aborts t) = elim (ℕ_discrete t u) [
  | yes e ↦
      subst (λ k. Settles s (set_state s t aborted) k) e
        (set_state-Settles s t aborted refl (λ alive. absurd (ground arith)))
  | no other ↦ set_state-elsewhere s t u aborted other
]
Step-Settles s _ u (commits t idle alive) = elim (ℕ_discrete t u) [
  | yes e ↦
      subst (λ k. Settles s (set_state s t committed) k) e
        (set_state-Settles s t committed refl (λ alive. idle))
  | no other ↦ set_state-elsewhere s t u committed other
]
Step-Settles s _ u (clears t over) = elim (ℕ_discrete t u) [
  | yes e ↦ subst (λ k. Settles s (clear_sets s t) k) e (clear_sets-Settles s t)
  | no other ↦ same-Settles s _ u (ground arith) refl
]

-- In every reachable state, a transaction past its growing phase and not aborted is in no wait.
waits_growing :
    (levels : ℕ → IsolationLevel) (s : System) (t : ℕ)
    → Steps (init levels) s
    → is_growing (s.txns t).state ≡ false
    → is_aborted (s.txns t).state ≡ false
    → s.waits t ≡ running
unfolding init
waits_growing levels _ t stay = λ old alive. refl
waits_growing levels s t (next s' _ before last) =
    (Step-Settles s' s t last).waits_growing (waits_growing levels s' t before)

module _ (s : System) (t : ℕ) (done : IsDone s t) where
  later_waits :
      (s' : System)
      → Steps s s'
      → is_growing (s'.txns t).state ≡ false
      → is_aborted (s'.txns t).state ≡ false
      → s'.waits t ≡ running
  later_waits _ stay = λ old alive. done.1 alive
  later_waits s'' (next s' _ before last) =
      (Step-Settles s' s'' t last).waits_growing (later_waits s' before)

  later-IsDone : (s' : System) → Steps s s' → IsDone s' t
  later-IsDone _ stay = done
  later-IsDone s'' (next s' _ before last) =
      let old = (Step-Settles s' s'' t last).stays_done (later-IsDone s' before) in
      (old, later_waits s'' (next s' s'' before last) old)

  later_shared :
      (s' : System) (r : ℕ)
      → Steps s s'
      → contains r (s'.txns t).shared_lock_set ≡ true
      → contains r (s.txns t).shared_lock_set ≡ true
  later_shared _ r stay h = h
  later_shared s'' r (next s' _ before last) h =
      later_shared s' r before
        ((Step-Settles s' s'' t last).shared_within (later-IsDone s' before) r h)

  later_exclusive :
      (s' : System) (r : ℕ)
      → Steps s s'
      → contains r (s'.txns t).exclusive_lock_set ≡ true
      → contains r (s.txns t).exclusive_lock_set ≡ true
  later_exclusive _ r stay h = h
  later_exclusive s'' r (next s' _ before last) h =
      later_exclusive s' r before
        ((Step-Settles s' s'' t last).exclusive_within (later-IsDone s' before) r h)

All-of_contains : (P : ℕ → Type 0) (rs : List ℕ) → ((r : ℕ) → contains r rs ≡ true → P r) → All P rs
All-of_contains P [] h = tt
All-of_contains P (x ∷ rs) h =
    (h x (ground arith), All-of_contains P rs (λ r e. h r (ground (arith, e))))

-- Two-phase locking. Once interleaved calls have taken a transaction out of its growing phase,
-- whatever calls follow, it is never growing again, and each row of its shared and of its
-- exclusive set later was in that set then.
pub two_phase :
    (levels : ℕ → IsolationLevel) (s s' : System) (t : ℕ)
    → Steps (init levels) s
    → Steps s s'
    → is_growing (s.txns t).state ≡ false
    → (is_growing (s'.txns t).state ≡ false)
      × All (λ r. contains r (s.txns t).shared_lock_set ≡ true) (s'.txns t).shared_lock_set
      × All (λ r. contains r (s.txns t).exclusive_lock_set ≡ true) (s'.txns t).exclusive_lock_set
two_phase levels s s' t before after old =
    let done : IsDone s t = (old, waits_growing levels s t before old) in
    (
      (later-IsDone s t done s' after).0,
      All-of_contains _ _ (λ r. later_shared s t done s' r after),
      All-of_contains _ _ (λ r. later_exclusive s t done s' r after),
    )

unlock_past_growing :
    (s : System) (t r : ℕ)
    → (unlock s t r).1 ≡ true
    → is_growing ((unlock s t r).0.txns t).state ≡ false
unfolding unlock release
unlock_past_growing s t r done = ground arith

-- A transaction that has unlocked a row gets no lock any more: in every state that interleaved
-- calls lead to, as in the theorem on mutual exclusion, after an `Unlock` that returned true, each
-- row of its shared and of its exclusive set was in that set when `Unlock` returned, and it is not
-- in its growing phase.
pub unlock-two_phase :
    (levels : ℕ → IsolationLevel) (s s' : System) (t r : ℕ)
    → Steps (init levels) s
    → (s.waits t ≡ running) ⊎ (is_aborted (s.txns t).state ≡ true)
    → (unlock s t r).1 ≡ true
    → Steps (unlock s t r).0 s'
    → let after = (unlock s t r).0.txns t in
      (is_growing (s'.txns t).state ≡ false)
      × All (λ q. contains q after.shared_lock_set ≡ true) (s'.txns t).shared_lock_set
      × All (λ q. contains q after.exclusive_lock_set ≡ true) (s'.txns t).exclusive_lock_set
unlock-two_phase levels s s' t r before may done after =
    two_phase levels (unlock s t r).0 s' t (next s (unlock s t r).0 before (unlocks t r may)) after
      (unlock_past_growing s t r done)
