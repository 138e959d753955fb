-- ===== src/Concurrency/LockManager/Settles.antt =====
-- What each call of the lock manager does to a transaction that has left its growing phase: its
-- own calls and those of others.
use zlchen_dsaa2031_project.Prelude.{◌⊎◌, ℕ, ◌≡◌, ◌≢◌, refl, ◌∙◌, true, false, arith, contains}
use zlchen_dsaa2031_project.Concurrency.Transaction.{
  TransactionState, committed, is_aborted, is_growing, contains-erase,
}
use zlchen_dsaa2031_project.Concurrency.LockManager.{
  System, Wait, running, in_shared, in_exclusive, in_upgrade, set_state, lock_shared,
  lock_exclusive, lock_upgrade, resume_shared, resume_exclusive, resume_upgrade, release, wake,
  unlock,
}
use zlchen_dsaa2031_project.Concurrency.LockManager.Steps.{clear_sets}

-- A transaction's own view of the system.
abbrev pub IsDone : System → ℕ → Type 0
IsDone s t =
    (is_growing (s.txns t).state ≡ false)
    × (is_aborted (s.txns t).state ≡ false → s.waits t ≡ running)

-- What a step from `s` to `s'` does to the transaction.
pub record Settles (s s' : System) (t : ℕ) : Type 0 where
  pub waits_growing :
      (is_growing (s.txns t).state ≡ false
        → is_aborted (s.txns t).state ≡ false
        → s.waits t ≡ running)
      → is_growing (s'.txns t).state ≡ false
      → is_aborted (s'.txns t).state ≡ false
      → s'.waits t ≡ running
  pub stays_done : IsDone s t → is_growing (s'.txns t).state ≡ false
  pub shared_within :
      IsDone s t
      → (r : ℕ) → contains r (s'.txns t).shared_lock_set ≡ true
      → contains r (s.txns t).shared_lock_set ≡ true
  pub exclusive_within :
      IsDone s t
      → (r : ℕ) → contains r (s'.txns t).exclusive_lock_set ≡ true
      → contains r (s.txns t).exclusive_lock_set ≡ true

-- A step that leaves the transaction as it is, and its thread.
pub same-Settles :
    (s s' : System) (t : ℕ) → s'.txns t ≡ s.txns t → s'.waits t ≡ s.waits t → Settles s s' t
same-Settles s s' t e w = record {
  waits_growing = λ h a b. w ∙ h (ground (arith, e, a)) (ground (arith, e, b));
  stays_done = λ d. ground (arith, e, d.0);
  shared_within = λ d r h. ground (arith, e, h);
  exclusive_within = λ d r h. ground (arith, e, h);
}

pub wake-Settles : (s : System) (t : ℕ) (w : Wait) → s.waits t ≡ w → Settles s (wake s t).0 t
unfolding wake resume_shared resume_exclusive resume_upgrade
wake-Settles s t running e = rw (e, wake) (same-Settles s s t refl refl)
wake-Settles s t (in_shared r) e =
    rw (e, wake)
      record {
        waits_growing = λ h a b. ground (arith, e, h);
        stays_done = λ d. ground (arith, e, d.0, d.1);
        shared_within = λ d q h. ground (arith, e, h, d.0, d.1);
        exclusive_within = λ d q h. ground (arith, e, h, d.0, d.1);
      }
wake-Settles s t (in_exclusive r) e =
    rw (e, wake)
      record {
        waits_growing = λ h a b. ground (arith, e, h);
        stays_done = λ d. ground (arith, e, d.0, d.1);
        shared_within = λ d q h. ground (arith, e, h, d.0, d.1);
        exclusive_within = λ d q h. ground (arith, e, h, d.0, d.1);
      }
wake-Settles s t (in_upgrade r) e =
    rw (e, wake)
      record {
        waits_growing = λ h a b. ground (arith, e, h);
        stays_done = λ d. ground (arith, e, d.0, d.1);
        shared_within = λ d q h. ground (arith, e, h, d.0, d.1);
        exclusive_within = λ d q h. ground (arith, e, h, d.0, d.1);
      }

pub lock_shared-Settles :
    (s : System) (t r : ℕ)
    → s.waits t ≡ running
    → (s.txns t).state ≢ committed
    → Settles s (lock_shared s t r).0 t
unfolding lock_shared resume_shared
lock_shared-Settles s t r e o = record {
  waits_growing = λ h a b. ground (arith, e, h);
  stays_done = λ d. ground (arith, e, o, d.0);
  shared_within = λ d q h. ground (arith, e, o, h, d.0);
  exclusive_within = λ d q h. ground (arith, e, o, h, d.0);
}

pub lock_exclusive-Settles :
    (s : System) (t r : ℕ)
    → s.waits t ≡ running
    → (s.txns t).state ≢ committed
    → Settles s (lock_exclusive s t r).0 t
unfolding lock_exclusive resume_exclusive
lock_exclusive-Settles s t r e o = record {
  waits_growing = λ h a b. ground (arith, e, h);
  stays_done = λ d. ground (arith, e, o, d.0);
  shared_within = λ d q h. ground (arith, e, o, h, d.0);
  exclusive_within = λ d q h. ground (arith, e, o, h, d.0);
}

pub lock_upgrade-Settles :
    (s : System) (t r : ℕ)
    → s.waits t ≡ running
    → (s.txns t).state ≢ committed
    → Settles s (lock_upgrade s t r).0 t
unfolding lock_upgrade resume_upgrade
lock_upgrade-Settles s t r e o = record {
  waits_growing = λ h a b. ground (arith, e, h);
  stays_done = λ d. ground (arith, e, o, d.0);
  shared_within = λ d q h. ground (arith, e, o, h, d.0);
  exclusive_within = λ d q h. ground (arith, e, o, h, d.0);
}

pub unlock-Settles :
    (s : System) (t r : ℕ)
    → (s.waits t ≡ running) ⊎ (is_aborted (s.txns t).state ≡ true)
    → Settles s (unlock s t r).0 t
unfolding unlock release
unlock-Settles s t r may = record {
  waits_growing = λ h a b. ground (arith, may, h);
  stays_done = λ d. ground (arith, d.0);
  shared_within = λ d q h. ground (arith, contains-erase r q (s.txns t).shared_lock_set, h);
  exclusive_within = λ d q h. ground (arith, contains-erase r q (s.txns t).exclusive_lock_set, h);
}

pub set_state-Settles :
    (s : System) (t : ℕ) (st : TransactionState)
    → is_growing st ≡ false
    → (is_aborted st ≡ false → s.waits t ≡ running)
    → Settles s (set_state s t st) t
set_state-Settles s t st old idle = record {
  waits_growing = λ h a b. idle (ground arith);
  stays_done = λ d. ground arith;
  shared_within = λ d q h. ground arith;
  exclusive_within = λ d q h. ground arith;
}

pub clear_sets-Settles : (s : System) (t : ℕ) → Settles s (clear_sets s t) t
clear_sets-Settles s t = record {
  waits_growing = λ h a b. h (ground arith) (ground arith);
  stays_done = λ d. ground (arith, d.0);
  shared_within = λ d q h. absurd (ground arith);
  exclusive_within = λ d q h. absurd (ground arith);
}

-- The calls of another transaction.
module _ (s : System) (t u r : ℕ) (other : t ≢ u) where
  pub lock_shared-elsewhere : Settles s (lock_shared s t r).0 u
  unfolding lock_shared resume_shared
  lock_shared-elsewhere = same-Settles s _ u (ground arith) (ground arith)

  pub lock_exclusive-elsewhere : Settles s (lock_exclusive s t r).0 u
  unfolding lock_exclusive resume_exclusive
  lock_exclusive-elsewhere = same-Settles s _ u (ground arith) (ground arith)

  pub lock_upgrade-elsewhere : Settles s (lock_upgrade s t r).0 u
  unfolding lock_upgrade resume_upgrade
  lock_upgrade-elsewhere = same-Settles s _ u (ground arith) (ground arith)

  pub unlock-elsewhere : Settles s (unlock s t r).0 u
  unfolding unlock release
  unlock-elsewhere = same-Settles s _ u (ground arith) (ground arith)

pub wake-elsewhere : (s : System) (t u : ℕ) → t ≢ u → Settles s (wake s t).0 u
unfolding wake resume_shared resume_exclusive resume_upgrade
wake-elsewhere s t u other = same-Settles s _ u (ground arith) (ground arith)

pub set_state-elsewhere :
    (s : System) (t u : ℕ) (st : TransactionState) → t ≢ u → Settles s (set_state s t st) u
set_state-elsewhere s t u st other = same-Settles s _ u (ground arith) refl
