-- ===== src/Concurrency/LockManager/Steps.antt =====
-- The calls of the lock manager interleaved: every step is one that the latch makes whole. A
-- transaction calls when its thread is not in a wait, and not after its commit.
use zlchen_dsaa2031_project.Prelude.{
  ◌⊎◌, ℕ, ◌≡◌, ◌≢◌, lookup, refl, subst, [], Bool, true, false, arith, contains, Bool-cases, inl,
  inr,
}
use native.Mathlib.Decide.{ℕ_discrete}
use zlchen_dsaa2031_project.Concurrency.Transaction.{
  Transaction, IsolationLevel, committed, aborted, is_aborted, new_transaction,
}
use zlchen_dsaa2031_project.Concurrency.Requests.Own.{
  own, granted_in, any_granted, ungranted, any_granted_of_granted_in,
}
use zlchen_dsaa2031_project.Concurrency.Requests.{exclusive}
use zlchen_dsaa2031_project.Concurrency.LockManager.{
  System, running, set_txn, set_state, lock_shared, lock_exclusive, lock_upgrade, wake, unlock,
}
use zlchen_dsaa2031_project.Concurrency.LockManager.Rows.{
  mine, own_row, update_at, Fits, FitsAt, IsValid,
}
use zlchen_dsaa2031_project.Concurrency.LockManager.Calls.{
  set_aborted-IsValid, lock_shared-IsValid, lock_exclusive-IsValid, lock_upgrade-IsValid,
  wake-IsValid,
}
use zlchen_dsaa2031_project.Concurrency.LockManager.Unlocks.{unlock-IsValid}

abbrev pub clear_sets : System → ℕ → System
clear_sets s t = set_txn s t (record (s.txns t) { shared_lock_set = []; exclusive_lock_set = [] })

pub data Step (s : System) : System → Type 0 where
  locks_shared :
      (t r : ℕ) → s.waits t ≡ running → (s.txns t).state ≢ committed → Step s (lock_shared s t r).0
  locks_exclusive :
      (t r : ℕ)
      → s.waits t ≡ running
      → (s.txns t).state ≢ committed
      → Step s (lock_exclusive s t r).0
  locks_upgrade :
      (t r : ℕ) → s.waits t ≡ running → (s.txns t).state ≢ committed → Step s (lock_upgrade s t r).0
  wakes : (t : ℕ) → Step s (wake s t).0
  unlocks :
      (t r : ℕ)
      → (s.waits t ≡ running) ⊎ (is_aborted (s.txns t).state ≡ true)
      → Step s (unlock s t r).0
  -- Another thread aborts the transaction, at any time.
  aborts : (t : ℕ) → Step s (set_state s t aborted)
  -- `Commit` sets the state before it unlocks, and it and `Abort` clear the sets after that.
  commits :
      (t : ℕ)
      → s.waits t ≡ running
      → is_aborted (s.txns t).state ≡ false
      → Step s (set_state s t committed)
  clears :
      (t : ℕ) → (s.txns t).state ≡ committed ⊎ (s.txns t).state ≡ aborted → Step s (clear_sets s t)

pub data Steps (s : System) : System → Type 0 where
  stay : Steps s s
  next : (s' s'' : System) → Steps s s' → Step s' s'' → Steps s s''

unfoldable pub init : (ℕ → IsolationLevel) → System
init levels = record {
  txns = λ t. new_transaction (levels t);
  lock_table = [];
  waits = λ t. running;
}

pub init-IsValid : (levels : ℕ → IsolationLevel) → IsValid (init levels)
unfolding init own_row own new_transaction granted_in any_granted ungranted lookup
init-IsValid levels = record {
  fits = λ t r. record {
    holds_exclusive = λ alive held. absurd (ground arith);
    holds_shared = λ alive held. absurd (ground arith);
    one_pending = omega arith;
    asks_shared = λ alive e. absurd (ground arith);
    asks_exclusive = λ alive e. absurd (ground arith);
    upgrades = λ alive e. absurd (ground arith);
    no_trace = λ young away no_s no_x. refl;
    no_exclusive = λ young away no_x. refl;
  };
  excludes = λ t u r other g. absurd (ground arith);
}

-- A new transaction value for which the requests still fit.
replace-IsValid :
    (s : System) (t : ℕ) (x : Transaction)
    → IsValid s
    → ((r : ℕ)
        → Fits x.state
            (contains r x.shared_lock_set)
            (contains r x.exclusive_lock_set)
            (s.waits t)
            r
            (mine s r t))
    → IsValid (set_txn s t x)
replace-IsValid s t x v fits = record {
  fits = λ u r. elim (ℕ_discrete t u) [
    | yes e ↦ subst (λ k. FitsAt (set_txn s t x) k r) e (rw (update_at s.txns t x) (fits r))
    | no away ↦ rw (elsewhere u away) (v.fits u r)
  ];
  excludes = v.excludes;
}
  where
    elsewhere : (u : ℕ) → t ≢ u → (set_txn s t x).txns u ≡ s.txns u
    elsewhere u away = ground arith

set_committed-IsValid :
    (s : System) (t : ℕ)
    → IsValid s
    → s.waits t ≡ running
    → is_aborted (s.txns t).state ≡ false
    → IsValid (set_state s t committed)
set_committed-IsValid s t v idle alive = replace-IsValid s t _ v (λ r. record {
  holds_exclusive = λ _. (v.fits t r).holds_exclusive alive;
  holds_shared = λ _. (v.fits t r).holds_shared alive;
  one_pending = (v.fits t r).one_pending;
  asks_shared = λ _ e. absurd (ground (arith, idle));
  asks_exclusive = λ _ e. absurd (ground (arith, idle));
  upgrades = λ _ e. absurd (ground (arith, idle));
  no_trace = λ young. absurd (ground arith);
  no_exclusive = λ young. absurd (ground arith);
})

clear_sets-IsValid :
    (s : System) (t : ℕ)
    → IsValid s
    → (s.txns t).state ≡ committed ⊎ (s.txns t).state ≡ aborted
    → IsValid (clear_sets s t)
clear_sets-IsValid s t v over = replace-IsValid s t _ v (λ r. record {
  holds_exclusive = λ _ held. absurd (ground arith);
  holds_shared = λ _ held. absurd (ground arith);
  one_pending = (v.fits t r).one_pending;
  asks_shared = (v.fits t r).asks_shared;
  asks_exclusive = (v.fits t r).asks_exclusive;
  upgrades = λ alive e. (((v.fits t r).upgrades alive e).0, refl);
  no_trace = λ young. absurd (ground (arith, over));
  no_exclusive = λ young. absurd (ground (arith, over));
})

Step-IsValid : (s s' : System) → IsValid s → Step s s' → IsValid s'
Step-IsValid s _ v (locks_shared t r idle open_) = lock_shared-IsValid s t r v idle open_
Step-IsValid s _ v (locks_exclusive t r idle open_) = lock_exclusive-IsValid s t r v idle open_
Step-IsValid s _ v (locks_upgrade t r idle open_) = lock_upgrade-IsValid s t r v idle
Step-IsValid s _ v (wakes t) = wake-IsValid s t (s.waits t) v refl
Step-IsValid s _ v (unlocks t r may) = unlock-IsValid s t r v may
Step-IsValid s _ v (aborts t) = set_aborted-IsValid s t v
Step-IsValid s _ v (commits t idle alive) = set_committed-IsValid s t v idle alive
Step-IsValid s _ v (clears t over) = clear_sets-IsValid s t v over

pub Steps-IsValid : (s s' : System) → IsValid s → Steps s s' → IsValid s'
Steps-IsValid s _ v stay = v
Steps-IsValid s s'' v (next s' _ before last) =
    Step-IsValid s' s'' (Steps-IsValid s s' v before) last

alone :
    (s : System) (t u r : ℕ)
    → IsValid s
    → t ≢ u
    → is_aborted (s.txns t).state ≡ false
    → contains r (s.txns t).exclusive_lock_set ≡ true
    → any_granted (mine s r u) ≡ false
alone s t u r v other alive held = elim (Bool-cases (any_granted (mine s r u))) [
  | inr free ↦ free
  | inl taken ↦
      let f : FitsAt s t r = v.fits t r in
      let e = v.excludes t u r other (f.holds_exclusive alive held) taken in
      absurd (ground (arith, f.upgrades alive e))
]

-- Mutual exclusion. In every state that interleaved calls lead to, where a transaction calls only
-- while its thread is in no wait and asks for no lock after its commit, a row in the exclusive set
-- of a transaction that is not aborted is in neither lock set of any other transaction that is not
-- aborted.
pub exclusive_excludes :
    (levels : ℕ → IsolationLevel) (s : System) (t u r : ℕ)
    → Steps (init levels) s
    → t ≢ u
    → is_aborted (s.txns t).state ≡ false
    → is_aborted (s.txns u).state ≡ false
    → contains r (s.txns t).exclusive_lock_set ≡ true
    → (contains r (s.txns u).exclusive_lock_set ≡ false)
      × (contains r (s.txns u).shared_lock_set ≡ false)
exclusive_excludes levels s t u r steps other alive_t alive_u held =
    let v : IsValid s = Steps-IsValid _ s (init-IsValid levels) steps in
    let free = alone s t u r v other alive_t held in
    (
      not_true _ (λ x. not_both _ free (
          any_granted_of_granted_in exclusive (mine s r u)
            ((v.fits u r).holds_exclusive alive_u x))),
      not_true _ (λ x. not_both _ free ((v.fits u r).holds_shared alive_u x)),
    )
  where
    not_true : (b : Bool) → ¬ (b ≡ true) → b ≡ false
    not_true false h = refl
    not_true true h = absurd (h refl)

    not_both : (b : Bool) → b ≡ false → ¬ (b ≡ true)
    not_both b e h = ground arith
