-- ===== src/Concurrency/LockManager/Calls.antt =====
-- Each call of the lock manager keeps the invariant, from a thread that is not in a wait.
use zlchen_dsaa2031_project.Prelude.{
  ap, lookup-insert, ℕ, ◌≡◌, ◌≢◌, refl, subst, List, [], Bool, true, false, ◌||◌, arith, contains,
  Bool-cases, inl, inr,
}
use native.Mathlib.Decide.{ℕ_discrete}
use zlchen_dsaa2031_project.Concurrency.Transaction.{
  Transaction, TransactionState, committed, aborted, is_aborted, is_growing, is_shrinking,
}
use zlchen_dsaa2031_project.Concurrency.Requests.{
  LockRequest, LockMode, shared, exclusive, emplace_back, upgrade, has_shared,
}
use zlchen_dsaa2031_project.Concurrency.Requests.Own.{
  own, granted_in, ungranted, own-emplace_back, own-upgrade, granted_to_other_some,
}
use zlchen_dsaa2031_project.Concurrency.Requests.Mine.{
  any_granted-emplace_back, granted_in-emplace_back, has_mode-emplace_back, ungranted-emplace_back,
  granted_in-upgrade, any_granted-upgrade, ungranted-upgrade,
}
use zlchen_dsaa2031_project.Concurrency.LockManager.{
  System, RequestQueue, Wait, running, in_shared, in_exclusive, in_upgrade, set_state, set_queue,
  queue_at, enqueue, lock_shared, lock_exclusive, lock_upgrade, wake,
}
use zlchen_dsaa2031_project.Concurrency.LockManager.Rows.{
  mine, own_row, own_row-insert, update_at, on_row, Fits, FitsAt, IsValid,
}
use zlchen_dsaa2031_project.Concurrency.LockManager.Asked.{Asked}
use zlchen_dsaa2031_project.Concurrency.LockManager.Grants.{
  Pending, resume_shared-IsValid, resume_exclusive-IsValid,
}
use zlchen_dsaa2031_project.Concurrency.LockManager.Upgrades.{Converting, resume_upgrade-IsValid}

Fits-aborted :
    (st : TransactionState) (a b : Bool) (w : Wait) (r : ℕ) (l : List LockRequest)
    → Fits st a b w r l
    → Fits aborted a b w r l
Fits-aborted st a b w r l f = record {
  holds_exclusive = λ alive. absurd (ground arith);
  holds_shared = λ alive. absurd (ground arith);
  one_pending = f.one_pending;
  asks_shared = λ alive. absurd (ground arith);
  asks_exclusive = λ alive. absurd (ground arith);
  upgrades = λ alive. absurd (ground arith);
  no_trace = λ young. absurd (ground arith);
  no_exclusive = λ young. absurd (ground arith);
}

still : (s : System) (t r : ℕ) → ((q : ℕ) → r ≢ q → on_row (s.waits t) q ≡ false) → Asked s t r s
still s t r away = record {
  same_txns = refl;
  same_waits = refl;
  mine_other = λ u other. refl;
  rows_other = λ q u other. refl;
  was_here = away;
}

-- Setting a transaction's state to aborted keeps the invariant, at any time.
pub set_aborted-IsValid : (s : System) (t : ℕ) → IsValid s → IsValid (set_state s t aborted)
set_aborted-IsValid s t v = record {
  fits = λ u r. elim (ℕ_discrete t u) [
    | yes e ↦
        subst (λ k. FitsAt (set_state s t aborted) k r) e
          (rw (update_at s.txns t gone) (Fits-aborted _ _ _ _ _ _ (v.fits t r)))
    | no away ↦ rw (elsewhere u away) (v.fits u r)
  ];
  excludes = v.excludes;
}
  where
    gone : Transaction
    gone = record (s.txns t) { state = aborted }

    elsewhere : (u : ℕ) → t ≢ u → (set_state s t aborted).txns u ≡ s.txns u
    elsewhere u away = ground arith

-- `lock_table_[rid]` may make an empty queue, which changes no row.
touch_queue-IsValid : (s : System) (r : ℕ) → IsValid s → IsValid (set_queue s r (queue_at s r))
unfolding own_row
touch_queue-IsValid s r v = record {
  fits = λ u q. rw (same q u) (v.fits u q);
  excludes = λ u w q different. rw (same q u, same q w) (v.excludes u w q different);
}
  where
    same : (q u : ℕ) → mine (set_queue s r (queue_at s r)) q u ≡ mine s q u
    same q u = ground (arith, own_row-insert s.lock_table r q (queue_at s r) u)

nothing : granted_in shared [] ≡ false
unfolding granted_in
nothing = refl

module _ (s : System) (t r : ℕ) (v : IsValid s) (idle : s.waits t ≡ running) where
  young :
      is_shrinking (s.txns t).state ≡ false
      → is_aborted (s.txns t).state ≡ false
      → (s.txns t).state ≢ committed
      → is_growing (s.txns t).state ≡ true
  young a b c = ground arith

  written : (q : RequestQueue) → mine (set_queue s r q) r t ≡ own t q.request_queue
  written q = ground (arith, own_row-insert s.lock_table r r q t)

  written-Asked :
      (q : RequestQueue)
      → ((u : ℕ) → t ≢ u → own u q.request_queue ≡ mine s r u)
      → Asked s t r (set_queue s r q)
  written-Asked q same = record {
    same_txns = refl;
    same_waits = refl;
    mine_other = λ u other. ground (arith, own_row-insert s.lock_table r r q u, same u other);
    rows_other = λ k u other. ground (arith, own_row-insert s.lock_table r k q u);
    was_here = λ k other. rw idle refl;
  }

  none_pending : ungranted (mine s r t) ≡ 0
  none_pending = ground (arith, (v.fits t r).one_pending, idle)

  enqueue-Pending :
      (m : LockMode) → granted_in m (mine s r t) ≡ false → Pending s t r m (enqueue s t r m)
  unfolding own_row
  enqueue-Pending m new = record {
    asked = written-Asked _ (λ u other. own-emplace_back t u other m q);
    has = λ alive. ground (arith, here, has_mode-emplace_back t m q);
    not_granted = λ alive. ground (arith, here, granted_in-emplace_back t m m q);
    one = omega (arith, ap ungranted here, ungranted-emplace_back t m q, none_pending);
    same_any = ground (arith, here, any_granted-emplace_back t m q);
    same_in = λ n. ground (arith, here, granted_in-emplace_back t m n q);
    not_upgrading = λ e. ground (arith, idle);
  }
    where
      q : List LockRequest
      q = (queue_at s r).request_queue

      here : mine (enqueue s t r m) r t ≡ own t (emplace_back t m q)
      here = written (record (queue_at s r) { request_queue = emplace_back t m q })

  -- `LockShared` keeps the invariant.
  pub lock_shared-IsValid : (s.txns t).state ≢ committed → IsValid (lock_shared s t r).0
  unfolding lock_shared
  lock_shared-IsValid open_ = elim (Bool-cases (is_shrinking (s.txns t).state)) [
    | inl late ↦ rw late (set_aborted-IsValid s t v)
    | inr early ↦ elim (Bool-cases (is_aborted (s.txns t).state)) [
      | inl gone ↦ rw (early, gone) v
      | inr alive ↦
          elim (Bool-cases
            (contains r (s.txns t).shared_lock_set || contains r (s.txns t).exclusive_lock_set)) [
              | inl held ↦ rw (early, alive, held) v
              | inr new ↦
                  rw (early, alive, new)
                    (resume_shared-IsValid s t r (enqueue s t r shared) v (
                      enqueue-Pending shared (
                        absent (mine s r t) (
                          (v.fits t r).no_trace (young early alive open_) (rw idle refl)
                            (ground arith) (ground arith)))))
            ]
    ]
  ]
    where
      absent : (l : List LockRequest) → l ≡ [] → granted_in shared l ≡ false
      absent l e = rw e nothing

  -- `LockExclusive` keeps the invariant.
  pub lock_exclusive-IsValid : (s.txns t).state ≢ committed → IsValid (lock_exclusive s t r).0
  unfolding lock_exclusive
  lock_exclusive-IsValid open_ = elim (Bool-cases (is_shrinking (s.txns t).state)) [
    | inl late ↦ rw late (set_aborted-IsValid s t v)
    | inr early ↦ elim (Bool-cases (is_aborted (s.txns t).state)) [
      | inl gone ↦ rw (early, gone) v
      | inr alive ↦ elim (Bool-cases (contains r (s.txns t).exclusive_lock_set)) [
        | inl held ↦ rw (early, alive, held) v
        | inr new ↦
            rw (early, alive, new)
              (resume_exclusive-IsValid s t r (enqueue s t r exclusive) v (
                enqueue-Pending exclusive
                  ((v.fits t r).no_exclusive (young early alive open_) (rw idle refl) new)))
      ]
    ]
  ]

  convert-Converting :
      has_shared t (queue_at s r).request_queue ≡ true
      → Converting s t r (
          set_queue s r
            (record { request_queue = upgrade t (queue_at s r).request_queue; upgrading = true }))
  unfolding own_row
  convert-Converting found = record {
    asked = written-Asked q' (λ u other. own-upgrade t u other q);
    has = λ alive. ground (arith, here, granted_in-upgrade t q found none_pending);
    none_pending = omega (arith, ap ungranted here, ungranted-upgrade t q, none_pending);
    same_any = ground (arith, here, any_granted-upgrade t q);
    fresh = λ alive taken. elim (Bool-cases (contains r (s.txns t).exclusive_lock_set)) [
      | inr new ↦ new
      | inl held ↦
          let (u, other, g) = granted_to_other_some t (upgrade t q) (ground (arith, row, taken)) in
          let waits =
            v.excludes t u r other ((v.fits t r).holds_exclusive alive held)
              (ground (arith, g, own-upgrade t u other q)) in
          absurd (ground (arith, idle, waits))
    ];
  }
    where
      q : List LockRequest
      q = (queue_at s r).request_queue

      q' : RequestQueue
      q' = record { request_queue = upgrade t q; upgrading = true }

      here : mine (set_queue s r q') r t ≡ own t (upgrade t q)
      here = written q'

      row : queue_at (set_queue s r q') r ≡ q'
      row = ground (arith, lookup-insert r r q' s.lock_table)

  -- `LockUpgrade` keeps the invariant.
  pub lock_upgrade-IsValid : IsValid (lock_upgrade s t r).0
  unfolding lock_upgrade
  lock_upgrade-IsValid = elim (Bool-cases (is_shrinking (s.txns t).state)) [
    | inl late ↦ rw late (set_aborted-IsValid s t v)
    | inr early ↦ elim (Bool-cases (is_aborted (s.txns t).state)) [
      | inl gone ↦ rw (early, gone) v
      | inr alive ↦ elim (Bool-cases (queue_at s r).upgrading) [
        | inl busy ↦
            rw (early, alive, busy)
              (set_aborted-IsValid (set_queue s r (queue_at s r)) t (touch_queue-IsValid s r v))
        | inr calm ↦ elim (Bool-cases (has_shared t (queue_at s r).request_queue)) [
          | inl found ↦
              rw (early, alive, calm, found)
                (resume_upgrade-IsValid s t r _ v (convert-Converting found))
          | inr none_held ↦
              rw (early, alive, calm, none_held)
                (set_aborted-IsValid (set_queue s r (queue_at s r)) t (touch_queue-IsValid s r v))
        ]
      ]
    ]
  ]

-- A wake-up keeps the invariant, whether the predicate holds by then or not.
pub wake-IsValid :
    (s : System) (t : ℕ) (w : Wait) → IsValid s → s.waits t ≡ w → IsValid (wake s t).0
unfolding wake
wake-IsValid s t running v e = rw (e, wake) v
wake-IsValid s t (in_shared r) v e =
    rw (e, wake)
      (resume_shared-IsValid s t r s v (record {
        asked = still s t r (λ q other. rw e (ground arith));
        has = λ alive. ((v.fits t r).asks_shared alive e).0;
        not_granted = λ alive. ((v.fits t r).asks_shared alive e).1;
        one = ground (arith, (v.fits t r).one_pending, e);
        same_any = refl;
        same_in = λ n. refl;
        not_upgrading = λ e'. ground (arith, e);
      }))
wake-IsValid s t (in_exclusive r) v e =
    rw (e, wake)
      (resume_exclusive-IsValid s t r s v (record {
        asked = still s t r (λ q other. rw e (ground arith));
        has = λ alive. ((v.fits t r).asks_exclusive alive e).0;
        not_granted = λ alive. ((v.fits t r).asks_exclusive alive e).1;
        one = ground (arith, (v.fits t r).one_pending, e);
        same_any = refl;
        same_in = λ n. refl;
        not_upgrading = λ e'. ground (arith, e);
      }))
wake-IsValid s t (in_upgrade r) v e =
    rw (e, wake)
      (resume_upgrade-IsValid s t r s v (record {
        asked = still s t r (λ q other. rw e (ground arith));
        has = λ alive. ((v.fits t r).upgrades alive e).0;
        none_pending = ground (arith, (v.fits t r).one_pending, e);
        same_any = refl;
        fresh = λ alive _. ((v.fits t r).upgrades alive e).1;
      }))
