-- ===== src/Concurrency/LockManager/Unlocks.antt =====
-- `Unlock` keeps the invariant of the lock manager.
use zlchen_dsaa2031_project.Prelude.{
  ap, ◌⊎◌, ℕ, ◌≡◌, ◌≢◌, ◌∷◌, Option, none, refl, sym, subst, List, [], true, false, arith, contains,
  lookup, Bool-cases, Option-cases, some, inl, inr,
}
use zlchen_dsaa2031_project.Concurrency.Transaction
use zlchen_dsaa2031_project.Concurrency.Transaction.{
  Transaction, TransactionState, growing, shrinking, committed, aborted, is_aborted, is_growing,
  contains-erase,
}
use zlchen_dsaa2031_project.Concurrency.Requests.{LockRequest, exclusive, erase_first, has_request}
use zlchen_dsaa2031_project.Concurrency.Requests.Own.{own, any_granted, own-erase_first}
use zlchen_dsaa2031_project.Concurrency.Requests.Mine.{
  any_granted-erase_first, granted_in-erase_first, ungranted-erase_first,
}
use zlchen_dsaa2031_project.Concurrency.LockManager.{
  System, RequestQueue, running, set_txn, set_requests, queue_at, queue_or_new, unlock, release,
  shrink,
}
use zlchen_dsaa2031_project.Concurrency.LockManager.Rows.{
  mine, own_row, own_row-insert, update_at, Fits, Ages, IsValid, Local,
}
use zlchen_dsaa2031_project.Concurrency.LockManager.Asked.{settle-IsValid}

shrink-Ages : (st : TransactionState) → Ages st (shrink st)
shrink-Ages growing = (λ h. h, λ h. refl)
shrink-Ages shrinking = (λ h. h, λ h. h)
shrink-Ages committed = (λ h. h, λ h. h)
shrink-Ages aborted = (λ h. h, λ h. h)

shrink_not_growing : (st : TransactionState) → is_growing (shrink st) ≡ false
shrink_not_growing growing = refl
shrink_not_growing shrinking = refl
shrink_not_growing committed = refl
shrink_not_growing aborted = refl

module _ (s : System) (t r : ℕ) (v : IsValid s)
    (may : (s.waits t ≡ running) ⊎ (is_aborted (s.txns t).state ≡ true)) where
  abbrev after : Transaction
  after = record (s.txns t) {
    state = shrink (s.txns t).state;
    shared_lock_set = Transaction.erase r (s.txns t).shared_lock_set;
    exclusive_lock_set = Transaction.erase r (s.txns t).exclusive_lock_set;
  }

  abbrev requests : List LockRequest
  requests = (queue_at s r).request_queue

  abbrev released : System
  released = set_txn (set_requests s r (erase_first t requests)) t after

  here : own t requests ≡ mine s r t
  unfolding own_row
  here = refl

  runs : is_aborted (shrink (s.txns t).state) ≡ false → s.waits t ≡ running
  runs alive = ground (arith, may, (shrink-Ages (s.txns t).state).0 alive)

  others_own : (u : ℕ) → t ≢ u → own u (erase_first t requests) ≡ mine s r u
  unfolding own_row
  others_own u other = own-erase_first t u other requests

  released-Local : Local s t r released
  released-Local = record {
    txns_other = λ u other. ground arith;
    waits_other = λ u other. refl;
    mine_other = λ u other. ground (
      arith,
      own_row-insert s.lock_table r r
          (record (queue_at s r) { request_queue = erase_first t requests }) u,
      others_own u other,
    );
    rows_other = λ q u other. ground (
      arith,
      own_row-insert s.lock_table r q
          (record (queue_at s r) { request_queue = erase_first t requests }) u,
    );
    shared_other = λ q other.
        rw (update_at s.txns t after)
          (ground (arith, contains-erase r q (s.txns t).shared_lock_set));
    exclusive_other = λ q other.
        rw (update_at s.txns t after)
          (ground (arith, contains-erase r q (s.txns t).exclusive_lock_set));
    ages = rw (update_at s.txns t after) (shrink-Ages (s.txns t).state);
    place = λ q other. inr refl;
  }

  gone : (rs : List ℕ) → contains r (Transaction.erase r rs) ≡ false
  gone rs = ground (arith, contains-erase r r rs)

  released-Fits :
      Fits after.state
        (contains r after.shared_lock_set)
        (contains r after.exclusive_lock_set)
        (s.waits t)
        r
        (own t (erase_first t requests))
  unfolding own_row
  released-Fits = record {
    holds_exclusive = λ alive held. absurd (ground (arith, gone (s.txns t).exclusive_lock_set));
    holds_shared = λ alive held. absurd (ground (arith, gone (s.txns t).shared_lock_set));
    one_pending = omega (arith, (v.fits t r).one_pending, ungranted-erase_first t requests);
    asks_shared = λ alive e. absurd (ground (arith, runs alive));
    asks_exclusive = λ alive e. absurd (ground (arith, runs alive));
    upgrades = λ alive e. absurd (ground (arith, runs alive));
    no_trace = λ young. absurd (ground (arith, shrink_not_growing (s.txns t).state));
    no_exclusive = λ young. absurd (ground (arith, shrink_not_growing (s.txns t).state));
  }

  released-IsValid : IsValid released
  unfolding own_row
  released-IsValid =
      settle-IsValid s t r released after (s.waits t) (own t (erase_first t requests)) v
        released-Local (update_at s.txns t after) refl
        (ground (
          arith,
          own_row-insert s.lock_table r r
              (record (queue_at s r) { request_queue = erase_first t requests }) t,
        ))
        released-Fits
        (λ u other h g. v.excludes t u r other (granted_in-erase_first t exclusive requests h) g)
        (λ u other h g.
          v.excludes u t r (λ e. other (sym e)) h (any_granted-erase_first t requests g))

  -- `Unlock` keeps the invariant, for a thread that is not in a wait or an aborted transaction.
  pub unlock-IsValid : IsValid (unlock s t r).0
  unfolding unlock
  unlock-IsValid = elim (Option-cases (lookup r s.lock_table)) [
    | inl missing ↦ rw (missing, unlock) v
    | inr (q, found_row) ↦ elim (Bool-cases (has_request t q.request_queue)) [
      | inl found ↦
          rw (found_row, unlock)
            (rw found (
              subst (λ l. IsValid (set_txn (set_requests s r (erase_first t l)) t after))
                (same q found_row) released-IsValid))
      | inr nothing_there ↦ rw (found_row, unlock) (rw nothing_there v)
    ]
  ]
    where
      same : (q : RequestQueue) → lookup r s.lock_table ≡ some q → requests ≡ q.request_queue
      same q e = ap (λ o. (queue_or_new o).request_queue) e

has_request_of_own :
    (t : ℕ) (q : List LockRequest) → any_granted (own t q) ≡ true → has_request t q ≡ true
unfolding own any_granted has_request
has_request_of_own t [] h = absurd (ground arith)
has_request_of_own t (r ∷ q) h = ground (arith, has_request_of_own t q)

module _ (s : System) (t r : ℕ) (held : any_granted (mine s r t) ≡ true) where
  found :
      (o : Option RequestQueue)
      → lookup r s.lock_table ≡ o
      → has_request t (queue_or_new o).request_queue ≡ true
  unfolding own_row
  found o e = has_request_of_own t _ (ground (arith, e, held))

  -- `Unlock` of a held row erases it from both sets.
  pub unlock_erases :
      (contains r ((unlock s t r).0.txns t).shared_lock_set ≡ false)
      × (contains r ((unlock s t r).0.txns t).exclusive_lock_set ≡ false)
  unfolding unlock release has_request
  unlock_erases = elim (Option-cases (lookup r s.lock_table)) [
    | inl missing ↦ absurd (ground (arith, found none missing))
    | inr (q, row) ↦ (
      ground (arith, found (some q) row, contains-erase r r (s.txns t).shared_lock_set),
      ground (arith, found (some q) row, contains-erase r r (s.txns t).exclusive_lock_set),
    )
  ]
