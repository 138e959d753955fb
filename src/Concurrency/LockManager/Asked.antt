-- ===== src/Concurrency/LockManager/Asked.antt =====
-- A call between its request and its answer: the state when the wait's predicate is tested.
use zlchen_dsaa2031_project.Prelude.{
  inl, ℕ, subst, sym, ◌≡◌, ◌≢◌, refl, List, true, false, arith, contains,
}
use zlchen_dsaa2031_project.Concurrency.Transaction.{Transaction}
use zlchen_dsaa2031_project.Concurrency.Requests.{LockRequest, exclusive}
use zlchen_dsaa2031_project.Concurrency.Requests.Own.{own, any_granted, granted_in}
use zlchen_dsaa2031_project.Concurrency.LockManager.{
  in_upgrade, System, RequestQueue, Wait, update, set_txn, set_wait, set_queue,
}
use zlchen_dsaa2031_project.Concurrency.LockManager.Rows.{
  mine, own_row-insert, update_at, on_row, Ages, Local, Fits, IsValid, Local-IsValid,
}

-- `s1` is the valid state `s`, but for the requests of `t` for the row `r`.
pub record Asked (s : System) (t r : ℕ) (s1 : System) : Type 0 where
  pub same_txns : s1.txns ≡ s.txns
  pub same_waits : s1.waits ≡ s.waits
  pub mine_other : (u : ℕ) → t ≢ u → mine s1 r u ≡ mine s r u
  pub rows_other : (q u : ℕ) → r ≢ q → mine s1 q u ≡ mine s q u
  pub was_here : (q : ℕ) → r ≢ q → on_row (s.waits t) q ≡ false

module _ (s : System) (t r : ℕ) (s1 : System) (a : Asked s t r s1) where
  -- The thread stays in the wait.
  pub blocked-Local :
      (w : Wait) → ((q : ℕ) → r ≢ q → on_row w q ≡ false) → Local s t r (set_wait s1 t w)
  blocked-Local w here = record {
    txns_other = λ u other. rw a.same_txns refl;
    waits_other = λ u other. ground (arith, a.same_waits);
    mine_other = a.mine_other;
    rows_other = a.rows_other;
    shared_other = λ q other. rw a.same_txns refl;
    exclusive_other = λ q other. rw a.same_txns refl;
    ages = rw a.same_txns (λ h. h, λ h. h);
    place = λ q other. inl (a.was_here q other, ground (arith, here q other));
  }

  -- The queue of the row is written, and the thread leaves the wait.
  pub left-Local :
      (queue : RequestQueue) (w : Wait)
      → ((u : ℕ) → t ≢ u → own u queue.request_queue ≡ mine s1 r u)
      → ((q : ℕ) → r ≢ q → on_row w q ≡ false)
      → Local s t r (set_wait (set_queue s1 r queue) t w)
  left-Local queue w same here = record {
    txns_other = λ u other. rw a.same_txns refl;
    waits_other = λ u other. ground (arith, a.same_waits);
    mine_other = λ u other.
        ground
          (arith, own_row-insert s1.lock_table r r queue u, same u other, a.mine_other u other);
    rows_other = λ q u other.
        ground (arith, own_row-insert s1.lock_table r q queue u, a.rows_other q u other);
    shared_other = λ q other. rw a.same_txns refl;
    exclusive_other = λ q other. rw a.same_txns refl;
    ages = rw a.same_txns (λ h. h, λ h. h);
    place = λ q other. inl (a.was_here q other, ground (arith, here q other));
  }

  -- The transaction changes as well, in its lock sets at the row and in its state.
  pub held-Local :
      (queue : RequestQueue) (x : Transaction) (w : Wait)
      → ((u : ℕ) → t ≢ u → own u queue.request_queue ≡ mine s1 r u)
      → ((q : ℕ) → r ≢ q → on_row w q ≡ false)
      → ((q : ℕ) → r ≢ q → contains q x.shared_lock_set ≡ contains q (s1.txns t).shared_lock_set)
      → ((q : ℕ)
          → r ≢ q
          → contains q x.exclusive_lock_set ≡ contains q (s1.txns t).exclusive_lock_set)
      → Ages (s1.txns t).state x.state
      → Local s t r (set_wait (set_txn (set_queue s1 r queue) t x) t w)
  held-Local queue x w same here sh ex ages = record {
    txns_other = λ u other. ground (arith, a.same_txns);
    waits_other = λ u other. ground (arith, a.same_waits);
    mine_other = λ u other.
        ground
          (arith, own_row-insert s1.lock_table r r queue u, same u other, a.mine_other u other);
    rows_other = λ q u other.
        ground (arith, own_row-insert s1.lock_table r q queue u, a.rows_other q u other);
    shared_other = λ q other. ground (arith, sh q other, a.same_txns);
    exclusive_other = λ q other. ground (arith, ex q other, a.same_txns);
    ages =
        subst (λ g. Ages (g t).state (update s1.txns t x t).state) a.same_txns
          (subst (λ y. Ages (s1.txns t).state y.state) (sym (update_at s1.txns t x)) ages);
    place = λ q other. inl (a.was_here q other, ground (arith, here q other));
  }

-- A local change, from what it leaves its transaction.
pub settle-IsValid :
    (s : System) (t r : ℕ) (s' : System) (x : Transaction) (w : Wait) (l : List LockRequest)
    → IsValid s
    → Local s t r s'
    → s'.txns t ≡ x
    → s'.waits t ≡ w
    → mine s' r t ≡ l
    → Fits x.state (contains r x.shared_lock_set) (contains r x.exclusive_lock_set) w r l
    → ((u : ℕ)
        → t ≢ u
        → granted_in exclusive l ≡ true
        → any_granted (mine s r u) ≡ true
        → w ≡ in_upgrade r)
    → ((u : ℕ)
        → t ≢ u
        → granted_in exclusive (mine s r u) ≡ true
        → any_granted l ≡ true
        → s.waits u ≡ in_upgrade r)
    → IsValid s'
settle-IsValid s t r s' x w l v c ex ew el fits first others =
    Local-IsValid s t r s' v c (rw (ex, ew, el) fits)
      (λ u other h g. rw ew (first u other (rw el at h) g))
      (λ u other h g. others u other h (rw el at g))
