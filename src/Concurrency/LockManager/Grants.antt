-- ===== src/Concurrency/LockManager/Grants.antt =====
-- From the wait of `LockShared` or `LockExclusive` on: each way out keeps the invariant.
use zlchen_dsaa2031_project.Prelude.{
  ◌∙◌, ℕ, ◌≤◌, ◌≡◌, ◌≢◌, refl, subst, sym, List, Bool, true, false, ◌||◌, ◌==◌, arith, contains,
  lookup, if◌then◌else◌, Bool-cases, inl, inr,
}
use zlchen_dsaa2031_project.Prelude
use zlchen_dsaa2031_project.Concurrency.Transaction.{
  Transaction, is_aborted, insert, contains-insert,
}
use zlchen_dsaa2031_project.Concurrency.Requests.{
  LockRequest, LockMode, shared, exclusive, exclusive_granted, granted_to_other, grant,
  drop_ungranted,
}
use zlchen_dsaa2031_project.Concurrency.Requests.Own.{
  own, any_granted, granted_in, has_mode, ungranted, own-grant, own-drop_ungranted,
  exclusive_granted_none, granted_to_other_none, any_granted_of_granted_in,
}
use zlchen_dsaa2031_project.Concurrency.Requests.Mine.{
  granted_in-grant, granted_in-grant_shared, ungranted-grant, any_granted-drop_ungranted,
  granted_in-drop_ungranted, ungranted-drop_ungranted,
}
use zlchen_dsaa2031_project.Concurrency.LockManager.{
  System, RequestQueue, running, in_shared, in_exclusive, in_upgrade, set_txn, set_wait,
  set_requests, queue_at, resume_shared, resume_exclusive,
}
use zlchen_dsaa2031_project.Concurrency.LockManager.Rows.{
  mine, own_row, own_row-insert, update_at, Fits, IsValid,
}
use zlchen_dsaa2031_project.Concurrency.LockManager.Asked.{
  settle-IsValid, Asked, blocked-Local, left-Local, held-Local,
}

-- The transaction has one ungranted request for the row, in the mode.
pub record Pending (s : System) (t r : ℕ) (m : LockMode) (s1 : System) : Type 0 where
  pub asked : Asked s t r s1
  pub has : is_aborted (s1.txns t).state ≡ false → has_mode m (mine s1 r t) ≡ true
  pub not_granted : is_aborted (s1.txns t).state ≡ false → granted_in m (mine s1 r t) ≡ false
  pub one : ungranted (mine s1 r t) ≤ 1
  pub same_any : any_granted (mine s1 r t) ≡ any_granted (mine s r t)
  pub same_in : (n : LockMode) → granted_in n (mine s1 r t) ≡ granted_in n (mine s r t)
  pub not_upgrading : s.waits t ≢ in_upgrade r

Fits-before :
    (s : System) (t r : ℕ) (s1 : System)
    → IsValid s
    → Asked s t r s1
    → Fits
        (s1.txns t).state
        (contains r (s1.txns t).shared_lock_set)
        (contains r (s1.txns t).exclusive_lock_set)
        (s.waits t)
        r
        (mine s r t)
Fits-before s t r s1 v a = rw a.same_txns (v.fits t r)

module _ (s : System) (t r : ℕ) (s1 : System) (v : IsValid s) (m : LockMode)
    (p : Pending s t r m s1) where
  abbrev requests : List LockRequest
  requests = (queue_at s1 r).request_queue

  -- The requests for the row after its queue is written.
  written :
      (q : RequestQueue) → own_row (Prelude.insert r q s1.lock_table) r t ≡ own t q.request_queue
  written q = ground (arith, own_row-insert s1.lock_table r r q t)

  given_up-IsValid :
      is_aborted (s1.txns t).state ≡ true
      → IsValid (set_wait (set_requests s1 r (drop_ungranted t requests)) t running)
  unfolding own_row
  given_up-IsValid gone =
      settle-IsValid s t r _ (s1.txns t) running (own t (drop_ungranted t requests)) v
        (left-Local s t r s1 p.asked _ running (λ u other. own-drop_ungranted t u other _)
          (λ q other. refl))
        refl (update_at s1.waits t running) (written _)
        (record {
          holds_exclusive = λ alive. absurd (ground arith);
          holds_shared = λ alive. absurd (ground arith);
          one_pending = omega (arith, ungranted-drop_ungranted t requests);
          asks_shared = λ alive. absurd (ground arith);
          asks_exclusive = λ alive. absurd (ground arith);
          upgrades = λ alive. absurd (ground arith);
          no_trace = λ young. absurd (ground arith);
          no_exclusive = λ young. absurd (ground arith);
        })
        (λ u other h g. absurd (
          p.not_upgrading (
            v.excludes t u r other
              (ground (arith, granted_in-drop_ungranted t exclusive requests, p.same_in exclusive))
              g)))
        (λ u other h g.
          v.excludes u t r (λ e. other (sym e)) h
            (ground (arith, any_granted-drop_ungranted t requests, p.same_any)))

module _ (s : System) (t r : ℕ) (s1 : System) (v : IsValid s) where
  blocked_shared-IsValid : Pending s t r shared s1 → IsValid (set_wait s1 t (in_shared r))
  blocked_shared-IsValid p =
      settle-IsValid s t r _ (s1.txns t) (in_shared r) (mine s1 r t) v
        (blocked-Local s t r s1 p.asked (in_shared r) (λ q other. ground arith)) refl
        (update_at s1.waits t (in_shared r)) refl
        (record {
          holds_exclusive = λ alive held.
              p.same_in exclusive ∙ (Fits-before s t r s1 v p.asked).holds_exclusive alive held;
          holds_shared =
              λ alive held. p.same_any ∙ (Fits-before s t r s1 v p.asked).holds_shared alive held;
          one_pending = ground (arith, p.one);
          asks_shared = λ alive e. (p.has alive, p.not_granted alive);
          asks_exclusive = λ alive e. absurd (ground arith);
          upgrades = λ alive e. absurd (ground arith);
          no_trace = λ young away. absurd (ground arith);
          no_exclusive = λ young away. absurd (ground arith);
        })
        (λ u other h g.
          absurd (p.not_upgrading (v.excludes t u r other (sym (p.same_in exclusive) ∙ h) g)))
        (λ u other h g. v.excludes u t r (λ e. other (sym e)) h (sym p.same_any ∙ g))

  blocked_exclusive-IsValid : Pending s t r exclusive s1 → IsValid (set_wait s1 t (in_exclusive r))
  blocked_exclusive-IsValid p =
      settle-IsValid s t r _ (s1.txns t) (in_exclusive r) (mine s1 r t) v
        (blocked-Local s t r s1 p.asked (in_exclusive r) (λ q other. ground arith)) refl
        (update_at s1.waits t (in_exclusive r)) refl
        (record {
          holds_exclusive = λ alive held.
              p.same_in exclusive ∙ (Fits-before s t r s1 v p.asked).holds_exclusive alive held;
          holds_shared =
              λ alive held. p.same_any ∙ (Fits-before s t r s1 v p.asked).holds_shared alive held;
          one_pending = ground (arith, p.one);
          asks_shared = λ alive e. absurd (ground arith);
          asks_exclusive = λ alive e. (p.has alive, p.not_granted alive);
          upgrades = λ alive e. absurd (ground arith);
          no_trace = λ young away. absurd (ground arith);
          no_exclusive = λ young away. absurd (ground arith);
        })
        (λ u other h g.
          absurd (p.not_upgrading (v.excludes t u r other (sym (p.same_in exclusive) ∙ h) g)))
        (λ u other h g. v.excludes u t r (λ e. other (sym e)) h (sym p.same_any ∙ g))

  granted_shared-IsValid :
      Pending s t r shared s1
      → is_aborted (s1.txns t).state ≡ false
      → exclusive_granted (queue_at s1 r).request_queue ≡ false
      → IsValid (
          set_wait
            (set_txn
              (set_requests s1 r (grant t shared (queue_at s1 r).request_queue))
              t
              (record (s1.txns t) { shared_lock_set = insert r (s1.txns t).shared_lock_set }))
            t
            running)
  unfolding own_row
  granted_shared-IsValid p alive free =
      settle-IsValid s t r _ x running l v
        (held-Local s t r s1 p.asked _ x running (λ u other. own-grant t u other shared _)
          (λ q other. refl)
          (λ q other. ground (arith, contains-insert r q (s1.txns t).shared_lock_set))
          (λ q other. refl) (λ h. h, λ h. h))
        (update_at s1.txns t x) (update_at s1.waits t running) (written s t r s1 v shared p _)
        (record {
          holds_exclusive = λ _ held.
              granted_in-grant_shared t q
              ∙ p.same_in exclusive
              ∙ (Fits-before s t r s1 v p.asked).holds_exclusive alive held;
          holds_shared =
              λ _ _. any_granted_of_granted_in shared l (granted_in-grant t shared q (p.has alive));
          one_pending =
              omega (arith, ungranted-grant t shared q (p.has alive) (p.not_granted alive), p.one);
          asks_shared = λ _ e. absurd (ground arith);
          asks_exclusive = λ _ e. absurd (ground arith);
          upgrades = λ _ e. absurd (ground arith);
          no_trace = λ young away no_s.
              absurd (ground (arith, contains-insert r r (s1.txns t).shared_lock_set));
          no_exclusive =
              λ young away no_x. granted_in-grant_shared t q ∙ exclusive_granted_none t q free;
        })
        (λ u other h g.
          absurd (ground (arith, granted_in-grant_shared t q, exclusive_granted_none t q free)))
        (λ u other h g.
          absurd (ground (arith, p.asked.mine_other u other, exclusive_granted_none u q free)))
    where
      q : List LockRequest
      q = (queue_at s1 r).request_queue

      l : List LockRequest
      l = own t (grant t shared q)

      x : Transaction
      x = record (s1.txns t) { shared_lock_set = insert r (s1.txns t).shared_lock_set }

  granted_exclusive-IsValid :
      Pending s t r exclusive s1
      → is_aborted (s1.txns t).state ≡ false
      → granted_to_other t (queue_at s1 r).request_queue ≡ false
      → IsValid (
          set_wait
            (set_txn
              (set_requests s1 r (grant t exclusive (queue_at s1 r).request_queue))
              t
              (record (s1.txns t) { exclusive_lock_set = insert r (s1.txns t).exclusive_lock_set }))
            t
            running)
  unfolding own_row
  granted_exclusive-IsValid p alive free =
      settle-IsValid s t r _ x running l v
        (held-Local s t r s1 p.asked _ x running (λ u other. own-grant t u other exclusive _)
          (λ q other. refl) (λ q other. refl)
          (λ q other. ground (arith, contains-insert r q (s1.txns t).exclusive_lock_set))
          (λ h. h, λ h. h))
        (update_at s1.txns t x) (update_at s1.waits t running) (written s t r s1 v exclusive p _)
        (record {
          holds_exclusive = λ _ _. now;
          holds_shared = λ _ _. any_granted_of_granted_in exclusive l now;
          one_pending =
              omega
                (arith, ungranted-grant t exclusive q (p.has alive) (p.not_granted alive), p.one);
          asks_shared = λ _ e. absurd (ground arith);
          asks_exclusive = λ _ e. absurd (ground arith);
          upgrades = λ _ e. absurd (ground arith);
          no_trace = λ young away no_s no_x.
              absurd (ground (arith, contains-insert r r (s1.txns t).exclusive_lock_set));
          no_exclusive = λ young away no_x.
              absurd (ground (arith, contains-insert r r (s1.txns t).exclusive_lock_set));
        })
        (λ u other h g.
          absurd
            (ground (arith, g, p.asked.mine_other u other, granted_to_other_none t u q other free)))
        (λ u other h g. absurd (
          ground (
            arith,
            any_granted_of_granted_in exclusive _ h,
            p.asked.mine_other u other,
            granted_to_other_none t u q other free,
          )))
    where
      q : List LockRequest
      q = (queue_at s1 r).request_queue

      l : List LockRequest
      l = own t (grant t exclusive q)

      x : Transaction
      x = record (s1.txns t) { exclusive_lock_set = insert r (s1.txns t).exclusive_lock_set }

      now : granted_in exclusive l ≡ true
      now = granted_in-grant t exclusive q (p.has alive)

  -- Every way out of the wait of `LockShared` keeps the invariant.
  pub resume_shared-IsValid : Pending s t r shared s1 → IsValid (resume_shared s1 t r).0
  unfolding resume_shared
  resume_shared-IsValid p = elim (Bool-cases (is_aborted (s1.txns t).state)) [
    | inl gone ↦ rw gone (given_up-IsValid s t r s1 v shared p gone)
    | inr alive ↦ elim (Bool-cases (exclusive_granted (queue_at s1 r).request_queue)) [
      | inl taken ↦ rw (alive, taken) (blocked_shared-IsValid p)
      | inr free ↦ rw (alive, free) (granted_shared-IsValid p alive free)
    ]
  ]

  -- So does every way out of the wait of `LockExclusive`.
  pub resume_exclusive-IsValid : Pending s t r exclusive s1 → IsValid (resume_exclusive s1 t r).0
  unfolding resume_exclusive
  resume_exclusive-IsValid p = elim (Bool-cases (is_aborted (s1.txns t).state)) [
    | inl gone ↦ rw gone (given_up-IsValid s t r s1 v exclusive p gone)
    | inr alive ↦ elim (Bool-cases (granted_to_other t (queue_at s1 r).request_queue)) [
      | inl taken ↦ rw (alive, taken) (blocked_exclusive-IsValid p)
      | inr free ↦ rw (alive, free) (granted_exclusive-IsValid p alive free)
    ]
  ]
