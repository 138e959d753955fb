-- ===== src/Concurrency/LockManager/Upgrades.antt =====
-- From the wait of `LockUpgrade` on: each way out keeps the invariant.
use zlchen_dsaa2031_project.Prelude.{
  ◌∙◌, ℕ, ◌≡◌, refl, sym, List, [], true, false, arith, contains, Bool-cases, inl, inr,
}
use zlchen_dsaa2031_project.Concurrency.Transaction.{
  Transaction, is_aborted, insert, erase, contains-insert, contains-erase,
}
use zlchen_dsaa2031_project.Concurrency.Requests.{
  LockRequest, exclusive, granted_to_other, grant_any, drop_all,
}
use zlchen_dsaa2031_project.Concurrency.Requests.Own.{
  own, any_granted, granted_in, ungranted, own-grant_any, own-drop_all, granted_to_other_none,
  any_granted_of_granted_in,
}
use zlchen_dsaa2031_project.Concurrency.Requests.Mine.{own-grant_any_self, own-drop_all_self}
use zlchen_dsaa2031_project.Concurrency.LockManager.{
  System, RequestQueue, running, in_upgrade, set_txn, set_wait, set_queue, queue_at, resume_upgrade,
}
use zlchen_dsaa2031_project.Concurrency.LockManager.Rows.{
  mine, own_row, own_row-insert, update_at, IsValid,
}
use zlchen_dsaa2031_project.Concurrency.LockManager.Asked.{
  Asked, settle-IsValid, blocked-Local, left-Local, held-Local,
}

-- The transaction has an exclusive request for the row that counts as granted, beside the granted
-- requests of others perhaps.
pub record Converting (s : System) (t r : ℕ) (s1 : System) : Type 0 where
  pub asked : Asked s t r s1
  pub has : is_aborted (s1.txns t).state ≡ false → granted_in exclusive (mine s1 r t) ≡ true
  pub none_pending : ungranted (mine s1 r t) ≡ 0
  pub same_any : any_granted (mine s1 r t) ≡ any_granted (mine s r t)
  pub fresh :
      is_aborted (s1.txns t).state ≡ false
      → granted_to_other t (queue_at s1 r).request_queue ≡ true
      → contains r (s1.txns t).exclusive_lock_set ≡ false

module _ (s : System) (t r : ℕ) (s1 : System) (v : IsValid s) (c : Converting s t r s1) where
  abbrev q : List LockRequest
  q = (queue_at s1 r).request_queue

  abbrev ended : List LockRequest → RequestQueue
  ended l = record { request_queue = l; upgrading = false }

  given_up-IsValid :
      is_aborted (s1.txns t).state ≡ true
      → IsValid (set_wait (set_queue s1 r (ended (drop_all t q))) t running)
  unfolding own_row any_granted granted_in ungranted
  given_up-IsValid gone =
      settle-IsValid s t r _ (s1.txns t) running [] v
        (left-Local s t r s1 c.asked _ running (λ u other. own-drop_all t u other _)
          (λ k other. refl))
        refl (update_at s1.waits t running)
        (ground
          (arith, own_row-insert s1.lock_table r r (ended (drop_all t q)) t, own-drop_all_self t q))
        (record {
          holds_exclusive = λ alive. absurd (ground arith);
          holds_shared = λ alive. absurd (ground arith);
          one_pending = omega arith;
          asks_shared = λ alive. absurd (ground arith);
          asks_exclusive = λ alive. absurd (ground arith);
          upgrades = λ alive. absurd (ground arith);
          no_trace = λ young. absurd (ground arith);
          no_exclusive = λ young. absurd (ground arith);
        })
        (λ u other h g. absurd (ground arith)) (λ u other h g. absurd (ground arith))

  blocked-IsValid :
      is_aborted (s1.txns t).state ≡ false
      → granted_to_other t q ≡ true
      → IsValid (set_wait s1 t (in_upgrade r))
  blocked-IsValid alive taken =
      settle-IsValid s t r _ (s1.txns t) (in_upgrade r) (mine s1 r t) v
        (blocked-Local s t r s1 c.asked (in_upgrade r) (λ k other. ground arith)) refl
        (update_at s1.waits t (in_upgrade r)) refl
        (record {
          holds_exclusive = λ _ _. c.has alive;
          holds_shared = λ _ _. any_granted_of_granted_in exclusive _ (c.has alive);
          one_pending = omega (arith, c.none_pending);
          asks_shared = λ _ e. absurd (ground arith);
          asks_exclusive = λ _ e. absurd (ground arith);
          upgrades = λ _ e. (c.has alive, c.fresh alive taken);
          no_trace = λ young away. absurd (ground arith);
          no_exclusive = λ young away. absurd (ground arith);
        })
        (λ u other h g. refl)
        (λ u other h g. v.excludes u t r (λ e. other (sym e)) h (sym c.same_any ∙ g))

  granted-IsValid :
      is_aborted (s1.txns t).state ≡ false
      → granted_to_other t q ≡ false
      → IsValid (
          set_wait
            (set_txn (set_queue s1 r (ended (grant_any t q))) t (record (s1.txns t) {
              shared_lock_set = erase r (s1.txns t).shared_lock_set;
              exclusive_lock_set = insert r (s1.txns t).exclusive_lock_set;
            }))
            t
            running)
  unfolding own_row
  granted-IsValid alive free =
      settle-IsValid s t r _ x running (own t q) v
        (held-Local s t r s1 c.asked _ x running (λ u other. own-grant_any t u other _)
          (λ k other. refl)
          (λ k other. ground (arith, contains-erase r k (s1.txns t).shared_lock_set))
          (λ k other. ground (arith, contains-insert r k (s1.txns t).exclusive_lock_set))
          (λ h. h, λ h. h))
        (update_at s1.txns t x) (update_at s1.waits t running)
        (ground (
          arith,
          own_row-insert s1.lock_table r r (ended (grant_any t q)) t,
          own-grant_any_self t q c.none_pending,
        ))
        (record {
          holds_exclusive = λ _ _. c.has alive;
          holds_shared = λ _ _. any_granted_of_granted_in exclusive _ (c.has alive);
          one_pending = omega (arith, c.none_pending);
          asks_shared = λ _ e. absurd (ground arith);
          asks_exclusive = λ _ e. absurd (ground arith);
          upgrades = λ _ e. absurd (ground arith);
          no_trace = λ young away no_s no_x.
              absurd (ground (arith, contains-insert r r (s1.txns t).exclusive_lock_set));
          no_exclusive = λ young away no_x.
              absurd (ground (arith, contains-insert r r (s1.txns t).exclusive_lock_set));
        })
        (λ u other h g.
          absurd
            (ground (arith, g, c.asked.mine_other u other, granted_to_other_none t u q other free)))
        (λ u other h g. absurd (
          ground (
            arith,
            any_granted_of_granted_in exclusive _ h,
            c.asked.mine_other u other,
            granted_to_other_none t u q other free,
          )))
    where
      x : Transaction
      x = record (s1.txns t) {
        shared_lock_set = erase r (s1.txns t).shared_lock_set;
        exclusive_lock_set = insert r (s1.txns t).exclusive_lock_set;
      }

  -- Every way out of the wait of `LockUpgrade` keeps the invariant.
  pub resume_upgrade-IsValid : IsValid (resume_upgrade s1 t r).0
  unfolding resume_upgrade
  resume_upgrade-IsValid = elim (Bool-cases (is_aborted (s1.txns t).state)) [
    | inl gone ↦ rw gone (given_up-IsValid gone)
    | inr alive ↦ elim (Bool-cases (granted_to_other t q)) [
      | inl taken ↦ rw (alive, taken) (blocked-IsValid alive taken)
      | inr free ↦ rw (alive, free) (granted-IsValid alive free)
    ]
  ]
