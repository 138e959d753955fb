-- ===== src/Concurrency/TransactionManager/Ends.antt =====
-- How a commit and an abort end.
use zlchen_dsaa2031_project.Prelude.{
  ℕ, ◌≡◌, ap, ◌∙◌, List, [], ◌∷◌, none, some, is_some, ◌>>=◌, Bool, true, false, ◌&&◌, arith,
  contains,
}
use zlchen_dsaa2031_project.Concurrency.Transaction.{
  TransactionState, IsolationLevel, committed, aborted, is_aborted,
}
use zlchen_dsaa2031_project.Concurrency.Requests.{exclusive}
use zlchen_dsaa2031_project.Concurrency.Requests.Own.{any_granted, any_granted_of_granted_in}
use zlchen_dsaa2031_project.Concurrency.LockManager.{System, set_state}
use zlchen_dsaa2031_project.Concurrency.LockManager.Rows.{mine, update_at, IsValid}
use zlchen_dsaa2031_project.Concurrency.LockManager.Steps.{
  Steps, init, Steps-IsValid, init-IsValid, clear_sets,
}
use zlchen_dsaa2031_project.Concurrency.LockManager.Unlocks.{unlock_erases}
use zlchen_dsaa2031_project.Concurrency.TransactionManager.{
  unlock_each, release_all, release_rest, finish, commit, abort,
}

abbrev pub is_empty : List ℕ → Bool
is_empty [] = true
is_empty (x ∷ xs) = false

module _ (s : System) (t : ℕ) where
  stuck_shared :
      (r : ℕ) (rs : List ℕ)
      → any_granted (mine s r t) ≡ true
      → unlock_each (λ x. x.shared_lock_set) t s (r ∷ rs) ≡ none
  unfolding unlock_each
  stuck_shared r rs held = ground (arith, (unlock_erases s t r held).0)

  stuck_exclusive :
      (r : ℕ) (rs : List ℕ)
      → any_granted (mine s r t) ≡ true
      → unlock_each (λ x. x.exclusive_lock_set) t s (r ∷ rs) ≡ none
  unfolding unlock_each
  stuck_exclusive r rs held = ground (arith, (unlock_erases s t r held).1)

walk :
    (s : System) (t : ℕ) (S X : List ℕ)
    → ((r : ℕ) → contains r S ≡ true → any_granted (mine s r t) ≡ true)
    → ((r : ℕ) → contains r X ≡ true → any_granted (mine s r t) ≡ true)
    → (s.txns t).exclusive_lock_set ≡ X
    → is_some (release_all s t S) ≡ (is_empty S && is_empty X)
unfolding unlock_each
walk s t [] [] in_s in_x ex = ap (λ rows. is_some (release_rest s t rows)) ex
walk s t [] (r ∷ rs) in_s in_x ex =
    ap (λ rows. is_some (release_rest s t rows)) ex
    ∙ ap (λ o. is_some (o >>= (λ s2. some (clear_sets s2 t))))
        (stuck_exclusive s t r rs (in_x r (ground arith)))
walk s t (r ∷ rs) X in_s in_x ex =
    ap (λ o. is_some (o >>= (λ s1. release_rest s1 t (s1.txns t).exclusive_lock_set)))
      (stuck_shared s t r rs (in_s r (ground arith)))

ends :
    (st : TransactionState) (s : System) (t : ℕ)
    → IsValid s
    → is_aborted (s.txns t).state ≡ false
    → is_some (finish st s t)
      ≡ (is_empty (s.txns t).shared_lock_set && is_empty (s.txns t).exclusive_lock_set)
ends st s t v alive =
    walk (set_state s t st) t (s.txns t).shared_lock_set (s.txns t).exclusive_lock_set
      (λ r h. (v.fits t r).holds_shared alive h)
      (λ r h.
        any_granted_of_granted_in exclusive (mine s r t) ((v.fits t r).holds_exclusive alive h))
      (ap (λ x. x.exclusive_lock_set) (update_at s.txns t (record (s.txns t) { state = st })))

-- From a state that interleaved calls lead to, `Commit` and `Abort` of a transaction that is not
-- aborted run to their end if and only if the transaction holds no lock: from the first row that
-- they unlock, they otherwise go on with an iterator that `Unlock` has made invalid.
pub commit_defined :
    (levels : ℕ → IsolationLevel) (s : System) (t : ℕ)
    → Steps (init levels) s
    → is_aborted (s.txns t).state ≡ false
    → (is_some (commit s t)
        ≡ (is_empty (s.txns t).shared_lock_set && is_empty (s.txns t).exclusive_lock_set))
      × (is_some (abort s t)
          ≡ (is_empty (s.txns t).shared_lock_set && is_empty (s.txns t).exclusive_lock_set))
unfolding commit abort
commit_defined levels s t steps alive = (ends committed s t v alive, ends aborted s t v alive)
  where
    v : IsValid s
    v = Steps-IsValid _ s (init-IsValid levels) steps
