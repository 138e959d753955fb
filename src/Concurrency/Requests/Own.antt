-- ===== src/Concurrency/Requests/Own.antt =====
-- The requests of one transaction in a queue. What a call does to a queue, it does to those of its
-- own transaction.
use zlchen_dsaa2031_project.Prelude.{
  ℕ, ◌+◌, ◌≡◌, ◌≢◌, refl, List, [], ◌∷◌, Bool, true, false, not, ◌&&◌, ◌||◌, ◌==◌, arith,
  if◌then◌else◌, inl, inr, Bool-cases,
}
use zlchen_dsaa2031_project.Concurrency.Requests.{
  LockMode, exclusive, LockRequest, same_mode, emplace_back, exclusive_granted, granted_to_other,
  grant, grant_any, upgrade, erase_first, drop_ungranted, drop_all,
}

unfoldable pub own : ℕ → List LockRequest → List LockRequest
own u [] = []
own u (r ∷ q) = if r.txn_id == u then r ∷ own u q else own u q

unfoldable pub any_granted : List LockRequest → Bool
any_granted [] = false
any_granted (r ∷ q) = r.granted || any_granted q

-- A granted request in the mode.
unfoldable pub granted_in : LockMode → List LockRequest → Bool
granted_in m [] = false
granted_in m (r ∷ q) = (r.granted && same_mode r.lock_mode m) || granted_in m q

unfoldable pub has_mode : LockMode → List LockRequest → Bool
has_mode m [] = false
has_mode m (r ∷ q) = same_mode r.lock_mode m || has_mode m q

unfoldable pub ungranted : List LockRequest → ℕ
ungranted [] = 0
ungranted (r ∷ q) = (if r.granted then 0 else 1) + ungranted q

-- The calls of one transaction leave the requests of another alone.
module _ (t u : ℕ) (other : t ≢ u) where
  pub own-emplace_back :
      (m : LockMode) (q : List LockRequest) → own u (emplace_back t m q) ≡ own u q
  unfolding own
  own-emplace_back m [] = ground arith
  own-emplace_back m (r ∷ q) = ground (arith, own-emplace_back m q)

  pub own-grant : (m : LockMode) (q : List LockRequest) → own u (grant t m q) ≡ own u q
  unfolding own grant
  own-grant m [] = refl
  own-grant m (r ∷ q) = ground (arith, own-grant m q)

  pub own-grant_any : (q : List LockRequest) → own u (grant_any t q) ≡ own u q
  unfolding own grant_any
  own-grant_any [] = refl
  own-grant_any (r ∷ q) = ground (arith, own-grant_any q)

  pub own-upgrade : (q : List LockRequest) → own u (upgrade t q) ≡ own u q
  unfolding own upgrade
  own-upgrade [] = refl
  own-upgrade (r ∷ q) = ground (arith, own-upgrade q)

  pub own-erase_first : (q : List LockRequest) → own u (erase_first t q) ≡ own u q
  unfolding own erase_first
  own-erase_first [] = refl
  own-erase_first (r ∷ q) = ground (arith, own-erase_first q)

  pub own-drop_ungranted : (q : List LockRequest) → own u (drop_ungranted t q) ≡ own u q
  unfolding own drop_ungranted
  own-drop_ungranted [] = refl
  own-drop_ungranted (r ∷ q) = ground (arith, own-drop_ungranted q)

  pub own-drop_all : (q : List LockRequest) → own u (drop_all t q) ≡ own u q
  unfolding own drop_all
  own-drop_all [] = refl
  own-drop_all (r ∷ q) = ground (arith, own-drop_all q)

-- What the waits of the calls test.
pub exclusive_granted_none :
    (u : ℕ) (q : List LockRequest)
    → exclusive_granted q ≡ false
    → granted_in exclusive (own u q) ≡ false
unfolding own granted_in exclusive_granted
exclusive_granted_none u [] h = refl
exclusive_granted_none u (r ∷ q) h = ground (arith, exclusive_granted_none u q)

pub granted_to_other_none :
    (t u : ℕ) (q : List LockRequest)
    → t ≢ u
    → granted_to_other t q ≡ false
    → any_granted (own u q) ≡ false
unfolding own any_granted granted_to_other
granted_to_other_none t u [] other h = refl
granted_to_other_none t u (r ∷ q) other h = ground (arith, granted_to_other_none t u q)

pub granted_to_other_some :
    (t : ℕ) (q : List LockRequest)
    → granted_to_other t q ≡ true
    → (u : ℕ) × (t ≢ u) × (any_granted (own u q) ≡ true)
unfolding own any_granted granted_to_other
granted_to_other_some t [] h = absurd (ground arith)
granted_to_other_some t (r ∷ q) h = elim (Bool-cases (r.granted && not (r.txn_id == t))) [
  | inl this ↦ (r.txn_id, λ e. ground arith, ground arith)
  | inr later ↦
      let (u, other, found) = granted_to_other_some t q (ground arith) in
      (u, other, ground (arith, found))
]

pub any_granted_of_granted_in :
    (m : LockMode) (q : List LockRequest) → granted_in m q ≡ true → any_granted q ≡ true
unfolding any_granted granted_in
any_granted_of_granted_in m [] h = absurd (ground arith)
any_granted_of_granted_in m (r ∷ q) h = ground (arith, any_granted_of_granted_in m q)
