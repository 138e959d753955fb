-- ===== src/Concurrency/Requests/Mine.antt =====
-- What a call does to the requests of its own transaction.
use zlchen_dsaa2031_project.Prelude.{ℕ, ◌+◌, ◌≤◌, ◌≡◌, refl, List, [], ◌∷◌, true, false, arith}
use zlchen_dsaa2031_project.Concurrency.Requests.{
  LockMode, shared, exclusive, LockRequest, emplace_back, grant, grant_any, upgrade, has_shared,
  erase_first, drop_ungranted, drop_all,
}
use zlchen_dsaa2031_project.Concurrency.Requests.Own.{
  own, any_granted, granted_in, has_mode, ungranted,
}

module _ (t : ℕ) where
  -- A new request is ungranted, and nothing else changes.
  pub any_granted-emplace_back :
      (m : LockMode) (q : List LockRequest)
      → any_granted (own t (emplace_back t m q)) ≡ any_granted (own t q)
  unfolding own any_granted
  any_granted-emplace_back m [] = ground arith
  any_granted-emplace_back m (r ∷ q) = ground (arith, any_granted-emplace_back m q)

  pub granted_in-emplace_back :
      (m n : LockMode) (q : List LockRequest)
      → granted_in n (own t (emplace_back t m q)) ≡ granted_in n (own t q)
  unfolding own granted_in
  granted_in-emplace_back m n [] = ground arith
  granted_in-emplace_back m n (r ∷ q) = ground (arith, granted_in-emplace_back m n q)

  pub has_mode-emplace_back :
      (m : LockMode) (q : List LockRequest) → has_mode m (own t (emplace_back t m q)) ≡ true
  unfolding own has_mode
  has_mode-emplace_back m [] = ground arith
  has_mode-emplace_back m (r ∷ q) = ground (arith, has_mode-emplace_back m q)

  pub ungranted-emplace_back :
      (m : LockMode) (q : List LockRequest)
      → ungranted (own t (emplace_back t m q)) ≡ ungranted (own t q) + 1
  unfolding own ungranted
  ungranted-emplace_back m [] = ground arith
  ungranted-emplace_back m (r ∷ q) = ground (arith, ungranted-emplace_back m q)

  -- The grant of the one request of the mode.
  pub granted_in-grant :
      (m : LockMode) (q : List LockRequest)
      → has_mode m (own t q) ≡ true
      → granted_in m (own t (grant t m q)) ≡ true
  unfolding own granted_in has_mode grant
  granted_in-grant m [] h = absurd (ground arith)
  granted_in-grant m (r ∷ q) h = ground (arith, granted_in-grant m q)

  pub granted_in-grant_shared :
      (q : List LockRequest)
      → granted_in exclusive (own t (grant t shared q)) ≡ granted_in exclusive (own t q)
  unfolding own granted_in grant
  granted_in-grant_shared [] = refl
  granted_in-grant_shared (r ∷ q) = ground (arith, granted_in-grant_shared q)

  pub ungranted-grant :
      (m : LockMode) (q : List LockRequest)
      → has_mode m (own t q) ≡ true
      → granted_in m (own t q) ≡ false
      → ungranted (own t (grant t m q)) + 1 ≡ ungranted (own t q)
  unfolding own granted_in has_mode ungranted grant
  ungranted-grant m [] h g = absurd (ground arith)
  ungranted-grant m (r ∷ q) h g = ground (arith, ungranted-grant m q)

  -- Where every request is granted, granting one more time changes nothing.
  pub own-grant_any_self :
      (q : List LockRequest) → ungranted (own t q) ≡ 0 → own t (grant_any t q) ≡ own t q
  unfolding own ungranted grant_any
  own-grant_any_self [] h = refl
  own-grant_any_self (r ∷ q) h = ground (arith, own-grant_any_self q)

  pub has_shared-own : (q : List LockRequest) → has_shared t q ≡ has_mode shared (own t q)
  unfolding own has_mode has_shared
  has_shared-own [] = refl
  has_shared-own (r ∷ q) = ground (arith, has_shared-own q)

  -- The upgrade of a granted request.
  pub granted_in-upgrade :
      (q : List LockRequest)
      → has_shared t q ≡ true
      → ungranted (own t q) ≡ 0
      → granted_in exclusive (own t (upgrade t q)) ≡ true
  unfolding own granted_in ungranted has_shared upgrade
  granted_in-upgrade [] h g = absurd (ground arith)
  granted_in-upgrade (r ∷ q) h g = ground (arith, granted_in-upgrade q)

  pub any_granted-upgrade :
      (q : List LockRequest) → any_granted (own t (upgrade t q)) ≡ any_granted (own t q)
  unfolding own any_granted upgrade
  any_granted-upgrade [] = refl
  any_granted-upgrade (r ∷ q) = ground (arith, any_granted-upgrade q)

  pub ungranted-upgrade :
      (q : List LockRequest) → ungranted (own t (upgrade t q)) ≡ ungranted (own t q)
  unfolding own ungranted upgrade
  ungranted-upgrade [] = refl
  ungranted-upgrade (r ∷ q) = ground (arith, ungranted-upgrade q)

  -- Removals grant nothing.
  pub any_granted-erase_first :
      (q : List LockRequest)
      → any_granted (own t (erase_first t q)) ≡ true
      → any_granted (own t q) ≡ true
  unfolding own any_granted erase_first
  any_granted-erase_first [] h = h
  any_granted-erase_first (r ∷ q) h = ground (arith, any_granted-erase_first q)

  pub granted_in-erase_first :
      (m : LockMode) (q : List LockRequest)
      → granted_in m (own t (erase_first t q)) ≡ true
      → granted_in m (own t q) ≡ true
  unfolding own granted_in erase_first
  granted_in-erase_first m [] h = h
  granted_in-erase_first m (r ∷ q) h = ground (arith, granted_in-erase_first m q)

  pub ungranted-erase_first :
      (q : List LockRequest) → ungranted (own t (erase_first t q)) ≤ ungranted (own t q)
  unfolding own ungranted erase_first
  ungranted-erase_first [] = omega arith
  ungranted-erase_first (r ∷ q) = ground (arith, ungranted-erase_first q)

  pub any_granted-drop_ungranted :
      (q : List LockRequest) → any_granted (own t (drop_ungranted t q)) ≡ any_granted (own t q)
  unfolding own any_granted drop_ungranted
  any_granted-drop_ungranted [] = refl
  any_granted-drop_ungranted (r ∷ q) = ground (arith, any_granted-drop_ungranted q)

  pub granted_in-drop_ungranted :
      (m : LockMode) (q : List LockRequest)
      → granted_in m (own t (drop_ungranted t q)) ≡ granted_in m (own t q)
  unfolding own granted_in drop_ungranted
  granted_in-drop_ungranted m [] = refl
  granted_in-drop_ungranted m (r ∷ q) = ground (arith, granted_in-drop_ungranted m q)

  pub ungranted-drop_ungranted : (q : List LockRequest) → ungranted (own t (drop_ungranted t q)) ≡ 0
  unfolding own ungranted drop_ungranted
  ungranted-drop_ungranted [] = refl
  ungranted-drop_ungranted (r ∷ q) = ground (arith, ungranted-drop_ungranted q)

  pub own-drop_all_self : (q : List LockRequest) → own t (drop_all t q) ≡ []
  unfolding own drop_all
  own-drop_all_self [] = refl
  own-drop_all_self (r ∷ q) = ground (arith, own-drop_all_self q)
