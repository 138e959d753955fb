-- ===== src/Concurrency/Requests.antt =====
-- `LockRequest` and the list that a `LockRequestQueue` keeps:
-- src/include/onebase/concurrency/lock_manager.h, and the loops over the list in
-- src/concurrency/lock_manager.cpp.
pub mod Own
pub mod Mine
use zlchen_dsaa2031_project.Prelude.{
  ℕ, List, [], ◌∷◌, ◌++◌, Bool, true, false, not, ◌&&◌, ◌||◌, ◌==◌, if◌then◌else◌,
}

pub data LockMode : Type 0 where
  shared exclusive : LockMode

pub record LockRequest : Type 0 where
  pub txn_id : ℕ
  pub lock_mode : LockMode
  pub granted : Bool

abbrev pub is_exclusive : LockMode → Bool
is_exclusive exclusive = true
is_exclusive shared = false

abbrev pub same_mode : LockMode → LockMode → Bool
same_mode exclusive exclusive = true
same_mode shared shared = true
same_mode exclusive shared = false
same_mode shared exclusive = false

-- `emplace_back(txn_id, mode)`
abbrev pub emplace_back : ℕ → LockMode → List LockRequest → List LockRequest
emplace_back t m q = q ++ record { txn_id = t; lock_mode = m; granted = false } ∷ []

-- The loop of `LockShared`'s wait: a granted exclusive request, whoever's.
unfoldable pub exclusive_granted : List LockRequest → Bool
exclusive_granted [] = false
exclusive_granted (r ∷ q) = (r.granted && is_exclusive r.lock_mode) || exclusive_granted q

-- The loop of the other two waits: a granted request of another transaction.
unfoldable pub granted_to_other : ℕ → List LockRequest → Bool
granted_to_other t [] = false
granted_to_other t (r ∷ q) = (r.granted && not (r.txn_id == t)) || granted_to_other t q

-- The first request of the transaction in the given mode is marked as granted.
unfoldable pub grant : ℕ → LockMode → List LockRequest → List LockRequest
grant t m [] = []
grant t m (r ∷ q) =
    if (r.txn_id == t) && same_mode r.lock_mode m
    then record r { granted = true } ∷ q
    else r ∷ grant t m q

-- The first request of the transaction, whatever its mode.
unfoldable pub grant_any : ℕ → List LockRequest → List LockRequest
grant_any t [] = []
grant_any t (r ∷ q) = if r.txn_id == t then record r { granted = true } ∷ q else r ∷ grant_any t q

-- `LockUpgrade` turns the first shared request of the transaction into an exclusive one.
unfoldable pub upgrade : ℕ → List LockRequest → List LockRequest
upgrade t [] = []
upgrade t (r ∷ q) =
    if (r.txn_id == t) && same_mode r.lock_mode shared
    then record r { lock_mode = exclusive } ∷ q
    else r ∷ upgrade t q

-- Its `found`.
unfoldable pub has_shared : ℕ → List LockRequest → Bool
has_shared t [] = false
has_shared t (r ∷ q) = ((r.txn_id == t) && same_mode r.lock_mode shared) || has_shared t q

-- `Unlock` erases the first request of the transaction, and its `found`.
unfoldable pub erase_first : ℕ → List LockRequest → List LockRequest
erase_first t [] = []
erase_first t (r ∷ q) = if r.txn_id == t then q else r ∷ erase_first t q

unfoldable pub has_request : ℕ → List LockRequest → Bool
has_request t [] = false
has_request t (r ∷ q) = (r.txn_id == t) || has_request t q

-- `remove_if`: the requests of the transaction that are not granted.
unfoldable pub drop_ungranted : ℕ → List LockRequest → List LockRequest
drop_ungranted t [] = []
drop_ungranted t (r ∷ q) =
    if (r.txn_id == t) && not r.granted then drop_ungranted t q else r ∷ drop_ungranted t q

-- `remove_if`: all requests of the transaction.
unfoldable pub drop_all : ℕ → List LockRequest → List LockRequest
drop_all t [] = []
drop_all t (r ∷ q) = if r.txn_id == t then drop_all t q else r ∷ drop_all t q
