-- ===== src/Concurrency/LockManager.antt =====
-- `LockManager`: src/concurrency/lock_manager.cpp. A call holds `latch_` but for the time that it
-- spends in `cv_.wait`, so each call is at most two steps: up to the first test of the wait's
-- predicate, and a wake-up that tests it again. A thread that stays in the wait is a note in
-- `waits`, its program counter. A transaction is run by one thread.
pub mod Rows
pub mod Asked
pub mod Grants
pub mod Upgrades
pub mod Calls
pub mod Unlocks
pub mod Steps
pub mod Settles
pub mod TwoPhase
pub mod Tests
use zlchen_dsaa2031_project.Prelude.{
  ℕ, List, [], ◌∷◌, Option, none, some, Bool, true, false, not, ◌||◌, ◌==◌, lookup, insert,
  if◌then◌else◌, contains,
}
use zlchen_dsaa2031_project.Concurrency.Transaction
use zlchen_dsaa2031_project.Concurrency.Transaction.{
  Transaction, TransactionState, growing, shrinking, committed, aborted, is_aborted, is_growing,
  is_shrinking,
}
use zlchen_dsaa2031_project.Concurrency.Requests.{
  LockRequest, LockMode, shared, exclusive, emplace_back, exclusive_granted, granted_to_other,
  grant, grant_any, upgrade, has_shared, erase_first, has_request, drop_ungranted, drop_all,
}

pub record RequestQueue : Type 0 where
  pub request_queue : List LockRequest
  pub upgrading : Bool

-- Where the thread of a transaction stands.
pub data Wait : Type 0 where
  running : Wait
  in_shared : ℕ → Wait
  in_exclusive : ℕ → Wait
  in_upgrade : ℕ → Wait

pub record System : Type 0 where
  pub txns : ℕ → Transaction
  pub lock_table : List (ℕ × RequestQueue)
  pub waits : ℕ → Wait

-- A call returns its answer, or its thread stays in the wait.
pub data Reply : Type 0 where
  answer : Bool → Reply
  blocks : Reply

abbrev pub update {ℓ} : {A : Type ℓ} (g : ℕ → A) (at_id : ℕ) (new : A) → ℕ → A
update g at_id new t = if at_id == t then new else g t

abbrev pub set_txn : System → ℕ → Transaction → System
set_txn s t x = record s { txns = update s.txns t x }

abbrev pub set_state : System → ℕ → TransactionState → System
set_state s t st = set_txn s t (record (s.txns t) { state = st })

abbrev pub set_wait : System → ℕ → Wait → System
set_wait s t w = record s { waits = update s.waits t w }

abbrev pub new_queue : RequestQueue
new_queue = record { request_queue = []; upgrading = false }

abbrev pub queue_or_new : Option RequestQueue → RequestQueue
queue_or_new none = new_queue
queue_or_new (some q) = q

-- `lock_table_[rid]`
abbrev pub queue_at : System → ℕ → RequestQueue
queue_at s r = queue_or_new (lookup r s.lock_table)

abbrev pub set_queue : System → ℕ → RequestQueue → System
set_queue s r q = record s { lock_table = insert r q s.lock_table }

abbrev pub set_requests : System → ℕ → List LockRequest → System
set_requests s r l = set_queue s r (record (queue_at s r) { request_queue = l })

-- From the wait of `LockShared` on.
pub resume_shared : System → ℕ → ℕ → System × Reply
resume_shared s t r =
    if is_aborted (s.txns t).state
    then (set_wait (set_requests s r (drop_ungranted t requests)) t running, answer false)
    else if exclusive_granted requests
    then (set_wait s t (in_shared r), blocks)
    else (
      set_wait (set_txn (set_requests s r (grant t shared requests)) t holder) t running,
      answer true,
    )
  where
    requests : List LockRequest
    requests = (queue_at s r).request_queue

    holder : Transaction
    holder = record (s.txns t) { shared_lock_set = Transaction.insert r (s.txns t).shared_lock_set }

-- The check of the transaction's state with which every lock call begins.
abbrev pub admitted : System → ℕ → System × Reply → System × Reply
admitted s t rest =
    if is_shrinking (s.txns t).state
    then (set_state s t aborted, answer false)
    else if is_aborted (s.txns t).state
    then (s, answer false)
    else rest

abbrev pub enqueue : System → ℕ → ℕ → LockMode → System
enqueue s t r m = set_requests s r (emplace_back t m (queue_at s r).request_queue)

pub lock_shared : System → ℕ → ℕ → System × Reply
lock_shared s t r = admitted s t (
    if contains r (s.txns t).shared_lock_set || contains r (s.txns t).exclusive_lock_set
    then (s, answer true)
    else resume_shared (enqueue s t r shared) t r)

-- From the wait of `LockExclusive` on.
unfoldable pub resume_exclusive : System → ℕ → ℕ → System × Reply
resume_exclusive s t r =
    if is_aborted (s.txns t).state
    then (set_wait (set_requests s r (drop_ungranted t requests)) t running, answer false)
    else if granted_to_other t requests
    then (set_wait s t (in_exclusive r), blocks)
    else (
      set_wait (set_txn (set_requests s r (grant t exclusive requests)) t holder) t running,
      answer true,
    )
  where
    requests : List LockRequest
    requests = (queue_at s r).request_queue

    holder : Transaction
    holder = record (s.txns t) {
      exclusive_lock_set = Transaction.insert r (s.txns t).exclusive_lock_set;
    }

unfoldable pub lock_exclusive : System → ℕ → ℕ → System × Reply
lock_exclusive s t r = admitted s t (
    if contains r (s.txns t).exclusive_lock_set
    then (s, answer true)
    else resume_exclusive (enqueue s t r exclusive) t r)

-- From the wait of `LockUpgrade` on.
pub resume_upgrade : System → ℕ → ℕ → System × Reply
resume_upgrade s t r =
    if is_aborted (s.txns t).state
    then (set_wait (set_queue s r (ended (drop_all t requests))) t running, answer false)
    else if granted_to_other t requests
    then (set_wait s t (in_upgrade r), blocks)
    else (
      set_wait (set_txn (set_queue s r (ended (grant_any t requests))) t holder) t running,
      answer true,
    )
  where
    requests : List LockRequest
    requests = (queue_at s r).request_queue

    ended : List LockRequest → RequestQueue
    ended l = record { request_queue = l; upgrading = false }

    holder : Transaction
    holder = record (s.txns t) {
      shared_lock_set = Transaction.erase r (s.txns t).shared_lock_set;
      exclusive_lock_set = Transaction.insert r (s.txns t).exclusive_lock_set;
    }

pub lock_upgrade : System → ℕ → ℕ → System × Reply
lock_upgrade s t r = admitted s t (
    if queue.upgrading
    then (set_state (set_queue s r queue) t aborted, answer false)
    else if has_shared t queue.request_queue
    then resume_upgrade (set_queue s r converted) t r
    else (set_state (set_queue s r queue) t aborted, answer false))
  where
    queue : RequestQueue
    queue = queue_at s r

    converted : RequestQueue
    converted = record { request_queue = upgrade t queue.request_queue; upgrading = true }

-- A thread in a wait is woken, rightly or not, and tests the predicate again.
pub wake : System → ℕ → System × Reply
unfolding resume_shared resume_exclusive resume_upgrade
wake s t = elim (s.waits t) [
  | running ↦ (s, blocks)
  | in_shared r ↦ resume_shared s t r
  | in_exclusive r ↦ resume_exclusive s t r
  | in_upgrade r ↦ resume_upgrade s t r
]

abbrev pub shrink : TransactionState → TransactionState
shrink growing = shrinking
shrink st = st

pub release : System → ℕ → ℕ → List LockRequest → System × Bool
release s t r requests =
    if has_request t requests
    then (set_txn (set_requests s r (erase_first t requests)) t after, true)
    else (s, false)
  where
    after : Transaction
    after = record (s.txns t) {
      state = shrink (s.txns t).state;
      shared_lock_set = Transaction.erase r (s.txns t).shared_lock_set;
      exclusive_lock_set = Transaction.erase r (s.txns t).exclusive_lock_set;
    }

pub unlock : System → ℕ → ℕ → System × Bool
unfolding release
unlock s t r = elim (lookup r s.lock_table) [
  | none ↦ (s, false)
  | some queue ↦ release s t r queue.request_queue
]
