-- ===== src/Concurrency/TransactionManager.antt =====
-- `TransactionManager`: src/concurrency/transaction_manager.cpp.
pub mod Ends
pub mod Tests
use zlchen_dsaa2031_project.Prelude.{
  ℕ, inc64, List, [], ◌∷◌, Option, none, some, ◌>>=◌, contains, if◌then◌else◌,
}
use zlchen_dsaa2031_project.Concurrency.Transaction.{
  Transaction, TransactionState, IsolationLevel, committed, aborted, new_transaction,
}
use zlchen_dsaa2031_project.Concurrency.LockManager.{System, set_txn, set_state, unlock}
use zlchen_dsaa2031_project.Concurrency.LockManager.Steps.{clear_sets}

pub record Manager : Type 0 where
  pub system : System
  pub next_txn_id : ℕ

pub begin : Manager → IsolationLevel → Manager × ℕ
begin m level = (
  record {
    system = set_txn m.system m.next_txn_id (new_transaction level);
    next_txn_id = inc64 m.next_txn_id;
  },
  m.next_txn_id,
)

-- `for (const auto &rid : *set) { lock_manager_->Unlock(txn, rid); }`, from the rows that are
-- left to visit. The loop stands on the row that it unlocks: if `Unlock` has erased that row from
-- the set, the loop has no next row, and what the program does is undefined.
pub unlock_each : (Transaction → List ℕ) → ℕ → System → List ℕ → Option System
unlock_each set t s [] = some s
unlock_each set t s (r ∷ rs) =
    let s' = (unlock s t r).0 in
    let rest = unlock_each set t s' rs in if contains r (set (s'.txns t)) then rest else none

abbrev pub release_rest : System → ℕ → List ℕ → Option System
release_rest s t exclusive_set = do
  s2 ← unlock_each (λ x. x.exclusive_lock_set) t s exclusive_set
  some (clear_sets s2 t)

abbrev pub release_all : System → ℕ → List ℕ → Option System
release_all s t shared_set = do
  s1 ← unlock_each (λ x. x.shared_lock_set) t s shared_set
  release_rest s1 t (s1.txns t).exclusive_lock_set

abbrev pub finish : TransactionState → System → ℕ → Option System
finish st s t = release_all (set_state s t st) t (s.txns t).shared_lock_set

pub commit : System → ℕ → Option System
commit s t = finish committed s t

pub abort : System → ℕ → Option System
abort s t = finish aborted s t
