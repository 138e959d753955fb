-- ===== src/Concurrency/Transaction.antt =====
-- `Transaction`: src/include/onebase/concurrency/transaction.h, and the `RID` of
-- src/include/onebase/common/rid.h. A `RID` is the number that its `std::hash` is,
-- `page_id << 16 | slot_num`: no two differ in one and agree in the other.
use zlchen_dsaa2031_project.Prelude.{
  ℕ, ◌+◌, ◌*◌, ◌≡◌, List, [], ◌∷◌, ◌++◌, Bool, true, false, ◌||◌, ◌==◌, arith, contains,
  contains-append, if◌then◌else◌,
}

abbrev pub rid : ℕ → ℕ → ℕ
rid page_id slot_num = page_id * 65536 + slot_num

pub data TransactionState : Type 0 where
  growing shrinking committed aborted : TransactionState

pub data IsolationLevel : Type 0 where
  read_uncommitted read_committed repeatable_read : IsolationLevel

pub record Transaction : Type 0 where
  pub isolation_level : IsolationLevel
  pub state : TransactionState
  pub shared_lock_set : List ℕ
  pub exclusive_lock_set : List ℕ

abbrev pub is_aborted : TransactionState → Bool
is_aborted aborted = true
is_aborted _ = false

abbrev pub is_growing : TransactionState → Bool
is_growing growing = true
is_growing _ = false

abbrev pub is_shrinking : TransactionState → Bool
is_shrinking shrinking = true
is_shrinking _ = false

unfoldable pub new_transaction : IsolationLevel → Transaction
new_transaction level = record {
  isolation_level = level;
  state = growing;
  shared_lock_set = [];
  exclusive_lock_set = [];
}

-- `std::unordered_set`: `insert` keeps an element that is there, `erase` drops it.
abbrev pub insert : ℕ → List ℕ → List ℕ
insert r rs = if contains r rs then rs else rs ++ r ∷ []

unfoldable pub erase : ℕ → List ℕ → List ℕ
erase r [] = []
erase r (x ∷ xs) = if x == r then erase r xs else x ∷ erase r xs

pub contains-insert :
    (r q : ℕ) (rs : List ℕ) → contains q (insert r rs) ≡ ((r == q) || contains q rs)
contains-insert r q rs = ground (arith, contains-append q rs (r ∷ []))

pub contains-erase :
    (r q : ℕ) (rs : List ℕ) → contains q (erase r rs) ≡ (if r == q then false else contains q rs)
unfolding erase
contains-erase r q [] = ground arith
contains-erase r q (x ∷ xs) = ground (arith, contains-erase r q xs)
