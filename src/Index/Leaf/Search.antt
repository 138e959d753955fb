-- ===== src/Index/Leaf/Search.antt =====
-- The binary search of a leaf is a lower bound.
use zlchen_dsaa2031_project.Prelude.{
  ℕ, zero, suc, ◌+◌, ◌-◌, ◌/◌, ◌<◌, ◌≤◌, ltb, arith, inl, inr, Bool-cases,
}
use native.Mathlib.Decide.{ℕ_discrete}
use zlchen_dsaa2031_project.Index.Leaf.{Leaf, search, key_index, key_at}

-- The keys rise.
abbrev pub IsSorted : Leaf → Type 0
IsSorted p = (i j : ℕ) → i < j → j < p.size → key_at p i < key_at p j

-- The keys before the index are less, and those from it on are not.
pub record IsLowerBound (p : Leaf) (key index : ℕ) : Type 0 where
  pub within : index ≤ p.size
  pub before : (i : ℕ) → i < index → key_at p i < key
  pub from : (i : ℕ) → index ≤ i → i < p.size → key ≤ key_at p i

pub rises : (p : Leaf) → IsSorted p → (i j : ℕ) → i ≤ j → j < p.size → key_at p i ≤ key_at p j
rises p sorted i j le low = elim (ℕ_discrete i j) [
  | yes e ↦ ground (arith, e)
  | no other ↦ ground (arith, sorted i j (ground (arith, other)) low)
]

search_bound :
    (p : Leaf) (key left right fuel : ℕ)
    → IsSorted p
    → left ≤ right
    → right ≤ p.size
    → right - left ≤ fuel
    → ((i : ℕ) → i < left → key_at p i < key)
    → ((i : ℕ) → right ≤ i → i < p.size → key ≤ key_at p i)
    → IsLowerBound p key (search p.array key left right fuel)
unfolding search
search_bound p key left right zero sorted le inside enough before from = record {
  within = omega arith;
  before = before;
  from = λ i h low. from i (omega arith) low;
}
search_bound p key left right (suc fuel) sorted le inside enough before from =
    elim (Bool-cases (ltb left right)) [
      | inr over ↦ rw over (record {
        within = omega arith;
        before = before;
        from = λ i h low. from i (ground arith) low;
      })
      | inl open_ ↦
          let mid : ℕ = left + (right - left) / 2 in
          let more : left < right = ground arith in
          let low_mid : mid < right = omega arith in
          elim (Bool-cases (ltb (p.array mid).0 key)) [
            | inl less ↦
                rw (open_, less)
                  (search_bound p key (mid + 1) right fuel sorted (omega arith) inside (omega arith)
                    (λ i h. ground (arith, rises p sorted i mid (omega arith) (omega arith))) from)
            | inr more_ ↦
                rw (open_, more_)
                  (search_bound p key left mid fuel sorted (omega arith) (omega arith) (omega arith)
                    before (λ i h low. ground (arith, rises p sorted mid i h low)))
          ]
    ]

pub key_index-IsLowerBound :
    (p : Leaf) (key : ℕ) → IsSorted p → IsLowerBound p key (key_index p key)
unfolding key_index
key_index-IsLowerBound p key sorted =
    search_bound p key 0 p.size p.size sorted (omega arith) (omega arith) (omega arith)
      (λ i h. absurd (omega arith)) (λ i h low. absurd (omega arith))
