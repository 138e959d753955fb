-- ===== src/Index/Internal/Search.antt =====
-- The binary search of an internal page is an upper bound.
use zlchen_dsaa2031_project.Prelude.{
  ℕ, zero, suc, ◌+◌, ◌-◌, ◌/◌, ◌<◌, ◌≤◌, ◌≡◌, refl, ltb, arith, inl, inr, Bool-cases,
}
use native.Mathlib.Decide.{ℕ_discrete}
use zlchen_dsaa2031_project.Index.Internal.{Internal, search, lookup, key_at, value_at}

-- The keys rise from cell 1 on.
abbrev pub IsSorted : Internal → Type 0
IsSorted p = (i j : ℕ) → 0 < i → i < j → j < p.size → key_at p i < key_at p j

-- The cell whose child covers the key: no key up to it is above, and all keys behind it are.
pub record Covers (p : Internal) (key index : ℕ) : Type 0 where
  pub within : index < p.size
  pub up_to : (i : ℕ) → 0 < i → i ≤ index → key_at p i ≤ key
  pub behind : (i : ℕ) → index < i → i < p.size → key < key_at p i

pub rises :
    (p : Internal) → IsSorted p → (i j : ℕ) → 0 < i → i ≤ j → j < p.size → key_at p i ≤ key_at p j
rises p sorted i j pos le low = elim (ℕ_discrete i j) [
  | yes e ↦ ground (arith, e)
  | no other ↦ ground (arith, sorted i j pos (ground (arith, other)) low)
]

search-Covers :
    (p : Internal) (key left right fuel : ℕ)
    → IsSorted p
    → 0 < left
    → left ≤ right
    → right ≤ p.size
    → right - left ≤ fuel
    → ((i : ℕ) → 0 < i → i < left → key_at p i ≤ key)
    → ((i : ℕ) → right ≤ i → i < p.size → key < key_at p i)
    → Covers p key (search p.array key left right fuel - 1)
unfolding search
search-Covers p key left right zero sorted pos le inside enough before from = record {
  within = omega arith;
  up_to = λ i some_ h. before i some_ (omega arith);
  behind = λ i h low. from i (omega arith) low;
}
search-Covers p key left right (suc fuel) sorted pos le inside enough before from =
    elim (Bool-cases (ltb left right)) [
      | inr over ↦ rw over (record {
        within = omega arith;
        up_to = λ i some_ h. before i some_ (omega arith);
        behind = λ i h low. from i (ground arith) low;
      })
      | inl open_ ↦
          let mid : ℕ = left + (right - left) / 2 in
          let more : left < right = ground arith in
          let low_mid : mid < right = omega arith in
          elim (Bool-cases (ltb key (p.array mid).0)) [
            | inl less ↦
                rw (open_, less)
                  (search-Covers p key left mid fuel sorted pos (omega arith) (omega arith)
                    (omega arith) before
                    (λ i h low. ground (arith, rises p sorted mid i (omega arith) h low)))
            | inr more_ ↦
                rw (open_, more_)
                  (search-Covers p key (mid + 1) right fuel sorted (omega arith) (omega arith)
                    inside (omega arith)
                    (λ i some_ h.
                      ground (arith, rises p sorted i mid some_ (omega arith) (omega arith)))
                    from)
          ]
    ]

-- `Lookup` in a sorted page that has a child returns the child that covers the key: the keys of the
-- cells from 1 up to the child's are at most the key, and those behind it are greater.
pub lookup-Covers :
    (p : Internal) (key : ℕ)
    → IsSorted p
    → 0 < p.size
    → (index : ℕ) × Covers p key index × (lookup p key ≡ value_at p index)
unfolding lookup
lookup-Covers p key sorted some_child = (
  search p.array key 1 p.size p.size - 1,
  search-Covers p key 1 p.size p.size sorted (omega arith) (omega arith) (omega arith) (omega arith)
      (λ i some_ h. absurd (omega arith)) (λ i h low. absurd (omega arith)),
  refl,
)
