-- ===== src/Index/Internal/Insertion.antt =====
-- A lookup in an internal page after `InsertNodeAfter`:
-- src/storage/page/b_plus_tree_internal_page.cpp.
use zlchen_dsaa2031_project.Prelude.{
  ℕ, ◌+◌, ◌-◌, ◌<◌, ◌≤◌, ◌≡◌, ◌≢◌, refl, ap, ◌∙◌, some, arith, if◌then◌else◌, ltb, ◌==◌, inl, inr,
  Bool-cases, subst,
}
use native.Mathlib.Decide.{ℕ_discrete}
use zlchen_dsaa2031_project.Index.Internal.{
  Internal, key_at, value_at, value_index, insert_at, insert_node_after, lookup,
}
use zlchen_dsaa2031_project.Index.Internal.Search.{IsSorted, Covers, lookup-Covers}
use zlchen_dsaa2031_project.Index.Internal.Entries.{cell, found_at, insert_at-IsSorted}

one_index : (p : Internal) (key i j : ℕ) → Covers p key i → Covers p key j → i ≡ j
one_index p key i j c d = elim (Bool-cases (ltb i j)) [
  | inl less ↦ ground (arith, c.behind j, d.up_to j, d.within)
  | inr other ↦ elim (Bool-cases (ltb j i)) [
    | inl more ↦ ground (arith, d.behind i, c.up_to i, c.within)
    | inr same ↦ ground arith
  ]
]

pub covered_lookup :
    (p : Internal) (key i : ℕ) → IsSorted p → Covers p key i → lookup p key ≡ value_at p i
covered_lookup p key i sorted c =
    let (j, d, e) = lookup-Covers p key sorted (omega (arith, c.within)) in
    e ∙ ap (value_at p) (one_index p key j i d c)

module _ (p : Internal) (index key new_value : ℕ) (c : Covers p key index) where
  abbrev wide : Internal
  wide = insert_at p index key new_value

  cell_key :
      (j : ℕ)
      → j ≤ p.size
      → key_at wide j ≡ (
          if index + 1 == j
          then key
          else if ltb (index + 1) j
          then key_at p (j - 1)
          else key_at p j)
  cell_key j le = ground (arith, cell p index key new_value c.within j le)

  before-Covers : (other i : ℕ) → Covers p other i → i < index → Covers wide other i
  before-Covers other i d less = record {
    within = omega (arith, d.within);
    up_to = λ x pos le. ground (arith, cell_key x (omega (arith, d.within)), d.up_to x);
    behind = λ x gt low. ground (
      arith,
      cell_key x (omega arith),
      d.behind x,
      d.behind (x - 1),
      d.behind index,
      c.up_to index,
      c.within,
    );
  }

  after-Covers : (other i : ℕ) → Covers p other i → index < i → Covers wide other (i + 1)
  after-Covers other i d more = record {
    within = omega (arith, d.within);
    up_to = λ x pos le. ground (
      arith,
      cell_key x (omega (arith, d.within)),
      d.up_to x,
      d.up_to (x - 1),
      d.up_to (index + 1),
      c.behind (index + 1),
      d.within,
    );
    behind = λ x gt low. ground (arith, cell_key x (omega arith), d.behind (x - 1));
  }

  left-Covers : (other : ℕ) → Covers p other index → other < key → Covers wide other index
  left-Covers other d less = record {
    within = omega (arith, d.within);
    up_to = λ x pos le. ground (arith, cell_key x (omega (arith, d.within)), d.up_to x);
    behind = λ x gt low. ground (arith, cell_key x (omega arith), d.behind (x - 1));
  }

  right-Covers : (other : ℕ) → Covers p other index → key ≤ other → Covers wide other (index + 1)
  right-Covers other d more = record {
    within = omega (arith, d.within);
    up_to = λ x pos le. ground (arith, cell_key x (omega (arith, d.within)), d.up_to x);
    behind = λ x gt low. ground (arith, cell_key x (omega arith), d.behind (x - 1));
  }

  module _ (sorted : IsSorted p) (fresh : 0 < index → key_at p index ≢ key)
      (once : (i : ℕ) → i < p.size → value_at p i ≡ value_at p index → i ≡ index) where
    wide-IsSorted : IsSorted wide
    wide-IsSorted = insert_at-IsSorted p index key new_value c.within sorted c fresh

    entry :
        (j : ℕ)
        → j ≤ p.size
        → wide.array j ≡ (
            if index + 1 == j
            then (key, new_value)
            else if ltb (index + 1) j
            then p.array (j - 1)
            else p.array j)
    entry j le = cell p index key new_value c.within j le

    lookup-insert_at :
        (other : ℕ)
        → lookup wide other ≡ (
            if lookup p other == value_at p index
            then if ltb other key then value_at p index else new_value
            else lookup p other)
    lookup-insert_at other =
        let (i, d, e) = lookup-Covers p other sorted (omega (arith, c.within)) in
        elim (Bool-cases (ltb i index)) [
          | inl before ↦ ground (
            arith,
            covered_lookup wide other i wide-IsSorted (before-Covers other i d (ground arith)),
            entry i,
            e,
            once i,
            d.within,
          )
          | inr more ↦ elim (ℕ_discrete i index) [
            | no apart ↦ ground (
              arith,
              covered_lookup wide other (i + 1) wide-IsSorted
                  (after-Covers other i d (ground (arith, apart))),
              entry (i + 1),
              e,
              once i,
              d.within,
              apart,
            )
            | yes same ↦
                let here = subst (Covers p other) same d in
                elim (Bool-cases (ltb other key)) [
                  | inl less ↦ ground (
                    arith,
                    covered_lookup wide other index wide-IsSorted
                        (left-Covers other here (ground arith)),
                    entry index,
                    e,
                    ap (value_at p) same,
                    c.within,
                  )
                  | inr up ↦ ground (
                    arith,
                    covered_lookup wide other (index + 1) wide-IsSorted
                        (right-Covers other here (ground arith)),
                    entry (index + 1),
                    e,
                    ap (value_at p) same,
                    c.within,
                  )
                ]
          ]
        ]

-- The new child gets the keys of the old one from the new key on; all others go where they went.
pub lookup-insert_node_after :
    (p : Internal) (old_value key new_value index other : ℕ)
    → IsSorted p
    → value_index p old_value ≡ some index
    → ((i : ℕ) → i < p.size → value_at p i ≡ old_value → i ≡ index)
    → Covers p key index
    → (0 < index → key_at p index ≢ key)
    → lookup (insert_node_after p old_value key new_value).0 other ≡ (
        if lookup p other == old_value
        then if ltb other key then old_value else new_value
        else lookup p other)
unfolding insert_node_after
lookup-insert_node_after p old_value key new_value index other sorted found once c fresh =
    let (low, here) = found_at p old_value index found in
    rw (found, insert_node_after)
      (subst
        (λ v. lookup (insert_at p index key new_value) other ≡ (
          if lookup p other == v then if ltb other key then v else new_value else lookup p other))
        here
        (lookup-insert_at p index key new_value c sorted fresh
          (λ i i_low e. once i i_low (e ∙ here)) other))

pub size-insert_node_after :
    (p : Internal) (old_value key new_value index : ℕ)
    → value_index p old_value ≡ some index
    → let (p', n) = insert_node_after p old_value key new_value in
      (n ≡ p.size + 1) × (p'.max_size ≡ p.max_size)
unfolding insert_node_after
size-insert_node_after p old_value key new_value index found =
    rw (found, insert_node_after) (refl, refl)
