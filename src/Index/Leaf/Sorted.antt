-- ===== src/Index/Leaf/Sorted.antt =====
-- A sorted leaf is a map: what its calls do to the keys and to every lookup.
use zlchen_dsaa2031_project.Prelude.{
  ℕ, ◌+◌, ◌-◌, ◌<◌, ◌≤◌, ◌≡◌, ◌≢◌, refl, subst, ◌∙◌, Option, none, some, is_some, true, false, ◌==◌,
  ltb, if◌then◌else◌, arith, inl, inr, Bool-cases, Option-cases,
}
use native.Mathlib.Decide.{ℕ_discrete}
use zlchen_dsaa2031_project.Index.Arrays.{
  store, shift_right, shift_left, shift_right_at, shift_left_at,
}
use zlchen_dsaa2031_project.Index.Leaf.{
  Leaf, key_at, value_at, key_index, is_at, lookup, insert, remove_and_delete_record,
}
use zlchen_dsaa2031_project.Index.Leaf.Search.{
  IsSorted, IsLowerBound, rises, key_index-IsLowerBound,
}

module _ (p : Leaf) (sorted : IsSorted p) where
  key_index_at : (key i : ℕ) → i < p.size → key_at p i ≡ key → key_index p key ≡ i
  key_index_at key i low e =
      ground (arith, b.before i, b.from (key_index p key), sorted (key_index p key) i)
    where
      b : IsLowerBound p key (key_index p key)
      b = key_index-IsLowerBound p key sorted

  pub lookup_found :
      (key i : ℕ) → i < p.size → key_at p i ≡ key → lookup p key ≡ some (value_at p i)
  unfolding lookup
  lookup_found key i low e = ground (arith, key_index_at key i low e)

pub lookup_missing :
    (p : Leaf) (key : ℕ) → ((i : ℕ) → i < p.size → key_at p i ≢ key) → lookup p key ≡ none
unfolding lookup
lookup_missing p key absent = ground (arith, absent (key_index p key))

pub lookup_at :
    (p : Leaf) (key value : ℕ)
    → lookup p key ≡ some value
    → (i : ℕ) × (i < p.size) × (key_at p i ≡ key) × (value_at p i ≡ value)
unfolding lookup
lookup_at p key value h = (key_index p key, ground arith, ground arith, ground arith)

pub lookup-none :
    (p : Leaf) (key i : ℕ) → IsSorted p → lookup p key ≡ none → i < p.size → key_at p i ≢ key
lookup-none p key i sorted h low e = ground (arith, lookup_found p sorted key i low e)

-- The first of two answers.
abbrev pub or_else : Option ℕ → Option ℕ → Option ℕ
or_else none b = b
or_else (some a) b = some a

module _ (p : Leaf) (key value : ℕ) (sorted : IsSorted p)
    (new : is_at p key (key_index p key) ≡ false) where
  b : IsLowerBound p key (key_index p key)
  b = key_index-IsLowerBound p key sorted

  abbrev wider : Leaf
  wider = record p {
    array =
        store (shift_right p.array (key_index p key) (p.size - key_index p key)) (key_index p key)
          (key, value);
    size = p.size + 1;
  }

  -- The cells after the insertion.
  cell :
      (j : ℕ)
      → j ≤ p.size
      → wider.array j ≡ (
          if key_index p key == j
          then (key, value)
          else if ltb (key_index p key) j
          then p.array (j - 1)
          else p.array j)
  cell j low =
      ground
        (arith, shift_right_at p.array (key_index p key) (p.size - key_index p key) j, b.within)

  above : (j : ℕ) → key_index p key ≤ j → j < p.size → key < key_at p j
  above j le low = ground (
    arith,
    b.from (key_index p key) (omega arith) (omega arith),
    rises p sorted (key_index p key) j le low,
  )

  wider-IsSorted : IsSorted wider
  wider-IsSorted i j less low = ground (
    arith,
    b.within,
    cell i (omega arith),
    cell j (omega arith),
    b.before i,
    b.before j,
    above (j - 1),
    above (i - 1),
    above i,
    sorted i j,
    sorted i (j - 1),
    sorted (i - 1) (j - 1),
  )

  lookup-wider :
      (other : ℕ)
      → lookup wider other ≡ or_else (lookup p other) (if key == other then some value else none)
  lookup-wider other = elim (Option-cases (lookup p other)) [
    | inr (w, found) ↦
        let (i, low, at_key, at_value) = lookup_at p other w found in
        rw found (elim (Bool-cases (ltb i (key_index p key))) [
          | inl before ↦
              lookup_found wider wider-IsSorted other i (omega arith)
                (ground (arith, at_key, cell i (omega arith)))
              ∙ ground (arith, at_value, cell i (omega arith))
          | inr after ↦
              lookup_found wider wider-IsSorted other (i + 1) (omega arith)
                (ground (arith, at_key, cell (i + 1) (omega arith)))
              ∙ ground (arith, at_value, cell (i + 1) (omega arith))
        ])
    | inl missing ↦ rw missing (elim (Bool-cases (key == other)) [
      | inl this ↦ rw this (
          lookup_found wider wider-IsSorted other (key_index p key) (omega (arith, b.within))
            (ground (arith, cell (key_index p key) (omega (arith, b.within))))
          ∙ ground (arith, cell (key_index p key) (omega (arith, b.within))))
      | inr apart ↦ rw apart (
          lookup_missing wider other (λ j low e. ground (
            arith,
            cell j (omega arith),
            b.within,
            lookup-none p other j sorted missing,
            lookup-none p other (j - 1) sorted missing,
          )))
    ])
  ]

module _ (p : Leaf) (key : ℕ) (sorted : IsSorted p)
    (here : is_at p key (key_index p key) ≡ true) where
  abbrev narrower : Leaf
  narrower = record p {
    array = shift_left p.array (key_index p key) (p.size - 1 - key_index p key);
    size = p.size - 1;
  }

  -- The cells after the removal.
  left_cell :
      (j : ℕ)
      → j < p.size - 1
      → narrower.array j ≡ (if ltb j (key_index p key) then p.array j else p.array (j + 1))
  left_cell j low =
      ground (arith, shift_left_at p.array (key_index p key) (p.size - 1 - key_index p key) j)

  narrower-IsSorted : IsSorted narrower
  narrower-IsSorted i j less low = ground (
    arith,
    left_cell i (omega arith),
    left_cell j (omega arith),
    sorted i j,
    sorted i (j + 1),
    sorted (i + 1) (j + 1),
  )

  lookup-narrower :
      (other : ℕ) → lookup narrower other ≡ (if key == other then none else lookup p other)
  lookup-narrower other = elim (Bool-cases (key == other)) [
    | inl this ↦ rw this (
        lookup_missing narrower other (λ j low e. ground (
          arith,
          left_cell j (omega arith),
          sorted j (key_index p key),
          sorted (key_index p key) (j + 1),
        )))
    | inr apart ↦ rw apart (elim (Option-cases (lookup p other)) [
      | inl missing ↦ rw missing (
          lookup_missing narrower other (λ j low e. ground (
            arith,
            left_cell j (omega arith),
            lookup-none p other j sorted missing,
            lookup-none p other (j + 1) sorted missing,
          )))
      | inr (w, found) ↦
          let (i, low, at_key, at_value) = lookup_at p other w found in
          rw found (elim (Bool-cases (ltb i (key_index p key))) [
            | inl before ↦
                lookup_found narrower narrower-IsSorted other i (ground arith)
                  (ground (arith, at_key, left_cell i (ground arith)))
                ∙ ground (arith, at_value, left_cell i (ground arith))
            | inr after ↦
                let later : key_index p key < i = ground (arith, at_key) in
                lookup_found narrower narrower-IsSorted other (i - 1) (omega arith)
                  (ground (arith, at_key, left_cell (i - 1) (omega arith)))
                ∙ ground (arith, at_value, left_cell (i - 1) (omega arith))
          ])
    ])
  ]

-- The lookup of a key that stands at its index, and of one that does not.
lookup_present :
    (p : Leaf) (key : ℕ)
    → is_at p key (key_index p key) ≡ true
    → lookup p key ≡ some (value_at p (key_index p key))
unfolding lookup
lookup_present p key there = rw there refl

lookup_absent : (p : Leaf) (key : ℕ) → is_at p key (key_index p key) ≡ false → lookup p key ≡ none
unfolding lookup
lookup_absent p key missing = rw missing refl

kept :
    (p : Leaf) (key value : ℕ)
    → is_at p key (key_index p key) ≡ true
    → (other : ℕ)
    → lookup p other ≡ or_else (lookup p other) (if key == other then some value else none)
kept p key value there other = elim (ℕ_discrete key other) [
  | yes e ↦
      subst (λ k. lookup p k ≡ or_else (lookup p k) (if key == k then some value else none)) e
        (rw (lookup_present p key there) refl)
  | no apart ↦ ground (arith, apart, Option-cases (lookup p other))
]

absent :
    (p : Leaf) (key : ℕ)
    → is_at p key (key_index p key) ≡ false
    → (other : ℕ) → lookup p other ≡ (if key == other then none else lookup p other)
absent p key missing other = elim (ℕ_discrete key other) [
  | yes e ↦
      subst (λ k. lookup p k ≡ (if key == k then none else lookup p k)) e
        (ground (arith, lookup_absent p key missing))
  | no apart ↦ ground (arith, apart)
]

-- `Insert` into a sorted leaf keeps it sorted. A key that the leaf has keeps its value; a new key
-- gets the given one; the lookup of every other key is as before. The size that is returned is the
-- size of the page, one more exactly for a new key.
pub lookup-insert :
    (p : Leaf) (key value : ℕ)
    → IsSorted p
    → let (p', n) = insert p key value in
      IsSorted p'
      × (n ≡ p'.size)
      × (n ≡ (if is_some (lookup p key) then p.size else p.size + 1))
      × ((other : ℕ)
          → lookup p' other ≡ or_else (lookup p other) (if key == other then some value else none))
unfolding insert lookup
lookup-insert p key value sorted = elim (Bool-cases (is_at p key (key_index p key))) [
  | inl there ↦ rw there (sorted, refl, refl, kept p key value there)
  | inr new ↦
      rw new
        (wider-IsSorted p key value sorted new, refl, refl, lookup-wider p key value sorted new)
]

-- `RemoveAndDeleteRecord` on a sorted leaf keeps it sorted, and removes the key and no other. The
-- size that is returned is the size of the page, one less exactly if the leaf had the key.
pub lookup-remove_and_delete_record :
    (p : Leaf) (key : ℕ)
    → IsSorted p
    → let (p', n) = remove_and_delete_record p key in
      IsSorted p'
      × (n ≡ p'.size)
      × (n ≡ (if is_some (lookup p key) then p.size - 1 else p.size))
      × ((other : ℕ) → lookup p' other ≡ (if key == other then none else lookup p other))
unfolding remove_and_delete_record lookup
lookup-remove_and_delete_record p key sorted = elim (Bool-cases (is_at p key (key_index p key))) [
  | inl there ↦
      rw there
        (narrower-IsSorted p key sorted there, refl, refl, lookup-narrower p key sorted there)
  | inr missing ↦ rw missing (sorted, refl, refl, absent p key missing)
]

-- A lookup does not read the links of a page.
pub lookup_links :
    (p : Leaf) (next parent key : ℕ)
    → lookup (record p { next_page_id = next; parent_page_id = parent }) key ≡ lookup p key
unfolding lookup key_index
lookup_links p next parent key = refl
