-- ===== src/Index/Internal/Entries.antt =====
-- An entry added to an internal page, and one taken out.
use zlchen_dsaa2031_project.Prelude.{
  ℕ, zero, suc, ◌+◌, ◌-◌, ◌<◌, ◌≤◌, ◌≡◌, ◌≢◌, refl, ap, ◌∙◌, List, ◌∷◌, ◌++◌, length, none, some,
  arith, if◌then◌else◌, ltb, ◌==◌, ◌⊎◌, inl, inr, Option-cases, Bool-cases,
}
use zlchen_dsaa2031_project.Index.Arrays.{
  store, shift_right, shift_left, shift_right_at, shift_left_at, listing, listing_same,
  listing-append, listing-cons, append_same,
}
use zlchen_dsaa2031_project.Index.Internal.{
  Internal, key_at, value_at, index_of, value_index, insert_at, insert_node_after, remove,
}
use zlchen_dsaa2031_project.Index.Internal.Search.{IsSorted, Covers, rises}
use zlchen_dsaa2031_project.Index.Internal.Children.{children}

index_of-some :
    (array : ℕ → ℕ × ℕ) (value i n index : ℕ)
    → index_of array value i n ≡ some index
    → (i ≤ index) × (index < i + n) × ((array index).1 ≡ value)
unfolding index_of
index_of-some array value i zero index h = absurd (ground arith)
index_of-some array value i (suc n) index h = elim (Bool-cases ((array i).1 == value)) [
  | inl this ↦ let e : i ≡ index = ground arith in ground (arith, e)
  | inr other ↦ ground (arith, index_of-some array value (i + 1) n index)
]

ap2 : {x y : ℕ} {xs ys : List ℕ} → x ≡ y → xs ≡ ys → x ∷ xs ≡ y ∷ ys
ap2 e e' = rw (e, e') refl

-- A list of cells around one of them.
around :
    (f : ℕ → ℕ) (index n : ℕ)
    → index < n
    → listing f 0 n ≡ listing f 0 index ++ f index ∷ listing f (index + 1) (n - 1 - index)
around f index n low =
    ap (listing f 0) split
    ∙ listing-append f 0 index (n - index)
    ∙ append_same refl
        (listing-cons f (0 + index) (n - index) (omega arith) ∙ ap2 (ap f (omega arith)) tail)
  where
    split : n ≡ index + (n - index)
    split = omega arith

    tail : listing f (0 + index + 1) (n - index - 1) ≡ listing f (index + 1) (n - 1 - index)
    tail =
        ap (λ k. listing f k (n - index - 1)) (omega arith)
        ∙ ap (listing f (index + 1)) (omega arith)

module _ (p : Internal) (index key new_value : ℕ) (low : index < p.size) where
  abbrev wider : ℕ → ℕ × ℕ
  wider =
      store (shift_right p.array (index + 1) (p.size - (index + 1))) (index + 1) (key, new_value)

  pub cell :
      (j : ℕ)
      → j ≤ p.size
      → wider j ≡ (
          if index + 1 == j
          then (key, new_value)
          else if ltb (index + 1) j
          then p.array (j - 1)
          else p.array j)
  cell j le = ground (arith, shift_right_at p.array (index + 1) (p.size - (index + 1)) j)

  insert_at-children :
      children (insert_at p index key new_value)
      ≡ listing (value_at p) 0 index
        ++ value_at p index ∷ new_value ∷ listing (value_at p) (index + 1) (p.size - 1 - index)
  unfolding children
  insert_at-children =
      around values index (p.size + 1) (omega arith)
      ∙ append_same before (
          ap2 here (
            listing-cons values (index + 1) (p.size + 1 - 1 - index) (omega arith) ∙ ap2 new after))
    where
      values : ℕ → ℕ
      values j = (wider j).1

      before : listing values 0 index ≡ listing (value_at p) 0 index
      before =
          listing_same values (value_at p) 0 0 index
            (λ i h. ground (arith, cell (0 + i) (omega arith)))

      here : values index ≡ value_at p index
      here = ground (arith, cell index (omega arith))

      new : values (index + 1) ≡ new_value
      new = ground (arith, cell (index + 1) (omega arith))

      after :
          listing values (index + 1 + 1) (p.size + 1 - 1 - index - 1)
          ≡ listing (value_at p) (index + 1) (p.size - 1 - index)
      after =
          ap (listing values (index + 1 + 1)) (omega arith)
          ∙ listing_same values (value_at p) (index + 1 + 1) (index + 1) (p.size - 1 - index)
              (λ i h. ground (arith, cell (index + 1 + 1 + i) (omega arith)))

  pub insert_at-IsSorted :
      IsSorted p
      → Covers p key index
      → (0 < index → key_at p index ≢ key)
      → IsSorted (insert_at p index key new_value)
  insert_at-IsSorted sorted c fresh i j pos less bound = ground (
    arith,
    cell i (omega arith),
    cell j (omega arith),
    c.up_to i,
    c.up_to index,
    rises p sorted i index,
    c.behind j,
    c.behind (j - 1),
    sorted i j,
    sorted i (j - 1),
    sorted (i - 1) (j - 1),
  )

pub found_at :
    (p : Internal) (value index : ℕ)
    → value_index p value ≡ some index
    → (index < p.size) × (value_at p index ≡ value)
unfolding value_index
found_at p value index found = ground (arith, index_of-some p.array value 0 p.size index found)

children_around :
    (p : Internal) (index : ℕ)
    → index < p.size
    → children p
      ≡ listing (value_at p) 0 index
        ++ value_at p index ∷ listing (value_at p) (index + 1) (p.size - 1 - index)
unfolding children
children_around p index low = around (value_at p) index p.size low

length-listing : (f : ℕ → ℕ) (first n : ℕ) → length (listing f first n) ≡ n
unfolding listing
length-listing f first zero = refl
length-listing f first (suc n) = ap suc (length-listing f (first + 1) n)

-- `InsertNodeAfter` changes nothing if the page does not have the old child. Otherwise the new child
-- stands right behind an occurrence of the old one, the other children are as before, and the size
-- that is returned is one more.
pub children-insert_node_after :
    (p : Internal) (old_value key new_value : ℕ)
    → let (p', n) = insert_node_after p old_value key new_value in
      ((value_index p old_value ≡ none) × (p' ≡ p) × (n ≡ p.size))
      ⊎ ((before : List ℕ) × (after : List ℕ) × (children p ≡ before ++ old_value ∷ after)
          × (children p' ≡ before ++ old_value ∷ new_value ∷ after)
          × (n ≡ p.size + 1)
          × (p'.size ≡ n))
unfolding insert_node_after
children-insert_node_after p old_value key new_value =
    elim (Option-cases (value_index p old_value)) [
      | inl missing ↦ rw (missing, insert_node_after) (inl (refl, refl, refl))
      | inr (index, found) ↦
          let (low, here) = found_at p old_value index found in
          let front : List ℕ = listing (value_at p) 0 index in
          let back : List ℕ = listing (value_at p) (index + 1) (p.size - 1 - index) in
          rw (found, insert_node_after)
            (inr (
              front,
              back,
              children_around p index low ∙ append_same refl (ap2 here refl),
              insert_at-children p index key new_value low ∙ append_same refl (ap2 here refl),
              refl,
              refl,
            ))
    ]

-- `InsertNodeAfter` keeps the keys sorted if the new key belongs behind the old child.
pub insert_node_after-IsSorted :
    (p : Internal) (old_value key new_value index : ℕ)
    → IsSorted p
    → value_index p old_value ≡ some index
    → Covers p key index
    → (0 < index → key_at p index ≢ key)
    → IsSorted (insert_node_after p old_value key new_value).0
unfolding insert_node_after
insert_node_after-IsSorted p old_value key new_value index sorted found c fresh =
    rw (found, insert_node_after) (insert_at-IsSorted p index key new_value c.within sorted c fresh)

-- `Remove` of a cell of the page takes its child out and leaves the others in order, and keeps the
-- keys sorted.
pub children-remove :
    (p : Internal) (index : ℕ)
    → IsSorted p
    → index < p.size
    → ((before : List ℕ) × (after : List ℕ) × (children p ≡ before ++ value_at p index ∷ after)
        × (children (remove p index) ≡ before ++ after)
        × (length before ≡ index))
      × IsSorted (remove p index)
unfolding remove children
children-remove p index sorted low = (
  (
    listing (value_at p) 0 index,
    listing (value_at p) (index + 1) (p.size - 1 - index),
    around (value_at p) index p.size low,
    ap (listing values 0) split
        ∙ listing-append values 0 index (p.size - 1 - index)
        ∙ append_same before after,
    length-listing (value_at p) 0 index,
  ),
  λ i j pos less bound. ground (
    arith,
    shift_left_at p.array index (p.size - 1 - index) i,
    shift_left_at p.array index (p.size - 1 - index) j,
    sorted i j,
    sorted i (j + 1),
    sorted (i + 1) (j + 1),
  ),
)
  where
    values : ℕ → ℕ
    values j = (shift_left p.array index (p.size - 1 - index) j).1

    split : p.size - 1 ≡ index + (p.size - 1 - index)
    split = omega arith

    before : listing values 0 index ≡ listing (value_at p) 0 index
    before =
        listing_same values (value_at p) 0 0 index
          (λ i h. ground (arith, shift_left_at p.array index (p.size - 1 - index) (0 + i)))

    after :
        listing values (0 + index) (p.size - 1 - index)
        ≡ listing (value_at p) (index + 1) (p.size - 1 - index)
    after =
        listing_same values (value_at p) (0 + index) (index + 1) (p.size - 1 - index)
          (λ i h. ground (arith, shift_left_at p.array index (p.size - 1 - index) (0 + index + i)))
