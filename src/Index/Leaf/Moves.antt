-- ===== src/Index/Leaf/Moves.antt =====
-- The moves of entries between two leaves, as moves between two lists.
use zlchen_dsaa2031_project.Prelude.{
  ℕ, ◌+◌, ◌-◌, ◌/◌, ◌<◌, ◌≡◌, refl, sym, ap, ◌∙◌, List, [], ◌∷◌, ◌++◌, arith,
}
use zlchen_dsaa2031_project.Index.Arrays.{
  store, copy_to, shift_left, shift_right, copy_to_at, shift_left_at, shift_right_at, listing,
  listing_same, listing-append, listing-cons, listing-snoc, append_same, append_assoc,
}
use zlchen_dsaa2031_project.Index.Leaf.{
  Leaf, move_half_to, move_all_to, move_first_to_end_of, move_last_to_front_of,
}

unfoldable pub entries : Leaf → List (ℕ × ℕ)
entries p = listing p.array 0 p.size

-- `MoveHalfTo` leaves the first half, rounded down, in the page, and the recipient holds the rest
-- and nothing else.
pub entries-move_half_to :
    (p recipient : Leaf)
    → let (p', recipient') = move_half_to p recipient in
      (entries p' ++ entries recipient' ≡ entries p)
      × (p'.size ≡ p.size / 2)
      × (recipient'.size ≡ p.size - p.size / 2)
unfolding move_half_to entries
entries-move_half_to p recipient = (
  ap (λ xs. listing p.array 0 mid ++ xs) moved
      ∙ sym (listing-append p.array 0 mid rest)
      ∙ ap (listing p.array 0) sum,
  refl,
  refl,
)
  where
    mid : ℕ
    mid = p.size / 2

    rest : ℕ
    rest = p.size - mid

    sum : mid + rest ≡ p.size
    sum = omega arith

    moved :
        listing (copy_to recipient.array 0 p.array mid rest) 0 rest ≡ listing p.array (0 + mid) rest
    moved =
        listing_same _ _ 0 (0 + mid) rest
          (λ i low. ground (arith, copy_to_at recipient.array 0 p.array mid rest (0 + i)))

-- `MoveAllTo` appends the entries of the page to those of the recipient and leaves none.
pub entries-move_all_to :
    (p recipient : Leaf)
    → let (p', recipient') = move_all_to p recipient in
      (entries recipient' ≡ entries recipient ++ entries p) × (entries p' ≡ [])
unfolding move_all_to entries listing
entries-move_all_to p recipient =
    (listing-append both 0 recipient.size p.size ∙ append_same old new, refl)
  where
    both : ℕ → ℕ × ℕ
    both = copy_to recipient.array recipient.size p.array 0 p.size

    old : listing both 0 recipient.size ≡ listing recipient.array 0 recipient.size
    old = listing_same both recipient.array 0 0 recipient.size (λ i low.
        ground (arith, copy_to_at recipient.array recipient.size p.array 0 p.size (0 + i)))

    new : listing both (0 + recipient.size) p.size ≡ listing p.array 0 p.size
    new = listing_same both p.array (0 + recipient.size) 0 p.size (λ i low. ground (
      arith,
      copy_to_at recipient.array recipient.size p.array 0 p.size (0 + recipient.size + i),
    ))

-- `MoveFirstToEndOf` from a page that is not empty: read on from the recipient, which stands before
-- the page, the entries are the same in the same order, and one has changed sides.
pub entries-move_first_to_end_of :
    (p recipient : Leaf)
    → 0 < p.size
    → let (p', recipient') = move_first_to_end_of p recipient in
      (entries recipient' ++ entries p' ≡ entries recipient ++ entries p)
      × (recipient'.size ≡ recipient.size + 1)
      × (p'.size + 1 ≡ p.size)
unfolding move_first_to_end_of entries
entries-move_first_to_end_of p recipient some_left = (
  append_same (grown ∙ append_same old (ap (λ x. x ∷ []) last)) rest
      ∙ append_assoc (entries recipient) (p.array 0 ∷ []) (listing p.array 1 (p.size - 1))
      ∙ ap (λ l. entries recipient ++ l) (sym (listing-cons p.array 0 p.size some_left)),
  refl,
  omega arith,
)
  where
    wider : ℕ → ℕ × ℕ
    wider = store recipient.array recipient.size (p.array 0)

    grown :
        listing wider 0 (recipient.size + 1)
        ≡ listing wider 0 recipient.size ++ wider (0 + recipient.size) ∷ []
    grown = listing-snoc wider 0 recipient.size

    last : wider (0 + recipient.size) ≡ p.array 0
    last = ground arith

    old : listing wider 0 recipient.size ≡ listing recipient.array 0 recipient.size
    old = listing_same wider recipient.array 0 0 recipient.size (λ i low. ground arith)

    rest :
        listing (shift_left p.array 0 (p.size - 1)) 0 (p.size - 1) ≡ listing p.array 1 (p.size - 1)
    rest =
        listing_same _ p.array 0 1 (p.size - 1)
          (λ i low. ground (arith, shift_left_at p.array 0 (p.size - 1) (0 + i)))

-- `MoveLastToFrontOf` from a page that is not empty: read on from the page, which stands before the
-- recipient, the entries are the same in the same order, and one has changed sides.
pub entries-move_last_to_front_of :
    (p recipient : Leaf)
    → 0 < p.size
    → let (p', recipient') = move_last_to_front_of p recipient in
      (entries p' ++ entries recipient' ≡ entries p ++ entries recipient)
      × (recipient'.size ≡ recipient.size + 1)
      × (p'.size + 1 ≡ p.size)
unfolding move_last_to_front_of entries
entries-move_last_to_front_of p recipient some_left = (
  append_same refl (grown ∙ moved)
      ∙ sym (
          append_assoc (listing p.array 0 (p.size - 1)) (p.array (p.size - 1) ∷ [])
            (entries recipient))
      ∙ append_same (sym whole) refl,
  refl,
  omega arith,
)
  where
    wider : ℕ → ℕ × ℕ
    wider = store (shift_right recipient.array 0 recipient.size) 0 (p.array (p.size - 1))

    grown :
        listing wider 0 (recipient.size + 1) ≡ wider 0 ∷ listing wider 1 (recipient.size + 1 - 1)
    grown = listing-cons wider 0 (recipient.size + 1) (omega arith)

    rest : listing wider 1 recipient.size ≡ listing recipient.array 0 recipient.size
    rest =
        listing_same wider recipient.array 1 0 recipient.size
          (λ i low. ground (arith, shift_right_at recipient.array 0 recipient.size (1 + i)))

    moved :
        wider 0 ∷ listing wider 1 (recipient.size + 1 - 1)
        ≡ p.array (p.size - 1) ∷ listing recipient.array 0 recipient.size
    moved =
        ap (λ k. wider 0 ∷ listing wider 1 k) (omega arith)
        ∙ ap (λ l. p.array (p.size - 1) ∷ l) rest

    whole : listing p.array 0 p.size ≡ listing p.array 0 (p.size - 1) ++ p.array (p.size - 1) ∷ []
    whole =
        ap (listing p.array 0) (omega arith)
        ∙ listing-snoc p.array 0 (p.size - 1)
        ∙ append_same refl (ap (λ k. p.array k ∷ []) (omega arith))
