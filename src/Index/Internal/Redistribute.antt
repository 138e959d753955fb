-- ===== src/Index/Internal/Redistribute.antt =====
-- One child moved between neighbouring internal pages.
use zlchen_dsaa2031_project.Prelude.{
  ℕ, zero, suc, ◌+◌, ◌-◌, ◌<◌, ◌≤◌, ◌≡◌, refl, sym, ap, ◌∙◌, List, [], ◌∷◌, ◌++◌, arith,
  if◌then◌else◌, ltb, leb, ◌&&◌,
}
use zlchen_dsaa2031_project.Index.Arrays.{
  store, shift_right, shift_right_at, listing, listing_same, listing-cons, listing-snoc,
  append_same, append_assoc,
}
use zlchen_dsaa2031_project.Index.Internal.{
  Internal, key_at, value_at, move_first_to_end_of, move_last_to_front_of, shift_values, shift_keys,
}
use zlchen_dsaa2031_project.Index.Internal.Children.{children, separators}

-- What the two loops leave in a cell.
shift_values_at :
    (array : ℕ → ℕ × ℕ) (first n j : ℕ)
    → shift_values array first n j
      ≡ (if leb first j && ltb j (first + n) then ((array j).0, (array (j + 1)).1) else array j)
unfolding shift_values
shift_values_at array first zero j = ground arith
shift_values_at array first (suc n) j = ground (
  arith,
  shift_values_at (store array first ((array first).0, (array (first + 1)).1)) (first + 1) n j,
)

shift_keys_at :
    (array : ℕ → ℕ × ℕ) (first n j : ℕ)
    → shift_keys array first n j
      ≡ (if leb first j && ltb j (first + n) then ((array (j + 1)).0, (array j).1) else array j)
unfolding shift_keys
shift_keys_at array first zero j = ground arith
shift_keys_at array first (suc n) j = ground (
  arith,
  shift_keys_at (store array first ((array (first + 1)).0, (array first).1)) (first + 1) n j,
)

-- `MoveFirstToEndOf` of a page with two children or more, to one with a child: read on from the
-- recipient, which stands before the page, the children are the same in the same order, and one has
-- changed sides. The middle key has come down behind the recipient's keys, and the first key of the
-- page has gone.
pub children-move_first_to_end_of :
    (p recipient : Internal) (middle_key : ℕ)
    → 2 ≤ p.size
    → 0 < recipient.size
    → let (p', recipient') = move_first_to_end_of p recipient middle_key in
      (children recipient' ++ children p' ≡ children recipient ++ children p)
      × (separators recipient' ≡ separators recipient ++ middle_key ∷ [])
      × (key_at p 1 ∷ separators p' ≡ separators p)
unfolding move_first_to_end_of children separators
children-move_first_to_end_of p recipient middle_key two had = (
  append_same (grown ∙ append_same old (ap (λ x. x ∷ []) last)) rest
      ∙ append_assoc (children recipient) (value_at p 0 ∷ []) (listing (value_at p) 1 (p.size - 1))
      ∙ ap (λ l. children recipient ++ l) (sym (listing-cons (value_at p) 0 p.size (omega arith))),
  ap (listing keys 1) (omega arith)
      ∙ listing-snoc keys 1 (recipient.size - 1)
      ∙ append_same old_keys (ap (λ x. x ∷ []) last_key),
  ap (λ l. key_at p 1 ∷ l)
        (ap (listing left_keys 1) (omega arith)
          ∙ rest_keys
          ∙ ap (listing (key_at p) 2) (omega arith))
      ∙ sym (listing-cons (key_at p) 1 (p.size - 1) (omega arith)),
)
  where
    wider : ℕ → ℕ × ℕ
    wider = store recipient.array recipient.size (middle_key, value_at p 0)

    values : ℕ → ℕ
    values j = (wider j).1

    keys : ℕ → ℕ
    keys j = (wider j).0

    grown :
        listing values 0 (recipient.size + 1)
        ≡ listing values 0 recipient.size ++ values (0 + recipient.size) ∷ []
    grown = listing-snoc values 0 recipient.size

    last : values (0 + recipient.size) ≡ value_at p 0
    last = ground arith

    old : listing values 0 recipient.size ≡ listing (value_at recipient) 0 recipient.size
    old = listing_same values (value_at recipient) 0 0 recipient.size (λ i low. ground arith)

    old_keys :
        listing keys 1 (recipient.size - 1) ≡ listing (key_at recipient) 1 (recipient.size - 1)
    old_keys = listing_same keys (key_at recipient) 1 1 (recipient.size - 1) (λ i low. ground arith)

    last_key : keys (1 + (recipient.size - 1)) ≡ middle_key
    last_key = ground arith

    narrower : ℕ → ℕ × ℕ
    narrower = shift_keys (shift_values p.array 0 (p.size - 1)) 1 (p.size - 2)

    left_keys : ℕ → ℕ
    left_keys j = (narrower j).0

    rest : listing (λ j. (narrower j).1) 0 (p.size - 1) ≡ listing (value_at p) 1 (p.size - 1)
    rest =
        listing_same (λ j. (narrower j).1) (value_at p) 0 1 (p.size - 1)
          (λ i low. ground (
            arith,
            shift_keys_at (shift_values p.array 0 (p.size - 1)) 1 (p.size - 2) (0 + i),
            shift_values_at p.array 0 (p.size - 1) (0 + i),
          ))

    rest_keys : listing left_keys 1 (p.size - 2) ≡ listing (key_at p) 2 (p.size - 2)
    rest_keys = listing_same left_keys (key_at p) 1 2 (p.size - 2) (λ i low. ground (
      arith,
      shift_keys_at (shift_values p.array 0 (p.size - 1)) 1 (p.size - 2) (1 + i),
      shift_values_at p.array 0 (p.size - 1) (2 + i),
    ))

-- `MoveLastToFrontOf` to a recipient with a child makes the moved child its second and leaves its
-- first child the first, while the middle key goes to the front of its keys.
pub children-move_last_to_front_of :
    (p recipient : Internal) (middle_key : ℕ)
    → 0 < recipient.size
    → let (p', recipient') = move_last_to_front_of p recipient middle_key in
      (children recipient'
        ≡ value_at recipient 0
          ∷ value_at p (p.size - 1)
          ∷ listing (value_at recipient) 1 (recipient.size - 1))
      × (separators recipient' ≡ middle_key ∷ separators recipient)
      × (p'.size ≡ p.size - 1)
unfolding move_last_to_front_of children separators
children-move_last_to_front_of p recipient middle_key had = (
  listing-cons values 0 (size + 1) (omega arith)
      ∙ ap2 first_child (
          ap (listing values 1) (omega arith)
          ∙ listing-cons values 1 size (omega arith)
          ∙ ap2 refl rest),
  ap (listing keys 1) (omega arith) ∙ listing-cons keys 1 size (omega arith) ∙ ap2 refl rest_keys,
  refl,
)
  where
    size : ℕ
    size = recipient.size

    shifted : ℕ → ℕ × ℕ
    shifted = shift_right recipient.array 0 size

    moved : ℕ → ℕ × ℕ
    moved =
        store (store shifted 0 ((shifted 0).0, (shifted 1).1)) 1
          (middle_key, value_at p (p.size - 1))

    values : ℕ → ℕ
    values j = (moved j).1

    keys : ℕ → ℕ
    keys j = (moved j).0

    ap2 : {x y : ℕ} {xs ys : List ℕ} → x ≡ y → xs ≡ ys → x ∷ xs ≡ y ∷ ys
    ap2 e e' = rw (e, e') refl

    first_child : values 0 ≡ value_at recipient 0
    first_child = ground (arith, shift_right_at recipient.array 0 size 1)

    rest : listing values 2 (size - 1) ≡ listing (value_at recipient) 1 (size - 1)
    rest =
        listing_same values (value_at recipient) 2 1 (size - 1)
          (λ i low. ground (arith, shift_right_at recipient.array 0 size (2 + i)))

    rest_keys : listing keys 2 (size - 1) ≡ listing (key_at recipient) 1 (size - 1)
    rest_keys =
        listing_same keys (key_at recipient) 2 1 (size - 1)
          (λ i low. ground (arith, shift_right_at recipient.array 0 size (2 + i)))
