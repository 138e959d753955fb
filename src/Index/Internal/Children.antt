-- ===== src/Index/Internal/Children.antt =====
-- The moves of children between two internal pages, as moves between two lists of children and two
-- lists of the keys between them.
use zlchen_dsaa2031_project.Prelude.{
  ℕ, ◌+◌, ◌-◌, ◌/◌, ◌<◌, ◌≤◌, ◌≡◌, refl, sym, ap, ◌∙◌, List, [], ◌∷◌, ◌++◌, arith,
}
use zlchen_dsaa2031_project.Index.Arrays.{
  store, copy_to, copy_to_at, listing, listing_same, listing-append, listing-cons, append_same,
}
use zlchen_dsaa2031_project.Index.Internal.{Internal, key_at, value_at, move_half_to, move_all_to}

unfoldable pub children : Internal → List ℕ
children p = listing (value_at p) 0 p.size

-- The keys between the children.
unfoldable pub separators : Internal → List ℕ
separators p = listing (key_at p) 1 (p.size - 1)

-- `MoveAllTo` of a page with a child, to one with a child, appends the children of the page to
-- those of the recipient, with the middle key between them.
pub children-move_all_to :
    (p recipient : Internal) (middle_key : ℕ)
    → 0 < p.size
    → 0 < recipient.size
    → let (p', recipient') = move_all_to p recipient middle_key in
      (children recipient' ≡ children recipient ++ children p)
      × (separators recipient' ≡ separators recipient ++ middle_key ∷ separators p)
      × (children p' ≡ [])
unfolding move_all_to children separators listing
children-move_all_to p recipient middle_key has had = (
  listing-append values 0 start p.size ∙ append_same old_values new_values,
  ap (listing keys 1) (omega arith)
      ∙ listing-append keys 1 (start - 1) p.size
      ∙ append_same old_keys (
          ap (λ k. listing keys k p.size) (omega arith)
          ∙ listing-cons keys start p.size has
          ∙ ap2 middle new_keys),
  refl,
)
  where
    start : ℕ
    start = recipient.size

    merged : ℕ → ℕ × ℕ
    merged =
        copy_to (store recipient.array start (middle_key, value_at p 0)) (start + 1) p.array 1
          (p.size - 1)

    values : ℕ → ℕ
    values j = (merged j).1

    keys : ℕ → ℕ
    keys j = (merged j).0

    old_values : listing values 0 start ≡ listing (value_at recipient) 0 start
    old_values = listing_same values (value_at recipient) 0 0 start (λ i low. ground (
      arith,
      copy_to_at (store recipient.array start (middle_key, value_at p 0)) (start + 1) p.array 1
          (p.size - 1) (0 + i),
    ))

    new_values : listing values (0 + start) p.size ≡ listing (value_at p) 0 p.size
    new_values = listing_same values (value_at p) (0 + start) 0 p.size (λ i low. ground (
      arith,
      copy_to_at (store recipient.array start (middle_key, value_at p 0)) (start + 1) p.array 1
          (p.size - 1) (0 + start + i),
    ))

    old_keys : listing keys 1 (start - 1) ≡ listing (key_at recipient) 1 (start - 1)
    old_keys = listing_same keys (key_at recipient) 1 1 (start - 1) (λ i low. ground (
      arith,
      copy_to_at (store recipient.array start (middle_key, value_at p 0)) (start + 1) p.array 1
          (p.size - 1) (1 + i),
    ))

    new_keys : listing keys (start + 1) (p.size - 1) ≡ listing (key_at p) 1 (p.size - 1)
    new_keys = listing_same keys (key_at p) (start + 1) 1 (p.size - 1) (λ i low. ground (
      arith,
      copy_to_at (store recipient.array start (middle_key, value_at p 0)) (start + 1) p.array 1
          (p.size - 1) (start + 1 + i),
    ))

    middle : keys start ≡ middle_key
    middle = ground (
      arith,
      copy_to_at (store recipient.array start (middle_key, value_at p 0)) (start + 1) p.array 1
          (p.size - 1) start,
    )

    ap2 : {x y : ℕ} {xs ys : List ℕ} → x ≡ y → xs ≡ ys → x ∷ xs ≡ y ∷ ys
    ap2 e e' = rw (e, e') refl

-- `MoveHalfTo` of a page with two children or more leaves the first half of the children in the
-- page, rounded down, and the recipient holds the rest and nothing else; the key between the halves
-- is in neither page.
pub children-move_half_to :
    (p recipient : Internal) (middle_key : ℕ)
    → 2 ≤ p.size
    → let (p', recipient') = move_half_to p recipient middle_key in
      (children p' ++ children recipient' ≡ children p)
      × (separators p' ++ key_at p (p.size / 2) ∷ separators recipient' ≡ separators p)
      × (p'.size ≡ p.size / 2)
unfolding move_half_to children separators
children-move_half_to p recipient middle_key two = (
  append_same refl new_values
      ∙ sym (listing-append (value_at p) 0 mid rest)
      ∙ ap (listing (value_at p) 0) (omega arith),
  append_same refl (
        ap (λ l. key_at p mid ∷ l) new_keys
        ∙ sym (listing-cons (key_at p) mid rest (omega arith))
        ∙ ap (λ k. listing (key_at p) k rest) (omega arith))
      ∙ sym (listing-append (key_at p) 1 (mid - 1) rest)
      ∙ ap (listing (key_at p) 1) (omega arith),
  refl,
)
  where
    mid : ℕ
    mid = p.size / 2

    rest : ℕ
    rest = p.size - mid

    half : ℕ → ℕ × ℕ
    half =
        copy_to (store recipient.array 0 (key_at recipient 0, value_at p mid)) 1 p.array (mid + 1)
          (rest - 1)

    new_values : listing (λ j. (half j).1) 0 rest ≡ listing (value_at p) (0 + mid) rest
    new_values =
        listing_same (λ j. (half j).1) (value_at p) 0 (0 + mid) rest
          (λ i low. ground (
            arith,
            copy_to_at (store recipient.array 0 (key_at recipient 0, value_at p mid)) 1 p.array
                (mid + 1) (rest - 1) (0 + i),
          ))

    new_keys : listing (λ j. (half j).0) 1 (rest - 1) ≡ listing (key_at p) (mid + 1) (rest - 1)
    new_keys =
        listing_same (λ j. (half j).0) (key_at p) 1 (mid + 1) (rest - 1)
          (λ i low. ground (
            arith,
            copy_to_at (store recipient.array 0 (key_at recipient 0, value_at p mid)) 1 p.array
                (mid + 1) (rest - 1) (1 + i),
          ))
