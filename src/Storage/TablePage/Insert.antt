-- ===== src/Storage/TablePage/Insert.antt =====
-- An insertion into a table page.
use zlchen_dsaa2031_project.Prelude.{
  ℕ, ◌+◌, ◌-◌, ◌*◌, ◌%◌, ◌<◌, ◌≤◌, ◌≡◌, ◌⊎◌, inl, inr, refl, sym, ap, subst, List, [], ◌∷◌, ◌++◌,
  Option, none, some, false, ◌∙◌, ltb, length, Bool-cases, arith,
}
use native.Mathlib.Decide.{ℕ_discrete}
use zlchen_dsaa2031_project.Storage.Bytes.{
  Bytes, write_bytes, set32, read_bytes, read_bytes_same, read_bytes-write_bytes,
}
use zlchen_dsaa2031_project.Index.Arrays.{listing, listing_same, listing-snoc, append_same}
use zlchen_dsaa2031_project.Storage.TablePage.{
  page_size, next_page_id, num_tuples, free_space_pointer, free_space_remaining, slot_at,
  tuple_offset, tuple_length, placed, sub32, insert_tuple, get_tuple,
}
use zlchen_dsaa2031_project.Storage.TablePage.Layout.{
  IsValid, placed_untouched, num_tuples-placed, free_space_pointer-placed, slot-placed,
  placed_tuple,
}

-- The tuples of the page, slot by slot; a deleted one is empty.
unfoldable pub tuples : Bytes → List (List ℕ)
tuples m = listing (get_tuple m) 0 (num_tuples m)

pub read_along :
    (m m' : Bytes) (a a' n n' : ℕ)
    → a' ≡ a
    → n' ≡ n
    → ((k : ℕ) → k < n → m' (a + k) ≡ m (a + k))
    → read_bytes m' a' n' ≡ read_bytes m a n
read_along m m' a a' n n' e e' same =
    ap (λ x. read_bytes m' x n') e ∙ ap (read_bytes m' a) e' ∙ read_bytes_same m m' a n same

module _ (m : Bytes) (d : List ℕ) (v : IsValid m)
    (fits : 16 + num_tuples m * 4 + 4 + length d ≤ free_space_pointer m) where
  abbrev m' : Bytes
  m' = placed m d (free_space_pointer m - length d)

  old_slot :
      (i : ℕ)
      → i < num_tuples m
      → (tuple_offset m' i ≡ tuple_offset m i) × (tuple_length m' i ≡ tuple_length m i)
  old_slot i low = (
    ground (arith, kept 0 (omega arith), kept 1 (omega arith)),
    ground (arith, kept 2 (omega arith), kept 3 (omega arith)),
  )
    where
      kept : (k : ℕ) → k < 4 → m' (slot_at i + k) ≡ m (slot_at i + k)
      kept k small =
          placed_untouched m d v fits (slot_at i + k)
            (record { header = ground arith; slot = ground arith; tuple = ground arith })

  cases_last : (i : ℕ) → i < num_tuples m' → (i < num_tuples m) ⊎ (i ≡ num_tuples m)
  cases_last i low = elim (ℕ_discrete i (num_tuples m)) [
    | yes e ↦ inr e
    | no other ↦ inl (omega (arith, num_tuples-placed m d v fits, other))
  ]

  abbrev Lies : ℕ → Type 0
  Lies i =
      (tuple_length m' i ≡ 0)
      ⊎ ((free_space_pointer m' ≤ tuple_offset m' i)
          × (tuple_offset m' i + tuple_length m' i ≤ page_size))

  abbrev Apart : ℕ → ℕ → Type 0
  Apart i j =
      (tuple_length m' i ≡ 0)
      ⊎ (tuple_length m' j ≡ 0)
      ⊎ (tuple_offset m' i + tuple_length m' i ≤ tuple_offset m' j)
      ⊎ (tuple_offset m' j + tuple_length m' j ≤ tuple_offset m' i)

  new_Lies : Lies (num_tuples m)
  new_Lies = inr (
    omega (arith, slot-placed m d v fits, free_space_pointer-placed m d v fits),
    omega (arith, slot-placed m d v fits, v.top, fits),
  )

  old_new : (i : ℕ) → i < num_tuples m → Apart i (num_tuples m) × Apart (num_tuples m) i
  old_new i low = ground (arith, old_slot i low, v.inside i low, slot-placed m d v fits, fits)

  placed-IsValid : IsValid m'
  placed-IsValid = record {
    room = omega (arith, num_tuples-placed m d v fits, free_space_pointer-placed m d v fits);
    top = omega (arith, free_space_pointer-placed m d v fits, v.top);
    inside = λ i low. elim (cases_last i low) [
      | inl old ↦
          ground (arith, old_slot i old, v.inside i old, free_space_pointer-placed m d v fits)
      | inr new ↦ subst Lies (sym new) new_Lies
    ];
    apart = λ i j low_i low_j other. elim (cases_last i low_i) [
      | inl old ↦ elim (cases_last j low_j) [
        | inl old' ↦ ground (arith, old_slot i old, old_slot j old', v.apart i j old old' other)
        | inr new ↦ subst (Apart i) (sym new) (old_new i old).0
      ]
      | inr new ↦ elim (cases_last j low_j) [
        | inl old ↦ subst (λ k. Apart k j) (sym new) (old_new j old).1
        | inr new' ↦ absurd (other (new ∙ sym new'))
      ]
    ];
  }

  get_tuple-placed : get_tuple m' (num_tuples m) ≡ d
  unfolding get_tuple
  get_tuple-placed =
      read_along with_tuple m' fsp' _ (length d) _ (slot-placed m d v fits).0
        (slot-placed m d v fits).1 (λ k low. placed_tuple m d v fits (fsp' + k) (omega arith))
      ∙ read_bytes-write_bytes (set32 m 8 fsp') fsp' d
    where
      fsp' : ℕ
      fsp' = free_space_pointer m - length d

      with_tuple : Bytes
      with_tuple = write_bytes (set32 m 8 fsp') fsp' d

  get_tuple_old : (i : ℕ) → i < num_tuples m → get_tuple m' i ≡ get_tuple m i
  unfolding get_tuple
  get_tuple_old i low =
      read_along m m' (tuple_offset m i) _ (tuple_length m i) _ (old_slot i low).0
        (old_slot i low).1
        (λ k small. placed_untouched m d v fits (tuple_offset m i + k) (record {
          header = ground (arith, v.inside i low);
          slot = ground (arith, v.inside i low);
          tuple = ground (arith, v.inside i low);
        }))

  tuples-placed : tuples m' ≡ tuples m ++ d ∷ []
  unfolding tuples
  tuples-placed =
      ap (listing (get_tuple m') 0) (num_tuples-placed m d v fits)
      ∙ listing-snoc (get_tuple m') 0 (num_tuples m)
      ∙ append_same
          (listing_same (get_tuple m') (get_tuple m) 0 0 (num_tuples m)
            (λ i low. ground (arith, get_tuple_old i low)))
          (ap (λ x. x ∷ []) (ap (get_tuple m') (omega arith) ∙ get_tuple-placed))

  next_page_id-placed : next_page_id m' ≡ next_page_id m
  next_page_id-placed = ground (
    arith,
    kept 0 (omega arith),
    kept 1 (omega arith),
    kept 2 (omega arith),
    kept 3 (omega arith),
  )
    where
      kept : (j : ℕ) → j < 4 → m' j ≡ m j
      kept j small =
          placed_untouched m d v fits j
            (record { header = ground arith; slot = ground arith; tuple = ground arith })

inserted :
    (m : Bytes) (d : List ℕ)
    → IsValid m
    → 16 + num_tuples m * 4 + 4 + length d ≤ free_space_pointer m
    → ltb (free_space_remaining m) (length d + 4) ≡ false
    → insert_tuple m d ≡ (placed m d (free_space_pointer m - length d), some (num_tuples m))
unfolding insert_tuple
inserted m d v fits enough = rw enough (pair (ap (placed m d) wraps) (ap some slot))
  where
    wraps : sub32 (free_space_pointer m) (length d) ≡ free_space_pointer m - length d
    wraps = omega (arith, fits, v.top)

    slot : num_tuples m % 65536 ≡ num_tuples m
    slot = omega (arith, fits, v.top)

    pair : {x y : Bytes} {a b : Option ℕ} → x ≡ y → a ≡ b → ◌≡◌ {A = Bytes × Option ℕ} (x, a) (y, b)
    pair e e' = rw (e, e') refl

-- In a valid page the free space is what lies between the slots and the tuples.
pub remaining :
    (m : Bytes)
    → IsValid m
    → free_space_remaining m + (16 + num_tuples m * 4) ≡ free_space_pointer m
remaining m v = omega (arith, v.room, v.top)

-- `InsertTuple` into a valid page refuses a tuple exactly if it and its slot do not fit between the
-- slots and the tuples, and changes nothing then. Otherwise the tuple is read back from the new
-- slot, whose number is returned, it comes behind the tuples of the page, which are as before, the
-- link to the next page is kept, and the page stays valid.
pub insert_tuple-get_tuple :
    (m : Bytes) (d : List ℕ)
    → IsValid m
    → ((insert_tuple m d ≡ (m, none))
        × (free_space_pointer m < 16 + num_tuples m * 4 + 4 + length d))
      ⊎ ((m' : Bytes) × (insert_tuple m d ≡ (m', some (num_tuples m)))
          × IsValid m'
          × (num_tuples m' ≡ num_tuples m + 1)
          × (get_tuple m' (num_tuples m) ≡ d)
          × (tuples m' ≡ tuples m ++ d ∷ [])
          × (next_page_id m' ≡ next_page_id m))
unfolding insert_tuple
insert_tuple-get_tuple m d v = elim (Bool-cases (ltb (free_space_remaining m) (length d + 4))) [
  | inl full ↦ inl (rw full refl, ground (arith, remaining m v))
  | inr enough ↦
      let fits : 16 + num_tuples m * 4 + 4 + length d ≤ free_space_pointer m =
        ground (arith, remaining m v) in
      inr (
        placed m d (free_space_pointer m - length d),
        inserted m d v fits enough,
        placed-IsValid m d v fits,
        num_tuples-placed m d v fits,
        get_tuple-placed m d v fits,
        tuples-placed m d v fits,
        next_page_id-placed m d v fits,
      )
]
