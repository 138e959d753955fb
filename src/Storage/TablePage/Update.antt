-- ===== src/Storage/TablePage/Update.antt =====
-- An update in a table page that has room for the new tuple.
use zlchen_dsaa2031_project.Prelude.{
  ℕ, ◌+◌, ◌-◌, ◌*◌, ◌<◌, ◌≤◌, ◌≡◌, ◌≢◌, ◌⊎◌, inr, refl, ap, subst, sym, List, false, true, Bool,
  ◌&&◌, ◌∙◌, leb, ltb, length, arith,
}
use native.Mathlib.Decide.{ℕ_discrete}
use zlchen_dsaa2031_project.Storage.Bytes.{
  Bytes, set16, set32, write_bytes, read_bytes-write_bytes, get16-set16, get32-set32, set16_apart,
  set32_apart, write_bytes_apart,
}
use zlchen_dsaa2031_project.Storage.TablePage.{
  page_size, num_tuples, free_space_pointer, free_space_remaining, slot_at, tuple_offset,
  tuple_length, sub32, replaced, delete_tuple, update_tuple, get_tuple,
}
use zlchen_dsaa2031_project.Storage.TablePage.Layout.{IsValid}
use zlchen_dsaa2031_project.Storage.TablePage.Insert.{read_along, remaining, tuples}
use zlchen_dsaa2031_project.Index.Arrays.{listing, listing_replaced, replace_at}
use zlchen_dsaa2031_project.Storage.TablePage.Delete.{
  delete_tuple_slots, delete_tuple-free_space_pointer,
}

module _ (m : Bytes) (slot : ℕ) (d : List ℕ) (v : IsValid m) (low : slot < num_tuples m)
    (fits : 16 + num_tuples m * 4 + length d ≤ free_space_pointer m) where
  abbrev fsp' : ℕ
  fsp' = free_space_pointer m - length d

  abbrev with_tuple : Bytes
  with_tuple = write_bytes (set32 m 8 fsp') fsp' d

  abbrev m' : Bytes
  m' = replaced m slot d fsp'

  around_slot :
      (j : ℕ) → (leb (slot_at slot) j && ltb j (slot_at slot + 4)) ≡ false → m' j ≡ with_tuple j
  around_slot j away =
      set16_apart (set16 with_tuple (slot_at slot) fsp') (slot_at slot + 2) (length d) j
        (ground (arith, away))
      ∙ set16_apart with_tuple (slot_at slot) fsp' j (ground (arith, away))

  kept :
      (j : ℕ)
      → (leb (slot_at slot) j && ltb j (slot_at slot + 4)) ≡ false
      → (leb 8 j && ltb j 12) ≡ false
      → (leb fsp' j && ltb j (fsp' + length d)) ≡ false
      → m' j ≡ m j
  kept j away head tail =
      around_slot j away
      ∙ write_bytes_apart (set32 m 8 fsp') fsp' j d tail
      ∙ set32_apart m 8 fsp' j head

  header : (num_tuples m' ≡ num_tuples m) × (free_space_pointer m' ≡ fsp')
  header = (
    ground (arith, at 4 (omega arith), at 5 (omega arith), at 6 (omega arith), at 7 (omega arith)),
    ground (
      arith,
      pointer 8 (omega arith),
      pointer 9 (omega arith),
      pointer 10 (omega arith),
      pointer 11 (omega arith),
      get32-set32 m 8 fsp' (omega (arith, v.top)),
    ),
  )
    where
      at : (j : ℕ) → j < 8 → m' j ≡ m j
      at j small = kept j (ground arith) (ground arith) (ground arith)

      pointer : (j : ℕ) → j < 16 → m' j ≡ set32 m 8 fsp' j
      pointer j small =
          around_slot j (ground arith) ∙ write_bytes_apart (set32 m 8 fsp') fsp' j d (ground arith)

  other_slot :
      (i : ℕ)
      → i < num_tuples m
      → slot ≢ i
      → (tuple_offset m' i ≡ tuple_offset m i) × (tuple_length m' i ≡ tuple_length m i)
  other_slot i small other = (
    ground (arith, at 0 (omega arith), at 1 (omega arith)),
    ground (arith, at 2 (omega arith), at 3 (omega arith)),
  )
    where
      at : (k : ℕ) → k < 4 → m' (slot_at i + k) ≡ m (slot_at i + k)
      at k less = kept (slot_at i + k) (ground (arith, other)) (ground arith) (ground arith)

  own_slot : (tuple_offset m' slot ≡ fsp') × (tuple_length m' slot ≡ length d)
  own_slot = (
    ground (
      arith,
      set16_apart (set16 with_tuple (slot_at slot) fsp') (slot_at slot + 2) (length d)
          (slot_at slot) (ground arith),
      set16_apart (set16 with_tuple (slot_at slot) fsp') (slot_at slot + 2) (length d)
          (slot_at slot + 1) (ground arith),
      get16-set16 with_tuple (slot_at slot) fsp' (omega (arith, v.top)),
    ),
    get16-set16 (set16 with_tuple (slot_at slot) fsp') (slot_at slot + 2) (length d)
        (omega (arith, v.top)),
  )

  abbrev Apart : ℕ → ℕ → Type 0
  Apart i j =
      (tuple_length m' i ≡ 0)
      ⊎ (tuple_length m' j ≡ 0)
      ⊎ (tuple_offset m' i + tuple_length m' i ≤ tuple_offset m' j)
      ⊎ (tuple_offset m' j + tuple_length m' j ≤ tuple_offset m' i)

  beside : (i : ℕ) → i < num_tuples m → slot ≢ i → Apart i slot × Apart slot i
  beside i small other = ground (arith, other_slot i small other, own_slot, v.inside i small)

  replaced-IsValid : IsValid m'
  replaced-IsValid = record {
    room = omega (arith, header);
    top = omega (arith, header, v.top);
    inside = λ i small. elim (ℕ_discrete slot i) [
      | yes e ↦
          subst
            (λ k.
              (tuple_length m' k ≡ 0)
              ⊎ ((free_space_pointer m' ≤ tuple_offset m' k)
                  × (tuple_offset m' k + tuple_length m' k ≤ page_size)))
            e (inr (omega (arith, header, own_slot), omega (arith, own_slot, v.top)))
      | no other ↦ ground (arith, header, other_slot i (omega (arith, header)) other, v.inside i)
    ];
    apart = λ i j small small' different. elim (ℕ_discrete slot i) [
      | yes e ↦ elim (ℕ_discrete slot j) [
        | yes e' ↦ absurd (different (sym e ∙ e'))
        | no other ↦ subst (λ k. Apart k j) e (beside j (omega (arith, header)) other).1
      ]
      | no other ↦ elim (ℕ_discrete slot j) [
        | yes e ↦ subst (Apart i) e (beside i (omega (arith, header)) other).0
        | no other' ↦ ground (
          arith,
          other_slot i (omega (arith, header)) other,
          other_slot j (omega (arith, header)) other',
          v.apart i j (omega (arith, header)) (omega (arith, header)) different,
        )
      ]
    ];
  }

  own_tuple : get_tuple m' slot ≡ d
  unfolding get_tuple
  own_tuple =
      read_along with_tuple m' fsp' _ (length d) _ own_slot.0 own_slot.1
        (λ k less. around_slot (fsp' + k) (ground arith))
      ∙ read_bytes-write_bytes (set32 m 8 fsp') fsp' d

  other_tuple : (i : ℕ) → i < num_tuples m → slot ≢ i → get_tuple m' i ≡ get_tuple m i
  unfolding get_tuple
  other_tuple i small other =
      read_along m m' (tuple_offset m i) _ (tuple_length m i) _ (other_slot i small other).0
        (other_slot i small other).1
        (λ k less.
          kept (tuple_offset m i + k) (ground (arith, v.inside i small))
            (ground (arith, v.inside i small)) (ground (arith, v.inside i small)))

update_tuple-replaced :
    (m : Bytes) (slot : ℕ) (d : List ℕ)
    → IsValid m
    → free_space_pointer (delete_tuple m slot) ≡ free_space_pointer m
    → 16 + num_tuples m * 4 + length d ≤ free_space_pointer m
    → update_tuple m slot d ≡ (
      replaced (delete_tuple m slot) slot d (free_space_pointer (delete_tuple m slot) - length d),
      true,
    )
unfolding update_tuple
update_tuple-replaced m slot d v same fits =
    rw roomy (pair (ap (replaced (delete_tuple m slot) slot d) wraps))
  where
    roomy :
        (ltb (tuple_length m slot) (length d)
          && ltb (free_space_remaining m) (sub32 (length d) (tuple_length m slot)))
        ≡ false
    roomy = ground (arith, remaining m v, v.top)

    wraps :
        sub32 (free_space_pointer (delete_tuple m slot)) (length d)
        ≡ free_space_pointer (delete_tuple m slot) - length d
    wraps = omega (arith, same, fits, v.top)

    pair : {x y : Bytes} → x ≡ y → ◌≡◌ {A = Bytes × Bool} (x, true) (y, true)
    pair e = rw e refl

-- `UpdateTuple` of a slot of a valid page, where the new tuple fits between the slots and the
-- tuples, succeeds: the new tuple takes the place of the slot's, every other tuple is in its slot
-- as it was, and the page stays valid.
pub tuples-update_tuple :
    (m : Bytes) (slot : ℕ) (d : List ℕ)
    → IsValid m
    → slot < num_tuples m
    → 16 + num_tuples m * 4 + length d ≤ free_space_pointer m
    → let (m', ok) = update_tuple m slot d in
      (ok ≡ true) × IsValid m' × (tuples m' ≡ replace_at slot d (tuples m))
unfolding tuples
tuples-update_tuple m slot d v low fits =
    let (valid, count, emptied, others) = delete_tuple_slots m slot v low in
    let pointer = delete_tuple-free_space_pointer m slot v low in
    let m1 : Bytes = delete_tuple m slot in
    let low1 : slot < num_tuples m1 = omega (arith, count, low) in
    let fits1 : 16 + num_tuples m1 * 4 + length d ≤ free_space_pointer m1 =
      omega (arith, count, pointer, fits) in
    let m2 : Bytes = replaced m1 slot d (free_space_pointer m1 - length d) in
    rw (update_tuple-replaced m slot d v pointer fits) (
      refl,
      replaced-IsValid m1 slot d valid low1 fits1,
      ap (listing (get_tuple m2) 0) ((header m1 slot d valid low1 fits1).0 ∙ count)
          ∙ listing_replaced (get_tuple m) (get_tuple m2) 0 (num_tuples m) slot d low
              (ap (get_tuple m2) (omega arith) ∙ own_tuple m1 slot d valid low1 fits1)
              (λ i small other. ground (
                arith,
                other_tuple m1 slot d valid low1 fits1 i (omega (arith, count, small)) other,
                others i small other,
              )),
    )
