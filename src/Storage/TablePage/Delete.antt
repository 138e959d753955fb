-- ===== src/Storage/TablePage/Delete.antt =====
-- An empty table page, and a deletion from a table page.
use zlchen_dsaa2031_project.Prelude.{
  ℕ, ◌+◌, ◌<◌, ◌≡◌, ◌≢◌, inl, inr, refl, ap, subst, [], false, ◌&&◌, ◌∙◌, leb, ltb, arith,
}
use native.Mathlib.Decide.{ℕ_discrete}
use zlchen_dsaa2031_project.Storage.Bytes.{
  Bytes, set16, set32, read_bytes, get16-set16, set16_apart,
}
use zlchen_dsaa2031_project.Storage.TablePage.{
  init, num_tuples, free_space_pointer, slot_at, tuple_offset, tuple_length, delete_tuple,
  get_tuple,
}
use zlchen_dsaa2031_project.Storage.TablePage.Layout.{IsValid}
use zlchen_dsaa2031_project.Storage.TablePage.Insert.{read_along, tuples}
use zlchen_dsaa2031_project.Index.Arrays.{listing, listing_replaced, replace_at}

-- `Init` leaves a valid page without tuples.
pub init-IsValid :
    (m : Bytes) (page_id : ℕ) → IsValid (init m page_id) × (num_tuples (init m page_id) ≡ 0)
unfolding init set32
init-IsValid m page_id = (
  record {
    room = omega arith;
    top = omega arith;
    inside = λ i low. absurd (omega arith);
    apart = λ i j low. absurd (omega arith);
  },
  refl,
)

module _ (m : Bytes) (slot : ℕ) (v : IsValid m) (low : slot < num_tuples m) where
  abbrev m' : Bytes
  m' = set16 (set16 m (slot_at slot + 2) 0) (slot_at slot) 0

  kept : (j : ℕ) → (leb (slot_at slot) j && ltb j (slot_at slot + 4)) ≡ false → m' j ≡ m j
  kept j away =
      set16_apart (set16 m (slot_at slot + 2) 0) (slot_at slot) 0 j (ground (arith, away))
      ∙ set16_apart m (slot_at slot + 2) 0 j (ground (arith, away))

  header : (num_tuples m' ≡ num_tuples m) × (free_space_pointer m' ≡ free_space_pointer m)
  header = (
    ground (arith, at 4 (omega arith), at 5 (omega arith), at 6 (omega arith), at 7 (omega arith)),
    ground
        (arith, at 8 (omega arith), at 9 (omega arith), at 10 (omega arith), at 11 (omega arith)),
  )
    where
      at : (j : ℕ) → j < 16 → m' j ≡ m j
      at j small = kept j (ground arith)

  other_slot :
      (i : ℕ)
      → slot ≢ i
      → (tuple_offset m' i ≡ tuple_offset m i) × (tuple_length m' i ≡ tuple_length m i)
  other_slot i other = (
    ground (arith, at 0 (omega arith), at 1 (omega arith)),
    ground (arith, at 2 (omega arith), at 3 (omega arith)),
  )
    where
      at : (k : ℕ) → k < 4 → m' (slot_at i + k) ≡ m (slot_at i + k)
      at k small = kept (slot_at i + k) (ground (arith, other))

  emptied : tuple_length m' slot ≡ 0
  emptied = ground (
    arith,
    set16_apart (set16 m (slot_at slot + 2) 0) (slot_at slot) 0 (slot_at slot + 2) (ground arith),
    set16_apart (set16 m (slot_at slot + 2) 0) (slot_at slot) 0 (slot_at slot + 2 + 1)
        (ground arith),
    get16-set16 m (slot_at slot + 2) 0 (omega arith),
  )

  deleted-IsValid : IsValid m'
  deleted-IsValid = record {
    room = omega (arith, header, v.room);
    top = omega (arith, header, v.top);
    inside = λ i small. elim (ℕ_discrete slot i) [
      | yes e ↦ inl (subst (λ k. tuple_length m' k ≡ 0) e emptied)
      | no other ↦ ground (arith, header, other_slot i other, v.inside i)
    ];
    apart = λ i j small small' different. elim (ℕ_discrete slot i) [
      | yes e ↦ inl (subst (λ k. tuple_length m' k ≡ 0) e emptied)
      | no other ↦ elim (ℕ_discrete slot j) [
        | yes e ↦ inr (inl (subst (λ k. tuple_length m' k ≡ 0) e emptied))
        | no other' ↦ ground (
          arith,
          header,
          other_slot i other,
          other_slot j other',
          v.apart i j (omega (arith, header)) (omega (arith, header)) different,
        )
      ]
    ];
  }

  deleted_tuple : get_tuple m' slot ≡ []
  unfolding get_tuple read_bytes
  deleted_tuple = ap (read_bytes m' (tuple_offset m' slot)) emptied

  other_tuple : (i : ℕ) → i < num_tuples m → slot ≢ i → get_tuple m' i ≡ get_tuple m i
  unfolding get_tuple
  other_tuple i small other =
      read_along m m' (tuple_offset m i) _ (tuple_length m i) _ (other_slot i other).0
        (other_slot i other).1
        (λ k less. kept (tuple_offset m i + k) (ground (arith, v.inside i small, v.room)))

  -- `DeleteTuple` by slot.
  pub delete_tuple_slots :
      let m'' = delete_tuple m slot in
      IsValid m''
      × (num_tuples m'' ≡ num_tuples m)
      × (get_tuple m'' slot ≡ [])
      × ((i : ℕ) → i < num_tuples m → slot ≢ i → get_tuple m'' i ≡ get_tuple m i)
  unfolding delete_tuple
  delete_tuple_slots = (deleted-IsValid, header.0, deleted_tuple, other_tuple)

  -- `DeleteTuple` of a slot of a valid page makes the slot's tuple empty, leaves every other tuple
  -- in its slot as it was, and keeps the page valid.
  pub tuples-delete_tuple :
      IsValid (delete_tuple m slot) × (tuples (delete_tuple m slot) ≡ replace_at slot [] (tuples m))
  unfolding tuples
  tuples-delete_tuple =
      let (valid, count, emptied_, others) = delete_tuple_slots in
      (
        valid,
        ap (listing (get_tuple (delete_tuple m slot)) 0) count
            ∙ listing_replaced (get_tuple m) (get_tuple (delete_tuple m slot)) 0 (num_tuples m) slot
                [] low (ap (get_tuple (delete_tuple m slot)) (omega arith) ∙ emptied_)
                (λ i less other. ground (arith, others i less other)),
      )

  pub delete_tuple-free_space_pointer :
      free_space_pointer (delete_tuple m slot) ≡ free_space_pointer m
  unfolding delete_tuple
  delete_tuple-free_space_pointer = header.1
