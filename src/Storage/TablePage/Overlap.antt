-- ===== src/Storage/TablePage/Overlap.antt =====
-- An update in a table page that has no room for the new tuple.
use zlchen_dsaa2031_project.Prelude.{
  ℕ, ◌+◌, ◌-◌, ◌*◌, ◌<◌, ◌≤◌, ◌≡◌, refl, List, false, true, ◌&&◌, ◌∙◌, ltb, length, arith,
}
use zlchen_dsaa2031_project.Storage.Bytes.{
  Bytes, set16, set32, write_bytes, get32-set32, set16_apart, set32_apart, write_bytes_apart,
}
use zlchen_dsaa2031_project.Storage.TablePage.{
  num_tuples, free_space_pointer, free_space_remaining, slot_at, tuple_length, sub32, replaced,
  delete_tuple, update_tuple,
}
use zlchen_dsaa2031_project.Storage.TablePage.Layout.{IsValid}
use zlchen_dsaa2031_project.Storage.TablePage.Delete.{
  delete_tuple_slots, delete_tuple-free_space_pointer,
}

module _ (m : Bytes) (slot : ℕ) (d : List ℕ) (a : ℕ) (high : 16 ≤ a)
    (small_a : a < 4294967296) where
  header : (j : ℕ) → j < 16 → replaced m slot d a j ≡ set32 m 8 a j
  header j low =
      set16_apart (set16 (write_bytes (set32 m 8 a) a d) (slot_at slot) a) (slot_at slot + 2)
        (length d) j (ground arith)
      ∙ set16_apart (write_bytes (set32 m 8 a) a d) (slot_at slot) a j (ground arith)
      ∙ write_bytes_apart (set32 m 8 a) a j d (ground arith)

  fields :
      (num_tuples (replaced m slot d a) ≡ num_tuples m)
      × (free_space_pointer (replaced m slot d a) ≡ a)
  fields = (
    ground (
      arith,
      count 4 (omega arith),
      count 5 (omega arith),
      count 6 (omega arith),
      count 7 (omega arith),
    ),
    ground (
      arith,
      header 8 (omega arith),
      header 9 (omega arith),
      header 10 (omega arith),
      header 11 (omega arith),
      get32-set32 m 8 a small_a,
    ),
  )
    where
      count : (j : ℕ) → j < 8 → replaced m slot d a j ≡ m j
      count j low = header j (omega arith) ∙ set32_apart m 8 a j (ground arith)

-- `UpdateTuple` in a page with no free space, by a tuple that is not empty, not longer than the old
-- one and not longer than the slots together, reports success and breaks the page: the free space
-- pointer comes to lie below the end of the slots.
pub update_tuple-overlap :
    (m : Bytes) (slot : ℕ) (d : List ℕ)
    → IsValid m
    → slot < num_tuples m
    → free_space_pointer m ≡ 16 + num_tuples m * 4
    → 0 < length d
    → length d ≤ tuple_length m slot
    → length d ≤ num_tuples m * 4
    → ((update_tuple m slot d).1 ≡ true) × ¬ IsValid (update_tuple m slot d).0
unfolding update_tuple
update_tuple-overlap m slot d v low full some_bytes shorter fewer =
    rw not_longer
      (refl, λ valid. omega (arith, valid.room, after, same, count, fewer, some_bytes, full, v.top))
  where
    not_longer :
        (ltb (tuple_length m slot) (length d)
          && ltb (free_space_remaining m) (sub32 (length d) (tuple_length m slot)))
        ≡ false
    not_longer = ground arith

    same : free_space_pointer (delete_tuple m slot) ≡ free_space_pointer m
    same = delete_tuple-free_space_pointer m slot v low

    count : num_tuples (delete_tuple m slot) ≡ num_tuples m
    count = (delete_tuple_slots m slot v low).1

    a : ℕ
    a = sub32 (free_space_pointer (delete_tuple m slot)) (length d)

    below : a ≡ free_space_pointer m - length d
    below = omega (arith, same, fewer, full, v.top)

    after :
        (num_tuples (replaced (delete_tuple m slot) slot d a) ≡ num_tuples (delete_tuple m slot))
        × (free_space_pointer (replaced (delete_tuple m slot) slot d a) ≡ a)
    after =
        fields (delete_tuple m slot) slot d a (omega (arith, below, full, fewer))
          (omega (arith, below, v.top))
