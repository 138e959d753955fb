-- ===== src/Storage/TablePage/Layout.antt =====
-- The layout of a table page, and what an insertion leaves in each of its bytes.
use zlchen_dsaa2031_project.Prelude.{
  ℕ, ◌+◌, ◌-◌, ◌*◌, ◌%◌, ◌<◌, ◌≤◌, ◌≡◌, ◌≢◌, ◌⊎◌, List, false, ◌&&◌, ◌∙◌, leb, ltb, length, arith,
}
use zlchen_dsaa2031_project.Storage.Bytes.{
  Bytes, set16, set32, write_bytes, get16-set16, get32-set32, set16_apart, set32_apart,
  write_bytes_apart,
}
use zlchen_dsaa2031_project.Storage.TablePage.{
  page_size, num_tuples, free_space_pointer, slot_at, tuple_offset, tuple_length, placed, set_slot,
}

-- The slots end before the tuples begin, every tuple that is not deleted lies between the free
-- space pointer and the end of the page, and no two of them overlap.
pub record IsValid (m : Bytes) : Type 0 where
  pub room : 16 + num_tuples m * 4 ≤ free_space_pointer m
  pub top : free_space_pointer m ≤ page_size
  pub inside :
      (i : ℕ)
      → i < num_tuples m
      → (tuple_length m i ≡ 0)
        ⊎ ((free_space_pointer m ≤ tuple_offset m i)
            × (tuple_offset m i + tuple_length m i ≤ page_size))
  pub apart :
      (i j : ℕ)
      → i < num_tuples m
      → j < num_tuples m
      → i ≢ j
      → (tuple_length m i ≡ 0)
        ⊎ (tuple_length m j ≡ 0)
        ⊎ (tuple_offset m i + tuple_length m i ≤ tuple_offset m j)
        ⊎ (tuple_offset m j + tuple_length m j ≤ tuple_offset m i)

-- The bytes that an insertion may write.
pub record IsUntouched (m : Bytes) (new_fsp size j : ℕ) : Type 0 where
  pub header : (leb 4 j && ltb j 12) ≡ false
  pub slot : (leb (slot_at (num_tuples m)) j && ltb j (slot_at (num_tuples m) + 4)) ≡ false
  pub tuple : (leb new_fsp j && ltb j (new_fsp + size)) ≡ false

module _ (m : Bytes) (d : List ℕ) (v : IsValid m)
    (fits : 16 + num_tuples m * 4 + 4 + length d ≤ free_space_pointer m) where
  abbrev new_fsp : ℕ
  new_fsp = free_space_pointer m - length d

  abbrev with_tuple : Bytes
  with_tuple = write_bytes (set32 m 8 new_fsp) new_fsp d

  abbrev with_slot : Bytes
  with_slot = set_slot with_tuple (num_tuples m % 65536) new_fsp (length d)

  same_slot : num_tuples m % 65536 ≡ num_tuples m
  same_slot = omega (arith, v.room, v.top)

  pub placed_untouched : (j : ℕ) → IsUntouched m new_fsp (length d) j → placed m d new_fsp j ≡ m j
  placed_untouched j u =
      set32_apart with_slot 4 (num_tuples m + 1) j (ground (arith, u.header))
      ∙ set16_apart (set16 with_tuple (slot_at (num_tuples m % 65536)) new_fsp)
          (slot_at (num_tuples m % 65536) + 2) (length d) j (ground (arith, u.slot, same_slot))
      ∙ set16_apart with_tuple (slot_at (num_tuples m % 65536)) new_fsp j
          (ground (arith, u.slot, same_slot))
      ∙ write_bytes_apart (set32 m 8 new_fsp) new_fsp j d u.tuple
      ∙ set32_apart m 8 new_fsp j (ground (arith, u.header))

  pub num_tuples-placed : num_tuples (placed m d new_fsp) ≡ num_tuples m + 1
  num_tuples-placed = get32-set32 with_slot 4 (num_tuples m + 1) (omega (arith, v.room, v.top))

  -- The header but for the count, and the slots, come from the slot that is written.
  placed_slots : (j : ℕ) → (leb 4 j && ltb j 8) ≡ false → placed m d new_fsp j ≡ with_slot j
  placed_slots j away = set32_apart with_slot 4 (num_tuples m + 1) j away

  slot_header : (j : ℕ) → j < 16 → with_slot j ≡ set32 m 8 new_fsp j
  slot_header j low =
      set16_apart (set16 with_tuple (slot_at (num_tuples m % 65536)) new_fsp)
        (slot_at (num_tuples m % 65536) + 2) (length d) j (ground arith)
      ∙ set16_apart with_tuple (slot_at (num_tuples m % 65536)) new_fsp j (ground arith)
      ∙ write_bytes_apart (set32 m 8 new_fsp) new_fsp j d (ground arith)

  pub free_space_pointer-placed : free_space_pointer (placed m d new_fsp) ≡ new_fsp
  free_space_pointer-placed = ground (
    arith,
    header 8 (omega arith) (omega arith),
    header 9 (omega arith) (omega arith),
    header 10 (omega arith) (omega arith),
    header 11 (omega arith) (omega arith),
    get32-set32 m 8 new_fsp (omega (arith, v.top)),
  )
    where
      header : (j : ℕ) → 8 ≤ j → j < 16 → placed m d new_fsp j ≡ set32 m 8 new_fsp j
      header j high low = placed_slots j (ground arith) ∙ slot_header j low

  pub slot-placed :
      (tuple_offset (placed m d new_fsp) (num_tuples m) ≡ new_fsp)
      × (tuple_length (placed m d new_fsp) (num_tuples m) ≡ length d)
  slot-placed = (
    ground (
      arith,
      at_slot,
      placed_slots a (ground arith),
      placed_slots (a + 1) (ground arith),
      set16_apart (set16 with_tuple a' new_fsp) (a' + 2) (length d) a (ground (arith, at_slot)),
      set16_apart (set16 with_tuple a' new_fsp) (a' + 2) (length d) (a + 1)
          (ground (arith, at_slot)),
      get16-set16 with_tuple a' new_fsp (omega (arith, v.top)),
    ),
    ground (
      arith,
      at_slot,
      placed_slots (a + 2) (ground arith),
      placed_slots (a + 2 + 1) (ground arith),
      get16-set16 (set16 with_tuple a' new_fsp) (a' + 2) (length d) (omega (arith, fits, v.top)),
    ),
  )
    where
      a : ℕ
      a = slot_at (num_tuples m)

      a' : ℕ
      a' = slot_at (num_tuples m % 65536)

      at_slot : a' ≡ a
      at_slot = omega (arith, same_slot)

  -- Above the slots only the tuple was written.
  pub placed_tuple : (j : ℕ) → new_fsp ≤ j → placed m d new_fsp j ≡ with_tuple j
  placed_tuple j above =
      placed_slots j (ground arith)
      ∙ set16_apart (set16 with_tuple (slot_at (num_tuples m % 65536)) new_fsp)
          (slot_at (num_tuples m % 65536) + 2) (length d) j (ground (arith, same_slot))
      ∙ set16_apart with_tuple (slot_at (num_tuples m % 65536)) new_fsp j
          (ground (arith, same_slot))
