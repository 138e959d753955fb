-- ===== src/Storage/TablePage.antt =====
-- `TablePage`: src/storage/page/table_page.cpp, over the bytes of its page. A page has 4096 bytes:
-- the header of 16, the slots of 4 bytes each behind it, and the tuples from the end downwards.
pub mod Layout
pub mod Insert
pub mod Delete
pub mod Update
pub mod Overlap
pub mod Tests
use zlchen_dsaa2031_project.Prelude.{
  ℕ, ◌+◌, ◌-◌, ◌*◌, ◌%◌, List, Option, none, some, Bool, true, false, ◌&&◌, length, ltb,
  if◌then◌else◌, sub64,
}
use zlchen_dsaa2031_project.Storage.Bytes.{
  Bytes, get16, get32, set16, set32, write_bytes, read_bytes,
}

abbrev pub page_size : ℕ
page_size = 4096

-- `Init` writes its page id where the next page's id stands.
pub init : Bytes → ℕ → Bytes
init m page_id = set32 (set32 (set32 (λ j. 0) 0 page_id) 4 0) 8 page_size

abbrev pub next_page_id : Bytes → ℕ
next_page_id m = get32 m 0

abbrev pub set_next_page_id : Bytes → ℕ → Bytes
set_next_page_id m page_id = set32 m 0 page_id

abbrev pub num_tuples : Bytes → ℕ
num_tuples m = get32 m 4

abbrev pub free_space_pointer : Bytes → ℕ
free_space_pointer m = get32 m 8

abbrev pub slot_at : ℕ → ℕ
slot_at slot_num = 16 + slot_num * 4

abbrev pub tuple_offset : Bytes → ℕ → ℕ
tuple_offset m slot_num = get16 m (slot_at slot_num)

abbrev pub tuple_length : Bytes → ℕ → ℕ
tuple_length m slot_num = get16 m (slot_at slot_num + 2)

-- `uint32_t` subtraction
abbrev pub sub32 : ℕ → ℕ → ℕ
sub32 a b = (a + 4294967296 - b) % 4294967296

-- The difference is taken as a `size_t` and returned as a `uint32_t`.
abbrev pub free_space_remaining : Bytes → ℕ
free_space_remaining m = sub64 (free_space_pointer m) (16 + num_tuples m * 4) % 4294967296

-- The two fields of a slot, each cut to 16 bits.
abbrev pub set_slot : Bytes → ℕ → ℕ → ℕ → Bytes
set_slot m slot_num offset size =
    set16 (set16 m (slot_at slot_num) offset) (slot_at slot_num + 2) size

-- The tuple goes under the free space pointer, and its slot behind the others.
abbrev pub placed : Bytes → List ℕ → ℕ → Bytes
placed m tuple_data new_fsp =
    set32
      (set_slot (write_bytes (set32 m 8 new_fsp) new_fsp tuple_data) (num_tuples m % 65536) new_fsp
        (length tuple_data))
      4 (num_tuples m + 1)

unfoldable pub insert_tuple : Bytes → List ℕ → Bytes × Option ℕ
insert_tuple m tuple_data =
    if ltb (free_space_remaining m) (length tuple_data + 4) then (m, none) else (
      placed m tuple_data (sub32 (free_space_pointer m) (length tuple_data)),
      some (num_tuples m % 65536),
    )

unfoldable pub get_tuple : Bytes → ℕ → List ℕ
get_tuple m slot_num = read_bytes m (tuple_offset m slot_num) (tuple_length m slot_num)

unfoldable pub get_tuple_size : Bytes → ℕ → ℕ
get_tuple_size m slot_num = tuple_length m slot_num

unfoldable pub delete_tuple : Bytes → ℕ → Bytes
delete_tuple m slot_num = set16 (set16 m (slot_at slot_num + 2) 0) (slot_at slot_num) 0

-- The new tuple under the free space pointer, in its old slot.
abbrev pub replaced : Bytes → ℕ → List ℕ → ℕ → Bytes
replaced m slot_num new_data new_fsp =
    set_slot (write_bytes (set32 m 8 new_fsp) new_fsp new_data) slot_num new_fsp (length new_data)

pub update_tuple : Bytes → ℕ → List ℕ → Bytes × Bool
unfolding delete_tuple
update_tuple m slot_num new_data =
    let old_size = tuple_length m slot_num in
    let deleted = delete_tuple m slot_num in
    if ltb old_size (length new_data)
      && ltb (free_space_remaining m) (sub32 (length new_data) old_size)
    then (m, false)
    else (
      replaced deleted slot_num new_data (sub32 (free_space_pointer deleted) (length new_data)),
      true,
    )
