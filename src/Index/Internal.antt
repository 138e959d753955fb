-- ===== src/Index/Internal.antt =====
-- `BPlusTreeInternalPage`: src/storage/page/b_plus_tree_internal_page.cpp. Keys are as in
-- Index/Leaf; the values are page ids. The key of cell 0 is never read.
-- The array has no end here; the 4096 bytes of a page are 510 cells of it, which Index/Tree minds.
pub mod Search
pub mod Children
pub mod Redistribute
pub mod Entries
pub mod Insertion
pub mod Tests
use zlchen_dsaa2031_project.Prelude.{
  ℕ, zero, suc, ◌+◌, ◌-◌, ◌/◌, Option, none, some, ◌==◌, ltb, if◌then◌else◌,
}
use zlchen_dsaa2031_project.Storage.Disk.{invalid_page_id}
use zlchen_dsaa2031_project.Index.Arrays.{store, shift_right, shift_left, copy_to}

pub record Internal : Type 0 where
  pub size : ℕ
  pub max_size : ℕ
  pub parent_page_id : ℕ
  pub array : ℕ → ℕ × ℕ

abbrev pub key_at : Internal → ℕ → ℕ
key_at p index = (p.array index).0

abbrev pub value_at : Internal → ℕ → ℕ
value_at p index = (p.array index).1

unfoldable pub init : Internal → ℕ → Internal
init p max_size = record p { size = 0; max_size = max_size; parent_page_id = invalid_page_id }

abbrev pub set_key_at : Internal → ℕ → ℕ → Internal
set_key_at p index key = record p { array = store p.array index (key, value_at p index) }

abbrev pub set_value_at : Internal → ℕ → ℕ → Internal
set_value_at p index value = record p { array = store p.array index (key_at p index, value) }

-- The loop of `ValueIndex`, over `n` cells from `i` on; its -1 is `none`.
pub index_of : (ℕ → ℕ × ℕ) → ℕ → ℕ → ℕ → Option ℕ
index_of array value i zero = none
index_of array value i (suc n) =
    let later = index_of array value (i + 1) n in if (array i).1 == value then some i else later

unfoldable pub value_index : Internal → ℕ → Option ℕ
unfolding index_of
value_index p value = index_of p.array value 0 p.size

-- The loop of `Lookup`: `right - left` rounds are enough.
pub search : (ℕ → ℕ × ℕ) → ℕ → ℕ → ℕ → ℕ → ℕ
search array key left right zero = left
search array key left right (suc fuel) =
    let mid = left + (right - left) / 2 in
    let below = search array key left mid fuel in
    let above = search array key (mid + 1) right fuel in
    if ltb left right then (if ltb key (array mid).0 then below else above) else left

unfoldable pub lookup : Internal → ℕ → ℕ
unfolding search
lookup p key = value_at p (search p.array key 1 p.size p.size - 1)

unfoldable pub populate_new_root : Internal → ℕ → ℕ → ℕ → Internal
populate_new_root p old_value key new_value = record p {
  array = store (store p.array 0 (key_at p 0, old_value)) 1 (key, new_value);
  size = 2;
}

-- The new entry goes behind the cell of the index.
abbrev pub insert_at : Internal → ℕ → ℕ → ℕ → Internal
insert_at p index key new_value = record p {
  array =
      store (shift_right p.array (index + 1) (p.size - (index + 1))) (index + 1) (key, new_value);
  size = p.size + 1;
}

-- The page and the size that is returned.
pub insert_node_after : Internal → ℕ → ℕ → ℕ → Internal × ℕ
unfolding value_index
insert_node_after p old_value key new_value = elim (value_index p old_value) [
  | none ↦ (p, p.size)
  | some index ↦ (insert_at p index key new_value, p.size + 1)
]

pub remove : Internal → ℕ → Internal
remove p index = record p {
  array = shift_left p.array index (p.size - 1 - index);
  size = p.size - 1;
}

pub remove_and_return_only_child : Internal → Internal × ℕ
remove_and_return_only_child p = (record p { size = 0 }, value_at p 0)

-- Each move takes the page and the recipient and returns them.
unfoldable pub move_all_to : Internal → Internal → ℕ → Internal × Internal
move_all_to p recipient middle_key =
    let start = recipient.size in
    (
      record p { size = 0 },
      record recipient {
        array =
            copy_to (store recipient.array start (middle_key, value_at p 0)) (start + 1) p.array 1
              (p.size - 1);
        size = start + p.size;
      },
    )

unfoldable pub move_half_to : Internal → Internal → ℕ → Internal × Internal
move_half_to p recipient middle_key =
    let mid = p.size / 2 in
    let move_count = p.size - mid in
    (
      record p { size = mid },
      record recipient {
        array =
            copy_to (store recipient.array 0 (key_at recipient 0, value_at p mid)) 1 p.array
              (mid + 1) (move_count - 1);
        size = move_count;
      },
    )

-- The two loops of `MoveFirstToEndOf`, over the values and over the keys of the cells.
pub shift_values : (ℕ → ℕ × ℕ) → ℕ → ℕ → ℕ → ℕ × ℕ
shift_values array i zero = array
shift_values array i (suc n) =
    shift_values (store array i ((array i).0, (array (i + 1)).1)) (i + 1) n

pub shift_keys : (ℕ → ℕ × ℕ) → ℕ → ℕ → ℕ → ℕ × ℕ
shift_keys array i zero = array
shift_keys array i (suc n) = shift_keys (store array i ((array (i + 1)).0, (array i).1)) (i + 1) n

pub move_first_to_end_of : Internal → Internal → ℕ → Internal × Internal
unfolding shift_values shift_keys
move_first_to_end_of p recipient middle_key = (
  record p {
    array = shift_keys (shift_values p.array 0 (p.size - 1)) 1 (p.size - 2);
    size = p.size - 1;
  },
  record recipient {
    array = store recipient.array recipient.size (middle_key, value_at p 0);
    size = recipient.size + 1;
  },
)

pub move_last_to_front_of : Internal → Internal → ℕ → Internal × Internal
move_last_to_front_of p recipient middle_key =
    let shifted = shift_right recipient.array 0 recipient.size in
    let first = store shifted 0 ((shifted 0).0, (shifted 1).1) in
    (
      record p { size = p.size - 1 },
      record recipient {
        array = store first 1 (middle_key, value_at p (p.size - 1));
        size = recipient.size + 1;
      },
    )
