-- ===== src/Index/Leaf.antt =====
-- `BPlusTreeLeafPage`: src/storage/page/b_plus_tree_leaf_page.cpp, with the header that
-- src/include/onebase/storage/page/b_plus_tree_page.h gives every page of the tree. The one
-- instance has keys of type `int` with `std::less<int>`: a key is its distance from the least
-- `int`, which keeps the order, and a `RID` is a number as in Concurrency/Transaction. `array_` is
-- its cells, those past the size included.
-- The array has no end here; the 4096 bytes of a page are 339 cells of it, which Index/Tree minds.
pub mod Search
pub mod Sorted
pub mod Moves
pub mod Tests
use zlchen_dsaa2031_project.Prelude.{
  ℕ, zero, suc, ◌+◌, ◌-◌, ◌/◌, Option, none, some, Bool, true, false, not, ◌&&◌, ◌||◌, ltb, leb,
  if◌then◌else◌,
}
use zlchen_dsaa2031_project.Storage.Disk.{invalid_page_id}
use zlchen_dsaa2031_project.Index.Arrays.{store, shift_right, shift_left, copy_to}

pub record Leaf : Type 0 where
  pub size : ℕ
  pub max_size : ℕ
  pub parent_page_id : ℕ
  pub next_page_id : ℕ
  pub array : ℕ → ℕ × ℕ

abbrev pub key_at : Leaf → ℕ → ℕ
key_at p index = (p.array index).0

abbrev pub value_at : Leaf → ℕ → ℕ
value_at p index = (p.array index).1

unfoldable pub init : Leaf → ℕ → Leaf
init p max_size = record p {
  size = 0;
  max_size = max_size;
  parent_page_id = invalid_page_id;
  next_page_id = invalid_page_id;
}

-- The loop of `KeyIndex`: each round halves `right - left`, so `right - left` rounds are enough.
pub search : (ℕ → ℕ × ℕ) → ℕ → ℕ → ℕ → ℕ → ℕ
search array key left right zero = left
search array key left right (suc fuel) =
    let mid = left + (right - left) / 2 in
    let above = search array key (mid + 1) right fuel in
    let below = search array key left mid fuel in
    if ltb left right then (if ltb (array mid).0 key then above else below) else left

pub key_index : Leaf → ℕ → ℕ
unfolding search
key_index p key = search p.array key 0 p.size p.size

-- The cell of the index holds the key.
abbrev pub is_at : Leaf → ℕ → ℕ → Bool
is_at p key index =
    ltb index p.size && (not (ltb key (key_at p index)) && not (ltb (key_at p index) key))

pub lookup : Leaf → ℕ → Option ℕ
unfolding key_index
lookup p key =
    let index = key_index p key in if is_at p key index then some (value_at p index) else none

-- The page and the size that is returned.
unfoldable pub insert : Leaf → ℕ → ℕ → Leaf × ℕ
unfolding key_index
insert p key value =
    let index = key_index p key in
    if is_at p key index then (p, p.size) else (
      record p {
        array = store (shift_right p.array index (p.size - index)) index (key, value);
        size = p.size + 1;
      },
      p.size + 1,
    )

unfoldable pub remove_and_delete_record : Leaf → ℕ → Leaf × ℕ
unfolding key_index
remove_and_delete_record p key =
    let index = key_index p key in
    if is_at p key index
    then (
      record p { array = shift_left p.array index (p.size - 1 - index); size = p.size - 1 },
      p.size - 1,
    )
    else (p, p.size)

-- Each move takes the page and the recipient and returns them.
unfoldable pub move_half_to : Leaf → Leaf → Leaf × Leaf
move_half_to p recipient =
    let mid = p.size / 2 in
    (
      record p { size = mid },
      record recipient {
        array = copy_to recipient.array 0 p.array mid (p.size - mid);
        size = p.size - mid;
      },
    )

pub move_all_to : Leaf → Leaf → Leaf × Leaf
move_all_to p recipient = (
  record p { size = 0 },
  record recipient {
    array = copy_to recipient.array recipient.size p.array 0 p.size;
    size = recipient.size + p.size;
  },
)

pub move_first_to_end_of : Leaf → Leaf → Leaf × Leaf
move_first_to_end_of p recipient = (
  record p { array = shift_left p.array 0 (p.size - 1); size = p.size - 1 },
  record recipient {
    array = store recipient.array recipient.size (p.array 0);
    size = recipient.size + 1;
  },
)

pub move_last_to_front_of : Leaf → Leaf → Leaf × Leaf
move_last_to_front_of p recipient = (
  record p { size = p.size - 1 },
  record recipient {
    array = store (shift_right recipient.array 0 recipient.size) 0 (p.array (p.size - 1));
    size = recipient.size + 1;
  },
)
