-- ===== src/Storage/TableHeap.antt =====
-- `TableHeap`: src/storage/table/table_heap.cpp, over src/storage/page/table_page.cpp. The buffer pool
-- is seen as what it promises: the pages by their ids, the id that a new page gets, and how many new
-- pages there is still room for. A page is unpinned in the call that pinned it.
pub mod Scan
pub mod Tests
use zlchen_dsaa2031_project.Prelude.{
  ℕ, zero, suc, ◌+◌, ◌*◌, ◌/◌, ◌%◌, Option, none, some, Bool, true, false, List, [], ◌∷◌, ◌==◌, ltb,
  length, lookup, insert, if◌then◌else◌,
}
use zlchen_dsaa2031_project.Storage.Bytes.{Bytes}
use zlchen_dsaa2031_project.Storage.Disk.{invalid_page_id}
use zlchen_dsaa2031_project.Storage.TablePage.{
  init, next_page_id, set_next_page_id, num_tuples, insert_tuple, get_tuple, get_tuple_size,
  update_tuple, delete_tuple,
}
use zlchen_dsaa2031_project.Concurrency.Transaction.{rid}

pub record Pages : Type 0 where
  pub pages : List (ℕ × Bytes)
  pub fresh_id : ℕ
  pub room : ℕ

-- `FetchPage`, `NewPage`, and a page that is unpinned as dirty.
abbrev pub fetch : Pages → ℕ → Option Bytes
fetch s page_id = lookup page_id s.pages

abbrev pub write : Pages → ℕ → Bytes → Pages
write s page_id m = record s { pages = insert page_id m s.pages }

abbrev allocate : Pages → ℕ → Option (ℕ × Pages)
allocate s zero = none
allocate s (suc room) = some (
  s.fresh_id,
  record { pages = insert s.fresh_id (λ j. 0) s.pages; fresh_id = s.fresh_id + 1; room = room },
)

abbrev pub new_page : Pages → Option (ℕ × Pages)
new_page s = allocate s s.room

abbrev pub page_of : ℕ → ℕ
page_of r = r / 65536

abbrev pub slot_of : ℕ → ℕ
slot_of r = r % 65536

abbrev empty_page : Bytes
empty_page = init (λ j. 0) invalid_page_id

-- The constructor, with the first page's id; without a page it throws.
abbrev first_page : Option (ℕ × Pages) → Option (ℕ × Pages)
first_page none = none
first_page (some (page_id, s)) = some (page_id, write s page_id empty_page)

unfoldable pub new_table_heap : Pages → Option (ℕ × Pages)
new_table_heap s = first_page (new_page s)

abbrev pub some_rid : ℕ → Option ℕ → Option ℕ
some_rid page_id none = none
some_rid page_id (some slot) = some (rid page_id slot)

-- The tuple on a new page behind the last.
abbrev grown : ℕ → Bytes → List ℕ → Pages → Option (ℕ × Pages) → Pages × Option ℕ
grown page_id m tuple s none = (s, none)
grown page_id m tuple s (some (new_page_id, s1)) =
    let (filled, slot) = insert_tuple empty_page tuple in
    (
      write (write s1 page_id (set_next_page_id m new_page_id)) new_page_id filled,
      some_rid new_page_id slot,
    )

-- The walk along the pages. A chain of n pages takes n rounds.
unfoldable pub insert_from : Pages → List ℕ → ℕ → ℕ → Pages × Option ℕ
insert_from s tuple page_id zero = (s, none)
insert_from s tuple page_id (suc fuel) =
    if page_id == invalid_page_id then (s, none) else elim (fetch s page_id) [
      | none ↦ (s, none)
      | some m ↦
          let (filled, inserted) = insert_tuple m tuple in
          elim inserted [
            | some slot ↦ (write s page_id filled, some (rid page_id slot))
            | none ↦
                if next_page_id m == invalid_page_id
                then grown page_id m tuple s (new_page s)
                else insert_from s tuple (next_page_id m) fuel
          ]
    ]

unfoldable pub heap_insert_tuple : Pages → ℕ → List ℕ → Pages × Option ℕ
heap_insert_tuple s first_page_id tuple = insert_from s tuple first_page_id (length s.pages)

-- `GetTuple`: the bytes of the tuple; it throws where the page cannot be fetched.
abbrev pub page_tuple : ℕ → Option Bytes → Option (List ℕ)
page_tuple slot none = none
page_tuple slot (some m) = some (get_tuple m slot)

abbrev pub heap_get_tuple : Pages → ℕ → Option (List ℕ)
heap_get_tuple s r = page_tuple (slot_of r) (fetch s (page_of r))

abbrev updated : Pages → ℕ → ℕ → List ℕ → Option Bytes → Pages × Bool
updated s page_id slot tuple none = (s, false)
updated s page_id slot tuple (some m) =
    let (m', ok) = update_tuple m slot tuple in (write s page_id m', ok)

unfoldable pub heap_update_tuple : Pages → ℕ → List ℕ → Pages × Bool
heap_update_tuple s r tuple = updated s (page_of r) (slot_of r) tuple (fetch s (page_of r))

abbrev deleted : Pages → ℕ → ℕ → Option Bytes → Pages
deleted s page_id slot none = s
deleted s page_id slot (some m) = write s page_id (delete_tuple m slot)

unfoldable pub heap_delete_tuple : Pages → ℕ → Pages
heap_delete_tuple s r = deleted s (page_of r) (slot_of r) (fetch s (page_of r))

-- The iterator is a `RID`; at the end it is this one.
abbrev pub end_rid : ℕ
end_rid = rid invalid_page_id 0

-- The loop over the slots of a page, in `uint16_t`.
unfoldable pub find_slot : Bytes → ℕ → ℕ → Option ℕ
find_slot m slot zero = none
find_slot m slot (suc fuel) =
    let later = find_slot m ((slot + 1) % 65536) fuel in
    if ltb slot (num_tuples m)
    then (if ltb 0 (get_tuple_size m slot) then some slot else later)
    else none

-- The loop over the pages, of `Begin` and of `++`.
unfoldable pub seek : Pages → ℕ → ℕ → ℕ → ℕ
seek s page_id slot zero = end_rid
seek s page_id slot (suc fuel) =
    if page_id == invalid_page_id then end_rid else elim (fetch s page_id) [
      | none ↦ end_rid
      | some m ↦ elim (find_slot m slot (num_tuples m)) [
        | some found ↦ rid page_id found
        | none ↦ seek s (next_page_id m) 0 fuel
      ]
    ]

abbrev pub begin : Pages → ℕ → ℕ
unfolding seek
begin s first_page_id = seek s first_page_id 0 (suc (length s.pages))

abbrev pub increment : Pages → ℕ → ℕ
unfolding seek
increment s r = seek s (page_of r) ((slot_of r + 1) % 65536) (suc (length s.pages))

-- A loop from one iterator to the end: the `RID`s and their tuples.
unfoldable pub scan_from : Pages → ℕ → ℕ → Option (List (ℕ × List ℕ))
unfolding increment
scan_from s r zero = none
scan_from s r (suc calls) =
    let rest = scan_from s (increment s r) calls in
    if r == end_rid then some [] else elim (heap_get_tuple s r) [
      | none ↦ none
      | some tuple ↦ elim rest [ none ↦ none | some more ↦ some ((r, tuple) ∷ more) ]
    ]
