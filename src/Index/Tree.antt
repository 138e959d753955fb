-- ===== src/Index/Tree.antt =====
-- `BPlusTree` and `BPlusTreeIterator`: src/storage/index/b_plus_tree.cpp, b_plus_tree_iterator.cpp.
-- The pages are seen as the buffer pool promises them: by their ids, with the id that a new page
-- gets and the number of new pages that there is room for. What a guard refers to is written back
-- at once. `latched` is the list of the pages that the thread has latched where it fetches another.
pub mod Changes
pub mod Removal
pub mod Search
pub mod Frame
pub mod Deadlock
pub mod Parents
pub mod Halves
pub mod RootSplit
pub mod Ways
pub mod LeafSplit
pub mod Overflow
pub mod Walk
pub mod Leftmost
pub mod Tests
pub mod SplitTests
use zlchen_dsaa2031_project.Prelude.{
  ℕ, zero, suc, ◌+◌, Option, none, some, Bool, true, false, List, [], ◌∷◌, ◌==◌, leb, length,
  lookup, insert, contains, if◌then◌else◌,
}
use zlchen_dsaa2031_project.Storage.Disk.{invalid_page_id}
use zlchen_dsaa2031_project.Index.Leaf.{Leaf}
use zlchen_dsaa2031_project.Index.Leaf as LeafPage
use zlchen_dsaa2031_project.Index.Internal.{Internal}
use zlchen_dsaa2031_project.Index.Internal as InternalPage

pub data Node : Type 0 where
  leaf : (page : Leaf) → Node
  internal : (page : Internal) → Node

pub record Tree : Type 0 where
  pub root_page_id : ℕ
  pub leaf_max_size : ℕ
  pub internal_max_size : ℕ
  pub nodes : List (ℕ × Node)
  pub fresh_id : ℕ
  pub room : ℕ

-- A call returns, never returns, or does what is undefined: it reads a page that it has not or of the
-- other kind, or writes behind a page.
pub data Run {ℓ} (A : Type ℓ) : Type ℓ where
  ok : A → Run A
  hangs : Run A
  fault : Run A

infixl 5 ◌>>=◌
abbrev pub ◌>>=◌ {ℓ κ} : {A : Type ℓ} {B : Type κ} → Run A → (A → Run B) → Run B
ok a >>= f = f a
hangs >>= f = hangs
fault >>= f = fault

abbrev pub found : Option Node → Run Node
found none = fault
found (some node) = ok node

-- `FetchPageRead` and `FetchPageWrite`: a latch is not had twice.
unfoldable pub fetch : List ℕ → Tree → ℕ → Run Node
fetch latched t page_id = if contains page_id latched then hangs else found (lookup page_id t.nodes)

abbrev pub put : Tree → ℕ → Node → Tree
put t page_id node = record t { nodes = insert page_id node t.nodes }

abbrev pub as_leaf : Node → Run Leaf
as_leaf (leaf p) = ok p
as_leaf (internal p) = fault

abbrev pub as_internal : Node → Run Internal
as_internal (leaf p) = fault
as_internal (internal p) = ok p

-- `NewPageGuarded`: without a page its guard is empty, and what the caller writes is undefined.
abbrev take_page : Tree → ℕ → Run (ℕ × Tree)
take_page t zero = fault
take_page t (suc room) = ok (t.fresh_id, record t { fresh_id = t.fresh_id + 1; room = room })

unfoldable pub new_page_guarded : Tree → Run (ℕ × Tree)
new_page_guarded t = take_page t t.room

-- The cells for which a page of 4096 bytes has room: of 12 bytes behind 20 in a leaf, of 8 behind 16
-- in an internal page.
abbrev pub leaf_capacity : ℕ
leaf_capacity = 339

abbrev pub internal_capacity : ℕ
internal_capacity = 510

-- What is written behind the cells of the page goes into the fields of `Page`.
abbrev pub in_page : Node → Run Node
in_page (leaf p) = if leb p.size leaf_capacity then ok (leaf p) else fault
in_page (internal p) = if leb p.size internal_capacity then ok (internal p) else fault

-- The cells of a zeroed page, whose keys are 0.
abbrev pub zeroed : ℕ → ℕ × ℕ
zeroed index = (2147483648, 0)

abbrev pub zeroed_leaf : Leaf
zeroed_leaf = record {
  size = 0;
  max_size = 0;
  parent_page_id = 0;
  next_page_id = 0;
  array = zeroed;
}

abbrev pub zeroed_internal : Internal
zeroed_internal = record { size = 0; max_size = 0; parent_page_id = 0; array = zeroed }

abbrev pub is_empty : Tree → Bool
is_empty t = t.root_page_id == invalid_page_id

-- The way down to a leaf, by the child that each page picks. A page below itself is never left.
unfoldable pub descend : Tree → (Internal → ℕ) → List ℕ → ℕ → ℕ → Run (ℕ × Leaf)
descend t pick latched page_id zero = hangs
descend t pick latched page_id (suc fuel) = fetch latched t page_id >>= λ node. elim node [
  | leaf p ↦ ok (page_id, p)
  | internal p ↦ descend t pick (page_id ∷ []) (pick p) fuel
]

-- A way down along different pages is no longer than there are pages.
unfoldable pub find_leaf : Tree → (Internal → ℕ) → Run (ℕ × Leaf)
find_leaf t pick = descend t pick [] t.root_page_id (length t.nodes)

abbrev pub child_for : ℕ → Internal → ℕ
child_for key p = InternalPage.lookup p key

unfoldable pub get_value : Tree → ℕ → Run (Option ℕ)
get_value t key =
    if is_empty t
    then ok none
    else find_leaf t (child_for key) >>= (λ reached. ok (LeafPage.lookup reached.1 key))

-- An iterator is the id of a page and an index.
abbrev pub end : ℕ × ℕ
end = (invalid_page_id, 0)

unfoldable pub begin : Tree → Run (ℕ × ℕ)
begin t =
    if is_empty t
    then ok end
    else find_leaf t (λ p. InternalPage.value_at p 0) >>= (λ reached. ok (reached.0, 0))

unfoldable pub begin_at : Tree → ℕ → Run (ℕ × ℕ)
begin_at t key =
    if is_empty t
    then ok end
    else find_leaf t (child_for key) >>= (λ reached.
      let index = LeafPage.key_index reached.1 key in
      ok (if leb reached.1.size index then end else (reached.0, index)))

-- `*`: none is the exception at the end.
unfoldable pub dereference : Tree → ℕ × ℕ → Run (Option (ℕ × ℕ))
dereference t (page_id, index) =
    if page_id == invalid_page_id
    then ok none
    else fetch [] t page_id >>= as_leaf >>= (λ p. ok (some (p.array index)))

abbrev pub next_place : Leaf → ℕ → ℕ → ℕ × ℕ
next_place p page_id index =
    if leb p.size (index + 1) then (p.next_page_id, 0) else (page_id, index + 1)

unfoldable pub increment : Tree → ℕ × ℕ → Run (ℕ × ℕ)
increment t (page_id, index) =
    if page_id == invalid_page_id
    then ok (page_id, index)
    else fetch [] t page_id >>= as_leaf >>= (λ p. ok (next_place p page_id index))

-- By default a page is allowed all its cells.
abbrev pub max_size_or : ℕ → ℕ → ℕ
max_size_or fallback zero = fallback
max_size_or fallback (suc n) = suc n

unfoldable pub new_tree : List (ℕ × Node) → ℕ → ℕ → ℕ → ℕ → Tree
new_tree nodes fresh_id room leaf_max_size internal_max_size = record {
  root_page_id = invalid_page_id;
  leaf_max_size = max_size_or leaf_capacity leaf_max_size;
  internal_max_size = max_size_or internal_capacity internal_max_size;
  nodes = nodes;
  fresh_id = fresh_id;
  room = room;
}
