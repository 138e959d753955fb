-- ===== src/Index/Tree/Tests.antt =====
-- Trees of one leaf, and of a root over two or three leaves.
use zlchen_dsaa2031_project.Prelude.{
  ℕ, zero, suc, ◌+◌, ◌*◌, ◌<◌, ◌≤◌, ◌≡◌, ◌↔◌, refl, Option, none, some, true, not, [], ◌∷◌, ◌==◌,
  is_some, lookup, if◌then◌else◌, arith,
}
use zlchen_dsaa2031_project.Prelude.{insert as put_node}
use zlchen_dsaa2031_project.Index.Arrays.{copy_to, listing}
use zlchen_dsaa2031_project.Index.Tree.Leftmost.{in_order, gather, AreLinked, begin-walk}
use zlchen_dsaa2031_project.Index.Leaf.{Leaf}
use zlchen_dsaa2031_project.Index.Leaf as LeafPage
use zlchen_dsaa2031_project.Index.Leaf.Sorted.{or_else, lookup_found, lookup_missing}
use zlchen_dsaa2031_project.Index.Leaf.Search.{IsSorted}
use zlchen_dsaa2031_project.Index.Internal.{Internal}
use zlchen_dsaa2031_project.Index.Internal as InternalPage
use zlchen_dsaa2031_project.Index.Tree.{
  leaf, internal, Tree, Run, ok, hangs, fault, fetch, descend, find_leaf, child_for, get_value,
  begin, begin_at, end, ◌>>=◌,
}
use zlchen_dsaa2031_project.Index.Tree.Changes.{insert, set_parents}
use zlchen_dsaa2031_project.Index.Tree.Removal.{remove, merge}
use zlchen_dsaa2031_project.Index.Tree.Search.{IsTree, Holds, low_of, high_of, get_value-Holds}
use zlchen_dsaa2031_project.Index.Tree.Frame.{get_value-reached, insert-get_value, remove-get_value}
use zlchen_dsaa2031_project.Index.Tree.RootSplit.{insert_full-get_value}
use zlchen_dsaa2031_project.Index.Tree.Deadlock.{remove-hangs}
use zlchen_dsaa2031_project.Index.Tree.Parents.{HasParent, merge-HasParent}
use zlchen_dsaa2031_project.Index.Tree.Walk.{walk, all_entries, total, begin_at_behind}

-- Cell i of a leaf has the key 10 * i + first, and its value i.
abbrev cells : ℕ → ℕ → ℕ × ℕ
cells first i = (first + 10 * i, i)

abbrev pub leaf_of : ℕ → ℕ → ℕ → ℕ → ℕ → Leaf
leaf_of first size max_size parent next = record {
  size = size;
  max_size = max_size;
  parent_page_id = parent;
  next_page_id = next;
  array = cells first;
}

pub leaf_of-IsSorted :
    (first size max_size parent next : ℕ) → IsSorted (leaf_of first size max_size parent next)
leaf_of-IsSorted first size max_size parent next i j less low = omega arith

-- The keys 5 and 15 in page 1.
abbrev pair : Leaf
pair = leaf_of 5 2 2 4294967295 4294967295

abbrev pub one_leaf : Tree
one_leaf = record {
  root_page_id = 1;
  leaf_max_size = 2;
  internal_max_size = 4;
  nodes = (1, leaf pair) ∷ [];
  fresh_id = 2;
  room = 2;
}

one_leaf_missing : LeafPage.lookup pair 7 ≡ none
one_leaf_missing = lookup_missing pair 7 (λ i low e. absurd (omega arith))

insert_full-get_value_example :
    (t' : Tree) × (insert one_leaf 7 70 ≡ ok (t', true))
    × (get_value t' 5 ≡ ok (or_else (LeafPage.lookup pair 5) (if 7 == 5 then some 70 else none)))
unfolding lookup
insert_full-get_value_example =
    insert_full-get_value one_leaf 7 70 5 0 pair refl refl (omega arith) (omega arith) refl
      (leaf_of-IsSorted 5 2 2 4294967295 4294967295) refl (omega arith) (omega arith)
      one_leaf_missing

-- A root with the key 20 between two leaves, with the keys 0, 10 and 20, 30, 40, 50.
abbrev pub first : ℕ → Leaf
first max_size = leaf_of 0 2 max_size 9 2

abbrev second : Leaf
second = leaf_of 20 4 4 9 4294967295

abbrev pub top : Internal
top = record { size = 2; max_size = 4; parent_page_id = 4294967295; array = λ i. (20, 1 + i) }

abbrev pub two_leaves : ℕ → Tree
two_leaves max_size = record {
  root_page_id = 9;
  leaf_max_size = max_size;
  internal_max_size = 4;
  nodes = (9, internal top) ∷ (1, leaf (first max_size)) ∷ (2, leaf second) ∷ [];
  fresh_id = 10;
  room = 0;
}

two_leaves-IsTree : IsTree (two_leaves 3) 1 9 0 100
unfolding IsTree lookup
two_leaves-IsTree = (top, refl, λ i j pos less low. absurd (omega arith), omega arith, children)
  where
    children :
        (i : ℕ)
        → i < 2
        → (0 ≤ low_of top 0 i)
          × (high_of top 100 i ≤ 100)
          × IsTree
              (two_leaves 3)
              0
              (InternalPage.value_at top i)
              (low_of top 0 i)
              (high_of top 100 i)
    children zero low = (
      omega arith,
      omega arith,
      (first 3, refl, leaf_of-IsSorted 0 2 3 9 2, λ i low. (omega arith, omega arith)),
    )
    children (suc zero) low = (
      omega arith,
      omega arith,
      (second, refl, leaf_of-IsSorted 20 4 4 9 4294967295, λ i low. (omega arith, omega arith)),
    )
    children (suc (suc i)) low = absurd (omega arith)

-- The way to a key below 20.
pub to_first :
    (max_size : ℕ) → find_leaf (two_leaves max_size) (child_for 10) ≡ ok (1, first max_size)
unfolding find_leaf descend fetch lookup InternalPage.lookup
to_first max_size = refl

has_ten : (max_size : ℕ) → LeafPage.lookup (first max_size) 10 ≡ some 1
has_ten max_size =
    lookup_found (first max_size) (leaf_of-IsSorted 0 2 max_size 9 2) 10 1 (omega arith) refl

get_value-Holds_example :
    (result : Option ℕ) × (get_value (two_leaves 3) 10 ≡ ok result)
    × ((value : ℕ) → (result ≡ some value) ↔ Holds (two_leaves 3) 1 9 10 value)
get_value-Holds_example =
    get_value-Holds (two_leaves 3) 1 0 100 10 (omega arith) two_leaves-IsTree (omega arith)
      (omega arith) (omega arith)

pub at_ten :
    (max_size : ℕ) → get_value (two_leaves max_size) 10 ≡ ok (LeafPage.lookup (first max_size) 10)
at_ten max_size =
    get_value-reached (two_leaves max_size) 10 1 (first max_size) (omega arith) (to_first max_size)

insert-get_value_example :
    (t' : Tree) × (had : Option ℕ) × (get_value (two_leaves 3) 10 ≡ ok had)
    × (insert (two_leaves 3) 10 70 ≡ ok (t', not (is_some had)))
    × (get_value t' 10
        ≡ ok (or_else (LeafPage.lookup (first 3) 10) (if 10 == 10 then some 70 else none)))
insert-get_value_example =
    insert-get_value (two_leaves 3) 10 70 10 1 (first 3) (LeafPage.lookup (first 3) 10)
      (omega arith) (to_first 3) (leaf_of-IsSorted 0 2 3 9 2) (omega arith) (at_ten 3)

remove-get_value_example :
    (t' : Tree) × (remove (two_leaves 3) 10 ≡ ok t')
    × (get_value t' 10 ≡ ok (if 10 == 10 then none else LeafPage.lookup (first 3) 10))
remove-get_value_example =
    remove-get_value (two_leaves 3) 10 10 1 (first 3) (LeafPage.lookup (first 3) 10) (omega arith)
      (to_first 3) (leaf_of-IsSorted 0 2 3 9 2) (omega arith) (at_ten 3)

-- Two entries are the least number for a leaf of four, and the other leaf is full.
remove-hangs_example : remove (two_leaves 4) 10 ≡ hangs
unfolding lookup InternalPage.value_index
remove-hangs_example =
    remove-hangs (two_leaves 4) 10 1 1 0 (first 4) top (leaf second) (omega arith) (to_first 4)
      (leaf_of-IsSorted 0 2 4 9 2) (has_ten 4) (omega arith) (omega arith) refl (omega arith) refl
      (omega arith) (omega arith) refl (omega arith)

begin-walk_example :
    (begin (two_leaves 3) >>= λ it. walk (two_leaves 3) it 7)
    ≡ ok (all_entries (first 3 ∷ second ∷ []))
unfolding in_order gather listing AreLinked total lookup
begin-walk_example =
    begin-walk (two_leaves 3) 1 0 100 7 (first 3 ∷ second ∷ []) (omega arith) two_leaves-IsTree
      (omega arith)
      (omega arith, refl, omega arith, refl, (omega arith, refl, omega arith, refl, tt))
      (omega arith)

begin_at_behind_example :
    (begin_at (two_leaves 3) 15 ≡ ok end) × (walk (two_leaves 3) end 1 ≡ ok [])
unfolding find_leaf descend fetch lookup InternalPage.lookup
begin_at_behind_example =
    begin_at_behind (two_leaves 3) 15 1 0 (first 3) (omega arith) refl (leaf_of-IsSorted 0 2 3 9 2)
      (λ i low. omega arith)

-- Two internal pages, 11 and 12, with a leaf each, below page 9.
abbrev one_child : ℕ → Internal
one_child child = record { size = 1; max_size = 4; parent_page_id = 9; array = λ i. (20, child) }

abbrev two_pages : Tree
two_pages = record {
  root_page_id = 9;
  leaf_max_size = 4;
  internal_max_size = 4;
  nodes =
      (11, internal (one_child 1))
      ∷ (12, internal (one_child 2))
      ∷ (1, leaf (first 4))
      ∷ (2, leaf second)
      ∷ [];
  fresh_id = 13;
  room = 0;
}

abbrev tree_of : Run Tree → Tree
tree_of (ok t) = t
tree_of hangs = two_pages
tree_of fault = two_pages

abbrev merged : Run Tree
merged = merge [] two_pages 11 (internal (one_child 1)) 12 (internal (one_child 2)) 20

merge-HasParent_example :
    HasParent
      (tree_of merged)
      (InternalPage.value_at (InternalPage.move_all_to (one_child 2) (one_child 1) 20).1 1)
      9
unfolding merge InternalPage.move_all_to set_parents fetch lookup put_node copy_to
merge-HasParent_example =
    merge-HasParent [] two_pages (tree_of merged) 11 12 20 1 (one_child 1) (one_child 2) refl
      (omega arith)
