-- ===== src/Index/Tree/Overflow.antt =====
-- `Insert` into a full leaf of the default maximal size: src/storage/index/b_plus_tree.cpp.
use zlchen_dsaa2031_project.Prelude.{ℕ, ◌≤◌, ◌≡◌, ◌≢◌, refl, none, List, arith}
use zlchen_dsaa2031_project.Storage.Disk.{invalid_page_id}
use zlchen_dsaa2031_project.Index.Leaf.{Leaf}
use zlchen_dsaa2031_project.Index.Leaf as LeafPage
use zlchen_dsaa2031_project.Index.Leaf.Search.{IsSorted}
use zlchen_dsaa2031_project.Index.Leaf.Sorted as LeafSorted
use zlchen_dsaa2031_project.Index.Tree.{
  Node, Tree, ok, fault, find_leaf, child_for, leaf_capacity, new_tree,
}
use zlchen_dsaa2031_project.Index.Tree.Frame.{max_size-insert}
use zlchen_dsaa2031_project.Index.Tree.Changes.{insert}

-- `Insert` of a new key into a full leaf writes behind the page, if the maximal size of the leaf is
-- all its cells or more; by default the constructor gives leaves all their cells.
pub insert-faults :
    (t : Tree) (key value page_id : ℕ) (p : Leaf)
    → t.root_page_id ≢ invalid_page_id
    → find_leaf t (child_for key) ≡ ok (page_id, p)
    → IsSorted p
    → LeafPage.lookup p key ≡ none
    → p.size ≡ p.max_size
    → leaf_capacity ≤ p.max_size
    → (insert t key value ≡ fault)
      × ((nodes : List (ℕ × Node)) (fresh_id room internal_max_size : ℕ)
          → (new_tree nodes fresh_id room 0 internal_max_size).leaf_max_size ≡ leaf_capacity)
unfolding insert new_tree
insert-faults t key value page_id p some_root way sorted missing full all =
    let (sorted', size, counted, found) = LeafSorted.lookup-insert p key value sorted in
    (
      ground
          (arith, some_root, way, max_size-insert p key value, counted, missing, full, all, size),
      λ nodes fresh_id room internal_max_size. refl,
    )
