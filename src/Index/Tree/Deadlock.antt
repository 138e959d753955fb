-- ===== src/Index/Tree/Deadlock.antt =====
-- A page that is left too small: src/storage/index/b_plus_tree.cpp, `CoalesceOrRedistribute` and
-- `Coalesce`.
use zlchen_dsaa2031_project.Prelude.{
  ℕ, zero, suc, ◌+◌, ◌/◌, ◌<◌, ◌≤◌, ◌≡◌, ◌≢◌, refl, sym, ap, ◌∙◌, some, Bool, true, false, List, [],
  ◌∷◌, length, lookup, lookup-insert, contains, arith,
}
use zlchen_dsaa2031_project.Storage.Disk.{invalid_page_id}
use zlchen_dsaa2031_project.Index.Leaf.{Leaf}
use zlchen_dsaa2031_project.Index.Leaf as LeafPage
use zlchen_dsaa2031_project.Index.Leaf.Search as LeafSearch
use zlchen_dsaa2031_project.Index.Leaf.Sorted.{lookup_at, lookup-remove_and_delete_record}
use zlchen_dsaa2031_project.Index.Internal.{Internal}
use zlchen_dsaa2031_project.Index.Internal as InternalPage
use zlchen_dsaa2031_project.Index.Tree.{
  Node, leaf, internal, Tree, ok, hangs, found, fetch, put, find_leaf, child_for,
}
use zlchen_dsaa2031_project.Index.Tree.Removal.{
  size_of, max_of, min_of, parent_of, redistribute, sibling_index, coalesce_or_redistribute, remove,
  has_predecessor,
}

-- `Redistribute` fetches the parent, which its caller has latched.
redistribute-hangs :
    (latched : List ℕ) (t : Tree) (neighbor_id : ℕ) (neighbor : Node) (node_id : ℕ) (node : Node)
    (index : ℕ) (is_predecessor : Bool)
    → contains (parent_of node) latched ≡ true
    → redistribute latched t neighbor_id neighbor node_id node index is_predecessor ≡ hangs
unfolding redistribute fetch
redistribute-hangs latched t neighbor_id neighbor node_id node index is_predecessor h = rw h refl

here : (a b c : ℕ) → contains b (a ∷ b ∷ c ∷ []) ≡ true
here a b c = ground arith

-- A page that is too small, and with its sibling too large for one page, is never set right: the
-- call waits for the latch of the parent, which its own thread has. So it is for any leaf or internal
-- page that is not the root, is found in its parent, and has a sibling that is another page.
pub coalesce_or_redistribute-hangs :
    (t : Tree) (page_id : ℕ) (node sibling : Node) (parent : Internal) (i fuel : ℕ)
    → parent_of node ≢ invalid_page_id
    → size_of node < min_of node
    → fetch (page_id ∷ []) t (parent_of node) ≡ ok (internal parent)
    → InternalPage.value_index parent page_id ≡ some i
    → fetch (parent_of node ∷ page_id ∷ []) t (InternalPage.value_at parent (sibling_index i))
      ≡ ok sibling
    → max_of node < size_of node + size_of sibling
    → coalesce_or_redistribute t page_id node fuel ≡ hangs
unfolding coalesce_or_redistribute
coalesce_or_redistribute-hangs t page_id node sibling parent i zero no_root small its_parent index
      its_sibling large =
    refl
coalesce_or_redistribute-hangs t page_id node sibling parent i (suc fuel) no_root small its_parent
      index its_sibling large =
    ground (
      arith,
      redistribute-hangs
          (InternalPage.value_at parent (sibling_index i) ∷ parent_of node ∷ page_id ∷ []) t
          (InternalPage.value_at parent (sibling_index i)) sibling page_id node i
          (has_predecessor i)
          (here (InternalPage.value_at parent (sibling_index i)) (parent_of node) page_id),
    )

remove_keeps :
    (p : Leaf) (key : ℕ)
    → let (p', n) = LeafPage.remove_and_delete_record p key in
      (p'.max_size ≡ p.max_size) × (p'.parent_page_id ≡ p.parent_page_id)
unfolding LeafPage.remove_and_delete_record
remove_keeps p key = (ground arith, ground arith)

fetch-put :
    (latched : List ℕ) (t : Tree) (page_id other : ℕ) (node node' : Node)
    → page_id ≢ other
    → contains other latched ≡ false
    → lookup other t.nodes ≡ some node'
    → fetch latched (put t page_id node) other ≡ ok node'
unfolding fetch
fetch-put latched t page_id other node node' apart free there =
    ground (arith, apart, lookup-insert page_id other node t.nodes)

-- So `Remove` never returns where the leaf of the key, which is not the root, holds it and has no more
-- than its least number of entries, and its sibling has too many for both to go into one page.
pub remove-hangs :
    (t : Tree) (key page_id value i : ℕ) (p : Leaf) (parent : Internal) (sibling : Node)
    → t.root_page_id ≢ invalid_page_id
    → find_leaf t (child_for key) ≡ ok (page_id, p)
    → LeafSearch.IsSorted p
    → LeafPage.lookup p key ≡ some value
    → p.size ≤ p.max_size / 2
    → p.parent_page_id ≢ invalid_page_id
    → lookup p.parent_page_id t.nodes ≡ some (internal parent)
    → page_id ≢ p.parent_page_id
    → InternalPage.value_index parent page_id ≡ some i
    → page_id ≢ InternalPage.value_at parent (sibling_index i)
    → p.parent_page_id ≢ InternalPage.value_at parent (sibling_index i)
    → lookup (InternalPage.value_at parent (sibling_index i)) t.nodes ≡ some sibling
    → p.max_size + 1 < p.size + size_of sibling
    → remove t key ≡ hangs
unfolding remove
remove-hangs t key page_id value i p parent sibling some_root way sorted there small has_parent
      its_parent apart index other_page other_parent its_sibling large =
    let (p', n) = LeafPage.remove_and_delete_record p key in
    let (sorted', size, counted, found) = lookup-remove_and_delete_record p key sorted in
    let (same_max, same_parent) = remove_keeps p key in
    let (at, some_left, k, v) = lookup_at p key value there in
    let fewer : p.size ≡ n + 1 = ground (arith, counted, there, some_left) in
    let t' : Tree = put t page_id (leaf p') in
    let sibling_id : ℕ = InternalPage.value_at parent (sibling_index i) in
    let deeper : coalesce_or_redistribute t' page_id (leaf p') (length t.nodes) ≡ hangs =
      coalesce_or_redistribute-hangs t' page_id (leaf p') sibling parent i (length t.nodes)
        (λ e. has_parent (sym same_parent ∙ e)) (omega (arith, fewer, size, same_max, small))
        (ap (fetch (page_id ∷ []) t') same_parent
          ∙ fetch-put (page_id ∷ []) t page_id p.parent_page_id (leaf p') (internal parent) apart
              (ground (arith, apart)) its_parent)
        index
        (ap (λ k. fetch (k ∷ page_id ∷ []) t' sibling_id) same_parent
          ∙ fetch-put (p.parent_page_id ∷ page_id ∷ []) t page_id sibling_id (leaf p') sibling
              other_page (ground (arith, other_page, other_parent)) its_sibling)
        (omega (arith, fewer, size, same_max, large)) in
    ground (arith, way, some_root, fewer, small, same_max, deeper)
