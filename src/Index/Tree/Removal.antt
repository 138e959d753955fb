-- ===== src/Index/Tree/Removal.antt =====
-- `Remove` and what it does to a page that is left too small: src/storage/index/b_plus_tree.cpp. The
-- results of `CoalesceOrRedistribute` and `AdjustRoot` are not kept, as no caller reads them.
use zlchen_dsaa2031_project.Prelude.{
  ℕ, zero, suc, ◌+◌, ◌-◌, ◌/◌, none, some, Bool, true, false, List, [], ◌∷◌, ◌==◌, leb, ltb, length,
  if◌then◌else◌,
}
use zlchen_dsaa2031_project.Storage.Disk.{invalid_page_id}
use zlchen_dsaa2031_project.Index.Leaf.{Leaf}
use zlchen_dsaa2031_project.Index.Leaf as LeafPage
use zlchen_dsaa2031_project.Index.Internal.{Internal}
use zlchen_dsaa2031_project.Index.Internal as InternalPage
use zlchen_dsaa2031_project.Index.Tree.{
  Node, leaf, internal, Tree, Run, ok, hangs, fault, ◌>>=◌, fetch, put, as_internal, is_empty,
  find_leaf, child_for,
}
use zlchen_dsaa2031_project.Index.Tree.Changes.{fetch_and_set_parent, set_parents}

-- `GetSize`, `GetMaxSize`, `GetMinSize` and `GetParentPageId` of either kind.
abbrev pub size_of : Node → ℕ
size_of (leaf p) = p.size
size_of (internal p) = p.size

abbrev pub max_of : Node → ℕ
max_of (leaf p) = p.max_size
max_of (internal p) = p.max_size

abbrev pub min_of : Node → ℕ
min_of (leaf p) = p.max_size / 2
min_of (internal p) = (p.max_size + 1) / 2

abbrev pub parent_of : Node → ℕ
parent_of (leaf p) = p.parent_page_id
parent_of (internal p) = p.parent_page_id

unfoldable pub adjust_root : List ℕ → Tree → ℕ → Node → Run Tree
adjust_root latched t page_id (leaf p) =
    ok (if p.size == 0 then record t { root_page_id = invalid_page_id } else t)
adjust_root latched t page_id (internal p) =
    if p.size == 1
    then (let (p', child_id) = InternalPage.remove_and_return_only_child p in
        fetch_and_set_parent latched
          (record (put t page_id (internal p')) { root_page_id = child_id }) child_id
          invalid_page_id)
    else ok t

-- The entries of the node go behind those of its neighbor. The children of the neighbor, those that
-- have moved among them, are given the neighbor's own parent.
unfoldable pub merge : List ℕ → Tree → ℕ → Node → ℕ → Node → ℕ → Run Tree
merge latched t neighbor_id (leaf neighbor) node_id (leaf p) middle_key =
    let (p', neighbor') = LeafPage.move_all_to p neighbor in
    ok (
      put (put t node_id (leaf p')) neighbor_id
        (leaf (record neighbor' { next_page_id = p.next_page_id })))
merge latched t neighbor_id (internal neighbor) node_id (internal p) middle_key =
    let (p', neighbor') = InternalPage.move_all_to p neighbor middle_key in
    set_parents latched (put (put t node_id (internal p')) neighbor_id (internal neighbor'))
      neighbor' 0 neighbor'.size neighbor'.parent_page_id
merge latched t neighbor_id neighbor node_id node middle_key = fault

-- The tree, and the parent without the node.
unfoldable pub coalesce :
    List ℕ → Tree → ℕ → Node → ℕ → Node → ℕ → Internal → ℕ → Run (Tree × Internal)
coalesce latched t neighbor_id neighbor node_id node parent_id parent index =
    merge latched t neighbor_id neighbor node_id node (InternalPage.key_at parent (index + 1))
    >>= λ t'.
        let parent' = InternalPage.remove parent (index + 1) in
        ok (put t' parent_id (internal parent'), parent')

-- One entry changes sides, and the key between the pages follows it.
unfoldable pub shift : List ℕ → Tree → ℕ → Node → ℕ → Node → ℕ → Internal → ℕ → Bool → Run Tree
shift latched t neighbor_id (leaf neighbor) node_id (leaf p) parent_id parent index true =
    let (neighbor', p') = LeafPage.move_last_to_front_of neighbor p in
    ok (
      put (put (put t neighbor_id (leaf neighbor')) node_id (leaf p')) parent_id
        (internal (InternalPage.set_key_at parent index (LeafPage.key_at p' 0))))
shift latched t neighbor_id (leaf neighbor) node_id (leaf p) parent_id parent index false =
    let (neighbor', p') = LeafPage.move_first_to_end_of neighbor p in
    ok (
      put (put (put t neighbor_id (leaf neighbor')) node_id (leaf p')) parent_id
        (internal (InternalPage.set_key_at parent (index + 1) (LeafPage.key_at neighbor' 0))))
shift latched t neighbor_id (internal neighbor) node_id (internal p) parent_id parent index true =
    let (neighbor', p') =
      InternalPage.move_last_to_front_of neighbor p (InternalPage.key_at parent index) in
    fetch_and_set_parent latched
      (put (put (put t neighbor_id (internal neighbor')) node_id (internal p')) parent_id
        (internal (InternalPage.set_key_at parent index (InternalPage.key_at p' 1))))
      (InternalPage.value_at p' 0) p'.parent_page_id
shift latched t neighbor_id (internal neighbor) node_id (internal p) parent_id parent index false =
    let (neighbor', p') =
      InternalPage.move_first_to_end_of neighbor p (InternalPage.key_at parent (index + 1)) in
    fetch_and_set_parent latched
      (put (put (put t neighbor_id (internal neighbor')) node_id (internal p')) parent_id
        (internal (InternalPage.set_key_at parent (index + 1) (InternalPage.key_at neighbor' 1))))
      (InternalPage.value_at p' (p'.size - 1)) p'.parent_page_id
shift latched t neighbor_id neighbor node_id node parent_id parent index is_predecessor = fault

-- The parent is fetched anew, whether the caller has it latched or not.
unfoldable pub redistribute : List ℕ → Tree → ℕ → Node → ℕ → Node → ℕ → Bool → Run Tree
redistribute latched t neighbor_id neighbor node_id node index is_predecessor =
    fetch latched t (parent_of node) >>= as_internal >>= λ parent.
    shift (parent_of node ∷ latched) t neighbor_id neighbor node_id node (parent_of node) parent
      index is_predecessor

abbrev pub sibling_index : ℕ → ℕ
sibling_index zero = 1
sibling_index (suc i) = i

abbrev pub has_predecessor : ℕ → Bool
has_predecessor i = ltb 0 i

-- The page of the caller is latched, its parent and the sibling then too. A level up, both are free
-- again and the parent is the page.
unfoldable pub coalesce_or_redistribute : Tree → ℕ → Node → ℕ → Run Tree
coalesce_or_redistribute t page_id node zero = hangs
coalesce_or_redistribute t page_id node (suc fuel) =
    if parent_of node == invalid_page_id
    then adjust_root (page_id ∷ []) t page_id node
    else if leb (min_of node) (size_of node)
    then ok t
    else fetch (page_id ∷ []) t (parent_of node) >>= as_internal >>= (λ parent.
      elim (InternalPage.value_index parent page_id) [
        | none ↦ ok t
        | some i ↦
            let parent_id = parent_of node in
            let sibling_id = InternalPage.value_at parent (sibling_index i) in
            fetch (parent_id ∷ page_id ∷ []) t sibling_id >>= λ sibling.
            let latched : List ℕ = sibling_id ∷ parent_id ∷ page_id ∷ [] in
            if leb (size_of node + size_of sibling) (max_of node)
            then ((if has_predecessor i
                  then coalesce latched t sibling_id sibling page_id node parent_id parent
                      (sibling_index i)
                  else coalesce latched t page_id node sibling_id sibling parent_id parent i)
                >>= (λ (t', parent').
                    if leb ((parent'.max_size + 1) / 2) parent'.size
                    then ok t'
                    else coalesce_or_redistribute t' parent_id (internal parent') fuel))
            else redistribute latched t sibling_id sibling page_id node i (has_predecessor i)
      ])

abbrev pub from_leaf : Tree → ℕ → ℕ × Leaf → Run Tree
from_leaf t key (page_id, p) =
    let (p', new_size) = LeafPage.remove_and_delete_record p key in
    let t' = put t page_id (leaf p') in
    if new_size == p.size
    then ok t
    else if ltb new_size (p'.max_size / 2)
    then coalesce_or_redistribute t' page_id (leaf p') (length t.nodes)
    else ok t'

unfoldable pub remove : Tree → ℕ → Run Tree
remove t key = if is_empty t then ok t else (find_leaf t (child_for key) >>= from_leaf t key)
