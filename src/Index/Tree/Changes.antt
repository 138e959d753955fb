-- ===== src/Index/Tree/Changes.antt =====
-- `Insert` and `InsertIntoParent`: src/storage/index/b_plus_tree.cpp. The entry for which a page is
-- split is in the page before the split, so it is there that a page may be too small; a maximal size
-- above the cells of a page, which the constructor takes, is out of scope.
use zlchen_dsaa2031_project.Prelude.{
  ℕ, zero, suc, ◌+◌, ◌/◌, Bool, true, false, List, [], ◌∷◌, ◌==◌, ltb, length, if◌then◌else◌,
}
use zlchen_dsaa2031_project.Storage.Disk.{invalid_page_id}
use zlchen_dsaa2031_project.Index.Leaf.{Leaf}
use zlchen_dsaa2031_project.Index.Leaf as LeafPage
use zlchen_dsaa2031_project.Index.Internal.{Internal}
use zlchen_dsaa2031_project.Index.Internal as InternalPage
use zlchen_dsaa2031_project.Index.Tree.{
  Node, leaf, internal, Tree, Run, ok, hangs, ◌>>=◌, fetch, put, as_internal, new_page_guarded,
  in_page, zeroed_leaf, zeroed_internal, is_empty, find_leaf, child_for,
}

abbrev pub set_parent : Node → ℕ → Node
set_parent (leaf p) parent_page_id = leaf (record p { parent_page_id = parent_page_id })
set_parent (internal p) parent_page_id = internal (record p { parent_page_id = parent_page_id })

-- `SetParentPageId` of a page that is fetched for it.
abbrev pub fetch_and_set_parent : List ℕ → Tree → ℕ → ℕ → Run Tree
fetch_and_set_parent latched t page_id parent_page_id =
    fetch latched t page_id >>= λ node. ok (put t page_id (set_parent node parent_page_id))

-- The loop over the children of a page, from an index on.
unfoldable pub set_parents : List ℕ → Tree → Internal → ℕ → ℕ → ℕ → Run Tree
set_parents latched t p i zero parent_page_id = ok t
set_parents latched t p i (suc n) parent_page_id =
    fetch_and_set_parent latched t (InternalPage.value_at p i) parent_page_id >>= λ t'.
    set_parents latched t' p (i + 1) n parent_page_id

-- A new root over two pages, which the caller has in `left` and `right`.
unfoldable pub new_root : Tree → ℕ → Node → ℕ → ℕ → Node → Run Tree
new_root t left_id left key right_id right = new_page_guarded t >>= λ (root_id, t1).
    let root =
      InternalPage.populate_new_root (InternalPage.init zeroed_internal t.internal_max_size) left_id
        key right_id in
    let t2 = put t1 root_id (internal root) in
    let t3 = put (put t2 left_id (set_parent left root_id)) right_id (set_parent right root_id) in
    ok (record t3 { root_page_id = root_id })

-- A split goes on to the parent, as often as there are pages at most.
unfoldable pub insert_into_parent : Tree → ℕ → ℕ → ℕ → ℕ → ℕ → Run Tree
insert_into_parent t parent_page_id old_page_id key new_page_id zero = hangs
insert_into_parent t parent_page_id old_page_id key new_page_id (suc fuel) =
    fetch [] t parent_page_id >>= as_internal >>= λ before.
    let (parent, new_size) = InternalPage.insert_node_after before old_page_id key new_page_id in
    if ltb parent.max_size new_size
    then (in_page (internal parent) >>= λ written. new_page_guarded t >>= λ (new_parent_id, t1).
        let middle_key = InternalPage.key_at parent (parent.size / 2) in
        let (left, right) =
          InternalPage.move_half_to parent (InternalPage.init zeroed_internal t.internal_max_size)
            middle_key in
        let t2 = put (put t1 parent_page_id (internal left)) new_parent_id (internal right) in
        set_parents (parent_page_id ∷ []) t2 right 0 right.size new_parent_id >>= λ t3.
        if left.parent_page_id == invalid_page_id
        then new_root t3 parent_page_id (internal left) middle_key new_parent_id (internal right)
        else insert_into_parent
            (put t3 new_parent_id (set_parent (internal right) left.parent_page_id))
            left.parent_page_id parent_page_id middle_key new_parent_id fuel)
    else ok (put t parent_page_id (internal parent))

-- The leaf is too large: the upper half goes to a new one, behind it in the chain.
unfoldable pub split_leaf : Tree → ℕ → Leaf → Run Tree
split_leaf t page_id p = new_page_guarded t >>= λ (new_page_id, t1).
    let (lower, upper) = LeafPage.move_half_to p (LeafPage.init zeroed_leaf t.leaf_max_size) in
    let left = record lower { next_page_id = new_page_id } in
    let right = record upper { next_page_id = p.next_page_id } in
    let middle_key = LeafPage.key_at right 0 in
    if p.parent_page_id == invalid_page_id
    then new_root t1 page_id (leaf left) middle_key new_page_id (leaf right)
    else insert_into_parent
        (put (put t1 page_id (leaf left)) new_page_id
          (leaf (record right { parent_page_id = p.parent_page_id })))
        p.parent_page_id page_id middle_key new_page_id (length t.nodes)

abbrev pub into_leaf : Tree → ℕ → ℕ → ℕ × Leaf → Run (Tree × Bool)
into_leaf t key value (page_id, p) =
    let (p', new_size) = LeafPage.insert p key value in
    if new_size == p.size
    then ok (put t page_id (leaf p'), false)
    else if ltb p'.max_size new_size
    then (in_page (leaf p') >>= (λ written. split_leaf t page_id p' >>= (λ t'. ok (t', true))))
    else ok (put t page_id (leaf p'), true)

abbrev pub first_leaf : Tree → ℕ → ℕ → Leaf
first_leaf t key value = (LeafPage.insert (LeafPage.init zeroed_leaf t.leaf_max_size) key value).0

unfoldable pub insert : Tree → ℕ → ℕ → Run (Tree × Bool)
insert t key value =
    if is_empty t
    then (new_page_guarded t >>= λ (page_id, t1).
        ok (
          record (put t1 page_id (leaf (first_leaf t key value))) { root_page_id = page_id },
          true,
        ))
    else (find_leaf t (child_for key) >>= into_leaf t key value)
