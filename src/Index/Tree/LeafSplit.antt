-- ===== src/Index/Tree/LeafSplit.antt =====
-- `Insert` into a full leaf whose parent has room: src/storage/index/b_plus_tree.cpp.
use zlchen_dsaa2031_project.Prelude.{
  ℕ, zero, suc, ◌+◌, ◌/◌, ◌<◌, ◌≡◌, ◌≢◌, refl, ap, ◌∙◌, subst, Option, none, some, true, [], ◌==◌,
  ltb, length, lookup, lookup-insert, length-insert_present, length-insert_absent, if◌then◌else◌,
  inl, inr, Bool-cases, Option-cases, arith,
}
use native.Mathlib.Decide.{ℕ_discrete}
use zlchen_dsaa2031_project.Prelude.{insert as put_node}
use zlchen_dsaa2031_project.Storage.Disk.{invalid_page_id}
use zlchen_dsaa2031_project.Index.Leaf.{Leaf}
use zlchen_dsaa2031_project.Index.Leaf as LeafPage
use zlchen_dsaa2031_project.Index.Leaf.Search.{IsSorted}
use zlchen_dsaa2031_project.Index.Leaf.Sorted as LeafSorted
use zlchen_dsaa2031_project.Index.Internal.{Internal}
use zlchen_dsaa2031_project.Index.Internal.Search as InternalSearch
use zlchen_dsaa2031_project.Index.Internal.Search.{Covers}
use zlchen_dsaa2031_project.Index.Internal.Insertion.{
  lookup-insert_node_after, size-insert_node_after,
}
use zlchen_dsaa2031_project.Index.Internal as InternalPage
use zlchen_dsaa2031_project.Index.Tree.{
  leaf, internal, Tree, ok, leaf_capacity, fetch, put, find_leaf, descend, child_for, get_value,
  zeroed_leaf, new_page_guarded,
}
use zlchen_dsaa2031_project.Index.Tree.Frame.{
  max_size-insert, get_value-reached, get_value-way, find_leaf-leaf, or_else-none,
}
use zlchen_dsaa2031_project.Index.Tree.Changes.{insert, split_leaf, insert_into_parent}
use zlchen_dsaa2031_project.Index.Tree.Halves.{upper_at, lookup_half, lookup_three, length_one}
use zlchen_dsaa2031_project.Index.Tree.Ways.{descend-split}

-- A leaf stands in one cell of its parent, no other page sends a key to it, and its keys are those
-- that the parent has for it.
pub record IsChild (t : Tree) (page_id : ℕ) (p : Leaf) (q : Internal) (k : ℕ) : Type 0 where
  pub some_parent : p.parent_page_id ≢ invalid_page_id
  pub its_parent : lookup p.parent_page_id t.nodes ≡ some (internal q)
  pub no_root : t.root_page_id ≢ page_id
  pub parent_sorted : InternalSearch.IsSorted q
  pub cell : InternalPage.value_index q page_id ≡ some k
  pub one_cell : (i : ℕ) → i < q.size → InternalPage.value_at q i ≡ page_id → i ≡ k
  pub one_parent :
      (x : ℕ) (r : Internal) (other : ℕ)
      → lookup x t.nodes ≡ some (internal r)
      → InternalPage.lookup r other ≡ page_id
      → x ≡ p.parent_page_id
  pub in_range : (i : ℕ) → i < p.size → Covers q (LeafPage.key_at p i) k

module _ (t : Tree) (key value page_id k : ℕ) (p : Leaf) (q : Internal)
    (child : IsChild t page_id p q k) (sorted : IsSorted p) (covers : Covers q key k)
    (missing : LeafPage.lookup p key ≡ none) where
  abbrev wider : Leaf
  wider = (LeafPage.insert p key value).0

  abbrev empty : Leaf
  empty = LeafPage.init zeroed_leaf t.leaf_max_size

  abbrev left : Leaf
  left = record (LeafPage.move_half_to wider empty).0 { next_page_id = t.fresh_id }

  abbrev right : Leaf
  right = record (LeafPage.move_half_to wider empty).1 {
    next_page_id = wider.next_page_id;
    parent_page_id = wider.parent_page_id;
  }

  abbrev middle : ℕ
  middle = LeafPage.key_at right 0

  wider_key : (i : ℕ) → i < wider.size → Covers q (LeafPage.key_at wider i) k
  wider_key i low =
      let (sorted', size, counted, found) = LeafSorted.lookup-insert p key value sorted in
      let there = LeafSorted.lookup_found wider sorted' (LeafPage.key_at wider i) i low refl in
      elim (Option-cases (LeafPage.lookup p (LeafPage.key_at wider i))) [
        | inr (v, old) ↦
            let (j, j_low, e, _) = LeafSorted.lookup_at p (LeafPage.key_at wider i) v old in
            subst (λ x. Covers q x k) e (child.in_range j j_low)
        | inl new ↦
            let e : key ≡ LeafPage.key_at wider i =
              ground (arith, there, found (LeafPage.key_at wider i)) in
            subst (λ x. Covers q x k) e covers
      ]

  wider-IsSorted : IsSorted wider
  wider-IsSorted = (LeafSorted.lookup-insert p key value sorted).0

  wider_size : wider.size ≡ p.size + 1
  wider_size =
      let (sorted', size, counted, found) = LeafSorted.lookup-insert p key value sorted in
      ground (arith, size, counted, missing)

  -- The middle key is above the key of the cell of the leaf, as the first key of the leaf is not below.
  middle-Covers : 0 < p.size → Covers q middle k × (0 < k → InternalPage.key_at q k ≢ middle)
  middle-Covers some_left =
      let mid : ℕ = wider.size / 2 in
      let at_mid : LeafPage.key_at wider mid ≡ middle =
        ground (arith, upper_at wider empty wider-IsSorted 0 (omega (arith, wider_size))) in
      (
        subst (λ x. Covers q x k) at_mid (wider_key mid (omega (arith, wider_size))),
        λ pos e. absurd (
            ground (
              arith,
              at_mid,
              wider-IsSorted 0 mid (omega (arith, wider_size)) (omega (arith, wider_size)),
              (wider_key 0 (omega (arith, wider_size))).up_to k pos (omega arith),
            )),
      )

  abbrev parent : Internal
  parent = (InternalPage.insert_node_after q page_id middle t.fresh_id).0

  sizes :
      ((InternalPage.insert_node_after q page_id middle t.fresh_id).1 ≡ q.size + 1)
      × (parent.max_size ≡ q.max_size)
  sizes = size-insert_node_after q page_id middle t.fresh_id k child.cell

  into_parent :
      (t1 : Tree) (fuel : ℕ)
      → 0 < fuel
      → lookup p.parent_page_id t1.nodes ≡ some (internal q)
      → q.size < q.max_size
      → insert_into_parent t1 p.parent_page_id page_id middle t.fresh_id fuel
        ≡ ok (put t1 p.parent_page_id (internal parent))
  unfolding insert_into_parent fetch
  into_parent t1 zero some_fuel there room = ground arith
  into_parent t1 (suc fuel) some_fuel there room = ground (arith, there, sizes.0, sizes.1)

  parent-insert : wider.parent_page_id ≡ p.parent_page_id
  unfolding LeafPage.insert
  parent-insert = ground arith

  module _ (room : ℕ) (at_page : lookup page_id t.nodes ≡ some (leaf p))
      (new : lookup t.fresh_id t.nodes ≡ none) (has_room : t.room ≡ suc room)
      (fits : q.size < q.max_size) where
    abbrev split : Tree
    split = record t {
      fresh_id = t.fresh_id + 1;
      room = room;
      nodes =
          put_node p.parent_page_id (internal parent)
            (put_node t.fresh_id (leaf right) (put_node page_id (leaf left) t.nodes));
    }

    nodes_at :
        (j : ℕ)
        → lookup j split.nodes ≡ (
            if p.parent_page_id == j
            then some (internal parent)
            else if t.fresh_id == j
            then some (leaf right)
            else if page_id == j
            then some (leaf left)
            else lookup j t.nodes)
    nodes_at j =
        lookup_three p.parent_page_id t.fresh_id page_id j (internal parent) (leaf right)
          (leaf left) t.nodes

    abbrev halved : Tree
    halved = record t {
      fresh_id = t.fresh_id + 1;
      room = room;
      nodes = put_node t.fresh_id (leaf right) (put_node page_id (leaf left) t.nodes);
    }

    halved_parent : lookup p.parent_page_id halved.nodes ≡ some (internal q)
    halved_parent = ground (
      arith,
      lookup-insert t.fresh_id p.parent_page_id (leaf right) (put_node page_id (leaf left) t.nodes),
      lookup-insert page_id p.parent_page_id (leaf left) t.nodes,
      child.its_parent,
      at_page,
      new,
    )

    split_leaf-split : split_leaf t page_id wider ≡ ok split
    unfolding split_leaf new_page_guarded
    split_leaf-split = ground (
      arith,
      has_room,
      child.some_parent,
      parent-insert,
      into_parent halved (length t.nodes) (length_one page_id (leaf p) t.nodes at_page)
          halved_parent fits,
    )

    insert-split :
        t.root_page_id ≢ invalid_page_id
        → find_leaf t (child_for key) ≡ ok (page_id, p)
        → p.size ≡ p.max_size
        → p.max_size < leaf_capacity
        → insert t key value ≡ ok (split, true)
    unfolding insert
    insert-split some_root way full below =
        let (sorted', size, counted, found) = LeafSorted.lookup-insert p key value sorted in
        ground (
          arith,
          some_root,
          way,
          max_size-insert p key value,
          wider_size,
          counted,
          missing,
          full,
          split_leaf-split,
        )

    abbrev side_of : ℕ → ℕ × Leaf
    side_of other = if ltb other middle then (page_id, left) else (t.fresh_id, right)

    at_side : (other : ℕ) → lookup (side_of other).0 split.nodes ≡ some (leaf (side_of other).1)
    at_side other = elim (Bool-cases (ltb other middle)) [
      | inl less ↦ ground (arith, nodes_at page_id, child.its_parent, at_page, new)
      | inr more ↦ ground (arith, nodes_at t.fresh_id, child.its_parent, new)
    ]

    picked :
        (other : ℕ)
        → 0 < p.size
        → InternalPage.lookup parent other ≡ (
            if InternalPage.lookup q other == page_id
            then (side_of other).0
            else InternalPage.lookup q other)
    picked other some_left =
        let (c, fresh) = middle-Covers some_left in
        elim (Bool-cases (ltb other middle)) [
          | inl less ↦ ground (
            arith,
            lookup-insert_node_after q page_id middle t.fresh_id k other child.parent_sorted
                child.cell child.one_cell c fresh,
          )
          | inr more ↦ ground (
            arith,
            lookup-insert_node_after q page_id middle t.fresh_id k other child.parent_sorted
                child.cell child.one_cell c fresh,
          )
        ]

    longer : length split.nodes ≡ suc (length t.nodes)
    longer =
        length-insert_present p.parent_page_id (internal parent) (internal q) halved.nodes
          halved_parent
        ∙ length-insert_absent t.fresh_id (leaf right) (put_node page_id (leaf left) t.nodes)
            (ground (arith, lookup-insert page_id t.fresh_id (leaf left) t.nodes, at_page, new))
        ∙ ap suc (length-insert_present page_id (leaf left) (leaf p) t.nodes at_page)

    find_leaf-split :
        (other : ℕ) (reached : ℕ × Leaf)
        → 0 < p.size
        → find_leaf t (child_for other) ≡ ok reached
        → find_leaf split (child_for other)
          ≡ ok (if reached.0 == page_id then side_of other else reached)
    unfolding find_leaf
    find_leaf-split other reached some_left way =
        ap (descend split (child_for other) [] t.root_page_id) longer
        ∙ descend-split t split other page_id t.fresh_id p.parent_page_id p left right q parent
            (side_of other) child.its_parent at_page new nodes_at (at_side other)
            (picked other some_left) (λ x r. child.one_parent x r other) [] t.root_page_id
            (length t.nodes) reached child.no_root way

    half :
        (other : ℕ)
        → 0 < p.size
        → LeafPage.lookup (side_of other).1 other ≡ LeafPage.lookup wider other
    half other some_left =
        let halves = lookup_half wider empty wider-IsSorted other (omega (arith, wider_size)) in
        elim (Bool-cases (ltb other middle)) [
          | inl less ↦ ground (
            arith,
            halves,
            LeafSorted.lookup_links (LeafPage.move_half_to wider empty).0 t.fresh_id
                (LeafPage.move_half_to wider empty).0.parent_page_id other,
          )
          | inr more ↦ ground (
            arith,
            halves,
            LeafSorted.lookup_links (LeafPage.move_half_to wider empty).1 wider.next_page_id
                wider.parent_page_id other,
          )
        ]

    get_value-split :
        (other : ℕ) (old : Option ℕ)
        → t.root_page_id ≢ invalid_page_id
        → 0 < p.size
        → find_leaf t (child_for key) ≡ ok (page_id, p)
        → get_value t other ≡ ok old
        → get_value split other
          ≡ ok (LeafSorted.or_else old (if key == other then some value else none))
    get_value-split other old some_root some_left way got =
        let (sorted', size, counted, found) = LeafSorted.lookup-insert p key value sorted in
        let ((j, r), e) = get_value-way t other old some_root got in
        let there = find_leaf-split other (j, r) some_left e in
        elim (ℕ_discrete j page_id) [
          | yes same ↦
              let at_j = find_leaf-leaf t (child_for other) (j, r) e in
              let reached_side =
                get_value-reached split other (side_of other).0 (side_of other).1 some_root
                  (there ∙ ap ok (ground (arith, same))) in
              reached_side
              ∙ ap ok (
                  half other some_left
                  ∙ found other
                  ∙ ap (λ o. LeafSorted.or_else o (if key == other then some value else none))
                      (ground
                        (arith, get_value-reached t other j r some_root e, at_j, at_page, same)))
          | no away ↦ ground (
            arith,
            there,
            away,
            or_else-none old,
            get_value-reached t other j r some_root e,
            get_value-reached split other j r some_root,
            way,
            e,
            ap (λ k. find_leaf t (child_for k)),
          )
        ]

-- `Insert` of a new key into a full leaf, of a maximal size below the 339 cells of its page, whose parent
-- has room splits the leaf and returns true; a
-- lookup of any key that returned finds then what it found, and under the new key the value that is
-- given. The leaf is sorted and stands in one cell of its parent, whose keys there are those of the
-- leaf and the new one; a page is to be had, with an id that the tree does not have.
pub insert_split-get_value :
    (t : Tree) (key value other page_id k room : ℕ) (p : Leaf) (q : Internal) (old : Option ℕ)
    → t.root_page_id ≢ invalid_page_id
    → find_leaf t (child_for key) ≡ ok (page_id, p)
    → IsChild t page_id p q k
    → IsSorted p
    → Covers q key k
    → LeafPage.lookup p key ≡ none
    → p.size ≡ p.max_size
    → p.max_size < leaf_capacity
    → 0 < p.size
    → q.size < q.max_size
    → lookup t.fresh_id t.nodes ≡ none
    → t.room ≡ suc room
    → get_value t other ≡ ok old
    → (t' : Tree) × (insert t key value ≡ ok (t', true))
      × (get_value t' other
          ≡ ok (LeafSorted.or_else old (if key == other then some value else none)))
insert_split-get_value t key value other page_id k room p q old some_root way child sorted covers
      missing full below some_left fits new has_room got =
    let at_page = find_leaf-leaf t (child_for key) (page_id, p) way in
    (
      split t key value page_id k p q child sorted covers missing room at_page new has_room fits,
      insert-split t key value page_id k p q child sorted covers missing room at_page new has_room
          fits some_root way full below,
      get_value-split t key value page_id k p q child sorted covers missing room at_page new
          has_room fits other old some_root some_left way got,
    )
