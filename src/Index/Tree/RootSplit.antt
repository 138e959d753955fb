-- ===== src/Index/Tree/RootSplit.antt =====
-- `Insert` into a tree of one leaf that is full: the leaf is split under a new root.
-- src/storage/index/b_plus_tree.cpp.
use zlchen_dsaa2031_project.Prelude.{
  ℕ, suc, ◌+◌, ◌<◌, ◌≡◌, ◌≢◌, refl, ap, ◌∙◌, none, some, true, ◌==◌, ltb, lookup, if◌then◌else◌,
  inl, inr, Bool-cases, arith,
}
use zlchen_dsaa2031_project.Prelude.{insert as put_node}
use zlchen_dsaa2031_project.Storage.Disk.{invalid_page_id}
use zlchen_dsaa2031_project.Index.Leaf.{Leaf}
use zlchen_dsaa2031_project.Index.Leaf as LeafPage
use zlchen_dsaa2031_project.Index.Leaf.Search.{IsSorted}
use zlchen_dsaa2031_project.Index.Leaf.Sorted as LeafSorted
use zlchen_dsaa2031_project.Index.Leaf.Sorted.{
  or_else, lookup_found, lookup_missing, lookup_at, lookup-none, lookup_links,
}
use zlchen_dsaa2031_project.Index.Internal.{Internal}
use zlchen_dsaa2031_project.Index.Internal as InternalPage
use zlchen_dsaa2031_project.Index.Tree.{
  leaf, internal, Tree, ok, leaf_capacity, child_for, get_value, new_page_guarded, zeroed_leaf,
  zeroed_internal,
}
use zlchen_dsaa2031_project.Index.Tree.Frame.{max_size-insert}
use zlchen_dsaa2031_project.Index.Tree.Changes.{insert, split_leaf, new_root}
use zlchen_dsaa2031_project.Index.Tree.Halves.{
  lookup_half, root_lookup, lookup_three, find_leaf-root, get_value_below_root,
}

module _ (t : Tree) (key value room : ℕ) (p : Leaf)
    (its_root : lookup t.root_page_id t.nodes ≡ some (leaf p))
    (alone : p.parent_page_id ≡ invalid_page_id) (known : t.root_page_id < t.fresh_id)
    (new : t.fresh_id + 1 < invalid_page_id) (has_room : t.room ≡ suc (suc room)) where
  abbrev wider : Leaf
  wider = (LeafPage.insert p key value).0

  abbrev empty : Leaf
  empty = LeafPage.init zeroed_leaf t.leaf_max_size

  abbrev left : Leaf
  left = record (LeafPage.move_half_to wider empty).0 {
    next_page_id = t.fresh_id;
    parent_page_id = t.fresh_id + 1;
  }

  abbrev right : Leaf
  right = record (LeafPage.move_half_to wider empty).1 {
    next_page_id = wider.next_page_id;
    parent_page_id = t.fresh_id + 1;
  }

  abbrev root : Internal
  root =
      InternalPage.populate_new_root (InternalPage.init zeroed_internal t.internal_max_size)
        t.root_page_id (LeafPage.key_at right 0) t.fresh_id

  abbrev grown : Tree
  grown = record t {
    root_page_id = t.fresh_id + 1;
    fresh_id = t.fresh_id + 1 + 1;
    room = room;
    nodes =
        put_node t.fresh_id (leaf right)
          (put_node t.root_page_id (leaf left) (put_node (t.fresh_id + 1) (internal root) t.nodes));
  }

  parent-insert : wider.parent_page_id ≡ p.parent_page_id
  unfolding LeafPage.insert
  parent-insert = ground arith

  split_leaf-grown : split_leaf t t.root_page_id wider ≡ ok grown
  unfolding split_leaf new_root new_page_guarded
  split_leaf-grown = ground (arith, has_room, alone, parent-insert)

  insert-grown :
      IsSorted p
      → t.root_page_id ≢ invalid_page_id
      → p.size ≡ p.max_size
      → p.max_size < leaf_capacity
      → LeafPage.lookup p key ≡ none
      → insert t key value ≡ ok (grown, true)
  unfolding insert
  insert-grown sorted some_root full below missing =
      let (sorted', size, counted, found) = LeafSorted.lookup-insert p key value sorted in
      ground (
        arith,
        some_root,
        find_leaf-root t (child_for key) p its_root,
        max_size-insert p key value,
        counted,
        missing,
        full,
        below,
        size,
        split_leaf-grown,
      )

  get_value-grown :
      (other : ℕ)
      → IsSorted wider
      → 1 < wider.size
      → get_value grown other ≡ ok (LeafPage.lookup wider other)
  get_value-grown other sorted some_left = elim (Bool-cases (ltb other (LeafPage.key_at right 0))) [
    | inl less ↦ ground (
      arith,
      half,
      get_value_below_root grown other t.root_page_id root left (omega (arith, new)) at_root
          (root_lookup t.root_page_id (LeafPage.key_at right 0) t.fresh_id t.internal_max_size other
            ∙ rw less refl)
          (omega (arith, known)) at_left,
    )
    | inr more ↦ ground (
      arith,
      half,
      get_value_below_root grown other t.fresh_id root right (omega (arith, new)) at_root
          (root_lookup t.root_page_id (LeafPage.key_at right 0) t.fresh_id t.internal_max_size other
            ∙ rw more refl)
          (omega arith) at_right,
    )
  ]
    where
      nodes_at :
          (j : ℕ)
          → lookup j grown.nodes ≡ (
              if t.fresh_id == j
              then some (leaf right)
              else if t.root_page_id == j
              then some (leaf left)
              else if t.fresh_id + 1 == j
              then some (internal root)
              else lookup j t.nodes)
      nodes_at j =
          lookup_three t.fresh_id t.root_page_id (t.fresh_id + 1) j (leaf right) (leaf left)
            (internal root) t.nodes

      at_root : lookup grown.root_page_id grown.nodes ≡ some (internal root)
      at_root = ground (arith, nodes_at (t.fresh_id + 1), known)

      at_left : lookup t.root_page_id grown.nodes ≡ some (leaf left)
      at_left = ground (arith, nodes_at t.root_page_id, known)

      at_right : lookup t.fresh_id grown.nodes ≡ some (leaf right)
      at_right = ground (arith, nodes_at t.fresh_id)

      half : LeafPage.lookup wider other ≡ (
          if ltb other (LeafPage.key_at right 0)
          then LeafPage.lookup left other
          else LeafPage.lookup right other)
      half = ground (
        arith,
        lookup_half wider empty sorted other some_left,
        lookup_links (LeafPage.move_half_to wider empty).0 t.fresh_id (t.fresh_id + 1) other,
        lookup_links (LeafPage.move_half_to wider empty).1 wider.next_page_id (t.fresh_id + 1)
            other,
      )

-- `Insert` of a new key into a tree of one full leaf, of a maximal size below the 339 cells of its
-- page, splits it under a new root, and a lookup of any
-- key finds then what the leaf has under it, and under the new key the value that is given. The leaf
-- is sorted, two pages are to be had, with ids above its own and below the invalid one.
pub insert_full-get_value :
    (t : Tree) (key value other room : ℕ) (p : Leaf)
    → lookup t.root_page_id t.nodes ≡ some (leaf p)
    → p.parent_page_id ≡ invalid_page_id
    → t.root_page_id < t.fresh_id
    → t.fresh_id + 1 < invalid_page_id
    → t.room ≡ suc (suc room)
    → IsSorted p
    → p.size ≡ p.max_size
    → p.max_size < leaf_capacity
    → 0 < p.size
    → LeafPage.lookup p key ≡ none
    → (t' : Tree) × (insert t key value ≡ ok (t', true))
      × (get_value t' other
          ≡ ok (or_else (LeafPage.lookup p other) (if key == other then some value else none)))
insert_full-get_value t key value other room p its_root alone known new has_room sorted full below
      some_left missing =
    let (sorted', size, counted, found) = LeafSorted.lookup-insert p key value sorted in
    (
      grown t key value room p its_root alone known new has_room,
      insert-grown t key value room p its_root alone known new has_room sorted
          (λ e. absurd (omega (arith, e, known, new))) full below missing,
      get_value-grown t key value room p its_root alone known new has_room other sorted'
            (ground (arith, size, counted, missing, some_left))
          ∙ ap ok (found other),
    )
