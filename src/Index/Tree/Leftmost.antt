-- ===== src/Index/Tree/Leftmost.antt =====
-- `Begin`, and the walk from there: src/storage/index/b_plus_tree.cpp, b_plus_tree_iterator.cpp.
use zlchen_dsaa2031_project.Prelude.{
  ℕ, zero, suc, ◌-◌, ◌<◌, ◌≡◌, ◌≢◌, refl, ap, ◌∙◌, Option, some, false, List, [], ◌∷◌, ◌++◌, length,
  lookup, contains, arith,
}
use zlchen_dsaa2031_project.Storage.Disk.{invalid_page_id}
use zlchen_dsaa2031_project.Index.Arrays.{listing, listing-cons}
use zlchen_dsaa2031_project.Index.Leaf.{Leaf}
use zlchen_dsaa2031_project.Index.Internal.{Internal}
use zlchen_dsaa2031_project.Index.Internal as InternalPage
use zlchen_dsaa2031_project.Index.Tree.{
  Node, leaf, internal, Tree, ok, ◌>>=◌, fetch, descend, find_leaf, begin,
}
use zlchen_dsaa2031_project.Index.Tree.Search.{IsTree, low_of, high_of, free_child, descend-child}
use zlchen_dsaa2031_project.Index.Tree.Walk.{
  walk, IsLeafChain, all_entries, total, walk-all_entries,
}

unfoldable pub gather : (ℕ → List ℕ) → List ℕ → List ℕ
gather below [] = []
gather below (child ∷ children) = below child ++ gather below children

abbrev pub gather_node : (ℕ → List ℕ) → Option Node → List ℕ
gather_node below (some (internal p)) = gather below (listing (InternalPage.value_at p) 0 p.size)
gather_node below _ = []

-- The ids of the leaves below a page, from left to right.
unfoldable pub in_order : Tree → ℕ → ℕ → List ℕ
in_order t zero page_id = page_id ∷ []
in_order t (suc height) page_id = gather_node (in_order t height) (lookup page_id t.nodes)

abbrev head_or_end : List ℕ → ℕ
head_or_end [] = invalid_page_id
head_or_end (page_id ∷ page_ids) = page_id

-- The leaves of these ids, none of which is empty, each linked to the next and the last to none.
unfoldable pub AreLinked : Tree → List ℕ → List Leaf → Type 0
AreLinked t [] [] = Unit
AreLinked t (page_id ∷ page_ids) (p ∷ ps) =
    (page_id ≢ invalid_page_id)
    × (lookup page_id t.nodes ≡ some (leaf p))
    × (0 < p.size)
    × (p.next_page_id ≡ head_or_end page_ids)
    × AreLinked t page_ids ps
AreLinked t _ _ = ⊥

linked-IsLeafChain :
    (t : Tree) (page_ids : List ℕ) (ps : List Leaf)
    → AreLinked t page_ids ps
    → IsLeafChain t (head_or_end page_ids) ps
unfolding AreLinked IsLeafChain
linked-IsLeafChain t [] [] linked = refl
linked-IsLeafChain t [] (p ∷ ps) linked = elim linked [ ]
linked-IsLeafChain t (page_id ∷ page_ids) [] linked = elim linked [ ]
linked-IsLeafChain t (page_id ∷ page_ids) (p ∷ ps) (known, there, some_left, next, linked) =
    (known, there, some_left, rw next (linked-IsLeafChain t page_ids ps linked))

abbrev first_child : Internal → ℕ
first_child p = InternalPage.value_at p 0

-- The way down by the first children ends at the first leaf.
descend-in_order :
    (t : Tree) (height page_id low high fuel : ℕ) (latched : List ℕ)
    → IsTree t height page_id low high
    → contains page_id latched ≡ false
    → height < fuel
    → (reached : ℕ × Leaf) × (rest : List ℕ) × (descend t first_child latched page_id fuel
        ≡ ok reached)
      × (in_order t height page_id ≡ reached.0 ∷ rest)
unfolding descend fetch IsTree in_order gather
descend-in_order t height page_id low high zero latched tree free enough = absurd (omega arith)
descend-in_order t zero page_id low high (suc fuel) latched (p, e, sorted, within) free enough =
    ((page_id, p), [], rw (free, e) refl, refl)
descend-in_order t (suc height) page_id low high (suc fuel) latched
      (p, e, sorted, some_child, below) free enough =
    let tree : IsTree t (suc height) page_id low high = (p, e, sorted, some_child, below) in
    let child_tree = (below 0 some_child).2 in
    let (reached, rest, way, order) =
      descend-in_order t height (first_child p) (low_of p low 0) (high_of p high 0) fuel
        (page_id ∷ []) child_tree
        (free_child t height page_id (first_child p) low high (low_of p low 0) (high_of p high 0)
          tree child_tree)
        (omega arith) in
    let others : List ℕ =
      gather (in_order t height) (listing (InternalPage.value_at p) 1 (p.size - 1)) in
    (
      reached,
      rest ++ others,
      descend-child t first_child latched page_id fuel p e free ∙ way,
      rw e (
          ap (gather (in_order t height))
            (listing-cons (InternalPage.value_at p) 0 p.size some_child)
          ∙ ap (λ ids. ids ++ others) order),
    )

-- The walk from `Begin` in a tree that is in order gives the entries of all its leaves, from left to
-- right and in each in the order of the cells, and then `End`, if the leaves are linked in this order
-- and none is empty. `++` and `*` are called more often than there are entries.
pub begin-walk :
    (t : Tree) (height low high calls : ℕ) (ps : List Leaf)
    → t.root_page_id ≢ invalid_page_id
    → IsTree t height t.root_page_id low high
    → height < length t.nodes
    → AreLinked t (in_order t height t.root_page_id) ps
    → total ps < calls
    → (begin t >>= λ it. walk t it calls) ≡ ok (all_entries ps)
unfolding begin find_leaf
begin-walk t height low high calls ps some_root tree few linked enough =
    let (reached, rest, way, order) =
      descend-in_order t height t.root_page_id low high (length t.nodes) [] tree refl few in
    let chain = linked-IsLeafChain t (in_order t height t.root_page_id) ps linked in
    ground (
      arith,
      some_root,
      way,
      ap (λ ids. walk t (head_or_end ids, 0) calls) order,
      walk-all_entries t (head_or_end (in_order t height t.root_page_id)) calls ps chain enough,
    )
