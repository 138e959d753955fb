-- ===== src/Index/Tree/Frame.antt =====
-- `Insert` and `Remove` where the leaf neither overflows nor becomes too small:
-- src/storage/index/b_plus_tree.cpp.
use zlchen_dsaa2031_project.Prelude.{
  ℕ, zero, suc, ◌/◌, ◌<◌, ◌≡◌, ◌≢◌, refl, sym, ap, ◌∙◌, Option, none, some, not, List, [], ◌∷◌,
  ◌==◌, length, lookup, lookup-insert, length-insert_present, ◌⊎◌, is_some, if◌then◌else◌, inl, inr,
  Option-cases, arith,
}
use native.Mathlib.Decide.{ℕ_discrete}
use zlchen_dsaa2031_project.Storage.Disk.{invalid_page_id}
use zlchen_dsaa2031_project.Index.Leaf.{Leaf}
use zlchen_dsaa2031_project.Index.Leaf as LeafPage
use zlchen_dsaa2031_project.Index.Leaf.Search as LeafSearch
use zlchen_dsaa2031_project.Index.Leaf.Sorted.{or_else, lookup-remove_and_delete_record}
use zlchen_dsaa2031_project.Index.Leaf.Sorted as LeafSorted
use zlchen_dsaa2031_project.Index.Internal.{Internal}
use zlchen_dsaa2031_project.Index.Tree.{
  leaf, internal, Tree, Run, ok, hangs, fault, found, fetch, put, descend, find_leaf, child_for,
  get_value,
}
use zlchen_dsaa2031_project.Index.Tree.Changes.{insert}
use zlchen_dsaa2031_project.Index.Tree.Removal.{remove}

-- The way down is the same when the content of a leaf has changed.
module _ (t : Tree) (pick : Internal → ℕ) (page_id : ℕ) (p p' : Leaf)
    (there : lookup page_id t.nodes ≡ some (leaf p)) where
  abbrev changed : ℕ × Leaf → ℕ × Leaf
  changed (reached_id, q) = (reached_id, if page_id == reached_id then p' else q)

  descend-put :
      (latched : List ℕ) (start fuel : ℕ) (reached : ℕ × Leaf)
      → descend t pick latched start fuel ≡ ok reached
      → descend (put t page_id (leaf p')) pick latched start fuel ≡ ok (changed reached)
  unfolding descend fetch
  descend-put latched start zero reached way = ground arith
  descend-put latched start (suc fuel) reached way = elim (Option-cases (lookup start t.nodes)) [
    | inl missing ↦ ground (arith, lookup-insert page_id start (leaf p') t.nodes)
    | inr (leaf q, e) ↦ ground (arith, lookup-insert page_id start (leaf p') t.nodes)
    | inr (internal q, e) ↦ ground (
      arith,
      lookup-insert page_id start (leaf p') t.nodes,
      descend-put (start ∷ []) (pick q) fuel reached,
    )
  ]

descend-leaf :
    (t : Tree) (pick : Internal → ℕ) (latched : List ℕ) (start fuel : ℕ) (reached : ℕ × Leaf)
    → descend t pick latched start fuel ≡ ok reached
    → lookup reached.0 t.nodes ≡ some (leaf reached.1)
unfolding descend fetch
descend-leaf t pick latched start zero reached way = ground arith
descend-leaf t pick latched start (suc fuel) reached way =
    elim (Option-cases (lookup start t.nodes)) [
      | inl missing ↦ ground arith
      | inr (leaf q, e) ↦ ground arith
      | inr (internal q, e) ↦ ground (arith, descend-leaf t pick (start ∷ []) (pick q) fuel reached)
    ]

find_leaf-put :
    (t : Tree) (pick : Internal → ℕ) (page_id : ℕ) (p p' : Leaf) (reached : ℕ × Leaf)
    → lookup page_id t.nodes ≡ some (leaf p)
    → find_leaf t pick ≡ ok reached
    → find_leaf (put t page_id (leaf p')) pick
      ≡ ok (reached.0, if page_id == reached.0 then p' else reached.1)
unfolding find_leaf
find_leaf-put t pick page_id p p' reached there way =
    ap (descend (put t page_id (leaf p')) pick [] t.root_page_id)
      (length-insert_present page_id (leaf p') (leaf p) t.nodes there)
    ∙ descend-put t pick page_id p p' there [] t.root_page_id (length t.nodes) reached way

pub find_leaf-leaf :
    (t : Tree) (pick : Internal → ℕ) (reached : ℕ × Leaf)
    → find_leaf t pick ≡ ok reached
    → lookup reached.0 t.nodes ≡ some (leaf reached.1)
unfolding find_leaf
find_leaf-leaf t pick reached way =
    descend-leaf t pick [] t.root_page_id (length t.nodes) reached way

pub get_value-reached :
    (t : Tree) (key page_id : ℕ) (p : Leaf)
    → t.root_page_id ≢ invalid_page_id
    → find_leaf t (child_for key) ≡ ok (page_id, p)
    → get_value t key ≡ ok (LeafPage.lookup p key)
unfolding get_value
get_value-reached t key page_id p some_root way = ground (arith, way)

pub get_value-way :
    (t : Tree) (key : ℕ) (old : Option ℕ)
    → t.root_page_id ≢ invalid_page_id
    → get_value t key ≡ ok old
    → (reached : ℕ × Leaf) × (find_leaf t (child_for key) ≡ ok reached)
unfolding get_value
get_value-way t key old some_root got = by_run (find_leaf t (child_for key)) refl
  where
    by_run :
        (r : Run (ℕ × Leaf))
        → find_leaf t (child_for key) ≡ r
        → (reached : ℕ × Leaf) × (find_leaf t (child_for key) ≡ ok reached)
    by_run (ok reached) e = (reached, e)
    by_run hangs e = ground arith
    by_run fault e = ground arith

-- What a lookup finds once the leaf of a key has changed.
get_value-put :
    (t : Tree) (key other page_id : ℕ) (p p' : Leaf) (old : Option ℕ)
    → find_leaf t (child_for key) ≡ ok (page_id, p)
    → get_value t other ≡ ok old
    → t.root_page_id ≢ invalid_page_id
    → ((old ≡ LeafPage.lookup p other)
        × (get_value (put t page_id (leaf p')) other ≡ ok (LeafPage.lookup p' other)))
      ⊎ ((key ≢ other) × (get_value (put t page_id (leaf p')) other ≡ ok old))
get_value-put t key other page_id p p' old way got some_root =
    let ((j, q), e) = get_value-way t other old some_root got in
    elim (ℕ_discrete page_id j) [
      | yes same ↦ inl (
        ground (
          arith,
          get_value-reached t other j q some_root e,
          find_leaf-leaf t (child_for other) (j, q) e,
          there,
        ),
        ground (
          arith,
          find_leaf-put t (child_for other) page_id p p' (j, q) there e,
          get_value-reached (put t page_id (leaf p')) other j p' some_root,
        ),
      )
      | no apart ↦ inr (
        λ same. apart (ground (arith, way, e, ap (λ k. find_leaf t (child_for k)) same)),
        ground (
          arith,
          get_value-reached t other j q some_root e,
          find_leaf-put t (child_for other) page_id p p' (j, q) there e,
          get_value-reached (put t page_id (leaf p')) other j q some_root,
        ),
      )
    ]
  where
    there : lookup page_id t.nodes ≡ some (leaf p)
    there = find_leaf-leaf t (child_for key) (page_id, p) way

pub max_size-insert :
    (p : Leaf) (key value : ℕ) → (LeafPage.insert p key value).0.max_size ≡ p.max_size
unfolding LeafPage.insert
max_size-insert p key value = ground arith

max_size-remove :
    (p : Leaf) (key : ℕ) → (LeafPage.remove_and_delete_record p key).0.max_size ≡ p.max_size
unfolding LeafPage.remove_and_delete_record
max_size-remove p key = ground arith

pub or_else-none : (o : Option ℕ) → or_else o none ≡ o
or_else-none none = refl
or_else-none (some x) = refl

-- `Insert` where the leaf of the key is sorted and has room returns, true exactly for a key that the
-- tree does not have; a lookup of any key that returned finds then what it found, and a new key the
-- value that is given. It does not take that the rest of the tree is in order.
pub insert-get_value :
    (t : Tree) (key value other page_id : ℕ) (p : Leaf) (old : Option ℕ)
    → t.root_page_id ≢ invalid_page_id
    → find_leaf t (child_for key) ≡ ok (page_id, p)
    → LeafSearch.IsSorted p
    → p.size < p.max_size
    → get_value t other ≡ ok old
    → (t' : Tree) × (had : Option ℕ) × (get_value t key ≡ ok had)
      × (insert t key value ≡ ok (t', not (is_some had)))
      × (get_value t' other ≡ ok (or_else old (if key == other then some value else none)))
unfolding insert
insert-get_value t key value other page_id p old some_root way sorted room got =
    let (p', n) = LeafPage.insert p key value in
    let (sorted', size, counted, found) = LeafSorted.lookup-insert p key value sorted in
    (
      put t page_id (leaf p'),
      LeafPage.lookup p key,
      get_value-reached t key page_id p some_root way,
      ground (arith, way, some_root, max_size-insert p key value, counted),
      elim (get_value-put t key other page_id p p' old way got some_root) [
        | inl (same, now) ↦
            now
            ∙ ap ok (
                found other
                ∙ ap (λ (o : Option ℕ). or_else o (if key == other then some value else none))
                    (sym same))
        | inr (apart, now) ↦ ground (arith, apart, now, or_else-none old)
      ],
    )

-- `Remove` of a key whose leaf is sorted and keeps its least number of entries returns; a lookup of
-- any other key that returned finds then what it found, and one of this key nothing.
pub remove-get_value :
    (t : Tree) (key other page_id : ℕ) (p : Leaf) (old : Option ℕ)
    → t.root_page_id ≢ invalid_page_id
    → find_leaf t (child_for key) ≡ ok (page_id, p)
    → LeafSearch.IsSorted p
    → p.max_size / 2 < p.size
    → get_value t other ≡ ok old
    → (t' : Tree) × (remove t key ≡ ok t')
      × (get_value t' other ≡ ok (if key == other then none else old))
unfolding remove
remove-get_value t key other page_id p old some_root way sorted room got =
    let (sorted', size, counted, found) = lookup-remove_and_delete_record p key sorted in
    elim (Option-cases (LeafPage.lookup p key)) [
      | inl missing ↦ (
        t,
        ground (arith, way, some_root, counted),
        elim (ℕ_discrete key other) [
          | yes same ↦ ground (
            arith,
            ap (λ k. get_value t k) same,
            get_value-reached t key page_id p some_root way,
            same,
          )
          | no apart ↦ ground (arith, apart)
        ],
      )
      | inr (value, there) ↦ (
        put t page_id (leaf (LeafPage.remove_and_delete_record p key).0),
        ground (arith, way, some_root, counted, max_size-remove p key),
        elim (get_value-put t key other page_id p (LeafPage.remove_and_delete_record p key).0 old
            way got some_root) [
              | inl (same, now) ↦ now ∙ ap ok (found other ∙ ground (arith, same))
              | inr (apart, now) ↦ ground (arith, apart, now)
            ],
      )
    ]
