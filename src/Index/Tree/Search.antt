-- ===== src/Index/Tree/Search.antt =====
-- `GetValue` in a tree whose pages keep to the keys that their parents give them:
-- src/storage/index/b_plus_tree.cpp.
use zlchen_dsaa2031_project.Prelude.{
  ℕ, zero, suc, ◌+◌, ◌<◌, ◌≤◌, ◌≡◌, ◌≢◌, ◌↔◌, refl, sym, ap, ◌∙◌, subst, Option, some, false, List,
  [], ◌∷◌, ltb, length, lookup, contains, if◌then◌else◌, arith,
}
use native.Mathlib.Decide.{ℕ_discrete}
use zlchen_dsaa2031_project.Storage.Disk.{invalid_page_id}
use zlchen_dsaa2031_project.Index.Leaf.{Leaf}
use zlchen_dsaa2031_project.Index.Leaf as LeafPage
use zlchen_dsaa2031_project.Index.Leaf.Search as LeafSearch
use zlchen_dsaa2031_project.Index.Leaf.Sorted.{lookup_found, lookup_at}
use zlchen_dsaa2031_project.Index.Internal.{Internal}
use zlchen_dsaa2031_project.Index.Internal as InternalPage
use zlchen_dsaa2031_project.Index.Internal.Search.{IsSorted, Covers, lookup-Covers}
use zlchen_dsaa2031_project.Index.Tree.{
  Node, leaf, internal, Tree, ok, fetch, descend, find_leaf, child_for, get_value,
}

-- The keys that a child may have, from the one on and below the other.
abbrev pub low_of : Internal → ℕ → ℕ → ℕ
low_of p low zero = low
low_of p low (suc i) = InternalPage.key_at p (suc i)

abbrev pub high_of : Internal → ℕ → ℕ → ℕ
high_of p high i = if ltb (i + 1) p.size then InternalPage.key_at p (i + 1) else high

-- A page with everything below it: sorted, of one height, and with its keys in the range.
unfoldable pub IsTree : Tree → ℕ → ℕ → ℕ → ℕ → Type 0
IsTree t zero page_id low high =
    (p : Leaf) × (lookup page_id t.nodes ≡ some (leaf p))
    × LeafSearch.IsSorted p
    × ((i : ℕ) → i < p.size → (low ≤ LeafPage.key_at p i) × (LeafPage.key_at p i < high))
IsTree t (suc height) page_id low high =
    (p : Internal) × (lookup page_id t.nodes ≡ some (internal p))
    × IsSorted p
    × (0 < p.size)
    × ((i : ℕ)
        → i < p.size
        → (low ≤ low_of p low i)
          × (high_of p high i ≤ high)
          × IsTree t height (InternalPage.value_at p i) (low_of p low i) (high_of p high i))

-- Some leaf below the page has the entry.
unfoldable pub Holds : Tree → ℕ → ℕ → ℕ → ℕ → Type 0
Holds t zero page_id key value =
    (p : Leaf) × (lookup page_id t.nodes ≡ some (leaf p))
    × (i : ℕ) × (i < p.size)
    × (LeafPage.key_at p i ≡ key)
    × (LeafPage.value_at p i ≡ value)
Holds t (suc height) page_id key value =
    (p : Internal) × (lookup page_id t.nodes ≡ some (internal p))
    × (i : ℕ) × (i < p.size)
    × Holds t height (InternalPage.value_at p i) key value

same_leaf :
    (found : Option Node) (p p' : Leaf) → found ≡ some (leaf p) → found ≡ some (leaf p') → p ≡ p'
same_leaf found p p' e e' = cc

same_internal :
    (found : Option Node) (p p' : Internal)
    → found ≡ some (internal p)
    → found ≡ some (internal p')
    → p ≡ p'
same_internal found p p' e e' = cc

module _ (t : Tree) where
  -- An entry below a page is below one of its cells.
  Holds-child :
      (height page_id key value : ℕ) (p : Internal)
      → lookup page_id t.nodes ≡ some (internal p)
      → Holds t (suc height) page_id key value
      → (i : ℕ) × (i < p.size) × Holds t height (InternalPage.value_at p i) key value
  unfolding Holds
  Holds-child height page_id key value p e (p', e', i, i_low, held) =
      subst
        (λ (q : Internal).
          (i : ℕ) × (i < q.size) × Holds t height (InternalPage.value_at q i) key value)
        (same_internal (lookup page_id t.nodes) p' p e' e) (i, i_low, held)

  Holds-leaf :
      (page_id key value : ℕ) (p : Leaf)
      → lookup page_id t.nodes ≡ some (leaf p)
      → Holds t zero page_id key value
      → (i : ℕ) × (i < p.size) × (LeafPage.key_at p i ≡ key) × (LeafPage.value_at p i ≡ value)
  unfolding Holds
  Holds-leaf page_id key value p e (p', e', i, i_low, k, v) =
      subst
        (λ (q : Leaf).
          (i : ℕ) × (i < q.size) × (LeafPage.key_at q i ≡ key) × (LeafPage.value_at q i ≡ value))
        (same_leaf (lookup page_id t.nodes) p' p e' e) (i, i_low, k, v)

  Holds-range :
      (height page_id low high key value : ℕ)
      → IsTree t height page_id low high
      → Holds t height page_id key value
      → (low ≤ key) × (key < high)
  unfolding IsTree
  Holds-range zero page_id low high key value (p, e, sorted, within) held =
      let (i, i_low, k, v) = Holds-leaf page_id key value p e held in
      ground (arith, within i i_low, k)
  Holds-range (suc height) page_id low high key value (p, e, sorted, some_child, below) held =
      let (i, i_low, deeper) = Holds-child height page_id key value p e held in
      omega (
        arith,
        below i i_low,
        Holds-range height (InternalPage.value_at p i) (low_of p low i) (high_of p high i) key value
            (below i i_low).2 deeper,
      )

  -- A key is in the range of the one child that covers it.
  cover_range :
      (p : Internal) (key i low high : ℕ)
      → Covers p key i
      → low ≤ key
      → key < high
      → (low_of p low i ≤ key) × (key < high_of p high i)
  cover_range p key zero low high c from below = ground (arith, c.behind 1)
  cover_range p key (suc i) low high c from below =
      ground (arith, c.behind (suc i + 1), c.up_to (suc i))

  one_cover :
      (p : Internal) (key i j low high : ℕ)
      → Covers p key i
      → j < p.size
      → low_of p low j ≤ key
      → key < high_of p high j
      → i ≡ j
  one_cover p key i zero low high c j_low from below = ground (arith, c.up_to 1, c.within)
  one_cover p key i (suc j) low high c j_low from below =
      ground (arith, c.behind (suc j), c.up_to (suc j + 1), c.within)

  -- No page is its own child, as a page has one height.
  one_height :
      (height height' page_id low high low' high' : ℕ)
      → IsTree t height page_id low high
      → IsTree t height' page_id low' high'
      → height ≡ height'
  unfolding IsTree
  one_height zero zero page_id low high low' high' h h' = refl
  one_height zero (suc height') page_id low high low' high' (p, e, s, w) (p', e', s', c', below') =
      ground arith
  one_height (suc height) zero page_id low high low' high' (p, e, s, c, below) (p', e', s', w') =
      ground arith
  one_height (suc height) (suc height') page_id low high low' high' (p, e, s, c, below)
        (p', e', s', c', below') =
      ap suc (
        one_height height height' (InternalPage.value_at p 0) (low_of p low 0) (high_of p high 0)
          (low_of p' low' 0) (high_of p' high' 0) (below 0 c).2
          (subst
            (λ (q : Internal).
              IsTree t height' (InternalPage.value_at q 0) (low_of p' low' 0) (high_of p' high' 0))
            (same_internal (lookup page_id t.nodes) p' p e' e) (below' 0 c').2))

  pub free_child :
      (height page_id child low high low' high' : ℕ)
      → IsTree t (suc height) page_id low high
      → IsTree t height child low' high'
      → contains child (page_id ∷ []) ≡ false
  free_child height page_id child low high low' high' tree below = elim (ℕ_discrete child page_id) [
    | yes same ↦ absurd (
        omega (
          arith,
          one_height (suc height) height page_id low high low' high' tree
              (subst (λ id. IsTree t height id low' high') same below),
        ))
    | no other ↦ ground (arith, other)
  ]

  pub descend-child :
      (pick : Internal → ℕ) (latched : List ℕ) (page_id fuel : ℕ) (p : Internal)
      → lookup page_id t.nodes ≡ some (internal p)
      → contains page_id latched ≡ false
      → descend t pick latched page_id (suc fuel) ≡ descend t pick (page_id ∷ []) (pick p) fuel
  unfolding descend fetch
  descend-child pick latched page_id fuel p e free = rw (free, e) refl

  -- The way down to a key ends at a leaf that has what the tree has under the key.
  descend-Holds :
      (height page_id low high key fuel : ℕ) (latched : List ℕ)
      → IsTree t height page_id low high
      → low ≤ key
      → key < high
      → contains page_id latched ≡ false
      → height < fuel
      → (reached : ℕ × Leaf) × (descend t (child_for key) latched page_id fuel ≡ ok reached)
        × LeafSearch.IsSorted reached.1
        × ((value : ℕ)
            → (LeafPage.lookup reached.1 key ≡ some value) ↔ Holds t height page_id key value)
  unfolding descend fetch IsTree Holds
  descend-Holds height page_id low high key zero latched tree from below free enough = ground arith
  descend-Holds zero page_id low high key (suc fuel) latched (p, e, sorted, within) from below free
        enough =
      (
        (page_id, p),
        rw (free, e) refl,
        sorted,
        λ value. (
          λ found. let (i, i_low, k, v) = lookup_at p key value found in (p, e, i, i_low, k, v),
          λ held.
              let (i, i_low, k, v) = Holds-leaf page_id key value p e held in
              subst (λ k. LeafPage.lookup p k ≡ some value) k
                (lookup_found p sorted (LeafPage.key_at p i) i i_low refl ∙ ap some v),
        ),
      )
  descend-Holds (suc height) page_id low high key (suc fuel) latched
        (p, e, sorted, some_child, below_) from below free enough =
      let (i, c, picked) = lookup-Covers p key sorted some_child in
      let child : ℕ = InternalPage.value_at p i in
      let (from', below') = cover_range p key i low high c from below in
      let (reached, way, leaf_sorted, holds) =
        descend-Holds height child (low_of p low i) (high_of p high i) key fuel (page_id ∷ [])
          (below_ i c.within).2 from' below'
          (free_child height page_id child low high (low_of p low i) (high_of p high i)
            (p, e, sorted, some_child, below_) (below_ i c.within).2)
          (omega arith) in
      (
        reached,
        descend-child (child_for key) latched page_id fuel p e free
            ∙ ap (λ id. descend t (child_for key) (page_id ∷ []) id fuel) picked
            ∙ way,
        leaf_sorted,
        λ value. (
          λ found. (p, e, i, c.within, (holds value).0 found),
          λ held.
              let (j, j_low, deeper) = Holds-child height page_id key value p e held in
              let (from_, under) =
                Holds-range height (InternalPage.value_at p j) (low_of p low j) (high_of p high j)
                  key value (below_ j j_low).2 deeper in
              (holds value).1 (
                subst (λ k. Holds t height (InternalPage.value_at p k) key value)
                  (sym (one_cover p key i j low high c j_low from_ under)) deeper),
        ),
      )

-- A lookup in a tree whose pages keep to the keys that their parents give them, of a key in its range,
-- returns, and finds a value exactly if some leaf of the tree holds it under the key. The way down is
-- shorter than the number of the pages.
pub get_value-Holds :
    (t : Tree) (height low high key : ℕ)
    → t.root_page_id ≢ invalid_page_id
    → IsTree t height t.root_page_id low high
    → low ≤ key
    → key < high
    → height < length t.nodes
    → (result : Option ℕ) × (get_value t key ≡ ok result)
      × ((value : ℕ) → (result ≡ some value) ↔ Holds t height t.root_page_id key value)
unfolding get_value find_leaf
get_value-Holds t height low high key some_root tree from below few =
    let (reached, way, sorted, holds) =
      descend-Holds t height t.root_page_id low high key (length t.nodes) [] tree from below refl
        few in
    (LeafPage.lookup reached.1 key, ground (arith, way), holds)
