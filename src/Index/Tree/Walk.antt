-- ===== src/Index/Tree/Walk.antt =====
-- The iterator along the leaves: src/storage/index/b_plus_tree_iterator.cpp, and where
-- `Begin` of a key puts it, src/storage/index/b_plus_tree.cpp.
use zlchen_dsaa2031_project.Prelude.{
  ℕ, zero, suc, ◌+◌, ◌-◌, ◌<◌, ◌≡◌, ◌≢◌, refl, ap, ◌∙◌, none, some, List, [], ◌∷◌, ◌++◌, leb,
  lookup, if◌then◌else◌, arith,
}
use zlchen_dsaa2031_project.Storage.Disk.{invalid_page_id}
use zlchen_dsaa2031_project.Index.Arrays.{listing}
use zlchen_dsaa2031_project.Index.Leaf.{Leaf}
use zlchen_dsaa2031_project.Index.Leaf as LeafPage
use zlchen_dsaa2031_project.Index.Leaf.Search.{IsSorted, key_index-IsLowerBound}
use zlchen_dsaa2031_project.Index.Leaf.Moves.{entries}
use zlchen_dsaa2031_project.Index.Tree.{
  leaf, Tree, Run, ok, hangs, ◌>>=◌, fetch, dereference, increment, end, find_leaf, child_for,
  begin_at,
}

-- A loop from a place to the end, with the entries that `*` gives.
unfoldable pub walk : Tree → ℕ × ℕ → ℕ → Run (List (ℕ × ℕ))
walk t it zero = hangs
walk t it (suc calls) = dereference t it >>= λ got. elim got [
  | none ↦ ok []
  | some entry ↦ increment t it >>= λ next. walk t next calls >>= λ more. ok (entry ∷ more)
]

-- The leaves from a page on, each with an entry.
unfoldable pub IsLeafChain : Tree → ℕ → List Leaf → Type 0
IsLeafChain t page_id [] = page_id ≡ invalid_page_id
IsLeafChain t page_id (p ∷ ps) =
    (page_id ≢ invalid_page_id)
    × (lookup page_id t.nodes ≡ some (leaf p))
    × (0 < p.size)
    × IsLeafChain t p.next_page_id ps

unfoldable pub all_entries : List Leaf → List (ℕ × ℕ)
all_entries [] = []
all_entries (p ∷ ps) = entries p ++ all_entries ps

unfoldable pub total : List Leaf → ℕ
total [] = 0
total (p ∷ ps) = p.size + total ps

module _ (t : Tree) where
  walk_end : (index calls : ℕ) → walk t (invalid_page_id, index) (suc calls) ≡ ok []
  unfolding walk dereference
  walk_end index calls = refl

  walk_step :
      (page_id index calls : ℕ) (p : Leaf)
      → page_id ≢ invalid_page_id
      → lookup page_id t.nodes ≡ some (leaf p)
      → walk t (page_id, index) (suc calls) ≡ (
          walk t
            (if leb p.size (index + 1) then (p.next_page_id, 0) else (page_id, index + 1))
            calls
          >>= λ more. ok (p.array index ∷ more))
  unfolding walk dereference increment fetch
  walk_step page_id index calls p known there = ground (arith, known, there)

  walk_from :
      (page_id index n calls : ℕ) (p : Leaf) (ps : List Leaf)
      → IsLeafChain t page_id (p ∷ ps)
      → index + suc n ≡ p.size
      → n + total ps < calls
      → walk t (page_id, index) (suc calls) ≡ ok (listing p.array index (suc n) ++ all_entries ps)
  unfolding IsLeafChain total all_entries listing entries
  walk_from page_id index n zero p ps chain at enough = ground arith
  walk_from page_id index (suc n) (suc calls) p ps (known, there, some_left, chain) at enough =
      ground (
        arith,
        walk_step page_id index (suc calls) p known there,
        walk_from page_id (index + 1) n calls p ps (known, there, some_left, chain) (omega arith)
            (omega arith),
      )
  walk_from page_id index zero (suc calls) p [] (known, there, some_left, chain) at enough =
      ground (
        arith,
        walk_step page_id index (suc calls) p known there,
        ap (λ id. walk t (id, 0) (suc calls)) chain,
        walk_end 0 calls,
      )
  walk_from page_id index zero (suc calls) p (q ∷ ps) (known, there, some_left, chain) at enough =
      let whole : suc (q.size - 1) ≡ q.size = omega (arith, chain.2) in
      ground (
        arith,
        walk_step page_id index (suc calls) p known there,
        ap (listing q.array 0) whole,
        walk_from p.next_page_id 0 (q.size - 1) calls q ps chain (omega (arith, whole))
            (omega (arith, whole)),
      )

-- A walk along the chain of the leaves, none of which is empty, gives their entries, leaf by leaf and
-- in the order of their cells, and ends. It is asked more often than there are entries.
pub walk-all_entries :
    (t : Tree) (page_id calls : ℕ) (ps : List Leaf)
    → IsLeafChain t page_id ps
    → total ps < calls
    → walk t (page_id, 0) calls ≡ ok (all_entries ps)
unfolding IsLeafChain total all_entries entries
walk-all_entries t page_id zero ps chain enough = ground arith
walk-all_entries t page_id (suc calls) [] chain enough =
    ap (λ id. walk t (id, 0) (suc calls)) chain ∙ walk_end t 0 calls
walk-all_entries t page_id (suc calls) (p ∷ ps) chain enough =
    let whole : suc (p.size - 1) ≡ p.size = omega (arith, chain.2) in
    walk_from t page_id 0 (p.size - 1) calls p ps chain (omega (arith, whole))
      (omega (arith, whole))
    ∙ ap (λ n. ok (listing p.array 0 n ++ all_entries ps)) whole

-- `Begin` of a key that is greater than the keys of the leaf it belongs into is `End`, whatever the
-- leaves behind have: a walk from there gives nothing.
pub begin_at_behind :
    (t : Tree) (key page_id calls : ℕ) (p : Leaf)
    → t.root_page_id ≢ invalid_page_id
    → find_leaf t (child_for key) ≡ ok (page_id, p)
    → IsSorted p
    → ((i : ℕ) → i < p.size → LeafPage.key_at p i < key)
    → (begin_at t key ≡ ok end) × (walk t end (suc calls) ≡ ok [])
unfolding begin_at
begin_at_behind t key page_id calls p some_root way sorted less =
    let bound = key_index-IsLowerBound p key sorted in
    (
      ground (
        arith,
        way,
        some_root,
        bound.within,
        bound.from (LeafPage.key_index p key),
        less (LeafPage.key_index p key),
      ),
      walk_end t 0 calls,
    )
