-- ===== src/Index/Tree/Halves.antt =====
-- The two halves of a leaf, and the new root over them: src/storage/page/b_plus_tree_leaf_page.cpp,
-- src/storage/index/b_plus_tree.cpp.
use zlchen_dsaa2031_project.Prelude.{
  ℕ, zero, suc, ◌+◌, ◌-◌, ◌/◌, ◌<◌, ◌≤◌, ◌≡◌, ◌≢◌, refl, ap, some, List, [], ◌∷◌, ◌==◌, ltb, length,
  lookup, lookup-insert, if◌then◌else◌, inl, inr, Bool-cases, Option-cases, arith,
}
use native.Mathlib.Decide.{ℕ_discrete}
use zlchen_dsaa2031_project.Prelude.{insert as put_node}
use zlchen_dsaa2031_project.Storage.Disk.{invalid_page_id}
use zlchen_dsaa2031_project.Index.Arrays.{copy_to_at}
use zlchen_dsaa2031_project.Index.Leaf.{Leaf}
use zlchen_dsaa2031_project.Index.Leaf as LeafPage
use zlchen_dsaa2031_project.Index.Leaf.Search.{IsSorted}
use zlchen_dsaa2031_project.Index.Leaf.Sorted.{lookup_found, lookup_missing, lookup_at, lookup-none}
use zlchen_dsaa2031_project.Index.Internal.{Internal}
use zlchen_dsaa2031_project.Index.Internal as InternalPage
use zlchen_dsaa2031_project.Index.Internal.Search.{Covers, lookup-Covers}
use zlchen_dsaa2031_project.Index.Tree.{
  Node, leaf, internal, Tree, ok, fetch, find_leaf, descend, child_for, get_value, zeroed_internal,
}

module _ (p recipient : Leaf) (sorted : IsSorted p) where
  abbrev lower : Leaf
  lower = (LeafPage.move_half_to p recipient).0

  abbrev upper : Leaf
  upper = (LeafPage.move_half_to p recipient).1

  abbrev mid : ℕ
  mid = p.size / 2

  pub upper_at : (i : ℕ) → i < p.size - mid → upper.array i ≡ p.array (mid + i)
  unfolding LeafPage.move_half_to
  upper_at i low = ground (arith, copy_to_at recipient.array 0 p.array mid (p.size - mid) i)

  upper-IsSorted : IsSorted upper
  unfolding LeafPage.move_half_to
  upper-IsSorted i j less low = ground (
    arith,
    upper_at i (omega arith),
    upper_at j low,
    sorted (mid + i) (mid + j) (omega arith) (omega arith),
  )

  lower-IsSorted : IsSorted lower
  unfolding LeafPage.move_half_to
  lower-IsSorted i j less low = sorted i j less (omega arith)

  sizes : (lower.size ≡ mid) × (upper.size ≡ p.size - mid)
  unfolding LeafPage.move_half_to
  sizes = (refl, refl)

  lower_at : (i : ℕ) → lower.array i ≡ p.array i
  unfolding LeafPage.move_half_to
  lower_at i = refl

  -- A lookup in a leaf is one in the half that the first key of the upper half tells.
  pub lookup_half :
      (key : ℕ)
      → 1 < p.size
      → LeafPage.lookup p key ≡ (
          if ltb key (LeafPage.key_at upper 0)
          then LeafPage.lookup lower key
          else LeafPage.lookup upper key)
  lookup_half key some_left = elim (Option-cases (LeafPage.lookup p key)) [
    | inr (value, there) ↦
        let (i, low, k, v) = lookup_at p key value there in
        elim (Bool-cases (ltb i mid)) [
          | inl before ↦ ground (
            arith,
            upper_at 0 (omega arith),
            sorted i mid,
            lower_at i,
            sizes.0,
            lookup_found lower lower-IsSorted key i,
          )
          | inr behind ↦ ground (
            arith,
            upper_at 0 (omega arith),
            upper_at (i - mid),
            sorted mid i,
            sizes.1,
            ap p.array (again i (ground arith)),
            lookup_found upper upper-IsSorted key (i - mid),
          )
        ]
    | inl missing ↦ ground (
      arith,
      lookup_missing lower key (λ i low e.
          lookup-none p key i sorted missing (ground (arith, sizes.0))
            (ground (arith, lower_at i, e))),
      lookup_missing upper key (λ i low e.
          lookup-none p key (mid + i) sorted missing (ground (arith, sizes.1))
            (ground (arith, upper_at i, sizes.1, e))),
    )
  ]
    where
      again : (i : ℕ) → mid ≤ i → mid + (i - mid) ≡ i
      again i le = omega arith

-- The new root over two leaves sends a key to the right one from the middle key on.
pub root_lookup :
    (left_id middle_key right_id max_size key : ℕ)
    → InternalPage.lookup
        (InternalPage.populate_new_root
          (InternalPage.init zeroed_internal max_size)
          left_id
          middle_key
          right_id)
        key
      ≡ (if ltb key middle_key then left_id else right_id)
unfolding InternalPage.populate_new_root InternalPage.init
root_lookup left_id middle_key right_id max_size key =
    let root : Internal =
      InternalPage.populate_new_root (InternalPage.init zeroed_internal max_size) left_id middle_key
        right_id in
    let (i, c, picked) = lookup-Covers root key (λ i j pos less low. ground arith) (omega arith) in
    by_index i c picked
  where
    by_index :
        (i : ℕ)
        → Covers
            (InternalPage.populate_new_root
              (InternalPage.init zeroed_internal max_size)
              left_id
              middle_key
              right_id)
            key
            i
        → InternalPage.lookup
            (InternalPage.populate_new_root
              (InternalPage.init zeroed_internal max_size)
              left_id
              middle_key
              right_id)
            key
          ≡ InternalPage.value_at
              (InternalPage.populate_new_root
                (InternalPage.init zeroed_internal max_size)
                left_id
                middle_key
                right_id)
              i
        → InternalPage.lookup
            (InternalPage.populate_new_root
              (InternalPage.init zeroed_internal max_size)
              left_id
              middle_key
              right_id)
            key
          ≡ (if ltb key middle_key then left_id else right_id)
    by_index zero c picked = ground (arith, c.behind 1)
    by_index (suc zero) c picked = ground (arith, c.up_to 1)
    by_index (suc (suc i)) c picked = ground (arith, c.within)

pub length_one : (k : ℕ) (v : Node) (m : List (ℕ × Node)) → lookup k m ≡ some v → 0 < length m
unfolding lookup
length_one k v [] h = ground arith
length_one k v (e ∷ m) h = omega arith

length_two :
    (k j : ℕ) (v w : Node) (m : List (ℕ × Node))
    → k ≢ j
    → lookup k m ≡ some v
    → lookup j m ≡ some w
    → 1 < length m
unfolding lookup
length_two k j v w [] apart h h' = ground arith
length_two k j v w ((i, x) ∷ m) apart h h' = elim (ℕ_discrete i k) [
  | yes same ↦ ground (arith, same, apart, length_one j w m)
  | no other ↦ ground (arith, other, length_one k v m)
]

pub lookup_three :
    (a b c j : ℕ) (x y z : Node) (m : List (ℕ × Node))
    → lookup j (put_node a x (put_node b y (put_node c z m))) ≡ (
        if a == j then some x else if b == j then some y else if c == j then some z else lookup j m)
lookup_three a b c j x y z m = ground (
  arith,
  lookup-insert a j x (put_node b y (put_node c z m)),
  lookup-insert b j y (put_node c z m),
  lookup-insert c j z m,
)

pub find_leaf-root :
    (t : Tree) (pick : Internal → ℕ) (p : Leaf)
    → lookup t.root_page_id t.nodes ≡ some (leaf p)
    → find_leaf t pick ≡ ok (t.root_page_id, p)
unfolding find_leaf descend fetch
find_leaf-root t pick p there =
    by_fuel (length t.nodes) (length_one t.root_page_id (leaf p) t.nodes there)
  where
    by_fuel : (fuel : ℕ) → 0 < fuel → descend t pick [] t.root_page_id fuel ≡ ok (t.root_page_id, p)
    by_fuel zero some_left = ground arith
    by_fuel (suc fuel) some_left = rw there refl

two_steps :
    (t : Tree) (key child fuel : ℕ) (root : Internal) (p : Leaf)
    → lookup t.root_page_id t.nodes ≡ some (internal root)
    → InternalPage.lookup root key ≡ child
    → t.root_page_id ≢ child
    → lookup child t.nodes ≡ some (leaf p)
    → descend t (child_for key) [] t.root_page_id (suc (suc fuel)) ≡ ok (child, p)
unfolding descend fetch
two_steps t key child fuel root p its_root picked apart there =
    ground (arith, its_root, picked, apart, there)

pub get_value_below_root :
    (t : Tree) (key child : ℕ) (root : Internal) (p : Leaf)
    → t.root_page_id ≢ invalid_page_id
    → lookup t.root_page_id t.nodes ≡ some (internal root)
    → InternalPage.lookup root key ≡ child
    → t.root_page_id ≢ child
    → lookup child t.nodes ≡ some (leaf p)
    → get_value t key ≡ ok (LeafPage.lookup p key)
unfolding get_value find_leaf
get_value_below_root t key child root p some_root its_root picked apart there =
    by_fuel (length t.nodes)
      (length_two t.root_page_id child (internal root) (leaf p) t.nodes apart its_root there) refl
  where
    by_fuel :
        (fuel : ℕ) → 1 < fuel → length t.nodes ≡ fuel → get_value t key ≡ ok (LeafPage.lookup p key)
    by_fuel zero few same = ground arith
    by_fuel (suc zero) few same = ground arith
    by_fuel (suc (suc fuel)) few same = ground (
      arith,
      some_root,
      ap (descend t (child_for key) [] t.root_page_id) same,
      two_steps t key child fuel root p its_root picked apart there,
    )
