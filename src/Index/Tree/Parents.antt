-- ===== src/Index/Tree/Parents.antt =====
-- The parents that `Coalesce` gives to the children of an internal page:
-- src/storage/index/b_plus_tree.cpp.
use zlchen_dsaa2031_project.Prelude.{
  ℕ, zero, suc, ◌+◌, ◌<◌, ◌≤◌, ◌≡◌, refl, sym, ap, ◌∙◌, subst, some, List, lookup, lookup-insert,
  contains, inl, inr, Bool-cases, Option-cases, arith,
}
use native.Mathlib.Decide.{ℕ_discrete}
use zlchen_dsaa2031_project.Index.Internal.{Internal}
use zlchen_dsaa2031_project.Index.Internal as InternalPage
use zlchen_dsaa2031_project.Index.Tree.{
  Node, leaf, internal, Tree, Run, ok, hangs, fault, ◌>>=◌, fetch, put,
}
use zlchen_dsaa2031_project.Index.Tree.Changes.{set_parent, fetch_and_set_parent, set_parents}
use zlchen_dsaa2031_project.Index.Tree.Removal.{parent_of, merge}

-- The parent that a page names.
unfoldable pub HasParent : Tree → ℕ → ℕ → Type 0
HasParent t page_id parent_page_id =
    (node : Node) × (lookup page_id t.nodes ≡ some node) × (parent_of node ≡ parent_page_id)

parent_of-set_parent :
    (node : Node) (parent_page_id : ℕ) → parent_of (set_parent node parent_page_id) ≡ parent_page_id
parent_of-set_parent (leaf p) parent_page_id = refl
parent_of-set_parent (internal p) parent_page_id = refl

ok_injective : {t u : Tree} → ok t ≡ ok u → t ≡ u
ok_injective e = cc

fetch_and_set_parent-HasParent :
    (latched : List ℕ) (t t' : Tree) (page_id parent_page_id : ℕ)
    → fetch_and_set_parent latched t page_id parent_page_id ≡ ok t'
    → HasParent t' page_id parent_page_id
      × ((other : ℕ) → HasParent t other parent_page_id → HasParent t' other parent_page_id)
unfolding HasParent fetch
fetch_and_set_parent-HasParent latched t t' page_id parent_page_id done =
    elim (Bool-cases (contains page_id latched)) [
      | inl there ↦ ground arith
      | inr free ↦ elim (Option-cases (lookup page_id t.nodes)) [
        | inl missing ↦ ground arith
        | inr (node, e) ↦
            let same : t' ≡ put t page_id (set_parent node parent_page_id) =
              ok_injective (sym done ∙ rw (free, e) refl) in
            subst
              (λ (u : Tree).
                HasParent u page_id parent_page_id
                × ((other : ℕ)
                    → HasParent t other parent_page_id
                    → HasParent u other parent_page_id))
              (sym same)
              (
                (
                  set_parent node parent_page_id,
                  ground (
                    arith,
                    lookup-insert page_id page_id (set_parent node parent_page_id) t.nodes,
                  ),
                  parent_of-set_parent node parent_page_id,
                ),
                λ other (old, e', its). elim (ℕ_discrete page_id other) [
                  | yes here ↦ (
                    set_parent node parent_page_id,
                    ground (
                      arith,
                      lookup-insert page_id other (set_parent node parent_page_id) t.nodes,
                    ),
                    parent_of-set_parent node parent_page_id,
                  )
                  | no apart ↦ (
                    old,
                    ground (
                      arith,
                      lookup-insert page_id other (set_parent node parent_page_id) t.nodes,
                    ),
                    its,
                  )
                ],
              )
      ]
    ]

module _ (latched : List ℕ) (p : Internal) (parent_page_id : ℕ) where
  -- One round of the loop, and the others.
  set_parents-round :
      (t t' : Tree) (i n : ℕ)
      → set_parents latched t p i (suc n) parent_page_id ≡ ok t'
      → (t1 : Tree) × (fetch_and_set_parent latched t (InternalPage.value_at p i) parent_page_id
          ≡ ok t1)
        × (set_parents latched t1 p (i + 1) n parent_page_id ≡ ok t')
  unfolding set_parents
  set_parents-round t t' i n done =
      by_run (fetch_and_set_parent latched t (InternalPage.value_at p i) parent_page_id) refl
    where
      by_run :
          (r : Run Tree)
          → fetch_and_set_parent latched t (InternalPage.value_at p i) parent_page_id ≡ r
          → (t1 : Tree) × (fetch_and_set_parent latched t (InternalPage.value_at p i) parent_page_id
              ≡ ok t1)
            × (set_parents latched t1 p (i + 1) n parent_page_id ≡ ok t')
      by_run (ok t1) e = (
        t1,
        e,
        sym (ap (λ r. r >>= λ u. set_parents latched u p (i + 1) n parent_page_id) e) ∙ done,
      )
      by_run hangs e = ground (arith, e, done)
      by_run fault e = ground (arith, e, done)

  set_parents-keeps :
      (t t' : Tree) (i n other : ℕ)
      → set_parents latched t p i n parent_page_id ≡ ok t'
      → HasParent t other parent_page_id
      → HasParent t' other parent_page_id
  unfolding set_parents
  set_parents-keeps t t' i zero other done its =
      subst (λ (u : Tree). HasParent u other parent_page_id) (ok_injective done) its
  set_parents-keeps t t' i (suc n) other done its =
      let (t1, first, later) = set_parents-round t t' i n done in
      set_parents-keeps t1 t' (i + 1) n other later (
        (fetch_and_set_parent-HasParent latched t t1 (InternalPage.value_at p i) parent_page_id
            first).1
          other its)

  set_parents-HasParent :
      (t t' : Tree) (i n j : ℕ)
      → set_parents latched t p i n parent_page_id ≡ ok t'
      → i ≤ j
      → j < i + n
      → HasParent t' (InternalPage.value_at p j) parent_page_id
  set_parents-HasParent t t' i zero j done from below = absurd (omega arith)
  set_parents-HasParent t t' i (suc n) j done from below =
      let (t1, first, later) = set_parents-round t t' i n done in
      elim (ℕ_discrete i j) [
        | yes here ↦ set_parents-keeps t1 t' (i + 1) n (InternalPage.value_at p j) later (
            subst (λ k. HasParent t1 (InternalPage.value_at p k) parent_page_id) here
              (fetch_and_set_parent-HasParent latched t t1 (InternalPage.value_at p i)
                parent_page_id first).0)
        | no apart ↦
            set_parents-HasParent t1 t' (i + 1) n j later (ground (arith, apart)) (omega arith)
      ]

same_parent :
    (p neighbor : Internal) (middle_key : ℕ)
    → (InternalPage.move_all_to p neighbor middle_key).1.parent_page_id ≡ neighbor.parent_page_id
unfolding InternalPage.move_all_to
same_parent p neighbor middle_key = refl

-- When a merge of two internal pages returns, every child of the page that is left, those that have
-- moved included, names for its parent the parent of that page, not the page.
pub merge-HasParent :
    (latched : List ℕ) (t t' : Tree) (neighbor_id node_id middle_key j : ℕ) (neighbor p : Internal)
    → merge latched t neighbor_id (internal neighbor) node_id (internal p) middle_key ≡ ok t'
    → let (p', neighbor') = InternalPage.move_all_to p neighbor middle_key in
      j < neighbor'.size → HasParent t' (InternalPage.value_at neighbor' j) neighbor.parent_page_id
unfolding merge
merge-HasParent latched t t' neighbor_id node_id middle_key j neighbor p done below =
    subst (HasParent t' (InternalPage.value_at merged j)) (same_parent p neighbor middle_key) (
      set_parents-HasParent latched merged merged.parent_page_id
        (put (put t node_id (internal left)) neighbor_id (internal merged)) t' 0 merged.size j done
        (omega arith) (omega arith))
  where
    left : Internal
    left = (InternalPage.move_all_to p neighbor middle_key).0

    merged : Internal
    merged = (InternalPage.move_all_to p neighbor middle_key).1
