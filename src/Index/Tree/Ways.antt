-- ===== src/Index/Tree/Ways.antt =====
-- The ways down a tree before and after one of its leaves has become two:
-- src/storage/index/b_plus_tree.cpp.
use zlchen_dsaa2031_project.Prelude.{
  ℕ, zero, suc, ◌≡◌, ◌≢◌, sym, ap, ◌∙◌, subst, none, some, List, [], ◌∷◌, ◌==◌, lookup, contains,
  if◌then◌else◌, inl, inr, Bool-cases, Option-cases, arith,
}
use native.Mathlib.Decide.{ℕ_discrete}
use zlchen_dsaa2031_project.Index.Leaf.{Leaf}
use zlchen_dsaa2031_project.Index.Internal.{Internal}
use zlchen_dsaa2031_project.Index.Internal as InternalPage
use zlchen_dsaa2031_project.Index.Tree.{leaf, internal, Tree, ok, fetch, descend, child_for}
use zlchen_dsaa2031_project.Index.Tree.Search.{descend-child}

-- The ways down before and after a leaf, under its parent, has become two.
module _ (t t' : Tree) (other page_id new_id parent_id : ℕ) (p left right : Leaf) (q q' : Internal)
    (side : ℕ × Leaf) (at_parent : lookup parent_id t.nodes ≡ some (internal q))
    (at_page : lookup page_id t.nodes ≡ some (leaf p)) (at_new : lookup new_id t.nodes ≡ none)
    (nodes : (j : ℕ)
      → lookup j t'.nodes ≡ (
          if parent_id == j
          then some (internal q')
          else if new_id == j
          then some (leaf right)
          else if page_id == j
          then some (leaf left)
          else lookup j t.nodes))
    (at_side : lookup side.0 t'.nodes ≡ some (leaf side.1))
    (picked : InternalPage.lookup q' other
      ≡ (if InternalPage.lookup q other == page_id then side.0 else InternalPage.lookup q other))
    (only : (x : ℕ) (r : Internal)
      → lookup x t.nodes ≡ some (internal r)
      → InternalPage.lookup r other ≡ page_id
      → x ≡ parent_id) where
  abbrev redirected : ℕ × Leaf → ℕ × Leaf
  redirected reached = if reached.0 == page_id then side else reached

  at_leaf :
      (latched : List ℕ) (fuel : ℕ) (reached : ℕ × Leaf)
      → descend t (child_for other) latched page_id fuel ≡ ok reached
      → reached ≡ (page_id, p)
  unfolding descend fetch
  at_leaf latched zero reached way = ground arith
  at_leaf latched (suc fuel) reached way = ground (arith, at_page)

  side_apart : side.0 ≢ parent_id
  side_apart e = ground (arith, at_side, e, nodes parent_id)

  descend_side :
      (fuel : ℕ) → descend t' (child_for other) (parent_id ∷ []) side.0 (suc fuel) ≡ ok side
  unfolding descend fetch
  descend_side fuel = ground (arith, at_side, side_apart)

  below :
      (start fuel : ℕ) (reached : ℕ × Leaf)
      → start ≡ parent_id
      → descend t (child_for other) (start ∷ []) (InternalPage.lookup q other) fuel ≡ ok reached
      → (InternalPage.lookup q other ≢ page_id
          → descend t' (child_for other) (start ∷ []) (InternalPage.lookup q other) (suc fuel)
            ≡ ok (redirected reached))
      → descend t' (child_for other) (start ∷ []) (InternalPage.lookup q' other) (suc fuel)
        ≡ ok (redirected reached)
  below start fuel reached same way further =
      elim (ℕ_discrete (InternalPage.lookup q other) page_id) [
        | yes here ↦
            ap (λ id. descend t' (child_for other) (start ∷ []) id (suc fuel))
              (picked ∙ ground (arith, here))
            ∙ ap (λ id. descend t' (child_for other) (id ∷ []) side.0 (suc fuel)) same
            ∙ descend_side fuel
            ∙ ap ok (
                ground (
                  arith,
                  at_leaf (start ∷ []) fuel reached (
                      subst (λ id. descend t (child_for other) (start ∷ []) id fuel ≡ ok reached)
                        here way),
                ))
        | no away ↦
            ap (λ id. descend t' (child_for other) (start ∷ []) id (suc fuel))
              (picked ∙ ground (arith, away))
            ∙ further away
      ]

  pub descend-split :
      (latched : List ℕ) (start fuel : ℕ) (reached : ℕ × Leaf)
      → start ≢ page_id
      → descend t (child_for other) latched start fuel ≡ ok reached
      → descend t' (child_for other) latched start (suc fuel) ≡ ok (redirected reached)
  unfolding descend fetch
  descend-split latched start zero reached apart way = ground arith
  descend-split latched start (suc fuel) reached apart way =
      elim (Option-cases (lookup start t.nodes)) [
        | inl missing ↦ ground arith
        | inr (leaf r, e) ↦ ground (arith, nodes start, at_new, at_parent, e)
        | inr (internal r, e) ↦ elim (ℕ_discrete parent_id start) [
          | yes same ↦ elim (Bool-cases (contains start latched)) [
            | inl held ↦ ground arith
            | inr free ↦
                descend-child t' (child_for other) latched start (suc fuel) q'
                  (ground (arith, nodes start, same)) free
                ∙ below start fuel reached (sym same)
                    (sym (
                        descend-child t (child_for other) latched start fuel q
                          (ground (arith, at_parent, same)) free)
                      ∙ way)
                    (λ away.
                      descend-split (start ∷ []) (InternalPage.lookup q other) fuel reached away (
                        sym (
                          descend-child t (child_for other) latched start fuel q
                            (ground (arith, at_parent, same)) free)
                        ∙ way))
          ]
          | no elsewhere ↦ ground (
            arith,
            nodes start,
            at_new,
            e,
            elsewhere,
            apart,
            only start r e,
            descend-split (start ∷ []) (InternalPage.lookup r other) fuel reached,
          )
        ]
      ]
