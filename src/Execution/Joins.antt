-- ===== src/Execution/Joins.antt =====
-- The two orders in which a join may go through the pairs of its rows, and the tuples of the pairs:
-- src/execution/executors/nested_loop_join_executor.cpp and hash_join_executor.cpp.
use mathlib.Core.List.{Permᴰ, Perm}
use mathlib.Core.List.Permᴰ
use zlchen_dsaa2031_project.Prelude.{
  ◌≡◌, refl, sym, subst, Option, none, some, Bool, true, false, List, [], ◌∷◌, ◌++◌, if◌then◌else◌,
  arith,
}
use zlchen_dsaa2031_project.Rows.{Tuple, Schema}
use zlchen_dsaa2031_project.Execution.{joined, follow}

module _ {ℓ κ} {A : Type ℓ} {B : Type κ} (select : A → B → Bool) where
  -- The pairs of one left element, and of one right element.
  unfoldable pub pairs_of_left : A → List B → List (A × B)
  pairs_of_left a [] = []
  pairs_of_left a (b ∷ rs) = if select a b then (a, b) ∷ pairs_of_left a rs else pairs_of_left a rs

  unfoldable pub pairs_of_right : List A → B → List (A × B)
  pairs_of_right [] b = []
  pairs_of_right (a ∷ ls) b =
      if select a b then (a, b) ∷ pairs_of_right ls b else pairs_of_right ls b

  unfoldable pub left_first : List A → List B → List (A × B)
  left_first [] rs = []
  left_first (a ∷ ls) rs = pairs_of_left a rs ++ left_first ls rs

  unfoldable pub right_first : List A → List B → List (A × B)
  right_first ls [] = []
  right_first ls (b ∷ rs) = pairs_of_right ls b ++ right_first ls rs

module _ {ℓ} {A : Type ℓ} where
  exchange : (xs ys zs : List A) → Permᴰ (xs ++ (ys ++ zs)) (ys ++ (xs ++ zs))
  exchange [] ys zs = Permᴰ.refl (ys ++ zs)
  exchange (x ∷ xs) ys zs =
      Permᴰ.trans (Permᴰ.cons refl (exchange xs ys zs)) (Permᴰ.symm (Permᴰ.middle x ys (xs ++ zs)))

module _ {ℓ κ} {A : Type ℓ} {B : Type κ} (select : A → B → Bool) where
  right_first-nil : (rs : List B) → right_first select [] rs ≡ []
  unfolding right_first pairs_of_right
  right_first-nil [] = refl
  right_first-nil (b ∷ rs) = right_first-nil rs

  right_first-cons :
      (a : A) (ls : List A) (rs : List B)
      → Permᴰ
          (pairs_of_left select a rs ++ right_first select ls rs)
          (right_first select (a ∷ ls) rs)
  unfolding right_first pairs_of_right pairs_of_left
  right_first-cons a ls [] = Permᴰ.nil
  right_first-cons a ls (b ∷ rs) = by_choice (select a b) (
      Permᴰ.trans
        (exchange (pairs_of_left select a rs) (pairs_of_right select ls b)
          (right_first select ls rs))
        (Permᴰ.append_left (pairs_of_right select ls b) (right_first-cons a ls rs)))
    where
      by_choice :
          (chosen : Bool)
          → Permᴰ
              (pairs_of_left select a rs
                ++ (pairs_of_right select ls b ++ right_first select ls rs))
              (pairs_of_right select ls b ++ right_first select (a ∷ ls) rs)
          → Permᴰ
              ((if chosen then (a, b) ∷ pairs_of_left select a rs else pairs_of_left select a rs)
                ++ (pairs_of_right select ls b ++ right_first select ls rs))
              ((if chosen then (a, b) ∷ pairs_of_right select ls b else pairs_of_right select ls b)
                ++ right_first select (a ∷ ls) rs)
      by_choice true others = Permᴰ.cons refl others
      by_choice false others = others

  -- The two orders give the same pairs.
  pub left_first-right_first :
      (ls : List A) (rs : List B) → Permᴰ (left_first select ls rs) (right_first select ls rs)
  unfolding left_first
  left_first-right_first [] rs =
      subst (λ pairs. Permᴰ [] pairs) (sym (right_first-nil rs)) Permᴰ.nil
  left_first-right_first (a ∷ ls) rs =
      Permᴰ.trans (Permᴰ.append_left (pairs_of_left select a rs) (left_first-right_first ls rs))
        (right_first-cons a ls rs)

-- The tuples of the pairs that a join selects.
unfoldable pub join_all : Schema → Schema → List (Tuple × Tuple) → Option (List Tuple)
join_all left_schema right_schema [] = some []
join_all left_schema right_schema (pair ∷ pairs) =
    follow (joined left_schema right_schema pair.0 pair.1) (join_all left_schema right_schema pairs)

-- Both throw, or both give the same tuples in some order.
abbrev pub SameRows : Option (List Tuple) → Option (List Tuple) → Type 0
SameRows none none = Unit
SameRows (some ts) (some us) = Perm ts us
SameRows _ _ = true ≡ false

SameRowsᴰ : Option (List Tuple) → Option (List Tuple) → Type 0
SameRowsᴰ none none = Unit
SameRowsᴰ (some ts) (some us) = Permᴰ ts us
SameRowsᴰ _ _ = true ≡ false

same_trans : (x y z : Option (List Tuple)) → SameRowsᴰ x y → SameRowsᴰ y z → SameRowsᴰ x z
unfolding SameRowsᴰ
same_trans none none none h k = tt
same_trans none none (some us) h k = k
same_trans none (some ts) z h k = ground arith
same_trans (some ts) none z h k = ground arith
same_trans (some ts) (some us) none h k = k
same_trans (some ts) (some us) (some vs) h k = Permᴰ.trans h k

follow_same :
    (first : Option Tuple) (x y : Option (List Tuple))
    → SameRowsᴰ x y
    → SameRowsᴰ (follow first x) (follow first y)
unfolding SameRowsᴰ
follow_same none x y h = tt
follow_same (some t) none none h = tt
follow_same (some t) none (some us) h = h
follow_same (some t) (some ts) none h = h
follow_same (some t) (some ts) (some us) h = Permᴰ.cons refl h

follow_swap :
    (first second : Option Tuple) (x : Option (List Tuple))
    → SameRowsᴰ (follow first (follow second x)) (follow second (follow first x))
unfolding SameRowsᴰ
follow_swap none none x = tt
follow_swap none (some u) none = tt
follow_swap none (some u) (some ts) = tt
follow_swap (some t) none none = tt
follow_swap (some t) none (some ts) = tt
follow_swap (some t) (some u) none = tt
follow_swap (some t) (some u) (some ts) = Permᴰ.swap refl refl

same_refl : (x : Option (List Tuple)) → SameRowsᴰ x x
unfolding SameRowsᴰ
same_refl none = tt
same_refl (some ts) = Permᴰ.refl ts

join_all-same :
    (left_schema right_schema : Schema) (ps qs : List (Tuple × Tuple))
    → Permᴰ ps qs
    → SameRowsᴰ (join_all left_schema right_schema ps) (join_all left_schema right_schema qs)
unfolding join_all
join_all-same left_schema right_schema ps qs Permᴰ.nil = same_refl (some [])
join_all-same left_schema right_schema (p ∷ ps) (q ∷ qs) (Permᴰ.cons e d) =
    subst
      (λ pair.
        SameRowsᴰ (join_all left_schema right_schema (p ∷ ps))
          (join_all left_schema right_schema (pair ∷ qs)))
      e
      (follow_same (joined left_schema right_schema p.0 p.1) (join_all left_schema right_schema ps)
        (join_all left_schema right_schema qs) (join_all-same left_schema right_schema ps qs d))
join_all-same left_schema right_schema (p ∷ q ∷ ps) (q' ∷ p' ∷ qs) (Permᴰ.swap e e') =
    subst
      (λ pair.
        SameRowsᴰ (join_all left_schema right_schema (p ∷ q ∷ ps))
          (join_all left_schema right_schema (q' ∷ pair ∷ ps)))
      e
      (subst
        (λ pair.
          SameRowsᴰ (join_all left_schema right_schema (p ∷ q ∷ ps))
            (join_all left_schema right_schema (pair ∷ p ∷ ps)))
        e'
        (follow_swap (joined left_schema right_schema p.0 p.1)
          (joined left_schema right_schema q.0 q.1) (join_all left_schema right_schema ps)))
join_all-same left_schema right_schema ps qs (Permᴰ.trans {l₂ = rs} d d') =
    same_trans (join_all left_schema right_schema ps) (join_all left_schema right_schema rs)
      (join_all left_schema right_schema qs) (join_all-same left_schema right_schema ps rs d)
      (join_all-same left_schema right_schema rs qs d')

forget : (x y : Option (List Tuple)) → SameRowsᴰ x y → SameRows x y
unfolding SameRowsᴰ
forget none none h = tt
forget none (some us) h = h
forget (some ts) none h = h
forget (some ts) (some us) h = ∣ h ∣₁

pub join_all-SameRows :
    (left_schema right_schema : Schema) (select : Tuple → Tuple → Bool) (ls rs : List Tuple)
    → SameRows
        (join_all left_schema right_schema (left_first select ls rs))
        (join_all left_schema right_schema (right_first select ls rs))
join_all-SameRows left_schema right_schema select ls rs =
    forget (join_all left_schema right_schema (left_first select ls rs))
      (join_all left_schema right_schema (right_first select ls rs))
      (join_all-same left_schema right_schema (left_first select ls rs) (right_first select ls rs)
        (left_first-right_first select ls rs))
