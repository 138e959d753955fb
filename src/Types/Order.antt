-- ===== src/Types/Order.antt =====
-- The order of texts and of `int32_t`: src/type/value.cpp.
use zlchen_dsaa2031_project.Prelude.{
  ℕ, ◌<◌, ◌≡◌, refl, Bool, true, not, ◌&&◌, List, [], ◌∷◌, ◌==◌, arith, if◌then◌else◌,
}
use zlchen_dsaa2031_project.Types.Compare.{text_equal, text_less, int_less}

-- One of the three holds, and no two.
abbrev pub one_of : Bool → Bool → Bool → Bool
one_of less equal greater =
    if less then not equal && not greater else if equal then not greater else greater

pub text_one_of : (s t : List ℕ) → one_of (text_less s t) (text_equal s t) (text_less t s) ≡ true
unfolding text_less text_equal
text_one_of [] [] = refl
text_one_of [] (y ∷ ys) = refl
text_one_of (x ∷ xs) [] = refl
text_one_of (x ∷ xs) (y ∷ ys) = ground (arith, text_one_of xs ys)

pub text_less_trans :
    (s t u : List ℕ) → text_less s t ≡ true → text_less t u ≡ true → text_less s u ≡ true
unfolding text_less
text_less_trans [] [] u h k = ground arith
text_less_trans (x ∷ xs) [] u h k = ground arith
text_less_trans [] (y ∷ ys) [] h k = ground arith
text_less_trans [] (y ∷ ys) (z ∷ zs) h k = refl
text_less_trans (x ∷ xs) (y ∷ ys) [] h k = ground arith
text_less_trans (x ∷ xs) (y ∷ ys) (z ∷ zs) h k = ground (arith, text_less_trans xs ys zs)

pub text_equal-eq : (s t : List ℕ) → text_equal s t ≡ true → s ≡ t
unfolding text_equal
text_equal-eq [] [] h = refl
text_equal-eq [] (y ∷ ys) h = ground arith
text_equal-eq (x ∷ xs) [] h = ground arith
text_equal-eq (x ∷ xs) (y ∷ ys) h = ground (arith, text_equal-eq xs ys)

pub text_equal_refl : (s : List ℕ) → text_equal s s ≡ true
unfolding text_equal
text_equal_refl [] = refl
text_equal_refl (x ∷ xs) = ground (arith, text_equal_refl xs)

pub int_one_of :
    (i j : ℕ)
    → i < 4294967296
    → j < 4294967296
    → one_of (int_less i j) (i == j) (int_less j i) ≡ true
int_one_of i j low low' = ground arith
