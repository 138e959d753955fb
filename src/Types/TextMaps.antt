-- ===== src/Types/TextMaps.antt =====
-- `std::unordered_map` with a `std::string` for its key: an association list, in the order in which
-- the map is iterated; the standard leaves it open.
use zlchen_dsaa2031_project.Prelude.{
  ℕ, ◌≡◌, refl, Option, none, some, true, List, [], ◌∷◌, ◌++◌, if◌then◌else◌, arith,
}
use zlchen_dsaa2031_project.Types.Compare.{text_equal}
use zlchen_dsaa2031_project.Types.Order.{text_equal-eq}

same_text :
    (k key other : List ℕ) → text_equal k key ≡ true → text_equal k other ≡ text_equal key other
same_text k key other h = rw (text_equal-eq k key h)

same_text_right :
    (k key other : List ℕ) → text_equal key other ≡ true → text_equal k key ≡ text_equal k other
same_text_right k key other h = rw (text_equal-eq key other h)

module _ {ℓ} {V : Type ℓ} where
  unfoldable pub find_text : List ℕ → List (List ℕ × V) → Option V
  find_text key [] = none
  find_text key ((k, v) ∷ m) = if text_equal k key then some v else find_text key m

  unfoldable pub put_text : List ℕ → V → List (List ℕ × V) → List (List ℕ × V)
  put_text key val [] = (key, val) ∷ []
  put_text key val ((k, v) ∷ m) =
      if text_equal k key then (key, val) ∷ m else (k, v) ∷ put_text key val m

  unfoldable pub remove_text : List ℕ → List (List ℕ × V) → List (List ℕ × V)
  remove_text key [] = []
  remove_text key ((k, v) ∷ m) =
      if text_equal k key then remove_text key m else (k, v) ∷ remove_text key m

  pub find_text-put_text :
      (key other : List ℕ) (val : V) (m : List (List ℕ × V))
      → find_text other (put_text key val m)
        ≡ (if text_equal key other then some val else find_text other m)
  unfolding find_text put_text
  find_text-put_text key other val [] = refl
  find_text-put_text key other val ((k, v) ∷ m) = ground (
    arith,
    same_text k key other,
    same_text_right k key other,
    find_text-put_text key other val m,
  )

  pub find_text-remove_text :
      (key other : List ℕ) (m : List (List ℕ × V))
      → find_text other (remove_text key m)
        ≡ (if text_equal key other then none else find_text other m)
  unfolding find_text remove_text
  find_text-remove_text key other [] = ground arith
  find_text-remove_text key other ((k, v) ∷ m) =
      ground (
        arith,
        same_text k key other,
        same_text_right k key other,
        find_text-remove_text key other m,
      )

-- `m[key].push_back(item)`
module _ {ℓ} {V : Type ℓ} where
  abbrev pub or_empty : Option (List V) → List V
  or_empty none = []
  or_empty (some vs) = vs

  abbrev pub push_text : List ℕ → V → List (List ℕ × List V) → List (List ℕ × List V)
  push_text key item m = put_text key (or_empty (find_text key m) ++ item ∷ []) m
