-- ===== src/Execution/Sort/Order.antt =====
-- The comparison of a sort is a strict weak order, as `std::sort` requires:
-- src/execution/executors/sort_executor.cpp.
use zlchen_dsaa2031_project.Prelude.{
  ℕ, length, ◌⊎◌, ◌≡◌, refl, ◌∙◌, ap, some, Bool, true, false, not, ◌||◌, List, [], ◌∷◌, map,
  if◌then◌else◌, Bool-cases, inl, inr, arith,
}
use zlchen_dsaa2031_project.Types.{TypeId, Value, Floats, same_type}
use zlchen_dsaa2031_project.Types.Compare.{compare_less_than, int_less, holds}
use zlchen_dsaa2031_project.Rows.{Tuple, Schema}
use zlchen_dsaa2031_project.Rows.Expressions.{Expression, evaluate}
use zlchen_dsaa2031_project.Execution.Sort.{goes_first}

module _ {ℓ} {A : Type ℓ} (less : A → A → Bool) where
  -- The keys one after the other.
  unfoldable lexical : List Bool → List A → List A → Bool
  lexical (is_ascending ∷ marks) (v ∷ vs) (o ∷ os) =
      let later = lexical marks vs os in
      if less v o then is_ascending else if less o v then not is_ascending else later
  lexical _ _ _ = false

  lexical_asym :
      ((v o : A) → less v o ≡ true → less o v ≡ false)
      → (marks : List Bool) (vs os : List A) → lexical marks vs os ≡ true
      → lexical marks os vs ≡ false
  unfolding lexical
  lexical_asym asym [] vs os h = ground arith
  lexical_asym asym (m ∷ marks) [] os h = ground arith
  lexical_asym asym (m ∷ marks) (v ∷ vs) [] h = ground arith
  lexical_asym asym (m ∷ marks) (v ∷ vs) (o ∷ os) h =
      ground (arith, asym v o, asym o v, lexical_asym asym marks vs os)

  -- What goes first of two goes before a third, or the third before the other.
  lexical_split :
      ((v o : A) → less v o ≡ true → less o v ≡ false)
      → ((v o u : A) → less v o ≡ true → (less v u || less u o) ≡ true)
      → (marks : List Bool) (vs os us : List A) → length vs ≡ length marks
      → length os ≡ length marks
      → length us ≡ length marks
      → lexical marks vs os ≡ true
      → (lexical marks vs us || lexical marks us os) ≡ true
  unfolding lexical
  lexical_split asym split [] vs os us n n' n'' h = ground arith
  lexical_split asym split (m ∷ marks) (v ∷ vs) (o ∷ os) (u ∷ us) n n' n'' h = ground (
    arith,
    asym v o,
    asym o v,
    asym v u,
    asym u v,
    asym u o,
    asym o u,
    split v o u,
    split o v u,
    split v u o,
    split u v o,
    split u o v,
    split o u v,
    lexical_split asym split marks vs os us (omega arith) (omega arith) (omega arith),
  )
  lexical_split asym split (m ∷ marks) _ _ _ n n' n'' h = ground arith

-- The keys of a tuple are INTEGERs, with these words.
abbrev pub HasIntegers : Floats → Schema → List (Bool × Expression) → Tuple → List ℕ → Type 0
HasIntegers floats schema [] t [] = Unit
HasIntegers floats schema ((is_ascending, e) ∷ order_bys) t (w ∷ ws) =
    ((v : Value) × ((evaluate floats e t schema ≡ some v)
        × (same_type v.type_id TypeId.integer ≡ true)
        × (v.word ≡ w)))
    × HasIntegers floats schema order_bys t ws
HasIntegers floats schema _ t _ = true ≡ false

abbrev marks_of : List (Bool × Expression) → List Bool
marks_of order_bys = map (λ key. key.0) order_bys

pub integers_less :
    (floats : Floats) (v o : Value)
    → same_type v.type_id TypeId.integer ≡ true
    → same_type o.type_id TypeId.integer ≡ true
    → holds (compare_less_than floats v o) ≡ some (int_less v.word o.word)
unfolding compare_less_than
integers_less floats v o h k = elim (Bool-cases (int_less v.word o.word)) [
  | inl before ↦ ground arith
  | inr behind ↦ ground arith
]

distribute :
    (less greater m later : Bool)
    → (if less then some m else if greater then some (not m) else some later)
      ≡ some (if less then m else if greater then not m else later)
distribute true greater m later = refl
distribute false true m later = refl
distribute false false m later = refl

int_less_asym : (i j : ℕ) → int_less i j ≡ true → int_less j i ≡ false
int_less_asym i j h = ground arith

int_less_split : (i j k : ℕ) → int_less i j ≡ true → (int_less i k || int_less k j) ≡ true
int_less_split i j k h = ground arith

one_holds : (x y : Bool) → (x || y) ≡ true → (x ≡ true) ⊎ (y ≡ true)
one_holds true y h = inl refl
one_holds false true h = inr refl
one_holds false false h = ground arith

module _ (floats : Floats) (schema : Schema) where
  length-HasIntegers :
      (order_bys : List (Bool × Expression)) (t : Tuple) (ws : List ℕ)
      → HasIntegers floats schema order_bys t ws
      → length ws ≡ length (marks_of order_bys)
  length-HasIntegers [] t [] keys = refl
  length-HasIntegers [] t (w ∷ ws) keys = ground arith
  length-HasIntegers ((m, e) ∷ order_bys) t [] keys = ground arith
  length-HasIntegers ((m, e) ∷ order_bys) t (w ∷ ws) (one, keys) =
      ground (arith, length-HasIntegers order_bys t ws keys)

  goes_first-lexical :
      (order_bys : List (Bool × Expression)) (a b : Tuple) (ws us : List ℕ)
      → HasIntegers floats schema order_bys a ws
      → HasIntegers floats schema order_bys b us
      → goes_first floats schema order_bys a b ≡ some (lexical int_less (marks_of order_bys) ws us)
  unfolding goes_first lexical
  goes_first-lexical [] a b ws us keys keys' = refl
  goes_first-lexical ((m, e) ∷ order_bys) a b [] us keys keys' = ground arith
  goes_first-lexical ((m, e) ∷ order_bys) a b (w ∷ ws) [] keys keys' = ground arith
  goes_first-lexical ((m, e) ∷ order_bys) a b (w ∷ ws) (u ∷ us) ((v, (read, typed, same)), keys)
        ((o, (read', typed', same')), keys') =
      rw
        (
          read,
          read',
          integers_less floats v o typed typed',
          integers_less floats o v typed' typed,
          same,
          same',
          goes_first-lexical order_bys a b ws us keys keys',
        )
        (distribute (int_less w u) (int_less u w) m (lexical int_less (marks_of order_bys) ws us))

-- The comparison of the sort is a strict weak order, as `std::sort` requires, on tuples whose keys are
-- INTEGERs: if one goes before another, the other does not go before it, and every third goes behind
-- the one or before the other, ascending or descending in each key. It throws nothing there.
pub goes_first_weak_order :
    (floats : Floats) (schema : Schema) (order_bys : List (Bool × Expression)) (a b c : Tuple)
    (ws us vs : List ℕ)
    → HasIntegers floats schema order_bys a ws
    → HasIntegers floats schema order_bys b us
    → HasIntegers floats schema order_bys c vs
    → goes_first floats schema order_bys a b ≡ some true
    → (goes_first floats schema order_bys b a ≡ some false)
      × ((goes_first floats schema order_bys a c ≡ some true)
          ⊎ (goes_first floats schema order_bys c b ≡ some true))
goes_first_weak_order floats schema order_bys a b c ws us vs keys_a keys_b keys_c first = (
  goes_first-lexical floats schema order_bys b a us ws keys_b keys_a
      ∙ ap some (lexical_asym int_less int_less_asym (marks_of order_bys) ws us before),
  elim (one_holds (lexical int_less (marks_of order_bys) ws vs)
      (lexical int_less (marks_of order_bys) vs us)
      (lexical_split int_less int_less_asym int_less_split (marks_of order_bys) ws us vs
        (length-HasIntegers floats schema order_bys a ws keys_a)
        (length-HasIntegers floats schema order_bys b us keys_b)
        (length-HasIntegers floats schema order_bys c vs keys_c) before)) [
          | inl behind ↦
              inl (
                goes_first-lexical floats schema order_bys a c ws vs keys_a keys_c ∙ ap some behind)
          | inr ahead ↦
              inr
                (goes_first-lexical floats schema order_bys c b vs us keys_c keys_b ∙ ap some ahead)
        ],
)
  where
    before : lexical int_less (marks_of order_bys) ws us ≡ true
    before = ground (arith, goes_first-lexical floats schema order_bys a b ws us keys_a keys_b)
