-- ===== src/Optimizer/Joins.antt =====
-- The rule that makes a hash join of a nested loop join: src/optimizer/optimizer.cpp, with the two
-- executors, src/execution/executors/nested_loop_join_executor.cpp and hash_join_executor.cpp.
use zlchen_dsaa2031_project.Prelude.{
  ℕ, zero, suc, ◌<◌, ◌≡◌, refl, sym, subst, Option, some, Bool, true, false, List, [], ◌∷◌, ◌++◌,
  map, ◌==◌, ltb, length, get_elem?, get_or, All, if◌then◌else◌, decimal, decimal_injective,
  Bool-cases, inl, inr, arith,
}
use native.Mathlib.Decide.{ℕ_discrete}
use zlchen_dsaa2031_project.Types.{TypeId, Value, Floats, same_type, no_value}
use zlchen_dsaa2031_project.Types.Compare.{text_equal, compare_equals, holds, verdict}
use zlchen_dsaa2031_project.Types.Order.{text_equal-eq, text_equal_refl}
use zlchen_dsaa2031_project.Rows.{Tuple, Schema, value_or_invalid, get_value}
use zlchen_dsaa2031_project.Rows.Expressions.{
  Expression, column_value, comparison, evaluate, evaluate_join, equal,
}
use zlchen_dsaa2031_project.Execution.{Row, passes_join}
use zlchen_dsaa2031_project.Execution.NestedLoop.{JoinPlan}
use zlchen_dsaa2031_project.Execution.NestedLoop.Output.{emit, nested_loop}
use zlchen_dsaa2031_project.Execution.HashJoin.{HashPlan, key_text}
use zlchen_dsaa2031_project.Execution.HashJoin.Table.{left_keys, with_key}
use zlchen_dsaa2031_project.Execution.HashJoin.Output.{emit_bucket, hashed, hash_join}
use zlchen_dsaa2031_project.Execution.Joins.{
  pairs_of_left, pairs_of_right, left_first, right_first, join_all, SameRows, join_all-SameRows,
}
use zlchen_dsaa2031_project.Optimizer.{Plan, nested_loop_join, optimize_nested_loop_join}
use zlchen_dsaa2031_project.Optimizer.{hash_join as hash_join_plan}

-- A tuple that holds an INTEGER, not NULL, in a column.
abbrev pub HasKey : ℕ → Tuple → Type 0
HasKey col t =
    (ltb col (length t.values) ≡ true)
    × (same_type (value_or_invalid t col).type_id TypeId.integer ≡ true)
    × ((value_or_invalid t col).is_null ≡ false)
    × ((value_or_invalid t col).word < 4294967296)

abbrev pub key_col : Expression → ℕ
key_col (column_value tuple_idx col_idx ret_type) = col_idx
key_col _ = 0

abbrev pub key_word : ℕ → Tuple → ℕ
key_word col t = (value_or_invalid t col).word

abbrev same_key : ℕ → ℕ → Tuple → Tuple → Bool
same_key left_col right_col lt rt = key_word left_col lt == key_word right_col rt

get_elem?-get_or :
    (vs : List Value) (i : ℕ)
    → ltb i (length vs) ≡ true
    → get_elem? vs i ≡ some (get_or vs i no_value)
get_elem?-get_or [] i h = ground arith
get_elem?-get_or (v ∷ vs) zero h = refl
get_elem?-get_or (v ∷ vs) (suc i) h = get_elem?-get_or vs i (ground arith)

pub get_value_key :
    (t : Tuple) (schema : Schema) (col : ℕ)
    → HasKey col t
    → get_value t schema col ≡ some (value_or_invalid t col)
unfolding get_value
get_value_key t schema col (inside, typed, full, low) =
    ground (arith, get_elem?-get_or t.values col inside)

pub compare_equals_key :
    (floats : Floats) (v o : Value)
    → same_type v.type_id TypeId.integer ≡ true
    → same_type o.type_id TypeId.integer ≡ true
    → compare_equals floats v o ≡ verdict (v.word == o.word)
unfolding compare_equals
compare_equals_key floats v o h k = ground arith

pub holds-verdict : (b : Bool) → holds (verdict b) ≡ some b
holds-verdict true = refl
holds-verdict false = refl

text_equal-decimal :
    (i j : ℕ) → i < 4294967296 → j < 4294967296 → text_equal (decimal i) (decimal j) ≡ (i == j)
text_equal-decimal i j low low' = elim (ℕ_discrete i j) [
  | yes same ↦
      subst (λ k. text_equal (decimal i) (decimal k) ≡ (i == k)) same
        (ground (arith, text_equal_refl (decimal i)))
  | no other ↦ elim (Bool-cases (text_equal (decimal i) (decimal j))) [
    | inl h ↦
        ground (arith, decimal_injective i j low low' (text_equal-eq (decimal i) (decimal j) h))
    | inr h ↦ ground arith
  ]
]

-- An equality of a left column and a right one, in this order or the other.
abbrev pub key_predicate : Bool → ℕ → TypeId → ℕ → TypeId → Expression
key_predicate swapped i ti j tj =
    if swapped
    then comparison (column_value 1 j tj) (column_value 0 i ti) equal
    else comparison (column_value 0 i ti) (column_value 1 j tj) equal

abbrev pub nested_plan : Bool → ℕ → TypeId → ℕ → TypeId → Schema → Schema → List Row → JoinPlan
nested_plan swapped i ti j tj ls rs rights = record {
  predicate = some (key_predicate swapped i ti j tj);
  left_schema = ls;
  right_schema = rs;
  right_rows = rights;
}

abbrev pub hash_plan : ℕ → TypeId → ℕ → TypeId → Schema → Schema → HashPlan
hash_plan i ti j tj ls rs = record {
  left_key_expr = column_value 0 i ti;
  right_key_expr = column_value 0 j tj;
  left_schema = ls;
  right_schema = rs;
}

abbrev pub tuples_of : List Row → List Tuple
tuples_of rows = map (λ row. row.0) rows

subst2_rows : {x x' y y' : Option (List Tuple)} → x ≡ x' → y ≡ y' → SameRows x y → SameRows x' y'
subst2_rows {x} {x'} {y} {y'} p q same =
    subst (λ z. SameRows x' z) q (subst (λ z. SameRows z y) p same)

module _ (floats : Floats) (swapped : Bool) (i : ℕ) (ti : TypeId) (j : ℕ) (tj : TypeId)
    (ls rs : Schema) where
  selects :
      (lt rt : Tuple)
      → HasKey i lt
      → HasKey j rt
      → passes_join floats (some (key_predicate swapped i ti j tj)) lt ls rt rs
        ≡ some (same_key i j lt rt)
  unfolding passes_join evaluate_join
  selects lt rt l r = by_order swapped
    where
      by_order :
          (order : Bool)
          → passes_join floats (some (key_predicate order i ti j tj)) lt ls rt rs
            ≡ some (same_key i j lt rt)
      by_order true = ground (
        arith,
        get_value_key lt ls i l,
        get_value_key rt rs j r,
        compare_equals_key floats (value_or_invalid rt j) (value_or_invalid lt i),
        holds-verdict (key_word j rt == key_word i lt),
      )
      by_order false = ground (
        arith,
        get_value_key lt ls i l,
        get_value_key rt rs j r,
        compare_equals_key floats (value_or_invalid lt i) (value_or_invalid rt j),
        holds-verdict (key_word i lt == key_word j rt),
      )

  keyed_text :
      (t : Tuple) (schema : Schema) (col : ℕ) (type : TypeId)
      → HasKey col t
      → key_text floats (column_value 0 col type) t schema ≡ some (decimal (key_word col t))
  unfolding evaluate
  keyed_text t schema col type h = ground (arith, get_value_key t schema col h)

  -- The nested loop, by the pairs.
  emit-join_all :
      (rights all_rights : List Row) (lt : Tuple) (pairs : List (Tuple × Tuple))
      → HasKey i lt
      → All (λ row. HasKey j row.0) rights
      → emit floats
          (nested_plan swapped i ti j tj ls rs all_rights)
          lt
          rights
          (join_all ls rs pairs)
        ≡ join_all ls rs (pairs_of_left (same_key i j) lt (tuples_of rights) ++ pairs)
  unfolding emit join_all pairs_of_left
  emit-join_all [] all_rights lt pairs l r = refl
  emit-join_all (row ∷ rights) all_rights lt pairs l (one, r) =
      ground (arith, selects lt row.0 l one, emit-join_all rights all_rights lt pairs l r)

  nested_loop-join_all :
      (lefts rights : List Row)
      → All (λ row. HasKey i row.0) lefts
      → All (λ row. HasKey j row.0) rights
      → nested_loop floats (nested_plan swapped i ti j tj ls rs rights) lefts
        ≡ join_all ls rs (left_first (same_key i j) (tuples_of lefts) (tuples_of rights))
  unfolding nested_loop left_first join_all
  nested_loop-join_all [] rights l r = refl
  nested_loop-join_all (row ∷ lefts) rights (one, l) r = rw (
    nested_loop-join_all lefts rights l r,
    emit-join_all rights rights row.0
        (left_first (same_key i j) (tuples_of lefts) (tuples_of rights)) one r,
  )

  -- The hash join, by the pairs.
  abbrev keyed : List Row → List (List ℕ × Tuple)
  keyed rows = map (λ row. (decimal (key_word i row.0), row.0)) rows

  left_keys-keyed :
      (lefts : List Row)
      → All (λ row. HasKey i row.0) lefts
      → left_keys floats (hash_plan i ti j tj ls rs) lefts ≡ some (keyed lefts)
  unfolding left_keys
  left_keys-keyed [] l = refl
  left_keys-keyed (row ∷ lefts) (one, l) =
      rw (keyed_text row.0 ls i ti one, left_keys-keyed lefts l)

  emit_bucket-join_all :
      (lefts : List Row) (rt : Tuple) (pairs : List (Tuple × Tuple))
      → All (λ row. HasKey i row.0) lefts
      → HasKey j rt
      → emit_bucket
          (hash_plan i ti j tj ls rs)
          rt
          (with_key (decimal (key_word j rt)) (keyed lefts))
          (join_all ls rs pairs)
        ≡ join_all ls rs (pairs_of_right (same_key i j) (tuples_of lefts) rt ++ pairs)
  unfolding emit_bucket join_all pairs_of_right with_key
  emit_bucket-join_all [] rt pairs l r = refl
  emit_bucket-join_all (row ∷ lefts) rt pairs (one, l) r = ground (
    arith,
    text_equal-decimal (key_word i row.0) (key_word j rt) one.3 r.3,
    emit_bucket-join_all lefts rt pairs l r,
  )

  hashed-join_all :
      (lefts rights : List Row)
      → All (λ row. HasKey i row.0) lefts
      → All (λ row. HasKey j row.0) rights
      → hashed floats (hash_plan i ti j tj ls rs) (keyed lefts) rights
        ≡ join_all ls rs (right_first (same_key i j) (tuples_of lefts) (tuples_of rights))
  unfolding hashed right_first join_all
  hashed-join_all lefts [] l r = refl
  hashed-join_all lefts (row ∷ rights) l (one, r) = rw (
    keyed_text row.0 rs j tj one,
    hashed-join_all lefts rights l r,
    emit_bucket-join_all lefts row.0
        (right_first (same_key i j) (tuples_of lefts) (tuples_of rights)) l one,
  )

  hash_join-join_all :
      (lefts rights : List Row)
      → All (λ row. HasKey i row.0) lefts
      → All (λ row. HasKey j row.0) rights
      → hash_join floats (hash_plan i ti j tj ls rs) lefts rights
        ≡ join_all ls rs (right_first (same_key i j) (tuples_of lefts) (tuples_of rights))
  unfolding hash_join
  hash_join-join_all lefts rights l r =
      rw (left_keys-keyed lefts l, hashed-join_all lefts rights l r)

-- The rule makes a hash join of a nested loop join on an equality of a left column and a right one,
-- written in this order or the other, and keeps the query: where the columns hold INTEGERs that are
-- not NULL, both joins throw, or both give the same tuples up to their order.
pub optimize_nested_loop_join-SameRows :
    (floats : Floats) (swapped : Bool) (i : ℕ) (ti : TypeId) (j : ℕ) (tj : TypeId)
    (schema ls rs : Schema) (left right : Plan) (lefts rights : List Row)
    → All (λ row. HasKey i row.0) lefts
    → All (λ row. HasKey j row.0) rights
    → (optimize_nested_loop_join
          (nested_loop_join schema left right (some (key_predicate swapped i ti j tj)))
        ≡ hash_join_plan schema left right (column_value 0 i ti) (column_value 0 j tj))
      × SameRows
          (nested_loop floats (nested_plan swapped i ti j tj ls rs rights) lefts)
          (hash_join floats (hash_plan i ti j tj ls rs) lefts rights)
unfolding optimize_nested_loop_join
optimize_nested_loop_join-SameRows floats swapped i ti j tj schema ls rs left right lefts rights l
      r =
    (by_order swapped, same)
  where
    by_order :
        (order : Bool)
        → optimize_nested_loop_join
            (nested_loop_join schema left right (some (key_predicate order i ti j tj)))
          ≡ hash_join_plan schema left right (column_value 0 i ti) (column_value 0 j tj)
    by_order true = refl
    by_order false = refl

    same :
        SameRows
          (nested_loop floats (nested_plan swapped i ti j tj ls rs rights) lefts)
          (hash_join floats (hash_plan i ti j tj ls rs) lefts rights)
    same =
        subst2_rows (sym (nested_loop-join_all floats swapped i ti j tj ls rs lefts rights l r))
          (sym (hash_join-join_all floats swapped i ti j tj ls rs lefts rights l r))
          (join_all-SameRows ls rs (same_key i j) (tuples_of lefts) (tuples_of rights))
