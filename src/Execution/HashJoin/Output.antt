-- ===== src/Execution/HashJoin/Output.antt =====
-- The whole output of a hash join: src/execution/executors/hash_join_executor.cpp.
use zlchen_dsaa2031_project.Prelude.{
  ℕ, zero, suc, ◌+◌, ◌<◌, ◌≤◌, ◌≡◌, refl, sym, subst, ◌∙◌, ◌⊎◌, inl, inr, Option, none, some, List,
  [], ◌∷◌, length, drop, get_elem?, ◌>>=◌, Option-cases, arith,
}
use zlchen_dsaa2031_project.Types.{Floats}
use zlchen_dsaa2031_project.Types.TextMaps.{find_text, or_empty}
use zlchen_dsaa2031_project.Rows.{Tuple}
use zlchen_dsaa2031_project.Execution.{Row, no_tuple, joined, follow}
use zlchen_dsaa2031_project.Execution.HashJoin.{
  HashPlan, HashJoin, key_text, init, next, drain, under_cursor, with_bucket,
}
use zlchen_dsaa2031_project.Execution.HashJoin.Table.{
  left_keys, with_key, push_all, build-push_all, find_text-push_all,
}

-- The definition of the join: for each right row, in order, the tuples that the left ones of the
-- same key make with it, in order; then what follows.
unfoldable pub emit_bucket :
    HashPlan → Tuple → List Tuple → Option (List Tuple) → Option (List Tuple)
emit_bucket plan right [] following = following
emit_bucket plan right (left ∷ lefts) following =
    follow (joined plan.left_schema plan.right_schema left right)
      (emit_bucket plan right lefts following)

unfoldable pub hashed : Floats → HashPlan → List (List ℕ × Tuple) → List Row → Option (List Tuple)
hashed floats plan keyed [] = some []
hashed floats plan keyed (row ∷ rows) =
    key_text floats plan.right_key_expr row.0 plan.right_schema >>= λ key.
    emit_bucket plan row.0 (with_key key keyed) (hashed floats plan keyed rows)

unfoldable pub hash_join : Floats → HashPlan → List Row → List Row → Option (List Tuple)
hash_join floats plan left_rows right_rows =
    left_keys floats plan left_rows >>= λ keyed. hashed floats plan keyed right_rows

-- What the bucket has still to give.
abbrev bucket_rest : Option (List Tuple) → ℕ → List Tuple
bucket_rest none cursor = []
bucket_rest (some bucket) cursor = drop cursor bucket

drop-cursor :
    (bucket : List Tuple) (cursor : ℕ)
    → drop cursor bucket
      ≡ elim (get_elem? bucket cursor) [ none ↦ [] | some left ↦ left ∷ drop (suc cursor) bucket ]
drop-cursor [] zero = refl
drop-cursor [] (suc cursor) = refl
drop-cursor (left ∷ bucket) zero = refl
drop-cursor (left ∷ bucket) (suc cursor) = drop-cursor bucket cursor

bucket_rest_lem :
    (bucket : Option (List Tuple)) (cursor : ℕ)
    → bucket_rest bucket cursor ≡ elim (under_cursor bucket cursor) [
      | none ↦ []
      | some left ↦ left ∷ bucket_rest bucket (cursor + 1)
    ]
bucket_rest_lem none cursor = refl
bucket_rest_lem (some bucket) cursor = ground (arith, drop-cursor bucket cursor)

length-with_key :
    (key : List ℕ) (keyed : List (List ℕ × Tuple)) → length (with_key key keyed) ≤ length keyed
unfolding with_key
length-with_key key [] = ground arith
length-with_key key ((k, t) ∷ keyed) = ground (arith, length-with_key key keyed)

unfoldable pub hash_rounds : ℕ → List Row → ℕ
hash_rounds lefts [] = 1
hash_rounds lefts (row ∷ rows) = suc (lefts + hash_rounds lefts rows)

hash_rounds_positive : (lefts : ℕ) (rows : List Row) → 0 < hash_rounds lefts rows
unfolding hash_rounds
hash_rounds_positive lefts [] = omega arith
hash_rounds_positive lefts (row ∷ rows) = omega arith

module _ (floats : Floats) (plan : HashPlan) (keyed : List (List ℕ × Tuple)) where
  output : HashJoin → Option (List Tuple)
  output s =
      emit_bucket plan s.right_tuple (bucket_rest s.current_bucket s.bucket_cursor)
        (hashed floats plan keyed s.right_executor)

  measure : HashJoin → ℕ
  measure s =
      length (bucket_rest s.current_bucket s.bucket_cursor)
      + hash_rounds (length keyed) s.right_executor

  -- What a call of `Next` may do, in a state whose table is that of the left rows.
  Served : ℕ → HashJoin → Type 0
  Served fuel s =
      ((next floats plan fuel s ≡ none) × (output s ≡ none))
      ⊎ ((s' : HashJoin) × ((next floats plan fuel s ≡ some (none, s')) × (output s ≡ some [])))
      ⊎ ((t : Tuple) × (s' : HashJoin) × ((next floats plan fuel s ≡ some (some t, s'))
            × (measure s' < measure s)
            × (s'.hash_table ≡ s.hash_table)
            × (output s ≡ (output s' >>= λ ts. some (t ∷ ts)))))

  Filled : List (List ℕ × List Tuple) → Type 0
  Filled table = (key : List ℕ) → or_empty (find_text key table) ≡ with_key key keyed

  transfer :
      (fuel fuel' : ℕ) (s s' : HashJoin)
      → next floats plan fuel s ≡ next floats plan fuel' s'
      → output s ≡ output s'
      → measure s' ≤ measure s
      → s'.hash_table ≡ s.hash_table
      → Served fuel' s'
      → Served fuel s
  unfolding Served
  transfer fuel fuel' s s' same_next same_output less table (inl (h, k)) =
      inl (same_next ∙ h, same_output ∙ k)
  transfer fuel fuel' s s' same_next same_output less table (inr (inl (r, (h, k)))) =
      inr (inl (r, (same_next ∙ h, same_output ∙ k)))
  transfer fuel fuel' s s' same_next same_output less table (inr (inr (t, r, (h, m, kept, k)))) =
      inr (inr (t, r, (same_next ∙ h, omega arith, kept ∙ table, same_output ∙ k)))

  -- The state after a right row whose key has been looked up.
  with_bucket-rest :
      (s : HashJoin) (row : Row) (rows : List Row) (found : Option (List Tuple))
      → (bucket_rest
            (with_bucket s row rows found).current_bucket
            (with_bucket s row rows found).bucket_cursor
          ≡ or_empty found)
        × ((with_bucket s row rows found).right_executor ≡ rows)
        × ((with_bucket s row rows found).right_tuple ≡ row.0)
        × ((with_bucket s row rows found).hash_table ≡ s.hash_table)
  with_bucket-rest s row rows none = (refl, refl, refl, refl)
  with_bucket-rest s row rows (some bucket) = (refl, refl, refl, refl)

  -- The measure after a right row, with its bucket, is below the one before.
  smaller :
      (s s' : HashJoin) (row : Row) (rows : List Row) (found : Option (List Tuple)) (key : List ℕ)
      → bucket_rest s'.current_bucket s'.bucket_cursor ≡ or_empty found
      → s'.right_executor ≡ rows
      → or_empty found ≡ with_key key keyed
      → measure s' < measure (record s { right_executor = row ∷ rows })
  unfolding measure hash_rounds
  smaller s s' row rows found key rest rights filled = ground (arith, length-with_key key keyed)

  -- A round in which the bucket is at its end.
  round_at_end :
      (fuel : ℕ) (s : HashJoin) (rights : List Row)
      → ((s' : HashJoin) → Filled s'.hash_table → measure s' ≤ fuel → Served fuel s')
      → Filled s.hash_table
      → under_cursor s.current_bucket s.bucket_cursor ≡ none
      → measure (record s { right_executor = rights }) ≤ suc fuel
      → Served (suc fuel) (record s { right_executor = rights })
  unfolding measure next output Served hashed hash_rounds emit_bucket Filled
  round_at_end fuel s [] again filled ends low = inr (
      inl (
        record s { right_executor = [] },
        (ground arith, ground (arith, bucket_rest_lem s.current_bucket s.bucket_cursor)),
      ))
  round_at_end fuel s (row ∷ rows) again filled ends low =
      elim (Option-cases (key_text floats plan.right_key_expr row.0 plan.right_schema)) [
        | inl throws ↦
            inl (ground arith, ground (arith, bucket_rest_lem s.current_bucket s.bucket_cursor))
        | inr (key, found) ↦
            let after = with_bucket s row rows (find_text key s.hash_table) in
            let facts = with_bucket-rest s row rows (find_text key s.hash_table) in
            transfer (suc fuel) fuel (record s { right_executor = row ∷ rows }) after (ground arith)
              (ground (
                arith,
                facts.0,
                facts.1,
                facts.2,
                filled key,
                bucket_rest_lem s.current_bucket s.bucket_cursor,
              ))
              (omega (
                arith,
                smaller s after row rows (find_text key s.hash_table) key facts.0 facts.1
                    (filled key),
              ))
              facts.3
              (again after (subst (λ table. Filled table) (sym facts.3) filled) (
                omega (
                  arith,
                  smaller s after row rows (find_text key s.hash_table) key facts.0 facts.1
                      (filled key),
                )))
      ]

  served : (fuel : ℕ) (s : HashJoin) → Filled s.hash_table → measure s ≤ fuel → Served fuel s
  unfolding measure next output Served emit_bucket
  served zero s filled low = ground (arith, hash_rounds_positive (length keyed) s.right_executor)
  served (suc fuel) s filled low =
      elim (Option-cases (under_cursor s.current_bucket s.bucket_cursor)) [
        | inr (left, found) ↦
            elim (Option-cases (joined plan.left_schema plan.right_schema left s.right_tuple)) [
              | inl throws ↦ inl (ground arith, ground (arith, unrolled left found))
              | inr (t, made) ↦ inr (
                  inr (
                    t,
                    record s { bucket_cursor = s.bucket_cursor + 1 },
                    (
                      ground arith,
                      ground (arith, unrolled left found),
                      refl,
                      ground (arith, unrolled left found),
                    ),
                  ))
            ]
        | inl ends ↦ round_at_end fuel s s.right_executor (served fuel) filled ends low
      ]
    where
      unrolled :
          (left : Tuple)
          → under_cursor s.current_bucket s.bucket_cursor ≡ some left
          → bucket_rest s.current_bucket s.bucket_cursor
            ≡ left ∷ bucket_rest s.current_bucket (s.bucket_cursor + 1)
      unrolled left found = ground (arith, bucket_rest_lem s.current_bucket s.bucket_cursor)

  drain-output :
      (fuel calls : ℕ) (s : HashJoin)
      → Filled s.hash_table
      → measure s ≤ fuel
      → measure s ≤ calls
      → drain floats plan fuel calls s ≡ output s
  unfolding drain Served measure
  drain-output fuel zero s filled low short =
      ground (arith, hash_rounds_positive (length keyed) s.right_executor)
  drain-output fuel (suc calls) s filled low short = elim (served fuel s filled low) [
    | inl (throws, nothing) ↦ ground arith
    | inr (inl (s', (ends, nothing))) ↦ ground arith
    | inr (inr (t, s', (given, less, kept, more))) ↦ ground (
      arith,
      drain-output fuel calls s' (subst (λ table. Filled table) (sym kept) filled) (omega arith)
          (omega arith),
    )
  ]

length-left_keys :
    (floats : Floats) (plan : HashPlan) (rows : List Row) (keyed : List (List ℕ × Tuple))
    → left_keys floats plan rows ≡ some keyed
    → length keyed ≡ length rows
unfolding left_keys
length-left_keys floats plan [] keyed found = ground arith
length-left_keys floats plan (row ∷ rows) keyed found =
    elim (Option-cases (key_text floats plan.left_key_expr row.0 plan.left_schema)) [
      | inl throws ↦ ground arith
      | inr (key, one) ↦ elim (Option-cases (left_keys floats plan rows)) [
        | inl throws ↦ ground arith
        | inr (more, others) ↦ ground (arith, length-left_keys floats plan rows more others)
      ]
    ]

abbrev at_start : List (List ℕ × Tuple) → List Row → HashJoin
at_start keyed right_rows = record {
  hash_table = push_all keyed [];
  right_executor = right_rows;
  current_bucket = none;
  bucket_cursor = 0;
  right_tuple = no_tuple;
}

push_all-Filled :
    (keyed : List (List ℕ × Tuple)) (key : List ℕ)
    → or_empty (find_text key (push_all keyed [])) ≡ with_key key keyed
unfolding find_text
push_all-Filled keyed key = find_text-push_all key keyed []

drain-at_start :
    (floats : Floats) (plan : HashPlan) (keyed : List (List ℕ × Tuple)) (right_rows : List Row)
    (fuel calls : ℕ)
    → hash_rounds (length keyed) right_rows ≤ fuel
    → hash_rounds (length keyed) right_rows ≤ calls
    → drain floats plan fuel calls (at_start keyed right_rows) ≡ hashed floats plan keyed right_rows
unfolding output measure Filled emit_bucket
drain-at_start floats plan keyed right_rows fuel calls low short =
    drain-output floats plan keyed fuel calls (at_start keyed right_rows) (push_all-Filled keyed)
      (omega arith) (omega arith)

-- A hash join, started by `Init` and asked by `Next` until it returns false, gives for each right
-- row, in order, the left rows whose key has the same text, in order, an exception included. No
-- call of `Next` makes more rounds than `hash_rounds` of the rows, and the join ends within as many
-- calls.
pub drain-hash_join :
    (floats : Floats) (plan : HashPlan) (left_rows right_rows : List Row) (fuel calls : ℕ)
    → hash_rounds (length left_rows) right_rows ≤ fuel
    → hash_rounds (length left_rows) right_rows ≤ calls
    → (init floats plan left_rows right_rows >>= λ s. drain floats plan fuel calls s)
      ≡ hash_join floats plan left_rows right_rows
unfolding init hash_join
drain-hash_join floats plan left_rows right_rows fuel calls low short =
    elim (Option-cases (left_keys floats plan left_rows)) [
      | inl throws ↦ ground (arith, build-push_all floats plan left_rows [])
      | inr (keyed, found) ↦ ground (
        arith,
        build-push_all floats plan left_rows [],
        length-left_keys floats plan left_rows keyed found,
        drain-at_start floats plan keyed right_rows fuel calls,
      )
    ]
