-- ===== src/Execution/HashJoin/Table.antt =====
-- The hash table of the left rows: src/execution/executors/hash_join_executor.cpp.
use zlchen_dsaa2031_project.Prelude.{
  ℕ, ◌≡◌, refl, Option, some, List, [], ◌∷◌, ◌++◌, if◌then◌else◌, ◌>>=◌, Option-cases, inl, inr,
  arith,
}
use zlchen_dsaa2031_project.Types.{Floats}
use zlchen_dsaa2031_project.Types.Compare.{text_equal}
use zlchen_dsaa2031_project.Types.Order.{text_equal-eq}
use zlchen_dsaa2031_project.Types.TextMaps.{find_text, push_text, or_empty, find_text-put_text}
use zlchen_dsaa2031_project.Rows.{Tuple}
use zlchen_dsaa2031_project.Execution.{Row}
use zlchen_dsaa2031_project.Execution.HashJoin.{HashPlan, key_text, build}

-- The left rows with their keys.
unfoldable pub left_keys : Floats → HashPlan → List Row → Option (List (List ℕ × Tuple))
left_keys floats plan [] = some []
left_keys floats plan (row ∷ rows) = do
  key ← key_text floats plan.left_key_expr row.0 plan.left_schema
  more ← left_keys floats plan rows
  some ((key, row.0) ∷ more)

-- The tuples of one key, in order.
unfoldable pub with_key : List ℕ → List (List ℕ × Tuple) → List Tuple
with_key key [] = []
with_key key ((k, t) ∷ rows) = if text_equal k key then t ∷ with_key key rows else with_key key rows

pub push_all : List (List ℕ × Tuple) → List (List ℕ × List Tuple) → List (List ℕ × List Tuple)
push_all [] table = table
push_all ((k, t) ∷ rows) table = push_all rows (push_text k t table)

append_assoc : (a b c : List Tuple) → (a ++ b) ++ c ≡ a ++ (b ++ c)
append_assoc [] b c = refl
append_assoc (x ∷ a) b c = ground (arith, append_assoc a b c)

append-nil : (a : List Tuple) → a ++ [] ≡ a
append-nil [] = refl
append-nil (x ∷ a) = ground (arith, append-nil a)

pub build-push_all :
    (floats : Floats) (plan : HashPlan) (rows : List Row) (table : List (List ℕ × List Tuple))
    → build floats plan rows table
      ≡ (left_keys floats plan rows >>= λ keyed. some (push_all keyed table))
unfolding build left_keys push_all
build-push_all floats plan [] table = refl
build-push_all floats plan (row ∷ rows) table =
    elim (Option-cases (key_text floats plan.left_key_expr row.0 plan.left_schema)) [
      | inl throws ↦ ground arith
      | inr (key, found) ↦ elim (Option-cases (left_keys floats plan rows)) [
        | inl throws ↦ ground (arith, build-push_all floats plan rows (push_text key row.0 table))
        | inr (keyed, all_found) ↦
            ground (arith, build-push_all floats plan rows (push_text key row.0 table))
      ]
    ]

-- The bucket of a key has the tuples of the key, in order.
pub find_text-push_all :
    (key : List ℕ) (rows : List (List ℕ × Tuple)) (table : List (List ℕ × List Tuple))
    → or_empty (find_text key (push_all rows table))
      ≡ or_empty (find_text key table) ++ with_key key rows
unfolding push_all with_key
find_text-push_all key [] table = ground (arith, append-nil (or_empty (find_text key table)))
find_text-push_all key ((k, t) ∷ rows) table = ground (
  arith,
  find_text-push_all key rows (push_text k t table),
  find_text-put_text k key (or_empty (find_text k table) ++ t ∷ []) table,
  append_assoc (or_empty (find_text k table)) (t ∷ []) (with_key key rows),
  text_equal-eq k key,
)
