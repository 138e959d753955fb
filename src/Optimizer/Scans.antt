-- ===== src/Optimizer/Scans.antt =====
-- The rule that makes an index scan of a sequential one: src/optimizer/optimizer.cpp, with the two
-- executors, src/execution/executors/seq_scan_executor.cpp and index_scan_executor.cpp.
use zlchen_dsaa2031_project.Prelude.{
  ℕ, zero, suc, ◌+◌, ◌<◌, ◌≤◌, ◌≡◌, refl, sym, ◌∙◌, Option, some, Bool, true, false, List, [], ◌∷◌,
  ap, ◌==◌, ltb, length, get_or, All, if◌then◌else◌, ◌>>=◌, Option-cases, Bool-cases, inl, inr,
  arith,
}
use zlchen_dsaa2031_project.Types.{TypeId, Value, Floats, same_type, no_value}
use zlchen_dsaa2031_project.Rows.{
  Tuple, Schema, value_or_invalid, get_value, read_from, new_tuple, append_values,
}
use zlchen_dsaa2031_project.Rows.Expressions.{
  Expression, column_value, constant_value, comparison, evaluate, equal,
}
use zlchen_dsaa2031_project.Storage.TableHeap.{Pages, heap_get_tuple, begin, scan_from}
use zlchen_dsaa2031_project.Catalog.{
  Catalog, IndexInfo, TableInfo, get_table_by_oid, get_index_by_oid, raw_tuple, key_of,
  get_table_indexes,
}
use zlchen_dsaa2031_project.Catalog.Entries.{rids, rids_with}
use zlchen_dsaa2031_project.Execution.{Row, passes}
use zlchen_dsaa2031_project.Execution.Pipes.{
  seq_scan_init, index_scan_init, materialize, load_rid, seq_scan_next, index_scan_next,
  matching_rids, drain_rows,
}
use zlchen_dsaa2031_project.Execution.Pipes.Output.{passing, drain_rows-scan_next}
use zlchen_dsaa2031_project.Optimizer.{
  seq_scan, index_scan, optimize_seq_scan, index_for, indexes_of, first_index, covers,
}
use zlchen_dsaa2031_project.Optimizer.Joins.{
  HasKey, key_word, get_value_key, compare_equals_key, holds-verdict,
}

-- An equality of a column and a constant, in this order or the other.
abbrev pub point_predicate : Bool → ℕ → ℕ → TypeId → Value → Expression
point_predicate swapped tuple_idx attr type v =
    if swapped
    then comparison (constant_value v) (column_value tuple_idx attr type) equal
    else comparison (column_value tuple_idx attr type) (constant_value v) equal

-- A row of the table: its `RID` reads it, its columns can be read, and its key is an INTEGER.
abbrev pub IsRow : Pages → Schema → ℕ → ℕ × List ℕ → Type 0
IsRow s schema attr row =
    (heap_get_tuple s row.0 ≡ some row.1)
    × ((t : Tuple) × ((materialize schema row.0 row.1 ≡ some (t, row.0)) × HasKey attr t))

read_from-cons :
    (t : Tuple) (schema : Schema) (i n : ℕ) (v : Value) (vs : List Value)
    → read_from t schema i (suc n) ≡ some (v ∷ vs)
    → (get_value t schema i ≡ some v) × (read_from t schema (i + 1) n ≡ some vs)
unfolding read_from
read_from-cons t schema i n v vs found = elim (Option-cases (get_value t schema i)) [
  | inl throws ↦ ground arith
  | inr (w, h) ↦ elim (Option-cases (read_from t schema (i + 1) n)) [
    | inl throws ↦ ground arith
    | inr (ws, more) ↦ (ground arith, ground arith)
  ]
]

read_from-zero : (t : Tuple) (schema : Schema) (i : ℕ) → read_from t schema i zero ≡ some []
unfolding read_from
read_from-zero t schema i = refl

-- The values that the loop reads are those of `GetValue`.
read_from-get_value :
    (t : Tuple) (schema : Schema) (i n k : ℕ) (vs : List Value)
    → read_from t schema i n ≡ some vs
    → ltb k (length vs) ≡ true
    → get_value t schema (i + k) ≡ some (get_or vs k no_value)
read_from-get_value t schema i n k [] found inside = ground arith
read_from-get_value t schema i zero k (v ∷ vs) found inside =
    ground (arith, read_from-zero t schema i)
read_from-get_value t schema i (suc n) zero (v ∷ vs) found inside =
    ground (arith, (read_from-cons t schema i n v vs found).0)
read_from-get_value t schema i (suc n) (suc k) (v ∷ vs) found inside = ground (
  arith,
  read_from-get_value t schema (i + 1) n k vs (read_from-cons t schema i n v vs found).1
      (ground arith),
)

new_tuple-values : (vs : List Value) (t : Tuple) → new_tuple vs ≡ some t → t.values ≡ vs
unfolding new_tuple
new_tuple-values vs t made = elim (Option-cases (append_values (λ a. 0) 0 vs)) [
  | inl throws ↦ ground arith
  | inr (written, h) ↦ ground arith
]

module _ (floats : Floats) (s : Pages) (schema : Schema) (swapped : Bool) (tuple_idx attr : ℕ)
    (type : TypeId) (v : Value) where
  selects :
      (t : Tuple)
      → HasKey attr t
      → same_type v.type_id TypeId.integer ≡ true
      → passes floats (some (point_predicate swapped tuple_idx attr type v)) t schema
        ≡ some (key_word attr t == v.word)
  unfolding passes evaluate
  selects t h typed = by_order swapped
    where
      by_order :
          (order : Bool)
          → passes floats (some (point_predicate order tuple_idx attr type v)) t schema
            ≡ some (key_word attr t == v.word)
      by_order true = ground (
        arith,
        get_value_key t schema attr h,
        compare_equals_key floats v (value_or_invalid t attr),
        holds-verdict (v.word == key_word attr t),
      )
      by_order false = ground (
        arith,
        get_value_key t schema attr h,
        compare_equals_key floats (value_or_invalid t attr) v,
        holds-verdict (key_word attr t == v.word),
      )

  keyed :
      (row : ℕ × List ℕ) (t : Tuple)
      → materialize schema row.0 row.1 ≡ some (t, row.0)
      → HasKey attr t
      → key_of schema attr row ≡ some (key_word attr t)
  keyed (r, data_bytes) t made (inside, typed, full, low) =
      elim (Option-cases (read_from (raw_tuple r data_bytes) schema 0 (length schema.columns))) [
        | inl throws ↦ ground arith
        | inr (vs, h) ↦ elim (Option-cases (new_tuple vs)) [
          | inl throws ↦ ground arith
          | inr (u, built) ↦ ground (
            arith,
            new_tuple-values vs u built,
            read_from-get_value (raw_tuple r data_bytes) schema 0 (length schema.columns) attr vs h,
          )
        ]
      ]

  passing-rids_with :
      (rows : List (ℕ × List ℕ))
      → All (IsRow s schema attr) rows
      → same_type v.type_id TypeId.integer ≡ true
      → passing
          (load_rid s schema)
          (λ t. passes floats (some (point_predicate swapped tuple_idx attr type v)) t schema)
          (rids_with schema attr v.word rows)
        ≡ passing
            (λ row. materialize schema row.0 row.1)
            (λ t. passes floats (some (point_predicate swapped tuple_idx attr type v)) t schema)
            rows
  unfolding passing rids_with
  passing-rids_with [] all typed = refl
  passing-rids_with (row ∷ rows) ((there, (t, (made, key))), all) typed =
      elim (Bool-cases (key_word attr t == v.word)) [
        | inl same ↦ ground (
          arith,
          there,
          made,
          keyed row t made key,
          selects t key typed,
          passing-rids_with rows all typed,
        )
        | inr other ↦ ground (
          arith,
          there,
          made,
          keyed row t made key,
          selects t key typed,
          passing-rids_with rows all typed,
        )
      ]

length-rids_with :
    (schema : Schema) (attr key : ℕ) (rows : List (ℕ × List ℕ))
    → length (rids_with schema attr key rows) ≤ length rows
unfolding rids_with
length-rids_with schema attr key [] = omega arith
length-rids_with schema attr key (row ∷ rows) =
    ground (arith, length-rids_with schema attr key rows)

matching_rids-rids :
    (floats : Floats) (index : IndexInfo) (v : Value)
    → same_type v.type_id TypeId.integer ≡ true
    → v.is_null ≡ false
    → index.supports_point_lookup ≡ true
    → matching_rids floats index (constant_value v) ≡ some (rids index v.word)
unfolding matching_rids evaluate
matching_rids-rids floats index v typed full point = ground arith

-- The whole output of the two scans.
abbrev pub seq_scan_output :
    Floats → Catalog → Pages → ℕ → ℕ → ℕ → Option Expression → Option (List Row)
seq_scan_output floats c s table_oid steps calls predicate =
    seq_scan_init c s table_oid steps >>= λ start.
    drain_rows (seq_scan_next floats start.0 predicate) calls start.1

abbrev pub index_scan_output :
    Floats → Catalog → Pages → ℕ → ℕ → Expression → ℕ → Option Expression → Option (List Row)
index_scan_output floats c s table_oid index_oid lookup_key calls predicate =
    index_scan_init floats c table_oid index_oid lookup_key >>= λ start.
    drain_rows (index_scan_next floats s start.0 predicate) calls start.1

seq_scan_init-rows :
    (c : Catalog) (s : Pages) (table_oid steps : ℕ) (info : TableInfo) (rows : List (ℕ × List ℕ))
    → get_table_by_oid c table_oid ≡ some info
    → scan_from s (begin s info.table) steps ≡ some rows
    → seq_scan_init c s table_oid steps ≡ some (info.schema, rows)
seq_scan_init-rows c s table_oid steps info rows table walk = rw (table, walk)

index_scan_init-rids :
    (floats : Floats) (c : Catalog) (table_oid index_oid : ℕ) (v : Value) (info : TableInfo)
    (index : IndexInfo)
    → get_table_by_oid c table_oid ≡ some info
    → get_index_by_oid c index_oid ≡ some index
    → same_type v.type_id TypeId.integer ≡ true
    → v.is_null ≡ false
    → index.supports_point_lookup ≡ true
    → index_scan_init floats c table_oid index_oid (constant_value v)
      ≡ some (info.schema, rids index v.word)
index_scan_init-rids floats c table_oid index_oid v info index table found typed full point =
    rw (table, found, matching_rids-rids floats index v typed full point)

-- An index of the table is in the catalog under its oid, and where it supports a lookup, it has under
-- each key the `RID`s of the rows with this key in the first column that the index is of.
abbrev pub IsCurrent : Catalog → Schema → List (ℕ × List ℕ) → IndexInfo → Type 0
IsCurrent c schema rows index =
    (get_index_by_oid c index.oid ≡ some index)
    × (index.supports_point_lookup ≡ true
        → (key : ℕ) → rids index key ≡ rids_with schema (get_or index.key_attrs 0 0) key rows)

-- The index that the rule finds is of the column.
first_index-current :
    (c : Catalog) (schema : Schema) (rows : List (ℕ × List ℕ)) (attr index_oid : ℕ)
    (indexes : List IndexInfo)
    → All (IsCurrent c schema rows) indexes
    → first_index attr indexes ≡ some index_oid
    → (index : IndexInfo) × (get_index_by_oid c index_oid ≡ some index)
      × (index.supports_point_lookup ≡ true)
      × ((key : ℕ) → rids index key ≡ rids_with schema attr key rows)
unfolding first_index
first_index-current c schema rows attr index_oid [] all chosen = absurd (ground arith)
first_index-current c schema rows attr index_oid (index ∷ indexes) ((there, current), all) chosen =
    elim (Bool-cases (covers index attr index.key_attrs)) [
      | inr other ↦
          first_index-current c schema rows attr index_oid indexes all (ground (arith, other))
      | inl this ↦
          let (point, column) = covered index attr index.key_attrs this in
          let its_oid : index.oid ≡ index_oid = ground (arith, this) in
          (
            index,
            ap (get_index_by_oid c) (sym its_oid) ∙ there,
            point,
            λ key. current point key ∙ ap (λ a. rids_with schema a key rows) column,
          )
    ]
  where
    covered :
        (index : IndexInfo) (attr : ℕ) (attrs : List ℕ)
        → covers index attr attrs ≡ true
        → (index.supports_point_lookup ≡ true) × (get_or attrs 0 0 ≡ attr)
    covered index attr [] h = ground arith
    covered index attr (a ∷ attrs) h = (ground arith, ground arith)

-- The rule makes an index scan of a sequential scan for the rows whose column equals an INTEGER
-- constant that is not NULL, written in this order or the other, where it finds an index of the table
-- for the column, and keeps the query: both scans give the same output. The table is in the catalog,
-- and each of its indexes that supports a lookup has the rows under what they have in its own column;
-- the walk along the heap ends within the steps and its rows are read back by their `RID`s, each has
-- an INTEGER in the column that is not NULL, and there are more calls of `Next` than rows.
pub optimize_seq_scan-SameScan :
    (floats : Floats) (c : Catalog) (s : Pages) (table_oid index_oid steps calls : ℕ)
    (swapped : Bool) (tuple_idx attr : ℕ) (type : TypeId) (v : Value) (info : TableInfo)
    (indexes : List IndexInfo) (rows : List (ℕ × List ℕ))
    → get_table_by_oid c table_oid ≡ some info
    → get_table_indexes c info.name ≡ some indexes
    → All (IsCurrent c info.schema rows) indexes
    → first_index attr indexes ≡ some index_oid
    → scan_from s (begin s info.table) steps ≡ some rows
    → All (IsRow s info.schema attr) rows
    → same_type v.type_id TypeId.integer ≡ true
    → v.is_null ≡ false
    → length rows < calls
    → (optimize_seq_scan c
          (seq_scan info.schema table_oid (some (point_predicate swapped tuple_idx attr type v)))
        ≡ index_scan info.schema table_oid index_oid
            (constant_value v)
            (some (point_predicate swapped tuple_idx attr type v)))
      × (index_scan_output floats c s table_oid index_oid
            (constant_value v)
            calls
            (some (point_predicate swapped tuple_idx attr type v))
          ≡ seq_scan_output floats c s table_oid steps calls
              (some (point_predicate swapped tuple_idx attr type v)))
unfolding optimize_seq_scan seq_scan_next index_scan_next
optimize_seq_scan-SameScan floats c s table_oid index_oid steps calls swapped tuple_idx attr type v
      info indexes rows table its_indexes current chosen walk all typed full enough =
    (by_order swapped, same)
  where
    indexed : index_for attr (indexes_of c (get_table_by_oid c table_oid)) ≡ some index_oid
    indexed = ground (arith, table, its_indexes, chosen)

    test : Tuple → Option Bool
    test t = passes floats (some (point_predicate swapped tuple_idx attr type v)) t info.schema

    by_order :
        (order : Bool)
        → optimize_seq_scan c
            (seq_scan info.schema table_oid (some (point_predicate order tuple_idx attr type v)))
          ≡ index_scan info.schema table_oid index_oid
              (constant_value v)
              (some (point_predicate order tuple_idx attr type v))
    by_order true = rw indexed
    by_order false = rw indexed

    same :
        index_scan_output floats c s table_oid index_oid
          (constant_value v)
          calls
          (some (point_predicate swapped tuple_idx attr type v))
        ≡ seq_scan_output floats c s table_oid steps calls
            (some (point_predicate swapped tuple_idx attr type v))
    same =
        let (index, found, point, by_key) =
          first_index-current c info.schema rows attr index_oid indexes current chosen in
        let entries = by_key v.word in
        ap
          (λ start. start >>= λ from.
            drain_rows
              (index_scan_next floats s from.0
                (some (point_predicate swapped tuple_idx attr type v)))
              calls from.1)
          (index_scan_init-rids floats c table_oid index_oid v info index table found typed full
            point)
        ∙ drain_rows-scan_next (load_rid s info.schema) test (rids index v.word) calls
            (ground (arith, entries, length-rids_with info.schema attr v.word rows))
        ∙ ap (passing (load_rid s info.schema) test) entries
        ∙ passing-rids_with floats s info.schema swapped tuple_idx attr type v rows all typed
        ∙ sym (
            drain_rows-scan_next (λ row. materialize info.schema row.0 row.1) test rows calls
              enough)
        ∙ sym (
            ap
              (λ start. start >>= λ from.
                drain_rows
                  (seq_scan_next floats from.0
                    (some (point_predicate swapped tuple_idx attr type v)))
                  calls from.1)
              (seq_scan_init-rows c s table_oid steps info rows table walk))
