-- ===== src/Execution/Changes.antt =====
-- The executors that change a table: src/execution/executors/insert_executor.cpp,
-- delete_executor.cpp and update_executor.cpp. The rows of the child are those that it gives, which
-- the changes are not among. After an exception the state is not kept.
pub mod Entries
pub mod Indexes
pub mod Tests
use zlchen_dsaa2031_project.Prelude.{
  ℕ, ◌+◌, ◌%◌, Option, none, some, Bool, true, false, List, [], ◌∷◌, get_or, lookup, insert,
  if◌then◌else◌, ◌>>=◌,
}
use zlchen_dsaa2031_project.Storage.Bytes.{read_bytes}
use zlchen_dsaa2031_project.Storage.TableHeap.{
  Pages, heap_insert_tuple, heap_delete_tuple, heap_update_tuple,
}
use zlchen_dsaa2031_project.Types.{TypeId, Floats, Value, integer_value}
use zlchen_dsaa2031_project.Types.TextMaps.{find_text}
use zlchen_dsaa2031_project.Rows.{Tuple, Schema, new_tuple, get_value, no_rid}
use zlchen_dsaa2031_project.Rows.Expressions.{Expression}
use zlchen_dsaa2031_project.Catalog.{
  Catalog, IndexInfo, TableInfo, get_table_by_oid, names_of, insert_entry, remove_entry,
}
use zlchen_dsaa2031_project.Execution.{Row}
use zlchen_dsaa2031_project.Execution.Pipes.{integer_of, evaluate_all}

abbrev pub lookup_attr : IndexInfo → ℕ
lookup_attr index = get_or index.key_attrs 0 0

-- The key of a tuple in an index: an INTEGER, not NULL.
abbrev pub key_at : Schema → Tuple → ℕ → Option (Option ℕ)
key_at schema t attr = get_value t schema attr >>= λ v. some (integer_of v)

abbrev pub key_in : Schema → Tuple → IndexInfo → Option (Option ℕ)
key_in schema t index = key_at schema t (lookup_attr index)

abbrev pub inserted : IndexInfo → ℕ → Option ℕ → IndexInfo
inserted index r none = index
inserted index r (some key) = insert_entry index key r

abbrev pub removed : IndexInfo → ℕ → Option ℕ → IndexInfo
removed index r none = index
removed index r (some key) = remove_entry index key r

unfoldable pub add_entry : Schema → Tuple → ℕ → IndexInfo → Option IndexInfo
add_entry schema t r index =
    if index.supports_point_lookup
    then (key_in schema t index >>= (λ key. some (inserted index r key)))
    else some index

unfoldable pub drop_entry : Schema → Tuple → ℕ → IndexInfo → Option IndexInfo
drop_entry schema t r index =
    if index.supports_point_lookup
    then (key_in schema t index >>= (λ key. some (removed index r key)))
    else some index

unfoldable pub move_entry : Schema → Tuple → Tuple → ℕ → IndexInfo → Option IndexInfo
move_entry schema old_tuple new r index =
    if index.supports_point_lookup
    then (key_in schema old_tuple index >>= (λ old_key.
        key_in schema new index >>= λ new_key. some (inserted (removed index r old_key) r new_key)))
    else some index

-- The loop over the indexes of the table, by their names and oids.
unfoldable pub maintain :
    (IndexInfo → Option IndexInfo) → List (List ℕ × ℕ) → Catalog → Option Catalog
maintain change [] c = some c
maintain change (entry ∷ names) c = lookup entry.1 c.indexes >>= λ index. change index >>= λ index'.
    maintain change names (record c { indexes = insert entry.1 index' c.indexes })

abbrev pub bytes_of : Tuple → List ℕ
bytes_of t = read_bytes t.bytes 0 t.bytes_length

-- The loops over the rows of the child, with the count, an `int32_t`.
unfoldable pub insert_rows :
    TableInfo → List (List ℕ × ℕ) → List Row → Catalog → Pages → ℕ → Option (Catalog × Pages × ℕ)
insert_rows info names [] c s n = some (c, s, n)
insert_rows info names (row ∷ rows) c s n =
    let (s', new_rid) = heap_insert_tuple s info.table (bytes_of row.0) in
    new_rid >>= λ r. maintain (add_entry info.schema row.0 r) names c >>= λ c'.
    insert_rows info names rows c' s' ((n + 1) % 4294967296)

unfoldable pub delete_rows :
    TableInfo → List (List ℕ × ℕ) → List Row → Catalog → Pages → ℕ → Option (Catalog × Pages × ℕ)
delete_rows info names [] c s n = some (c, s, n)
delete_rows info names (row ∷ rows) c s n =
    maintain (drop_entry info.schema row.0 row.1) names c >>= λ c'.
    delete_rows info names rows c' (heap_delete_tuple s row.1) ((n + 1) % 4294967296)

-- What `UpdateTuple` returns is not read.
unfoldable pub update_rows :
    Floats
    → List Expression
    → TableInfo
    → List (List ℕ × ℕ)
    → List Row
    → Catalog
    → Pages
    → ℕ
    → Option (Catalog × Pages × ℕ)
update_rows floats update_exprs info names [] c s n = some (c, s, n)
update_rows floats update_exprs info names (row ∷ rows) c s n =
    evaluate_all floats update_exprs row.0 info.schema >>= λ values. new_tuple values >>= λ t.
    maintain (move_entry info.schema row.0 t row.1) names c >>= λ c'.
    let (s', ok) = heap_update_tuple s row.1 (bytes_of t) in
    update_rows floats update_exprs info names rows c' s' ((n + 1) % 4294967296)

-- `Next` of the three: one row with the count, once.
abbrev pub Change : Type 0
Change = TableInfo → List (List ℕ × ℕ) → Catalog → Pages → Option (Catalog × Pages × ℕ)

abbrev count_row : ℕ → Option Row
count_row n = new_tuple (integer_value TypeId.integer n ∷ []) >>= λ t. some (t, no_rid)

unfoldable pub change_next :
    Change → Bool → Catalog → Pages → ℕ → Option (Catalog × Pages × Option Row)
change_next change true c s table_oid = some (c, s, none)
change_next change false c s table_oid = get_table_by_oid c table_oid >>= λ info.
    change info (names_of (find_text info.name c.index_names)) c s >>= λ (c', s', n).
    count_row n >>= λ row. some (c', s', some row)

abbrev pub insert_next :
    List Row → Bool → Catalog → Pages → ℕ → Option (Catalog × Pages × Option Row)
unfolding change_next
insert_next rows = change_next (λ info names c s. insert_rows info names rows c s 0)

abbrev pub delete_next :
    List Row → Bool → Catalog → Pages → ℕ → Option (Catalog × Pages × Option Row)
unfolding change_next
delete_next rows = change_next (λ info names c s. delete_rows info names rows c s 0)

abbrev pub update_next :
    Floats
    → List Expression
    → List Row
    → Bool
    → Catalog
    → Pages
    → ℕ
    → Option (Catalog × Pages × Option Row)
unfolding change_next
update_next floats update_exprs rows =
    change_next (λ info names c s. update_rows floats update_exprs info names rows c s 0)
