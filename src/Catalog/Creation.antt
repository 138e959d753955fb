-- ===== src/Catalog/Creation.antt =====
-- The entries of an index that `CreateIndex` makes: src/catalog/catalog.cpp.
use zlchen_dsaa2031_project.Prelude.{
  ℕ, ◌≡◌, refl, sym, none, some, true, false, List, [], ◌∷◌, ◌++◌, ◌==◌, get_elem?, lookup,
  lookup-insert, if◌then◌else◌, arith,
}
use zlchen_dsaa2031_project.Storage.TableHeap.{Pages, begin, scan_from}
use zlchen_dsaa2031_project.Types.{TypeId, Value, same_type}
use zlchen_dsaa2031_project.Rows.{Column, Schema, get_value}
use zlchen_dsaa2031_project.Catalog.{
  Catalog, TableInfo, IndexInfo, created, get_table, get_index, create_index, raw_tuple, fill,
  is_empty, insert_entry, new_index, key_columns, key_of, point_attr,
}
use zlchen_dsaa2031_project.Catalog.Entries.{
  rids, lookup_integer-insert_entry-remove_entry, append_assoc, append-nil,
}

-- The tuples of a table, each with the INTEGER that it has in a column.
unfoldable pub HaveKeys : Schema → ℕ → List (ℕ × List ℕ) → List ℕ → Type 0
HaveKeys schema attr [] [] = Unit
HaveKeys schema attr [] (k ∷ ks) = ⊥
HaveKeys schema attr (row ∷ rows) [] = ⊥
HaveKeys schema attr (row ∷ rows) (k ∷ ks) =
    ((v : Value) × (get_value (raw_tuple row.0 row.1) schema attr ≡ some v)
      × (same_type v.type_id TypeId.integer ≡ true)
      × (v.word ≡ k))
    × HaveKeys schema attr rows ks

-- The `RID`s of the tuples whose key it is, in their order.
unfoldable pub rids_keyed : ℕ → List (ℕ × List ℕ) → List ℕ → List ℕ
rids_keyed key (row ∷ rows) (k ∷ ks) =
    let later = rids_keyed key rows ks in if k == key then row.0 ∷ later else later
rids_keyed key _ _ = []

fill-rids_keyed :
    (schema : Schema) (attr key : ℕ) (rows : List (ℕ × List ℕ)) (ks : List ℕ) (index : IndexInfo)
    → HaveKeys schema attr rows ks
    → (index' : IndexInfo) × (fill schema attr rows index ≡ some index')
      × (rids index' key ≡ rids index key ++ rids_keyed key rows ks)
      × (index'.supports_point_lookup ≡ index.supports_point_lookup)
      × (index'.key_attrs ≡ index.key_attrs)
unfolding fill rids_keyed HaveKeys insert_entry
fill-rids_keyed schema attr key [] [] index keys =
    (index, refl, sym (append-nil (rids index key)), refl, refl)
fill-rids_keyed schema attr key [] (k ∷ ks) index keys = elim keys [ ]
fill-rids_keyed schema attr key (row ∷ rows) [] index keys = elim keys [ ]
fill-rids_keyed schema attr key (row ∷ rows) (k ∷ ks) index ((v, read, typed, word), keys) =
    let its_key : key_of schema attr row ≡ some k = ground (arith, read, typed, word) in
    let (index', filled, entries, point, attrs) =
      fill-rids_keyed schema attr key rows ks (insert_entry index k row.0) keys in
    (
      index',
      ground (arith, its_key, filled),
      ground (
        arith,
        entries,
        (lookup_integer-insert_entry-remove_entry index k row.0 key).0,
        append_assoc (rids index key) (row.0 ∷ []) (rids_keyed key rows ks),
      ),
      point,
      attrs,
    )

-- `CreateIndex` on one INTEGER column of a table, whose tuples have an INTEGER there, under a name
-- that is not empty and no index of the table has, makes an index of this column. It has under each
-- key the `RID`s of the tuples with this key, in the order of the walk along the heap, which ends
-- within the calls.
pub create_index-rids_keyed :
    (c : Catalog) (s : Pages) (calls attr key : ℕ) (index_name table_name : List ℕ)
    (info : TableInfo) (column : Column) (rows : List (ℕ × List ℕ)) (ks : List ℕ)
    → get_table c table_name ≡ some (some info)
    → get_index c index_name table_name ≡ some none
    → is_empty index_name ≡ false
    → get_elem? info.schema.columns attr ≡ some column
    → same_type column.type_id TypeId.integer ≡ true
    → scan_from s (begin s info.table) calls ≡ some rows
    → HaveKeys info.schema attr rows ks
    → let (c', outcome) = create_index c s calls index_name table_name (attr ∷ []) in
      (index : IndexInfo) × (outcome ≡ created index)
      × (lookup c.next_index_oid c'.indexes ≡ some index)
      × (rids index key ≡ rids_keyed key rows ks)
      × (index.supports_point_lookup ≡ true)
      × (index.key_attrs ≡ attr ∷ [])
unfolding create_index key_columns lookup
create_index-rids_keyed c s calls attr key index_name table_name info column rows ks table new named
      there typed walk keys =
    let (index, filled, entries, point, attrs) =
      fill-rids_keyed info.schema attr key rows ks
        (new_index c index_name table_name (attr ∷ []) (column ∷ []) true) keys in
    let point_column : point_attr info.schema (attr ∷ []) ≡ some attr =
      ground (arith, there, typed) in
    let columns : key_columns info.schema (attr ∷ []) ≡ some (column ∷ []) =
      ground (arith, there) in
    (
      index,
      ground (arith, table, new, named, columns, point_column, walk, filled),
      ground (
        arith,
        table,
        new,
        named,
        columns,
        point_column,
        walk,
        filled,
        lookup-insert c.next_index_oid c.next_index_oid index c.indexes,
      ),
      entries,
      point,
      attrs,
    )
