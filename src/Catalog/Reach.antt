-- ===== src/Catalog/Reach.antt =====
-- The catalogs that the operations make: src/catalog/catalog.cpp.
use zlchen_dsaa2031_project.Prelude.{
  ℕ, inc32, ◌<◌, ◌≡◌, refl, ◌∙◌, ◌&&◌, ◌||◌, Option, none, some, Bool, true, false, List, [], ◌∷◌,
  ◌==◌, lookup, lookup-insert, lookup-erase, Option-cases, Bool-cases, inl, inr, if◌then◌else◌,
  is_some, arith,
}
use zlchen_dsaa2031_project.Storage.TableHeap.{Pages, new_table_heap, begin, scan_from}
use zlchen_dsaa2031_project.Types.Compare.{text_equal}
use zlchen_dsaa2031_project.Types.Order.{text_equal-eq, text_equal_refl}
use zlchen_dsaa2031_project.Types.TextMaps.{find_text, find_text-put_text}
use zlchen_dsaa2031_project.Rows.{Schema, Column}
use zlchen_dsaa2031_project.Catalog.{
  Catalog, TableInfo, IndexInfo, new_catalog, Created, refused, threw, get_table, create_table,
  get_index, index_oid, drop_index, create_index, with_index, with_heap, new_index, filled_index,
  over_columns, over_table, dropped, fill, key_of, insert_entry, is_empty, key_columns, point_attr,
}
use zlchen_dsaa2031_project.Catalog.Names.{
  IsValid, index_oid-put, index_oid-drop, new_catalog-IsValid,
}

-- Filling an index changes its entries alone.
fill-kept :
    (schema : Schema) (attr : ℕ) (rows : List (ℕ × List ℕ)) (index index' : IndexInfo)
    → fill schema attr rows index ≡ some index'
    → (index'.name ≡ index.name) × (index'.table_name ≡ index.table_name) × (index'.oid ≡ index.oid)
unfolding fill insert_entry
fill-kept schema attr [] index index' filled = (ground arith, ground arith, ground arith)
fill-kept schema attr (row ∷ rows) index index' filled =
    elim (Option-cases (key_of schema attr row)) [
      | inl throws ↦ (ground arith, ground arith, ground arith)
      | inr (k, found) ↦
          let (a, b, d) =
            fill-kept schema attr rows (insert_entry index k row.0) index' (ground arith) in
          (a, b, d)
    ]

filled_index-kept :
    (c : Catalog) (s : Pages) (calls : ℕ) (info : TableInfo)
    (index_name table_name key_attrs : List ℕ) (columns : List Column) (point : Option ℕ)
    (index : IndexInfo)
    → filled_index c s calls info index_name table_name key_attrs columns point ≡ some index
    → (index.name ≡ index_name) × (index.table_name ≡ table_name) × (index.oid ≡ c.next_index_oid)
filled_index-kept c s calls info index_name table_name key_attrs columns none index made =
    (ground arith, ground arith, ground arith)
filled_index-kept c s calls info index_name table_name key_attrs columns (some attr) index made =
    elim (Option-cases (scan_from s (begin s info.table) calls)) [
      | inl failed ↦ (ground arith, ground arith, ground arith)
      | inr (rows, read) ↦
          fill-kept info.schema attr rows (new_index c index_name table_name key_attrs columns true)
            index (ground arith)
    ]

-- The next oid of each kind does not wrap.
abbrev pub HasOids : Catalog → Type 0
HasOids c = (c.next_table_oid < 4294967295) × (c.next_index_oid < 4294967295)

module _ (c : Catalog) (valid : IsValid c) (left : HasOids c) where
  with_index-IsValid :
      (index_name table_name : List ℕ) (index : IndexInfo)
      → index.name ≡ index_name
      → index.table_name ≡ table_name
      → index.oid ≡ c.next_index_oid
      → IsValid (with_index c index_name table_name (some index)).0
  with_index-IsValid index_name table_name index its_name its_table its_oid = record {
    named = valid.named;
    indexed = λ i t oid found.
        let put = index_oid-put index_name table_name i t c.next_index_oid c.index_names in
        elim (Bool-cases (text_equal table_name t && text_equal index_name i)) [
          | inl same ↦
              let new : c.next_index_oid ≡ oid = ground (arith, put) in
              (
                index,
                (
                  ground (arith, lookup-insert c.next_index_oid oid index c.indexes),
                  its_name ∙ text_equal-eq index_name i (ground arith),
                  its_table ∙ text_equal-eq table_name t (ground arith),
                  its_oid ∙ new,
                  ground arith,
                ),
              )
          | inr other ↦
              let (info, (there, a, b, d, low)) = valid.indexed i t oid (ground (arith, put)) in
              (
                info,
                (
                  ground (arith, lookup-insert c.next_index_oid oid index c.indexes),
                  a,
                  b,
                  d,
                  omega arith,
                ),
              )
        ];
  }

  skipped-IsValid : IsValid (record c { next_index_oid = inc32 c.next_index_oid })
  skipped-IsValid = record {
    named = valid.named;
    indexed = λ i t oid found.
        let (info, (there, a, b, d, low)) = valid.indexed i t oid found in
        (info, (there, a, b, d, omega arith));
  }

  over_columns-IsValid :
      (s : Pages) (calls : ℕ) (info : TableInfo) (index_name table_name key_attrs : List ℕ)
      (columns : Option (List Column))
      → IsValid (over_columns c s calls info index_name table_name key_attrs columns).0
  over_columns-IsValid s calls info index_name table_name key_attrs none = valid
  over_columns-IsValid s calls info index_name table_name key_attrs (some columns) =
      by_index
        (filled_index c s calls info index_name table_name key_attrs columns
          (point_attr info.schema key_attrs))
        (filled_index-kept c s calls info index_name table_name key_attrs columns
          (point_attr info.schema key_attrs))
    where
      by_index :
          (made : Option IndexInfo)
          → ((index : IndexInfo)
              → made ≡ some index
              → (index.name ≡ index_name)
                × (index.table_name ≡ table_name)
                × (index.oid ≡ c.next_index_oid))
          → IsValid (with_index c index_name table_name made).0
      by_index none kept = skipped-IsValid
      by_index (some index) kept =
          let (a, b, d) = kept index refl in with_index-IsValid index_name table_name index a b d

  either :
      (b : Bool) (result : Catalog × Created IndexInfo)
      → IsValid result.0
      → IsValid (if b then (c, refused) else result).0
  either true result ok = valid
  either false result ok = ok

  create_index-IsValid :
      (s : Pages) (calls : ℕ) (index_name table_name key_attrs : List ℕ)
      → IsValid (create_index c s calls index_name table_name key_attrs).0
  unfolding create_index
  create_index-IsValid s calls index_name table_name key_attrs =
      by_table (get_table c table_name) (get_index c index_name table_name)
    where
      by_table :
          (table : Option (Option TableInfo)) (there : Option (Option IndexInfo))
          → IsValid (over_table c s calls index_name table_name key_attrs table there).0
      by_table none there = valid
      by_table (some none) there = valid
      by_table (some (some info)) none =
          either (is_empty index_name || is_empty key_attrs) (c, threw) valid
      by_table (some (some info)) (some (some index)) =
          either (is_empty index_name || is_empty key_attrs) (c, refused) valid
      by_table (some (some info)) (some none) =
          either (is_empty index_name || is_empty key_attrs)
            (over_columns c s calls info index_name table_name key_attrs
              (key_columns info.schema key_attrs))
            (over_columns-IsValid s calls info index_name table_name key_attrs
              (key_columns info.schema key_attrs))

  create_table-IsValid :
      (s : Pages) (name : List ℕ) (schema : Schema) → IsValid (create_table c s name schema).0
  unfolding create_table
  create_table-IsValid s name schema =
      by_name (is_some (find_text name c.table_names)) (new_table_heap s)
    where
      by_name :
          (b : Bool) (heap : Option (ℕ × Pages))
          → IsValid (if b then (c, s, refused) else with_heap c s name schema heap).0
      by_name true heap = valid
      by_name false none = record {
        named = λ other oid found.
            let (info, (there, a, b, low)) = valid.named other oid found in
            (info, (there, a, b, omega arith));
        indexed = valid.indexed;
      }
      by_name false (some (page_id, s1)) = record {
        named = λ other oid found.
            let put = find_text-put_text name other c.next_table_oid c.table_names in
            elim (Bool-cases (text_equal name other)) [
              | inl same ↦
                  let new : c.next_table_oid ≡ oid = ground (arith, put) in
                  (
                    table_of page_id,
                    (
                      ground
                          (arith, lookup-insert c.next_table_oid oid (table_of page_id) c.tables),
                      text_equal-eq name other same,
                      new,
                      ground arith,
                    ),
                  )
              | inr apart ↦
                  let (info, (there, a, b, low)) = valid.named other oid (ground (arith, put)) in
                  (
                    info,
                    (
                      ground
                          (arith, lookup-insert c.next_table_oid oid (table_of page_id) c.tables),
                      a,
                      b,
                      omega arith,
                    ),
                  )
            ];
        indexed = valid.indexed;
      }
        where
          table_of : ℕ → TableInfo
          table_of page_id = record {
            schema = schema;
            name = name;
            table = page_id;
            oid = c.next_table_oid;
          }

module _ (c : Catalog) (valid : IsValid c) where
  drop_index-IsValid :
      (index_name table_name : List ℕ) → IsValid (drop_index c index_name table_name).0
  unfolding drop_index
  drop_index-IsValid index_name table_name =
      by_oid (index_oid c index_name table_name) (valid.indexed index_name table_name)
    where
      by_oid :
          (o : Option ℕ)
          → ((oid : ℕ)
              → o ≡ some oid
              → (info : IndexInfo) × ((lookup oid c.indexes ≡ some info)
                  × (info.name ≡ index_name)
                  × (info.table_name ≡ table_name)
                  × (info.oid ≡ oid)
                  × (oid < c.next_index_oid)))
          → IsValid (dropped c index_name table_name o).0
      by_oid none entry = valid
      by_oid (some oid) entry = record {
        named = valid.named;
        indexed = λ i t other found.
            let drop = index_oid-drop index_name table_name i t c.index_names in
            let (info, (there, a, b, d, low)) = valid.indexed i t other (ground (arith, drop)) in
            let (gone, (there', a', b', d', low')) = entry oid refl in
            let apart : (oid == other) ≡ false =
              ground (arith, drop, text_equal_refl i, text_equal_refl t, d, d') in
            (info, (ground (arith, lookup-erase oid other c.indexes), a, b, d, low));
      }

-- The catalogs that come of an empty one by the operations that change it, with an oid left of
-- each kind.
pub data Reached : Catalog → Type 0 where
  at_start : Reached new_catalog
  table_created :
      (c : Catalog) (s : Pages) (name : List ℕ) (schema : Schema)
      → HasOids c
      → Reached c
      → Reached (create_table c s name schema).0
  index_created :
      (c : Catalog) (s : Pages) (calls : ℕ) (index_name table_name key_attrs : List ℕ)
      → HasOids c
      → Reached c
      → Reached (create_index c s calls index_name table_name key_attrs).0
  index_dropped :
      (c : Catalog) (index_name table_name : List ℕ)
      → Reached c
      → Reached (drop_index c index_name table_name).0

-- In every catalog that `CreateTable`, `CreateIndex` and `DropIndex` make of an empty one, where
-- the counters of the oids, of 32 bits, have not come to their last value before a creation, each
-- name of a table or an index leads to an oid that has been given out and has an entry of this name
-- and oid, and the index is one of the table named with it; so `at` never throws.
pub Reached-IsValid : (c : Catalog) → Reached c → IsValid c
Reached-IsValid c at_start = new_catalog-IsValid
Reached-IsValid c (table_created c0 s name schema left r) =
    create_table-IsValid c0 (Reached-IsValid c0 r) left s name schema
Reached-IsValid c (index_created c0 s calls index_name table_name key_attrs left r) =
    create_index-IsValid c0 (Reached-IsValid c0 r) left s calls index_name table_name key_attrs
Reached-IsValid c (index_dropped c0 index_name table_name r) =
    drop_index-IsValid c0 (Reached-IsValid c0 r) index_name table_name
