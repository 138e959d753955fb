-- ===== src/Catalog/Tests.antt =====
-- A catalog with one table, and an index of it.
use zlchen_dsaa2031_project.Prelude.{ℕ, arith, ◌≡◌, refl, some, true, List, [], ◌∷◌, lookup}
use zlchen_dsaa2031_project.Storage.TableHeap.Tests.{one_page, one_page-IsChain}
use zlchen_dsaa2031_project.Storage.TableHeap.{begin, scan_from}
use zlchen_dsaa2031_project.Storage.TableHeap.Scan.{heap_tuples, live, scan_from-begin}
use zlchen_dsaa2031_project.Storage.Bytes.{set16, set32, write_bytes, read_bytes}
use zlchen_dsaa2031_project.Storage.TablePage.{get_tuple, get_tuple_size}
use zlchen_dsaa2031_project.Types.Compare.{text_equal}
use zlchen_dsaa2031_project.Types.TextMaps.{find_text}
use zlchen_dsaa2031_project.Types.{TypeId, integer_value}
use zlchen_dsaa2031_project.Rows.{Schema, new_schema, new_column, get_value, place}
use zlchen_dsaa2031_project.Types.Serial.{deserialize_from}
use zlchen_dsaa2031_project.Catalog.{
  Catalog, TableInfo, IndexInfo, new_catalog, create_table, create_index, created, get_table,
  get_index,
}
use zlchen_dsaa2031_project.Catalog.Entries.{rids}
use zlchen_dsaa2031_project.Catalog.Creation.{HaveKeys, rids_keyed, create_index-rids_keyed}
use zlchen_dsaa2031_project.Catalog.Names.{IsValid}
use zlchen_dsaa2031_project.Catalog.Reach.{at_start, table_created, Reached-IsValid}

-- "t", "i", and a table of one INTEGER column.
abbrev pub table_t : List ℕ
table_t = 116 ∷ []

abbrev pub index_i : List ℕ
index_i = 105 ∷ []

abbrev pub one_column : Schema
one_column = new_schema (new_column (97 ∷ []) TypeId.integer 0 ∷ [])

Reached-IsValid_example : IsValid (create_table new_catalog one_page table_t one_column).0
Reached-IsValid_example =
    Reached-IsValid (create_table new_catalog one_page table_t one_column).0
      (table_created new_catalog one_page table_t one_column (omega arith, omega arith) at_start)

-- An index whose key 5 has one entry.
abbrev pub five : IndexInfo
five = record {
  key_schema = one_column;
  name = index_i;
  table_name = table_t;
  oid = 1;
  key_attrs = 0 ∷ [];
  supports_point_lookup = true;
  int_rid_map = (5, 70 ∷ []) ∷ [];
}

-- The tuple of slot 0 of page 3 has the key 5.
abbrev pub filled : IndexInfo
filled = record five { int_rid_map = (5, 70 ∷ 196608 ∷ []) ∷ [] }

-- The table of that page, without an index.
abbrev table : TableInfo
table = record { schema = one_column; name = table_t; table = 3; oid = 1 }

abbrev with_table : Catalog
with_table = record new_catalog {
  next_table_oid = 2;
  tables = (1, table) ∷ [];
  table_names = (table_t, 1) ∷ [];
}

two_bytes : scan_from one_page (begin one_page 3) 2 ≡ some ((196608, 5 ∷ 6 ∷ []) ∷ [])
unfolding lookup heap_tuples live set16 set32 write_bytes get_tuple get_tuple_size read_bytes
two_bytes = scan_from-begin one_page 3 (3 ∷ []) 2 one_page-IsChain (omega arith) (ground arith)

create_index-rids_keyed_example :
    let (c', outcome) = create_index with_table one_page 2 index_i table_t (0 ∷ []) in
    (index : IndexInfo) × (outcome ≡ created index)
    × (lookup 1 c'.indexes ≡ some index)
    × (rids index 1541 ≡ rids_keyed 1541 ((196608, 5 ∷ 6 ∷ []) ∷ []) (1541 ∷ []))
    × (index.supports_point_lookup ≡ true)
    × (index.key_attrs ≡ 0 ∷ [])
unfolding lookup find_text get_table get_index text_equal HaveKeys get_value place deserialize_from
create_index-rids_keyed_example =
    create_index-rids_keyed with_table one_page 2 0 1541 index_i table_t table
      (new_column (97 ∷ []) TypeId.integer 0) ((196608, 5 ∷ 6 ∷ []) ∷ []) (1541 ∷ []) refl refl refl
      refl refl two_bytes ((integer_value TypeId.integer 1541, refl, refl, refl), tt)
