-- ===== src/Optimizer/ScanTests.antt =====
-- A query for the rows with 1541 in the first column of a table with one row, by its index.
use zlchen_dsaa2031_project.Prelude.{ℕ, ◌≡◌, refl, some, true, [], ◌∷◌, All, lookup, arith}
use zlchen_dsaa2031_project.Types.{TypeId, Value, integer_value}
use zlchen_dsaa2031_project.Types.Tests.{some_floats}
use zlchen_dsaa2031_project.Types.TextMaps.{find_text}
use zlchen_dsaa2031_project.Types.Serial.{deserialize_from, serialize_to, get_serialized_size}
use zlchen_dsaa2031_project.Storage.Bytes.{set16, set32, write_bytes, read_bytes}
use zlchen_dsaa2031_project.Types.Compare.{text_equal}
use zlchen_dsaa2031_project.Storage.TablePage.{get_tuple, get_tuple_size}
use zlchen_dsaa2031_project.Storage.TableHeap.{begin, scan_from}
use zlchen_dsaa2031_project.Storage.TableHeap.Scan.{heap_tuples, live, scan_from-begin}
use zlchen_dsaa2031_project.Storage.TableHeap.Tests.{one_page, one_page-IsChain}
use zlchen_dsaa2031_project.Rows.{new_tuple, append_values, read_from, get_value, place}
use zlchen_dsaa2031_project.Rows.Expressions.{constant_value}
use zlchen_dsaa2031_project.Catalog.{
  Catalog, IndexInfo, TableInfo, new_catalog, get_table_indexes, at_all,
}
use zlchen_dsaa2031_project.Catalog.Entries.{rids, rids_with}
use zlchen_dsaa2031_project.Execution.Tests.{numbers}
use zlchen_dsaa2031_project.Optimizer.{seq_scan, index_scan, optimize_seq_scan, first_index}
use zlchen_dsaa2031_project.Optimizer.Scans.{
  point_predicate, IsRow, seq_scan_output, index_scan_output, optimize_seq_scan-SameScan,
}

abbrev wanted : Value
wanted = integer_value TypeId.integer 1541

abbrev table : TableInfo
table = record { schema = numbers; name = 116 ∷ []; table = 3; oid = 1 }

abbrev table_index : IndexInfo
table_index = record {
  key_schema = numbers;
  name = 105 ∷ [];
  table_name = 116 ∷ [];
  oid = 1;
  key_attrs = 0 ∷ [];
  supports_point_lookup = true;
  int_rid_map = (1541, 196608 ∷ []) ∷ [];
}

abbrev indexed : Catalog
indexed = record new_catalog {
  next_table_oid = 2;
  next_index_oid = 2;
  tables = (1, table) ∷ [];
  table_names = (116 ∷ [], 1) ∷ [];
  indexes = (1, table_index) ∷ [];
  index_names = (116 ∷ [], (105 ∷ [], 1) ∷ []) ∷ [];
}

stored_five : scan_from one_page (begin one_page 3) 2 ≡ some ((196608, 5 ∷ 6 ∷ []) ∷ [])
unfolding lookup heap_tuples live set16 set32 write_bytes get_tuple get_tuple_size read_bytes
stored_five = scan_from-begin one_page 3 (3 ∷ []) 2 one_page-IsChain (omega arith) (ground arith)

stored_five-IsRow : All (IsRow one_page numbers 0) ((196608, 5 ∷ 6 ∷ []) ∷ [])
unfolding lookup set16 set32 write_bytes get_tuple read_bytes read_from get_value place
    deserialize_from new_tuple append_values serialize_to get_serialized_size
stored_five-IsRow = (
  (
    refl,
    (
      record {
        rid = 281474976645120;
        bytes = set32 (λ a. 0) 0 1541;
        bytes_length = 4;
        values = wanted ∷ [];
      },
      (refl, (refl, refl, refl, omega arith)),
    ),
  ),
  tt,
)

by_key : (key : ℕ) → rids table_index key ≡ rids_with numbers 0 key ((196608, 5 ∷ 6 ∷ []) ∷ [])
unfolding lookup rids_with get_value place deserialize_from
by_key key = ground arith

optimize_seq_scan-SameScan_example :
    (optimize_seq_scan indexed
        (seq_scan numbers 1 (some (point_predicate true 0 0 TypeId.integer wanted)))
      ≡ index_scan numbers 1 1
          (constant_value wanted)
          (some (point_predicate true 0 0 TypeId.integer wanted)))
    × (index_scan_output some_floats indexed one_page 1 1
          (constant_value wanted)
          2
          (some (point_predicate true 0 0 TypeId.integer wanted))
        ≡ seq_scan_output some_floats indexed one_page 1 2 2
            (some (point_predicate true 0 0 TypeId.integer wanted)))
unfolding lookup find_text get_table_indexes at_all first_index rids_with get_value place
    deserialize_from text_equal
optimize_seq_scan-SameScan_example =
    optimize_seq_scan-SameScan some_floats indexed one_page 1 1 2 2 true 0 0 TypeId.integer wanted
      table (table_index ∷ []) ((196608, 5 ∷ 6 ∷ []) ∷ []) refl refl
      ((refl, λ point key. by_key key), tt) refl stored_five stored_five-IsRow refl refl
      (omega arith)
