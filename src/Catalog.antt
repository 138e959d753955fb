-- ===== src/Catalog.antt =====
-- `Catalog`: src/catalog/catalog.cpp and src/include/onebase/catalog/catalog.h. A map is an
-- association list; a pointer to a `TableInfo` or an `IndexInfo` is its contents. The heap of a
-- table is its first page's id, over the pages of Storage/TableHeap.
pub mod Entries
pub mod Names
pub mod Reach
pub mod Creation
pub mod Tests
use zlchen_dsaa2031_project.Prelude.{
  ℕ, ◌+◌, Option, none, some, Bool, true, false, not, ◌&&◌, ◌||◌, List, [], ◌∷◌, ◌++◌, ◌==◌, ltb,
  length, get_elem?, get_or, lookup, insert, erase, if◌then◌else◌, ◌>>=◌, is_some, inc32,
}
use zlchen_dsaa2031_project.Storage.TableHeap.{Pages, new_table_heap, begin, scan_from}
use zlchen_dsaa2031_project.Types.{TypeId, Value, same_type, get_as_integer}
use zlchen_dsaa2031_project.Types.TextMaps.{find_text, put_text, remove_text}
use zlchen_dsaa2031_project.Rows.{Column, Schema, Tuple, new_schema, get_value}

pub record TableInfo : Type 0 where
  pub schema : Schema
  pub name : List ℕ
  pub table : ℕ
  pub oid : ℕ

pub record IndexInfo : Type 0 where
  pub key_schema : Schema
  pub name : List ℕ
  pub table_name : List ℕ
  pub oid : ℕ
  pub key_attrs : List ℕ
  pub supports_point_lookup : Bool
  pub int_rid_map : List (ℕ × List ℕ)

pub record Catalog : Type 0 where
  pub next_table_oid : ℕ
  pub next_index_oid : ℕ
  pub tables : List (ℕ × TableInfo)
  pub table_names : List (List ℕ × ℕ)
  pub indexes : List (ℕ × IndexInfo)
  pub index_names : List (List ℕ × List (List ℕ × ℕ))

abbrev pub new_catalog : Catalog
new_catalog = record {
  next_table_oid = 1;
  next_index_oid = 1;
  tables = [];
  table_names = [];
  indexes = [];
  index_names = [];
}

-- `IndexInfo`
abbrev pub lookup_integer : IndexInfo → ℕ → Option (List ℕ)
lookup_integer index key = lookup key index.int_rid_map

abbrev pub or_none : Option (List ℕ) → List ℕ
or_none none = []
or_none (some rids) = rids

unfoldable pub insert_entry : IndexInfo → ℕ → ℕ → IndexInfo
insert_entry index key r = record index {
  int_rid_map = insert key (or_none (lookup key index.int_rid_map) ++ r ∷ []) index.int_rid_map;
}

-- `std::remove` with `erase`: every occurrence goes.
unfoldable pub without : ℕ → List ℕ → List ℕ
without r [] = []
without r (q ∷ qs) = let kept = without r qs in if q == r then kept else q ∷ kept

abbrev pub keep_or_erase : List (ℕ × List ℕ) → ℕ → List ℕ → List (ℕ × List ℕ)
keep_or_erase m key [] = erase key m
keep_or_erase m key (q ∷ qs) = insert key (q ∷ qs) m

abbrev pub entry_removed : List (ℕ × List ℕ) → ℕ → ℕ → Option (List ℕ) → List (ℕ × List ℕ)
entry_removed m key r none = m
entry_removed m key r (some rids) = keep_or_erase m key (without r rids)

unfoldable pub remove_entry : IndexInfo → ℕ → ℕ → IndexInfo
remove_entry index key r = record index {
  int_rid_map = entry_removed index.int_rid_map key r (lookup key index.int_rid_map);
}

-- `GetTable` by name: no such table, or the entry of its oid; `at` throws where there is none.
abbrev at_oid : {V : Type 0} → List (ℕ × V) → Option ℕ → Option (Option V)
at_oid m none = some none
at_oid m (some oid) = elim (lookup oid m) [ none ↦ none | some info ↦ some (some info) ]

unfoldable pub get_table : Catalog → List ℕ → Option (Option TableInfo)
get_table c table_name = at_oid c.tables (find_text table_name c.table_names)

abbrev pub get_table_by_oid : Catalog → ℕ → Option TableInfo
get_table_by_oid c oid = lookup oid c.tables

abbrev pub oid_in : List ℕ → Option (List (List ℕ × ℕ)) → Option ℕ
oid_in index_name none = none
oid_in index_name (some names) = find_text index_name names

-- The oid of an index by its name and its table's.
abbrev pub index_oid : Catalog → List ℕ → List ℕ → Option ℕ
index_oid c index_name table_name = oid_in index_name (find_text table_name c.index_names)

unfoldable pub get_index : Catalog → List ℕ → List ℕ → Option (Option IndexInfo)
get_index c index_name table_name = at_oid c.indexes (index_oid c index_name table_name)

abbrev pub get_index_by_oid : Catalog → ℕ → Option IndexInfo
get_index_by_oid c oid = lookup oid c.indexes

-- `GetAllTables` and `GetAllIndexes`
abbrev pub infos : {V : Type 0} → List (ℕ × V) → List V
infos [] = []
infos ((oid, info) ∷ m) = info ∷ infos m

abbrev pub get_all_tables : Catalog → List TableInfo
get_all_tables c = infos c.tables

abbrev pub get_all_indexes : Catalog → List IndexInfo
get_all_indexes c = infos c.indexes

unfoldable pub at_all : List (ℕ × IndexInfo) → List (List ℕ × ℕ) → Option (List IndexInfo)
at_all m [] = some []
at_all m ((name, oid) ∷ names) = do info ← lookup oid m; more ← at_all m names; some (info ∷ more)

abbrev pub names_of : Option (List (List ℕ × ℕ)) → List (List ℕ × ℕ)
names_of none = []
names_of (some names) = names

unfoldable pub get_table_indexes : Catalog → List ℕ → Option (List IndexInfo)
get_table_indexes c table_name = at_all c.indexes (names_of (find_text table_name c.index_names))

-- What a creation comes to: the entry, `nullptr`, or an exception.
pub data Created (V : Type 0) : Type 0 where
  created : (info : V) → Created V
  refused : Created V
  threw : Created V

abbrev pub with_heap :
    Catalog → Pages → List ℕ → Schema → Option (ℕ × Pages) → Catalog × Pages × Created TableInfo
with_heap c s name schema none = (record c { next_table_oid = inc32 c.next_table_oid }, s, threw)
with_heap c s name schema (some (first_page_id, s1)) =
    let info : TableInfo = record {
      schema = schema;
      name = name;
      table = first_page_id;
      oid = c.next_table_oid;
    } in
    (
      record c {
        next_table_oid = inc32 c.next_table_oid;
        tables = insert c.next_table_oid info c.tables;
        table_names = put_text name c.next_table_oid c.table_names;
      },
      s1,
      created info,
    )

unfoldable pub create_table :
    Catalog → Pages → List ℕ → Schema → Catalog × Pages × Created TableInfo
create_table c s name schema =
    if is_some (find_text name c.table_names)
    then (c, s, refused)
    else with_heap c s name schema (new_table_heap s)

-- The loop over the key attributes: none past the last column.
unfoldable pub key_columns : Schema → List ℕ → Option (List Column)
key_columns schema [] = some []
key_columns schema (attr ∷ attrs) = do
  column ← get_elem? schema.columns attr
  columns ← key_columns schema attrs
  some (column ∷ columns)

abbrev is_integer_column : Option Column → Bool
is_integer_column none = false
is_integer_column (some column) = same_type column.type_id TypeId.integer

-- One INTEGER column: its number.
abbrev pub point_attr : Schema → List ℕ → Option ℕ
point_attr schema [] = none
point_attr schema (attr ∷ []) =
    if is_integer_column (get_elem? schema.columns attr) then some attr else none
point_attr schema (attr ∷ next ∷ attrs) = none

-- The tuple of a heap, whose bytes are these.
abbrev pub raw_tuple : ℕ → List ℕ → Tuple
raw_tuple r data_bytes = record {
  rid = r;
  bytes = λ j. get_or data_bytes j 0;
  bytes_length = length data_bytes;
  values = [];
}

-- The INTEGER of a tuple of the table.
abbrev pub key_of : Schema → ℕ → ℕ × List ℕ → Option ℕ
key_of schema attr row = do v ← get_value (raw_tuple row.0 row.1) schema attr; get_as_integer v

-- The loop of `CreateIndex` over the tuples of the table.
unfoldable pub fill : Schema → ℕ → List (ℕ × List ℕ) → IndexInfo → Option IndexInfo
fill schema attr [] index = some index
fill schema attr (row ∷ rows) index = do
  key ← key_of schema attr row
  fill schema attr rows (insert_entry index key row.0)

abbrev pub new_index : Catalog → List ℕ → List ℕ → List ℕ → List Column → Bool → IndexInfo
new_index c index_name table_name key_attrs columns point = record {
  key_schema = new_schema columns;
  name = index_name;
  table_name = table_name;
  oid = c.next_index_oid;
  key_attrs = key_attrs;
  supports_point_lookup = point;
  int_rid_map = [];
}

-- The index with its entries, where it has them; the walk has at most `calls` steps.
abbrev pub filled_index :
    Catalog
    → Pages
    → ℕ
    → TableInfo
    → List ℕ
    → List ℕ
    → List ℕ
    → List Column
    → Option ℕ
    → Option IndexInfo
filled_index c s calls info index_name table_name key_attrs columns none =
    some (new_index c index_name table_name key_attrs columns false)
filled_index c s calls info index_name table_name key_attrs columns (some attr) = do
  rows ← scan_from s (begin s info.table) calls
  fill info.schema attr rows (new_index c index_name table_name key_attrs columns true)

abbrev pub with_index : Catalog → List ℕ → List ℕ → Option IndexInfo → Catalog × Created IndexInfo
with_index c index_name table_name none =
    (record c { next_index_oid = inc32 c.next_index_oid }, threw)
with_index c index_name table_name (some index) = (
  record c {
    next_index_oid = inc32 c.next_index_oid;
    indexes = insert c.next_index_oid index c.indexes;
    index_names =
        put_text table_name
          (put_text index_name c.next_index_oid (names_of (find_text table_name c.index_names)))
          c.index_names;
  },
  created index,
)

abbrev pub is_empty : List ℕ → Bool
is_empty [] = true
is_empty (x ∷ xs) = false

abbrev pub over_columns :
    Catalog
    → Pages
    → ℕ
    → TableInfo
    → List ℕ
    → List ℕ
    → List ℕ
    → Option (List Column)
    → Catalog × Created IndexInfo
over_columns c s calls info index_name table_name key_attrs none = (c, refused)
over_columns c s calls info index_name table_name key_attrs (some columns) =
    with_index c index_name table_name (
      filled_index c s calls info index_name table_name key_attrs columns
        (point_attr info.schema key_attrs))

abbrev pub over_table :
    Catalog
    → Pages
    → ℕ
    → List ℕ
    → List ℕ
    → List ℕ
    → Option (Option TableInfo)
    → Option (Option IndexInfo)
    → Catalog × Created IndexInfo
over_table c s calls index_name table_name key_attrs none index = (c, threw)
over_table c s calls index_name table_name key_attrs (some none) index = (c, refused)
over_table c s calls index_name table_name key_attrs (some (some info)) index =
    if is_empty index_name || is_empty key_attrs then (c, refused) else elim index [
      | none ↦ (c, threw)
      | some (some there) ↦ (c, refused)
      | some none ↦
          over_columns c s calls info index_name table_name key_attrs
            (key_columns info.schema key_attrs)
    ]

unfoldable pub create_index :
    Catalog → Pages → ℕ → List ℕ → List ℕ → List ℕ → Catalog × Created IndexInfo
create_index c s calls index_name table_name key_attrs =
    over_table c s calls index_name table_name key_attrs (get_table c table_name)
      (get_index c index_name table_name)

-- The names of a table without one; the table goes with its last index.
abbrev pub keep_names :
    List ℕ
    → List (List ℕ × ℕ)
    → List (List ℕ × List (List ℕ × ℕ))
    → List (List ℕ × List (List ℕ × ℕ))
keep_names table_name [] m = remove_text table_name m
keep_names table_name (entry ∷ names) m = put_text table_name (entry ∷ names) m

abbrev pub dropped : Catalog → List ℕ → List ℕ → Option ℕ → Catalog × Bool
dropped c index_name table_name none = (c, false)
dropped c index_name table_name (some oid) = (
  record c {
    indexes = erase oid c.indexes;
    index_names =
        keep_names table_name
          (remove_text index_name (names_of (find_text table_name c.index_names))) c.index_names;
  },
  true,
)

unfoldable pub drop_index : Catalog → List ℕ → List ℕ → Catalog × Bool
drop_index c index_name table_name =
    dropped c index_name table_name (index_oid c index_name table_name)
