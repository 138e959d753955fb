-- ===== src/Optimizer.antt =====
-- The plans, src/include/onebase/execution/plans/, and the rewriting of them, src/optimizer/optimizer.cpp.
-- A plan that is shared by two parents is written twice: no node is changed but by the optimizer,
-- which puts the same node into both.
pub mod Joins
pub mod Scans
pub mod Tests
pub mod ScanTests
use zlchen_dsaa2031_project.Prelude.{
  ℕ, Option, none, some, Bool, true, false, ◌&&◌, List, [], ◌∷◌, ◌==◌, if◌then◌else◌,
}
use zlchen_dsaa2031_project.Rows.{Schema}
use zlchen_dsaa2031_project.Rows.Expressions.{
  Expression, column_value, constant_value, comparison, arithmetic, logic, ComparisonType, equal,
}
use zlchen_dsaa2031_project.Catalog.{
  Catalog, IndexInfo, TableInfo, get_table_by_oid, get_table_indexes,
}

pub data AggregationType : Type 0 where
  count_star count sum min max : AggregationType

pub data UtilityType : Type 0 where
  create_index drop_index show_tables show_indexes show_schema : UtilityType

pub data Plan : Type 0 where
  seq_scan : (output_schema : Schema) (table_oid : ℕ) (predicate : Option Expression) → Plan
  index_scan :
      (output_schema : Schema) (table_oid index_oid : ℕ) (lookup_key : Expression)
      (predicate : Option Expression)
      → Plan
  insert : (output_schema : Schema) (child : Plan) (table_oid : ℕ) → Plan
  delete : (output_schema : Schema) (child : Plan) (table_oid : ℕ) → Plan
  update :
      (output_schema : Schema) (child : Plan) (table_oid : ℕ) (update_exprs : List Expression)
      → Plan
  nested_loop_join :
      (output_schema : Schema) (left right : Plan) (predicate : Option Expression) → Plan
  hash_join :
      (output_schema : Schema) (left right : Plan) (left_key_expr right_key_expr : Expression)
      → Plan
  aggregation :
      (output_schema : Schema) (child : Plan) (group_bys aggregates : List Expression)
      (agg_types : List AggregationType)
      → Plan
  sort : (output_schema : Schema) (child : Plan) (order_bys : List (Bool × Expression)) → Plan
  limit : (output_schema : Schema) (child : Plan) (limit : ℕ) → Plan
  projection : (output_schema : Schema) (child : Plan) (expressions : List Expression) → Plan
  utility :
      (output_schema : Schema) (utility_type : UtilityType) (table_name index_name : List ℕ)
      (key_attrs : List ℕ) (object_names : List (List ℕ)) (missing_ok : Bool)
      → Plan

-- `GetOutputSchema`
unfoldable pub output_schema : Plan → Schema
output_schema (seq_scan schema table_oid predicate) = schema
output_schema (index_scan schema table_oid index_oid lookup_key predicate) = schema
output_schema (insert schema child table_oid) = schema
output_schema (delete schema child table_oid) = schema
output_schema (update schema child table_oid update_exprs) = schema
output_schema (nested_loop_join schema left right predicate) = schema
output_schema (hash_join schema left right left_key_expr right_key_expr) = schema
output_schema (aggregation schema child group_bys aggregates agg_types) = schema
output_schema (sort schema child order_bys) = schema
output_schema (limit schema child n) = schema
output_schema (projection schema child expressions) = schema
output_schema
      (utility schema utility_type table_name index_name key_attrs object_names missing_ok) =
    schema

-- The column that an equality compares with a constant, and the constant: the column on the left
-- is tried first.
abbrev pub point_sides : Expression → Expression → Option (ℕ × Expression)
point_sides (column_value tuple_idx col_idx ret_type) (constant_value val) =
    some (col_idx, constant_value val)
point_sides (constant_value val) (column_value tuple_idx col_idx ret_type) =
    some (col_idx, constant_value val)
point_sides _ _ = none

abbrev if_equal : {A : Type 0} → ComparisonType → Option A → Option A
if_equal equal found = found
if_equal _ found = none

abbrev pub point_lookup : Option Expression → Option (ℕ × Expression)
point_lookup (some (comparison left right comp_type)) = if_equal comp_type (point_sides left right)
point_lookup _ = none

abbrev pub covers : IndexInfo → ℕ → List ℕ → Bool
covers index col [] = false
covers index col (attr ∷ attrs) = index.supports_point_lookup && (attr == col)

-- The first index that supports a lookup in the column.
unfoldable pub first_index : ℕ → List IndexInfo → Option ℕ
first_index col [] = none
first_index col (index ∷ indexes) =
    let later = first_index col indexes in
    if covers index col index.key_attrs then some index.oid else later

abbrev pub index_for : ℕ → Option (List IndexInfo) → Option ℕ
index_for col none = none
index_for col (some indexes) = first_index col indexes

-- `GetTableIndexes` of the table of an oid.
abbrev pub indexes_of : Catalog → Option TableInfo → Option (List IndexInfo)
indexes_of c none = some []
indexes_of c (some info) = get_table_indexes c info.name

abbrev pub with_index : Schema → ℕ → Option Expression → Expression → Option ℕ → Plan
with_index schema table_oid predicate key none = seq_scan schema table_oid predicate
with_index schema table_oid predicate key (some index_oid) =
    index_scan schema table_oid index_oid key predicate

abbrev pub scan_by : Catalog → Schema → ℕ → Option Expression → Option (ℕ × Expression) → Plan
scan_by c schema table_oid predicate none = seq_scan schema table_oid predicate
scan_by c schema table_oid predicate (some (col, key)) =
    with_index schema table_oid predicate key
      (index_for col (indexes_of c (get_table_by_oid c table_oid)))

unfoldable pub optimize_seq_scan : Catalog → Plan → Plan
optimize_seq_scan c (seq_scan schema table_oid predicate) =
    scan_by c schema table_oid predicate (point_lookup predicate)
optimize_seq_scan c plan = plan

-- The keys of the two sides of an equality of a left and a right column, by the sides' tuples.
abbrev pub key_sides : Expression → Expression → Option (Expression × Expression)
key_sides (column_value l_tuple l_col l_type) (column_value r_tuple r_col r_type) =
    if (l_tuple == 0) && (r_tuple == 1)
    then some (column_value 0 l_col l_type, column_value 0 r_col r_type)
    else if (l_tuple == 1) && (r_tuple == 0)
    then some (column_value 0 r_col r_type, column_value 0 l_col l_type)
    else none
key_sides _ _ = none

abbrev pub join_keys : Option Expression → Option (Expression × Expression)
join_keys (some (comparison left right comp_type)) = if_equal comp_type (key_sides left right)
join_keys _ = none

abbrev join_by : Schema → Plan → Plan → Option Expression → Option (Expression × Expression) → Plan
join_by schema left right predicate none = nested_loop_join schema left right predicate
join_by schema left right predicate (some (left_key, right_key)) =
    hash_join schema left right left_key right_key

unfoldable pub optimize_nested_loop_join : Plan → Plan
optimize_nested_loop_join (nested_loop_join schema left right predicate) =
    join_by schema left right predicate (join_keys predicate)
optimize_nested_loop_join plan = plan

-- The two rules at a node.
abbrev pub apply_rules : Catalog → Plan → Plan
apply_rules c plan = optimize_nested_loop_join (optimize_seq_scan c plan)

-- `Optimize`: the children first.
unfoldable pub optimize : Catalog → Plan → Plan
optimize c (seq_scan schema table_oid predicate) =
    apply_rules c (seq_scan schema table_oid predicate)
optimize c (index_scan schema table_oid index_oid lookup_key predicate) =
    apply_rules c (index_scan schema table_oid index_oid lookup_key predicate)
optimize c (insert schema child table_oid) =
    apply_rules c (insert schema (optimize c child) table_oid)
optimize c (delete schema child table_oid) =
    apply_rules c (delete schema (optimize c child) table_oid)
optimize c (update schema child table_oid update_exprs) =
    apply_rules c (update schema (optimize c child) table_oid update_exprs)
optimize c (nested_loop_join schema left right predicate) =
    apply_rules c (nested_loop_join schema (optimize c left) (optimize c right) predicate)
optimize c (hash_join schema left right left_key_expr right_key_expr) =
    apply_rules c
      (hash_join schema (optimize c left) (optimize c right) left_key_expr right_key_expr)
optimize c (aggregation schema child group_bys aggregates agg_types) =
    apply_rules c (aggregation schema (optimize c child) group_bys aggregates agg_types)
optimize c (sort schema child order_bys) = apply_rules c (sort schema (optimize c child) order_bys)
optimize c (limit schema child n) = apply_rules c (limit schema (optimize c child) n)
optimize c (projection schema child expressions) =
    apply_rules c (projection schema (optimize c child) expressions)
optimize c (utility schema utility_type table_name index_name key_attrs object_names missing_ok) =
    apply_rules c
      (utility schema utility_type table_name index_name key_attrs object_names missing_ok)
