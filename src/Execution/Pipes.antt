-- ===== src/Execution/Pipes.antt =====
-- The executors that pass rows on: src/execution/executors/seq_scan_executor.cpp,
-- index_scan_executor.cpp, projection_executor.cpp and limit_executor.cpp. What is left of a walk
-- along the heap is the list of its tuples with their `RID`s.
pub mod Output
use zlchen_dsaa2031_project.Prelude.{
  ℕ, zero, suc, ◌+◌, ◌≡◌, refl, Option, none, some, Bool, true, false, List, [], ◌∷◌, take, leb,
  if◌then◌else◌, ◌>>=◌, arith,
}
use zlchen_dsaa2031_project.Types.{Floats, Value, get_as_integer}
use zlchen_dsaa2031_project.Rows.{Tuple, Schema, new_tuple, read_row}
use zlchen_dsaa2031_project.Rows.Expressions.{Expression, evaluate}
use zlchen_dsaa2031_project.Storage.TableHeap.{Pages, heap_get_tuple, begin, scan_from}
use zlchen_dsaa2031_project.Catalog.{
  Catalog, IndexInfo, lookup_integer, or_none, raw_tuple, get_table_by_oid, get_index_by_oid,
}
use zlchen_dsaa2031_project.Execution.{Row, no_tuple, passes}

-- The row of the output for a tuple of the table, with its values.
abbrev pub materialize : Schema → ℕ → List ℕ → Option Row
materialize schema r data_bytes = do
  vs ← read_row (raw_tuple r data_bytes) schema
  t ← new_tuple vs
  some (t, r)

-- The loop that the two scans share: it ends at the first row that passes.
unfoldable pub scan_next {ℓ} :
    {A : Type ℓ} → (A → Option Row) → (Tuple → Option Bool) → List A → Option (Option Row × List A)
scan_next load pass [] = some (none, [])
scan_next load pass (x ∷ xs) =
    let later = scan_next load pass xs in
    load x >>= λ row. pass row.0 >>= λ passed. if passed then some (some row, xs) else later

-- `SeqScanExecutor::Next`
unfoldable pub seq_scan_next :
    Floats
    → Schema
    → Option Expression
    → List (ℕ × List ℕ)
    → Option (Option Row × List (ℕ × List ℕ))
seq_scan_next floats schema predicate =
    scan_next (λ row. materialize schema row.0 row.1) (λ t. passes floats predicate t schema)

-- `IndexScanExecutor::Next`, over the `RID`s that `Init` found.
abbrev pub load_rid : Pages → Schema → ℕ → Option Row
load_rid s schema r = heap_get_tuple s r >>= λ data_bytes. materialize schema r data_bytes

unfoldable pub index_scan_next :
    Floats → Pages → Schema → Option Expression → List ℕ → Option (Option Row × List ℕ)
index_scan_next floats s schema predicate =
    scan_next (load_rid s schema) (λ t. passes floats predicate t schema)

-- `IndexScanExecutor::Init`: the `RID`s under the key, where the key is an INTEGER, not NULL.
abbrev rids_under : IndexInfo → Bool → Option ℕ → Option (List ℕ)
rids_under index true (some key) = some (or_none (lookup_integer index key))
rids_under index true none = some []
rids_under index false key = some []

abbrev pub integer_of : Value → Option ℕ
integer_of v = if v.is_null then none else get_as_integer v

unfoldable pub matching_rids : Floats → IndexInfo → Expression → Option (List ℕ)
matching_rids floats index lookup_key =
    if index.supports_point_lookup
    then (evaluate floats lookup_key no_tuple (record { columns = []; tuple_length = 0 })
        >>= (λ v. rids_under index true (integer_of v)))
    else some []

-- `Next` until it returns false.
unfoldable pub drain_rows {ℓ} :
    {A : Type ℓ} → (List A → Option (Option Row × List A)) → ℕ → List A → Option (List Row)
drain_rows next zero xs = none
drain_rows next (suc calls) xs = elim (next xs) [
  | none ↦ none
  | some (none, rest) ↦ some []
  | some (some row, rest) ↦ (do rows ← drain_rows next calls rest; some (row ∷ rows))
]

-- The two `Init`s, by what the catalog has under the oids: the schema of the table, and the rows or
-- the `RID`s to go through. They throw where there is no such table or index.
abbrev pub seq_scan_init : Catalog → Pages → ℕ → ℕ → Option (Schema × List (ℕ × List ℕ))
seq_scan_init c s table_oid steps = do
  info ← get_table_by_oid c table_oid
  rows ← scan_from s (begin s info.table) steps
  some (info.schema, rows)

abbrev pub index_scan_init : Floats → Catalog → ℕ → ℕ → Expression → Option (Schema × List ℕ)
index_scan_init floats c table_oid index_oid lookup_key = do
  info ← get_table_by_oid c table_oid
  index ← get_index_by_oid c index_oid
  rids ← matching_rids floats index lookup_key
  some (info.schema, rids)

-- `ProjectionExecutor::Next`
unfoldable pub evaluate_all : Floats → List Expression → Tuple → Schema → Option (List Value)
evaluate_all floats [] t schema = some []
evaluate_all floats (e ∷ es) t schema = do
  v ← evaluate floats e t schema
  vs ← evaluate_all floats es t schema
  some (v ∷ vs)

unfoldable pub projection_next :
    Floats → Schema → List Expression → List Row → Option (Option Row × List Row)
projection_next floats schema expressions [] = some (none, [])
projection_next floats schema expressions (row ∷ rows) = do
  vs ← evaluate_all floats expressions row.0 schema
  t ← new_tuple vs
  some (some (t, row.1), rows)

-- `LimitExecutor::Next`, with its count.
unfoldable pub limit_next : ℕ → ℕ → List Row → Option Row × (ℕ × List Row)
limit_next limit count [] = (none, (count, []))
limit_next limit count (row ∷ rows) =
    if leb limit count then (none, (count, row ∷ rows)) else (some row, (count + 1, rows))

-- `Next` until it returns false.
unfoldable pub limit_drain : ℕ → ℕ → ℕ → List Row → List Row
limit_drain limit zero count rows = []
limit_drain limit (suc calls) count rows =
    let (given, (counted, rest)) = limit_next limit count rows in
    elim given [ none ↦ [] | some row ↦ row ∷ limit_drain limit calls counted rest ]
