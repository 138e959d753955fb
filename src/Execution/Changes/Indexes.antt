-- ===== src/Execution/Changes/Indexes.antt =====
-- The indexes behind src/execution/executors/insert_executor.cpp and delete_executor.cpp: what the
-- loops over the indexes of a table leave in each of them.
use zlchen_dsaa2031_project.Prelude.{ℕ, Option, some, List, [], ◌∷◌, if◌then◌else◌, ◌>>=◌}
use zlchen_dsaa2031_project.Storage.TableHeap.{Pages, heap_insert_tuple, heap_delete_tuple}
use zlchen_dsaa2031_project.Rows.{Tuple, Schema}
use zlchen_dsaa2031_project.Catalog.{Catalog, TableInfo, without}
use zlchen_dsaa2031_project.Execution.{Row}
use zlchen_dsaa2031_project.Execution.Changes.{key_at, bytes_of}
use zlchen_dsaa2031_project.Execution.Changes.Entries.{is_under}

-- The `RID`s of the tuples with a key, in their order.
unfoldable pub rids_placed : Schema → ℕ → ℕ → List (ℕ × Tuple) → List ℕ
rids_placed schema attr key [] = []
rids_placed schema attr key (row ∷ rows) =
    let later = rids_placed schema attr key rows in
    if is_under key (key_at schema row.1 attr) then row.0 ∷ later else later

-- The tuples put in the heap one after the other, each with its `RID`.
unfoldable pub heap_inserts : TableInfo → List Row → Pages → Option (Pages × List (ℕ × Tuple))
heap_inserts info [] s = some (s, [])
heap_inserts info (row ∷ rows) s =
    let (s', new_rid) = heap_insert_tuple s info.table (bytes_of row.0) in
    new_rid >>= λ r. heap_inserts info rows s' >>= λ (s'', placed). some (s'', (r, row.0) ∷ placed)

-- The tuples of the rows deleted from the heap one after the other.
unfoldable pub heap_deletes : List Row → Pages → Pages
heap_deletes [] s = s
heap_deletes (row ∷ rows) s = heap_deletes rows (heap_delete_tuple s row.1)

-- What is left of the `RID`s under a key, without those of the rows that have the key.
unfoldable pub rids_left : Schema → ℕ → ℕ → List Row → List ℕ → List ℕ
rids_left schema attr key [] rs = rs
rids_left schema attr key (row ∷ rows) rs =
    rids_left schema attr key rows
      (if is_under key (key_at schema row.0 attr) then without row.1 rs else rs)
