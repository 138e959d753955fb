-- ===== src/Execution/Changes/Tests.antt =====
-- A table of one page with an index: a row inserted, a row deleted.
use zlchen_dsaa2031_project.Prelude.{ℕ, Option, none, some, List, [], ◌∷◌}
use zlchen_dsaa2031_project.Storage.TableHeap.{Pages}
use zlchen_dsaa2031_project.Storage.TableHeap.Tests.{one_page}
use zlchen_dsaa2031_project.Rows.Tests.{number_row}
use zlchen_dsaa2031_project.Catalog.{Catalog, TableInfo, new_catalog}
use zlchen_dsaa2031_project.Catalog.Tests.{five, filled, one_column, table_t, index_i}
use zlchen_dsaa2031_project.Execution.{Row}
use zlchen_dsaa2031_project.Execution.Changes.{insert_rows, delete_rows}

abbrev table_info : TableInfo
table_info = record { schema = one_column; name = table_t; table = 3; oid = 1 }

abbrev names : List (List ℕ × ℕ)
names = (index_i, 1) ∷ []

abbrev one_table : Catalog
one_table = record new_catalog { indexes = (1, five) ∷ [] }

abbrev or_start : Option (Catalog × Pages × ℕ) → Catalog × Pages × ℕ
or_start none = (new_catalog, one_page, 0)
or_start (some outcome) = outcome

abbrev two_rows : List Row
two_rows = (number_row 5, 0) ∷ (number_row 9, 0) ∷ []

abbrev after_insert : Catalog × Pages × ℕ
unfolding insert_rows
after_insert = or_start (insert_rows table_info names two_rows one_table one_page 0)

-- The tuple of slot 0 of page 3, under the key 5.
abbrev held_row : List Row
held_row = (number_row 5, 196608) ∷ []

abbrev two_entries : Catalog
two_entries = record new_catalog { indexes = (1, filled) ∷ [] }

abbrev after_delete : Catalog × Pages × ℕ
unfolding delete_rows
after_delete = or_start (delete_rows table_info names held_row two_entries one_page 0)
