-- ===== src/Storage/TableHeap/Tests.antt =====
-- A heap of one page, with one tuple.
use zlchen_dsaa2031_project.Prelude.{◌≡◌, refl, some, [], ◌∷◌, lookup, arith}
use zlchen_dsaa2031_project.Storage.Bytes.{Bytes, set16, set32, write_bytes}
use zlchen_dsaa2031_project.Storage.Disk.{invalid_page_id}
use zlchen_dsaa2031_project.Storage.TableHeap.{Pages, begin, scan_from}
use zlchen_dsaa2031_project.Storage.TableHeap.Scan.{IsChain, heap_tuples, live, scan_from-begin}

-- The bytes 5 and 6, in slot 0.
abbrev page : Bytes
page =
    set16
      (set16
        (write_bytes (set32 (set32 (set32 (λ j. 0) 0 invalid_page_id) 4 1) 8 4094) 4094
          (5 ∷ 6 ∷ []))
        16 4094)
      18 2

abbrev pub one_page : Pages
one_page = record { pages = (3, page) ∷ []; fresh_id = 4; room = 1 }

pub one_page-IsChain : IsChain one_page 3 (3 ∷ [])
unfolding IsChain lookup set16 set32 write_bytes
one_page-IsChain = (refl, omega arith, (page, (refl, ground arith, refl)))

scan_from-begin_example :
    scan_from one_page (begin one_page 3) 2 ≡ some (heap_tuples one_page (3 ∷ []))
unfolding lookup heap_tuples live set16 set32 write_bytes
scan_from-begin_example =
    scan_from-begin one_page 3 (3 ∷ []) 2 one_page-IsChain (omega arith) (ground arith)
