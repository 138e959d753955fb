-- ===== src/Lib.antt =====
-- OneBase, a small relational database: its disk, buffer pool, locks, index and table pages, values,
-- catalog, optimizer and executors.
--
-- The parts and how they interact (paths from the repository's root):
--   * `DiskManager` (src/storage/disk/disk_manager.cpp), in Storage/Disk: one file of pages behind
--     one stream. `ReadPage`, `WritePage`, `AllocatePage`, `DeallocatePage` are `read_page`,
--     `write_page`, `allocate_page`, `deallocate_page` on the record `Disk`.
--   * `LRUKReplacer` (src/buffer/lru_k_replacer.cpp), in Buffer/Replacer: which frame the pool may
--     give up. `Evict` is `evict`, its loop `scan` with one round `visit`; `RecordAccess`,
--     `SetEvictable`, `Remove`, `Size` are `record_access`, `set_evictable`, `remove`, `size`.
--   * `BufferPoolManager` (src/buffer/buffer_pool_manager.cpp), in Buffer/Pool: the frames, the page
--     table and the free list, over the other two. `NewPage`, `FetchPage`, `UnpinPage`,
--     `DeletePage`, `FlushPage`, `FlushAllPages` are the functions of those names. Each takes the
--     state and returns it; the calls that may throw or run into undefined behaviour return an
--     `Outcome`.
--   * `Transaction` and `LockManager` (src/concurrency/lock_manager.cpp), in
--     Concurrency/Transaction, Concurrency/Requests (the request list of a row) and
--     Concurrency/LockManager. A call holds the latch but while it waits on the condition
--     variable, so `lock_shared`, `lock_exclusive`, `lock_upgrade` run up to the first test of the
--     wait's predicate, `wake` tests it again, and `unlock` is one step. Steps interleaves them
--     with an abort from outside and with the steps of a commit; `Steps (init levels) s` says that
--     `s` is reachable.
--   * `TransactionManager` (src/concurrency/transaction_manager.cpp), in
--     Concurrency/TransactionManager: `begin`, `commit`, `abort`. The loop over a lock set from
--     which `Unlock` erases has the result `none` where its iterator is invalid.
--   * `TablePage` (src/storage/page/table_page.cpp), in Storage/TablePage over Storage/Bytes: the
--     4096 bytes of a page with slots from the front and tuples from the back. `InsertTuple`,
--     `GetTuple`, `DeleteTuple`, `UpdateTuple` are the functions of those names.
--   * `BPlusTreeLeafPage` and `BPlusTreeInternalPage` (src/storage/page/b_plus_tree_leaf_page.cpp and
--     b_plus_tree_internal_page.cpp), in Index/Leaf and Index/Internal, with the loops over their
--     cells in Index/Arrays. A page's `array_` is a function from indices to cells, so a shift or a
--     copy is the loop that the source has, and the theorems say what it does to the list of the
--     entries. Keys are ordered as `std::less<int>` orders them.
--   * `BPlusTree` and its iterator (src/storage/index/b_plus_tree.cpp, b_plus_tree_iterator.cpp), in
--     Index/Tree, with `Insert` in Index/Tree/Changes and `Remove` in Index/Tree/Removal: the pages
--     by their ids, as the buffer pool promises them. A result is a `Run`, which `hangs` where a
--     thread fetches a page whose latch it holds.
--   * `TableHeap` (src/storage/table/table_heap.cpp), in Storage/TableHeap: the chain of table pages,
--     over the pages that the buffer pool promises (`Pages`). `InsertTuple`, `GetTuple`,
--     `UpdateTuple`, `DeleteTuple` are `heap_insert_tuple` and so on; `Begin` and `++` are `begin`
--     and `increment`, and an iterator is a `RID`.
--   * `Value` (src/type/value.cpp), in Types: comparison in Types/Compare, arithmetic and logic in
--     Types/Arithmetic, bytes in Types/Serial. An operation that throws has the result `none`.
--   * `Column`, `Schema`, `Tuple` (src/include/onebase/catalog/column.h, schema.h,
--     src/storage/table/tuple.cpp), in Rows, and the expressions
--     (src/include/onebase/execution/expressions/), in Rows/Expressions.
--   * `Catalog` (src/catalog/catalog.cpp), in Catalog: tables and indexes by name and by oid, and the
--     entries of an index. `CreateIndex` walks the heap of its table.
--   * The executors (src/execution/executors/), in Execution: a child executor is the list of the rows
--     that it has still to give. Execution/NestedLoop and Execution/HashJoin are the two joins, whose
--     `next` is `Next`, and Execution/Joins the order of their output.
--     Execution/Pipes has the two scans, the projection and the limit, Execution/Aggregation the
--     aggregation, whose states and groups are those of `Init`, and Execution/Sort the
--     sort, with `std::sort` a parameter and its comparison `goes_first`.
--     Execution/Changes has the executors that insert, delete and update, which give one row with
--     the count.
--   * The plans (src/include/onebase/execution/plans/) and `Optimizer` (src/optimizer/optimizer.cpp),
--     in Optimizer: `optimize` and its two rules.
--
-- Numbers: counters and clocks of 64 bits wrap around in the model (`inc64`, `dec64`, `sub64`), pin
-- counts and page ids are the bit patterns of 32-bit numbers (`inc32`); the theorems name the room
-- that they need. Page contents are an arbitrary type `D` with a value for the zeroed page. A hash
-- map is an association list in any order. An `int32_t` of a value is its 32-bit pattern, whose sums
-- and products wrap; the operations on `float`, and its text, are the parameter `Floats`. The
-- loops go over a list or count down, or have fuel: the binary searches the width of their first
-- interval, the loops of the joins `rounds` and `hash_rounds` of the rows, the walks along a heap
-- the number of the pages; theorems show that this is enough. The way down in a tree, and the way
-- back up, have the number of its pages: a way that is longer meets a page again. An
-- index page has cells without end; where it is split, with the one entry too many in it, the model
-- faults if the 4096 bytes have no room for them, and so a maximal size above 339 in a leaf or 510
-- in an internal page is out of scope. The oids of the catalog are of 32 bits and wrap.
--
-- Not modelled: the page guards, of which the tree has the latches that are held; the binder, whose
-- input is the parse tree of a library; the executor of the utility statements and the factory of the
-- executors; the server and the client; the failure of the device itself, and files of 2 ^ 31 pages
-- and more.
pub mod Prelude
pub mod Storage
pub mod Buffer
pub mod Concurrency
pub mod Index
pub mod Types
pub mod Rows
pub mod Catalog
pub mod Execution
pub mod Optimizer
