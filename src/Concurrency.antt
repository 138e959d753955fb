-- ===== src/Concurrency.antt =====
-- The concurrency layer: src/concurrency and src/include/onebase/concurrency.
pub mod Transaction
pub mod Requests
pub mod LockManager
pub mod TransactionManager
