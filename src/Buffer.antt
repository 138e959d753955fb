-- ===== src/Buffer.antt =====
-- The memory layer: src/buffer and src/include/onebase/buffer.
pub mod Replacer
pub mod Pool
