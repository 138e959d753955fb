-- ===== src/Index.antt =====
-- The pages of the B+ tree: src/storage/page/b_plus_tree_leaf_page.cpp and
-- src/storage/page/b_plus_tree_internal_page.cpp, and the tree over them:
-- src/storage/index/b_plus_tree.cpp.
pub mod Arrays
pub mod Leaf
pub mod Tree
pub mod Internal
