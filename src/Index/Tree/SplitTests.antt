-- ===== src/Index/Tree/SplitTests.antt =====
-- A full leaf below a root with room.
use zlchen_dsaa2031_project.Prelude.{
  ℕ, ◌*◌, ◌+◌, ◌<◌, ◌≡◌, refl, none, some, true, ◌==◌, lookup, if◌then◌else◌, arith,
}
use zlchen_dsaa2031_project.Index.Leaf as LeafPage
use zlchen_dsaa2031_project.Index.Leaf.Sorted.{or_else, lookup_missing}
use zlchen_dsaa2031_project.Index.Internal as InternalPage
use zlchen_dsaa2031_project.Index.Internal.Search.{Covers}
use zlchen_dsaa2031_project.Index.Tree.{Tree, ok, fetch, descend, find_leaf, child_for, get_value}
use zlchen_dsaa2031_project.Index.Leaf.{Leaf}
use zlchen_dsaa2031_project.Index.Tree.Changes.{insert}
use zlchen_dsaa2031_project.Index.Tree.Frame.{get_value-reached}
use zlchen_dsaa2031_project.Index.Tree.LeafSplit.{IsChild, insert_split-get_value}
use zlchen_dsaa2031_project.Index.Tree.Tests.{first, top, two_leaves, leaf_of-IsSorted}

-- Its first leaf has the keys 0 and 10.
abbrev roomy : Tree
roomy = record (two_leaves 2) { room = 1 }

first_cell : (key : ℕ) → key < 20 → Covers top key 0
first_cell key low = record {
  within = omega arith;
  up_to = λ i pos le. absurd (omega arith);
  behind = λ i gt i_low. low;
}

first-IsChild : IsChild roomy 1 (first 2) top 0
unfolding lookup InternalPage.value_index
first-IsChild = record {
  some_parent = omega arith;
  its_parent = refl;
  no_root = omega arith;
  parent_sorted = λ i j pos less low. absurd (omega arith);
  cell = refl;
  one_cell = λ i low e. omega arith;
  one_parent = λ x r other e picked. ground arith;
  in_range = λ i low. first_cell (0 + 10 * i) (omega arith);
}

to_seven : find_leaf roomy (child_for 7) ≡ ok (1, first 2)
unfolding find_leaf descend fetch lookup InternalPage.lookup
to_seven = refl

to_ten : find_leaf roomy (child_for 10) ≡ ok (1, first 2)
unfolding find_leaf descend fetch lookup InternalPage.lookup
to_ten = refl

insert_split-get_value_example :
    (t' : Tree) × (insert roomy 7 70 ≡ ok (t', true))
    × (get_value t' 10
        ≡ ok (or_else (LeafPage.lookup (first 2) 10) (if 7 == 10 then some 70 else none)))
unfolding lookup
insert_split-get_value_example =
    insert_split-get_value roomy 7 70 10 1 0 0 (first 2) top (LeafPage.lookup (first 2) 10)
      (omega arith) to_seven first-IsChild (leaf_of-IsSorted 0 2 2 9 2) (first_cell 7 (omega arith))
      (lookup_missing (first 2) 7 (λ i low e. absurd (omega arith))) refl (omega arith)
      (omega arith) (omega arith) refl refl
      (get_value-reached roomy 10 1 (first 2) (omega arith) to_ten)
