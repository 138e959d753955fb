-- ===== src/Index/Leaf/Tests.antt =====
-- Leaves with three entries and with one.
use zlchen_dsaa2031_project.Prelude.{
  ℕ, ◌+◌, ◌*◌, ◌≡◌, refl, [], ◌∷◌, none, some, is_some, ◌==◌, if◌then◌else◌, arith,
}
use zlchen_dsaa2031_project.Index.Arrays.{shift_right, listing}
use zlchen_dsaa2031_project.Index.Leaf.{Leaf, search, key_index, lookup, insert}
use zlchen_dsaa2031_project.Index.Leaf.Search.{IsSorted}
use zlchen_dsaa2031_project.Index.Leaf.Sorted.{or_else, lookup-insert}
use zlchen_dsaa2031_project.Index.Leaf.Moves.{entries}

-- The keys 10, 20 and 30.
abbrev three : Leaf
three = record {
  size = 3;
  max_size = 4;
  parent_page_id = 1;
  next_page_id = 9;
  array = λ i. (10 * i + 10, i + 100);
}

abbrev one : Leaf
one = record {
  size = 1;
  max_size = 4;
  parent_page_id = 1;
  next_page_id = 8;
  array = λ i. (50, 150);
}

three-IsSorted : IsSorted three
three-IsSorted i j less low = omega arith

inserted : entries (insert three 15 7).0 ≡ (10, 100) ∷ (15, 7) ∷ (20, 101) ∷ (30, 102) ∷ []
unfolding insert key_index search shift_right entries listing
inserted = refl

lookup-insert_example :
    let (p', n) = insert three 15 7 in
    IsSorted p'
    × (n ≡ p'.size)
    × (n ≡ (if is_some (lookup three 15) then three.size else three.size + 1))
    × ((other : ℕ)
        → lookup p' other ≡ or_else (lookup three other) (if 15 == other then some 7 else none))
lookup-insert_example = lookup-insert three 15 7 three-IsSorted
