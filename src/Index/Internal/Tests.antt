-- ===== src/Index/Internal/Tests.antt =====
-- Internal pages with three children and with two.
use zlchen_dsaa2031_project.Prelude.{ℕ, ◌+◌, ◌-◌, ◌*◌, ◌≡◌, refl, [], ◌∷◌, some, arith}
use zlchen_dsaa2031_project.Index.Arrays.{shift_right, listing}
use zlchen_dsaa2031_project.Index.Internal.{
  Internal, value_at, index_of, value_index, lookup, move_last_to_front_of,
}
use zlchen_dsaa2031_project.Index.Internal.Search.{IsSorted, Covers, lookup-Covers}
use zlchen_dsaa2031_project.Index.Internal.Children.{children, separators}
use zlchen_dsaa2031_project.Index.Internal.Redistribute.{children-move_last_to_front_of}

-- The children 100, 101 and 102, with the keys 10 and 20 between them.
abbrev three : Internal
three = record { size = 3; max_size = 4; parent_page_id = 1; array = λ i. (10 * i, i + 100) }

abbrev two : Internal
two = record { size = 2; max_size = 4; parent_page_id = 1; array = λ i. (10 * i + 40, i + 200) }

three-IsSorted : IsSorted three
three-IsSorted i j pos less low = omega arith

-- The moved child 102 comes behind the child 200.
moved : children (move_last_to_front_of three two 45).1 ≡ 200 ∷ 102 ∷ 201 ∷ []
unfolding move_last_to_front_of children listing shift_right
moved = refl

lookup-Covers_example :
    (index : ℕ) × Covers three 15 index × (lookup three 15 ≡ value_at three index)
lookup-Covers_example = lookup-Covers three 15 three-IsSorted (omega arith)

children-move_last_to_front_of_example :
    let (p', recipient') = move_last_to_front_of three two 45 in
    (children recipient'
      ≡ value_at two 0 ∷ value_at three (three.size - 1) ∷ listing (value_at two) 1 (two.size - 1))
    × (separators recipient' ≡ 45 ∷ separators two)
    × (p'.size ≡ three.size - 1)
children-move_last_to_front_of_example = children-move_last_to_front_of three two 45 (omega arith)

found : value_index three 101 ≡ some 1
unfolding value_index index_of
found = refl
