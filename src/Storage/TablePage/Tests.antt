-- ===== src/Storage/TablePage/Tests.antt =====
-- Table pages with one tuple, and an empty one.
use zlchen_dsaa2031_project.Prelude.{
  ℕ, ◌+◌, ◌*◌, ◌<◌, ◌≤◌, ◌≡◌, ◌⊎◌, refl, List, [], ◌∷◌, ◌++◌, none, some, true, ◌==◌, length,
  if◌then◌else◌, arith,
}
use zlchen_dsaa2031_project.Storage.Bytes.{Bytes}
use zlchen_dsaa2031_project.Storage.TablePage.{
  next_page_id, num_tuples, free_space_pointer, tuple_offset, tuple_length, insert_tuple, get_tuple,
  update_tuple,
}
use zlchen_dsaa2031_project.Storage.TablePage.Layout.{IsValid}
use zlchen_dsaa2031_project.Storage.TablePage.Insert.{insert_tuple-get_tuple, tuples}
use zlchen_dsaa2031_project.Index.Arrays.{replace_at}
use zlchen_dsaa2031_project.Storage.TablePage.Update.{tuples-update_tuple}
use zlchen_dsaa2031_project.Storage.TablePage.Overlap.{update_tuple-overlap}

-- One slot; its tuple has 4 bytes, at 4000.
abbrev one : Bytes
one j =
    if j == 4
    then 1
    else if j == 8
    then 160
    else if j == 9
    then 15
    else if j == 16
    then 160
    else if j == 17
    then 15
    else if j == 18
    then 4
    else 7

-- The other bytes of the fields are 0, and all bytes that no field has are 7.
abbrev one_page : Bytes
one_page j =
    if j == 5
    then 0
    else if j == 6
    then 0
    else if j == 7
    then 0
    else if j == 10
    then 0
    else if j == 11
    then 0
    else if j == 19
    then 0
    else one j

-- The same slot with its tuple at 20, and no space left.
abbrev full_page : Bytes
full_page j =
    if j == 8
    then 20
    else if j == 9
    then 0
    else if j == 16
    then 20
    else if j == 17
    then 0
    else one_page j

one_page-IsValid : IsValid one_page
one_page-IsValid = record {
  room = omega arith;
  top = omega arith;
  inside = λ i low. first i (omega (arith, low));
  apart = λ i j low low' other. absurd (omega (arith, low, low', other));
}
  where
    first :
        (i : ℕ)
        → i ≡ 0
        → (tuple_length one_page i ≡ 0)
          ⊎ ((free_space_pointer one_page ≤ tuple_offset one_page i)
              × (tuple_offset one_page i + tuple_length one_page i ≤ 4096))
    first i e = ground (arith, e)

full_page-IsValid : IsValid full_page
full_page-IsValid = record {
  room = omega arith;
  top = omega arith;
  inside = λ i low. first i (omega (arith, low));
  apart = λ i j low low' other. absurd (omega (arith, low, low', other));
}
  where
    first :
        (i : ℕ)
        → i ≡ 0
        → (tuple_length full_page i ≡ 0)
          ⊎ ((free_space_pointer full_page ≤ tuple_offset full_page i)
              × (tuple_offset full_page i + tuple_length full_page i ≤ 4096))
    first i e = ground (arith, e)

abbrev tuple : List ℕ
tuple = 1 ∷ 2 ∷ []

insert_tuple-get_tuple_example :
    ((insert_tuple one_page tuple ≡ (one_page, none))
      × (free_space_pointer one_page < 16 + num_tuples one_page * 4 + 4 + length tuple))
    ⊎ ((m' : Bytes) × (insert_tuple one_page tuple ≡ (m', some (num_tuples one_page)))
        × IsValid m'
        × (num_tuples m' ≡ num_tuples one_page + 1)
        × (get_tuple m' (num_tuples one_page) ≡ tuple)
        × (tuples m' ≡ tuples one_page ++ tuple ∷ [])
        × (next_page_id m' ≡ next_page_id one_page))
insert_tuple-get_tuple_example = insert_tuple-get_tuple one_page tuple one_page-IsValid

tuples-update_tuple_example :
    let (m', ok) = update_tuple one_page 0 tuple in
    (ok ≡ true) × IsValid m' × (tuples m' ≡ replace_at 0 tuple (tuples one_page))
tuples-update_tuple_example =
    tuples-update_tuple one_page 0 tuple one_page-IsValid (omega arith) (omega arith)

update_tuple-overlap_example :
    ((update_tuple full_page 0 (9 ∷ [])).1 ≡ true) × ¬ IsValid (update_tuple full_page 0 (9 ∷ [])).0
update_tuple-overlap_example =
    update_tuple-overlap full_page 0 (9 ∷ []) full_page-IsValid (omega arith) refl (omega arith)
      (omega arith) (omega arith)
