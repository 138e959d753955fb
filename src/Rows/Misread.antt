-- ===== src/Rows/Misread.antt =====
-- A column after a VARCHAR: `Schema` gives a VARCHAR the width of a `uint32_t`, and the tuple puts
-- the length there and the text after it (src/include/onebase/catalog/schema.h,
-- src/storage/table/tuple.cpp, src/type/value.cpp).
use zlchen_dsaa2031_project.Prelude.{
  ℕ, ◌+◌, ◌*◌, ◌<◌, ◌≡◌, refl, ap, true, some, List, [], ◌∷◌, leb, ltb, ◌&&◌, false, length, arith,
}
use zlchen_dsaa2031_project.Storage.Bytes.{Bytes, get32, set32, write_bytes, set32_apart}
use zlchen_dsaa2031_project.Types.{TypeId, integer_value, varchar_value}
use zlchen_dsaa2031_project.Types.Serial.{serialize_to, deserialize_from, get_serialized_size}
use zlchen_dsaa2031_project.Rows.{
  Schema, Tuple, new_column, new_schema, place, append_values, new_tuple, get_value, blank,
}
use zlchen_dsaa2031_project.Rows.Layout.{reloaded, copied, new_tuple-append_values}
use zlchen_dsaa2031_project.Types.Stored.{take_all, whole_length}

-- A table of a VARCHAR column and an INTEGER column.
abbrev pub text_and_number : List ℕ → List ℕ → Schema
text_and_number first second =
    new_schema (new_column first TypeId.varchar 0 ∷ new_column second TypeId.integer 0 ∷ [])

-- The bytes of a row of the two.
row_bytes : List ℕ → ℕ → Bytes
row_bytes text i = set32 (write_bytes (set32 blank 0 (length text)) 4 text) (4 + length text) i

new_tuple-row_bytes :
    (text : List ℕ) (i : ℕ) (t : Tuple)
    → length text < 4294967292
    → new_tuple (varchar_value TypeId.varchar text ∷ integer_value TypeId.integer i ∷ []) ≡ some t
    → (t.bytes ≡ row_bytes text i) × (t.bytes_length ≡ 8 + length text)
unfolding append_values serialize_to get_serialized_size row_bytes
new_tuple-row_bytes text i t short made = ground (
  arith,
  take_all text,
  whole_length (length text) short,
  new_tuple-append_values (varchar_value TypeId.varchar text ∷ integer_value TypeId.integer i ∷ [])
      t made,
)

get32-row_bytes :
    (b0 b1 b2 b3 i : ℕ) (more : List ℕ)
    → get32 (row_bytes (b0 ∷ b1 ∷ b2 ∷ b3 ∷ more) i) 4 ≡ b0 + 256 * b1 + 65536 * b2 + 16777216 * b3
unfolding row_bytes write_bytes
get32-row_bytes b0 b1 b2 b3 i more = ground (arith, behind 4, behind 5, behind 6, behind 7)
  where
    before : Bytes
    before =
        write_bytes (set32 blank 0 (length (b0 ∷ b1 ∷ b2 ∷ b3 ∷ more))) 4 (b0 ∷ b1 ∷ b2 ∷ b3 ∷ more)

    behind :
        (j : ℕ)
        → (leb (8 + length more) j && ltb j (12 + length more)) ≡ false
        → set32 before (8 + length more) i j ≡ before j
    behind j h = set32_apart before (8 + length more) i j (ground arith)

-- A row of a text of at least four bytes and an INTEGER, read back from the page: the INTEGER is
-- the word that the first four bytes of the text make, whatever number was stored.
pub get_value_misread :
    (first second : List ℕ) (b0 b1 b2 b3 i : ℕ) (more : List ℕ) (t : Tuple) (page : Bytes) (a : ℕ)
    → length more < 1000000
    → new_tuple (
        varchar_value TypeId.varchar (b0 ∷ b1 ∷ b2 ∷ b3 ∷ more)
        ∷ integer_value TypeId.integer i
        ∷ [])
      ≡ some t
    → get_value (reloaded t page a) (text_and_number first second) 1
      ≡ some (integer_value TypeId.integer (b0 + 256 * b1 + 65536 * b2 + 16777216 * b3))
unfolding get_value place deserialize_from
get_value_misread first second b0 b1 b2 b3 i more t page a short made =
    ground
      (arith, row.1, at 4 refl, at 5 refl, at 6 refl, at 7 refl, get32-row_bytes b0 b1 b2 b3 i more)
  where
    row :
        (t.bytes ≡ row_bytes (b0 ∷ b1 ∷ b2 ∷ b3 ∷ more) i)
        × (t.bytes_length ≡ 8 + length (b0 ∷ b1 ∷ b2 ∷ b3 ∷ more))
    row = new_tuple-row_bytes (b0 ∷ b1 ∷ b2 ∷ b3 ∷ more) i t (ground arith) made

    at :
        (j : ℕ)
        → ltb j 8 ≡ true
        → (reloaded t page a).bytes j ≡ row_bytes (b0 ∷ b1 ∷ b2 ∷ b3 ∷ more) i j
    at j low = ground (
      arith,
      copied t.bytes page a t.bytes_length j 0 (ground (arith, row.1)),
      ap (λ m. m j) row.0,
    )
