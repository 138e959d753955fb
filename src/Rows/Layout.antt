-- ===== src/Rows/Layout.antt =====
-- A tuple written by its constructor, and its bytes read back through a schema, as a scan of the
-- table does: src/storage/table/tuple.cpp, src/include/onebase/catalog/schema.h.
use zlchen_dsaa2031_project.Prelude.{
  ℕ, zero, suc, ◌+◌, ◌%◌, ◌<◌, ◌≤◌, ◌≡◌, refl, ap, ◌∙◌, Option, some, Bool, true, false, ◌&&◌, ◌||◌,
  List, [], ◌∷◌, map, ◌==◌, length, get_elem?, All, Option-cases, inl, inr, ◌>>=◌, arith,
}
use zlchen_dsaa2031_project.Storage.Bytes.{Bytes, get32, write_bytes, read_bytes, read_bytes_same}
use zlchen_dsaa2031_project.Types.{TypeId, Value, same_type}
use zlchen_dsaa2031_project.Types.Serial.{
  serialize_to, deserialize_from, get_serialized_size, stored, IsStorable,
}
use zlchen_dsaa2031_project.Types.Stored.{deserialize_from-serialize_to, serialize_to_apart}
use zlchen_dsaa2031_project.Rows.{
  Column, Schema, Tuple, width, place, new_schema, append_values, new_tuple, get_value, read_from,
  read_row, blank, no_rid, tuple_serialize_to, tuple_deserialize_from,
}

-- The columns that a schema places where the constructor of the tuple writes: each is a BOOLEAN or
-- an INTEGER of its own width, and the last may have any type but INVALID.
abbrev pub is_packed : Column → Bool
is_packed column =
    (same_type column.type_id TypeId.boolean && (column.fixed_length == 1))
    || (same_type column.type_id TypeId.integer && (column.fixed_length == 4))

unfoldable pub AllPacked : List Column → Type 0
AllPacked [] = Unit
AllPacked (column ∷ []) = Unit
AllPacked (column ∷ next ∷ columns) = (is_packed column ≡ true) × AllPacked (next ∷ columns)

-- The values have the types of the columns.
unfoldable pub HasTypes : List Column → List Value → Type 0
HasTypes [] [] = Unit
HasTypes [] (v ∷ vs) = true ≡ false
HasTypes (column ∷ columns) [] = true ≡ false
HasTypes (column ∷ columns) (v ∷ vs) = (column.type_id ≡ v.type_id) × HasTypes columns vs

-- The columns read one after another.
read_columns : Bytes → List Column → Option (List Value)
read_columns m [] = some []
read_columns m (column ∷ columns) = do
  v ← deserialize_from m column.offset column.type_id
  vs ← read_columns m columns
  some (v ∷ vs)

get32_same :
    (m m' : Bytes) (a : ℕ) → ((i : ℕ) → i < 4 → m' (a + i) ≡ m (a + i)) → get32 m' a ≡ get32 m a
get32_same m m' a same =
    ground (
      arith,
      same 0 (omega arith),
      same 1 (omega arith),
      same 2 (omega arith),
      same 3 (omega arith),
    )

length-read_bytes : (m : Bytes) (a n : ℕ) → length (read_bytes m a n) ≡ n
unfolding read_bytes
length-read_bytes m a zero = refl
length-read_bytes m a (suc n) = ground (arith, length-read_bytes m (a + 1) n)

text_same :
    (m m' : Bytes) (a n : ℕ) (v : Value)
    → length v.text < 4294967292
    → get_serialized_size (record v { type_id = TypeId.varchar }) ≡ some n
    → ((j : ℕ) → a ≤ j → j < a + n → m' j ≡ m j)
    → deserialize_from m a TypeId.varchar ≡ some (stored (record v { type_id = TypeId.varchar }))
    → deserialize_from m' a TypeId.varchar ≡ some (stored (record v { type_id = TypeId.varchar }))
unfolding deserialize_from get_serialized_size stored
text_same m m' a n v short sized same read = rw (
  get32_same m m' a (λ i low. same (a + i) (omega arith) (omega (arith, long))),
  read_bytes_same m m' (a + 4) (get32 m a)
      (λ i low. same (a + 4 + i) (omega arith) (omega (arith, long, held))),
  read,
)
  where
    long : n ≡ 4 + length v.text
    long = ground arith

    kept : read_bytes m (a + 4) (get32 m a) ≡ v.text
    kept = ground arith

    held : get32 m a ≡ length v.text
    held = ground (arith, kept, length-read_bytes m (a + 4) (get32 m a), ap length kept)

-- What is read depends on the bytes of the value alone.
deserialize_from_same :
    (m m' : Bytes) (a n : ℕ) (v : Value)
    → IsStorable v
    → get_serialized_size v ≡ some n
    → ((j : ℕ) → a ≤ j → j < a + n → m' j ≡ m j)
    → (deserialize_from m a v.type_id ≡ some (stored v))
    → deserialize_from m' a v.type_id ≡ some (stored v)
unfolding deserialize_from get_serialized_size stored IsStorable
deserialize_from_same m m' a n v (small, short, typed) sized same read =
    by_type v.type_id typed sized read
  where
    by_type :
        (type : TypeId)
        → same_type type TypeId.invalid ≡ false
        → get_serialized_size (record v { type_id = type }) ≡ some n
        → (deserialize_from m a type ≡ some (stored (record v { type_id = type })))
        → deserialize_from m' a type ≡ some (stored (record v { type_id = type }))
    by_type TypeId.boolean typed sized read = ground (arith, same a (omega arith) (ground arith))
    by_type TypeId.integer typed sized read =
        ground (arith, get32_same m m' a (λ i low. same (a + i) (omega arith) (ground arith)))
    by_type TypeId.float typed sized read =
        ground (arith, get32_same m m' a (λ i low. same (a + i) (omega arith) (ground arith)))
    by_type TypeId.varchar typed sized read = text_same m m' a n v short sized same read
    by_type TypeId.invalid typed sized read = ground arith

-- The bytes before those that are appended stay, and the end is not before the start.
append_values_apart :
    (m m' : Bytes) (a e j : ℕ) (vs : List Value)
    → All IsStorable vs
    → append_values m a vs ≡ some (m', e)
    → (a ≤ e) × (j < a → m' j ≡ m j)
unfolding append_values
append_values_apart m m' a e j [] storable wrote = (ground arith, λ before. ground arith)
append_values_apart m m' a e j (v ∷ vs) (one, storable) wrote =
    elim (Option-cases (get_serialized_size v)) [
      | inl missing ↦ (ground arith, λ before. ground arith)
      | inr (n, sized) ↦ elim (Option-cases (serialize_to m a v)) [
        | inl missing ↦ (ground arith, λ before. ground arith)
        | inr (m1, put) ↦ (
          omega (arith, (append_values_apart m1 m' (a + n) e j vs storable (ground arith)).0),
          λ before. ground (
            arith,
            (append_values_apart m1 m' (a + n) e j vs storable (ground arith)).1,
            serialize_to_apart m m1 a n j v one put sized,
          ),
        )
      ]
    ]

packed_width :
    (column : Column) (v : Value) (n : ℕ)
    → is_packed column ≡ true
    → column.type_id ≡ v.type_id
    → get_serialized_size v ≡ some n
    → width column ≡ n
unfolding get_serialized_size
packed_width column v n packed typed sized = ground arith

both_empty : (a b : ℕ) → place a [] ≡ place b []
unfolding place
both_empty a b = refl

AllPacked-tail :
    (column : Column) (columns : List Column) → AllPacked (column ∷ columns) → AllPacked columns
unfolding AllPacked
AllPacked-tail column [] packed = tt
AllPacked-tail column (next ∷ columns) packed = packed.1

next_place :
    (column : Column) (columns : List Column) (v : Value) (a n : ℕ)
    → AllPacked (column ∷ columns)
    → column.type_id ≡ v.type_id
    → get_serialized_size v ≡ some n
    → a + n < 4294967296
    → place ((a + width column) % 4294967296) columns ≡ place (a + n) columns
unfolding AllPacked
next_place column [] v a n packed typed sized low = nothing_placed
  where
    nothing_placed : place ((a + width column) % 4294967296) [] ≡ place (a + n) []
    nothing_placed = both_empty ((a + width column) % 4294967296) (a + n)
next_place column (next ∷ columns) v a n packed typed sized low =
    ap (λ offset. place offset (next ∷ columns))
      (ground (arith, packed_width column v n packed.0 typed sized))

read_columns-append_values :
    (columns : List Column) (vs : List Value) (m m' seen : Bytes) (a e : ℕ)
    → AllPacked columns
    → HasTypes columns vs
    → All IsStorable vs
    → append_values m a vs ≡ some (m', e)
    → e < 4294967296
    → ((j : ℕ) → j < e → seen j ≡ m' j)
    → read_columns seen (place a columns) ≡ some (map stored vs)
unfolding append_values read_columns place AllPacked HasTypes
read_columns-append_values [] [] m m' seen a e packed typed storable wrote low same = refl
read_columns-append_values [] (v ∷ vs) m m' seen a e packed typed storable wrote low same =
    ground arith
read_columns-append_values (column ∷ columns) [] m m' seen a e packed typed storable wrote low
      same =
    ground arith
read_columns-append_values (column ∷ columns) (v ∷ vs) m m' seen a e packed (typed, types)
      (one, storable) wrote low same =
    elim (Option-cases (get_serialized_size v)) [
      | inl missing ↦ ground arith
      | inr (n, sized) ↦ elim (Option-cases (serialize_to m a v)) [
        | inl missing ↦ ground arith
        | inr (m1, put) ↦ ground (
          arith,
          deserialize_from_same m1 seen a n v one sized
              (λ j first last. ground (
                arith,
                append_values_apart m1 m' (a + n) e j vs storable (appended n m1 sized put),
                same j,
              ))
              (ground (arith, deserialize_from-serialize_to m a v one)),
          next_place column columns v a n packed typed sized (
              omega (
                arith,
                (append_values_apart m1 m' (a + n) e 0 vs storable (appended n m1 sized put)).0,
              )),
          read_columns-append_values columns vs m1 m' seen (a + n) e
              (AllPacked-tail column columns packed) types storable (appended n m1 sized put) low
              same,
        )
      ]
    ]
  where
    appended :
        (n : ℕ) (m1 : Bytes)
        → get_serialized_size v ≡ some n
        → serialize_to m a v ≡ some m1
        → append_values m1 (a + n) vs ≡ some (m', e)
    appended n m1 sized put = ground arith

-- The loop over the column numbers reads the columns in turn.
read_from-columns :
    (t : Tuple) (schema : Schema) (i : ℕ) (columns : List Column)
    → t.values ≡ []
    → ((k : ℕ) → get_elem? schema.columns (i + k) ≡ get_elem? columns k)
    → read_from t schema i (length columns) ≡ read_columns t.bytes columns
unfolding read_from read_columns get_value
read_from-columns t schema i [] raw found = refl
read_from-columns t schema i (column ∷ columns) raw found = ground (
  arith,
  found 0,
  read_from-columns t schema (i + 1) columns raw (λ k. ground (arith, found (k + 1))),
)

-- The tuple that `TableHeap::GetTuple` gives: the bytes of a tuple, copied to memory and back.
abbrev pub reloaded : Tuple → Bytes → ℕ → Tuple
reloaded t page a =
    tuple_deserialize_from (record { rid = no_rid; bytes = blank; bytes_length = 0; values = [] })
      (tuple_serialize_to t page a) a t.bytes_length

pub copied :
    (m dest : Bytes) (a n j k : ℕ)
    → j < n
    → write_bytes dest a (read_bytes m k n) (a + j) ≡ m (k + j)
unfolding write_bytes read_bytes
copied m dest a zero j k low = ground arith
copied m dest a (suc n) zero k low = ground arith
copied m dest a (suc n) (suc j) k low = ground (arith, copied m dest (a + 1) n j (k + 1))

pub new_tuple-append_values :
    (values : List Value) (t : Tuple)
    → new_tuple values ≡ some t
    → append_values blank 0 values ≡ some (t.bytes, t.bytes_length)
unfolding new_tuple
new_tuple-append_values values t made = elim (Option-cases (append_values blank 0 values)) [
  | inl missing ↦ ground arith
  | inr ((m, e), wrote) ↦ ground arith
]

-- A tuple of storable values, made by its constructor, copied to a page and read back through the
-- schema of its columns, has its values again, each with the mark of NULL gone. The columns before
-- the last are of the types BOOLEAN and INTEGER, the values have the types of the columns, and the
-- bytes are fewer than 2 ^ 32.
pub read_row-new_tuple :
    (columns : List Column) (values : List Value) (t : Tuple) (page : Bytes) (a : ℕ)
    → AllPacked columns
    → HasTypes columns values
    → All IsStorable values
    → new_tuple values ≡ some t
    → t.bytes_length < 4294967296
    → read_row (reloaded t page a) (new_schema columns) ≡ some (map stored values)
read_row-new_tuple columns values t page a packed typed storable made low =
    read_from-columns (reloaded t page a) (new_schema columns) 0 (place 0 columns) refl
      (λ k. ground arith)
    ∙ read_columns-append_values columns values blank t.bytes (reloaded t page a).bytes 0
        t.bytes_length packed typed storable (new_tuple-append_values values t made) low
        (λ j below. ground (arith, copied t.bytes page a t.bytes_length j 0 below))
