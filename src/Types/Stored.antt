-- ===== src/Types/Stored.antt =====
-- What a value is once it is written and read again: src/type/value.cpp.
use zlchen_dsaa2031_project.Prelude.{
  ℕ, ◌+◌, ◌%◌, ◌<◌, ◌≡◌, refl, some, false, ◌&&◌, List, [], ◌∷◌, leb, ltb, length, take, arith,
  ◌>>=◌,
}
use zlchen_dsaa2031_project.Storage.Bytes.{
  Bytes, get32, set32, write_bytes, get32-set32, set32_apart, write_bytes_apart,
  read_bytes-write_bytes,
}
use zlchen_dsaa2031_project.Types.{TypeId, Value, same_type}
use zlchen_dsaa2031_project.Types.Serial.{
  serialize_to, deserialize_from, get_serialized_size, stored, IsStorable,
}

pub take_all : (s : List ℕ) → take (length s) s ≡ s
take_all [] = refl
take_all (x ∷ xs) = ground (arith, take_all xs)

write_bytes-get32 : (m : Bytes) (a : ℕ) (s : List ℕ) → get32 (write_bytes m (a + 4) s) a ≡ get32 m a
write_bytes-get32 m a s = ground (
  arith,
  write_bytes_apart m (a + 4) a s,
  write_bytes_apart m (a + 4) (a + 1) s,
  write_bytes_apart m (a + 4) (a + 2) s,
  write_bytes_apart m (a + 4) (a + 3) s,
)

pub whole_length : (n : ℕ) → n < 4294967292 → n % 4294967296 ≡ n
whole_length n short = omega arith

text_kept :
    (m : Bytes) (a : ℕ) (v : Value)
    → length v.text < 4294967292
    → (serialize_to m a (record v { type_id = TypeId.varchar }) >>= λ m'.
        deserialize_from m' a TypeId.varchar)
      ≡ some (stored (record v { type_id = TypeId.varchar }))
unfolding serialize_to deserialize_from stored
text_kept m a v short = rw (
  whole_length (length v.text) short,
  take_all v.text,
  write_bytes-get32 (set32 m a (length v.text)) a v.text,
  get32-set32 m a (length v.text) (omega arith),
  read_bytes-write_bytes (set32 m a (length v.text)) (a + 4) v.text,
)

-- A value whose text is below 2 ^ 32 - 4 bytes and whose type is not INVALID, written with
-- `SerializeTo` and read with `DeserializeFrom` at the same address and type, is the value with its
-- payload kept and the mark of NULL gone: a NULL comes back as 0, false or the empty text.
pub deserialize_from-serialize_to :
    (m : Bytes) (a : ℕ) (v : Value)
    → IsStorable v
    → (serialize_to m a v >>= λ m'. deserialize_from m' a v.type_id) ≡ some (stored v)
unfolding serialize_to deserialize_from stored IsStorable
deserialize_from-serialize_to m a v (small, short, typed) = by_type v.type_id typed
  where
    by_type :
        (type : TypeId)
        → same_type type TypeId.invalid ≡ false
        → (serialize_to m a (record v { type_id = type }) >>= λ m'. deserialize_from m' a type)
          ≡ some (stored (record v { type_id = type }))
    by_type TypeId.boolean h = ground arith
    by_type TypeId.integer h = ground (arith, get32-set32 m a v.word small)
    by_type TypeId.float h = ground (arith, get32-set32 m a v.word small)
    by_type TypeId.varchar h = text_kept m a v short
    by_type TypeId.invalid h = ground arith

-- A byte that `SerializeTo` changes is one of the `GetSerializedSize` bytes from the address on,
-- for a value whose text is below 2 ^ 32 - 4 bytes and whose type is not INVALID.
pub serialize_to_apart :
    (m m' : Bytes) (a n j : ℕ) (v : Value)
    → IsStorable v
    → serialize_to m a v ≡ some m'
    → get_serialized_size v ≡ some n
    → (leb a j && ltb j (a + n)) ≡ false
    → m' j ≡ m j
unfolding serialize_to get_serialized_size IsStorable
serialize_to_apart m m' a n j v (small, short, typed) wrote sized out =
    by_type v.type_id typed wrote sized
  where
    by_type :
        (type : TypeId)
        → same_type type TypeId.invalid ≡ false
        → serialize_to m a (record v { type_id = type }) ≡ some m'
        → get_serialized_size (record v { type_id = type }) ≡ some n
        → m' j ≡ m j
    by_type TypeId.boolean typed wrote sized = ground arith
    by_type TypeId.integer typed wrote sized = ground (arith, set32_apart m a v.word j)
    by_type TypeId.float typed wrote sized = ground (arith, set32_apart m a v.word j)
    by_type TypeId.varchar typed wrote sized = ground (
      arith,
      whole_length (length v.text) short,
      take_all v.text,
      write_bytes_apart (set32 m a (length v.text)) (a + 4) j v.text,
      set32_apart m a (length v.text) j,
    )
    by_type TypeId.invalid typed wrote sized = ground arith
