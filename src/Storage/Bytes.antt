-- ===== src/Storage/Bytes.antt =====
-- Memory as bytes, and the little-endian words that `reinterpret_cast` reads and writes in it.
use zlchen_dsaa2031_project.Prelude.{
  ℕ, zero, suc, ◌+◌, ◌*◌, ◌/◌, ◌%◌, ◌<◌, ◌≡◌, refl, List, [], ◌∷◌, ◌==◌, false, ◌&&◌, leb, ltb,
  length, arith, if◌then◌else◌,
}

abbrev pub Bytes : Type 0
Bytes = ℕ → ℕ

abbrev pub get16 : Bytes → ℕ → ℕ
get16 m a = m a + 256 * m (a + 1)

abbrev pub get32 : Bytes → ℕ → ℕ
get32 m a = m a + 256 * m (a + 1) + 65536 * m (a + 2) + 16777216 * m (a + 3)

abbrev pub set8 : Bytes → ℕ → ℕ → Bytes
set8 m a v j = if j == a then v else m j

unfoldable pub set16 : Bytes → ℕ → ℕ → Bytes
set16 m a v j = if j == a then v % 256 else if j == a + 1 then v / 256 % 256 else m j

unfoldable pub set32 : Bytes → ℕ → ℕ → Bytes
set32 m a v j =
    if j == a
    then v % 256
    else if j == a + 1
    then v / 256 % 256
    else if j == a + 2
    then v / 65536 % 256
    else if j == a + 3
    then v / 16777216 % 256
    else m j

-- `memcpy` to an address, and from one.
unfoldable pub write_bytes : Bytes → ℕ → List ℕ → Bytes
write_bytes m a [] = m
write_bytes m a (x ∷ xs) = set8 (write_bytes m (a + 1) xs) a x

unfoldable pub read_bytes : Bytes → ℕ → ℕ → List ℕ
read_bytes m a zero = []
read_bytes m a (suc n) = m a ∷ read_bytes m (a + 1) n

pub get16-set16 : (m : Bytes) (a v : ℕ) → v < 65536 → get16 (set16 m a v) a ≡ v
unfolding set16
get16-set16 m a v small = ground arith

pub get32-set32 : (m : Bytes) (a v : ℕ) → v < 4294967296 → get32 (set32 m a v) a ≡ v
unfolding set32
get32-set32 m a v small = ground arith

pub set16_apart : (m : Bytes) (a v j : ℕ) → (leb a j && ltb j (a + 2)) ≡ false → set16 m a v j ≡ m j
unfolding set16
set16_apart m a v j h = ground arith

pub set32_apart : (m : Bytes) (a v j : ℕ) → (leb a j && ltb j (a + 4)) ≡ false → set32 m a v j ≡ m j
unfolding set32
set32_apart m a v j h = ground arith

pub write_bytes_apart :
    (m : Bytes) (a j : ℕ) (d : List ℕ)
    → (leb a j && ltb j (a + length d)) ≡ false
    → write_bytes m a d j ≡ m j
unfolding write_bytes
write_bytes_apart m a j [] h = refl
write_bytes_apart m a j (x ∷ xs) h = ground (arith, write_bytes_apart m (a + 1) j xs)

pub read_bytes_same :
    (m m' : Bytes) (a n : ℕ)
    → ((i : ℕ) → i < n → m' (a + i) ≡ m (a + i))
    → read_bytes m' a n ≡ read_bytes m a n
unfolding read_bytes
read_bytes_same m m' a zero h = refl
read_bytes_same m m' a (suc n) h = ground (
  arith,
  h 0 (omega arith),
  read_bytes_same m m' (a + 1) n (λ i low. ground (arith, h (i + 1) (omega arith))),
)

pub read_bytes-write_bytes :
    (m : Bytes) (a : ℕ) (d : List ℕ) → read_bytes (write_bytes m a d) a (length d) ≡ d
unfolding read_bytes write_bytes
read_bytes-write_bytes m a [] = refl
read_bytes-write_bytes m a (x ∷ xs) = ground (
  arith,
  read_bytes_same (write_bytes m (a + 1) xs) (set8 (write_bytes m (a + 1) xs) a x) (a + 1)
      (length xs) (λ i low. ground arith),
  read_bytes-write_bytes m (a + 1) xs,
)
