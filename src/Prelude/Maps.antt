-- ===== src/Prelude/Maps.antt =====
-- `std::unordered_map` with a number for its key: an association list, whose order stands for the
-- order in which the map is iterated.
use Prim.Native.Nat.{suc, ℕ, ◌+◌, ◌≤◌}
use mathlib.Core.Path.{◌≡◌, refl}
use mathlib.Core.Bool.{false, ◌||◌}
use mathlib.Core.Option.{Option, none, some}
use mathlib.Core.List.{List, [], ◌∷◌, map}
use native.Mathlib.Omega.{arith}
use zlchen_dsaa2031_project.Prelude.Tests.{◌==◌, if◌then◌else◌}
use zlchen_dsaa2031_project.Prelude.Lists.{length, contains, Distinct, All}

module _ {ℓ} {V : Type ℓ} where
  -- `find`
  unfoldable pub lookup : ℕ → List (ℕ × V) → Option V
  lookup key [] = none
  lookup key (entry ∷ others) = if entry.0 == key then some entry.1 else lookup key others

  -- `m[k] = v`: a new key may come anywhere in the iteration; here it comes last.
  unfoldable pub insert : ℕ → V → List (ℕ × V) → List (ℕ × V)
  insert key val [] = (key, val) ∷ []
  insert key val (entry ∷ others) =
      if entry.0 == key then (key, val) ∷ others else entry ∷ insert key val others

  -- `erase(k)`
  unfoldable pub erase : ℕ → List (ℕ × V) → List (ℕ × V)
  erase k [] = []
  erase k ((j, w) ∷ m) = if j == k then erase k m else (j, w) ∷ erase k m

  abbrev pub keys : List (ℕ × V) → List ℕ
  keys = map (λ e. e.0)

  pub lookup-insert :
      (key other : ℕ) (val : V) (m : List (ℕ × V))
      → lookup other (insert key val m) ≡ (if key == other then some val else lookup other m)
  unfolding insert lookup
  lookup-insert key other val [] = refl
  lookup-insert key other val (entry ∷ rest) = ground (arith, lookup-insert key other val rest)

  pub lookup-erase :
      (k j : ℕ) (m : List (ℕ × V)) → lookup j (erase k m) ≡ (if k == j then none else lookup j m)
  unfolding lookup erase
  lookup-erase k j [] = ground arith
  lookup-erase k j ((i, w) ∷ m) = ground (arith, lookup-erase k j m)

  contains-insert :
      (k j : ℕ) (v : V) (m : List (ℕ × V))
      → contains j (keys (insert k v m)) ≡ ((k == j) || contains j (keys m))
  unfolding insert
  contains-insert k j v [] = refl
  contains-insert k j v ((i, w) ∷ m) = ground (arith, contains-insert k j v m)

  contains-erase :
      (k j : ℕ) (m : List (ℕ × V))
      → contains j (keys (erase k m)) ≡ (if k == j then false else contains j (keys m))
  unfolding erase
  contains-erase k j [] = ground arith
  contains-erase k j ((i, w) ∷ m) = ground (arith, contains-erase k j m)

  pub insert-Distinct :
      (k : ℕ) (v : V) (m : List (ℕ × V)) → Distinct (keys m) → Distinct (keys (insert k v m))
  unfolding insert
  insert-Distinct k v [] d = (refl, tt)
  insert-Distinct k v ((i, w) ∷ m) d =
      ground (arith, contains-insert k i v m, insert-Distinct k v m d.1)

  pub erase-Distinct : (k : ℕ) (m : List (ℕ × V)) → Distinct (keys m) → Distinct (keys (erase k m))
  unfolding erase
  erase-Distinct k [] d = tt
  erase-Distinct k ((i, w) ∷ m) d = ground (arith, contains-erase k i m, erase-Distinct k m d.1)

  pub lookup_absent : (k : ℕ) (m : List (ℕ × V)) → contains k (keys m) ≡ false → lookup k m ≡ none
  unfolding lookup
  lookup_absent k [] h = refl
  lookup_absent k ((i, w) ∷ m) h = ground (arith, lookup_absent k m)

  pub length-insert-le : (k : ℕ) (v : V) (m : List (ℕ × V)) → length (insert k v m) ≤ length m + 1
  unfolding insert
  length-insert-le k v [] = omega arith
  length-insert-le k v ((i, w) ∷ m) = ground (arith, length-insert-le k v m)

  pub length-insert_present :
      (k : ℕ) (v w : V) (m : List (ℕ × V)) → lookup k m ≡ some w → length (insert k v m) ≡ length m
  unfolding insert lookup
  length-insert_present k v w [] h = ground arith
  length-insert_present k v w ((i, x) ∷ m) h = ground (arith, length-insert_present k v w m)

  pub length-insert_absent :
      (k : ℕ) (v : V) (m : List (ℕ × V))
      → lookup k m ≡ none
      → length (insert k v m) ≡ suc (length m)
  unfolding insert lookup
  length-insert_absent k v [] h = refl
  length-insert_absent k v ((i, x) ∷ m) h = ground (arith, length-insert_absent k v m)

  pub length-erase-le : (k : ℕ) (m : List (ℕ × V)) → length (erase k m) ≤ length m
  unfolding erase
  length-erase-le k [] = omega arith
  length-erase-le k ((i, w) ∷ m) = ground (arith, length-erase-le k m)

  pub erase_absent : (k : ℕ) (m : List (ℕ × V)) → contains k (keys m) ≡ false → erase k m ≡ m
  unfolding erase
  erase_absent k [] h = refl
  erase_absent k ((i, w) ∷ m) h = ground (arith, erase_absent k m)

  pub All-of_lookup {κ} :
      (P : ℕ × V → Type κ) (m : List (ℕ × V))
      → Distinct (keys m)
      → ((k : ℕ) (v : V) → lookup k m ≡ some v → P (k, v))
      → All P m
  unfolding lookup
  All-of_lookup P [] d h = tt
  All-of_lookup P ((i, w) ∷ m) d h = (
    h i w (ground arith),
    All-of_lookup P m d.1 (λ k v e. h k v (ground (arith, lookup_absent i m d.0))),
  )
