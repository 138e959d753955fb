-- ===== src/Execution/Aggregation/Keys.antt =====
-- The key of a group as text, and the values that are read from it:
-- src/execution/executors/aggregation_executor.cpp.
use zlchen_dsaa2031_project.Prelude.{
  ℕ, ◌<◌, ◌≡◌, refl, ap, Option, none, some, List, [], ◌∷◌, ◌++◌, map, length, All, decimal, false,
  decimal-low, stoi-decimal, stoi_null, stoi, Bool-cases, inl, inr, arith,
}
use zlchen_dsaa2031_project.Types.{
  TypeId, Value, Floats, null_value, integer_value, varchar_value, null_text,
}
use zlchen_dsaa2031_project.Types.Compare.{text_equal}
use zlchen_dsaa2031_project.Types.Order.{text_equal-eq}
use zlchen_dsaa2031_project.Execution.Aggregation.{
  key_of_values, cut_bar, group_value, group_values,
}

-- NULL, or a number: as an INTEGER, and as the VARCHAR of its digits.
abbrev pub integer_key : Option ℕ → Value
integer_key none = null_value TypeId.integer
integer_key (some i) = integer_value TypeId.integer i

abbrev pub text_key : Option ℕ → Value
text_key none = null_value TypeId.varchar
text_key (some i) = varchar_value TypeId.varchar (decimal i)

abbrev pub IsInteger : Option ℕ → Type 0
IsInteger none = Unit
IsInteger (some i) = i < 4294967296

abbrev key_text : Option ℕ → List ℕ
key_text none = null_text
key_text (some i) = decimal i

cut_bar-append :
    (text rest : List ℕ)
    → All (λ c. c < 124) text
    → cut_bar (text ++ 124 ∷ rest) ≡ (text, some rest)
unfolding cut_bar
cut_bar-append [] rest low = refl
cut_bar-append (c ∷ cs) rest (small, low) = ground (arith, cut_bar-append cs rest low)

key_text-low : (k : Option ℕ) → All (λ c. c < 124) (key_text k)
key_text-low none = (omega arith, (omega arith, (omega arith, (omega arith, tt))))
key_text-low (some i) = decimal-low i

decimal-null : (i : ℕ) → i < 4294967296 → text_equal (decimal i) null_text ≡ false
decimal-null i low = elim (Bool-cases (text_equal (decimal i) null_text)) [
  | inl same ↦
      ground
        (arith, ap stoi (text_equal-eq (decimal i) null_text same), stoi-decimal i low, stoi_null)
  | inr other ↦ other
]

group_value-key_text : (k : Option ℕ) → IsInteger k → group_value (key_text k) ≡ integer_key k
unfolding group_value text_equal
group_value-key_text none low = refl
group_value-key_text (some i) low = rw (decimal-null i low, stoi-decimal i low)

group_values-read :
    (floats : Floats) (whole : List ℕ) (ks : List (Option ℕ))
    → All IsInteger ks
    → group_values (length ks) whole (key_of_values floats (map integer_key ks))
      ≡ map integer_key ks
unfolding group_values key_of_values
group_values-read floats whole [] low = refl
group_values-read floats whole (none ∷ ks) (one, low) = rw (
  cut_bar-append null_text (key_of_values floats (map integer_key ks)) (key_text-low none),
  group_value-key_text none tt,
  group_values-read floats whole ks low,
)
group_values-read floats whole (some i ∷ ks) (one, low) = rw (
  cut_bar-append (decimal i) (key_of_values floats (map integer_key ks)) (decimal-low i),
  group_value-key_text (some i) one,
  group_values-read floats whole ks low,
)

-- Group keys that are INTEGERs, NULL among them, come out of the key's text as they are. A VARCHAR of
-- digits has the text of the INTEGER, NULL that of NULL, so those come out as INTEGERs too.
pub group_values-key_of_values :
    (floats : Floats) (ks : List (Option ℕ))
    → All IsInteger ks
    → (group_values
          (length ks)
          (key_of_values floats (map integer_key ks))
          (key_of_values floats (map integer_key ks))
        ≡ map integer_key ks)
      × (key_of_values floats (map text_key ks) ≡ key_of_values floats (map integer_key ks))
unfolding key_of_values
group_values-key_of_values floats ks low =
    (group_values-read floats (key_of_values floats (map integer_key ks)) ks low, same_text ks)
  where
    same_text :
        (ks : List (Option ℕ))
        → key_of_values floats (map text_key ks) ≡ key_of_values floats (map integer_key ks)
    same_text [] = refl
    same_text (none ∷ ks) = rw (same_text ks)
    same_text (some i ∷ ks) = rw (same_text ks)
