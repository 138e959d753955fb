-- ===== src/Types/Orders.antt =====
-- What the six comparisons of `Value` say together: src/type/value.cpp.
use zlchen_dsaa2031_project.Prelude.{
  ◌<◌, ◌≡◌, refl, some, Bool, true, false, not, ◌||◌, ◌==◌, arith, if◌then◌else◌, ◌>>=◌,
}
use zlchen_dsaa2031_project.Types.{TypeId, Value, Floats, same_type, truth}
use zlchen_dsaa2031_project.Types.Arithmetic.{logical_not}
use zlchen_dsaa2031_project.Types.Compare.{
  compare_less_than, compare_greater_than, compare_less_than_or_equal,
  compare_greater_than_or_equal, compare_equals, compare_not_equals, int_less, text_less,
  text_equal, verdict, holds,
}
use zlchen_dsaa2031_project.Types.Order.{one_of, text_one_of, text_less_trans, int_one_of}

-- The types whose order the standard fixes in full: INTEGER and VARCHAR.
abbrev pub is_ordered : TypeId → Bool
is_ordered type = same_type type TypeId.integer || same_type type TypeId.varchar

logical_not-verdict : (b : Bool) → (verdict b >>= logical_not) ≡ verdict (not b)
unfolding logical_not
logical_not-verdict true = refl
logical_not-verdict false = refl

-- For two values of any types other than FLOAT on the left, the comparisons agree, where one
-- throws included: `>` is `<` with the sides exchanged, `<=` is the negation of `>`, `>=` is that of
-- `<`, and `!=` is that of `==`.
pub comparisons_agree :
    (floats : Floats) (v o : Value)
    → same_type v.type_id TypeId.float ≡ false
    → (compare_greater_than floats v o ≡ compare_less_than floats o v)
      × (compare_less_than_or_equal floats v o ≡ (compare_greater_than floats v o >>= logical_not))
      × (compare_greater_than_or_equal floats v o ≡ (compare_less_than floats v o >>= logical_not))
      × (compare_not_equals floats v o ≡ (compare_equals floats v o >>= logical_not))
unfolding compare_less_than compare_greater_than compare_less_than_or_equal
    compare_greater_than_or_equal compare_equals compare_not_equals
comparisons_agree floats v o h = ground (
  arith,
  logical_not-verdict (int_less o.word v.word),
  logical_not-verdict (int_less v.word o.word),
  logical_not-verdict (text_less o.text v.text),
  logical_not-verdict (text_less v.text o.text),
  logical_not-verdict (v.word == o.word),
  logical_not-verdict (floats.float_equal v.word o.word),
  logical_not-verdict (if truth v then truth o else not (truth o)),
  logical_not-verdict (text_equal v.text o.text),
)

verdict-holds : (b : Bool) → holds (verdict b) ≡ some b
verdict-holds true = refl
verdict-holds false = refl

-- Of two values of one of the types INTEGER and VARCHAR, whose words `int32_t` holds, exactly one of
-- "less", "equal" and "greater" is true, and none of the three throws.
pub comparisons_decide :
    (floats : Floats) (v o : Value)
    → v.word < 4294967296
    → o.word < 4294967296
    → is_ordered v.type_id ≡ true
    → same_type v.type_id o.type_id ≡ true
    → (do
      less ← holds (compare_less_than floats v o)
      equal ← holds (compare_equals floats v o)
      greater ← holds (compare_greater_than floats v o)
      some (one_of less equal greater))
      ≡ some true
unfolding compare_less_than compare_equals compare_greater_than
comparisons_decide floats v o low low' ordered same = ground (
  arith,
  verdict-holds (int_less o.word v.word),
  verdict-holds (int_less v.word o.word),
  verdict-holds (text_less o.text v.text),
  verdict-holds (text_less v.text o.text),
  verdict-holds (v.word == o.word),
  verdict-holds (text_equal v.text o.text),
  int_one_of v.word o.word low low',
  text_one_of v.text o.text,
)

-- "Less" is transitive on INTEGER and VARCHAR: where it holds of `v` and `o`, and of `o` and `u`,
-- it holds of `v` and `u`.
pub compare_less_than_trans :
    (floats : Floats) (v o u : Value)
    → is_ordered v.type_id ≡ true
    → holds (compare_less_than floats v o) ≡ some true
    → holds (compare_less_than floats o u) ≡ some true
    → holds (compare_less_than floats v u) ≡ some true
unfolding compare_less_than
compare_less_than_trans floats v o u ordered h k = ground (
  arith,
  verdict-holds (int_less v.word o.word),
  verdict-holds (int_less o.word u.word),
  verdict-holds (int_less v.word u.word),
  verdict-holds (text_less v.text o.text),
  verdict-holds (text_less o.text u.text),
  verdict-holds (text_less v.text u.text),
  text_less_trans v.text o.text u.text,
)
