-- ===== src/Types/Division.antt =====
-- Division and remainder of INTEGER values: src/type/value.cpp.
use zlchen_dsaa2031_project.Prelude.{
  ℕ, ◌+◌, ◌-◌, ◌*◌, ◌/◌, ◌%◌, ◌<◌, ◌≤◌, ◌≡◌, Option, none, some, Bool, true, false, ◌&&◌, ◌||◌,
  ◌==◌, arith, if◌then◌else◌, ◌>>=◌, Bool-cases, inl, inr, leb→le, is_negative, negate,
}
use zlchen_dsaa2031_project.Types.{TypeId, Floats, integer_value}
use zlchen_dsaa2031_project.Types.Arithmetic.{add, multiply, divide, modulo, int_divide, int_modulo}

distribute : (c a b : ℕ) → c * b + a * b ≡ (c + a) * b
distribute c a b = ground arith

commute : (a b : ℕ) → a * b ≡ b * a
commute a b = ground arith

divided : (a b : ℕ) → 0 < b → (a / b) * b + a % b ≡ a
divided a b some_b = ground arith

remainder_small : (a b : ℕ) → 0 < b → a % b < b
remainder_small a b some_b = ground arith

complement :
    (x y b : ℕ)
    → x + y ≡ 4294967296 * b
    → x % 4294967296 ≡ (4294967296 - y % 4294967296) % 4294967296
complement x y b h = omega arith

product-negate :
    (a b : ℕ)
    → a ≤ 4294967296
    → (4294967296 - a) * b % 4294967296 ≡ (4294967296 - a * b % 4294967296) % 4294967296
product-negate a b h =
    complement ((4294967296 - a) * b) (a * b) b (ground (arith, distribute (4294967296 - a) a b))

-- A factor that is negated negates the product.
negate-times :
    (a b : ℕ)
    → a < 4294967296
    → negate a * b % 4294967296 ≡ (4294967296 - a * b % 4294967296) % 4294967296
negate-times a b low = ground (arith, product-negate a b (omega arith))

times-negated :
    (a b : ℕ)
    → b < 4294967296
    → a * (4294967296 - b) % 4294967296 ≡ (4294967296 - a * b % 4294967296) % 4294967296
times-negated a b low =
    ground (arith, commute a b, commute a (4294967296 - b), product-negate b a (omega arith))

quotient_small : (a b : ℕ) → 0 < b → a / b ≤ a
quotient_small a b h = ground arith

-- Both signs of the dividend and of the divisor.
rebuilt_plus_plus :
    (a b : ℕ) → a < 2147483648 → 0 < b → ((a / b) * b % 4294967296 + a % b) % 4294967296 ≡ a
rebuilt_plus_plus a b low pos = ground (arith, divided a b pos)

rebuilt_plus_minus :
    (a b : ℕ)
    → a < 2147483648
    → 0 < b
    → b ≤ 2147483648
    → (negate (a / b) * (4294967296 - b) % 4294967296 + a % b) % 4294967296 ≡ a
rebuilt_plus_minus a b low pos high = ground (
  arith,
  divided a b pos,
  quotient_small a b pos,
  negate-times (a / b) (4294967296 - b) (omega (arith, quotient_small a b pos)),
  times-negated (a / b) b (omega arith),
)

rebuilt_minus_plus :
    (a b : ℕ)
    → 0 < a
    → a ≤ 2147483648
    → 0 < b
    → (negate (a / b) * b % 4294967296 + negate (a % b)) % 4294967296 ≡ 4294967296 - a
rebuilt_minus_plus a b some_a low pos = ground (
  arith,
  divided a b pos,
  quotient_small a b pos,
  negate-times (a / b) b (omega (arith, quotient_small a b pos)),
)

rebuilt_minus_minus :
    (a b : ℕ)
    → 0 < a
    → a ≤ 2147483648
    → 0 < b
    → b ≤ 2147483648
    → ((a / b) * (4294967296 - b) % 4294967296 + negate (a % b)) % 4294967296 ≡ 4294967296 - a
rebuilt_minus_minus a b some_a low pos high =
    ground (arith, divided a b pos, quotient_small a b pos, times-negated (a / b) b (omega arith))

-- The quotient times the divisor plus the remainder, on patterns.
rebuilt : ℕ → ℕ → Option ℕ
rebuilt i j = do
  q ← int_divide i j
  r ← int_modulo i j
  some ((q * j % 4294967296 + r) % 4294967296)

double_negate : (b : ℕ) → b < 4294967296 → 4294967296 - (4294967296 - b) ≡ b
double_negate b low = omega arith

rebuilt_same :
    (i j : ℕ)
    → i < 4294967296
    → j < 4294967296
    → (j == 0) ≡ false
    → ((i == 2147483648) && (j == 4294967295)) ≡ false
    → rebuilt i j ≡ some i
unfolding rebuilt int_divide int_modulo
rebuilt_same i j low low' some_j fits = elim (Bool-cases (is_negative i)) [
  | inl below ↦ elim (Bool-cases (is_negative j)) [
    | inl below' ↦ ground (
      arith,
      double_negate i low,
      double_negate j low',
      rebuilt_minus_minus (4294967296 - i) (4294967296 - j) (omega arith)
          (omega (leb→le 2147483648 i below, arith)) (omega arith)
          (omega (leb→le 2147483648 j below', arith)),
    )
    | inr above' ↦ ground (
      arith,
      double_negate i low,
      rebuilt_minus_plus (4294967296 - i) j (omega arith) (omega (leb→le 2147483648 i below, arith))
          (ground arith),
    )
  ]
  | inr above ↦ elim (Bool-cases (is_negative j)) [
    | inl below' ↦ ground (
      arith,
      double_negate j low',
      rebuilt_plus_minus i (4294967296 - j) (ground arith) (omega arith)
          (omega (leb→le 2147483648 j below', arith)),
    )
    | inr above' ↦ ground (arith, rebuilt_plus_plus i j (ground arith) (ground arith))
  ]
]

-- The processor stops at a division of `int`.
abbrev pub traps : ℕ → ℕ → Bool
traps i j = (j == 0) || ((i == 2147483648) && (j == 4294967295))

int_divide-none : (i j : ℕ) → traps i j ≡ true → int_divide i j ≡ none
unfolding int_divide
int_divide-none i j h = ground arith

-- Of two INTEGER values, the quotient times the divisor plus the remainder is the dividend, as C++
-- promises of `/` and `%`; where the divisor is 0, or the quotient overflows, there is no result.
pub divide-modulo :
    (floats : Floats) (i j : ℕ)
    → i < 4294967296
    → j < 4294967296
    → (do
      quotient ← divide floats (integer_value TypeId.integer i) (integer_value TypeId.integer j)
      product ← multiply floats quotient (integer_value TypeId.integer j)
      remainder ← modulo (integer_value TypeId.integer i) (integer_value TypeId.integer j)
      add floats product remainder)
      ≡ (if traps i j then none else some (integer_value TypeId.integer i))
unfolding divide multiply modulo add rebuilt
divide-modulo floats i j low low' = elim (Bool-cases (traps i j)) [
  | inl stops ↦ ground (arith, int_divide-none i j stops)
  | inr runs ↦ ground (arith, rebuilt_same i j low low' (ground arith) (ground arith))
]
