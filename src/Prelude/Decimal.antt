-- ===== src/Prelude/Decimal.antt =====
-- `int32_t` as a 32-bit pattern in two's complement: its sign, and its decimal text as
-- `std::to_string` writes it and `std::stoi` reads it, in bytes.
use Prim.Native.Nat.{ℕ, zero, suc, ◌+◌, ◌-◌, ◌*◌, ◌/◌, ◌%◌, ◌<◌, ◌≤◌}
use mathlib.Core.Path.{◌≡◌, refl, sym, subst, ap}
use mathlib.Core.Logic.{inl, inr}
use mathlib.Core.Bool.{Bool, true, false, not, ◌&&◌, ◌||◌}
use mathlib.Core.Option.{Option, none, some}
use mathlib.Core.List.{List, [], ◌∷◌}
use native.Mathlib.Omega.{arith}
use zlchen_dsaa2031_project.Prelude.Lists.{All}
use zlchen_dsaa2031_project.Prelude.Tests.{
  ltb, leb, ◌==◌, if◌then◌else◌, Bool-cases, lt→ltb, leb→le,
}

abbrev pub is_negative : ℕ → Bool
is_negative i = leb 2147483648 i

abbrev pub negate : ℕ → ℕ
negate i = (4294967296 - i) % 4294967296

abbrev pub magnitude : ℕ → ℕ
magnitude i = if is_negative i then 4294967296 - i else i

-- The digits of a number before a text.
digits : ℕ → ℕ → List ℕ → List ℕ
digits zero n rest = rest
digits (suc fuel) n rest =
    let longer = digits fuel (n / 10) ((48 + n % 10) ∷ rest) in
    if ltb n 10 then (48 + n) ∷ rest else longer

-- A magnitude is at most 2 ^ 31: ten digits are enough.
unfoldable pub decimal : ℕ → List ℕ
unfolding digits
decimal i = if is_negative i then 45 ∷ digits 10 (magnitude i) [] else digits 10 i []

is_space : ℕ → Bool
is_space c = (c == 32) || (leb 9 c && leb c 13)

is_digit : ℕ → Bool
is_digit c = leb 48 c && leb c 57

read_digits : List ℕ → ℕ → ℕ
unfolding is_digit
read_digits [] n = n
read_digits (c ∷ cs) n =
    let more = read_digits cs (n * 10 + (c - 48)) in if is_digit c then more else n

starts_with_digit : List ℕ → Bool
unfolding is_digit
starts_with_digit [] = false
starts_with_digit (c ∷ cs) = is_digit c

-- What follows the sign: no digit is `std::invalid_argument`, too large a number
-- `std::out_of_range`.
after_sign : Bool → List ℕ → Option ℕ
unfolding read_digits starts_with_digit
after_sign negative s =
    let n = read_digits s 0 in
    if not (starts_with_digit s)
    then none
    else if negative
    then (if leb n 2147483648 then some (negate n) else none)
    else if ltb n 2147483648
    then some n
    else none

after_spaces : List ℕ → Option ℕ
unfolding after_sign
after_spaces [] = none
after_spaces (c ∷ cs) =
    if c == 45
    then after_sign true cs
    else if c == 43
    then after_sign false cs
    else after_sign false (c ∷ cs)

unfoldable pub stoi : List ℕ → Option ℕ
unfolding after_spaces is_space
stoi [] = none
stoi (c ∷ cs) = let rest = stoi cs in if is_space c then rest else after_spaces (c ∷ cs)

power_of_ten : ℕ → ℕ
power_of_ten zero = 1
power_of_ten (suc n) = 10 * power_of_ten n

read_digits-digits :
    (fuel n : ℕ) (rest : List ℕ)
    → n < power_of_ten (suc fuel)
    → read_digits (digits (suc fuel) n rest) 0 ≡ read_digits rest n
unfolding digits read_digits is_digit power_of_ten
read_digits-digits zero n rest h = ground arith
read_digits-digits (suc fuel) n rest h = elim (Bool-cases (ltb n 10)) [
  | inl one ↦ ground arith
  | inr more ↦ ground (arith, read_digits-digits fuel (n / 10) ((48 + n % 10) ∷ rest) (omega arith))
]

starts_with_digit-digits :
    (fuel n : ℕ) (rest : List ℕ) → starts_with_digit (digits (suc fuel) n rest) ≡ true
unfolding digits starts_with_digit is_digit
starts_with_digit-digits zero n rest = ground arith
starts_with_digit-digits (suc fuel) n rest =
    ground (arith, starts_with_digit-digits fuel (n / 10) ((48 + n % 10) ∷ rest))

starts_with_digit-stoi : (s : List ℕ) → starts_with_digit s ≡ true → stoi s ≡ after_sign false s
unfolding starts_with_digit stoi after_spaces is_space is_digit
starts_with_digit-stoi [] h = ground arith
starts_with_digit-stoi (c ∷ cs) h = ground arith

after_sign-digits :
    (negative : Bool) (n : ℕ)
    → n < 10000000000
    → after_sign negative (digits 10 n []) ≡ (
        if negative
        then (if leb n 2147483648 then some (negate n) else none)
        else if ltb n 2147483648
        then some n
        else none)
unfolding after_sign read_digits power_of_ten
after_sign-digits negative n h =
    ground (arith, starts_with_digit-digits 9 n [], read_digits-digits 9 n [] h)

stoi_minus : (s : List ℕ) → stoi (45 ∷ s) ≡ after_sign true s
unfolding stoi after_spaces is_space
stoi_minus s = refl

stoi-negative :
    (i : ℕ) → 2147483648 ≤ i → i < 4294967296 → stoi (45 ∷ digits 10 (4294967296 - i) []) ≡ some i
stoi-negative i below low = rw (
  stoi_minus (digits 10 (4294967296 - i) []),
  after_sign-digits true (4294967296 - i) (omega arith),
  shorten,
)
  where
    shorten :
        (if leb (4294967296 - i) 2147483648 then some (negate (4294967296 - i)) else none) ≡ some i
    shorten = ground arith

stoi-positive : (i : ℕ) → i < 2147483648 → stoi (digits 10 i []) ≡ some i
stoi-positive i low = rw (
  starts_with_digit-stoi (digits 10 i []) (starts_with_digit-digits 9 i []),
  after_sign-digits false i (omega arith),
  lt→ltb i 2147483648 low,
)

-- What `std::to_string` writes of an `int`, `std::stoi` reads back.
pub stoi-decimal : (i : ℕ) → i < 4294967296 → stoi (decimal i) ≡ some i
unfolding decimal
stoi-decimal i low = elim (Bool-cases (is_negative i)) [
  | inl below ↦ rw (below, stoi-negative i (leb→le 2147483648 i below) low)
  | inr above ↦ rw (above, stoi-positive i (ground arith))
]

pub decimal_injective : (i j : ℕ) → i < 4294967296 → j < 4294967296 → decimal i ≡ decimal j → i ≡ j
decimal_injective i j low low' same =
    ground (arith, stoi-decimal i low, stoi-decimal j low', ap stoi same)

-- The text is of characters below '|', and is not "NULL", which is no number.
digits-low :
    (fuel n : ℕ) (rest : List ℕ) → All (λ c. c < 124) rest → All (λ c. c < 124) (digits fuel n rest)
unfolding digits
digits-low zero n rest low = low
digits-low (suc fuel) n rest low = elim (Bool-cases (ltb n 10)) [
  | inl one ↦ subst (All (λ c. c < 124)) (sym (digits_last one)) ((ground arith), low)
  | inr more ↦
      subst (All (λ c. c < 124)) (sym (digits_more more))
        (digits-low fuel (n / 10) ((48 + n % 10) ∷ rest) (omega arith, low))
]
  where
    digits_last : ltb n 10 ≡ true → digits (suc fuel) n rest ≡ (48 + n) ∷ rest
    digits_last one = rw one

    digits_more :
        ltb n 10 ≡ false → digits (suc fuel) n rest ≡ digits fuel (n / 10) ((48 + n % 10) ∷ rest)
    digits_more more = rw more

pub decimal-low : (i : ℕ) → All (λ c. c < 124) (decimal i)
unfolding decimal
decimal-low i = by_sign (is_negative i)
  where
    by_sign :
        (negative : Bool)
        → All (λ c. c < 124) (if negative then 45 ∷ digits 10 (magnitude i) [] else digits 10 i [])
    by_sign true = (omega arith, digits-low 10 (magnitude i) [] tt)
    by_sign false = digits-low 10 i [] tt

pub stoi_null : stoi (78 ∷ 85 ∷ 76 ∷ 76 ∷ []) ≡ none
unfolding stoi after_spaces after_sign is_space starts_with_digit is_digit read_digits
stoi_null = refl
