-- ===== src/Rows/Typing.antt =====
-- Which expressions have a type, and what they evaluate to:
-- src/include/onebase/execution/expressions/.
use zlchen_dsaa2031_project.Prelude.{
  ℕ, zero, suc, ◌≡◌, refl, Option, none, some, Bool, true, false, not, ◌&&◌, ◌||◌, List, [], ◌∷◌,
  map, ltb, length, get_elem?, if◌then◌else◌, ◌>>=◌, is_some, arith,
}
use zlchen_dsaa2031_project.Types.{TypeId, Value, Floats, same_type}
use zlchen_dsaa2031_project.Types.Orders.{is_ordered}
use zlchen_dsaa2031_project.Types.Compare.{
  compare_less_than, compare_greater_than, compare_less_than_or_equal,
  compare_greater_than_or_equal, compare_equals, compare_not_equals,
}
use zlchen_dsaa2031_project.Types.Arithmetic.{add, subtract, multiply, logical_and, logical_or}
use zlchen_dsaa2031_project.Rows.{Tuple, Schema, get_value}
use zlchen_dsaa2031_project.Rows.Expressions.{
  Expression, column_value, constant_value, comparison, arithmetic, logic, ComparisonType, equal,
  not_equal, less_than, less_than_or_equal, greater_than, greater_than_or_equal, ArithmeticType,
  plus, minus, times, over, rest, LogicType, conjunction, disjunction, evaluate, perform_comparison,
  perform_computation, perform_logic,
}

-- Every type but INVALID has `==` and `!=`; BOOLEAN has no order.
abbrev pub has_comparison : ComparisonType → TypeId → Bool
has_comparison equal type = not (same_type type TypeId.invalid)
has_comparison not_equal type = not (same_type type TypeId.invalid)
has_comparison _ type = is_ordered type || same_type type TypeId.float

abbrev pub has_computation : ArithmeticType → TypeId → Bool
has_computation rest type = same_type type TypeId.integer
has_computation _ type = same_type type TypeId.integer || same_type type TypeId.float

-- The type of an expression over columns of these types, where the types of its parts fit.
unfoldable pub check : List TypeId → Expression → Option TypeId
check types (column_value tuple_idx col_idx ret_type) = get_elem? types col_idx
check types (constant_value val) = some val.type_id
check types (comparison left right comp_type) = do
  l ← check types left
  r ← check types right
  if same_type l r && has_comparison comp_type l then some TypeId.boolean else none
check types (arithmetic left right arith_type) = do
  l ← check types left
  r ← check types right
  if same_type l r && has_computation arith_type l then some l else none
check types (logic left right logic_type) = do
  l ← check types left
  r ← check types right
  if same_type l TypeId.boolean && same_type r TypeId.boolean then some TypeId.boolean else none

abbrev pub is_division : ArithmeticType → Bool
is_division over = true
is_division rest = true
is_division _ = false

unfoldable pub divides : Expression → Bool
divides (column_value tuple_idx col_idx ret_type) = false
divides (constant_value val) = false
divides (comparison left right comp_type) = divides left || divides right
divides (arithmetic left right arith_type) =
    is_division arith_type || (divides left || divides right)
divides (logic left right logic_type) = divides left || divides right

abbrev pub type_of : Option Value → Option TypeId
type_of none = none
type_of (some v) = some v.type_id

get_elem?-map :
    (vs : List Value) (i : ℕ) → get_elem? (map (λ v. v.type_id) vs) i ≡ type_of (get_elem? vs i)
get_elem?-map [] i = refl
get_elem?-map (v ∷ vs) zero = refl
get_elem?-map (v ∷ vs) (suc i) = get_elem?-map vs i

get_elem?_some :
    (vs : List Value) (i : ℕ)
    → is_some (get_elem? (map (λ v. v.type_id) vs) i) ≡ true
    → ltb i (length vs) ≡ true
get_elem?_some [] i h = ground arith
get_elem?_some (v ∷ vs) zero h = ground arith
get_elem?_some (v ∷ vs) (suc i) h = ground (arith, get_elem?_some vs i h)

comparison_type :
    (floats : Floats) (comp_type : ComparisonType) (l r : Value)
    → (same_type l.type_id r.type_id && has_comparison comp_type l.type_id) ≡ true
    → type_of (perform_comparison floats comp_type l r) ≡ some TypeId.boolean
unfolding compare_less_than compare_greater_than compare_less_than_or_equal
    compare_greater_than_or_equal compare_equals compare_not_equals
comparison_type floats equal l r h = ground arith
comparison_type floats not_equal l r h = ground arith
comparison_type floats less_than l r h = ground arith
comparison_type floats less_than_or_equal l r h = ground arith
comparison_type floats greater_than l r h = ground arith
comparison_type floats greater_than_or_equal l r h = ground arith

computation_type :
    (floats : Floats) (arith_type : ArithmeticType) (l r : Value)
    → (same_type l.type_id r.type_id && has_computation arith_type l.type_id) ≡ true
    → is_division arith_type ≡ false
    → type_of (perform_computation floats arith_type l r) ≡ some l.type_id
unfolding add subtract multiply
computation_type floats plus l r h k = ground arith
computation_type floats minus l r h k = ground arith
computation_type floats times l r h k = ground arith
computation_type floats over l r h k = ground arith
computation_type floats rest l r h k = ground arith

logic_result :
    (logic_type : LogicType) (l r : Value)
    → (same_type l.type_id TypeId.boolean && same_type r.type_id TypeId.boolean) ≡ true
    → type_of (perform_logic logic_type l r) ≡ some TypeId.boolean
unfolding logical_and logical_or
logic_result conjunction l r h = ground arith
logic_result disjunction l r h = ground arith

-- The theorem's step for an operation on two parts, by what it does to the types of their values.
step :
    (perform : Value → Value → Option Value) (rule : TypeId → TypeId → Option TypeId)
    → ((a b : Value)
        → is_some (rule a.type_id b.type_id) ≡ true
        → type_of (perform a b) ≡ rule a.type_id b.type_id)
    → (l r : Option Value) (tl tr : Option TypeId) → (is_some tl ≡ true → type_of l ≡ tl)
    → (is_some tr ≡ true → type_of r ≡ tr)
    → is_some (tl >>= λ a. tr >>= λ b. rule a b) ≡ true
    → type_of (l >>= λ a. r >>= λ b. perform a b) ≡ (tl >>= λ a. tr >>= λ b. rule a b)
step perform rule sound l r none tr hl hr h = ground arith
step perform rule sound l r (some a) none hl hr h = ground arith
step perform rule sound none r (some a) (some b) hl hr h = ground (arith, hl refl)
step perform rule sound (some v) none (some a) (some b) hl hr h = ground (arith, hr refl)
step perform rule sound (some v) (some o) (some a) (some b) hl hr h =
    ground (arith, hl refl, hr refl, sound v o)

-- An expression that has a type over the columns of a tuple, and divides nowhere, evaluates on
-- that tuple to a value of this type; it throws nothing. The tuple holds its values, and the
-- expression is one of a single table.
pub evaluate-check :
    (floats : Floats) (e : Expression) (tuple : Tuple) (schema : Schema)
    → divides e ≡ false
    → is_some (check (map (λ v. v.type_id) tuple.values) e) ≡ true
    → type_of (evaluate floats e tuple schema) ≡ check (map (λ v. v.type_id) tuple.values) e
unfolding evaluate check divides get_value
evaluate-check floats (column_value tuple_idx col_idx ret_type) tuple schema whole h =
    ground (arith, get_elem?_some tuple.values col_idx h, get_elem?-map tuple.values col_idx)
evaluate-check floats (constant_value val) tuple schema whole h = refl
evaluate-check floats (comparison left right comp_type) tuple schema whole h =
    step (perform_comparison floats comp_type)
      (λ a b. if same_type a b && has_comparison comp_type a then some TypeId.boolean else none)
      (λ a b fits. ground (arith, comparison_type floats comp_type a b))
      (evaluate floats left tuple schema) (evaluate floats right tuple schema)
      (check (map (λ v. v.type_id) tuple.values) left)
      (check (map (λ v. v.type_id) tuple.values) right)
      (evaluate-check floats left tuple schema (ground arith))
      (evaluate-check floats right tuple schema (ground arith)) h
evaluate-check floats (arithmetic left right arith_type) tuple schema whole h =
    step (perform_computation floats arith_type)
      (λ a b. if same_type a b && has_computation arith_type a then some a else none)
      (λ a b fits. ground (arith, computation_type floats arith_type a b))
      (evaluate floats left tuple schema) (evaluate floats right tuple schema)
      (check (map (λ v. v.type_id) tuple.values) left)
      (check (map (λ v. v.type_id) tuple.values) right)
      (evaluate-check floats left tuple schema (ground arith))
      (evaluate-check floats right tuple schema (ground arith)) h
evaluate-check floats (logic left right logic_type) tuple schema whole h =
    step (perform_logic logic_type)
      (λ a b.
        if same_type a TypeId.boolean && same_type b TypeId.boolean
        then some TypeId.boolean
        else none)
      (λ a b fits. ground (arith, logic_result logic_type a b)) (evaluate floats left tuple schema)
      (evaluate floats right tuple schema) (check (map (λ v. v.type_id) tuple.values) left)
      (check (map (λ v. v.type_id) tuple.values) right)
      (evaluate-check floats left tuple schema (ground arith))
      (evaluate-check floats right tuple schema (ground arith)) h
