-- ===== src/Expr/Outcome.antt =====
-- crates/gmr-expr/src/eval.rs: the result types, and the operations on values already computed.
use gmr.Support.{
  List, [], ◌∷◌, Bool, true, false, not, ◌&&◌, Option, none, some, Ordering, if◌then◌else◌,
}
use gmr.Support.Text.{Text, txt, text_cmp}
use gmr.Json.{Platform, null, bool, number, string, array, object, Json, get, get_elem?, is_null}
use gmr.Expr.Ast.{Step, BinOp}

pub data Fault : Type 0 where
  no_such_field not_an_object not_an_array index_out_of_range not_comparable divided_by_zero : Fault

-- Fault::class
unfoldable pub class : Fault → Text
class no_such_field = txt "no_such_field"
class not_an_object = txt "not_an_object"
class not_an_array = txt "not_an_array"
class index_out_of_range = txt "index_out_of_range"
class not_comparable = txt "not_comparable"
class divided_by_zero = txt "divided_by_zero"

abbrev pub is_lt : Option Ordering → Bool
is_lt (some Ordering.lt) = true
is_lt _ = false

abbrev pub is_eq : Option Ordering → Bool
is_eq (some Ordering.eq) = true
is_eq _ = false

module _ ⦃host : Platform⦄ where
  pub data Evaluated : Type 0 where
    value : Json → Evaluated
    absent : Evaluated
    fault : Fault → Evaluated

  -- Evaluated::bool
  abbrev pub truth : Bool → Evaluated
  truth b = value (bool b)

  unfoldable pub as_bool : Evaluated → Option Bool
  as_bool (value (bool b)) = some b
  as_bool _ = none

  -- parse.rs: a whole number below 9e15 becomes an integer, and any other stays a float.
  unfoldable pub json_number : host.F64 → Json
  json_number v =
      if is_eq (host.partial_cmp (host.fract v) (host.float 0))
        && is_lt (host.partial_cmp (host.absolute v) (host.float 9_000_000_000_000_000))
      then number (host.from_i64 (host.as_i64 v))
      else elim (host.from_f64 v) [ none ↦ null | some n ↦ number n ]

  -- Value::as_f64
  unfoldable pub number_of : Json → Option host.F64
  number_of (number n) = host.as_f64 n
  number_of _ = none

  unfoldable pub value_or_absent : Json → Evaluated
  unfolding is_null
  value_or_absent v = if is_null v then absent else value v

  -- One round of the loop of `walk`: where it goes on from, or what it returns.
  pub data Stride : Type 0 where
    onward : Json → Stride
    return : Evaluated → Stride

  found : Option Json → Evaluated → Stride
  found (some v) otherwise = onward v
  found none otherwise = return otherwise

  unfoldable pub stride : Bool → Json → Step → Stride
  unfolding found get get_elem?
  stride lenient null step = return absent
  stride lenient (object fs) (Step.field name) =
      found (get name fs) (if lenient then absent else fault no_such_field)
  stride lenient cur (Step.field name) = return (fault not_an_object)
  stride lenient (array items) (Step.index i) = found (get_elem? items i) (fault index_out_of_range)
  stride lenient cur (Step.index i) = return (fault not_an_array)

  unfoldable pub walk_from : Bool → Json → List Step → Evaluated
  unfolding value_or_absent stride
  walk_from lenient cur [] = value_or_absent cur
  walk_from lenient cur (step ∷ steps) = elim (stride lenient cur step) [
    | onward v ↦ walk_from lenient v steps
    | return e ↦ e
  ]

  unfoldable pub walk : Evaluated → List Step → Bool → Evaluated
  unfolding walk_from
  walk (value cur) steps lenient = walk_from lenient cur steps
  walk start [] lenient = start
  walk start (step ∷ steps) lenient = absent

  unfoldable pub equality : BinOp → Bool → Evaluated
  equality BinOp.eq both_absent = truth both_absent
  equality BinOp.ne both_absent = truth (not both_absent)
  equality op both_absent = absent

  -- The right operand of `and` and `or`, when the left one does not decide.
  right_of : Evaluated → Evaluated
  right_of (value (bool b)) = truth b
  right_of (value v) = fault not_comparable
  right_of other = other

  decided : BinOp → Bool → Evaluated → Evaluated
  decided BinOp.and false right = truth false
  decided BinOp.or true right = truth true
  decided op b right = right_of right

  unfoldable pub logic : BinOp → Evaluated → Evaluated → Evaluated
  unfolding right_of decided as_bool
  logic op left right = elim (as_bool left) [ some b ↦ decided op b right | none ↦ left ]

  unfoldable pub compared : Option host.F64 → Option host.F64 → Option Ordering
  compared (some x) (some y) = host.partial_cmp x y
  compared _ _ = none

  unfoldable pub order : Json → Json → Option Ordering
  unfolding compared
  order (number m) (number n) = compared (host.as_f64 m) (host.as_f64 n)
  order (string s) (string t) = some (text_cmp s t)
  order _ _ = none

  -- is_lt, is_le, is_gt, is_ge of an ordering, as the operator asks
  unfoldable pub passes : BinOp → Ordering → Bool
  passes BinOp.lt Ordering.lt = true
  passes BinOp.lt _ = false
  passes BinOp.le Ordering.gt = false
  passes BinOp.le _ = true
  passes BinOp.gt Ordering.gt = true
  passes BinOp.gt _ = false
  passes op Ordering.lt = false
  passes op _ = true

  unfoldable pub comparison : BinOp → Option Ordering → Evaluated
  comparison op none = fault not_comparable
  comparison op (some o) = truth (passes op o)

  calculate : BinOp → host.F64 → host.F64 → Evaluated
  unfolding json_number
  calculate BinOp.add x y = value (json_number (host.add x y))
  calculate BinOp.sub x y = value (json_number (host.subtract x y))
  calculate BinOp.mul x y = value (json_number (host.multiply x y))
  calculate op x y =
      if is_eq (host.partial_cmp y (host.float 0))
      then fault divided_by_zero
      else value (json_number (host.divide x y))

  calculated : BinOp → Option host.F64 → Option host.F64 → Evaluated
  calculated op (some x) (some y) = calculate op x y
  calculated op _ _ = fault not_comparable

  unfoldable pub arithmetic : BinOp → Json → Json → Evaluated
  unfolding calculate calculated number_of
  arithmetic op a b = calculated op (number_of a) (number_of b)

  unfoldable pub operate : BinOp → Json → Json → Evaluated
  unfolding comparison order passes arithmetic
  operate BinOp.eq a b = truth (host.same a b)
  operate BinOp.ne a b = truth (not (host.same a b))
  operate BinOp.lt a b = comparison BinOp.lt (order a b)
  operate BinOp.le a b = comparison BinOp.le (order a b)
  operate BinOp.gt a b = comparison BinOp.gt (order a b)
  operate BinOp.ge a b = comparison BinOp.ge (order a b)
  operate op a b = arithmetic op a b

  -- Every operator but `and` and `or`: a fault comes first, then absence.
  unfoldable pub strict : BinOp → Evaluated → Evaluated → Evaluated
  unfolding operate equality
  strict op (fault f) _ = fault f
  strict op _ (fault f) = fault f
  strict op absent absent = equality op true
  strict op absent (value b) = equality op false
  strict op (value a) absent = equality op false
  strict op (value a) (value b) = operate op a b

  -- The two operands of a binary node.
  unfoldable pub combine : BinOp → Evaluated → Evaluated → Evaluated
  unfolding logic strict
  combine BinOp.and left right = logic BinOp.and left right
  combine BinOp.or left right = logic BinOp.or left right
  combine op left right = strict op left right

  unfoldable pub negated : Evaluated → Evaluated
  negated (value (bool b)) = truth (not b)
  negated (value v) = fault not_comparable
  negated other = other

  negate_number : Option host.F64 → Evaluated
  negate_number (some n) = value (json_number (host.negate n))
  negate_number none = fault not_comparable

  unfoldable pub opposite : Evaluated → Evaluated
  unfolding negate_number number_of json_number
  opposite (value v) = negate_number (number_of v)
  opposite other = other

  unfoldable pub is_value : Evaluated → Bool
  is_value (value v) = true
  is_value _ = false
