-- ===== src/Examples/Host.antt =====
-- A platform whose numbers and floats are the integers.
use gmr.Support.{
  ℕ, zero, suc, ◌+◌, ◌-◌, ◌*◌, ◌/◌, [], ◌∷◌, ◌++◌, Bool, true, false, ◌||◌, ◌&&◌, Option, none,
  some, Ordering, compare, if◌then◌else◌, ◌==◌, leb, ◌≡◌, refl, ap, ◌∙◌, arith,
}
use gmr.Support.Text.{Text, txt, text_eq, text_eq_refl, text_eq_iff, decimal, parse_usize, turn}
use gmr.Json.{
  ℤ, pos, negsuc, Value, Items, Fields, null, bool, number, string, array, object, nil, cons, end,
  field, Platform,
}
use gmr.Core.Journal.Moves.{IsEquivalence}
use gmr.Expr.Eval.Comparisons.{IsPartialOrder, turn_option}

abbrev pub minus_of : ℕ → ℤ
minus_of zero = pos 0
minus_of (suc n) = negsuc n

abbrev pub opposite : ℤ → ℤ
opposite (pos n) = minus_of n
opposite (negsuc n) = pos (suc n)

-- m - n
abbrev pub difference : ℕ → ℕ → ℤ
difference m n = if leb n m then pos (m - n) else minus_of (n - m)

abbrev pub plus : ℤ → ℤ → ℤ
plus (pos m) (pos n) = pos (m + n)
plus (pos m) (negsuc n) = difference m (suc n)
plus (negsuc m) (pos n) = difference n (suc m)
plus (negsuc m) (negsuc n) = negsuc (suc (m + n))

abbrev pub magnitude : ℤ → ℕ
magnitude (pos n) = n
magnitude (negsuc n) = suc n

abbrev pub is_negative : ℤ → Bool
is_negative (pos n) = false
is_negative (negsuc n) = true

abbrev pub signed : ℤ → ℤ → ℕ → ℤ
signed (pos m) (pos n) k = pos k
signed (negsuc m) (negsuc n) k = pos k
signed _ _ k = minus_of k

abbrev pub order_of : ℤ → ℤ → Option Ordering
order_of (pos m) (pos n) = some (compare m n)
order_of (pos m) (negsuc n) = some Ordering.gt
order_of (negsuc m) (pos n) = some Ordering.lt
order_of (negsuc m) (negsuc n) = some (compare n m)

abbrev pub printed : ℤ → Text
printed (pos n) = decimal n
printed (negsuc n) = b'-' ∷ decimal (suc n)

unfoldable mutual
  unfolding decimal

  pub render : Value ℤ → Text
  render null = txt "null"
  render (bool true) = txt "true"
  render (bool false) = txt "false"
  render (number n) = printed n
  render (string s) = b'"' ∷ s ++ b'"' ∷ []
  render (array items) = b'[' ∷ render_items items
  render (object fields) = b'{' ∷ render_fields fields

  pub render_items : Items ℤ → Text
  render_items nil = txt "]"
  render_items (cons v items) = render v ++ b',' ∷ render_items items

  pub render_fields : Fields ℤ → Text
  render_fields end = txt "}"
  render_fields (field k v fields) = k ++ b':' ∷ render v ++ b',' ∷ render_fields fields

abbrev pub parsed_integer : Option ℕ → Option ℤ
parsed_integer none = none
parsed_integer (some n) = some (pos n)

abbrev pub is_word : ℕ → Bool
is_word c = leb b'a' c && leb c b'z' || leb b'A' c && leb c b'Z' || leb b'0' c && leb c b'9'

abbrev pub unsigned : ℤ → Option ℕ
unsigned (pos n) = some n
unsigned (negsuc n) = none

instance abbrev pub integers : Platform
integers = record {
  Number = ℤ;
  F64 = ℤ;
  as_f64 = λ n. some n;
  from_i64 = λ n. n;
  from_usize = pos;
  from_f64 = λ n. some n;
  float = pos;
  as_i64 = λ n. n;
  parse_f64 = λ s. parsed_integer (parse_usize s);
  negate = opposite;
  fract = λ n. pos 0;
  absolute = λ n. pos (magnitude n);
  add = plus;
  subtract = λ m n. plus m (opposite n);
  multiply = λ m n. signed m n (magnitude m * magnitude n);
  divide = λ m n. signed m n (magnitude m / magnitude n);
  partial_cmp = order_of;
  i64_of = λ n. some n;
  u64_of = unsigned;
  is_finite = λ n. true;
  ryu = printed;
  to_vec = render;
  key_to_vec = λ k. b'"' ∷ k ++ b'"' ∷ [];
  sha256 = λ bytes. bytes;
  is_whitespace = λ c. c == b' ';
  is_alphanumeric = is_word;
  Time = ℕ;
  timestamp = pos;
  same = λ u v. text_eq (render u) (render v);
  show = render;
}

-- The same with hashes that are all empty.
abbrev pub flat : Platform
flat = record {
  Number = integers.Number;
  F64 = integers.F64;
  as_f64 = integers.as_f64;
  from_i64 = integers.from_i64;
  from_usize = integers.from_usize;
  from_f64 = integers.from_f64;
  float = integers.float;
  as_i64 = integers.as_i64;
  parse_f64 = integers.parse_f64;
  negate = integers.negate;
  fract = integers.fract;
  absolute = integers.absolute;
  add = integers.add;
  subtract = integers.subtract;
  multiply = integers.multiply;
  divide = integers.divide;
  partial_cmp = integers.partial_cmp;
  i64_of = integers.i64_of;
  u64_of = integers.u64_of;
  is_finite = integers.is_finite;
  ryu = integers.ryu;
  to_vec = integers.to_vec;
  key_to_vec = integers.key_to_vec;
  sha256 = λ bytes. [];
  is_whitespace = integers.is_whitespace;
  is_alphanumeric = integers.is_alphanumeric;
  Time = integers.Time;
  timestamp = integers.timestamp;
  same = integers.same;
  show = integers.show;
}

turned : (m n : ℕ) → compare n m ≡ turn (compare m n)
turned m n = ground arith

order_of-turn : (x y : ℤ) → order_of y x ≡ turn_option (order_of x y)
order_of-turn (pos m) (pos n) = ap some (turned m n)
order_of-turn (pos m) (negsuc n) = refl
order_of-turn (negsuc m) (pos n) = refl
order_of-turn (negsuc m) (negsuc n) = ap some (turned n m)

pub integers-IsPartialOrder : IsPartialOrder integers
integers-IsPartialOrder = record { duality = order_of-turn }

pub integers-IsEquivalence : IsEquivalence
integers-IsEquivalence = record {
  same_refl = λ v. text_eq_refl (render v);
  same_trans = λ u v w h k.
      (text_eq_iff (render u) (render w)).1
        ((text_eq_iff (render u) (render v)).0 h ∙ (text_eq_iff (render v) (render w)).0 k);
}

pub flat-IsEquivalence : IsEquivalence ⦃host = flat⦄
flat-IsEquivalence = record {
  same_refl = integers-IsEquivalence.same_refl;
  same_trans = integers-IsEquivalence.same_trans;
}
