-- ===== src/Json.antt =====
-- JSON values as the source matches on them (`serde_json::Value`), and what it takes from outside.
use gmr.Support.{
  ℕ, zero, suc, List, Option, none, some, Bool, true, false, Ordering, if◌then◌else◌, ◌≡◌, refl,
  arith,
}
use gmr.Support.Text.{Text, text_eq, text_eq_iff}

pub data ℤ : Type 0 where
  pos : ℕ → ℤ
  negsuc : ℕ → ℤ

-- An object keeps its fields in the order of insertion (the crate's feature `preserve_order`).
mutual
  pub data Value (N : Type 0) : Type 0 where
    null : Value N
    bool : Bool → Value N
    number : N → Value N
    string : Text → Value N
    array : Items N → Value N
    object : Fields N → Value N

  pub data Items (N : Type 0) : Type 0 where
    nil : Items N
    cons : Value N → Items N → Items N

  pub data Fields (N : Type 0) : Type 0 where
    end : Fields N
    field : Text → Value N → Fields N → Fields N

module _ {N : Type 0} where
  -- Map::get
  unfoldable pub get : Text → Fields N → Option (Value N)
  get k end = none
  get k (field j v fs) = if text_eq j k then some v else get k fs

  -- Map::insert: a key that is there keeps its place.
  unfoldable pub insert : Text → Value N → Fields N → Fields N
  insert k v end = field k v end
  insert k v (field j w fs) = if text_eq j k then field j v fs else field j w (insert k v fs)

  pub get-insert :
      (k j : Text) (v : Value N) (fs : Fields N)
      → get j (insert k v fs) ≡ (if text_eq k j then some v else get j fs)
  unfolding get insert
  get-insert k j v end = refl
  get-insert k j v (field i w fs) =
      ground (arith, get-insert k j v fs, text_eq_iff i k, text_eq_iff i j, text_eq_iff k j)

  -- Vec::get
  unfoldable pub get_elem? : Items N → ℕ → Option (Value N)
  get_elem? nil i = none
  get_elem? (cons v vs) zero = some v
  get_elem? (cons v vs) (suc i) = get_elem? vs i

  -- Vec::push
  unfoldable pub push : Items N → Value N → Items N
  push nil v = cons v nil
  push (cons w vs) v = cons w (push vs v)

  -- Value::get with a key: nothing on what is no object
  unfoldable pub field_of : Text → Value N → Option (Value N)
  unfolding get
  field_of k (object fs) = get k fs
  field_of k _ = none

  unfoldable pub is_null : Value N → Bool
  is_null null = true
  is_null _ = false

-- The parts of the standard library and of serde_json that the code calls and this development
-- does not define: the numbers, floating point, printing, and equality of values.
pub record Platform : Type 1 where
  pub Number : Type 0
  pub F64 : Type 0
  -- Number::as_f64, Value::from(i64), Value::from(usize), Number::from_f64
  pub as_f64 : Number → Option F64
  pub from_i64 : ℤ → Number
  pub from_usize : ℕ → Number
  pub from_f64 : F64 → Option Number
  -- a float literal, `as i64`, str::parse::<f64>
  pub float : ℕ → F64
  pub as_i64 : F64 → ℤ
  pub parse_f64 : Text → Option F64
  pub negate : F64 → F64
  pub fract : F64 → F64
  pub absolute : F64 → F64
  pub add : F64 → F64 → F64
  pub subtract : F64 → F64 → F64
  pub multiply : F64 → F64 → F64
  pub divide : F64 → F64 → F64
  pub partial_cmp : F64 → F64 → Option Ordering
  -- is_i64 and as_i64, is_u64 and as_u64, f64::is_finite, ryu
  pub i64_of : Number → Option ℤ
  pub u64_of : Number → Option ℕ
  pub is_finite : F64 → Bool
  pub ryu : F64 → Text
  -- serde_json::to_vec of a scalar and of a key; SHA-256 printed as lowercase hexadecimal
  pub to_vec : Value Number → List ℕ
  pub key_to_vec : Text → List ℕ
  pub sha256 : List ℕ → Text
  -- char::is_whitespace, char::is_alphanumeric
  pub is_whitespace : ℕ → Bool
  pub is_alphanumeric : ℕ → Bool
  -- chrono: instants, and DateTime::timestamp
  pub Time : Type 0
  pub timestamp : Time → ℤ
  -- PartialEq and Display of Value
  pub same : Value Number → Value Number → Bool
  pub show : Value Number → Text

abbrev pub Json : ⦃host : Platform⦄ → Type 0
Json ⦃host⦄ = Value host.Number
