-- ===== src/Core/Addr.antt =====
-- crates/gmr-core/src/addr.rs: the canonical bytes of a value, and the hash that names it.
use mathlib.Core.List.{reverse}
use gmr.Support.{
  ℕ, suc, ◌+◌, List, [], ◌∷◌, ◌++◌, Bool, true, false, ◌&&◌, ◌||◌, Option, none, some, Ordering,
  length, all, any, if◌then◌else◌, ◌==◌, leb, ltb,
}
use gmr.Support.Text.{Text, txt, decimal, text_eq, text_cmp}
use gmr.Json.{
  ℤ, pos, negsuc, Platform, Items, Fields, number, array, object, nil, cons, end, field, Json,
}

-- check_sha256_hex: 64 characters, each a digit or one of a to f.
unfoldable pub check_sha256_hex : Text → Bool
check_sha256_hex s =
    length s == 64 && all (λ b. leb b'0' b && leb b b'9' || leb b'a' b && leb b b'f') s

pub data CanonicalizeError : Type 0 where
  depth_exceeded non_finite_number : CanonicalizeError

pub data Canonical {ℓ} (A : Type ℓ) : Type ℓ where
  ok : A → Canonical A
  err : CanonicalizeError → Canonical A

infixl 5 ◌>>=◌
abbrev pub ◌>>=◌ {ℓ κ} : {A : Type ℓ} {B : Type κ} → Canonical A → (A → Canonical B) → Canonical B
ok a >>= f = f a
err e >>= f = err e

abbrev pub max_canonical_depth : ℕ
max_canonical_depth = 1024

-- `while s.ends_with(c) { s.pop(); }` on the reversed text
drop_leading : ℕ → Text → Text
drop_leading c [] = []
drop_leading c (d ∷ s) = let rest = drop_leading c s in if d == c then rest else d ∷ s

drop_one : ℕ → Text → Text
drop_one c [] = []
drop_one c (d ∷ s) = if d == c then s else d ∷ s

-- `find(['e', 'E'])`: the mantissa, and the exponent if there is one
split_exponent : Text → Text × Option Text
split_exponent [] = ([], none)
split_exponent (c ∷ s) =
    let (mantissa, exponent) = split_exponent s in
    if c == b'e' || c == b'E' then ([], some s) else (c ∷ mantissa, exponent)

shortened : Text → Text
unfolding drop_leading drop_one
shortened mantissa =
    if any (λ c. c == b'.') mantissa
    then reverse (drop_one b'.' (drop_leading b'0' (reverse mantissa)))
    else mantissa

unsigned_zero : Text → Text
unsigned_zero s = if text_eq s (txt "-0") then txt "0" else s

with_exponent : Text → Option Text → Text
with_exponent s none = s
with_exponent s (some e) = s ++ b'e' ∷ e

canonical_float : Text → Text
unfolding split_exponent shortened unsigned_zero with_exponent
canonical_float formatted =
    let (mantissa, exponent) = split_exponent formatted in
    with_exponent (unsigned_zero (shortened mantissa)) exponent

show_ℤ : ℤ → Text
show_ℤ (pos n) = decimal n
show_ℤ (negsuc n) = b'-' ∷ decimal (suc n)

-- `sort_by` on the keys, which is stable.
module _ {A : Type 0} where
  unfoldable pub place : Text → A → List (Text × A) → List (Text × A)
  place k a [] = (k, a) ∷ []
  place k a ((j, b) ∷ l) = elim (text_cmp k j) [
    | Ordering.gt ↦ (j, b) ∷ place k a l
    | _ ↦ (k, a) ∷ (j, b) ∷ l
  ]

  unfoldable pub sort_by_key : List (Text × A) → List (Text × A)
  unfolding place
  sort_by_key [] = []
  sort_by_key ((k, a) ∷ l) = place k a (sort_by_key l)

module _ ⦃host : Platform⦄ where
  finite_number : Option host.F64 → Canonical Text
  finite_number (some f) =
      if host.is_finite f then ok (canonical_float (host.ryu f)) else err non_finite_number
  finite_number none = err non_finite_number

  -- The source takes the case of a number that is no i64, no u64 and no f64 for unreachable.
  unfoldable pub canonical_number_string : host.Number → Canonical Text
  unfolding finite_number canonical_float show_ℤ
  canonical_number_string n = elim (host.i64_of n) [
    | some i ↦ ok (show_ℤ i)
    | none ↦ elim (host.u64_of n) [ some u ↦ ok (decimal u) | none ↦ finite_number (host.as_f64 n) ]
  ]

  -- The fields of an object after the first, each written already.
  unfoldable pub join_fields : List (Text × Canonical (List ℕ)) → Bool → Canonical (List ℕ)
  join_fields [] first = ok []
  join_fields ((k, written) ∷ rest) first = do
    bytes ← written
    more ← join_fields rest false
    ok ((if first then [] else b',' ∷ []) ++ (host.key_to_vec k ++ b':' ∷ (bytes ++ more)))

  unfoldable pub braced : ℕ → ℕ → Canonical (List ℕ) → Canonical (List ℕ)
  braced open_by close_by body = do bytes ← body; ok (open_by ∷ (bytes ++ close_by ∷ []))

  unfoldable mutual
    unfolding canonical_number_string join_fields braced sort_by_key

    -- Canonicalizer::write_value, at a depth
    pub write_value : Json → ℕ → Canonical (List ℕ)
    write_value (object fields) depth =
        if ltb max_canonical_depth depth
        then err depth_exceeded
        else braced b'{' b'}' (join_fields (sort_by_key (written_fields fields (depth + 1))) true)
    write_value (array items) depth =
        if ltb max_canonical_depth depth
        then err depth_exceeded
        else braced b'[' b']' (write_items items (depth + 1) true)
    write_value (number n) depth =
        if ltb max_canonical_depth depth then err depth_exceeded else canonical_number_string n
    write_value v depth =
        if ltb max_canonical_depth depth then err depth_exceeded else ok (host.to_vec v)

    -- Each field with what `write_value` makes of it; they are put in order and joined afterwards.
    pub written_fields : Fields host.Number → ℕ → List (Text × Canonical (List ℕ))
    written_fields end depth = []
    written_fields (field k v fields) depth = (k, write_value v depth) ∷ written_fields fields depth

    pub write_items : Items host.Number → ℕ → Bool → Canonical (List ℕ)
    write_items nil depth first = ok []
    write_items (cons v items) depth first = do
      bytes ← write_value v depth
      more ← write_items items depth false
      ok ((if first then [] else b',' ∷ []) ++ (bytes ++ more))

  unfoldable pub canonicalize : Json → Canonical (List ℕ)
  unfolding write_value
  canonicalize v = write_value v 0

  unfoldable pub content_hash_of : Json → Canonical Text
  unfolding canonicalize
  content_hash_of v = do bytes ← canonicalize v; ok (host.sha256 bytes)
