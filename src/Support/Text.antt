-- ===== src/Support/Text.antt =====
-- Rust strings as their characters. Comparing the code points of two strings orders them as
-- comparing their UTF-8 bytes does.
use Prim.Native.Nat.{ℕ, zero, suc, ◌+◌, ◌-◌, ◌*◌, ◌/◌, ◌%◌, ◌^◌, compare, Ordering}
use mathlib.Core.Option.{Option, none, some}
use gmr.Support.Lists.{all}
use Prim.Native.String.{String}
use Prim.Native.Char.{code}
use mathlib.Core.Path.{◌≡◌, refl}
use mathlib.Core.Logic.{◌↔◌}
use mathlib.Core.Bool.{Bool, true, false, ◌&&◌}
use mathlib.Core.List.{List, [], ◌∷◌, ◌++◌}
use native.Mathlib.Omega.{arith}
use gmr.Support.Tests.{◌==◌, if◌then◌else◌, ltb, leb}

abbrev pub Text : Type 0
Text = List ℕ

-- A literal of the source.
abbrev pub txt : String → Text
txt String.[] = []
txt (String.◌∷◌ c s) = code c ∷ txt s

unfoldable pub text_eq : Text → Text → Bool
text_eq [] [] = true
text_eq (a ∷ s) (b ∷ t) = (a == b) && text_eq s t
text_eq _ _ = false

pub text_eq_refl : (s : Text) → text_eq s s ≡ true
unfolding text_eq
text_eq_refl [] = refl
text_eq_refl (a ∷ s) = ground (arith, text_eq_refl s)

pub eq_of_text_eq : (s t : Text) → text_eq s t ≡ true → s ≡ t
unfolding text_eq
eq_of_text_eq [] [] h = refl
eq_of_text_eq [] (b ∷ t) h = ground arith
eq_of_text_eq (a ∷ s) [] h = ground arith
eq_of_text_eq (a ∷ s) (b ∷ t) h = ground (arith, eq_of_text_eq s t)

pub text_eq_iff : (s t : Text) → (text_eq s t ≡ true) ↔ (s ≡ t)
text_eq_iff s t = (eq_of_text_eq s t, λ e. rw e (text_eq_refl t))

-- `Ord` of strings.
unfoldable pub text_cmp : Text → Text → Ordering
text_cmp [] [] = Ordering.eq
text_cmp [] (b ∷ t) = Ordering.lt
text_cmp (a ∷ s) [] = Ordering.gt
text_cmp (a ∷ s) (b ∷ t) = elim (compare a b) [
  | Ordering.eq ↦ text_cmp s t
  | Ordering.lt ↦ Ordering.lt
  | Ordering.gt ↦ Ordering.gt
]

abbrev pub turn : Ordering → Ordering
turn Ordering.lt = Ordering.gt
turn Ordering.eq = Ordering.eq
turn Ordering.gt = Ordering.lt

pub text_cmp-turn : (s t : Text) → text_cmp t s ≡ turn (text_cmp s t)
unfolding text_cmp
text_cmp-turn [] [] = refl
text_cmp-turn [] (b ∷ t) = refl
text_cmp-turn (a ∷ s) [] = refl
text_cmp-turn (a ∷ s) (b ∷ t) = ground (arith, text_cmp-turn s t)

-- `to_string` of a number, in decimal; a number has at most as many digits as its value and one.
decimal_within : ℕ → ℕ → Text
decimal_within zero n = []
decimal_within (suc f) n =
    let more = decimal_within f (n / 10) in
    if n / 10 == 0 then (n % 10 + 48) ∷ [] else more ++ (n % 10 + 48) ∷ []

unfoldable pub decimal : ℕ → Text
unfolding decimal_within
decimal n = decimal_within (suc n) n

decimal_test : decimal 1207 ≡ txt "1207"
unfolding decimal
decimal_test = refl

-- `join` of strings
unfoldable pub join : Text → List Text → Text
join between [] = []
join between (s ∷ []) = s
join between (s ∷ t ∷ rest) = s ++ between ++ join between (t ∷ rest)

decimal_value : ℕ → Text → ℕ
decimal_value n [] = n
decimal_value n (c ∷ s) = decimal_value (n * 10 + (c - b'0')) s

all_digits : Text → Option ℕ
unfolding decimal_value
all_digits [] = none
all_digits (c ∷ s) =
    if all (λ d. leb b'0' d && leb d b'9') (c ∷ s) && ltb (decimal_value 0 (c ∷ s)) (2 ^ 64)
    then some (decimal_value 0 (c ∷ s))
    else none

-- str::parse::<usize>: digits after an optional plus sign, below 2^64
unfoldable pub parse_usize : Text → Option ℕ
unfolding all_digits
parse_usize [] = none
parse_usize (c ∷ s) = if c == b'+' then all_digits s else all_digits (c ∷ s)
