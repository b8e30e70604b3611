-- ===== src/Expr/Parse/Lexer/Lengths.antt =====
-- crates/gmr-expr/src/parse.rs: how much of the text each method of the lexer leaves.
use gmr.Support.{
  String, ℕ, zero, suc, ◌+◌, ◌≤◌, ◌<◌, List, [], ◌∷◌, ◌++◌, Bool, true, false, ◌||◌, Option, none,
  some, length, ◌≡◌, ◌≢◌, refl, ap, arith, All, if◌then◌else◌, ◌==◌, Bool-cases, Option-cases, inl,
  inr,
}
use gmr.Support.Text.{Text, txt, parse_usize}
use gmr.Json.{Platform}
use gmr.Expr.Ast.{Step, BinOp}
use gmr.Expr.Parse.Lexer.{
  Parsed, parsed, syntax_error, out_of_fuel, bind_parsed, Parser, span, strip, quoted_rest, quoted,
  skip_space, eaten, ident, first_of, level, operator, unit_of, numeral, numbered, number,
  field_step, index_step, step, step_then, steps_loop, steps, expect, spaces, open_quote,
  call_arg_string, is_ident, is_digit,
}

-- The run kept within its fuel, and leaves less than `n` characters if it has a result.
pub data Under {ℓ} {A : Type ℓ} (n : ℕ) : Parsed A → Type ℓ where
  leaves : {a : A} {rest : Text} → length rest < n → Under n (parsed a rest)
  refuses : {m : Text} → Under n (syntax_error m)

module _ {ℓ} {A : Type ℓ} where
  pub Under-ne-out_of_fuel : {n : ℕ} {r : Parsed A} → Under n r → r ≢ out_of_fuel
  Under-ne-out_of_fuel (leaves h) = cc
  Under-ne-out_of_fuel refuses = cc

  pub Under-le : {m n : ℕ} {r : Parsed A} → m ≤ n → Under m r → Under n r
  Under-le le (leaves h) = leaves (omega arith)
  Under-le le refuses = refuses

  pub Under-if :
      {n : ℕ} (b : Bool) (x y : Parsed A)
      → (b ≡ true → Under n x)
      → (b ≡ false → Under n y)
      → Under n (if b then x else y)
  Under-if true x y h k = h refl
  Under-if false x y h k = k refl

  pub Under-bind {κ} :
      {B : Type κ} {m n : ℕ} {r : Parsed A} (f : A → Parser B)
      → Under m r
      → ((a : A) (rest : Text) → length rest < m → Under n (f a rest))
      → Under n (bind_parsed r f)
  Under-bind f (leaves {a} {rest} h) k = k a rest h
  Under-bind f refuses k = refuses

pub span-le : (p : ℕ → Bool) (ts : Text) → length (span p ts).1 ≤ length ts
unfolding span
span-le p [] = omega arith
span-le p (c ∷ ts) = ground (arith, span-le p ts)

pub span-lt :
    (p : ℕ → Bool) (c : ℕ) (ts : Text) → p c ≡ true → length (span p (c ∷ ts)).1 ≤ length ts
unfolding span
span-lt p c ts h = ground (arith, span-le p ts)

strip-length :
    (token ts rest : Text) → strip token ts ≡ some rest → length ts ≡ length token + length rest
unfolding strip
strip-length [] ts rest h = ground arith
strip-length (c ∷ token) [] rest h = cc
strip-length (c ∷ token) (d ∷ ts) rest h = ground (arith, strip-length token ts rest)

quoted_rest-Under : (out ts : Text) → Under (suc (length ts)) (quoted_rest out ts)
unfolding quoted_rest
quoted_rest-Under out [] = refuses
quoted_rest-Under out (c ∷ ts) =
    Under-if (c == b'"') _ _ (λ _. leaves (omega arith))
      λ _. Under-le (omega arith) (quoted_rest-Under (out ++ c ∷ []) ts)

pub quoted-Under : (c : ℕ) (ts : Text) → Under (length (c ∷ ts)) (quoted (c ∷ ts))
unfolding quoted
quoted-Under c ts = quoted_rest-Under [] ts

module _ ⦃host : Platform⦄ where
  pub skip_space-le : (ts : Text) → length (skip_space ts) ≤ length ts
  unfolding skip_space
  skip_space-le ts = span-le host.is_whitespace ts

  -- A token that is there takes its characters.
  pub eaten-length :
      (token : String) (ts rest : Text)
      → eaten token ts ≡ some rest
      → length ts ≡ length (txt token) + length rest
  unfolding eaten
  eaten-length token ts rest h = ground (arith, strip-length (txt token) ts rest)

  pub expect-Under :
      (token : String) (message ts : Text)
      → 0 < length (txt token)
      → Under (length ts) (expect token message ts)
  unfolding expect
  expect-Under token message ts pos = elim (Option-cases (eaten token ts)) [
    | inl e ↦ rw (e, expect) refuses
    | inr (rest, e) ↦ rw (e, expect) (leaves (omega (arith, eaten-length token ts rest e)))
  ]

  pub spaces-Under : (ts : Text) → Under (suc (length ts)) (spaces ts)
  unfolding spaces
  spaces-Under ts = leaves (omega (arith, skip_space-le ts))

  pub ident-Under : (ts : Text) → Under (suc (length ts)) (ident ts)
  unfolding ident
  ident-Under ts = leaves (omega (arith, span-le is_ident ts))

  pub ident-Under_word :
      (c : ℕ) (ts : Text) → is_ident c ≡ true → Under (length (c ∷ ts)) (ident (c ∷ ts))
  unfolding ident
  ident-Under_word c ts h = leaves (omega (arith, span-lt is_ident c ts h))

  -- Every operator of a table has a character.
  abbrev Visible : List (String × BinOp) → Type 0
  Visible table = All (λ (row : String × BinOp). 0 < length (txt row.0)) table

  first_of-lt :
      (table : List (String × BinOp)) (ts : Text) (op : BinOp) (rest : Text)
      → Visible table
      → first_of table ts ≡ some (op, rest)
      → length rest < length ts
  unfolding first_of
  first_of-lt [] ts op rest v h = cc
  first_of-lt ((t, op') ∷ table) ts op rest v h = elim (Option-cases (eaten t ts)) [
    | inl e ↦ first_of-lt table ts op rest v.1 (rw (e, first_of) at h)
    | inr (r, e) ↦
        let first = eaten-length t ts r e in
        let same : r ≡ rest = cc (rw (e, first_of) at h) in
        omega (arith, ap (λ (s : Text). length s) same, v.0)
  ]

  level-Visible : (lv : ℕ) → Visible (level lv)
  level-Visible zero = omega arith
  level-Visible (suc zero) = omega arith
  level-Visible (suc (suc zero)) = omega arith
  level-Visible (suc (suc (suc zero))) = omega arith
  level-Visible (suc (suc (suc (suc n)))) = omega arith

  pub operator-lt :
      (lv : ℕ) (ts : Text) (op : BinOp) (rest : Text)
      → operator lv ts ≡ some (op, rest)
      → length rest < length ts
  unfolding operator
  operator-lt lv ts op rest h = first_of-lt (level lv) ts op rest (level-Visible lv) h

  unit_of-lt :
      (ts : Text) (u : ℕ) (rest : Text) → unit_of ts ≡ some (u, rest) → length rest < length ts
  unfolding unit_of
  unit_of-lt [] u rest h = cc
  unit_of-lt (c ∷ ts) u rest h = ground arith

  numeral-Under :
      (text : Text) (scale : host.F64 → host.F64) (rest : Text) (n : ℕ)
      → length rest < n
      → Under n (numeral text scale rest)
  unfolding numeral
  numeral-Under text scale rest n h = elim (Option-cases (host.parse_f64 text)) [
    | inl e ↦ rw (e, numeral) refuses
    | inr (v, e) ↦ rw (e, numeral) (leaves h)
  ]

  numbered-Under : (text rest : Text) (n : ℕ) → length rest < n → Under n (numbered text rest)
  unfolding numbered
  numbered-Under text rest n h = elim (Option-cases (unit_of rest)) [
    | inl e ↦ rw (e, numbered) (numeral-Under text _ rest n h)
    | inr (u, e) ↦
        rw (e, numbered) (numeral-Under text _ u.1 n (omega (arith, unit_of-lt rest u.0 u.1 e)))
  ]

  pub number-Under :
      (c : ℕ) (ts : Text) → is_digit c ≡ true → Under (length (c ∷ ts)) (number (c ∷ ts))
  unfolding number
  number-Under c ts h =
      let p = λ (d : ℕ). is_digit d || d == b'.' in
      let (text, rest) = span p (c ∷ ts) in
      let shorter : length (span p (c ∷ ts)).1 ≤ length ts = span-lt p c ts (ground arith) in
      numbered-Under text rest (length (c ∷ ts)) (omega arith)

  -- A step takes at least its first character; where there is none, nothing is taken.
  pub data StepUnder (ts : Text) : Parsed (Option Step) → Type 0 where
    no_step : StepUnder ts (parsed none ts)
    a_step :
        {s : Step} {rest : Text} → length rest < length ts → StepUnder ts (parsed (some s) rest)
    refused : {m : Text} → StepUnder ts (syntax_error m)

  field_step-StepUnder :
      (c : ℕ) (ts : Text) (read : Text × Text)
      → length read.1 ≤ length ts
      → StepUnder (c ∷ ts) (field_step read)
  unfolding field_step
  field_step-StepUnder c ts ([], rest) h = refused
  field_step-StepUnder c ts (d ∷ name, rest) h = a_step (omega arith)

  index_step-StepUnder :
      (c : ℕ) (ts : Text) (read : Text × Text)
      → length read.1 ≤ length ts
      → StepUnder (c ∷ ts) (index_step read)
  unfolding index_step
  index_step-StepUnder c ts (digits, rest) h = elim (Option-cases (eaten "]" rest)) [
    | inl e ↦ rw (e, index_step) refused
    | inr (after, e) ↦ elim (Option-cases (parse_usize digits)) [
      | inl q ↦ rw (e, q, index_step) refused
      | inr (i, q) ↦ rw (e, q, index_step) (a_step (omega (arith, eaten-length "]" rest after e)))
    ]
  ]

  step-StepUnder : (ts : Text) → StepUnder ts (step ts)
  unfolding step
  step-StepUnder [] = no_step
  step-StepUnder (c ∷ ts) = elim (Bool-cases (c == b'.')) [
    | inl e ↦ rw e (field_step-StepUnder c ts _ (span-le is_ident ts))
    | inr e ↦ elim (Bool-cases (c == b'[')) [
      | inl q ↦ rw (e, q) (index_step-StepUnder c ts _ (span-le is_digit ts))
      | inr q ↦ rw (e, q) no_step
    ]
  ]

  steps_then-Under :
      (f : ℕ) (out : List Step) (ts : Text) (read : Parsed (Option Step))
      → ((out' : List Step) (rest : Text)
          → length rest < length ts
          → Under (suc (length rest)) (steps_loop f out' rest))
      → StepUnder ts read
      → Under (suc (length ts)) (bind_parsed read λ s. step_then s (steps_loop f) out)
  unfolding step_then
  steps_then-Under f out ts read k no_step = leaves (omega arith)
  steps_then-Under f out ts read k (a_step {s} {rest} h) =
      Under-le (omega arith) (k (out ++ s ∷ []) rest h)
  steps_then-Under f out ts read k refused = refuses

  steps_loop-Under :
      (f : ℕ) (out : List Step) (ts : Text)
      → length ts < f
      → Under (suc (length ts)) (steps_loop f out ts)
  unfolding steps_loop
  steps_loop-Under zero out ts h = absurd (omega arith)
  steps_loop-Under (suc f) out ts h =
      steps_then-Under f out ts (step ts)
        (λ out' rest lt. steps_loop-Under f out' rest (omega arith)) (step-StepUnder ts)

  pub steps-Under : (ts : Text) → Under (suc (length ts)) (steps ts)
  unfolding steps
  steps-Under ts = steps_loop-Under (suc (length ts)) [] ts (omega arith)

  open_quote-Under : (message ts : Text) → Under (length ts) (open_quote message ts)
  unfolding open_quote
  open_quote-Under message [] = refuses
  open_quote-Under message (c ∷ ts) =
      Under-if (c == b'"') _ _ (λ _. quoted-Under c ts) (λ _. refuses)

  -- `(`, a quoted name and `)`, with spaces between them.
  pub call_arg_string-Under : (name ts : Text) → Under (length ts) (call_arg_string name ts)
  unfolding call_arg_string
  call_arg_string-Under name ts = Under-bind _ (spaces-Under ts) λ _ ts₁ h₁.
      Under-bind _ (expect-Under "(" _ ts₁ (omega arith)) λ _ ts₂ h₂.
        Under-bind _ (spaces-Under ts₂) λ _ ts₃ h₃.
          Under-bind _ (open_quote-Under _ ts₃) λ arg ts₄ h₄.
            Under-bind _ (spaces-Under ts₄) λ _ ts₅ h₅.
              Under-bind _ (expect-Under ")" _ ts₅ (omega arith))
                λ _ ts₆ h₆. leaves {a = arg} {rest = ts₆} (omega arith)
