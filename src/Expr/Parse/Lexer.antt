-- ===== src/Expr/Parse/Lexer.antt =====
-- crates/gmr-expr/src/parse.rs: the methods of the parser that do not call it back.
pub mod Lengths
use gmr.Support.{
  ℕ, zero, suc, ◌+◌, List, [], ◌∷◌, ◌++◌, Bool, true, false, not, ◌&&◌, ◌||◌, Option, none, some,
  all, String, length, if◌then◌else◌, ◌==◌, leb,
}
use gmr.Support.Text.{Text, txt, parse_usize}
use gmr.Json.{Platform, Json}
use gmr.Expr.Ast.{Step, field, index, BinOp, Quant, lit, Expression}
use gmr.Expr.Outcome.{json_number}

-- `out_of_fuel` has no counterpart in the program.
pub data Parsed {ℓ} (A : Type ℓ) : Type ℓ where
  parsed : A → Text → Parsed A
  syntax_error : Text → Parsed A
  out_of_fuel : Parsed A

abbrev pub Parser {ℓ} : Type ℓ → Type ℓ
Parser A = Text → Parsed A

abbrev pub pure {ℓ} : {A : Type ℓ} → A → Parser A
pure a ts = parsed a ts

-- err
abbrev pub fail {ℓ} : {A : Type ℓ} → Text → Parser A
fail message ts = syntax_error message

abbrev pub bind_parsed {ℓ κ} : {A : Type ℓ} {B : Type κ} → Parsed A → (A → Parser B) → Parsed B
bind_parsed (parsed a rest) f = f a rest
bind_parsed (syntax_error m) f = syntax_error m
bind_parsed out_of_fuel f = out_of_fuel

infixl 5 ◌>>=◌ ◌>>◌
abbrev pub ◌>>=◌ {ℓ κ} : {A : Type ℓ} {B : Type κ} → Parser A → (A → Parser B) → Parser B
p >>= f = λ ts. bind_parsed (p ts) f

abbrev pub ◌>>◌ {ℓ κ} : {A : Type ℓ} {B : Type κ} → Parser A → Parser B → Parser B
p >> q = p >>= λ _. q

abbrev pub is_digit : ℕ → Bool
is_digit c = leb b'0' c && leb c b'9'

abbrev pub is_letter : ℕ → Bool
is_letter c = leb b'a' c && leb c b'z' || leb b'A' c && leb c b'Z'

-- The longest prefix whose characters pass, and what follows it.
unfoldable pub span : (ℕ → Bool) → Text → Text × Text
span p [] = ([], [])
span p (c ∷ ts) = let (taken, rest) = span p ts in if p c then (c ∷ taken, rest) else ([], c ∷ ts)

unfoldable pub strip : Text → Text → Option Text
strip [] ts = some ts
strip (c ∷ token) [] = none
strip (c ∷ token) (d ∷ ts) = if c == d then strip token ts else none

unfoldable pub quoted_rest : Text → Text → Parsed Text
quoted_rest out [] = syntax_error (txt "string has no closing quote")
quoted_rest out (c ∷ ts) =
    let more = quoted_rest (out ++ c ∷ []) ts in if c == b'"' then parsed out ts else more

-- Parser::string, at its opening quote
unfoldable pub quoted : Parser Text
unfolding quoted_rest
quoted [] = syntax_error (txt "string has no closing quote")
quoted (c ∷ ts) = quoted_rest [] ts

abbrev pub quant_text : Quant → Text
quant_text Quant.any = txt "any"
quant_text Quant.all = txt "all"
quant_text Quant.count = txt "count"

module _ ⦃host : Platform⦄ where
  abbrev pub is_ident : ℕ → Bool
  is_ident c = host.is_alphanumeric c || c == b'_' || c == b'-'

  unfoldable pub skip_space : Text → Text
  unfolding span
  skip_space ts = (span host.is_whitespace ts).1

  begins_ident : Text → Bool
  begins_ident [] = false
  begins_ident (c ∷ ts) = is_ident c

  -- `eat` as the text after the token, if the token is there. Its tokens are ASCII.
  unfoldable pub eaten : String → Text → Option Text
  unfolding strip begins_ident
  eaten token ts = elim (strip (txt token) ts) [
    | none ↦ none
    | some rest ↦ if all is_letter (txt token) && begins_ident rest then none else some rest
  ]

  unfoldable pub spaces : Parser (Unit {0})
  spaces ts = parsed tt (skip_space ts)

  -- The loops that advance over `is_ident`, and the text they passed.
  unfoldable pub ident : Parser Text
  unfolding span
  ident ts = let (word, rest) = span is_ident ts in parsed word rest

  first_of : List (String × BinOp) → Text → Option (BinOp × Text)
  unfolding eaten
  first_of [] ts = none
  first_of ((t, op) ∷ table) ts = elim (eaten t ts) [
    | some rest ↦ some (op, rest)
    | none ↦ first_of table ts
  ]

  -- The operators of a level; those past the third are of the last.
  abbrev pub level : ℕ → List (String × BinOp)
  level zero = ("or", BinOp.or) ∷ []
  level (suc zero) = ("and", BinOp.and) ∷ []
  level (suc (suc zero)) =
      ("==", BinOp.eq)
      ∷ ("!=", BinOp.ne)
      ∷ ("<=", BinOp.le)
      ∷ (">=", BinOp.ge)
      ∷ ("<", BinOp.lt)
      ∷ (">", BinOp.gt)
      ∷ []
  level (suc (suc (suc zero))) = ("+", BinOp.add) ∷ ("-", BinOp.sub) ∷ []
  level (suc (suc (suc (suc n)))) = ("*", BinOp.mul) ∷ ("/", BinOp.div) ∷ []

  -- `level(lv).iter().find(|(t, _)| self.eat(t))`
  unfoldable pub operator : ℕ → Text → Option (BinOp × Text)
  unfolding first_of
  operator lv ts = first_of (level lv) ts

  -- `number`: a unit is one of d, h, m and s that no identifier goes on from.
  unit_of : Text → Option (ℕ × Text)
  unfolding begins_ident
  unit_of [] = none
  unit_of (u ∷ rest) =
      if (u == b'd' || u == b'h' || u == b'm' || u == b's') && not (begins_ident rest)
      then some (u, rest)
      else none

  scaled : ℕ → host.F64 → host.F64
  scaled u n =
      if u == b'd'
      then host.multiply n (host.float 86_400)
      else if u == b'h'
      then host.multiply n (host.float 3_600)
      else if u == b'm'
      then host.multiply n (host.float 60)
      else n

  numeral : Text → (host.F64 → host.F64) → Parser Expression
  unfolding json_number
  numeral text scale rest = elim (host.parse_f64 text) [
    | none ↦ syntax_error (b'`' ∷ (text ++ txt "` is not a number"))
    | some n ↦ parsed (lit (json_number (scale n))) rest
  ]

  numbered : Text → Text → Parsed Expression
  unfolding numeral unit_of scaled
  numbered text rest = elim (unit_of rest) [
    | some (u, after) ↦ numeral text (scaled u) after
    | none ↦ numeral text (λ n. n) rest
  ]

  unfoldable pub number : Parser Expression
  unfolding span numbered
  number ts = let (text, rest) = span (λ c. is_digit c || c == b'.') ts in numbered text rest

  -- One step of a path: what it is and what follows, nothing where none begins.
  field_step : Text × Text → Parsed (Option Step)
  field_step ([], rest) = syntax_error (txt "missing field name after `.`")
  field_step (name, rest) = parsed (some (field name)) rest

  index_step : Text × Text → Parsed (Option Step)
  unfolding eaten
  index_step (digits, rest) = elim (eaten "]" rest) [
    | none ↦ syntax_error (txt "index has no closing `]`")
    | some after ↦ elim (parse_usize digits) [
      | none ↦ syntax_error (txt "an index must be a non-negative integer")
      | some i ↦ parsed (some (index i)) after
    ]
  ]

  unfoldable pub step : Parser (Option Step)
  unfolding span field_step index_step
  step [] = parsed none []
  step (c ∷ ts) =
      if c == b'.'
      then field_step (span is_ident ts)
      else if c == b'['
      then index_step (span is_digit ts)
      else parsed none (c ∷ ts)

  step_then : Option Step → (List Step → Parser (List Step)) → List Step → Parser (List Step)
  step_then none more out = pure out
  step_then (some s) more out = more (out ++ s ∷ [])

  -- The loop of `steps`, a unit of fuel for each round.
  unfoldable pub steps_loop : ℕ → List Step → Parser (List Step)
  unfolding step step_then
  steps_loop zero out ts = out_of_fuel
  steps_loop (suc f) out ts = bind_parsed (step ts) λ s. step_then s (steps_loop f) out

  -- Every step takes a character at least.
  unfoldable pub steps : Parser (List Step)
  unfolding steps_loop
  steps ts = steps_loop (suc (length ts)) [] ts

  -- `if !self.eat(token) { return err(message) }`
  unfoldable pub expect : String → Text → Parser (Unit {0})
  unfolding eaten
  expect token message ts = elim (eaten token ts) [
    | some rest ↦ parsed tt rest
    | none ↦ syntax_error message
  ]

  at_quote : Text → Bool
  at_quote [] = false
  at_quote (c ∷ ts) = c == b'"'

  unfoldable pub open_quote : Text → Parser Text
  unfolding at_quote quoted
  open_quote message ts = if at_quote ts then quoted ts else syntax_error message

  unfoldable pub call_arg_string : Text → Parser Text
  call_arg_string name = do
    spaces
    expect "(" (name ++ txt " must be followed by `(`")
    spaces
    arg ← open_quote (name ++ txt " takes one quoted direction name")
    spaces
    expect ")" (txt "unclosed parenthesis after " ++ name)
    pure arg
