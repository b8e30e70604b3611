-- ===== src/Expr/Parse.antt =====
-- crates/gmr-expr/src/parse.rs: the parser. Its position is the text that is left, `chars[at..]`;
-- the calls between its methods take fuel, and `parse` hands out enough of it.
pub mod Lexer
pub mod Total
use gmr.Support.{
  String, ℕ, zero, suc, ◌+◌, ◌*◌, List, [], ◌∷◌, ◌++◌, Bool, true, false, not, ◌&&◌, ◌||◌, Option,
  none, some, any, length, if◌then◌else◌, ◌==◌, leb,
}
use gmr.Support.Text.{Text, txt, text_eq}
use gmr.Json.{Platform, null, bool, string}
use gmr.Expr.Ast.{
  Root, FieldPath, BinOp, Quant, Over, Node, NodeFields, NodeItems, path, lit, changed, exists, neg,
  binary, quantified, no_fields, with_field, no_items, with_item, Expression,
}
use Lexer.{
  Parser, Parsed, parsed, syntax_error, out_of_fuel, pure, fail, bind_parsed, ◌>>=◌, ◌>>◌,
  skip_space, spaces, eaten, expect, ident, is_ident, quoted, number, steps, operator, quant_text,
  open_quote, call_arg_string, is_digit,
}

-- The words that begin an atom.
pub data Word ⦃host : Platform⦄ : Type 0 where
  constant : Expression → Word
  changed_word : Word
  exists_word : Word
  quant_word : Quant → Word
  root_word : Root → Word
  unknown_word : Word

module _ ⦃host : Platform⦄ where
  unfoldable pub classify : Text → Word
  classify w =
      if text_eq w (txt "true")
      then constant (lit (bool true))
      else if text_eq w (txt "false")
      then constant (lit (bool false))
      else if text_eq w (txt "null")
      then constant (lit null)
      else if text_eq w (txt "changed")
      then changed_word
      else if text_eq w (txt "exists")
      then exists_word
      else if text_eq w (txt "any")
      then quant_word Quant.any
      else if text_eq w (txt "all")
      then quant_word Quant.all
      else if text_eq w (txt "count")
      then quant_word Quant.count
      else if text_eq w (txt "obs")
      then root_word Root.obs
      else if text_eq w (txt "state")
      then root_word Root.state
      else if text_eq w (txt "taken_at")
      then root_word Root.taken_at
      else if text_eq w (txt "entered_at")
      then root_word Root.entered_at
      else unknown_word

  unknown_slot : Text → Text
  unknown_slot w =
      txt "unknown named slot `"
      ++ w
      ++ txt "`; only obs · state · taken_at · entered_at (and `anchors`, inside any / all / count)"

  unfoldable pub has_field : Text → NodeFields host.Number → Bool
  has_field name no_fields = false
  has_field name (with_field k v fields) = text_eq k name || has_field name fields

  unfoldable pub add_field : NodeFields host.Number → Text → Expression → NodeFields host.Number
  add_field no_fields name v = with_field name v no_fields
  add_field (with_field k w fields) name v = with_field k w (add_field fields name v)

  unfoldable pub add_item : NodeItems host.Number → Expression → NodeItems host.Number
  add_item no_items v = with_item v no_items
  add_item (with_item w items) v = with_item w (add_item items v)

  -- The name of an object's field.
  unfoldable pub field_name : Parser Text
  unfolding quoted ident
  field_name [] = syntax_error (txt "an object field name is an identifier or a quoted string")
  field_name (c ∷ ts) =
      if c == b'"'
      then quoted (c ∷ ts)
      else if is_ident c
      then ident (c ∷ ts)
      else syntax_error (txt "an object field name is an identifier or a quoted string")

  fresh : Text → NodeFields host.Number → Parser (Unit {0})
  unfolding has_field
  fresh name fields =
      if has_field name fields
      then fail (txt "field `" ++ name ++ txt "` is written twice")
      else pure tt

  no_fields_yet : NodeFields host.Number → Bool
  no_fields_yet no_fields = true
  no_fields_yet _ = false

  no_items_yet : NodeItems host.Number → Bool
  no_items_yet no_items = true
  no_items_yet _ = false

  -- What stands before an element of an object or an array: its end, or after the first a comma
  -- and perhaps its end. `some` rest is where the object or the array ends.
  unfoldable pub closing : Bool → String → Text → Parser (Option (Unit {0}))
  unfolding eaten skip_space
  closing first token message ts = elim (eaten token (skip_space ts)) [
    | some rest ↦ parsed (some tt) rest
    | none ↦ if first then parsed none (skip_space ts) else elim (eaten "," (skip_space ts)) [
      | none ↦ syntax_error message
      | some rest ↦ elim (eaten token (skip_space rest)) [
        | some after ↦ parsed (some tt) after
        | none ↦ parsed none (skip_space rest)
      ]
    ]
  ]

  collection_word : Text → Text → Parser Over
  collection_word named w =
      if text_eq w (txt "anchors")
      then pure Over.anchors
      else fail (
          named
          ++ txt " quantifies over a named collection and `"
          ++ w
          ++ txt "` is not one; only anchors")

  not_ended : Text → Parser (Unit {0})
  not_ended message [] = syntax_error message
  not_ended message (c ∷ ts) = parsed tt (c ∷ ts)

  -- The closing parenthesis after an expression.
  closed_after : Text → Expression → Parser Expression
  closed_after message inner = do spaces; expect ")" message; pure inner

  skip_expect : String → Text → Parser (Unit {0})
  skip_expect token message = do spaces; expect token message

  closed : Expression → Parser Expression
  unfolding closed_after
  closed = closed_after (txt "unclosed parenthesis")

  unfoldable mutual
    expr : ℕ → ℕ → Parser Expression
    expr zero lv ts = out_of_fuel
    expr (suc f) lv ts =
        let tight = unary f ts in
        let loose = bind_parsed (expr f (lv + 1) ts) (operators f lv) in
        if leb 5 lv then tight else loose

    -- The loop of `expr` over the operators of its level.
    operators : ℕ → ℕ → Expression → Parser Expression
    operators zero lv lhs ts = out_of_fuel
    operators (suc f) lv lhs ts = elim (operator lv (skip_space ts)) [
      | none ↦ parsed lhs (skip_space ts)
      | some (op, rest) ↦
          bind_parsed (expr f (lv + 1) (skip_space rest)) λ rhs. operators f lv (binary op lhs rhs)
    ]

    unary : ℕ → Parser Expression
    unary zero ts = out_of_fuel
    unary (suc f) ts = elim (eaten "not" (skip_space ts)) [
      | some rest ↦ bind_parsed (unary f (skip_space rest)) λ x. pure (Node.not x)
      | none ↦ elim (eaten "-" (skip_space ts)) [
        | some rest ↦ bind_parsed (unary f (skip_space rest)) λ x. pure (neg x)
        | none ↦ atom f (skip_space ts)
      ]
    ]

    atom : ℕ → Parser Expression
    atom zero ts = out_of_fuel
    atom (suc f) ts = atom_at f (skip_space ts)

    atom_at : ℕ → Parser Expression
    atom_at zero ts = out_of_fuel
    atom_at (suc f) [] = syntax_error (txt "the expression stops short here")
    atom_at (suc f) (c ∷ ts) =
        let inner = bind_parsed (expr f 0 ts) closed in
        let fields = object f no_fields ts in
        let items = array f no_items ts in
        let named = word f (c ∷ ts) in
        if c == b'('
        then inner
        else if c == b'{'
        then fields
        else if c == b'['
        then items
        else if c == b'"'
        then bind_parsed (quoted (c ∷ ts)) (λ s. pure (lit (string s)))
        else if is_digit c
        then number (c ∷ ts)
        else if is_ident c
        then named
        else syntax_error (b'`' ∷ c ∷ txt "` cannot appear here")

    -- The loop of `object`, behind its opening brace.
    object : ℕ → NodeFields host.Number → Parser Expression
    object zero out ts = out_of_fuel
    object (suc f) out ts =
        bind_parsed
          (closing (no_fields_yet out) "}" (txt "object fields must be separated by `,`") ts)
          (object_goes_on f out)

    object_goes_on : ℕ → NodeFields host.Number → Option (Unit {0}) → Parser Expression
    object_goes_on zero out ended ts = out_of_fuel
    object_goes_on (suc f) out (some ended) ts = parsed (Node.object out) ts
    object_goes_on (suc f) out none ts = bind_parsed (field_name ts) λ name. do
      fresh name out
      spaces
      expect ":" (txt "field `" ++ name ++ txt "` must be followed by `:`")
      v ← expr f 0
      object f (add_field out name v)

    -- The loop of `array`, behind its opening bracket.
    array : ℕ → NodeItems host.Number → Parser Expression
    array zero items ts = out_of_fuel
    array (suc f) items ts =
        bind_parsed
          (closing (no_items_yet items) "]" (txt "array elements must be separated by `,`") ts)
          (array_goes_on f items)

    array_goes_on : ℕ → NodeItems host.Number → Option (Unit {0}) → Parser Expression
    array_goes_on zero items ended ts = out_of_fuel
    array_goes_on (suc f) items (some ended) ts = parsed (Node.array items) ts
    array_goes_on (suc f) items none ts =
        bind_parsed (not_ended (txt "array has no closing `]`") ts)
          λ _. do v ← expr f 0; array f (add_item items v)

    word : ℕ → Parser Expression
    word zero ts = out_of_fuel
    word (suc f) ts = bind_parsed (ident ts) λ w. word_of f w (classify w)

    word_of : ℕ → Text → Word → Parser Expression
    word_of zero w kind ts = out_of_fuel
    word_of (suc f) w (constant n) ts = parsed n ts
    word_of (suc f) w changed_word ts =
        bind_parsed (call_arg_string (txt "changed") ts) λ name. pure (changed name)
    word_of (suc f) w exists_word ts =
        bind_parsed (skip_expect "(" (txt "exists must be followed by `(`") ts) λ _. do
          inner ← expr f 0
          closed_after (txt "unclosed parenthesis after exists") (exists inner)
    word_of (suc f) w (quant_word how) ts = quantified_by f how ts
    word_of (suc f) w (root_word r) ts =
        bind_parsed (steps ts) λ path_steps. pure (path (record { root = r; steps = path_steps }))
    word_of (suc f) w unknown_word ts = syntax_error (unknown_slot w)

    quantified_by : ℕ → Quant → Parser Expression
    quantified_by zero how ts = out_of_fuel
    quantified_by (suc f) how ts =
        bind_parsed (skip_expect "(" (quant_text how ++ txt " must be followed by `(`") ts) λ _. do
          spaces
          w ← ident
          over ← collection_word (quant_text how) w
          skip_expect "," (
              quant_text how
              ++ txt "(anchors, ...) takes the collection, then what must be true of one of them")
          body ← expr f 0
          closed_after (txt "unclosed parenthesis after " ++ quant_text how)
              (quantified how over body)

  -- What `parse` does with the expression that it has read.
  whole : Expression → Parser Expression
  whole node [] = parsed node []
  whole node (c ∷ ts) = syntax_error (txt "trailing `" ++ (c ∷ ts) ++ txt "`")

  -- Fourteen units of fuel for each character, and twenty more.
  abbrev pub enough : Text → ℕ
  enough ts = 14 * length ts + 20

  parse_from : Text → Parsed Expression
  unfolding expr whole
  parse_from [] = syntax_error (txt "the expression is empty")
  parse_from (c ∷ ts) =
      bind_parsed (expr (enough (c ∷ ts)) 0 (c ∷ ts)) λ node rest. whole node (skip_space rest)

  unfoldable pub parse : Text → Parsed Expression
  unfolding parse_from skip_space closed closed_after skip_expect spaces eaten expect ident number
      steps operator open_quote call_arg_string quoted classify unknown_slot field_name fresh
      closing collection_word not_ended no_fields_yet no_items_yet add_field add_item
  parse source = parse_from (skip_space source)
