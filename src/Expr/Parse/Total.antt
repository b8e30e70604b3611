-- ===== src/Expr/Parse/Total.antt =====
-- crates/gmr-expr/src/parse.rs: the fuel that `parse` hands out is enough for every text.
use gmr.Support.{
  String, ℕ, zero, suc, ◌+◌, ◌*◌, ◌≤◌, ◌<◌, [], ◌∷◌, Bool, true, Option, none, some, length, ◌≡◌,
  ◌≢◌, arith, ◌==◌, leb, min, Bool-cases, Option-cases, inl, inr,
}
use gmr.Support.Text.{Text, txt, text_eq}
use gmr.Json.{Platform}
use gmr.Expr.Ast.{
  Quant, Node, NodeFields, NodeItems, binary, neg, exists, quantified, no_fields, no_items,
  Expression,
}
use gmr.Expr.Parse.Lexer.{
  Parsed, pure, out_of_fuel, bind_parsed, skip_space, eaten, operator, is_digit, is_ident,
}
use gmr.Expr.Parse.Lexer.Lengths.{
  Under, leaves, refuses, Under-ne-out_of_fuel, Under-le, Under-if, Under-bind, skip_space-le,
  eaten-length, expect-Under, spaces-Under, ident-Under, ident-Under_word, operator-lt,
  number-Under, quoted-Under, steps-Under, call_arg_string-Under,
}
use gmr.Expr.Parse.{
  Word, constant, changed_word, exists_word, quant_word, root_word, unknown_word, classify,
  field_name, fresh, closing, collection_word, not_ended, closed, add_field, add_item, has_field,
  no_fields_yet, no_items_yet, closed_after, skip_expect, expr, operators, unary, atom, atom_at,
  object, object_goes_on, array, array_goes_on, word, word_of, quantified_by, whole, parse_from,
  parse, enough,
}

module _ ⦃host : Platform⦄ where
  skip_expect-Under :
      (token : String) (message ts : Text)
      → 0 < length (txt token)
      → Under (length ts) (skip_expect token message ts)
  unfolding skip_expect
  skip_expect-Under token message ts pos =
      Under-bind _ (spaces-Under ts)
        λ _ rest h. Under-le (omega arith) (expect-Under token message rest pos)

  closed_after-Under :
      (message : Text) (inner : Expression) (ts : Text)
      → Under (length ts) (closed_after message inner ts)
  unfolding closed_after
  closed_after-Under message inner ts = Under-bind _ (spaces-Under ts) λ _ rest h.
      Under-bind _ (expect-Under ")" message rest (omega arith))
        λ _ after k. leaves {rest = after} (omega arith)

  field_name-Under : (ts : Text) → Under (length ts) (field_name ts)
  unfolding field_name
  field_name-Under [] = refuses
  field_name-Under (c ∷ ts) =
      Under-if (c == b'"') _ _ (λ _. quoted-Under c ts)
        λ _. Under-if (is_ident c) _ _ (λ h. ident-Under_word c ts h) (λ _. refuses)

  fresh-Under :
      (name : Text) (out : NodeFields host.Number) (ts : Text)
      → Under (suc (length ts)) (fresh name out ts)
  unfolding fresh
  fresh-Under name out ts = elim (Bool-cases (has_field name out)) [
    | inl e ↦ rw (e, fresh) refuses
    | inr e ↦ rw (e, fresh) (leaves (omega arith))
  ]

  closing-Under :
      (first : Bool) (token : String) (message ts : Text)
      → Under (suc (length ts)) (closing first token message ts)
  unfolding closing
  closing-Under first token message ts =
      let spaced = skip_space ts in
      let shorter : length (skip_space ts) ≤ length ts = skip_space-le ts in
      elim (Option-cases (eaten token spaced)) [
        | inr (rest, e) ↦ rw (e, closing) (leaves (omega (arith, eaten-length token spaced rest e)))
        | inl e ↦
            rw (e, closing)
              (Under-if first _ _ (λ _. leaves (omega arith))
                λ _. elim (Option-cases (eaten "," spaced)) [
                  | inl q ↦ rw (q, closing) refuses
                  | inr (rest, q) ↦
                      let comma = eaten-length "," spaced rest q in
                      let again : length (skip_space rest) ≤ length rest = skip_space-le rest in
                      elim (Option-cases (eaten token (skip_space rest))) [
                        | inl r ↦ rw (q, r, closing) (leaves (omega arith))
                        | inr (after, r) ↦
                            rw (q, r, closing)
                              (leaves (omega (arith, eaten-length token (skip_space rest) after r)))
                      ]
                ])
      ]

  collection_word-Under : (named w ts : Text) → Under (suc (length ts)) (collection_word named w ts)
  unfolding collection_word
  collection_word-Under named w ts = elim (Bool-cases (text_eq w (txt "anchors"))) [
    | inl e ↦ rw (e, collection_word) (leaves (omega arith))
    | inr e ↦ rw (e, collection_word) refuses
  ]

  not_ended-Under : (message ts : Text) → Under (suc (length ts)) (not_ended message ts)
  unfolding not_ended
  not_ended-Under message [] = refuses
  not_ended-Under message (c ∷ ts) = leaves (omega arith)

  prefixed-Under :
      {m n : ℕ} {read : Parsed Expression} (made : Expression → Expression)
      → m < n
      → Under m read
      → Under n (bind_parsed read λ x. pure (made x))
  prefixed-Under made lt under = Under-bind _ under λ x rest h. leaves (omega arith)

  -- What each method leaves, with fourteen units of fuel for each character that it is given and
  -- as many more as there are calls before one that takes a character.
  mutual
    unfolding expr operators unary atom atom_at object object_goes_on array array_goes_on word
        word_of quantified_by closed

    expr-Under :
        (f lv : ℕ) (ts : Text)
        → 14 * length ts + 11 < f + min lv 5
        → Under (length ts) (expr f lv ts)
    expr-Under zero lv ts h = absurd (omega arith)
    expr-Under (suc f) lv ts h = elim (Bool-cases (leb 5 lv)) [
      | inl e ↦ rw e (unary-Under f ts (ground arith))
      | inr e ↦ rw e (
          Under-bind (operators f lv) (expr-Under f (lv + 1) ts (ground arith))
            λ lhs rest k. Under-le (omega arith) (operators-Under f lv lhs rest (ground arith)))
    ]

    operators-Under :
        (f lv : ℕ) (lhs : Expression) (ts : Text)
        → 14 * length ts + 12 < f
        → Under (suc (length ts)) (operators f lv lhs ts)
    operators-Under zero lv lhs ts h = absurd (omega arith)
    operators-Under (suc f) lv lhs ts h =
        let shorter : length (skip_space ts) ≤ length ts = skip_space-le ts in
        elim (Option-cases (operator lv (skip_space ts))) [
          | inl e ↦ rw (e, operators) (leaves (omega arith))
          | inr ((op, rest), e) ↦
              let taken = operator-lt lv (skip_space ts) op rest e in
              let again : length (skip_space rest) ≤ length rest = skip_space-le rest in
              rw (e, operators)
                (Under-bind _ (expr-Under f (lv + 1) (skip_space rest) (omega arith)) λ rhs after k.
                  Under-le (omega arith)
                    (operators-Under f lv (binary op lhs rhs) after (omega arith)))
        ]

    unary-Under : (f : ℕ) (ts : Text) → 14 * length ts + 5 < f → Under (length ts) (unary f ts)
    unary-Under zero ts h = absurd (omega arith)
    unary-Under (suc f) ts h =
        let shorter : length (skip_space ts) ≤ length ts = skip_space-le ts in
        elim (Option-cases (eaten "not" (skip_space ts))) [
          | inr (rest, e) ↦
              let taken = eaten-length "not" (skip_space ts) rest e in
              let again : length (skip_space rest) ≤ length rest = skip_space-le rest in
              rw (e, unary)
                (prefixed-Under (λ x. Node.not x) (omega arith)
                  (unary-Under f (skip_space rest) (omega arith)))
          | inl e ↦ elim (Option-cases (eaten "-" (skip_space ts))) [
            | inr (rest, q) ↦
                let taken = eaten-length "-" (skip_space ts) rest q in
                let again : length (skip_space rest) ≤ length rest = skip_space-le rest in
                rw (e, q, unary)
                  (prefixed-Under (λ x. neg x) (omega arith)
                    (unary-Under f (skip_space rest) (omega arith)))
            | inl q ↦
                rw (e, q, unary)
                  (Under-le (omega arith) (atom-Under f (skip_space ts) (omega arith)))
          ]
        ]

    atom-Under : (f : ℕ) (ts : Text) → 14 * length ts + 4 < f → Under (length ts) (atom f ts)
    atom-Under zero ts h = absurd (omega arith)
    atom-Under (suc f) ts h =
        let shorter : length (skip_space ts) ≤ length ts = skip_space-le ts in
        Under-le shorter (atom_at-Under f (skip_space ts) (omega arith))

    atom_at-Under : (f : ℕ) (ts : Text) → 14 * length ts + 3 < f → Under (length ts) (atom_at f ts)
    atom_at-Under zero ts h = absurd (omega arith)
    atom_at-Under (suc f) [] h = refuses
    atom_at-Under (suc f) (c ∷ ts) h =
        Under-if (c == b'(') _ _
          (λ _.
            Under-bind closed (expr-Under f 0 ts (omega arith))
              λ x rest k. Under-le (omega arith) (closed_after-Under _ x rest))
          λ _.
            Under-if (c == b'{') _ _ (λ _. object-Under f no_fields ts (omega arith))
              λ _.
                Under-if (c == b'[') _ _ (λ _. array-Under f no_items ts (omega arith))
                  λ _.
                    Under-if (c == b'"') _ _
                      (λ _. Under-bind _ (quoted-Under c ts) λ s rest k. leaves (omega arith))
                      λ _.
                        Under-if (is_digit c) _ _ (λ d. number-Under c ts d)
                          λ _.
                            Under-if (is_ident c) _ _ (λ d. word-Under f c ts d (omega arith))
                              λ _. refuses

    object-Under :
        (f : ℕ) (out : NodeFields host.Number) (ts : Text)
        → 14 * length ts + 13 < f
        → Under (suc (length ts)) (object f out ts)
    object-Under zero out ts h = absurd (omega arith)
    object-Under (suc f) out ts h =
        Under-bind _ (closing-Under (no_fields_yet out) "}" _ ts) λ ended rest k.
          Under-le (omega arith) (object_goes_on-Under f out ended rest (omega arith))

    object_goes_on-Under :
        (f : ℕ) (out : NodeFields host.Number) (ended : Option (Unit {0})) (ts : Text)
        → 14 * length ts + 12 < f
        → Under (suc (length ts)) (object_goes_on f out ended ts)
    object_goes_on-Under zero out ended ts h = absurd (omega arith)
    object_goes_on-Under (suc f) out (some ended) ts h = leaves (omega arith)
    object_goes_on-Under (suc f) out none ts h = Under-bind _ (field_name-Under ts) λ name ts₁ h₁.
        Under-bind _ (fresh-Under name out ts₁) λ _ ts₂ h₂.
          Under-bind _ (spaces-Under ts₂) λ _ ts₃ h₃.
            Under-bind _ (expect-Under ":" _ ts₃ (omega arith)) λ _ ts₄ h₄.
              Under-bind _ (expr-Under f 0 ts₄ (omega arith)) λ v ts₅ h₅.
                Under-le (omega arith) (object-Under f (add_field out name v) ts₅ (omega arith))

    array-Under :
        (f : ℕ) (items : NodeItems host.Number) (ts : Text)
        → 14 * length ts + 13 < f
        → Under (suc (length ts)) (array f items ts)
    array-Under zero items ts h = absurd (omega arith)
    array-Under (suc f) items ts h =
        Under-bind _ (closing-Under (no_items_yet items) "]" _ ts) λ ended rest k.
          Under-le (omega arith) (array_goes_on-Under f items ended rest (omega arith))

    array_goes_on-Under :
        (f : ℕ) (items : NodeItems host.Number) (ended : Option (Unit {0})) (ts : Text)
        → 14 * length ts + 12 < f
        → Under (suc (length ts)) (array_goes_on f items ended ts)
    array_goes_on-Under zero items ended ts h = absurd (omega arith)
    array_goes_on-Under (suc f) items (some ended) ts h = leaves (omega arith)
    array_goes_on-Under (suc f) items none ts h = Under-bind _ (not_ended-Under _ ts) λ _ ts₁ h₁.
        Under-bind _ (expr-Under f 0 ts₁ (omega arith))
          λ v ts₂ h₂. Under-le (omega arith) (array-Under f (add_item items v) ts₂ (omega arith))

    word-Under :
        (f c : ℕ) (ts : Text)
        → is_ident c ≡ true
        → 14 * length (c ∷ ts) + 2 < f
        → Under (length (c ∷ ts)) (word f (c ∷ ts))
    word-Under zero c ts d h = absurd (omega arith)
    word-Under (suc f) c ts d h =
        Under-bind _ (ident-Under_word c ts d)
          λ w rest k. Under-le (omega arith) (word_of-Under f w (classify w) rest (omega arith))

    word_of-Under :
        (f : ℕ) (w : Text) (kind : Word) (ts : Text)
        → 14 * length ts + 14 < f
        → Under (suc (length ts)) (word_of f w kind ts)
    word_of-Under zero w kind ts h = absurd (omega arith)
    word_of-Under (suc f) w (constant n) ts h = leaves (omega arith)
    word_of-Under (suc f) w changed_word ts h =
        Under-bind _ (call_arg_string-Under _ ts) λ name rest k. leaves (omega arith)
    word_of-Under (suc f) w exists_word ts h =
        Under-bind _ (skip_expect-Under "(" _ ts (omega arith)) λ _ ts₁ h₁.
          Under-bind _ (expr-Under f 0 ts₁ (omega arith))
            λ x ts₂ h₂. Under-le (omega arith) (closed_after-Under _ (exists x) ts₂)
    word_of-Under (suc f) w (quant_word how) ts h = quantified_by-Under f how ts (omega arith)
    word_of-Under (suc f) w (root_word r) ts h =
        Under-bind _ (steps-Under ts) λ s rest k. leaves (omega arith)
    word_of-Under (suc f) w unknown_word ts h = refuses

    quantified_by-Under :
        (f : ℕ) (how : Quant) (ts : Text)
        → 14 * length ts + 13 < f
        → Under (suc (length ts)) (quantified_by f how ts)
    quantified_by-Under zero how ts h = absurd (omega arith)
    quantified_by-Under (suc f) how ts h =
        Under-bind _ (skip_expect-Under "(" _ ts (omega arith)) λ _ ts₁ h₁.
          Under-bind _ (spaces-Under ts₁) λ _ ts₂ h₂. Under-bind _ (ident-Under ts₂) λ w ts₃ h₃.
            Under-bind _ (collection_word-Under _ w ts₃) λ over ts₄ h₄.
              Under-bind _ (skip_expect-Under "," _ ts₄ (omega arith)) λ _ ts₅ h₅.
                Under-bind _ (expr-Under f 0 ts₅ (omega arith)) λ body ts₆ h₆.
                  Under-le (omega arith) (closed_after-Under _ (quantified how over body) ts₆)

  whole-Under : (node : Expression) (ts : Text) → Under (suc (length ts)) (whole node ts)
  unfolding whole
  whole-Under node [] = leaves (omega arith)
  whole-Under node (c ∷ ts) = refuses

  parse_from-Under : (ts : Text) → Under (suc (length ts)) (parse_from ts)
  unfolding parse_from
  parse_from-Under [] = refuses
  parse_from-Under (c ∷ ts) =
      Under-bind _ (expr-Under (enough (c ∷ ts)) 0 (c ∷ ts) (omega arith)) λ node rest h.
        Under-le (omega (arith, skip_space-le rest)) (whole-Under node (skip_space rest))

  -- Parsing any text gives an expression or an error: the fuel that `parse` hands out never runs out.
  pub parse-ne-out_of_fuel : (source : Text) → parse source ≢ out_of_fuel
  unfolding parse
  parse-ne-out_of_fuel source = Under-ne-out_of_fuel (parse_from-Under (skip_space source))
