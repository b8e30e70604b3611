-- ===== src/Expr/Eval/Locality.antt =====
-- crates/gmr-expr/src/ast.rs against eval.rs: whether an expression's value depends on the state, or
-- on the states of the anchors, and what `reads_state` and `reads_anchors` say of that.
use gmr.Support.{
  ℕ, List, [], ◌∷◌, Bool, true, false, ◌||◌, ◌≡◌, refl, ap₂, sym, ◌∙◌, arith, length, fun_ext,
}
use gmr.Json.{Platform, Fields, Items, null, Json, insert, push}
use gmr.Expr.Ast.{
  Root, Over, Quant, Node, NodeFields, NodeItems, path, lit, changed, exists, not, neg, binary,
  object, array, quantified, no_fields, with_field, no_items, with_item, Expression,
}
use gmr.Expr.Ctx.{Ctx, each, over}
use gmr.Expr.Reads.{
  reads_state, fields_read_state, items_read_state, reads_anchors, fields_read_anchors,
  items_read_anchors, is_state,
}
use gmr.Expr.Outcome.{Evaluated, fault, walk}
use gmr.Expr.Eval.{
  eval, eval_fields, eval_items, keep, root_value, quantify, tally, tallied, conclude, is_empty,
  is_lenient,
}

-- Whether `changed` stands anywhere, which compares with the state that it is asked in; and
-- whether a quantifier in the body of another reads the anchors.
module _ {N : Type 0} where
  unfoldable mutual
    pub has_changed : Node N → Bool
    has_changed (changed name) = true
    has_changed (exists x) = has_changed x
    has_changed (not x) = has_changed x
    has_changed (neg x) = has_changed x
    has_changed (binary op lhs rhs) = has_changed lhs || has_changed rhs
    has_changed (object fields) = fields_have_changed fields
    has_changed (array items) = items_have_changed items
    has_changed (quantified how over body) = has_changed body
    has_changed _ = false

    pub fields_have_changed : NodeFields N → Bool
    fields_have_changed no_fields = false
    fields_have_changed (with_field name v rest) = has_changed v || fields_have_changed rest

    pub items_have_changed : NodeItems N → Bool
    items_have_changed no_items = false
    items_have_changed (with_item v rest) = has_changed v || items_have_changed rest

  unfoldable mutual
    unfolding reads_anchors

    pub nested_reads : Node N → Bool
    nested_reads (quantified how over body) = reads_anchors body || nested_reads body
    nested_reads (exists x) = nested_reads x
    nested_reads (not x) = nested_reads x
    nested_reads (neg x) = nested_reads x
    nested_reads (binary op lhs rhs) = nested_reads lhs || nested_reads rhs
    nested_reads (object fields) = fields_nested_reads fields
    nested_reads (array items) = items_nested_reads items
    nested_reads _ = false

    pub fields_nested_reads : NodeFields N → Bool
    fields_nested_reads no_fields = false
    fields_nested_reads (with_field name v rest) = nested_reads v || fields_nested_reads rest

    pub items_nested_reads : NodeItems N → Bool
    items_nested_reads no_items = false
    items_nested_reads (with_item v rest) = nested_reads v || items_nested_reads rest

neither : (a b : Bool) → a || b ≡ false → (a ≡ false) × (b ≡ false)
neither a b h = ground arith

module _ ⦃host : Platform⦄ where
  root_value-each :
      (r : Root) (ctx : Ctx) (s t : Json)
      → is_state r ≡ false
      → root_value r (each ctx s) ≡ root_value r (each ctx t)
  unfolding root_value each
  root_value-each Root.obs ctx s t h = refl
  root_value-each Root.state ctx s t h = cc
  root_value-each Root.taken_at ctx s t h = refl
  root_value-each Root.entered_at ctx s t h = refl

  mutual
    unfolding eval reads_state has_changed

    eval-each_of :
        (n : Expression) (ctx : Ctx) (s t : Json)
        → reads_state n ≡ false
        → has_changed n ≡ false
        → eval n (each ctx s) ≡ eval n (each ctx t)
    eval-each_of (path p) ctx s t r c = rw (root_value-each p.root ctx s t r)
    eval-each_of (lit v) ctx s t r c = refl
    eval-each_of (changed name) ctx s t r c = cc
    eval-each_of (exists x) ctx s t r c = rw (eval-each_of x ctx s t r c)
    eval-each_of (not x) ctx s t r c = rw (eval-each_of x ctx s t r c)
    eval-each_of (neg x) ctx s t r c = rw (eval-each_of x ctx s t r c)
    eval-each_of (binary op lhs rhs) ctx s t r c =
        let (r₁, r₂) = neither (reads_state lhs) (reads_state rhs) r in
        let (c₁, c₂) = neither (has_changed lhs) (has_changed rhs) c in
        rw (eval-each_of lhs ctx s t r₁ c₁, eval-each_of rhs ctx s t r₂ c₂)
    eval-each_of (object fields) ctx s t r c = eval_fields-each fields ctx s t _ r c
    eval-each_of (array items) ctx s t r c = eval_items-each items ctx s t _ r c
    eval-each_of (quantified how Over.anchors body) ctx s t r c = refl

    eval_fields-each :
        (fields : NodeFields host.Number) (ctx : Ctx) (s t : Json) (map : Fields host.Number)
        → fields_read_state fields ≡ false
        → fields_have_changed fields ≡ false
        → eval_fields fields (each ctx s) map ≡ eval_fields fields (each ctx t) map
    eval_fields-each no_fields ctx s t map r c = refl
    eval_fields-each (with_field name v rest) ctx s t map r c =
        let (r₁, r₂) = neither (reads_state v) (fields_read_state rest) r in
        let (c₁, c₂) = neither (has_changed v) (fields_have_changed rest) c in
        ap₂ (λ e next. keep e next fault) (eval-each_of v ctx s t r₁ c₁)
          (fun_ext λ w. eval_fields-each rest ctx s t (insert name w map) r₂ c₂)

    eval_items-each :
        (items : NodeItems host.Number) (ctx : Ctx) (s t : Json) (out : Items host.Number)
        → items_read_state items ≡ false
        → items_have_changed items ≡ false
        → eval_items items (each ctx s) out ≡ eval_items items (each ctx t) out
    eval_items-each no_items ctx s t out r c = refl
    eval_items-each (with_item v rest) ctx s t out r c =
        let (r₁, r₂) = neither (reads_state v) (items_read_state rest) r in
        let (c₁, c₂) = neither (has_changed v) (items_have_changed rest) c in
        ap₂ (λ e next. keep e next fault) (eval-each_of v ctx s t r₁ c₁)
          (fun_ext λ w. eval_items-each rest ctx s t (push out w) r₂ c₂)

  -- An expression that by `reads_state` reads no state, and in which `changed` does not stand, has
  -- one value whatever the state.
  pub eval-each :
      (n : Expression) (ctx : Ctx) (s t : Json)
      → reads_state n ≡ false
      → has_changed n ≡ false
      → eval n (each ctx s) ≡ eval n (each ctx t)
  eval-each = eval-each_of

  tally-constant :
      (ask ask' : Json → Evaluated) (e : Evaluated) (xs ys : List Json) (held answered : ℕ)
      → ((s : Json) → ask s ≡ e)
      → ((s : Json) → ask' s ≡ e)
      → length xs ≡ length ys
      → tally ask xs held answered ≡ tally ask' ys held answered
  unfolding tally
  tally-constant ask ask' e [] [] held answered p q h = refl
  tally-constant ask ask' e [] (b ∷ ys) held answered p q h = absurd (omega arith)
  tally-constant ask ask' e (a ∷ xs) [] held answered p q h = absurd (omega arith)
  tally-constant ask ask' e (a ∷ xs) (b ∷ ys) held answered p q h =
      ap₂ (λ e next. tallied e next held answered) (p a ∙ sym (q b))
        (fun_ext λ x. fun_ext λ y. tally-constant ask ask' e xs ys x y p q (omega arith))

  is_empty-length : (xs ys : List Json) → length xs ≡ length ys → is_empty xs ≡ is_empty ys
  unfolding is_empty
  is_empty-length [] [] h = refl
  is_empty-length [] (y ∷ ys) h = absurd (omega arith)
  is_empty-length (x ∷ xs) [] h = absurd (omega arith)
  is_empty-length (x ∷ xs) (y ∷ ys) h = refl

  -- A quantifier whose body has one value at every state sees only how many anchors there are.
  quantify-constant :
      (how : Quant) (ask ask' : Json → Evaluated) (e : Evaluated) (xs ys : List Json)
      → ((s : Json) → ask s ≡ e)
      → ((s : Json) → ask' s ≡ e)
      → length xs ≡ length ys
      → quantify how ask xs ≡ quantify how ask' ys
  unfolding quantify
  quantify-constant how ask ask' e xs ys p q h =
      ap₂ (conclude how) (is_empty-length xs ys h) (tally-constant ask ask' e xs ys 0 0 p q h)

  mutual
    unfolding eval reads_anchors has_changed nested_reads over

    eval-over_of :
        (n : Expression) (ctx : Ctx) (xs ys : List Json)
        → length xs ≡ length ys
        → reads_anchors n ≡ false
        → nested_reads n ≡ false
        → has_changed n ≡ false
        → eval n (over ctx xs) ≡ eval n (over ctx ys)
    eval-over_of (path p) ctx xs ys l r m c =
        elim p.root
          as (λ r.
            walk (root_value r (over ctx xs)) p.steps (is_lenient p.root)
            ≡ walk (root_value r (over ctx ys)) p.steps (is_lenient p.root)) [
              | Root.obs ↦ refl
              | _ ↦ refl
            ]
    eval-over_of (lit v) ctx xs ys l r m c = refl
    eval-over_of (changed name) ctx xs ys l r m c = cc
    eval-over_of (exists x) ctx xs ys l r m c = rw (eval-over_of x ctx xs ys l r m c)
    eval-over_of (not x) ctx xs ys l r m c = rw (eval-over_of x ctx xs ys l r m c)
    eval-over_of (neg x) ctx xs ys l r m c = rw (eval-over_of x ctx xs ys l r m c)
    eval-over_of (binary op lhs rhs) ctx xs ys l r m c =
        let (r₁, r₂) = neither (reads_anchors lhs) (reads_anchors rhs) r in
        let (m₁, m₂) = neither (nested_reads lhs) (nested_reads rhs) m in
        let (c₁, c₂) = neither (has_changed lhs) (has_changed rhs) c in
        rw (eval-over_of lhs ctx xs ys l r₁ m₁ c₁, eval-over_of rhs ctx xs ys l r₂ m₂ c₂)
    eval-over_of (object fields) ctx xs ys l r m c = eval_fields-over fields ctx xs ys _ l r m c
    eval-over_of (array items) ctx xs ys l r m c = eval_items-over items ctx xs ys _ l r m c
    eval-over_of (quantified how Over.anchors body) ctx xs ys l r m c =
        let (m₁, m₂) = neither (reads_anchors body) (nested_reads body) m in
        quantify-constant how (λ s. eval body (each (over ctx xs) s))
          (λ s. eval body (each (over ctx ys) s)) (eval body (each (over ctx xs) null)) xs ys
          (λ s. eval-each body (over ctx xs) s null r c)
          (λ s.
            eval-each body (over ctx ys) s null r c
            ∙ sym (eval-over_of body (each ctx null) xs ys l m₁ m₂ c))
          l

    eval_fields-over :
        (fields : NodeFields host.Number) (ctx : Ctx) (xs ys : List Json) (map : Fields host.Number)
        → length xs ≡ length ys
        → fields_read_anchors fields ≡ false
        → fields_nested_reads fields ≡ false
        → fields_have_changed fields ≡ false
        → eval_fields fields (over ctx xs) map ≡ eval_fields fields (over ctx ys) map
    eval_fields-over no_fields ctx xs ys map l r m c = refl
    eval_fields-over (with_field name v rest) ctx xs ys map l r m c =
        let (r₁, r₂) = neither (reads_anchors v) (fields_read_anchors rest) r in
        let (m₁, m₂) = neither (nested_reads v) (fields_nested_reads rest) m in
        let (c₁, c₂) = neither (has_changed v) (fields_have_changed rest) c in
        ap₂ (λ e next. keep e next fault) (eval-over_of v ctx xs ys l r₁ m₁ c₁)
          (fun_ext λ w. eval_fields-over rest ctx xs ys (insert name w map) l r₂ m₂ c₂)

    eval_items-over :
        (items : NodeItems host.Number) (ctx : Ctx) (xs ys : List Json) (out : Items host.Number)
        → length xs ≡ length ys
        → items_read_anchors items ≡ false
        → items_nested_reads items ≡ false
        → items_have_changed items ≡ false
        → eval_items items (over ctx xs) out ≡ eval_items items (over ctx ys) out
    eval_items-over no_items ctx xs ys out l r m c = refl
    eval_items-over (with_item v rest) ctx xs ys out l r m c =
        let (r₁, r₂) = neither (reads_anchors v) (items_read_anchors rest) r in
        let (m₁, m₂) = neither (nested_reads v) (items_nested_reads rest) m in
        let (c₁, c₂) = neither (has_changed v) (items_have_changed rest) c in
        ap₂ (λ e next. keep e next fault) (eval-over_of v ctx xs ys l r₁ m₁ c₁)
          (fun_ext λ w. eval_items-over rest ctx xs ys (push out w) l r₂ m₂ c₂)

  -- An expression that by `reads_anchors` reads no anchors, in which `changed` does not stand and no
  -- quantifier inside another reads them, depends on the anchors only by their number.
  pub eval-over :
      (n : Expression) (ctx : Ctx) (xs ys : List Json)
      → length xs ≡ length ys
      → reads_anchors n ≡ false
      → nested_reads n ≡ false
      → has_changed n ≡ false
      → eval n (over ctx xs) ≡ eval n (over ctx ys)
  eval-over = eval-over_of
