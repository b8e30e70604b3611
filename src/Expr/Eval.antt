-- ===== src/Expr/Eval.antt =====
-- crates/gmr-expr/src/eval.rs: the value of an expression in a context.
pub mod Quantifiers
pub mod Comparisons
pub mod Objects
pub mod Locality
pub mod Vacuity
use gmr.Support.{
  ℕ, ◌+◌, List, [], ◌∷◌, Bool, true, false, not, ◌&&◌, Option, none, some, if◌then◌else◌, ◌==◌, ltb,
}
use gmr.Support.Text.{Text}
use gmr.Json
use gmr.Json.{
  Platform, Value, Fields, Items, null, bool, number, nil, cons, end, Json, get, insert, field_of,
}
use gmr.Expr.Ast.{
  Root, FieldPath, Quant, Over, Node, NodeFields, NodeItems, path, lit, changed, exists, neg,
  binary, quantified, no_fields, with_field, no_items, with_item, Expression,
}
use gmr.Expr.Ctx.{Ctx, each}
use gmr.Expr.Outcome.{
  Fault, no_such_field, not_an_object, not_comparable, Evaluated, value, absent, fault, truth,
  value_or_absent, walk, combine, negated, opposite, is_value,
}

module _ ⦃host : Platform⦄ where
  unfoldable pub root_value : Root → Ctx → Evaluated
  unfolding value_or_absent
  root_value Root.obs ctx = value_or_absent ctx.obs
  root_value Root.state ctx = value_or_absent ctx.state
  root_value Root.taken_at ctx = value (number (host.from_i64 ctx.taken_at))
  root_value Root.entered_at ctx = value (number (host.from_i64 ctx.entered_at))

  -- Only the state is read leniently.
  abbrev pub is_lenient : Root → Bool
  is_lenient Root.state = true
  is_lenient _ = false

  -- `now != ctx.state.get(name)`
  unfoldable pub differs : Option Json → Option Json → Bool
  differs none none = false
  differs (some v) (some w) = not (host.same v w)
  differs _ _ = true

  reported : Option Json → Option Json → Evaluated
  unfolding differs
  reported none before = fault no_such_field
  reported (some v) before = truth (differs (some v) before)

  unfoldable pub changed_since : Text → Json → Json → Evaluated
  unfolding reported differs get field_of
  changed_since name null state = truth (differs none (field_of name state))
  changed_since name (Value.object fs) state = reported (get name fs) (field_of name state)
  changed_since name obs state = fault not_an_object

  -- The loop of `quantified`: how many answered yes and how many answered, or the fault that it returned.
  pub data Tally : Type 0 where
    counted : ℕ → ℕ → Tally
    returned : Fault → Tally

  tallied : Evaluated → (ℕ → ℕ → Tally) → ℕ → ℕ → Tally
  tallied (value (bool true)) next held answered = next (held + 1) (answered + 1)
  tallied (value (bool false)) next held answered = next held (answered + 1)
  tallied absent next held answered = next held answered
  tallied (value v) next held answered = returned not_comparable
  tallied (fault f) next held answered = returned f

  unfoldable pub tally : (Json → Evaluated) → List Json → ℕ → ℕ → Tally
  unfolding tallied
  tally ask [] held answered = counted held answered
  tally ask (s ∷ states) held answered = tallied (ask s) (tally ask states) held answered

  unfoldable pub is_empty : List Json → Bool
  is_empty [] = true
  is_empty (s ∷ states) = false

  unfoldable pub announce : Quant → ℕ → ℕ → Evaluated
  announce Quant.any held answered = truth (ltb 0 held)
  announce Quant.all held answered = truth (held == answered)
  announce Quant.count held answered = value (number (host.from_usize held))

  conclude : Quant → Bool → Tally → Evaluated
  unfolding announce
  conclude how empty (counted held answered) =
      if answered == 0 && not empty then absent else announce how held answered
  conclude how empty (returned f) = fault f

  unfoldable pub quantify : Quant → (Json → Evaluated) → List Json → Evaluated
  unfolding tally is_empty conclude
  quantify how ask states = conclude how (is_empty states) (tally ask states 0 0)

  unfoldable pub collection : Over → Ctx → List Json
  collection Over.anchors ctx = ctx.anchors

  -- An object or an array under construction takes a part's value, `null` for absence, and
  -- passes a fault on.
  keep : {A : Type 0} → Evaluated → (Json → A) → (Fault → A) → A
  keep (value v) next stop = next v
  keep absent next stop = next null
  keep (fault f) next stop = stop f

  unfoldable mutual
    unfolding walk combine negated opposite is_value root_value changed_since quantify collection
        each keep

    pub eval : Expression → Ctx → Evaluated
    eval (lit v) ctx = value v
    eval (changed name) ctx = changed_since name ctx.obs ctx.state
    eval (path p) ctx = walk (root_value p.root ctx) p.steps (is_lenient p.root)
    eval (exists inner) ctx = truth (is_value (eval inner ctx))
    eval (Node.not inner) ctx = negated (eval inner ctx)
    eval (neg inner) ctx = opposite (eval inner ctx)
    eval (binary op lhs rhs) ctx = combine op (eval lhs ctx) (eval rhs ctx)
    eval (Node.object fields) ctx = eval_fields fields ctx end
    eval (Node.array items) ctx = eval_items items ctx nil
    eval (quantified how over body) ctx =
        quantify how (λ state. eval body (each ctx state)) (collection over ctx)

    pub eval_fields : NodeFields host.Number → Ctx → Fields host.Number → Evaluated
    eval_fields no_fields ctx map = value (Value.object map)
    eval_fields (with_field name node rest) ctx map =
        keep (eval node ctx) (λ v. eval_fields rest ctx (insert name v map)) fault

    pub eval_items : NodeItems host.Number → Ctx → Items host.Number → Evaluated
    eval_items no_items ctx out = value (Value.array out)
    eval_items (with_item node rest) ctx out =
        keep (eval node ctx) (λ v. eval_items rest ctx (Json.push out v)) fault
