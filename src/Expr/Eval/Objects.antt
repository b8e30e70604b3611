-- ===== src/Expr/Eval/Objects.antt =====
-- crates/gmr-expr/src/eval.rs, object: the object that an expression builds.
use gmr.Support.{Option, none, some, ◌≡◌, refl, ap, sym, ◌∙◌, if◌then◌else◌}
use gmr.Support.Text.{Text, text_eq}
use gmr.Json.{Platform, Value, Fields, null, end, Json, get, insert, get-insert}
use gmr.Expr.Ast.{NodeFields, object, no_fields, with_field}
use gmr.Expr.Ctx.{Ctx}
use gmr.Expr.Outcome.{Evaluated, value, absent, fault}
use gmr.Expr.Eval.{eval, eval_fields, keep}

module _ ⦃host : Platform⦄ where
  -- The value that a part leaves in an object: `null` for absence.
  abbrev pub placed : Evaluated → Option Json
  placed (value v) = some v
  placed absent = some null
  placed (fault f) = none

  -- What the last field of that name is built from, if there is one, and else what is there.
  abbrev pub named_last : Text → NodeFields host.Number → Ctx → Option Json → Option Json
  named_last k no_fields ctx before = before
  named_last k (with_field name node rest) ctx before =
      named_last k rest ctx (if text_eq name k then placed (eval node ctx) else before)

  keep-value :
      (e : Evaluated) (next : Json → Evaluated) {m : Json}
      → keep e next fault ≡ value m
      → (v : Json) × (placed e ≡ some v) × (next v ≡ value m)
  unfolding keep
  keep-value (value v) next h = (v, refl, h)
  keep-value absent next h = (null, refl, h)
  keep-value (fault f) next h = cc

  get-eval_fields :
      (k : Text) (fields : NodeFields host.Number) (ctx : Ctx) (map : Fields host.Number)
      {m : Fields host.Number}
      → eval_fields fields ctx map ≡ value (Value.object m)
      → get k m ≡ named_last k fields ctx (get k map)
  unfolding eval
  get-eval_fields k no_fields ctx map h = cc
  get-eval_fields k (with_field name node rest) ctx map h =
      let (v, p, q) =
        keep-value (eval node ctx) (λ v. eval_fields rest ctx (insert name v map)) h in
      get-eval_fields k rest ctx (insert name v map) q
      ∙ ap (named_last k rest ctx) (
          get-insert name k v map
          ∙ ap (λ (o : Option Json). if text_eq name k then o else get k map) (sym p))

  -- In an object that an expression has built, a name has the value of the last field written for
  -- it, `null` where that is absent, and a name that no field has is not there.
  pub get-eval :
      (k : Text) (fields : NodeFields host.Number) (ctx : Ctx) {m : Fields host.Number}
      → eval (object fields) ctx ≡ value (Value.object m)
      → get k m ≡ named_last k fields ctx none
  unfolding eval get
  get-eval k fields ctx h = get-eval_fields k fields ctx end h
