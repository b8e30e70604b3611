-- ===== src/Expr/Eval/Comparisons.antt =====
-- crates/gmr-expr/src/eval.rs, binary and order: the comparisons read from either side.
use gmr.Support.{
  Bool, true, false, ◌&&◌, Option, none, some, Ordering, ◌≡◌, refl, ap, sym, ◌∙◌, arith,
}
use gmr.Support.Text.{turn, text_cmp-turn}
use gmr.Json.{Platform, null, bool, number, string, array, object, Json}
use gmr.Expr.Ast.{BinOp, binary, Expression}
use gmr.Expr.Ctx.{Ctx}
use gmr.Expr.Outcome.{
  Evaluated, value, absent, fault, order, compared, comparison, passes, strict, combine, operate,
  equality,
}
use gmr.Expr.Eval.{eval}

abbrev pub turn_option : Option Ordering → Option Ordering
turn_option none = none
turn_option (some o) = some (turn o)

-- `partial_cmp` of floats, as `PartialOrd` documents it.
pub record IsPartialOrder (host : Platform) : Type 0 where
  pub duality : (x y : host.F64) → host.partial_cmp y x ≡ turn_option (host.partial_cmp x y)

module _ ⦃host : Platform⦄ where
  abbrev pub is_fault : Evaluated → Bool
  is_fault (fault f) = true
  is_fault _ = false

  -- The operator that says the same with its operands exchanged.
  pub data Mirrored : BinOp → BinOp → Type 0 where
    lt_gt : Mirrored BinOp.lt BinOp.gt
    le_ge : Mirrored BinOp.le BinOp.ge
    gt_lt : Mirrored BinOp.gt BinOp.lt
    ge_le : Mirrored BinOp.ge BinOp.le

  module _ (floats : IsPartialOrder host) where
    compared-turn : (x y : Option host.F64) → compared y x ≡ turn_option (compared x y)
    unfolding compared
    compared-turn none none = refl
    compared-turn none (some y) = refl
    compared-turn (some x) none = refl
    compared-turn (some x) (some y) = floats.duality x y

    order-turn : (a b : Json) → order b a ≡ turn_option (order a b)
    unfolding order
    order-turn (number m) (number n) = compared-turn (host.as_f64 m) (host.as_f64 n)
    order-turn (string s) (string t) = ap some (text_cmp-turn s t)
    order-turn (number m) _ = refl
    order-turn (string s) _ = refl
    order-turn null null = refl
    order-turn null _ = refl
    order-turn (bool b) null = refl
    order-turn (bool b) _ = refl
    order-turn (array vs) null = refl
    order-turn (array vs) _ = refl
    order-turn (object fs) null = refl
    order-turn (object fs) _ = refl

    comparison-turn :
        {op op' : BinOp}
        → Mirrored op op'
        → (o : Option Ordering) → comparison op o ≡ comparison op' (turn_option o)
    unfolding comparison passes
    comparison-turn lt_gt o = ground arith
    comparison-turn le_ge o = ground arith
    comparison-turn gt_lt o = ground arith
    comparison-turn ge_le o = ground arith

    operate-turn :
        {op op' : BinOp} → Mirrored op op' → (a b : Json) → operate op a b ≡ operate op' b a
    unfolding operate
    operate-turn lt_gt a b =
        comparison-turn lt_gt (order a b) ∙ ap (comparison BinOp.gt) (sym (order-turn a b))
    operate-turn le_ge a b =
        comparison-turn le_ge (order a b) ∙ ap (comparison BinOp.ge) (sym (order-turn a b))
    operate-turn gt_lt a b =
        comparison-turn gt_lt (order a b) ∙ ap (comparison BinOp.lt) (sym (order-turn a b))
    operate-turn ge_le a b =
        comparison-turn ge_le (order a b) ∙ ap (comparison BinOp.le) (sym (order-turn a b))

    equality-turn : {op op' : BinOp} → Mirrored op op' → (b : Bool) → equality op b ≡ equality op' b
    unfolding equality
    equality-turn lt_gt b = refl
    equality-turn le_ge b = refl
    equality-turn gt_lt b = refl
    equality-turn ge_le b = refl

    strict-turn :
        {op op' : BinOp}
        → Mirrored op op'
        → (l r : Evaluated) → is_fault l && is_fault r ≡ false
        → strict op l r ≡ strict op' r l
    unfolding strict
    strict-turn m (fault f) (fault g) h = cc
    strict-turn m (fault f) _ h = refl
    strict-turn m (value a) (value b) h = operate-turn m a b
    strict-turn m (value a) absent h = equality-turn m false
    strict-turn m (value a) (fault f) h = refl
    strict-turn m absent absent h = equality-turn m true
    strict-turn m absent (value b) h = equality-turn m false
    strict-turn m absent (fault f) h = refl

    combine-strict :
        {op op' : BinOp}
        → Mirrored op op'
        → (l r : Evaluated) → (combine op l r ≡ strict op l r) × (combine op' r l ≡ strict op' r l)
    unfolding combine
    combine-strict lt_gt l r = (refl, refl)
    combine-strict le_ge l r = (refl, refl)
    combine-strict gt_lt l r = (refl, refl)
    combine-strict ge_le l r = (refl, refl)

    -- `a < b` and `b > a`, and so on for each order, have one value, absence and faults included,
    -- unless both operands are faults, where each side reports its own first.
    pub eval-Mirrored :
        {op op' : BinOp}
        → Mirrored op op'
        → (a b : Expression) (ctx : Ctx) → is_fault (eval a ctx) && is_fault (eval b ctx) ≡ false
        → eval (binary op a b) ctx ≡ eval (binary op' b a) ctx
    unfolding eval
    eval-Mirrored m a b ctx h =
        let parts = combine-strict m (eval a ctx) (eval b ctx) in
        parts.0 ∙ strict-turn m (eval a ctx) (eval b ctx) h ∙ sym parts.1
