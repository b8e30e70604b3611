-- ===== src/Expr/Bind.antt =====
-- crates/gmr-expr/src/bind.rs: what a sample says of an expression before it is used.
use gmr.Support.{◌++◌, Option, none, some}
use gmr.Support.Text.{Text, txt}
use gmr.Json.{Platform}
use gmr.Expr.Ast.{Expression}
use gmr.Expr.Ctx.{Ctx}
use gmr.Expr.Outcome.{Fault, class, Evaluated, value, absent, fault}
use gmr.Expr.Eval.{eval}
use gmr.Expr.Render.{render}

pub record Warning : Type 0 where
  pub path : Text
  pub fault : Fault

-- Display of a warning
unfoldable pub show_warning : Warning → Text
unfolding class
show_warning w =
    txt "`"
    ++ w.path
    ++ txt "` cannot be resolved against this observation ("
    ++ class w.fault
    ++ txt ")"

module _ ⦃host : Platform⦄ where
  unfoldable pub warning : Expression → Evaluated → Option Warning
  unfolding render
  warning expr (value v) = none
  warning expr absent = none
  warning expr (fault f) = some (record { path = render expr; fault = f })

  unfoldable pub bind : Expression → Ctx → Option Warning
  unfolding warning
  bind expr sample = warning expr (eval expr sample)
