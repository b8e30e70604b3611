-- ===== src/Expr/Ctx.antt =====
-- crates/gmr-expr/src/ctx.rs: what an expression is read in.
use gmr.Support.{List, []}
use gmr.Json.{ℤ, pos, Platform, Json}

pub record Ctx ⦃host : Platform⦄ : Type 0 where
  pub obs : Json
  pub state : Json
  pub taken_at : ℤ
  pub entered_at : ℤ
  pub anchors : List Json

module _ ⦃host : Platform⦄ where
  unfoldable pub new_ctx : Json → Json → Ctx
  new_ctx obs state = record {
    obs = obs;
    state = state;
    taken_at = pos 0;
    entered_at = pos 0;
    anchors = [];
  }

  unfoldable pub at : Ctx → ℤ → ℤ → Ctx
  at ctx taken entered = record ctx { taken_at = taken; entered_at = entered }

  unfoldable pub over : Ctx → List Json → Ctx
  over ctx states = record ctx { anchors = states }

  unfoldable pub each : Ctx → Json → Ctx
  each ctx state = record ctx { state = state }
