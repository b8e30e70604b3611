-- ===== src/Runtime/Translate/Warnings.antt =====
-- crates/gmr-runtime/src/translate.rs, bind_warnings: what an observation says of a rule table.
use gmr.Support.{
  ℕ, suc, List, [], ◌∷◌, ◌++◌, Option, none, some, get_or_else, ◌≡◌, ◌≢◌, ◌↔◌, refl, All,
}
use gmr.Support.Text.{Text, txt}
use gmr.Json.{Platform, null, object, end}
use gmr.Expr.Ast.{Expression}
use gmr.Expr.Ctx.{Ctx, new_ctx}
use gmr.Expr.Outcome.{Fault, Evaluated, value, absent, fault}
use gmr.Expr.Eval.{eval}
use gmr.Expr.Bind.{Warning, warning, show_warning, bind}
use gmr.Core.Probe.{facts_of}
use gmr.Core.Anchor.{Expr, Rule, Anchor}
use gmr.Core.Journal.{Observation}
use gmr.Runtime.Translate.{Compiled, compiled, refused, compile, of_rule}

module _ ⦃host : Platform⦄ where
  bound : ℕ → Text → Option Warning → List Text
  unfolding show_warning
  bound n what none = []
  bound n what (some w) = (of_rule what n ++ txt ": " ++ show_warning w) ∷ []

  unfoldable pub expr_warnings : ℕ → Text → Ctx → Compiled → List Text
  unfolding bound bind
  expr_warnings n what ctx (refused e) = (of_rule what n ++ txt " is invalid: " ++ e) ∷ []
  expr_warnings n what ctx (compiled node) = bound n what (bind node ctx)

  unfoldable pub rule_warnings : ℕ → Ctx → List Rule → List Text
  unfolding expr_warnings compile
  rule_warnings n ctx [] = []
  rule_warnings n ctx (rule ∷ rules) =
      expr_warnings n (txt "guard") ctx (compile rule.when)
      ++ expr_warnings n (txt "new state") ctx (compile rule.to)
      ++ rule_warnings (suc n) ctx rules

  unfoldable pub bind_warnings : Anchor → Observation → List Text
  unfolding rule_warnings facts_of new_ctx
  bind_warnings anchor observation =
      rule_warnings 1 (new_ctx (get_or_else (facts_of observation.outcome) null) (object end))
        anchor.transitions

  -- The source compiles, to what meets no fault.
  pub record Binds (ctx : Ctx) (expr : Expr) : Type 0 where
    pub node : Expression
    pub compiles : compile expr ≡ compiled node
    pub faultless : (f : Fault) → eval node ctx ≢ fault f

  abbrev pub RuleBinds : Ctx → Rule → Type 0
  RuleBinds ctx rule = Binds ctx rule.when × Binds ctx rule.to

  abbrev pub TableBinds : Ctx → List Rule → Type 0
  TableBinds ctx rules = All (RuleBinds ctx) rules

  nil_parts : (xs ys : List Text) → xs ++ ys ≡ [] → (xs ≡ []) × (ys ≡ [])
  nil_parts [] ys h = (refl, h)
  nil_parts (x ∷ xs) ys h = cc

  warned-Binds :
      (n : ℕ) (what : Text) (ctx : Ctx) (expr : Expr) (node : Expression) (v : Evaluated)
      → compile expr ≡ compiled node
      → eval node ctx ≡ v
      → bound n what (warning node v) ≡ []
      → Binds ctx expr
  unfolding bound warning
  warned-Binds n what ctx expr node (fault f) p q h = cc
  warned-Binds n what ctx expr node (value v) p q h = record {
    node = node;
    compiles = p;
    faultless = λ f r. cc;
  }
  warned-Binds n what ctx expr node absent p q h = record {
    node = node;
    compiles = p;
    faultless = λ f r. cc;
  }

  compiled-Binds :
      (n : ℕ) (what : Text) (ctx : Ctx) (expr : Expr) (c : Compiled)
      → compile expr ≡ c
      → expr_warnings n what ctx c ≡ []
      → Binds ctx expr
  unfolding expr_warnings bind
  compiled-Binds n what ctx expr (refused e) p h = cc
  compiled-Binds n what ctx expr (compiled node) p h =
      warned-Binds n what ctx expr node (eval node ctx) p refl h

  faultless_bound :
      (n : ℕ) (what : Text) (node : Expression) (v : Evaluated)
      → ((f : Fault) → v ≢ fault f)
      → bound n what (warning node v) ≡ []
  unfolding bound warning
  faultless_bound n what node (fault f) k = absurd (k f refl)
  faultless_bound n what node (value v) k = refl
  faultless_bound n what node absent k = refl

  Binds-expr_warnings :
      (n : ℕ) (what : Text) (ctx : Ctx) (expr : Expr)
      → Binds ctx expr
      → expr_warnings n what ctx (compile expr) ≡ []
  unfolding expr_warnings bind
  Binds-expr_warnings n what ctx expr b =
      rw (b.compiles, expr_warnings) (faultless_bound n what b.node (eval b.node ctx) b.faultless)

  rule_warnings-Binds :
      (n : ℕ) (ctx : Ctx) (rules : List Rule)
      → rule_warnings n ctx rules ≡ []
      → TableBinds ctx rules
  unfolding rule_warnings
  rule_warnings-Binds n ctx [] h = tt
  rule_warnings-Binds n ctx (rule ∷ rules) h =
      let first = expr_warnings n (txt "guard") ctx (compile rule.when) in
      let second = expr_warnings n (txt "new state") ctx (compile rule.to) in
      let (both, later) = nil_parts (first ++ second) (rule_warnings (suc n) ctx rules) h in
      let (p, q) = nil_parts first second both in
      (
        (
          compiled-Binds n (txt "guard") ctx rule.when _ refl p,
          compiled-Binds n (txt "new state") ctx rule.to _ refl q,
        ),
        rule_warnings-Binds (suc n) ctx rules later,
      )

  Binds-rule_warnings :
      (n : ℕ) (ctx : Ctx) (rules : List Rule)
      → TableBinds ctx rules
      → rule_warnings n ctx rules ≡ []
  unfolding rule_warnings
  Binds-rule_warnings n ctx [] b = refl
  Binds-rule_warnings n ctx (rule ∷ rules) b =
      rw
        (
          Binds-expr_warnings n (txt "guard") ctx rule.when b.0.0,
          Binds-expr_warnings n (txt "new state") ctx rule.to b.0.1,
        )
        (Binds-rule_warnings (suc n) ctx rules b.1)

  -- What `bind_warnings` evaluates in: the facts, and an empty state.
  abbrev pub sample : Observation → Ctx
  sample observation = new_ctx (get_or_else (facts_of observation.outcome) null) (object end)

  -- There is no warning exactly when every guard and every new state of the table compiles, and
  -- meets no fault over the facts observed and an empty state.
  pub bind_warnings-TableBinds :
      (anchor : Anchor) (observation : Observation)
      → (bind_warnings anchor observation ≡ []) ↔ TableBinds (sample observation) anchor.transitions
  unfolding bind_warnings
  bind_warnings-TableBinds anchor observation =
      (rule_warnings-Binds 1 _ anchor.transitions, Binds-rule_warnings 1 _ anchor.transitions)
