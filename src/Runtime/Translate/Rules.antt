-- ===== src/Runtime/Translate/Rules.antt =====
-- crates/gmr-runtime/src/translate.rs, transition: which rule of a table decides.
use gmr.Support.{ℕ, suc, List, [], ◌∷◌, true, false, ◌≡◌, ◌≢◌, ◌↔◌, refl, ap, sym, ◌∙◌}
use gmr.Support.Text.{Text}
use gmr.Json.{Platform, Fields, null, bool, number, string, array, object}
use gmr.Expr.Ctx.{Ctx}
use gmr.Expr.Outcome.{Evaluated, value, absent, fault}
use gmr.Expr.Ast.{Expression}
use gmr.Expr.Eval.{eval}
use gmr.Core.Anchor.{Expr, Rule, State, Anchor}
use gmr.Core.Journal.{Observation, FailureCode}
use gmr.Runtime.Translate.{
  Transitioned, to_state, unchanged, unevaluable, Compiled, compiled, refused, compile, new_state,
  body, new_state, guarded, guard, first_rule, context, transition,
}

module _ ⦃host : Platform⦄ where
  -- The source compiles, to what evaluates to `v`.
  pub data Evaluates (ctx : Ctx) (expr : Expr) (v : Evaluated) : Type 0 where
    evaluates :
        {node : Expression}
        → compile expr ≡ compiled node
        → eval node ctx ≡ v
        → Evaluates ctx expr v

  -- A guard that its rule is passed over for.
  pub data Skips (ctx : Ctx) (expr : Expr) : Type 0 where
    skips_false : Evaluates ctx expr (value (bool false)) → Skips ctx expr
    skips_absent : Evaluates ctx expr absent → Skips ctx expr

  -- The first rule that is not passed over holds, and its new state is the object `s`.
  pub data Decides (ctx : Ctx) (s : State) : List Rule → Type 0 where
    decides_here :
        {rule : Rule} {rules : List Rule} {fields : Fields host.Number}
        → Evaluates ctx rule.when (value (bool true))
        → Evaluates ctx rule.to (value (object fields))
        → s ≡ object fields
        → Decides ctx s (rule ∷ rules)
    decides_later :
        {rule : Rule} {rules : List Rule}
        → Skips ctx rule.when
        → Decides ctx s rules
        → Decides ctx s (rule ∷ rules)

  -- Every guard is passed over.
  pub data NoneHolds (ctx : Ctx) : List Rule → Type 0 where
    none_left : NoneHolds ctx []
    none_here :
        {rule : Rule} {rules : List Rule}
        → Skips ctx rule.when
        → NoneHolds ctx rules
        → NoneHolds ctx (rule ∷ rules)

  data NoResult : Transitioned → Type 0 where
    no_result : {code : FailureCode} {message : Text} → NoResult (unevaluable code message)

  not_to_state : (r : Transitioned) (s : State) → NoResult r → r ≢ to_state s
  not_to_state (to_state _) s n = elim n [ ]
  not_to_state unchanged s n = elim n [ ]
  not_to_state (unevaluable code message) s no_result = cc

  not_unchanged : (r : Transitioned) → NoResult r → r ≢ unchanged
  not_unchanged (to_state _) n = elim n [ ]
  not_unchanged unchanged n = elim n [ ]
  not_unchanged (unevaluable code message) no_result = cc

  -- What a guard can come to.
  data Verdict (ctx : Ctx) (expr : Expr) : Type 0 where
    skipped :
        Skips ctx expr
        → ((n : ℕ) (next taken : Transitioned) → guard n ctx next taken (compile expr) ≡ next)
        → Verdict ctx expr
    held :
        Evaluates ctx expr (value (bool true))
        → ((n : ℕ) (next taken : Transitioned) → guard n ctx next taken (compile expr) ≡ taken)
        → Verdict ctx expr
    stuck :
        ((n : ℕ) (next taken : Transitioned) → NoResult (guard n ctx next taken (compile expr)))
        → Verdict ctx expr

  guarded-Verdict :
      (ctx : Ctx) (expr : Expr) (node : Expression) (v : Evaluated)
      → compile expr ≡ compiled node
      → eval node ctx ≡ v
      → Verdict ctx expr
  unfolding guard guarded
  guarded-Verdict ctx expr node (value (bool true)) p q =
      held (evaluates p q) λ n next taken. rw (p, guard, q) refl
  guarded-Verdict ctx expr node (value (bool false)) p q =
      skipped (skips_false (evaluates p q)) λ n next taken. rw (p, guard, q) refl
  guarded-Verdict ctx expr node (value null) p q = stuck λ n next taken. rw (p, guard, q) no_result
  guarded-Verdict ctx expr node (value (number m)) p q =
      stuck λ n next taken. rw (p, guard, q) no_result
  guarded-Verdict ctx expr node (value (string s)) p q =
      stuck λ n next taken. rw (p, guard, q) no_result
  guarded-Verdict ctx expr node (value (array vs)) p q =
      stuck λ n next taken. rw (p, guard, q) no_result
  guarded-Verdict ctx expr node (value (object fs)) p q =
      stuck λ n next taken. rw (p, guard, q) no_result
  guarded-Verdict ctx expr node absent p q =
      skipped (skips_absent (evaluates p q)) λ n next taken. rw (p, guard, q) refl
  guarded-Verdict ctx expr node (fault f) p q = stuck λ n next taken. rw (p, guard, q) no_result

  compiled-Verdict : (ctx : Ctx) (expr : Expr) (c : Compiled) → compile expr ≡ c → Verdict ctx expr
  unfolding guard
  compiled-Verdict ctx expr (compiled node) p = guarded-Verdict ctx expr node (eval node ctx) p refl
  compiled-Verdict ctx expr (refused e) p = stuck λ n next taken. rw p no_result

  verdict : (ctx : Ctx) (expr : Expr) → Verdict ctx expr
  verdict ctx expr = compiled-Verdict ctx expr (compile expr) refl

  first_rule-next :
      (n : ℕ) (ctx : Ctx) (rule : Rule) (rules : List Rule)
      → Skips ctx rule.when
      → first_rule n ctx (rule ∷ rules) ≡ first_rule (suc n) ctx rules
  unfolding first_rule guard guarded
  first_rule-next n ctx rule rules (skips_false (evaluates p q)) = rw (p, guard, q) refl
  first_rule-next n ctx rule rules (skips_absent (evaluates p q)) = rw (p, guard, q) refl

  first_rule-held :
      (n : ℕ) (ctx : Ctx) (rule : Rule) (rules : List Rule)
      → Evaluates ctx rule.when (value (bool true))
      → first_rule n ctx (rule ∷ rules) ≡ body n ctx (compile rule.to)
  unfolding first_rule guard guarded
  first_rule-held n ctx rule rules (evaluates p q) = rw (p, guard, q) refl

  new_state-ne-unchanged : (n : ℕ) (v : Evaluated) → new_state n v ≢ unchanged
  unfolding new_state
  new_state-ne-unchanged n (value (object fields)) = cc
  new_state-ne-unchanged n (value null) = cc
  new_state-ne-unchanged n (value (bool b)) = cc
  new_state-ne-unchanged n (value (number m)) = cc
  new_state-ne-unchanged n (value (string t)) = cc
  new_state-ne-unchanged n (value (array vs)) = cc
  new_state-ne-unchanged n absent = cc
  new_state-ne-unchanged n (fault f) = cc

  body-ne-unchanged : (n : ℕ) (ctx : Ctx) (c : Compiled) → body n ctx c ≢ unchanged
  unfolding body
  body-ne-unchanged n ctx (refused e) = cc
  body-ne-unchanged n ctx (compiled node) = new_state-ne-unchanged n (eval node ctx)

  body-object :
      (n : ℕ) (ctx : Ctx) (expr : Expr) (fields : Fields host.Number)
      → Evaluates ctx expr (value (object fields))
      → body n ctx (compile expr) ≡ to_state (object fields)
  unfolding body new_state
  body-object n ctx expr fields (evaluates p q) = rw (p, body, q) refl

  new_state-object :
      (n : ℕ) (v : Evaluated) (s : State)
      → new_state n v ≡ to_state s
      → (fields : Fields host.Number) × (v ≡ value (object fields)) × (s ≡ object fields)
  unfolding new_state
  new_state-object n (value (object fields)) s h = (fields, refl, cc)
  new_state-object n (value null) s h = cc
  new_state-object n (value (bool b)) s h = cc
  new_state-object n (value (number m)) s h = cc
  new_state-object n (value (string t)) s h = cc
  new_state-object n (value (array vs)) s h = cc
  new_state-object n absent s h = cc
  new_state-object n (fault f) s h = cc

  held-Decides :
      (n : ℕ) (ctx : Ctx) (s : State) (rule : Rule) (rules : List Rule) (c : Compiled)
      → Evaluates ctx rule.when (value (bool true))
      → compile rule.to ≡ c
      → body n ctx c ≡ to_state s
      → Decides ctx s (rule ∷ rules)
  unfolding body
  held-Decides n ctx s rule rules (refused e) g p h = cc
  held-Decides n ctx s rule rules (compiled node) g p h =
      let (fields, q, r) = new_state-object n (eval node ctx) s h in
      decides_here g (evaluates p q) r

  first_rule-Decides :
      (n : ℕ) (ctx : Ctx) (s : State) (rules : List Rule)
      → first_rule n ctx rules ≡ to_state s
      → Decides ctx s rules
  unfolding first_rule
  first_rule-Decides n ctx s [] h = cc
  first_rule-Decides n ctx s (rule ∷ rules) h = elim (verdict ctx rule.when) [
    | skipped k e ↦ decides_later k (first_rule-Decides (suc n) ctx s rules (rw (e n _ _) at h))
    | held g e ↦ held-Decides n ctx s rule rules (compile rule.to) g refl (rw (e n _ _) at h)
    | stuck none ↦ absurd (not_to_state _ s (none n _ _) h)
  ]

  Decides-first_rule :
      (n : ℕ) (ctx : Ctx) (s : State) (rules : List Rule)
      → Decides ctx s rules
      → first_rule n ctx rules ≡ to_state s
  unfolding first_rule
  Decides-first_rule n ctx s [] d = elim d [ ]
  Decides-first_rule n ctx s (rule ∷ rules) (decides_later k d) =
      first_rule-next n ctx rule rules k ∙ Decides-first_rule (suc n) ctx s rules d
  Decides-first_rule n ctx s (rule ∷ rules) (decides_here {fields} g b e) =
      first_rule-held n ctx rule rules g
      ∙ (body-object n ctx rule.to fields b ∙ ap to_state (sym e))

  first_rule-NoneHolds :
      (n : ℕ) (ctx : Ctx) (rules : List Rule)
      → first_rule n ctx rules ≡ unchanged
      → NoneHolds ctx rules
  unfolding first_rule
  first_rule-NoneHolds n ctx [] h = none_left
  first_rule-NoneHolds n ctx (rule ∷ rules) h = elim (verdict ctx rule.when) [
    | skipped k e ↦ none_here k (first_rule-NoneHolds (suc n) ctx rules (rw (e n _ _) at h))
    | held g e ↦ absurd (body-ne-unchanged n ctx (compile rule.to) (rw (e n _ _) at h))
    | stuck none ↦ absurd (not_unchanged _ (none n _ _) h)
  ]

  NoneHolds-first_rule :
      (n : ℕ) (ctx : Ctx) (rules : List Rule)
      → NoneHolds ctx rules
      → first_rule n ctx rules ≡ unchanged
  unfolding first_rule
  NoneHolds-first_rule n ctx [] none_left = refl
  NoneHolds-first_rule n ctx (rule ∷ rules) (none_here k d) =
      first_rule-next n ctx rule rules k ∙ NoneHolds-first_rule (suc n) ctx rules d

  -- A transition gives a new state exactly when that state is the object which the first rule whose
  -- guard is neither false nor absent computes, the guard being true.
  pub transition-Decides :
      (anchor : Anchor) (observation : Observation) (s t : State) (taken entered : host.Time)
      → (transition anchor observation s taken entered ≡ to_state t)
        ↔ Decides (context observation s taken entered) t anchor.transitions
  unfolding transition
  transition-Decides anchor observation s t taken entered =
      (first_rule-Decides 1 _ t anchor.transitions, Decides-first_rule 1 _ t anchor.transitions)

  -- A transition leaves the state exactly when every guard of the table is false or absent.
  pub transition_unchanged :
      (anchor : Anchor) (observation : Observation) (s : State) (taken entered : host.Time)
      → (transition anchor observation s taken entered ≡ unchanged)
        ↔ NoneHolds (context observation s taken entered) anchor.transitions
  unfolding transition
  transition_unchanged anchor observation s taken entered =
      (first_rule-NoneHolds 1 _ anchor.transitions, NoneHolds-first_rule 1 _ anchor.transitions)
