-- ===== src/Runtime/Translate/Parsing.antt =====
-- crates/gmr-runtime/src/translate.rs: a table that `bind_warnings` finds nothing wrong with parses.
use gmr.Support.{ℕ, suc, List, [], ◌∷◌, ◌≡◌, ◌≢◌, true, false, ap}
use gmr.Support.Text.{Text}
use gmr.Json.{Platform, null, bool, number, string, array, object}
use gmr.Expr.Ctx.{Ctx}
use gmr.Expr.Outcome.{Fault, Evaluated, value, absent, fault}
use gmr.Expr.Eval.{eval}
use gmr.Core.Anchor.{Rule, State, Anchor}
use gmr.Core.Journal.{FailureCode, unparseable, Observation}
use gmr.Runtime.Translate.{
  Transitioned, unevaluable, code_of, compile, new_state, body, guarded, guard, first_rule,
  transition,
}
use gmr.Runtime.Translate.Warnings.{
  RuleBinds, TableBinds, sample, bind_warnings, bind_warnings-TableBinds,
}

module _ ⦃host : Platform⦄ where
  code_of-ne-unparseable : (f : Fault) → code_of f ≢ unparseable
  unfolding code_of
  code_of-ne-unparseable Fault.no_such_field = cc
  code_of-ne-unparseable Fault.not_an_object = cc
  code_of-ne-unparseable Fault.not_an_array = cc
  code_of-ne-unparseable Fault.index_out_of_range = cc
  code_of-ne-unparseable Fault.not_comparable = cc
  code_of-ne-unparseable Fault.divided_by_zero = cc

  abbrev Parses : Transitioned → Type 0
  Parses r = (m : Text) → r ≢ unevaluable unparseable m

  code_in : Transitioned → FailureCode
  code_in (unevaluable code m) = code
  code_in _ = FailureCode.unusable

  new_state-Parses : (n : ℕ) (v : Evaluated) → Parses (new_state n v)
  unfolding new_state code_in
  new_state-Parses n (value (object fields)) m h = cc
  new_state-Parses n (value null) m h = cc
  new_state-Parses n (value (bool b)) m h = cc
  new_state-Parses n (value (number k)) m h = cc
  new_state-Parses n (value (string t)) m h = cc
  new_state-Parses n (value (array vs)) m h = cc
  new_state-Parses n absent m h = cc
  new_state-Parses n (fault f) m h = code_of-ne-unparseable f (ap code_in h)

  body-Parses :
      (n : ℕ) (ctx sampled : Ctx) (rule : Rule)
      → RuleBinds sampled rule
      → Parses (body n ctx (compile rule.to))
  unfolding body
  body-Parses n ctx sampled rule b m h =
      new_state-Parses n (eval b.1.node ctx) m (rw (b.1.compiles, body) at h)

  guarded-Parses :
      (n : ℕ) (next taken : Transitioned) (v : Evaluated)
      → Parses next
      → Parses taken
      → Parses (guarded n next taken v)
  unfolding guarded code_in
  guarded-Parses n next taken (value (bool true)) p q m h = q m h
  guarded-Parses n next taken (value (bool false)) p q m h = p m h
  guarded-Parses n next taken absent p q m h = p m h
  guarded-Parses n next taken (value null) p q m h = cc
  guarded-Parses n next taken (value (number k)) p q m h = cc
  guarded-Parses n next taken (value (string t)) p q m h = cc
  guarded-Parses n next taken (value (array vs)) p q m h = cc
  guarded-Parses n next taken (value (object fs)) p q m h = cc
  guarded-Parses n next taken (fault f) p q m h = code_of-ne-unparseable f (ap code_in h)

  first_rule-Parses :
      (n : ℕ) (ctx sampled : Ctx) (rules : List Rule)
      → TableBinds sampled rules
      → Parses (first_rule n ctx rules)
  unfolding first_rule guard
  first_rule-Parses n ctx sampled [] b m h = cc
  first_rule-Parses n ctx sampled (rule ∷ rules) b m h =
      guarded-Parses n _ _ (eval b.0.0.node ctx) (first_rule-Parses (suc n) ctx sampled rules b.1)
        (body-Parses n ctx sampled rule b.0) m (rw (b.0.0.compiles, guard) at h)

  -- Where one observation gave no warning of a table, no transition by that table, on whatever is
  -- observed and in whatever state, fails because a rule does not parse.
  pub transition-ne-unparseable :
      (anchor : Anchor) (sampled observation : Observation) (s : State) (taken entered : host.Time)
      (message : Text)
      → bind_warnings anchor sampled ≡ []
      → transition anchor observation s taken entered ≢ unevaluable unparseable message
  unfolding transition
  transition-ne-unparseable anchor sampled observation s taken entered message clean h =
      first_rule-Parses 1 _ (sample sampled) anchor.transitions
        ((bind_warnings-TableBinds anchor sampled).0 clean) message h
