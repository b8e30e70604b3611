-- ===== src/Runtime/Translate.antt =====
-- crates/gmr-runtime/src/translate.rs: an anchor's rule table, applied to an observation.
pub mod Rules
pub mod Warnings
pub mod Parsing
use gmr.Support.{ℕ, suc, List, [], ◌∷◌, ◌++◌, Bool, true, false, Option, none, some, get_or_else}
use gmr.Support.Text.{Text, txt, decimal}
use gmr.Json.{Platform, Value, bool, null, object, Json}
use gmr.Expr.Ctx.{Ctx, new_ctx, at}
use gmr.Expr.Outcome.{
  Fault, no_such_field, not_an_object, not_an_array, index_out_of_range, not_comparable,
  divided_by_zero, class, Evaluated, value, absent, fault,
}
use gmr.Expr.Ast.{Expression}
use gmr.Expr.Eval.{eval}
use gmr.Expr.Parse.{parse}
use gmr.Expr.Parse.Lexer.{Parsed, parsed, syntax_error, out_of_fuel}
use gmr.Core.Probe.{facts_of}
use gmr.Core.Anchor.{Expr, Rule, State, Anchor}
use gmr.Core.Journal.{
  FailureCode, guard_not_boolean, unparseable, new_state_not_an_object, new_state_absent,
  Observation,
}

unfoldable pub code_of : Fault → FailureCode
code_of no_such_field = FailureCode.no_such_field
code_of not_an_object = FailureCode.not_an_object
code_of not_an_array = FailureCode.not_an_array
code_of index_out_of_range = FailureCode.index_out_of_range
code_of not_comparable = FailureCode.not_comparable
code_of divided_by_zero = FailureCode.divided_by_zero

module _ ⦃host : Platform⦄ where
  pub data Transitioned : Type 0 where
    to_state : State → Transitioned
    unchanged : Transitioned
    unevaluable : FailureCode → Text → Transitioned

  pub data Compiled : Type 0 where
    compiled : Expression → Compiled
    refused : Text → Compiled

  -- `out_of_fuel` is no result of `parse`.
  of_parsed : Parsed Expression → Compiled
  of_parsed (parsed node rest) = compiled node
  of_parsed (syntax_error message) = refused message
  of_parsed out_of_fuel = refused []

  unfoldable pub compile : Expr → Compiled
  unfolding of_parsed
  compile expr = of_parsed (parse expr.source)

  -- "{what} of rule {n}"
  abbrev pub of_rule : Text → ℕ → Text
  of_rule what n = what ++ txt " of rule " ++ decimal n

  -- What an evaluated new state is.
  unfoldable pub new_state : ℕ → Evaluated → Transitioned
  unfolding code_of class
  new_state n (value (object fields)) = to_state (object fields)
  new_state n (value _) =
      unevaluable new_state_not_an_object (of_rule (txt "new state") n ++ txt " is not an object")
  new_state n absent =
      unevaluable new_state_absent (txt "rule " ++ decimal n ++ txt " cannot compute a new state")
  new_state n (fault f) =
      unevaluable (code_of f) (of_rule (txt "new state") n ++ txt ": " ++ class f)

  unfoldable pub body : ℕ → Ctx → Compiled → Transitioned
  unfolding new_state
  body n ctx (compiled node) = new_state n (eval node ctx)
  body n ctx (refused e) = unevaluable unparseable (of_rule (txt "new state") n ++ txt ": " ++ e)

  -- What an evaluated guard decides: `next` is the rest of the loop, `taken` the rule's body.
  unfoldable pub guarded : ℕ → Transitioned → Transitioned → Evaluated → Transitioned
  unfolding code_of class
  guarded n next taken (value (bool false)) = next
  guarded n next taken absent = next
  guarded n next taken (value (bool true)) = taken
  guarded n next taken (value _) =
      unevaluable guard_not_boolean (of_rule (txt "guard") n ++ txt " is not a boolean")
  guarded n next taken (fault f) =
      unevaluable (code_of f) (of_rule (txt "guard") n ++ txt ": " ++ class f)

  unfoldable pub guard : ℕ → Ctx → Transitioned → Transitioned → Compiled → Transitioned
  unfolding guarded
  guard n ctx next taken (compiled node) = guarded n next taken (eval node ctx)
  guard n ctx next taken (refused e) =
      unevaluable unparseable (of_rule (txt "guard") n ++ txt ": " ++ e)

  -- The loop over the rules; `n` is the number of the first of them.
  unfoldable pub first_rule : ℕ → Ctx → List Rule → Transitioned
  unfolding guard body compile
  first_rule n ctx [] = unchanged
  first_rule n ctx (rule ∷ rules) =
      guard n ctx (first_rule (suc n) ctx rules) (body n ctx (compile rule.to)) (compile rule.when)

  unfoldable pub context : Observation → State → host.Time → host.Time → Ctx
  unfolding facts_of new_ctx at
  context observation state taken entered =
      at (new_ctx (get_or_else (facts_of observation.outcome) null) state) (host.timestamp taken)
        (host.timestamp entered)

  unfoldable pub transition : Anchor → Observation → State → host.Time → host.Time → Transitioned
  unfolding first_rule context
  transition anchor observation state taken entered =
      first_rule 1 (context observation state taken entered) anchor.transitions
