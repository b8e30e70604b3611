-- ===== src/Examples/Passes.antt =====
-- crates/gmr-runtime/src/pass.rs and what it uses, at a concrete queue.
use gmr.Support.{ℕ, List, [], ◌∷◌, true, false, none, some, All, inl, ◌≡◌, ◌≤◌, ◌↔◌, refl}
use gmr.Support.Text.{Text, txt, text_eq}
use gmr.Json.{insert}
use gmr.Expr.Parse.{parse}
use gmr.Expr.Eval.{eval}
use gmr.Core.Probe.{not_found, named}
use gmr.Core.Anchor.{Rule}
use gmr.Core.Journal.{unparseable}
use gmr.Store.Journal.{held}
use gmr.Store.Queue.{Ticket, Queue, settle}
use gmr.Store.Queue.Retired.{NotAmong}
use gmr.Store.Sealer.{sealed, seal, content_hash_of_bytes, sealed-seal}
use gmr.Budget.{Budget, narrowed_to, checkpoint, checkpoint-narrowed_to}
use gmr.Runtime.Policy.{default_policy}
use gmr.Runtime.Errors.{Ran, ran, refused}
use gmr.Runtime.Observer.{Observer, answered}
use gmr.Runtime.Observe.{closed}
use gmr.Runtime.Deployment.{Deployment}
use gmr.Runtime.Looking.{Moment, observe}
use gmr.Runtime.Looking.Leased.{LeftFree, observe-LeftFree}
use gmr.Runtime.Pass.{Passing, nothing_passed, passing, disposition}
use gmr.Runtime.Pass.Retired.{disposition-NotAmong}
use gmr.Runtime.Blind.{RuleReads, blind, blind-none}
use gmr.Runtime.Translate.{unevaluable, transition}
use gmr.Runtime.Translate.Warnings.{bind_warnings, TableBinds, sample, bind_warnings-TableBinds}
use gmr.Runtime.Translate.Parsing.{transition-ne-unparseable}
use gmr.Examples.Flat.{
  hashless, rule_of, bare_derivation, bare_anchor, nothing_found, empty_object, mover, flat_codec,
  opened_table, site_at, deployed,
}

abbrev transports : Observer
transports =
    record {
      kind = [];
      resolve = λ name. some bare_derivation;
      invoke = λ instant probe position budget. answered not_found;
    }
    ∷ []

abbrev midnight : Moment
midnight = record { at = 0; now = 0; instant = 0; flag = 1 }

abbrev some_time : Budget
some_time = record { started = 0; deadline = 100; output_cap = 1000; cancel = 0; inherited = [] }

-- The only row is leased until 60, under the ticket.
abbrev queued : Queue
queued = record { anchor = txt "a"; due = 5; lease_until = 60; epoch = 1; parked = false } ∷ []

abbrev ticket : Ticket
ticket = record { anchor = txt "a"; fence = held 1; lease_until = 60 }

abbrev begun : Passing
begun = record { out = nothing_passed; site = site_at opened_table; queue = queued }

abbrev one_pass : Ran Passing
one_pass =
    passing default_policy (λ key. none) flat_codec [] transports (λ i j t. t) some_time
      (λ i. midnight) (λ i. 20) 0 (ticket ∷ []) begun

abbrev passed_in : Ran Passing → Passing
passed_in (ran p) = p
passed_in (refused e) = begun

disposition-NotAmong_example :
    NotAmong
      (txt "a")
      (settle ticket
        (disposition default_policy (λ key. none) ticket (bare_anchor (txt "a") []) closed)
        20
        queued)
      (λ slot. true)
      500
      560
disposition-NotAmong_example =
    disposition-NotAmong default_policy (λ key. none) ticket (bare_anchor (txt "a") []) closed
      (λ slot. true) 500 560 20 queued (inl refl)

-- The queue's row is free at 70.
abbrev leasable : Deployment
leasable = record (deployed opened_table) { queue = some queued }

observe-LeftFree_example :
    LeftFree flat_codec [] transports
      (λ key. none)
      default_policy
      (λ i t. t)
      (txt "a")
      some_time
      midnight
      70
      leasable
      queued
      (observe flat_codec [] transports
        (λ key. none)
        default_policy
        (λ i t. t)
        (txt "a")
        some_time
        midnight
        70
        75
        leasable)
observe-LeftFree_example =
    observe-LeftFree flat_codec [] transports (λ key. none) default_policy (λ i t. t) (txt "a")
      some_time midnight 70 75 leasable queued refl

-- It reads a field that the probe does not report.
abbrev reading : Rule
reading = rule_of (txt "obs.gone == 1") (txt "{ n: obs.n }")

blind-none_example :
    (blind (bare_anchor (txt "a") (reading ∷ [])) (named (txt "n" ∷ [])) ≡ none)
    ↔ All (RuleReads (named (txt "n" ∷ []))) (reading ∷ [])
blind-none_example = blind-none (bare_anchor (txt "a") (reading ∷ [])) (txt "n" ∷ [])

bind_warnings-TableBinds_example :
    (bind_warnings (bare_anchor (txt "a") (reading ∷ [])) nothing_found ≡ [])
    ↔ TableBinds (sample nothing_found) (reading ∷ [])
bind_warnings-TableBinds_example =
    bind_warnings-TableBinds (bare_anchor (txt "a") (reading ∷ [])) nothing_found

transition-ne-unparseable_example :
    transition (bare_anchor (txt "a") (mover ∷ [])) nothing_found empty_object 7 3
      ≡ unevaluable unparseable (txt "lost")
    → ⊥
unfolding bind_warnings parse eval insert text_eq
transition-ne-unparseable_example =
    transition-ne-unparseable (bare_anchor (txt "a") (mover ∷ [])) nothing_found nothing_found
      empty_object 7 3 (txt "lost") refl

sealed-seal_example :
    ((body : List ℕ) × (sealed (seal (txt "why") []).0 (seal (txt "why") []).1 ≡ some body)
      × (content_hash_of_bytes body ≡ (seal (txt "why") []).0))
    × ((other : Text) (body : List ℕ)
        → sealed other [] ≡ some body
        → sealed other (seal (txt "why") []).1 ≡ some body)
sealed-seal_example = sealed-seal (txt "why") [] tt

checkpoint-narrowed_to_example :
    (checkpoint (λ flag. false) 20 some_time ≡ none)
    × ((narrowed_to 10 3 some_time 30 100).deadline ≤ some_time.deadline)
unfolding checkpoint narrowed_to
checkpoint-narrowed_to_example =
    checkpoint-narrowed_to (λ flag. false) 10 20 3 some_time 30 100 refl
