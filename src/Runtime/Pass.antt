-- ===== src/Runtime/Pass.antt =====
-- crates/gmr-runtime/src/pass.rs: one round over the anchors that are due. `moments` and `clock` are
-- what is read of the clocks for each ticket, by its number. The counters of a pass do not wrap.
pub mod Released
pub mod Retired
use gmr.Support.{
  ℕ, zero, suc, ◌+◌, ◌*◌, List, [], ◌∷◌, ◌++◌, Bool, true, false, Option, none, some, if◌then◌else◌,
}
use gmr.Support.Text.{Text}
use gmr.Json.{Platform, ℤ, pos}
use gmr.Core.Anchor.{State, Anchor, is_terminal}
use gmr.Core.Journal.{ReasonClass, AnchorState}
use gmr.Store.Journal.{Table, Codec, Stored, done, failed}
use gmr.Store.Queue.{Slot, Ticket, Disposition, retire, reschedule, backoff, Queue, due, settle}
use gmr.Budget.{Budget, within, remaining}
use gmr.Runtime.Policy.{Policy, as_i64, backoff_secs}
use gmr.Runtime.Log.{Stood, Checkpoints, stood}
use gmr.Runtime.Errors.{RuntimeError, Ran, ran, refused, no_queue, of_stored, ◌>>=◌}
use gmr.Runtime.Observer.{Observer}
use gmr.Runtime.Scheduler.{Settings, cadence_for, schedule_if_absent}
use gmr.Runtime.Observe.{
  Observed, transitioned, unchanged_in, still_there, attempted, closed, contended, Site,
}
use gmr.Runtime.Looking.{Moment, observe_with}

pub record Passed : Type 0 where
  pub observed : ℕ
  pub moved : List Text
  pub unseen : ℕ
  pub retired : ℕ
  pub skipped : ℕ

-- Passed::default
abbrev pub nothing_passed : Passed
nothing_passed = record { observed = 0; moved = []; unseen = 0; retired = 0; skipped = 0 }

unfoldable pub backoff_after : Policy → ReasonClass → ℕ → ℤ
unfolding backoff_secs as_i64
backoff_after policy ReasonClass.unevaluable attempts = as_i64 policy.backoff_cap_secs
backoff_after policy _ attempts = backoff_secs policy attempts

module _ ⦃host : Platform⦄ where
  -- Has the anchor moved to a state that is terminal for it?
  abbrev pub sealed_by : Anchor → Observed → Bool
  sealed_by anchor (transitioned from to) = is_terminal anchor to
  sealed_by anchor _ = false

  abbrev pub moved_by : Text → Observed → List Text
  moved_by anchor (transitioned from to) = anchor ∷ []
  moved_by anchor _ = []

  abbrev pub other_counted : Bool → Text → Observed → Passed → Passed
  other_counted finished anchor o out = record out {
    moved = out.moved ++ moved_by anchor o;
    retired = if finished then out.retired + 1 else out.retired;
  }

  pub record Passing : Type 0 where
    pub out : Passed
    pub site : Site
    pub queue : Queue

  module _ (policy : Policy) (settings : Settings) where
    -- What becomes of the ticket.
    unfoldable pub disposition : Ticket → Anchor → Observed → Disposition
    unfolding backoff_after cadence_for
    disposition ticket anchor closed = retire
    disposition ticket anchor (attempted reason code message n) =
        backoff (backoff_after policy reason n)
    disposition ticket anchor contended = reschedule (pos 0)
    disposition ticket anchor o =
        if sealed_by anchor o
        then retire
        else reschedule (cadence_for policy settings ticket.anchor)

    -- What the pass counts of it.
    unfoldable pub counted : Ticket → Anchor → Observed → Passed → Passed
    counted ticket anchor closed out = record out { retired = out.retired + 1 }
    counted ticket anchor (attempted reason code message n) out = record out {
      unseen = out.unseen + 1;
    }
    counted ticket anchor contended out = out
    counted ticket anchor o out = other_counted (sealed_by anchor o) ticket.anchor o out

    module _ (codec : Codec) (evaluator : Text) (observer : Observer) where
      module _ (others : ℕ → ℕ → Table → Table) (budget : Budget) where
        module _ (moments : ℕ → Moment) (clock : ℕ → ℕ) where
          skip : ℕ → Ticket → Passing → Passing
          unfolding settle
          skip i ticket p = record p {
            out = record p.out { skipped = p.out.skipped + 1 };
            queue = settle ticket (reschedule (pos 0)) (clock i) p.queue;
          }

          seen : ℕ → Ticket → Passing → Observed → Anchor → Site → Passing
          unfolding settle disposition counted
          seen i ticket p o anchor site = record {
            out = counted ticket anchor o (record p.out { observed = p.out.observed + 1 });
            site = site;
            queue = settle ticket (disposition ticket anchor o) (clock i) p.queue;
          }

          looked : ℕ → Ticket → Passing → Ran (Observed × Stood × Site) → Ran Passing
          unfolding seen
          looked i ticket p (refused e) = refused e
          looked i ticket p (ran (o, found, site)) =
              ran (seen i ticket p o found.anchor.anchor site)

          one_ticket : ℕ → Ticket → Passing → Ran Passing
          unfolding skip looked remaining observe_with
          one_ticket i ticket p = elim (remaining (moments i).instant budget) [
            | none ↦ ran (skip i ticket p)
            | some left ↦ looked i ticket p (
                observe_with codec evaluator observer settings (others i) ticket.anchor ticket.fence
                  budget (moments i) p.site)
          ]

          go_on : ℕ → List Ticket → Ran Passing → (Passing → Ran Passing) → Ran Passing
          go_on i tickets (refused e) next = refused e
          go_on i tickets (ran p) next = next p

          -- The loop over the tickets.
          unfoldable pub passing : ℕ → List Ticket → Passing → Ran Passing
          unfolding one_ticket go_on
          passing i [] p = ran p
          passing i (ticket ∷ tickets) p =
              go_on i tickets (one_ticket i ticket p) λ q. passing (suc i) tickets q

      -- `pass`: at `now`, over the due rows that are `chosen`, under a budget begun at `instant`.
      unfoldable pub pass :
          (ℕ → ℕ → Table → Table)
          → (ℕ → Moment)
          → (ℕ → ℕ)
          → (Slot → Bool)
          → ℕ
          → ℕ
          → ℕ
          → Site
          → Option Queue
          → Ran Passing
      unfolding due within passing
      pass others moments clock chosen now instant flag site none = refused no_queue
      pass others moments clock chosen now instant flag site (some queue) =
          let (tickets, leased) = due chosen now (now + policy.lease_secs) queue in
          passing others (within instant flag policy.probe_budget_ms policy.probe_output_cap)
            moments clock 0 tickets (record { out = nothing_passed; site = site; queue = leased })

  -- Has the anchor a log that is not finished?
  abbrev pub is_open_log : Option Stood → Bool
  is_open_log none = false
  is_open_log (some found) = if found.anchor.closed then false else true

  -- Answers whether the anchor was put in the queue, with the checkpoints and the queue.
  unfoldable pub ensure_scheduled :
      Codec → Text → ℕ → Site → Option Queue → Ran (Bool × Checkpoints × Option Queue)
  unfolding stood schedule_if_absent
  ensure_scheduled codec key now site queue =
      of_stored (stood codec site.table site.held key) >>= λ (found, held).
      let (added, queue') =
        if is_open_log found then schedule_if_absent key now queue else (false, queue) in
      ran (added, held, queue')
