-- ===== src/Runtime/Looking.antt =====
-- crates/gmr-runtime/src/observe.rs: from the call of a probe to what is recorded, and the lease around
-- it. An operation that is refused leaves the site that it began with: what others write meanwhile
-- may be put after it.
pub mod Ends
pub mod Leased
use gmr.Support.{
  ℕ, zero, suc, ◌+◌, List, [], ◌∷◌, ◌++◌, Bool, true, false, Option, none, some, if◌then◌else◌,
}
use gmr.Support.Text.{Text, txt}
use gmr.Json.{Platform, Json}
use gmr.Core.Probe.{Derivation, ProbeRef, Outcome}
use gmr.Core.Anchor.{RunSettings, position}
use gmr.Core.Journal.{AnchorState, Observation, FailureCode, unusable, attempts, next_u32}
use gmr.Store.Journal.{Fence, unleased, Stored, done, failed, Table, Codec}
use gmr.Store.Queue.{Ticket, Disposition, retire, reschedule, Queue, lease, settle}
use gmr.Budget.{Budget, narrowed}
use gmr.Runtime.Policy.{Policy}
use gmr.Runtime.Log.{Stood, Checkpoints, stood}
use gmr.Runtime.Errors.{RuntimeError, leased}
use gmr.Runtime.Observer.{
  ProbeError, Probed, answered, probe_error, failure_code, Observer, resolve, sample,
}
use gmr.Runtime.Scheduler.{Settings, settings_for, cadence_for}
use gmr.Runtime.Observe.{
  Ran, ran, refused, store, no_such_anchor, undigested, Observed, closed, Site, observe_into,
  record_attempt, recorded,
}
use gmr.Runtime.Deployment.{Deployment}

-- The message of RuntimeError::Undigested
abbrev pub undigested_message : Text → Text
undigested_message key =
    txt "anchor `"
    ++ key
    ++ txt "` records digests only, and the probe answered with values that are "
    ++ txt "not sha256 digests. Nothing was written -- refusing is the enforcement, because an "
    ++ txt "anchor whose facts are secret cannot be protected by asking its probe nicely"

-- What a call reads of the world around it: the clocks' answers, a new flag for a budget.
pub record Moment ⦃host : Platform⦄ : Type 0 where
  pub at : host.Time
  pub now : host.Time
  pub instant : ℕ
  pub flag : ℕ

module _ ⦃host : Platform⦄ where
  module _ (codec : Codec) (evaluator : Text) (observer : Observer) (settings : Settings) where
    module _ (others : ℕ → Table → Table) (key : Text) (fence : Fence) (budget : Budget) where
      module _ (moment : Moment) (site : Site) (s : AnchorState) where
        unfoldable pub probe_failed : FailureCode → Text → Ran (Observed × Site)
        unfolding record_attempt
        probe_failed code message =
            record_attempt codec others key fence 0 moment.now site code message
              (next_u32 (attempts s))

        looked_observed : RunSettings → Ran Observation → Ran (Observed × Site)
        unfolding probe_failed recorded
        looked_observed run (refused undigested) = probe_failed unusable (undigested_message key)
        looked_observed run (refused e) = refused e
        looked_observed run (ran observation) =
            recorded codec others key fence moment.at moment.now observation run site s

        looked_invoked : RunSettings → Derivation → Probed Outcome → Ran (Observed × Site)
        unfolding probe_failed looked_observed observe_into failure_code
        looked_invoked run derivation (probe_error e) = probe_failed (failure_code e.code) e.message
        looked_invoked run derivation (answered outcome) =
            looked_observed run (observe_into evaluator s.anchor outcome derivation run.facts)

        abbrev pub own_budget : Option ℕ → Budget
        own_budget none = budget
        own_budget (some ms) = narrowed moment.instant moment.flag budget ms

        looked_resolved : Probed Derivation → Ran (Observed × Site)
        unfolding probe_failed looked_invoked sample narrowed settings_for failure_code
        looked_resolved (probe_error e) = probe_failed (failure_code e.code) e.message
        looked_resolved (answered derivation) =
            let run = settings_for settings key in
            looked_invoked run derivation (
              sample observer moment.instant s.anchor.probe (position s.state)
                (own_budget run.budget_ms))

        unfoldable pub looked_at : Ran (Observed × Site)
        unfolding looked_resolved resolve
        looked_at =
            if s.closed
            then ran (closed, site)
            else looked_resolved (resolve observer s.anchor.probe)

      with_stood : Stood → Ran (Observed × Site) → Ran (Observed × Stood × Site)
      with_stood found (refused e) = refused e
      with_stood found (ran (o, site)) = ran (o, found, site)

      observed_at :
          Moment → Site → Stored (Option Stood × Checkpoints) → Ran (Observed × Stood × Site)
      unfolding with_stood looked_at
      observed_at moment site (failed e) = refused (store e)
      observed_at moment site (done (none, held)) = refused no_such_anchor
      observed_at moment site (done (some found, held)) =
          with_stood found (looked_at moment (record site { held = held }) found.anchor)

      unfoldable pub observe_with : Moment → Site → Ran (Observed × Stood × Site)
      unfolding observed_at stood
      observe_with moment site = observed_at moment site (stood codec site.table site.held key)

    module _ (policy : Policy) (others : ℕ → Table → Table) (key : Text) (budget : Budget) where
      abbrev pub site_after : Site → Ran (Observed × Stood × Site) → Site
      site_after site (refused e) = site
      site_after site (ran (o, found, site')) = site'

      abbrev pub answer_after : Ran (Observed × Stood × Site) → Ran (Observed × Stood)
      answer_after (refused e) = refused e
      answer_after (ran (o, found, site)) = ran (o, found)

      abbrev pub after_look : Ran (Observed × Stood × Site) → Disposition
      unfolding cadence_for
      after_look (ran (closed, found, site)) = retire
      after_look _ = reschedule (cadence_for policy settings key)

      -- `now` and `later` are the clock's answers before the lease and before it is settled.
      observe_leased :
          Moment → ℕ → Deployment → Option Ticket × Queue → Ran (Observed × Stood) × Deployment
      unfolding observe_with settle
      observe_leased moment later d (none, queue) =
          (refused leased, record d { queue = some queue })
      observe_leased moment later d (some ticket, queue) =
          let seen = observe_with others key ticket.fence budget moment d.site in
          (
            answer_after seen,
            record d {
              site = site_after d.site seen;
              queue = some (settle ticket (after_look seen) later queue);
            },
          )

      unfoldable pub observe : Moment → ℕ → ℕ → Deployment → Ran (Observed × Stood) × Deployment
      unfolding observe_with observe_leased lease
      observe moment now later d = elim d.queue [
        | none ↦
            let seen = observe_with others key unleased budget moment d.site in
            (answer_after seen, record d { site = site_after d.site seen })
        | some queue ↦ observe_leased moment later d (lease key now (now + policy.lease_secs) queue)
      ]
