-- ===== src/Runtime/Open.antt =====
-- crates/gmr-runtime/src/open.rs: opening an anchor. `others` is what other writers do to the table
-- between the reading of the log and the append. An open that is refused keeps what it had sealed.
pub mod Begun
use gmr.Support.{
  ℕ, List, [], ◌∷◌, ◌++◌, Bool, true, false, Option, none, some, get_or_else, if◌then◌else◌,
}
use gmr.Support.Text.{Text, txt}
use gmr.Json.{Platform, pos, negsuc, ℤ}
use gmr.Core.Probe.{Derivation, ProbeRef, Outcome}
use gmr.Core.Anchor.{Transitions, Superseded, RunSettings, State, Anchor, empty_state, position}
use gmr.Core.Journal.{Seq, Observation, Entry, opened, AnchorState}
use gmr.Store.Journal.{unleased, head, Stored, done, failed, Table, Codec, append, entries}
use gmr.Store.Sealer.{Sealed, seal}
use gmr.Budget.{Budget, within}
use gmr.Runtime.Policy.{Policy}
use gmr.Runtime.Errors.{
  RuntimeError, Ran, ran, refused, store, no_such_anchor, already_open, not_closed_yet, cannot_open,
}
use gmr.Runtime.Log.{Stood, Checkpoints, stood}
use gmr.Runtime.Observer.{ProbeError, Probed, answered, probe_error, Observer, resolve, sample}
use gmr.Runtime.Scheduler.{set_settings, schedule_if_absent, leases_configured}
use gmr.Runtime.Translate.{Transitioned, to_state, unchanged, unevaluable, transition}
use gmr.Runtime.Translate.Warnings.{bind_warnings}
use gmr.Runtime.Blind.{blind, behind, accumulator_warning}
use gmr.Runtime.Observe.{Site, observe_into}
use gmr.Runtime.Looking.{Moment}
use gmr.Runtime.Deployment.{Deployment, with_table}

pub record Supersede : Type 0 where
  pub key : Text
  pub rationale : List ℕ

module _ ⦃host : Platform⦄ where
  pub record OpenRequest : Type 0 where
    pub key : Text
    pub probe : ProbeRef
    pub transitions : Transitions
    pub terminal : List Text
    pub initial : Option State
    pub settings : RunSettings
    pub supersedes : Option Supersede

  pub record Opened : Type 0 where
    pub key : Text
    pub state : State
    pub warnings : List Text
    pub supersedes : Option Text

  -- DateTime::timestamp, of an instant after 1970
  abbrev pub seconds : host.Time → ℕ
  seconds at = elim (host.timestamp at) [ pos n ↦ n | negsuc n ↦ 0 ]

  abbrev pub anchor_of : OpenRequest → Option Superseded → Anchor
  anchor_of request sealed = record {
    key = request.key;
    probe = request.probe;
    transitions = request.transitions;
    terminal = request.terminal;
    supersedes = sealed;
  }

  abbrev pub key_of : Option Superseded → Option Text
  key_of none = none
  key_of (some s) = some s.key

  abbrev pub initial_of : OpenRequest → State
  initial_of request = get_or_else request.initial empty_state

  -- The state that the anchor opens in, and the warning where the rules gave none.
  unfoldable pub first_state : State → Transitioned → State × List Text
  first_state initial (to_state next) = (next, [])
  first_state initial unchanged = (initial, [])
  first_state initial (unevaluable code message) =
      (initial, (message ++ txt "; the initial state is kept as is") ∷ [])

  superseded : Supersede → Deployment → Option Stood → Ran Superseded × Deployment
  unfolding seal
  superseded s d none = (refused no_such_anchor, d)
  superseded s d (some old) =
      let (rationale, rows) = seal s.rationale d.sealed in
      if old.anchor.closed
      then (ran (record { key = s.key; rationale = rationale }), record d { sealed = rows })
      else (refused not_closed_yet, d)

  seal_stood :
      Supersede → Deployment → Stored (Option Stood × Checkpoints) → Ran Superseded × Deployment
  unfolding superseded
  seal_stood s d (failed e) = (refused (store e), d)
  seal_stood s d (done (old, held)) =
      superseded s (record d { site = record d.site { held = held } }) old

  unfoldable pub seal_supersede : Codec → Supersede → Deployment → Ran Superseded × Deployment
  unfolding seal_stood stood
  seal_supersede codec s d = seal_stood s d (stood codec d.site.table d.site.held s.key)

  module _ (codec : Codec) (evaluator : Text) (observer : Observer) (policy : Policy) where
    module _ (others : Table → Table) (moment : Moment) (request : OpenRequest) where
      -- What follows the append.
      unfoldable pub opened_with :
          Deployment → Option Superseded → Observation → State → List Text → Opened × Deployment
      unfolding set_settings schedule_if_absent
      opened_with d sealed observation state warnings = (
        record {
          key = request.key;
          state = state;
          warnings = warnings;
          supersedes = key_of sealed;
        },
        record d {
          site = record d.site {
            sighted = d.site.sighted ++ (request.key, observation.fact_address, moment.at) ∷ [];
          };
          settings = set_settings request.key request.settings d.settings;
          queue = (schedule_if_absent request.key (seconds moment.at) d.queue).1;
        },
      )

      appended_open :
          Deployment
          → Option Superseded
          → Observation
          → State
          → List Text
          → Stored (Seq × Table)
          → Ran Opened × Deployment
      unfolding opened_with
      appended_open d sealed observation state warnings (failed e) = (refused (store e), d)
      appended_open d sealed observation state warnings (done (seq, t)) =
          let (answer, d') = opened_with (with_table d t) sealed observation state warnings in
          (ran answer, d')

      open_observed :
          Deployment → Option Superseded → Derivation → Ran Observation → Ran Opened × Deployment
      unfolding appended_open first_state transition bind_warnings behind accumulator_warning append
          leases_configured
      open_observed d sealed derivation (refused e) = (refused e, d)
      open_observed d sealed derivation (ran observation) =
          let anchor = anchor_of request sealed in
          let (state, kept) =
            first_state (initial_of request)
              (transition anchor observation (initial_of request) moment.at moment.at) in
          let warnings =
            bind_warnings anchor observation
            ++ behind anchor derivation.observes observation
            ++ accumulator_warning (leases_configured d.queue) anchor
            ++ kept in
          let t = others d.site.table in
          appended_open (with_table d t) sealed observation state warnings (
            append codec t request.key (opened anchor observation state moment.at) unleased
              (head 0))

      open_invoked :
          Deployment → Option Superseded → Derivation → Probed Outcome → Ran Opened × Deployment
      unfolding open_observed observe_into
      open_invoked d sealed derivation (probe_error e) = (refused (cannot_open e.message), d)
      open_invoked d sealed derivation (answered outcome) = open_observed d sealed derivation (
          observe_into evaluator (anchor_of request sealed) outcome derivation
            request.settings.facts)

      open_sighted :
          Deployment → Option Superseded → Derivation → Option Text → Ran Opened × Deployment
      unfolding open_invoked sample within
      open_sighted d sealed derivation (some message) = (refused (cannot_open message), d)
      open_sighted d sealed derivation none = open_invoked d sealed derivation (
          sample observer moment.instant request.probe (position (initial_of request))
            (within moment.instant moment.flag policy.probe_budget_ms policy.probe_output_cap))

      open_resolved : Deployment → Option Superseded → Probed Derivation → Ran Opened × Deployment
      unfolding open_sighted blind
      open_resolved d sealed (probe_error e) = (refused (cannot_open e.message), d)
      open_resolved d sealed (answered derivation) =
          open_sighted d sealed derivation (blind (anchor_of request sealed) derivation.observes)

      open_sealed : Ran Superseded × Deployment → Ran Opened × Deployment
      unfolding open_resolved resolve
      open_sealed (refused e, d) = (refused e, d)
      open_sealed (ran sealed, d) = open_resolved d (some sealed) (resolve observer request.probe)

      open_new : Deployment → Option Supersede → Ran Opened × Deployment
      unfolding open_sealed open_resolved resolve seal_supersede
      open_new d none = open_resolved d none (resolve observer request.probe)
      open_new d (some s) = open_sealed (seal_supersede codec s d)

      open_read : Deployment → Stored (List (Seq × Entry)) → Ran Opened × Deployment
      unfolding open_new
      open_read d (failed e) = (refused (store e), d)
      open_read d (done (e ∷ es)) = (refused already_open, d)
      open_read d (done []) = open_new d request.supersedes

      -- open
      unfoldable pub open_anchor : Deployment → Ran Opened × Deployment
      unfolding open_read entries
      open_anchor d = open_read d (entries codec d.site.table request.key 0)
