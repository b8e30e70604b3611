-- ===== src/Runtime/Observe.antt =====
-- crates/gmr-runtime/src/observe.rs: from a probe's outcome to what is recorded of it. What other
-- writers do to the table before this one reads or appends is passed in: `others`, by the number of
-- the step.
pub mod Rounds
pub mod Current
pub mod Made
use gmr.Support.{
  ℕ, zero, suc, ◌+◌, List, [], ◌∷◌, ◌++◌, Bool, true, false, ◌&&◌, not, Option, none, some,
  get_or_else, if◌then◌else◌, ltb,
}
use gmr.Support.Text.{Text, txt}
use gmr.Json.{Platform}
use gmr.Core.Addr.{CanonicalizeError, Canonical, ok, err}
use gmr.Core.Probe.{Derivation, Outcome, outcome_digested, address, declaration_hash}
use gmr.Core.Anchor.{Recorded, plain, digests, RunSettings, retains_full, State, Anchor}
use gmr.Core.Journal.{
  Seq, Versions, ReasonClass, FailureCode, reason_of, Observation, Entry, still, AnchorState,
  attempts, next_u32, should_still,
}
use gmr.Store.Journal.{
  Fence, Expected, any, head, StoreError, head_moved, Stored, done, failed, Table, Codec, append,
}
pub use gmr.Runtime.Errors.{
  RuntimeError, no_such_anchor, undigested, canonical, store, Ran, ran, refused,
}
use gmr.Runtime.Translate.{Transitioned, to_state, unchanged, unevaluable, transition}
use gmr.Runtime.Log.{Stood, Checkpoints, stood}

module _ ⦃host : Platform⦄ where
  pub data Observed : Type 0 where
    transitioned : State → State → Observed
    unchanged_in : State → Observed
    still_there : Observed
    attempted : ReasonClass → FailureCode → Text → ℕ → Observed
    closed : Observed
    contended : Observed

  addressed :
      Text → Anchor → Outcome → Derivation → Canonical Text → Canonical Text → Ran Observation
  addressed evaluator anchor outcome derivation (err e) declared = refused (canonical e)
  addressed evaluator anchor outcome derivation (ok fact_address) (err e) = refused (canonical e)
  addressed evaluator anchor outcome derivation (ok fact_address) (ok declaration) =
      let versions : Versions = record {
        declaration = declaration;
        derivation = derivation;
        evaluator = evaluator;
      } in
      ran (record { outcome = outcome; fact_address = fact_address; versions = versions })

  abbrev only_digests : Recorded → Bool
  only_digests digests = true
  only_digests plain = false

  -- `evaluator` is EVALUATOR_VERSION, which the build generates.
  unfoldable pub observe_into : Text → Anchor → Outcome → Derivation → Recorded → Ran Observation
  unfolding addressed outcome_digested address declaration_hash
  observe_into evaluator anchor outcome derivation recorded =
      if only_digests recorded && not (outcome_digested outcome)
      then refused undigested
      else addressed evaluator anchor outcome derivation (address outcome derivation.version)
          (declaration_hash anchor.probe)

  -- What the runtime writes to: the journal, the checkpoints, and the sightings that it reported.
  pub record Site : Type 0 where
    pub table : Table
    pub held : Checkpoints
    pub sighted : List (Text × Text × host.Time)

  still_after : AnchorState → State → Text → Option Observation → Option Seq
  unfolding should_still
  still_after s next fact_address none = none
  still_after s next fact_address (some last) =
      if should_still s.state last.fact_address next fact_address then s.latest_seq else none

  unfoldable pub still_ref : RunSettings → AnchorState → State → Observation → Option Seq
  unfolding still_after retains_full
  still_ref run s next observation =
      if retains_full run then none else still_after s next observation.fact_address s.latest

  unfoldable pub entry_for :
      AnchorState → State → Observation → host.Time → Option Seq → Option Entry
  entry_for s next observation at (some ref) =
      if ltb 0 (attempts s) then some (still ref at observation.versions) else none
  entry_for s next observation at none = some (Entry.transition observation next at)

  unfoldable pub reported : AnchorState → State → Option Seq → Observed
  reported s next (some ref) = still_there
  reported s next none =
      if host.same s.state next then unchanged_in next else transitioned s.state next

  -- Transitioned::Unevaluable, or the next state
  pub data Next : Type 0 where
    goes : State → Next
    cannot : FailureCode → Text → Next

  next_of : AnchorState → Transitioned → Next
  next_of s (to_state next) = goes next
  next_of s unchanged = goes s.state
  next_of s (unevaluable code message) = cannot code message

  unfoldable pub next_state : AnchorState → Observation → host.Time → Next
  unfolding next_of transition
  next_state s observation at =
      next_of s (transition s.anchor observation s.state at (get_or_else s.entered_at at))

  module _ (codec : Codec) (others : ℕ → Table → Table) (key : Text) (fence : Fence) where
    unfoldable pub attempt_stored :
        Site → FailureCode → Text → ℕ → Stored (Seq × Table) → Ran (Observed × Site)
    unfolding reason_of
    attempt_stored site code message n (failed e) = refused (store e)
    attempt_stored site code message n (done (seq, t)) =
        ran (attempted (reason_of code) code message n, record site { table = t })

    -- `now` is the clock's answer when the attempt is recorded.
    unfoldable pub record_attempt :
        ℕ → host.Time → Site → FailureCode → Text → ℕ → Ran (Observed × Site)
    unfolding attempt_stored reason_of append
    record_attempt i now site code message n = attempt_stored site code message n (
        append codec (others i site.table) key
          (Entry.attempt (reason_of code) (some code) message now) fence any)

    module _ (at now : host.Time) (observation : Observation) (run : RunSettings) where
      reports : Site → Table → Observed → Observed × Site
      reports site t o = (
        o,
        record site {
          table = t;
          sighted = site.sighted ++ (key, observation.fact_address, at) ∷ [];
        },
      )

      -- What one round comes to: a result, or a table whose head had moved.
      pub data Round : Type 0 where
        returns : Ran (Observed × Site) → Round
        again : Table → Round

      stored_round : Site → AnchorState → State → Option Seq → Table → Stored (Seq × Table) → Round
      unfolding reported reports
      stored_round site s next ref t (done (seq, t')) =
          returns (ran (reports site t' (reported s next ref)))
      stored_round site s next ref t (failed (head_moved e h)) = again t
      stored_round site s next ref t (failed e) = returns (refused (store e))

      append_round : ℕ → Site → AnchorState → State → Option Seq → Option Entry → Round
      unfolding stored_round append reported reports
      append_round i site s next ref none =
          returns (ran (reports site site.table (reported s next ref)))
      append_round i site s next ref (some entry) =
          let t = others i site.table in
          stored_round site s next ref t (append codec t key entry fence (head s.head))

      round_to : ℕ → Site → AnchorState → Next → Round
      unfolding append_round entry_for still_ref record_attempt
      round_to i site s (cannot code message) =
          returns (record_attempt i now site code message (next_u32 (attempts s)))
      round_to i site s (goes next) =
          let ref = still_ref run s next observation in
          append_round i site s next ref (entry_for s next observation at ref)

      unfoldable pub round : ℕ → Site → AnchorState → Round
      unfolding round_to next_state
      round i site s =
          if s.closed
          then returns (ran (closed, site))
          else round_to i site s (next_state s observation at)

      -- The loop of `recorded`, `left` rounds before it gives up.
      unfoldable pub recorded_from : ℕ → ℕ → Site → AnchorState → Ran (Observed × Site)
      unfolding round stood
      recorded_from zero i site s = ran (contended, site)
      recorded_from (suc left) i site s = elim (round i site s) [
        | returns r ↦ r
        | again t ↦ elim (stood codec (others (suc i) t) site.held key) [
          | failed e ↦ refused (store e)
          | done (none, held) ↦ refused no_such_anchor
          | done (some found, held) ↦
              recorded_from left (suc (suc i))
                (record site { table = others (suc i) t; held = held }) found.anchor
        ]
      ]

      unfoldable pub recorded : Site → AnchorState → Ran (Observed × Site)
      unfolding recorded_from
      recorded site s = recorded_from 3 0 site s
