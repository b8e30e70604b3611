-- ===== src/Runtime/Looking/Ends.antt =====
-- crates/gmr-runtime/src/observe.rs, observe and observe_with: the whole way from the log to the log.
use gmr.Support.{
  ℕ, Option, none, some, if_false, inl, inr, ◌≡◌, ◌≢◌, refl, ap, subst, sym, ◌∙◌, Bool-cases,
}
use gmr.Support.Text.{Text}
use gmr.Json.{Platform}
use gmr.Core.Probe.{Derivation, Outcome}
use gmr.Core.Anchor.{State, position}
use gmr.Core.Journal.{AnchorState, Observation, FailureCode, unusable, fold}
use gmr.Store.Journal.{Fence, Stored, done, failed, Table, Codec, entries}
use gmr.Store.Journal.Steady.{idle}
use gmr.Store.Journal.Entries.{Log}
use gmr.Budget.{Budget, narrowed}
use gmr.Runtime.Log.{Stood, Checkpoints, stood}
use gmr.Runtime.Log.Sound.{stood-Stands}
use gmr.Runtime.Log.Entered.{IsReady}
use gmr.Runtime.Errors.{RuntimeError, leased}
use gmr.Runtime.Observer.{Probed, answered, probe_error, failure_code, Observer, resolve, sample}
use gmr.Runtime.Scheduler.{Settings, settings_for}
use gmr.Runtime.Observe.{
  Ran, ran, refused, store, no_such_anchor, undigested, canonical, Observed, transitioned, Site,
  observe_into, record_attempt, attempt_stored, recorded,
}
use gmr.Runtime.Observe.Made.{Made, observe_into-Made}
use gmr.Runtime.Observe.Current.{OnlyWrite, Current, recorded-Current}
use gmr.Runtime.Looking.{
  Moment, undigested_message, probe_failed, looked_observed, looked_invoked, looked_resolved,
  looked_at, with_stood, observed_at, observe_with,
}

module _ ⦃host : Platform⦄ where
  module _ (codec : Codec) (evaluator : Text) (observer : Observer) (settings : Settings) where
    module _ (others : ℕ → Table → Table) (key : Text) (fence : Fence) (budget : Budget) where
      abbrev allowed : Moment → Option ℕ → Budget
      allowed moment none = budget
      allowed moment (some ms) = narrowed moment.instant moment.flag budget ms

      attempt-ne-transitioned :
          (site : Site) (code : FailureCode) (message : Text) (n : ℕ) (r : Stored (ℕ × Table))
          (from to : State) (site' : Site)
          → attempt_stored codec others key fence site code message n r
            ≢ ran (transitioned from to, site')
      unfolding attempt_stored
      attempt-ne-transitioned site code message n (failed e) from to site' = cc
      attempt-ne-transitioned site code message n (done (seq, t)) from to site' = cc

      -- The anchor found is what its whole log folds to; its probe was asked, where the state says,
      -- for no longer than its settings allow; and the move was computed from what it answered, by the
      -- state that the whole log stood at.
      pub record Moved (moment : Moment) (site : Site) (found : Stood) (from to : State)
          (site' : Site) : Type 0 where
        pub log : Log
        pub read : entries codec site.table key 0 ≡ done log
        pub stood_at : fold log ≡ some found.anchor
        pub derivation : Derivation
        pub outcome : Outcome
        pub observation : Observation
        pub resolved : resolve observer found.anchor.anchor.probe ≡ answered derivation
        pub sampled :
            sample observer moment.instant found.anchor.anchor.probe
              (position found.anchor.state)
              (allowed moment (settings_for settings key).budget_ms)
            ≡ answered outcome
        pub made : Made outcome derivation observation
        pub current : Current codec key fence moment.at observation from to site'

      module _ (moment : Moment) (site : Site) (s : AnchorState) (from to : State)
          (site' : Site) where
        failed-ne-transitioned :
            (code : FailureCode) (message : Text)
            → probe_failed codec evaluator observer settings others key fence budget moment site s
                code message
              ≢ ran (transitioned from to, site')
        unfolding probe_failed record_attempt
        failed-ne-transitioned code message h =
            attempt-ne-transitioned site code message _ _ from to site' h

        abbrev WasRecorded : Observation → Type 0
        WasRecorded observation =
            recorded codec others key fence moment.at moment.now observation
              (settings_for settings key) site s
            ≡ ran (transitioned from to, site')

        observed_moved :
            (r : Ran Observation)
            → looked_observed codec evaluator observer settings others key fence budget moment site
                s
                (settings_for settings key)
                r
              ≡ ran (transitioned from to, site')
            → (observation : Observation) × (r ≡ ran observation) × WasRecorded observation
        unfolding looked_observed
        observed_moved (ran observation) h = (observation, refl, h)
        observed_moved (refused undigested) h =
            absurd (failed-ne-transitioned unusable (undigested_message key) h)
        observed_moved (refused no_such_anchor) h = cc
        observed_moved (refused RuntimeError.already_open) h = cc
        observed_moved (refused RuntimeError.anchor_closed) h = cc
        observed_moved (refused RuntimeError.not_closed_yet) h = cc
        observed_moved (refused RuntimeError.no_queue) h = cc
        observed_moved (refused leased) h = cc
        observed_moved (refused (RuntimeError.cannot_open m)) h = cc
        observed_moved (refused (canonical e)) h = cc
        observed_moved (refused (store e)) h = cc

        -- What the probe answered, and what was recorded of it.
        abbrev Answered : Derivation → Probed Outcome → Type 0
        Answered derivation r =
            (outcome : Outcome) × (r ≡ answered outcome)
            × (observation : Observation) × (observe_into evaluator s.anchor outcome derivation
                  (settings_for settings key).facts
                ≡ ran observation)
            × WasRecorded observation

        invoked_moved :
            (derivation : Derivation) (r : Probed Outcome)
            → looked_invoked codec evaluator observer settings others key fence budget moment site s
                (settings_for settings key)
                derivation
                r
              ≡ ran (transitioned from to, site')
            → Answered derivation r
        unfolding looked_invoked
        invoked_moved derivation (probe_error e) h =
            absurd (failed-ne-transitioned (failure_code e.code) e.message h)
        invoked_moved derivation (answered outcome) h =
            let (observation, p, q) = observed_moved _ h in (outcome, refl, observation, p, q)

        resolved_moved :
            (r : Probed Derivation)
            → looked_resolved codec evaluator observer settings others key fence budget moment site
                s r
              ≡ ran (transitioned from to, site')
            → (derivation : Derivation) × (r ≡ answered derivation)
              × Answered derivation (
                  sample observer moment.instant s.anchor.probe
                    (position s.state)
                    (allowed moment (settings_for settings key).budget_ms))
        unfolding looked_resolved
        resolved_moved (probe_error e) h =
            absurd (failed-ne-transitioned (failure_code e.code) e.message h)
        resolved_moved (answered derivation) h = (derivation, refl, invoked_moved derivation _ h)

        looked_moved :
            looked_at codec evaluator observer settings others key fence budget moment site s
              ≡ ran (transitioned from to, site')
            → (derivation : Derivation) × (resolve observer s.anchor.probe ≡ answered derivation)
              × Answered derivation (
                  sample observer moment.instant s.anchor.probe
                    (position s.state)
                    (allowed moment (settings_for settings key).budget_ms))
        unfolding looked_at
        looked_moved h = elim (Bool-cases s.closed) [
          | inl q ↦ let k = rw (looked_at, q) at h in cc
          | inr q ↦ resolved_moved _ (sym (if_false s.closed _ _ q) ∙ h)
        ]

      with_moved :
          (f : Stood) (r : Ran (Observed × Site)) (from to : State) (found : Stood) (site' : Site)
          → with_stood codec evaluator observer settings others key fence budget f r
            ≡ ran (transitioned from to, found, site')
          → (r ≡ ran (transitioned from to, site')) × (f ≡ found)
      unfolding with_stood
      with_moved f (refused e) from to found site' h = cc
      with_moved f (ran (o, site)) from to found site' h = (cc, ap (found_in f) h)
        where
          found_in : Stood → Ran (Observed × Stood × Site) → Stood
          found_in other (ran (o, found, site)) = found
          found_in other (refused e) = other

      stood_moved :
          (moment : Moment) (site : Site) (from to : State) (found : Stood) (site' : Site)
          (r : Stored (Option Stood × Checkpoints))
          → observed_at codec evaluator observer settings others key fence budget moment site r
            ≡ ran (transitioned from to, found, site')
          → (held : Checkpoints) × (r ≡ done (some found, held))
            × (looked_at codec evaluator observer settings others key fence budget moment
                  (record site { held = held })
                  found.anchor
                ≡ ran (transitioned from to, site'))
      unfolding observed_at
      stood_moved moment site from to found site' (failed e) h = cc
      stood_moved moment site from to found site' (done (none, held)) h = cc
      stood_moved moment site from to found site' (done (some f, held)) h =
          let (look, same) = with_moved f _ from to found site' h in
          (
            held,
            ap (λ (x : Stood). done (some x, held)) same,
            subst
                (λ (x : Stood).
                  looked_at codec evaluator observer settings others key fence budget moment
                    (record site { held = held }) x.anchor
                  ≡ ran (transitioned from to, site'))
                same look,
          )

      -- Other writers may append to any logs at any time, entries whose texts read back as them. Where
      -- observing answers that the anchor moved, the anchor that it found is what the whole log folded
      -- to when it was read; the probe of that anchor was asked at the position of that state; what it
      -- answered, with its derivation, is what was observed; and the new state is what the rules compute
      -- for it from the state that the whole log folded to when the new one was appended.
      pub observe_with-Moved :
          (moment : Moment) (site : Site) (from to : State) (found : Stood) (site' : Site)
          → OnlyWrite codec others
          → IsReady codec site.table site.held
          → observe_with codec evaluator observer settings others key fence budget moment site
            ≡ ran (transitioned from to, found, site')
          → Moved moment site found from to site'
      unfolding observe_with
      observe_with-Moved moment site from to found site' only ready h =
          let (held, p, look) =
            stood_moved moment site from to found site' (stood codec site.table site.held key) h in
          let st =
            stood-Stands codec site.table key site.held held (some found) ready.0 ready.1 p in
          let (derivation, resolved, answer) =
            looked_moved moment (record site { held = held }) found.anchor from to site' look in
          let (outcome, sampled, observation, observed, r) = answer in
          record {
            log = st.log;
            read = st.read;
            stood_at = sym st.is_fold;
            sampled = sampled;
            outcome = outcome;
            derivation = derivation;
            observation = observation;
            resolved = resolved;
            made =
                observe_into-Made evaluator found.anchor.anchor outcome derivation
                  (settings_for settings key).facts observation observed;
            current =
                recorded-Current codec others key fence moment.at moment.now observation
                  (settings_for settings key) (record site { held = held }) found.anchor from to
                  site' only
                  (record {
                    ordered = ready.0;
                    sound = st.sound;
                    stood_at = record {
                      earlier = site.table;
                      ordered = ready.0;
                      log = st.log;
                      read = st.read;
                      is_fold = sym st.is_fold;
                      since = idle site.table;
                    };
                  })
                  r;
          }
