-- ===== src/Runtime/Observe/Made.antt =====
-- crates/gmr-runtime/src/observe.rs, observe_into: what an observation is made of.
use gmr.Support.{◌&&◌, not, ◌≡◌, refl, ap, sym, ◌∙◌, Bool-cases, inl, inr}
use gmr.Support.Text.{Text}
use gmr.Json.{Platform}
use gmr.Core.Addr.{Canonical, ok, err}
use gmr.Core.Probe.{Derivation, Outcome, outcome_digested, address, declaration_hash}
use gmr.Core.Anchor.{Recorded, Anchor}
use gmr.Core.Journal.{Observation}
use gmr.Runtime.Observe.{Ran, ran, refused, addressed, only_digests, observe_into}

module _ ⦃host : Platform⦄ where
  -- The observation holds the outcome and the instrument, under the address of both.
  pub record Made (outcome : Outcome) (derivation : Derivation) (o : Observation) : Type 0 where
    pub outcome_is : o.outcome ≡ outcome
    pub derivation_is : o.versions.derivation ≡ derivation
    pub address_is : address outcome derivation.version ≡ ok o.fact_address

  observation_in : Observation → Ran Observation → Observation
  observation_in other (ran o) = o
  observation_in other (refused e) = other

  addressed-Made :
      (evaluator : Text) (anchor : Anchor) (outcome : Outcome) (derivation : Derivation)
      (a d : Canonical Text) (o : Observation)
      → address outcome derivation.version ≡ a
      → addressed evaluator anchor outcome derivation a d ≡ ran o
      → Made outcome derivation o
  unfolding addressed observation_in
  addressed-Made evaluator anchor outcome derivation (err e) d o p h = cc
  addressed-Made evaluator anchor outcome derivation (ok h') (err e) o p h = cc
  addressed-Made evaluator anchor outcome derivation (ok h') (ok d) o p h =
      let is = ap (observation_in o) h in
      record {
        outcome_is = ap (λ (x : Observation). x.outcome) (sym is);
        derivation_is = ap (λ (x : Observation). x.versions.derivation) (sym is);
        address_is = p ∙ ap (λ (x : Observation). ok x.fact_address) is;
      }

  pub observe_into-Made :
      (evaluator : Text) (anchor : Anchor) (outcome : Outcome) (derivation : Derivation)
      (recorded : Recorded) (o : Observation)
      → observe_into evaluator anchor outcome derivation recorded ≡ ran o
      → Made outcome derivation o
  unfolding observe_into
  observe_into-Made evaluator anchor outcome derivation recorded o h =
      elim (Bool-cases (only_digests recorded && not (outcome_digested outcome))) [
        | inl q ↦ let k = rw (observe_into, q) at h in cc
        | inr q ↦
            addressed-Made evaluator anchor outcome derivation _ (declaration_hash anchor.probe) o
              refl (rw (observe_into, q) at h)
      ]
