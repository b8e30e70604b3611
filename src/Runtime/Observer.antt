-- ===== src/Runtime/Observer.antt =====
-- crates/gmr-runtime/src/observer.rs and crates/gmr-probe/src/lib.rs: the transports, and what a probe
-- answers. A transport is a parameter: `invoke` takes the instant at which it is called.
use gmr.Support.{ℕ, List, [], ◌∷◌, ◌++◌, Option, none, some, if◌then◌else◌}
use gmr.Support.Text.{Text, txt, text_eq}
use gmr.Json.{Platform, Json}
use gmr.Core.Probe.{Derivation, ProbeRef, Outcome}
use gmr.Core.Journal.{ReasonClass, FailureCode}
use gmr.Budget.{Budget}

pub data ProbeErrorCode : Type 0 where
  unreachable unusable artifact_invalid timed_out process_failed output_too_large : ProbeErrorCode
  invalid_json : ProbeErrorCode

-- From<ProbeErrorCode> for FailureCode
unfoldable pub failure_code : ProbeErrorCode → FailureCode
failure_code ProbeErrorCode.unreachable = FailureCode.unreachable
failure_code ProbeErrorCode.unusable = FailureCode.unusable
failure_code ProbeErrorCode.artifact_invalid = FailureCode.artifact_invalid
failure_code ProbeErrorCode.timed_out = FailureCode.timed_out
failure_code ProbeErrorCode.process_failed = FailureCode.process_failed
failure_code ProbeErrorCode.output_too_large = FailureCode.output_too_large
failure_code ProbeErrorCode.invalid_json = FailureCode.invalid_json

pub record ProbeError : Type 0 where
  pub reason : ReasonClass
  pub code : ProbeErrorCode
  pub message : Text

pub data Probed {ℓ} (A : Type ℓ) : Type ℓ where
  answered : A → Probed A
  probe_error : ProbeError → Probed A

-- ProbeError::with_code
abbrev pub with_code : ReasonClass → ProbeErrorCode → Text → ProbeError
with_code reason code message = record { reason = reason; code = code; message = message }

-- ProbeError::unreachable
abbrev pub unreachable_error : Text → ProbeError
unreachable_error message = with_code ReasonClass.unreachable ProbeErrorCode.unreachable message

module _ ⦃host : Platform⦄ where
  pub record Transport : Type 0 where
    pub kind : Text
    pub resolve : Text → Option Derivation
    pub invoke : ℕ → ProbeRef → Json → Budget → Probed Outcome

  abbrev pub Observer : Type 0
  Observer = List Transport

  -- Observer::transport
  unfoldable pub transport : Observer → ProbeRef → Probed Transport
  transport [] probe =
      probe_error
        (unreachable_error (txt "no transport recognises a `" ++ probe.kind ++ txt "` probe"))
  transport (t ∷ transports) probe =
      let rest = transport transports probe in
      if text_eq t.kind probe.kind then answered t else rest

  not_available : ProbeRef → ProbeError
  not_available probe =
      with_code ReasonClass.unusable ProbeErrorCode.artifact_invalid (
        txt "no `"
        ++ probe.kind
        ++ txt "` probe named `"
        ++ probe.name
        ++ txt "` is available here")

  resolved : ProbeRef → Probed Transport → Probed Derivation
  unfolding not_available
  resolved probe (probe_error e) = probe_error e
  resolved probe (answered t) = elim (t.resolve probe.name) [
    | some derivation ↦ answered derivation
    | none ↦ probe_error (not_available probe)
  ]

  -- Observer::resolve
  unfoldable pub resolve : Observer → ProbeRef → Probed Derivation
  unfolding resolved transport
  resolve observer probe = resolved probe (transport observer probe)

  sampled : ℕ → ProbeRef → Json → Budget → Probed Transport → Probed Outcome
  sampled instant probe position budget (probe_error e) = probe_error e
  sampled instant probe position budget (answered t) = t.invoke instant probe position budget

  -- Observer::sample
  unfoldable pub sample : Observer → ℕ → ProbeRef → Json → Budget → Probed Outcome
  unfolding sampled transport
  sample observer instant probe position budget =
      sampled instant probe position budget (transport observer probe)
