-- ===== src/Runtime/View.antt =====
-- crates/gmr-runtime/src/read.rs, viewed and knowledge_of: what is shown of an anchor, and how well it
-- is known.
use gmr.Support.{ℕ, zero, suc, Bool, true, false, Option, none, some, ltb}
use gmr.Support.Text.{Text}
use gmr.Json.{Platform, Json}
use gmr.Core.Probe.{Outcome, Derivation, Verifiability, facts_of}
use gmr.Core.Anchor.{State, Anchor, status}
use gmr.Core.Journal.{Seq, ReasonClass, FailureCode, timed_out, Observation, Faltering, AnchorState}

pub data Presence : Type 0 where
  found absent : Presence

-- Spans and ages are numbers of one unit.
pub record Instructions : Type 0 where
  pub max_staleness : Option ℕ
  pub budget : Option ℕ
  pub reach : Option ℕ
  pub carry : Bool
  pub lean : Bool

-- Instructions::stale: `age` is how long ago the last sighting was, none if that is in the future.
unfoldable pub stale : {T : Type 0} → Instructions → (T → Option ℕ) → Option T → Bool
stale how age last_sighting = elim how.max_staleness [
  | none ↦ false
  | some most ↦ elim last_sighting [
    | none ↦ true
    | some at ↦ elim (age at) [ none ↦ false | some since ↦ ltb most since ]
  ]
]

pub data Blind : Type 0 where
  never_asked : Blind
  unreachable unusable unevaluable : Option FailureCode → Blind

pub data KnowledgeKind : Type 0 where
  seen never_asked unreachable unusable unevaluable : KnowledgeKind

of_reason : Option FailureCode → ReasonClass → Blind
of_reason code ReasonClass.unreachable = Blind.unreachable code
of_reason code ReasonClass.unusable = Blind.unusable code
of_reason code ReasonClass.unevaluable = Blind.unevaluable code

-- Blind::of, on the code and the reason of the failure
unfoldable pub blind_of : Option FailureCode → ReasonClass → Blind
unfolding of_reason
blind_of (some timed_out) reason = Blind.never_asked
blind_of code reason = of_reason code reason

module _ ⦃host : Platform⦄ where
  pub record Seen : Type 0 where
    pub sightings : ℕ
    pub last_at : Option host.Time

  pub record AnchorView : Type 0 where
    pub key : Text
    pub anchor : Anchor
    pub state : State
    pub status : Option Text
    pub sighting : Presence
    pub closed : Bool
    pub faltering : Option Faltering
    pub entered_at : Option host.Time
    pub last_sighting : Option host.Time
    pub sightings : ℕ
    pub derivation : Option Derivation
    pub fact_address : Option Text
    pub facts : Option Json

  pub data Knowledge : Type 0 where
    seen : host.Time → Verifiability → Knowledge
    blind : Option host.Time → Blind → Knowledge

  -- Knowledge::kind
  unfoldable pub knowledge_kind : Knowledge → KnowledgeKind
  knowledge_kind (seen at verifiability) = KnowledgeKind.seen
  knowledge_kind (blind since Blind.never_asked) = KnowledgeKind.never_asked
  knowledge_kind (blind since (Blind.unreachable code)) = KnowledgeKind.unreachable
  knowledge_kind (blind since (Blind.unusable code)) = KnowledgeKind.unusable
  knowledge_kind (blind since (Blind.unevaluable code)) = KnowledgeKind.unevaluable

  known : Option Faltering → Option host.Time → Option Derivation → Knowledge
  unfolding blind_of
  known (some f) since derivation = blind since (blind_of f.code f.reason)
  known none (some at) (some d) = seen at d.verifiability
  known none since derivation = blind since Blind.never_asked

  unfoldable pub knowledge_of : AnchorView → Knowledge
  unfolding known
  knowledge_of view = known view.faltering view.last_sighting view.derivation

  presence_in : Option Observation → Presence
  presence_in none = Presence.absent
  presence_in (some o) = elim o.outcome [
    | Outcome.found facts ↦ Presence.found
    | Outcome.not_found ↦ Presence.absent
  ]

  derivation_in : Option Observation → Option Derivation
  derivation_in none = none
  derivation_in (some o) = some o.versions.derivation

  address_in : Option Observation → Option Text
  address_in none = none
  address_in (some o) = some o.fact_address

  facts_in : Option Observation → Option Json
  unfolding facts_of
  facts_in none = none
  facts_in (some o) = facts_of o.outcome

  or_else : Option host.Time → Option host.Time → Option host.Time
  or_else none other = other
  or_else (some at) other = some at

  -- The sightings and the last of them: those of the log where none were counted.
  looks_of : ℕ → Option host.Time → AnchorState → ℕ → ℕ × Option host.Time
  unfolding or_else
  looks_of zero last_at s logged = (logged, s.last_sighting)
  looks_of (suc counted) last_at s logged = (suc counted, or_else last_at s.last_sighting)

  unfoldable pub viewed : AnchorState → Text → Seen → ℕ → AnchorView × Option Seq
  unfolding presence_in derivation_in address_in facts_in looks_of status
  viewed s key looks logged =
      let (sightings, last_sighting) = looks_of looks.sightings looks.last_at s logged in
      (
        record {
          key = key;
          anchor = s.anchor;
          state = s.state;
          status = status s.state;
          sighting = presence_in s.latest;
          closed = s.closed;
          faltering = s.faltering;
          entered_at = s.entered_at;
          last_sighting = last_sighting;
          sightings = sightings;
          derivation = derivation_in s.latest;
          fact_address = address_in s.latest;
          facts = facts_in s.latest;
        },
        s.moved_at,
      )
