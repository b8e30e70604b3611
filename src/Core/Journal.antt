-- ===== src/Core/Journal.antt =====
-- crates/gmr-core/src/journal.rs: the entries of an anchor's log, and their fold into its state.
pub mod Runs
pub mod Counts
pub mod Moves
pub mod Closing
use gmr.Support.{
  ℕ, ◌+◌, ◌%◌, ◌^◌, List, [], ◌∷◌, Bool, true, false, not, ◌&&◌, ◌||◌, Option, none, some,
  get_or_else, if◌then◌else◌,
}
use gmr.Support.Text.{Text, text_eq}
use gmr.Json.{Platform, Json}
use gmr.Core.Probe.{Derivation, ProbeRef, Outcome}
use gmr.Core.Anchor.{Transitions, State, Anchor, is_terminal}

abbrev pub Seq : Type 0
Seq = ℕ

-- A `u32` counter.
abbrev pub next_u32 : ℕ → ℕ
next_u32 n = (n + 1) % 2 ^ 32

pub record Versions : Type 0 where
  pub declaration : Text
  pub derivation : Derivation
  pub evaluator : Text

pub data ChangeKind : Type 0 where
  reprobe retransition reterminal restate : ChangeKind

abbrev pub kind_eq : ChangeKind → ChangeKind → Bool
kind_eq reprobe reprobe = true
kind_eq retransition retransition = true
kind_eq reterminal reterminal = true
kind_eq restate restate = true
kind_eq _ _ = false

pub data ReasonClass : Type 0 where
  unreachable unusable unevaluable : ReasonClass

pub data FailureCode : Type 0 where
  unreachable timed_out process_failed unusable artifact_invalid output_too_large : FailureCode
  invalid_json unparseable guard_not_boolean new_state_not_an_object new_state_absent : FailureCode
  no_such_field not_an_object not_an_array index_out_of_range not_comparable : FailureCode
  divided_by_zero : FailureCode

-- FailureCode::reason
unfoldable pub reason_of : FailureCode → ReasonClass
reason_of FailureCode.unreachable = ReasonClass.unreachable
reason_of FailureCode.timed_out = ReasonClass.unreachable
reason_of FailureCode.process_failed = ReasonClass.unreachable
reason_of FailureCode.unusable = ReasonClass.unusable
reason_of FailureCode.artifact_invalid = ReasonClass.unusable
reason_of FailureCode.output_too_large = ReasonClass.unusable
reason_of FailureCode.invalid_json = ReasonClass.unusable
reason_of _ = ReasonClass.unevaluable

module _ ⦃host : Platform⦄ where
  pub record Observation : Type 0 where
    pub outcome : Outcome
    pub fact_address : Text
    pub versions : Versions

  pub data Change : Type 0 where
    reprobe : ProbeRef → Change
    retransition : Transitions → Change
    reterminal : List Text → Change
    restate : State → Change

  unfoldable pub kind_of : Change → ChangeKind
  kind_of (reprobe probe) = ChangeKind.reprobe
  kind_of (retransition transitions) = ChangeKind.retransition
  kind_of (reterminal terminal) = ChangeKind.reterminal
  kind_of (restate state) = ChangeKind.restate

  -- The anchor, the observation, the state and the time of an `open`; the sequence number that a
  -- `still` refers to; the reason, the code, the message of an `attempt`; the sealed context and
  -- rationale of a `revise` and a `close`.
  pub data Entry : Type 0 where
    opened : Anchor → Observation → State → host.Time → Entry
    transition : Observation → State → host.Time → Entry
    still : Seq → host.Time → Versions → Entry
    attempt : ReasonClass → Option FailureCode → Text → host.Time → Entry
    revise : Change → Text → Text → host.Time → Entry
    close : Text → Text → host.Time → Entry

  -- Entry::at
  unfoldable pub time_of : Entry → host.Time
  time_of (opened anchor observation state at) = at
  time_of (transition observation state at) = at
  time_of (still ref at versions) = at
  time_of (attempt reason code message at) = at
  time_of (revise change context rationale at) = at
  time_of (close context rationale at) = at

  unfoldable pub is_sighting : Entry → Bool
  is_sighting (opened anchor observation state at) = true
  is_sighting (transition observation state at) = true
  is_sighting (still ref at versions) = true
  is_sighting _ = false

  unfoldable pub should_still : State → Text → State → Text → Bool
  should_still last_state last_address now_state now_address =
      host.same last_state now_state && text_eq last_address now_address

  pub record Faltering : Type 0 where
    pub attempts : ℕ
    pub reason : ReasonClass
    pub code : Option FailureCode
    pub message : Text
    pub at : host.Time

  pub record AnchorState : Type 0 where
    pub anchor : Anchor
    pub state : State
    pub latest : Option Observation
    pub latest_seq : Option Seq
    pub closed : Bool
    pub faltering : Option Faltering
    pub last_sighting : Option host.Time
    pub entered_at : Option host.Time
    pub moved_at : Option Seq
    pub head : Seq
    pub revisions : ChangeKind → Option ℕ

  abbrev pub attempts_in : Option Faltering → ℕ
  attempts_in none = 0
  attempts_in (some f) = f.attempts

  -- AnchorState::attempts
  abbrev pub attempts : AnchorState → ℕ
  attempts s = attempts_in s.faltering

  -- The assignments that a change of state makes, where the new state differs.
  entered : AnchorState → State → host.Time → Seq → AnchorState
  entered s next at seq =
      if host.same s.state next
      then record s { state = next }
      else record s { state = next; entered_at = some at; moved_at = some seq }

  -- `*revisions.entry(kind).or_insert(0) += 1`
  unfoldable pub counted : (ChangeKind → Option ℕ) → ChangeKind → ChangeKind → Option ℕ
  counted revisions kind k =
      if kind_eq k kind then some (next_u32 (get_or_else (revisions k) 0)) else revisions k

  changed : AnchorState → Change → host.Time → Seq → AnchorState
  unfolding entered
  changed s (reprobe probe) at seq = record s { anchor = record s.anchor { probe = probe } }
  changed s (retransition transitions) at seq = record s {
    anchor = record s.anchor { transitions = transitions };
  }
  changed s (reterminal terminal) at seq = record s {
    anchor = record s.anchor { terminal = terminal };
  }
  changed s (restate state) at seq = entered s state at seq

  unfoldable pub apply : AnchorState → Change → host.Time → Seq → AnchorState
  unfolding changed kind_of counted
  apply s change at seq =
      changed (record s { revisions = counted s.revisions (kind_of change) }) change at seq

  -- The `match` of the loop of `resume`; an entry before the first `open` is passed over.
  unfoldable pub take_in : Option AnchorState → Seq → Entry → Option AnchorState
  unfolding entered apply
  take_in acc seq (opened anchor observation state at) = some (record {
    anchor = anchor;
    state = state;
    latest = some observation;
    latest_seq = some seq;
    closed = false;
    faltering = none;
    last_sighting = some at;
    entered_at = some at;
    moved_at = some seq;
    head = seq;
    revisions = λ k. none;
  })
  take_in none seq entry = none
  take_in (some s) seq (transition observation state at) = some (record (entered s state at seq) {
    latest = some observation;
    latest_seq = some seq;
    faltering = none;
    last_sighting = some at;
    head = seq;
  })
  take_in (some s) seq (still ref at versions) =
      some (record s { faltering = none; last_sighting = some at; head = seq })
  take_in (some s) seq (attempt reason code message at) =
      let f : Faltering = record {
        attempts = next_u32 (attempts s);
        reason = reason;
        code = code;
        message = message;
        at = at;
      } in
      some (record s { faltering = some f; head = seq })
  take_in (some s) seq (revise change context rationale at) =
      some (record (apply s change at seq) { head = seq })
  take_in (some s) seq (close context rationale at) = some (record s { closed = true; head = seq })

  settled : Option AnchorState → Option AnchorState
  settled none = none
  settled (some s) = some (record s { closed = s.closed || is_terminal s.anchor s.state })

  -- One round of the loop.
  unfoldable pub advance : Option AnchorState → Seq → Entry → Option AnchorState
  unfolding take_in settled
  advance acc seq entry = settled (take_in acc seq entry)

  unfoldable pub visit :
      {X : Type 0} → (Seq → Entry → AnchorState → X → X) → Seq → Entry → Option AnchorState → X → X
  visit each seq entry none x = x
  visit each seq entry (some s) x = each seq entry s x

  -- `each` is a closure over mutable variables: `X` is what it mutates.
  unfoldable pub resume :
      {X : Type 0}
      → (Seq → Entry → AnchorState → X → X)
      → Option AnchorState
      → X
      → List (Seq × Entry)
      → Option AnchorState × X
  unfolding advance visit
  resume each acc x [] = (acc, x)
  resume each acc x ((seq, entry) ∷ entries) =
      let next = advance acc seq entry in resume each next (visit each seq entry next x) entries

  unfoldable pub scan :
      {X : Type 0}
      → (Seq → Entry → AnchorState → X → X)
      → X
      → List (Seq × Entry)
      → Option AnchorState × X
  unfolding resume
  scan each x entries = resume each none x entries

  unfoldable pub fold : List (Seq × Entry) → Option AnchorState
  unfolding scan
  fold entries = (scan (λ seq entry s x. x) tt entries).0
