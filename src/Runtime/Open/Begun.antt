-- ===== src/Runtime/Open/Begun.antt =====
-- crates/gmr-runtime/src/open.rs: what an open leaves.
use gmr.Support.{
  List, [], ◌∷◌, true, Option, none, some, ◌≡◌, refl, ap, sym, ◌∙◌, subst, arith, Bool-cases, inl,
  inr,
}
use gmr.Support.Text.{Text}
use gmr.Json.{Platform}
use gmr.Core.Probe.{Derivation, Outcome}
use gmr.Core.Anchor.{Superseded, State, Anchor, position, is_terminal}
use gmr.Core.Journal.{Seq, FailureCode, Observation, opened, AnchorState, fold, advance}
use gmr.Store.Journal.{unleased, head, Stored, done, failed, Table, Codec, append, entries}
use gmr.Store.Journal.Chain.{ReadsBack}
use gmr.Store.Journal.Entries.{Log, entries-append, append-head}
use gmr.Store.Journal.Ordered.{IsOrdered}
use gmr.Store.Journal.Steady.{FaithfulWriting, FaithfulWriting_steady}
use gmr.Budget.{within}
use gmr.Runtime.Policy.{Policy}
use gmr.Runtime.Errors.{Ran, ran, refused}
use gmr.Runtime.Log.{Stood, Checkpoints, stood}
use gmr.Runtime.Log.Entered.{own_entry}
use gmr.Runtime.Observer.{Probed, answered, probe_error, Observer, resolve, sample}
use gmr.Runtime.Blind.{blind}
use gmr.Runtime.Looking.{Moment}
use gmr.Runtime.Deployment.{Deployment}
use gmr.Runtime.Translate.{Transitioned, to_state, unchanged, unevaluable, transition}
use gmr.Runtime.Observe.{observe_into}
use gmr.Runtime.Observe.Made.{Made, observe_into-Made}
use gmr.Runtime.Open.{
  OpenRequest, Opened, anchor_of, initial_of, first_state, opened_with, appended_open,
  open_observed, open_invoked, open_sighted, open_resolved, open_sealed, open_new, open_read,
  open_anchor, seal_supersede, seal_stood, superseded, Supersede,
}

module _ ⦃host : Platform⦄ where
  -- The state that the rules give from the initial one, which stands where they give none.
  pub data Begins (initial : State) : Transitioned → State → Type 0 where
    begins_moved : {next : State} → Begins initial (to_state next) next
    begins_unchanged : Begins initial unchanged initial
    begins_unevaluable :
        {code : FailureCode} {message : Text} → Begins initial (unevaluable code message) initial

  first_state-Begins :
      (initial : State) (r : Transitioned) → Begins initial r (first_state initial r).0
  unfolding first_state
  first_state-Begins initial (to_state next) = begins_moved
  first_state-Begins initial unchanged = begins_unchanged
  first_state-Begins initial (unevaluable code message) = begins_unevaluable

  module _ (codec : Codec) (evaluator : Text) (observer : Observer) (policy : Policy) where
    module _ (others : Table → Table) (moment : Moment) (request : OpenRequest) where
      -- What the probe was asked, at the position of the initial state, and answered.
      abbrev pub Sampled : Outcome → Type 0
      Sampled outcome =
          sample observer moment.instant request.probe (position (initial_of request))
            (within moment.instant moment.flag policy.probe_budget_ms policy.probe_output_cap)
          ≡ answered outcome

      abbrev pub BeginsIn : Option Superseded → Observation → State → Type 0
      BeginsIn sealed observation state =
          Begins (initial_of request)
            (transition (anchor_of request sealed) observation (initial_of request) moment.at
              moment.at)
            state

      -- What was written, to which table, and of which anchor.
      pub record Written (sealed : Option Superseded) (t t' : Table) (answer : Opened)
          : Type 0 where
        pub derivation : Derivation
        pub outcome : Outcome
        pub observation : Observation
        pub seq : Seq
        pub sampled : Sampled outcome
        pub made : Made outcome derivation observation
        pub resolved : resolve observer request.probe ≡ answered derivation
        pub sighted : blind (anchor_of request sealed) derivation.observes ≡ none
        pub state_is : BeginsIn sealed observation answer.state
        pub appended :
            append codec
              (others t)
              request.key
              (opened (anchor_of request sealed) observation answer.state moment.at)
              unleased
              (head 0)
            ≡ done (seq, t')

      state_of : State → Ran Opened → State
      state_of other (ran answer) = answer.state
      state_of other (refused e) = other

      appended_ran :
          (d d' : Deployment) (sealed : Option Superseded) (observation : Observation)
          (state : State) (warnings : List Text) (r : Stored (Seq × Table)) (answer : Opened)
          → appended_open codec evaluator observer policy others moment request d sealed observation
              state warnings r
            ≡ (ran answer, d')
          → (seq : Seq) × (r ≡ done (seq, d'.site.table)) × (state ≡ answer.state)
      unfolding appended_open opened_with state_of
      appended_ran d d' sealed observation state warnings (failed e) answer h = cc
      appended_ran d d' sealed observation state warnings (done (seq, t)) answer h = (
        seq,
        ap (λ (p : Ran Opened × Deployment). done (seq, p.1.site.table)) h,
        ap (λ (p : Ran Opened × Deployment). state_of state p.0) h,
      )

      observed_ran :
          (d d' : Deployment) (sealed : Option Superseded) (derivation : Derivation)
          (outcome : Outcome) (r : Ran Observation) (answer : Opened)
          → Sampled outcome
          → observe_into evaluator
              (anchor_of request sealed)
              outcome
              derivation
              request.settings.facts
            ≡ r
          → resolve observer request.probe ≡ answered derivation
          → blind (anchor_of request sealed) derivation.observes ≡ none
          → open_observed codec evaluator observer policy others moment request d sealed derivation
              r
            ≡ (ran answer, d')
          → Written sealed d.site.table d'.site.table answer
      unfolding open_observed
      observed_ran d d' sealed derivation outcome (refused e) answer asked made p q h = cc
      observed_ran d d' sealed derivation outcome (ran observation) answer asked made p q h =
          let (seq, k, same) = appended_ran _ d' sealed observation _ _ _ answer h in
          record {
            derivation = derivation;
            outcome = outcome;
            observation = observation;
            seq = seq;
            sampled = asked;
            made =
                observe_into-Made evaluator (anchor_of request sealed) outcome derivation
                  request.settings.facts observation made;
            resolved = p;
            sighted = q;
            state_is =
                subst (BeginsIn sealed observation) same
                  (first_state-Begins (initial_of request) _);
            appended =
                subst
                  (λ (s : State).
                    append codec (others d.site.table) request.key
                      (opened (anchor_of request sealed) observation s moment.at) unleased (head 0)
                    ≡ done (seq, d'.site.table))
                  same k;
          }

      invoked_ran :
          (d d' : Deployment) (sealed : Option Superseded) (derivation : Derivation)
          (r : Probed Outcome) (answer : Opened)
          → sample observer moment.instant request.probe
              (position (initial_of request))
              (within moment.instant moment.flag policy.probe_budget_ms policy.probe_output_cap)
            ≡ r
          → resolve observer request.probe ≡ answered derivation
          → blind (anchor_of request sealed) derivation.observes ≡ none
          → open_invoked codec evaluator observer policy others moment request d sealed derivation r
            ≡ (ran answer, d')
          → Written sealed d.site.table d'.site.table answer
      unfolding open_invoked
      invoked_ran d d' sealed derivation (probe_error e) answer asked p q h = cc
      invoked_ran d d' sealed derivation (answered outcome) answer asked p q h =
          observed_ran d d' sealed derivation outcome _ answer asked refl p q h

      sighted_ran :
          (d d' : Deployment) (sealed : Option Superseded) (derivation : Derivation)
          (r : Option Text) (answer : Opened)
          → resolve observer request.probe ≡ answered derivation
          → blind (anchor_of request sealed) derivation.observes ≡ r
          → open_sighted codec evaluator observer policy others moment request d sealed derivation r
            ≡ (ran answer, d')
          → Written sealed d.site.table d'.site.table answer
      unfolding open_sighted
      sighted_ran d d' sealed derivation (some m) answer p q h = cc
      sighted_ran d d' sealed derivation none answer p q h =
          invoked_ran d d' sealed derivation _ answer refl p q h

      resolved_ran :
          (d d' : Deployment) (sealed : Option Superseded) (r : Probed Derivation) (answer : Opened)
          → resolve observer request.probe ≡ r
          → open_resolved codec evaluator observer policy others moment request d sealed r
            ≡ (ran answer, d')
          → Written sealed d.site.table d'.site.table answer
      unfolding open_resolved
      resolved_ran d d' sealed (probe_error e) answer p h = cc
      resolved_ran d d' sealed (answered derivation) answer p h =
          sighted_ran d d' sealed derivation _ answer p refl h

      -- What the anchor supersedes: nothing, or one that had finished, by the log that is read.
      pub data Supersedes (d : Deployment) : Option Supersede → Option Superseded → Type 0 where
        nothing : Supersedes d none none
        finished :
            {s : Supersede} {x : Superseded} {old : Stood} {held : Checkpoints}
            → stood codec d.site.table d.site.held s.key ≡ done (some old, held)
            → old.anchor.closed ≡ true
            → x.key ≡ s.key
            → Supersedes d (some s) (some x)

      -- What an open that succeeded did, and what the log then stands at.
      pub record Begun (d : Deployment) (answer : Opened) (d' : Deployment) : Type 0 where
        pub sealed : Option Superseded
        pub written : Written sealed d.site.table d'.site.table answer
        pub supersedes : Supersedes d request.supersedes sealed
        pub fresh : entries codec (others d.site.table) request.key 0 ≡ done []
        pub read :
            entries codec d'.site.table request.key 0
            ≡ done (
                (
                  written.seq,
                  opened (anchor_of request sealed) written.observation answer.state moment.at,
                )
                ∷ [])
        pub now : AnchorState
        pub stands_at :
            fold (
              (
                written.seq,
                opened (anchor_of request sealed) written.observation answer.state moment.at,
              )
              ∷ [])
            ≡ some now
        pub anchor_is : now.anchor ≡ anchor_of request sealed
        pub state_stands : now.state ≡ answer.state
        pub closed_is : now.closed ≡ is_terminal (anchor_of request sealed) answer.state

      key_in : Superseded → Ran Superseded → Text
      key_in other (ran x) = x.key
      key_in other (refused e) = other.key

      superseded_ran :
          (s : Supersede) (d d' : Deployment) (o : Option Stood) (x : Superseded)
          → superseded s d o ≡ (ran x, d')
          → (d.site.table ≡ d'.site.table)
            × (old : Stood) × (o ≡ some old)
            × (old.anchor.closed ≡ true)
            × (x.key ≡ s.key)
      unfolding superseded key_in
      superseded_ran s d d' none x h = cc
      superseded_ran s d d' (some old) x h = elim (Bool-cases old.anchor.closed) [
        | inl q ↦
            let k = rw (superseded, q) at h in
            (
              ap (λ (p : Ran Superseded × Deployment). p.1.site.table) k,
              old,
              refl,
              q,
              sym (ap (λ (p : Ran Superseded × Deployment). key_in x p.0) k),
            )
        | inr q ↦ let k = rw (superseded, q) at h in cc
      ]

      stood_sealed :
          (s : Supersede) (d d' : Deployment) (r : Stored (Option Stood × Checkpoints))
          (x : Superseded)
          → stood codec d.site.table d.site.held s.key ≡ r
          → seal_stood s d r ≡ (ran x, d')
          → (d.site.table ≡ d'.site.table) × Supersedes d (some s) (some x)
      unfolding seal_stood
      stood_sealed s d d' (failed e) x p h = cc
      stood_sealed s d d' (done (o, held)) x p h =
          let (table, old, is, closed, key) = superseded_ran s _ d' o x h in
          (table, finished (p ∙ ap (λ a. done (a, held)) is) closed key)

      -- The part of an open that is done once the log has been found empty.
      abbrev WasMade : Deployment → Deployment → Opened → Type 0
      WasMade d d' answer =
          (sealed : Option Superseded) × Written sealed d.site.table d'.site.table answer
          × Supersedes d request.supersedes sealed

      sealed_ran :
          (d d' : Deployment) (s : Supersede) (r : Ran Superseded × Deployment) (answer : Opened)
          → seal_supersede codec s d ≡ r
          → open_sealed codec evaluator observer policy others moment request r ≡ (ran answer, d')
          → (x : Superseded) × Written (some x) d.site.table d'.site.table answer
            × Supersedes d (some s) (some x)
      unfolding open_sealed seal_supersede
      sealed_ran d d' s (refused e, between) answer p h = cc
      sealed_ran d d' s (ran x, between) answer p h =
          let (table, sup) = stood_sealed s d between _ x refl p in
          (
            x,
            subst (λ (t : Table). Written (some x) t d'.site.table answer) (sym table)
                (resolved_ran between d' (some x) _ answer refl h),
            sup,
          )

      new_ran :
          (d d' : Deployment) (o : Option Supersede) (answer : Opened)
          → request.supersedes ≡ o
          → open_new codec evaluator observer policy others moment request d o ≡ (ran answer, d')
          → WasMade d d' answer
      unfolding open_new
      new_ran d d' none answer p h = (
        none,
        resolved_ran d d' none _ answer refl h,
        subst (λ (q : Option Supersede). Supersedes d q none) (sym p) nothing,
      )
      new_ran d d' (some s) answer p h =
          let (x, w, sup) = sealed_ran d d' s _ answer refl h in
          (some x, w, subst (λ (q : Option Supersede). Supersedes d q (some x)) (sym p) sup)

      read_ran :
          (d d' : Deployment) (r : Stored Log) (answer : Opened)
          → entries codec d.site.table request.key 0 ≡ r
          → open_read codec evaluator observer policy others moment request d r ≡ (ran answer, d')
          → (entries codec d.site.table request.key 0 ≡ done []) × WasMade d d' answer
      unfolding open_read
      read_ran d d' (failed e) answer p h = cc
      read_ran d d' (done (e ∷ es)) answer p h = cc
      read_ran d d' (done []) answer p h = (p, new_ran d d' request.supersedes answer refl h)

      opened_stands :
          (seq : Seq) (anchor : Anchor) (observation : Observation) (state : State) (at : host.Time)
          → (now : AnchorState) × (fold ((seq, opened anchor observation state at) ∷ []) ≡ some now)
            × (now.anchor ≡ anchor)
            × (now.state ≡ state)
            × (now.closed ≡ is_terminal anchor state)
      unfolding fold advance
      opened_stands seq anchor observation state at = (_, refl, refl, refl, refl)

      -- The entries that the open may write read back as they are.
      abbrev pub OpeningReadsBack : Type 0
      OpeningReadsBack =
          (sealed : Option Superseded) (derivation : Derivation) (outcome : Outcome)
          (observation : Observation) (state : State)
          → Sampled outcome
          → Made outcome derivation observation
          → BeginsIn sealed observation state
          → ReadsBack codec (opened (anchor_of request sealed) observation state moment.at)

      -- Others may append in between, and what is written reads back as it. Where an open succeeds, the
      -- anchor had no log at the append; its whole log is now the one entry that opens it, with what the
      -- probe answered at the position of the initial state, under the derivation that the probe has and
      -- the rules are not blind under; what the log folds to has the anchor that was asked for and the
      -- state that the open answers, which the rules gave or is the initial one where they gave none,
      -- and is closed only if that is terminal; and the anchor that it supersedes, if any, had finished.
      pub open_anchor-Begun :
          (d d' : Deployment) (answer : Opened)
          → OpeningReadsBack
          → IsOrdered d.site.table
          → FaithfulWriting codec d.site.table (others d.site.table)
          → open_anchor codec evaluator observer policy others moment request d ≡ (ran answer, d')
          → Begun d answer d'
      unfolding open_anchor
      open_anchor-Begun d d' answer trips ordered only h =
          let (empty, made) = read_ran d d' _ answer refl h in
          let (sealed, w, sup) = made in
          let entry = opened (anchor_of request sealed) w.observation answer.state moment.at in
          let at =
            append-head codec (others d.site.table) d'.site.table request.key entry unleased 0 w.seq
              w.appended in
          let still =
            FaithfulWriting_steady codec request.key [] ordered only (omega (arith, at)) empty in
          let (now, folds, anchor_is, state_is, closed_is) =
            opened_stands w.seq (anchor_of request sealed) w.observation answer.state moment.at in
          record {
            sealed = sealed;
            written = w;
            supersedes = sup;
            fresh = still;
            read =
                entries-append codec (others d.site.table) d'.site.table request.key request.key
                  entry unleased (head 0) w.seq 0 []
                  (trips sealed w.derivation w.outcome w.observation answer.state w.sampled w.made
                    w.state_is)
                  w.appended still
                ∙ ap done (own_entry request.key w.seq entry []);
            now = now;
            stands_at = folds;
            anchor_is = anchor_is;
            state_stands = state_is;
            closed_is = closed_is;
          }
