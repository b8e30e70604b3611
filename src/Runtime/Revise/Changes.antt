-- ===== src/Runtime/Revise/Changes.antt =====
-- crates/gmr-runtime/src/revise.rs: what a revision leaves.
use gmr.Support.{
  Bool, not, ℕ, List, [], ◌∷◌, ◌++◌, false, ◌||◌, Option, none, some, get_or_else, if◌then◌else◌,
  ◌≡◌, refl, ap, sym, ◌∙◌, subst, Bool-cases, if_false, inl, inr,
}
use gmr.Support.Text.{Text}
use gmr.Json.{Platform}
use gmr.Core.Addr.{Canonical, ok, err}
use gmr.Core.Anchor.{State, Anchor, is_terminal}
use gmr.Core.Journal.{
  Seq, ChangeKind, kind_eq, kind_of, Change, reprobe, retransition, reterminal, restate, Entry,
  AnchorState, next_u32, fold, advance,
}
use gmr.Store.Journal.{unleased, head, Stored, done, failed, Table, append, entries}
use gmr.Store.Journal.Chain.{ReadsBack}
use gmr.Store.Journal.Entries.{Log}
use gmr.Store.Journal.Steady.{FaithfulWriting}
use gmr.Runtime.Errors.{Ran, ran, refused}
use gmr.Runtime.Log.{Stood, Checkpoints, stood}
use gmr.Runtime.Log.Entered.{IsReady, append-Entered, fold_snoc}
use gmr.Runtime.Deployment.{Deployment, Serde, with_table}
use gmr.Runtime.Revise.{
  Revised, revising, revise_stored, revise_declared, revise_standing, revise_stood, revise,
}

module _ ⦃host : Platform⦄ where
  abbrev pub changed_anchor : Change → Anchor → Anchor
  changed_anchor (reprobe probe) a = record a { probe = probe }
  changed_anchor (retransition transitions) a = record a { transitions = transitions }
  changed_anchor (reterminal terminal) a = record a { terminal = terminal }
  changed_anchor (restate state) a = a

  abbrev pub changed_state : Change → State → State
  changed_state (restate state) s = state
  changed_state _ s = s

  -- Does it give another state?
  abbrev pub is_move : Change → State → Bool
  is_move (restate state) s = not (host.same s state)
  is_move _ s = false

  -- What a change makes of an anchor, independently of how the fold takes it in.
  pub record Becomes (change : Change) (at : host.Time) (seq : Seq) (s s' : AnchorState)
      : Type 0 where
    pub anchor_is : s'.anchor ≡ changed_anchor change s.anchor
    pub state_is : s'.state ≡ changed_state change s.state
    pub closed_is :
        s'.closed
        ≡ (s.closed || is_terminal (changed_anchor change s.anchor) (changed_state change s.state))
    pub revisions_are :
        (k : ChangeKind)
        → s'.revisions k ≡ (
            if kind_eq k (kind_of change)
            then some (next_u32 (get_or_else (s.revisions k) 0))
            else s.revisions k)
    pub latest_is : s'.latest ≡ s.latest
    pub latest_seq_is : s'.latest_seq ≡ s.latest_seq
    pub last_sighting_is : s'.last_sighting ≡ s.last_sighting
    pub faltering_is : s'.faltering ≡ s.faltering
    pub head_is : s'.head ≡ seq
    pub entered_at_is : s'.entered_at ≡ (if is_move change s.state then some at else s.entered_at)
    pub moved_at_is : s'.moved_at ≡ (if is_move change s.state then some seq else s.moved_at)

  advance-Becomes :
      (s : AnchorState) (seq : Seq) (change : Change) (context rationale : Text) (at : host.Time)
      → (s' : AnchorState) × (advance (some s) seq (Entry.revise change context rationale at)
          ≡ some s')
        × Becomes change at seq s s'
  unfolding advance
  advance-Becomes s seq (reprobe probe) c w at = (
    _,
    refl,
    record {
      anchor_is = refl;
      state_is = refl;
      closed_is = refl;
      revisions_are = λ k. refl;
      latest_is = refl;
      latest_seq_is = refl;
      last_sighting_is = refl;
      faltering_is = refl;
      head_is = refl;
      entered_at_is = refl;
      moved_at_is = refl;
    },
  )
  advance-Becomes s seq (retransition transitions) c w at = (
    _,
    refl,
    record {
      anchor_is = refl;
      state_is = refl;
      closed_is = refl;
      revisions_are = λ k. refl;
      latest_is = refl;
      latest_seq_is = refl;
      last_sighting_is = refl;
      faltering_is = refl;
      head_is = refl;
      entered_at_is = refl;
      moved_at_is = refl;
    },
  )
  advance-Becomes s seq (reterminal terminal) c w at = (
    _,
    refl,
    record {
      anchor_is = refl;
      state_is = refl;
      closed_is = refl;
      revisions_are = λ k. refl;
      latest_is = refl;
      latest_seq_is = refl;
      last_sighting_is = refl;
      faltering_is = refl;
      head_is = refl;
      entered_at_is = refl;
      moved_at_is = refl;
    },
  )
  advance-Becomes s seq (restate state) c w at = elim (Bool-cases (host.same s.state state)) [
    | inl q ↦ (
      _,
      refl,
      rw q record {
        anchor_is = refl;
        state_is = refl;
        closed_is = refl;
        revisions_are = λ k. refl;
        latest_is = refl;
        latest_seq_is = refl;
        last_sighting_is = refl;
        faltering_is = refl;
        head_is = refl;
        entered_at_is = rw q refl;
        moved_at_is = rw q refl;
      },
    )
    | inr q ↦ (
      _,
      refl,
      rw q record {
        anchor_is = refl;
        state_is = refl;
        closed_is = refl;
        revisions_are = λ k. refl;
        latest_is = refl;
        latest_seq_is = refl;
        last_sighting_is = refl;
        faltering_is = refl;
        head_is = refl;
        entered_at_is = rw q refl;
        moved_at_is = rw q refl;
      },
    )
  ]

  module _ (serde : Serde) (evaluator : Text) (others : Table → Table) (key : Text) where
    module _ (change : Change) (rationale : List ℕ) where
      -- The anchor was open, and its log has been given the entry that changes it.
      pub record Changed (at : host.Time) (d : Deployment) (answer : Revised) (d' : Deployment)
          : Type 0 where
        pub basis : AnchorState
        pub now : AnchorState
        pub log : Log
        pub seq : Seq
        pub was : entries serde.codec (others d.site.table) key 0 ≡ done log
        pub stood_at : fold log ≡ some basis
        pub was_open : basis.closed ≡ false
        pub read :
            entries serde.codec d'.site.table key 0
            ≡ done (log ++ (seq, Entry.revise change answer.context answer.rationale at) ∷ [])
        pub stands_at :
            fold (log ++ (seq, Entry.revise change answer.context answer.rationale at) ∷ [])
            ≡ some now
        pub becomes : Becomes change at seq basis now
        pub ready : IsReady serde.codec d'.site.table d'.site.held

      abbrev Written :
          host.Time → Deployment → Deployment → AnchorState → Checkpoints → Revised → Type 0
      Written at d d' s held answer =
          (s.closed ≡ false)
          × (declaration : Text) × ((revising serde evaluator others key change rationale at s
                declaration d.sealed).0
              ≡ answer)
          × (seq : Seq) × (t : Table) × (append serde.codec (others d.site.table) key
                (Entry.revise change answer.context answer.rationale at) unleased (head s.head)
              ≡ done (seq, t))
          × (t ≡ d'.site.table)
          × (held ≡ d'.site.held)

      answer_of : Revised → Ran Revised → Revised
      answer_of other (ran answer) = answer
      answer_of other (refused e) = other

      stored_ran :
          (d d' : Deployment) (answer answer' : Revised) (r : Stored (Seq × Table))
          → revise_stored serde evaluator others key change rationale d answer r ≡ (ran answer', d')
          → (seq : Seq) × (t : Table) × (r ≡ done (seq, t))
            × (with_table d t ≡ d')
            × (answer ≡ answer')
      unfolding revise_stored answer_of
      stored_ran d d' answer answer' (failed e) h = cc
      stored_ran d d' answer answer' (done (seq, t)) h =
          (seq, t, refl, ap (λ p. p.1) h, ap (λ p. answer_of answer' p.0) h)

      declared_ran :
          (at : host.Time) (d d' : Deployment) (s : AnchorState) (held : Checkpoints)
          (answer : Revised) (c : Canonical Text)
          → s.closed ≡ false
          → revise_declared serde evaluator others key change rationale at
              (record d { site = record d.site { held = held } })
              s
              c
            ≡ (ran answer, d')
          → Written at d d' s held answer
      unfolding revise_declared revising
      declared_ran at d d' s held answer (err e) q h = cc
      declared_ran at d d' s held answer (ok declaration) q h =
          let (seq, t, k, is, same) = stored_ran _ d' _ answer _ h in
          (
            q,
            declaration,
            same,
            seq,
            t,
            subst
                (λ (a : Revised).
                  append serde.codec (others d.site.table) key
                    (Entry.revise change a.context a.rationale at) unleased (head s.head)
                  ≡ done (seq, t))
                same k,
            ap (λ (x : Deployment). x.site.table) is,
            ap (λ (x : Deployment). x.site.held) is,
          )

      standing_ran :
          (at : host.Time) (d d' : Deployment) (s : AnchorState) (held : Checkpoints)
          (answer : Revised)
          → revise_standing serde evaluator others key change rationale at
              (record d { site = record d.site { held = held } })
              s
            ≡ (ran answer, d')
          → Written at d d' s held answer
      unfolding revise_standing
      standing_ran at d d' s held answer h = elim (Bool-cases s.closed) [
        | inl q ↦ let k = rw (revise_standing, q) at h in cc
        | inr q ↦ declared_ran at d d' s held answer _ q (sym (if_false s.closed _ _ q) ∙ h)
      ]

      stood_ran :
          (at : host.Time) (d d' : Deployment) (answer : Revised)
          (r : Stored (Option Stood × Checkpoints))
          → revise_stood serde evaluator others key change rationale at d r ≡ (ran answer, d')
          → (found : Stood) × (held : Checkpoints) × (r ≡ done (some found, held))
            × Written at d d' found.anchor held answer
      unfolding revise_stood
      stood_ran at d d' answer (failed e) h = cc
      stood_ran at d d' answer (done (none, held)) h = cc
      stood_ran at d d' answer (done (some found, held)) h =
          (found, held, refl, standing_ran at d d' found.anchor held answer h)

      -- Others may append in between, and what is written reads back as it. Where a revision succeeds,
      -- the whole of the log, at the append, folded to an open anchor, and has been given the one entry
      -- that changes it; what the log then folds to has the part of the anchor, or the state, that the
      -- change names as the change gives it, one more revision of its kind, and the entry as its head;
      -- it was entered and has moved then if the change gives another state; it is closed only if its
      -- terminal states hold its state; and all the rest is as before.
      pub revise-Changed :
          (at : host.Time) (d d' : Deployment) (answer : Revised)
          → ((context reason : Text)
              → ReadsBack serde.codec (Entry.revise change context reason at))
          → IsReady serde.codec d.site.table d.site.held
          → FaithfulWriting serde.codec d.site.table (others d.site.table)
          → revise serde evaluator others key change rationale at d ≡ (ran answer, d')
          → Changed at d answer d'
      unfolding revise
      revise-Changed at d d' answer trips ready only h =
          let (found, held, p, written) =
            stood_ran at d d' answer (stood serde.codec d.site.table d.site.held key) h in
          let (open_then, declaration, same, seq, t, k, table_is, held_is) = written in
          let s = found.anchor in
          let e = Entry.revise change answer.context answer.rationale at in
          let entered =
            append-Entered serde.codec d.site.table (others d.site.table) t key d.site.held held
              found e unleased seq (trips answer.context answer.rationale) ready only p k in
          let (now, folds, becomes) =
            advance-Becomes s seq change answer.context answer.rationale at in
          record {
            basis = s;
            now = now;
            log = entered.log;
            seq = seq;
            was = entered.was;
            stood_at = entered.is_fold;
            was_open = open_then;
            read =
                subst
                  (λ (u : Table). entries serde.codec u key 0 ≡ done (entered.log ++ (seq, e) ∷ []))
                  table_is entered.read;
            stands_at =
                fold_snoc entered.log seq e ∙ (ap (λ a. advance a seq e) entered.is_fold ∙ folds);
            becomes = becomes;
            ready =
                subst (λ (u : Table). IsReady serde.codec u d'.site.held) table_is
                  (subst (λ (c : Checkpoints). IsReady serde.codec t c) held_is
                    (entered.ordered, entered.sound));
          }
