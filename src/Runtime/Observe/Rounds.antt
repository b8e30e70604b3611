-- ===== src/Runtime/Observe/Rounds.antt =====
-- crates/gmr-runtime/src/observe.rs, recorded: what a round does, and what holds of every round.
use gmr.Support.{
  ℕ, zero, suc, ◌≢◌, false, Option, none, some, ltb, ◌≡◌, refl, ap, ap₂, sym, ◌∙◌, subst,
  Bool-cases, inl, inr,
}
use gmr.Support.Text.{Text}
use gmr.Json.{Platform}
use gmr.Core.Anchor.{RunSettings, State}
use gmr.Core.Journal.{FailureCode, Seq, Observation, Entry, AnchorState, attempts}
use gmr.Store.Journal.{
  Fence, head, head_moved, Stored, done, failed, Table, anchor_head, Codec, append,
}
use gmr.Store.Journal.Entries.{append-head}
use gmr.Runtime.Log.{Stood, Checkpoints, stood}
use gmr.Runtime.Observe.{
  Ran, ran, refused, Observed, transitioned, contended, Site, still_ref, entry_for, reported, Next,
  goes, cannot, next_state, record_attempt, attempt_stored, Round, returns, again, stored_round,
  append_round, round_to, round, recorded_from, no_such_anchor,
}

module _ ⦃host : Platform⦄ where
  reported_transitioned :
      (s : AnchorState) (next : State) (ref : Option Seq) (from to : State)
      → reported s next ref ≡ transitioned from to
      → (ref ≡ none) × (host.same s.state next ≡ false) × (s.state ≡ from) × (next ≡ to)
  unfolding reported
  reported_transitioned s next (some r) from to h = cc
  reported_transitioned s next none from to h = elim (Bool-cases (host.same s.state next)) [
    | inl q ↦ let k = rw (reported, q) at h in cc
    | inr q ↦ let k = rw (reported, q) at h in (refl, q, cc, cc)
  ]

  module _ (codec : Codec) (others : ℕ → Table → Table) (key : Text) (fence : Fence) where
    module _ (at now : host.Time) (observation : Observation) (run : RunSettings) where
      -- The append of a new state to the table `before`, under the premise that it was computed from.
      pub record Step (before : Table) (basis : AnchorState) (from to : State) (site' : Site)
          : Type 0 where
        pub seq : Seq
        pub open_then : basis.closed ≡ false
        pub was : basis.state ≡ from
        pub computed : next_state basis observation at ≡ goes to
        pub moved : host.same from to ≡ false
        pub stands : basis.head ≡ anchor_head key before.rows
        pub appended :
            append codec before key (Entry.transition observation to at) fence (head basis.head)
            ≡ done (seq, site'.table)

      table_of : Table → Round codec others key fence at now observation run → Table
      table_of t (returns (ran (o, site))) = site.table
      table_of t _ = t

      observed_of : Round codec others key fence at now observation run → Observed
      observed_of (returns (ran (o, site))) = o
      observed_of _ = contended

      result_of : Round codec others key fence at now observation run → Ran (Observed × Site)
      result_of (returns r) = r
      result_of (again t) = refused no_such_anchor

      stored_result :
          (site : Site) (s : AnchorState) (next : State) (ref : Option Seq) (t : Table)
          (r : Stored (Seq × Table)) (o : Observed) (site' : Site)
          → stored_round codec others key fence at now observation run site s next ref t r
            ≡ returns (ran (o, site'))
          → (seq : Seq) × (r ≡ done (seq, site'.table)) × (reported s next ref ≡ o)
      unfolding stored_round table_of observed_of
      stored_result site s next ref t (failed (head_moved e h')) o site' h = cc
      stored_result site s next ref t (failed e) o site' h = cc
      stored_result site s next ref t (done (seq, t')) o site' h =
          (seq, ap (λ r. done (seq, table_of t r)) h, ap observed_of h)

      appended_result :
          (i : ℕ) (site : Site) (s : AnchorState) (next : State) (ref : Option Seq)
          (from to : State) (site' : Site)
          → s.closed ≡ false
          → next_state s observation at ≡ goes next
          → append_round codec others key fence at now observation run i site s next ref
              (entry_for s next observation at ref)
            ≡ returns (ran (transitioned from to, site'))
          → Step (others i site.table) s from to site'
      unfolding append_round entry_for observed_of
      appended_result i site s next (some r) from to site' c g h =
          elim (Bool-cases (ltb 0 (attempts s))) [
            | inl q ↦
                let (_, _, k) =
                  stored_result site s next (some r) (others i site.table) _ _ site'
                    (rw (append_round, q) at h) in
                let (absurd_ref, _, _, _) = reported_transitioned s next (some r) from to k in cc
            | inr q ↦
                let k = ap observed_of (rw (append_round, q) at h) in
                let (absurd_ref, _, _, _) = reported_transitioned s next (some r) from to k in cc
          ]
      appended_result i site s next none from to site' c g h =
          let (seq, stored, k) = stored_result site s next none (others i site.table) _ _ site' h in
          let (_, moved, was, is) = reported_transitioned s next none from to k in
          let entered =
            subst
              (λ (u : State).
                append codec (others i site.table) key (Entry.transition observation u at) fence
                  (head s.head)
                ≡ done (seq, site'.table))
              is stored in
          record {
            seq = seq;
            open_then = c;
            was = was;
            computed = g ∙ ap goes is;
            moved = ap₂ (λ u v. host.same u v) (sym was) (sym is) ∙ moved;
            stands =
                append-head codec (others i site.table) site'.table key
                  (Entry.transition observation to at) fence s.head seq entered;
            appended = entered;
          }

      attempt_result :
          (site : Site) (code : FailureCode) (message : Text) (n : ℕ) (r : Stored (Seq × Table))
          (from to : State) (site' : Site)
          → attempt_stored codec others key fence site code message n r
            ≢ ran (transitioned from to, site')
      unfolding attempt_stored
      attempt_result site code message n (failed e) from to site' = cc
      attempt_result site code message n (done (seq, t)) from to site' = cc

      next_result :
          (i : ℕ) (site : Site) (s : AnchorState) (n : Next) (from to : State) (site' : Site)
          → s.closed ≡ false
          → next_state s observation at ≡ n
          → round_to codec others key fence at now observation run i site s n
            ≡ returns (ran (transitioned from to, site'))
          → Step (others i site.table) s from to site'
      unfolding round_to record_attempt result_of
      next_result i site s (goes next) from to site' c g h =
          appended_result i site s next (still_ref run s next observation) from to site' c g h
      next_result i site s (cannot code message) from to site' c g h =
          absurd (attempt_result site code message _ _ from to site' (ap result_of h))

      round_result :
          (i : ℕ) (site : Site) (s : AnchorState) (from to : State) (site' : Site)
          → round codec others key fence at now observation run i site s
            ≡ returns (ran (transitioned from to, site'))
          → Step (others i site.table) s from to site'
      unfolding round observed_of
      round_result i site s from to site' h = elim (Bool-cases s.closed) [
        | inl q ↦ let k = ap observed_of (rw (round, q) at h) in cc
        | inr q ↦
            next_result i site s (next_state s observation at) from to site' q refl
              (rw (round, q) at h)
      ]

      stored_again :
          (site : Site) (s : AnchorState) (next : State) (ref : Option Seq) (t t' : Table)
          (r : Stored (Seq × Table))
          → stored_round codec others key fence at now observation run site s next ref t r
            ≡ again t'
          → t ≡ t'
      unfolding stored_round
      stored_again site s next ref t t' (done (seq, u)) h = cc
      stored_again site s next ref t t' (failed (head_moved e h')) h = cc
      stored_again site s next ref t t' (failed e) h = cc

      append_again :
          (i : ℕ) (site : Site) (s : AnchorState) (next : State) (ref : Option Seq)
          (entry : Option Entry) (t : Table)
          → append_round codec others key fence at now observation run i site s next ref entry
            ≡ again t
          → others i site.table ≡ t
      unfolding append_round
      append_again i site s next ref none t h = cc
      append_again i site s next ref (some entry) t h =
          stored_again site s next ref (others i site.table) t _ h

      next_again :
          (i : ℕ) (site : Site) (s : AnchorState) (n : Next) (t : Table)
          → round_to codec others key fence at now observation run i site s n ≡ again t
          → others i site.table ≡ t
      unfolding round_to
      next_again i site s (goes next) t h = append_again i site s next _ _ t h
      next_again i site s (cannot code message) t h = cc

      -- A round that is to be done again found the table that the others had left.
      round_again :
          (i : ℕ) (site : Site) (s : AnchorState) (t : Table)
          → round codec others key fence at now observation run i site s ≡ again t
          → others i site.table ≡ t
      unfolding round
      round_again i site s t h = elim (Bool-cases s.closed) [
        | inl q ↦ let k = rw (round, q) at h in cc
        | inr q ↦ next_again i site s _ t (rw (round, q) at h)
      ]

      -- The table that a round which is done again is begun on, and the checkpoints that it finds.
      abbrev pub next_site : ℕ → Site → Checkpoints → Site
      next_site i site held = record site {
        table = others (suc i) (others i site.table);
        held = held;
      }

      module _ (Holds : Site → AnchorState → Type 0) (Result : Type 0) (from to : State)
          (site' : Site) where
        abbrev pub Keeps : Type 0
        Keeps =
            (i : ℕ) (site : Site) (s : AnchorState) (held : Checkpoints) (found : Stood)
            → Holds site s
            → stood codec (others (suc i) (others i site.table)) site.held key
              ≡ done (some found, held)
            → Holds (next_site i site held) found.anchor

        abbrev pub Ends : Type 0
        Ends =
            (i : ℕ) (site : Site) (s : AnchorState)
            → Holds site s
            → Step (others i site.table) s from to site'
            → Result

        abbrev Later : ℕ → Type 0
        Later left =
            (j : ℕ) (u : Site) (s : AnchorState)
            → Holds u s
            → recorded_from codec others key fence at now observation run left j u s
              ≡ ran (transitioned from to, site')
            → Result

        after_stood :
            (left i : ℕ) (site : Site) (s : AnchorState) (r : Stored (Option Stood × Checkpoints))
            → Keeps
            → Later left
            → Holds site s
            → round codec others key fence at now observation run i site s
              ≡ again (others i site.table)
            → stood codec (others (suc i) (others i site.table)) site.held key ≡ r
            → recorded_from codec others key fence at now observation run (suc left) i site s
              ≡ ran (transitioned from to, site')
            → Result
        unfolding recorded_from
        after_stood left i site s (failed e) keeps later holds p q h =
            let k = rw (recorded_from, p, q) at h in cc
        after_stood left i site s (done (none, held)) keeps later holds p q h =
            let k = rw (recorded_from, p, q) at h in cc
        after_stood left i site s (done (some found, held)) keeps later holds p q h =
            later (suc (suc i)) (next_site i site held) found.anchor
              (keeps i site s held found holds q) (rw (recorded_from, p, q) at h)

        after_round :
            (left i : ℕ) (site : Site) (s : AnchorState)
            (r : Round codec others key fence at now observation run)
            → Keeps
            → Ends
            → Later left
            → Holds site s
            → round codec others key fence at now observation run i site s ≡ r
            → recorded_from codec others key fence at now observation run (suc left) i site s
              ≡ ran (transitioned from to, site')
            → Result
        unfolding recorded_from
        after_round left i site s (returns x) keeps ends later holds p h =
            let k = rw (recorded_from, p) at h in
            ends i site s holds (round_result i site s from to site' (p ∙ ap returns k))
        after_round left i site s (again t) keeps ends later holds p h =
            after_stood left i site s _ keeps later holds
              (p ∙ ap again (sym (round_again i site s t p))) refl h

        -- What holds of the first round and is kept from round to round holds of the round that
        -- appends.
        pub recorded_ends :
            (left i : ℕ) (site : Site) (s : AnchorState)
            → Keeps
            → Ends
            → Holds site s
            → recorded_from codec others key fence at now observation run left i site s
              ≡ ran (transitioned from to, site')
            → Result
        unfolding recorded_from
        recorded_ends zero i site s keeps ends holds h = cc
        recorded_ends (suc left) i site s keeps ends holds h =
            after_round left i site s (round codec others key fence at now observation run i site s)
              keeps ends (λ j u s' k. recorded_ends left j u s' keeps ends k) holds refl h
