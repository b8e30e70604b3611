-- ===== src/Runtime/Observe/Current.antt =====
-- crates/gmr-runtime/src/observe.rs, recorded, among other writers that only append: the state that a
-- new one is computed from is the one that the whole log stands at.
use gmr.Support.{ℕ, suc, false, some, ◌≡◌, sym, arith}
use gmr.Support.Text.{Text}
use gmr.Json.{Platform}
use gmr.Core.Anchor.{RunSettings, State}
use gmr.Core.Journal.{Seq, Observation, Entry, AnchorState, fold}
use gmr.Store.Journal.{Fence, head, done, Table, Codec, append, entries}
use gmr.Store.Journal.Entries.{Log}
use gmr.Store.Journal.Ordered.{IsOrdered}
use gmr.Store.Journal.Steady.{
  FaithfulWriting, idle, FaithfulWriting-IsOrdered, FaithfulWriting_trans, FaithfulWriting_steady,
}
use gmr.Runtime.Log.{Stood, Checkpoints, stood}
use gmr.Runtime.Log.Sound.{IsSound, FaithfulWriting-IsSound, stood-Stands, fold_within}
use gmr.Runtime.Observe.{ran, transitioned, Site, goes, next_state, recorded}
use gmr.Runtime.Observe.Rounds.{Step, recorded_ends, next_site}

module _ ⦃host : Platform⦄ where
  -- The log of a table stood at this state, and others have written since.
  pub record StoodAt (codec : Codec) (key : Text) (t : Table) (s : AnchorState) : Type 0 where
    pub earlier : Table
    pub ordered : IsOrdered earlier
    pub log : Log
    pub read : entries codec earlier key 0 ≡ done log
    pub is_fold : fold log ≡ some s
    pub since : FaithfulWriting codec earlier t

  -- What the rounds of `recorded` keep.
  pub record IsCurrent (codec : Codec) (key : Text) (site : Site) (s : AnchorState) : Type 0 where
    pub ordered : IsOrdered site.table
    pub sound : IsSound codec site.table site.held
    pub stood_at : StoodAt codec key site.table s

  -- The new state's append, and the log that it was computed from: all of the anchor's log there was.
  pub record Current (codec : Codec) (key : Text) (fence : Fence) (at : host.Time)
      (observation : Observation) (from to : State) (site' : Site) : Type 0 where
    pub before : Table
    pub log : Log
    pub basis : AnchorState
    pub seq : Seq
    pub read : entries codec before key 0 ≡ done log
    pub is_fold : fold log ≡ some basis
    pub open_then : basis.closed ≡ false
    pub was : basis.state ≡ from
    pub computed : next_state basis observation at ≡ goes to
    pub appended :
        append codec before key (Entry.transition observation to at) fence (head basis.head)
        ≡ done (seq, site'.table)

  -- The others only append.
  abbrev pub OnlyWrite : Codec → (ℕ → Table → Table) → Type 0
  OnlyWrite codec others = (i : ℕ) (t : Table) → FaithfulWriting codec t (others i t)

  module _ (codec : Codec) (others : ℕ → Table → Table) (key : Text) (fence : Fence) where
    module _ (at now : host.Time) (observation : Observation) (run : RunSettings) where
      keeps :
          (only : OnlyWrite codec others) (i : ℕ) (site : Site) (s : AnchorState)
          (held : Checkpoints) (found : Stood)
          → IsCurrent codec key site s
          → stood codec (others (suc i) (others i site.table)) site.held key
            ≡ done (some found, held)
          → IsCurrent codec key
              (next_site codec others key fence at now observation run i site held)
              found.anchor
      keeps only i site s held found c h =
          let later = others (suc i) (others i site.table) in
          let written =
            FaithfulWriting_trans codec (only i site.table) (only (suc i) (others i site.table)) in
          let ordered = FaithfulWriting-IsOrdered codec c.ordered written in
          let sound = FaithfulWriting-IsSound codec site.held c.ordered c.sound written in
          let st = stood-Stands codec later key site.held held (some found) ordered sound h in
          record {
            ordered = ordered;
            sound = st.sound;
            stood_at = record {
              earlier = later;
              ordered = ordered;
              log = st.log;
              read = st.read;
              is_fold = sym st.is_fold;
              since = idle later;
            };
          }

      ends :
          (only : OnlyWrite codec others) (from to : State) (site' : Site) (i : ℕ) (site : Site)
          (s : AnchorState)
          → IsCurrent codec key site s
          → Step codec others key fence at now observation run (others i site.table) s from to site'
          → Current codec key fence at observation from to site'
      ends only from to site' i site s c step =
          let a = c.stood_at in
          let le = fold_within codec a.earlier key a.log s a.ordered a.read a.is_fold in
          record {
            before = others i site.table;
            log = a.log;
            basis = s;
            seq = step.seq;
            read =
                FaithfulWriting_steady codec key a.log a.ordered
                  (FaithfulWriting_trans codec a.since (only i site.table))
                  (omega (arith, le, step.stands)) a.read;
            is_fold = a.is_fold;
            open_then = step.open_then;
            was = step.was;
            computed = step.computed;
            appended = step.appended;
          }

      -- Other writers may append to any logs at any time. Where `recorded`, begun with a state that
      -- the anchor's log had stood at, answers that the anchor moved, then at the append the whole of
      -- the log folded to the state, then open, from which the rules compute the new one: whatever
      -- has been written of the anchor is in what the move was computed from.
      pub recorded-Current :
          (site : Site) (s : AnchorState) (from to : State) (site' : Site)
          → OnlyWrite codec others
          → IsCurrent codec key site s
          → recorded codec others key fence at now observation run site s
            ≡ ran (transitioned from to, site')
          → Current codec key fence at observation from to site'
      unfolding recorded
      recorded-Current site s from to site' only c h =
          recorded_ends codec others key fence at now observation run (IsCurrent codec key)
            (Current codec key fence at observation from to site') from to site' 3 0 site s
            (keeps only) (ends only from to site') c h
