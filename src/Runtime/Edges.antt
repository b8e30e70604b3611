-- ===== src/Runtime/Edges.antt =====
-- crates/gmr-runtime/src/edges.rs, walk: what has happened to an anchor since a cursor.
pub mod Cursors
use gmr.Support.{ℕ, List, [], ◌∷◌, ◌++◌, Bool, true, false, not, ◌&&◌, ◌||◌, Option, ltb, ◌==◌}
use gmr.Support.Text.{Text}
use gmr.Json.{Platform}
use gmr.Core.Anchor.{State, status, empty_state}
use gmr.Core.Journal.{
  Seq, ReasonClass, Entry, transition, attempt, close, time_of, AnchorState, attempts, scan,
}
use gmr.Runtime.Policy.{Policy}

is_unevaluable : ReasonClass → Bool
is_unevaluable ReasonClass.unevaluable = true
is_unevaluable _ = false

module _ ⦃host : Platform⦄ where
  pub data Edge : Type 0 where
    transitioned : Text → State → State → Option Text → Seq → host.Time → Edge
    ended : Text → Bool → Seq → host.Time → Edge
    stalled : Text → ℕ → ReasonClass → Seq → host.Time → Edge

  -- The key that the edges are sorted by.
  unfoldable pub edge_seq : Edge → Seq
  edge_seq (transitioned key from to status seq at) = seq
  edge_seq (ended key self_sealed seq at) = seq
  edge_seq (stalled key count last seq at) = seq

  -- What the closure of `walk` mutates.
  pub record Walked : Type 0 where
    pub was : State
    pub was_closed : Bool
    pub out : List Edge

  unfoldable pub pushed_if : Bool → Edge → List Edge
  pushed_if true e = e ∷ []
  pushed_if false e = []

  is_close_entry : Entry → Bool
  is_close_entry (close context rationale at) = true
  is_close_entry _ = false

  module _ (key : Text) (policy : Policy) where
    unfoldable pub moved_edges : Bool → Seq → Entry → AnchorState → State → List Edge
    unfolding pushed_if status
    moved_edges fresh seq (transition observation state at) now was =
        pushed_if (fresh && not (host.same now.state was))
          (transitioned key was now.state (status now.state) seq at)
    moved_edges fresh seq _ now was = []

    unfoldable pub ended_edges : Bool → Seq → Entry → AnchorState → Bool → List Edge
    unfolding pushed_if is_close_entry time_of
    ended_edges fresh seq entry now was_closed =
        pushed_if (fresh && (now.closed && not was_closed))
          (ended key (not (is_close_entry entry)) seq (time_of entry))

    unfoldable pub stalled_edges : Bool → Seq → Entry → AnchorState → List Edge
    unfolding pushed_if is_unevaluable
    stalled_edges fresh seq (attempt reason code message at) now =
        pushed_if (fresh && (is_unevaluable reason || (attempts now == policy.stalled_attempts)))
          (stalled key (attempts now) reason seq at)
    stalled_edges fresh seq _ now = []

    unfoldable pub pushed : Bool → Seq → Entry → AnchorState → Walked → List Edge
    unfolding moved_edges ended_edges stalled_edges
    pushed fresh seq entry now w =
        moved_edges fresh seq entry now w.was
        ++ (ended_edges fresh seq entry now w.was_closed ++ stalled_edges fresh seq entry now)

    unfoldable pub walk_entry : Seq → Seq → Entry → AnchorState → Walked → Walked
    unfolding pushed
    walk_entry cursor seq entry now w = record {
      was = now.state;
      was_closed = now.closed;
      out = w.out ++ pushed (ltb cursor seq) seq entry now w;
    }

    abbrev pub nothing_walked : Walked
    nothing_walked = record { was = empty_state; was_closed = false; out = [] }

    -- The anchor's present state, and the edges.
    unfoldable pub walk : List (Seq × Entry) → Seq → Option AnchorState × List Edge
    unfolding walk_entry scan
    walk entries cursor =
        let (last, w) = scan (walk_entry cursor) nothing_walked entries in (last, w.out)
