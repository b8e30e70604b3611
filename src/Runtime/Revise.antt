-- ===== src/Runtime/Revise.antt =====
-- crates/gmr-runtime/src/revise.rs: changing an open anchor. `others` is what other writers do to the
-- table between the reading of the log and the append; `evaluator` is EVALUATOR_VERSION.
pub mod Changes
use gmr.Support.{ℕ, List, [], Bool, true, false, not, Option, none, some, if◌then◌else◌}
use gmr.Support.Text.{Text, txt}
use gmr.Json.{Platform, string, bool, Json, is_null}
use gmr.Core.Addr.{Canonical, ok, err}
use gmr.Core.Probe.{declaration_hash}
use gmr.Core.Journal.{
  Seq, Observation, Change, reprobe, retransition, reterminal, restate, Entry, AnchorState,
}
use gmr.Store.Journal.{unleased, head, Stored, done, failed, Table, append}
use gmr.Store.Sealer.{Sealed, seal}
use gmr.Runtime.Errors.{Ran, ran, refused, store, canonical, no_such_anchor, anchor_closed}
use gmr.Runtime.Log.{Stood, Checkpoints, stood}
use gmr.Runtime.Translate.Warnings.{bind_warnings}
use gmr.Runtime.Deployment.{Deployment, Serde, base, set_field, with_table}

pub record Revised : Type 0 where
  pub context : Text
  pub rationale : Text
  pub warnings : List Text
  pub incomparable_state : Bool

module _ ⦃host : Platform⦄ where
  unfoldable pub revising_context : Serde → Text → AnchorState → Text → Json
  unfolding base set_field
  revising_context serde evaluator s declaration =
      set_field (txt "evaluator_version") (string evaluator) (
        set_field (txt "probe_declaration") (string declaration) (
          set_field (txt "latest") (serde.latest_value s.latest)
            (set_field (txt "closed") (bool s.closed) (base serde s))))

  preview_warnings : AnchorState → Change → Option Observation → List Text
  unfolding bind_warnings
  preview_warnings s (retransition transitions) (some latest) =
      bind_warnings (record s.anchor { transitions = transitions }) latest
  preview_warnings s _ _ = []

  unfoldable pub is_incomparable : Change → Json → Bool
  unfolding is_null
  is_incomparable (reprobe probe) state = not (is_null state)
  is_incomparable _ state = false

  module _ (serde : Serde) (evaluator : Text) (others : Table → Table) (key : Text) where
    module _ (change : Change) (rationale : List ℕ) where
      -- The answer, the entry that is appended, and what is sealed for it.
      unfoldable pub revising : host.Time → AnchorState → Text → Sealed → Revised × Entry × Sealed
      unfolding seal revising_context preview_warnings is_incomparable
      revising at s declaration sealed =
          let (context, once) =
            seal (host.to_vec (revising_context serde evaluator s declaration)) sealed in
          let (reason, twice) = seal rationale once in
          let answer : Revised = record {
            context = context;
            rationale = reason;
            warnings = preview_warnings s change s.latest;
            incomparable_state = is_incomparable change s.state;
          } in
          (answer, Entry.revise change context reason at, twice)

      revise_stored : Deployment → Revised → Stored (Seq × Table) → Ran Revised × Deployment
      revise_stored d answer (failed e) = (refused (store e), d)
      revise_stored d answer (done (seq, t)) = (ran answer, with_table d t)

      revise_declared :
          host.Time → Deployment → AnchorState → Canonical Text → Ran Revised × Deployment
      unfolding revise_stored revising append
      revise_declared at d s (err e) = (refused (canonical e), d)
      revise_declared at d s (ok declaration) =
          let (answer, entry, sealed) = revising at s declaration d.sealed in
          let t = others d.site.table in
          revise_stored (with_table (record d { sealed = sealed }) t) answer
            (append serde.codec t key entry unleased (head s.head))

      revise_standing : host.Time → Deployment → AnchorState → Ran Revised × Deployment
      unfolding revise_declared declaration_hash
      revise_standing at d s =
          if s.closed
          then (refused anchor_closed, d)
          else revise_declared at d s (declaration_hash s.anchor.probe)

      revise_stood :
          host.Time → Deployment → Stored (Option Stood × Checkpoints) → Ran Revised × Deployment
      unfolding revise_standing
      revise_stood at d (failed e) = (refused (store e), d)
      revise_stood at d (done (none, held)) =
          (refused no_such_anchor, record d { site = record d.site { held = held } })
      revise_stood at d (done (some found, held)) =
          revise_standing at (record d { site = record d.site { held = held } }) found.anchor

      unfoldable pub revise : host.Time → Deployment → Ran Revised × Deployment
      unfolding revise_stood stood
      revise at d = revise_stood at d (stood serde.codec d.site.table d.site.held key)
