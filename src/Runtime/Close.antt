-- ===== src/Runtime/Close.antt =====
-- crates/gmr-runtime/src/close.rs: finishing an anchor. `others` is what other writers do to the table
-- between the reading of the log and the append.
pub mod Final
use gmr.Support.{ℕ, List, Bool, true, false, Option, none, some, if◌then◌else◌}
use gmr.Support.Text.{Text, txt}
use gmr.Json.{Platform, string, bool, Json}
use gmr.Core.Journal.{Seq, Entry, AnchorState}
use gmr.Store.Journal.{unleased, head, Stored, done, failed, Table, append}
use gmr.Store.Sealer.{Sealed, seal}
use gmr.Runtime.Errors.{Ran, ran, refused, store, no_such_anchor, anchor_closed}
use gmr.Runtime.Log.{Stood, Checkpoints, stood}
use gmr.Runtime.Deployment.{Deployment, Serde, base, set_field, with_table}

module _ ⦃host : Platform⦄ where
  unfoldable pub closing_context : Serde → AnchorState → Json
  unfolding base set_field
  closing_context serde s = set_field (txt "closed_by") (string (txt "author")) (base serde s)

  module _ (serde : Serde) (others : Table → Table) (key : Text) (rationale : List ℕ) where
    close_stored : Deployment → Stored (Seq × Table) → Ran (Unit {0}) × Deployment
    close_stored d (failed e) = (refused (store e), d)
    close_stored d (done (seq, t)) = (ran tt, with_table d t)

    -- The entry that closes the anchor, and what is sealed for it.
    unfoldable pub closing : host.Time → AnchorState → Sealed → Entry × Sealed
    unfolding seal closing_context
    closing at s sealed =
        let (context, once) = seal (host.to_vec (closing_context serde s)) sealed in
        let (reason, twice) = seal rationale once in (Entry.close context reason at, twice)

    close_standing : host.Time → Deployment → AnchorState → Ran (Unit {0}) × Deployment
    unfolding close_stored closing append
    close_standing at d s =
        let (entry, sealed) = closing at s d.sealed in
        let t = others d.site.table in
        if s.closed
        then (refused anchor_closed, d)
        else close_stored (with_table (record d { sealed = sealed }) t)
            (append serde.codec t key entry unleased (head s.head))

    close_stood :
        host.Time → Deployment → Stored (Option Stood × Checkpoints) → Ran (Unit {0}) × Deployment
    unfolding close_standing
    close_stood at d (failed e) = (refused (store e), d)
    close_stood at d (done (none, held)) =
        (refused no_such_anchor, record d { site = record d.site { held = held } })
    close_stood at d (done (some found, held)) =
        close_standing at (record d { site = record d.site { held = held } }) found.anchor

    unfoldable pub close : host.Time → Deployment → Ran (Unit {0}) × Deployment
    unfolding close_stood stood
    close at d = close_stood at d (stood serde.codec d.site.table d.site.held key)
