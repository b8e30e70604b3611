-- ===== src/Runtime/Deployment.antt =====
-- crates/gmr-runtime/src/assembly.rs, Runtime: all that an operation reads and writes.
use gmr.Support.{Option, none, some}
use gmr.Support.Text.{Text, txt}
use gmr.Json.{Platform, null, number, object, end, field, Json, insert}
use gmr.Core.Anchor.{RunSettings}
use gmr.Core.Journal.{Observation, AnchorState}
use gmr.Store.Journal.{Table, Codec}
use gmr.Store.Queue.{Queue}
use gmr.Store.Sealer.{Sealed}
use gmr.Runtime.Observe.{Site}

module _ ⦃host : Platform⦄ where
  pub record Deployment : Type 0 where
    pub site : Site
    pub sealed : Sealed
    pub queue : Option Queue
    pub settings : Text → Option RunSettings

  -- What serde makes of the values that the operations write.
  pub record Serde : Type 0 where
    pub codec : Codec
    pub time_value : host.Time → Json
    pub latest_value : Option Observation → Json

  unfoldable pub entered_value : Serde → Option host.Time → Json
  entered_value serde none = null
  entered_value serde (some at) = serde.time_value at

  -- seal_context::base
  unfoldable pub base : Serde → AnchorState → Json
  unfolding entered_value
  base serde s = object (
      field (txt "at_entry") (number (host.from_usize s.head)) (
        field (txt "state") s.state
          (field (txt "entered_at") (entered_value serde s.entered_at) end)))

  -- `context[name] = v`
  unfoldable pub set_field : Text → Json → Json → Json
  unfolding insert
  set_field name v (object fields) = object (insert name v fields)
  set_field name v other = other

  abbrev pub with_table : Deployment → Table → Deployment
  with_table d t = record d { site = record d.site { table = t } }
