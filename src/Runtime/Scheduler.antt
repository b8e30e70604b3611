-- ===== src/Runtime/Scheduler.antt =====
-- crates/gmr-runtime/src/scheduler.rs: the queue, if there is one, and the settings of each anchor.
use gmr.Support.{ℕ, ◌+◌, List, Bool, true, false, Option, none, some, get_or_else, if◌then◌else◌}
use gmr.Support.Text.{Text, text_eq}
use gmr.Core.Anchor.{RunSettings, tick, plain}
use gmr.Store.Queue.{Slot, Ticket, Disposition, Queue, enqueue, ensure_enqueued, due, lease, settle}
use gmr.Json.{ℤ}
use gmr.Runtime.Errors.{Ran, ran, refused, no_queue}
use gmr.Runtime.Policy.{Policy, as_i64}

-- RunSettings::default
abbrev pub default_settings : RunSettings
default_settings = record { retain = tick; facts = plain; cadence_secs = none; budget_ms = none }

abbrev pub Settings : Type 0
Settings = Text → Option RunSettings

-- Scheduler::settings_for
unfoldable pub settings_for : Settings → Text → RunSettings
settings_for settings anchor = get_or_else (settings anchor) default_settings

-- Scheduler::set_settings
unfoldable pub set_settings : Text → RunSettings → Settings → Settings
set_settings anchor given settings k = if text_eq k anchor then some given else settings k

-- Scheduler::budget_for
unfoldable pub budget_for : Settings → Text → Option ℕ
unfolding settings_for
budget_for settings anchor = (settings_for settings anchor).budget_ms

-- Scheduler::cadence_for
unfoldable pub cadence_for : Policy → Settings → Text → ℤ
unfolding settings_for as_i64
cadence_for policy settings anchor =
    as_i64 (get_or_else (settings_for settings anchor).cadence_secs policy.cadence_secs)

unfoldable pub leases_configured : Option Queue → Bool
leases_configured none = false
leases_configured (some queue) = true

-- Scheduler::ensure_enqueued
unfoldable pub schedule_if_absent : Text → ℕ → Option Queue → Bool × Option Queue
unfolding ensure_enqueued
schedule_if_absent anchor at none = (false, none)
schedule_if_absent anchor at (some queue) =
    let (added, queue') = ensure_enqueued anchor at queue in (added, some queue')

unfoldable pub requeue_now : Text → ℕ → Option Queue → Bool × Option Queue
unfolding enqueue
requeue_now anchor at none = (false, none)
requeue_now anchor at (some queue) = (true, some (enqueue anchor at queue))

-- Scheduler::due, Scheduler::lease and Scheduler::settle, for a lease of so many seconds
unfoldable pub due_now : (Slot → Bool) → ℕ → ℕ → Option Queue → Ran (List Ticket × Queue)
unfolding due
due_now chosen now secs none = refused no_queue
due_now chosen now secs (some queue) = ran (due chosen now (now + secs) queue)

unfoldable pub lease_now : Text → ℕ → ℕ → Option Queue → Ran (Option Ticket × Queue)
unfolding lease
lease_now anchor now secs none = refused no_queue
lease_now anchor now secs (some queue) = ran (lease anchor now (now + secs) queue)

unfoldable pub settle_now : Ticket → Disposition → ℕ → Option Queue → Ran Queue
unfolding settle
settle_now ticket disposition now none = refused no_queue
settle_now ticket disposition now (some queue) = ran (settle ticket disposition now queue)
