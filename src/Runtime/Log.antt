-- ===== src/Runtime/Log.antt =====
-- crates/gmr-runtime/src/log.rs: an anchor's log, folded from the last checkpoint on.
pub mod Checkpoint
pub mod Sound
pub mod Entered
use gmr.Support.{ℕ, zero, suc, ◌+◌, List, Bool, Option, none, some, if◌then◌else◌}
use gmr.Support.Text.{Text, text_eq}
use gmr.Json.{Platform}
use gmr.Core.Journal.{Seq, Entry, AnchorState, is_sighting, resume}
use gmr.Store.Journal.{Stored, done, failed, ◌>>=◌, Table, Codec, entries}

pub record Stood ⦃host : Platform⦄ : Type 0 where
  pub anchor : AnchorState
  pub logged : ℕ

module _ ⦃host : Platform⦄ where
  abbrev pub Checkpoints : Type 0
  Checkpoints = Text → Option Stood

  -- `AnchorLog::new`
  abbrev pub no_checkpoint : Checkpoints
  no_checkpoint key = none

  -- The closure that `stood` hands to `resume`.
  unfoldable pub sightings : Seq → Entry → AnchorState → ℕ → ℕ
  sightings seq entry s logged = if is_sighting entry then logged + 1 else logged

  abbrev pub from_of : Option Stood → Seq
  from_of none = 0
  from_of (some h) = h.anchor.head + 1

  abbrev pub seed_of : Option Stood → Option AnchorState
  seed_of none = none
  seed_of (some h) = some h.anchor

  abbrev pub logged_of : Option Stood → ℕ
  logged_of none = 0
  logged_of (some h) = h.logged

  abbrev pub stood_of : Option AnchorState × ℕ → Option Stood
  stood_of (none, logged) = none
  stood_of (some s, logged) = some (record { anchor = s; logged = logged })

  -- What `stood` finds, with what the checkpoint held.
  unfoldable pub stood_from : Codec → Table → Text → Option Stood → Stored (Option Stood)
  unfolding sightings
  stood_from codec t key held = entries codec t key (from_of held) >>= λ es.
      done (stood_of (resume sightings (seed_of held) (logged_of held) es))

  kept : Checkpoints → Text → Option Stood → Checkpoints
  kept held key none k = held k
  kept held key (some s) k = if text_eq k key then some s else held k

  unfoldable pub stood : Codec → Table → Checkpoints → Text → Stored (Option Stood × Checkpoints)
  unfolding stood_from kept
  stood codec t held key =
      stood_from codec t key (held key) >>= λ found. done (found, kept held key found)
