-- ===== src/Runtime/Shown.antt =====
-- crates/gmr-runtime/src/read.rs, shown_at: whether what was said to be seen stands in the log.
pub mod Recorded
use gmr.Support.{ℕ, List, [], ◌∷◌, Bool, true, false, Option, none, some, if◌then◌else◌}
use gmr.Support.Text.{Text, text_eq}
use gmr.Json.{Platform}
use gmr.Core.Probe.{contains}
use gmr.Core.Journal.{Seq, Entry, opened, transition, Observation, AnchorState}
use gmr.Store.Journal.{Stored, done, failed, ◌>>=◌, Table, Codec, entries}
use gmr.Runtime.Holding.{folded_at}

pub data Shown : Type 0 where
  seen superseded : Seq → Shown
  unseen not_said : Shown

-- Shown::is_seen
unfoldable pub is_seen : Shown → Bool
is_seen (Shown.seen at) = true
is_seen _ = false

abbrev pub Taken : Type 0
Taken = List (Seq × Text)

-- `find`: the number of the first that has the address
unfoldable pub first_with : Text → Taken → Option Seq
first_with current [] = none
first_with current ((at, address) ∷ taken) =
    let rest = first_with current taken in if text_eq address current then some at else rest

-- `last`, with the first of them before the others
unfoldable pub last_of : Seq → Taken → Seq
last_of at [] = at
last_of at ((next, address) ∷ taken) = last_of next taken

unfoldable pub found_as : Seq → Taken → Option Seq → Shown
unfolding last_of
found_as first taken (some at) = Shown.seen at
found_as first taken none = Shown.superseded (last_of first taken)

-- What is answered, by what was showing.
unfoldable pub shown_as : Taken → Option Text → Shown
unfolding found_as first_with
shown_as [] showing = Shown.unseen
shown_as ((first, address) ∷ taken) none = Shown.seen first
shown_as ((first, address) ∷ taken) (some current) =
    found_as first taken (first_with current ((first, address) ∷ taken))

module _ ⦃host : Platform⦄ where
  -- The address that an entry records.
  unfoldable pub address_of : Entry → Option Text
  address_of (opened anchor observation state at) = some observation.fact_address
  address_of (transition observation state at) = some observation.fact_address
  address_of _ = none

  with_address : List Text → Seq → Option Text → Taken → Taken
  unfolding contains
  with_address saw at none taken = taken
  with_address saw at (some address) taken =
      if contains saw address then (at, address) ∷ taken else taken

  unfoldable pub taken_in : List Text → List (Seq × Entry) → Taken
  unfolding address_of with_address
  taken_in saw [] = []
  taken_in saw ((at, e) ∷ es) = with_address saw at (address_of e) (taken_in saw es)

  address_at : Option Observation → Option Text
  address_at none = none
  address_at (some o) = some o.fact_address

  address_stood : Option AnchorState → Option Text
  unfolding address_at
  address_stood none = none
  address_stood (some s) = address_at s.latest

  or_now : Option Text → Option Text → Option Text
  or_now none now = now
  or_now (some address) now = some address

  -- What was showing at the binding, or else shows now.
  unfoldable pub showing : List (Seq × Entry) → Option Seq → Option Text → Option Text
  unfolding address_stood or_now folded_at
  showing es none now = now
  showing es (some bound) now = or_now (address_stood (folded_at es bound)) now

  unfoldable pub recorded_at : List (Seq × Entry) → List Text → Option Seq → Option Text → Shown
  unfolding taken_in shown_as showing
  recorded_at es saw bound now = shown_as (taken_in saw es) (showing es bound now)

  unfoldable pub shown_at :
      Codec → Table → Text → List Text → Option Seq → Option Text → Stored Shown
  unfolding recorded_at entries
  shown_at codec t key [] bound now = done Shown.not_said
  shown_at codec t key (a ∷ saw) bound now =
      entries codec t key 0 >>= λ es. done (recorded_at es (a ∷ saw) bound now)
