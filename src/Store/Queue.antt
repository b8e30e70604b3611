-- ===== src/Store/Queue.antt =====
-- crates/gmr-store/src/queue.rs and crates/gmr-store/src/sqlite/queue.rs: when each anchor is due,
-- and who holds it. Instants are seconds; what is read of the clock is passed in.
pub mod Keyed
pub mod Epochs
pub mod Leases
pub mod Retired
pub mod Settled
use gmr.Support.{
  ℕ, suc, ◌+◌, ◌-◌, List, [], ◌∷◌, ◌++◌, Bool, true, false, ◌&&◌, not, Option, none, some, any,
  if◌then◌else◌, leb,
}
use gmr.Support.Text.{Text, text_eq}
use gmr.Json.{ℤ, pos, negsuc}
use gmr.Store.Journal.{Fence, held}

-- A row of the table `queue`.
pub record Slot : Type 0 where
  pub anchor : Text
  pub due : ℕ
  pub lease_until : ℕ
  pub epoch : ℕ
  pub parked : Bool

pub record Ticket : Type 0 where
  pub anchor : Text
  pub fence : Fence
  pub lease_until : ℕ

pub data Disposition : Type 0 where
  reschedule : ℤ → Disposition
  backoff : ℤ → Disposition
  retire : Disposition

abbrev pub Queue : Type 0
Queue = List Slot

abbrev pub is_of : Text → Slot → Bool
is_of anchor slot = text_eq slot.anchor anchor

abbrev pub new_slot : Text → ℕ → Slot
new_slot anchor due = record {
  anchor = anchor;
  due = due;
  lease_until = 0;
  epoch = 0;
  parked = false;
}

-- `INSERT … ON CONFLICT(anchor) DO UPDATE`
unfoldable pub enqueue : Text → ℕ → Queue → Queue
enqueue anchor due [] = new_slot anchor due ∷ []
enqueue anchor due (slot ∷ slots) =
    let rest = enqueue anchor due slots in
    if is_of anchor slot
    then record slot { due = due; lease_until = 0; parked = false } ∷ slots
    else slot ∷ rest

-- `INSERT … ON CONFLICT(anchor) DO NOTHING RETURNING anchor`
unfoldable pub ensure_enqueued : Text → ℕ → Queue → Bool × Queue
ensure_enqueued anchor due slots =
    if any (is_of anchor) slots then (false, slots) else (true, slots ++ new_slot anchor due ∷ [])

abbrev pub ticket_of : Slot → ℕ → Ticket
ticket_of slot until = record {
  anchor = slot.anchor;
  fence = held (suc slot.epoch);
  lease_until = until;
}

abbrev pub leased : ℕ → Slot → Slot
leased until slot = record slot { lease_until = until; epoch = suc slot.epoch }

-- `lease`: at `now`, until `until`
unfoldable pub lease : Text → ℕ → ℕ → Queue → Option Ticket × Queue
lease anchor now until [] = (none, [])
lease anchor now until (slot ∷ slots) =
    let rest = lease anchor now until slots in
    if is_of anchor slot
    then (if leb slot.lease_until now
        then (some (ticket_of slot until), leased until slot ∷ slots)
        else (none, slot ∷ slots))
    else (rest.0, slot ∷ rest.1)

abbrev pub is_due : ℕ → Slot → Bool
is_due now slot = not slot.parked && leb slot.due now && leb slot.lease_until now

-- `ORDER BY due LIMIT`, as the anchors that the subquery picks: `chosen` is any choice of them.
unfoldable pub due : (Slot → Bool) → ℕ → ℕ → Queue → List Ticket × Queue
due chosen now until [] = ([], [])
due chosen now until (slot ∷ slots) =
    let rest = due chosen now until slots in
    if is_due now slot && chosen slot
    then (ticket_of slot until ∷ rest.0, leased until slot ∷ rest.1)
    else (rest.0, slot ∷ rest.1)

-- `now` and a Duration of seconds; an instant before 1970 is taken as that of 1970.
abbrev pub due_after : ℕ → ℤ → ℕ
due_after now (pos n) = now + n
due_after now (negsuc n) = now - suc n

dispose : Disposition → ℕ → Slot → Slot
dispose retire now slot = record slot { parked = true; lease_until = 0 }
dispose (reschedule after_secs) now slot = record slot {
  due = due_after now after_secs;
  lease_until = 0;
}
dispose (backoff after_secs) now slot = record slot {
  due = due_after now after_secs;
  lease_until = 0;
}

unfoldable pub settle : Ticket → Disposition → ℕ → Queue → Queue
unfolding dispose
settle ticket disposition now [] = []
settle ticket disposition now (slot ∷ slots) =
    let rest = settle ticket disposition now slots in
    if is_of ticket.anchor slot then dispose disposition now slot ∷ rest else slot ∷ rest
