-- ===== src/Store/Queue/Leases.antt =====
-- crates/gmr-store/src/sqlite/queue.rs: while one holds a lease, another gets none.
use gmr.Support.{ℕ, ◌<◌, [], ◌∷◌, Bool, if◌then◌else◌}
use gmr.Support.Text.{Text}
use gmr.Store.Queue.{Slot, Queue, is_of, lease, due}

-- The anchor's first row is held until `until`.
unfoldable pub lease_end : Text → Queue → ℕ
lease_end a [] = 0
lease_end a (slot ∷ slots) = if is_of a slot then slot.lease_until else lease_end a slots

-- Between a lease and its end, no other lease of the anchor is given, as long as only leases are
-- asked for: of any anchors, one by one or as those that are due.
pub data Leasing (to : ℕ) : Queue → Queue → Type 0 where
  rests : (q : Queue) → Leasing to q q
  asks :
      {q s : Queue} (anchor : Text) (now until : ℕ)
      → now < to
      → Leasing to (lease anchor now until q).1 s
      → Leasing to q s
  takes_due :
      {q s : Queue} (chosen : Slot → Bool) (now until : ℕ)
      → now < to
      → Leasing to (due chosen now until q).1 s
      → Leasing to q s
