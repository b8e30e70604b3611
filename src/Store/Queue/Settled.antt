-- ===== src/Store/Queue/Settled.antt =====
-- crates/gmr-store/src/sqlite/queue.rs, settle: what is settled is leased no more.
use gmr.Support.{ℕ, [], ◌∷◌, none, some, leb, ◌≡◌, refl, ap, sym, ◌∙◌, arith, Bool-cases, inl, inr}
use gmr.Support.Text.{Text, text_eq_iff}
use gmr.Store.Queue.{Ticket, Disposition, retire, reschedule, backoff, Queue, is_of, lease, settle}
use gmr.Store.Queue.Leases.{lease_end}

pub settle-released :
    (ticket : Ticket) (disposition : Disposition) (now : ℕ) (q : Queue)
    → lease_end ticket.anchor (settle ticket disposition now q) ≡ 0
unfolding settle lease_end
settle-released ticket d now [] = refl
settle-released ticket retire now (slot ∷ q) = ground (arith, settle-released ticket retire now q)
settle-released ticket (reschedule n) now (slot ∷ q) =
    ground (arith, settle-released ticket (reschedule n) now q)
settle-released ticket (backoff n) now (slot ∷ q) =
    ground (arith, settle-released ticket (backoff n) now q)

pub settle-keeps_released :
    (a : Text) (ticket : Ticket) (d : Disposition) (now : ℕ) (q : Queue)
    → lease_end a q ≡ 0
    → lease_end a (settle ticket d now q) ≡ 0
unfolding settle lease_end
settle-keeps_released a ticket d now [] h = refl
settle-keeps_released a ticket retire now (slot ∷ q) h =
    ground (arith, settle-keeps_released a ticket retire now q)
settle-keeps_released a ticket (reschedule n) now (slot ∷ q) h =
    ground (arith, settle-keeps_released a ticket (reschedule n) now q)
settle-keeps_released a ticket (backoff n) now (slot ∷ q) h =
    ground (arith, settle-keeps_released a ticket (backoff n) now q)

-- A lease that is not given leaves the queue.
pub lease-none :
    (a : Text) (now until : ℕ) (q : Queue)
    → (lease a now until q).0 ≡ none
    → (lease a now until q).1 ≡ q
unfolding lease
lease-none a now until [] h = refl
lease-none a now until (slot ∷ q) h = elim (Bool-cases (is_of a slot)) [
  | inl e ↦ elim (Bool-cases (leb slot.lease_until now)) [
    | inl l ↦ let k = rw (lease, e, l) at h in cc
    | inr l ↦ rw (lease, e, l) refl
  ]
  | inr e ↦
      let rest = lease-none a now until q (rw (lease, e) at h) in
      rw (lease, e) (ap (λ (x : Queue). slot ∷ x) rest)
]

pub lease-anchor :
    (a : Text) (now until : ℕ) (q : Queue) (ticket : Ticket)
    → (lease a now until q).0 ≡ some ticket
    → ticket.anchor ≡ a
unfolding lease
lease-anchor a now until [] ticket h = cc
lease-anchor a now until (slot ∷ q) ticket h = elim (Bool-cases (is_of a slot)) [
  | inl e ↦ elim (Bool-cases (leb slot.lease_until now)) [
    | inl l ↦
        let k = rw (lease, e, l) at h in
        let same : slot.anchor ≡ ticket.anchor = cc in sym same ∙ (text_eq_iff slot.anchor a).0 e
    | inr l ↦ let k = rw (lease, e, l) at h in cc
  ]
  | inr e ↦ lease-anchor a now until q ticket (rw (lease, e) at h)
]
