-- ===== src/Store/Queue/Epochs.antt =====
-- crates/gmr-store/src/sqlite/queue.rs: the tokens that the queue issues only grow.
use gmr.Support.{
  List, true, false, ◌⊎◌, ◌∙◌, ◌&&◌, ℕ, suc, ◌≤◌, ◌<◌, [], ◌∷◌, ◌++◌, Bool, some, if◌then◌else◌,
  leb, ◌≡◌, refl, ap, sym, arith, Bool-cases, inl, inr,
}
use gmr.Support.Text.{Text, text_eq, text_eq_refl, eq_of_text_eq}
use gmr.Store.Journal.{epoch_of}
use gmr.Store.Queue.{
  Slot, Ticket, Disposition, reschedule, backoff, retire, Queue, is_of, new_slot, enqueue,
  ensure_enqueued, ticket_of, lease, due, is_due, dispose, settle,
}
use gmr.Store.Queue.Keyed.{
  IsKeyed, has_row, lease-IsKeyed, due-IsKeyed, settle-IsKeyed, enqueue-IsKeyed, ensure-IsKeyed,
}

-- The epoch of the anchor's row; 0 where it has none.
unfoldable pub epoch : Text → Queue → ℕ
epoch anchor [] = 0
epoch anchor (slot ∷ slots) = if is_of anchor slot then slot.epoch else epoch anchor slots

-- Everything that the queue does.
pub data Step : Queue → Queue → Type 0 where
  step_enqueue : (anchor : Text) (at : ℕ) (q : Queue) → Step q (enqueue anchor at q)
  step_ensure : (anchor : Text) (at : ℕ) (q : Queue) → Step q (ensure_enqueued anchor at q).1
  step_lease : (anchor : Text) (now until : ℕ) (q : Queue) → Step q (lease anchor now until q).1
  step_due : (chosen : Slot → Bool) (now until : ℕ) (q : Queue) → Step q (due chosen now until q).1
  step_settle :
      (ticket : Ticket) (disposition : Disposition) (now : ℕ) (q : Queue)
      → Step q (settle ticket disposition now q)

pub data Steps : Queue → Queue → Type 0 where
  stay : (q : Queue) → Steps q q
  go : {q r s : Queue} → Step q r → Steps r s → Steps q s

epoch-enqueue : (a anchor : Text) (at : ℕ) (q : Queue) → epoch a q ≤ epoch a (enqueue anchor at q)
unfolding epoch enqueue
epoch-enqueue a anchor at [] = omega arith
epoch-enqueue a anchor at (slot ∷ slots) = ground (arith, epoch-enqueue a anchor at slots)

epoch-snoc : (a : Text) (q : Queue) (slot : Slot) → epoch a q ≤ epoch a (q ++ slot ∷ [])
unfolding epoch
epoch-snoc a [] slot = omega arith
epoch-snoc a (s ∷ q) slot = ground (arith, epoch-snoc a q slot)

epoch-ensure :
    (a anchor : Text) (at : ℕ) (q : Queue) → epoch a q ≤ epoch a (ensure_enqueued anchor at q).1
unfolding ensure_enqueued
epoch-ensure a anchor at q = ground (arith, epoch-snoc a q (new_slot anchor at))

epoch-lease :
    (a anchor : Text) (now until : ℕ) (q : Queue) → epoch a q ≤ epoch a (lease anchor now until q).1
unfolding epoch lease
epoch-lease a anchor now until [] = omega arith
epoch-lease a anchor now until (slot ∷ slots) = ground (arith, epoch-lease a anchor now until slots)

epoch-due :
    (a : Text) (chosen : Slot → Bool) (now until : ℕ) (q : Queue)
    → epoch a q ≤ epoch a (due chosen now until q).1
unfolding epoch due
epoch-due a chosen now until [] = omega arith
epoch-due a chosen now until (slot ∷ slots) = ground (arith, epoch-due a chosen now until slots)

epoch-settle :
    (a : Text) (ticket : Ticket) (disposition : Disposition) (now : ℕ) (q : Queue)
    → epoch a q ≤ epoch a (settle ticket disposition now q)
unfolding epoch settle dispose
epoch-settle a ticket disposition now [] = omega arith
epoch-settle a ticket retire now (slot ∷ slots) =
    ground (arith, epoch-settle a ticket retire now slots)
epoch-settle a ticket (reschedule n) now (slot ∷ slots) =
    ground (arith, epoch-settle a ticket (reschedule n) now slots)
epoch-settle a ticket (backoff n) now (slot ∷ slots) =
    ground (arith, epoch-settle a ticket (backoff n) now slots)

epoch-Step : (a : Text) {q r : Queue} → Step q r → epoch a q ≤ epoch a r
epoch-Step a (step_enqueue anchor at q) = epoch-enqueue a anchor at q
epoch-Step a (step_ensure anchor at q) = epoch-ensure a anchor at q
epoch-Step a (step_lease anchor now until q) = epoch-lease a anchor now until q
epoch-Step a (step_due chosen now until q) = epoch-due a chosen now until q
epoch-Step a (step_settle ticket disposition now q) = epoch-settle a ticket disposition now q

epoch-Steps : (a : Text) {q r : Queue} → Steps q r → epoch a q ≤ epoch a r
epoch-Steps a (stay q) = omega arith
epoch-Steps a (go s steps) = omega (arith, epoch-Step a s, epoch-Steps a steps)

-- A lease hands out the row's next epoch, and the row keeps it.
lease-epoch :
    (a : Text) (now until : ℕ) (q : Queue) (ticket : Ticket)
    → (lease a now until q).0 ≡ some ticket
    → (epoch_of ticket.fence ≡ suc (epoch a q))
      × (epoch a (lease a now until q).1 ≡ suc (epoch a q))
unfolding epoch lease epoch_of
lease-epoch a now until [] ticket h = cc
lease-epoch a now until (slot ∷ slots) ticket h = elim (Bool-cases (is_of a slot)) [
  | inl e ↦ elim (Bool-cases (leb slot.lease_until now)) [
    | inl l ↦
        let k : some (ticket_of slot until) ≡ some ticket = rw (e, l, lease) at h in
        let same : ticket_of slot until ≡ ticket = cc in
        (
          rw (e, epoch) (ap (λ (t : Ticket). epoch_of t.fence) (sym same)),
          rw (e, l, lease, epoch, e) refl,
        )
    | inr l ↦ let k = rw (e, l, lease) at h in cc
  ]
  | inr e ↦
      let (first, second) = lease-epoch a now until slots ticket (rw (e, lease) at h) in
      (rw (e, epoch) first, rw (e, lease, epoch, e) second)
]

abbrev pub Among : Ticket → List Ticket → Type 0
Among ticket [] = ⊥
Among ticket (t ∷ tickets) = (t ≡ ticket) ⊎ Among ticket tickets

-- The queue gives a ticket for the anchor: asked for this one, or among those that are due.
pub data Grants (a : Text) (ticket : Ticket) : Queue → Queue → Type 0 where
  by_lease :
      (now until : ℕ) (q : Queue)
      → (lease a now until q).0 ≡ some ticket
      → Grants a ticket q (lease a now until q).1
  by_due :
      (chosen : Slot → Bool) (now until : ℕ) (q : Queue)
      → ticket.anchor ≡ a
      → Among ticket (due chosen now until q).0
      → Grants a ticket q (due chosen now until q).1

due-has_row :
    (a : Text) (chosen : Slot → Bool) (now until : ℕ) (q : Queue) (ticket : Ticket)
    → ticket.anchor ≡ a
    → Among ticket (due chosen now until q).0
    → has_row a q ≡ true
unfolding due
due-has_row a chosen now until [] ticket at h = absurd h
due-has_row a chosen now until (slot ∷ slots) ticket at h = elim (Bool-cases (is_of a slot)) [
  | inl f ↦ rw f refl
  | inr f ↦ elim (Bool-cases (is_due now slot && chosen slot)) [
    | inr e ↦ rw f (due-has_row a chosen now until slots ticket at (rw (due, e) at h))
    | inl e ↦ elim (rw (due, e) at h) [
      | inr later ↦ rw f (due-has_row a chosen now until slots ticket at later)
      | inl same ↦
          let is : is_of a slot ≡ true =
            ap (λ (t : Ticket). text_eq t.anchor a) same
            ∙ (ap (λ (x : Text). text_eq x a) at ∙ text_eq_refl a) in
          cc
    ]
  ]
]

-- Where the anchor has one row, a ticket that is among the due ones has its next epoch, and the row
-- keeps it.
due-epoch :
    (a : Text) (chosen : Slot → Bool) (now until : ℕ) (q : Queue) (ticket : Ticket)
    → IsKeyed q
    → ticket.anchor ≡ a
    → Among ticket (due chosen now until q).0
    → (epoch_of ticket.fence ≡ suc (epoch a q))
      × (epoch a (due chosen now until q).1 ≡ suc (epoch a q))
unfolding epoch due epoch_of IsKeyed
due-epoch a chosen now until [] ticket key at h = absurd h
due-epoch a chosen now until (slot ∷ slots) ticket key at h =
    elim (Bool-cases (is_due now slot && chosen slot)) [
      | inr e ↦ elim (Bool-cases (is_of a slot)) [
        | inr f ↦
            let (x, y) = due-epoch a chosen now until slots ticket key.1 at (rw (due, e) at h) in
            (rw (f, epoch) x, rw (due, e, epoch, f) y)
        | inl f ↦
            let row = due-has_row a chosen now until slots ticket at (rw (due, e) at h) in
            let none_left : has_row a slots ≡ false =
              ap (λ (x : Text). has_row x slots) (sym (eq_of_text_eq slot.anchor a f)) ∙ key.0 in
            cc
      ]
      | inl e ↦ elim (rw (due, e) at h) [
        | inr later ↦ elim (Bool-cases (is_of a slot)) [
          | inr f ↦
              let (x, y) = due-epoch a chosen now until slots ticket key.1 at later in
              (rw (f, epoch) x, rw (due, e, epoch, f) y)
          | inl f ↦
              let row = due-has_row a chosen now until slots ticket at later in
              let none_left : has_row a slots ≡ false =
                ap (λ (x : Text). has_row x slots) (sym (eq_of_text_eq slot.anchor a f)) ∙ key.0 in
              cc
        ]
        | inl same ↦
            let is : is_of a slot ≡ true =
              ap (λ (t : Ticket). text_eq t.anchor a) same
              ∙ (ap (λ (x : Text). text_eq x a) at ∙ text_eq_refl a) in
            (
              rw (is, epoch) (ap (λ (t : Ticket). epoch_of t.fence) (sym same)),
              rw (due, e, epoch, is) refl,
            )
      ]
    ]

Grants-epoch :
    (a : Text) (ticket : Ticket) {q r : Queue}
    → IsKeyed q
    → Grants a ticket q r
    → (epoch_of ticket.fence ≡ suc (epoch a q)) × (epoch a r ≡ suc (epoch a q))
Grants-epoch a ticket key (by_lease now until q h) = lease-epoch a now until q ticket h
Grants-epoch a ticket key (by_due chosen now until q at h) =
    due-epoch a chosen now until q ticket key at h

Step-IsKeyed : {q r : Queue} → IsKeyed q → Step q r → IsKeyed r
Step-IsKeyed k (step_enqueue anchor at q) = enqueue-IsKeyed anchor at q k
Step-IsKeyed k (step_ensure anchor at q) = ensure-IsKeyed anchor at q k
Step-IsKeyed k (step_lease anchor now until q) = lease-IsKeyed anchor now until q k
Step-IsKeyed k (step_due chosen now until q) = due-IsKeyed chosen now until q k
Step-IsKeyed k (step_settle ticket d now q) = settle-IsKeyed ticket d now q k

Steps-IsKeyed : {q r : Queue} → IsKeyed q → Steps q r → IsKeyed r
Steps-IsKeyed k (stay q) = k
Steps-IsKeyed k (go s steps) = Steps-IsKeyed (Step-IsKeyed k s) steps

Grants-IsKeyed :
    (a : Text) (ticket : Ticket) {q r : Queue} → IsKeyed q → Grants a ticket q r → IsKeyed r
Grants-IsKeyed a ticket k (by_lease now until q h) = lease-IsKeyed a now until q k
Grants-IsKeyed a ticket k (by_due chosen now until q at h) = due-IsKeyed chosen now until q k

-- Of two tickets that the queue gives for an anchor, each asked for by itself or among those that are
-- due, the later carries the greater token, whatever happens to the queue in between; the anchor being
-- the key of the table.
pub leases_grow :
    (a : Text) (first second : Ticket) (p q r s : Queue)
    → IsKeyed p
    → Grants a first p q
    → Steps q r
    → Grants a second r s
    → epoch_of first.fence < epoch_of second.fence
leases_grow a first second p q r s key one steps two =
    let (issued, kept) = Grants-epoch a first key one in
    let (next, _) =
      Grants-epoch a second (Steps-IsKeyed (Grants-IsKeyed a first key one) steps) two in
    omega (arith, epoch-Steps a steps, issued, kept, next)
