-- ===== src/Store/Queue/Keyed.antt =====
-- crates/gmr-store/src/sqlite/queue.rs: the anchor is the table's primary key, and every operation
-- keeps it one.
use gmr.Support.{
  ℕ, [], ◌∷◌, ◌++◌, Bool, true, false, ◌||◌, ◌&&◌, any, leb, ◌≡◌, refl, ap, ◌∙◌, Bool-cases, inl,
  inr,
}
use gmr.Support.Text.{Text, text_eq, text_eq_refl, eq_of_text_eq}
use gmr.Store.Queue.{
  Slot, Ticket, Disposition, reschedule, backoff, retire, Queue, is_of, new_slot, enqueue,
  ensure_enqueued, lease, due, is_due, dispose, settle,
}

abbrev pub has_row : Text → Queue → Bool
has_row a q = any (is_of a) q

-- No anchor has two rows.
unfoldable pub IsKeyed : Queue → Type 0
IsKeyed [] = Unit
IsKeyed (slot ∷ slots) = (has_row slot.anchor slots ≡ false) × IsKeyed slots

text_ne_sym : (s t : Text) → text_eq s t ≡ false → text_eq t s ≡ false
text_ne_sym s t h = elim (Bool-cases (text_eq t s)) [
  | inr q ↦ q
  | inl q ↦
      let same : text_eq s t ≡ true =
        ap (λ (x : Text). text_eq s x) (eq_of_text_eq t s q) ∙ text_eq_refl s in
      cc
]

has_row-lease :
    (a anchor : Text) (now until : ℕ) (q : Queue)
    → has_row a (lease anchor now until q).1 ≡ has_row a q
unfolding lease
has_row-lease a anchor now until [] = refl
has_row-lease a anchor now until (slot ∷ slots) = elim (Bool-cases (is_of anchor slot)) [
  | inr e ↦ rw (lease, e) (ap (λ b. is_of a slot || b) (has_row-lease a anchor now until slots))
  | inl e ↦ elim (Bool-cases (leb slot.lease_until now)) [
    | inl l ↦ rw (lease, e, l) refl
    | inr l ↦ rw (lease, e, l) refl
  ]
]

has_row-due :
    (a : Text) (chosen : Slot → Bool) (now until : ℕ) (q : Queue)
    → has_row a (due chosen now until q).1 ≡ has_row a q
unfolding due
has_row-due a chosen now until [] = refl
has_row-due a chosen now until (slot ∷ slots) = elim (Bool-cases (is_due now slot && chosen slot)) [
  | inl e ↦ rw (due, e) (ap (λ b. is_of a slot || b) (has_row-due a chosen now until slots))
  | inr e ↦ rw (due, e) (ap (λ b. is_of a slot || b) (has_row-due a chosen now until slots))
]

has_row-dispose :
    (a : Text) (d : Disposition) (now : ℕ) (slot : Slot) (slots : Queue)
    → has_row a (dispose d now slot ∷ slots) ≡ has_row a (slot ∷ slots)
unfolding dispose
has_row-dispose a retire now slot slots = refl
has_row-dispose a (reschedule n) now slot slots = refl
has_row-dispose a (backoff n) now slot slots = refl

has_row-settle :
    (a : Text) (ticket : Ticket) (d : Disposition) (now : ℕ) (q : Queue)
    → has_row a (settle ticket d now q) ≡ has_row a q
unfolding settle
has_row-settle a ticket d now [] = refl
has_row-settle a ticket d now (slot ∷ slots) =
    let rest = ap (λ b. is_of a slot || b) (has_row-settle a ticket d now slots) in
    elim (Bool-cases (is_of ticket.anchor slot)) [
      | inl e ↦ rw (settle, e) (has_row-dispose a d now slot (settle ticket d now slots) ∙ rest)
      | inr e ↦ rw (settle, e) rest
    ]

has_row-enqueue :
    (a anchor : Text) (at : ℕ) (q : Queue)
    → text_eq a anchor ≡ false
    → has_row a q ≡ false
    → has_row a (enqueue anchor at q) ≡ false
unfolding enqueue
has_row-enqueue a anchor at [] ne h = rw (text_ne_sym a anchor ne) refl
has_row-enqueue a anchor at (slot ∷ slots) ne h = elim (Bool-cases (is_of a slot)) [
  | inl e ↦ let k = rw e at h in cc
  | inr e ↦ elim (Bool-cases (is_of anchor slot)) [
    | inl f ↦ rw (enqueue, f) h
    | inr f ↦ rw (enqueue, f, e) (has_row-enqueue a anchor at slots ne (rw e at h))
  ]
]

has_row-snoc :
    (a anchor : Text) (at : ℕ) (q : Queue)
    → text_eq a anchor ≡ false
    → has_row a q ≡ false
    → has_row a (q ++ new_slot anchor at ∷ []) ≡ false
has_row-snoc a anchor at [] ne h = rw (text_ne_sym a anchor ne) refl
has_row-snoc a anchor at (slot ∷ slots) ne h = elim (Bool-cases (is_of a slot)) [
  | inl e ↦ let k = rw e at h in cc
  | inr e ↦ rw e (has_row-snoc a anchor at slots ne (rw e at h))
]

pub lease-IsKeyed :
    (anchor : Text) (now until : ℕ) (q : Queue) → IsKeyed q → IsKeyed (lease anchor now until q).1
unfolding lease IsKeyed
lease-IsKeyed anchor now until [] h = tt
lease-IsKeyed anchor now until (slot ∷ slots) h = elim (Bool-cases (is_of anchor slot)) [
  | inr e ↦
      rw (lease, e)
        (
          has_row-lease slot.anchor anchor now until slots ∙ h.0,
          lease-IsKeyed anchor now until slots h.1,
        )
  | inl e ↦ elim (Bool-cases (leb slot.lease_until now)) [
    | inl l ↦ rw (lease, e, l) h
    | inr l ↦ rw (lease, e, l) h
  ]
]

pub due-IsKeyed :
    (chosen : Slot → Bool) (now until : ℕ) (q : Queue)
    → IsKeyed q
    → IsKeyed (due chosen now until q).1
unfolding due IsKeyed
due-IsKeyed chosen now until [] h = tt
due-IsKeyed chosen now until (slot ∷ slots) h =
    let both : IsKeyed (slot ∷ (due chosen now until slots).1) = (
      has_row-due slot.anchor chosen now until slots ∙ h.0,
      due-IsKeyed chosen now until slots h.1,
    ) in
    elim (Bool-cases (is_due now slot && chosen slot)) [
      | inl e ↦ rw (due, e) both
      | inr e ↦ rw (due, e) both
    ]

dispose-IsKeyed :
    (d : Disposition) (now : ℕ) (slot : Slot) (slots : Queue)
    → IsKeyed (slot ∷ slots)
    → IsKeyed (dispose d now slot ∷ slots)
unfolding dispose IsKeyed
dispose-IsKeyed retire now slot slots h = h
dispose-IsKeyed (reschedule n) now slot slots h = h
dispose-IsKeyed (backoff n) now slot slots h = h

pub settle-IsKeyed :
    (ticket : Ticket) (d : Disposition) (now : ℕ) (q : Queue)
    → IsKeyed q
    → IsKeyed (settle ticket d now q)
unfolding settle IsKeyed
settle-IsKeyed ticket d now [] h = tt
settle-IsKeyed ticket d now (slot ∷ slots) h =
    let both : IsKeyed (slot ∷ settle ticket d now slots) = (
      has_row-settle slot.anchor ticket d now slots ∙ h.0,
      settle-IsKeyed ticket d now slots h.1,
    ) in
    elim (Bool-cases (is_of ticket.anchor slot)) [
      | inl e ↦ rw (settle, e) (dispose-IsKeyed d now slot (settle ticket d now slots) both)
      | inr e ↦ rw (settle, e) both
    ]

pub enqueue-IsKeyed :
    (anchor : Text) (at : ℕ) (q : Queue) → IsKeyed q → IsKeyed (enqueue anchor at q)
unfolding enqueue IsKeyed
enqueue-IsKeyed anchor at [] h = (refl, tt)
enqueue-IsKeyed anchor at (slot ∷ slots) h = elim (Bool-cases (is_of anchor slot)) [
  | inl e ↦ rw (enqueue, e) h
  | inr e ↦
      rw (enqueue, e)
        (has_row-enqueue slot.anchor anchor at slots e h.0, enqueue-IsKeyed anchor at slots h.1)
]

snoc-IsKeyed :
    (anchor : Text) (at : ℕ) (q : Queue)
    → has_row anchor q ≡ false
    → IsKeyed q
    → IsKeyed (q ++ new_slot anchor at ∷ [])
unfolding IsKeyed
snoc-IsKeyed anchor at [] new h = (refl, tt)
snoc-IsKeyed anchor at (slot ∷ slots) new h = elim (Bool-cases (is_of anchor slot)) [
  | inl e ↦ let k = rw e at new in cc
  | inr e ↦ (
    has_row-snoc slot.anchor anchor at slots e h.0,
    snoc-IsKeyed anchor at slots (rw e at new) h.1,
  )
]

pub ensure-IsKeyed :
    (anchor : Text) (at : ℕ) (q : Queue) → IsKeyed q → IsKeyed (ensure_enqueued anchor at q).1
unfolding ensure_enqueued
ensure-IsKeyed anchor at q h = elim (Bool-cases (has_row anchor q)) [
  | inl e ↦ rw (ensure_enqueued, e) h
  | inr e ↦ rw (ensure_enqueued, e) (snoc-IsKeyed anchor at q e h)
]
