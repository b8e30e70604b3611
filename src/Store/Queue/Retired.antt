-- ===== src/Store/Queue/Retired.antt =====
-- crates/gmr-store/src/sqlite/queue.rs: who is retired is not due.
use gmr.Support.{ℕ, [], ◌∷◌, Bool, false, ◌&&◌, ◌≡◌, All, Bool-cases, inl, inr}
use gmr.Support.Text.{Text, text_eq}
use gmr.Store.Queue.{Slot, Ticket, Queue, retire, is_of, is_due, due, settle}

-- None of the tickets is of the anchor.
abbrev pub NotAmong : Text → Queue → (Slot → Bool) → ℕ → ℕ → Type 0
NotAmong a q chosen now until =
    All (λ (t : Ticket). text_eq t.anchor a ≡ false) (due chosen now until q).0

pub due-settle_retire :
    (ticket : Ticket) (chosen : Slot → Bool) (now until at : ℕ) (q : Queue)
    → NotAmong ticket.anchor (settle ticket retire at q) chosen now until
unfolding due settle
due-settle_retire ticket chosen now until at [] = tt
due-settle_retire ticket chosen now until at (slot ∷ q) =
    elim (Bool-cases (is_of ticket.anchor slot)) [
      | inl e ↦ rw (settle, e) (due-settle_retire ticket chosen now until at q)
      | inr e ↦ elim (Bool-cases (is_due now slot && chosen slot)) [
        | inl k ↦ rw (settle, e, due, k) (e, due-settle_retire ticket chosen now until at q)
        | inr k ↦ rw (settle, e, due, k) (due-settle_retire ticket chosen now until at q)
      ]
    ]
