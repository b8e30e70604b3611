-- ===== src/Runtime/Pass/Retired.antt =====
-- crates/gmr-runtime/src/pass.rs: an anchor that has finished is not looked at again by the passes.
use gmr.Support.{ℕ, Bool, true, ◌⊎◌, inl, inr, ◌≡◌, refl, sym, subst}
use gmr.Json.{Platform}
use gmr.Core.Anchor.{Anchor}
use gmr.Store.Queue.{Slot, Ticket, Disposition, retire, Queue, settle}
use gmr.Store.Queue.Retired.{NotAmong, due-settle_retire}
use gmr.Runtime.Policy.{Policy}
use gmr.Runtime.Scheduler.{Settings}
use gmr.Runtime.Observe.{
  Observed, transitioned, unchanged_in, still_there, attempted, closed, contended,
}
use gmr.Runtime.Pass.{sealed_by, disposition}

module _ ⦃host : Platform⦄ where
  -- The anchor was found closed, or has moved to a state that is terminal for it.
  abbrev pub IsFinal : Anchor → Observed → Type 0
  IsFinal anchor o = (o ≡ closed) ⊎ (sealed_by anchor o ≡ true)

  sealed-retire :
      (policy : Policy) (settings : Settings) (ticket : Ticket) (anchor : Anchor) (o : Observed)
      → sealed_by anchor o ≡ true
      → disposition policy settings ticket anchor o ≡ retire
  unfolding disposition
  sealed-retire policy settings ticket anchor (transitioned from to) h = rw h refl
  sealed-retire policy settings ticket anchor (unchanged_in s) h = cc
  sealed-retire policy settings ticket anchor still_there h = cc
  sealed-retire policy settings ticket anchor (attempted r c m n) h = cc
  sealed-retire policy settings ticket anchor closed h = cc
  sealed-retire policy settings ticket anchor contended h = cc

  IsFinal-retire :
      (policy : Policy) (settings : Settings) (ticket : Ticket) (anchor : Anchor) (o : Observed)
      → IsFinal anchor o
      → disposition policy settings ticket anchor o ≡ retire
  unfolding disposition
  IsFinal-retire policy settings ticket anchor o (inl h) = rw h refl
  IsFinal-retire policy settings ticket anchor o (inr h) =
      sealed-retire policy settings ticket anchor o h

  -- Once a pass has settled the ticket of an anchor that it found closed, or that has moved to a
  -- terminal state, no ticket of the anchor is among those that are due, at whatever time.
  pub disposition-NotAmong :
      (policy : Policy) (settings : Settings) (ticket : Ticket) (anchor : Anchor) (o : Observed)
      (chosen : Slot → Bool) (now until at : ℕ) (q : Queue)
      → IsFinal anchor o
      → NotAmong ticket.anchor
          (settle ticket (disposition policy settings ticket anchor o) at q)
          chosen
          now
          until
  disposition-NotAmong policy settings ticket anchor o chosen now until at q h =
      subst (λ (d : Disposition). NotAmong ticket.anchor (settle ticket d at q) chosen now until)
        (sym (IsFinal-retire policy settings ticket anchor o h))
        (due-settle_retire ticket chosen now until at q)
