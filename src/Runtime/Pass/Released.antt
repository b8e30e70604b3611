-- ===== src/Runtime/Pass/Released.antt =====
-- crates/gmr-runtime/src/pass.rs: what a pass gives back, and what it counts.
use gmr.Support.{◌++◌, none, some, if◌then◌else◌, ℕ, suc, ◌+◌, ◌≤◌, List, [], ◌∷◌, length, ◌≡◌, All}
use gmr.Support.Text.{Text}
use gmr.Json.{Platform}
use gmr.Core.Anchor.{Anchor, is_terminal}
use gmr.Store.Journal.{Table, Codec}
use gmr.Store.Queue.{Ticket}
use gmr.Store.Queue.Leases.{lease_end}
use gmr.Budget.{Budget, remaining}
use gmr.Runtime.Policy.{Policy}
use gmr.Runtime.Log.{Stood}
use gmr.Runtime.Errors.{Ran, ran, refused}
use gmr.Runtime.Observer.{Observer}
use gmr.Runtime.Scheduler.{Settings}
use gmr.Runtime.Observe.{Observed, transitioned, attempted, closed}
use gmr.Runtime.Looking.{Moment, observe_with}
use gmr.Runtime.Pass.{Passed, Passing}

module _ ⦃host : Platform⦄ where
  -- What one ticket does to the pass.
  pub record Handled (ticket : Ticket) (p q : Passing) : Type 0 where
    pub released : lease_end ticket.anchor q.queue ≡ 0
    pub keeps : (a : Text) → lease_end a p.queue ≡ 0 → lease_end a q.queue ≡ 0
    pub seen_or_skipped : q.out.observed + q.out.skipped ≡ suc (p.out.observed + p.out.skipped)
    pub accounted :
        q.out.unseen + q.out.retired + p.out.observed
        ≤ p.out.unseen + p.out.retired + q.out.observed
    pub moves : length q.out.moved + p.out.observed ≤ length p.out.moved + q.out.observed

  of_ran : Passing → Ran Passing → Passing
  of_ran p (ran q) = q
  of_ran p (refused e) = p

  abbrev pub failures_in : Observed → ℕ
  failures_in (attempted reason code message n) = 1
  failures_in _ = 0

  abbrev pub ends_in : Anchor → Observed → ℕ
  ends_in anchor closed = 1
  ends_in anchor (transitioned from to) = if is_terminal anchor to then 1 else 0
  ends_in anchor _ = 0

  -- What a pass counts of an anchor that was observed: a failed attempt as unseen; as retired an anchor
  -- that is closed, or has moved to a state that is terminal for it; and one that moved as moved.
  pub record Counts (key : Text) (anchor : Anchor) (o : Observed) (out out' : Passed) : Type 0 where
    pub observed_is : out'.observed ≡ out.observed + 1
    pub skipped_is : out'.skipped ≡ out.skipped
    pub unseen_is : out'.unseen ≡ out.unseen + failures_in o
    pub retired_is : out'.retired ≡ out.retired + ends_in anchor o
    pub moved_is : out'.moved ≡ out.moved ++ (elim o [ transitioned from to ↦ key ∷ [] | _ ↦ [] ])

  module _ (policy : Policy) (settings : Settings) where
    module _ (codec : Codec) (evaluator : Text) (observer : Observer) where
      module _ (others : ℕ → ℕ → Table → Table) (budget : Budget) where
        module _ (moments : ℕ → Moment) (clock : ℕ → ℕ) where
          -- What becomes of a ticket: it is skipped, and its anchor left alone, where no time remains; else
          -- its anchor is observed, under its token.
          pub data Went (i : ℕ) (ticket : Ticket) (p q : Passing) : Type 0 where
            went_skipped :
                remaining (moments i).instant budget ≡ none
                → q.site ≡ p.site
                → q.out ≡ record p.out { skipped = p.out.skipped + 1 }
                → Went i ticket p q
            went_observed :
                (left : ℕ) (o : Observed) (found : Stood)
                → remaining (moments i).instant budget ≡ some left
                → observe_with codec evaluator observer settings
                    (others i)
                    ticket.anchor
                    ticket.fence
                    budget
                    (moments i)
                    p.site
                  ≡ ran (o, found, q.site)
                → Counts ticket.anchor found.anchor.anchor o p.out q.out
                → Went i ticket p q

          -- The tickets are gone through in order, each from where the one before it left the pass.
          pub data Passes : ℕ → List Ticket → Passing → Passing → Type 0 where
            passed_none : (i : ℕ) (p : Passing) → Passes i [] p p
            passed_one :
                (i : ℕ) (ticket : Ticket) (tickets : List Ticket) (p x q : Passing)
                → Went i ticket p x
                → Passes (suc i) tickets x q
                → Passes i (ticket ∷ tickets) p q

          -- What the pass owes for the tickets that it was given.
          pub record Done (i : ℕ) (tickets : List Ticket) (p q : Passing) : Type 0 where
            pub passes : Passes i tickets p q
            pub released : All (λ (t : Ticket). lease_end t.anchor q.queue ≡ 0) tickets
            pub keeps : (a : Text) → lease_end a p.queue ≡ 0 → lease_end a q.queue ≡ 0
            pub seen_or_skipped :
                q.out.observed + q.out.skipped ≡ p.out.observed + p.out.skipped + length tickets
            pub accounted :
                q.out.unseen + q.out.retired + p.out.observed
                ≤ p.out.unseen + p.out.retired + q.out.observed
            pub moves : length q.out.moved + p.out.observed ≤ length p.out.moved + q.out.observed
