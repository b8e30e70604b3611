-- ===== src/Budget.antt =====
-- crates/gmr-budget/src/lib.rs: how long a call may take. Instants are numbers, and what a method
-- reads of the clock is passed in; a flag is its name, and `raised` says which have been set.
use gmr.Support.{
  ℕ, ◌+◌, ◌-◌, ◌≤◌, List, [], ◌∷◌, Bool, false, ◌||◌, Option, none, some, any, min, if◌then◌else◌,
  ◌==◌, ltb, ◌≡◌, refl, arith,
}

pub data Spent : Type 0 where
  deadline_passed cancelled : Spent

pub record Budget : Type 0 where
  pub started : ℕ
  pub deadline : ℕ
  pub output_cap : ℕ
  pub cancel : ℕ
  pub inherited : List ℕ

-- The flags that have been set.
abbrev pub Raised : Type 0
Raised = ℕ → Bool

-- `flag` is the name of the new flag.
unfoldable pub until : ℕ → ℕ → ℕ → ℕ → Budget
until now flag deadline output_cap = record {
  started = now;
  deadline = deadline;
  output_cap = output_cap;
  cancel = flag;
  inherited = [];
}

unfoldable pub within : ℕ → ℕ → ℕ → ℕ → Budget
unfolding until
within now flag span output_cap = until now flag (now + span) output_cap

-- `saturating_duration_since`
unfoldable pub width : Budget → ℕ
width budget = budget.deadline - budget.started

-- `checked_duration_since`, and not zero
unfoldable pub remaining : ℕ → Budget → Option ℕ
remaining now budget = if ltb now budget.deadline then some (budget.deadline - now) else none

unfoldable pub narrowed_to : ℕ → ℕ → Budget → ℕ → ℕ → Budget
unfolding until
narrowed_to now flag budget span output_cap =
    record (until now flag (min (now + span) budget.deadline) output_cap) {
      inherited = budget.cancel ∷ budget.inherited;
    }

unfoldable pub narrowed : ℕ → ℕ → Budget → ℕ → Budget
unfolding narrowed_to
narrowed now flag budget span = narrowed_to now flag budget span budget.output_cap

-- Budget::cancel
unfoldable pub cancel_budget : Budget → Raised → Raised
cancel_budget budget raised flag = flag == budget.cancel || raised flag

unfoldable pub abandoned : Raised → Budget → Bool
abandoned raised budget = raised budget.cancel || any raised budget.inherited

-- What is left of a call's time, where nobody has abandoned it.
unfoldable pub checkpoint : Raised → ℕ → Budget → Option Spent
unfolding abandoned remaining
checkpoint raised now budget =
    if abandoned raised budget
    then some cancelled
    else elim (remaining now budget) [ some left ↦ none | none ↦ some deadline_passed ]

-- However it was narrowed, a budget ends no later than the one that it was made from, and a call
-- goes on under it only while calls go on under that one.
pub checkpoint-narrowed_to :
    (raised : Raised) (now later flag : ℕ) (budget : Budget) (span most : ℕ)
    → checkpoint raised later (narrowed_to now flag budget span most) ≡ none
    → (checkpoint raised later budget ≡ none)
      × ((narrowed_to now flag budget span most).deadline ≤ budget.deadline)
unfolding checkpoint narrowed_to
checkpoint-narrowed_to raised now later flag budget span most h = (ground arith, omega arith)

any-cancel_budget :
    (raised : Raised) (flag : ℕ) (flags : List ℕ)
    → any (λ f. f == flag) flags ≡ false
    → any (λ f. f == flag || raised f) flags ≡ any raised flags
any-cancel_budget raised flag [] h = refl
any-cancel_budget raised flag (f ∷ flags) h = ground (arith, any-cancel_budget raised flag flags)

abandoned-cancel_budget :
    (raised : Raised) (child budget : Budget)
    → any (λ f. f == child.cancel) (budget.cancel ∷ budget.inherited) ≡ false
    → abandoned (cancel_budget child raised) budget ≡ abandoned raised budget
unfolding abandoned cancel_budget
abandoned-cancel_budget raised child budget h =
    any-cancel_budget raised child.cancel (budget.cancel ∷ budget.inherited) h

-- Abandoning a narrowed budget, whose flag is new, leaves the one that it was made from.
pub checkpoint-cancel_budget :
    (raised : Raised) (now later flag : ℕ) (budget : Budget) (span most : ℕ)
    → any (λ f. f == flag) (budget.cancel ∷ budget.inherited) ≡ false
    → checkpoint (cancel_budget (narrowed_to now flag budget span most) raised) later budget
      ≡ checkpoint raised later budget
unfolding checkpoint narrowed_to
checkpoint-cancel_budget raised now later flag budget span most h =
    rw (abandoned-cancel_budget raised (narrowed_to now flag budget span most) budget h) refl
