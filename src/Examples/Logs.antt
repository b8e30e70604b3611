-- ===== src/Examples/Logs.antt =====
-- crates/gmr-core/src/journal.rs at a concrete log, and crates/gmr-runtime/src/translate.rs and
-- policy.rs at concrete settings; crates/gmr-runtime/src/edges.rs at that log.
use gmr.Support.{
  ℕ, ◌%◌, ◌^◌, ◌≤◌, List, [], ◌∷◌, ◌++◌, true, false, Option, none, some, ◌≡◌, ◌↔◌, refl, arith,
}
use gmr.Support.Text.{txt, text_eq}
use gmr.Json.{pos, null, insert}
use gmr.Expr.Parse.{parse}
use gmr.Expr.Eval.{eval}
use gmr.Core.Probe.{contains}
use gmr.Core.Anchor.{is_terminal}
use gmr.Core.Journal.{
  Seq, Entry, opened, attempt, AnchorState, unreachable, revise, restate, ChangeKind, fold,
  attempts, is_sighting,
}
use gmr.Core.Journal.Moves.{state_since_moved}
use gmr.Core.Journal.Closing.{closed-fold}
use gmr.Core.Journal.Counts.{
  attempts-fold, revisions-fold, tail_count, is_attempt, is_open, revises, revisions_of,
}
use gmr.Runtime.Translate.{to_state, unchanged, context, transition}
use gmr.Runtime.Translate.Rules.{transition-Decides, transition_unchanged, Decides, NoneHolds}
use gmr.Runtime.Edges.{Edge, transitioned, walk}
use gmr.Runtime.Edges.Cursors.{walk-append}
use gmr.Runtime.Policy.{default_policy, backoff_secs, backoff_secs-bounds}
use gmr.Examples.Watched.{watched, done_is, in_status}
use gmr.Examples.Host.{integers, render, integers-IsEquivalence}

abbrev opening : List (Seq × Entry)
opening = (1, opened watched (done_is false) (in_status (txt "waiting")) 10) ∷ []

-- Opened, then a revision of the state.
abbrev first_part : List (Seq × Entry)
first_part = opening ++ (3, revise (restate (in_status (txt "late"))) [] [] 20) ∷ []

abbrev failing : List (Seq × Entry)
failing =
    (4, attempt unreachable none (txt "no route") 30)
    ∷ (7, attempt unreachable none (txt "no route") 40)
    ∷ []

abbrev ended : List (Seq × Entry)
ended = (9, Entry.transition (done_is true) (in_status (txt "settled")) 50) ∷ []

-- What is read of a folded anchor.
abbrev read_of {ℓ} : {A : Type ℓ} → (AnchorState → A) → A → Option AnchorState → A
read_of f d none = d
read_of f d (some s) = f s

abbrev settling : Entry
settling = Entry.transition (done_is true) (in_status (txt "settled")) 50

attempts-fold_example :
    read_of attempts 0 (fold (first_part ++ failing))
    ≡ tail_count is_attempt is_sighting (first_part ++ failing) % 2 ^ 32
unfolding fold
attempts-fold_example = attempts-fold (first_part ++ failing) refl

attempts_test : read_of attempts 0 (fold (first_part ++ failing)) ≡ 2
unfolding fold text_eq render
attempts_test = refl

revisions-fold_example :
    read_of (revisions_of ChangeKind.restate) 0 (fold (first_part ++ failing))
    ≡ tail_count (revises ChangeKind.restate) is_open (first_part ++ failing) % 2 ^ 32
unfolding fold
revisions-fold_example = revisions-fold ChangeKind.restate (first_part ++ failing) refl

state_since_moved_example :
    integers.same
      (read_of (λ s. s.state) null (fold first_part))
      (read_of (λ s. s.state) null (fold (first_part ++ failing)))
    ≡ true
unfolding fold text_eq render
state_since_moved_example =
    state_since_moved integers-IsEquivalence first_part failing 3 refl refl refl (omega arith)

closed-fold_example : read_of (λ s. s.closed) false (fold ((first_part ++ ended) ++ failing)) ≡ true
unfolding fold text_eq render is_terminal contains
closed-fold_example = closed-fold (first_part ++ ended) failing refl refl (refl, (refl, tt)) refl

transition-Decides_example :
    (transition watched (done_is true) (in_status (txt "waiting")) 50 10
      ≡ to_state (in_status (txt "settled")))
    ↔ Decides
        (context (done_is true) (in_status (txt "waiting")) 50 10)
        (in_status (txt "settled"))
        watched.transitions
transition-Decides_example =
    transition-Decides watched (done_is true) (in_status (txt "waiting"))
      (in_status (txt "settled")) 50 10

transition_test :
    transition watched (done_is true) (in_status (txt "waiting")) 50 10
    ≡ to_state (in_status (txt "settled"))
unfolding transition parse eval insert text_eq
transition_test = refl

transition_unchanged_example :
    (transition watched (done_is false) (in_status (txt "waiting")) 50 10 ≡ unchanged)
    ↔ NoneHolds (context (done_is false) (in_status (txt "waiting")) 50 10) watched.transitions
transition_unchanged_example =
    transition_unchanged watched (done_is false) (in_status (txt "waiting")) 50 10

unchanged_test : transition watched (done_is false) (in_status (txt "waiting")) 50 10 ≡ unchanged
unfolding transition parse eval insert text_eq
unchanged_test = refl

backoff_secs-bounds_example :
    (a : ℕ) × (b : ℕ) × (backoff_secs default_policy 3 ≡ pos a)
    × (backoff_secs default_policy 30 ≡ pos b)
    × (a ≤ b)
    × (b ≤ 3600)
backoff_secs-bounds_example = backoff_secs-bounds default_policy 3 30 (omega arith) (omega arith)

backoff_test :
    (backoff_secs default_policy 3 ≡ pos 120) × (backoff_secs default_policy 30 ≡ pos 3600)
unfolding backoff_secs
backoff_test = (refl, refl)

abbrev whole : List (Seq × Entry)
whole = first_part ++ (failing ++ ended)

-- What has been told up to the entry 7, and what comes then.
walk-append_example :
    (walk (txt "a") default_policy ((first_part ++ failing) ++ ended) 0).1
    ≡ (walk (txt "a") default_policy (first_part ++ failing) 0).1
      ++ (walk (txt "a") default_policy ((first_part ++ failing) ++ ended) 7).1
walk-append_example =
    walk-append (txt "a") default_policy 0 7 (first_part ++ failing) ended (omega arith)
      (omega arith, (omega arith, (omega arith, (omega arith, tt)))) (omega arith, tt)

-- Only the last entry is after the cursor, and it moves the anchor to a terminal state, which ends it.
walk_test :
    (walk (txt "a") default_policy whole 8).1
    ≡ transitioned
        (txt "a")
        (in_status (txt "late"))
        (in_status (txt "settled"))
        (some (txt "settled"))
        9
        50
      ∷ Edge.ended (txt "a") true 9 50
      ∷ []
unfolding walk text_eq render is_terminal contains
walk_test = refl
