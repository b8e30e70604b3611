-- ===== src/Runtime/Shown/Recorded.antt =====
-- crates/gmr-runtime/src/read.rs, recorded_at: what its answers say of the log.
use gmr.Support.{◌++◌, ◌≤◌, ◌<◌, All, List, [], ◌∷◌, true, Option, none, some, ◌≡◌, ◌≢◌, ◌⊎◌}
use gmr.Support.Text.{Text}
use gmr.Json.{Platform}
use gmr.Core.Probe.{contains}
use gmr.Core.Journal.{Seq, Entry, opened, transition, Observation, AnchorState, fold}
use gmr.Runtime.Shown.{Shown, Taken, showing}

Among : Taken → Seq → Text → Type 0
Among [] n a = ⊥
Among ((m, b) ∷ taken) n a = ((m ≡ n) × (b ≡ a)) ⊎ Among taken n a

-- What an answer says, where `recorded` tells which addresses were recorded where, of those that were
-- said to be seen.
pub Tells : (Seq → Text → Type 0) → Option Text → Shown → Type 0
Tells recorded showing (Shown.seen at) =
    (a : Text) × recorded at a × ((showing ≡ none) ⊎ (showing ≡ some a))
Tells recorded showing (Shown.superseded at) =
    (a : Text) × (current : Text) × recorded at a
    × (showing ≡ some current)
    × ((n : Seq) (b : Text) → recorded n b → b ≢ current)
Tells recorded showing Shown.unseen = (n : Seq) (b : Text) → ¬ recorded n b
Tells recorded showing Shown.not_said = ⊥

module _ ⦃host : Platform⦄ (saw : List Text) where
  -- Only what opens an anchor and what moves it holds an observation.
  pub Takes : Entry → Text → Type 0
  Takes (opened anchor o s at) a = o.fact_address ≡ a
  Takes (transition o s at) a = o.fact_address ≡ a
  Takes _ a = ⊥

  -- The entry of number `n` records the address `a`, which is among those said to be seen.
  pub Records : List (Seq × Entry) → Seq → Text → Type 0
  Records [] n a = ⊥
  Records ((m, e) ∷ es) n a = ((m ≡ n) × Takes e a × (contains saw a ≡ true)) ⊎ Records es n a

  pub StartsAfter : Seq → List (Seq × Entry) → Type 0
  StartsAfter b [] = Unit
  StartsAfter b ((seq, e) ∷ es) = b < seq

  -- The log up to a number, and what comes after it.
  abbrev pub Parts : List (Seq × Entry) → Seq → List (Seq × Entry) → List (Seq × Entry) → Type 0
  Parts es b before after =
      (before ++ after ≡ es) × All (λ (p : Seq × Entry). p.0 ≤ b) before × StartsAfter b after

  -- What was showing at the binding, by the fold of the log up to it; what shows now, where nothing was
  -- bound to a number or nothing had been observed by then.
  pub data Shows (es : List (Seq × Entry)) (now : Option Text)
      : Option Seq → Option Text → Type 0 where
    shows_now : Shows es now none now
    shows_unopened :
        (b : Seq) (before after : List (Seq × Entry))
        → Parts es b before after
        → fold before ≡ none
        → Shows es now (some b) now
    shows_unlooked :
        (b : Seq) (before after : List (Seq × Entry)) (s : AnchorState)
        → Parts es b before after
        → fold before ≡ some s
        → s.latest ≡ none
        → Shows es now (some b) now
    shows_then :
        (b : Seq) (before after : List (Seq × Entry)) (s : AnchorState) (o : Observation)
        → Parts es b before after
        → fold before ≡ some s
        → s.latest ≡ some o
        → Shows es now (some b) (some o.fact_address)
