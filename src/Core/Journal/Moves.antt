-- ===== src/Core/Journal/Moves.antt =====
-- crates/gmr-core/src/journal.rs: what `moved_at` says of the states before it and after it.
use gmr.Support.{◌<◌, List, [], ◌∷◌, ◌++◌, true, some, ◌≡◌, ◌≢◌, ◌∙◌, arith, ◌⊎◌, inl, inr, All}
use gmr.Json.{Platform, Json}
use gmr.Core.Journal.{Seq, Entry, opened, revise, restate, AnchorState, advance, fold}
use gmr.Core.Journal.Runs.{run, fold-append, advance-some}

-- What `Eq` documents of the equality of values.
pub record IsEquivalence ⦃host : Platform⦄ : Type 0 where
  pub same_refl : (v : Json) → host.same v v ≡ true
  pub same_trans :
      (u v w : Json) → host.same u v ≡ true → host.same v w ≡ true → host.same u w ≡ true

module _ ⦃host : Platform⦄ where
  abbrev pub After : Seq → List (Seq × Entry) → Type 0
  After m es = All (λ (e : Seq × Entry). m < e.0) es

  module _ (equal : IsEquivalence) where
    -- An entry moves the anchor, or leaves its state and its last move as they were.
    moved-advance :
        (s : AnchorState) (seq : Seq) (e : Entry) (t : AnchorState)
        → advance (some s) seq e ≡ some t
        → (t.moved_at ≡ some seq) ⊎ ((t.moved_at ≡ s.moved_at) × (host.same s.state t.state ≡ true))
    unfolding advance
    moved-advance s seq (opened a o u at) t h = ground arith
    moved-advance s seq (revise (restate p) c w at) t h = ground (arith, equal.same_refl s.state)
    moved-advance s seq (revise _ c w at) t h = ground (arith, equal.same_refl s.state)
    moved-advance s seq _ t h = ground (arith, equal.same_refl s.state)

    moved_later :
        (m k : Seq) (t : AnchorState) (es : List (Seq × Entry)) (s : AnchorState)
        → t.moved_at ≡ some k
        → m < k
        → After m es
        → run (some t) es ≡ some s
        → s.moved_at ≢ some m
    unfolding run
    moved_later m k t [] s p lt after h = ground arith
    moved_later m k t ((seq, e) ∷ es) s p lt after h =
        let (u, q) = advance-some t seq e in
        elim (moved-advance t seq e u q) [
          | inl moved ↦ moved_later m seq u es s moved after.0 after.1 (rw q at h)
          | inr still ↦ moved_later m k u es s (still.0 ∙ p) lt after.1 (rw q at h)
        ]

    still_since :
        (m : Seq) (a : AnchorState) (es : List (Seq × Entry)) (s : AnchorState)
        → After m es
        → run (some a) es ≡ some s
        → s.moved_at ≡ some m
        → host.same a.state s.state ≡ true
    unfolding run
    still_since m a [] s after h moved = ground (arith, equal.same_refl a.state)
    still_since m a ((seq, e) ∷ es) s after h moved =
        let (u, q) = advance-some a seq e in
        elim (moved-advance a seq e u q) [
          | inl now ↦ absurd (moved_later m seq u es s now after.0 after.1 (rw q at h) moved)
          | inr still ↦
              equal.same_trans a.state u.state s.state still.1
                (still_since m u es s after.1 (rw q at h) moved)
        ]

    -- Where the anchor last moved at `m`, folding the log up to any point with only later entries
    -- behind it gives a state equal to the present one.
    pub state_since_moved :
        (xs ys : List (Seq × Entry)) (m : Seq) {a s : AnchorState}
        → fold xs ≡ some a
        → fold (xs ++ ys) ≡ some s
        → s.moved_at ≡ some m
        → After m ys
        → host.same a.state s.state ≡ true
    state_since_moved xs ys m {a} {s} p q moved after =
        still_since m a ys s after (rw (fold-append, p) at q) moved
