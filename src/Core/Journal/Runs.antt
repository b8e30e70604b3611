-- ===== src/Core/Journal/Runs.antt =====
-- crates/gmr-core/src/journal.rs, resume: folding in parts, and where a fold stands.
use gmr.Support.{List, [], ◌∷◌, ◌++◌, Option, none, some, ◌≡◌, refl, arith}
use gmr.Json.{Platform}
use gmr.Core.Journal.{
  Seq, Entry, opened, revise, AnchorState, advance, resume, fold, visit, reprobe, restate,
}

module _ ⦃host : Platform⦄ where
  -- The state alone, whatever is called on the way.
  unfoldable pub run : Option AnchorState → List (Seq × Entry) → Option AnchorState
  run acc [] = acc
  run acc ((seq, entry) ∷ entries) = run (advance acc seq entry) entries

  pub run-append :
      (acc : Option AnchorState) (xs ys : List (Seq × Entry))
      → run acc (xs ++ ys) ≡ run (run acc xs) ys
  unfolding run
  run-append acc [] ys = refl
  run-append acc ((seq, entry) ∷ xs) ys = run-append (advance acc seq entry) xs ys

  pub resume-run :
      {X : Type 0} (each : Seq → Entry → AnchorState → X → X) (acc : Option AnchorState) (x : X)
      (es : List (Seq × Entry))
      → (resume each acc x es).0 ≡ run acc es
  unfolding resume run
  resume-run each acc x [] = refl
  resume-run each acc x ((seq, entry) ∷ es) =
      resume-run each (advance acc seq entry) (visit each seq entry (advance acc seq entry) x) es

  pub fold-run : (es : List (Seq × Entry)) → fold es ≡ run none es
  unfolding fold
  fold-run es = resume-run _ none tt es

  pub fold-append : (xs ys : List (Seq × Entry)) → fold (xs ++ ys) ≡ run (fold xs) ys
  fold-append xs ys = rw (fold-run, fold-run) (run-append none xs ys)

  -- A fold taken up from a checkpoint gives what the whole fold gives: the state, and all that the
  -- callback has gathered.
  pub resume-append :
      {X : Type 0} (each : Seq → Entry → AnchorState → X → X) (acc : Option AnchorState) (x : X)
      (xs ys : List (Seq × Entry))
      → resume each acc x (xs ++ ys)
        ≡ resume each (resume each acc x xs).0 (resume each acc x xs).1 ys
  unfolding resume
  resume-append each acc x [] ys = refl
  resume-append each acc x ((seq, entry) ∷ xs) ys =
      resume-append each (advance acc seq entry) (visit each seq entry (advance acc seq entry) x) xs
        ys

  -- An anchor once opened stays.
  pub advance-some :
      (s : AnchorState) (seq : Seq) (e : Entry)
      → (t : AnchorState) × (advance (some s) seq e ≡ some t)
  unfolding advance
  advance-some s seq (opened a o t at) = (_, refl)
  advance-some s seq (revise (reprobe p) c w at) = (_, refl)
  advance-some s seq (revise (restate p) c w at) = (_, refl)
  advance-some s seq e = (_, refl)

  -- What one entry does to the fields that each of them sets.
  pub head-advance :
      (acc : Option AnchorState) (seq : Seq) (e : Entry) {s : AnchorState}
      → advance acc seq e ≡ some s
      → s.head ≡ seq
  unfolding advance
  head-advance acc seq (opened a o t at) h = ground arith
  head-advance none seq e h = cc
  head-advance (some r) seq (revise (reprobe p) c w at) h = ground arith
  head-advance (some r) seq e h = ground arith

  pub run-snoc :
      (acc : Option AnchorState) (xs : List (Seq × Entry)) (seq : Seq) (e : Entry)
      → run acc (xs ++ (seq, e) ∷ []) ≡ advance (run acc xs) seq e
  unfolding run
  run-snoc acc [] seq e = refl
  run-snoc acc ((seq', e') ∷ xs) seq e = run-snoc (advance acc seq' e') xs seq e

  -- A folded anchor stands at the last entry of its log.
  pub head-fold :
      (xs : List (Seq × Entry)) (seq : Seq) (e : Entry) {s : AnchorState}
      → fold (xs ++ (seq, e) ∷ []) ≡ some s
      → s.head ≡ seq
  head-fold xs seq e h = head-advance (run none xs) seq e (rw (fold-run, run-snoc) at h)
