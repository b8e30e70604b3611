-- ===== src/Core/Journal/Closing.antt =====
-- crates/gmr-core/src/journal.rs: an anchor that has finished stays so.
use gmr.Support.{List, [], ◌∷◌, ◌++◌, Bool, true, false, ◌||◌, some, ◌≡◌, arith, All}
use gmr.Json.{Platform}
use gmr.Core.Anchor.{is_terminal}
use gmr.Core.Journal.{Seq, Entry, opened, revise, restate, close, AnchorState, advance, fold}
use gmr.Core.Journal.Runs.{run, fold-append, advance-some}
use gmr.Core.Journal.Counts.{is_open}

module _ ⦃host : Platform⦄ where
  abbrev pub is_close : Entry → Bool
  is_close (close context rationale at) = true
  is_close _ = false

  -- After any entry but `open`, an anchor is closed if it was, if the entry closes it, or if its
  -- state is terminal for its own rules.
  pub closed-advance :
      (s : AnchorState) (seq : Seq) (e : Entry) {t : AnchorState}
      → is_open e ≡ false
      → advance (some s) seq e ≡ some t
      → t.closed ≡ (s.closed || is_close e || is_terminal t.anchor t.state)
  unfolding advance
  closed-advance s seq (opened a o u at) p h = cc
  closed-advance s seq (revise (restate u) c w at) p h = ground arith
  closed-advance s seq (revise _ c w at) p h = ground arith
  closed-advance s seq _ p h = ground arith

  abbrev pub NoOpen : List (Seq × Entry) → Type 0
  NoOpen es = All (λ (e : Seq × Entry). is_open e.1 ≡ false) es

  closed-stays :
      (s : AnchorState) (seq : Seq) (e : Entry) (t : AnchorState)
      → s.closed ≡ true
      → is_open e ≡ false
      → advance (some s) seq e ≡ some t
      → t.closed ≡ true
  closed-stays s seq e t c p h = ground (arith, closed-advance s seq e p h)

  closed-run :
      (s : AnchorState) (es : List (Seq × Entry)) (t : AnchorState)
      → s.closed ≡ true
      → NoOpen es
      → run (some s) es ≡ some t
      → t.closed ≡ true
  unfolding run
  closed-run s [] t c all h = ground arith
  closed-run s ((seq, e) ∷ es) t c all h =
      let (u, q) = advance-some s seq e in
      closed-run u es t (closed-stays s seq e u c all.0 q) all.1 (rw q at h)

  -- No entry but another `open` brings back an anchor that a log had finished.
  pub closed-fold :
      (xs ys : List (Seq × Entry)) {a s : AnchorState}
      → fold xs ≡ some a
      → a.closed ≡ true
      → NoOpen ys
      → fold (xs ++ ys) ≡ some s
      → s.closed ≡ true
  closed-fold xs ys {a} {s} p c all h = closed-run a ys s c all (rw (fold-append, p) at h)
