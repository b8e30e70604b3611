-- ===== src/Runtime/Edges/Cursors.antt =====
-- crates/gmr-runtime/src/edges.rs, walk: what is told of a log that has grown.
use gmr.Support.{
  ◌≤◌, ◌<◌, List, [], ◌∷◌, ◌++◌, Bool, true, false, Option, none, some, ltb, ◌≡◌, refl, ap, sym,
  ◌∙◌, arith, All,
}
use gmr.Support.Text.{Text}
use gmr.Json.{Platform}
use gmr.Core.Journal.{
  Seq, Entry, opened, transition, still, attempt, revise, close, AnchorState, advance, visit,
  resume, scan,
}
use gmr.Core.Journal.Runs.{resume-append}
use gmr.Runtime.Policy.{Policy}
use gmr.Runtime.Edges.{
  Edge, Walked, pushed_if, moved_edges, ended_edges, stalled_edges, pushed, walk_entry,
  nothing_walked, walk,
}

module _ ⦃host : Platform⦄ (key : Text) (policy : Policy) where
  abbrev with_out : Walked → List Edge → Walked
  with_out w edges = record w { out = edges }

  append_nil : (xs : List Edge) → xs ++ [] ≡ xs
  append_nil [] = refl
  append_nil (x ∷ xs) = ap (λ (l : List Edge). x ∷ l) (append_nil xs)

  append_assoc : (xs ys zs : List Edge) → (xs ++ ys) ++ zs ≡ xs ++ (ys ++ zs)
  append_assoc [] ys zs = refl
  append_assoc (x ∷ xs) ys zs = ap (λ (l : List Edge). x ∷ l) (append_assoc xs ys zs)

  pushed_stale :
      (seq : Seq) (entry : Entry) (now : AnchorState) (w : Walked)
      → pushed key policy false seq entry now w ≡ []
  unfolding pushed moved_edges ended_edges stalled_edges pushed_if
  pushed_stale seq (opened a o s at) now w = refl
  pushed_stale seq (transition o s at) now w = refl
  pushed_stale seq (still n at v) now w = refl
  pushed_stale seq (attempt r f m at) now w = refl
  pushed_stale seq (revise k x y at) now w = refl
  pushed_stale seq (close x y at) now w = refl

  ltb_after : (c seq : Seq) → c < seq → ltb c seq ≡ true
  ltb_after c seq h = ground arith

  ltb_upto : (c seq : Seq) → seq ≤ c → ltb c seq ≡ false
  ltb_upto c seq h = ground arith

  walk_entry-prefix :
      (c : Seq) (before : List Edge) (seq : Seq) (entry : Entry) (s : AnchorState) (w : Walked)
      → walk_entry key policy c seq entry s (with_out w (before ++ w.out))
        ≡ with_out
            (walk_entry key policy c seq entry s w)
            (before ++ (walk_entry key policy c seq entry s w).out)
  unfolding walk_entry pushed
  walk_entry-prefix c before seq entry s w =
      ap (λ (l : List Edge). record { was = s.state; was_closed = s.closed; out = l })
        (append_assoc before w.out (pushed key policy (ltb c seq) seq entry s w))

  walk_entry-fresh :
      (c d seq : Seq) (entry : Entry) (s : AnchorState) (w : Walked)
      → c ≤ d
      → d < seq
      → walk_entry key policy c seq entry s w ≡ walk_entry key policy d seq entry s w
  unfolding walk_entry
  walk_entry-fresh c d seq entry s w le lt =
      ap
        (λ (b : Bool). record {
          was = s.state;
          was_closed = s.closed;
          out = w.out ++ pushed key policy b seq entry s w;
        })
        (ltb_after c seq (omega (arith, le, lt)) ∙ sym (ltb_after d seq lt))

  walk_entry-stale :
      (c d seq : Seq) (entry : Entry) (s : AnchorState) (w : Walked) (out : List Edge)
      → seq ≤ d
      → walk_entry key policy d seq entry s (with_out w out)
        ≡ with_out (walk_entry key policy c seq entry s w) out
  unfolding walk_entry
  walk_entry-stale c d seq entry s w out le =
      ap (λ (l : List Edge). record { was = s.state; was_closed = s.closed; out = out ++ l })
        (ap (λ (b : Bool). pushed key policy b seq entry s (with_out w out)) (ltb_upto d seq le)
          ∙ pushed_stale seq entry s (with_out w out))
      ∙ ap (λ (l : List Edge). record { was = s.state; was_closed = s.closed; out = l })
          (append_nil out)

  -- What was told before stays before what is told.
  resume-prefix :
      (c : Seq) (before : List Edge) (acc : Option AnchorState) (w : Walked)
      (es : List (Seq × Entry))
      → resume (walk_entry key policy c) acc (with_out w (before ++ w.out)) es ≡ (
        (resume (walk_entry key policy c) acc w es).0,
        with_out
            (resume (walk_entry key policy c) acc w es).1
            (before ++ (resume (walk_entry key policy c) acc w es).1.out),
      )
  unfolding resume visit
  resume-prefix c before acc w [] = refl
  resume-prefix c before acc w ((seq, entry) ∷ es) =
      ap (λ (x : Walked). resume (walk_entry key policy c) (advance acc seq entry) x es)
        (visited (advance acc seq entry))
      ∙ resume-prefix c before (advance acc seq entry)
          (visit (walk_entry key policy c) seq entry (advance acc seq entry) w) es
    where
      visited :
          (o : Option AnchorState)
          → visit (walk_entry key policy c) seq entry o (with_out w (before ++ w.out))
            ≡ with_out
                (visit (walk_entry key policy c) seq entry o w)
                (before ++ (visit (walk_entry key policy c) seq entry o w).out)
      visited none = refl
      visited (some s) = walk_entry-prefix c before seq entry s w

  -- Entries after both cursors are told of alike.
  resume-fresh :
      (c d : Seq) (acc : Option AnchorState) (w : Walked) (es : List (Seq × Entry))
      → c ≤ d
      → All (λ (p : Seq × Entry). d < p.0) es
      → resume (walk_entry key policy c) acc w es ≡ resume (walk_entry key policy d) acc w es
  unfolding resume visit
  resume-fresh c d acc w [] le h = refl
  resume-fresh c d acc w ((seq, entry) ∷ es) le h =
      ap (λ (x : Walked). resume (walk_entry key policy c) (advance acc seq entry) x es)
        (visited (advance acc seq entry))
      ∙ resume-fresh c d (advance acc seq entry)
          (visit (walk_entry key policy d) seq entry (advance acc seq entry) w) es le h.1
    where
      visited :
          (o : Option AnchorState)
          → visit (walk_entry key policy c) seq entry o w
            ≡ visit (walk_entry key policy d) seq entry o w
      visited none = refl
      visited (some s) = walk_entry-fresh c d seq entry s w le h.0

  -- Entries up to the cursor are not told of.
  resume-stale :
      (c d : Seq) (out : List Edge) (acc : Option AnchorState) (w : Walked)
      (es : List (Seq × Entry))
      → All (λ (p : Seq × Entry). p.0 ≤ d) es
      → resume (walk_entry key policy d) acc (with_out w out) es ≡ (
        (resume (walk_entry key policy c) acc w es).0,
        with_out (resume (walk_entry key policy c) acc w es).1 out,
      )
  unfolding resume visit
  resume-stale c d out acc w [] h = refl
  resume-stale c d out acc w ((seq, entry) ∷ es) h =
      ap (λ (x : Walked). resume (walk_entry key policy d) (advance acc seq entry) x es)
        (visited (advance acc seq entry))
      ∙ resume-stale c d out (advance acc seq entry)
          (visit (walk_entry key policy c) seq entry (advance acc seq entry) w) es h.1
    where
      visited :
          (o : Option AnchorState)
          → visit (walk_entry key policy d) seq entry o (with_out w out)
            ≡ with_out (visit (walk_entry key policy c) seq entry o w) out
      visited none = refl
      visited (some s) = walk_entry-stale c d seq entry s w out h.0

  -- A walk from one cursor over a log that has grown tells first what it told before the log grew, and
  -- then exactly what a walk of the grown log from a later cursor tells, where the cursor stands between
  -- the old entries and the new: who goes on from that cursor misses no edge and is told none twice.
  pub walk-append :
      (c d : Seq) (es more : List (Seq × Entry))
      → c ≤ d
      → All (λ (p : Seq × Entry). p.0 ≤ d) es
      → All (λ (p : Seq × Entry). d < p.0) more
      → (walk key policy (es ++ more) c).1
        ≡ (walk key policy es c).1 ++ (walk key policy (es ++ more) d).1
  unfolding walk scan
  walk-append c d es more le old new =
      let begun = nothing_walked key policy in
      let r = resume (walk_entry key policy c) none begun es in
      let later = with_out r.1 [] in
      let whole =
        ap (λ (p : Option AnchorState × Walked). p.1.out)
          (resume-append (walk_entry key policy c) none begun es more
            ∙ resume-fresh c d r.0 r.1 more le new) in
      let split =
        ap (λ (l : List Edge). (resume (walk_entry key policy d) r.0 (with_out r.1 l) more).1.out)
          (sym (append_nil r.1.out))
        ∙ ap (λ (p : Option AnchorState × Walked). p.1.out)
            (resume-prefix d r.1.out r.0 later more) in
      let rest =
        ap (λ (p : Option AnchorState × Walked). p.1.out)
          (resume-append (walk_entry key policy d) none begun es more
            ∙ ap
                (λ (p : Option AnchorState × Walked). resume (walk_entry key policy d) p.0 p.1 more)
                (resume-stale c d [] none begun es old)) in
      whole ∙ (split ∙ ap (λ (l : List Edge). r.1.out ++ l) (sym rest))
