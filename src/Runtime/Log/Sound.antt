-- ===== src/Runtime/Log/Sound.antt =====
-- crates/gmr-runtime/src/log.rs, stood: what the checkpoints hold, and what standing finds.
use gmr.Support.{
  ℕ, ◌+◌, ◌≤◌, ◌<◌, [], ◌∷◌, ◌++◌, ◌&&◌, Bool, true, false, Option, none, some, ◌≡◌, refl, ap, sym,
  ◌∙◌, subst, ◌⊎◌, inl, inr, arith, Bool-cases, if◌then◌else◌, leb,
}
use gmr.Support.Text.{Text, text_eq, text_eq_iff}
use gmr.Json.{Platform}
use gmr.Core.Journal.{Seq, Entry, AnchorState, resume, fold}
use gmr.Core.Journal.Runs.{fold-run, head-fold, resume-run}
use gmr.Store.Journal.{Fence, Expected, Stored, done, failed, Table, Codec, entries, append}
use gmr.Store.Journal.Chain.{ReadsBack}
use gmr.Store.Journal.Entries.{Log, entries-append}
use gmr.Store.Journal.Since.{since}
use gmr.Store.Journal.Steady.{FaithfulWriting, idle, adds}
use gmr.Store.Journal.Ordered.{
  IsOrdered, append-IsOrdered, Rising, entries-Rising, upto, upto-since, upto-all, upto-snoc,
  upto-Below, since-Above, Rising-last,
}
use gmr.Runtime.Log.{Stood, Checkpoints, sightings, stood_of, stood_from, kept, stood}
use gmr.Runtime.Log.Checkpoint.{stood_from_checkpoint}

module _ ⦃host : Platform⦄ where
  abbrev pub anchor_of : Option Stood → Option AnchorState
  anchor_of none = none
  anchor_of (some s) = some s.anchor

  -- A checkpoint holds the fold of the anchor's log up to the head that it names.
  pub record Folds (codec : Codec) (t : Table) (key : Text) (h : Stood) : Type 0 where
    pub log : Log
    pub read : entries codec t key 0 ≡ done log
    pub folded : resume sightings none 0 (upto h.anchor.head log) ≡ (some h.anchor, h.logged)
    pub within : h.anchor.head ≤ t.last

  pub record IsSound (codec : Codec) (t : Table) (held : Checkpoints) : Type 0 where
    pub folds : (key : Text) (h : Stood) → held key ≡ some h → Folds codec t key h

  snoc_cases :
      (es : Log) → (es ≡ []) ⊎ ((xs : Log) × (seq : Seq) × (e : Entry) × (es ≡ xs ++ (seq, e) ∷ []))
  snoc_cases [] = inl refl
  snoc_cases ((seq, e) ∷ es) = elim (snoc_cases es) [
    | inl p ↦ inr ([], seq, e, ap (λ (l : Log). (seq, e) ∷ l) p)
    | inr (xs, n, x, p) ↦ inr ((seq, e) ∷ xs, n, x, ap (λ (l : Log). (seq, e) ∷ l) p)
  ]

  whole_snoc :
      (xs : Log) (seq : Seq) (e : Entry) (last : Seq) (s : Stood)
      → Rising 0 (xs ++ (seq, e) ∷ []) last
      → resume sightings none 0 (xs ++ (seq, e) ∷ []) ≡ (some s.anchor, s.logged)
      → (upto s.anchor.head (xs ++ (seq, e) ∷ []) ≡ xs ++ (seq, e) ∷ []) × (s.anchor.head ≤ last)
  whole_snoc xs seq e last s r h =
      let folds : fold (xs ++ (seq, e) ∷ []) ≡ some s.anchor =
        fold-run (xs ++ (seq, e) ∷ [])
        ∙ (sym (resume-run sightings none 0 (xs ++ (seq, e) ∷ [])) ∙ ap (λ p. p.0) h) in
      let (rises, le) = Rising-last 0 last seq e xs r in
      let head = head-fold xs seq e folds in
      (
        upto-all s.anchor.head 0 seq (xs ++ (seq, e) ∷ []) (omega (arith, head)) rises,
        omega (arith, head, le),
      )

  -- What a whole log folds to, it folds to up to its head.
  whole :
      (es : Log) (last : Seq) (s : Stood)
      → Rising 0 es last
      → resume sightings none 0 es ≡ (some s.anchor, s.logged)
      → (upto s.anchor.head es ≡ es) × (s.anchor.head ≤ last)
  unfolding resume
  whole es last s r h = elim (snoc_cases es) [
    | inl p ↦
        let k : (none, 0) ≡ (some s.anchor, s.logged) =
          subst (λ (l : Log). resume sightings none 0 l ≡ (some s.anchor, s.logged)) p h in
        cc (ap (λ q. q.0) k)
    | inr (xs, seq, e, p) ↦
        subst (λ (l : Log). (upto s.anchor.head l ≡ l) × (s.anchor.head ≤ last)) (sym p)
          (whole_snoc xs seq e last s (subst (λ (l : Log). Rising 0 l last) p r)
            (subst (λ (l : Log). resume sightings none 0 l ≡ (some s.anchor, s.logged)) p h))
  ]

  -- The head of what a whole log folds to has been given out.
  pub fold_within :
      (codec : Codec) (t : Table) (key : Text) (es : Log) (s : AnchorState)
      → IsOrdered t
      → entries codec t key 0 ≡ done es
      → fold es ≡ some s
      → s.head ≤ t.last
  fold_within codec t key es s ok read h =
      let (logged, p) = counted (resume sightings none 0 es) refl in
      (whole es t.last (record { anchor = s; logged = logged })
        (entries-Rising codec t key 0 es ok read) p).1
    where
      counted :
          (r : Option AnchorState × ℕ)
          → resume sightings none 0 es ≡ r
          → (n : ℕ) × (resume sightings none 0 es ≡ (some s, n))
      counted (a, n) p =
          let same : a ≡ some s =
            sym (ap (λ q. q.0) p) ∙ (resume-run sightings none 0 es ∙ (sym (fold-run es) ∙ h)) in
          (n, p ∙ ap (λ b. (b, n)) same)

  from_checkpoint :
      (codec : Codec) (t : Table) (key : Text) (h : Stood)
      → IsOrdered t
      → Folds codec t key h
      → stood_from codec t key (some h) ≡ stood_from codec t key none
  from_checkpoint codec t key h ok f =
      let whole =
        upto-since h.anchor.head 0 t.last f.log (entries-Rising codec t key 0 f.log ok f.read) in
      stood_from_checkpoint codec t key h (upto h.anchor.head f.log)
        (since (h.anchor.head + 1) f.log) (f.read ∙ ap done (sym whole)) f.folded
        (upto-Below h.anchor.head f.log) (since-Above h.anchor.head f.log)

  pub from_start :
      (codec : Codec) (t : Table) (held : Checkpoints) (key : Text) (o : Option Stood)
      → IsOrdered t
      → IsSound codec t held
      → held key ≡ o
      → stood_from codec t key o ≡ stood_from codec t key none
  from_start codec t held key none ok sound p = refl
  from_start codec t held key (some h) ok sound p =
      from_checkpoint codec t key h ok (sound.folds key h p)

  -- What standing finds: the fold of the whole log, with checkpoints that are sound again.
  pub record Stands (codec : Codec) (t : Table) (key : Text) (found : Option Stood)
      (held : Checkpoints) : Type 0 where
    pub log : Log
    pub read : entries codec t key 0 ≡ done log
    pub is_fold : anchor_of found ≡ fold log
    pub sound : IsSound codec t held

  kept-Folds :
      (codec : Codec) (t : Table) (key : Text) (es : Log) (s : Stood) (held : Checkpoints)
      → IsOrdered t
      → IsSound codec t held
      → entries codec t key 0 ≡ done es
      → resume sightings none 0 es ≡ (some s.anchor, s.logged)
      → (k : Text) (h : Stood) → kept held key (some s) k ≡ some h
      → Folds codec t k h
  unfolding kept
  kept-Folds codec t key es s held ok sound read p k h q = elim (Bool-cases (text_eq k key)) [
    | inl same ↦
        let is : s ≡ h = let x = rw (kept, same) at q in cc in
        let (up, le) = whole es t.last s (entries-Rising codec t key 0 es ok read) p in
        subst (λ (j : Text). Folds codec t j h) (sym ((text_eq_iff k key).0 same))
          (subst (λ (g : Stood). Folds codec t key g) is
            (record {
              log = es;
              read = read;
              folded = ap (λ (l : Log). resume sightings none 0 l) up ∙ p;
              within = le;
            }))
    | inr other ↦ sound.folds k h (rw (kept, other) at q)
  ]

  Stands-on :
      (codec : Codec) (t : Table) (key : Text) (es : Log) (held : Checkpoints)
      (r : Option AnchorState × ℕ)
      → IsOrdered t
      → IsSound codec t held
      → entries codec t key 0 ≡ done es
      → resume sightings none 0 es ≡ r
      → Stands codec t key (stood_of r) (kept held key (stood_of r))
  unfolding kept
  Stands-on codec t key es held (none, n) ok sound read p = record {
    log = es;
    read = read;
    is_fold = sym (fold-run es ∙ (sym (resume-run sightings none 0 es) ∙ ap (λ q. q.0) p));
    sound = record { folds = λ k h q. sound.folds k h q };
  }
  Stands-on codec t key es held (some s, n) ok sound read p = record {
    log = es;
    read = read;
    is_fold = sym (fold-run es ∙ (sym (resume-run sightings none 0 es) ∙ ap (λ q. q.0) p));
    sound = record {
      folds = kept-Folds codec t key es (record { anchor = s; logged = n }) held ok sound read p;
    };
  }

  stood_read :
      (codec : Codec) (t : Table) (key : Text) (held held' : Checkpoints) (found : Option Stood)
      (r : Stored Log)
      → IsOrdered t
      → IsSound codec t held
      → entries codec t key 0 ≡ r
      → stood codec t held key ≡ done (found, held')
      → Stands codec t key found held'
  unfolding stood stood_from
  stood_read codec t key held held' found (failed e) ok sound p h =
      let k =
        rw (stood, from_start codec t held key (held key) ok sound refl, stood_from, p) at h in
      cc
  stood_read codec t key held held' found (done es) ok sound p h =
      let k =
        rw (stood, from_start codec t held key (held key) ok sound refl, stood_from, p) at h in
      let o = stood_of (resume sightings none 0 es) in
      let both : (o, kept held key o) ≡ (found, held') = cc in
      subst (λ (x : Option Stood × Checkpoints). Stands codec t key x.0 x.1) both
        (Stands-on codec t key es held (resume sightings none 0 es) ok sound p refl)

  -- Where the rows stand in the order of their numbers and every checkpoint holds the fold of its
  -- anchor's log up to some entry, standing finds the fold of the whole log, and the checkpoints
  -- that it leaves are such again.
  pub stood-Stands :
      (codec : Codec) (t : Table) (key : Text) (held held' : Checkpoints) (found : Option Stood)
      → IsOrdered t
      → IsSound codec t held
      → stood codec t held key ≡ done (found, held')
      → Stands codec t key found held'
  stood-Stands codec t key held held' found ok sound h =
      stood_read codec t key held held' found (entries codec t key 0) ok sound refl h

  shown_upto :
      (n seq : Seq) (entry : Entry) (es : Log) (b : Bool)
      → n < seq
      → upto n (es ++ (if b then (seq, entry) ∷ [] else [])) ≡ upto n es
  shown_upto n seq entry es true h = upto-snoc n seq entry es h
  shown_upto n seq entry es false h = ap (upto n) (append_nil es)
    where
      append_nil : (es : Log) → es ++ [] ≡ es
      append_nil [] = refl
      append_nil (e ∷ es) = ap (λ (l : Log). e ∷ l) (append_nil es)

  -- What anyone appends leaves sound checkpoints sound, where the text of the entry reads back
  -- as it.
  pub append-IsSound :
      (codec : Codec) (t t' : Table) (anchor : Text) (entry : Entry) (fence : Fence)
      (expected : Expected) (seq : Seq) (held : Checkpoints)
      → ReadsBack codec entry
      → IsOrdered t
      → append codec t anchor entry fence expected ≡ done (seq, t')
      → IsSound codec t held
      → IsSound codec t' held
  append-IsSound codec t t' anchor entry fence expected seq held trips ok h sound = record {
    folds = λ key s p.
        let f = sound.folds key s p in
        let (_, above, last) = append-IsOrdered codec t t' anchor entry fence expected seq ok h in
        let b = text_eq anchor key && leb 0 seq in
        record {
          log = f.log ++ (if b then (seq, entry) ∷ [] else []);
          read =
              entries-append codec t t' anchor key entry fence expected seq 0 f.log trips h f.read;
          folded =
              ap (λ (l : Log). resume sightings none 0 l)
                (shown_upto s.anchor.head seq entry f.log b (omega (arith, f.within, above)))
              ∙ f.folded;
          within = omega (arith, f.within, above, last);
        };
  }

  pub FaithfulWriting-IsSound :
      (codec : Codec) (held : Checkpoints) {t u : Table}
      → IsOrdered t
      → IsSound codec t held
      → FaithfulWriting codec t u
      → IsSound codec u held
  FaithfulWriting-IsSound codec held ok sound (idle t) = sound
  FaithfulWriting-IsSound codec held ok sound
        (adds {t} {u} anchor entry fence expected seq trips h more) =
      FaithfulWriting-IsSound codec held
        (append-IsOrdered codec t u anchor entry fence expected seq ok h).0
        (append-IsSound codec t u anchor entry fence expected seq held trips ok h sound) more
