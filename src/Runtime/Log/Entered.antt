-- ===== src/Runtime/Log/Entered.antt =====
-- crates/gmr-runtime/src/log.rs: an append under the head that standing found, as `close` and `revise`
-- make it, while others may append in between.
use gmr.Support.{
  ℕ, [], ◌∷◌, ◌++◌, ◌&&◌, true, Option, none, some, if◌then◌else◌, leb, ◌≡◌, refl, ap, sym, ◌∙◌,
  arith,
}
use gmr.Support.Text.{Text, text_eq, text_eq_refl}
use gmr.Json.{Platform}
use gmr.Core.Journal.{Seq, Entry, AnchorState, resume, fold, advance}
use gmr.Core.Journal.Runs.{fold-run, resume-run, run-snoc}
use gmr.Store.Journal.{Fence, head, done, Table, Codec, append, entries}
use gmr.Store.Journal.Chain.{ReadsBack}
use gmr.Store.Journal.Entries.{Log, entries-append, append-head}
use gmr.Store.Journal.Ordered.{IsOrdered, append-IsOrdered}
use gmr.Store.Journal.Steady.{FaithfulWriting-IsOrdered, FaithfulWriting_steady}
use gmr.Store.Journal.Steady.{FaithfulWriting}
use gmr.Runtime.Log.{Stood, Checkpoints, sightings, stood_of, stood_from, kept, stood}
use gmr.Runtime.Log.Sound.{
  IsSound, append-IsSound, FaithfulWriting-IsSound, stood-Stands, from_start, fold_within,
}

module _ ⦃host : Platform⦄ where
  -- The whole of the anchor's log before the append, with what it folded to, and after it.
  pub record Entered (codec : Codec) (key : Text) (held : Checkpoints) (s : AnchorState) (seq : Seq)
      (entry : Entry) (before after : Table) : Type 0 where
    pub log : Log
    pub was : entries codec before key 0 ≡ done log
    pub is_fold : fold log ≡ some s
    pub read : entries codec after key 0 ≡ done (log ++ (seq, entry) ∷ [])
    pub ordered : IsOrdered after
    pub sound : IsSound codec after held

  abbrev pub IsReady : Codec → Table → Checkpoints → Type 0
  IsReady codec t held = IsOrdered t × IsSound codec t held

  pub own_entry :
      (key : Text) (seq : Seq) (entry : Entry) (es : Log)
      → es ++ (if text_eq key key && leb 0 seq then (seq, entry) ∷ [] else [])
        ≡ es ++ (seq, entry) ∷ []
  own_entry key seq entry es = rw (text_eq_refl key, at_least seq) refl
    where
      at_least : (n : ℕ) → leb 0 n ≡ true
      at_least n = ground arith

  pub append-Entered :
      (codec : Codec) (t u v : Table) (key : Text) (held held' : Checkpoints) (found : Stood)
      (entry : Entry) (fence : Fence) (seq : Seq)
      → ReadsBack codec entry
      → IsReady codec t held
      → FaithfulWriting codec t u
      → stood codec t held key ≡ done (some found, held')
      → append codec u key entry fence (head found.anchor.head) ≡ done (seq, v)
      → Entered codec key held' found.anchor seq entry u v
  append-Entered codec t u v key held held' found entry fence seq trips ready only h k =
      let st = stood-Stands codec t key held held' (some found) ready.0 ready.1 h in
      let le = fold_within codec t key st.log found.anchor ready.0 st.read (sym st.is_fold) in
      let at = append-head codec u v key entry fence found.anchor.head seq k in
      let still =
        FaithfulWriting_steady codec key st.log ready.0 only (omega (arith, le, at)) st.read in
      let ordered = FaithfulWriting-IsOrdered codec ready.0 only in
      record {
        log = st.log;
        was = still;
        is_fold = sym st.is_fold;
        read =
            entries-append codec u v key key entry fence (head found.anchor.head) seq 0 st.log trips
              k still
            ∙ ap done (own_entry key seq entry st.log);
        ordered =
            (append-IsOrdered codec u v key entry fence (head found.anchor.head) seq ordered k).0;
        sound =
            append-IsSound codec u v key entry fence (head found.anchor.head) seq held' trips
              ordered k (FaithfulWriting-IsSound codec held' ready.0 st.sound only);
      }

  pub fold_snoc :
      (log : Log) (seq : Seq) (entry : Entry)
      → fold (log ++ (seq, entry) ∷ []) ≡ advance (fold log) seq entry
  fold_snoc log seq entry =
      fold-run (log ++ (seq, entry) ∷ [])
      ∙ (run-snoc none log seq entry ∙ ap (λ a. advance a seq entry) (sym (fold-run log)))

  stands_at :
      (held : Checkpoints) (key : Text) (s : AnchorState) (r : Option AnchorState × ℕ)
      → r.0 ≡ some s
      → (n : ℕ) × (stood_of r ≡ some (record { anchor = s; logged = n }))
  stands_at held key s (some a, n) p = (n, cc)
  stands_at held key s (none, n) p = cc

  -- Where the log of a table can be read and folds to a state, standing finds that state.
  pub stood_ready :
      (codec : Codec) (t : Table) (key : Text) (held : Checkpoints) (es : Log) (s : AnchorState)
      → IsReady codec t held
      → entries codec t key 0 ≡ done es
      → fold es ≡ some s
      → (n : ℕ) × (held' : Checkpoints) × (stood codec t held key
          ≡ done (some (record { anchor = s; logged = n }), held'))
  unfolding stood stood_from
  stood_ready codec t key held es s ready read h =
      let folded : (resume sightings none 0 es).0 ≡ some s =
        resume-run sightings none 0 es ∙ (sym (fold-run es) ∙ h) in
      let (n, p) = stands_at held key s (resume sightings none 0 es) folded in
      let o : Stood = record { anchor = s; logged = n } in
      (
        n,
        kept held key (some o),
        rw (stood, from_start codec t held key (held key) ready.0 ready.1 refl, stood_from, read, p)
            refl,
      )
