-- ===== src/Runtime/Close/Final.antt =====
-- crates/gmr-runtime/src/close.rs: what a close leaves, and what it answers when it is done again.
use gmr.Support.{
  ℕ, List, [], ◌∷◌, ◌++◌, true, false, Option, none, some, ◌≡◌, refl, ap, ◌∙◌, subst, Bool-cases,
  inl, inr,
}
use gmr.Support.Text.{Text, txt, text_eq}
use gmr.Json.{Platform, null, number, string, object, end, field, Json, insert}
use gmr.Core.Journal.{Seq, Entry, AnchorState, fold, advance}
use gmr.Store.Journal.{unleased, head, Stored, done, failed, Table, append, entries}
use gmr.Store.Journal.Chain.{ReadsBack}
use gmr.Store.Journal.Entries.{Log}
use gmr.Store.Journal.Steady.{FaithfulWriting}
use gmr.Store.Sealer.{
  Sealed, sealed, seal, content_hash_of_bytes, held_or, with_sealed, sealed-with_sealed,
}
use gmr.Runtime.Errors.{ran, refused, anchor_closed}
use gmr.Runtime.Log.{Stood, Checkpoints, stood}
use gmr.Runtime.Log.Entered.{IsReady, Entered, append-Entered, fold_snoc, stood_ready}
use gmr.Runtime.Deployment.{Deployment, Serde, base, entered_value, set_field, with_table}
use gmr.Runtime.Close.{closing_context, closing, close_stored, close_standing, close_stood, close}

module _ ⦃host : Platform⦄ where
  abbrev instant_value : Serde → Option host.Time → Json
  instant_value serde none = null
  instant_value serde (some at) = serde.time_value at

  -- The bytes of the context of a close: where the anchor stood, and who closed it.
  abbrev pub context_bytes : Serde → AnchorState → List ℕ
  context_bytes serde s = host.to_vec (
      object (
        field (txt "at_entry") (number (host.from_usize s.head)) (
          field (txt "state") s.state (
            field (txt "entered_at") (instant_value serde s.entered_at)
              (field (txt "closed_by") (string (txt "author")) end)))))

  -- The anchor was open; its log has been given the entry that closes it, with the hashes of the
  -- context and the rationale, whose bytes stand under them where nothing stood before; and nothing
  -- else that was sealed has changed.
  pub record Closed (serde : Serde) (others : Table → Table) (key : Text) (rationale : List ℕ)
      (at : host.Time) (d d' : Deployment) : Type 0 where
    pub basis : AnchorState
    pub seq : Seq
    pub was_open : basis.closed ≡ false
    pub entered :
        Entered serde.codec key d'.site.held basis seq
          (Entry.close
            (content_hash_of_bytes (context_bytes serde basis))
            (content_hash_of_bytes rationale)
            at)
          (others d.site.table)
          d'.site.table
    pub sealed_are :
        (address : Text)
        → sealed address d'.sealed
          ≡ with_sealed
              (content_hash_of_bytes rationale)
              rationale
              (with_sealed
                (content_hash_of_bytes (context_bytes serde basis))
                (context_bytes serde basis)
                (λ a. sealed a d.sealed))
              address
    pub sighted_is : d.site.sighted ≡ d'.site.sighted

  closing_context-bytes :
      (serde : Serde) (s : AnchorState)
      → host.to_vec (closing_context serde s) ≡ context_bytes serde s
  unfolding closing_context base set_field insert text_eq entered_value
  closing_context-bytes serde s = bytes_at s.entered_at
    where
      bytes_at :
          (o : Option host.Time)
          → host.to_vec (closing_context serde (record s { entered_at = o }))
            ≡ context_bytes serde (record s { entered_at = o })
      bytes_at none = refl
      bytes_at (some at) = refl

  module _ (serde : Serde) (others : Table → Table) (key : Text) (rationale : List ℕ) where
    abbrev Ended : host.Time → Deployment → Deployment → AnchorState → Checkpoints → Type 0
    Ended at d d' s held =
        (s.closed ≡ false)
        × (seq : Seq) × (t : Table) × (append serde.codec (others d.site.table) key
              (closing serde others key rationale at s d.sealed).0 unleased (head s.head)
            ≡ done (seq, t))
        × (record d {
          site = record d.site { table = t; held = held };
          sealed = (closing serde others key rationale at s d.sealed).1;
        }
            ≡ d')

    abbrev closed_entry : host.Time → AnchorState → Entry
    closed_entry at s =
        Entry.close (content_hash_of_bytes (context_bytes serde s))
          (content_hash_of_bytes rationale) at

    closing-entry :
        (at : host.Time) (s : AnchorState) (rows : Sealed)
        → (closing serde others key rationale at s rows).0 ≡ closed_entry at s
    unfolding closing seal
    closing-entry at s rows =
        ap (λ (b : List ℕ). Entry.close (host.sha256 b) (host.sha256 rationale) at)
          (closing_context-bytes serde s)

    closing-sealed :
        (at : host.Time) (s : AnchorState) (rows : Sealed) (address : Text)
        → sealed address (closing serde others key rationale at s rows).1
          ≡ with_sealed
              (content_hash_of_bytes rationale)
              rationale
              (with_sealed
                (content_hash_of_bytes (context_bytes serde s))
                (context_bytes serde s)
                (λ a. sealed a rows))
              address
    unfolding closing
    closing-sealed at s rows address =
        let bytes = host.to_vec (closing_context serde s) in
        sealed-with_sealed rationale (seal bytes rows).1 address
        ∙ (ap
              (λ (o : Option (List ℕ)).
                held_or o (text_eq (content_hash_of_bytes rationale) address) rationale)
              (sealed-with_sealed bytes rows address)
            ∙ ap
                (λ (b : List ℕ).
                  with_sealed (content_hash_of_bytes rationale) rationale
                    (with_sealed (content_hash_of_bytes b) b (λ a. sealed a rows)) address)
                (closing_context-bytes serde s))

    stored_ran :
        (d d' : Deployment) (r : Stored (Seq × Table))
        → close_stored serde others key rationale d r ≡ (ran tt, d')
        → (seq : Seq) × (t : Table) × (r ≡ done (seq, t)) × (with_table d t ≡ d')
    unfolding close_stored
    stored_ran d d' (failed e) h = cc
    stored_ran d d' (done (seq, t)) h = (seq, t, refl, ap (λ p. p.1) h)

    standing_ran :
        (at : host.Time) (d d' : Deployment) (s : AnchorState) (held : Checkpoints)
        → close_standing serde others key rationale at
            (record d { site = record d.site { held = held } })
            s
          ≡ (ran tt, d')
        → Ended at d d' s held
    unfolding close_standing
    standing_ran at d d' s held h = elim (Bool-cases s.closed) [
      | inl q ↦ let k = rw (close_standing, q) at h in cc
      | inr q ↦
          let (seq, t, k, is) = stored_ran _ d' _ (rw (close_standing, q) at h) in
          (q, seq, t, k, is)
    ]

    stood_ran :
        (at : host.Time) (d d' : Deployment) (r : Stored (Option Stood × Checkpoints))
        → close_stood serde others key rationale at d r ≡ (ran tt, d')
        → (found : Stood) × (held : Checkpoints) × (r ≡ done (some found, held))
          × Ended at d d' found.anchor held
    unfolding close_stood
    stood_ran at d d' (failed e) h = cc
    stood_ran at d d' (done (none, held)) h = cc
    stood_ran at d d' (done (some found, held)) h =
        (found, held, refl, standing_ran at d d' found.anchor held h)

    -- Others may append in between, and what is written reads back as it. Where a close succeeds, the
    -- whole of the log, at the append, folded to an open anchor, and has been given the one entry that
    -- closes it, which names the hashes of the context, that is where the anchor stood and who closed
    -- it, and of the rationale; the bytes of both are kept under them, unless some were already, and
    -- nothing else that is sealed has changed.
    pub close-Closed :
        (at : host.Time) (d d' : Deployment)
        → ((context reason : Text) → ReadsBack serde.codec (Entry.close context reason at))
        → IsReady serde.codec d.site.table d.site.held
        → FaithfulWriting serde.codec d.site.table (others d.site.table)
        → close serde others key rationale at d ≡ (ran tt, d')
        → Closed serde others key rationale at d d'
    unfolding close
    close-Closed at d d' trips ready only h =
        let (found, held, p, ended) =
          stood_ran at d d' (stood serde.codec d.site.table d.site.held key) h in
        let (open_then, seq, t, k, is) = ended in
        let s = found.anchor in
        subst (λ (x : Deployment). Closed serde others key rationale at d x) is
          (record {
            basis = s;
            seq = seq;
            was_open = open_then;
            entered =
                append-Entered serde.codec d.site.table (others d.site.table) t key d.site.held held
                  found (closed_entry at s) unleased seq (trips _ _) ready only p
                  (subst
                    (λ (e : Entry).
                      append serde.codec (others d.site.table) key e unleased (head s.head)
                      ≡ done (seq, t))
                    (closing-entry at s d.sealed) k);
            sealed_are = closing-sealed at s d.sealed;
            sighted_is = refl;
          })

    closed_after :
        (at : host.Time) (s : AnchorState) (seq : Seq) (d : Deployment)
        → (s' : AnchorState) × (advance (some s) seq (closed_entry at s) ≡ some s')
          × (s'.closed ≡ true)
          × (s'.state ≡ s.state)
    unfolding advance
    closed_after at s seq d = (_, refl, refl, refl)

    -- What a closed log folds to: the same state, and closed.
    pub Closed-fold :
        (at : host.Time) (d d' : Deployment) (c : Closed serde others key rationale at d d')
        → (log : Log) × (s' : AnchorState) × (entries serde.codec d'.site.table key 0 ≡ done log)
          × (fold log ≡ some s')
          × (s'.closed ≡ true)
          × (s'.state ≡ c.basis.state)
    Closed-fold at d d' c =
        let e = closed_entry at c.basis in
        let (s', p, q, r) = closed_after at c.basis c.seq d in
        (
          c.entered.log ++ (c.seq, e) ∷ [],
          s',
          c.entered.read,
          fold_snoc c.entered.log c.seq e ∙ (ap (λ a. advance a c.seq e) c.entered.is_fold ∙ p),
          q,
          r,
        )

  refused_closed :
      (serde : Serde) (others : Table → Table) (key : Text) (rationale : List ℕ) (at : host.Time)
      (d : Deployment) (found : Stood) (held : Checkpoints)
      → stood serde.codec d.site.table d.site.held key ≡ done (some found, held)
      → found.anchor.closed ≡ true
      → close serde others key rationale at d
        ≡ (refused anchor_closed, record d { site = record d.site { held = held } })
  unfolding close close_stood close_standing
  refused_closed serde others key rationale at d found held p q =
      rw (close, p, close_stood, close_standing, q) refl

  -- After a close that succeeded, another close, whatever its rationale, is refused because the
  -- anchor has finished; it seals nothing, and it writes nothing to any log.
  pub close_once :
      (serde : Serde) (others later : Table → Table) (key : Text) (rationale other : List ℕ)
      (at at' : host.Time) (d d' : Deployment)
      → ((context reason : Text) → ReadsBack serde.codec (Entry.close context reason at))
      → IsReady serde.codec d.site.table d.site.held
      → FaithfulWriting serde.codec d.site.table (others d.site.table)
      → close serde others key rationale at d ≡ (ran tt, d')
      → (held : Checkpoints) × (close serde later key other at' d'
          ≡ (refused anchor_closed, record d' { site = record d'.site { held = held } }))
  close_once serde others later key rationale other at at' d d' trips ready only h =
      let c = close-Closed serde others key rationale at d d' trips ready only h in
      let (log, s', read, folds, closed, same) = Closed-fold serde others key rationale at d d' c in
      let (n, held, p) =
        stood_ready serde.codec d'.site.table key d'.site.held log s'
          (c.entered.ordered, c.entered.sound) read folds in
      (held, refused_closed serde later key other at' d' _ held p closed)
