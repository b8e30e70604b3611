-- ===== src/Store/Journal/Entries.antt =====
-- crates/gmr-store/src/sqlite/journal.rs, append and entries: what an append adds to each log.
use gmr.Support.{
  suc, List, [], ◌∷◌, ◌++◌, Bool, ◌&&◌, some, if◌then◌else◌, ==_iff, leb, ◌≡◌, refl, subst, arith,
  Bool-cases, inl, inr,
}
use gmr.Support.Text.{Text, text_eq}
use gmr.Json.{Platform}
use gmr.Core.Journal.{Seq, Entry}
use gmr.Store.Journal.{
  Fence, Expected, head, Stored, done, failed, ◌>>=◌, Row, Table, guard, anchor_head, Codec,
  decoded, row_of, append, entries_of, entries,
}
use gmr.Store.Journal.Chain.{ReadsBack, append-Appends}

module _ ⦃host : Platform⦄ where
  abbrev pub Log : Type 0
  Log = List (Seq × Entry)

  abbrev pub shown : Text → Seq → Row → Bool
  shown anchor from row = text_eq row.anchor anchor && leb from row.seq

  ahead :
      (d : Stored (Seq × Entry)) (before after : Stored Log) (tail : Log)
      → ((es : Log) → before ≡ done es → after ≡ done (es ++ tail))
      → (es : Log) → (d >>= λ e. before >>= λ es'. done (e ∷ es')) ≡ done es
      → (d >>= λ e. after >>= λ es'. done (e ∷ es')) ≡ done (es ++ tail)
  ahead (failed x) before after tail k es h = cc
  ahead (done e) (failed x) after tail k es h = cc
  ahead (done e) (done es') after tail k es h = rw (k es' refl) cc

  -- A row behind the others adds its entry at the end, where it is asked for.
  entries_of-snoc :
      (codec : Codec) (anchor : Text) (from : Seq) (rows : List Row) (row : Row) (es : Log)
      (e : Entry)
      → entries_of codec anchor from rows ≡ done es
      → decoded codec row ≡ done (row.seq, e)
      → entries_of codec anchor from (rows ++ row ∷ [])
        ≡ done (es ++ (if shown anchor from row then (row.seq, e) ∷ [] else []))
  unfolding entries_of
  entries_of-snoc codec anchor from [] row es e h d = elim (Bool-cases (shown anchor from row)) [
    | inl q ↦ rw (q, d) cc
    | inr q ↦ rw q cc
  ]
  entries_of-snoc codec anchor from (r ∷ rows) row es e h d =
      elim (Bool-cases (shown anchor from r)) [
        | inl q ↦
            rw (entries_of, q)
              (ahead (decoded codec r) (entries_of codec anchor from rows)
                (entries_of codec anchor from (rows ++ row ∷ [])) _
                (λ es' k. entries_of-snoc codec anchor from rows row es' e k d) es
                (rw (entries_of, q) at h))
        | inr q ↦
            rw (entries_of, q)
              (entries_of-snoc codec anchor from rows row es e (rw (entries_of, q) at h) d)
      ]

  new_row_decoded :
      (codec : Codec) (t : Table) (anchor : Text) (fence : Fence) (body hash : Text) (e : Entry)
      → codec.from_str body ≡ some e
      → decoded codec (row_of t anchor fence body hash) ≡ done (suc t.last, e)
  unfolding decoded
  new_row_decoded codec t anchor fence body hash e p = rw (decoded, p) refl

  -- What an append that succeeds leaves to be read: every log from every number on as before, and
  -- the entry behind it, under the number that the append gave, in the log of its anchor, where
  -- the text of the entry reads back as it.
  pub entries-append :
      (codec : Codec) (t t' : Table) (anchor other : Text) (entry : Entry) (fence : Fence)
      (expected : Expected) (seq from : Seq) (es : Log)
      → ReadsBack codec entry
      → append codec t anchor entry fence expected ≡ done (seq, t')
      → entries codec t other from ≡ done es
      → entries codec t' other from
        ≡ done (es ++ (if text_eq anchor other && leb from seq then (seq, entry) ∷ [] else []))
  unfolding entries
  entries-append codec t t' anchor other entry fence expected seq from es trips h k =
      let (body, hash, p, q, r, numbered, made) =
        append-Appends codec t anchor entry fence expected seq t' h in
      let row = row_of t anchor fence body hash in
      let added =
        entries_of-snoc codec other from t.rows row es entry k
          (new_row_decoded codec t anchor fence body hash entry (trips body p)) in
      subst
        (λ (n : Seq).
          entries_of codec other from t'.rows
          ≡ done (es ++ (if text_eq anchor other && leb from n then (n, entry) ∷ [] else [])))
        numbered
        (subst
          (λ (u : Table).
            entries_of codec other from u.rows
            ≡ done (
                es
                ++ (if text_eq anchor other && leb from (suc t.last)
                    then (suc t.last, entry) ∷ []
                    else [])))
          made added)

  guard-head : (expected at : Seq) → guard (head expected) at ≡ done tt → expected ≡ at
  unfolding guard
  guard-head expected at h = ground (arith, ==_iff expected at)

  -- An append that expects a head succeeds only where the anchor's log stands at that head.
  pub append-head :
      (codec : Codec) (t t' : Table) (anchor : Text) (entry : Entry) (fence : Fence) (at seq : Seq)
      → append codec t anchor entry fence (head at) ≡ done (seq, t')
      → at ≡ anchor_head anchor t.rows
  append-head codec t t' anchor entry fence at seq h =
      let (body, hash, p, q, r, numbered, made) =
        append-Appends codec t anchor entry fence (head at) seq t' h in
      guard-head at (anchor_head anchor t.rows) q
