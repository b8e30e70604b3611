-- ===== src/Store/Journal/Steady.antt =====
-- crates/gmr-store/src/sqlite/journal.rs, append: a log whose head has not moved is the same log.
use gmr.Support.{
  ◌≤◌, List, [], ◌∷◌, ◌++◌, false, ◌≡◌, refl, ap, ◌∙◌, subst, arith, Bool-cases, inl, inr,
}
use gmr.Support.Text.{Text, text_eq, text_eq_iff}
use gmr.Json.{Platform}
use gmr.Core.Journal.{Seq, Entry}
use gmr.Store.Journal.{Fence, Expected, done, Row, Table, anchor_head, Codec, append, entries}
use gmr.Store.Journal.Chain.{ReadsBack}
use gmr.Store.Journal.Entries.{Log, entries-append}
use gmr.Store.Journal.Ordered.{Ascends, IsOrdered, append-IsOrdered}
use gmr.Store.Journal.Writers.{IsNumbered, append-IsNumbered, Writing, Writing-grows}

Ascends-low : (low high : Seq) (rows : List Row) → Ascends low rows high → low ≤ high
Ascends-low low high [] h = h
Ascends-low low high (row ∷ rows) h = omega (arith, h.0, Ascends-low row.seq high rows h.1)

Ascends-anchor_head :
    (a : Text) (low high : Seq) (rows : List Row)
    → Ascends low rows high
    → anchor_head a rows ≤ high
unfolding anchor_head
Ascends-anchor_head a low high [] h = omega arith
Ascends-anchor_head a low high (row ∷ rows) h =
    let below = Ascends-low row.seq high rows h.1 in
    let rest = Ascends-anchor_head a row.seq high rows h.1 in ground arith

pub IsOrdered-IsNumbered : (t : Table) → IsOrdered t → IsNumbered t
IsOrdered-IsNumbered t ok = record {
  numbered = λ a. Ascends-anchor_head a 0 t.last t.rows ok.ascends;
}

module _ ⦃host : Platform⦄ where
  -- What writers do, one after the other, to any logs, with entries whose texts read back as them.
  pub data FaithfulWriting (codec : Codec) : Table → Table → Type 0 where
    idle : (t : Table) → FaithfulWriting codec t t
    adds :
        {t u v : Table} (anchor : Text) (entry : Entry) (fence : Fence) (expected : Expected)
        (seq : Seq)
        → ReadsBack codec entry
        → append codec t anchor entry fence expected ≡ done (seq, u)
        → FaithfulWriting codec u v
        → FaithfulWriting codec t v

  FaithfulWriting-Writing :
      (codec : Codec) {t u : Table} → FaithfulWriting codec t u → Writing codec t u
  FaithfulWriting-Writing codec (idle t) = Writing.rests t
  FaithfulWriting-Writing codec (adds anchor entry fence expected seq trips h more) =
      Writing.writes anchor entry fence expected seq h (FaithfulWriting-Writing codec more)

  pub FaithfulWriting-IsOrdered :
      (codec : Codec) {t u : Table} → IsOrdered t → FaithfulWriting codec t u → IsOrdered u
  FaithfulWriting-IsOrdered codec ok (idle t) = ok
  FaithfulWriting-IsOrdered codec ok (adds {t} {u} anchor entry fence expected seq trips h more) =
      FaithfulWriting-IsOrdered codec
        (append-IsOrdered codec t u anchor entry fence expected seq ok h).0 more

  pub FaithfulWriting_trans :
      (codec : Codec) {t u v : Table}
      → FaithfulWriting codec t u
      → FaithfulWriting codec u v
      → FaithfulWriting codec t v
  FaithfulWriting_trans codec (idle t) w = w
  FaithfulWriting_trans codec (adds anchor entry fence expected seq trips h more) w =
      adds anchor entry fence expected seq trips h (FaithfulWriting_trans codec more w)

  unshown :
      (codec : Codec) (t u : Table) (key anchor : Text) (entry : Entry) (fence : Fence)
      (expected : Expected) (seq : Seq) (es : Log)
      → ReadsBack codec entry
      → append codec t anchor entry fence expected ≡ done (seq, u)
      → text_eq anchor key ≡ false
      → entries codec t key 0 ≡ done es
      → entries codec u key 0 ≡ done es
  unshown codec t u key anchor entry fence expected seq es trips h q read =
      entries-append codec t u anchor key entry fence expected seq 0 es trips h read
      ∙ ap done (rw q (append_nil es))
    where
      append_nil : (es : Log) → es ++ [] ≡ es
      append_nil [] = refl
      append_nil (e ∷ es) = ap (λ (l : Log). e ∷ l) (append_nil es)

  -- Where a log's head is still a number that had been given out before, nobody has written to it.
  pub FaithfulWriting_steady :
      (codec : Codec) (key : Text) (es : Log) {t u : Table}
      → IsOrdered t
      → FaithfulWriting codec t u
      → anchor_head key u.rows ≤ t.last
      → entries codec t key 0 ≡ done es
      → entries codec u key 0 ≡ done es
  FaithfulWriting_steady codec key es ok (idle t) le read = read
  FaithfulWriting_steady codec key es ok
        (adds {t} {u} {v} anchor entry fence expected seq trips h more) le read =
      let (ok', above, last) = append-IsOrdered codec t u anchor entry fence expected seq ok h in
      elim (Bool-cases (text_eq anchor key)) [
        | inl q ↦
            let (_, at, _) =
              append-IsNumbered codec t u anchor entry fence expected seq
                (IsOrdered-IsNumbered t ok) h in
            let at' : anchor_head key u.rows ≡ seq =
              subst (λ (k : Text). anchor_head k u.rows ≡ seq) ((text_eq_iff anchor key).0 q) at in
            absurd (
              omega (
                arith,
                at',
                above,
                le,
                Writing-grows codec key (FaithfulWriting-Writing codec more),
              ))
        | inr q ↦
            FaithfulWriting_steady codec key es ok' more (omega (arith, le, above, last))
              (unshown codec t u key anchor entry fence expected seq es trips h q read)
      ]
