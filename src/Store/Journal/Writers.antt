-- ===== src/Store/Journal/Writers.antt =====
-- crates/gmr-store/src/sqlite/journal.rs, append: writers that computed from the same head.
use gmr.Support.{ℕ, suc, ◌≤◌, ◌<◌, List, [], ◌∷◌, ◌++◌, true, ◌≡◌, ◌≢◌, subst, ◌∙◌, arith}
use gmr.Support.Text.{Text, text_eq, text_eq_refl}
use gmr.Json.{Platform}
use gmr.Core.Journal.{Seq, Entry}
use gmr.Store.Journal.{Fence, Expected, head, done, Row, Table, anchor_head, Codec, row_of, append}
use gmr.Store.Journal.Chain.{append-Appends}
use gmr.Store.Journal.Entries.{append-head}

-- No row has a number that was not given out.
pub record IsNumbered (t : Table) : Type 0 where
  pub numbered : (anchor : Text) → anchor_head anchor t.rows ≤ t.last

anchor_head-le :
    (a : Text) (rows : List Row) (row : Row) (n : ℕ)
    → anchor_head a rows ≤ n
    → row.seq ≤ n
    → anchor_head a (rows ++ row ∷ []) ≤ n
unfolding anchor_head
anchor_head-le a [] row n h k = ground arith
anchor_head-le a (r ∷ rows) row n h k = ground (arith, anchor_head-le a rows row n)

anchor_head-ge :
    (a : Text) (rows : List Row) (row : Row)
    → text_eq row.anchor a ≡ true
    → row.seq ≤ anchor_head a (rows ++ row ∷ [])
unfolding anchor_head
anchor_head-ge a [] row h = ground arith
anchor_head-ge a (r ∷ rows) row h = ground (arith, anchor_head-ge a rows row h)

anchor_head-grows :
    (a : Text) (rows : List Row) (row : Row) → anchor_head a rows ≤ anchor_head a (rows ++ row ∷ [])
unfolding anchor_head
anchor_head-grows a [] row = ground arith
anchor_head-grows a (r ∷ rows) row = ground (arith, anchor_head-grows a rows row)

module _ ⦃host : Platform⦄ where
  -- An append that succeeds keeps the table numbered, and moves the anchor's head to the number
  -- that it gives.
  pub append-IsNumbered :
      (codec : Codec) (t t' : Table) (anchor : Text) (entry : Entry) (fence : Fence)
      (expected : Expected) (seq : Seq)
      → IsNumbered t
      → append codec t anchor entry fence expected ≡ done (seq, t')
      → IsNumbered t' × (anchor_head anchor t'.rows ≡ seq) × (anchor_head anchor t.rows < seq)
  append-IsNumbered codec t t' anchor entry fence expected seq ok h =
      let (body, hash, _, _, _, given, made) =
        append-Appends codec t anchor entry fence expected seq t' h in
      let row = row_of t anchor fence body hash in
      let below = λ (a : Text).
        anchor_head-le a t.rows row (suc t.last) (omega (arith, ok.numbered a)) (omega arith) in
      let above : suc t.last ≤ anchor_head anchor (t.rows ++ row ∷ []) =
        anchor_head-ge anchor t.rows row (text_eq_refl anchor) in
      let same : anchor_head anchor (t.rows ++ row ∷ []) ≡ suc t.last =
        omega (arith, below anchor, above) in
      (
        subst IsNumbered made (record { numbered = below }),
        subst (λ (u : Table). anchor_head anchor u.rows ≡ seq) made (same ∙ given),
        omega (arith, ok.numbered anchor, given),
      )

  -- What writers do, one after the other, to any logs.
  pub data Writing (codec : Codec) : Table → Table → Type 0 where
    rests : (t : Table) → Writing codec t t
    writes :
        {t u v : Table} (anchor : Text) (entry : Entry) (fence : Fence) (expected : Expected)
        (seq : Seq)
        → append codec t anchor entry fence expected ≡ done (seq, u)
        → Writing codec u v
        → Writing codec t v

  append-grows :
      (codec : Codec) (t t' : Table) (anchor a : Text) (entry : Entry) (fence : Fence)
      (expected : Expected) (seq : Seq)
      → append codec t anchor entry fence expected ≡ done (seq, t')
      → anchor_head a t.rows ≤ anchor_head a t'.rows
  append-grows codec t t' anchor a entry fence expected seq h =
      let (body, hash, _, _, _, _, made) =
        append-Appends codec t anchor entry fence expected seq t' h in
      subst (λ (u : Table). anchor_head a t.rows ≤ anchor_head a u.rows) made
        (anchor_head-grows a t.rows (row_of t anchor fence body hash))

  pub Writing-grows :
      (codec : Codec) (a : Text) {t u : Table}
      → Writing codec t u
      → anchor_head a t.rows ≤ anchor_head a u.rows
  Writing-grows codec a (rests t) = omega arith
  Writing-grows codec a (writes {t} {u} anchor entry fence expected seq h more) = omega (
    arith,
    append-grows codec t u anchor a entry fence expected seq h,
    Writing-grows codec a more,
  )

  -- In a table whose rows have numbers that were given out, of two writers that computed from the
  -- same head of an anchor's log only one appends, whatever is written in between.
  pub append_once :
      (codec : Codec) (t t' u v : Table) (anchor : Text) (entry later : Entry)
      (fence fence' : Fence) (at seq seq' : Seq)
      → IsNumbered t
      → append codec t anchor entry fence (head at) ≡ done (seq, t')
      → Writing codec t' u
      → append codec u anchor later fence' (head at) ≢ done (seq', v)
  append_once codec t t' u v anchor entry later fence fence' at seq seq' ok h more k =
      let (_, now, greater) = append-IsNumbered codec t t' anchor entry fence (head at) seq ok h in
      absurd (
        omega (
          arith,
          now,
          greater,
          Writing-grows codec anchor more,
          append-head codec t t' anchor entry fence at seq h,
          append-head codec u v anchor later fence' at seq' k,
        ))
