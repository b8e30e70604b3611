-- ===== src/Store/Journal/Ordered.antt =====
-- crates/gmr-store/src/sqlite/journal.rs: the numbers of the rows, and of a log, rise.
use gmr.Support.{
  ◌+◌, ◌≤◌, ◌<◌, List, [], ◌∷◌, ◌++◌, ◌&&◌, if◌then◌else◌, leb, ◌≡◌, refl, subst, arith, All,
  Bool-cases, Option-cases, inl, inr,
}
use gmr.Support.Text.{Text, text_eq}
use gmr.Json.{Platform}
use gmr.Core.Journal.{Seq, Entry}
use gmr.Store.Journal.{
  Fence, Expected, Stored, done, failed, ◌>>=◌, Row, Table, Codec, row_of, append, decoded,
  entries_of, entries,
}
use gmr.Store.Journal.Chain.{append-Appends}
use gmr.Store.Journal.Entries.{Log}
use gmr.Store.Journal.Since.{since}

-- Rising numbers, above `low` and at most `high`.
abbrev pub Ascends : Seq → List Row → Seq → Type 0
Ascends low [] high = low ≤ high
Ascends low (row ∷ rows) high = (low < row.seq) × Ascends row.seq rows high

-- The rows stand in the order of their numbers, and the table has given out the last of them.
pub record IsOrdered (t : Table) : Type 0 where
  pub ascends : Ascends 0 t.rows t.last

Ascends-snoc :
    (low high : Seq) (rows : List Row) (row : Row)
    → Ascends low rows high
    → high < row.seq
    → Ascends low (rows ++ row ∷ []) row.seq
Ascends-snoc low high [] row h k = (omega arith, omega arith)
Ascends-snoc low high (r ∷ rows) row h k = (h.0, Ascends-snoc r.seq high rows row h.1 k)

module _ ⦃host : Platform⦄ where
  pub append-IsOrdered :
      (codec : Codec) (t t' : Table) (anchor : Text) (entry : Entry) (fence : Fence)
      (expected : Expected) (seq : Seq)
      → IsOrdered t
      → append codec t anchor entry fence expected ≡ done (seq, t')
      → IsOrdered t' × (t.last < seq) × (t'.last ≡ seq)
  append-IsOrdered codec t t' anchor entry fence expected seq ok h =
      let (body, hash, _, _, _, given, made) =
        append-Appends codec t anchor entry fence expected seq t' h in
      let row = row_of t anchor fence body hash in
      (
        subst IsOrdered made
            (record { ascends = Ascends-snoc 0 t.last t.rows row ok.ascends (omega arith) }),
        omega (arith, given),
        subst (λ (u : Table). u.last ≡ seq) made given,
      )

  -- The same of a log.
  abbrev pub Rising : Seq → Log → Seq → Type 0
  Rising low [] high = low ≤ high
  Rising low ((seq, e) ∷ es) high = (low < seq) × Rising seq es high

  Rising-above :
      (low low' high : Seq) (es : Log) → low ≤ low' → Rising low' es high → Rising low es high
  Rising-above low low' high [] h r = omega arith
  Rising-above low low' high ((seq, e) ∷ es) h r = (omega (arith, r.0), r.1)

  shown_rises :
      (low high seq : Seq) (e : Entry) (rest : Stored Log) (es : Log)
      → ((es' : Log) → rest ≡ done es' → Rising seq es' high)
      → low < seq
      → (rest >>= λ es'. done ((seq, e) ∷ es')) ≡ done es
      → Rising low es high
  shown_rises low high seq e (failed x) es k l h = cc
  shown_rises low high seq e (done es') es k l h =
      let same : ((seq, e) ∷ es') ≡ es = cc in
      subst (λ (xs : Log). Rising low xs high) same (l, k es' refl)

  decoded_rises :
      (codec : Codec) (low high : Seq) (row : Row) (rest : Stored Log) (es : Log)
      → ((es' : Log) → rest ≡ done es' → Rising row.seq es' high)
      → low < row.seq
      → (decoded codec row >>= λ e. rest >>= λ es'. done (e ∷ es')) ≡ done es
      → Rising low es high
  unfolding decoded
  decoded_rises codec low high row rest es k l h = elim (Option-cases (codec.from_str row.body)) [
    | inl p ↦ let x = rw (decoded, p) at h in cc
    | inr (e, p) ↦ shown_rises low high row.seq e rest es k l (rw (decoded, p) at h)
  ]

  entries_of-Rising :
      (codec : Codec) (key : Text) (from low high : Seq) (rows : List Row) (es : Log)
      → Ascends low rows high
      → entries_of codec key from rows ≡ done es
      → Rising low es high
  unfolding entries_of
  entries_of-Rising codec key from low high [] [] a h = a
  entries_of-Rising codec key from low high [] (e ∷ es) a h = cc
  entries_of-Rising codec key from low high (row ∷ rows) es a h =
      elim (Bool-cases (text_eq row.anchor key && leb from row.seq)) [
        | inl q ↦
            decoded_rises codec low high row (entries_of codec key from rows) es
              (λ es' k. entries_of-Rising codec key from row.seq high rows es' a.1 k) a.0
              (rw (entries_of, q) at h)
        | inr q ↦
            Rising-above low row.seq high es (omega (arith, a.0))
              (entries_of-Rising codec key from row.seq high rows es a.1 (rw (entries_of, q) at h))
      ]

  -- The numbers of a log rise, and none is above the last that the table has given out.
  pub entries-Rising :
      (codec : Codec) (t : Table) (key : Text) (from : Seq) (es : Log)
      → IsOrdered t
      → entries codec t key from ≡ done es
      → Rising 0 es t.last
  unfolding entries
  entries-Rising codec t key from es ok h =
      entries_of-Rising codec key from 0 t.last t.rows es ok.ascends h

  -- The entries numbered up to `n`.
  unfoldable pub upto : Seq → Log → Log
  upto n [] = []
  upto n ((seq, e) ∷ es) = let rest = upto n es in if leb seq n then (seq, e) ∷ rest else rest

  above_all :
      (n low high : Seq) (es : Log)
      → n ≤ low
      → Rising low es high
      → (upto n es ≡ []) × (since (n + 1) es ≡ es)
  unfolding upto since
  above_all n low high [] h r = (refl, refl)
  above_all n low high ((seq, e) ∷ es) h r =
      let (p, q) = above_all n seq high es (omega (arith, r.0)) r.1 in
      let l = r.0 in (ground arith, ground arith)

  pub upto-since :
      (n low high : Seq) (es : Log) → Rising low es high → upto n es ++ since (n + 1) es ≡ es
  unfolding upto since
  upto-since n low high [] r = refl
  upto-since n low high ((seq, e) ∷ es) r =
      let ih = upto-since n seq high es r.1 in
      let past = λ (k : n ≤ seq). above_all n seq high es k r.1 in
      elim (Bool-cases (leb seq n)) [
        | inl q ↦ ground arith
        | inr q ↦ let (p, s) = past (ground arith) in rw (upto, since, q, p) ground arith
      ]

  pub upto-all : (n low high : Seq) (es : Log) → high ≤ n → Rising low es high → upto n es ≡ es
  unfolding upto
  upto-all n low high [] h r = refl
  upto-all n low high ((seq, e) ∷ es) h r =
      let ih = upto-all n seq high es h r.1 in let l = at_most seq high es r.1 in ground arith
    where
      at_most : (low high : Seq) (es : Log) → Rising low es high → low ≤ high
      at_most low high [] r = r
      at_most low high ((seq, e) ∷ es) r = omega (arith, r.0, at_most seq high es r.1)

  pub upto-snoc :
      (n seq : Seq) (e : Entry) (es : Log) → n < seq → upto n (es ++ (seq, e) ∷ []) ≡ upto n es
  unfolding upto
  upto-snoc n seq e [] h = ground arith
  upto-snoc n seq e ((s, x) ∷ es) h = ground (arith, upto-snoc n seq e es h)

  pub upto-Below : (n : Seq) (es : Log) → All (λ (e : Seq × Entry). e.0 ≤ n) (upto n es)
  unfolding upto
  upto-Below n [] = tt
  upto-Below n ((seq, e) ∷ es) = elim (Bool-cases (leb seq n)) [
    | inl q ↦ rw (upto, q) (ground arith, upto-Below n es)
    | inr q ↦ rw (upto, q) (upto-Below n es)
  ]

  pub since-Above : (n : Seq) (es : Log) → All (λ (e : Seq × Entry). n < e.0) (since (n + 1) es)
  unfolding since
  since-Above n [] = tt
  since-Above n ((seq, e) ∷ es) = elim (Bool-cases (leb (n + 1) seq)) [
    | inl q ↦ rw (since, q) (ground arith, since-Above n es)
    | inr q ↦ rw (since, q) (since-Above n es)
  ]

  -- Up to the last of its entries a log is whole.
  pub Rising-last :
      (low high seq : Seq) (e : Entry) (es : Log)
      → Rising low (es ++ (seq, e) ∷ []) high
      → Rising low (es ++ (seq, e) ∷ []) seq × (seq ≤ high)
  Rising-last low high seq e [] r = ((r.0, omega arith), r.1)
  Rising-last low high seq e ((s, x) ∷ es) r =
      let (p, q) = Rising-last s high seq e es r.1 in ((r.0, p), q)
