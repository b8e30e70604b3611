-- ===== src/Store/Journal/Since.antt =====
-- crates/gmr-store/src/sqlite/journal.rs, entries: a log from a number on is a part of the whole log.
use gmr.Support.{
  ℕ, List, [], ◌∷◌, true, if◌then◌else◌, leb, ◌≡◌, refl, subst, arith, Bool-cases, Option-cases,
  inl, inr,
}
use gmr.Support.Text.{Text, text_eq}
use gmr.Json.{Platform}
use gmr.Core.Journal.{Seq, Entry}
use gmr.Store.Journal.{Stored, done, failed, ◌>>=◌, Row, Table, Codec, decoded, entries_of, entries}
use gmr.Store.Journal.Entries.{Log}

module _ ⦃host : Platform⦄ where
  -- The entries numbered from `n` on.
  unfoldable pub since : Seq → Log → Log
  since n [] = []
  since n ((seq, e) ∷ es) = let rest = since n es in if leb n seq then (seq, e) ∷ rest else rest

  kept_since :
      (n seq : Seq) (e : Entry) (before after : Stored Log) (es : Log)
      → ((es' : Log) → before ≡ done es' → after ≡ done (since n es'))
      → (before >>= λ es'. done ((seq, e) ∷ es')) ≡ done es
      → (if leb n seq then (after >>= λ es'. done ((seq, e) ∷ es')) else after) ≡ done (since n es)
  unfolding since
  kept_since n seq e (failed x) after es k h = cc
  kept_since n seq e (done es') after es k h =
      let same : ((seq, e) ∷ es') ≡ es = cc in
      subst
        (λ (xs : Log).
          (if leb n seq then (after >>= λ es'. done ((seq, e) ∷ es')) else after)
          ≡ done (since n xs))
        same
        (elim (Bool-cases (leb n seq)) [
          | inl q ↦ rw (q, k es' refl) refl
          | inr q ↦ rw (q, k es' refl) refl
        ])

  shown_since :
      (codec : Codec) (n : Seq) (row : Row) (before after : Stored Log) (es : Log)
      → ((es' : Log) → before ≡ done es' → after ≡ done (since n es'))
      → (decoded codec row >>= λ e. before >>= λ es'. done (e ∷ es')) ≡ done es
      → (if leb n row.seq
          then (decoded codec row >>= λ e. after >>= λ es'. done (e ∷ es'))
          else after)
        ≡ done (since n es)
  unfolding decoded
  shown_since codec n row before after es k h = elim (Option-cases (codec.from_str row.body)) [
    | inl p ↦ let x = rw (decoded, p) at h in cc
    | inr (e, p) ↦ rw (decoded, p) (kept_since n row.seq e before after es k (rw (decoded, p) at h))
  ]

  leb_zero : (n : ℕ) → leb 0 n ≡ true
  leb_zero n = ground arith

  entries_of-since :
      (codec : Codec) (key : Text) (n : Seq) (rows : List Row) (es : Log)
      → entries_of codec key 0 rows ≡ done es
      → entries_of codec key n rows ≡ done (since n es)
  unfolding entries_of since
  entries_of-since codec key n [] [] h = refl
  entries_of-since codec key n [] (e ∷ es) h = cc
  entries_of-since codec key n (row ∷ rows) es h = elim (Bool-cases (text_eq row.anchor key)) [
    | inl q ↦
        rw (entries_of, q)
          (shown_since codec n row (entries_of codec key 0 rows) (entries_of codec key n rows) es
            (entries_of-since codec key n rows) (rw (entries_of, q, leb_zero row.seq) at h))
    | inr q ↦ rw (entries_of, q) (entries_of-since codec key n rows es (rw (entries_of, q) at h))
  ]

  pub entries-since :
      (codec : Codec) (t : Table) (key : Text) (n : Seq) (es : Log)
      → entries codec t key 0 ≡ done es
      → entries codec t key n ≡ done (since n es)
  unfolding entries
  entries-since codec t key n es h = entries_of-since codec key n t.rows es h
