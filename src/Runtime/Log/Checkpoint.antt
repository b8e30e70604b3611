-- ===== src/Runtime/Log/Checkpoint.antt =====
-- crates/gmr-runtime/src/log.rs, stood: a checkpoint changes nothing but the work.
use gmr.Support.{◌+◌, ◌≤◌, ◌<◌, [], ◌∷◌, ◌++◌, none, some, ◌≡◌, refl, ap, sym, ◌∙◌, arith, All}
use gmr.Support.Text.{Text}
use gmr.Json.{Platform}
use gmr.Core.Journal.{Seq, Entry, resume}
use gmr.Core.Journal.Runs.{resume-append}
use gmr.Store.Journal.{done, Table, Codec, entries}
use gmr.Store.Journal.Entries.{Log}
use gmr.Store.Journal.Since.{since, entries-since}
use gmr.Runtime.Log.{Stood, sightings, stood_of, stood_from}

module _ ⦃host : Platform⦄ where
  abbrev pub Below : Seq → Log → Type 0
  Below n es = All (λ (e : Seq × Entry). e.0 ≤ n) es

  abbrev pub Above : Seq → Log → Type 0
  Above n es = All (λ (e : Seq × Entry). n < e.0) es

  since-Above : (n : Seq) (es : Log) → Above n es → since (n + 1) es ≡ es
  unfolding since
  since-Above n [] a = refl
  since-Above n ((seq, e) ∷ es) a = ground (arith, since-Above n es a.1)

  since-split : (n : Seq) (xs ys : Log) → Below n xs → Above n ys → since (n + 1) (xs ++ ys) ≡ ys
  unfolding since
  since-split n [] ys b a = since-Above n ys a
  since-split n ((seq, e) ∷ xs) ys b a = ground (arith, since-split n xs ys b.1 a)

  -- Where a checkpoint holds the fold of the entries numbered up to its head, standing from it
  -- finds what standing from the beginning of the log finds.
  pub stood_from_checkpoint :
      (codec : Codec) (t : Table) (key : Text) (held : Stood) (xs ys : Log)
      → entries codec t key 0 ≡ done (xs ++ ys)
      → resume sightings none 0 xs ≡ (some held.anchor, held.logged)
      → Below held.anchor.head xs
      → Above held.anchor.head ys
      → stood_from codec t key (some held) ≡ stood_from codec t key none
  unfolding stood_from
  stood_from_checkpoint codec t key held xs ys read folded below above =
      let later : entries codec t key (held.anchor.head + 1) ≡ done ys =
        entries-since codec t key (held.anchor.head + 1) (xs ++ ys) read
        ∙ ap done (since-split held.anchor.head xs ys below above) in
      let parts = resume-append sightings none 0 xs ys in
      rw (later, read)
        (ap (λ r. done (stood_of r)) (sym (parts ∙ ap (λ r. resume sightings r.0 r.1 ys) folded)))
