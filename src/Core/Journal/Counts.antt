-- ===== src/Core/Journal/Counts.antt =====
-- crates/gmr-core/src/journal.rs: what the two counters of an anchor's state count.
use gmr.Support.{
  ℕ, ◌+◌, ◌%◌, ◌^◌, ◌<◌, List, [], ◌∷◌, Bool, true, false, not, ◌&&◌, ◌||◌, Option, none, some,
  get_or_else, ◌≡◌, refl, ap, sym, ◌∙◌, arith, Option-cases, inl, inr, if◌then◌else◌,
}
use gmr.Json.{Platform}
use gmr.Core.Journal.{
  Seq, Entry, opened, attempt, revise, AnchorState, advance, fold, next_u32, attempts, is_sighting,
  ChangeKind, kind_eq, kind_of, reprobe, restate,
}
use gmr.Core.Journal.Runs.{run, fold-run, advance-some}

abbrev pub Counted : Type 0 → Type 0
Counted E = List (Seq × E)

module _ {E : Type 0} (hits : E → Bool) (resets : E → Bool) where
  unfoldable pub any_resets : List (Seq × E) → Bool
  any_resets [] = false
  any_resets ((seq, e) ∷ es) = resets e || any_resets es

  -- The entries that hit and that no reset follows.
  unfoldable pub tail_count : List (Seq × E) → ℕ
  unfolding any_resets
  tail_count [] = 0
  tail_count ((seq, e) ∷ es) = (if hits e && not (any_resets es) then 1 else 0) + tail_count es

-- How one entry changes a measure that counts `hits` and starts again at `resets`.
pub record Counts ⦃host : Platform⦄ (measure : AnchorState → ℕ) (hits resets : Entry → Bool)
    : Type 0 where
  starts :
      (seq : Seq) (e : Entry) (t : AnchorState)
      → advance none seq e ≡ some t
      → (measure t ≡ 0) × (resets e ≡ true)
  steps :
      (s : AnchorState) (seq : Seq) (e : Entry) (t : AnchorState)
      → advance (some s) seq e ≡ some t
      → measure t ≡ (if resets e then 0 else if hits e then next_u32 (measure s) else measure s)
  apart : (e : Entry) → resets e ≡ true → hits e ≡ false

module _ ⦃host : Platform⦄ (measure : AnchorState → ℕ) (hits resets : Entry → Bool)
    (laws : Counts measure hits resets) where
  counting_from :
      (s : AnchorState) (es : List (Seq × Entry)) {t : AnchorState}
      → measure s < 2 ^ 32
      → run (some s) es ≡ some t
      → measure t
        ≡ ((if any_resets hits resets es then 0 else measure s) + tail_count hits resets es)
          % 2 ^ 32
  unfolding run tail_count any_resets
  counting_from s [] small h = ground arith
  counting_from s ((seq, e) ∷ es) small h =
      let (u, p) = advance-some s seq e in
      let q = laws.steps s seq e u p in
      let ih = counting_from u es (ground arith) (rw p at h) in ground (arith, laws.apart e)

  opened-resets :
      (es : List (Seq × Entry)) {t : AnchorState}
      → run none es ≡ some t
      → any_resets hits resets es ≡ true
  unfolding run any_resets
  opened-resets [] h = cc
  opened-resets ((seq, e) ∷ es) h = elim (Option-cases (advance none seq e)) [
    | inl p ↦ let ih = opened-resets es (rw p at h) in ground arith
    | inr (u, p) ↦ ground (arith, laws.starts seq e u p)
  ]

  pub counting :
      (es : List (Seq × Entry)) {t : AnchorState}
      → run none es ≡ some t
      → measure t ≡ tail_count hits resets es % 2 ^ 32
  unfolding run tail_count any_resets
  counting [] h = cc
  counting ((seq, e) ∷ es) h = elim (Option-cases (advance none seq e)) [
    | inl p ↦ let h' = rw p at h in ground (arith, counting es h', opened-resets es h')
    | inr (u, p) ↦
        let q = laws.starts seq e u p in
        let ih = counting_from u es (ground arith) (rw p at h) in ground (arith, laws.apart e)
  ]

module _ ⦃host : Platform⦄ where
  abbrev pub is_attempt : Entry → Bool
  is_attempt (attempt reason code message at) = true
  is_attempt _ = false

  abbrev pub is_open : Entry → Bool
  is_open (opened anchor observation state at) = true
  is_open _ = false

  abbrev pub revises : ChangeKind → Entry → Bool
  revises k (revise change context rationale at) = kind_eq k (kind_of change)
  revises k _ = false

  attempts_start :
      (seq : Seq) (e : Entry) (t : AnchorState)
      → advance none seq e ≡ some t
      → (attempts t ≡ 0) × (is_sighting e ≡ true)
  unfolding advance is_sighting
  attempts_start seq (opened a o s at) t h = ground arith
  attempts_start seq _ t h = cc

  attempts_step :
      (s : AnchorState) (seq : Seq) (e : Entry) (t : AnchorState)
      → advance (some s) seq e ≡ some t
      → attempts t
        ≡ (if is_sighting e then 0 else if is_attempt e then next_u32 (attempts s) else attempts s)
  unfolding advance is_sighting
  attempts_step s seq (revise (reprobe p) c w at) t h = ground arith
  attempts_step s seq (revise (restate p) c w at) t h = ground arith
  attempts_step s seq _ t h = ground arith

  attempts_apart : (e : Entry) → is_sighting e ≡ true → is_attempt e ≡ false
  unfolding is_sighting
  attempts_apart (attempt r c m at) h = cc
  attempts_apart _ h = refl

  -- The attempts of a folded anchor are the `attempt` entries that no sighting follows, in 32 bits.
  pub attempts-fold :
      (es : List (Seq × Entry)) {s : AnchorState}
      → fold es ≡ some s
      → attempts s ≡ tail_count is_attempt is_sighting es % 2 ^ 32
  attempts-fold es h =
      counting attempts is_attempt is_sighting
        (record { starts = attempts_start; steps = attempts_step; apart = attempts_apart }) es
        (rw fold-run at h)

  abbrev pub revisions_of : ChangeKind → AnchorState → ℕ
  revisions_of k s = get_or_else (s.revisions k) 0

  revisions_in : ChangeKind → Option AnchorState → ℕ
  revisions_in k none = 0
  revisions_in k (some s) = revisions_of k s

  revisions_start :
      (k : ChangeKind) (seq : Seq) (e : Entry) (t : AnchorState)
      → advance none seq e ≡ some t
      → (revisions_of k t ≡ 0) × (is_open e ≡ true)
  unfolding advance revisions_in
  revisions_start k seq (opened a o s at) t h = (ap (revisions_in k) (sym h), refl)
  revisions_start k seq _ t h = cc

  revisions_after :
      (k : ChangeKind) (s : AnchorState) (seq : Seq) (e : Entry)
      → revisions_in k (advance (some s) seq e) ≡ (
          if is_open e
          then 0
          else if revises k e
          then next_u32 (revisions_of k s)
          else revisions_of k s)
  unfolding advance revisions_in
  revisions_after k s seq (opened a o t at) = refl
  revisions_after k s seq (revise (restate p) c w at) = ground arith
  revisions_after k s seq (revise _ c w at) = ground arith
  revisions_after k s seq _ = ground arith

  revisions_step :
      (k : ChangeKind) (s : AnchorState) (seq : Seq) (e : Entry) (t : AnchorState)
      → advance (some s) seq e ≡ some t
      → revisions_of k t ≡ (
          if is_open e
          then 0
          else if revises k e
          then next_u32 (revisions_of k s)
          else revisions_of k s)
  unfolding revisions_in
  revisions_step k s seq e t h = ap (revisions_in k) (sym h) ∙ revisions_after k s seq e

  revisions_apart : (k : ChangeKind) (e : Entry) → is_open e ≡ true → revises k e ≡ false
  revisions_apart k (opened a o s at) h = refl
  revisions_apart k _ h = cc

  -- The revisions of a kind are the `revise` entries of that kind since the last `open`, in 32 bits.
  pub revisions-fold :
      (k : ChangeKind) (es : List (Seq × Entry)) {s : AnchorState}
      → fold es ≡ some s
      → revisions_of k s ≡ tail_count (revises k) is_open es % 2 ^ 32
  revisions-fold k es h =
      counting (revisions_of k) (revises k) is_open
        (record { starts = revisions_start k; steps = revisions_step k; apart = revisions_apart k })
        es (rw fold-run at h)
