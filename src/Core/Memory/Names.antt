-- ===== src/Core/Memory/Names.antt =====
-- crates/gmr-core/src/memory.rs, Claim::parse: which texts name which claims.
use gmr.Support.{
  ℕ, subst, [], ◌∷◌, ◌++◌, true, false, none, some, if_false, all, ◌==◌, ==_iff, ◌≡◌, ◌↔◌, refl,
  sym, ap, ◌∙◌, inl, inr, Bool-cases, Option-cases, arith,
}
use gmr.Support.Text.{Text, text_eq, eq_of_text_eq}
use gmr.Json.{Platform}
use gmr.Core.Memory.{
  Checked, accepted, rejected, check_nonempty_128, said_word, is_id_char, check_shape, and_then,
  check_provider_id, Ref, admitted_as, split_once, ref_of, Claim, stored, said, claim_split,
  as_stored, parse_claim, show_claim,
}

split_once-join :
    (s : Text) (parts : Text × Text) → split_once s ≡ some parts → parts.0 ++ b':' ∷ parts.1 ≡ s
unfolding split_once
split_once-join [] parts h = cc
split_once-join (c ∷ s) parts h = elim (Bool-cases (c == b':')) [
  | inl q ↦
      let at : c ≡ b':' = (==_iff c b':').0 q in
      let same : some ([], s) ≡ some parts = rw (split_once, q) at h in
      let this : ([], s) ≡ parts = cc in
      sym (ap (λ (p : Text × Text). p.0 ++ b':' ∷ p.1) this) ∙ ap (λ x. x ∷ s) (sym at)
  | inr q ↦ elim (Option-cases (split_once s)) [
    | inl p ↦ let k = rw (split_once, q, p) at h in cc
    | inr (rest, p) ↦
        let same : some (c ∷ rest.0, rest.1) ≡ some parts = rw (split_once, q, p) at h in
        let this : (c ∷ rest.0, rest.1) ≡ parts = cc in
        sym (ap (λ (p : Text × Text). p.0 ++ b':' ∷ p.1) this)
        ∙ ap (λ (t : Text). c ∷ t) (split_once-join s rest p)
  ]
]

id_char_ne_colon : (c : ℕ) → is_id_char c ≡ true → (c == b':') ≡ false
unfolding is_id_char
id_char_ne_colon c h = ground arith

all-head :
    (c : ℕ) (s : Text)
    → all is_id_char (c ∷ s) ≡ true
    → (is_id_char c ≡ true) × (all is_id_char s ≡ true)
all-head c s h = elim (Bool-cases (is_id_char c)) [
  | inl q ↦ (q, rw q at h)
  | inr q ↦ let k = rw q at h in cc
]

split_once-append :
    (a b : Text) → all is_id_char a ≡ true → split_once (a ++ b':' ∷ b) ≡ some (a, b)
unfolding split_once
split_once-append [] b h = refl
split_once-append (c ∷ a) b h =
    let (here, later) = all-head c a h in
    rw (split_once, id_char_ne_colon c here, split_once-append a b later) refl

and_then-accepted : (c d : Checked) → and_then c d ≡ accepted → (c ≡ accepted) × (d ≡ accepted)
unfolding and_then
and_then-accepted accepted d h = (refl, h)
and_then-accepted (rejected why) d h = cc

admitted_as-some {ℓ} :
    {A : Type ℓ} (c : Checked) (a b : A) → admitted_as c a ≡ some b → (c ≡ accepted) × (a ≡ b)
unfolding admitted_as
admitted_as-some accepted a b h = (refl, cc)
admitted_as-some (rejected why) a b h = cc

ref_of-accepted :
    (named rest : Text)
    → check_provider_id named ≡ accepted
    → check_nonempty_128 rest ≡ accepted
    → ref_of named rest ≡ some (record { provider = named; external_id = rest })
unfolding ref_of admitted_as and_then
ref_of-accepted named rest p e =
    ap
      (λ (k : Checked).
        admitted_as (and_then k (check_nonempty_128 rest))
          (record { provider = named; external_id = rest }))
      p
    ∙ ap (λ (k : Checked). admitted_as k (record { provider = named; external_id = rest })) e

shaped :
    (s : Text)
    → check_shape s ≡ accepted
    → (text_eq s said_word ≡ false) × (all is_id_char s ≡ true)
unfolding check_shape
shaped s h = elim (Bool-cases (text_eq s said_word)) [
  | inl q ↦ let k = rw (check_shape, q) at h in cc
  | inr q ↦ elim (Bool-cases (all is_id_char s)) [
    | inl r ↦ (q, r)
    | inr r ↦ let k = rw (check_shape, q, r) at h in cc
  ]
]

module _ ⦃host : Platform⦄ where
  -- The names that a claim holds pass their checks, and what was said asserts nothing.
  pub IsAdmitted : Claim → Type 0
  IsAdmitted (stored r) =
      (check_provider_id r.provider ≡ accepted) × (check_nonempty_128 r.external_id ≡ accepted)
  IsAdmitted (said id none) = check_nonempty_128 id ≡ accepted
  IsAdmitted (said id (some v)) = ⊥

  as_stored-some :
      (named rest : Text) (c : Claim)
      → as_stored (ref_of named rest) ≡ some c
      → IsAdmitted c × (show_claim c ≡ named ++ b':' ∷ rest)
  unfolding as_stored ref_of IsAdmitted show_claim
  as_stored-some named rest c h = elim (Option-cases (ref_of named rest)) [
    | inl p ↦ let k = rw (p, as_stored) at h in cc
    | inr (r, p) ↦
        let (ok, same) =
          admitted_as-some (and_then (check_provider_id named) (check_nonempty_128 rest)) _ r p in
        let this : stored r ≡ c = claim_of r (rw (p, as_stored) at h) in
        let both = and_then-accepted (check_provider_id named) (check_nonempty_128 rest) ok in
        subst (λ (x : Claim). IsAdmitted x × (show_claim x ≡ named ++ b':' ∷ rest))
          (ap stored same ∙ this) (both, refl)
  ]
    where
      claim_of : (r : Ref) → some (stored r) ≡ some c → stored r ≡ c
      claim_of r h = cc

  split-some :
      (named rest : Text) (c : Claim)
      → claim_split (some (named, rest)) ≡ some c
      → IsAdmitted c × (show_claim c ≡ named ++ b':' ∷ rest)
  unfolding claim_split IsAdmitted show_claim
  split-some named rest c h = elim (Bool-cases (text_eq named said_word)) [
    | inr q ↦ as_stored-some named rest c (sym (if_false (text_eq named said_word) _ _ q) ∙ h)
    | inl q ↦
        let (ok, same) =
          admitted_as-some (check_nonempty_128 rest) (said rest none) c
            (rw (claim_split, q) at h) in
        let word = eq_of_text_eq named said_word q in
        subst (λ (x : Claim). IsAdmitted x × (show_claim x ≡ named ++ b':' ∷ rest)) same
          (ok, ap (λ (t : Text). t ++ b':' ∷ rest) (sym word))
  ]

  parse_claim-some :
      (s : Text) (c : Claim) → parse_claim s ≡ some c → IsAdmitted c × (show_claim c ≡ s)
  unfolding parse_claim
  parse_claim-some s c h = elim (Option-cases (split_once s)) [
    | inl p ↦ let k = rw (parse_claim, p, claim_split) at h in cc
    | inr ((named, rest), p) ↦
        let (ok, shown) = split-some named rest c (rw (parse_claim, p) at h) in
        (ok, shown ∙ split_once-join s (named, rest) p)
  ]

  parse_claim-show : (c : Claim) → IsAdmitted c → parse_claim (show_claim c) ≡ some c
  unfolding parse_claim show_claim IsAdmitted claim_split as_stored ref_of check_provider_id
      admitted_as and_then text_eq
  parse_claim-show (said id (some v)) h = absurd h
  parse_claim-show (said id none) h = ap (λ (k : Checked). admitted_as k (said id none)) h
  parse_claim-show (stored r) (p, e) =
      let (len, shape) =
        and_then-accepted (check_nonempty_128 r.provider) (check_shape r.provider) p in
      let (other, chars) = shaped r.provider shape in
      ap claim_split (split_once-append r.provider r.external_id chars)
      ∙ (if_false (text_eq r.provider said_word) _ _ other
          ∙ ap as_stored (ref_of-accepted r.provider r.external_id p e))

  -- A text is read as a claim exactly when the names that the claim holds are admitted, it asserts
  -- nothing, and the text is how it is printed.
  pub parse_claim-IsAdmitted :
      (s : Text) (c : Claim) → (parse_claim s ≡ some c) ↔ (IsAdmitted c × (show_claim c ≡ s))
  parse_claim-IsAdmitted s c =
      (parse_claim-some s c, λ (ok, shown). ap parse_claim (sym shown) ∙ parse_claim-show c ok)
