-- ===== src/Store/Sealer.antt =====
-- crates/gmr-store/src/sealer.rs and crates/gmr-store/src/sqlite/bindings.rs, Sealer: bytes kept under
-- their hash.
use gmr.Support.{
  ℕ, List, [], ◌∷◌, ◌++◌, Bool, true, false, Option, none, some, any, if◌then◌else◌, ◌≡◌, refl, ◌∙◌,
  Bool-cases, inl, inr, All, ◌≢◌, ap,
}
use gmr.Support.Text.{Text, text_eq, text_eq_refl, text_eq_iff}
use gmr.Json.{Platform}

-- The table `sealed`.
abbrev pub Sealed : Type 0
Sealed = List (Text × List ℕ)

-- `SELECT body FROM sealed WHERE address = ?1`
unfoldable pub sealed : Text → Sealed → Option (List ℕ)
sealed address [] = none
sealed address ((a, body) ∷ rows) = if text_eq a address then some body else sealed address rows

-- `INSERT OR IGNORE`
unfoldable pub insert_or_ignore : Text → List ℕ → Sealed → Sealed
insert_or_ignore address bytes rows =
    if any (λ (row : Text × List ℕ). text_eq row.0 address) rows
    then rows
    else rows ++ (address, bytes) ∷ []

module _ ⦃host : Platform⦄ where
  -- content_hash_of_bytes
  abbrev pub content_hash_of_bytes : List ℕ → Text
  content_hash_of_bytes bytes = host.sha256 bytes

  unfoldable pub seal : List ℕ → Sealed → Text × Sealed
  unfolding insert_or_ignore
  seal bytes rows =
      let address = content_hash_of_bytes bytes in (address, insert_or_ignore address bytes rows)

  -- Every row stands under the hash of its bytes.
  abbrev pub IsAddressed : Sealed → Type 0
  IsAddressed rows = All (λ (row : Text × List ℕ). content_hash_of_bytes row.1 ≡ row.0) rows

  inserted-IsAddressed :
      (bytes : List ℕ) (rows : Sealed)
      → IsAddressed rows
      → IsAddressed (rows ++ (content_hash_of_bytes bytes, bytes) ∷ [])
  inserted-IsAddressed bytes [] h = (refl, tt)
  inserted-IsAddressed bytes (row ∷ rows) h = (h.0, inserted-IsAddressed bytes rows h.1)

  seal-IsAddressed :
      (bytes : List ℕ) (rows : Sealed) → IsAddressed rows → IsAddressed (seal bytes rows).1
  unfolding seal
  seal-IsAddressed bytes rows h =
      elim (Bool-cases
        (any (λ (row : Text × List ℕ). text_eq row.0 (content_hash_of_bytes bytes)) rows)) [
          | inl q ↦ rw q h
          | inr q ↦ rw q (inserted-IsAddressed bytes rows h)
        ]

  sealed_stays :
      (address other : Text) (bytes body : List ℕ) (rows : Sealed)
      → sealed other rows ≡ some body
      → sealed other (rows ++ (address, bytes) ∷ []) ≡ some body
  unfolding sealed
  sealed_stays address other bytes body [] h = cc
  sealed_stays address other bytes body ((a, b) ∷ rows) h = elim (Bool-cases (text_eq a other)) [
    | inl q ↦ rw (sealed, q) (rw (sealed, q) at h)
    | inr q ↦ rw (sealed, q) (sealed_stays address other bytes body rows (rw (sealed, q) at h))
  ]

  -- The bytes that a row under the address holds have it as their hash.
  abbrev Holds : Text → Sealed → Type 0
  Holds address rows =
      (body : List ℕ) × (sealed address rows ≡ some body) × (content_hash_of_bytes body ≡ address)

  sealed_there :
      (address : Text) (rows : Sealed)
      → IsAddressed rows
      → any (λ (row : Text × List ℕ). text_eq row.0 address) rows ≡ true
      → Holds address rows
  unfolding sealed
  sealed_there address [] h k = cc
  sealed_there address ((a, body) ∷ rows) h k = elim (Bool-cases (text_eq a address)) [
    | inl q ↦ (body, rw (sealed, q) refl, h.0 ∙ (text_eq_iff a address).0 q)
    | inr q ↦ let (b, p, r) = sealed_there address rows h.1 (rw q at k) in (b, rw (sealed, q) p, r)
  ]

  sealed_last :
      (address : Text) (bytes : List ℕ) (rows : Sealed)
      → any (λ (row : Text × List ℕ). text_eq row.0 address) rows ≡ false
      → sealed address (rows ++ (address, bytes) ∷ []) ≡ some bytes
  unfolding sealed
  sealed_last address bytes [] k = rw (sealed, text_eq_refl address) refl
  sealed_last address bytes ((a, body) ∷ rows) k = elim (Bool-cases (text_eq a address)) [
    | inl q ↦ let e = rw q at k in cc
    | inr q ↦ rw (sealed, q) (sealed_last address bytes rows (rw q at k))
  ]

  -- Where every row stands under the hash of its bytes, what is read back at the address that
  -- sealing gives has that address as its hash, and what was sealed before is read as before.
  pub sealed-seal :
      (bytes : List ℕ) (rows : Sealed)
      → IsAddressed rows
      → Holds (seal bytes rows).0 (seal bytes rows).1
        × ((other : Text) (body : List ℕ)
            → sealed other rows ≡ some body
            → sealed other (seal bytes rows).1 ≡ some body)
  unfolding seal insert_or_ignore
  sealed-seal bytes rows h =
      let address = content_hash_of_bytes bytes in
      elim (Bool-cases (any (λ (row : Text × List ℕ). text_eq row.0 address) rows)) [
        | inl q ↦ rw (insert_or_ignore, q) (sealed_there address rows h q, λ other body k. k)
        | inr q ↦
            rw (insert_or_ignore, q)
              (
                (bytes, sealed_last address bytes rows q, refl),
                λ other body k. sealed_stays address other bytes body rows k,
              )
      ]

  -- What is read after something was put under an address: what was there before, and else that.
  abbrev pub held_or : Option (List ℕ) → Bool → List ℕ → Option (List ℕ)
  held_or (some body) same bytes = some body
  held_or none true bytes = some bytes
  held_or none false bytes = none

  abbrev pub with_sealed : Text → List ℕ → (Text → Option (List ℕ)) → Text → Option (List ℕ)
  with_sealed address bytes before other = held_or (before other) (text_eq address other) bytes

  sealed-append :
      (address other : Text) (bytes : List ℕ) (rows : Sealed)
      → sealed other (rows ++ (address, bytes) ∷ [])
        ≡ with_sealed address bytes (λ a. sealed a rows) other
  unfolding sealed
  sealed-append address other bytes [] = alone (text_eq address other)
    where
      alone : (b : Bool) → (if b then some bytes else none) ≡ held_or none b bytes
      alone true = refl
      alone false = refl
  sealed-append address other bytes ((a, body) ∷ rows) = elim (Bool-cases (text_eq a other)) [
    | inl q ↦ rw (sealed, q) refl
    | inr q ↦ rw (sealed, q) (sealed-append address other bytes rows)
  ]

  sealed-any :
      (address : Text) (rows : Sealed)
      → any (λ (row : Text × List ℕ). text_eq row.0 address) rows ≡ true
      → sealed address rows ≢ none
  unfolding sealed
  sealed-any address [] k h = cc
  sealed-any address ((a, body) ∷ rows) k h = elim (Bool-cases (text_eq a address)) [
    | inl q ↦ let e = rw (sealed, q) at h in cc
    | inr q ↦ sealed-any address rows (rw q at k) (rw (sealed, q) at h)
  ]

  -- Sealing leaves what stood under the address, and puts the bytes there where nothing did.
  pub sealed-with_sealed :
      (bytes : List ℕ) (rows : Sealed) (other : Text)
      → sealed other (seal bytes rows).1
        ≡ with_sealed (content_hash_of_bytes bytes) bytes (λ a. sealed a rows) other
  unfolding seal insert_or_ignore
  sealed-with_sealed bytes rows other =
      let address = content_hash_of_bytes bytes in
      elim (Bool-cases (any (λ (row : Text × List ℕ). text_eq row.0 address) rows)) [
        | inr q ↦ rw (insert_or_ignore, q) (sealed-append address other bytes rows)
        | inl q ↦
            rw (insert_or_ignore, q) (stays (sealed other rows) (text_eq address other) refl refl q)
      ]
    where
      stays :
          (o : Option (List ℕ)) (b : Bool)
          → sealed other rows ≡ o
          → text_eq (content_hash_of_bytes bytes) other ≡ b
          → any (λ (row : Text × List ℕ). text_eq row.0 (content_hash_of_bytes bytes)) rows ≡ true
          → o ≡ held_or o b bytes
      stays (some body) b p r q = refl
      stays none false p r q = refl
      stays none true p r q = absurd (
          sealed-any (content_hash_of_bytes bytes) rows q (
            ap (λ (a : Text). sealed a rows) ((text_eq_iff (content_hash_of_bytes bytes) other).0 r)
            ∙ p))
