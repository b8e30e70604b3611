-- ===== src/Runtime/Errors.antt =====
-- crates/gmr-runtime/src/error.rs: what the runtime's operations refuse for, with the messages left
-- out that only name the anchor.
use gmr.Support.Text.{Text}
use gmr.Core.Addr.{CanonicalizeError, Canonical, ok, err}
use gmr.Store.Journal.{StoreError, Stored, done, failed}

pub data RuntimeError : Type 0 where
  no_such_anchor already_open anchor_closed not_closed_yet undigested no_queue leased : RuntimeError
  cannot_open : Text → RuntimeError
  canonical : CanonicalizeError → RuntimeError
  store : StoreError → RuntimeError

pub data Ran {ℓ} (A : Type ℓ) : Type ℓ where
  ran : A → Ran A
  refused : RuntimeError → Ran A

infixl 5 ◌>>=◌
abbrev pub ◌>>=◌ {ℓ κ} : {A : Type ℓ} {B : Type κ} → Ran A → (A → Ran B) → Ran B
ran a >>= f = f a
refused e >>= f = refused e

-- `?` on what the store answers, and on what the canonical bytes are asked for
abbrev pub of_stored {ℓ} : {A : Type ℓ} → Stored A → Ran A
of_stored (done a) = ran a
of_stored (failed e) = refused (store e)

abbrev pub of_canonical {ℓ} : {A : Type ℓ} → Canonical A → Ran A
of_canonical (ok a) = ran a
of_canonical (err e) = refused (canonical e)
