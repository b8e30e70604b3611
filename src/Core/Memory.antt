-- ===== src/Core/Memory.antt =====
-- crates/gmr-core/src/memory.rs: what a memory is about, and how it is named in text. The names are the
-- texts that their checks admit.
pub mod Names
use gmr.Support.{
  ℕ, suc, ◌+◌, List, [], ◌∷◌, ◌++◌, Bool, true, false, not, ◌&&◌, ◌||◌, Option, none, some,
  if◌then◌else◌, all, ltb, leb, ◌==◌,
}
use gmr.Support.Text.{Text, txt, text_eq}
use gmr.Json.{Platform, Json}

-- `len` of the UTF-8 text
abbrev pub char_len : ℕ → ℕ
char_len c = if ltb c 128 then 1 else if ltb c 2048 then 2 else if ltb c 65536 then 3 else 4

unfoldable pub byte_len : Text → ℕ
byte_len [] = 0
byte_len (c ∷ s) = char_len c + byte_len s

pub data Checked : Type 0 where
  accepted : Checked
  rejected : Text → Checked

unfoldable pub check_nonempty_128 : Text → Checked
unfolding byte_len
check_nonempty_128 [] = rejected (txt "must not be empty")
check_nonempty_128 (c ∷ s) =
    if ltb 128 (byte_len (c ∷ s)) then rejected (txt "must be at most 128 chars") else accepted

-- SAID
abbrev pub said_word : Text
said_word = txt "said"

unfoldable pub is_id_char : ℕ → Bool
is_id_char c = (leb 97 c && leb c 122) || ((leb 48 c && leb c 57) || (c == b'-'))

abbrev pub starts_dashed : Text → Bool
starts_dashed [] = false
starts_dashed (c ∷ s) = c == b'-'

unfoldable pub check_shape : Text → Checked
unfolding is_id_char
check_shape s =
    if text_eq s said_word
    then rejected (txt "`said` is how an address names something an agent said rather than a store")
    else if all is_id_char s && not (starts_dashed s)
    then accepted
    else rejected (txt "expected lowercase ASCII letters, digits or `-`, not starting with `-`")

unfoldable pub and_then : Checked → Checked → Checked
and_then accepted next = next
and_then (rejected why) next = rejected why

unfoldable pub check_provider_id : Text → Checked
unfolding check_nonempty_128 check_shape and_then
check_provider_id s = and_then (check_nonempty_128 s) (check_shape s)

pub record Ref : Type 0 where
  pub provider : Text
  pub external_id : Text

-- try_new(s).ok(), with the check's answer
unfoldable pub admitted_as {ℓ} : {A : Type ℓ} → Checked → A → Option A
admitted_as accepted a = some a
admitted_as (rejected why) a = none

-- str::split_once(':')
unfoldable pub split_once : Text → Option (Text × Text)
split_once [] = none
split_once (c ∷ s) =
    let rest = split_once s in
    if c == b':'
    then some ([], s)
    else elim rest [ none ↦ none | some parts ↦ some (c ∷ parts.0, parts.1) ]

-- Ref::parse, of what stands before and after the colon
unfoldable pub ref_of : Text → Text → Option Ref
unfolding admitted_as check_provider_id check_nonempty_128 and_then
ref_of named rest =
    admitted_as (and_then (check_provider_id named) (check_nonempty_128 rest))
      (record { provider = named; external_id = rest })

unfoldable pub ref_split : Option (Text × Text) → Option Ref
unfolding ref_of
ref_split none = none
ref_split (some parts) = ref_of parts.0 parts.1

-- Ref::parse
unfoldable pub parse_ref : Text → Option Ref
unfolding ref_split split_once
parse_ref address = ref_split (split_once address)

-- Display for Ref
unfoldable pub show_ref : Ref → Text
show_ref r = r.provider ++ b':' ∷ r.external_id

pub data Source : Type 0 where
  derived self_attested adjudicated configured unknown : Source

-- Source::as_str
unfoldable pub source_name : Source → Text
source_name derived = txt "derived"
source_name self_attested = txt "self_attested"
source_name adjudicated = txt "adjudicated"
source_name configured = txt "configured"
source_name unknown = txt "unknown"

-- Source::independent
unfoldable pub is_independent : Source → Bool
is_independent derived = true
is_independent adjudicated = true
is_independent _ = false

module _ ⦃host : Platform⦄ where
  pub data Claim : Type 0 where
    stored : Ref → Claim
    said : Text → Option Json → Claim

  -- Claim::stored
  unfoldable pub stored_ref : Claim → Option Ref
  stored_ref (stored r) = some r
  stored_ref (said id asserts) = none

  as_stored : Option Ref → Option Claim
  as_stored none = none
  as_stored (some r) = some (stored r)

  unfoldable pub claim_split : Option (Text × Text) → Option Claim
  unfolding admitted_as check_nonempty_128 as_stored ref_of
  claim_split none = none
  claim_split (some parts) =
      if text_eq parts.0 said_word
      then admitted_as (check_nonempty_128 parts.1) (said parts.1 none)
      else as_stored (ref_of parts.0 parts.1)

  -- Claim::parse
  unfoldable pub parse_claim : Text → Option Claim
  unfolding claim_split split_once
  parse_claim address = claim_split (split_once address)

  -- Display for Claim
  unfoldable pub show_claim : Claim → Text
  unfolding show_ref
  show_claim (stored r) = show_ref r
  show_claim (said id asserts) = said_word ++ b':' ∷ id
