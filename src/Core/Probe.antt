-- ===== src/Core/Probe.antt =====
-- crates/gmr-core/src/probe.rs: what a probe is, what it declares, and what it answered.
use gmr.Support.{
  List, [], ◌∷◌, ◌++◌, Bool, true, false, ◌&&◌, Option, none, some, any, if◌then◌else◌, ◌==◌,
}
use gmr.Support.Text.{Text, txt, text_eq}
use gmr.Json.{
  Platform, Items, Fields, null, bool, string, array, object, nil, cons, end, field, Json,
}
use gmr.Core.Addr.{Canonical, content_hash_of, check_sha256_hex}

pub data Openness : Type 0 where
  host_env interpreter network clock implementation unknown : Openness

pub data Verifiability : Type 0 where
  closed : Verifiability
  open_over : List Openness → Verifiability

-- The fields that a probe says it reports.
pub data Observes : Type 0 where
  named : List Text → Observes
  unknown_fields : Observes

pub record Derivation : Type 0 where
  pub version : Text
  pub verifiability : Verifiability
  pub observes : Observes

-- Verifiability::open
unfoldable pub open_verifiability : List Openness → Verifiability
open_verifiability [] = open_over (unknown ∷ [])
open_verifiability over = open_over over

unfoldable pub contains : List Text → Text → Bool
contains set name = any (λ s. text_eq s name) set

-- The prefixes of `read` that end before a dot, and `read` itself, in the order of the source.
prefixes : Text → Text → List Text
prefixes before [] = before ∷ []
prefixes before (c ∷ read) =
    let rest = prefixes (before ++ c ∷ []) read in if c == b'.' then before ∷ rest else rest

-- Observes::covers
unfoldable pub covers : Observes → Text → Bool
unfolding contains prefixes
covers unknown_fields read = true
covers (named fields) read = any (contains fields) (prefixes [] read)

unfoldable pub starts_with : Text → Text → Bool
starts_with s [] = true
starts_with [] (c ∷ t) = false
starts_with (d ∷ s) (c ∷ t) = (d == c) && starts_with s t

module _ ⦃host : Platform⦄ where
  pub record ProbeRef : Type 0 where
    pub kind : Text
    pub name : Text
    pub params : Json

  pub data Outcome : Type 0 where
    found : Json → Outcome
    not_found : Outcome

  -- ProbeRef::declaration_hash
  unfoldable pub declaration_hash : ProbeRef → Canonical Text
  declaration_hash p = content_hash_of (
      object (
        field (txt "kind") (string p.kind)
          (field (txt "name") (string p.name) (field (txt "params") p.params end))))

  unfoldable mutual
    unfolding check_sha256_hex

    pub digested : Json → Bool
    digested (object fields) = digested_fields fields
    digested (array items) = digested_items items
    digested (string s) = check_sha256_hex s
    digested _ = false

    pub digested_fields : Fields host.Number → Bool
    digested_fields end = true
    digested_fields (field k v fields) = digested v && digested_fields fields

    pub digested_items : Items host.Number → Bool
    digested_items nil = true
    digested_items (cons v items) = digested v && digested_items items

  -- Outcome::digested
  unfoldable pub outcome_digested : Outcome → Bool
  unfolding digested
  outcome_digested (found facts) = digested facts
  outcome_digested not_found = true

  unfoldable pub is_found : Outcome → Bool
  is_found (found facts) = true
  is_found not_found = false

  unfoldable pub facts_of : Outcome → Option Json
  facts_of (found facts) = some facts
  facts_of not_found = none

  facts_or_null : Outcome → Json
  facts_or_null (found facts) = facts
  facts_or_null not_found = null

  -- Outcome::address
  unfoldable pub address : Outcome → Text → Canonical Text
  unfolding is_found facts_or_null
  address outcome derivation = content_hash_of (
      object (
        field (txt "derivation") (string derivation) (
          field (txt "found") (bool (is_found outcome))
            (field (txt "facts") (facts_or_null outcome) end))))

  joined : Text → Text → Text
  joined [] n = n
  joined p n = p ++ b'.' ∷ n

  -- walk: the reported fields that no declared field is, or stands above or below.
  unfoldable mutual
    unfolding contains starts_with joined

    pub undeclared_at : Json → Text → List Text → List Text
    undeclared_at (object map) path fields = undeclared_under map path fields
    undeclared_at _ path fields = []

    pub undeclared_under : Fields host.Number → Text → List Text → List Text
    undeclared_under end path fields = []
    undeclared_under (field name under map) path fields =
        let here = joined path name in
        let deeper = undeclared_at under here fields in
        let rest = undeclared_under map path fields in
        if contains fields here
        then rest
        else if any (λ f. starts_with f (here ++ b'.' ∷ [])) fields
        then deeper ++ rest
        else here ∷ rest

  -- Observes::undeclared
  unfoldable pub undeclared : Observes → Json → List Text
  unfolding undeclared_at
  undeclared unknown_fields reported = []
  undeclared (named fields) reported = undeclared_at reported [] fields
