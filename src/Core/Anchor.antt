-- ===== src/Core/Anchor.antt =====
-- crates/gmr-core/src/anchor.rs: anchors, their rule tables and states.
use gmr.Support.{
  ℕ, List, [], ◌∷◌, ◌++◌, Bool, true, false, Option, none, some, get_or_else, if◌then◌else◌, ◌==◌,
}
use gmr.Support.Text.{Text, txt, parse_usize}
use gmr.Json.{Platform, null, string, array, object, end, Json, get, get_elem?, field_of}
use gmr.Core.Addr.{ok, err, content_hash_of}
use gmr.Core.Probe.{ProbeRef, contains}

-- An expression's source, with its hash.
pub record Expr : Type 0 where
  pub source : Text
  pub hash : Text

pub record Rule : Type 0 where
  pub when : Expr
  pub to : Expr

abbrev pub Transitions : Type 0
Transitions = List Rule

pub record Superseded : Type 0 where
  pub key : Text
  pub rationale : Text

pub data Retain : Type 0 where
  tick full : Retain

pub data Recorded : Type 0 where
  plain digests : Recorded

pub record RunSettings : Type 0 where
  pub retain : Retain
  pub facts : Recorded
  pub cadence_secs : Option ℕ
  pub budget_ms : Option ℕ

unfoldable pub retains_full : RunSettings → Bool
retains_full run = elim run.retain [ full ↦ true | tick ↦ false ]

unfoldable pub records_digests_only : RunSettings → Bool
records_digests_only run = elim run.facts [ digests ↦ true | plain ↦ false ]

-- The steps of a state path: `split('.')`.
unfoldable pub split_dots : Text → Text → List Text
split_dots before [] = before ∷ []
split_dots before (c ∷ s) =
    let rest = split_dots [] s in
    let longer = split_dots (before ++ c ∷ []) s in if c == b'.' then before ∷ rest else longer

module _ ⦃host : Platform⦄ where
  abbrev pub State : Type 0
  State = Json

  pub record Anchor : Type 0 where
    pub key : Text
    pub probe : ProbeRef
    pub transitions : Transitions
    pub terminal : List Text
    pub supersedes : Option Superseded

  -- State::default
  abbrev pub empty_state : State
  empty_state = object end

  unfoldable pub position : State → Json
  position s = get_or_else (field_of (txt "position") s) null

  as_str : Option Json → Option Text
  as_str (some (string s)) = some s
  as_str _ = none

  unfoldable pub status : State → Option Text
  unfolding as_str field_of
  status s = as_str (field_of (txt "status") s)

  child_at : Json → Text → Option Json
  child_at (object fields) step = get step fields
  child_at (array items) step = elim (parse_usize step) [ none ↦ none | some i ↦ get_elem? items i ]
  child_at _ step = none

  at_steps : Json → List Text → Option Json
  unfolding child_at
  at_steps here [] = some here
  at_steps here (step ∷ steps) = elim (child_at here step) [
    | none ↦ none
    | some next ↦ at_steps next steps
  ]

  -- State::at
  unfoldable pub state_at : State → Text → Option Json
  unfolding at_steps split_dots
  state_at s path = at_steps s (split_dots [] path)

  hashed : Option Json → Option Text
  hashed none = none
  hashed (some v) = elim (content_hash_of v) [ ok h ↦ some h | err e ↦ none ]

  unfoldable pub hash_at : State → Text → Option Text
  unfolding hashed state_at
  hash_at s path = hashed (state_at s path)

  contained : List Text → Option Text → Bool
  contained terminal none = false
  contained terminal (some s) = contains terminal s

  unfoldable pub is_terminal : Anchor → State → Bool
  unfolding contained status
  is_terminal a s = contained a.terminal (status s)
