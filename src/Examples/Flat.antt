-- ===== src/Examples/Flat.antt =====
-- A platform whose hashes are all empty, entries that it turns into text and back, and a table of them.
use gmr.Support.{ℕ, zero, suc, List, [], ◌∷◌, Option, none, some, ◌≡◌, refl, ap, sym, arith}
use gmr.Support.Text.{Text, txt}
use gmr.Json.{Platform, null, object, end, field, Json}
use gmr.Core.Probe.{
  Outcome, not_found, Verifiability, Observes, unknown_fields, Derivation, ProbeRef,
}
use gmr.Core.Anchor.{Rule, Superseded, Anchor}
use gmr.Core.Journal.{Observation, Entry, opened, transition, revise, reterminal, close}
use gmr.Store.Journal.{Row, Table, Codec}
use gmr.Store.Journal.Chain.{ReadsBack}
use gmr.Runtime.Log.{no_checkpoint}
use gmr.Runtime.Log.Entered.{IsReady}
use gmr.Runtime.Observe.{Site}
use gmr.Runtime.Deployment.{Deployment, Serde}
use gmr.Examples.Host.{flat}

instance abbrev pub hashless : Platform
hashless = flat

abbrev pub rule_of : Text → Text → Rule
rule_of when to = record {
  when = record { source = when; hash = [] };
  to = record { source = to; hash = [] };
}

-- A derivation that declares nothing.
abbrev pub bare_derivation : Derivation
bare_derivation = record {
  version = [];
  verifiability = Verifiability.closed;
  observes = unknown_fields;
}

abbrev pub nothing_found : Observation
nothing_found = record {
  outcome = not_found;
  fact_address = [];
  versions = record { declaration = []; derivation = bare_derivation; evaluator = [] };
}

abbrev pub bare_probe : ProbeRef
bare_probe = record { kind = []; name = []; params = null }

abbrev pub bare_anchor : Text → List Rule → Anchor
bare_anchor key rules = record {
  key = key;
  probe = bare_probe;
  transitions = rules;
  terminal = [];
  supersedes = none;
}

abbrev pub empty_object : Json
empty_object = object end

abbrev pub with_null : Text → Json
with_null k = object (field k null end)

-- A new state with one field, `null`, after the plain observation, at the instant 0.
abbrev pub moved_text :
    Outcome → Text → Text → Text → Verifiability → Observes → Text → Json → ℕ → Option Text
moved_text not_found [] [] [] Verifiability.closed unknown_fields [] (object (field k null end))
      zero =
    some (zero ∷ k)
moved_text _ _ _ _ _ _ _ _ _ = none

-- The opening of an anchor without rules, in the empty state, after the plain observation.
abbrev pub opened_text :
    Text
    → Text
    → Text
    → Json
    → List Rule
    → List Text
    → Option Superseded
    → Outcome
    → Text
    → Option Text
opened_text key [] [] null [] [] none not_found [] = some (suc (suc zero) ∷ key)
opened_text _ _ _ _ _ _ _ _ _ = none

abbrev pub opened_text_of :
    Option Text → Text → Text → Verifiability → Observes → Text → Json → ℕ → Option Text
opened_text_of (some body) [] [] Verifiability.closed unknown_fields [] (object end) zero =
    some body
opened_text_of _ _ _ _ _ _ _ _ = none

abbrev pub flat_text : Entry → Option Text
flat_text (transition o s at) =
    moved_text o.outcome o.fact_address o.versions.declaration o.versions.derivation.version
      o.versions.derivation.verifiability o.versions.derivation.observes o.versions.evaluator s at
flat_text (opened a o s at) =
    opened_text_of
      (opened_text a.key a.probe.kind a.probe.name a.probe.params a.transitions a.terminal
        a.supersedes o.outcome o.fact_address)
      o.versions.declaration o.versions.derivation.version o.versions.derivation.verifiability
      o.versions.derivation.observes o.versions.evaluator s at
flat_text (close [] [] zero) = some (suc zero ∷ [])
flat_text (revise (reterminal []) [] [] zero) = some (suc zero ∷ zero ∷ [])
flat_text _ = none

-- The rule by which `watched` moves.
abbrev pub mover : Rule
mover = rule_of (txt "true") (txt "{ done: null }")

abbrev pub flat_entry : Text → Option (Entry)
flat_entry [] = some (opened (bare_anchor (txt "a") (mover ∷ [])) nothing_found empty_object 0)
flat_entry (zero ∷ k) = some (transition nothing_found (with_null k) 0)
flat_entry (suc zero ∷ []) = some (close [] [] 0)
flat_entry (suc zero ∷ k) = some (revise (reterminal []) [] [] 0)
flat_entry (suc (suc n) ∷ k) = some (opened (bare_anchor k []) nothing_found empty_object 0)

abbrev pub flat_codec : Codec
flat_codec = record { to_string = flat_text; from_str = flat_entry; to_value = λ entry. some null }

moved_text_lem :
    (oc : Outcome) (fa de ve : Text) (vf : Verifiability) (ob : Observes) (ev : Text) (s : Json)
    (at : ℕ) (body : Text)
    → moved_text oc fa de ve vf ob ev s at ≡ some body
    → flat_entry body
      ≡ some (
          transition
            (record {
              outcome = oc;
              fact_address = fa;
              versions = record {
                declaration = de;
                derivation = record { version = ve; verifiability = vf; observes = ob };
                evaluator = ev;
              };
            })
            s
            at)
moved_text_lem not_found [] [] [] Verifiability.closed unknown_fields [] (object (field k null end))
      zero body h =
    ap flat_entry (some_injective (sym h))
  where
    some_injective : {x y : Text} → some x ≡ some y → x ≡ y
    some_injective h = cc
moved_text_lem _ _ _ _ _ _ _ _ _ body h = cc

opened_text_lem :
    (key kind name : Text) (params : Json) (rules : List Rule) (terminal : List Text)
    (supersedes : Option Superseded) (oc : Outcome) (fa body : Text)
    → opened_text key kind name params rules terminal supersedes oc fa ≡ some body
    → (flat_entry body ≡ some (opened (bare_anchor key []) nothing_found empty_object 0))
      × (record {
        key = key;
        probe = record { kind = kind; name = name; params = params };
        transitions = rules;
        terminal = terminal;
        supersedes = supersedes;
      }
          ≡ bare_anchor key [])
      × (oc ≡ not_found)
      × (fa ≡ [])
opened_text_lem key [] [] null [] [] none not_found [] body h =
    (ap flat_entry (some_of h), refl, refl, refl)
  where
    some_of : some (suc (suc zero) ∷ key) ≡ some body → body ≡ suc (suc zero) ∷ key
    some_of h = cc
opened_text_lem _ _ _ _ _ _ _ _ _ body h = cc

opened_text_of_lem :
    (o : Option Text) (de ve : Text) (vf : Verifiability) (ob : Observes) (ev : Text) (s : Json)
    (at : ℕ) (body : Text)
    → opened_text_of o de ve vf ob ev s at ≡ some body
    → (o ≡ some body)
      × (de ≡ [])
      × (ve ≡ [])
      × (vf ≡ Verifiability.closed)
      × (ob ≡ unknown_fields)
      × (ev ≡ [])
      × (s ≡ empty_object)
      × (at ≡ 0)
opened_text_of_lem (some b) [] [] Verifiability.closed unknown_fields [] (object end) zero body h =
    (h, refl, refl, refl, refl, refl, refl, refl)
opened_text_of_lem _ _ _ _ _ _ _ _ body h = cc

-- Reading back what was made of an entry gives the entry.
pub flat-ReadsBack : (entry : Entry) → ReadsBack flat_codec entry
flat-ReadsBack (transition o s at) body h =
    moved_text_lem o.outcome o.fact_address o.versions.declaration o.versions.derivation.version
      o.versions.derivation.verifiability o.versions.derivation.observes o.versions.evaluator s at
      body h
flat-ReadsBack (opened a o s at) body h =
    let (p, de, ve, vf, ob, ev, st, t) =
      opened_text_of_lem _ o.versions.declaration o.versions.derivation.version
        o.versions.derivation.verifiability o.versions.derivation.observes o.versions.evaluator s at
        body h in
    let (q, an, oc, fa) =
      opened_text_lem a.key a.probe.kind a.probe.name a.probe.params a.transitions a.terminal
        a.supersedes o.outcome o.fact_address body p in
    cc
flat-ReadsBack (close [] [] zero) body h = let k : body ≡ suc zero ∷ [] = cc in rw k refl
flat-ReadsBack (revise (reterminal []) [] [] zero) body h =
    let k : body ≡ suc zero ∷ zero ∷ [] = cc in rw k refl
flat-ReadsBack _ body h = cc

abbrev pub row_at : ℕ → Text → Text → Row
row_at n key body = record {
  seq = n;
  anchor = key;
  fence = 0;
  body = body;
  prev = none;
  hash = none;
}

-- The log of an anchor `a`, opened, with the rule that moves it.
abbrev pub opened_table : Table
opened_table = record { rows = row_at 1 (txt "a") [] ∷ []; last = 1 }

abbrev pub site_at : Table → Site
site_at t = record { table = t; held = no_checkpoint; sighted = [] }

abbrev pub deployed : Table → Deployment
deployed t = record { site = site_at t; sealed = []; queue = none; settings = λ key. none }

abbrev pub flat_serde : Serde
flat_serde = record { codec = flat_codec; time_value = λ at. null; latest_value = λ o. null }

pub opened_table-IsReady : IsReady flat_codec opened_table no_checkpoint
opened_table-IsReady =
    (record { ascends = (omega arith, omega arith) }, record { folds = λ key h p. cc })
