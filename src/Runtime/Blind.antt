-- ===== src/Runtime/Blind.antt =====
-- crates/gmr-runtime/src/open.rs, blind, behind and accumulator_warning: what is said of a rule table
-- and a probe before an anchor opens.
use gmr.Support.{
  List, [], ◌∷◌, ◌++◌, Bool, true, false, not, ◌&&◌, Option, none, some, any, all, Ordering, map,
  length, if◌then◌else◌, ◌==◌, ◌≡◌, ◌↔◌, refl, sym, ◌∙◌, arith, Bool-cases, inl, inr, All,
}
use gmr.Support.Text.{Text, txt, text_cmp, join}
use gmr.Json.{Platform}
use gmr.Expr.Ast.{Expression}
use gmr.Expr.Parse.{parse}
use gmr.Expr.Parse.Lexer.{Parsed, parsed, syntax_error, out_of_fuel}
use gmr.Expr.Reads.{reads_obs, reads_state}
use gmr.Core.Probe.{Observes, named, unknown_fields, covers, undeclared, facts_of}
use gmr.Core.Anchor.{Rule, Anchor}
use gmr.Core.Journal.{Observation}
use gmr.Runtime.Translate.{Compiled, compiled, refused, compile}

-- BTreeSet::insert, in the order of the set.
unfoldable pub insert_sorted : Text → List Text → List Text
unfolding text_cmp
insert_sorted s [] = s ∷ []
insert_sorted s (t ∷ set) =
    let rest = insert_sorted s set in
    elim (text_cmp s t) [
      | Ordering.lt ↦ s ∷ t ∷ set
      | Ordering.eq ↦ t ∷ set
      | Ordering.gt ↦ t ∷ rest
    ]

-- `extend` by the reads that the probe does not cover.
unfoldable pub extend_unmet : Observes → List Text → List Text → List Text
unfolding insert_sorted covers
extend_unmet observes [] unmet = unmet
extend_unmet observes (r ∷ reads) unmet =
    extend_unmet observes reads (if covers observes r then unmet else insert_sorted r unmet)

abbrev pub field_names : List Text → Text
field_names fields = join (txt " · ") (map (λ (f : Text). txt "obs." ++ f) fields)

abbrev pub it_or_them : List Text → Text
it_or_them unmet = if length unmet == 1 then txt "it" else txt "them"

module _ ⦃host : Platform⦄ where
  -- What an expression reads that the probe does not report; one that does not parse is passed over.
  unfoldable pub unmet_by : Observes → Parsed Expression → List Text → List Text
  unfolding extend_unmet reads_obs
  unmet_by observes (parsed node rest) unmet = extend_unmet observes (reads_obs node) unmet
  unmet_by observes (syntax_error message) unmet = unmet
  unmet_by observes out_of_fuel unmet = unmet

  unfoldable pub unmet_of : Observes → List Rule → List Text → List Text
  unfolding unmet_by parse
  unmet_of observes [] unmet = unmet
  unmet_of observes (rule ∷ rules) unmet =
      unmet_of observes rules (
        unmet_by observes (parse rule.to.source) (unmet_by observes (parse rule.when.source) unmet))

  blind_message : Anchor → List Text → List Text → Text
  blind_message anchor unmet fields =
      txt "`"
      ++ anchor.key
      ++ txt "` reads "
      ++ field_names unmet
      ++ txt " from its probe, and `"
      ++ anchor.probe.name
      ++ txt "` never reports "
      ++ it_or_them unmet
      ++ txt ": it reports "
      ++ field_names fields
      ++ txt ". An anchor opened this way observes forever and never transitions, and the "
      ++ txt "first thing anyone would have to notice is that nothing ever happened"

  blind_of : Anchor → Observes → List Text → Option Text
  unfolding blind_message
  blind_of anchor observes [] = none
  blind_of anchor unknown_fields (r ∷ unmet) = none
  blind_of anchor (named fields) (r ∷ unmet) = some (blind_message anchor (r ∷ unmet) fields)

  unfoldable pub blind : Anchor → Observes → Option Text
  unfolding blind_of unmet_of
  blind anchor observes = blind_of anchor observes (unmet_of observes anchor.transitions [])

  behind_message : Anchor → List Text → Text
  behind_message anchor extra =
      txt "`"
      ++ anchor.probe.name
      ++ txt "` reported "
      ++ field_names extra
      ++ txt ", and `"
      ++ anchor.probe.name
      ++ txt "` declares none of it. The declaration is what an open "
      ++ txt "refuses rules against, so a rule reading one of these would be turned away for "
      ++ txt "reading something the probe demonstrably reports"

  behind_of : Anchor → List Text → List Text
  unfolding behind_message
  behind_of anchor [] = []
  behind_of anchor (e ∷ extra) = behind_message anchor (e ∷ extra) ∷ []

  -- The warning, if there is one.
  unfoldable pub behind : Anchor → Observes → Observation → List Text
  unfolding behind_of undeclared facts_of
  behind anchor observes observation = elim (facts_of observation.outcome) [
    | none ↦ []
    | some facts ↦ behind_of anchor (undeclared observes facts)
  ]

  accumulates : Compiled → Bool
  unfolding reads_state
  accumulates (compiled node) = reads_state node
  accumulates (refused e) = false

  accumulator_message : Text
  accumulator_message =
      txt "the transition table reads the previous state into the new one, and "
      ++ txt "this deployment has no lease: a repeated observation would over-count. "
      ++ txt "Idempotent forms (carrying a field through unchanged) are unaffected; "
      ++ txt "increments are not. The substrate cannot tell them apart, so it only warns"

  -- The warning, if there is one.
  unfoldable pub accumulator_warning : Bool → Anchor → List Text
  unfolding accumulates accumulator_message compile
  accumulator_warning leases_configured anchor =
      if not leases_configured
        && any (λ (rule : Rule). accumulates (compile rule.to)) anchor.transitions
      then accumulator_message ∷ []
      else []

  -- Everything that the source reads of an observation, if it parses, is what the probe reports.
  pub data Reads (observes : Observes) (source : Text) : Type 0 where
    covered :
        {node : Expression} {rest : Text}
        → parse source ≡ parsed node rest
        → all (covers observes) (reads_obs node) ≡ true
        → Reads observes source
    unread :
        ((node : Expression) (rest : Text) → parse source ≡ parsed node rest → ⊥)
        → Reads observes source

  abbrev pub RuleReads : Observes → Rule → Type 0
  RuleReads observes rule = Reads observes rule.when.source × Reads observes rule.to.source

  insert_sorted-ne : (s : Text) (set : List Text) → insert_sorted s set ≡ [] → ⊥
  unfolding insert_sorted
  insert_sorted-ne s [] h = cc
  insert_sorted-ne s (t ∷ set) h = inserted (text_cmp s t) h
    where
      inserted :
          (o : Ordering)
          → (elim o [
            | Ordering.lt ↦ s ∷ t ∷ set
            | Ordering.eq ↦ t ∷ set
            | Ordering.gt ↦ t ∷ insert_sorted s set
          ])
            ≡ []
          → ⊥
      inserted Ordering.lt h = cc
      inserted Ordering.eq h = cc
      inserted Ordering.gt h = cc

  extend_unmet-nil :
      (observes : Observes) (reads unmet : List Text)
      → extend_unmet observes reads unmet ≡ []
      → (all (covers observes) reads ≡ true) × (unmet ≡ [])
  unfolding extend_unmet
  extend_unmet-nil observes [] unmet h = (refl, h)
  extend_unmet-nil observes (r ∷ reads) unmet h = elim (Bool-cases (covers observes r)) [
    | inl q ↦
        let (p, e) = extend_unmet-nil observes reads unmet (rw (extend_unmet, q) at h) in
        (ground arith, e)
    | inr q ↦
        let (p, e) =
          extend_unmet-nil observes reads (insert_sorted r unmet) (rw (extend_unmet, q) at h) in
        absurd (insert_sorted-ne r unmet e)
  ]

  unmet_by-nil :
      (observes : Observes) (source : Text) (p : Parsed Expression) (unmet : List Text)
      → parse source ≡ p
      → unmet_by observes p unmet ≡ []
      → Reads observes source × (unmet ≡ [])
  unfolding unmet_by
  unmet_by-nil observes source (parsed node rest) unmet p h =
      let (c, e) = extend_unmet-nil observes (reads_obs node) unmet h in (covered p c, e)
  unmet_by-nil observes source (syntax_error m) unmet p h = (unread λ node rest q. cc, h)
  unmet_by-nil observes source out_of_fuel unmet p h = (unread λ node rest q. cc, h)

  unmet_of-nil :
      (observes : Observes) (rules : List Rule) (unmet : List Text)
      → unmet_of observes rules unmet ≡ []
      → All (RuleReads observes) rules × (unmet ≡ [])
  unfolding unmet_of
  unmet_of-nil observes [] unmet h = (tt, h)
  unmet_of-nil observes (rule ∷ rules) unmet h =
      let (more, e) = unmet_of-nil observes rules _ h in
      let (to, f) = unmet_by-nil observes rule.to.source _ _ refl e in
      let (when, g) = unmet_by-nil observes rule.when.source _ unmet refl f in
      (((when, to), more), g)

  nil-extend_unmet :
      (observes : Observes) (reads unmet : List Text)
      → all (covers observes) reads ≡ true
      → extend_unmet observes reads unmet ≡ unmet
  unfolding extend_unmet
  nil-extend_unmet observes [] unmet h = refl
  nil-extend_unmet observes (r ∷ reads) unmet h = elim (Bool-cases (covers observes r)) [
    | inl q ↦ rw (extend_unmet, q) (nil-extend_unmet observes reads unmet (ground arith))
    | inr q ↦ let k = rw q at h in cc
  ]

  nil-unmet_by :
      (observes : Observes) (source : Text) (p : Parsed Expression) (unmet : List Text)
      → parse source ≡ p
      → Reads observes source
      → unmet_by observes p unmet ≡ unmet
  unfolding unmet_by
  nil-unmet_by observes source p unmet e (covered q c) =
      rw (sym e, q) (nil-extend_unmet observes _ unmet c)
  nil-unmet_by observes source (parsed node rest) unmet e (unread f) = absurd (f node rest e)
  nil-unmet_by observes source (syntax_error m) unmet e (unread f) = refl
  nil-unmet_by observes source out_of_fuel unmet e (unread f) = refl

  nil-unmet_of :
      (observes : Observes) (rules : List Rule) (unmet : List Text)
      → All (RuleReads observes) rules
      → unmet_of observes rules unmet ≡ unmet
  unfolding unmet_of
  nil-unmet_of observes [] unmet h = refl
  nil-unmet_of observes (rule ∷ rules) unmet h =
      nil-unmet_of observes rules _ h.1
      ∙ (nil-unmet_by observes rule.to.source _ _ refl h.0.1
          ∙ nil-unmet_by observes rule.when.source _ unmet refl h.0.0)

  seeing :
      (anchor : Anchor) (fields unmet : List Text)
      → blind_of anchor (named fields) unmet ≡ none
      → unmet ≡ []
  unfolding blind_of
  seeing anchor fields [] h = refl
  seeing anchor fields (r ∷ unmet) h = cc

  -- For a probe that says what it reports, an anchor is not found blind exactly when all that its
  -- guards and new states read of an observation, those that parse, is what the probe reports.
  pub blind-none :
      (anchor : Anchor) (fields : List Text)
      → (blind anchor (named fields) ≡ none) ↔ All (RuleReads (named fields)) anchor.transitions
  unfolding blind blind_of
  blind-none anchor fields = (
    λ h.
        (unmet_of-nil (named fields) anchor.transitions []
          (seeing anchor fields (unmet_of (named fields) anchor.transitions []) h)).0,
    λ h. rw (nil-unmet_of (named fields) anchor.transitions [] h, blind_of) refl,
  )
