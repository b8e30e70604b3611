-- ===== src/Examples/Claims.antt =====
-- crates/gmr-runtime/src/read.rs, depends and shown_at, for a claim about one anchor, and the names of
-- crates/gmr-core/src/memory.rs.
use gmr.Support.{[], ◌∷◌, true, false, none, some, ◌≡◌, ◌↔◌, refl}
use gmr.Support.Text.{Text, txt, text_eq, parse_usize}
use gmr.Expr.Eval.{eval}
use gmr.Expr.Parse.{parse}
use gmr.Core.Probe.{contains}
use gmr.Core.Anchor.{Expr, is_terminal}
use gmr.Core.Journal.{fold}
use gmr.Core.Memory.{Ref, stored, parse_claim, show_claim}
use gmr.Core.Memory.Names.{IsAdmitted, parse_claim-IsAdmitted}
use gmr.Runtime.View.{viewed}
use gmr.Runtime.Depends.{Depends, Stand, depends}
use gmr.Runtime.Depends.Rests.{Rests, depends-Rests}
use gmr.Runtime.Shown.{Shown, recorded_at}
use gmr.Examples.Flat.{hashless, nothing_found}
use gmr.Examples.Bindings.{opened_at, opening, no_looks}

-- Only the anchor `a` stands.
abbrev one_stands : Stand
unfolding viewed text_eq
one_stands key = elim (text_eq key (txt "a")) [
  | true ↦ some (viewed opened_at (txt "a") no_looks 1)
  | false ↦ none
]

abbrev any_done : Expr
any_done = record { source = txt "any(anchors, exists(state.done))"; hash = [] }

depends-Rests_example :
    ((depends (some any_done) (txt "a" ∷ []) one_stands ≡ Depends.holds)
      ↔ Rests (some any_done) (txt "a" ∷ []) one_stands true)
    × ((depends (some any_done) (txt "a" ∷ []) one_stands ≡ Depends.broken)
        ↔ Rests (some any_done) (txt "a" ∷ []) one_stands false)
depends-Rests_example = depends-Rests (some any_done) (txt "a" ∷ []) one_stands

-- The anchor's state has no such field.
depends_broken_test : depends (some any_done) (txt "a" ∷ []) one_stands ≡ Depends.broken
unfolding depends parse eval viewed text_eq
depends_broken_test = refl

depends_ungrounded_test :
    depends (some any_done) (txt "a" ∷ txt "b" ∷ []) one_stands ≡ Depends.ungrounded (txt "b" ∷ [])
unfolding depends parse viewed text_eq
depends_ungrounded_test = refl

depends_vacuous_test :
    depends (some (record { source = txt "1 < 2"; hash = [] })) (txt "a" ∷ []) one_stands
    ≡ Depends.vacuous (txt "1 < 2")
unfolding depends parse viewed text_eq parse_usize
depends_vacuous_test = refl

recorded_at-seen_test :
    recorded_at ((1, opening) ∷ []) (nothing_found.fact_address ∷ []) (some 1) none ≡ Shown.seen 1
unfolding recorded_at fold text_eq is_terminal contains
recorded_at-seen_test = refl

recorded_at-superseded_test :
    recorded_at ((1, opening) ∷ []) (nothing_found.fact_address ∷ []) none (some (txt "other"))
    ≡ Shown.superseded 1
unfolding recorded_at text_eq contains
recorded_at-superseded_test = refl

abbrev git_record : Ref
git_record = record { provider = txt "git"; external_id = txt "a:b" }

parse_claim-IsAdmitted_example :
    (parse_claim (txt "git:a:b") ≡ some (stored git_record))
    ↔ (IsAdmitted (stored git_record) × (show_claim (stored git_record) ≡ txt "git:a:b"))
parse_claim-IsAdmitted_example = parse_claim-IsAdmitted (txt "git:a:b") (stored git_record)

parse_claim_test : parse_claim (txt "git:a:b") ≡ some (stored git_record)
unfolding parse_claim text_eq
parse_claim_test = refl

-- No provider has this name.
parse_claim-refused_test : parse_claim (txt "Git:a") ≡ none
unfolding parse_claim text_eq
parse_claim-refused_test = refl
