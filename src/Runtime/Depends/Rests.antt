-- ===== src/Runtime/Depends/Rests.antt =====
-- crates/gmr-runtime/src/read.rs, depends: what an answer that it holds or is broken rests on.
use gmr.Support.{
  ap₂, List, [], ◌∷◌, Bool, true, false, Option, none, some, ◌≡◌, ◌≢◌, ◌↔◌, refl, ◌∙◌, ap,
  Bool-cases, Option-cases, inl, inr,
}
use gmr.Support.Text.{Text}
use gmr.Json.{Platform, null, bool, number, string, array, object, pos, Json}
use gmr.Expr.Ctx.{Ctx, new_ctx, over}
use gmr.Core.Journal.{Seq}
use gmr.Runtime.View.{AnchorView}
use gmr.Expr.Ast.{Expression}
use gmr.Expr.Reads.{reads_anchors}
use gmr.Expr.Outcome.{Evaluated, value, absent, fault}
use gmr.Expr.Eval.{eval}
use gmr.Core.Anchor.{Expr}
use gmr.Runtime.Translate.{Compiled, compiled, refused, compile}
use gmr.Runtime.Depends.{
  Depends, Stand, missing_from, judged, states_of, reading, grounded_on, depends_parsed, depends,
}

abbrev answer_of : Bool → Depends
answer_of true = Depends.holds
answer_of false = Depends.broken

is_answer : Depends → Bool
is_answer Depends.holds = true
is_answer Depends.broken = true
is_answer _ = false

answer_of-is_answer : (b : Bool) → is_answer (answer_of b) ≡ true
unfolding is_answer
answer_of-is_answer true = refl
answer_of-is_answer false = refl

no_answer : (d : Depends) (b : Bool) → is_answer d ≡ false → d ≢ answer_of b
no_answer d b h e = let k = ap is_answer e ∙ answer_of-is_answer b in cc

module _ ⦃host : Platform⦄ where
  -- The anchors stand, in order, in these states.
  pub AreStates : Stand → List Text → List Json → Type 0
  AreStates stood [] [] = Unit
  AreStates stood (key ∷ keys) (state ∷ states) =
      (view : AnchorView) × (moved : Option Seq) × (stood key ≡ some (view, moved))
      × (view.state ≡ state)
      × AreStates stood keys states
  AreStates stood _ _ = ⊥

  -- An expression about the anchors is read with nothing observed and no state of its own.
  abbrev pub over_states : List Json → Ctx
  over_states states = record {
    obs = null;
    state = null;
    taken_at = pos 0;
    entered_at = pos 0;
    anchors = states;
  }

  -- The claim states an expression that compiles and reads its anchors; all of them stand; and it is
  -- `b` over their states.
  pub data Rests (asked : Option Expr) (anchors : List Text) (stood : Stand) (b : Bool)
      : Type 0 where
    rests :
        {source : Expr} {node : Expression} (states : List Json)
        → asked ≡ some source
        → compile source ≡ compiled node
        → reads_anchors node ≡ true
        → AreStates stood anchors states
        → eval node (over_states states) ≡ value (bool b)
        → Rests asked anchors stood b

  missing_none :
      (stood : Stand) (anchors : List Text)
      → missing_from stood anchors ≡ []
      → AreStates stood anchors (states_of stood anchors)
  unfolding missing_from states_of AreStates
  missing_none stood [] h = tt
  missing_none stood (key ∷ keys) h = elim (Option-cases (stood key)) [
    | inl p ↦ let k = rw (missing_from, p) at h in cc
    | inr ((view, moved), p) ↦
        rw (states_of, p)
          (view, moved, p, refl, missing_none stood keys (rw (missing_from, p) at h))
  ]

  none_missing :
      (stood : Stand) (anchors : List Text) (states : List Json)
      → AreStates stood anchors states
      → (missing_from stood anchors ≡ []) × (states_of stood anchors ≡ states)
  unfolding missing_from states_of AreStates
  none_missing stood [] [] h = (refl, refl)
  none_missing stood [] (s ∷ states) h = absurd h
  none_missing stood (key ∷ keys) [] h = absurd h
  none_missing stood (key ∷ keys) (s ∷ states) (view, moved, p, same, more) =
      let (none_left, rest) = none_missing stood keys states more in
      rw (missing_from, p, states_of)
        (none_left, ap₂ (λ (x : Json) (xs : List Json). x ∷ xs) same rest)

  judged_is : (v : Evaluated) (b : Bool) → judged v ≡ answer_of b → v ≡ value (bool b)
  unfolding judged
  judged_is (value (bool true)) true h = refl
  judged_is (value (bool true)) false h = cc
  judged_is (value (bool false)) true h = cc
  judged_is (value (bool false)) false h = refl
  judged_is (value null) true h = cc
  judged_is (value null) false h = cc
  judged_is (value (number n)) true h = cc
  judged_is (value (number n)) false h = cc
  judged_is (value (string s)) true h = cc
  judged_is (value (string s)) false h = cc
  judged_is (value (array vs)) true h = cc
  judged_is (value (array vs)) false h = cc
  judged_is (value (object fs)) true h = cc
  judged_is (value (object fs)) false h = cc
  judged_is absent true h = cc
  judged_is absent false h = cc
  judged_is (fault f) true h = cc
  judged_is (fault f) false h = cc

  module _ (anchors : List Text) (stood : Stand) (b : Bool) where
    grounded_is :
        (node : Expression) (missing : List Text)
        → grounded_on node stood anchors missing ≡ answer_of b
        → (missing ≡ []) × (eval node (over_states (states_of stood anchors)) ≡ value (bool b))
    unfolding grounded_on is_answer reading new_ctx over
    grounded_is node [] h = (refl, judged_is _ b h)
    grounded_is node (key ∷ keys) h = absurd (no_answer _ b refl h)

    parsed_Rests :
        (source : Expr) (c : Compiled)
        → compile source ≡ c
        → depends_parsed source.source c stood anchors ≡ answer_of b
        → Rests (some source) anchors stood b
    unfolding depends_parsed is_answer
    parsed_Rests source (refused e) p h = absurd (no_answer _ b refl h)
    parsed_Rests source (compiled node) p h = elim (Bool-cases (reads_anchors node)) [
      | inl r ↦
          let (m, v) =
            grounded_is node (missing_from stood anchors) (rw (depends_parsed, r) at h) in
          rests (states_of stood anchors) refl p r (missing_none stood anchors m) v
      | inr r ↦ absurd (no_answer _ b refl (rw (depends_parsed, r) at h))
    ]

    answered : (v : Evaluated) → v ≡ value (bool b) → judged v ≡ answer_of b
    unfolding judged
    answered v p = ap judged p ∙ told b
      where
        told : (c : Bool) → judged (value (bool c)) ≡ answer_of c
        told true = refl
        told false = refl

    depends_answer :
        (asked : Option Expr)
        → depends asked anchors stood ≡ answer_of b
        → Rests asked anchors stood b
    unfolding depends is_answer
    depends_answer none h = absurd (no_answer _ b refl h)
    depends_answer (some source) h = parsed_Rests source (compile source) refl h

    answer_depends :
        (asked : Option Expr)
        → Rests asked anchors stood b
        → depends asked anchors stood ≡ answer_of b
    unfolding depends depends_parsed grounded_on reading new_ctx over
    answer_depends asked (rests {source} {node} states p q r are v) =
        let (none_left, same) = none_missing stood anchors states are in
        rw (p, depends, q, depends_parsed, r, none_left, grounded_on)
          (answered _ (ap (λ (xs : List Json). eval node (over_states xs)) same ∙ v))

  -- What a claim depends on holds exactly when the claim states an expression that compiles and reads
  -- its anchors, all of them stand, and the expression is true over their states; and it is broken
  -- exactly when the same is so and the expression is false.
  pub depends-Rests :
      (asked : Option Expr) (anchors : List Text) (stood : Stand)
      → ((depends asked anchors stood ≡ Depends.holds) ↔ Rests asked anchors stood true)
        × ((depends asked anchors stood ≡ Depends.broken) ↔ Rests asked anchors stood false)
  depends-Rests asked anchors stood = (
    (depends_answer anchors stood true asked, answer_depends anchors stood true asked),
    (depends_answer anchors stood false asked, answer_depends anchors stood false asked),
  )
