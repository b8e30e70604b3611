-- ===== src/Runtime/Depends.antt =====
-- crates/gmr-runtime/src/read.rs, depends: whether what a claim depends on is so, by the states of
-- its anchors. `depending` and `anchors` are what Held answers under those names.
pub mod Rests
use gmr.Support.{List, [], ◌∷◌, ◌++◌, Bool, true, false, Option, none, some, if◌then◌else◌}
use gmr.Support.Text.{Text, txt}
use gmr.Json.{Platform, null, bool, Json}
use gmr.Expr.Ast.{Expression}
use gmr.Expr.Reads.{reads_anchors}
use gmr.Expr.Ctx.{Ctx, new_ctx, over}
use gmr.Expr.Outcome.{class, Evaluated, value, absent, fault}
use gmr.Expr.Eval.{eval}
use gmr.Core.Anchor.{Expr}
use gmr.Core.Journal.{Seq}
use gmr.Runtime.Translate.{Compiled, compiled, refused, compile}
use gmr.Runtime.View.{AnchorView}

pub data Depends : Type 0 where
  holds broken unstated : Depends
  ungrounded : List Text → Depends
  vacuous unevaluable : Text → Depends

-- Depends::stated
unfoldable pub stated : Depends → Bool
stated Depends.unstated = false
stated _ = true

module _ ⦃host : Platform⦄ where
  abbrev pub Stand : Type 0
  Stand = Text → Option (AnchorView × Option Seq)

  unfoldable pub missing_from : Stand → List Text → List Text
  missing_from stood [] = []
  missing_from stood (key ∷ keys) =
      let rest = missing_from stood keys in elim (stood key) [ none ↦ key ∷ rest | some s ↦ rest ]

  unfoldable pub states_of : Stand → List Text → List Json
  states_of stood [] = []
  states_of stood (key ∷ keys) =
      let rest = states_of stood keys in
      elim (stood key) [ none ↦ rest | some s ↦ s.0.state ∷ rest ]

  unfoldable pub judged : Evaluated → Depends
  unfolding class
  judged (value (bool true)) = Depends.holds
  judged (value (bool false)) = Depends.broken
  judged (value other) =
      Depends.unevaluable
        (txt "answered with " ++ host.show other ++ txt ", which is not a yes or a no")
  judged absent = Depends.unevaluable (txt "answered with nothing at all")
  judged (fault f) = Depends.unevaluable (txt "could not be settled: " ++ class f)

  unfoldable pub reading : Stand → List Text → Ctx
  unfolding new_ctx over states_of
  reading stood anchors = over (new_ctx null null) (states_of stood anchors)

  unfoldable pub grounded_on : Expression → Stand → List Text → List Text → Depends
  unfolding judged reading
  grounded_on node stood anchors (key ∷ keys) = Depends.ungrounded (key ∷ keys)
  grounded_on node stood anchors [] = judged (eval node (reading stood anchors))

  unfoldable pub depends_parsed : Text → Compiled → Stand → List Text → Depends
  unfolding grounded_on missing_from reads_anchors
  depends_parsed source (refused e) stood anchors =
      Depends.unevaluable (b'`' ∷ source ++ txt "`: " ++ e)
  depends_parsed source (compiled node) stood anchors =
      if reads_anchors node
      then grounded_on node stood anchors (missing_from stood anchors)
      else Depends.vacuous source

  unfoldable pub depends : Option Expr → List Text → Stand → Depends
  unfolding depends_parsed compile
  depends none anchors stood = Depends.unstated
  depends (some source) anchors stood = depends_parsed source.source (compile source) stood anchors
