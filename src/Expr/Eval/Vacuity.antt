-- ===== src/Expr/Eval/Vacuity.antt =====
-- crates/gmr-expr/src/ast.rs, reads_anchors: expressions that it passes over although what they say
-- turns on the states of the anchors.
use gmr.Support.{List, [], ◌∷◌, Bool, true, false, ◌≡◌, refl, arith}
use gmr.Support.Text.{Text, text_eq_refl}
use gmr.Json.{Platform, bool, field, end, null, object, Json}
use gmr.Expr.Ast.{Root, Step, Over, Quant, changed, quantified, path, Expression}
use gmr.Expr.Ctx.{new_ctx, over}
use gmr.Expr.Reads.{reads_anchors}
use gmr.Expr.Outcome.{Evaluated, truth}
use gmr.Expr.Eval.{eval}

module _ ⦃host : Platform⦄ where
  -- How `depends` asks: nothing is observed, and there is no state but those of the anchors.
  abbrev pub asked_over : Expression → List Json → Evaluated
  asked_over node states = eval node (over (new_ctx null null) states)

  -- An invariant that says with `changed` that some anchor's state has a field is taken to read no
  -- anchor, and is answered by whether it has.
  pub changed-reads_anchors :
      (name : Text) (v : Json)
      → let node = quantified Quant.any Over.anchors (changed name) in
        (reads_anchors node ≡ false)
        × (asked_over node (object (field name v end) ∷ []) ≡ truth true)
        × (asked_over node (object end ∷ []) ≡ truth false)
  unfolding reads_anchors eval new_ctx over
  changed-reads_anchors name v = (refl, rw (text_eq_refl name), refl)

  -- `all(anchors, any(anchors, state.NAME))` is taken to read no anchor, and over one anchor its
  -- value is the Boolean that the anchor's state has under that name.
  pub nested_reads_anchors :
      (name : Text) (b : Bool)
      → let field_path = path (record { root = Root.state; steps = Step.field name ∷ [] }) in
        let inner = quantified Quant.any Over.anchors field_path in
        let node = quantified Quant.all Over.anchors inner in
        (reads_anchors node ≡ false)
        × (asked_over node (object (field name (bool b) end) ∷ []) ≡ truth b)
  unfolding reads_anchors eval new_ctx over
  nested_reads_anchors name true = (refl, ground (arith, text_eq_refl name))
  nested_reads_anchors name false = (refl, ground (arith, text_eq_refl name))
