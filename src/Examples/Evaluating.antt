-- ===== src/Examples/Evaluating.antt =====
-- crates/gmr-expr/src/eval.rs at concrete expressions.
use gmr.Support.{[], ◌∷◌, Bool, true, false, ◌&&◌, not, if◌then◌else◌, ◌==◌, ◌≡◌, refl}
use gmr.Support.Text.{Text, txt, text_eq}
use gmr.Json.{pos, null, bool, number, object, end, field, Json}
use gmr.Expr.Ast.{
  Root, Step, Quant, Over, BinOp, Node, path, lit, binary, changed, quantified, Expression,
}
use gmr.Expr.Ctx.{Ctx, new_ctx, over, each}
use gmr.Expr.Outcome.{value, absent, truth}
use gmr.Expr.Reads.{reads_anchors}
use gmr.Expr.Eval.{eval, is_empty, collection}
use gmr.Expr.Eval.Quantifiers.{all-eq-not_any_not, quantified-counts, says, yes_count, answer_count}
use gmr.Expr.Eval.Comparisons.{eval-Mirrored, lt_gt}
use gmr.Expr.Eval.Locality.{eval-over, has_changed, nested_reads}
use gmr.Expr.Eval.Vacuity.{changed-reads_anchors, nested_reads_anchors, asked_over}
use gmr.Examples.Host.{integers, integers-IsPartialOrder}

abbrev x_is : Bool → Json
x_is b = object (field (txt "x") (bool b) end)

abbrev read : Root → Text → Expression
read root name = path (record { root = root; steps = Step.field name ∷ [] })

abbrev state_x : Expression
state_x = read Root.state (txt "x")

-- Two anchors, one of which has `x`; the observation has `a`.
abbrev two_anchors : Ctx
unfolding new_ctx over
two_anchors =
    over (new_ctx (object (field (txt "a") (number (pos 2)) end)) null)
      (x_is true ∷ x_is false ∷ [])

all-eq-not_any_not_example :
    eval (quantified Quant.all Over.anchors state_x) two_anchors
    ≡ eval (Node.not (quantified Quant.any Over.anchors (Node.not state_x))) two_anchors
all-eq-not_any_not_example = all-eq-not_any_not Over.anchors state_x two_anchors

quantified-counts_example :
    let ask = λ (s : Json). eval state_x (each two_anchors s) in
    let states = collection Over.anchors two_anchors in
    eval (quantified Quant.count Over.anchors state_x) two_anchors ≡ (
      if answer_count ask states == 0 && not (is_empty states)
      then absent
      else says Quant.count (yes_count ask states) (answer_count ask states))
unfolding eval collection each two_anchors text_eq
quantified-counts_example =
    quantified-counts Quant.count Over.anchors state_x two_anchors (tt, (tt, tt))

count_test : eval (quantified Quant.count Over.anchors state_x) two_anchors ≡ value (number (pos 1))
unfolding eval collection each over new_ctx text_eq
count_test = refl

eval-Mirrored_example :
    eval (binary BinOp.lt (lit (number (pos 1))) (read Root.obs (txt "a"))) two_anchors
    ≡ eval (binary BinOp.gt (read Root.obs (txt "a")) (lit (number (pos 1)))) two_anchors
unfolding eval two_anchors text_eq
eval-Mirrored_example =
    eval-Mirrored integers-IsPartialOrder lt_gt (lit (number (pos 1))) (read Root.obs (txt "a"))
      two_anchors refl

eval-over_example :
    eval (quantified Quant.all Over.anchors (lit (bool true))) (over two_anchors (x_is true ∷ []))
    ≡ eval
        (quantified Quant.all Over.anchors (lit (bool true)))
        (over two_anchors (x_is false ∷ []))
unfolding reads_anchors nested_reads has_changed
eval-over_example =
    eval-over (quantified Quant.all Over.anchors (lit (bool true))) two_anchors (x_is true ∷ [])
      (x_is false ∷ []) refl refl refl refl

changed-reads_anchors_example :
    let node = quantified Quant.any Over.anchors (changed (txt "x")) in
    (reads_anchors node ≡ false)
    × (asked_over node (x_is true ∷ []) ≡ truth true)
    × (asked_over node (object end ∷ []) ≡ truth false)
changed-reads_anchors_example = changed-reads_anchors (txt "x") (bool true)

nested_reads_anchors_example :
    let inner = quantified Quant.any Over.anchors state_x in
    let node = quantified Quant.all Over.anchors inner in
    (reads_anchors node ≡ false) × (asked_over node (x_is true ∷ []) ≡ truth true)
nested_reads_anchors_example = nested_reads_anchors (txt "x") true
