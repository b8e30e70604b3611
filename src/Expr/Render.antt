-- ===== src/Expr/Render.antt =====
-- crates/gmr-expr/src/ast.rs: expressions printed.
use gmr.Support.{List, [], ◌∷◌, ◌++◌}
use gmr.Support.Text.{Text, txt, decimal, join}
use gmr.Json.{Platform}
use gmr.Expr.Ast.{
  Root, Step, FieldPath, BinOp, Quant, Over, Node, NodeFields, NodeItems, path, lit, changed,
  exists, not, neg, binary, object, array, quantified, no_fields, with_field, no_items, with_item,
}

root_name : Root → Text
root_name Root.obs = txt "obs"
root_name Root.state = txt "state"
root_name Root.taken_at = txt "taken_at"
root_name Root.entered_at = txt "entered_at"

bin_op_name : BinOp → Text
bin_op_name BinOp.eq = txt "=="
bin_op_name BinOp.ne = txt "!="
bin_op_name BinOp.lt = txt "<"
bin_op_name BinOp.le = txt "<="
bin_op_name BinOp.gt = txt ">"
bin_op_name BinOp.ge = txt ">="
bin_op_name BinOp.and = txt "and"
bin_op_name BinOp.or = txt "or"
bin_op_name BinOp.add = txt "+"
bin_op_name BinOp.sub = txt "-"
bin_op_name BinOp.mul = txt "*"
bin_op_name BinOp.div = txt "/"

quant_name : Quant → Text
quant_name Quant.any = txt "any"
quant_name Quant.all = txt "all"
quant_name Quant.count = txt "count"

over_name : Over → Text
over_name Over.anchors = txt "anchors"

render_step : Step → Text
render_step (Step.field name) = b'.' ∷ name
render_step (Step.index i) = txt "[" ++ decimal i ++ txt "]"

render_steps : List Step → Text
unfolding render_step
render_steps [] = []
render_steps (step ∷ steps) = render_step step ++ render_steps steps

-- Path::render
unfoldable pub render_path : FieldPath → Text
unfolding root_name render_steps
render_path p = root_name p.root ++ render_steps p.steps

module _ ⦃host : Platform⦄ where
  unfoldable mutual
    unfolding render_path bin_op_name quant_name over_name

    -- Node::render
    pub render : Node host.Number → Text
    render (path p) = render_path p
    render (lit v) = host.show v
    render (changed n) = txt "changed(\"" ++ n ++ txt "\")"
    render (exists x) = txt "exists(" ++ render x ++ txt ")"
    render (not x) = txt "not (" ++ render x ++ txt ")"
    render (neg x) = txt "-(" ++ render x ++ txt ")"
    render (binary op lhs rhs) =
        txt "(" ++ render lhs ++ txt " " ++ bin_op_name op ++ txt " " ++ render rhs ++ txt ")"
    render (object fields) = txt "{ " ++ join (txt ", ") (rendered_fields fields) ++ txt " }"
    render (array items) = txt "[" ++ join (txt ", ") (rendered_items items) ++ txt "]"
    render (quantified how over body) =
        quant_name how ++ txt "(" ++ over_name over ++ txt ", " ++ render body ++ txt ")"

    pub rendered_fields : NodeFields host.Number → List Text
    rendered_fields no_fields = []
    rendered_fields (with_field k v fields) = (k ++ txt ": " ++ render v) ∷ rendered_fields fields

    pub rendered_items : NodeItems host.Number → List Text
    rendered_items no_items = []
    rendered_items (with_item v items) = render v ∷ rendered_items items
