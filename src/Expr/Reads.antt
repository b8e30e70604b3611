-- ===== src/Expr/Reads.antt =====
-- crates/gmr-expr/src/ast.rs: what an expression reads.
use gmr.Support.{List, [], ◌∷◌, ◌++◌, Bool, true, false, ◌||◌, if◌then◌else◌}
use gmr.Support.Text.{Text}
use gmr.Core.Probe.{contains}
use gmr.Expr.Ast.{
  Root, Step, FieldPath, Node, NodeFields, NodeItems, path, lit, changed, exists, not, neg, binary,
  object, array, quantified, no_fields, with_field, no_items, with_item,
}

abbrev pub is_state : Root → Bool
is_state Root.state = true
is_state _ = false

-- `map_while` over the steps, then `join(".")`: the leading field names
leading_fields : List Step → List Text
leading_fields (Step.field name ∷ steps) = name ∷ leading_fields steps
leading_fields _ = []

join_dots : List Text → Text
join_dots [] = []
join_dots (s ∷ []) = s
join_dots (s ∷ t ∷ rest) = s ++ b'.' ∷ join_dots (t ∷ rest)

-- BTreeSet::insert; the order of the set is not modelled
add_read : Text → List Text → List Text
unfolding contains
add_read s out = if contains out s then out else out ++ s ∷ []

add_fields : List Text → List Text → List Text
unfolding join_dots add_read
add_fields [] out = out
add_fields (s ∷ names) out = add_read (join_dots (s ∷ names)) out

path_reads : FieldPath → List Text → List Text
unfolding leading_fields add_fields
path_reads p out = elim p.root [ Root.obs ↦ add_fields (leading_fields p.steps) out | _ ↦ out ]

module _ {N : Type 0} where
  unfoldable mutual
    pub reads_state : Node N → Bool
    reads_state (path p) = is_state p.root
    reads_state (lit v) = false
    reads_state (changed name) = false
    reads_state (exists x) = reads_state x
    reads_state (not x) = reads_state x
    reads_state (neg x) = reads_state x
    reads_state (binary op lhs rhs) = reads_state lhs || reads_state rhs
    reads_state (object fields) = fields_read_state fields
    reads_state (array items) = items_read_state items
    reads_state (quantified how over body) = false

    pub fields_read_state : NodeFields N → Bool
    fields_read_state no_fields = false
    fields_read_state (with_field name v rest) = reads_state v || fields_read_state rest

    pub items_read_state : NodeItems N → Bool
    items_read_state no_items = false
    items_read_state (with_item v rest) = reads_state v || items_read_state rest

  unfoldable mutual
    unfolding reads_state

    pub reads_anchors : Node N → Bool
    reads_anchors (quantified how over body) = reads_state body
    reads_anchors (exists x) = reads_anchors x
    reads_anchors (not x) = reads_anchors x
    reads_anchors (neg x) = reads_anchors x
    reads_anchors (binary op lhs rhs) = reads_anchors lhs || reads_anchors rhs
    reads_anchors (object fields) = fields_read_anchors fields
    reads_anchors (array items) = items_read_anchors items
    reads_anchors _ = false

    pub fields_read_anchors : NodeFields N → Bool
    fields_read_anchors no_fields = false
    fields_read_anchors (with_field name v rest) = reads_anchors v || fields_read_anchors rest

    pub items_read_anchors : NodeItems N → Bool
    items_read_anchors no_items = false
    items_read_anchors (with_item v rest) = reads_anchors v || items_read_anchors rest

  unfoldable mutual
    unfolding path_reads add_read

    pub collect_obs : Node N → List Text → List Text
    collect_obs (path p) out = path_reads p out
    collect_obs (changed name) out = add_read name out
    collect_obs (lit v) out = out
    collect_obs (exists x) out = collect_obs x out
    collect_obs (not x) out = collect_obs x out
    collect_obs (neg x) out = collect_obs x out
    collect_obs (binary op lhs rhs) out = collect_obs rhs (collect_obs lhs out)
    collect_obs (object fields) out = collect_obs_fields fields out
    collect_obs (array items) out = collect_obs_items items out
    collect_obs (quantified how over body) out = collect_obs body out

    pub collect_obs_fields : NodeFields N → List Text → List Text
    collect_obs_fields no_fields out = out
    collect_obs_fields (with_field name v rest) out = collect_obs_fields rest (collect_obs v out)

    pub collect_obs_items : NodeItems N → List Text → List Text
    collect_obs_items no_items out = out
    collect_obs_items (with_item v rest) out = collect_obs_items rest (collect_obs v out)

  unfoldable pub reads_obs : Node N → List Text
  unfolding collect_obs
  reads_obs node = collect_obs node []
