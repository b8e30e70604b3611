-- ===== src/Examples/Parsing.antt =====
-- crates/gmr-expr/src/parse.rs at concrete texts.
use gmr.Support.{[], ◌∷◌, true, ◌≡◌, ◌≢◌, refl}
use gmr.Support.Text.{Text, txt, parse_usize, text_eq}
use gmr.Json.{pos, bool, number, string}
use gmr.Expr.Ast.{
  Root, Step, Quant, Over, BinOp, Node, path, lit, binary, neg, changed, quantified, no_fields,
  with_field, no_items, with_item, Expression,
}
use gmr.Expr.Parse.{parse}
use gmr.Expr.Parse.Lexer.{parsed, syntax_error, out_of_fuel}
use gmr.Expr.Parse.Total.{parse-ne-out_of_fuel}
use gmr.Examples.Host.{integers}

abbrev field_path : Root → Text → Expression
field_path root name = path (record { root = root; steps = Step.field name ∷ [] })

-- `and` binds closer than `or`, and `>` closer than `and`.
precedence_test :
    parse (txt "obs.a > 1 or not true and state.b")
    ≡ parsed
        (binary BinOp.or
          (binary BinOp.gt (field_path Root.obs (txt "a")) (lit (number (pos 1))))
          (binary BinOp.and (Node.not (lit (bool true))) (field_path Root.state (txt "b"))))
        []
unfolding parse parse_usize text_eq
precedence_test = refl

object_test :
    parse (txt "{ status: \"done\", n: [-1, ] }")
    ≡ parsed
        (Node.object (
          with_field (txt "status") (lit (string (txt "done"))) (
            with_field
              (txt "n")
              (Node.array (with_item (neg (lit (number (pos 1)))) no_items))
              no_fields)))
        []
unfolding parse parse_usize text_eq
object_test = refl

quantified_test :
    parse (txt "any(anchors, changed(\"x\"))")
    ≡ parsed (quantified Quant.any Over.anchors (changed (txt "x"))) []
unfolding parse parse_usize text_eq
quantified_test = refl

trailing_test : parse (txt "1 )") ≡ syntax_error (txt "trailing `)`")
unfolding parse parse_usize text_eq
trailing_test = refl

parse-ne-out_of_fuel_example : parse (txt "any(anchors, not obs.a[0] > 1d)") ≢ out_of_fuel
parse-ne-out_of_fuel_example = parse-ne-out_of_fuel (txt "any(anchors, not obs.a[0] > 1d)")
