-- ===== src/Expr.antt =====
-- crates/gmr-expr: the expression language of the rules, from its text to its value.
pub mod Ast
pub mod Ctx
pub mod Outcome
pub mod Reads
pub mod Eval
pub mod Render
pub mod Bind
pub mod Parse
