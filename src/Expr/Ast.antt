-- ===== src/Expr/Ast.antt =====
-- crates/gmr-expr/src/ast.rs: expressions.
use gmr.Support.{ℕ, List}
use gmr.Support.Text.{Text}
use gmr.Json.{Platform, Value}

pub data Root : Type 0 where
  obs state taken_at entered_at : Root

pub data Step : Type 0 where
  field : Text → Step
  index : ℕ → Step

pub record FieldPath : Type 0 where
  pub root : Root
  pub steps : List Step

pub data BinOp : Type 0 where
  eq ne lt le gt ge and or add sub mul div : BinOp

pub data Quant : Type 0 where
  any all count : Quant

pub data Over : Type 0 where
  anchors : Over

-- Values under `lit` are those of the host's numbers `N`.
mutual
  pub data Node (N : Type 0) : Type 0 where
    path : FieldPath → Node N
    lit : Value N → Node N
    changed : Text → Node N
    exists : Node N → Node N
    not : Node N → Node N
    neg : Node N → Node N
    binary : BinOp → Node N → Node N → Node N
    object : NodeFields N → Node N
    array : NodeItems N → Node N
    quantified : Quant → Over → Node N → Node N

  pub data NodeFields (N : Type 0) : Type 0 where
    no_fields : NodeFields N
    with_field : Text → Node N → NodeFields N → NodeFields N

  pub data NodeItems (N : Type 0) : Type 0 where
    no_items : NodeItems N
    with_item : Node N → NodeItems N → NodeItems N

abbrev pub Expression : ⦃host : Platform⦄ → Type 0
Expression ⦃host⦄ = Node host.Number
