-- ===== src/Ast.antt =====
-- The syntax trees of fuzz/ts. Their node types are imported from mog-core; the constructors and
-- fields written down here are those that fuzz/ts/gen/minimize.ts (EXPRESSION_TYPES),
-- fuzz/ts/gen/walk.ts, fuzz/ts/gen/print.ts and fuzz/ts/eval/ast-eval.ts construct and inspect.
-- A `Literal` keeps its value and not its source slice `raw`.
use mog_jit.Prelude.{ℕ, Bool, List, Option}
use mog_jit.Prelude.Text.{Text}

pub data PrimType : Type 0 where
  u32 u16 u8 i32 i16 i8 : PrimType

-- `+ - * | ^ & << >> == != < <= > >=`, and `/ %`, which the grammar accepts and nothing lowers.
pub data BinaryOp : Type 0 where
  add sub mul bor bxor band shl shr eq ne lt le gt ge div rem : BinaryOp

pub data LogicalOp : Type 0 where
  and_also or_else : LogicalOp

-- `- ~ !`, and `+` for any other prefix operator.
pub data UnaryOp : Type 0 where
  minus complement bang plus : UnaryOp

pub data UpdateOp : Type 0 where
  increment decrement : UpdateOp

-- `=`, and `+=` and its like.
pub data AssignOp : Type 0 where
  plain : AssignOp
  compound : BinaryOp → AssignOp

mutual
  pub data Expr : Type 0 where
    literal : ℕ → Expr
    ident : Text → Expr
    cast : PrimType → Expr → Expr
    assignment : AssignOp → Text → Expr → Expr
    conditional : Expr → Expr → Expr → Expr
    logical : LogicalOp → Expr → Expr → Expr
    binary : BinaryOp → Expr → Expr → Expr
    unary : UnaryOp → Expr → Expr
    -- The flag is `prefix`.
    update : UpdateOp → Bool → Expr → Expr
    call : Text → Exprs → Expr

  pub data Exprs : Type 0 where
    nil : Exprs
    cons : Expr → Exprs → Exprs

pub record Declarator : Type 0 where
  pub name : Text
  pub var_type : PrimType
  pub init : Option Expr

-- The first slot of a `for`.
pub data ForInit : Type 0 where
  no_init : ForInit
  declares : List Declarator → ForInit
  computes : Expr → ForInit

-- A control body is a statement: a block, or a single one.
mutual
  pub data Stmt : Type 0 where
    block : Stmts → Stmt
    break_stmt : Stmt
    expression : Expr → Stmt
    return_stmt : Option Expr → Stmt
    declaration : List Declarator → Stmt
    if_then : Expr → Stmt → Stmt
    if_else : Expr → Stmt → Stmt → Stmt
    while_stmt : Expr → Stmt → Stmt
    do_while : Stmt → Expr → Stmt
    for_stmt : ForInit → Option Expr → Option Expr → Stmt → Stmt
    switch : Expr → Cases → Stmt

  pub data Stmts : Type 0 where
    stop : Stmts
    next : Stmt → Stmts → Stmts

  -- A clause with no test is the `default`.
  pub data Cases : Type 0 where
    no_case : Cases
    clause : Option Expr → Stmts → Cases → Cases

-- corpus.ts's procedure graph: procedure i is named `p<i>`, and the entry is index 0.
pub record GenProc : Type 0 where
  pub args : List Text
  pub body : Stmts

pub record GenProgram : Type 0 where
  pub procs : List GenProc
