-- ===== src/Eval.antt =====
-- fuzz/ts/eval/ast-eval.ts: the DSL evaluated directly, as written.
pub mod Types
pub mod Scope
pub mod Machine
pub mod Ops
pub mod Exprs
pub mod Stmts
pub mod Typing
pub mod Ends
pub mod Fine
pub mod OpsFine
pub mod Typed
pub mod Steady
pub mod Pieces
pub mod Bounded
pub mod Limits
mod Tests
