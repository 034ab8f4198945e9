-- ===== src/Walk/Subs.antt =====
-- fuzz/ts/gen/walk.ts: the walk over sub-expressions, through the traversal of mog-core. On fuel: the
-- levels of an expression are enough.
use mog_jit.Prelude.{ℕ, zero, suc, List, [], ◌∷◌, ◌++◌}
use mog_jit.Ast.{Expr, Stmt, Stmts}
use mog_jit.Core.{Traversal, levels}
use mog_jit.Walk.{each_statement, child_expressions}

unfoldable pub flat : {A B : Type 0} → (A → List B) → List A → List B
flat f [] = []
flat f (x ∷ xs) = f x ++ flat f xs

module _ {S : Type 0} (core : Traversal S) where
  -- `eachSubExpression`, as the list of what is visited.
  unfoldable pub each_sub_expression : ℕ → Expr → List Expr
  unfolding flat
  each_sub_expression zero e = []
  each_sub_expression (suc fuel) e = e ∷ flat (each_sub_expression fuel) (core.children e)

  -- Of the expressions that a statement holds.
  abbrev pub of_statement : Stmt → List Expr
  of_statement s = flat (λ e. each_sub_expression (levels e) e) (child_expressions s)

  unfoldable pub each_expression : Stmts → List Expr
  unfolding each_sub_expression flat
  each_expression list = flat of_statement (each_statement list)
