-- ===== src/Mutate/Fit.antt =====
-- What mutate.ts asks of an expression: every name is visible, every call is one that the position
-- may make, `/` and `%` do not occur, and `++` and `--` apply to variables.
use mog_jit.Prelude.{ℕ, ◌≡◌, Bool, true, false}
use mog_jit.Prelude.Text.{Text}
use mog_jit.Ast.{
  BinaryOp, div, rem, AssignOp, plain, compound, Expr, literal, ident, cast, assignment,
  conditional, logical, binary, unary, update, call, Exprs, nil, cons,
}
use mog_jit.Mutate.Exprs.{arity_of}

pub record Policy : Type 1 where
  pub names : Text → Type 0
  pub calls : Text → ℕ → Type 0

unfoldable pub is_division : BinaryOp → Bool
is_division div = true
is_division rem = true
is_division _ = false

abbrev pub Lowers : AssignOp → Type 0
Lowers plain = Unit
Lowers (compound op) = is_division op ≡ false

abbrev pub IsVariable : Expr → Type 0
IsVariable (ident x) = Unit
IsVariable _ = false ≡ true

unfoldable mutual
  pub Fit : Policy → Expr → Type 0
  Fit p (literal v) = Unit
  Fit p (ident x) = p.names x
  Fit p (cast t e) = Fit p e
  Fit p (assignment op x e) = Lowers op × p.names x × Fit p e
  Fit p (conditional c a b) = Fit p c × Fit p a × Fit p b
  Fit p (logical op l r) = Fit p l × Fit p r
  Fit p (binary op l r) = (is_division op ≡ false) × Fit p l × Fit p r
  Fit p (unary op e) = Fit p e
  Fit p (update op pre e) = IsVariable e × Fit p e
  Fit p (call f args) = p.calls f (arity_of args) × FitAll p args

  pub FitAll : Policy → Exprs → Type 0
  FitAll p nil = Unit
  FitAll p (cons e es) = Fit p e × FitAll p es

-- With no demand on the names and the calls.
abbrev pub lowering : Policy
lowering = record { names = λ x. Unit; calls = λ f n. Unit }
