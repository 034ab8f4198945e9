-- ===== src/Core.antt =====
-- The traversals of expressions that the package mog-core exports to fuzz/ts. They are parameters: the
-- record has what the code calls, and IsTraversal what it relies on.
use mog_jit.Prelude.{ℕ, suc, ◌≡◌, List, [], ◌∷◌, max}
use mog_jit.Ast.{
  Expr, literal, ident, cast, assignment, conditional, logical, binary, unary, update, call, Exprs,
  nil, cons,
}

unfoldable pub as_list : Exprs → List Expr
as_list nil = []
as_list (cons e es) = e ∷ as_list es

-- The expressions that a node holds, left to right. The name on the left of an assignment and that of
-- a callee are none of them: the callers rewrite every one to an arbitrary expression.
unfoldable pub direct : Expr → List Expr
unfolding as_list
direct (literal v) = []
direct (ident x) = []
direct (cast t e) = e ∷ []
direct (assignment op x e) = e ∷ []
direct (conditional c a b) = c ∷ a ∷ b ∷ []
direct (logical op l r) = l ∷ r ∷ []
direct (binary op l r) = l ∷ r ∷ []
direct (unary op e) = e ∷ []
direct (update op pre e) = e ∷ []
direct (call f args) = as_list args

-- An action on a state, as a callback that has effects is one.
abbrev pub Act : Type 0 → Type 0 → Type 0
Act S A = S → A × S

unfoldable pub and_then : {S A B : Type 0} → A × S → (A → Act S B) → B × S
and_then r k = k r.0 r.1

infixl 5 ◌>>=◌ ◌>>◌
abbrev pub ◌>>=◌ : {S A B : Type 0} → Act S A → (A → Act S B) → Act S B
◌>>=◌ m k st = and_then (m st) k

abbrev pub ◌>>◌ : {S A B : Type 0} → Act S A → Act S B → Act S B
m >> k = m >>= λ _. k

abbrev pub pure : {S A : Type 0} → A → Act S A
pure a st = (a, st)

module _ {S : Type 0} (f : Expr → Act S Expr) where
  unfoldable pub each_of : Exprs → Act S Exprs
  each_of nil = pure nil
  each_of (cons e es) = do e' ← f e; es' ← each_of es; pure (cons e' es')

  -- The node again, with each of these replaced by what the callback makes of it, in the same order.
  unfoldable pub rebuilt : Expr → Act S Expr
  unfolding each_of
  rebuilt (literal v) = pure (literal v)
  rebuilt (ident x) = pure (ident x)
  rebuilt (cast t e) = do e' ← f e; pure (cast t e')
  rebuilt (assignment op x e) = do e' ← f e; pure (assignment op x e')
  rebuilt (conditional c a b) = do c' ← f c; a' ← f a; b' ← f b; pure (conditional c' a' b')
  rebuilt (logical op l r) = do l' ← f l; r' ← f r; pure (logical op l' r')
  rebuilt (binary op l r) = do l' ← f l; r' ← f r; pure (binary op l' r')
  rebuilt (unary op e) = do e' ← f e; pure (unary op e')
  rebuilt (update op pre e) = do e' ← f e; pure (update op pre e')
  rebuilt (call g args) = do args' ← each_of args; pure (call g args')

-- `recurseOver` by the expressions that it hands to its callback, and `mapOver`.
pub record Traversal (S : Type 0) : Type 0 where
  pub children : Expr → List Expr
  pub map_over : (Expr → Act S Expr) → Expr → Act S Expr

pub record IsTraversal {S : Type 0} (core : Traversal S) : Type 0 where
  pub children-direct : (e : Expr) → core.children e ≡ direct e
  pub map_over-rebuilt : (f : Expr → Act S Expr) (e : Expr) → core.map_over f e ≡ rebuilt f e

-- How many levels an expression has: the fuel that is enough for a walk down from it.
unfoldable mutual
  pub levels : Expr → ℕ
  levels (literal v) = 1
  levels (ident x) = 1
  levels (cast t e) = suc (levels e)
  levels (assignment op x e) = suc (levels e)
  levels (conditional c a b) = suc (max (levels c) (max (levels a) (levels b)))
  levels (logical op l r) = suc (max (levels l) (levels r))
  levels (binary op l r) = suc (max (levels l) (levels r))
  levels (unary op e) = suc (levels e)
  levels (update op pre e) = suc (levels e)
  levels (call f args) = suc (levels_all args)

  pub levels_all : Exprs → ℕ
  levels_all nil = 0
  levels_all (cons e es) = max (levels e) (levels_all es)
