-- ===== src/Mutate/Enough.antt =====
-- mutate.ts, `mutateExpr`: its fuel, against the levels of an expression.
use mog_jit.Prelude.{
  ℕ, zero, suc, min, ◌≤◌, ◌≡◌, refl, sym, ap, ap₂, ◌∙◌, arith, List, All, if◌then◌else◌,
}
use mog_jit.Ast.{
  Expr, literal, ident, cast, assignment, conditional, logical, binary, unary, update, call, Exprs,
  nil, cons,
}
use mog_jit.Core.{IsTraversal, direct, as_list, rebuilt, each_of, ◌>>=◌, pure, levels, levels_all}
use mog_jit.Mutate.Machine.{Var, G}
use mog_jit.Mutate.Exprs.{Ctx, is_opaque, remasked, recursed, mutate_node, mutate_at, mutate_expr}
use mog_jit.Mutate.RebindFit.{levels-positive}

module _ (f g : Expr → G Expr) where
  abbrev Agree : List Expr → Type 0
  Agree = All (λ e. f e ≡ g e)

  each_of-Agree : (es : Exprs) → Agree (as_list es) → each_of f es ≡ each_of g es
  unfolding each_of as_list
  each_of-Agree nil h = refl
  each_of-Agree (cons e es) h =
      ap₂ (λ m ms. m >>= λ e'. ms >>= λ es'. pure (cons e' es')) h.0 (each_of-Agree es h.1)

  rebuilt-Agree : (e : Expr) → Agree (direct e) → rebuilt f e ≡ rebuilt g e
  unfolding rebuilt direct
  rebuilt-Agree (literal v) h = refl
  rebuilt-Agree (ident x) h = refl
  rebuilt-Agree (cast t e) h = ap (λ m. m >>= λ e'. pure (cast t e')) h.0
  rebuilt-Agree (assignment op x e) h = ap (λ m. m >>= λ e'. pure (assignment op x e')) h.0
  rebuilt-Agree (conditional c a b) h =
      ap (λ m. m >>= λ c'. f a >>= λ a'. f b >>= λ b'. pure (conditional c' a' b')) h.0
      ∙ ap₂ (λ m n. g c >>= λ c'. m >>= λ a'. n >>= λ b'. pure (conditional c' a' b')) h.1.0 h.1.1.0
  rebuilt-Agree (logical op l r) h =
      ap₂ (λ m n. m >>= λ l'. n >>= λ r'. pure (logical op l' r')) h.0 h.1.0
  rebuilt-Agree (binary op l r) h =
      ap₂ (λ m n. m >>= λ l'. n >>= λ r'. pure (binary op l' r')) h.0 h.1.0
  rebuilt-Agree (unary op e) h = ap (λ m. m >>= λ e'. pure (unary op e')) h.0
  rebuilt-Agree (update op pre e) h = ap (λ m. m >>= λ e'. pure (update op pre e')) h.0
  rebuilt-Agree (call k args) h = ap (λ m. m >>= λ es. pure (call k es)) (each_of-Agree args h)

  -- Where the two agree below some number of levels.
  module _ (fuel : ℕ) (agree : (e : Expr) → levels e ≤ fuel → f e ≡ g e) where
    as_list-Agree : (es : Exprs) → levels_all es ≤ fuel → Agree (as_list es)
    unfolding as_list levels
    as_list-Agree nil b = tt
    as_list-Agree (cons e es) b = (agree e (omega arith), as_list-Agree es (omega arith))

    pub direct-Agree : (e : Expr) → levels e ≤ suc fuel → Agree (direct e)
    unfolding direct levels
    direct-Agree (literal v) b = tt
    direct-Agree (ident x) b = tt
    direct-Agree (cast t e) b = (agree e (omega arith), tt)
    direct-Agree (assignment op x e) b = (agree e (omega arith), tt)
    direct-Agree (conditional c a b') b =
        (agree c (omega arith), (agree a (omega arith), (agree b' (omega arith), tt)))
    direct-Agree (logical op l r) b = (agree l (omega arith), (agree r (omega arith), tt))
    direct-Agree (binary op l r) b = (agree l (omega arith), (agree r (omega arith), tt))
    direct-Agree (unary op e) b = (agree e (omega arith), tt)
    direct-Agree (update op pre e) b = (agree e (omega arith), tt)
    direct-Agree (call k args) b = as_list-Agree args (omega arith)

module _ (ctx : Ctx) (vars : List Var) (law : IsTraversal ctx.core) where
  mapped-Agree :
      (f g : Expr → G Expr) (e : Expr)
      → All (λ e. f e ≡ g e) (direct e)
      → ctx.core.map_over f e ≡ ctx.core.map_over g e
  mapped-Agree f g e h =
      law.map_over-rebuilt f e ∙ (rebuilt-Agree f g e h ∙ sym (law.map_over-rebuilt g e))

  recursed-Agree :
      (f g : Expr → G Expr) (e : Expr)
      → All (λ e. f e ≡ g e) (direct e)
      → recursed ctx vars f e ≡ recursed ctx vars g e
  recursed-Agree f g (literal v) h = mapped-Agree f g (literal v) h
  recursed-Agree f g (ident x) h = mapped-Agree f g (ident x) h
  recursed-Agree f g (cast t e) h = mapped-Agree f g (cast t e) h
  recursed-Agree f g (assignment op x e) h = mapped-Agree f g (assignment op x e) h
  recursed-Agree f g (conditional c a b) h = mapped-Agree f g (conditional c a b) h
  recursed-Agree f g (logical op l r) h = mapped-Agree f g (logical op l r) h
  recursed-Agree f g (binary op l r) h = mapped-Agree f g (binary op l r) h
  recursed-Agree f g (unary op e) h = mapped-Agree f g (unary op e) h
  recursed-Agree f g (update op pre e) h = refl
  recursed-Agree f g (call k args) h = mapped-Agree f g (call k args) h

  mutate_at_agree :
      (fuel more depth : ℕ) (e : Expr)
      → levels e ≤ fuel
      → levels e ≤ more
      → mutate_at ctx vars fuel depth e ≡ mutate_at ctx vars more depth e
  unfolding mutate_at
  mutate_at_agree zero more depth e b c = absurd (levels-positive e b)
  mutate_at_agree (suc fuel) zero depth e b c = absurd (levels-positive e c)
  mutate_at_agree (suc fuel) (suc more) depth e b c =
      let below : (e : Expr)
          → levels e ≤ min fuel more
          → mutate_at ctx vars fuel 0 e ≡ mutate_at ctx vars more 0 e =
        λ e l. mutate_at_agree fuel more 0 e (omega arith) (omega arith) in
      ap (λ m. if is_opaque e then pure e else (m >>= λ r. mutate_node ctx vars depth (remasked r)))
        (recursed-Agree (mutate_at ctx vars fuel 0) (mutate_at ctx vars more 0) e (
          direct-Agree (mutate_at ctx vars fuel 0) (mutate_at ctx vars more 0) (min fuel more) below
            e (omega arith)))

  -- One level of the walk, on any fuel that is enough.
  mutate_at-unrolled :
      (fuel : ℕ) (e : Expr)
      → levels e ≤ fuel
      → mutate_at ctx vars fuel 0 e ≡ (
          if is_opaque e
          then pure e
          else (recursed ctx vars (mutate_expr ctx vars) e >>= λ r.
              mutate_node ctx vars 0 (remasked r)))
  unfolding mutate_at
  mutate_at-unrolled zero e b = absurd (levels-positive e b)
  mutate_at-unrolled (suc fuel) e b =
      ap (λ m. if is_opaque e then pure e else (m >>= λ r. mutate_node ctx vars 0 (remasked r)))
        (recursed-Agree (mutate_at ctx vars fuel 0) (mutate_expr ctx vars) e (
          direct-Agree (mutate_at ctx vars fuel 0) (mutate_expr ctx vars) fuel
            (λ c l. mutate_at_agree fuel (levels c) 0 c l (omega arith)) e b))

  -- Where recurseOver and mapOver go through the expressions that a node holds, and with the levels
  -- of the expression as fuel, `mutateExpr` is the recursion of the source, which has none: an opaque call is left as it is; of any other expression the parts are mutated first, by
  -- `mutateExpr` itself, and then the node, with its shift amount masked.
  mutate_expr-unrolled :
      (e : Expr)
      → mutate_expr ctx vars e ≡ (
          if is_opaque e
          then pure e
          else (recursed ctx vars (mutate_expr ctx vars) e >>= λ r.
              mutate_node ctx vars 0 (remasked r)))
  mutate_expr-unrolled e = mutate_at-unrolled (levels e) e (omega arith)
