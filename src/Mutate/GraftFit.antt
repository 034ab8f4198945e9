-- ===== src/Mutate/GraftFit.antt =====
-- mutate.ts: lemmas on the options of `mutateExpr`.
use mog_jit.Prelude.{
  ℕ, zero, suc, ◌+◌, ◌≤◌, ◌≡◌, arith, List, [], ◌∷◌, All, All-append, Option, none, some, ltb,
  Bool-cases, inl, inr,
}
use mog_jit.Prelude.Text.{Text}
use mog_jit.Ast.{
  plain, and_also, or_else, Expr, literal, ident, cast, assignment, conditional, logical, binary,
  unary, update, call,
}
use mog_jit.Core.{IsTraversal, ◌>>=◌, pure, levels}
use mog_jit.Eval.Ops.{proc_index}
use mog_jit.Mutate.Machine.{Var, G}
use mog_jit.Mutate.Exprs.{
  class_of, build, arity_of, Callable, run_any, nearby, own_options, any_options, call_options,
  assign_options, Ctx, max_expr_height, height, graft_options, grown, mutate_node, is_opaque,
  recursed, remasked, mutate_at, mutate_expr,
}
use mog_jit.Mutate.Fit.{Policy, Fit, FitAll, lowering}
use mog_jit.Mutate.Yields.{
  Yields, Maybe, Yields-if, Yields-one_from, Yields-perhaps, Yields-bind, Yields-then, Yields-run,
}
use mog_jit.Mutate.ExprsFit.{
  Whole, any_operator-Whole, class_of-Whole, shift_safe-Fit, any_boundary-Fit, Visible, leaf-Fit,
  binary-Fit, Fit-bind, Fit-pure, call_one-Fit, Builtin, any_load-Builtin,
  any_unary_builtin-Builtin, build-Fit, build_args-Fit,
}
use mog_jit.Mutate.RebindFit.{MayCall, Kept, rebind-Fit, rebuilt-Fit, levels-positive}

module _ (p : Policy) where
  abbrev Offers : List (G Expr) → Type 0
  Offers = All (Yields (Fit p))

  run_any-Fit :
      (e : Expr) (options : List (G Expr))
      → Fit p e
      → Offers options
      → Yields (Fit p) (run_any e options)
  unfolding run_any
  run_any-Fit e [] h k = Yields-run (Fit p) (pure e) [] (Fit-pure p e h, tt)
  run_any-Fit e (x ∷ xs) h k = Yields-run (Fit p) x xs k

  nearby-Fit : (v : ℕ) → Yields (Fit p) (nearby v)
  unfolding nearby Fit
  nearby-Fit v = Yields-then (Fit p) _ _ (λ d. Fit-pure p _ tt)

  own_options-Fit :
      (vars : List Var) (e : Expr) → All (Visible p) vars → Fit p e → Offers (own_options vars e)
  unfolding own_options Fit
  own_options-Fit vars (literal v) s h =
      (any_boundary-Fit p, (nearby-Fit v, (leaf-Fit p vars s, tt)))
  own_options-Fit vars (ident x) s h = (leaf-Fit p vars s, tt)
  own_options-Fit vars (cast t e) s h = (Yields-then (Fit p) _ _ (λ u. Fit-pure p (cast u e) h), tt)
  own_options-Fit vars (assignment op x e) s h = tt
  own_options-Fit vars (conditional c a b) s h = tt
  own_options-Fit vars (logical and_also l r) s h =
      (Fit-pure p (logical or_else l r) h, (Fit-pure p (logical and_also r l) (h.1, h.0), tt))
  own_options-Fit vars (logical or_else l r) s h =
      (Fit-pure p (logical and_also l r) h, (Fit-pure p (logical or_else r l) (h.1, h.0), tt))
  own_options-Fit vars (binary op l r) s h = (
    Yields-bind Whole (Fit p) _ _
        (Yields-one_from Whole (class_of op).0 (class_of op).1 (class_of-Whole op))
        (λ o w. Fit-pure p _ (binary-Fit p o l r w h.1 h.2)),
    (
      Yields-bind Whole (Fit p) _ _ any_operator-Whole
          (λ o w. Fit-pure p _ (binary-Fit p o l r w h.1 h.2)),
      (Fit-pure p _ (binary-Fit p op r l h.0 h.2 h.1), (Fit-pure p l h.1, (Fit-pure p r h.2, tt))),
    ),
  )
  own_options-Fit vars (unary op e) s h =
      (Yields-then (Fit p) _ _ (λ o. Fit-pure p (unary o e) h), tt)
  own_options-Fit vars (update op pre e) s h = tt
  own_options-Fit vars (call f args) s h = tt

  assign_options-Fit :
      (e : Expr) (v : Option Var) → Fit p e → Maybe (Visible p) v → Offers (assign_options e v)
  unfolding assign_options Fit
  assign_options-Fit e none h k = tt
  assign_options-Fit e (some v) h k = (
    Fit-pure p (assignment plain v.name e) (tt, k, h),
    (
      Yields-then (Fit p) _ _ (λ op.
          Yields-then (Fit p) _ _ (λ pre. Fit-pure p (update op pre (ident v.name)) (tt, k))),
      tt,
    ),
  )

  remasked-Fit : (e : Expr) → Fit p e → Fit p (remasked e)
  unfolding Fit
  remasked-Fit (literal v) h = h
  remasked-Fit (ident x) h = h
  remasked-Fit (cast t e) h = h
  remasked-Fit (assignment op x e) h = h
  remasked-Fit (conditional c a b) h = h
  remasked-Fit (logical op l r) h = h
  remasked-Fit (binary op l r) h = (h.0, h.1, shift_safe-Fit p op r h.2)
  remasked-Fit (unary op e) h = h
  remasked-Fit (update op pre e) h = h
  remasked-Fit (call f args) h = h

module _ (p : Policy) (builtins : (f : Text) (n : ℕ) → proc_index f ≡ none → p.calls f n) where
  any_options-Fit :
      (vars : List Var) (e : Expr) → All (Visible p) vars → Fit p e → Offers p (any_options vars e)
  unfolding any_options Fit
  any_options-Fit vars e s h =
      let built : (k : Expr → G Expr)
          → ((r : Expr) → Fit p r → Yields (Fit p) (k r))
          → Yields (Fit p) (build vars 1 >>= k) =
        λ k l. Fit-bind p (build vars 1) k (Fit p) (build-Fit p builtins vars 1 s) l in
      (
        Yields-bind Whole (Fit p) _ _ any_operator-Whole
            (λ op w. built _ (λ r k. Fit-pure p _ (binary-Fit p op e r w h k))),
        (
          Yields-then (Fit p) _ _ (λ op. Fit-pure p (unary op e) h),
          (
            Yields-then (Fit p) _ _ (λ t. Fit-pure p (cast t e) h),
            (
              built _ (λ a k. built _ (λ b l. Fit-pure p (conditional e a b) (h, k, l))),
              (
                Yields-then (Fit p) _ _ (λ op. built _ (λ r k. Fit-pure p (logical op e r) (h, k))),
                (
                  Yields-bind (Builtin p builtins) (Fit p) _ _
                      (any_unary_builtin-Builtin p builtins)
                      (λ f b. Fit-pure p _ (call_one-Fit p builtins f e b h)),
                  (
                    Yields-bind (Builtin p builtins) (Fit p) _ _ (any_load-Builtin p builtins)
                        (λ f b. Fit-pure p _ (call_one-Fit p builtins f e b h)),
                    (build-Fit p builtins vars 2 s, tt),
                  ),
                ),
              ),
            ),
          ),
        ),
      )

  call_options-Fit :
      (vars : List Var) (c : Option Callable)
      → All (Visible p) vars
      → Maybe (MayCall p) c
      → Offers p (call_options vars c)
  unfolding call_options Fit
  call_options-Fit vars none s h = tt
  call_options-Fit vars (some c) s h = (
    Yields-bind (λ es. FitAll p es × (arity_of es ≡ c.arity)) (Fit p) _ _
        (build_args-Fit p builtins vars c.arity s)
        (λ es k. Fit-pure p (call c.name es) (rw k.1 h, k.0)),
    tt,
  )

module _ (p : Policy) (builtins : (f : Text) (n : ℕ) → proc_index f ≡ none → p.calls f n)
    (ctx : Ctx) (vars : List Var) (law : IsTraversal ctx.core) (may : All (MayCall p) ctx.callable)
    (donated : All (Fit lowering) ctx.donors) (seen : All (Visible p) vars) where
  graft_options-Fit :
      (depth : ℕ) (d : Option Expr)
      → Maybe (Fit lowering) d
      → Offers p (graft_options ctx vars depth d)
  unfolding graft_options
  graft_options-Fit depth none h = tt
  graft_options-Fit depth (some d) h =
      elim (Bool-cases (ltb (depth + height ctx.core d) max_expr_height)) [
        | inl e ↦ rw e (
          rebind-Fit p builtins ctx.core law ctx.callable vars may seen (levels d) d h
              (omega arith),
          tt,
        )
        | inr e ↦ rw e tt
      ]

  grown-Fit : (depth : ℕ) (e : Expr) → Fit p e → Yields (Fit p) (grown ctx vars depth e)
  unfolding grown
  grown-Fit depth e h =
      Yields-bind (Maybe (MayCall p)) (Fit p) _ _ (Yields-perhaps (MayCall p) ctx.callable may)
        (λ c k.
          Yields-bind (Maybe (Fit lowering)) (Fit p) _ _
            (Yields-perhaps (Fit lowering) ctx.donors donated)
            (λ d l.
              Yields-bind (Maybe (Visible p)) (Fit p) _ _ (Yields-perhaps (Visible p) vars seen)
                (λ v m. run_any-Fit p e _ h (
                  All-append (Yields (Fit p)) (own_options vars e) _
                    (own_options-Fit p vars e seen h)
                    (All-append (Yields (Fit p)) (any_options vars e) _
                      (any_options-Fit p builtins vars e seen h)
                      (All-append (Yields (Fit p)) (call_options vars c) _
                        (call_options-Fit p builtins vars c seen k)
                        (All-append (Yields (Fit p)) (graft_options ctx vars depth d) _
                          (graft_options-Fit depth d l) (assign_options-Fit p e v h m))))))))

  mutate_node-Fit : (depth : ℕ) (e : Expr) → Fit p e → Yields (Fit p) (mutate_node ctx vars depth e)
  unfolding mutate_node
  mutate_node-Fit depth e h = Yields-then (Fit p) _ _ (λ b.
      Yields-if (Fit p) b _ _
        (Yields-then (Fit p) _ _ (λ u.
          Yields-if (Fit p) _ _ _ (grown-Fit depth e h)
            (run_any-Fit p e _ h (own_options-Fit p vars e seen h))))
        (Fit-pure p e h))

  -- A node whose parts are mutated.
  mapped :
      (again : Expr → G Expr) (fuel : ℕ)
      (makes : (e : Expr) → Fit p e → levels e ≤ fuel → Yields (Fit p) (again e)) (e : Expr)
      → Fit p e
      → levels e ≤ suc fuel
      → Kept p p again fuel makes e
      → Yields (Fit p) (ctx.core.map_over again e)
  mapped again fuel makes e h b k =
      rw (law.map_over-rebuilt again e) (rebuilt-Fit p p again fuel makes e h b k)

  part-Fit :
      (again : Expr → G Expr) (fuel : ℕ)
      → ((e : Expr) → Fit p e → levels e ≤ fuel → Yields (Fit p) (again e))
      → (e : Expr) → Fit p e
      → levels e ≤ suc fuel
      → Yields (Fit p) (recursed ctx vars again e)
  unfolding Fit
  part-Fit again fuel makes (literal v) h b = mapped again fuel makes (literal v) h b tt
  part-Fit again fuel makes (ident x) h b = mapped again fuel makes (ident x) h b h
  part-Fit again fuel makes (cast t e) h b = mapped again fuel makes (cast t e) h b tt
  part-Fit again fuel makes (assignment op x e) h b =
      mapped again fuel makes (assignment op x e) h b h.1
  part-Fit again fuel makes (conditional c a b') h b =
      mapped again fuel makes (conditional c a b') h b tt
  part-Fit again fuel makes (logical op l r) h b = mapped again fuel makes (logical op l r) h b tt
  part-Fit again fuel makes (binary op l r) h b = mapped again fuel makes (binary op l r) h b tt
  part-Fit again fuel makes (unary op e) h b = mapped again fuel makes (unary op e) h b tt
  part-Fit again fuel makes (update op pre e) h b = Fit-pure p (update op pre e) h
  part-Fit again fuel makes (call f args) h b = mapped again fuel makes (call f args) h b h.0

  mutate_at-Fit :
      (fuel depth : ℕ) (e : Expr)
      → Fit p e
      → levels e ≤ fuel
      → Yields (Fit p) (mutate_at ctx vars fuel depth e)
  unfolding mutate_at
  mutate_at-Fit zero depth e h b = absurd (levels-positive e b)
  mutate_at-Fit (suc fuel) depth e h b = Yields-if (Fit p) (is_opaque e) _ _ (Fit-pure p e h) (
      Fit-bind p _ _ (Fit p)
        (part-Fit (mutate_at ctx vars fuel 0) fuel (λ c k l. mutate_at-Fit fuel 0 c k l) e h b)
        (λ r k. mutate_node-Fit depth (remasked r) (remasked-Fit p r k)))

  pub mutate_expr-Fit : (e : Expr) → Fit p e → Yields (Fit p) (mutate_expr ctx vars e)
  mutate_expr-Fit e h = mutate_at-Fit (levels e) 0 e h (omega arith)
