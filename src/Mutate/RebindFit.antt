-- ===== src/Mutate/RebindFit.antt =====
-- mutate.ts: lemmas on `rebind`.
use mog_jit.Prelude.{
  ℕ, zero, suc, ◌≤◌, ◌≡◌, refl, ap, sym, subst, arith, Bool, true, false, List, [], ◌∷◌, All,
  Option, none, some, Bool-cases, Option-cases, inl, inr, ◌==◌,
}
use mog_jit.Prelude.Text.{Text, text_eq, text_eq-true}
use mog_jit.Ast.{
  AssignOp, UpdateOp, Expr, literal, ident, cast, assignment, conditional, logical, binary, unary,
  update, call, Exprs, nil, cons,
}
use mog_jit.Core.{Traversal, IsTraversal, rebuilt, each_of, ◌>>=◌, pure, levels, levels_all}
use mog_jit.Eval.Ops.{proc_index}
use mog_jit.Mutate.Machine.{Var, Gen, G}
use mog_jit.Mutate.Exprs.{Callable, arity_of, may_call, out_of_reach, lit, rebind_node, rebind}
use mog_jit.Mutate.Fit.{Policy, Fit, FitAll, Lowers, lowering}
use mog_jit.Mutate.Yields.{Yields, Maybe, Yields-pure, Yields-perhaps, Yields-bind}
use mog_jit.Mutate.ExprsFit.{Visible, variable_or-Fit, build-Fit, Fit-bind, Fit-pure}

pub levels-positive : (e : Expr) → ¬ (levels e ≤ 0)
unfolding levels
levels-positive (literal v) b = omega arith
levels-positive (ident x) b = omega arith
levels-positive (cast t e) b = omega arith
levels-positive (assignment op x e) b = omega arith
levels-positive (conditional c a b') b = omega arith
levels-positive (logical op l r) b = omega arith
levels-positive (binary op l r) b = omega arith
levels-positive (unary op e) b = omega arith
levels-positive (update op pre e) b = omega arith
levels-positive (call f args) b = omega arith

abbrev pub MayCall : Policy → Callable → Type 0
MayCall p c = p.calls c.name c.arity

-- A node that keeps its kind over parts that an action makes fit, where `q` is what the action asks of
-- them and `fuel` bounds their levels.
module _ (p q : Policy) (again : Expr → G Expr) (fuel : ℕ)
    (makes : (e : Expr) → Fit q e → levels e ≤ fuel → Yields (Fit p) (again e)) where
  each_of-Fit :
      (es : Exprs)
      → FitAll q es
      → levels_all es ≤ fuel
      → Yields (λ out. FitAll p out × (arity_of out ≡ arity_of es)) (each_of again es)
  unfolding each_of Fit arity_of levels
  each_of-Fit nil h b = Yields-pure _ nil (tt, refl)
  each_of-Fit (cons e es) h b = Fit-bind p (again e) _ _ (makes e h.0 (omega arith)) (λ e' k.
      Yields-bind (λ out. FitAll p out × (arity_of out ≡ arity_of es)) _ _ _
        (each_of-Fit es h.1 (omega arith))
        (λ out l. Yields-pure _ (cons e' out) ((k, l.0), ap suc l.1)))

  -- What the node itself has to satisfy. An update's operand is never rebuilt.
  abbrev pub Kept : Expr → Type 0
  Kept (ident x) = p.names x
  Kept (assignment op x e) = p.names x
  Kept (update op pre e) = false ≡ true
  Kept (call f args) = p.calls f (arity_of args)
  Kept _ = Unit

  part :
      (e : Expr) (k : Expr → G Expr)
      → Fit q e
      → levels e ≤ fuel
      → ((e' : Expr) → Fit p e' → Yields (Fit p) (k e'))
      → Yields (Fit p) (again e >>= k)
  part e k h b l = Fit-bind p (again e) k (Fit p) (makes e h b) l

  pub rebuilt-Fit :
      (e : Expr) → Fit q e → levels e ≤ suc fuel → Kept e → Yields (Fit p) (rebuilt again e)
  unfolding rebuilt Fit levels
  rebuilt-Fit (literal v) h b k = Fit-pure p (literal v) tt
  rebuilt-Fit (ident x) h b k = Fit-pure p (ident x) k
  rebuilt-Fit (cast t e) h b k = part e _ h (omega arith) (λ e' m. Fit-pure p (cast t e') m)
  rebuilt-Fit (assignment op x e) h b k =
      part e _ h.2 (omega arith) (λ e' m. Fit-pure p (assignment op x e') (h.0, k, m))
  rebuilt-Fit (conditional c a b') h b k = part c _ h.0 (omega arith) (λ c' m.
      part a _ h.1 (omega arith) (λ a' n.
        part b' _ h.2 (omega arith) (λ b'' o. Fit-pure p (conditional c' a' b'') (m, n, o))))
  rebuilt-Fit (logical op l r) h b k =
      part l _ h.0 (omega arith)
        (λ l' m. part r _ h.1 (omega arith) (λ r' n. Fit-pure p (logical op l' r') (m, n)))
  rebuilt-Fit (binary op l r) h b k =
      part l _ h.1 (omega arith)
        (λ l' m. part r _ h.2 (omega arith) (λ r' n. Fit-pure p (binary op l' r') (h.0, m, n)))
  rebuilt-Fit (unary op e) h b k = part e _ h (omega arith) (λ e' m. Fit-pure p (unary op e') m)
  rebuilt-Fit (update op pre e) h b k = cc
  rebuilt-Fit (call f args) h b k =
      Yields-bind (λ out. FitAll p out × (arity_of out ≡ arity_of args)) _ _ _
        (each_of-Fit args h.1 (omega arith))
        (λ out m. Fit-pure p (call f out) (subst (p.calls f) (sym m.1) k, m.0))

may_call-calls :
    (p : Policy) (cs : List Callable) (f : Text) (n : ℕ)
    → All (MayCall p) cs
    → may_call cs f n ≡ true
    → p.calls f n
unfolding may_call
may_call-calls p [] f n h k = cc
may_call-calls p (c ∷ cs) f n h k = elim (Bool-cases (text_eq c.name f)) [
  | inl e ↦ elim (Bool-cases (c.arity == n)) [
    | inl d ↦
        let same : c.arity ≡ n = ground arith in
        subst (λ m. p.calls f m) same (subst (λ g. p.calls g c.arity) (text_eq-true c.name f e) h.0)
    | inr d ↦ may_call-calls p cs f n h.1 (ground (arith, k, e, d))
  ]
  | inr e ↦ may_call-calls p cs f n h.1 (ground (arith, k, e))
]

module _ (p : Policy) (builtins : (f : Text) (n : ℕ) → proc_index f ≡ none → p.calls f n)
    (core : Traversal Gen) (law : IsTraversal core) (callable : List Callable) (vars : List Var)
    (may : All (MayCall p) callable) (seen : All (Visible p) vars) where
  reach-calls : (f : Text) (n : ℕ) → out_of_reach callable f n ≡ false → p.calls f n
  unfolding out_of_reach
  reach-calls f n h = elim (Option-cases (proc_index f)) [
    | inl e ↦ builtins f n e
    | inr (i, e) ↦ may_call-calls p callable f n may (ground (arith, rw e at h))
  ]

  module _ (again : Expr → G Expr) (fuel : ℕ)
      (makes : (e : Expr) → Fit lowering e → levels e ≤ fuel → Yields (Fit p) (again e)) where
    -- A node that is handed on to `mapOver`.
    mapped-Fit :
        (e : Expr)
        → Fit lowering e
        → levels e ≤ suc fuel
        → Kept p lowering again fuel makes e
        → Yields (Fit p) (core.map_over again e)
    mapped-Fit e h b k =
        rw (law.map_over-rebuilt again e) (rebuilt-Fit p lowering again fuel makes e h b k)

    -- A variable, where one was drawn to be assigned to.
    assigned-Fit :
        (op : AssignOp) (v : Option Var) (e : Expr)
        → Lowers op
        → Maybe (Visible p) v
        → Yields (Fit p) (again e)
        → Yields
            (Fit p)
            (elim v [ none ↦ again e | some w ↦ (do e' ← again e; pure (assignment op w.name e')) ])
    unfolding Fit
    assigned-Fit op none e l h m = m
    assigned-Fit op (some w) e l h m =
        Fit-bind p (again e) _ (Fit p) m (λ e' k. Fit-pure p (assignment op w.name e') (l, h, k))

    updated-Fit :
        (op : UpdateOp) (pre : Bool) (v : Option Var)
        → Maybe (Visible p) v
        → Fit p (elim v [ none ↦ lit 1 | some w ↦ update op pre (ident w.name) ])
    unfolding Fit
    updated-Fit op pre none h = tt
    updated-Fit op pre (some w) h = (tt, h)

    pub rebind_node-Fit :
        (e : Expr)
        → Fit lowering e
        → levels e ≤ suc fuel
        → Yields (Fit p) (rebind_node core callable vars again e)
    unfolding rebind_node Fit levels
    rebind_node-Fit (literal v) h b = mapped-Fit (literal v) h b tt
    rebind_node-Fit (ident x) h b =
        Yields-bind (Maybe (Visible p)) (Fit p) _ _ (Yields-perhaps (Visible p) vars seen)
          (λ v k. variable_or-Fit p v k)
    rebind_node-Fit (cast t e) h b = mapped-Fit (cast t e) h b tt
    rebind_node-Fit (assignment op x e) h b =
        Yields-bind (Maybe (Visible p)) (Fit p) _ _ (Yields-perhaps (Visible p) vars seen)
          (λ v k. assigned-Fit op v e h.0 k (makes e h.2 (omega arith)))
    rebind_node-Fit (conditional c a b') h b = mapped-Fit (conditional c a b') h b tt
    rebind_node-Fit (logical op l r) h b = mapped-Fit (logical op l r) h b tt
    rebind_node-Fit (binary op l r) h b = mapped-Fit (binary op l r) h b tt
    rebind_node-Fit (unary op e) h b = mapped-Fit (unary op e) h b tt
    rebind_node-Fit (update op pre e) h b =
        Yields-bind (Maybe (Visible p)) (Fit p) _ _ (Yields-perhaps (Visible p) vars seen)
          (λ v k. Fit-pure p _ (updated-Fit op pre v k))
    rebind_node-Fit (call f args) h b =
        elim (Bool-cases (out_of_reach callable f (arity_of args))) [
          | inl e ↦ rw e (build-Fit p builtins vars 1 seen)
          | inr e ↦ rw e (mapped-Fit (call f args) h b (reach-calls f (arity_of args) e))
        ]

  -- Every name of a rebound donor is visible where it goes, and every call is one that may be made there.
  pub rebind-Fit :
      (fuel : ℕ) (e : Expr)
      → Fit lowering e
      → levels e ≤ fuel
      → Yields (Fit p) (rebind core callable vars fuel e)
  unfolding rebind levels
  rebind-Fit zero e h b = absurd (levels-positive e b)
  rebind-Fit (suc fuel) e h b =
      rebind_node-Fit (rebind core callable vars fuel) fuel (rebind-Fit fuel) e h b
