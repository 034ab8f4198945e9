-- ===== src/Mutate/ExprsFit.antt =====
-- mutate.ts: lemmas on `shiftSafe`, `leaf` and `build`.
use mog_jit.Prelude.{
  get_or, All-get_or, ℕ, zero, suc, ◌≡◌, refl, ap, arith, Bool, true, false, List, ◌∷◌, All, Option,
  none, some, if◌then◌else◌, leb,
}
use mog_jit.Prelude.Text.{Text}
use mog_jit.Ast.{
  BinaryOp, add, sub, mul, bor, bxor, band, shl, shr, eq, ne, lt, le, gt, ge, div, rem, Expr,
  literal, ident, cast, assignment, conditional, logical, binary, unary, update, call, nil, cons,
}
use mog_jit.Core.{◌>>=◌, pure}
use mog_jit.Eval.Ops.{proc_index}
use mog_jit.Mutate.Machine.{Var, G, perhaps}
use mog_jit.Mutate.Exprs.{
  already_masked, OpClass, class_of, lit, is_shift, masked_amount, shift_safe, any_operator,
  any_boundary, any_unary_builtin, any_load, call_one, variable_or, leaf, shapes, loaded, build,
  build_args, arity_of,
}
use mog_jit.Mutate.Fit.{Policy, is_division, Fit, FitAll}
use mog_jit.Mutate.Yields.{
  Yields, Maybe, Yields-pure, Yields-if, Yields-one_from, Yields-perhaps, Yields-bind, Yields-then,
}

-- No operator of the alphabet divides.
abbrev pub Whole : BinaryOp → Type 0
Whole op = is_division op ≡ false

pub any_operator-Whole : Yields Whole any_operator
unfolding any_operator is_division
any_operator-Whole =
    Yields-bind (λ (c : OpClass). All Whole (c.0 ∷ c.1)) Whole _ _
      (Yields-one_from (λ (c : OpClass). All Whole (c.0 ∷ c.1)) _ _ (ground arith))
      (λ c h. Yields-one_from Whole c.0 c.1 h)

pub class_of-Whole : (op : BinaryOp) → All Whole ((class_of op).0 ∷ (class_of op).1)
unfolding class_of is_division
class_of-Whole add = ground arith
class_of-Whole sub = ground arith
class_of-Whole mul = ground arith
class_of-Whole bor = ground arith
class_of-Whole bxor = ground arith
class_of-Whole band = ground arith
class_of-Whole shl = ground arith
class_of-Whole shr = ground arith
class_of-Whole eq = ground arith
class_of-Whole ne = ground arith
class_of-Whole lt = ground arith
class_of-Whole le = ground arith
class_of-Whole gt = ground arith
class_of-Whole ge = ground arith
class_of-Whole div = ground arith
class_of-Whole rem = ground arith

module _ (p : Policy) where
  either-Fit : (t : Bool) (e f : Expr) → Fit p e → Fit p f → Fit p (if t then e else f)
  either-Fit true e f h k = h
  either-Fit false e f h k = k

  anded-Fit : (e : Expr) → Fit p e → Fit p (if already_masked e then e else binary band e (lit 31))
  unfolding Fit is_division
  anded-Fit e h = either-Fit (already_masked e) e (binary band e (lit 31)) h (refl, h, tt)

  masked_amount-Fit : (e : Expr) → Fit p e → Fit p (masked_amount e)
  unfolding masked_amount Fit
  masked_amount-Fit (literal v) h = either-Fit (leb v 31) _ _ tt tt
  masked_amount-Fit (ident x) h = anded-Fit (ident x) h
  masked_amount-Fit (cast t e) h = anded-Fit (cast t e) h
  masked_amount-Fit (assignment op x e) h = anded-Fit (assignment op x e) h
  masked_amount-Fit (conditional c a b) h = anded-Fit (conditional c a b) h
  masked_amount-Fit (logical op l r) h = anded-Fit (logical op l r) h
  masked_amount-Fit (binary op l r) h = anded-Fit (binary op l r) h
  masked_amount-Fit (unary op e) h = anded-Fit (unary op e) h
  masked_amount-Fit (update op pre e) h = anded-Fit (update op pre e) h
  masked_amount-Fit (call f args) h = anded-Fit (call f args) h

  pub shift_safe-Fit : (op : BinaryOp) (e : Expr) → Fit p e → Fit p (shift_safe op e)
  unfolding shift_safe
  shift_safe-Fit op e h = either-Fit (is_shift op) _ e (masked_amount-Fit e h) h

  pub any_boundary-Fit : Yields (Fit p) any_boundary
  unfolding any_boundary Fit
  any_boundary-Fit = Yields-then (Fit p) _ _ (λ v. Yields-pure (Fit p) (lit v) tt)

  abbrev pub Visible : Var → Type 0
  Visible v = p.names v.name

  pub variable_or-Fit : (v : Option Var) → Maybe Visible v → Yields (Fit p) (variable_or v)
  unfolding variable_or Fit
  variable_or-Fit none h = any_boundary-Fit
  variable_or-Fit (some v) h = Yields-pure (Fit p) (ident v.name) h

  pub leaf-Fit : (vars : List Var) → All Visible vars → Yields (Fit p) (leaf vars)
  unfolding leaf
  leaf-Fit vars h = Yields-then (Fit p) _ _ (λ b.
      Yields-bind (Maybe Visible) (Fit p) _ _
        (Yields-if (Maybe Visible) b (perhaps vars) _ (Yields-perhaps Visible vars h)
          (Yields-pure (Maybe Visible) none tt))
        (λ v k. variable_or-Fit v k))

  -- A binary node over fitting operands.
  pub binary-Fit :
      (op : BinaryOp) (l r : Expr)
      → Whole op
      → Fit p l
      → Fit p r
      → Fit p (binary op l (shift_safe op r))
  unfolding Fit
  binary-Fit op l r w h k = (w, h, shift_safe-Fit op r k)

  pub Fit-bind :
      {A : Type 0} (m : G Expr) (k : Expr → G A) (Q : A → Type 0)
      → Yields (Fit p) m
      → ((e : Expr) → Fit p e → Yields Q (k e))
      → Yields Q (m >>= k)
  Fit-bind m k Q h l = Yields-bind (Fit p) Q m k h l

  pub Fit-pure : (e : Expr) → Fit p e → Yields (Fit p) (pure e)
  Fit-pure e h = Yields-pure (Fit p) e h

module _ (p : Policy) (builtins : (f : Text) (n : ℕ) → proc_index f ≡ none → p.calls f n) where
  abbrev pub Builtin : Text → Type 0
  Builtin f = proc_index f ≡ none

  pub call_one-Fit : (f : Text) (e : Expr) → Builtin f → Fit p e → Fit p (call_one f e)
  unfolding Fit arity_of
  call_one-Fit f e b h = (builtins f 1 b, (h, tt))

  pub any_load-Builtin : Yields Builtin any_load
  unfolding any_load proc_index
  any_load-Builtin = Yields-one_from Builtin _ _ (refl, (refl, (refl, tt)))

  pub any_unary_builtin-Builtin : Yields Builtin any_unary_builtin
  unfolding any_unary_builtin proc_index
  any_unary_builtin-Builtin = Yields-one_from Builtin _ _ (refl, (refl, tt))

  shape-Fit :
      (part : G Expr) (shape : ℕ)
      → Yields (Fit p) part
      → Yields (Fit p) (get_or (shapes part) shape (loaded part))
  unfolding shapes loaded Fit
  shape-Fit part shape h =
      let then_part : (k : Expr → G Expr)
          → ((e : Expr) → Fit p e → Yields (Fit p) (k e))
          → Yields (Fit p) (part >>= k) =
        λ k l. Fit-bind p part k (Fit p) h l in
      All-get_or (Yields (Fit p)) (shapes part) shape (loaded part)
        (Yields-bind Builtin (Fit p) _ _ any_load-Builtin
          (λ f b. then_part _ (λ e k. Fit-pure p _ (call_one-Fit f e b k))))
        (
          Yields-bind Whole (Fit p) _ _ any_operator-Whole (λ op w.
              then_part _ (λ l k. then_part _ (λ r m. Fit-pure p _ (binary-Fit p op l r w k m)))),
          (
            Yields-then (Fit p) _ _ (λ op. then_part _ (λ e k. Fit-pure p (unary op e) k)),
            (
              Yields-then (Fit p) _ _ (λ t. then_part _ (λ e k. Fit-pure p (cast t e) k)),
              (
                then_part _ (λ c k.
                    then_part _
                      (λ a l. then_part _ (λ b m. Fit-pure p (conditional c a b) (k, l, m)))),
                (
                  Yields-bind Builtin (Fit p) _ _ any_unary_builtin-Builtin
                      (λ f b. then_part _ (λ e k. Fit-pure p _ (call_one-Fit f e b k))),
                  tt,
                ),
              ),
            ),
          ),
        )

  pub build-Fit :
      (vars : List Var) (depth : ℕ) → All (Visible p) vars → Yields (Fit p) (build vars depth)
  unfolding build
  build-Fit vars zero h = leaf-Fit p vars h
  build-Fit vars (suc depth) h = Yields-then (Fit p) _ _ (λ b.
      Yields-if (Fit p) b _ _ (leaf-Fit p vars h) (
        Yields-then (Fit p) _ _
          (λ shape. shape-Fit (build vars depth) shape (build-Fit vars depth h))))

  pub build_args-Fit :
      (vars : List Var) (n : ℕ)
      → All (Visible p) vars
      → Yields (λ es. FitAll p es × (arity_of es ≡ n)) (build_args vars n)
  unfolding build_args Fit arity_of
  build_args-Fit vars zero h = Yields-pure _ nil (tt, refl)
  build_args-Fit vars (suc n) h = Fit-bind p (build vars 1) _ _ (build-Fit vars 1 h) (λ e k.
      Yields-bind (λ es. FitAll p es × (arity_of es ≡ n)) _ _ _ (build_args-Fit vars n h)
        (λ es l. Yields-pure _ (cons e es) ((k, l.0), ap suc l.1)))
