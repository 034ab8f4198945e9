-- ===== src/Mutate/Exprs.antt =====
-- mutate.ts: how expressions are built, rebound and mutated.
mod Alphabet
unfoldable pub use Alphabet.*
use mog_jit.Prelude.{
  ℕ, zero, suc, ◌+◌, ◌-◌, ◌*◌, ◌^◌, Bool, true, false, ◌&&◌, ◌||◌, not, List, [], ◌∷◌, ◌++◌, map,
  Option, none, some, get_or, ltb, leb, ◌==◌, max, if◌then◌else◌,
}
use mog_jit.Prelude.Text.{Text, codes, text_eq}
use mog_jit.Prelude.Word.{to_u32}
use mog_jit.Ast.{
  PrimType, u16, u8, i16, i8, BinaryOp, add, sub, mul, bor, bxor, band, shl, shr, eq, ne, lt, le,
  gt, ge, and_also, or_else, UnaryOp, minus, complement, bang, increment, decrement, plain, Expr,
  literal, ident, cast, assignment, conditional, logical, binary, unary, update, call, Exprs, nil,
  cons,
}
use mog_jit.Core.{Traversal, levels, ◌>>=◌, ◌>>◌, pure}
use mog_jit.Eval.Ops.{one_of, proc_index}
use mog_jit.Mutate.Machine.{Var, Gen, G, rolls, below, within, perhaps, one_from, count_applied}

-- A variable, or a boundary value where there is none.
unfoldable pub variable_or : Option Var → G Expr
unfolding any_boundary
variable_or none = any_boundary
variable_or (some v) = pure (ident v.name)

unfoldable pub leaf : List Var → G Expr
unfolding variable_or
leaf vars = do b ← rolls 55 100; v ← (if b then perhaps vars else pure none); variable_or v

-- The shapes of `build`, over the expressions that are built for their parts; the default is a load.
unfoldable pub shapes : G Expr → List (G Expr)
unfolding any_operator any_unary any_narrow any_unary_builtin
shapes part =
    (do op ← any_operator; l ← part; r ← part; pure (binary op l (shift_safe op r)))
    ∷ (do op ← any_unary; e ← part; pure (unary op e))
    ∷ (do t ← any_narrow; e ← part; pure (cast t e))
    ∷ (do c ← part; a ← part; b ← part; pure (conditional c a b))
    ∷ (do f ← any_unary_builtin; e ← part; pure (call_one f e))
    ∷ []

unfoldable pub loaded : G Expr → G Expr
unfolding any_load
loaded part = do f ← any_load; e ← part; pure (call_one f e)

unfoldable pub build : List Var → ℕ → G Expr
unfolding leaf shapes loaded
build vars zero = leaf vars
build vars (suc depth) = do
  b ← rolls 4 10
  if b then leaf vars else (do
    shape ← below 6
    get_or (shapes (build vars depth)) shape (loaded (build vars depth)))

-- `depth` fresh operands for a call.
unfoldable pub build_args : List Var → ℕ → G Exprs
unfolding build
build_args vars zero = pure nil
build_args vars (suc n) = do e ← build vars 1; es ← build_args vars n; pure (cons e es)

unfoldable pub arity_of : Exprs → ℕ
arity_of nil = 0
arity_of (cons e es) = suc (arity_of es)

-- `ctx.callable.find(...)`.
unfoldable pub may_call : List Callable → Text → ℕ → Bool
may_call [] f n = false
may_call (c ∷ cs) f n = (text_eq c.name f && (c.arity == n)) || may_call cs f n

abbrev is_some : Option ℕ → Bool
is_some none = false
is_some (some n) = true

-- A call of a procedure that this position cannot reach.
unfoldable pub out_of_reach : List Callable → Text → ℕ → Bool
unfolding may_call
out_of_reach callable f n = is_some (proc_index f) && not (may_call callable f n)

module _ (core : Traversal Gen) (callable : List Callable) (vars : List Var) where
  -- `rebind` of a node, over that of its parts.
  unfoldable pub rebind_node : (Expr → G Expr) → Expr → G Expr
  unfolding variable_or build out_of_reach
  rebind_node again (ident x) = do v ← perhaps vars; variable_or v
  rebind_node again (assignment op x e) = do
    v ← perhaps vars
    elim v [ none ↦ again e | some w ↦ (do e' ← again e; pure (assignment op w.name e')) ]
  rebind_node again (update op pre e) = do
    v ← perhaps vars
    pure (elim v [ none ↦ lit 1 | some w ↦ update op pre (ident w.name) ])
  rebind_node again (call f args) =
      if out_of_reach callable f (arity_of args)
      then build vars 1
      else core.map_over again (call f args)
  rebind_node again e = core.map_over again e

  -- On fuel: the levels of the expression are enough.
  unfoldable pub rebind : ℕ → Expr → G Expr
  unfolding rebind_node
  rebind zero e = pure e
  rebind (suc fuel) e = rebind_node (rebind fuel) e

-- `ctx.rng.pick(options)()`, with the node itself where there are none.
unfoldable pub run_any : Expr → List (G Expr) → G Expr
run_any inner [] = do option ← one_from (pure inner) []; option
run_any inner (x ∷ xs) = do option ← one_from x xs; option

abbrev retyped : Expr → Expr → BinaryOp → Expr
retyped l r op = binary op l (shift_safe op r)

-- `inner.value + between(-2, 2)`, wrapping.
unfoldable pub nearby : ℕ → G Expr
nearby v = do d ← within 0 4; pure (lit (v + (2 ^ 32 - 2) + d))

-- The rewrites that go with the node's own kind.
unfoldable pub own_options : List Var → Expr → List (G Expr)
unfolding class_of any_operator any_unary any_narrow any_boundary nearby leaf
own_options vars (binary op l r) =
    (do o ← one_from (class_of op).0 (class_of op).1; pure (retyped l r o))
    ∷ (do o ← any_operator; pure (retyped l r o))
    ∷ pure (binary op r (shift_safe op l))
    ∷ pure l
    ∷ pure r
    ∷ []
own_options vars (logical and_also l r) =
    pure (logical or_else l r) ∷ pure (logical and_also r l) ∷ []
own_options vars (logical or_else l r) =
    pure (logical and_also l r) ∷ pure (logical or_else r l) ∷ []
own_options vars (literal v) = any_boundary ∷ nearby v ∷ leaf vars ∷ []
own_options vars (ident x) = leaf vars ∷ []
own_options vars (unary op e) = (do o ← any_unary; pure (unary o e)) ∷ []
own_options vars (cast t e) = (do u ← any_narrow; pure (cast u e)) ∷ []
own_options vars e = []

-- The rewrites that any node takes.
unfoldable pub any_options : List Var → Expr → List (G Expr)
unfolding any_operator any_unary any_narrow any_unary_builtin any_load build
any_options vars inner =
    (do op ← any_operator; r ← build vars 1; pure (binary op inner (shift_safe op r)))
    ∷ (do op ← any_unary; pure (unary op inner))
    ∷ (do t ← any_narrow; pure (cast t inner))
    ∷ (do a ← build vars 1; b ← build vars 1; pure (conditional inner a b))
    ∷ (do op ← one_from and_also (or_else ∷ []); r ← build vars 1; pure (logical op inner r))
    ∷ (do f ← any_unary_builtin; pure (call_one f inner))
    ∷ (do f ← any_load; pure (call_one f inner))
    ∷ build vars 2
    ∷ []

unfoldable pub call_options : List Var → Option Callable → List (G Expr)
unfolding build_args
call_options vars none = []
call_options vars (some c) = (do args ← build_args vars c.arity; pure (call c.name args)) ∷ []

unfoldable pub assign_options : Expr → Option Var → List (G Expr)
assign_options inner none = []
assign_options inner (some v) =
    pure (assignment plain v.name inner)
    ∷ (do
      op ← one_from increment (decrement ∷ [])
      pre ← rolls 1 2
      pure (update op pre (ident v.name)))
    ∷ []

-- What a context holds that no step changes, with the site's probability as a fraction, and what
-- `fresh` puts before its counter.
pub record Ctx : Type 0 where
  pub prefix : Text
  pub core : Traversal Gen
  pub callable : List Callable
  pub donors : List Expr
  pub rate_num : ℕ
  pub rate_den : ℕ

-- `ctx.rng.chance(ctx.rate * k)`, for a `k` in hundredths.
abbrev pub rate_times : Ctx → ℕ → G Bool
rate_times ctx k = rolls (ctx.rate_num * k) (ctx.rate_den * 100)

unfoldable pub largest : List ℕ → ℕ
largest [] = 0
largest (n ∷ ns) = max n (largest ns)

-- walk.ts, `heightOf`, on fuel: the levels of the expression are enough.
unfoldable pub height_of : Traversal Gen → ℕ → Expr → ℕ
unfolding largest
height_of core zero e = 0
height_of core (suc fuel) e = suc (largest (map (height_of core fuel) (core.children e)))

abbrev pub height : Traversal Gen → Expr → ℕ
height core e = height_of core (levels e) e

abbrev pub is_opaque : Expr → Bool
is_opaque (call f args) = one_of f opaque_calls
is_opaque e = false

abbrev pub remasked : Expr → Expr
remasked (binary op l r) = binary op l (shift_safe op r)
remasked e = e

module _ (ctx : Ctx) (vars : List Var) where
  unfoldable pub graft_options : ℕ → Option Expr → List (G Expr)
  unfolding rebind height_of
  graft_options depth none = []
  graft_options depth (some donor) =
      if ltb (depth + height ctx.core donor) max_expr_height
      then rebind ctx.core ctx.callable vars (levels donor) donor ∷ []
      else []

  -- The options at a node that may grow. The three draws come before the pick.
  unfoldable pub grown : ℕ → Expr → G Expr
  unfolding run_any own_options any_options call_options assign_options graft_options
  grown depth inner = do
    callee ← perhaps ctx.callable
    donor ← perhaps ctx.donors
    target ← perhaps vars
    run_any inner (
        own_options vars inner
        ++ (any_options vars inner
            ++ (call_options vars callee
                ++ (graft_options depth donor ++ assign_options inner target))))

  -- A node whose parts have been mutated, at a depth.
  unfoldable pub mutate_node : ℕ → Expr → G Expr
  unfolding grown
  mutate_node depth inner = do
    b ← rate_times ctx 100
    if b
        then count_applied
          >> (if ltb (depth + height ctx.core inner) max_expr_height
              then grown depth inner
              else run_any inner (own_options vars inner))
        else pure inner

  -- `recursed`: an update's operand is not descended into.
  abbrev pub recursed : (Expr → G Expr) → Expr → G Expr
  recursed again (update op pre e) = pure (update op pre e)
  recursed again e = ctx.core.map_over again e

  -- On fuel: the levels of the expression are enough. The source passes no depth on to its recursive
  -- calls, so that theirs is the default, 0.
  unfoldable pub mutate_at : ℕ → ℕ → Expr → G Expr
  unfolding mutate_node
  mutate_at zero depth e = pure e
  mutate_at (suc fuel) depth e =
      let inner = recursed (mutate_at fuel 0) e in
      if is_opaque e then pure e else (do r ← inner; mutate_node depth (remasked r))

  abbrev pub mutate_expr : Expr → G Expr
  mutate_expr e = mutate_at (levels e) 0 e
