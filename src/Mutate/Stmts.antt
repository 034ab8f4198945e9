-- ===== src/Mutate/Stmts.antt =====
-- mutate.ts: the statements that a mutation adds, and the scope that they stand in.
use mog_jit.Prelude.{ℕ, zero, suc, List, [], ◌∷◌, ◌++◌, Option, none, some, get_or, if◌then◌else◌}
use mog_jit.Prelude.Text.{Text, codes}
use mog_jit.Ast.{
  PrimType, u32, u16, u8, i32, i16, i8, add, band, lt, plain, Expr, ident, assignment, binary, call,
  nil, cons, Declarator, declares, Stmt, block, break_stmt, expression, declaration, if_then,
  if_else, do_while, for_stmt, switch, Stmts, stop, next, Cases, no_case, clause,
}
use mog_jit.Core.{Act, ◌>>=◌, pure}
use mog_jit.Mutate.Machine.{Var, Gen, G, rolls, below, within, perhaps, one_from, fresh}
use mog_jit.Mutate.Exprs.{lit, build, Ctx}

-- A context and the variables of the scope: a statement that declares adds to these.
pub record Site : Type 0 where
  pub gen : Gen
  pub vars : List Var

abbrev pub M : Type 0 → Type 0
M A = Act Site A

unfoldable pub lift : {A : Type 0} → G A → M A
lift m site = ((m site.gen).0, record site { gen = (m site.gen).1 })

-- What reads the scope and leaves it as it was.
unfoldable pub scoped : {A : Type 0} → (List Var → G A) → M A
unfolding lift
scoped f site = lift (f site.vars) site

unfoldable pub push : List Var → M (Unit {0})
push more site = (tt, record site { vars = site.vars ++ more })

-- In a `childScope`, whose variables go when it ends.
unfoldable pub child : {A : Type 0} → M A → M A
child m site = ((m site).0, record (m site).1 { vars = site.vars })

abbrev pub single : Stmt → Stmts
single s = next s stop

infixr 5 ◌then_all◌
unfoldable pub ◌then_all◌ : Stmts → Stmts → Stmts
stop then_all ts = ts
(next s ss) then_all ts = next s (ss then_all ts)

unfoldable pub any_type : G PrimType
any_type = one_from u32 (u16 ∷ u8 ∷ i32 ∷ i16 ∷ i8 ∷ [])

unfoldable pub declared_vars : List Declarator → List Var
declared_vars [] = []
declared_vars (d ∷ ds) = record { name = d.name; var_type = d.var_type } ∷ declared_vars ds

abbrev pub one_declarator : Text → PrimType → Expr → List Declarator
one_declarator x t e = record { name = x; var_type = t; init = some e } ∷ []

unfoldable pub declare : Ctx → M Stmt
unfolding lift scoped push any_type declared_vars
declare ctx = do
  t ← lift any_type
  x ← lift (fresh ctx.prefix)
  e ← scoped (λ vars. build vars 2)
  _ ← push (record { name = x; var_type = t } ∷ [])
  pure (declaration (one_declarator x t e))

unfoldable pub empty_if : List Var → G Stmt
unfolding build
empty_if vars = do
  test ← build vars 2
  two ← rolls 1 2
  pure (if two then if_else test (block stop) (block stop) else if_then test (block stop))

abbrev pub assign_stmt : Text → Expr → Stmt
assign_stmt x e = expression (assignment plain x e)

unfoldable pub any_store : G Text
any_store = one_from (codes "st8") (codes "st16" ∷ codes "st32" ∷ [])

unfoldable pub store_statement : List Var → G Stmt
unfolding any_store build
store_statement vars = do
  f ← any_store
  value ← build vars 1
  address ← build vars 1
  pure (expression (call f (cons value (cons address nil))))

-- An assignment to a variable, where one was drawn.
unfoldable pub assign_or_store : List Var → Option Var → G Stmt
unfolding store_statement build
assign_or_store vars none = store_statement vars
assign_or_store vars (some v) = do
  b ← rolls 6 10
  if b then (do e ← build vars 2; pure (assign_stmt v.name e)) else store_statement vars

unfoldable pub side_effect : List Var → G Stmt
unfolding assign_or_store
side_effect vars = do v ← perhaps vars; assign_or_store vars v

abbrev pub counts : Text → List Declarator
counts x = one_declarator x u32 (lit 0)

abbrev pub counted : Text → ℕ → Expr
counted x bound = binary lt (ident x) (lit bound)

abbrev pub one_more : Text → Expr
one_more x = assignment plain x (binary add (ident x) (lit 1))

unfoldable pub counted_loop : Ctx → Stmts → G Stmt
unfolding fresh
counted_loop ctx body = do
  x ← fresh ctx.prefix
  bound ← within 1 4
  pure (for_stmt (declares (counts x)) (some (counted x bound)) (some (one_more x)) (block body))

unfoldable pub counted_do_while : Ctx → Stmts → G Stmt
unfolding fresh ◌then_all◌
counted_do_while ctx body = do
  x ← fresh ctx.prefix
  bound ← within 1 4
  pure (
      block (
        next (declaration (counts x)) (
          single
            (do_while (block (body then_all single (expression (one_more x)))) (counted x bound)))))

-- The body of the case with label `i`.
unfoldable pub case_body : List Var → Stmts → ℕ → G Stmts
unfolding ◌then_all◌ side_effect
case_body vars body zero = pure (body then_all single break_stmt)
case_body vars body (suc i) = do s ← side_effect vars; pure (next s (single break_stmt))

-- `n` cases from the label `i` on.
unfoldable pub cases_from : List Var → Stmts → ℕ → ℕ → G Cases
unfolding case_body
cases_from vars body zero i = do
  b ← rolls 7 10
  pure (if b then clause none (single break_stmt) no_case else no_case)
cases_from vars body (suc n) i = do
  b ← case_body vars body i
  rest ← cases_from vars body n (suc i)
  pure (clause (some (lit i)) b rest)

unfoldable pub switch_over : List Var → Stmts → G Stmt
unfolding cases_from build
switch_over vars body = do
  count ← within 1 3
  cases ← cases_from vars body count 0
  e ← build vars 1
  pure (switch (binary band e (lit 3)) cases)

abbrev pub if_alone : List Var → Stmt → G Stmt
if_alone vars s = do test ← build vars 2; pure (if_then test (block (single s)))

abbrev pub if_or_effect : List Var → Stmt → G Stmt
if_or_effect vars s = do
  test ← build vars 2
  other ← side_effect vars
  pure (if_else test (block (single s)) (block (single other)))

-- The constructs that `wrap` chooses from; the last one is the default.
unfoldable pub wrappers : Ctx → List Var → Stmt → List (G Stmt)
unfolding build side_effect counted_loop
wrappers ctx vars s =
    if_alone vars s
    ∷ if_or_effect vars s
    ∷ counted_loop ctx (single s)
    ∷ pure (block (single s))
    ∷ []

unfoldable pub wrap : Ctx → List Var → Stmt → G Stmt
unfolding wrappers switch_over
wrap ctx vars s = do
  shape ← below 5
  get_or (wrappers ctx vars s) shape (switch_over vars (single s))
