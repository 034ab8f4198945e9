-- ===== src/Mutate/Visited.antt =====
-- mutate.ts: lemmas on the expressions that `eachExpression` of walk.ts visits.
use mog_jit.Prelude.{
  ℕ, zero, suc, List, [], ◌∷◌, ◌++◌, All, All-append, Option, none, some, inl, inr,
}
use mog_jit.Ast.{
  Expr, literal, ident, cast, assignment, conditional, logical, binary, unary, update, call, Exprs,
  nil, cons, Declarator, ForInit, no_init, declares, computes, Stmt, block, break_stmt, expression,
  return_stmt, declaration, if_then, if_else, while_stmt, do_while, for_stmt, switch, Stmts, stop,
  next, Cases, no_case, clause,
}
use mog_jit.Core.{Traversal, IsTraversal, direct, as_list, levels}
use mog_jit.Walk.{
  each_statement, nested, within, in_cases, if_any, inits, init_expressions, case_tests,
  child_expressions,
}
use mog_jit.Walk.Subs.{flat, each_sub_expression, of_statement, each_expression}
use mog_jit.Mutate.Fit.{Policy, Fit, FitAll}
use mog_jit.Mutate.Scope.{
  Env, Calls, with_name, after, after_init, IsCloser, fitting, OptFit, DeclsFit, InitFit, ReturnFit,
  StmtFit, StmtsFit, CasesFit, ClauseFit,
}
use mog_jit.Mutate.Weaken.{Fit-weaken}

pub flat-All :
    {A B : Type 0} (P : A → Type 0) (Q : B → Type 0) (f : A → List B) (xs : List A)
    → ((x : A) → P x → All Q (f x))
    → All P xs
    → All Q (flat f xs)
unfolding flat
flat-All P Q f [] k h = tt
flat-All P Q f (x ∷ xs) k h = All-append Q (f x) (flat f xs) (k x h.0) (flat-All P Q f xs k h.1)

module _ (p : Policy) where
  as_list-Fit : (es : Exprs) → FitAll p es → All (Fit p) (as_list es)
  unfolding as_list Fit
  as_list-Fit nil h = tt
  as_list-Fit (cons e es) h = (h.0, as_list-Fit es h.1)

  direct-Fit : (e : Expr) → Fit p e → All (Fit p) (direct e)
  unfolding direct Fit
  direct-Fit (literal v) h = tt
  direct-Fit (ident x) h = tt
  direct-Fit (cast t e) h = (h, tt)
  direct-Fit (assignment op x e) h = (h.2, tt)
  direct-Fit (conditional c a b) h = (h.0, (h.1, (h.2, tt)))
  direct-Fit (logical op l r) h = (h.0, (h.1, tt))
  direct-Fit (binary op l r) h = (h.1, (h.2, tt))
  direct-Fit (unary op e) h = (h, tt)
  direct-Fit (update op pre e) h = (h.1, tt)
  direct-Fit (call f args) h = as_list-Fit args h.1

  module _ {S : Type 0} (core : Traversal S) (law : IsTraversal core) where
    pub each_sub_expression-Fit :
        (fuel : ℕ) (e : Expr) → Fit p e → All (Fit p) (each_sub_expression core fuel e)
    unfolding each_sub_expression
    each_sub_expression-Fit zero e h = tt
    each_sub_expression-Fit (suc fuel) e h = (
      h,
      rw (law.children-direct e) (
          flat-All (Fit p) (Fit p) (each_sub_expression core fuel) (direct e)
            (each_sub_expression-Fit fuel) (direct-Fit e h)),
    )

module _ (calls : Calls) (bare : Type 0) where
  abbrev pub unscoped : Policy
  unscoped = fitting calls (λ x. Unit)

  abbrev Free : List Expr → Type 0
  Free = All (Fit unscoped)

  free : (E : Env) (e : Expr) → Fit (fitting calls E) e → Fit unscoped e
  free E e h = Fit-weaken calls E (λ x. Unit) e (λ x l. tt) h

  if_any-Fit : (E : Env) (e : Option Expr) → OptFit calls E e → Free (if_any e)
  if_any-Fit E none h = tt
  if_any-Fit E (some e) h = (free E e h, tt)

  inits-Fit : (E : Env) (ds : List Declarator) → DeclsFit calls E ds → Free (inits ds)
  unfolding inits DeclsFit
  inits-Fit E [] h = tt
  inits-Fit E (d ∷ ds) h =
      All-append (Fit unscoped) (if_any d.init) (inits ds) (if_any-Fit E d.init h.0)
        (inits-Fit (with_name E d.name) ds h.1)

  init_expressions-Fit : (E : Env) (i : ForInit) → InitFit calls E i → Free (init_expressions i)
  unfolding init_expressions InitFit
  init_expressions-Fit E no_init h = tt
  init_expressions-Fit E (declares ds) h = inits-Fit E ds h
  init_expressions-Fit E (computes e) h = (free E e h, tt)

  return-Free : (E : Env) (e : Option Expr) → ReturnFit calls bare E e → Free (if_any e)
  return-Free E none h = tt
  return-Free E (some e) h = (free E e h, tt)

  case_tests-Fit : (E : Env) (cs : Cases) → CasesFit calls bare E cs → Free (case_tests cs)
  unfolding case_tests StmtFit
  case_tests-Fit E no_case h = tt
  case_tests-Fit E (clause t b cs) h =
      All-append (Fit unscoped) (if_any t) (case_tests cs) (if_any-Fit E t h.0)
        (case_tests-Fit E cs h.2)

  abbrev Holds : Stmt → Type 0
  Holds s = Free (child_expressions s)

  child_expressions-Fit : (E : Env) (s : Stmt) → StmtFit calls bare E s → Holds s
  unfolding child_expressions StmtFit
  child_expressions-Fit E (block b) h = tt
  child_expressions-Fit E break_stmt h = tt
  child_expressions-Fit E (expression e) h = (free E e h, tt)
  child_expressions-Fit E (return_stmt e) h = return-Free E e h
  child_expressions-Fit E (declaration ds) h = inits-Fit E ds h
  child_expressions-Fit E (if_then c a) h = (free E c h.0, tt)
  child_expressions-Fit E (if_else c a b) h = (free E c h.0, tt)
  child_expressions-Fit E (while_stmt c b) h = (free E c h.0, tt)
  child_expressions-Fit E (do_while b c) h = (free E c h.0, tt)
  child_expressions-Fit E (for_stmt i c u b) h =
      All-append (Fit unscoped) (init_expressions i ++ if_any c) (if_any u)
        (All-append (Fit unscoped) (init_expressions i) (if_any c) (init_expressions-Fit E i h.0)
          (if_any-Fit (after_init E i) c h.1))
        (if_any-Fit (after_init E i) u h.2)
  child_expressions-Fit E (switch e cs) h = (free E e h.0, case_tests-Fit E cs h.1)

  -- A statement with what is nested in it.
  held :
      (E : Env) (s : Stmt) (below : List Stmt)
      → StmtFit calls bare E s
      → All Holds below
      → All Holds (s ∷ below)
  held E s below h k = (child_expressions-Fit E s h, k)

  closer-Holds : (s : Stmt) (ss : Stmts) → IsCloser ss s → All Holds (each_statement (next s ss))
  unfolding each_statement child_expressions
  closer-Holds s (next t ts) h = cc
  closer-Holds break_stmt stop h = (tt, tt)
  closer-Holds (block b) stop h = cc
  closer-Holds (expression e) stop h = cc
  closer-Holds (return_stmt e) stop h = cc
  closer-Holds (declaration ds) stop h = cc
  closer-Holds (if_then c a) stop h = cc
  closer-Holds (if_else c a b) stop h = cc
  closer-Holds (while_stmt c b) stop h = cc
  closer-Holds (do_while b c) stop h = cc
  closer-Holds (for_stmt i c u b) stop h = cc
  closer-Holds (switch e cs) stop h = cc

  mutual
    unfolding each_statement StmtFit

    pub each_statement-Holds :
        (E : Env) (ss : Stmts) → StmtsFit calls bare E ss → All Holds (each_statement ss)
    each_statement-Holds E stop h = tt
    each_statement-Holds E (next s ss) h = held E s _ h.0 (
        All-append Holds (nested s) (each_statement ss) (nested-Holds E s h.0)
          (each_statement-Holds (after E s) ss h.1))

    nested-Holds : (E : Env) (s : Stmt) → StmtFit calls bare E s → All Holds (nested s)
    nested-Holds E (block b) h = each_statement-Holds E b h
    nested-Holds E break_stmt h = tt
    nested-Holds E (expression e) h = tt
    nested-Holds E (return_stmt e) h = tt
    nested-Holds E (declaration ds) h = tt
    nested-Holds E (if_then c a) h = within-Holds E a h.1
    nested-Holds E (if_else c a b) h =
        All-append Holds (within a) (within b) (within-Holds E a h.1) (within-Holds E b h.2)
    nested-Holds E (while_stmt c b) h = within-Holds E b h.1
    nested-Holds E (do_while b c) h = within-Holds E b h.1
    nested-Holds E (for_stmt i c u b) h = within-Holds (after_init E i) b h.3
    nested-Holds E (switch e cs) h = in_cases-Holds E cs h.1

    within-Holds : (E : Env) (s : Stmt) → StmtFit calls bare E s → All Holds (within s)
    within-Holds E (block b) h = each_statement-Holds E b h
    within-Holds E break_stmt h = cc
    within-Holds E (expression e) h = held E (expression e) [] h tt
    within-Holds E (return_stmt e) h = held E (return_stmt e) [] h tt
    within-Holds E (declaration ds) h = held E (declaration ds) [] h tt
    within-Holds E (if_then c a) h = held E (if_then c a) _ h (within-Holds E a h.1)
    within-Holds E (if_else c a b) h =
        held E (if_else c a b) _ h
          (All-append Holds (within a) (within b) (within-Holds E a h.1) (within-Holds E b h.2))
    within-Holds E (while_stmt c b) h = held E (while_stmt c b) _ h (within-Holds E b h.1)
    within-Holds E (do_while b c) h = held E (do_while b c) _ h (within-Holds E b h.1)
    within-Holds E (for_stmt i c u b) h =
        held E (for_stmt i c u b) _ h (within-Holds (after_init E i) b h.3)
    within-Holds E (switch e cs) h = held E (switch e cs) _ h (in_cases-Holds E cs h.1)

    in_cases-Holds : (E : Env) (cs : Cases) → CasesFit calls bare E cs → All Holds (in_cases cs)
    in_cases-Holds E no_case h = tt
    in_cases-Holds E (clause t b cs) h =
        All-append Holds (each_statement b) (in_cases cs) (clause-Holds E b h.1)
          (in_cases-Holds E cs h.2)

    clause-Holds :
        (E : Env) (ss : Stmts) → ClauseFit calls bare E ss → All Holds (each_statement ss)
    clause-Holds E stop h = tt
    clause-Holds E (next s ss) (inl h) = closer-Holds s ss h
    clause-Holds E (next s ss) (inr h) = held E s _ h.0 (
        All-append Holds (nested s) (each_statement ss) (nested-Holds E s h.0)
          (clause-Holds (after E s) ss h.1))

  pub each_expression-Fit :
      {S : Type 0} (core : Traversal S) (law : IsTraversal core) (E : Env) (ss : Stmts)
      → StmtsFit calls bare E ss
      → Free (each_expression core ss)
  unfolding each_expression
  each_expression-Fit core law E ss h =
      flat-All Holds (Fit unscoped) (of_statement core) (each_statement ss)
        (λ s k.
          flat-All (Fit unscoped) (Fit unscoped) _ (child_expressions s)
            (λ e l. each_sub_expression-Fit unscoped core law (levels e) e l) k)
        (each_statement-Holds E ss h)
