-- ===== src/Mutate/Scope.antt =====
-- mutate.ts: what the walk asks of a statement. Every name is declared before it is used and where
-- it is visible, a `break` stands last in a case, and a `return` has a value where `bare` is empty.
use mog_jit.Prelude.{ℕ, ◌≡◌, true, false, List, [], ◌∷◌, All, Option, none, some, ◌⊎◌}
use mog_jit.Prelude.Text.{Text}
use mog_jit.Ast.{
  Expr, Declarator, ForInit, no_init, declares, computes, Stmt, block, break_stmt, expression,
  return_stmt, declaration, if_then, if_else, while_stmt, do_while, for_stmt, switch, Stmts, stop,
  next, Cases, no_case, clause,
}
use mog_jit.Mutate.Machine.{Var}
use mog_jit.Mutate.Fit.{Policy, Fit}

-- The names that are visible.
abbrev pub Env : Type 1
Env = Text → Type 0

abbrev pub Calls : Type 1
Calls = Text → ℕ → Type 0

abbrev pub Within : Env → Env → Type 0
Within E F = (x : Text) → E x → F x

abbrev pub with_name : Env → Text → Env
with_name E y x = E x ⊎ (x ≡ y)

abbrev pub Seen : Env → List Var → Type 0
Seen E vars = All (λ (v : Var). E v.name) vars

unfoldable pub after_decls : Env → List Declarator → Env
after_decls E [] = E
after_decls E (d ∷ ds) = after_decls (with_name E d.name) ds

unfoldable pub introduced : Stmt → List Declarator
introduced (declaration ds) = ds
introduced s = []

unfoldable pub after : Env → Stmt → Env
unfolding introduced after_decls
after E s = after_decls E (introduced s)

unfoldable pub after_init : Env → ForInit → Env
unfolding after_decls
after_init E (declares ds) = after_decls E ds
after_init E i = E

unfoldable pub after_all : Env → Stmts → Env
unfolding after
after_all E stop = E
after_all E (next s ss) = after_all (after E s) ss

abbrev pub IsCloser : Stmts → Stmt → Type 0
IsCloser (next t ts) s = false ≡ true
IsCloser stop break_stmt = Unit
IsCloser stop s = false ≡ true

abbrev pub fitting : Calls → Env → Policy
fitting calls E = record { names = E; calls = calls }

module _ (calls : Calls) where
  abbrev pub OptFit : Env → Option Expr → Type 0
  OptFit E none = Unit
  OptFit E (some e) = Fit (fitting calls E) e

  unfoldable pub DeclsFit : Env → List Declarator → Type 0
  unfolding Fit
  DeclsFit E [] = Unit
  DeclsFit E (d ∷ ds) = OptFit E d.init × DeclsFit (with_name E d.name) ds

  unfoldable pub InitFit : Env → ForInit → Type 0
  unfolding Fit DeclsFit
  InitFit E no_init = Unit
  InitFit E (declares ds) = DeclsFit E ds
  InitFit E (computes e) = Fit (fitting calls E) e

module _ (calls : Calls) (bare : Type 0) where
  abbrev pub ReturnFit : Env → Option Expr → Type 0
  ReturnFit E none = bare
  ReturnFit E (some e) = Fit (fitting calls E) e

  unfoldable mutual
    pub StmtFit : Env → Stmt → Type 0
    StmtFit E (block b) = StmtsFit E b
    StmtFit E break_stmt = false ≡ true
    StmtFit E (expression e) = Fit (fitting calls E) e
    StmtFit E (return_stmt e) = ReturnFit E e
    StmtFit E (declaration ds) = DeclsFit calls E ds
    StmtFit E (if_then c a) = Fit (fitting calls E) c × StmtFit E a
    StmtFit E (if_else c a b) = Fit (fitting calls E) c × StmtFit E a × StmtFit E b
    StmtFit E (while_stmt c b) = Fit (fitting calls E) c × StmtFit E b
    StmtFit E (do_while b c) = Fit (fitting calls E) c × StmtFit E b
    StmtFit E (for_stmt i c u b) =
        InitFit calls E i
        × OptFit calls (after_init E i) c
        × OptFit calls (after_init E i) u
        × StmtFit (after_init E i) b
    StmtFit E (switch e cs) = Fit (fitting calls E) e × CasesFit E cs

    pub StmtsFit : Env → Stmts → Type 0
    StmtsFit E stop = Unit
    StmtsFit E (next s ss) = StmtFit E s × StmtsFit (after E s) ss

    pub CasesFit : Env → Cases → Type 0
    CasesFit E no_case = Unit
    CasesFit E (clause t b cs) = OptFit calls E t × ClauseFit E b × CasesFit E cs

    -- The list of a case, which may end in a `break`.
    pub ClauseFit : Env → Stmts → Type 0
    ClauseFit E stop = Unit
    ClauseFit E (next s ss) = IsCloser ss s ⊎ (StmtFit E s × ClauseFit (after E s) ss)
