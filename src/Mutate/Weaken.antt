-- ===== src/Mutate/Weaken.antt =====
-- mutate.ts: lemmas on the names and calls that a statement is checked against.
use mog_jit.Prelude.{ℕ, ◌≡◌, refl, List, [], ◌∷◌, Option, none, some, inl, inr}
use mog_jit.Prelude.Text.{Text}
use mog_jit.Ast.{
  Expr, literal, ident, cast, assignment, conditional, logical, binary, unary, update, call, Exprs,
  nil, cons, Declarator, ForInit, no_init, declares, computes, Stmt, block, break_stmt, expression,
  return_stmt, declaration, if_then, if_else, while_stmt, do_while, for_stmt, switch, Stmts, stop,
  next, Cases, no_case, clause,
}
use mog_jit.Mutate.Machine.{Var}
use mog_jit.Mutate.Exprs.{arity_of}
use mog_jit.Mutate.Fit.{Fit, FitAll}
use mog_jit.Mutate.Stmts.{◌then_all◌}
use mog_jit.Mutate.Scope.{
  Env, Calls, Within, with_name, Seen, after_decls, introduced, after, after_init, after_all,
  fitting, OptFit, DeclsFit, InitFit, ReturnFit, StmtFit, StmtsFit, CasesFit, ClauseFit,
}

pub Seen-weaken : (E F : Env) (vars : List Var) → Within E F → Seen E vars → Seen F vars
Seen-weaken E F [] w h = tt
Seen-weaken E F (v ∷ vs) w h = (w v.name h.0, Seen-weaken E F vs w h.1)

pub with_name-Within : (E F : Env) (y : Text) → Within E F → Within (with_name E y) (with_name F y)
with_name-Within E F y w x (inl h) = inl (w x h)
with_name-Within E F y w x (inr h) = inr h

pub after_decls-Within :
    (E F : Env) (ds : List Declarator) → Within E F → Within (after_decls E ds) (after_decls F ds)
unfolding after_decls
after_decls-Within E F [] w = w
after_decls-Within E F (d ∷ ds) w =
    after_decls-Within (with_name E d.name) (with_name F d.name) ds (with_name-Within E F d.name w)

pub after_decls-grows : (E : Env) (ds : List Declarator) → Within E (after_decls E ds)
unfolding after_decls
after_decls-grows E [] x h = h
after_decls-grows E (d ∷ ds) x h = after_decls-grows (with_name E d.name) ds x (inl h)

pub after-Within : (E F : Env) (s : Stmt) → Within E F → Within (after E s) (after F s)
unfolding after
after-Within E F s w = after_decls-Within E F (introduced s) w

pub after-grows : (E : Env) (s : Stmt) → Within E (after E s)
unfolding after
after-grows E s = after_decls-grows E (introduced s)

pub after_all-grows : (E : Env) (ss : Stmts) → Within E (after_all E ss)
unfolding after_all
after_all-grows E stop x h = h
after_all-grows E (next s ss) x h = after_all-grows (after E s) ss x (after-grows E s x h)

pub after_init-Within :
    (E F : Env) (i : ForInit) → Within E F → Within (after_init E i) (after_init F i)
unfolding after_init
after_init-Within E F no_init w = w
after_init-Within E F (declares ds) w = after_decls-Within E F ds w
after_init-Within E F (computes e) w = w

pub after_init-grows : (E : Env) (i : ForInit) → Within E (after_init E i)
unfolding after_init
after_init-grows E no_init x h = h
after_init-grows E (declares ds) x h = after_decls-grows E ds x h
after_init-grows E (computes e) x h = h

abbrev pub MayCallMore : Calls → Calls → Type 0
MayCallMore calls more = (f : Text) (n : ℕ) → calls f n → more f n

module _ (calls more : Calls) (up : MayCallMore calls more) where
  mutual
    unfolding Fit

    pub Fit-carry :
        (E F : Env) (e : Expr) → Within E F → Fit (fitting calls E) e → Fit (fitting more F) e
    Fit-carry E F (literal v) w h = tt
    Fit-carry E F (ident x) w h = w x h
    Fit-carry E F (cast t e) w h = Fit-carry E F e w h
    Fit-carry E F (assignment op x e) w h = (h.0, w x h.1, Fit-carry E F e w h.2)
    Fit-carry E F (conditional c a b) w h =
        (Fit-carry E F c w h.0, Fit-carry E F a w h.1, Fit-carry E F b w h.2)
    Fit-carry E F (logical op l r) w h = (Fit-carry E F l w h.0, Fit-carry E F r w h.1)
    Fit-carry E F (binary op l r) w h = (h.0, Fit-carry E F l w h.1, Fit-carry E F r w h.2)
    Fit-carry E F (unary op e) w h = Fit-carry E F e w h
    Fit-carry E F (update op pre e) w h = (h.0, Fit-carry E F e w h.1)
    Fit-carry E F (call f args) w h = (up f (arity_of args) h.0, FitAll-carry E F args w h.1)

    FitAll-carry :
        (E F : Env) (es : Exprs)
        → Within E F
        → FitAll (fitting calls E) es
        → FitAll (fitting more F) es
    FitAll-carry E F nil w h = tt
    FitAll-carry E F (cons e es) w h = (Fit-carry E F e w h.0, FitAll-carry E F es w h.1)

  pub OptFit-carry : (E F : Env) (e : Option Expr) → Within E F → OptFit calls E e → OptFit more F e
  OptFit-carry E F none w h = tt
  OptFit-carry E F (some e) w h = Fit-carry E F e w h

  pub DeclsFit-carry :
      (E F : Env) (ds : List Declarator) → Within E F → DeclsFit calls E ds → DeclsFit more F ds
  unfolding DeclsFit
  DeclsFit-carry E F [] w h = tt
  DeclsFit-carry E F (d ∷ ds) w h = (
    OptFit-carry E F d.init w h.0,
    DeclsFit-carry (with_name E d.name) (with_name F d.name) ds (with_name-Within E F d.name w) h.1,
  )

  pub InitFit-carry : (E F : Env) (i : ForInit) → Within E F → InitFit calls E i → InitFit more F i
  unfolding InitFit
  InitFit-carry E F no_init w h = tt
  InitFit-carry E F (declares ds) w h = DeclsFit-carry E F ds w h
  InitFit-carry E F (computes e) w h = Fit-carry E F e w h

module _ (calls more : Calls) (up : MayCallMore calls more) (bare : Type 0) where
  ReturnFit-carry :
      (E F : Env) (e : Option Expr)
      → Within E F
      → ReturnFit calls bare E e
      → ReturnFit more bare F e
  ReturnFit-carry E F none w h = h
  ReturnFit-carry E F (some e) w h = Fit-carry calls more up E F e w h

  mutual
    unfolding StmtFit

    pub StmtFit-carry :
        (E F : Env) (s : Stmt) → Within E F → StmtFit calls bare E s → StmtFit more bare F s
    StmtFit-carry E F (block b) w h = StmtsFit-carry E F b w h
    StmtFit-carry E F break_stmt w h = h
    StmtFit-carry E F (expression e) w h = Fit-carry calls more up E F e w h
    StmtFit-carry E F (return_stmt e) w h = ReturnFit-carry E F e w h
    StmtFit-carry E F (declaration ds) w h = DeclsFit-carry calls more up E F ds w h
    StmtFit-carry E F (if_then c a) w h =
        (Fit-carry calls more up E F c w h.0, StmtFit-carry E F a w h.1)
    StmtFit-carry E F (if_else c a b) w h =
        (Fit-carry calls more up E F c w h.0, StmtFit-carry E F a w h.1, StmtFit-carry E F b w h.2)
    StmtFit-carry E F (while_stmt c b) w h =
        (Fit-carry calls more up E F c w h.0, StmtFit-carry E F b w h.1)
    StmtFit-carry E F (do_while b c) w h =
        (Fit-carry calls more up E F c w h.0, StmtFit-carry E F b w h.1)
    StmtFit-carry E F (for_stmt i c u b) w h =
        let inner = after_init-Within E F i w in
        (
          InitFit-carry calls more up E F i w h.0,
          OptFit-carry calls more up (after_init E i) (after_init F i) c inner h.1,
          OptFit-carry calls more up (after_init E i) (after_init F i) u inner h.2,
          StmtFit-carry (after_init E i) (after_init F i) b inner h.3,
        )
    StmtFit-carry E F (switch e cs) w h =
        (Fit-carry calls more up E F e w h.0, CasesFit-carry E F cs w h.1)

    pub StmtsFit-carry :
        (E F : Env) (ss : Stmts) → Within E F → StmtsFit calls bare E ss → StmtsFit more bare F ss
    StmtsFit-carry E F stop w h = tt
    StmtsFit-carry E F (next s ss) w h = (
      StmtFit-carry E F s w h.0,
      StmtsFit-carry (after E s) (after F s) ss (after-Within E F s w) h.1,
    )

    CasesFit-carry :
        (E F : Env) (cs : Cases) → Within E F → CasesFit calls bare E cs → CasesFit more bare F cs
    CasesFit-carry E F no_case w h = tt
    CasesFit-carry E F (clause t b cs) w h = (
      OptFit-carry calls more up E F t w h.0,
      ClauseFit-carry E F b w h.1,
      CasesFit-carry E F cs w h.2,
    )

    ClauseFit-carry :
        (E F : Env) (ss : Stmts) → Within E F → ClauseFit calls bare E ss → ClauseFit more bare F ss
    ClauseFit-carry E F stop w h = tt
    ClauseFit-carry E F (next s ss) w (inl h) = inl h
    ClauseFit-carry E F (next s ss) w (inr h) = inr (
      StmtFit-carry E F s w h.0,
      ClauseFit-carry (after E s) (after F s) ss (after-Within E F s w) h.1,
    )

-- With the same calls.
module _ (calls : Calls) where
  pub Fit-weaken :
      (E F : Env) (e : Expr) → Within E F → Fit (fitting calls E) e → Fit (fitting calls F) e
  Fit-weaken = Fit-carry calls calls (λ f n h. h)

  pub OptFit-weaken :
      (E F : Env) (e : Option Expr) → Within E F → OptFit calls E e → OptFit calls F e
  OptFit-weaken = OptFit-carry calls calls (λ f n h. h)

  pub InitFit-weaken :
      (E F : Env) (e : ForInit) → Within E F → InitFit calls E e → InitFit calls F e
  InitFit-weaken = InitFit-carry calls calls (λ f n h. h)

module _ (calls : Calls) (bare : Type 0) where
  pub StmtFit-weaken :
      (E F : Env) (s : Stmt) → Within E F → StmtFit calls bare E s → StmtFit calls bare F s
  StmtFit-weaken = StmtFit-carry calls calls (λ f n h. h) bare

  pub StmtsFit-weaken :
      (E F : Env) (ss : Stmts) → Within E F → StmtsFit calls bare E ss → StmtsFit calls bare F ss
  StmtsFit-weaken = StmtsFit-carry calls calls (λ f n h. h) bare

  pub StmtsFit-then_all :
      (E : Env) (ss ts : Stmts)
      → StmtsFit calls bare E ss
      → StmtsFit calls bare (after_all E ss) ts
      → StmtsFit calls bare E (ss then_all ts)
  unfolding StmtFit ◌then_all◌ after_all
  StmtsFit-then_all E stop ts h k = k
  StmtsFit-then_all E (next s ss) ts h k = (h.0, StmtsFit-then_all (after E s) ss ts h.1 k)

pub after_all-then_all :
    (E : Env) (ss ts : Stmts) → after_all E (ss then_all ts) ≡ after_all (after_all E ss) ts
unfolding after_all ◌then_all◌
after_all-then_all E stop ts = refl
after_all-then_all E (next s ss) ts = after_all-then_all (after E s) ss ts
