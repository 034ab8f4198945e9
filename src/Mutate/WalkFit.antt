-- ===== src/Mutate/WalkFit.antt =====
-- mutate.ts, `mutateStatement`: lemmas on declarations.
use mog_jit.Prelude.{
  sym, subst, ℕ, ◌≡◌, refl, true, false, List, [], ◌∷◌, All, Option, none, some, inl, inr,
}
use mog_jit.Prelude.Text.{Text}
use mog_jit.Ast.{
  PrimType, Expr, Declarator, ForInit, no_init, declares, computes, Stmt, block, break_stmt,
  expression, return_stmt, declaration, if_then, if_else, while_stmt, do_while, for_stmt, switch,
  stop,
}
use mog_jit.Core.{IsTraversal, ◌>>=◌, pure}
use mog_jit.Eval.Ops.{proc_index}
use mog_jit.Mutate.Machine.{G}
use mog_jit.Mutate.Exprs.{Ctx, Callable}
use mog_jit.Mutate.Fit.{Fit, lowering}
use mog_jit.Mutate.Stmts.{declared_vars}
use mog_jit.Mutate.Walk.{
  movable, is_break, retype, init_vars, mutated, mutate_declarator, mutate_declarators,
  mutate_declaration,
}
use mog_jit.Mutate.GraftFit.{mutate_expr-Fit}
use mog_jit.Mutate.Scope.{
  Env, Calls, Within, with_name, Seen, after_decls, introduced, after, after_init, IsCloser,
  fitting, OptFit, DeclsFit, StmtFit,
}
use mog_jit.Mutate.Weaken.{Seen-weaken, with_name-Within, after_decls-grows, Fit-weaken}
use mog_jit.Mutate.Makes.{
  Makes, Stays, Makes-pure, Makes-if, Makes-push, Stays-scoped, Makes-bind, Stays-bind, Stays-draw,
}
use mog_jit.Mutate.RoundsFit.{Made}

-- Declarators that introduce the same names in the same order.
unfoldable SameNames : List Declarator → List Declarator → Type 0
SameNames [] [] = Unit
SameNames (d ∷ ds) (e ∷ es) = (d.name ≡ e.name) × SameNames ds es
SameNames _ _ = false ≡ true

after_decls-SameNames :
    (E F : Env) (ds es : List Declarator)
    → Within E F
    → SameNames ds es
    → Within (after_decls E ds) (after_decls F es)
unfolding after_decls SameNames
after_decls-SameNames E F [] [] w h = w
after_decls-SameNames E F [] (e ∷ es) w h = cc
after_decls-SameNames E F (d ∷ ds) [] w h = cc
after_decls-SameNames E F (d ∷ ds) (e ∷ es) w h =
    after_decls-SameNames (with_name E d.name) (with_name F e.name) ds es
      (rw h.0 (with_name-Within E F e.name w)) h.1

retype-SameNames : (t : PrimType) (ds : List Declarator) → SameNames ds (retype t ds)
unfolding retype SameNames
retype-SameNames t [] = tt
retype-SameNames t (d ∷ ds) = (refl, retype-SameNames t ds)

SameNames-refl : (ds : List Declarator) → SameNames ds ds
unfolding SameNames
SameNames-refl [] = tt
SameNames-refl (d ∷ ds) = (refl, SameNames-refl ds)

DeclsFit-retype :
    (calls : Calls) (E : Env) (t : PrimType) (ds : List Declarator)
    → DeclsFit calls E ds
    → DeclsFit calls E (retype t ds)
unfolding DeclsFit retype
DeclsFit-retype calls E t [] h = tt
DeclsFit-retype calls E t (d ∷ ds) h = (h.0, DeclsFit-retype calls (with_name E d.name) t ds h.1)

declared_vars-Seen : (E : Env) (ds : List Declarator) → Seen (after_decls E ds) (declared_vars ds)
unfolding after_decls declared_vars
declared_vars-Seen E [] = tt
declared_vars-Seen E (d ∷ ds) = (
  after_decls-grows (with_name E d.name) ds d.name (inr refl),
  declared_vars-Seen (with_name E d.name) ds,
)

pub init_vars-Seen : (E : Env) (i : ForInit) → Seen (after_init E i) (init_vars i)
unfolding after_init
init_vars-Seen E no_init = tt
init_vars-Seen E (declares ds) = declared_vars-Seen E ds
init_vars-Seen E (computes e) = tt

pub closer-is_break : (s : Stmt) → IsCloser stop s → is_break (some s) ≡ true
closer-is_break break_stmt h = refl
closer-is_break (block b) h = cc
closer-is_break (expression e) h = cc
closer-is_break (return_stmt e) h = cc
closer-is_break (declaration ds) h = cc
closer-is_break (if_then c a) h = cc
closer-is_break (if_else c a b) h = cc
closer-is_break (while_stmt c b) h = cc
closer-is_break (do_while b c) h = cc
closer-is_break (for_stmt i c u b) h = cc
closer-is_break (switch e cs) h = cc

-- `loose` is what a bare `return` of the source needs, and `bare` one of the mutant.
module _ (calls : Calls) (loose bare : Type 0)
    (builtins : (f : Text) (n : ℕ) → proc_index f ≡ none → calls f n) (ctx : Ctx)
    (law : IsTraversal ctx.core) (may : All (λ (c : Callable). calls c.name c.arity) ctx.callable)
    (donated : All (Fit lowering) ctx.donors) where
  -- With the names of `G` to draw from.
  mutated-Fit :
      (F G E : Env) (e : Expr)
      → Within F E
      → Within G E
      → Fit (fitting calls F) e
      → Stays G (Fit (fitting calls E)) (mutated ctx e)
  mutated-Fit F G E e w v h = Stays-scoped G (Fit (fitting calls E)) _ (λ vars s.
      mutate_expr-Fit (fitting calls E) builtins ctx vars law may donated (Seen-weaken G E vars v s)
        e (Fit-weaken calls F E e w h))

  -- An expression of a statement, in the statement's own scope.
  pub here-Fit :
      (F E : Env) (e : Expr)
      → Within F E
      → Fit (fitting calls F) e
      → Stays E (Fit (fitting calls E)) (mutated ctx e)
  here-Fit F E e w h = mutated-Fit F E E e w (λ x l. l) h

  abbrev Renewed : Env → Declarator → Declarator → Type 0
  Renewed E d d' = OptFit calls E d'.init × (d.name ≡ d'.name)

  mutate_declarator-Fit :
      (F G E : Env) (d : Declarator)
      → Within F E
      → Within G E
      → OptFit calls F d.init
      → Stays G (Renewed E d) (mutate_declarator ctx d)
  unfolding mutate_declarator
  mutate_declarator-Fit F G E d w v h = by_init d.init refl h
    where
      by_init :
          (init : Option Expr)
          → d.init ≡ init
          → OptFit calls F init
          → Stays G (Renewed E d) (elim init [
            | none ↦ pure d
            | some e ↦ (do e' ← mutated ctx e; pure (record d { init = some e' }))
          ])
      by_init none q h =
          Makes-pure G (λ d'. G) (Renewed E d) d (subst (OptFit calls E) (sym q) tt, refl)
            (λ x l. l)
      by_init (some e) q h =
          Stays-bind G (Fit (fitting calls E)) (λ d'. G) (Renewed E d) _ _
            (mutated-Fit F G E e w v h)
            (λ e' k. Makes-pure G (λ d'. G) (Renewed E d) _ (k, refl) (λ x l. l))

  mutate_declarators-Fit :
      (F G E : Env) (ds : List Declarator)
      → Within F E
      → Within G E
      → DeclsFit calls F ds
      → Stays G (λ ds'. DeclsFit calls E ds' × SameNames ds ds') (mutate_declarators ctx ds)
  unfolding mutate_declarators DeclsFit SameNames
  mutate_declarators-Fit F G E [] w v h = Makes-pure G _ _ [] (tt, tt) (λ x l. l)
  mutate_declarators-Fit F G E (d ∷ ds) w v h =
      Stays-bind G (Renewed E d) _ _ _ _ (mutate_declarator-Fit F G E d w v h.0) (λ d' k.
        Stays-bind G (λ ds'. DeclsFit calls (with_name E d.name) ds' × SameNames ds ds') _ _ _ _
          (mutate_declarators-Fit (with_name F d.name) G (with_name E d.name) ds
            (with_name-Within F E d.name w) (λ x l. inl (v x l)) h.1)
          (λ ds' l.
            Makes-pure G _ _ (d' ∷ ds')
              ((k.0, subst (λ y. DeclsFit calls (with_name E y) ds') k.1 l.0), (k.1, l.1))
              (λ x m. m)))

  pub mutate_declaration-Fit :
      (F E : Env) (ds : List Declarator)
      → Within F E
      → DeclsFit calls F ds
      → Makes E
          (after E)
          (Made calls bare builtins ctx F E (declaration ds))
          (mutate_declaration ctx ds)
  unfolding mutate_declaration StmtFit after introduced movable
  mutate_declaration-Fit F E ds w h =
      Stays-bind E (λ ds'. DeclsFit calls E ds' × SameNames ds ds') (after E) Goal _ _
        (mutate_declarators-Fit F E E ds w (λ x l. l) h)
        (λ ds' k.
          Makes-bind E (λ u. after_decls E ds') (λ u. Unit {0}) (after E) Goal _ _
            (Makes-push E (after_decls E ds') (declared_vars ds') (after_decls-grows E ds')
              (declared_vars-Seen E ds'))
            (λ u m. Stays-draw (after_decls E ds') (after E) Goal _ _ (λ b.
              Makes-if (after_decls E ds') (after E) Goal b _ _
                (Stays-draw (after_decls E ds') (after E) Goal _ _ (λ u.
                  Stays-draw (after_decls E ds') (after E) Goal _ _ (λ t.
                    Makes-pure (after_decls E ds') (after E) Goal _
                      (
                        DeclsFit-retype calls E t ds' k.0,
                        (λ x l.
                            after_decls-SameNames E E ds' (retype t ds') (λ x l. l)
                              (retype-SameNames t ds') x
                              (after_decls-SameNames F E ds ds' w k.1 x l)),
                        (λ q. cc),
                      )
                      (after_decls-SameNames E E ds' (retype t ds') (λ x l. l)
                        (retype-SameNames t ds')))))
                (Makes-pure (after_decls E ds') (after E) Goal _
                  (k.0, after_decls-SameNames F E ds ds' w k.1, (λ q. cc)) (λ x l. l)))))
    where
      Goal : Stmt → Type 0
      Goal = Made calls bare builtins ctx F E (declaration ds)
