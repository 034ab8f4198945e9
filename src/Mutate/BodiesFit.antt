-- ===== src/Mutate/BodiesFit.antt =====
-- mutate.ts: lemmas on the bodies and the parts of a statement that is mutated.
use mog_jit.Prelude.{
  ℕ, ◌≡◌, refl, Bool, true, false, List, [], All, Option, none, some, inl, inr, Bool-cases,
}
use mog_jit.Prelude.Text.{Text}
use mog_jit.Ast.{
  Expr, Stmt, block, break_stmt, expression, return_stmt, declaration, if_then, if_else, while_stmt,
  do_while, for_stmt, switch, Stmts,
}
use mog_jit.Core.{IsTraversal, pure}
use mog_jit.Eval.Ops.{proc_index}
use mog_jit.Walk.{as_list}
use mog_jit.Mutate.Exprs.{Ctx, Callable}
use mog_jit.Mutate.Fit.{Fit, lowering}
use mog_jit.Mutate.Stmts.{M, child, single, side_effect}
use mog_jit.Mutate.Clauses.{last_of}
use mog_jit.Mutate.Walk.{
  Step, front, is_break, if_stmt, body_steps, mutate_statements, mutate_body, maybe_else,
  mutate_control, mutate_return,
}
use mog_jit.Mutate.ExprsFit.{build-Fit}
use mog_jit.Mutate.Scope.{
  Env, Calls, Within, introduced, after_decls, after, after_all, fitting, ReturnFit, StmtFit,
  StmtsFit, ClauseFit,
}
use mog_jit.Mutate.Makes.{
  Makes, Stays, Makes-pure, Makes-weaken, Makes-if, Stays-scoped, Stays-child, Makes-bind,
  Stays-bind, Stays-draw,
}
use mog_jit.Mutate.MadeFit.{side_effect-Fit, closed-Fit, open-Fit}
use mog_jit.Mutate.RoundsFit.{Made, StepFit, StepsFit, then_all-Within, mutate_source-Fit}
use mog_jit.Mutate.WalkFit.{here-Fit}

module _ (calls : Calls) (loose bare : Type 0)
    (builtins : (f : Text) (n : ℕ) → proc_index f ≡ none → calls f n) (ctx : Ctx)
    (law : IsTraversal ctx.core) (may : All (λ (c : Callable). calls c.name c.arity) ctx.callable)
    (donated : All (Fit lowering) ctx.donors) where
  abbrev pub Fits : Env → Stmt → Type 0
  Fits = StmtFit calls bare

  abbrev pub Steps : Env → List Step → Type 1
  Steps = StepsFit calls bare builtins ctx

  abbrev pub Mutates : Env → Step → Type 1
  Mutates = StepFit calls bare builtins ctx

  -- A list with no closer of its own.
  pub mutate_statements-Fit :
      (F E : Env) (in_loop : Bool) (list : Stmts) (steps : List Step)
      → Within F E
      → Steps F steps
      → Makes E
          (after_all E)
          (StmtsFit calls bare E)
          (mutate_statements ctx false in_loop list steps)
  unfolding mutate_statements
  mutate_statements-Fit F E in_loop list steps w h =
      mutate_source-Fit calls bare builtins ctx F E in_loop steps w h

  abbrev pub Under : Env → Stmt → Env
  Under E s = after_all E (as_list s)

  pub mutate_control-Fit :
      (F E : Env) (in_loop : Bool) (s : Stmt) (steps : List Step)
      → Within F E
      → Steps F steps
      → Makes E (Under E) (Fits E) (mutate_control ctx in_loop s steps)
  unfolding StmtFit as_list
  mutate_control-Fit F E in_loop s steps w h =
      Makes-bind E (after_all E) (StmtsFit calls bare E) (Under E) (Fits E) _ _
        (mutate_statements-Fit F E in_loop (as_list s) steps w h)
        (λ out k. Makes-pure (after_all E out) (Under E) (Fits E) (block out) k (λ x l. l))

  closes : (E : Env) → Within E (after_all E (single break_stmt))
  unfolding after_all after introduced after_decls
  closes E x l = l

  -- The list of a case.
  pub case-Fit :
      (F E : Env) (in_loop : Bool) (list : Stmts) (steps : List Step)
      → Within F E
      → (is_break (last_of list) ≡ true → Steps F (front steps))
      → (is_break (last_of list) ≡ false → Steps F steps)
      → Stays E (ClauseFit calls bare E) (mutate_body ctx true in_loop list steps)
  unfolding mutate_statements
  case-Fit F E in_loop list steps w front_fits all_fit =
      elim (Bool-cases (is_break (last_of list))) [
        | inl e ↦ rw e (
            Stays-child E (after_all E) (ClauseFit calls bare E) _ (
              Makes-bind E (after_all E) (StmtsFit calls bare E) (after_all E)
                (ClauseFit calls bare E) _ _
                (mutate_source-Fit calls bare builtins ctx F E in_loop (front steps) w
                  (front_fits e))
                (λ out k.
                  Makes-pure (after_all E out) (after_all E) (ClauseFit calls bare E) _
                    (closed-Fit calls bare E out k)
                    (λ x l.
                      then_all-Within E out (single break_stmt) x (closes (after_all E out) x l)))))
        | inr e ↦ rw e (
            Stays-child E (after_all E) (ClauseFit calls bare E) _ (
              Makes-weaken E (after_all E) (after_all E) (StmtsFit calls bare E)
                (ClauseFit calls bare E) _ (open-Fit calls bare E) (λ out k x l. l)
                (mutate_source-Fit calls bare builtins ctx F E in_loop steps w (all_fit e))))
      ]

  pub body_steps-Fit :
      (F : Env) (s : Stmt) (own : M Stmt) (inner : List Step)
      → Mutates F (s, own)
      → Steps F inner
      → Steps F (body_steps s own inner)
  unfolding body_steps StepsFit
  body_steps-Fit F (block b) own inner h k = k
  body_steps-Fit F break_stmt own inner h k = (h, tt)
  body_steps-Fit F (expression e) own inner h k = (h, tt)
  body_steps-Fit F (return_stmt e) own inner h k = (h, tt)
  body_steps-Fit F (declaration ds) own inner h k = (h, tt)
  body_steps-Fit F (if_then c a) own inner h k = (h, tt)
  body_steps-Fit F (if_else c a b) own inner h k = (h, tt)
  body_steps-Fit F (while_stmt c b) own inner h k = (h, tt)
  body_steps-Fit F (do_while b c) own inner h k = (h, tt)
  body_steps-Fit F (for_stmt i c u b) own inner h k = (h, tt)
  body_steps-Fit F (switch e cs) own inner h k = (h, tt)

  -- A control body.
  pub control-Fit :
      (F E : Env) (in_loop : Bool) (s : Stmt) (own : M Stmt) (inner : List Step)
      → Within F E
      → Mutates F (s, own)
      → Steps F inner
      → Stays E (Fits E) (child (mutate_control ctx in_loop s (body_steps s own inner)))
  control-Fit F E in_loop s own inner w h k =
      Stays-child E (Under E) (Fits E) _
        (mutate_control-Fit F E in_loop s _ w (body_steps-Fit F s own inner h k))

  -- What is answered introduces nothing, as the statement does not.
  plain-Made :
      (F E : Env) (s s' : Stmt)
      → Within F E
      → introduced s ≡ []
      → introduced s' ≡ []
      → Fits E s'
      → Made calls bare builtins ctx F E s s'
  unfolding after after_decls
  plain-Made F E s s' w p q h = (h, (rw (p, q) w), (λ m. rw q (λ x l. l)))

  pub answers-Made :
      (F E : Env) (s s' : Stmt)
      → Within F E
      → introduced s ≡ []
      → introduced s' ≡ []
      → Fits E s'
      → Makes E (after E) (Made calls bare builtins ctx F E s) (pure s')
  unfolding after after_decls
  answers-Made F E s s' w p q h =
      Makes-pure E (after E) _ s' (plain-Made F E s s' w p q h) (rw q (λ x l. l))

  abbrev pub ElseFit : Env → Option Stmt → Type 0
  ElseFit E none = Unit
  ElseFit E (some b) = Fits E b

  -- An `else` that was added or was not.
  pub else-Fit : (E : Env) → Stays E (ElseFit E) (maybe_else ctx)
  unfolding maybe_else StmtFit
  else-Fit E = Stays-draw E _ _ _ _ (λ b.
      Makes-if E _ _ b _ _
        (Stays-bind E (Fits E) _ _ _ _
          (Stays-scoped E (Fits E) side_effect
            (λ vars s. side_effect-Fit calls bare builtins E vars s))
          (λ s k. Makes-pure E _ _ (some (block (single s))) (k, tt) (λ x l. l)))
        (Makes-pure E _ _ none tt (λ x l. l)))

  pub if_stmt-Made :
      (F E : Env) (c c' : Expr) (a a' : Stmt) (o : Option Stmt)
      → Within F E
      → Fit (fitting calls E) c'
      → Fits E a'
      → ElseFit E o
      → Makes E (after E) (Made calls bare builtins ctx F E (if_then c a)) (pure (if_stmt c' a' o))
  unfolding introduced StmtFit
  if_stmt-Made F E c c' a a' none w h k l =
      answers-Made F E (if_then c a) (if_then c' a') w refl refl (h, k)
  if_stmt-Made F E c c' a a' (some b) w h k l =
      answers-Made F E (if_then c a) (if_else c' a' b) w refl refl (h, k, l)

  pub return-Fit :
      (F E : Env) (e : Option Expr)
      → Within F E
      → ReturnFit calls loose F e
      → Makes E (after E) (Made calls bare builtins ctx F E (return_stmt e)) (mutate_return ctx e)
  unfolding introduced StmtFit
  return-Fit F E none w h =
      Stays-bind E (Fit (fitting calls E)) _ _ _ _
        (Stays-scoped E (Fit (fitting calls E)) _
          (λ vars s. build-Fit (fitting calls E) builtins vars 2 s))
        (λ e k. answers-Made F E (return_stmt none) (return_stmt (some e)) w refl refl k)
  return-Fit F E (some e) w h =
      Stays-bind E (Fit (fitting calls E)) _ _ _ _
        (here-Fit calls loose bare builtins ctx law may donated F E e w h)
        (λ e' k. answers-Made F E (return_stmt (some e)) (return_stmt (some e')) w refl refl k)
