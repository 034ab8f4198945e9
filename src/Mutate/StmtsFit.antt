-- ===== src/Mutate/StmtsFit.antt =====
-- mutate.ts: lemmas on `mutateStatement`, by the kind of statement.
use mog_jit.Prelude.{ℕ, ◌≡◌, refl, Bool, true, false, List, [], ◌∷◌, All, none, inl, inr}
use mog_jit.Prelude.Text.{Text}
use mog_jit.Ast.{
  Stmt, block, break_stmt, expression, return_stmt, declaration, if_then, if_else, while_stmt,
  do_while, for_stmt, switch, Stmts, stop, next, Cases, no_case, clause,
}
use mog_jit.Core.{IsTraversal}
use mog_jit.Eval.Ops.{proc_index}
use mog_jit.Mutate.Exprs.{Ctx, Callable}
use mog_jit.Mutate.Fit.{Fit, lowering}
use mog_jit.Mutate.Clauses.{cases_of, last_of}
use mog_jit.Mutate.Walk.{
  Step, front, is_break, init_vars, mutate_statement, steps_of, inner_steps, mutate_clauses,
}
use mog_jit.Mutate.Scope.{
  Env, Calls, Within, introduced, after, after_init, after_all, fitting, StmtFit, StmtsFit,
  CasesFit, ClauseFit,
}
use mog_jit.Mutate.Weaken.{
  after_init-Within, after_init-grows, Fit-weaken, OptFit-weaken, InitFit-weaken,
}
use mog_jit.Mutate.Makes.{
  Stays, Makes-pure, Makes-push, Stays-scoped, Stays-child, Makes-bind, Stays-bind,
}
use mog_jit.Mutate.ClausesFit.{AllCasesFit, cases_of-Fit, change_cases-Fit}
use mog_jit.Mutate.RoundsFit.{StepFit, StepsFit}
use mog_jit.Mutate.WalkFit.{init_vars-Seen, closer-is_break, here-Fit, mutate_declaration-Fit}
use mog_jit.Mutate.BodiesFit.{
  mutate_statements-Fit, mutate_control-Fit, case-Fit, body_steps-Fit, answers-Made, else-Fit,
  if_stmt-Made, return-Fit, control-Fit, Under, ElseFit,
}

module _ (calls : Calls) (loose bare : Type 0)
    (builtins : (f : Text) (n : ℕ) → proc_index f ≡ none → calls f n) (ctx : Ctx)
    (law : IsTraversal ctx.core) (may : All (λ (c : Callable). calls c.name c.arity) ctx.callable)
    (donated : All (Fit lowering) ctx.donors) where
  abbrev Fits : Env → Stmt → Type 0
  Fits = StmtFit calls bare

  abbrev Steps : Env → List Step → Type 1
  Steps = StepsFit calls bare builtins ctx

  abbrev Mutates : Env → Step → Type 1
  Mutates = StepFit calls bare builtins ctx

  mutual
    unfolding mutate_statement StmtFit StepsFit introduced after_init front last_of

    pub mutate_statement-Fit :
        (F : Env) (in_loop : Bool) (s : Stmt)
        → StmtFit calls loose F s
        → Mutates F (s, mutate_statement ctx in_loop s)
    mutate_statement-Fit F in_loop break_stmt h E w = cc
    mutate_statement-Fit F in_loop (block b) h E w =
        Stays-bind E (StmtsFit calls bare E) _ _ _ _
          (Stays-child E (after_all E) (StmtsFit calls bare E) _ (
            mutate_statements-Fit calls loose bare builtins ctx law may donated F E in_loop b _ w
              (steps_of-Fit F in_loop b h)))
          (λ out k.
            answers-Made calls loose bare builtins ctx law may donated F E (block b) (block out) w
              refl refl k)
    mutate_statement-Fit F in_loop (if_then c a) h E w =
        Stays-bind E (Fit (fitting calls E)) _ _ _ _
          (here-Fit calls loose bare builtins ctx law may donated F E c w h.0)
          (λ c' k.
            Stays-bind E (Fits E) _ _ _ _
              (control-Fit calls loose bare builtins ctx law may donated F E in_loop a _ _ w
                (mutate_statement-Fit F in_loop a h.1) (inner_steps-Fit F in_loop a h.1))
              (λ a' l.
                Stays-bind E (ElseFit calls loose bare builtins ctx law may donated E) _ _ _ _
                  (else-Fit calls loose bare builtins ctx law may donated E)
                  (λ o m.
                    if_stmt-Made calls loose bare builtins ctx law may donated F E c c' a a' o w k l
                      m)))
    mutate_statement-Fit F in_loop (if_else c a b) h E w =
        Stays-bind E (Fit (fitting calls E)) _ _ _ _
          (here-Fit calls loose bare builtins ctx law may donated F E c w h.0)
          (λ c' k.
            Stays-bind E (Fits E) _ _ _ _
              (control-Fit calls loose bare builtins ctx law may donated F E in_loop a _ _ w
                (mutate_statement-Fit F in_loop a h.1) (inner_steps-Fit F in_loop a h.1))
              (λ a' l.
                Stays-bind E (Fits E) _ _ _ _
                  (control-Fit calls loose bare builtins ctx law may donated F E in_loop b _ _ w
                    (mutate_statement-Fit F in_loop b h.2) (inner_steps-Fit F in_loop b h.2))
                  (λ b' m.
                    answers-Made calls loose bare builtins ctx law may donated F E (if_else c a b)
                      (if_else c' a' b') w refl refl (k, l, m))))
    mutate_statement-Fit F in_loop (while_stmt c b) h E w =
        Stays-bind E (Fits E) _ _ _ _
          (control-Fit calls loose bare builtins ctx law may donated F E true b _ _ w
            (mutate_statement-Fit F true b h.1) (inner_steps-Fit F true b h.1))
          (λ b' k.
            answers-Made calls loose bare builtins ctx law may donated F E (while_stmt c b)
              (while_stmt c b') w refl refl (Fit-weaken calls F E c w h.0, k))
    mutate_statement-Fit F in_loop (do_while b c) h E w =
        Stays-bind E (Fits E) _ _ _ _
          (control-Fit calls loose bare builtins ctx law may donated F E true b _ _ w
            (mutate_statement-Fit F true b h.1) (inner_steps-Fit F true b h.1))
          (λ b' k.
            answers-Made calls loose bare builtins ctx law may donated F E (do_while b c)
              (do_while b' c) w refl refl (Fit-weaken calls F E c w h.0, k))
    mutate_statement-Fit F in_loop (for_stmt i c u b) h E w =
        let F' = after_init F i in
        let E' = after_init E i in
        let w' = after_init-Within F E i w in
        Stays-bind E (Fits E') _ _ _ _
          (Stays-child E (Under calls loose bare builtins ctx law may donated E') (Fits E') _ (
            Makes-bind E (λ u. E') (λ u. Unit {0})
              (Under calls loose bare builtins ctx law may donated E') (Fits E') _ _
              (Makes-push E E' (init_vars i) (after_init-grows E i) (init_vars-Seen E i))
              (λ u k.
                mutate_control-Fit calls loose bare builtins ctx law may donated F' E' true b _ w' (
                  body_steps-Fit calls loose bare builtins ctx law may donated F' b _ _
                    (mutate_statement-Fit F' true b h.3) (inner_steps-Fit F' true b h.3)))))
          (λ b' k.
            answers-Made calls loose bare builtins ctx law may donated F E (for_stmt i c u b)
              (for_stmt i c u b') w refl refl
              (
                InitFit-weaken calls F E i w h.0,
                OptFit-weaken calls F' E' c w' h.1,
                OptFit-weaken calls F' E' u w' h.2,
                k,
              ))
    mutate_statement-Fit F in_loop (switch e cs) h E w =
        Stays-bind E (AllCasesFit calls bare E) _ _ _ _ (mutate_clauses-Fit F in_loop cs h.1 E w)
          (λ bodies k.
            Stays-bind E (AllCasesFit calls bare E) _ _ _ _
              (Stays-scoped E (AllCasesFit calls bare E) _
                (λ vars s. change_cases-Fit calls bare builtins ctx E vars s bodies k))
              (λ changed l.
                Stays-bind E (Fit (fitting calls E)) _ _ _ _
                  (here-Fit calls loose bare builtins ctx law may donated F E e w h.0)
                  (λ e' m.
                    answers-Made calls loose bare builtins ctx law may donated F E (switch e cs)
                      (switch e' (cases_of changed)) w refl refl
                      (m, cases_of-Fit calls bare E changed l))))
    mutate_statement-Fit F in_loop (declaration ds) h E w =
        mutate_declaration-Fit calls loose bare builtins ctx law may donated F E ds w h
    mutate_statement-Fit F in_loop (return_stmt e) h E w =
        return-Fit calls loose bare builtins ctx law may donated F E e w h
    mutate_statement-Fit F in_loop (expression e) h E w =
        Stays-bind E (Fit (fitting calls E)) _ _ _ _
          (here-Fit calls loose bare builtins ctx law may donated F E e w h)
          (λ e' k.
            answers-Made calls loose bare builtins ctx law may donated F E (expression e)
              (expression e') w refl refl k)

    inner_steps-Fit :
        (F : Env) (in_loop : Bool) (s : Stmt)
        → StmtFit calls loose F s
        → Steps F (inner_steps ctx in_loop s)
    inner_steps-Fit F in_loop (block b) h = steps_of-Fit F in_loop b h
    inner_steps-Fit F in_loop break_stmt h = tt
    inner_steps-Fit F in_loop (expression e) h = tt
    inner_steps-Fit F in_loop (return_stmt e) h = tt
    inner_steps-Fit F in_loop (declaration ds) h = tt
    inner_steps-Fit F in_loop (if_then c a) h = tt
    inner_steps-Fit F in_loop (if_else c a b) h = tt
    inner_steps-Fit F in_loop (while_stmt c b) h = tt
    inner_steps-Fit F in_loop (do_while b c) h = tt
    inner_steps-Fit F in_loop (for_stmt i c u b) h = tt
    inner_steps-Fit F in_loop (switch e cs) h = tt

    pub steps_of-Fit :
        (F : Env) (in_loop : Bool) (ss : Stmts)
        → StmtsFit calls loose F ss
        → Steps F (steps_of ctx in_loop ss)
    steps_of-Fit F in_loop stop h = tt
    steps_of-Fit F in_loop (next s ss) h =
        (mutate_statement-Fit F in_loop s h.0, steps_of-Fit (after F s) in_loop ss h.1)

    mutate_clauses-Fit :
        (F : Env) (in_loop : Bool) (cs : Cases)
        → CasesFit calls loose F cs
        → (E : Env) → Within F E
        → Stays E (AllCasesFit calls bare E) (mutate_clauses ctx in_loop cs)
    mutate_clauses-Fit F in_loop no_case h E w = Makes-pure E _ _ [] tt (λ x l. l)
    mutate_clauses-Fit F in_loop (clause t b cs) h E w =
        Stays-bind E (ClauseFit calls bare E) _ _ _ _
          (case-Fit calls loose bare builtins ctx law may donated F E in_loop b _ w
            (fronted-Fit F in_loop b h.1) (whole-Fit F in_loop b h.1))
          (λ b' k.
            Stays-bind E (AllCasesFit calls bare E) _ _ _ _
              (mutate_clauses-Fit F in_loop cs h.2 E w)
              (λ rest l.
                Makes-pure E _ _ (record { test = t; consequent = b' } ∷ rest)
                  ((OptFit-weaken calls F E t w h.0, k), l) (λ x m. m)))

    fronted-Fit :
        (F : Env) (in_loop : Bool) (ss : Stmts)
        → ClauseFit calls loose F ss
        → is_break (last_of ss) ≡ true
        → Steps F (front (steps_of ctx in_loop ss))
    fronted-Fit F in_loop stop h e = tt
    fronted-Fit F in_loop (next s stop) h e = tt
    fronted-Fit F in_loop (next s (next t ts)) (inl h) e = cc
    fronted-Fit F in_loop (next s (next t ts)) (inr h) e =
        (mutate_statement-Fit F in_loop s h.0, fronted-Fit (after F s) in_loop (next t ts) h.1 e)

    whole-Fit :
        (F : Env) (in_loop : Bool) (ss : Stmts)
        → ClauseFit calls loose F ss
        → is_break (last_of ss) ≡ false
        → Steps F (steps_of ctx in_loop ss)
    whole-Fit F in_loop stop h e = tt
    whole-Fit F in_loop (next s stop) (inl h) e = cc (closer-is_break s h, e)
    whole-Fit F in_loop (next s stop) (inr h) e = (mutate_statement-Fit F in_loop s h.0, tt)
    whole-Fit F in_loop (next s (next t ts)) (inl h) e = cc
    whole-Fit F in_loop (next s (next t ts)) (inr h) e =
        (mutate_statement-Fit F in_loop s h.0, whole-Fit (after F s) in_loop (next t ts) h.1 e)
