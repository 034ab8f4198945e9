-- ===== src/Mutate/MadeFit.antt =====
-- mutate.ts: lemmas on the statements that a mutation adds, and the constructs that it wraps one in.
use mog_jit.Prelude.{
  ℕ, zero, suc, ◌≡◌, refl, Bool, true, false, List, All-get_or, Option, none, some, inl, inr,
  if◌then◌else◌,
}
use mog_jit.Prelude.Text.{Text}
use mog_jit.Ast.{
  Expr, Stmt, block, break_stmt, if_then, if_else, Stmts, stop, next, no_case, clause,
}
use mog_jit.Core.{◌>>=◌}
use mog_jit.Eval.Ops.{proc_index}
use mog_jit.Mutate.Machine.{Var, G}
use mog_jit.Mutate.Exprs.{build, Ctx, arity_of}
use mog_jit.Mutate.Fit.{Fit, is_division}
use mog_jit.Mutate.Stmts.{
  single, ◌then_all◌, declare, empty_if, assign_stmt, any_store, store_statement, assign_or_store,
  side_effect, counted, one_more, counted_loop, counted_do_while, case_body, cases_from,
  switch_over, wrappers, wrap,
}
use mog_jit.Mutate.Yields.{
  Yields, Maybe, Yields-pure, Yields-if, Yields-one_from, Yields-perhaps, Yields-bind, Yields-then,
}
use mog_jit.Mutate.ExprsFit.{Builtin, Visible, build-Fit, Fit-bind}
use mog_jit.Mutate.Scope.{
  Env, Calls, with_name, Seen, after_decls, introduced, after, after_init, after_all, fitting,
  DeclsFit, InitFit, StmtFit, StmtsFit, CasesFit, ClauseFit,
}
use mog_jit.Mutate.Weaken.{after_all-grows, StmtsFit-weaken, StmtsFit-then_all}
use mog_jit.Mutate.Makes.{
  Makes, Makes-pure, Makes-push, Makes-bind, Stays-bind, Stays-draw, Stays-scoped,
}

module _ (calls : Calls) (bare : Type 0)
    (builtins : (f : Text) (n : ℕ) → proc_index f ≡ none → calls f n) where
  -- After an expression that is built where `E` is visible.
  pub built-Fit :
      {A : Type 0} (E : Env) (vars : List Var) (depth : ℕ) (Q : A → Type 0) (k : Expr → G A)
      → Seen E vars
      → ((e : Expr) → Fit (fitting calls E) e → Yields Q (k e))
      → Yields Q (build vars depth >>= k)
  built-Fit E vars depth Q k s l =
      Fit-bind (fitting calls E) (build vars depth) k Q
        (build-Fit (fitting calls E) builtins vars depth s) l

  pub declare-Fit : (ctx : Ctx) (E : Env) → Makes E (after E) (StmtFit calls bare E) (declare ctx)
  unfolding declare StmtFit DeclsFit after introduced after_decls
  declare-Fit ctx E = Stays-draw E _ _ _ _ (λ t. Stays-draw E _ _ _ _ (λ x.
      Stays-bind E (Fit (fitting calls E)) _ _ _ _
        (Stays-scoped E (Fit (fitting calls E)) _
          (λ vars s. build-Fit (fitting calls E) builtins vars 2 s))
        (λ e h.
          Makes-bind E (λ u. with_name E x) (λ u. Unit {0}) _ _ _ _
            (Makes-push E (with_name E x) _ (λ y k. inl k) (inr refl, tt))
            (λ u k. Makes-pure (with_name E x) _ _ _ (h, tt) (λ y l. l)))))

  module _ (E : Env) (vars : List Var) (seen : Seen E vars) where
    pub empty_if-Fit : Yields (StmtFit calls bare E) (empty_if vars)
    unfolding empty_if StmtFit
    empty_if-Fit = built-Fit E vars 2 (StmtFit calls bare E) _ seen (λ test h.
        Yields-then (StmtFit calls bare E) _ _
          (λ two. Yields-pure (StmtFit calls bare E) _ (either two test h)))
      where
        either :
            (two : Bool) (test : Expr)
            → Fit (fitting calls E) test
            → StmtFit calls bare E
                (if two then if_else test (block stop) (block stop) else if_then test (block stop))
        either true test h = (h, tt, tt)
        either false test h = (h, tt)

    any_store-Builtin : Yields (Builtin (fitting calls E) builtins) any_store
    unfolding any_store proc_index
    any_store-Builtin = Yields-one_from _ _ _ (refl, (refl, (refl, tt)))

    store_statement-Fit : Yields (StmtFit calls bare E) (store_statement vars)
    unfolding store_statement StmtFit Fit arity_of
    store_statement-Fit =
        Yields-bind (Builtin (fitting calls E) builtins) (StmtFit calls bare E) _ _
          any_store-Builtin
          (λ f b. built-Fit E vars 1 (StmtFit calls bare E) _ seen (λ v h.
            built-Fit E vars 1 (StmtFit calls bare E) _ seen
              (λ a k. Yields-pure (StmtFit calls bare E) _ (builtins f 2 b, (h, (k, tt))))))

    assign_or_store-Fit :
        (v : Option Var)
        → Maybe (Visible (fitting calls E)) v
        → Yields (StmtFit calls bare E) (assign_or_store vars v)
    unfolding assign_or_store StmtFit Fit
    assign_or_store-Fit none h = store_statement-Fit
    assign_or_store-Fit (some v) h = Yields-then (StmtFit calls bare E) _ _ (λ b.
        Yields-if (StmtFit calls bare E) b _ _
          (built-Fit E vars 2 (StmtFit calls bare E) _ seen
            (λ e k. Yields-pure (StmtFit calls bare E) (assign_stmt v.name e) (tt, h, k)))
          store_statement-Fit)

    pub side_effect-Fit : Yields (StmtFit calls bare E) (side_effect vars)
    unfolding side_effect
    side_effect-Fit =
        Yields-bind (Maybe (Visible (fitting calls E))) (StmtFit calls bare E) _ _
          (Yields-perhaps (Visible (fitting calls E)) vars seen) (λ v h. assign_or_store-Fit v h)

    counted-Fit : (x : Text) (bound : ℕ) → Fit (fitting calls (with_name E x)) (counted x bound)
    unfolding Fit is_division
    counted-Fit x bound = (refl, inr refl, tt)

    one_more-Fit : (x : Text) → Fit (fitting calls (with_name E x)) (one_more x)
    unfolding Fit is_division
    one_more-Fit x = (tt, inr refl, (refl, inr refl, tt))

    pub counted_loop-Fit :
        (ctx : Ctx) (body : Stmts)
        → StmtsFit calls bare E body
        → Yields (StmtFit calls bare E) (counted_loop ctx body)
    unfolding counted_loop StmtFit InitFit DeclsFit after_init after_decls Fit
    counted_loop-Fit ctx body h = Yields-then (StmtFit calls bare E) _ _ (λ x.
        Yields-then (StmtFit calls bare E) _ _ (λ bound. Yields-pure (StmtFit calls bare E) _ (
          (tt, tt),
          counted-Fit x bound,
          one_more-Fit x,
          StmtsFit-weaken calls bare E (with_name E x) body (λ y k. inl k) h,
        )))

    pub counted_do_while-Fit :
        (ctx : Ctx) (body : Stmts)
        → StmtsFit calls bare E body
        → Yields (StmtFit calls bare E) (counted_do_while ctx body)
    unfolding counted_do_while StmtFit DeclsFit after introduced after_decls Fit is_division
    counted_do_while-Fit ctx body h = Yields-then (StmtFit calls bare E) _ _ (λ x.
        Yields-then (StmtFit calls bare E) _ _ (λ bound. Yields-pure (StmtFit calls bare E) _ (
          (tt, tt),
          (
            (
              counted-Fit x bound,
              StmtsFit-then_all calls bare (with_name E x) body _
                  (StmtsFit-weaken calls bare E (with_name E x) body (λ y k. inl k) h)
                  (more x body, tt),
            ),
            tt,
          ),
        )))
      where
        more :
            (x : Text) (body : Stmts)
            → Fit (fitting calls (after_all (with_name E x) body)) (one_more x)
        more x body =
            let here = after_all-grows (with_name E x) body x (inr refl) in
            (tt, here, (refl, here, tt))

-- A list without a closer, with one or not.
module _ (calls : Calls) (bare : Type 0) where
  pub closed-Fit :
      (E : Env) (ss : Stmts)
      → StmtsFit calls bare E ss
      → ClauseFit calls bare E (ss then_all single break_stmt)
  unfolding StmtFit ◌then_all◌
  closed-Fit E stop h = inl tt
  closed-Fit E (next s ss) h = inr (h.0, closed-Fit (after E s) ss h.1)

  pub open-Fit : (E : Env) (ss : Stmts) → StmtsFit calls bare E ss → ClauseFit calls bare E ss
  unfolding StmtFit
  open-Fit E stop h = tt
  open-Fit E (next s ss) h = inr (h.0, open-Fit (after E s) ss h.1)

module _ (calls : Calls) (bare : Type 0)
    (builtins : (f : Text) (n : ℕ) → proc_index f ≡ none → calls f n) (E : Env) (vars : List Var)
    (seen : Seen E vars) where
  case_body-Fit :
      (body : Stmts) (i : ℕ)
      → StmtsFit calls bare E body
      → Yields (ClauseFit calls bare E) (case_body vars body i)
  unfolding case_body StmtFit
  case_body-Fit body zero h =
      Yields-pure (ClauseFit calls bare E) _ (closed-Fit calls bare E body h)
  case_body-Fit body (suc i) h =
      Yields-bind (StmtFit calls bare E) (ClauseFit calls bare E) _ _
        (side_effect-Fit calls bare builtins E vars seen)
        (λ s k. Yields-pure (ClauseFit calls bare E) _ (inr (k, inl tt)))

  cases_from-Fit :
      (body : Stmts) (n i : ℕ)
      → StmtsFit calls bare E body
      → Yields (CasesFit calls bare E) (cases_from vars body n i)
  unfolding cases_from StmtFit Fit
  cases_from-Fit body zero i h =
      Yields-then (CasesFit calls bare E) _ _ (λ b. Yields-pure (CasesFit calls bare E) _ (last b))
    where
      last :
          (b : Bool)
          → CasesFit calls bare E (if b then clause none (single break_stmt) no_case else no_case)
      last true = (tt, inl tt, tt)
      last false = tt
  cases_from-Fit body (suc n) i h =
      Yields-bind (ClauseFit calls bare E) (CasesFit calls bare E) _ _ (case_body-Fit body i h)
        (λ b k.
          Yields-bind (CasesFit calls bare E) (CasesFit calls bare E) _ _
            (cases_from-Fit body n (suc i) h)
            (λ rest l. Yields-pure (CasesFit calls bare E) _ (tt, k, l)))

  switch_over-Fit :
      (body : Stmts)
      → StmtsFit calls bare E body
      → Yields (StmtFit calls bare E) (switch_over vars body)
  unfolding switch_over StmtFit Fit is_division
  switch_over-Fit body h = Yields-then (StmtFit calls bare E) _ _ (λ count.
      Yields-bind (CasesFit calls bare E) (StmtFit calls bare E) _ _ (cases_from-Fit body count 0 h)
        (λ cases k.
          built-Fit calls bare builtins E vars 1 (StmtFit calls bare E) _ seen
            (λ e l. Yields-pure (StmtFit calls bare E) _ ((refl, l, tt), k))))

  pub wrap-Fit :
      (ctx : Ctx) (s : Stmt)
      → StmtFit calls bare E s
      → Yields (StmtFit calls bare E) (wrap ctx vars s)
  unfolding wrap wrappers StmtFit
  wrap-Fit ctx s h = Yields-then (StmtFit calls bare E) _ _ (λ shape.
      All-get_or (Yields (StmtFit calls bare E)) (wrappers ctx vars s) shape
        (switch_over vars (single s)) (switch_over-Fit (single s) (h, tt))
        (
          built-Fit calls bare builtins E vars 2 (StmtFit calls bare E) _ seen
              (λ test k. Yields-pure (StmtFit calls bare E) _ (k, (h, tt))),
          (
            built-Fit calls bare builtins E vars 2 (StmtFit calls bare E) _ seen (λ test k.
                Yields-bind (StmtFit calls bare E) (StmtFit calls bare E) _ _
                  (side_effect-Fit calls bare builtins E vars seen)
                  (λ other l. Yields-pure (StmtFit calls bare E) _ (k, (h, tt), (l, tt)))),
            (
              counted_loop-Fit calls bare builtins E vars seen ctx (single s) (h, tt),
              (Yields-pure (StmtFit calls bare E) (block (single s)) (h, tt), tt),
            ),
          ),
        ))
