-- ===== src/Mutate/RoundsFit.antt =====
-- mutate.ts: lemmas on the passes of `mutateStatements`.
use mog_jit.Prelude.{
  arith, ℕ, ◌≡◌, refl, Bool, true, false, ◌&&◌, not, List, [], ◌∷◌, none, length, ltb,
  if◌then◌else◌,
}
use mog_jit.Prelude.Text.{Text}
use mog_jit.Ast.{
  Stmt, block, break_stmt, expression, return_stmt, declaration, if_then, if_else, while_stmt,
  do_while, for_stmt, switch, Stmts, stop, next,
}
use mog_jit.Core.{◌>>=◌, ◌>>◌, pure}
use mog_jit.Eval.Ops.{proc_index}
use mog_jit.Mutate.Machine.{count_applied}
use mog_jit.Mutate.Exprs.{Ctx}
use mog_jit.Mutate.Stmts.{M, lift, scoped, single, ◌then_all◌, empty_if, side_effect, wrap}
use mog_jit.Mutate.Walk.{
  movable, attempted, Step, inserted, kept, repeated, round, rounds, or_effect, mutate_source,
}
use mog_jit.Mutate.Scope.{
  Env, Calls, Within, after_decls, introduced, after, after_all, StmtFit, StmtsFit,
}
use mog_jit.Mutate.Weaken.{after-grows, after_all-grows, StmtsFit-then_all}
use mog_jit.Mutate.Makes.{
  Makes, Stays, Makes-pure, Makes-weaken, Makes-from, Makes-if, Stays-lift, Stays-scoped,
  Stays-child, Makes-bind, Stays-bind, Stays-draw,
}
use mog_jit.Mutate.MadeFit.{declare-Fit, empty_if-Fit, side_effect-Fit, wrap-Fit}

movable-Within : (E : Env) (s : Stmt) → movable s ≡ true → Within (after E s) E
unfolding movable after introduced after_decls
movable-Within E (block b) m x h = h
movable-Within E break_stmt m x h = h
movable-Within E (expression e) m x h = h
movable-Within E (return_stmt e) m x h = h
movable-Within E (declaration ds) m x h = cc
movable-Within E (if_then c a) m x h = h
movable-Within E (if_else c a b) m x h = h
movable-Within E (while_stmt c b) m x h = h
movable-Within E (do_while b c) m x h = h
movable-Within E (for_stmt i c u b) m x h = h
movable-Within E (switch e cs) m x h = h

pub then_all-Within :
    (E : Env) (ss ts : Stmts)
    → Within (after_all (after_all E ss) ts) (after_all E (ss then_all ts))
unfolding after_all ◌then_all◌
then_all-Within E stop ts x h = h
then_all-Within E (next s ss) ts x h = then_all-Within (after E s) ss ts x h

abbrev Allows : Bool → Bool → Type 0
Allows allowed b = b ≡ true → allowed ≡ true

attempted-Allows :
    (E : Env) (ctx : Ctx) (allowed : Bool) (k : ℕ)
    → Stays E (Allows allowed) (attempted ctx allowed k)
unfolding attempted
attempted-Allows E ctx true k = Stays-lift E (Allows true) _ (record { answer = λ g h. refl })
attempted-Allows E ctx false k = Makes-pure E _ (Allows false) false (λ h. h) (λ x h. h)

module _ (calls : Calls) (bare : Type 0)
    (builtins : (f : Text) (n : ℕ) → proc_index f ≡ none → calls f n) (ctx : Ctx) where
  abbrev Fits : Env → Stmt → Type 0
  Fits = StmtFit calls bare

  abbrev AllFit : Env → Stmts → Type 0
  AllFit = StmtsFit calls bare

  -- What the mutation of a statement gives, where the statement stood in `F` and the mutation is in `E`:
  -- it introduces what the statement did, and nothing where that is movable.
  abbrev pub Made : Env → Env → Stmt → Stmt → Type 0
  Made F E s s' =
      StmtFit calls bare E s'
      × Within (after F s) (after E s')
      × (movable s ≡ true → Within (after E s') E)

  abbrev pub StepFit : Env → Step → Type 1
  StepFit F step = (E : Env) → Within F E → Makes E (after E) (Made F E step.0) step.1

  unfoldable pub StepsFit : Env → List Step → Type 1
  unfolding after
  StepsFit F [] = Unit
  StepsFit F (x ∷ xs) = StepFit F x × StepsFit (after F x.0) xs

  -- A statement by itself.
  single-Fit :
      (E : Env) (m : M Stmt)
      → Makes E (after E) (Fits E) m
      → Makes E (after_all E) (AllFit E) (m >>= λ s. pure (single s))
  unfolding StmtFit after_all
  single-Fit E m h =
      Makes-bind E (after E) (Fits E) (after_all E) (AllFit E) m _ h
        (λ s k. Makes-pure (after E s) (after_all E) (AllFit E) (single s) (k, tt) (λ x l. l))

  grown-Fit : (E : Env) (m : M Stmt) → Stays E (Fits E) m → Makes E (after E) (Fits E) m
  grown-Fit E m h =
      Makes-weaken E (λ s. E) (after E) (Fits E) (Fits E) m (λ s k. k) (λ s k. after-grows E s) h

  effect-Fit : (E : Env) → Makes E (after E) (Fits E) (scoped side_effect)
  effect-Fit E =
      grown-Fit E _ (
        Stays-scoped E (Fits E) side_effect
          (λ vars s. side_effect-Fit calls bare builtins E vars s))

  inserted-Fit : (E : Env) → Makes E (after_all E) (AllFit E) (inserted ctx)
  unfolding inserted StmtFit after_all
  inserted-Fit E = Stays-draw E _ _ _ _ (λ b.
      Makes-if E (after_all E) (AllFit E) b _ _
        (Stays-draw E _ _ _ _ (λ u. Stays-draw E _ _ _ _ (λ empty.
          Makes-if E (after_all E) (AllFit E) empty _ _
            (single-Fit E _ (
              grown-Fit E _ (
                Stays-scoped E (Fits E) empty_if
                  (λ vars s. empty_if-Fit calls bare builtins E vars s))))
            (Stays-draw E _ _ _ _ (λ declares_one. single-Fit E _ (
              Makes-if E (after E) (Fits E) declares_one _ _ (declare-Fit calls bare builtins ctx E)
                (effect-Fit E)))))))
        (Makes-pure E (after_all E) (AllFit E) stop tt (λ x h. h)))

  module _ (F E : Env) (step : Step) (inner : Within F E) (fits : StepFit F step) where
    abbrev Kept : Stmt → Type 0
    Kept s = Fits E s × Within (after F step.0) (after E s)

    kept-Fit : Makes E (after E) Kept (kept ctx step)
    unfolding kept
    kept-Fit = Makes-bind E (after E) (Made F E step.0) (after E) Kept _ _ (fits E inner) (λ s h.
        Stays-bind (after E s) (Allows (movable step.0)) (after E) Kept _ _
          (attempted-Allows (after E s) ctx (movable step.0) 35) (λ b m. wrapped s h b m))
      where
        wrapped :
            (s : Stmt)
            → Made F E step.0 s
            → (b : Bool) → Allows (movable step.0) b
            → Makes
                (after E s)
                (after E)
                Kept
                (if b then lift count_applied >> scoped (λ vars. wrap ctx vars s) else pure s)
        wrapped s h true m =
            let tame = m refl in
            Makes-from (after E s) E (after E) Kept _ (h.2 tame) (
              Stays-draw E _ _ _ _ (λ u.
                Makes-weaken E (λ t. E) (after E) (Fits E) Kept _
                  (λ t k.
                    (k, λ x l. after-grows E t x (inner x (movable-Within F step.0 tame x l))))
                  (λ t k. after-grows E t)
                  (Stays-scoped E (Fits E) _
                    (λ vars seen. wrap-Fit calls bare builtins E vars seen ctx s h.0))))
        wrapped s h false m = Makes-pure (after E s) (after E) Kept s (h.0, h.1) (λ x l. l)

    repeated-Fit : Makes E (after_all E) (AllFit E) (repeated ctx step)
    unfolding repeated StmtFit after_all
    repeated-Fit =
        Stays-bind E (Allows (movable step.0)) (after_all E) (AllFit E) _ _
          (attempted-Allows E ctx (movable step.0) 15)
          (λ b m.
            Makes-if E (after_all E) (AllFit E) b _ _
              (Stays-draw E _ _ _ _ (λ u. single-Fit E _ (
                grown-Fit E _ (
                  Makes-weaken E (λ t. E) (λ t. E) (Made F E step.0) (Fits E) _ (λ t k. k.0)
                    (λ t k x l. l)
                    (Stays-child E (after E) (Made F E step.0) step.1 (fits E inner))))))
              (Makes-pure E (after_all E) (AllFit E) stop tt (λ x h. h)))

  round-Fit :
      (F E : Env) (in_loop many : Bool) (step : Step)
      → Within F E
      → StepFit F step
      → Makes E
          (after_all E)
          (λ out. AllFit E out × Within (after F step.0) (after_all E out))
          (round ctx in_loop many step)
  unfolding round StmtFit after_all
  round-Fit F E in_loop many step inner fits =
      Makes-bind E (after_all E) (AllFit E) (after_all E) Out _ _ (inserted-Fit E) (λ before h.
        Stays-bind (after_all E before) (Allows (movable step.0 && not in_loop && many))
          (after_all E) Out _ _ (attempted-Allows (after_all E before) ctx _ 25)
          (λ b m. rest before h b m))
    where
      Out : Stmts → Type 0
      Out out = AllFit E out × Within (after F step.0) (after_all E out)

      there : (before : Stmts) → Within F (after_all E before)
      there before x h = after_all-grows E before x (inner x h)

      rest :
          (before : Stmts)
          → AllFit E before
          → (b : Bool) → Allows (movable step.0 && not in_loop && many) b
          → Makes (after_all E before) (after_all E) Out (
              if b
              then lift count_applied >> pure before
              else kept ctx step
                >>= (λ s. repeated ctx step >>= λ more. pure (before then_all next s more)))
      rest before h true m = Stays-draw (after_all E before) _ _ _ _ (λ u.
          Makes-pure (after_all E before) (after_all E) Out before
            (h, λ x l. there before x (movable-Within F step.0 (ground (arith, m refl)) x l))
            (λ x l. l))
      rest before h false m =
          let E₁ = after_all E before in
          Makes-bind E₁ (after E₁) (Kept F E₁ step (there before) fits) (after_all E) Out _ _
            (kept-Fit F E₁ step (there before) fits)
            (λ s k.
              Makes-bind (after E₁ s) (after_all (after E₁ s)) (AllFit (after E₁ s)) (after_all E)
                Out _ _
                (repeated-Fit F (after E₁ s) step (λ x l. after-grows E₁ s x (there before x l))
                  fits)
                (λ more l.
                  Makes-pure (after_all (after E₁ s) more) (after_all E) Out _
                    (
                      StmtsFit-then_all calls bare E before (next s more) h (k.0, l),
                      λ x n.
                          then_all-Within E before (next s more) x
                            (after_all-grows (after E₁ s) more x (k.1 x n)),
                    )
                    (then_all-Within E before (next s more))))

  rounds-Fit :
      (F E : Env) (in_loop many : Bool) (steps : List Step)
      → Within F E
      → StepsFit F steps
      → Makes E (after_all E) (AllFit E) (rounds ctx in_loop many steps)
  unfolding rounds StepsFit StmtFit after_all
  rounds-Fit F E in_loop many [] inner h = Makes-pure E (after_all E) (AllFit E) stop tt (λ x l. l)
  rounds-Fit F E in_loop many (step ∷ steps) inner h =
      Makes-bind E (after_all E) (λ out. AllFit E out × Within (after F step.0) (after_all E out))
        (after_all E) (AllFit E) _ _ (round-Fit F E in_loop many step inner h.0)
        (λ out k.
          Makes-bind (after_all E out) (after_all (after_all E out)) (AllFit (after_all E out))
            (after_all E) (AllFit E) _ _
            (rounds-Fit (after F step.0) (after_all E out) in_loop many steps k.1 h.1)
            (λ rest l.
              Makes-pure (after_all (after_all E out) rest) (after_all E) (AllFit E) _
                (StmtsFit-then_all calls bare E out rest k.0 l) (then_all-Within E out rest)))

  or_effect-Fit :
      (E : Env) (out : Stmts)
      → AllFit E out
      → Makes (after_all E out) (after_all E) (AllFit E) (or_effect ctx out)
  unfolding or_effect after_all
  or_effect-Fit E stop h = single-Fit E _ (effect-Fit E)
  or_effect-Fit E (next s ss) h =
      Makes-pure (after_all E (next s ss)) (after_all E) (AllFit E) (next s ss) h (λ x l. l)

  pub mutate_source-Fit :
      (F E : Env) (in_loop : Bool) (steps : List Step)
      → Within F E
      → StepsFit F steps
      → Makes E (after_all E) (AllFit E) (mutate_source ctx in_loop steps)
  unfolding mutate_source
  mutate_source-Fit F E in_loop steps inner h =
      Makes-bind E (after_all E) (AllFit E) (after_all E) (AllFit E) _ _
        (rounds-Fit F E in_loop (ltb 1 (length steps)) steps inner h) (or_effect-Fit E)
