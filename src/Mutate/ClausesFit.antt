-- ===== src/Mutate/ClausesFit.antt =====
-- mutate.ts: lemmas on the clauses of a switch that are added, opened or removed.
use mog_jit.Prelude.{
  ℕ, zero, suc, ◌≡◌, Bool, true, false, List, [], ◌∷◌, All, Option, none, some, inl, inr,
  if◌then◌else◌,
}
use mog_jit.Prelude.Text.{Text}
use mog_jit.Ast.{Stmts, stop, next}
use mog_jit.Eval.Ops.{proc_index}
use mog_jit.Mutate.Machine.{Var, G}
use mog_jit.Mutate.Exprs.{Ctx}
use mog_jit.Mutate.Fit.{Fit}
use mog_jit.Mutate.Clauses.{
  Clause, cases_of, all_but_last, insert_at, remove_at, with_case, entered, default_at, new_clause,
  add_case, opened_at, chosen, open_case, remove_case, change_cases,
}
use mog_jit.Mutate.Yields.{Yields, Yields-pure, Yields-if, Yields-bind, Yields-then}
use mog_jit.Mutate.Scope.{Env, Calls, Seen, after, OptFit, StmtFit, CasesFit, ClauseFit}
use mog_jit.Mutate.MadeFit.{side_effect-Fit}

module _ (calls : Calls) (bare : Type 0) (E : Env) where
  abbrev pub CaseFit : Clause → Type 0
  CaseFit c = OptFit calls E c.test × ClauseFit calls bare E c.consequent

  abbrev pub AllCasesFit : List Clause → Type 0
  AllCasesFit = All CaseFit

  pub cases_of-Fit : (cs : List Clause) → AllCasesFit cs → CasesFit calls bare E (cases_of cs)
  unfolding cases_of StmtFit
  cases_of-Fit [] h = tt
  cases_of-Fit (c ∷ cs) h = (h.0.0, h.0.1, cases_of-Fit cs h.1)

  insert_at-Fit :
      (i : ℕ) (x : Clause) (cs : List Clause)
      → CaseFit x
      → AllCasesFit cs
      → AllCasesFit (insert_at i x cs)
  unfolding insert_at
  insert_at-Fit zero x cs h k = (h, k)
  insert_at-Fit (suc i) x [] h k = (h, tt)
  insert_at-Fit (suc i) x (c ∷ cs) h k = (k.0, insert_at-Fit i x cs h k.1)

  remove_at-Fit : (i : ℕ) (cs : List Clause) → AllCasesFit cs → AllCasesFit (remove_at i cs)
  unfolding remove_at
  remove_at-Fit zero [] k = tt
  remove_at-Fit (suc i) [] k = tt
  remove_at-Fit zero (c ∷ cs) k = k.1
  remove_at-Fit (suc i) (c ∷ cs) k = (k.0, remove_at-Fit i cs k.1)

module _ (calls : Calls) (bare : Type 0) where
  all_but_last-Fit :
      (E : Env) (b : Stmts) → ClauseFit calls bare E b → ClauseFit calls bare E (all_but_last b)
  unfolding all_but_last StmtFit
  all_but_last-Fit E stop h = tt
  all_but_last-Fit E (next s stop) h = tt
  all_but_last-Fit E (next s (next t ts)) (inl h) = cc
  all_but_last-Fit E (next s (next t ts)) (inr h) =
      inr (h.0, all_but_last-Fit (after E s) (next t ts) h.1)

  opened_at-Fit :
      (E : Env) (i : ℕ) (cs : List Clause)
      → AllCasesFit calls bare E cs
      → AllCasesFit calls bare E (opened_at i cs)
  unfolding opened_at
  opened_at-Fit E zero [] k = tt
  opened_at-Fit E (suc i) [] k = tt
  opened_at-Fit E zero (c ∷ cs) k = ((k.0.0, all_but_last-Fit E c.consequent k.0.1), k.1)
  opened_at-Fit E (suc i) (c ∷ cs) k = (k.0, opened_at-Fit E i cs k.1)

module _ (calls : Calls) (bare : Type 0)
    (builtins : (f : Text) (n : ℕ) → proc_index f ≡ none → calls f n) (ctx : Ctx) (E : Env)
    (vars : List Var) (seen : Seen E vars) where
  abbrev Keeps : G (List Clause) → Type 0
  Keeps = Yields (AllCasesFit calls bare E)

  with_case-Fit :
      (c : Clause) (cs : List Clause)
      → CaseFit calls bare E c
      → AllCasesFit calls bare E cs
      → AllCasesFit calls bare E (with_case c cs)
  unfolding with_case
  with_case-Fit c cs h k = either (entered (default_at cs) cs)
    where
      either :
          (t : Bool) → AllCasesFit calls bare E (if t then cs else insert_at (default_at cs) c cs)
      either true = k
      either false = insert_at-Fit calls bare E (default_at cs) c cs h k

  add_case-Fit : (cs : List Clause) → AllCasesFit calls bare E cs → Keeps (add_case ctx vars cs)
  unfolding add_case StmtFit Fit
  add_case-Fit cs h = Yields-then (AllCasesFit calls bare E) _ _ (λ b.
      Yields-if (AllCasesFit calls bare E) b _ _
        (Yields-then (AllCasesFit calls bare E) _ _ (λ u.
          Yields-bind (StmtFit calls bare E) (AllCasesFit calls bare E) _ _
            (side_effect-Fit calls bare builtins E vars seen)
            (λ s k.
              Yields-pure (AllCasesFit calls bare E) _
                (with_case-Fit (new_clause cs s) cs (tt, inr (k, inl tt)) h))))
        (Yields-pure (AllCasesFit calls bare E) cs h))

  chosen-Fit :
      (cs : List Clause) (change : ℕ → List Clause → List Clause) (i : Option ℕ)
      → ((j : ℕ) → AllCasesFit calls bare E (change j cs))
      → AllCasesFit calls bare E cs
      → Keeps (chosen cs change i)
  chosen-Fit cs change none k h = Yields-pure (AllCasesFit calls bare E) cs h
  chosen-Fit cs change (some i) k h =
      Yields-then (AllCasesFit calls bare E) _ _
        (λ u. Yields-pure (AllCasesFit calls bare E) _ (k i))

  open_case-Fit : (cs : List Clause) → AllCasesFit calls bare E cs → Keeps (open_case ctx cs)
  unfolding open_case
  open_case-Fit cs h = Yields-then (AllCasesFit calls bare E) _ _ (λ b.
      Yields-if (AllCasesFit calls bare E) b _ _
        (Yields-then (AllCasesFit calls bare E) _ _
          (λ i. chosen-Fit cs opened_at i (λ j. opened_at-Fit calls bare E j cs h) h))
        (Yields-pure (AllCasesFit calls bare E) cs h))

  remove_case-Fit : (cs : List Clause) → AllCasesFit calls bare E cs → Keeps (remove_case ctx cs)
  unfolding remove_case
  remove_case-Fit cs h = Yields-then (AllCasesFit calls bare E) _ _ (λ b.
      Yields-if (AllCasesFit calls bare E) b _ _
        (Yields-then (AllCasesFit calls bare E) _ _
          (λ i. chosen-Fit cs remove_at i (λ j. remove_at-Fit calls bare E j cs h) h))
        (Yields-pure (AllCasesFit calls bare E) cs h))

  pub change_cases-Fit :
      (cs : List Clause) → AllCasesFit calls bare E cs → Keeps (change_cases ctx vars cs)
  unfolding change_cases
  change_cases-Fit cs h =
      Yields-bind (AllCasesFit calls bare E) (AllCasesFit calls bare E) _ _ (add_case-Fit cs h)
        (λ added k.
          Yields-bind (AllCasesFit calls bare E) (AllCasesFit calls bare E) _ _
            (open_case-Fit added k) (λ opened l. remove_case-Fit opened l))
