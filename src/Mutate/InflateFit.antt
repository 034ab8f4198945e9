-- ===== src/Mutate/InflateFit.antt =====
-- mutate.ts, `inflate`: its parts, and the whole.
use mog_jit.Prelude.{ℕ, zero, suc, ◌≡◌, true, false, List, ◌∷◌, All-get_or, none}
use mog_jit.Prelude.Text.{Text}
use mog_jit.Ast.{block, if_then, Stmts, stop, next, GenProc}
use mog_jit.Core.{Traversal}
use mog_jit.Eval.Ops.{proc_index}
use mog_jit.Mutate.Machine.{Var, Gen}
use mog_jit.Mutate.Exprs.{Ctx}
use mog_jit.Mutate.Stmts.{◌then_all◌, counted_do_while}
use mog_jit.Mutate.Program.{
  arg_vars, in_scope, declares_n, effects_n, inflating, spans, span_over, inflated_body, start,
  inflate,
}
use mog_jit.Mutate.Yields.{Yields, Yields-pure, Yields-bind, Yields-then}
use mog_jit.Mutate.Scope.{Env, Calls, Seen, after, after_all, StmtFit, StmtsFit}
use mog_jit.Mutate.Weaken.{after-grows, after_all-grows, StmtsFit-weaken, StmtsFit-then_all}
use mog_jit.Mutate.Makes.{
  Makes, Makes-pure, Makes-weaken, Makes-from, Stays-scoped, Makes-bind, Stays-bind,
}
use mog_jit.Mutate.MadeFit.{
  built-Fit, declare-Fit, side_effect-Fit, counted_loop-Fit, counted_do_while-Fit,
}
use mog_jit.Mutate.RoundsFit.{then_all-Within}
use mog_jit.Mutate.Legal.{arities_of, CallsUp, arg_env, LegalMutant, EachFrom}
use mog_jit.Mutate.ProcsFit.{
  CallsUp-builtin, arg_vars-Seen, Yields-in_scope, Ends, close_with_return-Fit,
}

module _ (core : Traversal Gen) (calls : Calls) (bare : Type 0)
    (builtins : (f : Text) (n : ℕ) → proc_index f ≡ none → calls f n) where
  abbrev AllFit : Env → Stmts → Type 0
  AllFit = StmtsFit calls bare

  declares_n-Fit :
      (ctx : Ctx) (E : Env) (n : ℕ) → Makes E (after_all E) (AllFit E) (declares_n core ctx n)
  unfolding declares_n StmtFit after_all
  declares_n-Fit ctx E zero = Makes-pure E (after_all E) (AllFit E) stop tt (λ x h. h)
  declares_n-Fit ctx E (suc n) =
      Makes-bind E (after E) (StmtFit calls bare E) (after_all E) (AllFit E) _ _
        (declare-Fit calls bare builtins ctx E)
        (λ s h.
          Makes-bind (after E s) (after_all (after E s)) (AllFit (after E s)) (after_all E)
            (AllFit E) _ _ (declares_n-Fit ctx (after E s) n)
            (λ rest k. Makes-pure _ (after_all E) (AllFit E) (next s rest) (h, k) (λ x l. l)))

  effects_n-Fit :
      (E : Env) (vars : List Var) (n : ℕ) → Seen E vars → Yields (AllFit E) (effects_n core n vars)
  unfolding effects_n StmtFit
  effects_n-Fit E vars zero seen = Yields-pure (AllFit E) stop tt
  effects_n-Fit E vars (suc n) seen =
      Yields-bind (StmtFit calls bare E) (AllFit E) _ _
        (side_effect-Fit calls bare builtins E vars seen)
        (λ s h. Yields-bind (AllFit E) (AllFit E) _ _ (effects_n-Fit E vars n seen) (λ rest k.
          Yields-pure (AllFit E) (next s rest)
            (h, StmtsFit-weaken calls bare E (after E s) rest (after-grows E s) k)))

  span_over-Fit :
      (E : Env) (vars : List Var) (pad : Stmts)
      → Seen E vars
      → AllFit E pad
      → Yields (StmtFit calls bare E) (span_over core pad vars)
  unfolding span_over spans StmtFit
  span_over-Fit E vars pad seen h = Yields-then (StmtFit calls bare E) _ _ (λ shape.
      All-get_or (Yields (StmtFit calls bare E)) (spans core pad vars) shape
        (counted_do_while (inflating core) pad)
        (counted_do_while-Fit calls bare builtins E vars seen (inflating core) pad h)
        (
          built-Fit calls bare builtins E vars 1 (StmtFit calls bare E) _ seen
              (λ test k. Yields-pure (StmtFit calls bare E) (if_then test (block pad)) (k, h)),
          (counted_loop-Fit calls bare builtins E vars seen (inflating core) pad h, tt),
        ))

  inflated_body-Fit :
      (E : Env) (statements : ℕ) (body : Stmts)
      → AllFit E body
      → Makes E (λ out. λ x. Unit) (Ends calls bare builtins E) (inflated_body core statements body)
  unfolding inflated_body StmtFit
  inflated_body-Fit E statements body h =
      Makes-bind E (after_all E) (AllFit E) (λ out. λ x. Unit) (Ends calls bare builtins E) _ _
        (declares_n-Fit (inflating core) E 3)
        (λ prologue k.
          let inner = after_all E prologue in
          Stays-bind inner (AllFit inner) (λ out. λ x. Unit) (Ends calls bare builtins E) _ _
            (Stays-scoped inner (AllFit inner) (effects_n core statements)
              (λ vars seen. effects_n-Fit inner vars statements seen))
            (λ pad l.
              Stays-bind inner (StmtFit calls bare inner) (λ out. λ x. Unit)
                (Ends calls bare builtins E) _ _
                (Stays-scoped inner (StmtFit calls bare inner) (span_over core pad)
                  (λ vars seen. span_over-Fit inner vars pad seen l))
                (λ span m.
                  let later = after inner span in
                  let whole = prologue then_all next span body in
                  Makes-weaken inner (λ out. after_all E whole) (λ out. λ x. Unit)
                    (Ends calls bare builtins E) (Ends calls bare builtins E) _ (λ out n. n)
                    (λ out n x o. tt)
                    (Makes-from inner (after_all E whole) (λ out. after_all E whole)
                      (Ends calls bare builtins E) _
                      (λ x o.
                        then_all-Within E prologue (next span body) x
                          (after_all-grows inner (next span body) x o))
                      (close_with_return-Fit calls bare builtins E whole (
                        StmtsFit-then_all calls bare E prologue (next span body) k (
                          m,
                          StmtsFit-weaken calls bare E later body
                              (λ x o. after-grows inner span x (after_all-grows E prologue x o)) h,
                        )))))))

-- A legal program, whose bodies are closed and have no bare `return`, is still so after it is padded out,
-- whatever the seed and the length of the padding.
pub inflate-LegalMutant :
    (core : Traversal Gen) (entry : GenProc) (others : List GenProc) (seed statements : ℕ)
    → LegalMutant (entry ∷ others)
    → LegalMutant (inflate core entry others seed statements).procs
unfolding inflate EachFrom arities_of
inflate-LegalMutant core entry others seed statements h =
    let arities = arities_of (entry ∷ others) in
    let made : Yields
        (Ends (CallsUp arities 0) (false ≡ true) (CallsUp-builtin arities 0) (arg_env entry.args))
        (in_scope (arg_vars entry.args) (inflated_body core statements entry.body)) =
      Yields-in_scope (arg_env entry.args) _ _ (arg_vars entry.args) _ (arg_vars-Seen entry.args) (
        inflated_body-Fit core (CallsUp arities 0) (false ≡ true) (CallsUp-builtin arities 0)
          (arg_env entry.args) statements entry.body h.0.0) in
    (made.answer (start core (record { procs = entry ∷ others }) seed), h.1)
