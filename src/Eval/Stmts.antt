-- ===== src/Eval/Stmts.antt =====
-- ast-eval.ts: statements, procedures and `evaluate`. Loops and calls run on fuel; Eval.Bounded
-- shows that `max_steps + 1` is enough.
use mog_jit.Prelude.{
  ℕ, zero, suc, ◌+◌, Bool, true, false, not, List, [], ◌∷◌, Option, none, some, ◌==◌, if◌then◌else◌,
  get_elem?,
}
use mog_jit.Prelude.Text.{Text}
use mog_jit.Prelude.Word.{to_u32}
use mog_jit.Ast.{
  u32, Expr, Declarator, ForInit, no_init, declares, computes, Stmt, block, break_stmt, expression,
  return_stmt, declaration, if_then, if_else, while_stmt, do_while, for_stmt, switch, Stmts, stop,
  next, Cases, no_case, clause, GenProc, GenProgram,
}
use mog_jit.Eval.Scope.{Frame, declare}
use mog_jit.Eval.Machine.{
  State, Res, ok, thrown, M, ◌>>=◌, ◌>>◌, pure, throw, tick, Extension, trapped, unspecified,
  step_limit, fault, out_of_fuel, no_procedure, Reason, falls_off_end, Fault,
}
use mog_jit.Eval.Exprs.{eval}

pub data Flow : Type 0 where
  normal broke : Flow
  returned : ℕ → Flow

-- `new Scope(scope)` around a computation.
abbrev pub tail_frames : List Frame → List Frame
tail_frames [] = []
tail_frames (f ∷ fs) = fs

unfoldable pub leave_frame : {S A : Type 0} → Res S A → Res S A
leave_frame (ok a st) = ok a (record st { scopes = tail_frames st.scopes })
leave_frame (thrown e st) = thrown e st

abbrev pub in_frame : {S A : Type 0} → M S A → M S A
in_frame m st = leave_frame (m (record st { scopes = [] ∷ st.scopes }))

-- What a loop does with the flow of one round of its body.
abbrev pub after_body : {S : Type 0} → Flow → M S Flow → M S Flow
after_body normal again = again
after_body broke again = pure normal
after_body (returned v) again = pure (returned v)

-- What a statement list does with the flow of one statement.
abbrev pub go_on : {S : Type 0} → Flow → M S Flow → M S Flow
go_on normal rest = rest
go_on broke rest = pure broke
go_on (returned v) rest = pure (returned v)

module _ {S : Type 0} (max_steps : ℕ) where
  -- `for(;;)` of a `while` and of a `for`: test, body, update.
  unfoldable pub loop : ℕ → M S Bool → M S Flow → M S (Unit {0}) → M S Flow
  loop zero test body step = throw out_of_fuel
  loop (suc f) test body step =
      let again = loop f test body step in
      do
        tick max_steps
        passes ← test
        if passes then (do fl ← body; after_body fl (step >> again)) else pure normal

  -- `for(;;)` of a `do`: body, test.
  unfoldable pub do_loop : ℕ → M S Bool → M S Flow → M S Flow
  do_loop zero test body = throw out_of_fuel
  do_loop (suc f) test body =
      let again = do_loop f test body in
      do
        tick max_steps
        fl ← body
        after_body fl (do passes ← test; if passes then again else pure normal)

-- The position of the `default`.
unfoldable pub default_at : ℕ → Cases → Option ℕ
default_at i no_case = none
default_at i (clause none l cs) = some i
default_at i (clause (some e) l cs) = default_at (suc i) cs

-- The matching case, or else the default.
abbrev pub first_of_two : Option ℕ → Option ℕ → Option ℕ
first_of_two none o = o
first_of_two (some i) o = some i

abbrev pub run_from : {S : Type 0} → Option ℕ → (ℕ → M S Flow) → M S Flow
run_from none cases = pure normal
run_from (some i) cases = cases i

module _ {S : Type 0} (max_steps : ℕ) (ext : Extension S) (run_proc : ℕ → List ℕ → M S ℕ)
    (fuel : ℕ) where
  abbrev pub value_of : Expr → M S ℕ
  value_of e = do v ← eval max_steps ext run_proc e; pure v.value

  abbrev pub holds : Expr → M S Bool
  holds e = do v ← value_of e; pure (not (v == 0))

  -- An empty test of a `for` passes, and its empty update does nothing.
  abbrev pub holds_if_any : Option Expr → M S Bool
  holds_if_any none = pure true
  holds_if_any (some e) = holds e

  abbrev pub perform : Option Expr → M S (Unit {0})
  perform none = pure tt
  perform (some e) = value_of e >> pure tt

  abbrev pub initial : Option Expr → M S ℕ
  initial none = pure 0
  initial (some e) = value_of e

  unfoldable pub declare_all : List Declarator → M S (Unit {0})
  declare_all [] = pure tt
  declare_all (d ∷ ds) = do
    v ← initial d.init
    λ st. declare_all ds (record st { scopes = declare d.name d.var_type v st.scopes })

  -- The declaration of a `for` is run as a statement of its own.
  abbrev pub start_for : ForInit → M S (Unit {0})
  start_for no_init = pure tt
  start_for (declares ds) = tick max_steps >> declare_all ds
  start_for (computes e) = value_of e >> pure tt

  -- The first case whose test evaluates to the discriminant.
  unfoldable pub matching_at : ℕ → ℕ → Cases → M S (Option ℕ)
  matching_at d i no_case = pure none
  matching_at d i (clause none l cs) = matching_at d (suc i) cs
  matching_at d i (clause (some e) l cs) = do
    v ← value_of e
    if to_u32 v == d then pure (some i) else matching_at d (suc i) cs

  -- A control body from the act of its statement: a block has its own frame, and any other
  -- statement stands alone in one.
  abbrev pub body_of : Stmt → M S Flow → M S Flow
  body_of (block l) act = act
  body_of s act = in_frame (tick max_steps >> act)

  unfoldable mutual
    unfolding default_at

    -- `statement` after its tick.
    pub act : Stmt → M S Flow
    act (block l) = in_frame (run l)
    act break_stmt = pure broke
    act (expression e) = value_of e >> pure normal
    act (return_stmt none) = pure (returned 0)
    act (return_stmt (some e)) = do v ← value_of e; pure (returned (to_u32 v))
    act (declaration ds) = declare_all ds >> pure normal
    act (if_then c a) = do t ← holds c; if t then body_of a (act a) else pure normal
    act (if_else c a b) = do t ← holds c; if t then body_of a (act a) else body_of b (act b)
    act (while_stmt c b) = loop max_steps fuel (holds c) (body_of b (act b)) (pure tt)
    act (do_while b c) = do_loop max_steps fuel (holds c) (body_of b (act b))
    act (for_stmt i c u b) =
        in_frame
          (start_for i >> loop max_steps fuel (holds_if_any c) (body_of b (act b)) (perform u))
    act (switch e cs) = do
      d ← value_of e
      at ← matching_at (to_u32 d) 0 cs
      run_from (first_of_two at (default_at 0 cs)) (λ i. run_cases i cs)

    pub run : Stmts → M S Flow
    run stop = pure normal
    run (next s l) = do tick max_steps; fl ← act s; go_on fl (run l)

    -- From the clause at a position on, until one breaks or returns.
    pub run_cases : ℕ → Cases → M S Flow
    run_cases i no_case = pure normal
    run_cases (suc i) (clause t l cs) = run_cases i cs
    run_cases zero (clause t l cs) = do fl ← in_frame (run l); after_body fl (run_cases zero cs)

-- The arguments by name in a fresh scope; one that is missing is 0.
unfoldable pub bind_args : List Text → List ℕ → List Frame → List Frame
bind_args [] vs sc = sc
bind_args (x ∷ xs) [] sc = bind_args xs [] (declare x u32 0 sc)
bind_args (x ∷ xs) (v ∷ vs) sc = bind_args xs vs (declare x u32 v sc)

-- Only the entry's own fall-through is observed.
abbrev pub result_of : {S : Type 0} → Bool → Flow → M S ℕ
result_of entry (returned v) = pure (to_u32 v)
result_of true fl = throw (unspecified falls_off_end)
result_of false fl = pure 0

-- Back to the caller's scope.
unfoldable pub leave_proc : {S : Type 0} → Bool → List Frame → Res S Flow → Res S ℕ
leave_proc entry sc (ok fl st) = result_of entry fl (record st { scopes = sc })
leave_proc entry sc (thrown e st) = thrown e st

module _ {S : Type 0} (max_steps : ℕ) (ext : Extension S) (procs : List GenProc) where
  abbrev pub start_proc : Bool → ℕ → List ℕ → (Stmts → M S Flow) → Option GenProc → M S ℕ
  start_proc entry i args run_body none st = throw (fault (no_procedure i)) st
  start_proc entry i args run_body (some p) st =
      leave_proc entry st.scopes
        (run_body p.body (record st { scopes = bind_args p.args args ([] ∷ []) }))

  unfoldable pub run_proc : ℕ → Bool → ℕ → List ℕ → M S ℕ
  run_proc zero entry i args = throw out_of_fuel
  run_proc (suc f) entry i args =
      let callee = run_proc f false in
      start_proc entry i args (run max_steps ext callee f) (get_elem? procs i)

pub data Outcome : Type 0 where
  return : ℕ → Outcome
  trap : ℕ → Outcome
  unspecified_result : Reason → Outcome
  steplimit : Outcome
  -- An exception that `evaluate` passes on, and the model's own.
  rethrown : Fault → Outcome
  no_fuel : Outcome

abbrev pub outcome_of : {S : Type 0} → Res S ℕ → Outcome
outcome_of (ok v st) = return v
outcome_of (thrown (trapped c) st) = trap c
outcome_of (thrown (unspecified r) st) = unspecified_result r
outcome_of (thrown step_limit st) = steplimit
outcome_of (thrown (fault f) st) = rethrown f
outcome_of (thrown out_of_fuel st) = no_fuel

abbrev pub final_state : {S : Type 0} → Res S ℕ → State S
final_state (ok v st) = st
final_state (thrown e st) = st

-- `evaluate`: the outcome, the steps, and the store that the extension is left with.
unfoldable pub run_entry : {S : Type 0} → GenProgram → List ℕ → Extension S → ℕ → S → Res S ℕ
run_entry gen args ext max_steps store =
    run_proc max_steps ext gen.procs (max_steps + 1) true 0 args
      (record { scopes = []; steps = 0; store = store })

unfoldable pub evaluate : {S : Type 0} → GenProgram → List ℕ → Extension S → ℕ → S → Outcome × ℕ × S
unfolding run_entry
evaluate gen args ext max_steps store =
    let r = run_entry gen args ext max_steps store in
    (outcome_of r, (final_state r).steps, (final_state r).store)
