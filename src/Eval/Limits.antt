-- ===== src/Eval/Limits.antt =====
-- `evaluate` of ast-eval.ts as a whole: it terminates, keeps its step limit, and its values are
-- words of their types.
use mog_jit.Prelude.{
  ℕ, suc, ◌+◌, ◌≤◌, ◌<◌, ◌≡◌, ◌≢◌, ◌↔◌, ◌⊎◌, inl, inr, refl, false, true, List, [], some, subst,
  arith,
}
use mog_jit.Prelude.Word.{IsWord}
use mog_jit.Ast.{Expr, Stmt, declaration, Declarator, GenProc, GenProgram}
use mog_jit.Eval.Types.{narrow}
use mog_jit.Eval.Machine.{
  trapped, unspecified, step_limit, fault, out_of_fuel, Res, ok, thrown, State, Extension, M,
}
use mog_jit.Eval.Ops.{Val, type_of}
use mog_jit.Eval.Exprs.{eval}
use mog_jit.Eval.Stmts.{
  Flow, act, tail_frames, run_proc, evaluate, outcome_of, final_state, Outcome, return, steplimit,
  no_fuel,
}
use mog_jit.Eval.Typing.{Shape, IsScope, types}
use mog_jit.Eval.Ends.{Ends}
use mog_jit.Eval.Fine.{Keeps, Fine}
use mog_jit.Eval.Typed.{IsTyped, eval-Fine}
use mog_jit.Eval.Bounded.{run_proc-Fine, act-Acts}
use mog_jit.Eval.Pieces.{Acts}

-- What an outcome says of the steps.
abbrev Within : ℕ → Outcome → ℕ → Type 0
Within max_steps (return v) n = IsWord v × (n ≤ max_steps)
Within max_steps steplimit n = n ≡ suc max_steps
Within max_steps no_fuel n = ⊥
Within max_steps _ n = n ≤ max_steps

Ends-Within :
    {S : Type 0} (max_steps : ℕ) (Q : ℕ → Type 0) (r : Res S ℕ)
    → ((v : ℕ) → Q v → IsWord v)
    → Ends max_steps 0 (Keeps [] Q) r
    → Within max_steps (outcome_of r) (final_state r).steps
Ends-Within max_steps Q (ok v st) w h = (w v h.3.0, h.1)
Ends-Within max_steps Q (thrown (trapped c) st) w h = h
Ends-Within max_steps Q (thrown (unspecified r) st) w h = h
Ends-Within max_steps Q (thrown step_limit st) w h = h
Ends-Within max_steps Q (thrown (fault f) st) w h = h
Ends-Within max_steps Q (thrown out_of_fuel st) w h = h

module _ {S : Type 0} (gen : GenProgram) (args : List ℕ) (ext : Extension S) (max_steps : ℕ)
    (store : S) where
  evaluate-Within :
      Within max_steps
        (evaluate gen args ext max_steps store).0
        (evaluate gen args ext max_steps store).1
  unfolding evaluate
  evaluate-Within =
      Ends-Within max_steps IsWord _ (λ v h. h)
        ((run_proc-Fine max_steps ext gen.procs (max_steps + 1) true [] 0 0 args (omega arith)).ends
          (record { scopes = []; steps = 0; store = store }) (omega arith) (omega arith) tt refl)

Within-ne-no_fuel : (max_steps : ℕ) (o : Outcome) (n : ℕ) → Within max_steps o n → o ≢ no_fuel
Within-ne-no_fuel max_steps no_fuel n w e = w
Within-ne-no_fuel max_steps _ n w e = cc

Within-steps :
    (max_steps : ℕ) (o : Outcome) (n : ℕ)
    → Within max_steps o n
    → (n ≤ suc max_steps) × ((o ≡ steplimit) ↔ (n ≡ suc max_steps))
Within-steps max_steps o n w = ground arith

-- For every program, arguments, extension and step limit, the evaluation ends with an outcome of
-- its own: the fuel of `max_steps + 1` for nested calls and for the rounds of a loop never runs out.
pub evaluate-ne-no_fuel :
    {S : Type 0} (gen : GenProgram) (args : List ℕ) (ext : Extension S) (max_steps : ℕ) (store : S)
    → (evaluate gen args ext max_steps store).0 ≢ no_fuel
evaluate-ne-no_fuel gen args ext max_steps store =
    Within-ne-no_fuel max_steps _ _ (evaluate-Within gen args ext max_steps store)

-- The reported steps exceed the limit by at most one, and they do so exactly if the outcome is the
-- step limit.
pub evaluate_steps :
    {S : Type 0} (gen : GenProgram) (args : List ℕ) (ext : Extension S) (max_steps : ℕ) (store : S)
    → ((evaluate gen args ext max_steps store).1 ≤ suc max_steps)
      × (((evaluate gen args ext max_steps store).0 ≡ steplimit)
          ↔ ((evaluate gen args ext max_steps store).1 ≡ suc max_steps))
evaluate_steps gen args ext max_steps store =
    Within-steps max_steps _ _ (evaluate-Within gen args ext max_steps store)

-- Only a declaration may have changed the innermost frame's shape.
of_Acts :
    {S : Type 0} (max_steps : ℕ) (ext : Extension S) (rp : ℕ → List ℕ → M S ℕ) (fuel : ℕ)
    (proc_fine : (Γ : Shape) (start : ℕ) (i : ℕ) (vs : List ℕ)
      → max_steps < fuel + start
      → Fine {S = S} max_steps Γ start (rp i vs) IsWord)
    (s : Stmt) (m : M S Flow) (st st' : State S) (fl : Flow)
    → Acts max_steps ext rp fuel proc_fine s st.steps m
    → IsScope st.scopes
    → st.steps ≤ max_steps
    → m st ≡ ok fl st'
    → ((ds : List Declarator) × (s ≡ declaration ds)) ⊎ (types st'.scopes ≡ types st.scopes)
of_Acts max_steps ext rp fuel proc_fine (declaration ds) m st st' fl a sc w h = inl (ds, refl)
of_Acts max_steps ext rp fuel proc_fine s m st st' fl a sc w h =
    let Γ = types st.scopes in
    let ends = (a.1 Γ).ends st (omega arith) w sc refl in
    inr (subst (Ends max_steps st.steps (Keeps Γ (λ _. Unit {0}))) h ends).3.1

module _ {S : Type 0} (max_steps : ℕ) (ext : Extension S) (procs : List GenProc) (fuel : ℕ) where
  -- Inside a running program, an expression that yields a value yields one of the type that
  -- `typeOf` gives it beforehand, and one that this type can hold. Afterwards the same variables
  -- are declared with the same types, and each still holds a value of its type. Conditions: this
  -- held of the variables before, the step limit was not passed, and the fuel exceeds the steps
  -- that are left.
  pub eval-IsTyped :
      (e : Expr) (st st' : State S) (v : Val)
      → IsScope st.scopes
      → st.steps ≤ max_steps
      → max_steps < suc fuel + st.steps
      → eval max_steps ext (run_proc max_steps ext procs fuel false) e st ≡ ok v st'
      → (type_of e st.scopes ≡ some v.type)
        × (narrow v.value v.type ≡ v.value)
        × (types st'.scopes ≡ types st.scopes)
        × IsScope st'.scopes
  eval-IsTyped e st st' v s w f h =
      let Γ = types st.scopes in
      let ends =
        (eval-Fine max_steps ext (run_proc max_steps ext procs fuel false) fuel Γ
            (λ start i vs k. run_proc-Fine max_steps ext procs fuel false Γ start i vs k) e st.steps
            f).ends
          st (omega arith) w s refl in
      let at = subst (Ends max_steps st.steps (Keeps Γ (IsTyped Γ e))) h ends in
      (at.3.0.1 st.scopes refl, at.3.0.0, at.3.1, at.2)

  -- Inside a running program, a statement that ends normally, by `break` or by `return`, unless it
  -- is a declaration, leaves the same variables with the same types in every scope; a declaration
  -- does so in the scopes around its own. After either, every variable holds a value of its type,
  -- and the steps have not gone down or passed the limit. Conditions: every variable held a value of
  -- its type before, the step limit was not passed, and the fuel exceeds the steps that are left.
  pub act-types :
      (s : Stmt) (st st' : State S) (fl : Flow)
      → IsScope st.scopes
      → st.steps ≤ max_steps
      → max_steps < fuel + st.steps
      → act max_steps ext (run_proc max_steps ext procs fuel false) fuel s st ≡ ok fl st'
      → (types (tail_frames st'.scopes) ≡ types (tail_frames st.scopes))
        × (((ds : List Declarator) × (s ≡ declaration ds)) ⊎ (types st'.scopes ≡ types st.scopes))
        × IsScope st'.scopes
        × (st.steps ≤ st'.steps)
        × (st'.steps ≤ max_steps)
  act-types s st st' fl sc w f h =
      let Δ = types (tail_frames st.scopes) in
      let rp = run_proc max_steps ext procs fuel false in
      let fine = λ (Γ : Shape) (start i : ℕ) (vs : List ℕ) (k : max_steps < fuel + start).
        run_proc-Fine max_steps ext procs fuel false Γ start i vs k in
      let acts = act-Acts max_steps ext rp fuel fine s st.steps f in
      let ends = (acts.0 Δ).ends st (omega arith) w sc refl in
      let at = subst (Ends max_steps st.steps (λ a fs. types (tail_frames fs) ≡ Δ)) h ends in
      let whole = of_Acts max_steps ext rp fuel fine s _ st st' fl acts sc w h in
      (at.3, whole, at.2, at.0, at.1)
