-- ===== src/Eval/Bounded.antt =====
-- Procedures of ast-eval.ts: the whole evaluator stays within its step limit, and never runs out of
-- fuel.
use mog_jit.Prelude.{
  ℕ, zero, suc, ◌+◌, ◌≤◌, ◌<◌, ◌≡◌, refl, ◌∙◌, ap, Bool, true, false, List, [], ◌∷◌, Option, none,
  some, arith, get_elem?,
}
use mog_jit.Prelude.Text.{Text}
use mog_jit.Prelude.Word.{IsWord, to_u32}
use mog_jit.Ast.{
  u32, Expr, Stmt, block, break_stmt, expression, return_stmt, declaration, if_then, if_else,
  while_stmt, do_while, for_stmt, switch, Stmts, stop, next, Cases, no_case, clause, GenProc,
}
use mog_jit.Eval.Scope.{Frame}
use mog_jit.Eval.Machine.{M, Res, ok, thrown, State, Extension, pure, ◌>>=◌, no_procedure}
use mog_jit.Eval.Stmts.{
  Flow, normal, broke, returned, value_of, holds, act, run, run_cases, bind_args, result_of,
  tail_frames, leave_proc, start_proc, run_proc,
}
use mog_jit.Eval.Typing.{Shape, IsScope, types, declare-IsScope}
use mog_jit.Eval.Ends.{Ends, Ends-weaken}
use mog_jit.Eval.Fine.{Keeps, Fine, Fine-fault}
use mog_jit.Eval.Pieces.{
  value_of-Still, Still-pure, Still-bind, Still-if, both, run_from-Still, holds-Still,
  holds_if_any-Still, perform-Still, declare_all-Steady, start_for-Steady, matching_at-Still,
  go_on-Steady, Acts, body_of-Still,
}
use mog_jit.Eval.Steady.{
  Still, Steady, Steady-of-Still, Steady-bind, Steady-pure, Steady-tick, Still-in_frame,
  Still-after_body, loop-Still, do_loop-Still,
}

module _ {S : Type 0} (max_steps : ℕ) (ext : Extension S) (rp : ℕ → List ℕ → M S ℕ) (fuel : ℕ)
    (proc_fine : (Γ : Shape) (start : ℕ) (i : ℕ) (vs : List ℕ)
      → max_steps < fuel + start
      → Fine {S = S} max_steps Γ start (rp i vs) IsWord) where
  value-Still :
      {A : Type 0} (e : Expr) (b : ℕ) (k : ℕ → M S A)
      → max_steps < suc fuel + b
      → ((v : ℕ) → Still max_steps b (k v))
      → Still max_steps b (value_of max_steps ext rp fuel e >>= k)
  value-Still e b k h hk =
      Still-bind max_steps ext rp fuel proc_fine b _ k
        (value_of-Still max_steps ext rp fuel proc_fine e b h) hk

  test-Still :
      (e : Expr) (b : ℕ) (k : Bool → M S Flow)
      → max_steps < suc fuel + b
      → ((t : Bool) → Still max_steps b (k t))
      → Still max_steps b (holds max_steps ext rp fuel e >>= k)
  test-Still e b k h hk =
      Still-bind max_steps ext rp fuel proc_fine b _ k
        (holds-Still max_steps ext rp fuel proc_fine e b h) hk

  flow-Still : (fl : Flow) (b : ℕ) → Still {S = S} max_steps b (pure fl)
  flow-Still fl b = Still-pure max_steps ext rp fuel proc_fine b fl

  alone :
      (b : ℕ) (m : M S Flow)
      → Still max_steps b m
      → ((Δ : Shape) → Steady max_steps Δ b m) × Still max_steps b m
  alone b m still = both max_steps ext rp fuel proc_fine b m still

  mutual
    unfolding act

    pub act-Acts :
        (s : Stmt) (b : ℕ)
        → max_steps < fuel + b
        → Acts max_steps ext rp fuel proc_fine s b (act max_steps ext rp fuel s)
    act-Acts (block l) b h =
        alone b _ (Still-in_frame max_steps b _ (λ Δ. run-Steady l Δ b (omega arith)))
    act-Acts break_stmt b h = alone b _ (flow-Still broke b)
    act-Acts (expression e) b h =
        alone b _ (value-Still e b _ (omega arith) (λ v. flow-Still normal b))
    act-Acts (return_stmt none) b h = alone b _ (flow-Still (returned 0) b)
    act-Acts (return_stmt (some e)) b h =
        alone b _ (value-Still e b _ (omega arith) (λ v. flow-Still (returned (to_u32 v)) b))
    act-Acts (declaration ds) b h = (
      λ Δ.
          Steady-bind max_steps Δ b _ _
            (declare_all-Steady max_steps ext rp fuel proc_fine Δ ds b (omega arith))
            (λ _. Steady-pure max_steps Δ b normal),
      tt,
    )
    act-Acts (if_then c s) b h =
        let body =
          body_of-Still max_steps ext rp fuel proc_fine s _ b (λ d q. act-Acts s d (omega arith)) in
        alone b _ (
          test-Still c b _ (omega arith)
            (λ t. Still-if max_steps ext rp fuel proc_fine b t _ _ body (flow-Still normal b)))
    act-Acts (if_else c s s') b h =
        let body =
          body_of-Still max_steps ext rp fuel proc_fine s _ b (λ d q. act-Acts s d (omega arith)) in
        let other =
          body_of-Still max_steps ext rp fuel proc_fine s' _ b
            (λ d q. act-Acts s' d (omega arith)) in
        alone b _ (
          test-Still c b _ (omega arith)
            (λ t. Still-if max_steps ext rp fuel proc_fine b t _ _ body other))
    act-Acts (while_stmt c s) b h = alone b _ (
        loop-Still max_steps fuel b _ _ _ h (λ d q. (
          holds-Still max_steps ext rp fuel proc_fine c d (omega arith),
          body_of-Still max_steps ext rp fuel proc_fine s _ d
              (λ d' q'. act-Acts s d' (omega arith)),
          Still-pure max_steps ext rp fuel proc_fine d tt,
        )))
    act-Acts (do_while s c) b h = alone b _ (
        do_loop-Still max_steps fuel b _ _ h (λ d q. (
          holds-Still max_steps ext rp fuel proc_fine c d (omega arith),
          body_of-Still max_steps ext rp fuel proc_fine s _ d
              (λ d' q'. act-Acts s d' (omega arith)),
        )))
    act-Acts (for_stmt i c u s) b h = alone b _ (
        Still-in_frame max_steps b _ (λ Δ'.
          Steady-bind max_steps Δ' b _ _
            (start_for-Steady max_steps ext rp fuel proc_fine Δ' i b (omega arith))
            (λ _. Steady-of-Still max_steps Δ' b _ (
              loop-Still max_steps fuel b _ _ _ h (λ d q. (
                holds_if_any-Still max_steps ext rp fuel proc_fine c d (omega arith),
                body_of-Still max_steps ext rp fuel proc_fine s _ d
                    (λ d' q'. act-Acts s d' (omega arith)),
                perform-Still max_steps ext rp fuel proc_fine u d (omega arith),
              ))))))
    act-Acts (switch e cs) b h = alone b _ (
        value-Still e b _ (omega arith) (λ d.
          Still-bind max_steps ext rp fuel proc_fine b _ _
            (matching_at-Still max_steps ext rp fuel proc_fine (to_u32 d) 0 cs b (omega arith))
            (λ o.
              run_from-Still max_steps ext rp fuel proc_fine b _ _
                (λ i. run_cases-Still i cs b (omega arith)))))

    pub run-Steady :
        (l : Stmts) (Δ : Shape) (b : ℕ)
        → max_steps < suc fuel + b
        → Steady max_steps Δ b (run max_steps ext rp fuel l)
    run-Steady stop Δ b h = Steady-pure max_steps Δ b normal
    run-Steady (next s l) Δ b h = Steady-tick max_steps Δ b _ (
        Steady-bind max_steps Δ (suc b) _ _ ((act-Acts s (suc b) (omega arith)).0 Δ) (λ fl.
          go_on-Steady max_steps ext rp fuel proc_fine Δ (suc b) fl _
            (run-Steady l Δ (suc b) (omega arith))))

    run_cases-Still :
        (i : ℕ) (cs : Cases) (b : ℕ)
        → max_steps < suc fuel + b
        → Still max_steps b (run_cases max_steps ext rp fuel i cs)
    run_cases-Still i no_case b h = flow-Still normal b
    run_cases-Still (suc i) (clause t l cs) b h = run_cases-Still i cs b h
    run_cases-Still zero (clause t l cs) b h =
        Still-bind max_steps ext rp fuel proc_fine b _ _
          (Still-in_frame max_steps b _ (λ Δ'. run-Steady l Δ' b h))
          (λ fl. Still-after_body max_steps b fl _ (run_cases-Still zero cs b h))

bind_args-IsScope :
    (xs : List Text) (vs : List ℕ) (fs : List Frame) → IsScope fs → IsScope (bind_args xs vs fs)
unfolding bind_args
bind_args-IsScope [] vs fs h = h
bind_args-IsScope (x ∷ xs) [] fs h = bind_args-IsScope xs [] _ (declare-IsScope x u32 0 fs h)
bind_args-IsScope (x ∷ xs) (v ∷ vs) fs h = bind_args-IsScope xs vs _ (declare-IsScope x u32 v fs h)

module _ {S : Type 0} (max_steps : ℕ) (ext : Extension S) (procs : List GenProc) where
  result_of-Ends :
      (start : ℕ) (entry : Bool) (fl : Flow) (st : State S)
      → start ≤ st.steps
      → st.steps ≤ max_steps
      → IsScope st.scopes
      → Ends max_steps start (λ v fs. IsWord v × (fs ≡ st.scopes)) (result_of entry fl st)
  result_of-Ends start entry (returned v) st b w s = (b, w, s, (omega arith, refl))
  result_of-Ends start true normal st b w s = w
  result_of-Ends start false normal st b w s = (b, w, s, (omega arith, refl))
  result_of-Ends start true broke st b w s = w
  result_of-Ends start false broke st b w s = (b, w, s, (omega arith, refl))

  leave_proc-Ends :
      (start : ℕ) (entry : Bool) (fs : List Frame) (Q : Flow → List Frame → Type 0) (r : Res S Flow)
      → IsScope fs
      → Ends max_steps start Q r
      → Ends max_steps start (λ v gs. IsWord v × (gs ≡ fs)) (leave_proc entry fs r)
  unfolding leave_proc
  leave_proc-Ends start entry fs Q (ok fl st) s h =
      result_of-Ends start entry fl (record st { scopes = fs }) h.0 h.1 s
  leave_proc-Ends start entry fs Q (thrown e st) s h = h

  start_proc-Fine :
      (Γ : Shape) (start : ℕ) (entry : Bool) (i : ℕ) (args : List ℕ) (body : Stmts → M S Flow)
      (o : Option GenProc)
      → ((l : Stmts) (Δ : Shape) → Steady max_steps Δ start (body l))
      → Fine max_steps Γ start (start_proc max_steps ext procs entry i args body o) IsWord
  start_proc-Fine Γ start entry i args body none h = Fine-fault max_steps Γ start _ (no_procedure i)
  start_proc-Fine Γ start entry i args body (some p) h = record {
    ends = λ st b w s t.
        let inner = bind_args p.args args ([] ∷ []) in
        Ends-weaken max_steps start (λ v fs. IsWord v × (fs ≡ st.scopes)) (Keeps Γ IsWord) _
          (λ v fs q. (q.0, ap types q.1 ∙ t))
          (leave_proc-Ends start entry st.scopes _ _ s (
            (h p.body (types (tail_frames inner))).ends (record st { scopes = inner }) b w
              (bind_args-IsScope p.args args ([] ∷ []) (tt, tt)) refl));
  }

  -- With fuel beyond the steps that are left, a procedure ends within the limit.
  pub run_proc-Fine :
      (f : ℕ) (entry : Bool) (Γ : Shape) (start i : ℕ) (args : List ℕ)
      → max_steps < f + start
      → Fine max_steps Γ start (run_proc max_steps ext procs f entry i args) IsWord
  unfolding run_proc
  run_proc-Fine zero entry Γ start i args h = record { ends = λ st b w s t. absurd (omega arith) }
  run_proc-Fine (suc f) entry Γ start i args h =
      start_proc-Fine Γ start entry i args _ (get_elem? procs i) (λ l Δ.
        run-Steady max_steps ext (run_proc max_steps ext procs f false) f
          (λ Γ' start' i' vs k. run_proc-Fine f false Γ' start' i' vs k) l Δ start h)
