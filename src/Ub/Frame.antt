-- ===== src/Ub/Frame.antt =====
-- ub.ts against ast-eval.ts: evaluating an expression leaves the variables outside its writes alone.
use mog_jit.Prelude.{
  ℕ, zero, suc, ◌≡◌, refl, subst, Bool, true, false, List, [], ◌∷◌, Option, none, some, get_elem?,
  get_or, ◌==◌,
}
use mog_jit.Prelude.Text.{Text, text_eq, codes}
use mog_jit.Prelude.Word.{to_u32}
use mog_jit.Ast.{
  u32, Expr, literal, ident, cast, assignment, conditional, logical, binary, unary, update, call,
  Exprs, nil, cons, GenProc, Stmts,
}
use mog_jit.Eval.Scope.{Frame, lookup}
use mog_jit.Eval.Machine.{M, Res, ok, thrown, State, pure, tick, ◌>>=◌, ◌>>◌, Extension}
use mog_jit.Eval.Ops.{
  Val, val, find_slot, call_named, call_proc, proc_index, one_of, stack_ops, load_ops, store_ops,
}
use mog_jit.Eval.Exprs.{eval, eval_first, eval_all, short_circuits}
use mog_jit.Eval.Stmts.{run, run_proc, start_proc, leave_proc, Flow, normal, broke, returned}
use mog_jit.Ub.{Effects, Summaries, analyze_expr}
use mog_jit.Ub.Writes.{Avoids, AvoidsAll, analyze_expr-Avoids}
use mog_jit.Ub.Leaves.{
  Unchanged, Leaves, Leaves-bind, Leaves-pure, Leaves-throw, Leaves-if, Leaves-tick,
  Leaves-find_slot, Leaves-static_type, Leaves-binary_op, Leaves-assigned, Leaves-run_ext,
  Leaves-assign,
}

module _ {S : Type 0} (x : Text) (ext : Extension S) (rp : ℕ → List ℕ → M S ℕ)
    (calls : (i : ℕ) (vs : List ℕ) → Leaves x (rp i vs)) where
  -- A builtin's or a procedure's answer as a word.
  answer-Leaves : (m : M S ℕ) → Leaves x m → Leaves x (do r ← m; pure (val (to_u32 r) u32))
  answer-Leaves m h = Leaves-bind x m _ h (λ r. Leaves-pure x _)

  call_proc-Leaves :
      (name : Text) (every : M S (List ℕ)) (i : Option ℕ)
      → Leaves x every
      → Leaves x (call_proc ext rp name every i)
  call_proc-Leaves name every none h = Leaves-throw x _
  call_proc-Leaves name every (some i) h =
      Leaves-bind x every _ h (λ vs. answer-Leaves (rp i vs) (calls i vs))

  call_named-Leaves :
      (name : Text) (first : M S Val) (every : M S (List ℕ))
      → Leaves x first
      → Leaves x every
      → Leaves x (call_named ext rp name first every)
  unfolding call_named
  call_named-Leaves name first every h k =
      Leaves-if x (text_eq name (codes "trap")) _ _
        (Leaves-bind x first _ h (λ v. Leaves-throw x _))
        (Leaves-if x (text_eq name (codes "clz")) _ _
          (Leaves-bind x first _ h (λ v. Leaves-pure x _))
          (Leaves-if x (text_eq name (codes "revbits")) _ _
            (Leaves-bind x first _ h (λ v. Leaves-pure x _))
            (Leaves-if x (one_of name stack_ops) _ _
              (Leaves-bind x every _ k (λ vs. answer-Leaves _ (Leaves-run_ext x ext name vs 0)))
              (Leaves-if x (one_of name load_ops) _ _
                (Leaves-bind x every _ k
                  (λ vs. answer-Leaves _ (Leaves-run_ext x ext name [] (get_or vs 0 0))))
                (Leaves-if x (one_of name store_ops) _ _
                  (Leaves-bind x every _ k (λ vs.
                    answer-Leaves _
                      (Leaves-run_ext x ext name (get_or vs 0 0 ∷ []) (get_or vs 1 0))))
                  (call_proc-Leaves name every (proc_index name) k))))))

  module _ (max_steps : ℕ) where
    after_tick : {A : Type 0} (m : M S A) → Leaves x m → Leaves x (tick max_steps >> m)
    after_tick m h = Leaves-bind x (tick max_steps) _ (Leaves-tick x max_steps) (λ _. h)

    mutual
      unfolding eval Avoids

      pub eval-Leaves : (e : Expr) → Avoids x e → Leaves x (eval max_steps ext rp e)
      eval-Leaves (literal v) h = after_tick _ (Leaves-pure x _)
      eval-Leaves (ident y) h =
          after_tick _ (Leaves-bind x (find_slot y) _ (Leaves-find_slot x y) (λ s. Leaves-pure x _))
      eval-Leaves (cast t e) h =
          after_tick _ (Leaves-bind x _ _ (eval-Leaves e h) (λ v. Leaves-pure x _))
      eval-Leaves (unary op e) h =
          after_tick _ (Leaves-bind x _ _ (eval-Leaves e h) (λ v. Leaves-pure x _))
      eval-Leaves (binary op l r) h = after_tick _ (
          Leaves-bind x _ _ (eval-Leaves l h.0)
            (λ a. Leaves-bind x _ _ (eval-Leaves r h.1) (λ b. Leaves-binary_op x op a b)))
      eval-Leaves (logical op l r) h = after_tick _ (
          Leaves-bind x _ _ (eval-Leaves l h.0) (λ a.
            Leaves-if x (short_circuits op (to_u32 a.value)) _ _ (Leaves-pure x _)
              (Leaves-bind x _ _ (eval-Leaves r h.1) (λ b. Leaves-pure x _))))
      eval-Leaves (conditional c a b) h = after_tick _ (
          Leaves-bind x _ _ (Leaves-static_type x a b) (λ t.
            Leaves-bind x _ _ (eval-Leaves c h.0) (λ v.
              Leaves-bind x _ _
                (Leaves-if x (v.value == 0) _ _ (eval-Leaves b h.2) (eval-Leaves a h.1))
                (λ w. Leaves-pure x _))))
      eval-Leaves (assignment op y e) h = after_tick _ (
          Leaves-bind x _ _ (Leaves-find_slot x y) (λ _.
            Leaves-bind x _ _ (eval-Leaves e h.1) (λ right.
              Leaves-bind x _ _ (Leaves-find_slot x y) (λ s.
                Leaves-bind x _ _ (Leaves-assigned x op s right)
                  (λ v. Leaves-bind x _ _ (Leaves-assign x y v h.0) (λ stored. Leaves-pure x _))))))
      eval-Leaves (update op pre (ident y)) h = after_tick _ (
          Leaves-bind x _ _ (Leaves-find_slot x y)
            (λ s. Leaves-bind x _ _ (Leaves-assign x y _ h.0) (λ after. Leaves-pure x _)))
      eval-Leaves (update op pre e) h = after_tick _ (Leaves-throw x _)
      eval-Leaves (call f args) h =
          after_tick _ (call_named-Leaves f _ _ (eval_first-Leaves args h) (eval_all-Leaves args h))

      pub eval_first-Leaves :
          (es : Exprs) → AvoidsAll x es → Leaves x (eval_first max_steps ext rp es)
      eval_first-Leaves nil h = after_tick _ (Leaves-throw x _)
      eval_first-Leaves (cons e es) h = eval-Leaves e h.0

      pub eval_all-Leaves : (es : Exprs) → AvoidsAll x es → Leaves x (eval_all max_steps ext rp es)
      eval_all-Leaves nil h = Leaves-pure x _
      eval_all-Leaves (cons e es) h =
          Leaves-bind x _ _ (eval-Leaves e h.0)
            (λ v. Leaves-bind x _ _ (eval_all-Leaves es h.1) (λ vs. Leaves-pure x _))

leave_proc-Unchanged :
    {S : Type 0} (x : Text) (entry : Bool) (fs : List Frame) (r : Res S Flow)
    → Unchanged x fs (leave_proc entry fs r)
unfolding leave_proc
leave_proc-Unchanged x entry fs (ok (returned v) st) = refl
leave_proc-Unchanged x true fs (ok normal st) = tt
leave_proc-Unchanged x true fs (ok broke st) = tt
leave_proc-Unchanged x false fs (ok normal st) = refl
leave_proc-Unchanged x false fs (ok broke st) = refl
leave_proc-Unchanged x entry fs (thrown e st) = tt

module _ {S : Type 0} (x : Text) (max_steps : ℕ) (ext : Extension S) (procs : List GenProc) where
  start_proc-Leaves :
      (entry : Bool) (i : ℕ) (args : List ℕ) (body : Stmts → M S Flow) (p : Option GenProc)
      → Leaves x (start_proc max_steps ext procs entry i args body p)
  start_proc-Leaves entry i args body none = record { keeps = λ st. tt }
  start_proc-Leaves entry i args body (some p) = record {
    keeps = λ st. leave_proc-Unchanged x entry st.scopes _;
  }

  -- A call comes back to the caller's scope.
  run_proc-Leaves :
      (fuel : ℕ) (entry : Bool) (i : ℕ) (args : List ℕ)
      → Leaves x (run_proc max_steps ext procs fuel entry i args)
  unfolding run_proc
  run_proc-Leaves zero entry i args = Leaves-throw x _
  run_proc-Leaves (suc fuel) entry i args =
      start_proc-Leaves entry i args
        (run max_steps ext (run_proc max_steps ext procs fuel false) fuel) (get_elem? procs i)

-- Inside a running program, let an expression pass the filter with some effects, whatever is known
-- of the procedures that it calls, and let its evaluation yield a value. A variable that is not
-- among the effects' writes is then found afterwards exactly as before: declared or not, with the
-- same type and the same value.
pub eval-writes :
    {S : Type 0} (max_steps : ℕ) (ext : Extension S) (procs : List GenProc) (fuel : ℕ)
    (summaries : Summaries) (x : Text) (e : Expr) (out : Effects) (st st' : State S) (v : Val)
    → analyze_expr summaries e ≡ some out
    → one_of x out.writes ≡ false
    → eval max_steps ext (run_proc max_steps ext procs fuel false) e st ≡ ok v st'
    → lookup x st'.scopes ≡ lookup x st.scopes
eval-writes max_steps ext procs fuel summaries x e out st st' v h k r =
    let avoids = analyze_expr-Avoids summaries x e out h k in
    let rp = run_proc max_steps ext procs fuel false in
    let leaves =
      eval-Leaves x ext rp (run_proc-Leaves x max_steps ext procs fuel false) max_steps e avoids in
    subst (Unchanged x st.scopes) r (leaves.keeps st)
