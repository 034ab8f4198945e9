-- ===== src/Eval/Typed.antt =====
-- `eval` of ast-eval.ts: every value has the static type of its expression and is one that the type
-- can hold.
use mog_jit.Prelude.{
  ℕ, suc, ◌+◌, ◌<◌, refl, sym, ap, Bool, true, false, List, [], some, arith, if◌then◌else◌, ◌==◌,
}
use mog_jit.Prelude.Text.{Text}
use mog_jit.Prelude.Word.{IsWord, to_u32}
use mog_jit.Ast.{
  PrimType, i32, Expr, literal, ident, cast, assignment, conditional, logical, binary, unary,
  update, call, Exprs, nil, cons, AssignOp, plain, compound, LogicalOp, and_also, or_else,
}
use mog_jit.Eval.Scope.{Slot}
use mog_jit.Eval.Machine.{M, Extension, update_of_non_variable, missing_argument}
use mog_jit.Eval.Ops.{Val, val, binary_op, type_of, find_slot}
use mog_jit.Eval.Exprs.{eval, eval_first, eval_all, assigned, updated, short_value, short_circuits}
use mog_jit.Eval.Typing.{Shape, IsStored, narrow-narrow}
use mog_jit.Eval.Fine.{
  Declares, HasType, Fine, Fine-bind, Fine-pure, Fine-fault, Fine-if, Fine-tick, Fine-find_slot,
  Fine-assign, Fine-static_type, Fine-weaken, Fine-any,
}
use mog_jit.Eval.OpsFine.{
  IsVal, IsVal-IsWord, literal-IsVal, flag-IsVal, unary_op-IsVal, unary_op-HasType, binary-HasType,
  Fine-binary_op, Fine-call_named,
}

-- What an expression evaluates to, in a scope of a shape.
abbrev pub IsTyped : Shape → Expr → Val → Type 0
IsTyped Γ e v = IsVal v × HasType Γ e v.type

short-IsVal : (op : LogicalOp) → IsVal (val (short_value op) i32)
short-IsVal and_also = (flag-IsVal true).0
short-IsVal or_else = (flag-IsVal false).0

pick-IsVal :
    (pre : Bool) (a b : ℕ) (t : PrimType)
    → IsVal (val a t)
    → IsVal (val b t)
    → IsVal (val (if pre then a else b) t)
pick-IsVal true a b t ha hb = ha
pick-IsVal false a b t ha hb = hb

module _ {S : Type 0} (max_steps : ℕ) (ext : Extension S) (rp : ℕ → List ℕ → M S ℕ) (fuel : ℕ)
    (Γ : Shape)
    (proc_fine : (start : ℕ) (i : ℕ) (vs : List ℕ)
      → max_steps < fuel + start
      → Fine {S = S} max_steps Γ start (rp i vs) IsWord) where
  Fine-assigned :
      (start : ℕ) (op : AssignOp) (s : Slot) (v : Val)
      → Fine {S = S} max_steps Γ start (assigned op s v) (λ _. Unit {0})
  unfolding assigned
  Fine-assigned start plain s v = Fine-pure max_steps Γ start _ v.value tt
  Fine-assigned start (compound op) s v =
      Fine-bind max_steps Γ start _ _ (binary_op op (val s.value s.type_of_slot) v) _
        (Fine-binary_op max_steps Γ start op _ v) (λ w h. Fine-pure max_steps Γ start _ w.value tt)

  abbrev IsSlot : Text → Slot → Type 0
  IsSlot x s = IsStored s × Declares Γ x s.type_of_slot

  mutual
    unfolding eval type_of

    pub eval-Fine :
        (e : Expr) (b : ℕ)
        → max_steps < suc fuel + b
        → Fine max_steps Γ b (eval max_steps ext rp e) (IsTyped Γ e)
    eval-Fine (literal v) b h =
        Fine-tick max_steps Γ b _ _
          (Fine-pure max_steps Γ (suc b) _ _ (literal-IsVal v, λ fs p. refl))
    eval-Fine (ident x) b h = Fine-tick max_steps Γ b _ _ (
        Fine-bind max_steps Γ (suc b) (IsSlot x) (IsTyped Γ (ident x)) (find_slot x) _
          (Fine-find_slot max_steps Γ (suc b) x) (λ s q. Fine-pure max_steps Γ (suc b) _ _ q))
    eval-Fine (cast t e) b h = Fine-tick max_steps Γ b _ _ (
        Fine-bind max_steps Γ (suc b) _ _ _ _ (eval-Fine e (suc b) (omega arith))
          (λ v q. Fine-pure max_steps Γ (suc b) _ _ (narrow-narrow v.value t, λ fs p. refl)))
    eval-Fine (assignment op x e) b h = Fine-tick max_steps Γ b _ _ (
        Fine-bind max_steps Γ (suc b) _ _ _ _ (Fine-find_slot max_steps Γ (suc b) x) (λ s₀ q₀.
          Fine-bind max_steps Γ (suc b) _ _ _ _ (eval-Fine e (suc b) (omega arith)) (λ right r.
            Fine-bind max_steps Γ (suc b) _ _ _ _ (Fine-find_slot max_steps Γ (suc b) x) (λ s q.
              Fine-bind max_steps Γ (suc b) _ _ _ _ (Fine-assigned (suc b) op s right) (λ v _.
                Fine-bind max_steps Γ (suc b) _ _ _ _
                  (Fine-assign max_steps Γ (suc b) x v s.type_of_slot q.1)
                  (λ stored k. Fine-pure max_steps Γ (suc b) _ _ (k, q.1)))))))
    eval-Fine (conditional c a a') b h = Fine-tick max_steps Γ b _ _ (
        Fine-bind max_steps Γ (suc b) _ _ _ _ (Fine-static_type max_steps Γ (suc b) c a a') (λ t q.
          Fine-bind max_steps Γ (suc b) _ _ _ _ (eval-Fine c (suc b) (omega arith)) (λ v _.
            Fine-bind max_steps Γ (suc b) (λ _. Unit {0}) _ _ _
              (Fine-if max_steps Γ (suc b) _ (v.value == 0) _ _
                (Fine-any max_steps Γ (suc b) _ _ (eval-Fine a' (suc b) (omega arith)))
                (Fine-any max_steps Γ (suc b) _ _ (eval-Fine a (suc b) (omega arith))))
              (λ w _.
                Fine-pure max_steps Γ (suc b) _ _ (q.0 (to_u32 w.value) (omega arith), q.1)))))
    eval-Fine (logical op l r) b h = Fine-tick max_steps Γ b _ _ (
        Fine-bind max_steps Γ (suc b) _ _ _ _ (eval-Fine l (suc b) (omega arith)) (λ v _.
          Fine-if max_steps Γ (suc b) _ (short_circuits op (to_u32 v.value)) _ _
            (Fine-pure max_steps Γ (suc b) _ _ (short-IsVal op, λ fs p. refl))
            (Fine-bind max_steps Γ (suc b) _ _ _ _ (eval-Fine r (suc b) (omega arith)) (λ w _.
              Fine-pure max_steps Γ (suc b) _ _ ((flag-IsVal (w.value == 0)).0, λ fs p. refl)))))
    eval-Fine (binary op l r) b h = Fine-tick max_steps Γ b _ _ (
        Fine-bind max_steps Γ (suc b) _ _ _ _ (eval-Fine l (suc b) (omega arith)) (λ v p.
          Fine-bind max_steps Γ (suc b) _ _ _ _ (eval-Fine r (suc b) (omega arith)) (λ w q.
            Fine-weaken max_steps Γ (suc b) _ _ _ (Fine-binary_op max_steps Γ (suc b) op v w)
              (λ z k. (k.0, rw k.1 (binary-HasType Γ op l r v.type w.type p.1 q.1))))))
    eval-Fine (unary op e) b h = Fine-tick max_steps Γ b _ _ (
        Fine-bind max_steps Γ (suc b) _ _ _ _ (eval-Fine e (suc b) (omega arith)) (λ v q.
          Fine-pure max_steps Γ (suc b) _ _
            (unary_op-IsVal op v (IsVal-IsWord v q.0), unary_op-HasType Γ op e v q.1)))
    eval-Fine (update op pre (ident x)) b h = Fine-tick max_steps Γ b _ _ (
        Fine-bind max_steps Γ (suc b) _ _ _ _ (Fine-find_slot max_steps Γ (suc b) x) (λ s q.
          Fine-bind max_steps Γ (suc b) _ _ _ _
            (Fine-assign max_steps Γ (suc b) x (updated op s.value) s.type_of_slot q.1)
            (λ after k. Fine-pure max_steps Γ (suc b) _ _ (pick-IsVal pre _ _ _ k q.0, q.1))))
    eval-Fine (update op pre e) b h =
        Fine-tick max_steps Γ b _ _ (Fine-fault max_steps Γ (suc b) _ update_of_non_variable)
    eval-Fine (call f args) b h = Fine-tick max_steps Γ b _ _ (
        Fine-weaken max_steps Γ (suc b) _ _ _
          (Fine-call_named max_steps Γ (suc b) _ _ ext rp f _ _
            (eval_first-Fine args (suc b) (omega arith)) (eval_all-Fine args (suc b) (omega arith))
            (λ i vs _. proc_fine (suc b) i vs (omega arith)))
          (λ v k. (k.0, λ fs p. ap some (sym k.1))))

    eval_first-Fine :
        (es : Exprs) (b : ℕ)
        → max_steps < suc fuel + b
        → Fine max_steps Γ b (eval_first max_steps ext rp es) (λ _. Unit {0})
    eval_first-Fine nil b h =
        Fine-tick max_steps Γ b _ _ (Fine-fault max_steps Γ (suc b) _ missing_argument)
    eval_first-Fine (cons e es) b h = Fine-any max_steps Γ b _ _ (eval-Fine e b h)

    eval_all-Fine :
        (es : Exprs) (b : ℕ)
        → max_steps < suc fuel + b
        → Fine max_steps Γ b (eval_all max_steps ext rp es) (λ _. Unit {0})
    eval_all-Fine nil b h = Fine-pure max_steps Γ b _ [] tt
    eval_all-Fine (cons e es) b h = Fine-bind max_steps Γ b _ _ _ _ (eval-Fine e b h) (λ v _.
        Fine-bind max_steps Γ b _ _ _ _ (eval_all-Fine es b h)
          (λ vs _. Fine-pure max_steps Γ b _ _ tt))
