-- ===== src/Eval/Exprs.antt =====
-- ast-eval.ts, `eval`. `runProc` is a parameter here; Eval.Stmts closes the loop.
use mog_jit.Prelude.{ℕ, ◌+◌, ◌-◌, ◌^◌, Bool, not, List, [], ◌∷◌, ◌==◌, if◌then◌else◌}
use mog_jit.Prelude.Word.{to_u32, sub32, not32}
use mog_jit.Ast.{
  i32, LogicalOp, and_also, or_else, UnaryOp, minus, complement, bang, plus, UpdateOp, increment,
  decrement, AssignOp, plain, compound, Expr, literal, ident, cast, assignment, conditional,
  logical, binary, unary, update, call, Exprs, nil, cons,
}
use mog_jit.Eval.Types.{promote, narrow, literal_type}
use mog_jit.Eval.Scope.{Slot}
use mog_jit.Eval.Machine.{
  M, ◌>>=◌, ◌>>◌, pure, throw, tick, Extension, fault, update_of_non_variable, missing_argument,
}
use mog_jit.Eval.Ops.{Val, val, binary_op, static_type, find_slot, assign, call_named}

abbrev pub unary_op : UnaryOp → Val → Val
unary_op minus v = val (sub32 0 v.value) (promote v.type)
unary_op complement v = val (not32 v.value) (promote v.type)
unary_op bang v = val (if v.value == 0 then 1 else 0) i32
unary_op plus v = val (to_u32 v.value) (promote v.type)

-- `before + 1`, and `before - 1` as a number that is the same modulo 2 ^ 32, which is all that
-- `narrow` reads of it.
abbrev pub updated : UpdateOp → ℕ → ℕ
updated increment before = before + 1
updated decrement before = before + (2 ^ 32 - 1)

-- Does `&&` or `||` stop after its left operand?
abbrev pub short_circuits : LogicalOp → ℕ → Bool
short_circuits and_also left = left == 0
short_circuits or_else left = not (left == 0)

abbrev pub short_value : LogicalOp → ℕ
short_value and_also = 0
short_value or_else = 1

-- What is stored by an assignment, from the slot as it is after the right side has run.
module _ {S : Type 0} where
  unfoldable pub assigned : AssignOp → Slot → Val → M S ℕ
  assigned plain s right = pure right.value
  assigned (compound op) s right = do
    v ← binary_op op (val s.value s.type_of_slot) right
    pure v.value

module _ {S : Type 0} (max_steps : ℕ) (ext : Extension S) (run_proc : ℕ → List ℕ → M S ℕ) where
  unfoldable mutual
    pub eval : Expr → M S Val
    eval (literal v) = tick max_steps >> pure (val (to_u32 v) (literal_type v))
    eval (ident x) = do tick max_steps; s ← find_slot x; pure (val s.value s.type_of_slot)
    eval (cast t e) = do tick max_steps; v ← eval e; pure (val (narrow v.value t) t)
    eval (unary op e) = do tick max_steps; v ← eval e; pure (unary_op op v)
    eval (binary op l r) = do tick max_steps; a ← eval l; b ← eval r; binary_op op a b
    eval (logical op l r) = do
      tick max_steps
      a ← eval l
      if short_circuits op (to_u32 a.value)
          then pure (val (short_value op) i32)
          else (do b ← eval r; pure (val (if b.value == 0 then 0 else 1) i32))
    eval (conditional c a b) = do
      tick max_steps
      t ← static_type a b
      v ← eval c
      w ← (if v.value == 0 then eval b else eval a)
      pure (val (to_u32 w.value) t)
    eval (assignment op x e) = do
      tick max_steps
      find_slot x
      right ← eval e
      s ← find_slot x
      v ← assigned op s right
      stored ← assign x v
      pure (val stored s.type_of_slot)
    eval (update op pre (ident x)) = do
      tick max_steps
      s ← find_slot x
      after ← assign x (updated op s.value)
      pure (val (if pre then after else s.value) s.type_of_slot)
    eval (update op pre e) = tick max_steps >> throw (fault update_of_non_variable)
    eval (call f args) = do
      tick max_steps
      call_named ext run_proc f (eval_first args) (eval_all args)

    -- `args[0]`, evaluated alone; without one, `eval` of `undefined` ticks and then throws.
    pub eval_first : Exprs → M S Val
    eval_first nil = tick max_steps >> throw (fault missing_argument)
    eval_first (cons e es) = eval e

    -- Every argument, left to right, as words.
    pub eval_all : Exprs → M S (List ℕ)
    eval_all nil = pure []
    eval_all (cons e es) = do v ← eval e; vs ← eval_all es; pure (to_u32 v.value ∷ vs)
