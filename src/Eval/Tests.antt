-- ===== src/Eval/Tests.antt =====
-- Runs of the evaluator on small programs.
use mog_jit.Prelude.{ℕ, ◌≤◌, [], ◌∷◌, some, ◌≡◌, ◌≢◌, ◌↔◌, ◌⊎◌, List, refl, false, arith}
use mog_jit.Prelude.Text.{codes, text_eq}
use mog_jit.Ast.{
  u8, add, mul, lt, compound, Expr, literal, ident, assignment, binary, call, nil, cons, block,
  Stmt, Declarator, expression, return_stmt, declaration, while_stmt, stop, next, GenProc,
  GenProgram,
}
use mog_jit.Eval.Types.{narrow, literal_type, promote, usual}
use mog_jit.Eval.Scope.{declare, put, get, lookup, store_in}
use mog_jit.Eval.Machine.{Extension, done, State, ok, tick, and_then}
use mog_jit.Eval.Ops.{
  val, type_of, find_slot, assign, binary_op, arithmetic, is_signed, binary_type, call_named,
  one_of, proc_index,
}
use mog_jit.Eval.Exprs.{eval, assigned}
use mog_jit.Eval.Stmts.{
  return, steplimit, no_fuel, evaluate, run_proc, act, loop, leave_frame, leave_proc, declare_all,
  bind_args, tail_frames, normal,
}
use mog_jit.Eval.Typing.{IsScope, types}
use mog_jit.Eval.Limits.{evaluate-ne-no_fuel, evaluate_steps, eval-IsTyped, act-types}

abbrev x : Expr
x = ident (codes "x")

-- u8 x = a + 1; while (x < 5) { x += 2; } return p1(x);
abbrev entry : GenProc
entry = record {
  args = codes "a" ∷ [];
  body =
      next
        (declaration (
          record {
            name = codes "x";
            var_type = u8;
            init = some (binary add (ident (codes "a")) (literal 1));
          }
          ∷ []))
        (next
          (while_stmt (binary lt x (literal 5))
            (block (next (expression (assignment (compound add) (codes "x") (literal 2))) stop)))
          (next (return_stmt (some (call (codes "p1") (cons x nil)))) stop));
}

-- return y * 3;
abbrev triple : GenProc
triple = record {
  args = codes "y" ∷ [];
  body = next (return_stmt (some (binary mul (ident (codes "y")) (literal 3)))) stop;
}

abbrev program : GenProgram
program = record { procs = entry ∷ triple ∷ [] }

abbrev no_ops : Extension ℕ
no_ops = record { exec = λ name s cells acc. done s cells acc }

-- 1 + (1 < 5) + (3 < 5) + (5 < 5) rounds: the run takes 30 steps.
program_runs : evaluate program (0 ∷ []) no_ops 200 7 ≡ (return 15, 30, 7)
unfolding evaluate and_then run_proc act eval tick loop leave_frame leave_proc declare_all declare
    put get lookup store_in find_slot assign assigned narrow literal_type binary_op arithmetic
    is_signed binary_type call_named bind_args text_eq one_of proc_index promote usual
program_runs = refl

-- One step less than it needs.
program_stops : evaluate program (0 ∷ []) no_ops 29 7 ≡ (steplimit, 30, 7)
unfolding evaluate and_then run_proc act eval tick loop leave_frame leave_proc declare_all declare
    put get lookup store_in find_slot assign assigned narrow literal_type binary_op arithmetic
    is_signed binary_type call_named bind_args text_eq one_of proc_index promote usual
program_stops = refl

evaluate-ne-no_fuel_example : (evaluate program (0 ∷ []) no_ops 29 7).0 ≢ no_fuel
evaluate-ne-no_fuel_example = evaluate-ne-no_fuel program (0 ∷ []) no_ops 29 7

evaluate_steps_example :
    ((evaluate program (0 ∷ []) no_ops 29 7).1 ≤ 30)
    × (((evaluate program (0 ∷ []) no_ops 29 7).0 ≡ steplimit)
        ↔ ((evaluate program (0 ∷ []) no_ops 29 7).1 ≡ 30))
evaluate_steps_example = evaluate_steps program (0 ∷ []) no_ops 29 7

-- x holds 250 as a u8.
abbrev in_program : ℕ → ℕ → State ℕ
in_program v n = record {
  scopes = ((codes "x", record { type_of_slot = u8; value = v }) ∷ []) ∷ [];
  steps = n;
  store = 7;
}

-- `x += 10` wraps at the type of x.
abbrev add_ten : Expr
add_ten = assignment (compound add) (codes "x") (literal 10)

add_ten_runs :
    eval 200 no_ops (run_proc 200 no_ops (triple ∷ []) 300 false) add_ten (in_program 250 5)
    ≡ ok (val 4 u8) (in_program 4 7)
unfolding and_then eval tick put get lookup store_in find_slot assign assigned narrow literal_type
    binary_op arithmetic is_signed binary_type text_eq promote usual
add_ten_runs = refl

eval-IsTyped_example :
    (type_of add_ten (in_program 250 5).scopes ≡ some u8)
    × (narrow 4 u8 ≡ 4)
    × (types (in_program 4 7).scopes ≡ types (in_program 250 5).scopes)
    × IsScope (in_program 4 7).scopes
unfolding narrow
eval-IsTyped_example =
    eval-IsTyped 200 no_ops (triple ∷ []) 300 add_ten (in_program 250 5) (in_program 4 7) (val 4 u8)
      ((refl, tt), tt) (omega arith) (omega arith) add_ten_runs

-- { u8 y = 1; x += y + 9; }, in a scope that has a y of its own around that of x.
abbrev inner_block : Stmt
inner_block = block (
    next (declaration (record { name = codes "y"; var_type = u8; init = some (literal 1) } ∷ [])) (
      next
        (expression
          (assignment (compound add) (codes "x") (binary add (ident (codes "y")) (literal 9))))
        stop))

abbrev around : ℕ → ℕ → State ℕ
around v n = record {
  scopes =
      ((codes "z", record { type_of_slot = u8; value = 3 }) ∷ [])
      ∷ ((codes "x", record { type_of_slot = u8; value = v })
          ∷ (codes "y", record { type_of_slot = u8; value = 77 })
          ∷ [])
      ∷ [];
  steps = n;
  store = 7;
}

inner_block_acts :
    act 200 no_ops (run_proc 200 no_ops (triple ∷ []) 300 false) 300 inner_block (around 250 5)
    ≡ ok normal (around 4 12)
unfolding act and_then eval tick leave_frame declare_all declare put get lookup store_in find_slot
    assign assigned narrow literal_type binary_op arithmetic is_signed binary_type text_eq promote
    usual
inner_block_acts = refl

act-types_example :
    (types (tail_frames (around 4 12).scopes) ≡ types (tail_frames (around 250 5).scopes))
    × (((ds : List Declarator) × (inner_block ≡ declaration ds))
        ⊎ (types (around 4 12).scopes ≡ types (around 250 5).scopes))
    × IsScope (around 4 12).scopes
    × (5 ≤ 12)
    × (12 ≤ 200)
unfolding narrow
act-types_example =
    act-types 200 no_ops (triple ∷ []) 300 inner_block (around 250 5) (around 4 12) normal
      ((refl, tt), ((refl, (refl, tt)), tt)) (omega arith) (omega arith) inner_block_acts
