-- ===== src/Ub/Tests.antt =====
-- The filter at `b + (a = 7)` and at operands that race.
use mog_jit.Prelude.{ℕ, ◌≡◌, refl, false, [], ◌∷◌, none, some}
use mog_jit.Prelude.Text.{Text, codes, text_eq}
use mog_jit.Ast.{u32, add, plain, Expr, literal, ident, binary, assignment}
use mog_jit.Eval.Scope.{lookup, get, put, store_in}
use mog_jit.Eval.Machine.{State, ok, Extension, done, and_then, tick}
use mog_jit.Eval.Ops.{val, one_of, find_slot, assign, binary_op, arithmetic, is_signed, binary_type}
use mog_jit.Eval.Types.{narrow, literal_type, promote, usual}
use mog_jit.Eval.Exprs.{eval, assigned}
use mog_jit.Eval.Stmts.{run_proc}
use mog_jit.Ub.{Effects, untouched, Summaries, no_effects, analyze_expr, union, conflict}
use mog_jit.Ub.Conflict.{conflict_comm}
use mog_jit.Ub.Frame.{eval-writes}

abbrev unknown : Summaries
unknown i = none

abbrev a : Text
a = codes "a"

abbrev b : Text
b = codes "b"

abbrev sum : Expr
sum = binary add (ident b) (assignment plain a (literal 7))

abbrev sum_effects : Effects
sum_effects = record { reads = b ∷ []; writes = a ∷ []; mem = untouched; terminates = false }

sum_passes : analyze_expr unknown sum ≡ some sum_effects
unfolding analyze_expr conflict one_of text_eq union
sum_passes = refl

-- `a + (a = 7)`.
race : analyze_expr unknown (binary add (ident a) (assignment plain a (literal 7))) ≡ none
unfolding analyze_expr conflict one_of text_eq
race = refl

abbrev no_ops : Extension ℕ
no_ops = record { exec = λ name s stack acc. done s [] 0 }

abbrev two_variables : ℕ → ℕ → State ℕ
two_variables v n = record {
  scopes =
      ((a, record { type_of_slot = u32; value = v })
        ∷ (b, record { type_of_slot = u32; value = 5 })
        ∷ [])
      ∷ [];
  steps = n;
  store = 0;
}

sum_runs :
    eval 100 no_ops (run_proc 100 no_ops [] 200 false) sum (two_variables 1 0)
    ≡ ok (val 12 u32) (two_variables 7 4)
unfolding and_then eval tick put get lookup store_in find_slot assign assigned narrow literal_type
    binary_op arithmetic is_signed binary_type text_eq promote usual
sum_runs = refl

eval-writes_example : lookup b (two_variables 7 4).scopes ≡ lookup b (two_variables 1 0).scopes
unfolding one_of text_eq
eval-writes_example =
    eval-writes 100 no_ops [] 200 unknown b sum sum_effects (two_variables 1 0) (two_variables 7 4)
      (val 12 u32) sum_passes refl sum_runs

conflict_comm_example : conflict sum_effects no_effects ≡ conflict no_effects sum_effects
conflict_comm_example = conflict_comm sum_effects no_effects
