-- ===== src/Eval/Machine.antt =====
-- ast-eval.ts, class Machine: its state, its exceptions, its step counter and the adapter that runs
-- an extension opcode.
use mog_jit.Prelude.{ℕ, ◌+◌, ◌-◌, List, ltb, map, if◌then◌else◌}
use mathlib.Core.List.{reverse}
use mog_jit.Prelude.Text.{Text}
use mog_jit.Prelude.Word.{to_u32}
use mog_jit.Ast.{BinaryOp}
use mog_jit.Eval.Scope.{Frame}

-- Why an answer is not fixed by the language.
pub data Reason : Type 0 where
  shift_by : ℕ → Reason
  falls_off_end : Reason

-- The `Error`s that are no outcome of a program.
pub data Fault : Type 0 where
  unknown_variable : Fault
  no_such_callee : Text → Fault
  no_procedure : ℕ → Fault
  no_such_operator : BinaryOp → Fault
  update_of_non_variable missing_argument extension_error : Fault

-- `out_of_fuel` is not of the source: the model's loops and calls run on fuel.
pub data Exn : Type 0 where
  trapped : ℕ → Exn
  unspecified : Reason → Exn
  step_limit : Exn
  fault : Fault → Exn
  out_of_fuel : Exn

-- The machine between two steps; `store` is what the extension's closures hold.
pub record State (S : Type 0) : Type 0 where
  pub scopes : List Frame
  pub steps : ℕ
  pub store : S

pub data Res (S A : Type 0) : Type 0 where
  ok : A → State S → Res S A
  thrown : Exn → State S → Res S A

abbrev pub M : Type 0 → Type 0 → Type 0
M S A = State S → Res S A

-- An exception skips the rest. It is not an `abbrev`, so that a chain keeps its shape in a proof.
unfoldable pub and_then : {S A B : Type 0} → Res S A → (A → M S B) → Res S B
and_then (ok a st) k = k a st
and_then (thrown e st) k = thrown e st

infixl 5 ◌>>=◌ ◌>>◌
abbrev pub ◌>>=◌ : {S A B : Type 0} → M S A → (A → M S B) → M S B
◌>>=◌ m k st = and_then (m st) k

abbrev pub ◌>>◌ : {S A B : Type 0} → M S A → M S B → M S B
m >> k = m >>= λ _. k

abbrev pub pure : {S A : Type 0} → A → M S A
pure a st = ok a st

abbrev pub throw : {S A : Type 0} → Exn → M S A
throw e st = thrown e st

-- `tick`: the counter goes up before it is compared.
unfoldable pub tick : {S : Type 0} → ℕ → M S (Unit {0})
tick max_steps st =
    let st' = record st { steps = st.steps + 1 } in
    if ltb max_steps (st.steps + 1) then thrown step_limit st' else ok tt st'

-- What `exec` of an extension leaves: its own store with the operand stack (the top first) and acc,
-- or an exception.
pub data ExtOutcome (S : Type 0) : Type 0 where
  done : S → List ℕ → ℕ → ExtOutcome S
  failed : S → ExtOutcome S

-- The part of `Extension` that the evaluator calls: an opcode by its upper case name.
pub record Extension (S : Type 0) : Type 0 where
  pub exec : Text → S → List ℕ → ℕ → ExtOutcome S

unfoldable pub to_upper : ℕ → ℕ
to_upper c = if ltb c b'a' then c else if ltb b'z' c then c else c - 32

-- `runExt`: the operands in push order, so that `pop` sees them reversed.
unfoldable pub run_ext : {S : Type 0} → Extension S → Text → List ℕ → ℕ → M S ℕ
run_ext ext name stack acc st =
    elim (ext.exec (map to_upper name) st.store (reverse (map to_u32 stack)) (to_u32 acc)) [
      | done s cells a ↦ ok (to_u32 a) (record st { store = s })
      | failed s ↦ thrown (fault extension_error) (record st { store = s })
    ]
