-- ===== src/Eval/Ends.antt =====
-- How a computation of the machine ends: the logic that the proofs about the evaluator share.
use mog_jit.Prelude.{ℕ, suc, ◌+◌, ◌≤◌, ◌<◌, ◌≡◌, refl, List, arith, Bool-cases, inl, inr, ltb}
use mog_jit.Prelude.Text.{Text}
use mog_jit.Prelude.Word.{IsWord}
use mog_jit.Eval.Scope.{Frame}
use mog_jit.Eval.Machine.{
  Exn, step_limit, out_of_fuel, State, Res, ok, thrown, M, and_then, tick, Extension, run_ext,
}
use mog_jit.Eval.Typing.{IsScope}

-- The counter at an exception: past the limit for the limit's own, within it for any other.
abbrev pub Stopped : ℕ → ℕ → Exn → Type 0
Stopped max_steps steps step_limit = steps ≡ suc max_steps
Stopped max_steps steps out_of_fuel = ⊥
Stopped max_steps steps _ = steps ≤ max_steps

module _ {S : Type 0} (max_steps : ℕ) where
  -- A state in which a computation with this much fuel may start.
  pub record IsReady (fuel : ℕ) (st : State S) : Type 0 where
    pub in_scope : IsScope st.scopes
    pub within : st.steps ≤ max_steps
    pub fuelled : max_steps < fuel + st.steps

  -- Never out of fuel; the counter grows and keeps its bound; variables hold what their types can.
  abbrev pub Ends : {A : Type 0} → ℕ → (A → List Frame → Type 0) → Res S A → Type 0
  Ends start Q (ok a st) =
      (start ≤ st.steps) × (st.steps ≤ max_steps) × IsScope st.scopes × Q a st.scopes
  Ends start Q (thrown e st) = Stopped max_steps st.steps e

  pub Ends-bind :
      {A B : Type 0} (start : ℕ) (Q : A → List Frame → Type 0) (R : B → List Frame → Type 0)
      (r : Res S A) (k : A → M S B)
      → Ends start Q r
      → ((a : A) (st : State S)
          → start ≤ st.steps
          → st.steps ≤ max_steps
          → IsScope st.scopes
          → Q a st.scopes
          → Ends start R (k a st))
      → Ends start R (and_then r k)
  unfolding and_then
  Ends-bind start Q R (ok a st) k h f = f a st h.0 h.1 h.2 h.3
  Ends-bind start Q R (thrown e st) k h f = h

  -- From a later start to an earlier one.
  pub Ends-earlier :
      {A : Type 0} (start later : ℕ) (Q : A → List Frame → Type 0) (r : Res S A)
      → start ≤ later
      → Ends later Q r
      → Ends start Q r
  Ends-earlier start later Q (ok a st) h e = (omega arith, e.1, e.2, e.3)
  Ends-earlier start later Q (thrown e st) h s = s

  pub Ends-weaken :
      {A : Type 0} (start : ℕ) (Q R : A → List Frame → Type 0) (r : Res S A)
      → ((a : A) (fs : List Frame) → Q a fs → R a fs)
      → Ends start Q r
      → Ends start R r
  Ends-weaken start Q R (ok a st) w e = (e.0, e.1, e.2, w a st.scopes e.3)
  Ends-weaken start Q R (thrown e st) w s = s

  -- A tick leaves the scope, and counts.
  pub tick-Ends :
      (st : State S)
      → st.steps ≤ max_steps
      → IsScope st.scopes
      → Ends (suc st.steps) (λ _ fs. fs ≡ st.scopes) (tick max_steps st)
  unfolding tick
  tick-Ends st h w = elim (Bool-cases (ltb max_steps (st.steps + 1))) [
    | inl over ↦ rw over (ground arith)
    | inr fine ↦ rw fine (ground arith, ground arith, w, refl)
  ]

  -- An extension opcode gives a word and leaves the scope.
  pub run_ext-Ends :
      (ext : Extension S) (name : Text) (stack : List ℕ) (acc : ℕ) (st : State S)
      → st.steps ≤ max_steps
      → IsScope st.scopes
      → Ends st.steps (λ v fs. IsWord v × (fs ≡ st.scopes)) (run_ext ext name stack acc st)
  unfolding run_ext
  run_ext-Ends ext name stack acc st h w = ground arith
