-- ===== src/Eval/Steady.antt =====
-- Statements of ast-eval.ts keep the scopes around their own, and loops and calls stay within the
-- step limit and the fuel.
use mog_jit.Prelude.{
  ℕ, zero, suc, ◌+◌, ◌≤◌, ◌<◌, ◌≡◌, refl, sym, ◌∙◌, ap, Bool, true, false, List, [], ◌∷◌, arith,
  if◌then◌else◌,
}
use mog_jit.Prelude.Text.{Text}
use mog_jit.Ast.{PrimType}
use mog_jit.Eval.Scope.{Frame, declare}
use mog_jit.Eval.Machine.{M, Res, ok, thrown, State, pure, throw, tick, ◌>>=◌, ◌>>◌, out_of_fuel}
use mog_jit.Eval.Stmts.{
  Flow, normal, broke, returned, tail_frames, leave_frame, in_frame, after_body, loop, do_loop,
}
use mog_jit.Eval.Typing.{Shape, IsScope, types, declare-IsScope}
use mog_jit.Eval.Ends.{Ends, Ends-bind, Ends-earlier, Ends-weaken, tick-Ends}
use mog_jit.Eval.Fine.{Keeps, Fine, Fine-bind, Fine-pure, Fine-tick, Fine-if}

abbrev tail_shape : Shape → Shape
tail_shape [] = []
tail_shape (f ∷ Γ) = Γ

tail-types : (fs : List Frame) → types (tail_frames fs) ≡ tail_shape (types fs)
tail-types [] = refl
tail-types (f ∷ fs) = refl

declare-tail :
    (x : Text) (t : PrimType) (v : ℕ) (fs : List Frame)
    → tail_frames (declare x t v fs) ≡ tail_frames fs
unfolding declare
declare-tail x t v [] = refl
declare-tail x t v (f ∷ fs) = refl

tail-IsScope : (fs : List Frame) → IsScope fs → IsScope (tail_frames fs)
tail-IsScope [] h = tt
tail-IsScope (f ∷ fs) h = h.1

module _ {S : Type 0} (max_steps : ℕ) where
  -- It keeps whatever shape it finds.
  abbrev pub Still : {A : Type 0} → ℕ → M S A → Type 0
  Still start m = (Γ : Shape) → Fine max_steps Γ start m (λ _. Unit {0})

  -- It keeps all but the innermost frame.
  pub record Steady {A : Type 0} (Δ : Shape) (start : ℕ) (m : M S A) : Type 0 where
    pub ends :
        (st : State S)
        → start ≤ st.steps
        → st.steps ≤ max_steps
        → IsScope st.scopes
        → types (tail_frames st.scopes) ≡ Δ
        → Ends max_steps start (λ a fs. types (tail_frames fs) ≡ Δ) (m st)

  pub Steady-of-Still :
      {A : Type 0} (Δ : Shape) (start : ℕ) (m : M S A) → Still start m → Steady Δ start m
  Steady-of-Still Δ start m h = record {
    ends = λ st b w s t.
        Ends-weaken max_steps start (Keeps (types st.scopes) (λ _. Unit {0})) _ (m st)
          (λ a fs q. tail-types fs ∙ ap tail_shape q.1 ∙ sym (tail-types st.scopes) ∙ t)
          ((h (types st.scopes)).ends st b w s refl);
  }

  pub Steady-bind :
      {A B : Type 0} (Δ : Shape) (start : ℕ) (m : M S A) (k : A → M S B)
      → Steady Δ start m
      → ((a : A) → Steady Δ start (k a))
      → Steady Δ start (m >>= k)
  Steady-bind Δ start m k hm hk = record {
    ends = λ st b w s t.
        Ends-bind max_steps start (λ a fs. types (tail_frames fs) ≡ Δ) _ (m st) k
          (hm.ends st b w s t) (λ a st' b' w' s' q. (hk a).ends st' b' w' s' q);
  }

  pub Steady-pure : {A : Type 0} (Δ : Shape) (start : ℕ) (a : A) → Steady Δ start (pure a)
  Steady-pure Δ start a = record { ends = λ st b w s t. (b, w, s, t) }

  pub Steady-if :
      {A : Type 0} (Δ : Shape) (start : ℕ) (c : Bool) (m n : M S A)
      → Steady Δ start m
      → Steady Δ start n
      → Steady Δ start (if c then m else n)
  Steady-if Δ start true m n hm hn = hm
  Steady-if Δ start false m n hm hn = hn

  pub Steady-tick :
      {A : Type 0} (Δ : Shape) (start : ℕ) (m : M S A)
      → Steady Δ (suc start) m
      → Steady Δ start (tick max_steps >> m)
  Steady-tick Δ start m hm = record {
    ends = λ st b w s t.
        Ends-earlier max_steps start (suc start) (λ a fs. types (tail_frames fs) ≡ Δ) _
          (omega arith)
          (Ends-bind max_steps (suc start) (λ _ fs. fs ≡ st.scopes) _ (tick max_steps st) (λ _. m)
            (Ends-earlier max_steps (suc start) (suc st.steps) (λ _ fs. fs ≡ st.scopes)
              (tick max_steps st) (omega arith) (tick-Ends max_steps st w s))
            (λ _ st' b' w' s' q.
              hm.ends st' b' w' s' (ap (λ (fs : List Frame). types (tail_frames fs)) q ∙ t)));
  }

  -- A declaration touches the innermost frame alone.
  pub Steady-declare :
      {A : Type 0} (Δ : Shape) (start : ℕ) (x : Text) (p : PrimType) (v : ℕ) (m : M S A)
      → Steady Δ start m
      → Steady Δ start (λ st. m (record st { scopes = declare x p v st.scopes }))
  Steady-declare Δ start x p v m h = record {
    ends = λ st b w s t.
        h.ends (record st { scopes = declare x p v st.scopes }) b w
          (declare-IsScope x p v st.scopes s) (ap types (declare-tail x p v st.scopes) ∙ t);
  }

  leave_frame-Ends :
      {A : Type 0} (Γ : Shape) (start : ℕ) (r : Res S A)
      → Ends max_steps start (λ a fs. types (tail_frames fs) ≡ Γ) r
      → Ends max_steps start (Keeps Γ (λ _. Unit {0})) (leave_frame r)
  unfolding leave_frame
  leave_frame-Ends Γ start (ok a st) h = (h.0, h.1, tail-IsScope st.scopes h.2, (tt, h.3))
  leave_frame-Ends Γ start (thrown e st) h = h

  -- A block leaves the scope's shape as it was.
  pub Still-in_frame :
      {A : Type 0} (start : ℕ) (m : M S A)
      → ((Δ : Shape) → Steady Δ start m)
      → Still start (in_frame m)
  Still-in_frame start m h Γ = record {
    ends = λ st b w s t.
        leave_frame-Ends Γ start _
          ((h Γ).ends (record st { scopes = [] ∷ st.scopes }) b w (tt, s) t);
  }

  pub Still-after_body :
      (start : ℕ) (fl : Flow) (again : M S Flow)
      → Still start again
      → Still start (after_body fl again)
  Still-after_body start normal again h Γ = h Γ
  Still-after_body start broke again h Γ = Fine-pure max_steps Γ start _ normal tt
  Still-after_body start (returned v) again h Γ = Fine-pure max_steps Γ start _ (returned v) tt

  no_fuel-Still :
      {A : Type 0} (start : ℕ) → max_steps < 0 + start → Still {A = A} start (throw out_of_fuel)
  no_fuel-Still start h Γ = record { ends = λ st b w s t. absurd (omega arith) }

  -- Each round of a loop ticks, so fuel beyond the steps that are left is enough.
  pub loop-Still :
      (f b : ℕ) (test : M S Bool) (body : M S Flow) (step : M S (Unit {0}))
      → max_steps < f + b
      → ((c : ℕ) → b < c → Still c test × Still c body × Still c step)
      → Still b (loop max_steps f test body step)
  unfolding loop
  loop-Still zero b test body step h parts Γ = no_fuel-Still b h Γ
  loop-Still (suc f) b test body step h parts Γ =
      let now = parts (suc b) (omega arith) in
      let again =
        loop-Still f (suc b) test body step (omega arith) (λ c q. parts c (omega arith)) in
      Fine-tick max_steps Γ b _ _ (
        Fine-bind max_steps Γ (suc b) _ _ _ _ (now.0 Γ) (λ passes _.
          Fine-if max_steps Γ (suc b) _ passes _ _
            (Fine-bind max_steps Γ (suc b) _ _ _ _ (now.1 Γ) (λ fl _.
              Still-after_body (suc b) fl _
                (λ Γ'. Fine-bind max_steps Γ' (suc b) _ _ _ _ (now.2 Γ') (λ _ _. again Γ')) Γ))
            (Fine-pure max_steps Γ (suc b) _ normal tt)))

  pub do_loop-Still :
      (f b : ℕ) (test : M S Bool) (body : M S Flow)
      → max_steps < f + b
      → ((c : ℕ) → b < c → Still c test × Still c body)
      → Still b (do_loop max_steps f test body)
  unfolding do_loop
  do_loop-Still zero b test body h parts Γ = no_fuel-Still b h Γ
  do_loop-Still (suc f) b test body h parts Γ =
      let now = parts (suc b) (omega arith) in
      let again = do_loop-Still f (suc b) test body (omega arith) (λ c q. parts c (omega arith)) in
      Fine-tick max_steps Γ b _ _ (
        Fine-bind max_steps Γ (suc b) _ _ _ _ (now.1 Γ) (λ fl _.
          Still-after_body (suc b) fl _
            (λ Γ'. Fine-bind max_steps Γ' (suc b) _ _ _ _ (now.0 Γ') (λ passes _.
              Fine-if max_steps Γ' (suc b) _ passes _ _ (again Γ')
                (Fine-pure max_steps Γ' (suc b) _ normal tt)))
            Γ))
