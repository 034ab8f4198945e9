-- ===== src/Eval/Pieces.antt =====
-- The parts of ast-eval.ts's statements, around a procedure call that is fine.
use mog_jit.Prelude.{
  ℕ, suc, ◌+◌, ◌≤◌, ◌<◌, Bool, true, false, not, if◌then◌else◌, List, [], ◌∷◌, Option, none, some,
  arith, ◌==◌,
}
use mog_jit.Prelude.Word.{IsWord, to_u32}
use mog_jit.Ast.{
  Expr, Declarator, ForInit, no_init, declares, computes, Stmt, block, declaration, Cases, no_case,
  clause,
}
use mog_jit.Eval.Machine.{M, Extension, pure, ◌>>=◌}
use mog_jit.Eval.Stmts.{
  Flow, normal, broke, returned, go_on, run_from, value_of, holds, holds_if_any, perform, initial,
  declare_all, start_for, matching_at, body_of,
}
use mog_jit.Eval.Typing.{Shape}
use mog_jit.Eval.Fine.{Fine, Fine-bind, Fine-pure, Fine-if}
use mog_jit.Eval.Typed.{eval-Fine}
use mog_jit.Eval.Steady.{
  Still, Steady, Steady-of-Still, Steady-bind, Steady-pure, Steady-tick, Steady-declare,
  Still-in_frame,
}

module _ {S : Type 0} (max_steps : ℕ) (ext : Extension S) (rp : ℕ → List ℕ → M S ℕ) (fuel : ℕ)
    (proc_fine : (Γ : Shape) (start : ℕ) (i : ℕ) (vs : List ℕ)
      → max_steps < fuel + start
      → Fine {S = S} max_steps Γ start (rp i vs) IsWord) where
  pub value_of-Still :
      (e : Expr) (b : ℕ)
      → max_steps < suc fuel + b
      → Still max_steps b (value_of max_steps ext rp fuel e)
  value_of-Still e b h Γ =
      Fine-bind max_steps Γ b _ _ _ _ (eval-Fine max_steps ext rp fuel Γ (proc_fine Γ) e b h)
        (λ v _. Fine-pure max_steps Γ b _ v.value tt)

  pub Still-bind :
      {A B : Type 0} (b : ℕ) (m : M S A) (k : A → M S B)
      → Still max_steps b m
      → ((a : A) → Still max_steps b (k a))
      → Still max_steps b (m >>= k)
  Still-bind b m k hm hk Γ = Fine-bind max_steps Γ b _ _ m k (hm Γ) (λ a _. hk a Γ)

  pub Still-pure : {A : Type 0} (b : ℕ) (a : A) → Still {S = S} max_steps b (pure a)
  Still-pure b a Γ = Fine-pure max_steps Γ b _ a tt

  pub holds-Still :
      (e : Expr) (b : ℕ)
      → max_steps < suc fuel + b
      → Still max_steps b (holds max_steps ext rp fuel e)
  holds-Still e b h = Still-bind b _ _ (value_of-Still e b h) (λ v. Still-pure b (not (v == 0)))

  pub holds_if_any-Still :
      (o : Option Expr) (b : ℕ)
      → max_steps < suc fuel + b
      → Still max_steps b (holds_if_any max_steps ext rp fuel o)
  holds_if_any-Still none b h = Still-pure b true
  holds_if_any-Still (some e) b h = holds-Still e b h

  pub perform-Still :
      (o : Option Expr) (b : ℕ)
      → max_steps < suc fuel + b
      → Still max_steps b (perform max_steps ext rp fuel o)
  perform-Still none b h = Still-pure b tt
  perform-Still (some e) b h = Still-bind b _ _ (value_of-Still e b h) (λ _. Still-pure b tt)

  pub initial-Still :
      (o : Option Expr) (b : ℕ)
      → max_steps < suc fuel + b
      → Still max_steps b (initial max_steps ext rp fuel o)
  initial-Still none b h = Still-pure b 0
  initial-Still (some e) b h = value_of-Still e b h

  pub declare_all-Steady :
      (Δ : Shape) (ds : List Declarator) (b : ℕ)
      → max_steps < suc fuel + b
      → Steady max_steps Δ b (declare_all max_steps ext rp fuel ds)
  unfolding declare_all
  declare_all-Steady Δ [] b h = Steady-pure max_steps Δ b tt
  declare_all-Steady Δ (d ∷ ds) b h =
      Steady-bind max_steps Δ b _ _ (Steady-of-Still max_steps Δ b _ (initial-Still d.init b h))
        (λ v. Steady-declare max_steps Δ b d.name d.var_type v _ (declare_all-Steady Δ ds b h))

  pub start_for-Steady :
      (Δ : Shape) (i : ForInit) (b : ℕ)
      → max_steps < suc fuel + b
      → Steady max_steps Δ b (start_for max_steps ext rp fuel i)
  start_for-Steady Δ no_init b h = Steady-pure max_steps Δ b tt
  start_for-Steady Δ (declares ds) b h =
      Steady-tick max_steps Δ b _ (declare_all-Steady Δ ds (suc b) (omega arith))
  start_for-Steady Δ (computes e) b h =
      Steady-bind max_steps Δ b _ _ (Steady-of-Still max_steps Δ b _ (value_of-Still e b h))
        (λ _. Steady-pure max_steps Δ b tt)

  pub matching_at-Still :
      (d i : ℕ) (cs : Cases) (b : ℕ)
      → max_steps < suc fuel + b
      → Still max_steps b (matching_at max_steps ext rp fuel d i cs)
  unfolding matching_at
  matching_at-Still d i no_case b h = Still-pure b none
  matching_at-Still d i (clause none l cs) b h = matching_at-Still d (suc i) cs b h
  matching_at-Still d i (clause (some e) l cs) b h = Still-bind b _ _ (value_of-Still e b h) (λ v Γ.
      Fine-if max_steps Γ b _ (to_u32 v == d) _ _ (Still-pure b (some i) Γ)
        (matching_at-Still d (suc i) cs b h Γ))

  pub go_on-Steady :
      (Δ : Shape) (b : ℕ) (fl : Flow) (rest : M S Flow)
      → Steady max_steps Δ b rest
      → Steady max_steps Δ b (go_on fl rest)
  go_on-Steady Δ b normal rest h = h
  go_on-Steady Δ b broke rest h = Steady-pure max_steps Δ b broke
  go_on-Steady Δ b (returned v) rest h = Steady-pure max_steps Δ b (returned v)

  pub run_from-Still :
      (b : ℕ) (o : Option ℕ) (k : ℕ → M S Flow)
      → ((i : ℕ) → Still max_steps b (k i))
      → Still max_steps b (run_from o k)
  run_from-Still b none k h = Still-pure b normal
  run_from-Still b (some i) k h = h i

  pub Still-if :
      {A : Type 0} (b : ℕ) (c : Bool) (m n : M S A)
      → Still max_steps b m
      → Still max_steps b n
      → Still max_steps b (if c then m else n)
  Still-if b true m n hm hn = hm
  Still-if b false m n hm hn = hn

  -- What is shown of the act of a statement: only a declaration may change the innermost frame.
  abbrev pub Whole : Stmt → ℕ → M S Flow → Type 0
  Whole (declaration ds) b m = Unit {0}
  Whole s b m = Still max_steps b m

  abbrev pub Acts : Stmt → ℕ → M S Flow → Type 0
  Acts s b m = ((Δ : Shape) → Steady max_steps Δ b m) × Whole s b m

  pub both :
      (b : ℕ) (m : M S Flow)
      → Still max_steps b m
      → ((Δ : Shape) → Steady max_steps Δ b m) × Still max_steps b m
  both b m still = (λ Δ. Steady-of-Still max_steps Δ b m still, still)

  -- A control body keeps the shape that it finds, block or not.
  pub body_of-Still :
      (s : Stmt) (m : M S Flow) (b : ℕ)
      → ((c : ℕ) → b ≤ c → Acts s c m)
      → Still max_steps b (body_of max_steps ext rp fuel s m)
  body_of-Still (block l) m b h = (h b (omega arith)).1
  body_of-Still s m b h =
      Still-in_frame max_steps b _
        (λ Δ. Steady-tick max_steps Δ b m ((h (suc b) (omega arith)).0 Δ))
