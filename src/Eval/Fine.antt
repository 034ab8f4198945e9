-- ===== src/Eval/Fine.antt =====
-- Computations that keep a scope's shape: one rule for each way in which the evaluator is put
-- together.
use mog_jit.Prelude.{
  ℕ, suc, ◌≤◌, ◌≡◌, refl, sym, ◌∙◌, ap, Bool, true, false, List, Option, none, some, arith, ◌⊎◌,
  Option-cases, inl, inr, if◌then◌else◌,
}
use mog_jit.Prelude.Text.{Text}
use mog_jit.Prelude.Word.{IsWord}
use mog_jit.Ast.{PrimType, Expr, conditional}
use mog_jit.Eval.Types.{usual, narrow}
use mog_jit.Eval.Scope.{Frame, lookup}
use mog_jit.Eval.Machine.{
  unspecified, fault, trapped, State, M, ◌>>=◌, ◌>>◌, pure, throw, tick, Extension, run_ext, Reason,
  Fault,
}
use mog_jit.Eval.Ops.{slot_type, type_of, usual_of, find_slot, assign, static_type}
use mog_jit.Eval.Typing.{
  IsScope, IsStored, Shape, types, lookup-IsStored, lookup-types, store_in-IsScope, store_in-types,
  type_of-types, narrow-narrow, narrow-usual,
}
use mog_jit.Eval.Ends.{Ends, Ends-bind, Ends-earlier, Ends-weaken, tick-Ends, run_ext-Ends}

-- The declared type of a variable, in any scope of a shape.
abbrev pub Declares : Shape → Text → PrimType → Type 0
Declares Γ x t = (fs : List Frame) → types fs ≡ Γ → slot_type (lookup x fs) ≡ some t

-- The static type of an expression, in any scope of a shape.
abbrev pub HasType : Shape → Expr → PrimType → Type 0
HasType Γ e t = (fs : List Frame) → types fs ≡ Γ → type_of e fs ≡ some t

-- Types whose values are all words.
abbrev pub IsWordType : PrimType → Type 0
IsWordType t = (v : ℕ) → IsWord v → narrow v t ≡ v

abbrev pub Keeps : {A : Type 0} → Shape → (A → Type 0) → A → List Frame → Type 0
Keeps Γ Q a fs = Q a × (types fs ≡ Γ)

usual_of-cases :
    (o p : Option PrimType)
    → (usual_of o p ≡ none) ⊎ ((t : PrimType) × (usual_of o p ≡ some t) × IsWordType t)
usual_of-cases none p = inl refl
usual_of-cases (some t) none = inl refl
usual_of-cases (some t) (some u) = inr (usual t u, refl, λ v h. narrow-usual v t u h)

module _ {S : Type 0} (max_steps : ℕ) (Γ : Shape) where
  -- From every state of the shape, past a number of steps.
  pub record Fine {A : Type 0} (start : ℕ) (m : M S A) (Q : A → Type 0) : Type 0 where
    pub ends :
        (st : State S)
        → start ≤ st.steps
        → st.steps ≤ max_steps
        → IsScope st.scopes
        → types st.scopes ≡ Γ
        → Ends max_steps start (Keeps Γ Q) (m st)

  pub Fine-bind :
      {A B : Type 0} (start : ℕ) (Q : A → Type 0) (R : B → Type 0) (m : M S A) (k : A → M S B)
      → Fine start m Q
      → ((a : A) → Q a → Fine start (k a) R)
      → Fine start (m >>= k) R
  Fine-bind start Q R m k hm hk = record {
    ends = λ st b w s t.
        Ends-bind max_steps start (Keeps Γ Q) (Keeps Γ R) (m st) k (hm.ends st b w s t)
          (λ a st' b' w' s' q. (hk a q.0).ends st' b' w' s' q.1);
  }

  pub Fine-pure : {A : Type 0} (start : ℕ) (Q : A → Type 0) (a : A) → Q a → Fine start (pure a) Q
  Fine-pure start Q a q = record { ends = λ st b w s t. (b, w, s, (q, t)) }

  pub Fine-trap :
      {A : Type 0} (start : ℕ) (Q : A → Type 0) (c : ℕ) → Fine start (throw (trapped c)) Q
  Fine-trap start Q c = record { ends = λ st b w s t. w }

  pub Fine-fault :
      {A : Type 0} (start : ℕ) (Q : A → Type 0) (f : Fault) → Fine start (throw (fault f)) Q
  Fine-fault start Q f = record { ends = λ st b w s t. w }

  pub Fine-unspecified :
      {A : Type 0} (start : ℕ) (Q : A → Type 0) (r : Reason) → Fine start (throw (unspecified r)) Q
  Fine-unspecified start Q r = record { ends = λ st b w s t. w }

  pub Fine-weaken :
      {A : Type 0} (start : ℕ) (Q R : A → Type 0) (m : M S A)
      → Fine start m Q
      → ((a : A) → Q a → R a)
      → Fine start m R
  Fine-weaken start Q R m h k = record {
    ends = λ st b w s t.
        Ends-weaken max_steps start (Keeps Γ Q) (Keeps Γ R) (m st) (λ a fs q. (k a q.0, q.1))
          (h.ends st b w s t);
  }

  pub Fine-any :
      {A : Type 0} (start : ℕ) (Q : A → Type 0) (m : M S A)
      → Fine start m Q
      → Fine start m (λ _. Unit {0})
  Fine-any start Q m h = Fine-weaken start Q _ m h (λ a q. tt)

  pub Fine-if :
      {A : Type 0} (start : ℕ) (Q : A → Type 0) (c : Bool) (m n : M S A)
      → Fine start m Q
      → Fine start n Q
      → Fine start (if c then m else n) Q
  Fine-if start Q true m n hm hn = hm
  Fine-if start Q false m n hm hn = hn

  -- What follows a tick starts one step later.
  pub Fine-tick :
      {A : Type 0} (start : ℕ) (Q : A → Type 0) (m : M S A)
      → Fine (suc start) m Q
      → Fine start (tick max_steps >> m) Q
  Fine-tick start Q m hm = record {
    ends = λ st b w s t. Ends-earlier max_steps start (suc start) (Keeps Γ Q) _ (omega arith) (
        Ends-bind max_steps (suc start) (λ _ fs. fs ≡ st.scopes) (Keeps Γ Q) (tick max_steps st)
          (λ _. m)
          (Ends-earlier max_steps (suc start) (suc st.steps) (λ _ fs. fs ≡ st.scopes)
            (tick max_steps st) (omega arith) (tick-Ends max_steps st w s))
          (λ _ st' b' w' s' q. hm.ends st' b' w' s' (ap types q ∙ t)));
  }

  pub Fine-find_slot :
      (start : ℕ) (x : Text)
      → Fine start (find_slot x) (λ s. IsStored s × Declares Γ x s.type_of_slot)
  unfolding find_slot
  Fine-find_slot start x = record {
    ends = λ st b w s t. elim (Option-cases (lookup x st.scopes)) [
      | inl e ↦ rw (e, find_slot) w
      | inr (v, e) ↦
          rw (e, find_slot)
            (
              b,
              w,
              s,
              (
                (
                  lookup-IsStored x st.scopes s e,
                  λ fs h. lookup-types x fs st.scopes (h ∙ sym t) ∙ ap slot_type e,
                ),
                t,
              ),
            )
    ];
  }

  -- An assignment gives back what the variable's type makes of the value.
  pub Fine-assign :
      (start : ℕ) (x : Text) (v : ℕ) (t : PrimType)
      → Declares Γ x t
      → Fine start (assign x v) (λ stored. narrow stored t ≡ stored)
  unfolding assign
  Fine-assign start x v t d = Fine-bind start _ _ (find_slot x) _ (Fine-find_slot start x) (λ s h.
      record {
        ends = λ st b w sc e. (
          b,
          w,
          store_in-IsScope x v st.scopes sc,
          (
            let same : some s.type_of_slot ≡ some t = sym (h.1 st.scopes e) ∙ d st.scopes e in
                ground (arith, same, narrow-narrow v s.type_of_slot),
            store_in-types x v st.scopes ∙ e,
          ),
        );
      })

  pub Fine-static_type :
      (start : ℕ) (c a b : Expr)
      → Fine start (static_type a b) (λ t. IsWordType t × HasType Γ (conditional c a b) t)
  unfolding static_type type_of
  Fine-static_type start c a b = record {
    ends = λ st p w s e. elim (usual_of-cases (type_of a st.scopes) (type_of b st.scopes)) [
      | inl q ↦ rw (q, static_type) w
      | inr (t, q, wt) ↦
          rw (q, static_type)
            (
              p,
              w,
              s,
              ((wt, λ fs h. type_of-types (conditional c a b) fs st.scopes (h ∙ sym e) ∙ q), e),
            )
    ];
  }

  pub Fine-run_ext :
      (start : ℕ) (ext : Extension S) (name : Text) (stack : List ℕ) (acc : ℕ)
      → Fine start (run_ext ext name stack acc) IsWord
  Fine-run_ext start ext name stack acc = record {
    ends = λ st b w s t. Ends-earlier max_steps start st.steps (Keeps Γ IsWord) _ b (
        Ends-weaken max_steps st.steps (λ v fs. IsWord v × (fs ≡ st.scopes)) (Keeps Γ IsWord) _
          (λ v fs q. (q.0, ap types q.1 ∙ t)) (run_ext-Ends max_steps ext name stack acc st w s));
  }
