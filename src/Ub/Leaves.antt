-- ===== src/Ub/Leaves.antt =====
-- ast-eval.ts: steps that leave a variable as it was, and the operators among them.
use mog_jit.Prelude.{
  ℕ, ◌≡◌, refl, ◌∙◌, subst, arith, Bool, true, false, List, [], ◌∷◌, Option, none, some,
  if◌then◌else◌, Bool-cases, Option-cases, inl, inr, ltb, ◌+◌,
}
use mog_jit.Prelude.Text.{Text, text_eq, text_eq-true}
use mog_jit.Ast.{PrimType, BinaryOp, AssignOp, plain, compound, Expr}
use mog_jit.Eval.Scope.{Frame, Slot, get, put, lookup, store_in}
use mog_jit.Eval.Machine.{
  M, Res, ok, thrown, State, Exn, and_then, pure, throw, tick, ◌>>=◌, Extension, run_ext,
}
use mog_jit.Eval.Ops.{Val, type_of, usual_of, binary_op, settle, find_slot, assign, static_type}
use mog_jit.Eval.Exprs.{assigned}

module _ {S : Type 0} (x : Text) where
  -- The variable is found as it was, unless an exception cuts the evaluation short.
  abbrev pub Unchanged : {A : Type 0} → List Frame → Res S A → Type 0
  Unchanged fs (ok a st) = lookup x st.scopes ≡ lookup x fs
  Unchanged fs (thrown e st) = Unit

  pub record Leaves {A : Type 0} (m : M S A) : Type 0 where
    pub keeps : (st : State S) → Unchanged st.scopes (m st)

  Unchanged-from :
      {A : Type 0} (fs gs : List Frame) (r : Res S A)
      → lookup x fs ≡ lookup x gs
      → Unchanged fs r
      → Unchanged gs r
  Unchanged-from fs gs (ok a st) e h = h ∙ e
  Unchanged-from fs gs (thrown e' st) e h = tt

  Unchanged-bind :
      {A B : Type 0} (fs : List Frame) (r : Res S A) (k : A → M S B)
      → Unchanged fs r
      → ((a : A) → Leaves (k a))
      → Unchanged fs (and_then r k)
  unfolding and_then
  Unchanged-bind fs (ok a st) k h l = Unchanged-from st.scopes fs (k a st) h ((l a).keeps st)
  Unchanged-bind fs (thrown e st) k h l = tt

  pub Leaves-bind :
      {A B : Type 0} (m : M S A) (k : A → M S B)
      → Leaves m
      → ((a : A) → Leaves (k a))
      → Leaves (m >>= k)
  Leaves-bind m k h l = record { keeps = λ st. Unchanged-bind st.scopes (m st) k (h.keeps st) l }

  pub Leaves-pure : {A : Type 0} (a : A) → Leaves (pure a)
  Leaves-pure a = record { keeps = λ st. refl }

  pub Leaves-throw : {A : Type 0} (e : Exn) → Leaves {A = A} (throw e)
  Leaves-throw e = record { keeps = λ st. tt }

  pub Leaves-if :
      {A : Type 0} (t : Bool) (m n : M S A) → Leaves m → Leaves n → Leaves (if t then m else n)
  Leaves-if true m n h k = h
  Leaves-if false m n h k = k

  pub Leaves-tick : (max_steps : ℕ) → Leaves (tick max_steps)
  unfolding tick
  Leaves-tick max_steps = record {
    keeps = λ st. elim (Bool-cases (ltb max_steps (st.steps + 1))) [
      | inl e ↦ rw (e, tick) tt
      | inr e ↦ rw (e, tick) refl
    ];
  }

  pub Leaves-find_slot : (y : Text) → Leaves (find_slot y)
  unfolding find_slot
  Leaves-find_slot y = record {
    keeps = λ st. elim (Option-cases (lookup y st.scopes)) [
      | inl e ↦ rw (e, find_slot) tt
      | inr (s, e) ↦ rw (e, find_slot) refl
    ];
  }

  pub Leaves-static_type : (a b : Expr) → Leaves (static_type a b)
  unfolding static_type
  Leaves-static_type a b = record {
    keeps = λ st. elim (Option-cases (usual_of (type_of a st.scopes) (type_of b st.scopes))) [
      | inl e ↦ rw (e, static_type) tt
      | inr (s, e) ↦ rw (e, static_type) refl
    ];
  }

  Leaves-settle : (op : BinaryOp) (b : ℕ) (t : PrimType) (o : Option ℕ) → Leaves (settle op b t o)
  Leaves-settle op b t none = Leaves-throw _
  Leaves-settle op b t (some v) = Leaves-pure _

  pub Leaves-binary_op : (op : BinaryOp) (l r : Val) → Leaves (binary_op op l r)
  unfolding binary_op
  Leaves-binary_op op l r = Leaves-settle op _ _ _

  pub Leaves-assigned : (op : AssignOp) (s : Slot) (v : Val) → Leaves (assigned op s v)
  unfolding assigned
  Leaves-assigned plain s v = Leaves-pure v.value
  Leaves-assigned (compound op) s v =
      Leaves-bind (binary_op op _ v) _ (Leaves-binary_op op _ v) (λ w. Leaves-pure w.value)

  pub Leaves-run_ext :
      (ext : Extension S) (name : Text) (stack : List ℕ) (acc : ℕ)
      → Leaves (run_ext ext name stack acc)
  unfolding run_ext
  Leaves-run_ext ext name stack acc = record { keeps = λ st. ground arith }

-- A write to another name of a frame.
get-put_ne : (x y : Text) (s : Slot) (f : Frame) → text_eq x y ≡ false → get x (put y s f) ≡ get x f
unfolding get put
get-put_ne x y s [] h = rw h refl
get-put_ne x y s ((key, old) ∷ f) h = elim (Bool-cases (text_eq y key)) [
  | inl e ↦
      let ne : text_eq x key ≡ false = subst (λ k. text_eq x k ≡ false) (text_eq-true y key e) h in
      rw (e, ne) refl
  | inr e ↦ rw (e, get-put_ne x y s f h) refl
]

lookup-cons :
    (x : Text) (f : Frame) (fs gs : List Frame)
    → lookup x fs ≡ lookup x gs
    → lookup x (f ∷ fs) ≡ lookup x (f ∷ gs)
unfolding lookup
lookup-cons x f fs gs h = elim (Option-cases (get x f)) [
  | inl e ↦ rw (e, lookup) h
  | inr (s, e) ↦ rw (e, lookup) refl
]

lookup-store_in_ne :
    (x y : Text) (v : ℕ) (fs : List Frame)
    → text_eq x y ≡ false
    → lookup x (store_in y v fs) ≡ lookup x fs
unfolding lookup store_in
lookup-store_in_ne x y v [] h = refl
lookup-store_in_ne x y v (f ∷ fs) h = elim (Option-cases (get y f)) [
  | inl e ↦ rw (e, store_in) (lookup-cons x f (store_in y v fs) fs (lookup-store_in_ne x y v fs h))
  | inr (s, e) ↦ rw (e, store_in, lookup, get-put_ne x y _ f h) refl
]

module _ {S : Type 0} (x : Text) where
  pub Leaves-assign : (y : Text) (v : ℕ) → text_eq x y ≡ false → Leaves {S = S} x (assign y v)
  unfolding assign
  Leaves-assign y v h =
      Leaves-bind x (find_slot y) _ (Leaves-find_slot x y)
        (λ s. record { keeps = λ st. lookup-store_in_ne x y v st.scopes h })
