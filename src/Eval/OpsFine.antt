-- ===== src/Eval/OpsFine.antt =====
-- The operators and builtins of ast-eval.ts give values of their types.
use mog_jit.Prelude.{
  ℕ, ◌≡◌, refl, ap, Bool, List, [], ◌∷◌, Option, none, some, arith, Bool-cases, inl, inr,
  if◌then◌else◌, get_or, ◌==◌,
}
use mog_jit.Prelude.Text.{Text, codes, text_eq}
use mog_jit.Prelude.Word.{IsWord, to_u32}
use mog_jit.Ast.{
  PrimType, u32, i32, BinaryOp, Expr, binary, unary, UnaryOp, minus, complement, bang, plus,
}
use mog_jit.Eval.Types.{narrow, literal_type}
use mog_jit.Eval.Machine.{
  shift_by, no_such_operator, M, Extension, pure, ◌>>=◌, no_such_callee, run_ext,
}
use mog_jit.Eval.Ops.{
  Val, val, arithmetic, is_shift, is_comparison, binary_type, settle, binary_op, type_of,
  promote_of, clz32, revbits, proc_index, call_proc, call_named, one_of, stack_ops, load_ops,
  store_ops,
}
use mog_jit.Eval.Exprs.{unary_op}
use mog_jit.Eval.Typing.{Shape, narrow-IsWord, narrow-promote, narrow-binary_type}
use mog_jit.Eval.Fine.{
  HasType, Fine, Fine-bind, Fine-pure, Fine-trap, Fine-fault, Fine-unspecified, Fine-if,
  Fine-run_ext,
}

-- A value is one that its type can hold.
abbrev pub IsVal : Val → Type 0
IsVal v = narrow v.value v.type ≡ v.value

pub IsVal-IsWord : (v : Val) → IsVal v → IsWord v.value
IsVal-IsWord v h = omega (arith, narrow-IsWord v.value v.type, h)

pub literal-IsVal : (v : ℕ) → narrow (to_u32 v) (literal_type v) ≡ to_u32 v
unfolding narrow literal_type
literal-IsVal v = ground arith

pub word-IsVal : (v : ℕ) → IsVal (val (to_u32 v) u32)
unfolding narrow
word-IsVal v = omega arith

pub flag-IsVal :
    (b : Bool) → IsVal (val (if b then 0 else 1) i32) × IsVal (val (if b then 1 else 0) i32)
unfolding narrow
flag-IsVal b = ground arith

pub unary_op-IsVal : (op : UnaryOp) (v : Val) → IsWord v.value → IsVal (unary_op op v)
unfolding narrow
unary_op-IsVal minus v h = narrow-promote _ v.type (omega arith)
unary_op-IsVal complement v h = narrow-promote _ v.type (omega arith)
unary_op-IsVal bang v h = (flag-IsVal (v.value == 0)).1
unary_op-IsVal plus v h = narrow-promote _ v.type (omega arith)

pub unary_op-HasType :
    (Γ : Shape) (op : UnaryOp) (e : Expr) (v : Val)
    → HasType Γ e v.type
    → HasType Γ (unary op e) (unary_op op v).type
unfolding type_of
unary_op-HasType Γ minus e v h fs p = ap promote_of (h fs p)
unary_op-HasType Γ complement e v h fs p = ap promote_of (h fs p)
unary_op-HasType Γ bang e v h fs p = refl
unary_op-HasType Γ plus e v h fs p = ap promote_of (h fs p)

pub binary-HasType :
    (Γ : Shape) (op : BinaryOp) (l r : Expr) (t u : PrimType)
    → HasType Γ l t
    → HasType Γ r u
    → HasType Γ (binary op l r) (binary_type op t u)
unfolding type_of binary_type
binary-HasType Γ op l r t u hl hr fs p =
    rw (hl fs p, hr fs p)
      (elim (Bool-cases (is_comparison op)) [
        | inl c ↦ rw c refl
        | inr c ↦ rw c (elim (Bool-cases (is_shift op)) [ inl s ↦ rw s refl | inr s ↦ rw s refl ])
      ])

-- Every operator's result is a word.
pub arithmetic-IsWord :
    (op : BinaryOp) (signed : Bool) (a b : ℕ) {v : ℕ} → arithmetic op signed a b ≡ some v → IsWord v
unfolding arithmetic
arithmetic-IsWord op signed a b e = ground arith

abbrev pub IsOf : PrimType → Val → Type 0
IsOf t v = IsVal v × (v.type ≡ t)

abbrev pub IsU32 : Val → Type 0
IsU32 = IsOf u32

module _ {S : Type 0} (max_steps : ℕ) (Γ : Shape) (start : ℕ) where
  Fine-settle :
      (op : BinaryOp) (b : ℕ) (t : PrimType) (o : Option ℕ)
      → ((v : ℕ) → o ≡ some v → narrow v t ≡ v)
      → Fine {S = S} max_steps Γ start (settle op b t o) (IsOf t)
  Fine-settle op b t (some v) h = Fine-pure max_steps Γ start (IsOf t) _ (h v refl, refl)
  Fine-settle op b t none h = elim (Bool-cases (is_shift op)) [
    | inl s ↦ rw s (Fine-unspecified max_steps Γ start (IsOf t) (shift_by b))
    | inr s ↦ rw s (Fine-fault max_steps Γ start (IsOf t) (no_such_operator op))
  ]

  pub Fine-binary_op :
      (op : BinaryOp) (a b : Val)
      → Fine {S = S} max_steps Γ start (binary_op op a b) (IsOf (binary_type op a.type b.type))
  unfolding binary_op
  Fine-binary_op op a b =
      Fine-settle op _ _ _
        (λ v e. narrow-binary_type op v a.type b.type (arithmetic-IsWord op _ _ _ e))

  Fine-u32 :
      (m : M S ℕ)
      → Fine max_steps Γ start m IsWord
      → Fine max_steps Γ start (do r ← m; pure (val (to_u32 r) u32)) IsU32
  Fine-u32 m h =
      Fine-bind max_steps Γ start IsWord IsU32 m _ h
        (λ r w. Fine-pure max_steps Γ start IsU32 _ (word-IsVal r, refl))

  Fine-call_proc :
      (Q : List ℕ → Type 0) (ext : Extension S) (rp : ℕ → List ℕ → M S ℕ) (name : Text)
      (every : M S (List ℕ)) (o : Option ℕ)
      → Fine max_steps Γ start every Q
      → ((i : ℕ) (vs : List ℕ) → Q vs → Fine max_steps Γ start (rp i vs) IsWord)
      → Fine max_steps Γ start (call_proc ext rp name every o) IsU32
  Fine-call_proc Q ext rp name every (some i) h k =
      Fine-bind max_steps Γ start Q IsU32 every _ h (λ vs q. Fine-u32 (rp i vs) (k i vs q))
  Fine-call_proc Q ext rp name every none h k =
      Fine-fault max_steps Γ start IsU32 (no_such_callee name)

  -- A call gives a `u32`, whatever it calls.
  pub Fine-call_named :
      (Q₁ : Val → Type 0) (Q₂ : List ℕ → Type 0) (ext : Extension S) (rp : ℕ → List ℕ → M S ℕ)
      (name : Text) (first : M S Val) (every : M S (List ℕ))
      → Fine max_steps Γ start first Q₁
      → Fine max_steps Γ start every Q₂
      → ((i : ℕ) (vs : List ℕ) → Q₂ vs → Fine max_steps Γ start (rp i vs) IsWord)
      → Fine max_steps Γ start (call_named ext rp name first every) IsU32
  unfolding call_named
  Fine-call_named Q₁ Q₂ ext rp name first every h₁ h₂ h₃ =
      let one : (k : Val → M S Val)
          → ((v : Val) → Fine max_steps Γ start (k v) IsU32)
          → Fine max_steps Γ start (first >>= k) IsU32 =
        λ k hk. Fine-bind max_steps Γ start Q₁ IsU32 first k h₁ (λ v q. hk v) in
      let all : (k : List ℕ → M S Val)
          → ((vs : List ℕ) → Q₂ vs → Fine max_steps Γ start (k vs) IsU32)
          → Fine max_steps Γ start (every >>= k) IsU32 =
        λ k hk. Fine-bind max_steps Γ start Q₂ IsU32 every k h₂ hk in
      let ext_call : (vs : List ℕ) (stack : List ℕ) (acc : ℕ)
          → Fine max_steps Γ start (do r ← run_ext ext name stack acc; pure (val (to_u32 r) u32))
              IsU32 =
        λ vs stack acc. Fine-u32 _ (Fine-run_ext max_steps Γ start ext name stack acc) in
      Fine-if max_steps Γ start IsU32 (text_eq name (codes "trap")) _ _
        (one _ (λ v. Fine-trap max_steps Γ start IsU32 _))
        (Fine-if max_steps Γ start IsU32 (text_eq name (codes "clz")) _ _
          (one _
            (λ v. Fine-pure max_steps Γ start IsU32 _ (word-IsVal (clz32 (to_u32 v.value)), refl)))
          (Fine-if max_steps Γ start IsU32 (text_eq name (codes "revbits")) _ _
            (one _ (λ v.
              Fine-pure max_steps Γ start IsU32 _ (word-IsVal (revbits (to_u32 v.value)), refl)))
            (Fine-if max_steps Γ start IsU32 (one_of name stack_ops) _ _
              (all _ (λ vs q. ext_call vs vs 0))
              (Fine-if max_steps Γ start IsU32 (one_of name load_ops) _ _
                (all (λ vs. do r ← run_ext ext name [] (get_or vs 0 0); pure (val (to_u32 r) u32))
                  (λ vs q. ext_call vs [] (get_or vs 0 0)))
                (Fine-if max_steps Γ start IsU32 (one_of name store_ops) _ _
                  (all
                    (λ vs. do
                      r ← run_ext ext name (get_or vs 0 0 ∷ []) (get_or vs 1 0)
                      pure (val (to_u32 r) u32))
                    (λ vs q. ext_call vs (get_or vs 0 0 ∷ []) (get_or vs 1 0)))
                  (Fine-call_proc Q₂ ext rp name every (proc_index name) h₂ h₃))))))
