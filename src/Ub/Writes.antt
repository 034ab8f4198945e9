-- ===== src/Ub/Writes.antt =====
-- ub.ts against ast-eval.ts: an expression assigns only to the names among its effects' writes.
use mathlib.Core.Option.{some-injective}
use mog_jit.Prelude.{
  ℕ, ◌≡◌, refl, sym, ap, subst, arith, Bool, true, false, List, [], ◌∷◌, ◌++◌, Option, none, some,
}
use mog_jit.Prelude.Text.{Text, text_eq}
use mog_jit.Ast.{
  Expr, literal, ident, cast, assignment, conditional, logical, binary, unary, update, call, Exprs,
  nil, cons,
}
use mog_jit.Eval.Ops.{one_of, proc_index}
use mog_jit.Ub.{
  Effects, no_effects, joined_with, union_from, union, with_callee, with_summary, with_procedure,
  conflict, some_conflict, unless, written, Summaries, Summary, analyze_expr, analyze_all, ◌>>=◌,
}

-- The operand of `++` or `--` is not the name.
abbrev pub NotTarget : Text → Expr → Type 0
NotTarget x (ident y) = text_eq x y ≡ false
NotTarget x _ = Unit

-- The name is not assigned to anywhere in the expression.
unfoldable mutual
  pub Avoids : Text → Expr → Type 0
  Avoids x (literal v) = Unit
  Avoids x (ident y) = Unit
  Avoids x (cast t e) = Avoids x e
  Avoids x (unary op e) = Avoids x e
  Avoids x (update op pre e) = NotTarget x e × Avoids x e
  Avoids x (assignment op y e) = (text_eq x y ≡ false) × Avoids x e
  Avoids x (logical op l r) = Avoids x l × Avoids x r
  Avoids x (conditional c a b) = Avoids x c × Avoids x a × Avoids x b
  Avoids x (binary op l r) = Avoids x l × Avoids x r
  Avoids x (call f args) = AvoidsAll x args

  pub AvoidsAll : Text → Exprs → Type 0
  AvoidsAll x nil = Unit
  AvoidsAll x (cons e es) = Avoids x e × AvoidsAll x es

bind-some :
    {A B : Type 0} (o : Option A) (k : A → Option B) (b : B)
    → (o >>= k) ≡ some b
    → (a : A) × (o ≡ some a) × (k a ≡ some b)
bind-some none k b h = cc
bind-some (some a) k b h = (a, refl, h)

unless-some : {A : Type 0} (t : Bool) (a b : A) → unless t a ≡ some b → a ≡ b
unless-some true a b h = cc
unless-some false a b h = cc

-- The name is in none of the write sets.
abbrev Clear : Text → List Effects → Type 0
Clear x [] = Unit
Clear x (p ∷ ps) = (one_of x p.writes ≡ false) × Clear x ps

one_of-cons :
    (x y : Text) (a : List Text)
    → one_of x (y ∷ a) ≡ false
    → (text_eq x y ≡ false) × (one_of x a ≡ false)
unfolding one_of
one_of-cons x y a h = ground arith

one_of-append :
    (x : Text) (a b : List Text)
    → one_of x (a ++ b) ≡ false
    → (one_of x a ≡ false) × (one_of x b ≡ false)
unfolding one_of
one_of-append x [] b h = (refl, h)
one_of-append x (y ∷ a) b h =
    let here = one_of-cons x y (a ++ b) h in
    let rest = one_of-append x a b here.1 in (ground (arith, here, rest), rest.1)

union_from-Clear :
    (x : Text) (out : Effects) (ps : List Effects)
    → one_of x (union_from out ps).writes ≡ false
    → (one_of x out.writes ≡ false) × Clear x ps
unfolding union_from
union_from-Clear x out [] h = (h, tt)
union_from-Clear x out (p ∷ ps) h =
    let rest = union_from-Clear x (joined_with out p) ps h in
    let both = one_of-append x out.writes p.writes rest.0 in (both.0, (both.1, rest.1))

with_summary-writes :
    (out : Effects) (s : Option Summary) → (with_summary out s).writes ≡ out.writes
unfolding with_summary
with_summary-writes out none = refl
with_summary-writes out (some s) = refl

with_procedure-writes :
    (summaries : Summaries) (out : Effects) (i : Option ℕ)
    → (with_procedure summaries out i).writes ≡ out.writes
unfolding with_procedure
with_procedure-writes summaries out none = refl
with_procedure-writes summaries out (some i) = with_summary-writes out (summaries i)

-- A call adds no write of a variable to its arguments'.
with_callee-writes :
    (summaries : Summaries) (f : Text) (out : Effects)
    → (with_callee summaries f out).writes ≡ out.writes
unfolding with_callee
with_callee-writes summaries f out =
    ground (arith, with_procedure-writes summaries out (proc_index f))

written-clear :
    (x : Text) (e : Expr) (names : List Text)
    → one_of x (written e names) ≡ false
    → NotTarget x e × (one_of x names ≡ false)
unfolding one_of
written-clear x (ident y) names h = one_of-cons x y names h
written-clear x (literal v) names h = (tt, h)
written-clear x (cast t e) names h = (tt, h)
written-clear x (unary op e) names h = (tt, h)
written-clear x (update op pre e) names h = (tt, h)
written-clear x (assignment op y e) names h = (tt, h)
written-clear x (logical op l r) names h = (tt, h)
written-clear x (conditional c a b) names h = (tt, h)
written-clear x (binary op l r) names h = (tt, h)
written-clear x (call f args) names h = (tt, h)

-- An answer of the analysis that does not write the name.
clear_of :
    (x : Text) (o out : Effects)
    → some o ≡ some out
    → one_of x out.writes ≡ false
    → one_of x o.writes ≡ false
clear_of x o out e h =
    subst (λ (w : Effects). one_of x w.writes ≡ false) (sym (some-injective o out e)) h

module _ (summaries : Summaries) (x : Text) where
  mutual
    unfolding analyze_expr Avoids union

    pub analyze_expr-Avoids :
        (e : Expr) (out : Effects)
        → analyze_expr summaries e ≡ some out
        → one_of x out.writes ≡ false
        → Avoids x e
    analyze_expr-Avoids (literal v) out h k = tt
    analyze_expr-Avoids (ident y) out h k = tt
    analyze_expr-Avoids (cast t e) out h k = analyze_expr-Avoids e out h k
    analyze_expr-Avoids (unary op e) out h k = analyze_expr-Avoids e out h k
    analyze_expr-Avoids (update op pre e) out h k =
        let (inner, p, q) = bind-some (analyze_expr summaries e) _ out h in
        let clear = written-clear x e inner.writes (clear_of x _ out q k) in
        (clear.0, analyze_expr-Avoids e inner p clear.1)
    analyze_expr-Avoids (assignment op y e) out h k =
        let (inner, p, q) = bind-some (analyze_expr summaries e) _ out h in
        let clear = one_of-cons x y inner.writes (clear_of x _ out q k) in
        (clear.0, analyze_expr-Avoids e inner p clear.1)
    analyze_expr-Avoids (logical op l r) out h k =
        let (a, p, rest) = bind-some (analyze_expr summaries l) _ out h in
        let (b, q, last) = bind-some (analyze_expr summaries r) _ out rest in
        let clear = (union_from-Clear x no_effects (a ∷ b ∷ []) (clear_of x _ out last k)).1 in
        (analyze_expr-Avoids l a p clear.0, analyze_expr-Avoids r b q clear.1.0)
    analyze_expr-Avoids (conditional c a b) out h k =
        let (u, p, at_a) = bind-some (analyze_expr summaries c) _ out h in
        let (v, q, at_b) = bind-some (analyze_expr summaries a) _ out at_a in
        let (w, r, last) = bind-some (analyze_expr summaries b) _ out at_b in
        let clear = (union_from-Clear x no_effects (u ∷ v ∷ w ∷ []) (clear_of x _ out last k)).1 in
        (
          analyze_expr-Avoids c u p clear.0,
          analyze_expr-Avoids a v q clear.1.0,
          analyze_expr-Avoids b w r clear.1.1.0,
        )
    analyze_expr-Avoids (binary op l r) out h k =
        let (a, p, rest) = bind-some (analyze_expr summaries l) _ out h in
        let (b, q, last) = bind-some (analyze_expr summaries r) _ out rest in
        let e = ap some (unless-some (conflict a b) _ out last) in
        let clear = (union_from-Clear x no_effects (a ∷ b ∷ []) (clear_of x _ out e k)).1 in
        (analyze_expr-Avoids l a p clear.0, analyze_expr-Avoids r b q clear.1.0)
    analyze_expr-Avoids (call f args) out h k =
        let (all, p, last) = bind-some (analyze_all summaries args) _ out h in
        let e = ap some (unless-some (some_conflict all) _ out last) in
        let same = with_callee-writes summaries f (union all) in
        let clear = subst (λ names. one_of x names ≡ false) same (clear_of x _ out e k) in
        analyze_all-Avoids args all p (union_from-Clear x no_effects all clear).1

    pub analyze_all-Avoids :
        (es : Exprs) (all : List Effects)
        → analyze_all summaries es ≡ some all
        → Clear x all
        → AvoidsAll x es
    analyze_all-Avoids nil all h k = tt
    analyze_all-Avoids (cons e es) all h k =
        let (a, p, at_rest) = bind-some (analyze_expr summaries e) _ all h in
        let (rest, q, last) = bind-some (analyze_all summaries es) _ all at_rest in
        let clear = subst (Clear x) (sym (some-injective (a ∷ rest) all last)) k in
        (analyze_expr-Avoids e a p clear.0, analyze_all-Avoids es rest q clear.1)
