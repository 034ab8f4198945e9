-- ===== src/Ub/Conflict.antt =====
-- ub.ts: `conflict` does not depend on which operand comes first.
use mog_jit.Prelude.{
  ◌≡◌, refl, sym, ◌∙◌, ap, arith, Bool, true, false, ◌||◌, ◌&&◌, List, [], ◌∷◌, if◌then◌else◌,
}
use mog_jit.Prelude.Text.{Text, text_eq}
use mog_jit.Eval.Ops.{one_of}
use mog_jit.Ub.{Effects, is_write, is_touched, touches, intersects, conflict}

text_eq_comm : (s t : Text) → text_eq s t ≡ text_eq t s
unfolding text_eq
text_eq_comm [] [] = refl
text_eq_comm [] (y ∷ ys) = refl
text_eq_comm (x ∷ xs) [] = refl
text_eq_comm (x ∷ xs) (y ∷ ys) = ground (arith, text_eq_comm xs ys)

or_exchange : (p q r s : Bool) → ((p || q) || (r || s)) ≡ ((p || r) || (q || s))
or_exchange p q r s = ground arith

intersects-cons :
    (a b : List Text) (y : Text) → intersects a (y ∷ b) ≡ (one_of y a || intersects a b)
unfolding intersects one_of
intersects-cons [] b y = refl
intersects-cons (x ∷ a) b y =
    rw (intersects-cons a b y, text_eq_comm x y)
      (or_exchange (text_eq y x) (one_of x b) (one_of y a) (intersects a b))

intersects-nil : (a : List Text) → intersects a [] ≡ false
unfolding intersects one_of
intersects-nil [] = refl
intersects-nil (x ∷ a) = intersects-nil a

intersects_comm : (a b : List Text) → intersects a b ≡ intersects b a
unfolding intersects
intersects_comm [] b = sym (intersects-nil b)
intersects_comm (x ∷ a) b =
    ap (λ r. one_of x b || r) (intersects_comm a b) ∙ sym (intersects-cons b a x)

-- The tests of `conflict`, each with its counterpart.
tests_swap :
    (v w both m n t u : Bool)
    → (if v || (w || both)
        then true
        else if m
        then true
        else if n
        then true
        else if t
        then true
        else u)
      ≡ (if w || (v || both)
          then true
          else if n
          then true
          else if m
          then true
          else if u
          then true
          else t)
tests_swap v w both m n t u = ground arith

-- Exchanging the operands of the filter's test does not change its answer.
pub conflict_comm : (a b : Effects) → conflict a b ≡ conflict b a
unfolding conflict
conflict_comm a b = rw (intersects_comm a.writes b.writes) (
    tests_swap (intersects a.writes b.reads) (intersects b.writes a.reads)
      (intersects b.writes a.writes) (is_write a.mem && is_touched b.mem)
      (is_write b.mem && is_touched a.mem) (a.terminates && touches b) (b.terminates && touches a))
