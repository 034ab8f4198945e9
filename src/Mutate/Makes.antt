-- ===== src/Mutate/Makes.antt =====
-- mutate.ts: steps in a scope whose variables are visible, before and after, with what they answer.
use mog_jit.Prelude.{Bool, true, false, List, All-append, if◌then◌else◌}
use mog_jit.Core.{and_then, ◌>>=◌, pure}
use mog_jit.Mutate.Machine.{Var, G}
use mog_jit.Mutate.Stmts.{Site, M, lift, scoped, push, child}
use mog_jit.Mutate.Yields.{Yields}
use mog_jit.Mutate.Scope.{Env, Within, Seen}
use mog_jit.Mutate.Weaken.{Seen-weaken}

-- From a scope in `E`, the answer `a` has `P` and the scope that is left is in `R a`.
pub record Makes {A : Type 0} (E : Env) (R : A → Env) (P : A → Type 0) (m : M A) : Type 0 where
  pub result : (site : Site) → Seen E site.vars → P (m site).0 × Seen (R (m site).0) (m site).1.vars

abbrev pub Stays : {A : Type 0} → Env → (A → Type 0) → M A → Type 0
Stays E P m = Makes E (λ a. E) P m

module _ {A : Type 0} where
  pub Makes-pure :
      (E : Env) (R : A → Env) (P : A → Type 0) (a : A) → P a → Within E (R a) → Makes E R P (pure a)
  Makes-pure E R P a h w = record { result = λ site s. (h, Seen-weaken E (R a) site.vars w s) }

  pub Makes-weaken :
      (E : Env) (R S : A → Env) (P Q : A → Type 0) (m : M A)
      → ((a : A) → P a → Q a)
      → ((a : A) → P a → Within (R a) (S a))
      → Makes E R P m
      → Makes E S Q m
  Makes-weaken E R S P Q m k w h = record {
    result = λ site s.
        let r = h.result site s in
        let a = (m site).0 in (k a r.0, Seen-weaken (R a) (S a) _ (w a r.0) r.1);
  }

  pub Makes-from :
      (D E : Env) (R : A → Env) (P : A → Type 0) (m : M A)
      → Within D E
      → Makes E R P m
      → Makes D R P m
  Makes-from D E R P m w h = record {
    result = λ site s. h.result site (Seen-weaken D E site.vars w s);
  }

  pub Makes-if :
      (E : Env) (R : A → Env) (P : A → Type 0) (t : Bool) (m n : M A)
      → Makes E R P m
      → Makes E R P n
      → Makes E R P (if t then m else n)
  Makes-if E R P true m n h k = h
  Makes-if E R P false m n h k = k

  pub Stays-lift : (E : Env) (P : A → Type 0) (m : G A) → Yields P m → Stays E P (lift m)
  unfolding lift
  Stays-lift E P m h = record { result = λ site s. (h.answer site.gen, s) }

  pub Stays-scoped :
      (E : Env) (P : A → Type 0) (f : List Var → G A)
      → ((vars : List Var) → Seen E vars → Yields P (f vars))
      → Stays E P (scoped f)
  unfolding lift scoped
  Stays-scoped E P f h = record { result = λ site s. ((h site.vars s).answer site.gen, s) }

  pub Stays-child :
      (E : Env) (R : A → Env) (P : A → Type 0) (m : M A) → Makes E R P m → Stays E P (child m)
  unfolding child
  Stays-child E R P m h = record { result = λ site s. ((h.result site s).0, s) }

pub Makes-push :
    (E F : Env) (more : List Var)
    → Within E F
    → Seen F more
    → Makes E (λ a. F) (λ a. Unit {0}) (push more)
unfolding push
Makes-push E F more w h = record {
  result = λ site s.
      (tt, All-append (λ (v : Var). F v.name) site.vars more (Seen-weaken E F site.vars w s) h);
}

pub Makes-bind :
    {A B : Type 0} (E : Env) (R : A → Env) (P : A → Type 0) (S : B → Env) (Q : B → Type 0) (m : M A)
    (k : A → M B)
    → Makes E R P m
    → ((a : A) → P a → Makes (R a) S Q (k a))
    → Makes E S Q (m >>= k)
unfolding and_then
Makes-bind E R P S Q m k h l = record {
  result = λ site s. let r = h.result site s in (l (m site).0 r.0).result (m site).1 r.1;
}

-- After a step that leaves the scope in `E`.
pub Stays-bind :
    {A B : Type 0} (E : Env) (P : A → Type 0) (S : B → Env) (Q : B → Type 0) (m : M A) (k : A → M B)
    → Stays E P m
    → ((a : A) → P a → Makes E S Q (k a))
    → Makes E S Q (m >>= k)
Stays-bind E P S Q m k h l = Makes-bind E (λ a. E) P S Q m k h l

-- After a draw of which nothing is asked.
pub Stays-draw :
    {A B : Type 0} (E : Env) (S : B → Env) (Q : B → Type 0) (m : G A) (k : A → M B)
    → ((a : A) → Makes E S Q (k a))
    → Makes E S Q (lift m >>= k)
Stays-draw E S Q m k l =
    Stays-bind E (λ a. Unit {0}) S Q (lift m) k
      (Stays-lift E (λ a. Unit {0}) m (record { answer = λ g. tt })) (λ a h. l a)
