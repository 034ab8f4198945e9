-- ===== src/Mutate/Yields.antt =====
-- mutate.ts: actions whose answers have a property, whatever is drawn.
use mog_jit.Prelude.{
  ℕ, zero, suc, Bool, true, false, List, [], ◌∷◌, All, All-get_or, Option, none, some, get_elem?,
  length, if◌then◌else◌,
}
use mog_jit.Core.{and_then, ◌>>=◌, pure}
use mog_jit.Rng.{maybe_pick}
use mog_jit.Mutate.Machine.{Gen, G, perhaps, one_from, below}

pub record Yields {A : Type 0} (P : A → Type 0) (m : G A) : Type 0 where
  pub answer : (g : Gen) → P (m g).0

module _ {A : Type 0} where
  abbrev pub Maybe : (A → Type 0) → Option A → Type 0
  Maybe P none = Unit
  Maybe P (some a) = P a

  pub Yields-pure : (P : A → Type 0) (a : A) → P a → Yields P (pure a)
  Yields-pure P a h = record { answer = λ g. h }

  pub Yields-weaken : (P Q : A → Type 0) (m : G A) → ((a : A) → P a → Q a) → Yields P m → Yields Q m
  Yields-weaken P Q m k h = record { answer = λ g. k (m g).0 (h.answer g) }

  pub Yields-if :
      (P : A → Type 0) (t : Bool) (m n : G A)
      → Yields P m
      → Yields P n
      → Yields P (if t then m else n)
  Yields-if P true m n h k = h
  Yields-if P false m n h k = k

  pub Yields-any : (m : G A) → Yields (λ _. Unit {0}) m
  Yields-any m = record { answer = λ g. tt }

  pub Yields-one_from :
      (P : A → Type 0) (x : A) (xs : List A) → All P (x ∷ xs) → Yields P (one_from x xs)
  unfolding one_from and_then
  Yields-one_from P x xs h = record {
    answer = λ g. All-get_or P (x ∷ xs) (below (suc (length xs)) g).0 x h.0 h;
  }

  All-get_elem? : (P : A → Type 0) (xs : List A) (i : ℕ) → All P xs → Maybe P (get_elem? xs i)
  All-get_elem? P [] i h = tt
  All-get_elem? P (x ∷ xs) zero h = h.0
  All-get_elem? P (x ∷ xs) (suc i) h = All-get_elem? P xs i h.1

  maybe_pick-Maybe :
      (P : A → Type 0) (xs : List A) (state : ℕ) → All P xs → Maybe P (maybe_pick xs state).0
  unfolding maybe_pick
  maybe_pick-Maybe P [] state h = tt
  maybe_pick-Maybe P (x ∷ xs) state h = All-get_elem? P (x ∷ xs) _ h

  pub Yields-perhaps : (P : A → Type 0) (xs : List A) → All P xs → Yields (Maybe P) (perhaps xs)
  Yields-perhaps P xs h = record { answer = λ g. maybe_pick-Maybe P xs g.rng h }

pub Yields-bind :
    {A B : Type 0} (P : A → Type 0) (Q : B → Type 0) (m : G A) (k : A → G B)
    → Yields P m
    → ((a : A) → P a → Yields Q (k a))
    → Yields Q (m >>= k)
unfolding and_then
Yields-bind P Q m k h l = record { answer = λ g. (l (m g).0 (h.answer g)).answer (m g).1 }

-- Where nothing is asked of the first answer.
pub Yields-then :
    {A B : Type 0} (Q : B → Type 0) (m : G A) (k : A → G B)
    → ((a : A) → Yields Q (k a))
    → Yields Q (m >>= k)
Yields-then Q m k l = Yields-bind (λ _. Unit {0}) Q m k (Yields-any m) (λ a h. l a)

-- To run an action that was drawn.
pub Yields-run :
    {A : Type 0} (P : A → Type 0) (x : G A) (xs : List (G A))
    → All (Yields P) (x ∷ xs)
    → Yields P (do act ← one_from x xs; act)
Yields-run P x xs h =
    Yields-bind (Yields P) P (one_from x xs) _ (Yields-one_from (Yields P) x xs h) (λ a k. k)
