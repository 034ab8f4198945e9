-- ===== src/Mutate/Machine.antt =====
-- mutate.ts: what a context and a scope hold, and the draws. A context's counters, the names taken and
-- the generator's state are passed along; a scope's variables are an argument.
use mog_jit.Prelude.{
  ℕ, zero, suc, ◌+◌, Bool, List, ◌∷◌, ◌++◌, Option, length, get_or, if◌then◌else◌,
}
use mog_jit.Prelude.Text.{Text}
use mog_jit.Prelude.Decimal.{decimal}
use mog_jit.Ast.{PrimType}
use mog_jit.Core.{Act, ◌>>=◌, pure}
use mog_jit.Eval.Ops.{one_of}
use mog_jit.Rng.{int, between, chance, maybe_pick}

pub record Var : Type 0 where
  pub name : Text
  pub var_type : PrimType

-- `rng`, `counter`, `used` and `applied`.
pub record Gen : Type 0 where
  pub rng : ℕ
  pub counter : ℕ
  pub used : List Text
  pub applied : ℕ

abbrev pub G : Type 0 → Type 0
G A = Act Gen A

-- The draw leaves its state in the context.
abbrev pub drawn : {A : Type 0} → (ℕ → A × ℕ) → G A
drawn d g = ((d g.rng).0, record g { rng = (d g.rng).1 })

abbrev pub rolls : ℕ → ℕ → G Bool
rolls num den = drawn (chance num den)

abbrev pub below : ℕ → G ℕ
below n = drawn (int n)

abbrev pub within : ℕ → ℕ → G ℕ
within lo hi = drawn (between lo hi)

abbrev pub perhaps : {A : Type 0} → List A → G (Option A)
perhaps items = drawn (maybe_pick items)

-- `pick` of the list `x ∷ xs`, which is not empty.
unfoldable pub one_from : {A : Type 0} → A → List A → G A
one_from x xs = do i ← below (suc (length xs)); pure (get_or (x ∷ xs) i x)

-- `ctx.applied++`.
unfoldable pub count_applied : G (Unit {0})
count_applied g = (tt, record g { applied = g.applied + 1 })

-- `v` and the counter, or another prefix.
unfoldable pub numbered : Text → ℕ → Text
numbered prefix n = prefix ++ decimal n

-- `fresh`: the loop passes over the names that are taken.
unfoldable pub first_unused : Text → ℕ → ℕ → List Text → ℕ
first_unused prefix zero n used = n
first_unused prefix (suc fuel) n used =
    let later = first_unused prefix fuel (n + 1) used in
    if one_of (numbered prefix n) used then later else n

unfoldable pub fresh : Text → G Text
unfolding first_unused numbered
fresh prefix g =
    let n = first_unused prefix (length g.used) g.counter g.used in
    let name = numbered prefix n in (name, record g { counter = n + 1; used = name ∷ g.used })
