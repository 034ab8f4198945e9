-- ===== src/Prelude/Swap.antt =====
-- The exchange of two elements of a list, which JavaScript writes with two assignments.
use mathlib.Core.Path.{◌≡◌, refl}
use mathlib.Core.Logic.{inl, inr}
use mathlib.Core.Option.{none, some}
use mathlib.Core.List.{List, [], ◌∷◌, Perm, Permᴰ, perm-cons}
use mathlib.Core.List.Permᴰ
use Prim.Native.Nat.{ℕ, zero, suc}
use mog_jit.Prelude.Tests.{Option-cases}
use mog_jit.Prelude.Lists.{get_elem?, set}

module _ {ℓ} {A : Type ℓ} where
  -- `const a = out[i], b = out[j]; out[i] = b; out[j] = a`, where both are inside.
  unfoldable pub swap : List A → ℕ → ℕ → List A
  swap out i j = elim (get_elem? out i) [
    | none ↦ out
    | some a ↦ elim (get_elem? out j) [ none ↦ out | some b ↦ set (set out i b) j a ]
  ]

module _ {A : Type 0} where
  -- Writing `v` at the place of `a` and putting `a` in front only reorders.
  exchange :
      (xs : List A) (i : ℕ) (a v : A) → get_elem? xs i ≡ some a → Permᴰ (v ∷ xs) (a ∷ set xs i v)
  exchange [] i a v h = cc
  exchange (x ∷ xs) zero a v h = Permᴰ.swap refl cc
  exchange (x ∷ xs) (suc i) a v h =
      Permᴰ.trans (Permᴰ.swap refl refl)
        (Permᴰ.trans (Permᴰ.cons refl (exchange xs i a v h)) (Permᴰ.swap refl refl))

  get_elem?-set :
      (xs : List A) (i j : ℕ) (a b : A)
      → get_elem? xs i ≡ some a
      → get_elem? xs j ≡ some b
      → get_elem? (set xs i b) j ≡ some b
  get_elem?-set [] i j a b h k = cc
  get_elem?-set (x ∷ xs) zero zero a b h k = refl
  get_elem?-set (x ∷ xs) zero (suc j) a b h k = k
  get_elem?-set (x ∷ xs) (suc i) zero a b h k = k
  get_elem?-set (x ∷ xs) (suc i) (suc j) a b h k = get_elem?-set xs i j a b h k

  pub swap-Perm : (out : List A) (i j : ℕ) → Perm out (swap out i j)
  unfolding swap
  swap-Perm out i j = elim (Option-cases (get_elem? out i)) [
    | inl e ↦ rw (e, swap) (∣ Permᴰ.refl out ∣₁)
    | inr (a, e) ↦
        rw (e, swap)
          (elim (Option-cases (get_elem? out j)) [
            | inl f ↦ rw f (∣ Permᴰ.refl out ∣₁)
            | inr (b, f) ↦ rw f (
                (perm-cons b).0 (
                  ∣ Permᴰ.trans (exchange out i a b e)
                    (exchange (set out i b) j b a (get_elem?-set out i j a b e f)) ∣₁))
          ])
  ]
