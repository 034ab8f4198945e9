-- ===== src/Rng/Shuffle.antt =====
-- rng.ts: `shuffled` only reorders, since every draw is a place of the array.
use mathlib.Core.List.{Perm}
use mathlib.Core.List.Perm
use mog_jit.Prelude.{
  ℕ, zero, suc, ◌+◌, ◌-◌, ◌<◌, ◌≡◌, ◌∙◌, refl, sym, subst, arith, List, [], ◌∷◌, Option, some,
  length, length-set, set,
}
use mog_jit.Prelude.Swap.{swap, swap-Perm}
use mog_jit.Rng.{int, exchanged, shuffle_from, shuffled}
use mog_jit.Rng.Draws.{int-lt, get_elem?-some}

module _ {A : Type 0} where
  -- An answer that is an array of the same elements and the same length.
  abbrev Reorders : List A → Option (List A) → Type 0
  Reorders items answer =
      (out : List A) × (answer ≡ some out) × Perm items out × (length out ≡ length items)

  exchanged-Reorders :
      (items : List A) (i j : ℕ)
      → i < length items
      → j < length items
      → Reorders items (exchanged (some items) i j)
  unfolding exchanged swap
  exchanged-Reorders items i j h k =
      let (a, e) = get_elem?-some items i h in
      let (b, f) = get_elem?-some items j k in
      let same : swap items i j ≡ set (set items i b) j a = rw (swap, e, f) refl in
      (
        set (set items i b) j a,
        rw (exchanged, e, f) refl,
        subst (Perm items) same (swap-Perm items i j),
        length-set (set items i b) j a ∙ length-set items i b,
      )

  Reorders-trans :
      (items out : List A) (answer : Option (List A))
      → Perm items out
      → length out ≡ length items
      → Reorders out answer
      → Reorders items answer
  Reorders-trans items out answer p l (last, e, q, m) = (last, e, Perm.trans p q, m ∙ l)

  shuffle_from-Reorders :
      (items : List A) (i state : ℕ)
      → i < length items
      → Reorders items (shuffle_from (some items) i state).0
  unfolding shuffle_from
  shuffle_from-Reorders items zero state h = (items, refl, Perm.refl items, refl)
  shuffle_from-Reorders items (suc i) state h =
      let drawn = int (suc i + 1) state in
      let below = (int-lt (suc i + 1) state (omega arith)).0 in
      let (out, e, p, l) = exchanged-Reorders items (suc i) drawn.0 h (omega (arith, below, h)) in
      subst (λ o. Reorders items (shuffle_from o i drawn.1).0) (sym e)
        (Reorders-trans items out _ p l (shuffle_from-Reorders out i drawn.1 (omega (arith, h, l))))

  -- Whatever the state, the shuffled array holds no `undefined`, and it is a permutation of the
  -- given one.
  pub shuffled-Perm :
      (items : List A) (state : ℕ)
      → (out : List A) × ((shuffled items state).0 ≡ some out) × Perm items out
  unfolding shuffled shuffle_from
  shuffled-Perm [] state = ([], refl, Perm.refl [])
  shuffled-Perm (x ∷ xs) state =
      let (out, e, p, l) =
        shuffle_from-Reorders (x ∷ xs) (length (x ∷ xs) - 1) state (omega arith) in
      (out, e, p)
