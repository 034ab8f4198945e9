-- ===== src/Rng.antt =====
-- fuzz/ts/gen/rng.ts: the seeded generator of pseudo-random numbers. Its one field `state` is passed
-- along; every operation returns its answer with the state that it leaves.
pub mod Draws
mod Shuffle
mod Tests
use Prim.Native.Nat.{bit_or, bit_xor}
use mog_jit.Prelude.{
  Bool, ltb, ℕ, zero, suc, ◌+◌, ◌-◌, ◌*◌, ◌/◌, ◌^◌, List, [], ◌∷◌, Option, none, some, length,
  get_elem?, set,
}
use mog_jit.Prelude.Word.{to_u32}

-- `new Rng(seed)`.
unfoldable pub seeded : ℕ → ℕ
seeded seed = to_u32 seed

-- `Math.imul`, as the word that it is a signed reading of.
abbrev pub imul : ℕ → ℕ → ℕ
imul a b = to_u32 (a * b)

-- Mulberry32's output for a state.
unfoldable pub mixed : ℕ → ℕ
mixed s =
    let t = imul (bit_xor s (s / 2 ^ 15)) (bit_or s 1) in
    let u = to_u32 (bit_xor t (to_u32 (t + imul (bit_xor t (t / 2 ^ 7)) (bit_or t 61)))) in
    to_u32 (bit_xor u (u / 2 ^ 14))

-- `next`, times 2 ^ 32: the answer is a fraction, and this is its numerator.
unfoldable pub next : ℕ → ℕ × ℕ
unfolding mixed
next state = let s = to_u32 (state + 0x6d2b79f5) in (mixed s, s)

-- `int`: the product is exact in a double for an `n` up to 2 ^ 21.
unfoldable pub int : ℕ → ℕ → ℕ × ℕ
unfolding next
int n state = let drawn = next state in (drawn.0 * n / 2 ^ 32, drawn.1)

unfoldable pub between : ℕ → ℕ → ℕ → ℕ × ℕ
unfolding int
between lo hi state = let drawn = int (hi - lo + 1) state in (lo + drawn.0, drawn.1)

-- `chance`, for a probability that is given as a fraction.
unfoldable pub chance : ℕ → ℕ → ℕ → Bool × ℕ
unfolding next
chance num den state = let drawn = next state in (ltb (drawn.0 * den) (num * 2 ^ 32), drawn.1)

module _ {ℓ} {A : Type ℓ} where
  -- `none` is the exception on an empty list.
  unfoldable pub pick : List A → ℕ → Option A × ℕ
  unfolding int
  pick [] state = (none, state)
  pick (x ∷ xs) state =
      let drawn = int (suc (length xs)) state in (get_elem? (x ∷ xs) drawn.0, drawn.1)

  -- `maybePick`; `none` is `undefined`, and the state is left alone then.
  unfoldable pub maybe_pick : List A → ℕ → Option A × ℕ
  unfolding int
  maybe_pick [] state = (none, state)
  maybe_pick (x ∷ xs) state =
      let drawn = int (suc (length xs)) state in (get_elem? (x ∷ xs) drawn.0, drawn.1)

  -- `const a = out[i]!, b = out[j]!; out[i] = b; out[j] = a`. `none` is an array that holds an
  -- `undefined`, from a place outside of it on.
  unfoldable pub exchanged : Option (List A) → ℕ → ℕ → Option (List A)
  exchanged none i j = none
  exchanged (some out) i j = elim (get_elem? out i) [
    | none ↦ none
    | some a ↦ elim (get_elem? out j) [ none ↦ none | some b ↦ some (set (set out i b) j a) ]
  ]

  -- The rounds of `shuffled` for `i` down to 1.
  unfoldable pub shuffle_from : Option (List A) → ℕ → ℕ → Option (List A) × ℕ
  unfolding exchanged int
  shuffle_from out zero state = (out, state)
  shuffle_from out (suc i) state =
      let drawn = int (suc i + 1) state in shuffle_from (exchanged out (suc i) drawn.0) i drawn.1

  unfoldable pub shuffled : List A → ℕ → Option (List A) × ℕ
  unfolding shuffle_from
  shuffled items state = shuffle_from (some items) (length items - 1) state
