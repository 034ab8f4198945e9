-- ===== src/Rng/Draws.antt =====
-- rng.ts: the ranges of what `next`, `int`, `between` and `pick` draw.
use native.Mathlib.Nat.{div-lt_iff_lt-mul, mul_comm, mul-lt-mul_of_pos_right}
use mog_jit.Prelude.{
  zero, subst, none, ℕ, suc, ◌+◌, ◌-◌, ◌*◌, ◌/◌, ◌^◌, ◌<◌, ◌≤◌, ◌≡◌, refl, arith, List, [], ◌∷◌,
  some, length, get_elem?, ◌⊎◌, inl, inr,
}
use mog_jit.Prelude.Word.{IsWord}
use mog_jit.Rng.{mixed, next, int, between, pick}

next-IsWord : (state : ℕ) → IsWord (next state).0 × IsWord (next state).1
unfolding next mixed
next-IsWord state = (omega arith, omega arith)

scaled-lt : (x n : ℕ) → x < 2 ^ 32 → 0 < n → x * n / 2 ^ 32 < n
scaled-lt x n h p =
    let f : x * n < 2 ^ 32 * n = mul-lt-mul_of_pos_right h p in
    (div-lt_iff_lt-mul (omega arith)).1 (subst (λ k. x * n < k) (mul_comm (2 ^ 32) n) f)

-- For a positive n, a draw below n is below n, and leaves a word as the state.
pub int-lt : (n state : ℕ) → 0 < n → ((int n state).0 < n) × IsWord (int n state).1
unfolding int
int-lt n state p = (scaled-lt (next state).0 n (next-IsWord state).0 p, (next-IsWord state).1)

-- A draw between two bounds, the first no larger than the second, lies between them.
pub between_bounds :
    (lo hi state : ℕ) → lo ≤ hi → (lo ≤ (between lo hi state).0) × ((between lo hi state).0 ≤ hi)
unfolding between
between_bounds lo hi state h =
    let drawn = (int-lt (hi - lo + 1) state (omega arith)).0 in (omega arith, omega arith)

pub get_elem?-some :
    {A : Type 0} (xs : List A) (i : ℕ) → i < length xs → (a : A) × (get_elem? xs i ≡ some a)
get_elem?-some [] i h = elim h [ ]
get_elem?-some (x ∷ xs) zero h = (x, refl)
get_elem?-some (x ∷ xs) (suc i) h = get_elem?-some xs i (omega arith)

-- `pick` throws exactly on an empty list, and answers with one of the elements otherwise.
pub pick_member :
    {A : Type 0} (items : List A) (state : ℕ)
    → ((items ≡ []) × (pick items state ≡ (none, state)))
      ⊎ ((i : ℕ) × (a : A) × (get_elem? items i ≡ some a) × ((pick items state).0 ≡ some a))
unfolding pick
pick_member [] state = inl (refl, refl)
pick_member (x ∷ xs) state =
    let drawn = int (suc (length xs)) state in
    let found = get_elem?-some (x ∷ xs) drawn.0 (int-lt (suc (length xs)) state (omega arith)).0 in
    inr (drawn.0, found.0, found.1, found.1)
