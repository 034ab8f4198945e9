-- ===== src/Rng/Tests.antt =====
-- The laws of the generator at concrete seeds.
use mathlib.Core.List.{Perm}
use mog_jit.Prelude.{ℕ, ◌<◌, ◌≤◌, ◌≡◌, ◌⊎◌, arith, List, [], ◌∷◌, none, some, get_elem?}
use mog_jit.Prelude.Word.{IsWord}
use mog_jit.Rng.{seeded, int, between, pick, shuffled}
use mog_jit.Rng.Draws.{int-lt, between_bounds, pick_member}
use mog_jit.Rng.Shuffle.{shuffled-Perm}

int-lt_example : ((int 6 (seeded 1)).0 < 6) × IsWord (int 6 (seeded 1)).1
int-lt_example = int-lt 6 (seeded 1) (omega arith)

between_bounds_example : (3 ≤ (between 3 9 (seeded 7)).0) × ((between 3 9 (seeded 7)).0 ≤ 9)
between_bounds_example = between_bounds 3 9 (seeded 7) (omega arith)

abbrev three_items : List ℕ
three_items = 5 ∷ 6 ∷ 7 ∷ []

pick_member_example :
    ((three_items ≡ []) × (pick three_items (seeded 1) ≡ (none, seeded 1)))
    ⊎ ((i : ℕ) × (a : ℕ) × (get_elem? three_items i ≡ some a)
        × ((pick three_items (seeded 1)).0 ≡ some a))
pick_member_example = pick_member three_items (seeded 1)

shuffled-Perm_example :
    (out : List ℕ) × ((shuffled three_items (seeded 1)).0 ≡ some out) × Perm three_items out
shuffled-Perm_example = shuffled-Perm three_items (seeded 1)
