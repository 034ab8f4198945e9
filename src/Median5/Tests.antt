-- ===== src/Median5/Tests.antt =====
-- The network and the filter at a spike below zero.
use mathlib.Core.List.{Perm}
use mog_jit.Prelude.{ℕ, ◌≡◌, refl, arith, List, [], ◌∷◌, get_or}
use mog_jit.Median5.{network, run_network, reference}
use mog_jit.Median5.Sorts.{IsSorted, run_network_sorts, reference_median}

-- 3, -2, 7, 0, -9 as 16-bit cells.
abbrev five : List ℕ
five = 3 ∷ 0xfffe ∷ 7 ∷ 0 ∷ 0xfff7 ∷ []

sorted_five : run_network network five ≡ 0xfff7 ∷ 0xfffe ∷ 0 ∷ 3 ∷ 7 ∷ []
unfolding run_network
sorted_five = refl

run_network_sorts_example :
    IsSorted (run_network network five) × Perm five (run_network network five)
run_network_sorts_example = run_network_sorts five refl

reference_median_example :
    (sorted : List ℕ) × Perm five sorted
    × IsSorted sorted
    × (get_or (reference five 5) 4 0 ≡ get_or sorted 2 0)
reference_median_example = reference_median five 5 4 (omega arith)
