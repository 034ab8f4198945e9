-- ===== src/Median5.antt =====
-- bench/ts/lib/workloads/median5.ts: the sorting network, and the filter of `reference`. A sample is
-- a 16-bit cell, whose top bit is its sign.
mod Sorts
mod Tests
use mog_jit.Prelude.{
  ℕ, zero, suc, ◌+◌, ◌-◌, ◌%◌, ◌^◌, List, [], ◌∷◌, get_or, ltb, Option, none, some, if◌then◌else◌,
}
use mog_jit.Prelude.Swap.{swap}
use mog_jit.SampStream.{in_samples}

abbrev pub taps : ℕ
taps = 5

abbrev pub median_index : ℕ
median_index = 2

-- The order of signed numbers on their cells.
abbrev pub key : ℕ → ℕ
key cell = (cell + 2 ^ 15) % 2 ^ 16

abbrev pub network : List (ℕ × ℕ)
network = (0, 1) ∷ (3, 4) ∷ (2, 4) ∷ (2, 3) ∷ (1, 4) ∷ (0, 3) ∷ (0, 2) ∷ (1, 3) ∷ (1, 2) ∷ []

-- `if(v[x] > v[y]) [v[x], v[y]] = [v[y], v[x]]`.
unfoldable pub compare_exchange : ℕ → ℕ → List ℕ → List ℕ
unfolding swap
compare_exchange x y v = if ltb (key (get_or v y 0)) (key (get_or v x 0)) then swap v x y else v

unfoldable pub run_network : List (ℕ × ℕ) → List ℕ → List ℕ
unfolding compare_exchange
run_network [] v = v
run_network ((x, y) ∷ rest) v = run_network rest (compare_exchange x y v)

-- `v`: the taps up to sample i, from the tap k on. The index wraps below 0 as well.
unfoldable pub window_from : List ℕ → ℕ → ℕ → List ℕ
window_from input i zero = []
window_from input i (suc k) =
    get_or input ((i + in_samples - k) % in_samples) 0 ∷ window_from input i k

-- What `reference` puts out for the samples from i on.
unfoldable pub reference_from : List ℕ → ℕ → ℕ → List ℕ
unfolding window_from run_network
reference_from input i zero = []
reference_from input i (suc n) =
    get_or (run_network network (window_from input i taps)) median_index 0
    ∷ reference_from input (i + 1) n

unfoldable pub reference : List ℕ → ℕ → List ℕ
unfolding reference_from
reference input n = reference_from input 0 n
