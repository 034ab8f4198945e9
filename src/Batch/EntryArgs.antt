-- ===== src/Batch/EntryArgs.antt =====
-- entry_args.ts: the arguments that every part of the harness gives to the entry procedure.
use mog_jit.Prelude.{ℕ, zero, suc, ◌+◌, ◌*◌, ◌<◌, ◌≡◌, ◌↔◌, refl, ap, arith, length, get_or}
use mog_jit.Batch.{entry_args_from, entry_args_for}

get_or-entry_args_from : (n i k : ℕ) → k < n → get_or (entry_args_from i n) k 0 ≡ 0x11 * (i + k + 1)
unfolding entry_args_from
get_or-entry_args_from zero i k h = elim h [ ]
get_or-entry_args_from (suc n) i zero h = omega arith
get_or-entry_args_from (suc n) i (suc k) h =
    omega (arith, get_or-entry_args_from n (i + 1) k (omega arith))

length-entry_args_from : (n i : ℕ) → length (entry_args_from i n) ≡ n
unfolding entry_args_from
length-entry_args_from zero i = refl
length-entry_args_from (suc n) i = ap suc (length-entry_args_from n (i + 1))

-- There are n arguments, each of the n is non-zero, and two equal ones stand at the same place.
pub entry_args_distinct :
    (n i k : ℕ)
    → i < n
    → k < n
    → (length (entry_args_for n) ≡ n)
      × (0 < get_or (entry_args_for n) i 0)
      × ((get_or (entry_args_for n) i 0 ≡ get_or (entry_args_for n) k 0) ↔ (i ≡ k))
unfolding entry_args_for
entry_args_distinct n i k h l =
    let first = get_or-entry_args_from n 0 i h in
    let second = get_or-entry_args_from n 0 k l in
    (
      length-entry_args_from n 0,
      omega (arith, first),
      (λ e. omega (arith, first, second, e), λ e. ap (λ j. get_or (entry_args_for n) j 0) e),
    )
