-- ===== src/Batch/Tests.antt =====
-- The laws of the batch at two small programs.
use mog_jit.Prelude.{◌<◌, ◌≡◌, refl, arith, List, [], ◌∷◌, All, get_or, ◌↔◌, ℕ, length}
use mog_jit.Batch.{BatchEntry, chunk, need, entry_args_for}
use mog_jit.Batch.Layout.{Servable}
use mog_jit.Batch.EntryArgs.{entry_args_distinct}
use mog_jit.Batch.Chunks.{joined, IsChunk, IsServed, chunk_splits, chunk-IsServed}

abbrev two_programs : List BatchEntry
two_programs =
    record { bytes = 1 ∷ 2 ∷ 3 ∷ []; entry_args = 0x11 ∷ 0x22 ∷ [] }
    ∷ record { bytes = 9 ∷ []; entry_args = [] }
    ∷ []

two_programs-Servable : All Servable two_programs
two_programs-Servable = (
  record {
    some_bytes = omega arith;
    short = omega arith;
    few_args = omega arith;
    words = (omega arith, (omega arith, tt));
  },
  (
    record { some_bytes = omega arith; short = omega arith; few_args = omega arith; words = tt },
    tt,
  ),
)

one_chunk : chunk two_programs ≡ two_programs ∷ []
unfolding chunk need
one_chunk = refl

entry_args_distinct_example :
    (length (entry_args_for 4) ≡ 4)
    × (0 < get_or (entry_args_for 4) 1 0)
    × ((get_or (entry_args_for 4) 1 0 ≡ get_or (entry_args_for 4) 3 0) ↔ (◌≡◌ {A = ℕ} 1 3))
entry_args_distinct_example = entry_args_distinct 4 1 3 (omega arith) (omega arith)

chunk_splits_example :
    (joined (chunk two_programs) ≡ two_programs) × All IsChunk (chunk two_programs)
chunk_splits_example = chunk_splits two_programs

chunk-IsServed_example : All (IsServed (0xff ∷ [])) (chunk two_programs)
chunk-IsServed_example = chunk-IsServed two_programs (0xff ∷ []) two_programs-Servable
