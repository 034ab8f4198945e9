-- ===== src/Batch.antt =====
-- fuzz/ts/lib/batch.ts and fuzz/ts/lib/entry_args.ts: the batch of programs for the emulated target,
-- and fuzz/src/qemu-exec/exec_runner.cpp's walk over it. A buffer is the list of its bytes.
mod Reader
mod Chunks
mod Layout
mod EntryArgs
mod Tests
use mog_jit.Prelude.{
  ℕ, zero, suc, ◌+◌, ◌*◌, ◌/◌, ◌%◌, ◌^◌, Bool, true, false, not, ◌&&◌, List, [], ◌∷◌, ◌++◌, length,
  ltb,
}
use mog_jit.Prelude.Word.{to_u32}

abbrev pub batch_magic : ℕ
batch_magic = 0x50504c42

abbrev pub batch_limit : ℕ
batch_limit = 0x20000

abbrev pub program_max : ℕ
program_max = 4096

pub record BatchEntry : Type 0 where
  pub bytes : List ℕ
  pub entry_args : List ℕ

-- `need` of `chunk`.
unfoldable pub need : BatchEntry → ℕ
need e = 4 + 4 + 4 * length e.entry_args + length e.bytes

-- `bytes + need > BATCH_LIMIT && current.length > 0`.
unfoldable pub overflows : List BatchEntry → ℕ → Bool
overflows [] bytes = false
overflows (c ∷ cs) bytes = ltb batch_limit bytes

-- The loop of `chunk`, from its `current` and `bytes` on; what it pushes, in that order.
unfoldable pub chunk_from : List BatchEntry → List BatchEntry → ℕ → List (List BatchEntry)
unfolding overflows
chunk_from [] [] bytes = []
chunk_from [] (c ∷ cs) bytes = (c ∷ cs) ∷ []
chunk_from (e ∷ es) current bytes = elim (overflows current (bytes + need e)) [
  | true ↦ current ∷ chunk_from es (e ∷ []) (8 + need e)
  | false ↦ chunk_from es (current ++ (e ∷ [])) (bytes + need e)
]

unfoldable pub chunk : List BatchEntry → List (List BatchEntry)
unfolding chunk_from
chunk entries = chunk_from entries [] 8

-- `writeUInt32LE` of a number below 2 ^ 32; it throws on a larger one.
unfoldable pub u32_le : ℕ → List ℕ
u32_le n = n % 2 ^ 8 ∷ n / 2 ^ 8 % 2 ^ 8 ∷ n / 2 ^ 16 % 2 ^ 8 ∷ n / 2 ^ 24 % 2 ^ 8 ∷ []

unfoldable pub write_args : List ℕ → List ℕ
unfolding u32_le
write_args [] = []
write_args (v ∷ vs) = u32_le (to_u32 v) ++ write_args vs

unfoldable pub write_entry : BatchEntry → List ℕ
unfolding u32_le write_args
write_entry e =
    u32_le (length e.bytes) ++ u32_le (length e.entry_args) ++ write_args e.entry_args ++ e.bytes

unfoldable pub write_entries : List BatchEntry → List ℕ
unfolding write_entry
write_entries [] = []
write_entries (e ∷ es) = write_entry e ++ write_entries es

-- What `writeBatch` puts into the file.
unfoldable pub write_batch : List BatchEntry → List ℕ
unfolding u32_le write_entries
write_batch entries = u32_le batch_magic ++ u32_le (length entries) ++ write_entries entries

-- `entryArgsFor`, from an index on.
unfoldable pub entry_args_from : ℕ → ℕ → List ℕ
entry_args_from i zero = []
entry_args_from i (suc n) = 0x11 * (i + 1) ∷ entry_args_from (i + 1) n

unfoldable pub entry_args_for : ℕ → List ℕ
unfolding entry_args_from
entry_args_for arg_count = entry_args_from 0 arg_count
