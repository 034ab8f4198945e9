-- ===== src/Batch/Reader.antt =====
-- exec_runner.cpp, main: the walk over the batch window. The cursor is the rest of the window, so
-- that `end - cursor` is its length. A program's run is not modelled, only which programs are run.
use mog_jit.Prelude.{
  ℕ, zero, suc, ◌+◌, ◌*◌, ◌/◌, ◌^◌, Bool, true, false, not, ◌||◌, List, [], ◌∷◌, Option, none, some,
  length, ltb, ◌==◌,
}
use mog_jit.Batch.{BatchEntry}

infixl 5 ◌>>=◌
abbrev pub ◌>>=◌ : {A B : Type 0} → Option A → (A → Option B) → Option B
none >>= k = none
some a >>= k = k a

-- BATCH_MAGIC and PROGRAM_MAX as the runner has them.
abbrev pub runner_magic : ℕ
runner_magic = 0x50504c42

abbrev pub runner_program_max : ℕ
runner_program_max = 4096

abbrev pub entry_args_max : ℕ
entry_args_max = 16

-- `readU32` at the cursor; `none` is the bounds check before it.
unfoldable pub read_u32 : List ℕ → Option (ℕ × List ℕ)
read_u32 (a ∷ b ∷ c ∷ d ∷ rest) = some (a + 2 ^ 8 * b + 2 ^ 16 * c + 2 ^ 24 * d, rest)
read_u32 _ = none

-- The loop that copies the entry arguments.
unfoldable pub read_args : ℕ → List ℕ → Option (List ℕ × List ℕ)
unfolding read_u32
read_args zero cursor = some ([], cursor)
read_args (suc n) cursor = do
  (v, rest) ← read_u32 cursor
  (vs, last) ← read_args n rest
  some (v ∷ vs, last)

-- The program's bytes, in place, and the cursor after them.
unfoldable pub split_at : ℕ → List ℕ → List ℕ × List ℕ
split_at zero xs = ([], xs)
split_at (suc n) [] = ([], [])
split_at (suc n) (x ∷ xs) = let rest = split_at n xs in (x ∷ rest.0, rest.1)

-- A check that breaks the loop where it holds.
abbrev unless : {A : Type 0} → Bool → Option A → Option A
unless true o = none
unless false o = o

-- `len == 0 || len > PROGRAM_MAX || len > (uint32_t)(end - cursor)`.
unfoldable pub bad_length : ℕ → List ℕ → Bool
bad_length len cursor = (len == 0) || (ltb runner_program_max len || ltb (length cursor) len)

-- `argCount > ENTRY_ARGS_MAX || (uint32_t)(end - cursor) / 4 < argCount`.
unfoldable pub bad_count : ℕ → List ℕ → Bool
bad_count arg_count cursor = ltb entry_args_max arg_count || ltb (length cursor / 4) arg_count

-- `len > (uint32_t)(end - cursor)`.
unfoldable pub too_long : ℕ → List ℕ → Bool
too_long len cursor = ltb (length cursor) len

-- One round: the entry that it runs with the cursor after it, or `none` for a `break`.
unfoldable pub read_entry : List ℕ → Option (BatchEntry × List ℕ)
unfolding read_u32
read_entry cursor = do
  (len, at_count) ← read_u32 cursor
  (arg_count, at_args) ← unless (bad_length len at_count) (read_u32 at_count)
  (args, at_program) ← unless (bad_count arg_count at_args) (read_args arg_count at_args)
  unless (too_long len at_program) (
      let program = split_at len at_program in
      some (record { bytes = program.0; entry_args = args }, program.1))

-- The loop over `count`, which a `break` ends early.
unfoldable pub read_entries : ℕ → List ℕ → List BatchEntry
unfolding read_entry
read_entries zero cursor = []
read_entries (suc n) cursor = elim (read_entry cursor) [
  | none ↦ []
  | some (e, rest) ↦ e ∷ read_entries n rest
]

-- The whole walk; `none` is the exit on a magic that is not there.
unfoldable pub read_batch : List ℕ → Option (List BatchEntry)
unfolding read_u32 read_entries
read_batch window = do
  (magic, at_count) ← read_u32 window
  (count, at_entries) ← unless (not (magic == runner_magic)) (read_u32 at_count)
  some (read_entries count at_entries)
