-- ===== src/Batch/Layout.antt =====
-- batch.ts, `writeBatch`, against exec_runner.cpp's walk: the file's size, and that it reads back.
use mog_jit.Prelude.{
  ℕ, suc, ◌+◌, ◌*◌, ◌^◌, ◌/◌, ◌%◌, ◌<◌, ◌≤◌, ◌≡◌, refl, arith, List, [], ◌∷◌, ◌++◌, append_assoc,
  length, length-append, All, false, some,
}
use mog_jit.Prelude.Word.{to_u32, IsWord}
use mog_jit.Batch.{
  BatchEntry, need, u32_le, write_args, write_entry, write_entries, write_batch, program_max,
  batch_limit,
}
use mog_jit.Batch.Reader.{
  bad_length, bad_count, too_long, read_args, split_at, read_entry, read_entries, read_batch,
  entry_args_max,
}

-- The bytes of a chunk's file.
unfoldable pub size_of : List BatchEntry → ℕ
unfolding need
size_of [] = 8
size_of (e ∷ es) = need e + size_of es

length-write_args : (vs : List ℕ) → length (write_args vs) ≡ 4 * length vs
unfolding write_args u32_le
length-write_args [] = omega arith
length-write_args (v ∷ vs) = omega (arith, length-write_args vs)

length-write_entry : (e : BatchEntry) → length (write_entry e) ≡ need e
unfolding write_entry u32_le need
length-write_entry e =
    let l = length-append (write_args e.entry_args) e.bytes in
    omega (arith, l, length-write_args e.entry_args)

length-write_entries : (es : List BatchEntry) → 8 + length (write_entries es) ≡ size_of es
unfolding write_entries size_of
length-write_entries [] = refl
length-write_entries (e ∷ es) =
    let l = length-append (write_entry e) (write_entries es) in
    omega (arith, l, length-write_entry e, length-write_entries es)

-- The file that `writeBatch` writes has the size that `chunk` reckons with.
pub length-write_batch : (es : List BatchEntry) → length (write_batch es) ≡ size_of es
unfolding write_batch u32_le
length-write_batch es = omega (arith, length-write_entries es)

-- The four bytes of a word add up to it.
bytes_sum :
    (n : ℕ)
    → IsWord n
    → n % 2 ^ 8
        + 2 ^ 8 * (n / 2 ^ 8 % 2 ^ 8)
        + 2 ^ 16 * (n / 2 ^ 16 % 2 ^ 8)
        + 2 ^ 24 * (n / 2 ^ 24 % 2 ^ 8)
      ≡ n
bytes_sum n h = omega arith

read_args-write_args :
    (vs rest : List ℕ)
    → All IsWord vs
    → read_args (length vs) (write_args vs ++ rest) ≡ some (vs, rest)
unfolding read_args write_args
read_args-write_args [] rest h = refl
read_args-write_args (v ∷ vs) rest h =
    let e : to_u32 v ≡ v = omega (arith, h.0) in
    rw (e, bytes_sum v h.0, read_args-write_args vs rest h.1) refl

split_at-append : (xs ys : List ℕ) → split_at (length xs) (xs ++ ys) ≡ (xs, ys)
unfolding split_at
split_at-append [] ys = refl
split_at-append (x ∷ xs) ys = rw (split_at-append xs ys) refl

-- What exec_runner.cpp takes: a program of 1 to PROGRAM_MAX bytes and at most 16 arguments.
pub record Servable (e : BatchEntry) : Type 0 where
  pub some_bytes : 0 < length e.bytes
  pub short : length e.bytes ≤ program_max
  pub few_args : length e.entry_args ≤ entry_args_max
  pub words : All IsWord e.entry_args

bad_length-false :
    (len : ℕ) (cursor : List ℕ)
    → 0 < len
    → len ≤ program_max
    → len ≤ length cursor
    → bad_length len cursor ≡ false
unfolding bad_length
bad_length-false len cursor p h k = ground arith

bad_count-false :
    (arg_count : ℕ) (cursor : List ℕ)
    → arg_count ≤ entry_args_max
    → 4 * arg_count ≤ length cursor
    → bad_count arg_count cursor ≡ false
unfolding bad_count
bad_count-false arg_count cursor h k = ground arith

too_long-false : (len : ℕ) (cursor : List ℕ) → len ≤ length cursor → too_long len cursor ≡ false
unfolding too_long
too_long-false len cursor h = ground arith

read_entry-write_entry :
    (e : BatchEntry) (rest : List ℕ)
    → Servable e
    → read_entry (write_entry e ++ rest) ≡ some (e, rest)
unfolding read_entry write_entry
read_entry-write_entry e rest h =
    let args = write_args e.entry_args in
    let at_program = e.bytes ++ rest in
    let at_args = args ++ at_program in
    let size = length-write_args e.entry_args in
    let l = length-append args at_program in
    let k = length-append e.bytes rest in
    rw
      (
        append_assoc args e.bytes rest,
        bytes_sum (length e.bytes) (omega (arith, h.short)),
        bad_length-false (length e.bytes) (u32_le (length e.entry_args) ++ at_args) h.some_bytes
            h.short (omega (arith, l, k)),
        bytes_sum (length e.entry_args) (omega (arith, h.few_args)),
        bad_count-false (length e.entry_args) at_args h.few_args (omega (arith, l, size)),
        read_args-write_args e.entry_args at_program h.words,
        too_long-false (length e.bytes) at_program (omega (arith, k)),
        split_at-append e.bytes rest,
      )
      refl

read_entries-zero : (cursor : List ℕ) → read_entries 0 cursor ≡ []
unfolding read_entries
read_entries-zero cursor = refl

read_entries-some :
    (n : ℕ) (cursor rest : List ℕ) (e : BatchEntry)
    → read_entry cursor ≡ some (e, rest)
    → read_entries (suc n) cursor ≡ e ∷ read_entries n rest
unfolding read_entries
read_entries-some n cursor rest e h = rw (h, read_entries) refl

read_entries-write_entries :
    (es : List BatchEntry) (rest : List ℕ)
    → All Servable es
    → read_entries (length es) (write_entries es ++ rest) ≡ es
unfolding write_entries
read_entries-write_entries [] rest h = read_entries-zero rest
read_entries-write_entries (e ∷ es) rest h =
    rw
      (
        append_assoc (write_entry e) (write_entries es) rest,
        read_entries-some (length es) (write_entry e ++ (write_entries es ++ rest))
            (write_entries es ++ rest) e (read_entry-write_entry e (write_entries es ++ rest) h.0),
        read_entries-write_entries es rest h.1,
      )
      refl

count_le_size : (es : List BatchEntry) → length es ≤ size_of es
unfolding size_of need
count_le_size [] = omega arith
count_le_size (e ∷ es) = omega (arith, count_le_size es)

-- The runner reads back every entry of a batch that fits the flash, whatever lies after it.
pub read_batch-write_batch :
    (es : List BatchEntry) (rest : List ℕ)
    → All Servable es
    → length (write_batch es) ≤ batch_limit
    → read_batch (write_batch es ++ rest) ≡ some es
unfolding read_batch write_batch
read_batch-write_batch es rest h fits =
    let few = count_le_size es in
    rw
      (
        bytes_sum (length es) (omega (arith, few, length-write_batch es, fits)),
        read_entries-write_entries es rest h,
      )
      refl
