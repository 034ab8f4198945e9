-- ===== src/RawMem/Loops.antt =====
-- rawmem_ext.ts: the loops of MEMMOVE, MEMCMP and SLICECMP, by the rounds that are left.
use mog_jit.Prelude.{ℕ, zero, suc, ◌+◌, ◌-◌, get_or, set, min, ◌==◌, if◌then◌else◌}
use mog_jit.Prelude.Word.{sub32}
use mog_jit.RawMem.Bytes.{Mem, masked}

-- `for(dst = dstStart; dst < dstEnd; dst++)`, forward and byte by byte; the source wraps.
unfoldable pub move : Mem → ℕ → ℕ → ℕ → Mem
move m dst src zero = m
move m dst src (suc n) = move (set m dst (get_or m src 0)) (dst + 1) (masked (src + 1)) n

-- The difference of the first bytes that differ, as a word, or what is given for a tie. The second
-- operand of MEMCMP wraps, and that of SLICECMP does not need to.
unfoldable pub compare_wrapping : Mem → ℕ → ℕ → ℕ → ℕ
compare_wrapping m a b zero = 0
compare_wrapping m a b (suc n) =
    let rest = compare_wrapping m (a + 1) (masked (b + 1)) n in
    let x = get_or m a 0 in let y = get_or m b 0 in if x == y then rest else sub32 x y

unfoldable pub compare_slices : Mem → ℕ → ℕ → ℕ → ℕ → ℕ
compare_slices m a b zero tie = tie
compare_slices m a b (suc n) tie =
    let rest = compare_slices m (a + 1) (b + 1) n tie in
    let x = get_or m a 0 in let y = get_or m b 0 in if x == y then rest else sub32 x y

-- The three opcodes on their operands, masked first. A range that ends at or below its start is
-- empty.
unfoldable pub memmove : Mem → ℕ → ℕ → ℕ → Mem
unfolding move
memmove m src dst_start dst_end =
    move m (masked dst_start) (masked src) (masked dst_end - masked dst_start)

unfoldable pub memcmp : Mem → ℕ → ℕ → ℕ → ℕ
unfolding compare_wrapping
memcmp m a_start a_end b_start =
    compare_wrapping m (masked a_start) (masked b_start) (masked a_end - masked a_start)

unfoldable pub slicecmp : Mem → ℕ → ℕ → ℕ → ℕ → ℕ
unfolding compare_slices
slicecmp m a_start a_end b_start b_end =
    let len_a = masked a_end - masked a_start in
    let len_b = masked b_end - masked b_start in
    compare_slices m (masked a_start) (masked b_start) (min len_a len_b) (sub32 len_a len_b)
