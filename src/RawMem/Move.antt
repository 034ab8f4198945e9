-- ===== src/RawMem/Move.antt =====
-- MEMMOVE of rawmem_ext.ts: a forward byte copy into a range.
use mog_jit.Prelude.{
  ℕ, zero, suc, ◌+◌, ◌-◌, ◌^◌, ◌≤◌, ◌<◌, ◌≡◌, ◌⊎◌, inl, refl, ◌∙◌, arith, length, get_or, set, All,
  All-set, All-get_or, length-set, get_or-set_self, get_or-set_ne,
}
use mog_jit.RawMem.Bytes.{Mem, rawmem_bytes, masked}
use mog_jit.RawMem.Loops.{move, memmove}
use mog_jit.RawMem.Store.{IsMem}

get_or-move_out :
    (m : Mem) (dst src n i : ℕ)
    → (i < dst) ⊎ (dst + n ≤ i)
    → get_or (move m dst src n) i 0 ≡ get_or m i 0
unfolding move
get_or-move_out m dst src zero i h = refl
get_or-move_out m dst src (suc n) i h =
    get_or-move_out (set m dst (get_or m src 0)) (dst + 1) (masked (src + 1)) n i (omega arith)
    ∙ get_or-set_ne m dst i (get_or m src 0) 0 (omega arith)

-- The source is not written before it is read.
get_or-move :
    (m : Mem) (dst src n i : ℕ)
    → (dst ≤ src) ⊎ (src + n ≤ dst)
    → src + n ≤ rawmem_bytes
    → dst + n ≤ length m
    → i < n
    → get_or (move m dst src n) (dst + i) 0 ≡ get_or m (src + i) 0
unfolding move
get_or-move m dst src zero i c s d h = elim h [ ]
get_or-move m dst src (suc n) zero c s d h =
    let b = get_or m src 0 in
    let m' = set m dst b in
    let keep = get_or-move_out m' (dst + 1) (masked (src + 1)) n dst (inl (omega arith)) in
    let e : dst + 0 ≡ dst = omega arith in
    let e' : src + 0 ≡ src = omega arith in
    rw (e, e') (keep ∙ get_or-set_self m dst b 0 (omega arith))
get_or-move m dst src (suc n) (suc j) c s d h =
    let b = get_or m src 0 in
    let m' = set m dst b in
    let e : dst + suc j ≡ dst + 1 + j = omega arith in
    let e' : src + suc j ≡ src + 1 + j = omega arith in
    let unwrapped : masked (src + 1) ≡ src + 1 = omega arith in
    rw (e, e', unwrapped)
      (get_or-move m' (dst + 1) (src + 1) n j (omega arith) (omega arith)
          (omega (arith, length-set m dst b)) (omega arith)
        ∙ get_or-set_ne m dst (src + 1 + j) b 0 (omega arith))

length-move : (m : Mem) (dst src n : ℕ) → length (move m dst src n) ≡ length m
unfolding move
length-move m dst src zero = refl
length-move m dst src (suc n) =
    length-move (set m dst (get_or m src 0)) (dst + 1) (masked (src + 1)) n
    ∙ length-set m dst (get_or m src 0)

move-All :
    (m : Mem) (dst src n : ℕ) → All (λ b. b < 2 ^ 8) m → All (λ b. b < 2 ^ 8) (move m dst src n)
unfolding move
move-All m dst src zero h = h
move-All m dst src (suc n) h =
    move-All (set m dst (get_or m src 0)) (dst + 1) (masked (src + 1)) n
      (All-set (λ b. b < 2 ^ 8) m dst _ (All-get_or (λ b. b < 2 ^ 8) m src 0 (omega arith) h) h)

-- MEMMOVE keeps a well-formed buffer so, and changes no byte outside the masked range
-- [dstStart, dstEnd), whatever its operands are.
pub memmove_frame :
    (m : Mem) (src dst_start dst_end i : ℕ)
    → IsMem m
    → (i < masked dst_start) ⊎ (masked dst_end ≤ i)
    → IsMem (memmove m src dst_start dst_end)
      × (get_or (memmove m src dst_start dst_end) i 0 ≡ get_or m i 0)
unfolding memmove
memmove_frame m src dst_start dst_end i h out =
    let n = masked dst_end - masked dst_start in
    (
      record {
        sized = length-move m (masked dst_start) (masked src) n ∙ h.sized;
        bytes = move-All m (masked dst_start) (masked src) n h.bytes;
      },
      get_or-move_out m (masked dst_start) (masked src) n i (omega arith),
    )

-- Where the source range fits below the end of the buffer, and starts at or above the destination
-- or ends at or below it, byte i of the destination is byte i of the source as it was before.
pub memmove_copies :
    (m : Mem) (src dst_start dst_end i : ℕ)
    → IsMem m
    → masked src + (masked dst_end - masked dst_start) ≤ rawmem_bytes
    → (masked dst_start ≤ masked src)
      ⊎ (masked src + (masked dst_end - masked dst_start) ≤ masked dst_start)
    → i < masked dst_end - masked dst_start
    → get_or (memmove m src dst_start dst_end) (masked dst_start + i) 0
      ≡ get_or m (masked src + i) 0
unfolding memmove
memmove_copies m src dst_start dst_end i h fits apart lt =
    get_or-move m (masked dst_start) (masked src) (masked dst_end - masked dst_start) i apart fits
      (omega (arith, h.sized)) lt
