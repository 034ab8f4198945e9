-- ===== src/RawMem/Tests.antt =====
-- The laws of the raw-memory extension at concrete buffers and operands.
use mog_jit.Prelude.{
  ℕ, ◌+◌, ◌%◌, ◌^◌, ◌*◌, ◌<◌, ◌≤◌, ◌≡◌, ◌↔◌, ◌⊎◌, inl, inr, if◌then◌else◌, refl, [], ◌∷◌, some,
  true, arith, get_or,
}
use mog_jit.Prelude.Text.{codes, text_eq}
use mog_jit.Eval.Machine.{done, failed}
use mog_jit.RawMem.Bytes.{Mem, rawmem_bytes, fresh, masked, at, load, store}
use mog_jit.RawMem.Loops.{memmove, memcmp, slicecmp}
use mog_jit.RawMem.Exec.{
  width_of, ld8, st16, ld16, st8, effect_of, exec_op, encode, decode, op_named, name_of, opcode_of,
}
use mog_jit.RawMem.Store.{IsMem, two, four, fresh-IsMem, at_bounds, load-store, store_frame}
use mog_jit.RawMem.Move.{memmove_frame, memmove_copies}
use mog_jit.RawMem.Compare.{SameWrapping, SameBytes, memcmp-zero, slicecmp-zero, slicecmp-swap}
use mog_jit.RawMem.Effects.{
  exec_op-effect_of, exec_op-failed, exec_op-ReadsBack, halves, decode-encode,
}

at_bounds_example : (at 5119 4 + 4 ≤ rawmem_bytes) × (at 5119 4 % 4 ≡ 0)
at_bounds_example = at_bounds 5119 4 four

load-store_example : load (store fresh 1021 0x12345678 2) 1021 2 ≡ 0x12345678 % 2 ^ (8 * 2)
load-store_example = load-store fresh 1021 0x12345678 2 two fresh-IsMem

store_frame_example :
    IsMem (store fresh 8 0xffff 2) × (get_or (store fresh 8 0xffff 2) 10 0 ≡ get_or fresh 10 0)
unfolding at
store_frame_example = store_frame fresh 8 0xffff 2 10 fresh-IsMem (inr (omega arith))

-- A byte at 3.
abbrev marked : Mem
marked = store fresh 3 7 1

marked-IsMem : IsMem marked
unfolding at
marked-IsMem = (store_frame fresh 3 7 1 4 fresh-IsMem (inr (omega arith))).0

memmove_frame_example :
    IsMem (memmove marked 3 8 10) × (get_or (memmove marked 3 8 10) 10 0 ≡ get_or marked 10 0)
memmove_frame_example = memmove_frame marked 3 8 10 10 marked-IsMem (inr (omega arith))

memmove_copies_example :
    get_or (memmove marked 3 8 10) (masked 8 + 1) 0 ≡ get_or marked (masked 3 + 1) 0
memmove_copies_example =
    memmove_copies marked 3 8 10 1 marked-IsMem (omega arith) (inr (omega arith)) (omega arith)

memcmp-zero_example : (memcmp marked 3 5 8 ≡ 0) ↔ SameWrapping marked 3 8 2
memcmp-zero_example = memcmp-zero marked 3 5 8 marked-IsMem

slicecmp-zero_example :
    (slicecmp marked 3 5 8 10 ≡ 0) ↔ ((◌≡◌ {A = ℕ} 2 2) × SameBytes marked 3 8 2)
slicecmp-zero_example = slicecmp-zero marked 3 5 8 10 marked-IsMem

slicecmp-swap_example : (slicecmp marked 3 5 8 9 + slicecmp marked 8 9 3 5) % 2 ^ 32 ≡ 0
slicecmp-swap_example = slicecmp-swap marked 3 5 8 9 marked-IsMem

-- A load reads of acc the address alone, which wraps at the size of the buffer.
exec_op-effect_of_example :
    (0 ≡ (effect_of ld8).pops + 0)
    × (((effect_of ld8).writes_acc ≡ true) ⊎ (◌≡◌ {A = ℕ} (load marked 3 1) 3))
    × (exec_op ld8 marked [] (rawmem_bytes + 3)
        ≡ done marked [] (if (effect_of ld8).writes_acc then load marked 3 1 else rawmem_bytes + 3))
unfolding exec_op effect_of at width_of
exec_op-effect_of_example =
    exec_op-effect_of ld8 marked marked [] [] 3 (load marked 3 1) (rawmem_bytes + 3) refl
      (inr (inl (refl, refl)))

exec_op-failed_example : (exec_op st8 marked [] 5 ≡ failed marked) ↔ (0 < (effect_of st8).pops)
exec_op-failed_example = exec_op-failed st8 marked [] 5

exec_op-ReadsBack_example :
    (m' : Mem) × IsMem m'
    × (exec_op st16 marked (9 ∷ 4 ∷ []) 0x12345 ≡ done m' (4 ∷ []) 0x12345)
    × (exec_op ld16 m' (4 ∷ []) 9 ≡ done m' (4 ∷ []) (0x12345 % 2 ^ (8 * 2)))
exec_op-ReadsBack_example =
    exec_op-ReadsBack st16 ld16 2 marked 9 0x12345 (4 ∷ []) halves marked-IsMem

decode-encode_example : decode (1 ∷ 0x82 ∷ 2 ∷ []) 1 ≡ some (codes "LD32", 2)
unfolding encode op_named name_of text_eq opcode_of
decode-encode_example = decode-encode (codes "LD32") (0x82 ∷ []) (1 ∷ []) (2 ∷ []) refl
