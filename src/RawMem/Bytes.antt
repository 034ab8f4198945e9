-- ===== src/RawMem/Bytes.antt =====
-- rawmem_ext.ts: addressing, loads and stores.
use mog_jit.Prelude.{ℕ, zero, suc, ◌+◌, ◌-◌, ◌*◌, ◌/◌, ◌%◌, ◌^◌, List, get_or, set, replicate}
use mog_jit.Prelude.Word.{to_u32}

abbrev pub rawmem_bytes : ℕ
rawmem_bytes = 1024

abbrev pub Mem : Type 0
Mem = List ℕ

-- `new Uint8Array(RAWMEM_BYTES)`, and `reset()`.
unfoldable pub fresh : Mem
fresh = replicate rawmem_bytes 0

-- `x & ADDR_MASK`, which is the buffer's size less one.
abbrev pub masked : ℕ → ℕ
masked x = x % rawmem_bytes

-- `at`: masked, and aligned down to the width, a power of two.
unfoldable pub at : ℕ → ℕ → ℕ
at offset width = masked offset - masked offset % width

-- `load`, little-endian: the bytes from `base` on, the first one lowest. The bytes do not overlap,
-- so `|=` of each at its own place is their sum.
unfoldable pub load_bytes : Mem → ℕ → ℕ → ℕ
load_bytes m base zero = 0
load_bytes m base (suc n) = get_or m base 0 + 2 ^ 8 * load_bytes m (base + 1) n

unfoldable pub load : Mem → ℕ → ℕ → ℕ
unfolding load_bytes at
load m offset width = to_u32 (load_bytes m (at offset width) width)

-- `store`: byte i of the value is `(value >>> (8 * i)) & 0xff`.
unfoldable pub store_bytes : Mem → ℕ → ℕ → ℕ → Mem
store_bytes m base v zero = m
store_bytes m base v (suc n) = store_bytes (set m base (v % 2 ^ 8)) (base + 1) (v / 2 ^ 8) n

unfoldable pub store : Mem → ℕ → ℕ → ℕ → Mem
unfolding store_bytes at
store m offset v width = store_bytes m (at offset width) v width
