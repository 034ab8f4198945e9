-- ===== src/RawMem/Store.antt =====
-- Loads and stores of rawmem_ext.ts: where they land, what they keep, and that a load reads back
-- what a store of its width wrote.
use mog_jit.Prelude.{
  ℕ, zero, suc, ◌+◌, ◌*◌, ◌/◌, ◌%◌, ◌^◌, ◌≤◌, ◌<◌, ◌≡◌, ◌⊎◌, inl, refl, ◌∙◌, ap, arith, length,
  get_or, set, replicate, All, All-set, length-set, get_or-set_self, get_or-set_ne,
}
use mog_jit.RawMem.Bytes.{Mem, rawmem_bytes, fresh, at, load_bytes, load, store_bytes, store}

-- A buffer of the right size that holds bytes.
pub record IsMem (m : Mem) : Type 0 where
  pub sized : length m ≡ rawmem_bytes
  pub bytes : All (λ b. b < 2 ^ 8) m

-- The widths of an access.
pub data IsWidth : ℕ → Type 0 where
  one : IsWidth 1
  two : IsWidth 2
  four : IsWidth 4

-- An access of any width lies inside the buffer and is aligned.
pub at_bounds :
    (offset width : ℕ)
    → IsWidth width
    → (at offset width + width ≤ rawmem_bytes) × (at offset width % width ≡ 0)
unfolding at
at_bounds offset _ one = omega arith
at_bounds offset _ two = omega arith
at_bounds offset _ four = omega arith

pub length-store_bytes : (m : Mem) (base v n : ℕ) → length (store_bytes m base v n) ≡ length m
unfolding store_bytes
length-store_bytes m base v zero = refl
length-store_bytes m base v (suc n) =
    length-store_bytes (set m base (v % 2 ^ 8)) (base + 1) (v / 2 ^ 8) n
    ∙ length-set m base (v % 2 ^ 8)

store_bytes-All :
    (m : Mem) (base v n : ℕ)
    → All (λ b. b < 2 ^ 8) m
    → All (λ b. b < 2 ^ 8) (store_bytes m base v n)
unfolding store_bytes
store_bytes-All m base v zero h = h
store_bytes-All m base v (suc n) h =
    store_bytes-All (set m base (v % 2 ^ 8)) (base + 1) (v / 2 ^ 8) n
      (All-set (λ b. b < 2 ^ 8) m base (v % 2 ^ 8) (omega arith) h)

get_or-store_bytes :
    (m : Mem) (base v n i : ℕ)
    → (i < base) ⊎ (base + n ≤ i)
    → get_or (store_bytes m base v n) i 0 ≡ get_or m i 0
unfolding store_bytes
get_or-store_bytes m base v zero i h = refl
get_or-store_bytes m base v (suc n) i h =
    get_or-store_bytes (set m base (v % 2 ^ 8)) (base + 1) (v / 2 ^ 8) n i (omega arith)
    ∙ get_or-set_ne m base i (v % 2 ^ 8) 0 (omega arith)

-- The low bytes of a value, as they are put together again.
low_bytes : ℕ → ℕ → ℕ
low_bytes v zero = 0
low_bytes v (suc n) = v % 2 ^ 8 + 2 ^ 8 * low_bytes (v / 2 ^ 8) n

load_bytes-store_bytes :
    (m : Mem) (base v n : ℕ)
    → base + n ≤ length m
    → load_bytes (store_bytes m base v n) base n ≡ low_bytes v n
unfolding load_bytes store_bytes low_bytes
load_bytes-store_bytes m base v zero h = refl
load_bytes-store_bytes m base v (suc n) h =
    let m' = set m base (v % 2 ^ 8) in
    let rest =
      load_bytes-store_bytes m' (base + 1) (v / 2 ^ 8) n
        (omega (arith, length-set m base (v % 2 ^ 8))) in
    let first =
      get_or-store_bytes m' (base + 1) (v / 2 ^ 8) n base (inl (omega arith))
      ∙ get_or-set_self m base (v % 2 ^ 8) 0 (omega arith) in
    omega (arith, rest, first)

low_bytes-width : (v width : ℕ) → IsWidth width → low_bytes v width % 2 ^ 32 ≡ v % 2 ^ (8 * width)
unfolding low_bytes
low_bytes-width v _ one = omega arith
low_bytes-width v _ two = omega arith
low_bytes-width v _ four = omega arith

-- A load at the offset of a store of the same width gives the low bytes of the stored value, for a
-- buffer of the right size.
pub load-store :
    (m : Mem) (offset v width : ℕ)
    → IsWidth width
    → IsMem m
    → load (store m offset v width) offset width ≡ v % 2 ^ (8 * width)
unfolding load store
load-store m offset v width w h =
    ap (λ x. x % 2 ^ 32)
      (load_bytes-store_bytes m (at offset width) v width
        (omega (arith, at_bounds offset width w, h.sized)))
    ∙ low_bytes-width v width w

-- A store keeps a well-formed buffer so, and changes no byte outside the cell that it writes.
pub store_frame :
    (m : Mem) (offset v width i : ℕ)
    → IsMem m
    → (i < at offset width) ⊎ (at offset width + width ≤ i)
    → IsMem (store m offset v width) × (get_or (store m offset v width) i 0 ≡ get_or m i 0)
unfolding store
store_frame m offset v width i h out = (
  record {
    sized = length-store_bytes m (at offset width) v width ∙ h.sized;
    bytes = store_bytes-All m (at offset width) v width h.bytes;
  },
  get_or-store_bytes m (at offset width) v width i out,
)

replicate-All : (n : ℕ) → All (λ b. b < 2 ^ 8) (replicate n 0)
replicate-All zero = tt
replicate-All (suc n) = (omega arith, replicate-All n)

length-replicate : (n : ℕ) → length {A = ℕ} (replicate n 0) ≡ n
length-replicate zero = refl
length-replicate (suc n) = ap suc (length-replicate n)

pub fresh-IsMem : IsMem fresh
unfolding fresh
fresh-IsMem = record { sized = length-replicate rawmem_bytes; bytes = replicate-All rawmem_bytes }
