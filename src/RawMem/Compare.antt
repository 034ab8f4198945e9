-- ===== src/RawMem/Compare.antt =====
-- MEMCMP and SLICECMP of rawmem_ext.ts: when they tell equal, and what the order of the operands
-- does.
use mog_jit.Prelude.{
  ℕ, zero, suc, ◌+◌, ◌-◌, ◌%◌, ◌^◌, ◌<◌, ◌≡◌, ◌↔◌, refl, arith, get_or, All-get_or, min, ◌==◌,
  Bool-cases, inl, inr,
}
use mog_jit.Prelude.Word.{sub32}
use mog_jit.RawMem.Bytes.{Mem, rawmem_bytes, masked}
use mog_jit.RawMem.Loops.{compare_wrapping, compare_slices, memcmp, slicecmp}
use mog_jit.RawMem.Store.{IsMem}

byte-lt : (m : Mem) (i : ℕ) → IsMem m → get_or m i 0 < 2 ^ 8
byte-lt m i h = All-get_or (λ b. b < 2 ^ 8) m i 0 (omega arith) h.bytes

-- To show a statement of every index below n + 1: that of 0, and of every successor.
below-cons :
    (P : ℕ → Type 0) (n : ℕ) → P 0 → ((i : ℕ) → i < n → P (suc i)) → (i : ℕ) → i < suc n → P i
below-cons P n z s zero h = z
below-cons P n z s (suc i) h = s i (omega arith)

-- Byte a + i is byte b + i, where the second index wraps.
abbrev pub SameWrapping : Mem → ℕ → ℕ → ℕ → Type 0
SameWrapping m a b n = (i : ℕ) → i < n → get_or m (a + i) 0 ≡ get_or m (masked (b + i)) 0

wrapping-here :
    (m : Mem) (a b : ℕ)
    → b < rawmem_bytes
    → (get_or m (a + 0) 0 ≡ get_or m (masked (b + 0)) 0) ↔ (get_or m a 0 ≡ get_or m b 0)
wrapping-here m a b h =
    let ea : a + 0 ≡ a = omega arith in
    let eb : masked (b + 0) ≡ b = omega arith in rw (ea, eb) (λ e. e, λ e. e)

wrapping-next :
    (m : Mem) (a b i : ℕ)
    → (get_or m (a + suc i) 0 ≡ get_or m (masked (b + suc i)) 0)
      ↔ (get_or m (a + 1 + i) 0 ≡ get_or m (masked (masked (b + 1) + i)) 0)
wrapping-next m a b i =
    let ea : a + suc i ≡ a + 1 + i = omega arith in
    let eb : masked (b + suc i) ≡ masked (masked (b + 1) + i) = omega arith in
    rw (ea, eb) (λ e. e, λ e. e)

compare_wrapping-zero :
    (m : Mem) (a b n : ℕ)
    → IsMem m
    → b < rawmem_bytes
    → (compare_wrapping m a b n ≡ 0) ↔ SameWrapping m a b n
unfolding compare_wrapping
compare_wrapping-zero m a b zero h lt = (λ _ i k. elim k [ ], λ _. refl)
compare_wrapping-zero m a b (suc n) h lt =
    let ih = compare_wrapping-zero m (a + 1) (masked (b + 1)) n h (omega arith) in
    elim (Bool-cases (get_or m a 0 == get_or m b 0)) [
      | inl e ↦ rw e (
        λ z.
            below-cons (λ i. get_or m (a + i) 0 ≡ get_or m (masked (b + i)) 0) n
              ((wrapping-here m a b lt).1 (ground arith))
              (λ i k. (wrapping-next m a b i).1 (ih.0 z i k)),
        λ s. ih.1 (λ i k. (wrapping-next m a b i).0 (s (suc i) (omega arith))),
      )
      | inr e ↦ rw e (
        λ z. absurd (ground (arith, byte-lt m a h, byte-lt m b h)),
        λ s. absurd (ground (arith, (wrapping-here m a b lt).0 (s 0 (omega arith)))),
      )
    ]

-- MEMCMP answers 0 exactly if the masked range has the bytes that stand from bStart on, where that
-- index wraps at the end of the buffer.
pub memcmp-zero :
    (m : Mem) (a_start a_end b_start : ℕ)
    → IsMem m
    → (memcmp m a_start a_end b_start ≡ 0)
      ↔ SameWrapping m (masked a_start) (masked b_start) (masked a_end - masked a_start)
unfolding memcmp
memcmp-zero m a_start a_end b_start h =
    compare_wrapping-zero m (masked a_start) (masked b_start) (masked a_end - masked a_start) h
      (omega arith)

-- From here on a comparison of slices: what one order gives is the negative of what the other gives.
compare_slices-swap :
    (m : Mem) (a b n s t : ℕ)
    → IsMem m
    → (s + t) % 2 ^ 32 ≡ 0
    → (compare_slices m a b n s + compare_slices m b a n t) % 2 ^ 32 ≡ 0
unfolding compare_slices
compare_slices-swap m a b zero s t h z = z
compare_slices-swap m a b (suc n) s t h z =
    ground (arith, compare_slices-swap m (a + 1) (b + 1) n s t h z, byte-lt m a h, byte-lt m b h)

-- Swapping the two slices negates the answer of SLICECMP, as a 32-bit word.
pub slicecmp-swap :
    (m : Mem) (a_start a_end b_start b_end : ℕ)
    → IsMem m
    → (slicecmp m a_start a_end b_start b_end + slicecmp m b_start b_end a_start a_end) % 2 ^ 32 ≡ 0
unfolding slicecmp
slicecmp-swap m a_start a_end b_start b_end h =
    let len_a = masked a_end - masked a_start in
    let len_b = masked b_end - masked b_start in
    let swapped : min len_b len_a ≡ min len_a len_b = omega arith in
    rw swapped (
      compare_slices-swap m (masked a_start) (masked b_start) (min len_a len_b) (sub32 len_a len_b)
        (sub32 len_b len_a) h (omega arith))

-- The n bytes from a on are the n bytes from b on.
abbrev pub SameBytes : Mem → ℕ → ℕ → ℕ → Type 0
SameBytes m a b n = (i : ℕ) → i < n → get_or m (a + i) 0 ≡ get_or m (b + i) 0

same-cons :
    (m : Mem) (a b n : ℕ)
    → get_or m a 0 ≡ get_or m b 0
    → SameBytes m (a + 1) (b + 1) n
    → SameBytes m a b (suc n)
same-cons m a b n e s =
    below-cons (λ i. get_or m (a + i) 0 ≡ get_or m (b + i) 0) n
      (let ea : a + 0 ≡ a = omega arith in let eb : b + 0 ≡ b = omega arith in rw (ea, eb) e)
      (λ i h.
        (let ea : a + suc i ≡ a + 1 + i = omega arith in
          let eb : b + suc i ≡ b + 1 + i = omega arith in rw (ea, eb) (s i h)))

same-head : (m : Mem) (a b n : ℕ) → SameBytes m a b (suc n) → get_or m a 0 ≡ get_or m b 0
same-head m a b n s =
    let ea : a + 0 ≡ a = omega arith in
    let eb : b + 0 ≡ b = omega arith in rw (ea, eb) at (s 0 (omega arith))

same-tail : (m : Mem) (a b n : ℕ) → SameBytes m a b (suc n) → SameBytes m (a + 1) (b + 1) n
same-tail m a b n s i h =
    let ea : a + suc i ≡ a + 1 + i = omega arith in
    let eb : b + suc i ≡ b + 1 + i = omega arith in rw (ea, eb) at (s (suc i) (omega arith))

compare_slices-zero :
    (m : Mem) (a b n tie : ℕ)
    → IsMem m
    → (compare_slices m a b n tie ≡ 0) ↔ (SameBytes m a b n × (tie ≡ 0))
unfolding compare_slices
compare_slices-zero m a b zero tie h = (λ z. (λ i lt. elim lt [ ], z), λ s. s.1)
compare_slices-zero m a b (suc n) tie h =
    let ih = compare_slices-zero m (a + 1) (b + 1) n tie h in
    elim (Bool-cases (get_or m a 0 == get_or m b 0)) [
      | inl e ↦ rw e (
        λ z. (same-cons m a b n (ground arith) (ih.0 z).0, (ih.0 z).1),
        λ s. ih.1 (same-tail m a b n s.0, s.1),
      )
      | inr e ↦ rw e (
        λ z. absurd (ground (arith, byte-lt m a h, byte-lt m b h)),
        λ s. absurd (ground (arith, same-head m a b n s.0)),
      )
    ]

-- SLICECMP answers 0 exactly if the two masked slices have the same length and the same bytes.
pub slicecmp-zero :
    (m : Mem) (a_start a_end b_start b_end : ℕ)
    → IsMem m
    → (slicecmp m a_start a_end b_start b_end ≡ 0) ↔ (
        (masked a_end - masked a_start ≡ masked b_end - masked b_start)
        × SameBytes m (masked a_start) (masked b_start) (masked a_end - masked a_start))
unfolding slicecmp
slicecmp-zero m a_start a_end b_start b_end h =
    let la = masked a_end - masked a_start in
    let lb = masked b_end - masked b_start in
    let ends =
      compare_slices-zero m (masked a_start) (masked b_start) (min la lb) (sub32 la lb) h in
    (
      λ z.
          (let same : la ≡ lb = omega (arith, (ends.0 z).1) in
            let e : min la lb ≡ la = omega arith in (same, rw e at (ends.0 z).0)),
      λ s.
          (let same : la ≡ lb = s.0 in
            let e : min la lb ≡ la = omega arith in ends.1 (rw e s.1, omega arith)),
    )
