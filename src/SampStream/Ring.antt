-- ===== src/SampStream/Ring.antt =====
-- sampstream_ext.ts: samples pass through unchanged, and the event ring keeps the last 32 events.
use mathlib.Core.Option.{some-injective}
use mog_jit.Prelude.{
  ap, subst, ℕ, zero, suc, ◌+◌, ◌/◌, ◌%◌, ◌^◌, ◌<◌, ◌≤◌, ◌≡◌, ◌∙◌, ◌⊎◌, refl, arith, List, [], ◌∷◌,
  some, length, length-set, get_or, get_elem?, set, get_or-set_self, get_or-set_ne,
}
use mog_jit.Eval.Machine.{done}
use mog_jit.SampStream.{
  reset, Streams, sample_at, out_at, exec, sign_extend, pack_event, triggered, in_samples,
  out_samples, event_slots,
}

-- The index and the kind can be read back from a packed event, for an index of at most 28 bits and a
-- kind of at most four.
pub unpack-pack_event :
    (index kind : ℕ)
    → index < 2 ^ 28
    → kind < 2 ^ 4
    → (pack_event index kind / 2 ^ 4 ≡ index) × (pack_event index kind % 2 ^ 4 ≡ kind)
unfolding pack_event
unpack-pack_event index kind h k = (omega arith, omega arith)

-- A run of TRIGGER opcodes: the kind and the index of each.
unfoldable pub trigger_all : List (ℕ × ℕ) → Streams → Streams
trigger_all [] s = s
trigger_all ((kind, index) ∷ rest) s = trigger_all rest (triggered kind index s)

-- The slots of the last 32 events are not written again.
trigger_all-keeps :
    (ts : List (ℕ × ℕ)) (s : Streams) (k : ℕ)
    → k < s.count
    → s.count + length ts ≤ k + event_slots
    → get_or (trigger_all ts s).events (k % event_slots) 0 ≡ get_or s.events (k % event_slots) 0
unfolding trigger_all triggered
trigger_all-keeps [] s k h l = refl
trigger_all-keeps ((kind, index) ∷ rest) s k h l =
    trigger_all-keeps rest (triggered kind index s) k (omega arith) (omega arith)
    ∙ get_or-set_ne s.events (s.count % event_slots) (k % event_slots) (pack_event index kind) 0
        (λ e. omega arith)

trigger_all-at :
    (ts : List (ℕ × ℕ)) (s : Streams) (k kind index : ℕ)
    → length s.events ≡ event_slots
    → get_elem? ts k ≡ some (kind, index)
    → length ts ≤ k + event_slots
    → get_or (trigger_all ts s).events ((s.count + k) % event_slots) 0 ≡ pack_event index kind
unfolding trigger_all triggered
trigger_all-at [] s k kind index w h l = cc
trigger_all-at ((c, i) ∷ rest) s zero kind index w h l =
    let e : s.count + 0 ≡ s.count = omega arith in
    let pair = some-injective (c, i) (kind, index) h in
    let here = s.count % event_slots in
    rw e (
      trigger_all-keeps rest (triggered c i s) s.count (omega arith) (omega arith)
      ∙ get_or-set_self s.events here (pack_event i c) 0 (omega (arith, w))
      ∙ ap (λ (p : ℕ × ℕ). pack_event p.1 p.0) pair)
trigger_all-at ((c, i) ∷ rest) s (suc k) kind index w h l =
    let e : s.count + suc k ≡ s.count + 1 + k = omega arith in
    let m = length-set s.events (s.count % event_slots) (pack_event i c) in
    rw e (trigger_all-at rest (triggered c i s) k kind index (m ∙ w) h (omega arith))

trigger_all-count :
    (ts : List (ℕ × ℕ)) (s : Streams) → (trigger_all ts s).count ≡ s.count + length ts
unfolding trigger_all triggered
trigger_all-count [] s = omega arith
trigger_all-count ((kind, index) ∷ rest) s =
    omega (arith, trigger_all-count rest (triggered kind index s))

-- From a reset extension, after a run of triggers the count is their number, without a mask, and
-- each of the last 32 of them stands, packed, in the slot of its position modulo 32.
pub trigger_all-ring :
    (ts : List (ℕ × ℕ)) (s : Streams) (k kind index : ℕ)
    → get_elem? ts k ≡ some (kind, index)
    → length ts ≤ k + event_slots
    → ((trigger_all ts (reset s)).count ≡ length ts)
      × (get_or (trigger_all ts (reset s)).events (k % event_slots) 0 ≡ pack_event index kind)
unfolding reset
trigger_all-ring ts s k kind index h l =
    let c = trigger_all-count ts (reset s) in
    let e : 0 + k ≡ k = omega arith in
    let at = trigger_all-at ts (reset s) k kind index refl h l in
    (
      c ∙ omega arith,
      subst
          (λ j.
            get_or (trigger_all ts (reset s)).events (j % event_slots) 0 ≡ pack_event index kind)
          e at,
    )

-- SAMPLE_AT leaves the 16-bit cell sign-extended in acc: itself below 2 ^ 15, and otherwise the word
-- that is as far below 2 ^ 32 as the cell is below 2 ^ 16. A following OUT_AT, with the output's
-- index on the stack, cuts it back to the cell, in an output of its full size.
pub out_at-sample_at :
    (s : Streams) (i j : ℕ)
    → get_or s.input (i % in_samples) 0 < 2 ^ 16
    → length s.output ≡ out_samples
    → (acc : ℕ) × (s₁ : Streams) × (exec sample_at s (j ∷ []) i ≡ done s (j ∷ []) acc)
      × (exec out_at s (j ∷ []) acc ≡ done s₁ [] acc)
      × (get_or s₁.output (j % out_samples) 0 ≡ get_or s.input (i % in_samples) 0)
      × (((get_or s.input (i % in_samples) 0 < 2 ^ 15) × (acc ≡ get_or s.input (i % in_samples) 0))
          ⊎ ((2 ^ 15 ≤ get_or s.input (i % in_samples) 0)
              × (acc + 2 ^ 16 ≡ get_or s.input (i % in_samples) 0 + 2 ^ 32)))
unfolding exec sign_extend
out_at-sample_at s i j h w =
    let cell = get_or s.input (i % in_samples) 0 in
    let v = sign_extend cell in
    (
      v,
      record s { output = set s.output (j % out_samples) (v % 2 ^ 16) },
      refl,
      refl,
      get_or-set_self s.output (j % out_samples) (v % 2 ^ 16) 0 (omega (arith, w))
          ∙ ground (arith, h),
      ground (arith, h),
    )
