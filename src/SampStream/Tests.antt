-- ===== src/SampStream/Tests.antt =====
-- The sample stream at a negative sample and at three triggers.
use mog_jit.Prelude.{ℕ, ◌/◌, ◌%◌, ◌^◌, ◌+◌, ◌<◌, ◌≤◌, ◌⊎◌, ◌≡◌, refl, arith, List, [], ◌∷◌, get_or}
use mog_jit.Eval.Machine.{done}
use mog_jit.SampStream.{
  Streams, started, reset, exec, sample_at, out_at, pack_event, event_slots, in_samples,
  out_samples,
}
use mog_jit.SampStream.Ring.{unpack-pack_event, trigger_all, trigger_all-ring, out_at-sample_at}

unpack-pack_event_example : (pack_event 1000 3 / 2 ^ 4 ≡ 1000) × (pack_event 1000 3 % 2 ^ 4 ≡ 3)
unpack-pack_event_example = unpack-pack_event 1000 3 (omega arith) (omega arith)

-- -3 as a 16-bit cell.
abbrev streams : Streams
streams = started (0xfffd ∷ [])

abbrev three_triggers : List (ℕ × ℕ)
three_triggers = (1, 10) ∷ (2, 20) ∷ (3, 30) ∷ []

trigger_all-ring_example :
    ((trigger_all three_triggers (reset streams)).count ≡ 3)
    × (get_or (trigger_all three_triggers (reset streams)).events (1 % event_slots) 0
        ≡ pack_event 20 2)
trigger_all-ring_example = trigger_all-ring three_triggers streams 1 2 20 refl (omega arith)

out_at-sample_at_example :
    (acc : ℕ) × (s₁ : Streams) × (exec sample_at streams (5 ∷ []) 0 ≡ done streams (5 ∷ []) acc)
    × (exec out_at streams (5 ∷ []) acc ≡ done s₁ [] acc)
    × (get_or s₁.output (5 % out_samples) 0 ≡ get_or streams.input (0 % in_samples) 0)
    × (((get_or streams.input (0 % in_samples) 0 < 2 ^ 15)
          × (acc ≡ get_or streams.input (0 % in_samples) 0))
        ⊎ ((2 ^ 15 ≤ get_or streams.input (0 % in_samples) 0)
            × (acc + 2 ^ 16 ≡ get_or streams.input (0 % in_samples) 0 + 2 ^ 32)))
unfolding started
out_at-sample_at_example = out_at-sample_at streams 0 5 (omega arith) refl
