-- ===== src/SampStream.antt =====
-- bench/ts/lib/sampstream_ext.ts: the state of the sample-stream extension and its opcodes. A 16-bit
-- cell holds a signed sample.
mod Ring
mod Tests
use mog_jit.Prelude.{
  ℕ, ◌+◌, ◌*◌, ◌%◌, ◌^◌, List, [], ◌∷◌, get_or, set, replicate, ltb, if◌then◌else◌,
}
use mog_jit.Prelude.Word.{to_u32}
use mog_jit.Eval.Machine.{ExtOutcome, done, failed}

abbrev pub in_samples : ℕ
in_samples = 4096

abbrev pub out_samples : ℕ
out_samples = 1024

abbrev pub event_slots : ℕ
event_slots = 32

-- The index above four bits of kind: the two do not overlap, so `|` is a sum.
unfoldable pub pack_event : ℕ → ℕ → ℕ
pack_event index kind = to_u32 (index * 2 ^ 4) + kind % 2 ^ 4

pub record Streams : Type 0 where
  pub input : List ℕ
  pub output : List ℕ
  pub events : List ℕ
  pub count : ℕ

-- The extension as it is made, over the input that the harness fills.
unfoldable pub started : List ℕ → Streams
started samples = record {
  input = samples;
  output = replicate out_samples 0;
  events = replicate event_slots 0;
  count = 0;
}

unfoldable pub reset : Streams → Streams
reset s = record s { output = replicate out_samples 0; events = replicate event_slots 0; count = 0 }

-- What reading an Int16Array gives, as a word.
unfoldable pub sign_extend : ℕ → ℕ
sign_extend cell = if ltb cell (2 ^ 15) then cell else cell + 0xffff0000

-- An opcode with its operand.
pub data SampOp : Type 0 where
  sample_at out_at : SampOp
  trigger : ℕ → SampOp

-- The TRIGGER case.
unfoldable pub triggered : ℕ → ℕ → Streams → Streams
unfolding pack_event
triggered kind index s = record s {
  events = set s.events (s.count % event_slots) (pack_event index kind);
  count = s.count + 1;
}

-- `exec`, on the operand stack with its top first, and acc. A pop of an empty stack throws.
unfoldable pub exec : SampOp → Streams → List ℕ → ℕ → ExtOutcome Streams
unfolding sign_extend triggered
exec sample_at s cells acc = done s cells (sign_extend (get_or s.input (acc % in_samples) 0))
exec out_at s [] acc = failed s
exec out_at s (index ∷ cells) acc =
    done (record s { output = set s.output (index % out_samples) (acc % 2 ^ 16) }) cells acc
exec (trigger kind) s cells acc = done (triggered kind acc s) cells acc
