-- ===== src/RawMem/Exec.antt =====
-- rawmem_ext.ts: the opcodes by name, their declared effects, their codec and their `exec`.
use mog_jit.Prelude.{
  ℕ, ◌+◌, Bool, true, false, List, [], ◌∷◌, Option, none, some, ◌==◌, get_elem?, if◌then◌else◌,
}
use mog_jit.Prelude.Text.{Text, codes, text_eq}
use mog_jit.Eval.Machine.{Extension, ExtOutcome, done, failed}
use mog_jit.RawMem.Bytes.{Mem, load, store}
use mog_jit.RawMem.Loops.{memmove, memcmp, slicecmp}

-- RAWMEM_OPCODES, in its order.
pub data Op : Type 0 where
  ld8 ld16 ld32 st8 st16 st32 mem_move mem_cmp slice_cmp : Op

abbrev pub all_ops : List Op
all_ops = ld8 ∷ ld16 ∷ ld32 ∷ st8 ∷ st16 ∷ st32 ∷ mem_move ∷ mem_cmp ∷ slice_cmp ∷ []

unfoldable pub name_of : Op → Text
name_of ld8 = codes "LD8"
name_of ld16 = codes "LD16"
name_of ld32 = codes "LD32"
name_of st8 = codes "ST8"
name_of st16 = codes "ST16"
name_of st32 = codes "ST32"
name_of mem_move = codes "MEMMOVE"
name_of mem_cmp = codes "MEMCMP"
name_of slice_cmp = codes "SLICECMP"

unfoldable pub opcode_of : Op → ℕ
opcode_of ld8 = 0x80
opcode_of ld16 = 0x81
opcode_of ld32 = 0x82
opcode_of st8 = 0x83
opcode_of st16 = 0x84
opcode_of st32 = 0x85
opcode_of mem_move = 0x86
opcode_of mem_cmp = 0x87
opcode_of slice_cmp = 0x88

-- WIDTH.
unfoldable pub width_of : Op → ℕ
width_of ld8 = 1
width_of ld16 = 2
width_of ld32 = 4
width_of st8 = 1
width_of st16 = 2
width_of st32 = 4
width_of _ = 0

unfoldable pub find_op : (Op → Bool) → List Op → Option Op
find_op p [] = none
find_op p (o ∷ os) = if p o then some o else find_op p os

unfoldable pub op_named : Text → Option Op
unfolding find_op name_of
op_named name = find_op (λ o. text_eq (name_of o) name) all_ops

-- EFFECTS: what the opcode declares of the stack and of acc. `pops` is `-tosDelta`.
pub record Effect : Type 0 where
  pub pops : ℕ
  pub max_transient : ℕ
  pub reads_acc : Bool
  pub writes_acc : Bool
  pub kills_acc : Bool

unfoldable pub effect_of : Op → Effect
effect_of ld8 = record {
  pops = 0;
  max_transient = 0;
  reads_acc = true;
  writes_acc = true;
  kills_acc = false;
}
effect_of ld16 = record {
  pops = 0;
  max_transient = 0;
  reads_acc = true;
  writes_acc = true;
  kills_acc = false;
}
effect_of ld32 = record {
  pops = 0;
  max_transient = 0;
  reads_acc = true;
  writes_acc = true;
  kills_acc = false;
}
effect_of mem_move = record {
  pops = 3;
  max_transient = 0;
  reads_acc = false;
  writes_acc = false;
  kills_acc = true;
}
effect_of mem_cmp = record {
  pops = 3;
  max_transient = 0;
  reads_acc = false;
  writes_acc = true;
  kills_acc = false;
}
effect_of slice_cmp = record {
  pops = 4;
  max_transient = 1;
  reads_acc = false;
  writes_acc = true;
  kills_acc = false;
}
effect_of _ = record {
  pops = 1;
  max_transient = 0;
  reads_acc = true;
  writes_acc = false;
  kills_acc = false;
}

-- `exec` of each kind of opcode, on the operand stack with its top first. A pop of an empty stack
-- throws, and nothing has been written by then.
unfoldable pub exec_move : Mem → List ℕ → ℕ → ExtOutcome Mem
exec_move m (dst_end ∷ dst_start ∷ src ∷ cells) acc =
    done (memmove m src dst_start dst_end) cells acc
exec_move m cells acc = failed m

unfoldable pub exec_cmp : Mem → List ℕ → ℕ → ExtOutcome Mem
exec_cmp m (b_start ∷ a_end ∷ a_start ∷ cells) acc = done m cells (memcmp m a_start a_end b_start)
exec_cmp m cells acc = failed m

unfoldable pub exec_slice : Mem → List ℕ → ℕ → ExtOutcome Mem
exec_slice m (b_end ∷ b_start ∷ a_end ∷ a_start ∷ cells) acc =
    done m cells (slicecmp m a_start a_end b_start b_end)
exec_slice m cells acc = failed m

unfoldable pub exec_store : ℕ → Mem → List ℕ → ℕ → ExtOutcome Mem
exec_store width m (offset ∷ cells) acc = done (store m offset acc width) cells acc
exec_store width m [] acc = failed m

unfoldable pub exec_op : Op → Mem → List ℕ → ℕ → ExtOutcome Mem
unfolding exec_move exec_cmp exec_slice exec_store width_of
exec_op mem_move m cells acc = exec_move m cells acc
exec_op slice_cmp m cells acc = exec_slice m cells acc
exec_op mem_cmp m cells acc = exec_cmp m cells acc
exec_op ld8 m cells acc = done m cells (load m acc (width_of ld8))
exec_op ld16 m cells acc = done m cells (load m acc (width_of ld16))
exec_op ld32 m cells acc = done m cells (load m acc (width_of ld32))
exec_op st8 m cells acc = exec_store (width_of st8) m cells acc
exec_op st16 m cells acc = exec_store (width_of st16) m cells acc
exec_op st32 m cells acc = exec_store (width_of st32) m cells acc

-- `exec` by name; an unknown one throws.
exec_by_name : Option Op → Mem → List ℕ → ℕ → ExtOutcome Mem
unfolding exec_op
exec_by_name none m cells acc = failed m
exec_by_name (some o) m cells acc = exec_op o m cells acc

unfoldable pub rawmem_extension : Extension Mem
unfolding exec_by_name op_named
rawmem_extension = record { exec = λ name m cells acc. exec_by_name (op_named name) m cells acc }

-- `codec`: one byte for each opcode, and the position after it.
unfoldable pub encode : Text → Option (List ℕ)
unfolding op_named opcode_of
encode name = elim (op_named name) [ some o ↦ some (opcode_of o ∷ []) | none ↦ none ]

unfoldable pub decode : List ℕ → ℕ → Option (Text × ℕ)
unfolding find_op opcode_of name_of
decode bytes offset = elim (get_elem? bytes offset) [
  | none ↦ none
  | some b ↦ elim (find_op (λ o. opcode_of o == b) all_ops) [
    | some o ↦ some (name_of o, offset + 1)
    | none ↦ none
  ]
]
