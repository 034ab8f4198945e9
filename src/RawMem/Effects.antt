-- ===== src/RawMem/Effects.antt =====
-- rawmem_ext.ts: `exec` does to the stack, acc and the buffer what EFFECTS declares, and the codec
-- reads back what it wrote.
use mog_jit.Prelude.{
  ℕ, ◌+◌, ◌*◌, ◌%◌, ◌^◌, ◌<◌, ◌≡◌, ◌↔◌, ◌⊎◌, inl, inr, refl, ap, Bool, true, false, List, [], ◌∷◌,
  ◌++◌, some, arith, if◌then◌else◌, length, get_elem?, ◌==◌, Bool-cases, Option-cases,
}
use mog_jit.Prelude.Text.{Text, text_eq, text_eq-true}
use mog_jit.Eval.Machine.{done, failed}
use mog_jit.RawMem.Bytes.{Mem, at, load, store}
use mog_jit.RawMem.Exec.{
  Op, ld8, ld16, ld32, st8, st16, st32, mem_move, mem_cmp, slice_cmp, all_ops, name_of, opcode_of,
  find_op, op_named, effect_of, exec_op, exec_store, width_of, encode, decode,
}
use mog_jit.RawMem.Store.{IsMem, one, two, four, IsWidth, store_frame, load-store}

-- Two values of acc that an opcode cannot tell apart by what it declares to read, or equal ones.
abbrev pub Alike : Op → ℕ → ℕ → Type 0
Alike o acc acc₂ =
    ((effect_of o).reads_acc ≡ false)
    ⊎ (((effect_of o).writes_acc ≡ true) × (at acc₂ (width_of o) ≡ at acc (width_of o)))
    ⊎ (acc₂ ≡ acc)

-- An opcode that runs pops as many operands as it declares, and leaves acc alone unless it declares
-- a write to it. Run with another acc that is alike (the opcode does not declare to read acc, or it
-- writes acc and both are addresses of the same cell, or they are equal), it leaves the same buffer
-- and operands; and acc comes out the same if a write is declared, and as it went in otherwise.
pub exec_op-effect_of :
    (o : Op) (m m' : Mem) (cells cells' : List ℕ) (acc acc' acc₂ : ℕ)
    → exec_op o m cells acc ≡ done m' cells' acc'
    → Alike o acc acc₂
    → (length cells ≡ (effect_of o).pops + length cells')
      × (((effect_of o).writes_acc ≡ true) ⊎ (acc' ≡ acc))
      × (exec_op o m cells acc₂ ≡ done m' cells' (if (effect_of o).writes_acc then acc' else acc₂))
unfolding exec_op effect_of load
exec_op-effect_of o m m' cells cells' acc acc' acc₂ h k = ground arith

-- An opcode throws exactly if the stack holds fewer operands than it declares to pop.
pub exec_op-failed :
    (o : Op) (m : Mem) (cells : List ℕ) (acc : ℕ)
    → (exec_op o m cells acc ≡ failed m) ↔ (length cells < (effect_of o).pops)
unfolding exec_op effect_of
exec_op-failed o m cells acc = ground arith

-- A store opcode, the load opcode of the same cell, and the bytes of the cell.
pub data ReadsBack : Op → Op → ℕ → Type 0 where
  byte : ReadsBack st8 ld8 1
  halves : ReadsBack st16 ld16 2
  words : ReadsBack st32 ld32 4

store_back :
    (m : Mem) (address v width : ℕ)
    → IsWidth width
    → IsMem m
    → IsMem (store m address v width)
      × (load (store m address v width) address width ≡ v % 2 ^ (8 * width))
store_back m address v width w h = (
  (store_frame m address v width (at address width + width) h (inr (omega arith))).0,
  load-store m address v width w h,
)

-- A store opcode takes its address off the stack and its value from acc, and the load opcode of its
-- width, at the same address in acc, then puts the low bytes of the value into acc,
-- for a well-formed buffer, which is still so after the store.
pub exec_op-ReadsBack :
    (o l : Op) (width : ℕ) (m : Mem) (address v : ℕ) (cells : List ℕ)
    → ReadsBack o l width
    → IsMem m
    → (m' : Mem) × IsMem m'
      × (exec_op o m (address ∷ cells) v ≡ done m' cells v)
      × (exec_op l m' cells address ≡ done m' cells (v % 2 ^ (8 * width)))
unfolding exec_op exec_store width_of
exec_op-ReadsBack _ _ _ m address v cells byte h =
    let back = store_back m address v 1 one h in
    (store m address v 1, back.0, refl, ap (done (store m address v 1) cells) back.1)
exec_op-ReadsBack _ _ _ m address v cells halves h =
    let back = store_back m address v 2 two h in
    (store m address v 2, back.0, refl, ap (done (store m address v 2) cells) back.1)
exec_op-ReadsBack _ _ _ m address v cells words h =
    let back = store_back m address v 4 four h in
    (store m address v 4, back.0, refl, ap (done (store m address v 4) cells) back.1)

get_elem?-middle : (pre rest : List ℕ) (b : ℕ) → get_elem? (pre ++ b ∷ rest) (length pre) ≡ some b
get_elem?-middle [] rest b = refl
get_elem?-middle (x ∷ pre) rest b = get_elem?-middle pre rest b

find_opcode : (o : Op) → find_op (λ p. opcode_of p == opcode_of o) all_ops ≡ some o
unfolding find_op opcode_of
find_opcode ld8 = refl
find_opcode ld16 = refl
find_opcode ld32 = refl
find_opcode st8 = refl
find_opcode st16 = refl
find_opcode st32 = refl
find_opcode mem_move = refl
find_opcode mem_cmp = refl
find_opcode slice_cmp = refl

-- An operation found by a test passes it.
find_op-test : (p : Op → Bool) (os : List Op) {o : Op} → find_op p os ≡ some o → p o ≡ true
unfolding find_op
find_op-test p [] h = cc
find_op-test p (x ∷ os) h = elim (Bool-cases (p x)) [
  | inl e ↦ ground (arith, e)
  | inr e ↦ find_op-test p os (rw e at h)
]

encoded :
    (name : Text) {bytes : List ℕ}
    → encode name ≡ some bytes
    → (o : Op) × (op_named name ≡ some o) × (bytes ≡ opcode_of o ∷ [])
unfolding encode
encoded name h = elim (Option-cases (op_named name)) [
  | inl e ↦ ground (arith, e)
  | inr (o, e) ↦ (o, e, ground (arith, e))
]

-- Whatever `encode` writes for a name, `decode` reads back at its place among other bytes: the same
-- name, and the position behind it.
pub decode-encode :
    (name : Text) (bytes pre rest : List ℕ)
    → encode name ≡ some bytes
    → decode (pre ++ (bytes ++ rest)) (length pre) ≡ some (name, length pre + 1)
unfolding decode op_named
decode-encode name bytes pre rest h =
    let (o, named, e) = encoded name h in
    let same : name_of o ≡ name =
      text_eq-true (name_of o) name (find_op-test (λ p. text_eq (name_of p) name) all_ops named) in
    rw e
      (rw (get_elem?-middle pre rest (opcode_of o), decode) (rw (find_opcode o, decode) (rw same)))
