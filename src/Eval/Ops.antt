-- ===== src/Eval/Ops.antt =====
-- ast-eval.ts: static types, operators, variables and builtins.
use Prim.Native.Nat.{bit_and, bit_or, bit_xor}
use mog_jit.Prelude.{
  ℕ, zero, suc, ◌+◌, ◌-◌, ◌*◌, ◌/◌, ◌^◌, Bool, true, false, not, ◌&&◌, ◌||◌, List, [], ◌∷◌, Option,
  none, some, ltb, leb, ◌==◌, if◌then◌else◌, get_or,
}
use mog_jit.Prelude.Text.{Text, codes, text_eq}
use mog_jit.Prelude.Word.{to_u32, sub32, lt_s, le_s, asr}
use mog_jit.Ast.{
  PrimType, u32, i32, BinaryOp, add, sub, mul, bor, bxor, band, shl, shr, eq, ne, lt, le, gt, ge,
  bang, Expr, literal, ident, cast, assignment, conditional, logical, binary, unary, update, call,
}
use mog_jit.Eval.Types.{promote, usual, narrow, literal_type}
use mog_jit.Eval.Scope.{Frame, Slot, lookup, store_in}
use mog_jit.Eval.Machine.{
  M, ◌>>=◌, pure, throw, Extension, run_ext, shift_by, trapped, unspecified, fault,
  unknown_variable, no_such_callee, no_such_operator,
}

pub record Val : Type 0 where
  pub value : ℕ
  pub type : PrimType

abbrev pub val : ℕ → PrimType → Val
val v t = record { value = v; type = t }

unfoldable pub is_comparison : BinaryOp → Bool
is_comparison eq = true
is_comparison ne = true
is_comparison lt = true
is_comparison le = true
is_comparison gt = true
is_comparison ge = true
is_comparison _ = false

unfoldable pub is_shift : BinaryOp → Bool
is_shift shl = true
is_shift shr = true
is_shift _ = false

-- The type of an operator's result: `typeOf`'s last case, and the `type` of `binary`.
unfoldable pub binary_type : BinaryOp → PrimType → PrimType → PrimType
unfolding is_comparison is_shift
binary_type op left right =
    if is_comparison op then i32 else if is_shift op then promote left else usual left right

-- An exception of either side is one of the whole.
abbrev pub promote_of : Option PrimType → Option PrimType
promote_of none = none
promote_of (some t) = some (promote t)

abbrev pub usual_of : Option PrimType → Option PrimType → Option PrimType
usual_of none u = none
usual_of (some t) none = none
usual_of (some t) (some u) = some (usual t u)

abbrev pub slot_type : Option Slot → Option PrimType
slot_type none = none
slot_type (some s) = some s.type_of_slot

-- `typeOf`: the static type, in the scope's chain; `none` is the exception on an unknown variable.
-- The right operand of a comparison or a shift, and the left of a comparison, are not looked at.
unfoldable pub type_of : Expr → List Frame → Option PrimType
type_of (literal v) sc = some (literal_type v)
type_of (ident x) sc = slot_type (lookup x sc)
type_of (cast t e) sc = some t
type_of (logical op l r) sc = some i32
type_of (call f args) sc = some u32
type_of (assignment op x e) sc = slot_type (lookup x sc)
type_of (update op pre (ident x)) sc = slot_type (lookup x sc)
type_of (update op pre e) sc = some u32
type_of (unary bang e) sc = some i32
type_of (unary op e) sc = promote_of (type_of e sc)
type_of (conditional c a b) sc = usual_of (type_of a sc) (type_of b sc)
type_of (binary op l r) sc =
    let left = type_of l sc in
    let right = type_of r sc in
    if is_comparison op
    then some i32
    else if is_shift op
    then promote_of left
    else usual_of left right

is_i32 : PrimType → Bool
is_i32 u32 = false
is_i32 _ = true

-- Is the operation signed? Shifts ask the left operand alone.
unfoldable pub is_signed : BinaryOp → PrimType → PrimType → Bool
unfolding is_i32 is_shift promote
is_signed op left right =
    if is_shift op then is_i32 (promote left) else (is_i32 (promote left) && is_i32 (promote right))

abbrev flag : Bool → ℕ
flag true = 1
flag false = 0

-- The word that `binary` hands to `of`; `none` is a shift by 32 or more, or an operator with no
-- meaning here.
unfoldable pub arithmetic : BinaryOp → Bool → ℕ → ℕ → Option ℕ
arithmetic add signed a b = some (to_u32 (a + b))
arithmetic sub signed a b = some (sub32 a b)
arithmetic mul signed a b = some (to_u32 (a * b))
arithmetic band signed a b = some (to_u32 (bit_and a b))
arithmetic bor signed a b = some (to_u32 (bit_or a b))
arithmetic bxor signed a b = some (to_u32 (bit_xor a b))
arithmetic shl signed a b = if ltb 31 b then none else some (to_u32 (a * 2 ^ b))
arithmetic shr signed a b =
    if ltb 31 b then none else some (to_u32 (if signed then asr a b else a / 2 ^ b))
arithmetic eq signed a b = some (flag (a == b))
arithmetic ne signed a b = some (flag (not (a == b)))
arithmetic lt signed a b = some (flag (if signed then lt_s a b else ltb a b))
arithmetic le signed a b = some (flag (if signed then le_s a b else leb a b))
arithmetic gt signed a b = some (flag (if signed then lt_s b a else ltb b a))
arithmetic ge signed a b = some (flag (if signed then le_s b a else leb b a))
arithmetic _ signed a b = none

module _ {S : Type 0} where
  -- `of`, or the exception of an operator that has no word to give.
  abbrev pub settle : BinaryOp → ℕ → PrimType → Option ℕ → M S Val
  settle op b t (some v) = pure (val v t)
  settle op b t none =
      throw (if is_shift op then unspecified (shift_by b) else fault (no_such_operator op))

  unfoldable pub binary_op : BinaryOp → Val → Val → M S Val
  binary_op op left right =
      let a = to_u32 left.value in
      let b = to_u32 right.value in
      settle op b (binary_type op left.type right.type)
        (arithmetic op (is_signed op left.type right.type) a b)

  -- The type of a conditional expression: that which its two arms convert to.
  unfoldable pub static_type : Expr → Expr → M S PrimType
  static_type a b st = elim (usual_of (type_of a st.scopes) (type_of b st.scopes)) [
    | some t ↦ pure t st
    | none ↦ throw (fault unknown_variable) st
  ]

  -- `lookup`, or its exception.
  unfoldable pub find_slot : Text → M S Slot
  find_slot name st = elim (lookup name st.scopes) [
    | some s ↦ pure s st
    | none ↦ throw (fault unknown_variable) st
  ]

  -- `assign`: the value that the slot holds afterwards.
  unfoldable pub assign : Text → ℕ → M S ℕ
  unfolding find_slot
  assign name v = do
    s ← find_slot name
    λ st. pure (narrow v s.type_of_slot) (record st { scopes = store_in name v st.scopes })

-- `Math.clz32`: the binary digits that a word lacks.
bit_length : ℕ → ℕ → ℕ
bit_length zero x = 0
bit_length (suc k) x = let rest = bit_length k (x / 2) in if x == 0 then 0 else suc rest

unfoldable pub clz32 : ℕ → ℕ
unfolding bit_length
clz32 x = 32 - bit_length 32 x

-- One line of `revbits`: swap the groups of `k` bits that the mask tells apart.
abbrev swap_groups : ℕ → ℕ → ℕ → ℕ
swap_groups mask k x = bit_or (to_u32 (bit_and x mask * 2 ^ k)) (bit_and (x / 2 ^ k) mask)

unfoldable pub revbits : ℕ → ℕ
revbits x₀ =
    let x₁ = swap_groups 0x55555555 1 x₀ in
    let x₂ = swap_groups 0x33333333 2 x₁ in
    let x₃ = swap_groups 0x0f0f0f0f 4 x₂ in
    let x₄ = swap_groups 0x00ff00ff 8 x₃ in to_u32 (bit_or (to_u32 (x₄ * 2 ^ 16)) (x₄ / 2 ^ 16))

-- `/^p([0-9]+)$/`, and the number that the digits spell.
unfoldable pub parse_digits : ℕ → Text → Option ℕ
parse_digits n [] = some n
parse_digits n (d ∷ ds) =
    if leb b'0' d && leb d b'9' then parse_digits (n * 10 + (d - b'0')) ds else none

unfoldable pub proc_index : Text → Option ℕ
unfolding parse_digits
proc_index [] = none
proc_index (p ∷ []) = none
proc_index (p ∷ d ∷ ds) = if p == b'p' then parse_digits 0 (d ∷ ds) else none

unfoldable pub one_of : Text → List Text → Bool
one_of name [] = false
one_of name (w ∷ ws) = text_eq name w || one_of name ws

-- MEM_ACC_OPS, split by `startsWith("ld")`, and the rest of EXT_OPS.
abbrev pub load_ops : List Text
load_ops = codes "ld8" ∷ codes "ld16" ∷ codes "ld32" ∷ []

abbrev pub store_ops : List Text
store_ops = codes "st8" ∷ codes "st16" ∷ codes "st32" ∷ []

abbrev pub stack_ops : List Text
stack_ops = codes "memmove" ∷ codes "memcmp" ∷ codes "slicecmp" ∷ []

-- `call`, over the evaluation of the first argument, that of all of them, and `runProc`.
module _ {S : Type 0} (ext : Extension S) (run_proc : ℕ → List ℕ → M S ℕ) where
  -- A name that is no procedure's is refused before the arguments are evaluated.
  abbrev pub call_proc : Text → M S (List ℕ) → Option ℕ → M S Val
  call_proc name every (some i) = do vs ← every; r ← run_proc i vs; pure (val (to_u32 r) u32)
  call_proc name every none = throw (fault (no_such_callee name))

  unfoldable pub call_named : Text → M S Val → M S (List ℕ) → M S Val
  call_named name first every =
      if text_eq name (codes "trap")
      then (do v ← first; throw (trapped (to_u32 v.value)))
      else if text_eq name (codes "clz")
      then (do v ← first; pure (val (to_u32 (clz32 (to_u32 v.value))) u32))
      else if text_eq name (codes "revbits")
      then (do v ← first; pure (val (to_u32 (revbits (to_u32 v.value))) u32))
      else if one_of name stack_ops
      then (do vs ← every; r ← run_ext ext name vs 0; pure (val (to_u32 r) u32))
      else if one_of name load_ops
      then (do vs ← every; r ← run_ext ext name [] (get_or vs 0 0); pure (val (to_u32 r) u32))
      else if one_of name store_ops
      then (do
        vs ← every
        r ← run_ext ext name (get_or vs 0 0 ∷ []) (get_or vs 1 0)
        pure (val (to_u32 r) u32))
      else call_proc name every (proc_index name)
